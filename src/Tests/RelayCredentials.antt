-- ===== src/Tests/RelayCredentials.antt =====
-- Concrete runs of app/services/relay_credentials.py.
use gc_image_stream.Prelude
use gc_image_stream.Prelude.{ℕ, String, Option, none, some, [], ◌∷◌, ◌≡◌, refl, string_eq}
use gc_image_stream.Session.Keyed
use gc_image_stream.Session.Keyed.{get}
use gc_image_stream.Session.RelayScopes
use gc_image_stream.Session.Scopes
use gc_image_stream.Session.Values
use gc_image_stream.Session.Values.{
  Value, Fields, Checked, ok, pos, text, array, object, nil, item, end, field, integer,
}
use gc_image_stream.Session.Credentials.{Claim}
use gc_image_stream.Session.RelayScopes.{RelayCredential, verify_relay}
use gc_image_stream.Session.RelayCredentials.{Provider, Issue, resolve_relay_for_claim}
use gc_image_stream.Session.Relayed.{IsGood, resolve_relay-IsGood}
use gc_image_stream.Tests.Session.{platform, digest, session_claims, jwt_of, verifier, moment}

abbrev relay_claims : Fields
relay_claims =
    field "credential_kind" (text "PROCESSING_RELAY")
      (field "coordinator_subject" (text "coordinator") session_claims)

abbrev claim : Claim
claim = record {
  tenant_id = some "t";
  site_id = some "s";
  capture_session_id = some "c";
  processing_job_id = some "job";
  profile_digest = some digest;
  authorized_subject = none;
  session_token_jti = none;
  authorized_camera_ids = "right" ∷ "left" ∷ [];
}

-- No credential is kept, and no access token.
abbrev provider : Provider String
provider = record {
  refresh_skew_sec = 15;
  access_tokens = record { refresh_skew_sec = 15; cached = none };
  verifier = verifier;
  credentials = [];
}

-- The token is issued, with a reply that names its scope.
abbrev call : Issue
call = record {
  moment = moment;
  token_time = 50;
  token_reply =
      some
        (object (field "access_token" (text "access") (field "expires_in" (integer (pos 60)) end)));
  post = λ token tenant job. some (record {
    status_code = 200;
    is_error = Prelude.false;
    relay_token = some "token";
    payload = some (
        object (
          field "credentialId" (text "job") (
            field "captureSessionId" (text "c") (
              field "processingJobId" (text "job") (
                field "credentialKind" (text "PROCESSING_RELAY") (
                  field "cameraIds" (array (item (text "left") (item (text "right") nil)))
                    end))))));
  });
}

abbrev seconds : Value → Option ℕ
seconds value = some 60

abbrev resolved : Provider String × Checked RelayCredential
resolved = resolve_relay_for_claim platform seconds (jwt_of relay_claims) provider claim call

abbrev credential : RelayCredential
credential = record {
  token = "token";
  scope = record {
    tenant_id = "t";
    site_id = "s";
    capture_session_id = "c";
    processing_job_id = "job";
    profile_digest = digest;
    coordinator_subject = "coordinator";
    camera_ids = "left" ∷ "right" ∷ [];
    workload_subject = "subject";
    token_jti = "job";
    expires_at = pos 100;
  };
}

resolved_lem : resolved ≡ (resolved.0, ok credential)
unfolding resolve_relay_for_claim Keyed.get Keyed.put Values.◌>>=◌ Scopes.all_hex Scopes.text_length
    Prelude.strip RelayScopes.relay_scope_from_claims
resolved_lem = refl

resolve_relay-IsGood_example :
    IsGood credential claim 50
    × (job : String) × (claim.processing_job_id ≡ some job)
    × (get resolved.0.credentials job ≡ some credential)
resolve_relay-IsGood_example =
    resolve_relay-IsGood platform seconds (jwt_of relay_claims) provider claim call resolved_lem
