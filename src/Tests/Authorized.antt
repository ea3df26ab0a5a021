-- ===== src/Tests/Authorized.antt =====
-- A camera credential that the verifier of either kind accepts.
use gc_image_stream.Prelude.{String, ◌≡◌, ◌≤◌, refl, Option, none, some}
use gc_image_stream.Prelude
use gc_image_stream.Session.Values
use gc_image_stream.Session.Keyed
use gc_image_stream.Session.Scopes
use gc_image_stream.Session.Values.{Value, Fields, get_field, Checked, ok}
use gc_image_stream.Session.Versioned.{Scope, camera_scope, Versioned, verify}
use gc_image_stream.Session.Authorized.{IsAuthorized, verify-IsAuthorized}
use gc_image_stream.Tests.Session as Run

abbrev verifiers : Versioned String
verifiers = record { legacy = none; camera_ingest = some Run.verifier }

abbrev authorized : Versioned String × Checked Scope
authorized = verify Run.platform (Run.jwt_of Run.camera_claims) verifiers "token" Run.moment

authorized_lem : authorized ≡ (authorized.0, ok (camera_scope Run.camera_scope))
unfolding verify Keyed.get Keyed.put Scopes.camera_ingest_scope_from_claims Values.◌>>=◌
    Scopes.all_hex Scopes.text_length Prelude.strip
authorized_lem = refl

verify-IsAuthorized_example :
    (unverified : Fields) × (some Run.camera_claims ≡ some unverified)
    × IsAuthorized Run.platform
        (Run.jwt_of Run.camera_claims)
        verifiers
        "token"
        (get_field unverified "credential_kind")
        Run.moment
        authorized.0
        (camera_scope Run.camera_scope)
verify-IsAuthorized_example =
    verify-IsAuthorized Run.platform (Run.jwt_of Run.camera_claims) Run.platform-IsPlatform
      verifiers "token" Run.moment authorized_lem
