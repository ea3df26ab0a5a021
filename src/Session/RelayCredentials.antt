-- ===== src/Session/RelayCredentials.antt =====
-- app/services/relay_credentials.py: the providers of access tokens and of relay credentials. The
-- replies of the HTTP calls are arguments; their exceptions are refusals too.
use gc_image_stream.Prelude.{
  ℕ, ◌+◌, String, Bool, false, not, ◌&&◌, Option, none, some, [], ltb, ◌==◌, nat_eq, string_eq,
  option_eq, if◌then◌else◌,
}
use gc_image_stream.Session.Values.{
  Value, Fields, get_field, as_text, as_object, is_at_most, Checked, ok, refused, ◌>>=◌, ◌>>◌,
  require, found_or,
}
use gc_image_stream.Session.Keyed.{Keyed, get, put}
use gc_image_stream.Session.Scopes.{Platform}
use gc_image_stream.Session.Credentials.{Claim}
use gc_image_stream.Session.Verifiers.{Jwt, Verifier, Moment}
use gc_image_stream.Session.RelayScopes.{
  ProcessingRelayScope, RelayCredential, relay_matches, response_matches, verify_relay,
}

-- `ClientCredentialsTokenProvider`: the access token, with the time at which it expires.
pub record WorkloadToken : Type 0 where
  pub value : String
  pub expires_at : ℕ

pub record TokenProvider : Type 0 where
  pub refresh_skew_sec : ℕ
  pub cached : Option WorkloadToken

-- A fresh token of the reply. `seconds` is the value of a positive number.
unfoldable pub fresh_token : (Value → Option ℕ) → Option Fields → ℕ → Checked WorkloadToken
unfolding get_field
fresh_token seconds none current = refused "workload token response is missing access_token"
fresh_token seconds (some reply) current = do
  token ←
      found_or (as_text (get_field reply "access_token"))
        "workload token response is missing access_token"
  require (not (token == "")) "workload token response is missing access_token"
  expires_in ←
      found_or (seconds (get_field reply "expires_in"))
        "workload token response has invalid expires_in"
  ok (record { value = token; expires_at = current + expires_in })

-- `resolve`; the reply is `none` where the call raises.
unfoldable pub resolve_access_token :
    (Value → Option ℕ) → TokenProvider → ℕ → Option Value → TokenProvider × Checked String
unfolding fresh_token
resolve_access_token seconds c current reply = elim c.cached [
  | some t ↦
      if ltb (current + c.refresh_skew_sec) t.expires_at
      then (c, ok t.value)
      else refreshed c (reply_of reply)
  | none ↦ refreshed c (reply_of reply)
]
  where
    reply_of : Option Value → Checked WorkloadToken
    reply_of none = refused "the workload token request failed"
    reply_of (some value) = fresh_token seconds (as_object value) current

    refreshed : TokenProvider → Checked WorkloadToken → TokenProvider × Checked String
    refreshed c (refused message) = (c, refused message)
    refreshed c (ok t) = (record c { cached = some t }, ok t.value)

-- The reply to the request of a credential.
pub record IssueReply : Type 0 where
  pub status_code : ℕ
  pub is_error : Bool
  pub relay_token : Option String
  pub payload : Option Value

-- `MainProcessingRelayCredentialProvider`
pub record Provider (Key : Type 0) : Type 0 where
  pub refresh_skew_sec : ℕ
  pub access_tokens : TokenProvider
  pub verifier : Verifier Key
  pub credentials : Keyed String RelayCredential

-- The clock and the replies of a call. `post` has the access token, the tenant and the job.
pub record Issue : Type 0 where
  pub moment : Moment
  pub token_time : ℕ
  pub token_reply : Option Value
  pub post : String → Option String → String → Option IssueReply

abbrev token_of : IssueReply → Checked String
token_of r =
    if r.status_code == 409
    then refused "processing job is inactive"
    else if r.is_error
    then refused "the credential request failed"
    else elim r.relay_token [
      | none ↦ refused "Main relay credential response did not include the one-time token"
      | some token ↦
          if token == ""
          then refused "Main relay credential response did not include the one-time token"
          else ok token
    ]

-- The checks of a scope against the claim and the reply.
unfoldable pub accept_scope :
    Value → String → ProcessingRelayScope → Claim → Checked RelayCredential
unfolding response_matches
accept_scope payload token scope claim = do
  require (relay_matches scope claim)
      "processing relay credential does not match the manifest scope"
  require (response_matches (as_object payload) scope)
      "Main relay credential response does not match its signed token"
  ok (record { token = token; scope = scope })

-- The token and the payload of a reply.
unfoldable pub token_and_payload : Option IssueReply → Checked (String × Value)
token_and_payload none = refused "the credential request failed"
token_and_payload (some r) = do
  token ← token_of r
  payload ← found_or r.payload "the credential response is not JSON"
  ok (token, payload)

module _ (p : Platform) {Key : Type 0} (jwt : Jwt Key) where
  -- The end of `_issue`, with the token that the main service issued.
  unfoldable pub verify_issued :
      Verifier Key → String × Value → Claim → Moment → Verifier Key × Checked RelayCredential
  unfolding verify_relay accept_scope
  verify_issued v issued claim m =
      let (after, scope) = verify_relay p jwt v issued.0 m in
      elim scope [
        | refused message ↦ (after, refused message)
        | ok s ↦ (after, accept_scope issued.1 issued.0 s claim)
      ]

-- The credential that is kept is good for the claim, for a while.
abbrev pub is_reusable : Option RelayCredential → Claim → ℕ → Bool
is_reusable none claim until = false
is_reusable (some c) claim until =
    not (is_at_most c.scope.expires_at until) && relay_matches c.scope claim

-- The new credential is kept.
module _ {Key : Type 0} where
  abbrev pub keep_issued :
      Provider Key × Checked RelayCredential → String → Provider Key × Checked RelayCredential
  keep_issued (c, refused message) job = (c, refused message)
  keep_issued (c, ok credential) job =
      (record c { credentials = put c.credentials job credential }, ok credential)

module _ (p : Platform) (seconds : Value → Option ℕ) {Key : Type 0} (jwt : Jwt Key) where
  -- `_issue`
  unfoldable pub issue :
      Provider Key → Claim → String → Issue → Provider Key × Checked RelayCredential
  unfolding resolve_access_token token_and_payload verify_issued
  issue c claim job i =
      let (tokens, access) =
        resolve_access_token seconds c.access_tokens i.token_time i.token_reply in
      let with_tokens : Provider Key = record c { access_tokens = tokens } in
      elim access [
        | refused message ↦ (with_tokens, refused message)
        | ok token ↦ elim (token_and_payload (i.post token claim.tenant_id job)) [
          | refused message ↦ (with_tokens, refused message)
          | ok issued ↦
              let (v, credential) = verify_issued p jwt c.verifier issued claim i.moment in
              (record with_tokens { verifier = v }, credential)
        ]
      ]

  -- A credential that is there, or else a new one.
  unfoldable pub resolve_for_job :
      Provider Key → Claim → String → Issue → Provider Key × Checked RelayCredential
  unfolding issue
  resolve_for_job c claim job i = elim (get c.credentials job) [
    | none ↦ keep_issued (issue c claim job i) job
    | some credential ↦
        if is_reusable (some credential) claim (i.moment.now + c.refresh_skew_sec)
        then (c, ok credential)
        else keep_issued (issue c claim job i) job
  ]

  -- `resolve_for_claim`
  unfoldable pub resolve_relay_for_claim :
      Provider Key → Claim → Issue → Provider Key × Checked RelayCredential
  unfolding resolve_for_job
  resolve_relay_for_claim c claim i = elim claim.processing_job_id [
    | none ↦ (c, refused "manifest is missing processing_job_id")
    | some job ↦
        if job == ""
        then (c, refused "manifest is missing processing_job_id")
        else resolve_for_job c claim job i
  ]

-- `clear`
abbrev pub clear_relay : {Key : Type 0} → Provider Key → Provider Key
clear_relay c = record c { credentials = [] }
