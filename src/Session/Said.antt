-- ===== src/Session/Said.antt =====
-- What a reply of the main service, or a result that is kept, says of a credential or of a job.
use gc_image_stream.Prelude.{
  ℕ, ◌<◌, String, ◌≡◌, refl, ap, true, false, Option, none, some, arith, eq_iff, ◌⊎◌, inl, inr,
}
use gc_image_stream.Session.Values.{
  Value, Fields, null, text, integer, real, boolean, array, object, get_field, is_text, is_true,
  as_object, ℤ, pos, negsuc, is_at_most,
}
use gc_image_stream.Session.Status.{is_after, says_session, says_credential}

-- The time of expiry is still to come.
abbrev pub IsUnexpired : ℤ → ℕ → Type 0
IsUnexpired expires_at now = (time : ℕ) × (expires_at ≡ pos time) × (now < time)

pub at_most-IsUnexpired :
    (expires_at : ℤ) (now : ℕ) → is_at_most expires_at now ≡ false → IsUnexpired expires_at now
at_most-IsUnexpired (pos time) now h = (time, refl, ground (arith, h))
at_most-IsUnexpired (negsuc time) now h = absurd (ground (arith, h))

-- A positive result is kept, and its time is not over.
abbrev pub IsKept : Option ℕ → ℕ → Type 0
IsKept kept now = (until : ℕ) × (kept ≡ some until) × (now < until)

pub is_after-IsKept : (kept : Option ℕ) (now : ℕ) → is_after kept now ≡ true → IsKept kept now
is_after-IsKept none now h = absurd (ground (arith, h))
is_after-IsKept (some until) now h = (until, refl, ground (arith, h))

pub IsKept-is_after : (kept : Option ℕ) (now : ℕ) → IsKept kept now → is_after kept now ≡ true
IsKept-is_after kept now (until, e, h) = rw e (ground (arith, h))

-- A reply that names the processing job, known and active.
abbrev pub SaysJob : Value → String → Type 0
SaysJob payload job =
    (reply : Fields) × (payload ≡ object reply)
    × (get_field reply "processingJobId" ≡ text job)
    × (get_field reply "known" ≡ boolean true)
    × (get_field reply "active" ≡ boolean true)

-- A reply that names the credential of the job, of a camera, known and active.
abbrev pub SaysCredential : Value → String → String → Type 0
SaysCredential payload credential job =
    (reply : Fields) × (payload ≡ object reply)
    × (get_field reply "credentialId" ≡ text credential)
    × (get_field reply "processingJobId" ≡ text job)
    × (get_field reply "credentialKind" ≡ text "CAMERA_INGEST")
    × (get_field reply "known" ≡ boolean true)
    × (get_field reply "active" ≡ boolean true)

is_text-eq : (v : Value) (t : String) → is_text v t ≡ true → v ≡ text t
is_text-eq (text s) t h = ap text ((eq_iff s t).0 h)
is_text-eq null t h = absurd (ground (arith, h))
is_text-eq (integer n) t h = absurd (ground (arith, h))
is_text-eq (real r) t h = absurd (ground (arith, h))
is_text-eq (boolean b) t h = absurd (ground (arith, h))
is_text-eq (array vs) t h = absurd (ground (arith, h))
is_text-eq (object fields) t h = absurd (ground (arith, h))

is_true-eq : (v : Value) → is_true v ≡ true → v ≡ boolean true
is_true-eq (boolean b) h = ap boolean h
is_true-eq null h = absurd (ground (arith, h))
is_true-eq (text s) h = absurd (ground (arith, h))
is_true-eq (integer n) h = absurd (ground (arith, h))
is_true-eq (real r) h = absurd (ground (arith, h))
is_true-eq (array vs) h = absurd (ground (arith, h))
is_true-eq (object fields) h = absurd (ground (arith, h))

eq-is_text : (v : Value) (t : String) → v ≡ text t → is_text v t ≡ true
eq-is_text v t e = rw e ((eq_iff t t).1 refl)

object-cases : (v : Value) → (as_object v ≡ none) ⊎ ((reply : Fields) × (v ≡ object reply))
object-cases (object fields) = inr (fields, refl)
object-cases null = inl refl
object-cases (text s) = inl refl
object-cases (integer n) = inl refl
object-cases (real r) = inl refl
object-cases (boolean b) = inl refl
object-cases (array vs) = inl refl

pub says_session-SaysJob :
    (payload : Value) (job : String)
    → says_session (as_object payload) job ≡ true
    → SaysJob payload job
unfolding says_session
says_session-SaysJob payload job h = elim (object-cases payload) [
  | inl e ↦ let h' : says_session none job ≡ true = rw e at h in absurd (ground (arith, h'))
  | inr (reply, e) ↦
      let said : says_session (some reply) job ≡ true = rw e at h in
      (
        reply,
        e,
        is_text-eq _ _ (ground (arith, said)),
        is_true-eq _ (ground (arith, said)),
        is_true-eq _ (ground (arith, said)),
      )
]

pub says_credential-SaysCredential :
    (payload : Value) (credential job : String)
    → says_credential (as_object payload) credential job ≡ true
    → SaysCredential payload credential job
unfolding says_credential
says_credential-SaysCredential payload credential job h = elim (object-cases payload) [
  | inl e ↦
      let h' : says_credential none credential job ≡ true = rw e at h in absurd (ground (arith, h'))
  | inr (reply, e) ↦
      let said : says_credential (some reply) credential job ≡ true = rw e at h in
      (
        reply,
        e,
        is_text-eq _ _ (ground (arith, said)),
        is_text-eq _ _ (ground (arith, said)),
        is_text-eq _ _ (ground (arith, said)),
        is_true-eq _ (ground (arith, said)),
        is_true-eq _ (ground (arith, said)),
      )
]

pub SaysCredential-says_credential :
    (payload : Value) (credential job : String)
    → SaysCredential payload credential job
    → says_credential (as_object payload) credential job ≡ true
unfolding says_credential
SaysCredential-says_credential payload credential job (reply, e, id, named, kind, known, active) =
    let is_id = eq-is_text _ _ id in
    let is_job = eq-is_text _ _ named in
    let is_kind = eq-is_text _ _ kind in
    rw (e, says_credential, is_id, is_job, is_kind, known, active) refl
