-- ===== src/Session/Cached.antt =====
-- The status caches fail closed, and the one of camera credentials is bounded.
use gc_image_stream.Prelude.{
  ℕ, suc, ◌+◌, ◌≤◌, String, ◌≡◌, ◌⊎◌, refl, sym, ◌∙◌, subst, true, false, Option, none,
  none-ne-some, some_inj, some, [], ◌∷◌, length, leb, leb→le, arith, Bool-cases, Option-cases,
  nat_eq, string_eq, pair_eq, inl, inr,
}
use gc_image_stream.Session.Values.{Value, as_object, ok, refused}
use gc_image_stream.Session.Keyed.{Keyed, get, pop, pop_first, length-put, length-pop}
use gc_image_stream.Session.Status.{
  CredentialStatusCache, is_after, retained_limit, says_credential, retain,
  assert_credential_active,
}
use gc_image_stream.Session.Said.{
  IsKept, SaysCredential, is_after-IsKept, IsKept-is_after, says_credential-SaysCredential,
  SaysCredential-says_credential,
}

length-pop_first :
    (d : Keyed (String × String) ℕ)
    → retained_limit ≤ length d
    → suc (length (pop_first d)) ≡ length d
length-pop_first [] h = absurd (omega (arith, h))
length-pop_first (entry ∷ d) h = refl

length-retain :
    (d : Keyed (String × String) ℕ) (key : String × String) (until : ℕ)
    → length d ≤ retained_limit
    → length (retain d key until) ≤ retained_limit
unfolding retain
length-retain d key until h = elim (Bool-cases (leb retained_limit (length d))) [
  | inr e ↦ rw (retain, e) (ground (arith, length-put d key until, e))
  | inl e ↦
      rw (retain, e)
        (omega (arith, length-put (pop_first d) key until, length-pop_first d (leb→le _ _ e), h))
]

-- A call keeps at most 1024 positive results, whatever the key and the reply.
pub assert_credential_active-bounded :
    (c : CredentialStatusCache) (credential job : String) (now : ℕ) (fetch : String → Option Value)
    → length c.active_until ≤ retained_limit
    → length (assert_credential_active c credential job now fetch).0.active_until ≤ retained_limit
unfolding assert_credential_active
assert_credential_active-bounded c credential job now fetch h =
    let key : String × String = (credential, job) in
    let left = pop c.active_until key in
    let small : length left ≤ retained_limit = omega (arith, length-pop c.active_until key, h) in
    elim (Bool-cases (is_after (get c.active_until key) now)) [
      | inl e ↦ rw (assert_credential_active, e) h
      | inr e ↦ elim (Option-cases (fetch credential)) [
        | inl f ↦ rw (assert_credential_active, e, f) small
        | inr (payload, f) ↦
            elim (Bool-cases (says_credential (as_object payload) credential job)) [
              | inr s ↦ rw (assert_credential_active, e, f, s) small
              | inl s ↦
                  rw (assert_credential_active, e, f, s)
                    (length-retain left key (now + c.cache_ttl) small)
            ]
      ]
    ]

-- Why a camera credential counts as active: a positive result that is kept and not yet over, or a reply
-- of the main service that names the credential and its job, known and active.
abbrev pub IsSaidActive :
    CredentialStatusCache → String → String → ℕ → (String → Option Value) → Type 0
IsSaidActive c credential job now fetch =
    IsKept (get c.active_until (credential, job)) now
    ⊎ ((payload : Value) × (fetch credential ≡ some payload)
        × SaysCredential payload credential job)

module _ (c : CredentialStatusCache) (credential job : String) (now : ℕ)
    (fetch : String → Option Value)
    (over : is_after (get c.active_until (credential, job)) now ≡ false) where
  not-IsKept : ¬ (IsKept (get c.active_until (credential, job)) now)
  not-IsKept k =
      let after = IsKept-is_after (get c.active_until (credential, job)) now k in
      ground (arith, over, after)

  unfetched-not_said : fetch credential ≡ none → ¬ (IsSaidActive c credential job now fetch)
  unfetched-not_said f (inl k) = not-IsKept k
  unfetched-not_said f (inr (payload, g, says)) = none-ne-some (sym f ∙ g)

  unsaid-not_said :
      (payload : Value)
      → fetch credential ≡ some payload
      → says_credential (as_object payload) credential job ≡ false
      → ¬ (IsSaidActive c credential job now fetch)
  unsaid-not_said payload f s (inl k) = not-IsKept k
  unsaid-not_said payload f s (inr (other, g, says)) =
      let same : payload ≡ other = some_inj (sym f ∙ g) in
      let said : says_credential (as_object payload) credential job ≡ true =
        SaysCredential-says_credential payload credential job
          (subst (λ v. SaysCredential v credential job) (sym same) says) in
      ground (arith, s, said)

-- A camera credential passes exactly if it is said to be active: by a positive result that is kept and
-- not over, or by a reply of the main service that names the credential, its job and the kind of a camera
-- with known and active true. Otherwise the call is refused and leaves no positive result of the
-- credential behind.
pub assert_credential_active-fails_closed :
    (c : CredentialStatusCache) (credential job : String) (now : ℕ) (fetch : String → Option Value)
    → ((assert_credential_active c credential job now fetch).1 ≡ ok tt)
        × IsSaidActive c credential job now fetch
      ⊎ ((m : String) × ((assert_credential_active c credential job now fetch).1 ≡ refused m)
          × (¬ (IsSaidActive c credential job now fetch))
          × ((assert_credential_active c credential job now fetch).0.active_until
              ≡ pop c.active_until (credential, job)))
unfolding assert_credential_active
assert_credential_active-fails_closed c credential job now fetch =
    let key : String × String = (credential, job) in
    elim (Bool-cases (is_after (get c.active_until key) now)) [
      | inl e ↦
          let kept = is_after-IsKept _ now e in
          rw (assert_credential_active, e) (inl (refl, inl kept))
      | inr e ↦ elim (Option-cases (fetch credential)) [
        | inl f ↦
            let unsaid = unfetched-not_said c credential job now fetch e f in
            rw (assert_credential_active, e, f) (inr (_, refl, rw f at unsaid, refl))
        | inr (payload, f) ↦
            elim (Bool-cases (says_credential (as_object payload) credential job)) [
              | inr s ↦
                  let unsaid = unsaid-not_said c credential job now fetch e payload f s in
                  rw (assert_credential_active, e, f, s) (inr (_, refl, rw f at unsaid, refl))
              | inl s ↦
                  let says = says_credential-SaysCredential payload credential job s in
                  rw (assert_credential_active, e, f, s) (inl (refl, inr (payload, refl, says)))
            ]
      ]
    ]
