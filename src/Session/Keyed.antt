-- ===== src/Session/Keyed.antt =====
-- Python's `dict` with keys of any type that has an equality: pairs in the order of insertion.
use gc_image_stream.Prelude.{
  suc, ◌≤◌, ◌≡◌, refl, sym, Option, none, some, List, [], ◌∷◌, true, false, length, arith, Eq, ◌==◌,
  if◌then◌else◌, Bool-cases, inl, inr, ◌∙◌, none-ne-some,
}

false-ne-true : ¬ (false ≡ true)
false-ne-true h = cc

abbrev pub Keyed {ℓ κ} : Type ℓ → Type κ → Type (ℓ ⊔ κ)
Keyed K V = List (K × V)

module _ {ℓ} {K : Type ℓ} ⦃e : Eq K⦄ where
  pub same_key : (k : K) → (k == k) ≡ true
  same_key k = (e.beq_iff k k).1 refl

  other_key : (a b c : K) → (a == b) ≡ true → (a == c) ≡ (b == c)
  other_key a b c h = rw ((e.beq_iff a b).0 h) refl

  apart : (i k j : K) → (i == k) ≡ false → (i == j) ≡ true → (k == j) ≡ false
  apart i k j h g = elim (Bool-cases (k == j)) [
    | inr c ↦ c
    | inl c ↦
        let at_j : (j == k) ≡ false = sym (other_key i j k g) ∙ h in
        let at_k : (k == k) ≡ false = other_key k j k c ∙ at_j in
        absurd (false-ne-true (sym at_k ∙ same_key k))
  ]

module _ {ℓ κ} {K : Type ℓ} {V : Type κ} ⦃e : Eq K⦄ where
  unfoldable pub get : Keyed K V → K → Option V
  get [] k = none
  get ((j, v) ∷ d) k = let rest = get d k in if j == k then some v else rest

  unfoldable pub put : Keyed K V → K → V → Keyed K V
  put [] k v = (k, v) ∷ []
  put ((j, w) ∷ d) k v = let rest = put d k v in if j == k then (j, v) ∷ d else (j, w) ∷ rest

  unfoldable pub pop : Keyed K V → K → Keyed K V
  pop [] k = []
  pop ((j, w) ∷ d) k = let rest = pop d k in if j == k then rest else (j, w) ∷ rest

  -- `d.pop(next(iter(d)))`
  abbrev pub pop_first : Keyed K V → Keyed K V
  pop_first [] = []
  pop_first (entry ∷ d) = d

  pub get-put :
      (d : Keyed K V) (k j : K) (v : V) → get (put d k v) j ≡ (if k == j then some v else get d j)
  unfolding get put
  get-put [] k j v = refl
  get-put ((i, w) ∷ d) k j v = elim (Bool-cases (i == k)) [
    | inl a ↦ elim (Bool-cases (k == j)) [
      | inl b ↦ rw (put, a, other_key i k j a, b) refl
      | inr b ↦ rw (put, a, other_key i k j a, b) refl
    ]
    | inr a ↦ elim (Bool-cases (i == j)) [
      | inl b ↦ rw (put, a, get, b, apart i k j a b) refl
      | inr b ↦ rw (put, a, get, b) (get-put d k j v)
    ]
  ]

  pub get-put_self : (d : Keyed K V) (k : K) (v : V) → get (put d k v) k ≡ some v
  get-put_self d k v = rw (get-put d k k v, same_key k) refl

  pub length-put : (d : Keyed K V) (k : K) (v : V) → length (put d k v) ≤ suc (length d)
  unfolding put
  length-put [] k v = omega arith
  length-put ((i, w) ∷ d) k v = elim (Bool-cases (i == k)) [
    | inl a ↦ rw (put, a) (omega arith)
    | inr a ↦ rw (put, a) (omega (arith, length-put d k v))
  ]

  pub length-pop : (d : Keyed K V) (k : K) → length (pop d k) ≤ length d
  unfolding pop
  length-pop [] k = omega arith
  length-pop ((i, w) ∷ d) k = elim (Bool-cases (i == k)) [
    | inl a ↦ rw (pop, a) (omega (arith, length-pop d k))
    | inr a ↦ rw (pop, a) (omega (arith, length-pop d k))
  ]

  pub get-pop : (d : Keyed K V) (k j : K) → get (pop d k) j ≡ (if k == j then none else get d j)
  unfolding get pop
  get-pop [] k j = elim (Bool-cases (k == j)) [ inl b ↦ rw b refl | inr b ↦ rw b refl ]
  get-pop ((i, w) ∷ d) k j = elim (Bool-cases (i == k)) [
    | inl a ↦ elim (Bool-cases (k == j)) [
      | inl b ↦ rw (pop, a, b) (get-pop d k j ∙ rw b refl)
      | inr b ↦ rw (pop, a, other_key i k j a, b) (get-pop d k j ∙ rw b refl)
    ]
    | inr a ↦ elim (Bool-cases (i == j)) [
      | inl b ↦ rw (pop, a, get, b, apart i k j a b) refl
      | inr b ↦ rw (pop, a, get, b) (get-pop d k j)
    ]
  ]

  -- What is left has been there.
  pub get_of_pop : (d : Keyed K V) (k j : K) {v : V} → get (pop d k) j ≡ some v → get d j ≡ some v
  get_of_pop d k j h = elim (Bool-cases (k == j)) [
    | inl b ↦ absurd (none-ne-some (sym (get-pop d k j ∙ rw b refl) ∙ h))
    | inr b ↦ sym (get-pop d k j ∙ rw b refl) ∙ h
  ]
