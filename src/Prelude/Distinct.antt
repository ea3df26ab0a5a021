-- ===== src/Prelude/Distinct.antt =====
-- The distinct elements of a list: one of each.
use Prim.Native.Nat.{◌≤◌}
use mathlib.Core.Path.{◌≡◌, refl, sym, ◌∙◌}
use mathlib.Core.Logic.{inl, inr}
use mathlib.Core.Bool.{Bool, true, false}
use mathlib.Core.List.{List, [], ◌∷◌}
use native.Mathlib.Omega.{arith}
use gc_image_stream.Prelude.Tests.{Eq, ◌==◌, Bool-cases}
use gc_image_stream.Prelude.Lists.{length, any, distinct, All}

-- No element stands twice.
abbrev pub IsDistinct {ℓ} : {A : Type ℓ} ⦃e : Eq A⦄ → List A → Type 0
IsDistinct [] = Unit
IsDistinct (x ∷ xs) = (any (λ y. y == x) xs ≡ false) × IsDistinct xs

-- A test that succeeds somewhere succeeds at an element, of which all is known that is known of
-- every element.
pub any_witness {ℓ κ} :
    {A : Type ℓ} (p : A → Bool) (Q : A → Type κ) (xs : List A)
    → any p xs ≡ true
    → All Q xs
    → (x : A) × (p x ≡ true) × Q x
any_witness p Q [] h q = absurd (ground arith)
any_witness p Q (x ∷ xs) h q = elim (Bool-cases (p x)) [
  | inl e ↦ (x, e, q.0)
  | inr e ↦ any_witness p Q xs (ground arith) q.1
]

module _ {ℓ} {A : Type ℓ} ⦃e : Eq A⦄ where
  pub length-distinct-le : (xs : List A) → length (distinct xs) ≤ length xs
  length-distinct-le [] = omega arith
  length-distinct-le (x ∷ xs) = elim (Bool-cases (any (λ y. y == x) xs)) [
    | inl d ↦ rw d (omega (arith, length-distinct-le xs))
    | inr d ↦ rw d (omega (arith, length-distinct-le xs))
  ]

  pub distinct_nil : (xs : List A) → distinct xs ≡ [] → xs ≡ []
  distinct_nil [] h = refl
  distinct_nil (x ∷ xs) h = elim (Bool-cases (any (λ y. y == x) xs)) [
    | inl d ↦ absurd (ground (arith, distinct_nil xs))
    | inr d ↦ ground arith
  ]

  -- With as many distinct elements as elements, none stands twice.
  pub IsDistinct_of_length : (xs : List A) → length (distinct xs) ≡ length xs → IsDistinct xs
  IsDistinct_of_length [] h = tt
  IsDistinct_of_length (x ∷ xs) h = elim (Bool-cases (any (λ y. y == x) xs)) [
    | inl d ↦ absurd (ground (arith, length-distinct-le xs))
    | inr d ↦ (d, IsDistinct_of_length xs (ground arith))
  ]

  -- With one distinct element, all elements are equal to it.
  pub all_of_single : (xs : List A) (k : A) → distinct xs ≡ k ∷ [] → All (λ x. x ≡ k) xs
  all_of_single [] k h = tt
  all_of_single (x ∷ xs) k h = elim (Bool-cases (any (λ y. y == x) xs)) [
    | inl d ↦
        let rest = all_of_single xs k (ground arith) in
        let (y, same, at_k) = any_witness (λ y. y == x) (λ y. y ≡ k) xs d rest in
        (sym ((e.beq_iff y x).0 same) ∙ at_k, rest)
    | inr d ↦
        let none_left : xs ≡ [] = distinct_nil xs (ground arith) in (ground arith, rw none_left tt)
  ]

  pub All-distinct {κ} : (P : A → Type κ) (xs : List A) → All P xs → All P (distinct xs)
  All-distinct P [] h = tt
  All-distinct P (x ∷ xs) h = elim (Bool-cases (any (λ y. y == x) xs)) [
    | inl d ↦ rw d (All-distinct P xs h.1)
    | inr d ↦ rw d (h.0, All-distinct P xs h.1)
  ]

  any-distinct : (p : A → Bool) (xs : List A) → any p xs ≡ false → any p (distinct xs) ≡ false
  any-distinct p [] h = refl
  any-distinct p (x ∷ xs) h = elim (Bool-cases (any (λ y. y == x) xs)) [
    | inl d ↦ rw d (any-distinct p xs (ground arith))
    | inr d ↦ rw d (ground (arith, any-distinct p xs))
  ]

  pub distinct-IsDistinct : (xs : List A) → IsDistinct (distinct xs)
  distinct-IsDistinct [] = tt
  distinct-IsDistinct (x ∷ xs) = elim (Bool-cases (any (λ y. y == x) xs)) [
    | inl d ↦ rw d (distinct-IsDistinct xs)
    | inr d ↦ rw d (any-distinct (λ y. y == x) xs d, distinct-IsDistinct xs)
  ]
