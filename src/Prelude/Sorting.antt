-- ===== src/Prelude/Sorting.antt =====
-- `sorted`, a stable insertion sort by a strict comparison, and what it keeps.
use Prim.Native.Nat.{ℕ, suc, ◌≤◌}
use mathlib.Core.Path.{◌≡◌, refl, ap}
use mathlib.Core.Logic.{◌⊎◌, inl, inr}
use mathlib.Core.Bool.{Bool, true, false}
use mathlib.Core.List.{List, [], ◌∷◌}
use native.Mathlib.Omega.{arith}
use native.Mathlib.Nat.{le_trans}
use gc_image_stream.Prelude.Tests.{if◌then◌else◌, Bool-cases}
use gc_image_stream.Prelude.Lists.{length, All, Any, All-imp, is_nil, List-cases}

-- Sorted by a key: every element's key is at most the keys after it.
abbrev pub IsSortedBy {ℓ} : {A : Type ℓ} → (A → ℕ) → List A → Type 0
IsSortedBy key [] = Unit
IsSortedBy key (x ∷ xs) = All (λ y. key x ≤ key y) xs × IsSortedBy key xs

module _ {ℓ} {A : Type ℓ} (lt : A → A → Bool) where
  -- An element goes before those that are not less, so equal elements keep their order.
  unfoldable pub insert : A → List A → List A
  insert x [] = x ∷ []
  insert x (y ∷ ys) = let rest = insert x ys in if lt y x then y ∷ rest else x ∷ y ∷ ys

  unfoldable pub sorted : List A → List A
  unfolding insert
  sorted [] = []
  sorted (x ∷ xs) = insert x (sorted xs)

  pub length-insert : (x : A) (ys : List A) → length (insert x ys) ≡ suc (length ys)
  unfolding insert
  length-insert x [] = refl
  length-insert x (y ∷ ys) = elim (Bool-cases (lt y x)) [
    | inl e ↦ rw e (omega (arith, length-insert x ys))
    | inr e ↦ rw e refl
  ]

  pub length-sorted : (xs : List A) → length (sorted xs) ≡ length xs
  unfolding sorted
  length-sorted [] = refl
  length-sorted (x ∷ xs) = omega (arith, length-insert x (sorted xs), length-sorted xs)

  pub is_nil-sorted : (xs : List A) → is_nil (sorted xs) ≡ is_nil xs
  is_nil-sorted [] = unfold sorted in refl
  is_nil-sorted (x ∷ xs) = elim (List-cases (sorted (x ∷ xs))) [
    | inl e ↦ absurd (omega (arith, length-sorted (x ∷ xs), ap length e))
    | inr (y, ys, e) ↦ rw e
  ]

  pub All-insert {κ} : (P : A → Type κ) (x : A) (ys : List A) → P x → All P ys → All P (insert x ys)
  unfolding insert
  All-insert P x [] p h = (p, tt)
  All-insert P x (y ∷ ys) p h = elim (Bool-cases (lt y x)) [
    | inl e ↦ rw e (h.0, All-insert P x ys p h.1)
    | inr e ↦ rw e (p, h)
  ]

  pub All-sorted {κ} : (P : A → Type κ) (xs : List A) → All P xs → All P (sorted xs)
  unfolding sorted
  All-sorted P [] h = tt
  All-sorted P (x ∷ xs) h = All-insert P x (sorted xs) h.0 (All-sorted P xs h.1)

  pub Any-insert : (P : A → Type 0) (x : A) (ys : List A) → P x ⊎ Any P ys → Any P (insert x ys)
  unfolding insert
  Any-insert P x [] h = h
  Any-insert P x (y ∷ ys) h = elim (Bool-cases (lt y x)) [
    | inl e ↦ rw e (elim h [
      | inl p ↦ inr (Any-insert P x ys (inl p))
      | inr (inl q) ↦ inl q
      | inr (inr r) ↦ inr (Any-insert P x ys (inr r))
    ])
    | inr e ↦ rw e h
  ]

  pub Any-of_insert : (P : A → Type 0) (x : A) (ys : List A) → Any P (insert x ys) → P x ⊎ Any P ys
  unfolding insert
  Any-of_insert P x [] h = h
  Any-of_insert P x (y ∷ ys) h = elim (Bool-cases (lt y x)) [
    | inl e ↦
        let h' : Any P (y ∷ insert x ys) = rw e at h in
        elim h' [
          | inl q ↦ inr (inl q)
          | inr r ↦ elim (Any-of_insert P x ys r) [ inl p ↦ inl p | inr s ↦ inr (inr s) ]
        ]
    | inr e ↦ rw e at h
  ]

  pub Any-sorted : (P : A → Type 0) (xs : List A) → Any P xs → Any P (sorted xs)
  unfolding sorted
  Any-sorted P [] h = h
  Any-sorted P (x ∷ xs) (inl p) = Any-insert P x (sorted xs) (inl p)
  Any-sorted P (x ∷ xs) (inr h) = Any-insert P x (sorted xs) (inr (Any-sorted P xs h))

  pub Any-of_sorted : (P : A → Type 0) (xs : List A) → Any P (sorted xs) → Any P xs
  unfolding sorted
  Any-of_sorted P [] h = h
  Any-of_sorted P (x ∷ xs) h = elim (Any-of_insert P x (sorted xs) h) [
    | inl p ↦ inl p
    | inr r ↦ inr (Any-of_sorted P xs r)
  ]

-- A comparison that agrees with a key sorts by the key.
module _ {ℓ} {A : Type ℓ} (lt : A → A → Bool) (key : A → ℕ)
    (lt_le : (a b : A) → lt a b ≡ true → key a ≤ key b)
    (nlt_le : (a b : A) → lt a b ≡ false → key b ≤ key a) where
  pub insert-IsSortedBy :
      (x : A) (ys : List A) → IsSortedBy key ys → IsSortedBy key (insert lt x ys)
  unfolding insert
  insert-IsSortedBy x [] h = (tt, tt)
  insert-IsSortedBy x (y ∷ ys) h = elim (Bool-cases (lt y x)) [
    | inl e ↦
        rw e (All-insert lt (λ z. key y ≤ key z) x ys (lt_le y x e) h.0, insert-IsSortedBy x ys h.1)
    | inr e ↦ rw e (
      (
        nlt_le y x e,
        All-imp (λ z. key y ≤ key z) (λ z. key x ≤ key z) ys (λ z p. le_trans (nlt_le y x e) p) h.0,
      ),
      h,
    )
  ]

  pub sorted-IsSortedBy : (xs : List A) → IsSortedBy key (sorted lt xs)
  unfolding sorted
  sorted-IsSortedBy [] = tt
  sorted-IsSortedBy (x ∷ xs) = insert-IsSortedBy x (sorted lt xs) (sorted-IsSortedBy xs)

-- The head of the list is related to all of it.
abbrev pub Leads {ℓ} : {A : Type ℓ} → (A → A → Type 0) → List A → Type 0
Leads R [] = Unit
Leads R (y ∷ ys) = All (λ z. R z y) (y ∷ ys)

-- The head of a sorted list leads it, by a transitive relation that the comparison decides.
module _ {ℓ} {A : Type ℓ} (lt : A → A → Bool) (R : A → A → Type 0)
    (of_lt : (a b : A) → lt a b ≡ true → R b a) (of_not_lt : (a b : A) → lt a b ≡ false → R a b)
    (trans : (a b c : A) → R a b → R b c → R a c) where
  reflexive : (a : A) → R a a
  reflexive a = elim (Bool-cases (lt a a)) [ inl e ↦ of_lt a a e | inr e ↦ of_not_lt a a e ]

  insert-Leads : (x : A) (ys : List A) → Leads R ys → Leads R (insert lt x ys)
  unfolding insert
  insert-Leads x [] h = (reflexive x, tt)
  insert-Leads x (y ∷ ys) h = elim (Bool-cases (lt y x)) [
    | inl e ↦ rw e (h.0, All-insert lt (λ z. R z y) x ys (of_lt y x e) h.1)
    | inr e ↦ rw e (
      reflexive x,
      (
        of_not_lt y x e,
        All-imp (λ z. R z y) (λ z. R z x) ys (λ z p. trans z y x p (of_not_lt y x e)) h.1,
      ),
    )
  ]

  pub sorted-Leads : (xs : List A) → Leads R (sorted lt xs)
  unfolding sorted
  sorted-Leads [] = tt
  sorted-Leads (x ∷ xs) = insert-Leads x (sorted lt xs) (sorted-Leads xs)
