-- ===== src/Prelude/Lists.antt =====
-- Lists measured and indexed by native numbers, and predicates on lists by recursion.
use Prim.Native.Nat.{ℕ, zero, suc, ◌+◌, ◌-◌, ◌≤◌, min, max}
use mathlib.Core.Path.{◌≡◌, refl, ap, subst}
use mathlib.Core.Logic.{◌⊎◌, inl, inr}
use mathlib.Core.Bool.{Bool, true, false, ◌||◌, ◌&&◌}
use mathlib.Core.List.{List, [], ◌∷◌, ◌++◌, map}
use mathlib.Core.Option.{Option, none, some}
use native.Mathlib.Omega.{arith}
use gc_image_stream.Prelude.Tests.{Eq, ◌==◌, if◌then◌else◌, Bool-cases}

module _ {ℓ} {A : Type ℓ} where
  abbrev pub length : List A → ℕ
  length [] = 0
  length (x ∷ xs) = suc (length xs)

  abbrev pub get_elem? : List A → ℕ → Option A
  get_elem? [] i = none
  get_elem? (x ∷ xs) zero = some x
  get_elem? (x ∷ xs) (suc i) = get_elem? xs i

  abbrev pub drop : ℕ → List A → List A
  drop zero xs = xs
  drop (suc n) [] = []
  drop (suc n) (x ∷ xs) = drop n xs

  -- A comprehension with a condition.
  abbrev pub keep_if : (A → Bool) → List A → List A
  keep_if p [] = []
  keep_if p (x ∷ xs) = let rest = keep_if p xs in if p x then x ∷ rest else rest

  abbrev pub any : (A → Bool) → List A → Bool
  any p [] = false
  any p (x ∷ xs) = p x || any p xs

  abbrev pub all : (A → Bool) → List A → Bool
  all p [] = true
  all p (x ∷ xs) = p x && all p xs

  pub length-append : (xs ys : List A) → length (xs ++ ys) ≡ length xs + length ys
  length-append [] ys = omega arith
  length-append (x ∷ xs) ys = omega (arith, length-append xs ys)

  pub length-drop : (n : ℕ) (xs : List A) → length (drop n xs) ≡ length xs - n
  length-drop zero xs = omega arith
  length-drop (suc n) [] = omega arith
  length-drop (suc n) (x ∷ xs) = omega (arith, length-drop n xs)

  -- A list from an index on begins with the element at the index.
  pub drop-get_elem? :
      (n : ℕ) (xs : List A) {x : A} → get_elem? xs n ≡ some x → drop n xs ≡ x ∷ drop (suc n) xs
  drop-get_elem? n [] h = ground arith
  drop-get_elem? zero (y ∷ xs) h = ground arith
  drop-get_elem? (suc n) (y ∷ xs) h = drop-get_elem? n xs h

  pub drop-get_elem?-none : (n : ℕ) (xs : List A) → get_elem? xs n ≡ none → drop n xs ≡ []
  drop-get_elem?-none zero [] h = refl
  drop-get_elem?-none (suc n) [] h = refl
  drop-get_elem?-none zero (y ∷ xs) h = ground arith
  drop-get_elem?-none (suc n) (y ∷ xs) h = drop-get_elem?-none n xs h

-- The distinct elements, as a Python set holds them.
abbrev pub distinct {ℓ} : {A : Type ℓ} ⦃e : Eq A⦄ → List A → List A
distinct [] = []
distinct (x ∷ xs) = let rest = distinct xs in if any (λ y. y == x) xs then rest else x ∷ rest

-- `max` and `min` of the values; the program takes them of a dict that is not empty.
abbrev pub maximum : List ℕ → ℕ
maximum [] = 0
maximum (x ∷ []) = x
maximum (x ∷ y ∷ xs) = max x (maximum (y ∷ xs))

abbrev pub minimum : List ℕ → ℕ
minimum [] = 0
minimum (x ∷ []) = x
minimum (x ∷ y ∷ xs) = min x (minimum (y ∷ xs))

pub List-cases {ℓ} :
    {A : Type ℓ} (xs : List A) → (xs ≡ []) ⊎ ((y : A) × (ys : List A) × (xs ≡ y ∷ ys))
List-cases [] = inl refl
List-cases (x ∷ xs) = inr (x, xs, refl)

abbrev pub is_nil {ℓ} : {A : Type ℓ} → List A → Bool
is_nil [] = true
is_nil (x ∷ xs) = false

-- Predicates on lists that compute to tuples and sums.
abbrev pub All {ℓ κ} : {A : Type ℓ} → (A → Type κ) → List A → Type κ
All P [] = Unit
All P (x ∷ xs) = P x × All P xs

abbrev pub Any {ℓ} : {A : Type ℓ} → (A → Type 0) → List A → Type 0
Any P [] = ⊥
Any P (x ∷ xs) = P x ⊎ Any P xs

abbrev pub In : {A : Type 0} → A → List A → Type 0
In x = Any (λ y. y ≡ x)

module _ {ℓ κ} {A : Type ℓ} (P : A → Type κ) where
  pub All-append : (xs ys : List A) → All P xs → All P ys → All P (xs ++ ys)
  All-append [] ys hx hy = hy
  All-append (x ∷ xs) ys hx hy = (hx.0, All-append xs ys hx.1 hy)

  pub All-keep_if : (p : A → Bool) (xs : List A) → All P xs → All P (keep_if p xs)
  All-keep_if p [] h = tt
  All-keep_if p (x ∷ xs) h = elim (Bool-cases (p x)) [
    | inl e ↦ rw e (h.0, All-keep_if p xs h.1)
    | inr e ↦ rw e (All-keep_if p xs h.1)
  ]

  pub All-map {ι} :
      {B : Type ι} (f : B → A) (xs : List B) → All (λ b. P (f b)) xs → All P (map f xs)
  All-map f [] h = tt
  All-map f (x ∷ xs) h = (h.0, All-map f xs h.1)

pub All-imp {ℓ κ ι} :
    {A : Type ℓ} (P : A → Type κ) (Q : A → Type ι) (xs : List A)
    → ((x : A) → P x → Q x)
    → All P xs
    → All Q xs
All-imp P Q [] f h = tt
All-imp P Q (x ∷ xs) f h = (f x h.0, All-imp P Q xs f h.1)

pub All-keep_if_self {ℓ} :
    {A : Type ℓ} (p : A → Bool) (xs : List A) → All (λ x. p x ≡ true) (keep_if p xs)
All-keep_if_self p [] = tt
All-keep_if_self p (x ∷ xs) = elim (Bool-cases (p x)) [
  | inl e ↦ rw e (e, All-keep_if_self p xs)
  | inr e ↦ rw e (All-keep_if_self p xs)
]

pub keep_if_all {ℓ} :
    {A : Type ℓ} (p : A → Bool) (xs : List A) → All (λ x. p x ≡ true) xs → keep_if p xs ≡ xs
keep_if_all p [] h = refl
keep_if_all p (x ∷ xs) h = rw (h.0, keep_if_all p xs h.1)

pub keep_if_none {ℓ} :
    {A : Type ℓ} (p : A → Bool) (xs : List A) → All (λ x. p x ≡ false) xs → keep_if p xs ≡ []
keep_if_none p [] h = refl
keep_if_none p (x ∷ xs) h = rw (h.0, keep_if_none p xs h.1)

pub is_nil_of_Any {ℓ} : {A : Type ℓ} (P : A → Type 0) (xs : List A) → Any P xs → is_nil xs ≡ false
is_nil_of_Any P [] h = absurd h
is_nil_of_Any P (x ∷ xs) h = refl

pub length-keep_if {ℓ} :
    {A : Type ℓ} (p : A → Bool) (xs : List A) → length (keep_if p xs) ≤ length xs
length-keep_if p [] = omega arith
length-keep_if p (x ∷ xs) = elim (Bool-cases (p x)) [
  | inl e ↦ rw e (omega (arith, length-keep_if p xs))
  | inr e ↦ rw e (omega (arith, length-keep_if p xs))
]

pub length-map {ℓ κ} :
    {A : Type ℓ} {B : Type κ} (f : A → B) (xs : List A) → length (map f xs) ≡ length xs
length-map f [] = refl
length-map f (x ∷ xs) = ap suc (length-map f xs)

module _ {A : Type 0} where
  pub Any-imp : (P Q : A → Type 0) (xs : List A) → ((x : A) → P x → Q x) → Any P xs → Any Q xs
  Any-imp P Q [] f h = h
  Any-imp P Q (x ∷ xs) f (inl h) = inl (f x h)
  Any-imp P Q (x ∷ xs) f (inr h) = inr (Any-imp P Q xs f h)

  -- What holds of every element holds of one that is in the list.
  pub All-In : (P : A → Type 0) (xs : List A) {x : A} → All P xs → In x xs → P x
  All-In P [] h i = absurd i
  All-In P (y ∷ xs) h (inl e) = subst P e h.0
  All-In P (y ∷ xs) h (inr i) = All-In P xs h.1 i

  pub All_of_In : (P : A → Type 0) (xs : List A) → ((x : A) → In x xs → P x) → All P xs
  All_of_In P [] f = tt
  All_of_In P (x ∷ xs) f = (f x (inl refl), All_of_In P xs (λ y i. f y (inr i)))

  pub In-get_elem? : (n : ℕ) (xs : List A) {x : A} → get_elem? xs n ≡ some x → In x xs
  In-get_elem? n [] h = ground arith
  In-get_elem? zero (y ∷ xs) h = inl (ground arith)
  In-get_elem? (suc n) (y ∷ xs) h = inr (In-get_elem? n xs h)

  -- Where nothing is kept, the test fails everywhere.
  pub false_of_keep_if-nil :
      (p : A → Bool) (xs : List A) {x : A} → keep_if p xs ≡ [] → In x xs → p x ≡ false
  false_of_keep_if-nil p [] h i = absurd i
  false_of_keep_if-nil p (y ∷ xs) h (inl e) = ground (arith, ap p e)
  false_of_keep_if-nil p (y ∷ xs) h (inr i) = false_of_keep_if-nil p xs (ground arith) i

pub keep_if-append {ℓ} :
    {A : Type ℓ} (p : A → Bool) (xs ys : List A)
    → keep_if p (xs ++ ys) ≡ keep_if p xs ++ keep_if p ys
keep_if-append p [] ys = refl
keep_if-append p (x ∷ xs) ys = elim (Bool-cases (p x)) [
  | inl e ↦ rw (e, keep_if-append p xs ys) refl
  | inr e ↦ rw (e, keep_if-append p xs ys) refl
]

pub keep_if-congr {ℓ} :
    {A : Type ℓ} (p q : A → Bool) (xs : List A)
    → All (λ x. p x ≡ q x) xs
    → keep_if p xs ≡ keep_if q xs
keep_if-congr p q [] h = refl
keep_if-congr p q (x ∷ xs) h = rw (h.0, keep_if-congr p q xs h.1) refl

pub any-keep_if :
    {A : Type 0} (p q : A → Bool) (xs : List A) {x : A}
    → In x xs
    → p x ≡ true
    → q x ≡ true
    → any q (keep_if p xs) ≡ true
any-keep_if p q [] i h k = absurd i
any-keep_if p q (y ∷ xs) (inl e) h k = ground (arith, ap p e, ap q e)
any-keep_if p q (y ∷ xs) (inr i) h k = ground (arith, any-keep_if p q xs i h k)

-- The test whether an element is in a list.
module _ {A : Type 0} ⦃e : Eq A⦄ where
  pub any-In : (xs : List A) (x : A) → any (λ y. y == x) xs ≡ true → In x xs
  any-In [] x h = ground (arith, h)
  any-In (y ∷ xs) x h = elim (Bool-cases (y == x)) [
    | inl same ↦ inl ((e.beq_iff y x).0 same)
    | inr other ↦ inr (any-In xs x (rw other at h))
  ]

  pub In-any : (xs : List A) (x : A) → In x xs → any (λ y. y == x) xs ≡ true
  In-any [] x i = absurd i
  In-any (y ∷ xs) x (inl same) = rw ((e.beq_iff y x).1 same) refl
  In-any (y ∷ xs) x (inr i) = ground (arith, In-any xs x i)
