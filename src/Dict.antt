-- ===== src/Dict.antt =====
-- Python's `dict` with text keys: pairs in the order of insertion. An update keeps its place.
use gc_image_stream.Prelude.{
  String, ◌≡◌, refl, subst, Option, none, some, List, [], ◌∷◌, map, Bool, true, false, arith, ◌==◌,
  string_eq, eq_iff, if◌then◌else◌, All, All-imp, Bool-cases, ◌||◌, inl, inr,
}

abbrev pub Dict {ℓ} : Type ℓ → Type ℓ
Dict V = List (String × V)

module _ {ℓ} {V : Type ℓ} where
  -- `d.get(k)`
  unfoldable pub get : Dict V → String → Option V
  get [] k = none
  get ((j, v) ∷ d) k = if j == k then some v else get d k

  -- `d[k] = v`
  unfoldable pub put : Dict V → String → V → Dict V
  put [] k v = (k, v) ∷ []
  put ((j, w) ∷ d) k v = let rest = put d k v in if j == k then (j, v) ∷ d else (j, w) ∷ rest

  -- `d.pop(k, None)`
  unfoldable pub pop : Dict V → String → Dict V
  pop [] k = []
  pop ((j, w) ∷ d) k = let rest = pop d k in if j == k then rest else (j, w) ∷ rest

  -- `k in d`
  unfoldable pub has : Dict V → String → Bool
  unfolding get
  has d k = elim (get d k) [ none ↦ false | some _ ↦ true ]

  abbrev pub keys : Dict V → List String
  keys = map (λ e. e.0)

  abbrev pub values : Dict V → List V
  values = map (λ e. e.1)

  pub get-put :
      (d : Dict V) (k j : String) (v : V) → get (put d k v) j ≡ (if k == j then some v else get d j)
  unfolding get put
  get-put [] k j v = refl
  get-put ((i, w) ∷ d) k j v = ground (arith, eq_iff k j, eq_iff i k, eq_iff i j, get-put d k j v)

  pub get-pop : (d : Dict V) (k j : String) → get (pop d k) j ≡ (if k == j then none else get d j)
  unfolding get pop
  get-pop [] k j = ground arith
  get-pop ((i, w) ∷ d) k j = ground (arith, eq_iff k j, eq_iff i k, eq_iff i j, get-pop d k j)

  pub has-put : (d : Dict V) (k j : String) (v : V) → has (put d k v) j ≡ ((k == j) || has d j)
  unfolding has
  has-put d k j v = ground (arith, get-put d k j v)

  pub has-cons : (d : Dict V) (j k : String) (v : V) → has ((j, v) ∷ d) k ≡ ((j == k) || has d k)
  unfolding has
  has-cons d j k v = ground arith

  -- What an update leaves, and what it adds.
  pub get-put_self : (d : Dict V) (k : String) (v : V) → get (put d k v) k ≡ some v
  get-put_self d k v = ground (arith, get-put d k k v, eq_iff k k)

  pub has-put_self : (d : Dict V) (k : String) (v : V) → has (put d k v) k ≡ true
  has-put_self d k v = ground (arith, has-put d k k v, eq_iff k k)

  pub get_of_has : (d : Dict V) (k : String) → has d k ≡ true → (v : V) × (get d k ≡ some v)
  unfolding has
  get_of_has d k h = ground arith

  pub has_of_get : (d : Dict V) (k : String) {v : V} → get d k ≡ some v → has d k ≡ true
  unfolding has
  has_of_get d k h = ground arith

  pub All-put {κ} :
      (P : String × V → Type κ) (d : Dict V) (k : String) (v : V)
      → P (k, v)
      → All P d
      → All P (put d k v)
  unfolding put
  All-put P [] k v p h = (p, tt)
  All-put P ((i, w) ∷ d) k v p h = elim (Bool-cases (i == k)) [
    | inl e ↦ rw (e, (eq_iff i k).0 e) (p, h.1)
    | inr e ↦ rw e (h.0, All-put P d k v p h.1)
  ]

  pub All-pop {κ} : (P : String × V → Type κ) (d : Dict V) (k : String) → All P d → All P (pop d k)
  unfolding pop
  All-pop P [] k h = tt
  All-pop P ((i, w) ∷ d) k h = elim (Bool-cases (i == k)) [
    | inl e ↦ rw e (All-pop P d k h.1)
    | inr e ↦ rw e (h.0, All-pop P d k h.1)
  ]

  pub All-get {κ} :
      (P : String × V → Type κ) (d : Dict V) (k : String) {v : V}
      → All P d
      → get d k ≡ some v
      → P (k, v)
  unfolding get
  All-get P [] k h e = ground arith
  All-get P ((i, w) ∷ d) k {v} h e = elim (Bool-cases (i == k)) [
    | inl p ↦
        let q : ◌≡◌ {A = String × V} (i, w) (k, v) = ground (arith, eq_iff i k) in subst P q h.0
    | inr p ↦ All-get P d k h.1 (ground arith)
  ]

  -- No key stands twice.
  abbrev pub IsDict : Dict V → Type ℓ
  IsDict [] = Unit
  IsDict ((k, v) ∷ d) = (get d k ≡ none) × IsDict d

  pub put-IsDict : (d : Dict V) (k : String) (v : V) → IsDict d → IsDict (put d k v)
  unfolding put get
  put-IsDict [] k v h = (refl, tt)
  put-IsDict ((j, w) ∷ d) k v h = elim (Bool-cases (j == k)) [
    | inl e ↦ rw e h
    | inr e ↦
        rw e (ground (arith, get-put d k j v, h.0, eq_iff k j, eq_iff j k), put-IsDict d k v h.1)
  ]

  -- An entry is what a lookup of its key gives.
  pub get_of_entry : (d : Dict V) → IsDict d → All (λ e. get d e.0 ≡ some e.1) d
  unfolding get
  get_of_entry [] h = tt
  get_of_entry ((k, v) ∷ d) h = (
    ground (arith, eq_iff k k),
    All-imp (λ e. get d e.0 ≡ some e.1) (λ e. get ((k, v) ∷ d) e.0 ≡ some e.1) d
        (λ e p. ground (arith, p, h.0, eq_iff k e.0)) (get_of_entry d h.1),
  )

pub get-nil {ℓ} : (V : Type ℓ) (k : String) → get {V = V} [] k ≡ none
unfolding get
get-nil V k = refl

pub has-nil {ℓ} : (V : Type ℓ) (k : String) → has {V = V} [] k ≡ false
unfolding has
has-nil V k = refl
