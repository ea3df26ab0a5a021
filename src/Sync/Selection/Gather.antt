-- ===== src/Sync/Selection/Gather.antt =====
-- The candidates that `gather` collects, and the cameras that it misses.
use mathlib.Core.List.{append_assoc, append-nil}
use gc_image_stream.Prelude.{
  String, ◌≡◌, ◌≢◌, refl, sym, ◌∙◌, subst, inl, inr, true, List, [], ◌∷◌, ◌++◌, arith, All, In,
  keep_if, is_nil, List-cases, string_eq, eq_iff,
}
use gc_image_stream.Dict
use gc_image_stream.Dict.{Dict, IsDict, put-IsDict, All-put, has-put}
use gc_image_stream.Sync.Models.{StoredSyncFrame}
use gc_image_stream.Sync.Manager
use gc_image_stream.Sync.Manager.{Manager}
use gc_image_stream.Sync.Selection.{Candidates, gather}

module _ (m : Manager) where
  abbrev pub available : String → List StoredSyncFrame
  available d = Manager.available_frames m d []

  pub missing_lem :
      (lists : Candidates) (missing ds : List String)
      → (gather m lists missing ds).1 ≡ missing ++ keep_if (λ d. is_nil (available d)) ds
  unfolding gather
  missing_lem lists missing [] = sym (append-nil missing)
  missing_lem lists missing (d ∷ ds) = elim (List-cases (available d)) [
    | inl e ↦
        rw (e, gather)
          (missing_lem lists (missing ++ d ∷ []) ds
            ∙ append_assoc missing (d ∷ []) (keep_if (λ c. is_nil (available c)) ds))
    | inr (f, fs, e) ↦ rw (e, gather) (missing_lem (Dict.put lists d (f ∷ fs)) missing ds)
  ]

  pub gather-IsDict :
      (lists : Candidates) (missing ds : List String)
      → IsDict lists
      → IsDict (gather m lists missing ds).0
  unfolding gather
  gather-IsDict lists missing [] h = h
  gather-IsDict lists missing (d ∷ ds) h = elim (List-cases (available d)) [
    | inl e ↦ rw (e, gather) (gather-IsDict lists (missing ++ d ∷ []) ds h)
    | inr (f, fs, e) ↦
        rw (e, gather)
          (gather-IsDict (Dict.put lists d (f ∷ fs)) missing ds (put-IsDict lists d (f ∷ fs) h))
  ]

  -- What holds of every camera with its available frames holds of the candidates.
  pub All-gather :
      (P : String × List StoredSyncFrame → Type 0) (lists : Candidates) (missing ds : List String)
      → ((d : String) → In d ds → available d ≢ [] → P (d, available d))
      → All P lists
      → All P (gather m lists missing ds).0
  unfolding gather
  All-gather P lists missing [] p h = h
  All-gather P lists missing (d ∷ ds) p h = elim (List-cases (available d)) [
    | inl e ↦ rw (e, gather) (All-gather P lists (missing ++ d ∷ []) ds (λ c i. p c (inr i)) h)
    | inr (f, fs, e) ↦
        rw (e, gather)
          (All-gather P (Dict.put lists d (f ∷ fs)) missing ds (λ c i. p c (inr i))
            (All-put P lists d (f ∷ fs)
              (subst (λ l. P (d, l)) e (p d (inl refl) (λ q. ground (arith, e)))) h))
  ]

  gather_keeps :
      (lists : Candidates) (missing ds : List String) (c : String)
      → Dict.has lists c ≡ true
      → Dict.has (gather m lists missing ds).0 c ≡ true
  unfolding gather
  gather_keeps lists missing [] c h = h
  gather_keeps lists missing (d ∷ ds) c h = elim (List-cases (available d)) [
    | inl e ↦ rw (e, gather) (gather_keeps lists (missing ++ d ∷ []) ds c h)
    | inr (f, fs, e) ↦
        rw (e, gather)
          (gather_keeps (Dict.put lists d (f ∷ fs)) missing ds c
            (ground (arith, has-put lists d c (f ∷ fs))))
  ]

  -- A camera with frames is among the candidates.
  pub gather_found :
      (lists : Candidates) (missing ds : List String) (c : String)
      → In c ds
      → available c ≢ []
      → Dict.has (gather m lists missing ds).0 c ≡ true
  unfolding gather
  gather_found lists missing [] c i n = absurd i
  gather_found lists missing (d ∷ ds) c (inr i) n = elim (List-cases (available d)) [
    | inl e ↦ rw (e, gather) (gather_found lists (missing ++ d ∷ []) ds c i n)
    | inr (f, fs, e) ↦ rw (e, gather) (gather_found (Dict.put lists d (f ∷ fs)) missing ds c i n)
  ]
  gather_found lists missing (d ∷ ds) c (inl same) n = elim (List-cases (available d)) [
    | inl e ↦ absurd (n (subst (λ b. available b ≡ []) same e))
    | inr (f, fs, e) ↦
        rw (e, gather)
          (gather_keeps (Dict.put lists d (f ∷ fs)) missing ds c
            (ground (arith, has-put lists d c (f ∷ fs), eq_iff d c)))
  ]
