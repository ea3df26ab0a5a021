-- ===== src/Sync/Manager/Consume.antt =====
-- What `consume_through` and `drop_frames_older_than` leave in the buffers.
use gc_image_stream.Prelude.{
  ℕ, zero, suc, ◌+◌, ◌-◌, ◌<◌, String, ◌≡◌, refl, sym, ◌∙◌, subst, ap, inl, inr, true, not, some,
  List, [], ◌∷◌, arith, leb, ◌==◌, string_eq, eq_iff, if◌then◌else◌, length, drop, All, All-imp,
  All-keep_if, All-keep_if_self, Bool-cases, Option-cases, none-ne-some,
}
use gc_image_stream.Dict
use gc_image_stream.Dict.{Dict, get-put, has-put}
use gc_image_stream.Sync.Models.{StoredSyncFrame}
use gc_image_stream.Sync.Buffer
use gc_image_stream.Sync.Buffer.{CameraSyncBuffer, last_n}
use gc_image_stream.Sync.Manager.{
  Manager, consume_buffer, consume_through, drop_device, drop_frames_older_than,
}
use gc_image_stream.Sync.Manager.Available.{buffered}

pub All-drop {ℓ κ} :
    {A : Type ℓ} (P : A → Type κ) (n : ℕ) (xs : List A) → All P xs → All P (drop n xs)
All-drop P zero xs h = h
All-drop P (suc n) [] h = h
All-drop P (suc n) (x ∷ xs) h = All-drop P n xs h.1

pub All-last_n {ℓ κ} :
    {A : Type ℓ} (P : A → Type κ) (n : ℕ) (xs : List A) → All P xs → All P (last_n n xs)
unfolding last_n
All-last_n P n xs h = All-drop P (length xs - n) xs h

-- The buffer of a camera, when that of another or of the same camera is put back.
pub buffered-put :
    (m : Manager) (d c : String) (b : CameraSyncBuffer)
    → buffered (record m { buffers = Dict.put m.buffers d b }) c
      ≡ (if d == c then b.frames else buffered m c)
buffered-put m d c b = elim (Bool-cases (d == c)) [
  | inl e ↦ rw (get-put, e, buffered) refl
  | inr e ↦ rw (get-put, e, buffered) refl
]

abbrev pub with_buffer : Manager → String → CameraSyncBuffer → Manager
with_buffer m d b = record m { buffers = Dict.put m.buffers d b }

buffered_of :
    (m : Manager) (d : String) {b : CameraSyncBuffer}
    → Dict.get m.buffers d ≡ some b
    → buffered m d ≡ b.frames
buffered_of m d e = rw (e, buffered) refl

consume-nil : (m : Manager) {m' : Manager} {n : ℕ} → consume_through m [] ≡ some (m', n) → m ≡ m'
unfolding consume_through
consume-nil m e = ground arith

-- One camera of `consume_through`.
consume-cons :
    (m : Manager) (d : String) (chosen : StoredSyncFrame) (selected : Dict StoredSyncFrame)
    {m' : Manager} {n : ℕ}
    → consume_through m ((d, chosen) ∷ selected) ≡ some (m', n)
    → (b : CameraSyncBuffer) × (k : ℕ) × (Dict.get m.buffers d ≡ some b)
      × (consume_through (with_buffer m d (consume_buffer b chosen).0) selected ≡ some (m', k))
unfolding consume_through
consume-cons m d chosen selected {m'} {n} e = elim (Option-cases (Dict.get m.buffers d)) [
  | inl missing ↦ absurd (none-ne-some (rw (missing, consume_through) at e))
  | inr (b, found) ↦
      elim (Option-cases (consume_through (with_buffer m d (consume_buffer b chosen).0) selected)) [
        | inl stuck ↦ absurd (none-ne-some (rw (found, consume_through, stuck) at e))
        | inr ((m'', k), left) ↦
            (b, k, found, left ∙ ground (arith, rw (found, consume_through, left) at e))
      ]
]

-- A predicate on the frames of camera `c` that holds in `m` holds in `m'`.
abbrev pub Keeps : (StoredSyncFrame → Type 0) → String → Manager → Manager → Type 0
Keeps P c m m' = All P (buffered m c) → All P (buffered m' c)

module _ (P : StoredSyncFrame → Type 0) (c : String) where
  Keeps-with_buffer :
      (m : Manager) (d : String) (b b' : CameraSyncBuffer)
      → Dict.get m.buffers d ≡ some b
      → (All P b.frames → All P b'.frames)
      → Keeps P c m (with_buffer m d b')
  Keeps-with_buffer m d b b' e keep h = elim (Bool-cases (d == c)) [
    | inl same ↦ rw buffered-put (
        rw same (
          keep (subst (All P) (ap (buffered m) (sym ((eq_iff d c).0 same)) ∙ buffered_of m d e) h)))
    | inr other ↦ rw buffered-put (rw other h)
  ]

  All-consume_buffer :
      (b : CameraSyncBuffer) (chosen : StoredSyncFrame)
      → All P b.frames
      → All P (consume_buffer b chosen).0.frames
  unfolding consume_buffer
  All-consume_buffer b chosen h = All-last_n P b.max_frames _ (All-keep_if P _ b.frames h)

  -- Consuming only takes frames away.
  pub Keeps-consume_through :
      (m : Manager) (selected : Dict StoredSyncFrame) {m' : Manager} {n : ℕ}
      → consume_through m selected ≡ some (m', n)
      → Keeps P c m m'
  Keeps-consume_through m [] e h = subst (λ x. All P (buffered x c)) (consume-nil m e) h
  Keeps-consume_through m ((d, chosen) ∷ selected) e h =
      let (b, k, found, left) = consume-cons m d chosen selected e in
      Keeps-consume_through (with_buffer m d (consume_buffer b chosen).0) selected left
        (Keeps-with_buffer m d b (consume_buffer b chosen).0 found (All-consume_buffer b chosen) h)

  -- So does dropping.
  pub Keeps-drop_frames_older_than :
      (m : Manager) (cameras : List String) (t : ℕ) (excluded : List String)
      → Keeps P c m (drop_frames_older_than m cameras t excluded).0
  unfolding drop_frames_older_than drop_device Buffer.drop_frames_older_than
  Keeps-drop_frames_older_than m [] t excluded h = h
  Keeps-drop_frames_older_than m (d ∷ cameras) t excluded h =
      Keeps-drop_frames_older_than (drop_device m d t excluded).0 cameras t excluded
        (elim (Option-cases (Dict.get m.buffers d)) [
          | inl missing ↦ rw (missing, drop_device) h
          | inr (b, found) ↦
              rw (found, drop_device)
                (Keeps-with_buffer m d b (Buffer.drop_frames_older_than b t excluded).0 found
                  (λ a. All-last_n P b.max_frames _ (All-keep_if P _ b.frames a)) h)
        ])

-- Every frame that is left is later than the chosen one.
consumed_later :
    (b : CameraSyncBuffer) (chosen : StoredSyncFrame)
    → All (λ f. chosen.timestamp_ms < f.timestamp_ms) (consume_buffer b chosen).0.frames
unfolding consume_buffer
consumed_later b chosen =
    All-last_n (λ f. chosen.timestamp_ms < f.timestamp_ms) b.max_frames _
      (All-imp (λ f. not (leb f.timestamp_ms chosen.timestamp_ms) ≡ true)
        (λ f. chosen.timestamp_ms < f.timestamp_ms) _ (λ f p. ground arith)
        (All-keep_if_self (λ f. not (leb f.timestamp_ms chosen.timestamp_ms)) b.frames))

-- After `consume_through` each camera's buffer holds only frames later than the chosen one.
pub consume_through-later :
    (m : Manager) (selected : Dict StoredSyncFrame) {m' : Manager} {n : ℕ}
    → consume_through m selected ≡ some (m', n)
    → (c : String) (chosen : StoredSyncFrame) → Dict.get selected c ≡ some chosen
    → All (λ f. chosen.timestamp_ms < f.timestamp_ms) (buffered m' c)
unfolding Dict.get
consume_through-later m [] e c chosen g = absurd (none-ne-some g)
consume_through-later m ((d, first) ∷ selected) {m'} e c chosen g =
    let (b, k, found, left) = consume-cons m d first selected e in
    elim (Bool-cases (d == c)) [
      | inr other ↦
          consume_through-later (with_buffer m d (consume_buffer b first).0) selected left c chosen
            (ground arith)
      | inl same ↦
          let same_frame : first ≡ chosen = ground arith in
          Keeps-consume_through (λ f. chosen.timestamp_ms < f.timestamp_ms) c
            (with_buffer m d (consume_buffer b first).0) selected left
            (rw buffered-put (
              rw same (
                subst
                  (λ (x : StoredSyncFrame).
                    All (λ f. x.timestamp_ms < f.timestamp_ms) (consume_buffer b first).0.frames)
                  same_frame (consumed_later b first))))
    ]

-- Where every selected camera has a buffer, no `KeyError` occurs.
pub consume_through_total :
    (m : Manager) (selected : Dict StoredSyncFrame)
    → All (λ e. Dict.has m.buffers e.0 ≡ true) selected
    → (m' : Manager) × (n : ℕ) × (consume_through m selected ≡ some (m', n))
unfolding consume_through
consume_through_total m [] h = (m, 0, refl)
consume_through_total m ((d, chosen) ∷ selected) h =
    let (b, found) = Dict.get_of_has m.buffers d h.0 in
    let m1 = with_buffer m d (consume_buffer b chosen).0 in
    let (m', n, left) = consume_through_total m1 selected (
      All-imp (λ e. Dict.has m.buffers e.0 ≡ true) (λ e. Dict.has m1.buffers e.0 ≡ true) selected
        (λ e p. ground (arith, has-put m.buffers d e.0 (consume_buffer b chosen).0)) h.1) in
    (m', (consume_buffer b chosen).1 + n, rw (found, consume_through) (rw left refl))
