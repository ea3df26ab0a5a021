-- ===== src/Relay/LatestLive/Newest.antt =====
-- Which frame set a claim of `LatestLiveStore` takes.
use gc_image_stream.Prelude.{
  ℕ, ◌≤◌, ◌<◌, String, ◌≡◌, refl, sym, ap, ◌⊎◌, inl, inr, Bool, true, false, Option, none, some,
  ◌∷◌, arith, Bool-cases, Option-cases, List-cases, none-ne-some, some_inj, All, All-In, All_of_In,
  All-keep_if_self, In, eq_iff, ◌==◌, string_eq, option_eq,
}
use gc_image_stream.Prelude.Sorting.{sorted, Leads, sorted-Leads, Any-sorted, Any-of_sorted}
use gc_image_stream.Dict
use gc_image_stream.Relay.LatestLive.Tables.{
  FrameSetManifest, FrameSetDeliveryProjection, RelayV2ClientState, Tables, CreditIdentity,
  ClaimedFrameSet, manifest_of, manifest_key, is_newer, snapshot, Reply, reply, runtime_error,
  value_error,
}
use gc_image_stream.Relay.LatestLive.Claims.{
  ensure_state_row, is_eligible, eligible, newest, is_past, keep_past, newest_eligible, take,
  claim_candidate, claim_latest,
}

-- Synchronized, or else created, no later.
abbrev pub IsUpTo : FrameSetManifest → FrameSetManifest → Type 0
IsUpTo a b =
    (a.synchronized_at_ms < b.synchronized_at_ms)
    ⊎ ((a.synchronized_at_ms ≡ b.synchronized_at_ms) × (a.created_at_ms ≤ b.created_at_ms))

IsUpTo-of_newer : (a b : FrameSetManifest) → is_newer a b ≡ true → IsUpTo b a
IsUpTo-of_newer a b h = ground arith

IsUpTo-of_not_newer : (a b : FrameSetManifest) → is_newer a b ≡ false → IsUpTo a b
IsUpTo-of_not_newer a b h = ground arith

IsUpTo-trans : (a b c : FrameSetManifest) → IsUpTo a b → IsUpTo b c → IsUpTo a c
IsUpTo-trans a b c h k = ground arith

pub newest_leads :
    (db : Tables) {c : FrameSetManifest}
    → newest db ≡ some c
    → In c (eligible db) × All (λ other. IsUpTo other c) (eligible db)
unfolding newest
newest_leads db {c} h =
    let rows = sorted is_newer (eligible db) in
    let leads =
      sorted-Leads is_newer IsUpTo IsUpTo-of_newer IsUpTo-of_not_newer IsUpTo-trans (eligible db) in
    elim (List-cases rows) [
      | inl e ↦ absurd (none-ne-some (rw e at h))
      | inr (y, ys, e) ↦
          let same : y ≡ c = some_inj (rw e at h) in
          let head : rows ≡ c ∷ ys = rw same at e in
          let first : In c rows = rw head (inl refl) in
          let all : All (λ other. IsUpTo other c) rows =
            rw head (let l : Leads IsUpTo (c ∷ ys) = rw head at leads in l) in
          (
            Any-of_sorted is_newer (λ x. x ≡ c) (eligible db) first,
            All_of_In (λ other. IsUpTo other c) (eligible db)
                (λ x k.
                  All-In (λ other. IsUpTo other c) rows all
                    (Any-sorted is_newer (λ z. z ≡ x) (eligible db) k)),
          )
    ]

-- Why a candidate may be offered: it is the first, it is offered again, or it is past the watermark.
abbrev pub MayOffer : Tables → RelayV2ClientState → FrameSetManifest → Type 0
MayOffer db state candidate =
    (state.watermark_frame_set_uid ≡ none)
    ⊎ (state.reoffer_frame_set_uid ≡ some candidate.frame_set_uid)
    ⊎ ((uid : String) × (watermark : FrameSetManifest) × (state.watermark_frame_set_uid ≡ some uid)
        × (manifest_of db.manifests uid ≡ some watermark)
        × (is_past candidate watermark ≡ true))

pub reply_inj : {A : Type 0} {a b : A} → reply a ≡ reply b → a ≡ b
reply_inj h = cc

reply_none : {A : Type 0} {a : A} → ¬ (◌≡◌ {A = Reply (Option A)} (reply none) (reply (some a)))
reply_none h = none-ne-some (reply_inj h)

pub error_ne : {A : Type 0} {a : A} {e : String} → ¬ (◌≡◌ {A = Reply A} (runtime_error e) (reply a))
error_ne h = cc

value_ne : {A : Type 0} {a : A} {e : String} → ¬ (◌≡◌ {A = Reply A} (value_error e) (reply a))
value_ne h = cc

pub Reply-cases :
    {A : Type 0} (r : Reply A)
    → ((a : A) × (r ≡ reply a))
      ⊎ ((e : String) × (r ≡ runtime_error e))
      ⊎ ((e : String) × (r ≡ value_error e))
Reply-cases (reply a) = inl (a, refl)
Reply-cases (runtime_error e) = inr (inl (e, refl))
Reply-cases (value_error e) = inr (inr (e, refl))

kept_is_past :
    (d w : FrameSetManifest) {c : FrameSetManifest}
    → keep_past d w ≡ some c
    → (d ≡ c) × (is_past d w ≡ true)
kept_is_past d w h = elim (Bool-cases (is_past d w)) [
  | inl p ↦ (some_inj (rw p at h), p)
  | inr p ↦ absurd (none-ne-some (rw p at h))
]

pub newest_eligible_offer :
    (db : Tables) (state : RelayV2ClientState) {c : FrameSetManifest}
    → newest_eligible db state ≡ reply (some c)
    → (newest db ≡ some c) × MayOffer db state c
unfolding newest_eligible
newest_eligible_offer db state {c} h = elim (Option-cases (newest db)) [
  | inl e ↦ absurd (reply_none (rw (e, newest_eligible) at h))
  | inr (d, e) ↦ elim (Option-cases state.watermark_frame_set_uid) [
    | inl w ↦
        let same : d ≡ c = some_inj (reply_inj (rw (e, newest_eligible, w) at h)) in
        (rw same at e, inl w)
    | inr (uid, w) ↦ elim (Bool-cases (some d.frame_set_uid == state.reoffer_frame_set_uid)) [
      | inl r ↦
          let same : d ≡ c = some_inj (reply_inj (rw (e, newest_eligible, w, r) at h)) in
          let again : some d.frame_set_uid ≡ state.reoffer_frame_set_uid =
            (option_eq.beq_iff _ _).0 r in
          (rw same at e, inr (inl (rw same at (sym again))))
      | inr r ↦ elim (Option-cases (manifest_of db.manifests uid)) [
        | inl m ↦ absurd (error_ne (rw (e, newest_eligible, w, r, m) at h))
        | inr (watermark, m) ↦
            let kept : keep_past d watermark ≡ some c =
              reply_inj (rw (e, newest_eligible, w, r, m) at h) in
            let (same, past) = kept_is_past d watermark kept in
            (rw same at e, inr (inr (uid, watermark, w, m, rw same at past)))
      ]
    ]
  ]
]

-- What a claim that returns a frame set did.
pub record Claimed (before : Tables) (credit : CreditIdentity) (timestamp_ms : ℕ) (after : Tables)
    (claimed : ClaimedFrameSet) : Type 0 where
  pub candidate : FrameSetManifest
  pub idle : (ensure_state_row before.client_state timestamp_ms).in_flight_frame_set_uid ≡ none
  pub leads : newest before ≡ some candidate
  pub may : MayOffer before (ensure_state_row before.client_state timestamp_ms) candidate
  pub taken :
      take
        (record before { client_state = some (ensure_state_row before.client_state timestamp_ms) })
        candidate
        credit
        timestamp_ms
      ≡ some after
  pub shown : claimed ≡ snapshot after candidate credit timestamp_ms

taken_candidate :
    (before db : Tables) (candidate : FrameSetManifest) (credit : CreditIdentity) (timestamp_ms : ℕ)
    {after : Tables} {c : ClaimedFrameSet}
    → claim_candidate before db candidate credit timestamp_ms ≡ (after, reply (some c))
    → (take db candidate credit timestamp_ms ≡ some after)
      × (c ≡ snapshot after candidate credit timestamp_ms)
unfolding claim_candidate
taken_candidate before db candidate credit timestamp_ms {after} h =
    elim (Option-cases (take db candidate credit timestamp_ms)) [
      | inl e ↦ absurd (reply_none (ap (λ p. p.1) (rw (e, claim_candidate) at h)))
      | inr (t, e) ↦
          let pair : ◌≡◌ {A = Tables × Reply (Option ClaimedFrameSet)}
              (t, reply (some (snapshot t candidate credit timestamp_ms))) (after, reply (some _)) =
            rw (e, claim_candidate) at h in
          let same : t ≡ after = ap (λ p. p.0) pair in
          (rw same at e, rw same at (sym (some_inj (reply_inj (ap (λ p. p.1) pair)))))
    ]

pub claim_latest-Claimed :
    (before : Tables) (credit : CreditIdentity) (timestamp_ms : ℕ) {after : Tables}
    {claimed : ClaimedFrameSet}
    → claim_latest before credit timestamp_ms ≡ (after, reply (some claimed))
    → Claimed before credit timestamp_ms after claimed
unfolding claim_latest newest
claim_latest-Claimed before credit timestamp_ms {after} {claimed} h =
    let state = ensure_state_row before.client_state timestamp_ms in
    let db : Tables = record before { client_state = some state } in
    elim (Option-cases state.in_flight_frame_set_uid) [
      | inr (uid, e) ↦ absurd (reply_none (ap (λ p. p.1) (rw (e, claim_latest) at h)))
      | inl idle ↦ elim (Reply-cases (newest_eligible db state)) [
        | inl (none, r) ↦ absurd (reply_none (ap (λ p. p.1) (rw (idle, claim_latest, r) at h)))
        | inl (some c, r) ↦
            let (taken, shown) =
              taken_candidate before db c credit timestamp_ms (rw (idle, claim_latest, r) at h) in
            let (leads, may) = newest_eligible_offer db state r in
            record {
              candidate = c;
              idle = idle;
              leads = leads;
              may = may;
              taken = taken;
              shown = shown;
            }
        | inr (inl (m, r)) ↦ absurd (error_ne (ap (λ p. p.1) (rw (idle, claim_latest, r) at h)))
        | inr (inr (m, r)) ↦ absurd (value_ne (ap (λ p. p.1) (rw (idle, claim_latest, r) at h)))
      ]
    ]

-- The projection of a frame set is there, durable in the archive and eligible.
abbrev pub IsDurable : Tables → FrameSetManifest → Type 0
IsDurable db row =
    (p : FrameSetDeliveryProjection) × (Dict.get db.projections row.frame_set_uid ≡ some p)
    × (p.archive_state ≡ "ARCHIVE_DURABLE")
    × (p.live_state ≡ "ELIGIBLE")

eligible-IsDurable :
    (db : Tables) (row : FrameSetManifest) → In row (eligible db) → IsDurable db row
eligible-IsDurable db row i =
    let test : FrameSetManifest → Bool =
      λ (r : FrameSetManifest). is_eligible (Dict.get db.projections r.frame_set_uid) in
    let passed : test row ≡ true =
      All-In (λ r. test r ≡ true) (eligible db) (All-keep_if_self test db.manifests) i in
    elim (Option-cases (Dict.get db.projections row.frame_set_uid)) [
      | inl e ↦ let no : is_eligible none ≡ true = rw e at passed in absurd (ground (arith, no))
      | inr (p, e) ↦
          let yes : is_eligible (some p) ≡ true = rw e at passed in
          (
            p,
            e,
            (eq_iff p.archive_state "ARCHIVE_DURABLE").0 (ground (arith, yes)),
            (eq_iff p.live_state "ELIGIBLE").0 (ground (arith, yes)),
          )
    ]

-- A frame set is claimed only if it is durable and eligible, if no eligible one was synchronized (or
-- else created) later, and if it may be offered: there is no watermark yet, it was reconciled for
-- another offer, or it is past the watermark. The reply carries its key.
pub claim_latest-newest :
    (before : Tables) (credit : CreditIdentity) (timestamp_ms : ℕ) {after : Tables}
    {claimed : ClaimedFrameSet}
    → claim_latest before credit timestamp_ms ≡ (after, reply (some claimed))
    → (candidate : FrameSetManifest) × (claimed.key ≡ manifest_key candidate)
      × IsDurable before candidate
      × In candidate (eligible before)
      × All (λ other. IsUpTo other candidate) (eligible before)
      × MayOffer before (ensure_state_row before.client_state timestamp_ms) candidate
claim_latest-newest before credit timestamp_ms h =
    let c = claim_latest-Claimed before credit timestamp_ms h in
    let (first, latest) = newest_leads before c.leads in
    (
      c.candidate,
      unfold snapshot in ap (λ x. x.key) c.shown,
      eligible-IsDurable before c.candidate first,
      first,
      latest,
      c.may,
    )
