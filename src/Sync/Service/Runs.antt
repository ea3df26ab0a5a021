-- ===== src/Sync/Service/Runs.antt =====
-- Sequences of calls of `StreamSyncService.handle_frame` (app/services/sync/service.py).
use gc_image_stream.Prelude.{
  ℕ, ◌+◌, ◌≤◌, ◌<◌, String, ◌≡◌, refl, subst, inl, inr, true, Option, none, some, List, [], ◌∷◌,
  arith, length, Option-cases,
}
use gc_image_stream.External.{External}
use gc_image_stream.Sync.Models.{SyncInputFrame, StoredSyncFrame, SynchronizedFrameSet}
use gc_image_stream.Sync.Manager
use gc_image_stream.Sync.Manager.{Manager}
use gc_image_stream.Sync.Matcher.{
  Matcher, Outcome, returned, raised, try_match, result_of, matcher_after,
}
use gc_image_stream.Sync.Matching.Order.{try_match-ordered}
use gc_image_stream.Sync.Matching.Counts.{CountsOnce, try_match-CountsOnce}
use gc_image_stream.Sync.Service.{
  Service, Handled, service_after, reply_of, with_outcome, handle_with, handle_frame,
}

-- A call: the frame, the `uuid4` for a fresh run, and the time.
pub record Call : Type 0 where
  pub frame : SyncInputFrame
  pub fresh_run : String
  pub now_ms : ℕ

abbrev call : External → Service → Call → Handled
call ext s c = handle_frame ext s c.frame c.fresh_run c.now_ms

abbrev add : Option SynchronizedFrameSet → List SynchronizedFrameSet → List SynchronizedFrameSet
add none sets = sets
add (some fs) sets = fs ∷ sets

-- The calls one after the other, with the frame sets that they return.
unfoldable pub handle_all : External → Service → List Call → Service × List SynchronizedFrameSet
handle_all ext s [] = (s, [])
handle_all ext s (c ∷ calls) =
    let (s', sets) = handle_all ext (service_after (call ext s c)) calls in
    (s', add (reply_of (call ext s c)) sets)

-- A configured service that is enabled.
abbrev pub IsActive : Service → Matcher → Type 0
IsActive s x = (s.enabled ≡ true) × (s.matcher ≡ some x)

abbrev Advances : Matcher → Option SynchronizedFrameSet → Matcher → Type 0
Advances x none x' =
    (x'.matched_count ≡ x.matched_count) × (x.last_synchronized_at_ms ≤ x'.last_synchronized_at_ms)
Advances x (some fs) x' =
    (x'.matched_count ≡ x.matched_count + 1)
    × (x.last_synchronized_at_ms < fs.synchronized_at_ms)
    × (x'.last_synchronized_at_ms ≡ fs.synchronized_at_ms)

outcome-Advances :
    (ext : External) (m : Manager) (x : Matcher) (trigger : StoredSyncFrame) (fresh_run : String)
    (now_ms : ℕ) (o : Outcome)
    → try_match ext m x trigger fresh_run now_ms ≡ o
    → CountsOnce x o
    → Advances x (result_of o) (matcher_after o)
outcome-Advances ext m x trigger fresh_run now_ms (returned m' x' (some fs)) e h =
    let (later, _, last, _, _, _) = try_match-ordered ext m x trigger fresh_run now_ms e in
    (h.0, later, last)
outcome-Advances ext m x trigger fresh_run now_ms (returned m' x' none) e (same, _, back) =
    (same, back)
outcome-Advances ext m x trigger fresh_run now_ms (raised msg m' x') e (same, _, _, back) =
    (same, back)

-- One call of an active service.
abbrev Stepped : Matcher → Handled → Type 0
Stepped x h = (x' : Matcher) × IsActive (service_after h) x' × Advances x (reply_of h) x'

outcome-Stepped :
    (s : Service) (x : Matcher) (o : Outcome)
    → s.enabled ≡ true
    → Advances x (result_of o) (matcher_after o)
    → Stepped x (with_outcome s o)
outcome-Stepped s x (returned m x' r) e h = (x', (e, refl), h)
outcome-Stepped s x (raised msg m x') e h = (x', (e, refl), h)

handle_with-Stepped :
    (ext : External) (s : Service) (x : Matcher) (frame : SyncInputFrame) (fresh_run : String)
    (now_ms : ℕ)
    → IsActive s x
    → Stepped x (handle_with ext s x frame fresh_run now_ms)
unfolding handle_with
handle_with-Stepped ext s x frame fresh_run now_ms (e, there) =
    let m = (Manager.add_frame ext s.buffer_manager frame).0 in
    elim (Option-cases (Manager.add_frame ext s.buffer_manager frame).1) [
      | inl n ↦ rw (handle_with, n) (x, (e, there), (refl, ground arith))
      | inr (f, n) ↦
          let counts = try_match-CountsOnce ext m x f fresh_run now_ms in
          rw (handle_with, n)
            (outcome-Stepped s x (try_match ext m x f fresh_run now_ms) e
              (outcome-Advances ext m x f fresh_run now_ms _ refl counts))
    ]

call-Stepped :
    (ext : External) (s : Service) (x : Matcher) (c : Call)
    → IsActive s x
    → Stepped x (call ext s c)
unfolding handle_frame
call-Stepped ext s x c active =
    rw (handle_frame, active.0, active.1)
      (handle_with-Stepped ext s x c.frame c.fresh_run c.now_ms active)

-- Every frame set is synchronized later than the time and than the frame sets before it.
abbrev pub IsLater : ℕ → List SynchronizedFrameSet → Type 0
IsLater t [] = Unit
IsLater t (fs ∷ sets) = (t < fs.synchronized_at_ms) × IsLater fs.synchronized_at_ms sets

IsLater-le : (t u : ℕ) (sets : List SynchronizedFrameSet) → t ≤ u → IsLater u sets → IsLater t sets
IsLater-le t u [] h k = tt
IsLater-le t u (fs ∷ sets) h k = (omega arith, k.1)

added :
    (x x' y : Matcher) (r : Option SynchronizedFrameSet) (sets : List SynchronizedFrameSet)
    → Advances x r x'
    → y.matched_count ≡ x'.matched_count + length sets
    → IsLater x'.last_synchronized_at_ms sets
    → (y.matched_count ≡ x.matched_count + length (add r sets))
      × IsLater x.last_synchronized_at_ms (add r sets)
added x x' y none sets h c k = (omega arith, IsLater-le _ _ sets h.1 k)
added x x' y (some fs) sets (counted, later, last) c k =
    (omega arith, (later, subst (λ t. IsLater t sets) last k))

-- Over any sequence of calls of an active service, however they end, the frame sets that are
-- returned are synchronized one later than the other, `matched_count` grows by their number, and the
-- service stays active.
pub handle_all-IsLater :
    (ext : External) (s : Service) (x : Matcher) (calls : List Call)
    → IsActive s x
    → (y : Matcher) × IsActive (handle_all ext s calls).0 y
      × (y.matched_count ≡ x.matched_count + length (handle_all ext s calls).1)
      × IsLater x.last_synchronized_at_ms (handle_all ext s calls).1
unfolding handle_all
handle_all-IsLater ext s x [] active = (x, active, omega arith, tt)
handle_all-IsLater ext s x (c ∷ calls) active =
    let (x', active', step) = call-Stepped ext s x c active in
    let (y, last, counts, later) =
      handle_all-IsLater ext (service_after (call ext s c)) x' calls active' in
    let (total, chain) = added x x' y (reply_of (call ext s c)) _ step counts later in
    (y, last, total, chain)
