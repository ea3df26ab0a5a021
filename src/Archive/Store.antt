-- ===== src/Archive/Store.antt =====
-- The operations of app/services/sync/manifest_store.py as functions of the archive. `created_at_ms`
-- and `updated_at_ms` are the optional arguments, `now_ms` is the clock. An exception leaves the
-- archive as the transaction found it.
use gc_image_stream.Prelude.{
  ℕ, String, Bool, true, false, not, ◌&&◌, ◌||◌, Option, none, some, List, [], ◌∷◌, ◌++◌, map, any,
  keep_if, is_nil, ltb, ◌==◌, nat_eq, string_eq, option_eq, if◌then◌else◌,
}
use gc_image_stream.Dict
use gc_image_stream.Dict.{Dict}
use gc_image_stream.Sync.Models.{SynchronizedFrameSet}
use gc_image_stream.Relay.LatestLive.Tables.{
  FrameSetManifest, FrameSetMember, FrameSetDeliveryProjection, manifest_of,
}
use gc_image_stream.Relay.LatestLive.Claims.{newest}
use gc_image_stream.Archive.Rows.{
  CaptureSession, CaptureRun, Archive, column, members_of, source_sessions_json, manifest_row,
  member_rows, new_delivery_projection,
}
use gc_image_stream.Archive.Checks.{validate_v2_frame_set, is_same_manifest}

-- What an operation returns or raises.
pub data Outcome (A : Type 0) : Type 0 where
  done : A → Outcome A
  integrity_error : String → Outcome A
  value_error : String → Outcome A

abbrev pub or_now : Option ℕ → ℕ → ℕ
or_now none now_ms = now_ms
or_now (some t) now_ms = t

unfoldable pub session_of : List CaptureSession → String → Option CaptureSession
session_of [] id = none
session_of (row ∷ rows) id =
    let rest = session_of rows id in if row.id == id then some row else rest

unfoldable pub run_of : List CaptureRun → String → Option CaptureRun
run_of [] id = none
run_of (row ∷ rows) id = let rest = run_of rows id in if row.id == id then some row else rest

-- The open session, or run, of another frame set is closed.
abbrev pub close_session : String → ℕ → CaptureSession → CaptureSession
close_session id t row =
    if row.state == "OPEN" && not (row.id == id)
    then record row {
      state = "CLOSED";
      closed_at_ms = some t;
      close_reason = some "SOURCE_SESSION_SET_CHANGED";
    }
    else row

abbrev pub close_run : String → ℕ → CaptureRun → CaptureRun
close_run id t row =
    if row.state == "OPEN" && not (row.id == id)
    then record row {
      state = "CLOSED";
      closed_at_ms = some t;
      close_reason = some "CAPTURE_RUN_ROTATED";
    }
    else row

abbrev pub opened_session : SynchronizedFrameSet → ℕ → CaptureSession
opened_session fs t = record {
  id = column fs.capture_session_id;
  state = "OPEN";
  source_sessions_json = source_sessions_json fs;
  started_at_ms = t;
  closed_at_ms = none;
  close_reason = none;
}

abbrev pub opened_run : SynchronizedFrameSet → ℕ → CaptureRun
opened_run fs t = record {
  id = column fs.capture_run_id;
  capture_session_id = column fs.capture_session_id;
  identity_mode = fs.identity_mode;
  state = "OPEN";
  started_at_ms = t;
  closed_at_ms = none;
  close_reason = none;
}

unfoldable pub roll_sessions : List CaptureSession → SynchronizedFrameSet → ℕ → List CaptureSession
unfolding session_of
roll_sessions rows fs t =
    let closed = map (close_session (column fs.capture_session_id) t) rows in
    elim (session_of rows (column fs.capture_session_id)) [
      | none ↦ closed ++ opened_session fs t ∷ []
      | some row ↦ closed
    ]

-- `none`: the run is there with another session.
unfoldable pub roll_runs : List CaptureRun → SynchronizedFrameSet → ℕ → Option (List CaptureRun)
unfolding run_of
roll_runs rows fs t =
    let closed = map (close_run (column fs.capture_run_id) t) rows in
    elim (run_of rows (column fs.capture_run_id)) [
      | none ↦ some (closed ++ opened_run fs t ∷ [])
      | some row ↦
          if row.capture_session_id == column fs.capture_session_id then some closed else none
    ]

abbrev pub has_live_state : String → Option FrameSetDeliveryProjection → Bool
has_live_state state none = false
has_live_state state (some p) = p.live_state == state

-- The manifests of `eligible_rows`.
abbrev pub waiting_rows :
    List FrameSetManifest → Dict FrameSetDeliveryProjection → List FrameSetManifest
waiting_rows manifests projections =
    keep_if
      (λ (row : FrameSetManifest).
        has_live_state "ELIGIBLE" (Dict.get projections row.frame_set_uid))
      manifests

abbrev pub superseded : ℕ → FrameSetDeliveryProjection → FrameSetDeliveryProjection
superseded t p = record p {
  live_state = "SUPERSEDED_BEFORE_OFFER";
  last_reason = some "NEWER_FRAME_SET_AVAILABLE";
  updated_at_ms = t;
}

-- The projections with those of the rows superseded.
unfoldable pub supersede :
    Dict FrameSetDeliveryProjection → List FrameSetManifest → ℕ → Dict FrameSetDeliveryProjection
supersede projections [] t = projections
supersede projections (row ∷ rows) t =
    let rest = supersede projections rows t in
    elim (Dict.get rest row.frame_set_uid) [
      | none ↦ rest
      | some p ↦ Dict.put rest row.frame_set_uid (superseded t p)
    ]

abbrev pub newer_eligible_exists : Archive → SynchronizedFrameSet → Bool
newer_eligible_exists db fs =
    any (λ (row : FrameSetManifest). ltb fs.synchronized_at_ms row.synchronized_at_ms)
      (waiting_rows db.live.manifests db.live.projections)

unfoldable pub next_projections :
    Archive → SynchronizedFrameSet → ℕ → Dict FrameSetDeliveryProjection
unfolding supersede
next_projections db fs t =
    let uid = column fs.frame_set_uid in
    if newer_eligible_exists db fs
    then Dict.put db.live.projections uid
        (new_delivery_projection t "SUPERSEDED_BEFORE_OFFER" (some "NEWER_FRAME_SET_AVAILABLE"))
    else Dict.put
        (supersede db.live.projections (waiting_rows db.live.manifests db.live.projections) t) uid
        (new_delivery_projection t "ELIGIBLE" none)

-- The unique constraints of the tables that a commit would break: the run and number or the digest of
-- another manifest, a projection without its manifest, and the frames of the members.
abbrev pub repeats_member : List FrameSetMember → Bool
repeats_member [] = false
repeats_member (m ∷ members) =
    any
      (λ (other : FrameSetMember).
        other.source_frame_uid == m.source_frame_uid
        || (other.frame_set_uid == m.frame_set_uid && other.camera_stream_id == m.camera_stream_id))
      members
    || repeats_member members

unfoldable pub conflicts : Archive → SynchronizedFrameSet → Bool
conflicts db fs =
    any
      (λ (row : FrameSetManifest).
        (row.capture_run_id == column fs.capture_run_id && row.frame_set_id == fs.frame_set_id)
        || row.manifest_digest == column fs.manifest_digest)
      db.live.manifests
    || Dict.has db.live.projections (column fs.frame_set_uid)
    || repeats_member (db.live.members ++ member_rows fs)

-- The archive with the rows of a new frame set.
unfoldable pub insert_frame_set : Archive → SynchronizedFrameSet → List CaptureRun → ℕ → Archive
insert_frame_set db fs runs t = record db {
  live = record db.live {
    manifests = db.live.manifests ++ manifest_row fs t ∷ [];
    members = db.live.members ++ member_rows fs;
    projections = next_projections db fs t;
  };
  sessions = roll_sessions db.sessions fs t;
  runs = runs;
}

-- A broken constraint rolls back; the manifest of the frame set is then missing as it was before.
unfoldable pub persist_new : Archive → SynchronizedFrameSet → ℕ → Archive × Outcome Bool
persist_new db fs t = elim (roll_runs db.runs fs t) [
  | none ↦ (db, integrity_error "capture_run_id was reused with a different capture_session_id")
  | some runs ↦
      if is_nil (members_of fs)
      then (db, value_error "min() iterable argument is empty")
      else if conflicts db fs
      then (db, integrity_error "manifest identity conflicts with existing durable data")
      else (insert_frame_set db fs runs t, done true)
]

-- A frame set whose manifest is there.
unfoldable pub persist_again :
    Archive → FrameSetManifest → SynchronizedFrameSet → ℕ → Archive × Outcome Bool
persist_again db existing fs now_ms =
    if not (is_same_manifest existing fs)
    then (db, integrity_error "frame_set_uid was reused with different manifest content")
    else if Dict.has db.live.projections (column fs.frame_set_uid)
    then (db, done false)
    else (
      record db {
        live = record db.live {
          projections =
              Dict.put db.live.projections (column fs.frame_set_uid)
                (new_delivery_projection now_ms "ELIGIBLE" none);
        };
      },
      done false,
    )

unfoldable pub persist_frame_set_manifest :
    Archive → SynchronizedFrameSet → Option ℕ → ℕ → Archive × Outcome Bool
persist_frame_set_manifest db fs created_at_ms now_ms =
    if not (fs.identity_mode == "V2") then (db, done false) else elim (validate_v2_frame_set fs) [
      | some message ↦ (db, integrity_error message)
      | none ↦ elim (manifest_of db.live.manifests (column fs.frame_set_uid)) [
        | some existing ↦ persist_again db existing fs now_ms
        | none ↦ persist_new db fs (or_now created_at_ms now_ms)
      ]
    ]

abbrev pub replaced : String → Option String → String
replaced old none = old
replaced old (some new) = new

-- The arguments of `update_delivery_projection`.
pub record ProjectionUpdate : Type 0 where
  pub archive_state : Option String
  pub live_state : Option String
  pub legacy_relay_state : Option String
  pub reason : Option String
  pub updated_at_ms : Option ℕ

unfoldable pub updated :
    FrameSetDeliveryProjection → ProjectionUpdate → ℕ → FrameSetDeliveryProjection
updated p u now_ms = record {
  archive_state = replaced p.archive_state u.archive_state;
  live_state = replaced p.live_state u.live_state;
  legacy_relay_state = replaced p.legacy_relay_state u.legacy_relay_state;
  last_reason = elim u.reason [ none ↦ p.last_reason | some r ↦ some r ];
  updated_at_ms = or_now u.updated_at_ms now_ms;
}

abbrev put_projection : Archive → String → FrameSetDeliveryProjection → Archive
put_projection db uid p = record db {
  live = record db.live { projections = Dict.put db.live.projections uid p };
}

unfoldable pub update_delivery_projection : Archive → String → ProjectionUpdate → ℕ → Archive × Bool
update_delivery_projection db uid u now_ms = elim (Dict.get db.live.projections uid) [
  | some p ↦ (put_projection db uid (updated p u now_ms), true)
  | none ↦ elim (manifest_of db.live.manifests uid) [
    | none ↦ (db, false)
    | some manifest ↦ (
      put_projection db uid (updated (new_delivery_projection now_ms "ELIGIBLE" none) u now_ms),
      true,
    )
  ]
]

-- `get_newest_eligible_manifest`
abbrev pub get_newest_eligible_manifest : Archive → Option FrameSetManifest
get_newest_eligible_manifest db = newest db.live
