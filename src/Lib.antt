-- ===== src/Lib.antt =====
-- The verification library of gc-image-stream, a service that receives frames of several cameras,
-- matches them into synchronized frame sets, and offers the newest frame set to a live consumer.
--
-- A frame enters through `StreamSyncService.handle_frame` (app/services/sync/service.py). The buffer
-- manager (app/services/sync/frame_buffer.py) refuses duplicates and frames out of order and keeps
-- the rest in one bounded buffer for each camera. The matcher (app/services/sync/matcher.py) then
-- looks for the frames, one of every expected camera, that lie closest together, resolves the capture
-- identity on which they agree, consumes them, and emits a frame set with its manifest and its
-- identities (app/services/identity.py). Stored frame sets wait in the tables of
-- app/models/frame_set_manifest.py for `LatestLiveStore` (app/services/relay_v2/latest_live.py),
-- which has at most one of them in flight.
--
-- Which file models what:
--   Prelude, Dict: numbers, lists, texts, sorting, and Python's dict.
--   External: SHA-256, uuid5 and UTF-8, which are parameters.
--   Json, Identity: app/services/identity.py.
--   Sync.Models: app/services/sync/models.py.
--   Sync.Buffer, Sync.Manager: `CameraSyncBuffer` and `SyncFrameBufferManager`.
--   Sync.Selection, Sync.CaptureIdentity, Sync.Manifest, Sync.Matcher: `_select_min_span_candidate`,
--     `_resolve_capture_identity`, `_build_manifest_payload` and the methods of `SyncMatcher`.
--   Sync.Matching: theorems on `try_match`, by what they are about.
--   Sync.Service: `StreamSyncService` and `build_sync_progress`.
--   Relay.LatestLive: `LatestLiveStore`, with its tables, claims and reports.
--   Archive: app/services/sync/manifest_store.py.
--   Session: app/services/session_identity.py and app/services/relay_credentials.py; PyJWT, UUID and
--     str.lower are parameters.
--   Stream: app/services/stream/state.py.
--   Protocol: app/services/relay_v2/protocol.py, with `serialize_with_limit` of
--     app/infrastructure/grpc/relay_v2_contract.py; JSON parsing, files and serialized lengths are
--     parameters.
--   Alerts: app/services/alerts/processing_alerts.py and app/services/alerts/phone_delivery.py.
--   Tests: concrete runs.
-- A method takes the state of its object and returns it with its result; an exception is a value that
-- carries the state in which it leaves the objects. A definition has its method's name, without the
-- leading underscore. The clock and the fresh `uuid4` of a capture run are arguments.
--
-- Bounds: timestamps, sequences and counters are natural numbers; the ingest accepts no timestamp
-- below 1. The `while` loop of the selection runs on fuel, one more than the number of candidates;
-- each round but the last moves one camera to its next candidate, so the loop ends before the fuel
-- does, and the theorems on the selection hold for the loop with this fuel.
--
-- Not modelled: locks and threads, since each method runs under its lock and each method of the
-- live store in its transaction; the database beyond the rows that are read and written and the
-- unique constraints, with texts compared by code points; the ratio of matched frame sets as a
-- float; logging. The ingest pipeline, the gRPC and HTTP transports, the receiver of alerts,
-- monitoring and the replay scripts are not part of the library.
pub mod Prelude
pub mod Dict
pub mod External
pub mod Json
pub mod Identity
pub mod Sync
pub mod Relay
pub mod Archive
pub mod Session
pub mod Stream
pub mod Protocol
pub mod Alerts
pub mod Tests
