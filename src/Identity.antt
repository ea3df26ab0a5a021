-- ===== src/Identity.antt =====
-- app/services/identity.py: canonical identities of streams, frames, capture sessions and frame
-- sets. A function that raises `ValueError` returns it as a value.
use gc_image_stream.Prelude.{
  ℕ, String, Bool, not, ◌&&◌, ◌≡◌, Option, List, [], ◌∷◌, join, strip, or_text, ◌==◌, string_eq,
  if◌then◌else◌, str_ltb,
}
use gc_image_stream.Prelude.Sorting.{sorted}
use gc_image_stream.External.{External}
use gc_image_stream.Json.{Json, Items, text, num, array, nil, item, canonical_json}

abbrev pub identity_mode_v2 : String
identity_mode_v2 = "V2"

abbrev pub identity_mode_legacy : String
identity_mode_legacy = "LEGACY"

pub data Result {ℓ} (A : Type ℓ) : Type ℓ where
  ok : A → Result A
  value_error : String → Result A

infixl 5 ◌>>=◌
abbrev pub ◌>>=◌ {ℓ κ} : {A : Type ℓ} {B : Type κ} → Result A → (A → Result B) → Result B
ok a >>= f = f a
value_error e >>= f = value_error e

unfoldable pub map_result {ℓ κ} : {A : Type ℓ} {B : Type κ} → (A → B) → Result A → Result B
map_result f (ok a) = ok (f a)
map_result f (value_error e) = value_error e

pub map_result_inv {ℓ κ} :
    {A : Type ℓ} {B : Type κ} (f : A → B) (r : Result A) {b : B}
    → map_result f r ≡ ok b
    → (a : A) × (f a ≡ b)
unfolding map_result
map_result_inv f (ok a) h = (a, cc)
map_result_inv f (value_error e) h = cc

-- `_required_text`
unfoldable pub required_text : String → String → Result String
required_text name value =
    let normalized = strip value in
    if normalized == ""
    then value_error (join "" (name ∷ " must not be empty" ∷ []))
    else ok normalized

unfoldable pub canonical_camera_stream_id : String → Option String → Result String
unfolding required_text
canonical_camera_stream_id device_id camera_id = do
  device ← required_text "device_id" device_id
  let camera = strip (or_text camera_id "")
  ok (
      if not (camera == "") && not (camera == device)
      then join "/" (device ∷ camera ∷ [])
      else device)

-- The namespaces, each named by the URL that it is derived from.
abbrev pub source_frame_namespace : String
source_frame_namespace = "https://geocap.local/identity/source-frame/v2"

abbrev pub capture_session_namespace : String
capture_session_namespace = "https://geocap.local/identity/capture-session/v2"

abbrev pub frame_set_namespace : String
frame_set_namespace = "https://geocap.local/identity/frame-set/v2"

-- A sequence is a natural number,
-- so `_valid_sequence` lets it pass.
unfoldable pub build_source_frame_uid : External → String → String → ℕ → Result String
unfolding required_text
build_source_frame_uid ext source_session_id camera_stream_id frame_sequence = do
  session ← required_text "source_session_id" source_session_id
  camera ← required_text "camera_stream_id" camera_stream_id
  ok (
      ext.uuid5 source_frame_namespace (
        canonical_json
          (array (item (text session) (item (text camera) (item (num frame_sequence) nil))))))

-- The comprehension of `build_capture_session_id` over pairs of a camera stream and a session.
unfoldable pub session_members : List (String × String) → Result (List (String × String))
unfolding required_text
session_members [] = ok []
session_members ((camera_stream_id, source_session_id) ∷ sources) =
    let rest = session_members sources in
    do
      camera ← required_text "camera_stream_id" camera_stream_id
      session ← required_text "source_session_id" source_session_id
      members ← rest
      ok ((camera, session) ∷ members)

-- The order of lists of two texts.
abbrev pub pair_lt : String × String → String × String → Bool
pair_lt a b = if a.0 == b.0 then str_ltb a.1 b.1 else str_ltb a.0 b.0

abbrev member_items : List (String × String) → Items
member_items [] = nil
member_items ((camera, session) ∷ members) =
    item (array (item (text camera) (item (text session) nil))) (member_items members)

abbrev non_empty : List (String × String) → Result (List (String × String))
non_empty [] = value_error "source_sessions must not be empty"
non_empty (m ∷ ms) = ok (m ∷ ms)

unfoldable pub build_capture_session_id : External → List (String × String) → Result String
unfolding session_members
build_capture_session_id ext source_sessions = do
  members ← session_members source_sessions
  checked ← non_empty (sorted pair_lt members)
  ok (ext.uuid5 capture_session_namespace (canonical_json (array (member_items checked))))

unfoldable pub build_manifest_digest : External → Json → String
build_manifest_digest ext payload = ext.sha256_hexdigest (ext.encode_utf8 (canonical_json payload))

unfoldable pub build_frame_set_uid : External → String → Result String
unfolding required_text
build_frame_set_uid ext manifest_digest = do
  digest ← required_text "manifest_digest" manifest_digest
  ok (ext.uuid5 frame_set_namespace digest)
