-- ===== src/Protocol/Members.antt =====
-- `_manifest_members` and what it reads: the JSON of a manifest and of the capture metadata.
-- `json.loads`, `int()` and `str()` are parameters, `none` where they raise.
use gc_image_stream.Prelude.{
  ℕ, String, Bool, false, not, ◌&&◌, ◌||◌, Option, none, some, List, [], ◌∷◌, ◌++◌, any, all,
  str_ltb, ◌==◌, nat_eq, string_eq, if◌then◌else◌,
}
use gc_image_stream.Prelude.Sorting.{sorted}
use gc_image_stream.Dict
use gc_image_stream.Dict.{Dict}
use gc_image_stream.Session.Values.{
  ℤ, pos, negsuc, Value, Values, Fields, integer, boolean, object, nil, item, end, field, get_field,
  as_object, as_list, as_text, truth,
}
use gc_image_stream.Relay.LatestLive.Tables.{LiveFrameMember, ClaimedFrameSet}
use gc_image_stream.Protocol.Messages.{
  CaptureConfigSnapshot, Failure, archive_integrity, python_error, Sent, sent, failure, ◌>>=◌, ◌>>◌,
  check, value_or,
}

pub record Python : Type 0 where
  pub loads : String → Option Value
  pub int_of : Value → Option ℤ
  pub str_of : Value → String

unfoldable pub has_field : Fields → String → Bool
has_field end name = false
has_field (field n v fields) name = n == name || has_field fields name

-- `mapping.get(name, default)`
abbrev pub get_or : Fields → String → Value → Value
get_or fields name default = if has_field fields name then get_field fields name else default

abbrev non_negative : ℤ → Sent ℕ
non_negative (pos n) = sent n
non_negative (negsuc n) = failure (archive_integrity "capture dimensions must be nonnegative")

-- A `TypeError`, a `ValueError` or an `AttributeError` of Python.
abbrev pub wrong_value : Failure
wrong_value = python_error "a value of the manifest has the wrong type"

-- The metadata of one camera, with its digest.
pub record Metadata : Type 0 where
  pub fields : Fields
  pub capture_config_digest : String

module _ (py : Python) where
  -- `_nonnegative_int`
  unfoldable pub nonnegative_int : Value → Sent ℕ
  nonnegative_int value =
      if not (truth value)
      then sent 0
      else elim (py.int_of value) [ none ↦ failure wrong_value | some n ↦ non_negative n ]

  -- `str(value or default)`
  abbrev pub text_or : Value → String → String
  text_or value default = if truth value then py.str_of value else default

  unfoldable pub config_of : Fields → String → String → Metadata → Sent CaptureConfigSnapshot
  unfolding nonnegative_int get_field has_field
  config_of member camera_stream_id digest metadata = do
    width ← nonnegative_int (get_field metadata.fields "width")
    height ← nonnegative_int (get_field metadata.fields "height")
    orientation ←
        value_or (py.int_of (get_or metadata.fields "orientation_deg" (integer (pos 0))))
          wrong_value
    sent (record {
      camera_stream_id = camera_stream_id;
      capture_config_digest = digest;
      width = width;
      height = height;
      orientation_deg = orientation;
      mirrored = truth (get_or metadata.fields "mirrored" (boolean false));
      encoding = text_or (get_field metadata.fields "encoding") "image/jpeg";
      color_space = text_or (get_field metadata.fields "color_space") "UNKNOWN";
      authorized_camera_id = text_or (get_field member "authorized_camera_id") "";
    })

  -- `json.loads(member.get("capture_metadata_json") or "{}")`
  abbrev metadata_of : Value → Option Value
  metadata_of value =
      if truth value
      then elim (as_text value) [ none ↦ none | some s ↦ py.loads s ]
      else some (object end)

  -- One round of the loop.
  unfoldable pub read_member : Fields → Sent (String × Metadata × CaptureConfigSnapshot)
  unfolding config_of
  read_member member = do
    let camera_stream_id = text_or (get_field member "camera_stream_id") ""
    let digest = text_or (get_field member "capture_config_digest") ""
    check (not (camera_stream_id == "") && not (digest == ""))
        (archive_integrity "manifest capture config is incomplete")
    raw ← value_or (metadata_of (get_field member "capture_metadata_json")) wrong_value
    fields ← value_or (as_object raw) wrong_value
    let metadata : Metadata = record { fields = fields; capture_config_digest = digest }
    config ← config_of member camera_stream_id digest metadata
    sent (camera_stream_id, metadata, config)

  unfoldable pub read_members :
      Values
      → Dict Metadata × List CaptureConfigSnapshot
      → Sent (Dict Metadata × List CaptureConfigSnapshot)
  unfolding read_member
  read_members nil read = sent read
  read_members (item value values) read = do
    member ← value_or (as_object value) wrong_value
    new ← read_member member
    read_members values (Dict.put read.0 new.0 new.1, read.1 ++ new.2 ∷ [])

  abbrev camera_lt : CaptureConfigSnapshot → CaptureConfigSnapshot → Bool
  camera_lt a b = str_ltb a.camera_stream_id b.camera_stream_id

  -- The keys of the metadata are the cameras of the members, as sets.
  abbrev pub same_cameras : Dict Metadata → List LiveFrameMember → Bool
  same_cameras metadata members =
      all
        (λ (e : String × Metadata).
          any (λ (m : LiveFrameMember). m.camera_stream_id == e.0) members)
        metadata
      && all (λ (m : LiveFrameMember). Dict.has metadata m.camera_stream_id) members

  -- `_manifest_members`
  unfoldable pub manifest_members :
      ClaimedFrameSet → Sent (List CaptureConfigSnapshot × Dict Metadata)
  unfolding get_field read_members
  manifest_members claim = do
    raw ← value_or (py.loads claim.manifest_json) wrong_value
    payload ← value_or (as_object raw) wrong_value
    members ←
        value_or (as_list (get_field payload "members"))
          (archive_integrity "manifest members are missing")
    read ← read_members members ([], [])
    check (same_cameras read.0 claim.members)
        (archive_integrity "manifest and archived member sets differ")
    sent (sorted camera_lt read.1, read.0)
