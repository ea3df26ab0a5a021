-- ===== src/Session/Keys.antt =====
-- `JwksKeyCache`: the signing keys that the main service publishes. `parse` is `PyJWK.from_dict`, with
-- `none` where it raises.
use gc_image_stream.Prelude.{
  ℕ, ◌-◌, String, Bool, true, false, not, ◌||◌, Option, none, some, [], ◌∷◌, is_nil, leb, ◌==◌,
  string_eq, if◌then◌else◌,
}
use gc_image_stream.Session.Values.{
  Value, Values, nil, item, Fields, get_field, is_text, as_text, as_list, as_object, Checked, ok,
  refused,
}
use gc_image_stream.Session.Keyed.{Keyed, get, put}

-- The result of the fetcher: a payload, a `SessionTokenError`, or any other exception.
pub data Fetched : Type 0 where
  payload : Value → Fetched
  session_error : String → Fetched
  failed : Fetched

pub record KeyCache (Key : Type 0) : Type 0 where
  pub cache_ttl : ℕ
  pub keys : Keyed String Key
  pub loaded_at : Option ℕ

abbrev pub could_not_refresh : String
could_not_refresh = "could not refresh Main JWKS"

abbrev is_set {ℓ} : {A : Type ℓ} → Option A → Bool
is_set none = false
is_set (some a) = true

module _ {Key : Type 0} where
  abbrev non_empty : Keyed String Key → Option (Keyed String Key)
  non_empty [] = none
  non_empty (entry ∷ keys) = some (entry ∷ keys)

  abbrev of_parsed : Option (Keyed String Key) → Option (Keyed String Key)
  of_parsed none = none
  of_parsed (some keys) = non_empty keys

  -- No key, or keys as old as the time to live.
  abbrev pub is_due : KeyCache Key → ℕ → Bool
  is_due c now = elim c.loaded_at [
    | none ↦ true
    | some loaded_at ↦ is_nil c.keys || leb c.cache_ttl (now - loaded_at)
  ]

  abbrev pub key_or_error : KeyCache Key → String → KeyCache Key × Checked Key
  key_or_error c kid = elim (get c.keys kid) [
    | none ↦ (c, refused "token kid is not present in Main JWKS")
    | some key ↦ (c, ok key)
  ]

module _ {Key : Type 0} (parse : Fields → Option Key) where
  -- A key of the payload with a text `kid` that is not there yet, added where it signs with RS256.
  unfoldable pub add_key : Keyed String Key → Fields → String → Option (Keyed String Key)
  unfolding get_field
  add_key parsed raw kid =
      if kid == "" || is_set (get parsed kid)
      then none
      else if not (is_text (get_field raw "kty") "RSA")
          || not (is_text (get_field raw "alg") "RS256")
      then some parsed
      else elim (parse raw) [ none ↦ none | some key ↦ some (put parsed kid key) ]

  unfoldable pub add_raw : Keyed String Key → Value → Option (Keyed String Key)
  unfolding add_key
  add_raw parsed value = elim (as_object value) [
    | none ↦ none
    | some raw ↦ elim (as_text (get_field raw "kid")) [
      | none ↦ none
      | some kid ↦ add_key parsed raw kid
    ]
  ]

  -- The loop of `_refresh`: `none` is an exception.
  unfoldable pub parse_keys : Values → Keyed String Key → Option (Keyed String Key)
  unfolding add_raw
  parse_keys nil parsed = some parsed
  parse_keys (item value values) parsed = elim (add_raw parsed value) [
    | none ↦ none
    | some more ↦ parse_keys values more
  ]

  abbrev of_raw : Option Values → Option (Keyed String Key)
  of_raw none = none
  of_raw (some nil) = none
  of_raw (some (item value values)) = of_parsed (parse_keys (item value values) [])

  abbrev of_fields : Option Fields → Option (Keyed String Key)
  of_fields none = none
  of_fields (some fields) = of_raw (as_list (get_field fields "keys"))

  unfoldable pub keys_of : Value → Option (Keyed String Key)
  unfolding parse_keys
  keys_of value = of_fields (as_object value)

  -- `_refresh`
  unfoldable pub refresh : KeyCache Key → Fetched → ℕ → KeyCache Key × Checked (Unit {0})
  unfolding keys_of
  refresh c (session_error message) loaded_at = (c, refused message)
  refresh c failed loaded_at = (c, refused could_not_refresh)
  refresh c (payload value) loaded_at = elim (keys_of value) [
    | none ↦ (c, refused could_not_refresh)
    | some keys ↦ (record c { keys = keys; loaded_at = some loaded_at }, ok tt)
  ]

  -- The lookup, with another fetch for a `kid` that is missing.
  unfoldable pub look_up : KeyCache Key → String → ℕ → Fetched → KeyCache Key × Checked Key
  unfolding refresh
  look_up c kid later refetched = elim (get c.keys kid) [
    | some key ↦ (c, ok key)
    | none ↦ elim (refresh c refetched later).1 [
      | refused message ↦ ((refresh c refetched later).0, refused message)
      | ok u ↦ key_or_error (refresh c refetched later).0 kid
    ]
  ]

  -- `resolve`, with the clock and the payload of the fetch that is due, and of the second one.
  unfoldable pub resolve_key :
      KeyCache Key → String → ℕ → Fetched → ℕ → Fetched → KeyCache Key × Checked Key
  unfolding refresh look_up
  resolve_key c kid now fetched later refetched =
      if kid == ""
      then (c, refused "token header is missing kid")
      else if not (is_due c now)
      then look_up c kid later refetched
      else elim (refresh c fetched now).1 [
        | refused message ↦ ((refresh c fetched now).0, refused message)
        | ok u ↦ look_up (refresh c fetched now).0 kid later refetched
      ]
