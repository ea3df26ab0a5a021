-- ===== src/Json.antt =====
-- JSON values, and `canonical_json` of app/services/identity.py: `json.dumps` with sorted keys,
-- no spaces, and characters outside ASCII as they are. The numbers that the program serializes here
-- are natural.
use Prim.Native.Char.{code}
use Prim.Native.String as Text
use gc_image_stream.Prelude.{
  ℕ, ◌+◌, ◌-◌, ◌/◌, ◌%◌, String, str, join, Bool, List, [], ◌∷◌, map, ltb, ◌==◌, nat_eq, str_ltb,
  if◌then◌else◌,
}
use gc_image_stream.Prelude.Sorting.{sorted}

mutual
  pub data Json : Type 0 where
    null : Json
    num : ℕ → Json
    text : String → Json
    array : Items → Json
    object : Members → Json

  pub data Items : Type 0 where
    nil : Items
    item : Json → Items → Items

  pub data Members : Type 0 where
    end : Members
    member : String → Json → Members → Members

-- The last two digits of an escape below 0x20.
hex_digit : ℕ → String
hex_digit n =
    if ltb n 10
    then str n
    else if n == 10
    then "a"
    else if n == 11
    then "b"
    else if n == 12
    then "c"
    else if n == 13
    then "d"
    else if n == 14
    then "e"
    else "f"

escape_char : ℕ → String → String
unfolding hex_digit
escape_char c plain =
    if c == 34
    then "\\\""
    else if c == 92
    then "\\\\"
    else if c == 10
    then "\\n"
    else if c == 13
    then "\\r"
    else if c == 9
    then "\\t"
    else if c == 12
    then "\\f"
    else if c == 8
    then "\\b"
    else if ltb c 32
    then join "" ("\\u00" ∷ str (c / 16) ∷ hex_digit (c % 16) ∷ [])
    else plain

escape : String → String
unfolding escape_char
escape Text.[] = ""
escape (Text.◌∷◌ c s) = join "" (escape_char (code c) (Text.◌∷◌ c Text.[]) ∷ escape s ∷ [])

quote : String → String
unfolding escape
quote s = join "" ("\"" ∷ escape s ∷ "\"" ∷ [])

-- `json.dumps` of a text with `ensure_ascii`: four digits for a code unit of UTF-16.
unit : ℕ → String
unfolding hex_digit
unit n = join "" (
    "\\u"
    ∷ hex_digit (n / 4096)
    ∷ hex_digit (n / 256 % 16)
    ∷ hex_digit (n / 16 % 16)
    ∷ hex_digit (n % 16)
    ∷ [])

ascii_char : ℕ → String → String
unfolding escape_char unit
ascii_char c plain =
    if ltb c 127
    then escape_char c plain
    else if ltb c 65536
    then unit c
    else join "" (unit (55296 + (c - 65536) / 1024) ∷ unit (56320 + (c - 65536) % 1024) ∷ [])

escape_ascii : String → String
unfolding ascii_char
escape_ascii Text.[] = ""
escape_ascii (Text.◌∷◌ c s) =
    join "" (ascii_char (code c) (Text.◌∷◌ c Text.[]) ∷ escape_ascii s ∷ [])

unfoldable pub quote_ascii : String → String
unfolding escape_ascii
quote_ascii s = join "" ("\"" ∷ escape_ascii s ∷ "\"" ∷ [])

abbrev entry_lt : String × String → String × String → Bool
entry_lt a b = str_ltb a.0 b.0

unfoldable mutual
  unfolding quote

  pub canonical_json : Json → String
  canonical_json null = "null"
  canonical_json (num n) = str n
  canonical_json (text s) = quote s
  canonical_json (array items) = join "" ("[" ∷ join "," (item_texts items) ∷ "]" ∷ [])
  canonical_json (object ms) = join "" (
      "{"
      ∷ join "," (
          map (λ (e : String × String). join ":" (quote e.0 ∷ e.1 ∷ []))
            (sorted entry_lt (member_texts ms)))
      ∷ "}"
      ∷ [])

  pub item_texts : Items → List String
  item_texts nil = []
  item_texts (item j js) = canonical_json j ∷ item_texts js

  pub member_texts : Members → List (String × String)
  member_texts end = []
  member_texts (member k j ms) = (k, canonical_json j) ∷ member_texts ms
