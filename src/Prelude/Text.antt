-- ===== src/Prelude/Text.antt =====
-- Texts: order, truth value, decimal numerals.
use Prim.Native.Nat.{ℕ, zero, suc, ◌/◌, ◌%◌}
use Prim.Native.Char.{code}
use Prim.Native.String.{String, [], ◌∷◌, ◌++◌, compare}
use mathlib.Core.Path.{◌≡◌, refl}
use mathlib.Core.Bool.{Bool, false, not, ◌&&◌, ◌||◌}
use mathlib.Core.List.{List}
use mathlib.Core.Option.{Option, none, some}
use text.Mathlib.Text.{is_lt}
use gc_image_stream.Prelude.Tests.{ltb, leb, ◌==◌, if◌then◌else◌, nat_eq, string_eq}

-- Python compares texts by code points.
abbrev pub str_ltb : String → String → Bool
str_ltb s t = is_lt (compare s t)

-- The truth value of an optional text: `None` and the empty text are false.
abbrev pub truthy : Option String → Bool
truthy none = false
truthy (some s) = not (s == "")

-- `value or default`, for an optional text.
abbrev pub or_text : Option String → String → String
or_text none d = d
or_text (some s) d = if s == "" then d else s

-- `sep.join(parts)`; an f-string joins its parts by nothing.
unfoldable pub join : String → List String → String
join sep List.[] = ""
join sep (List.◌∷◌ p List.[]) = p
join sep (List.◌∷◌ p (List.◌∷◌ q ps)) = p ++ sep ++ join sep (List.◌∷◌ q ps)

-- `str.isspace` of a character, by its code point.
is_space : ℕ → Bool
is_space c =
    (leb 9 c && leb c 13)
    || (leb 28 c && leb c 32)
    || c == 0x85
    || c == 0xa0
    || c == 0x1680
    || (leb 0x2000 c && leb c 0x200a)
    || c == 0x2028
    || c == 0x2029
    || c == 0x202f
    || c == 0x205f
    || c == 0x3000

strip_left : String → String
unfolding is_space
strip_left [] = []
strip_left (c ∷ s) = let rest = strip_left s in if is_space (code c) then rest else c ∷ s

strip_right : String → String
unfolding is_space
strip_right [] = []
strip_right (c ∷ s) =
    let rest = strip_right s in if is_space (code c) && rest == "" then [] else c ∷ rest

-- `str.strip()`
unfoldable pub strip : String → String
unfolding strip_left strip_right
strip s = strip_right (strip_left s)

digit : ℕ → String
digit n =
    if n == 0
    then "0"
    else if n == 1
    then "1"
    else if n == 2
    then "2"
    else if n == 3
    then "3"
    else if n == 4
    then "4"
    else if n == 5
    then "5"
    else if n == 6
    then "6"
    else if n == 7
    then "7"
    else if n == 8
    then "8"
    else "9"

decimal_digits : ℕ → ℕ → String
unfolding digit
decimal_digits zero n = ""
decimal_digits (suc f) n =
    let front = decimal_digits f (n / 10) in if ltb n 10 then digit n else front ++ digit (n % 10)

-- `str(n)`: a number has at most as many digits as its successor counts.
unfoldable pub str : ℕ → String
unfolding decimal_digits
str n = decimal_digits (suc n) n

str_example : str 1_700_000_000_123 ≡ "1700000000123"
unfolding str
str_example = refl

strip_example : strip " a b\n" ≡ "a b"
unfolding strip
strip_example = refl
