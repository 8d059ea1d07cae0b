-- ===== src/Text.antt =====
-- What parser.cpp takes from the C++ library to read text: std::getline, `>>` on words,
-- std::from_chars and the contract of std::strtod. A text holds one character for each byte.
pub mod Numbers
pub mod Words
pub mod Printing
pub mod Integers
use Prim.Native.Char.{Char, code}
use Prim.Native.String as Native
use roborun.Prelude.{
  ℕ, zero, suc, ◌+◌, ◌-◌, ◌*◌, ◌^◌, ℤ, pos, ◌-ℤ◌, ltbℤ, Bool, true, not, ◌&&◌, ◌||◌, String, Option,
  none, some, List, [], ◌∷◌, leb, ltb, ◌==◌, if◌then◌else◌,
}
use roborun.Types.{Double}

abbrev pub cons_line : Char → List String → List String
cons_line c [] = Native.◌∷◌ c "" ∷ []
cons_line c (l ∷ ls) = Native.◌∷◌ c l ∷ ls

-- The lines that std::getline returns one after the other: no last line behind a final newline.
unfoldable pub get_lines : String → List String
get_lines Native.[] = []
get_lines (Native.◌∷◌ c s) =
    let rest = get_lines s in if code c == b'\n' then "" ∷ rest else cons_line c rest

-- std::isspace of the classic locale.
abbrev pub is_space : ℕ → Bool
is_space c = c == b' ' || leb 9 c && leb c 13

abbrev pub at_word : String → Bool
at_word Native.[] = Bool.false
at_word (Native.◌∷◌ c s) = not (is_space (code c))

-- SplitWhitespace: the words that `>>` extracts.
unfoldable pub split_whitespace : String → List String
split_whitespace Native.[] = []
split_whitespace (Native.◌∷◌ c s) =
    let rest = split_whitespace s in
    if is_space (code c)
    then rest
    else if at_word s
    then cons_line c rest
    else Native.◌∷◌ c "" ∷ rest

abbrev pub is_digit : ℕ → Bool
is_digit c = leb b'0' c && leb c b'9'

unfoldable pub scan_digits : ℕ → String → ℕ × String
scan_digits n Native.[] = (n, "")
scan_digits n (Native.◌∷◌ c s) =
    let rest = scan_digits (n * 10 + (code c - b'0')) s in
    if is_digit (code c) then rest else (n, Native.◌∷◌ c s)

unfoldable pub read_digits : String → Option (ℕ × String)
read_digits Native.[] = none
read_digits (Native.◌∷◌ c s) =
    if is_digit (code c) then some (scan_digits 0 (Native.◌∷◌ c s)) else none

abbrev pub in_range : ℕ → Option (ℕ × String) → Option (ℤ × String)
in_range limit none = none
in_range limit (some (n, rest)) = if ltb n limit then some (pos n, rest) else none

abbrev pub negated : ℕ → Option (ℕ × String) → Option (ℤ × String)
negated limit none = none
negated limit (some (n, rest)) = if leb n limit then some (pos 0 -ℤ pos n, rest) else none

-- std::from_chars to a signed integer of `limit` values on each side: the value and what it left
-- unread, or an error for no digits or a value out of range.
unfoldable pub from_chars : ℕ → String → Option (ℤ × String)
from_chars limit Native.[] = none
from_chars limit (Native.◌∷◌ c s) =
    if code c == b'-'
    then negated limit (read_digits s)
    else in_range limit (read_digits (Native.◌∷◌ c s))

-- `error == std::errc() && end == last`.
abbrev pub whole : Option (ℤ × String) → Option ℤ
whole (some (v, Native.[])) = some v
whole _ = none

-- ParseInt, of a 32-bit int.
unfoldable pub parse_int : String → Option ℤ
parse_int token = whole (from_chars (2 ^ 31) token)

abbrev pub nonnegative : Option ℤ → Option ℤ
nonnegative none = none
nonnegative (some v) = if ltbℤ v (pos 0) then none else some v

-- ParseMilliseconds, of a 64-bit integer.
unfoldable pub parse_milliseconds : String → Option ℤ
parse_milliseconds Native.[] = none
parse_milliseconds (Native.◌∷◌ c s) =
    if code c == b'-' then none else nonnegative (whole (from_chars (2 ^ 63) (Native.◌∷◌ c s)))

-- What std::strtod reports of a text: the value, how many characters it took, whether errno is set.
pub record Strtod : Type 0 where
  pub parsed : Double
  pub consumed : ℕ
  pub range_error : Bool

-- `*end == '\0'`: the end of the text, or a zero byte inside it.
unfoldable pub ends_at : String → ℕ → Bool
ends_at Native.[] k = true
ends_at (Native.◌∷◌ c s) zero = code c == 0
ends_at (Native.◌∷◌ c s) (suc k) = ends_at s k

-- ParseDouble.
unfoldable pub parse_double : (String → Strtod) → String → Option Double
parse_double strtod token =
    let r = strtod token in
    if r.range_error || r.consumed == 0 || not (ends_at token r.consumed)
    then none
    else some r.parsed
