-- ===== src/Text/Integers.antt =====
-- About the signed numbers that parser.cpp reads with ParseInt.
use Prim.Native.Char.{Char, code}
use Prim.Native.String as Native
use text.Mathlib.TextEquality.{Char-path}
use roborun.Prelude.{
  ℕ, ◌^◌, ◌<◌, ◌≤◌, ℤ, pos, ◌-ℤ◌, Bool, true, false, String, Option, none, some, ◌≡◌, ◌↔◌, ◌⊎◌, inl,
  inr, refl, ap, sym, ◌∙◌, subst, Bool-cases, ◌==◌, if◌then◌else◌, arith,
}
use roborun.Text.{is_digit, read_digits, in_range, negated, from_chars, whole, parse_int}
use roborun.Text.Numbers.{IsNumeral, value, scan_sound, scan_complete}

abbrev pub minus : Char
minus = "-"

-- A numeral below the limit, or a minus sign and a numeral up to the limit.
abbrev pub Denotes : ℕ → String → ℤ → Type 0
Denotes limit t v =
    (IsNumeral t × (value 0 t < limit) × (v ≡ pos (value 0 t)))
    ⊎ ((s : String) × (t ≡ Native.◌∷◌ minus s)
        × IsNumeral s
        × (value 0 s ≤ limit)
        × (v ≡ pos 0 -ℤ pos (value 0 s)))

read_digits_complete : (s : String) → IsNumeral s → read_digits s ≡ some (value 0 s, "")
unfolding read_digits
read_digits_complete Native.[] h = absurd h
read_digits_complete (Native.◌∷◌ c s) h = rw (h.0, scan_complete (Native.◌∷◌ c s) 0 h) refl

kept : (b : Bool) (x y : ℕ × String) → (if b then some x else none) ≡ some y → x ≡ y
kept true x y h = cc
kept false x y h = cc

read_digits_sound :
    (s : String) (m : ℕ) → read_digits s ≡ some (m, "") → IsNumeral s × (value 0 s ≡ m)
unfolding read_digits
read_digits_sound Native.[] m h = cc
read_digits_sound (Native.◌∷◌ c s) m h = scan_sound (Native.◌∷◌ c s) 0 m (kept _ _ _ h)

whole-in_range :
    (limit : ℕ) (o : Option (ℕ × String)) (v : ℤ)
    → whole (in_range limit o) ≡ some v
    → (m : ℕ) × (o ≡ some (m, "")) × (m < limit) × (v ≡ pos m)
whole-in_range limit none v h = cc
whole-in_range limit (some (m, Native.[])) v h = (m, refl, grind arith, grind arith)
whole-in_range limit (some (m, Native.◌∷◌ c s)) v h = grind arith

whole-negated :
    (limit : ℕ) (o : Option (ℕ × String)) (v : ℤ)
    → whole (negated limit o) ≡ some v
    → (m : ℕ) × (o ≡ some (m, "")) × (m ≤ limit) × (v ≡ pos 0 -ℤ pos m)
whole-negated limit none v h = cc
whole-negated limit (some (m, Native.[])) v h = (m, refl, grind arith, grind arith)
whole-negated limit (some (m, Native.◌∷◌ c s)) v h = grind arith

from_chars_signed :
    (limit : ℕ) (c : Char) (s : String)
    → (code c == b'-') ≡ true
    → from_chars limit (Native.◌∷◌ c s) ≡ negated limit (read_digits s)
unfolding from_chars
from_chars_signed limit c s h = rw h refl

from_chars_unsigned :
    (limit : ℕ) (c : Char) (s : String)
    → (code c == b'-') ≡ false
    → from_chars limit (Native.◌∷◌ c s) ≡ in_range limit (read_digits (Native.◌∷◌ c s))
unfolding from_chars
from_chars_unsigned limit c s h = rw h refl

minus_code : (c : Char) → (code c == b'-') ≡ true → c ≡ minus
minus_code c h = Char-path c minus (ground arith)

signed_sound :
    (limit : ℕ) (s : String) (v : ℤ)
    → whole (negated limit (read_digits s)) ≡ some v
    → Denotes limit (Native.◌∷◌ minus s) v
signed_sound limit s v h =
    let (m, e, l, is) = whole-negated limit (read_digits s) v h in
    let (n, same) = read_digits_sound s m e in
    inr (s, refl, n, rw same l, is ∙ ap (λ k. pos 0 -ℤ pos k) (sym same))

unsigned_sound :
    (limit : ℕ) (t : String) (v : ℤ)
    → whole (in_range limit (read_digits t)) ≡ some v
    → Denotes limit t v
unsigned_sound limit t v h =
    let (m, e, l, is) = whole-in_range limit (read_digits t) v h in
    let (n, same) = read_digits_sound t m e in inl (n, rw same l, is ∙ ap pos (sym same))

from_chars_sound :
    (limit : ℕ) (t : String) (v : ℤ) → whole (from_chars limit t) ≡ some v → Denotes limit t v
from_chars_sound limit Native.[] v h = unfold from_chars in cc
from_chars_sound limit (Native.◌∷◌ c s) v h = elim (Bool-cases (code c == b'-')) [
  | inl m ↦
      subst (λ d. Denotes limit (Native.◌∷◌ d s) v) (sym (minus_code c m))
        (signed_sound limit s v (sym (ap whole (from_chars_signed limit c s m)) ∙ h))
  | inr u ↦
      unsigned_sound limit (Native.◌∷◌ c s) v (sym (ap whole (from_chars_unsigned limit c s u)) ∙ h)
]

digit_unsigned : (n : ℕ) → is_digit n ≡ true → (n == b'-') ≡ false
digit_unsigned n h = ground arith

numeral_read :
    (limit : ℕ) (t : String)
    → IsNumeral t
    → value 0 t < limit
    → whole (from_chars limit t) ≡ some (pos (value 0 t))
numeral_read limit Native.[] n l = absurd n
numeral_read limit (Native.◌∷◌ c s) n l =
    ap whole (from_chars_unsigned limit c s (digit_unsigned (code c) n.0))
    ∙ ap (λ o. whole (in_range limit o)) (read_digits_complete (Native.◌∷◌ c s) n)
    ∙ grind arith

minus_read :
    (limit : ℕ) (s : String)
    → IsNumeral s
    → value 0 s ≤ limit
    → whole (from_chars limit (Native.◌∷◌ minus s)) ≡ some (pos 0 -ℤ pos (value 0 s))
minus_read limit s n l =
    ap whole (from_chars_signed limit minus s refl)
    ∙ ap (λ o. whole (negated limit o)) (read_digits_complete s n)
    ∙ grind arith

-- ParseInt reads a text as an int exactly if the text is a nonempty run of digits with a value
-- below 2 ^ 31, or a minus sign and such a run with a value up to 2 ^ 31, and the int is that value.
pub parse_int_iff : (t : String) (v : ℤ) → (parse_int t ≡ some v) ↔ Denotes (2 ^ 31) t v
unfolding parse_int
parse_int_iff t v = (
  from_chars_sound (2 ^ 31) t v,
  elim [
    | inl (n, l, e) ↦ numeral_read (2 ^ 31) t n l ∙ ap some (sym e)
    | inr (s, same, n, l, e) ↦
        ap (λ u. whole (from_chars (2 ^ 31) u)) same ∙ minus_read (2 ^ 31) s n l ∙ ap some (sym e)
  ],
)
