-- ===== src/Text/Numbers.antt =====
-- About the numbers that parser.cpp reads with std::from_chars.
use Prim.Native.Char.{Char, code}
use text.Mathlib.TextLemmas.{cons≢nil}
use Prim.Native.String as Native
use roborun.Prelude.{
  ℕ, ◌+◌, ◌-◌, ◌*◌, ◌^◌, ◌<◌, ℤ, pos, true, false, String, Option, some, ◌≡◌, ◌↔◌, inl, inr, refl,
  ap, sym, Bool-cases, ◌∙◌, arith,
}
use roborun.Text.{
  is_digit, scan_digits, read_digits, from_chars, whole, in_range, nonnegative, parse_milliseconds,
}

abbrev pub AllDigits : String → Type 0
AllDigits Native.[] = Unit
AllDigits (Native.◌∷◌ c s) = (is_digit (code c) ≡ true) × AllDigits s

-- The number that digits spell behind the number `n`.
unfoldable pub value : ℕ → String → ℕ
value n Native.[] = n
value n (Native.◌∷◌ c s) = value (n * 10 + (code c - b'0')) s

-- A numeral: at least one character, and digits only.
abbrev pub IsNumeral : String → Type 0
IsNumeral Native.[] = ⊥
IsNumeral s = AllDigits s

scan_digit :
    (c : Char) (s : String) (n : ℕ)
    → is_digit (code c) ≡ true
    → scan_digits n (Native.◌∷◌ c s) ≡ scan_digits (n * 10 + (code c - b'0')) s
unfolding scan_digits
scan_digit c s n h = rw (h, scan_digits) refl

scan_stop :
    (c : Char) (s : String) (n : ℕ)
    → is_digit (code c) ≡ false
    → scan_digits n (Native.◌∷◌ c s) ≡ (n, Native.◌∷◌ c s)
unfolding scan_digits
scan_stop c s n h = rw h refl

pub scan_sound : (s : String) (n m : ℕ) → scan_digits n s ≡ (m, "") → AllDigits s × (value n s ≡ m)
unfolding value
scan_sound Native.[] n m h = unfold scan_digits in (tt, ap (λ (p : ℕ × String). p.0) h)
scan_sound (Native.◌∷◌ c s) n m h = elim (Bool-cases (is_digit (code c))) [
  | inl d ↦
      let (ds, v) = scan_sound s (n * 10 + (code c - b'0')) m (sym (scan_digit c s n d) ∙ h) in
      ((d, ds), v)
  | inr stop ↦ absurd (cons≢nil (ap (λ p. p.1) (sym (scan_stop c s n stop) ∙ h)))
]

pub scan_complete : (s : String) (n : ℕ) → AllDigits s → scan_digits n s ≡ (value n s, "")
unfolding value
scan_complete Native.[] n h = unfold scan_digits in refl
scan_complete (Native.◌∷◌ c s) n (d, h) =
    scan_digit c s n d ∙ scan_complete s (n * 10 + (code c - b'0')) h

parse_milliseconds_complete :
    (t : String) → IsNumeral t → value 0 t < 2 ^ 63 → parse_milliseconds t ≡ some (pos (value 0 t))
unfolding parse_milliseconds from_chars read_digits
parse_milliseconds_complete Native.[] h l = absurd h
parse_milliseconds_complete (Native.◌∷◌ c s) h l =
    rw (scan_complete (Native.◌∷◌ c s) 0 h) (grind arith)

-- What the range test and the end test keep of a scan.
fitting : ℕ × String → Option ℤ
fitting (n, rest) = nonnegative (whole (in_range (2 ^ 63) (some (n, rest))))

fitting_lem :
    (n : ℕ) (rest : String) (v : ℤ)
    → fitting (n, rest) ≡ some v
    → (rest ≡ "") × (n < 2 ^ 63) × (v ≡ pos n)
unfolding fitting
fitting_lem n Native.[] v h = grind arith
fitting_lem n (Native.◌∷◌ c s) v h = grind arith

parse_milliseconds-fitting :
    (c : Char) (s : String) (v : ℤ)
    → parse_milliseconds (Native.◌∷◌ c s) ≡ some v
    → (fitting (scan_digits 0 (Native.◌∷◌ c s)) ≡ some v)
unfolding parse_milliseconds from_chars read_digits fitting
parse_milliseconds-fitting c s v h = grind arith

parse_milliseconds_sound :
    (t : String) (v : ℤ)
    → parse_milliseconds t ≡ some v
    → IsNumeral t × (value 0 t < 2 ^ 63) × (v ≡ pos (value 0 t))
parse_milliseconds_sound Native.[] v h = unfold parse_milliseconds in cc
parse_milliseconds_sound (Native.◌∷◌ c s) v h =
    let p = scan_digits 0 (Native.◌∷◌ c s) in
    let (done, fits, is) = fitting_lem p.0 p.1 v (parse_milliseconds-fitting c s v h) in
    let (ds, e) = scan_sound (Native.◌∷◌ c s) 0 p.0 (λ i. (p.0, done i)) in
    (ds, rw e fits, is ∙ ap pos (sym e))

-- ParseMilliseconds reads a text as a time exactly if the text is a nonempty run of digits whose
-- value fits a signed 64-bit integer, and the time is that value.
pub parse_milliseconds_iff :
    (t : String) (v : ℤ)
    → (parse_milliseconds t ≡ some v) ↔ (IsNumeral t × (value 0 t < 2 ^ 63) × (v ≡ pos (value 0 t)))
parse_milliseconds_iff t v =
    (parse_milliseconds_sound t v, λ (n, l, e). parse_milliseconds_complete t n l ∙ ap some (sym e))
