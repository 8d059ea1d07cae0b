-- ===== src/Text/Printing.antt =====
-- About times printed in decimal and read back by ParseMilliseconds of parser.cpp.
use Prim.Native.Char.{code}
use Prim.Native.String as Native
use text.Mathlib.TextLemmas.{cons-append, nil-append, append-ne-nil_of_right_ne-nil, cons≢nil}
use roborun.Prelude.{
  ℕ, zero, suc, ◌+◌, ◌-◌, ◌*◌, ◌/◌, ◌%◌, ◌^◌, ◌<◌, ◌≤◌, pos, true, false, String, text_append, some,
  ◌≡◌, ◌≢◌, refl, ap, subst, sym, ◌∙◌, digit, digits_of, decimal, ltb, if◌then◌else◌, Bool-cases,
  inl, inr, arith,
}
use roborun.Text.{parse_milliseconds}
use roborun.Text.Numbers.{AllDigits, IsNumeral, value, parse_milliseconds_iff}
use roborun.Text.Words.{AllSolid, IsWord}

value-append : (s t : String) (n : ℕ) → value n (text_append s t) ≡ value (value n s) t
unfolding value
value-append Native.[] t n = rw nil-append refl
value-append (Native.◌∷◌ c s) t n = rw cons-append (value-append s t (n * 10 + (code c - b'0')))

AllDigits-append : (s t : String) → AllDigits s → AllDigits t → AllDigits (text_append s t)
AllDigits-append Native.[] t h k = rw nil-append k
AllDigits-append (Native.◌∷◌ c s) t (h, hs) k = rw cons-append (h, AllDigits-append s t hs k)

-- A claim about the ten digits and their texts.
digit-cases :
    (P : ℕ → String → Type 0)
    → P 0 "0"
    → P 1 "1"
    → P 2 "2"
    → P 3 "3"
    → P 4 "4"
    → P 5 "5"
    → P 6 "6"
    → P 7 "7"
    → P 8 "8"
    → P 9 "9"
    → (n : ℕ) → n < 10
    → P n (digit n)
unfolding digit
digit-cases P p0 p1 p2 p3 p4 p5 p6 p7 p8 p9 zero h = p0
digit-cases P p0 p1 p2 p3 p4 p5 p6 p7 p8 p9 (suc zero) h = p1
digit-cases P p0 p1 p2 p3 p4 p5 p6 p7 p8 p9 (suc (suc zero)) h = p2
digit-cases P p0 p1 p2 p3 p4 p5 p6 p7 p8 p9 (suc (suc (suc zero))) h = p3
digit-cases P p0 p1 p2 p3 p4 p5 p6 p7 p8 p9 (suc (suc (suc (suc zero)))) h = p4
digit-cases P p0 p1 p2 p3 p4 p5 p6 p7 p8 p9 (suc (suc (suc (suc (suc zero))))) h = p5
digit-cases P p0 p1 p2 p3 p4 p5 p6 p7 p8 p9 (suc (suc (suc (suc (suc (suc zero)))))) h = p6
digit-cases P p0 p1 p2 p3 p4 p5 p6 p7 p8 p9 (suc (suc (suc (suc (suc (suc (suc zero))))))) h = p7
digit-cases P p0 p1 p2 p3 p4 p5 p6 p7 p8 p9 (suc (suc (suc (suc (suc (suc (suc (suc zero)))))))) h =
    p8
digit-cases P p0 p1 p2 p3 p4 p5 p6 p7 p8 p9
      (suc (suc (suc (suc (suc (suc (suc (suc (suc zero))))))))) h =
    p9
digit-cases P p0 p1 p2 p3 p4 p5 p6 p7 p8 p9
      (suc (suc (suc (suc (suc (suc (suc (suc (suc (suc n)))))))))) h =
    absurd (omega arith)

-- The text of a digit: a nonempty run of digits that spells it.
abbrev Spelled : ℕ → String → Type 0
Spelled n s = AllDigits s × (s ≢ "") × ((m : ℕ) → value m s ≡ m * 10 + n)

digit-Spelled : (n : ℕ) → n < 10 → Spelled n (digit n)
unfolding value
digit-Spelled n h =
    digit-cases Spelled ((refl, tt), cons≢nil, λ m. refl) ((refl, tt), cons≢nil, λ m. refl)
      ((refl, tt), cons≢nil, λ m. refl) ((refl, tt), cons≢nil, λ m. refl)
      ((refl, tt), cons≢nil, λ m. refl) ((refl, tt), cons≢nil, λ m. refl)
      ((refl, tt), cons≢nil, λ m. refl) ((refl, tt), cons≢nil, λ m. refl)
      ((refl, tt), cons≢nil, λ m. refl) ((refl, tt), cons≢nil, λ m. refl) n h

ltb_lt : (a b : ℕ) → ltb a b ≡ true → a < b
ltb_lt a b h = ground arith

leb_of_ltb : (a b : ℕ) → ltb a b ≡ false → b ≤ a
leb_of_ltb a b h = ground arith

digits_of-step :
    (f n : ℕ)
    → digits_of (suc f) n
      ≡ (if ltb n 10 then digit n else text_append (digits_of f (n / 10)) (digit (n % 10)))
unfolding digits_of
digits_of-step f n = refl

AllDigits-digits_of : (f n : ℕ) → AllDigits (digits_of f n)
AllDigits-digits_of zero n = unfold digits_of in tt
AllDigits-digits_of (suc f) n = rw digits_of-step (elim (Bool-cases (ltb n 10)) [
  | inl small ↦ rw small (digit-Spelled n (ltb_lt n 10 small)).0
  | inr big ↦ rw big (
      AllDigits-append (digits_of f (n / 10)) (digit (n % 10)) (AllDigits-digits_of f (n / 10))
        (digit-Spelled (n % 10) (omega arith)).0)
])

digits_of-ne-nil : (f n : ℕ) → digits_of (suc f) n ≢ ""
digits_of-ne-nil f n = rw digits_of-step (elim (Bool-cases (ltb n 10)) [
  | inl small ↦ rw small (digit-Spelled n (ltb_lt n 10 small)).1
  | inr big ↦ rw big (
      append-ne-nil_of_right_ne-nil (digits_of f (n / 10)) (digit-Spelled (n % 10) (omega arith)).1)
])

value-digits_of : (f n : ℕ) → n < 10 ^ f → value 0 (digits_of f n) ≡ n
value-digits_of zero n h = unfold digits_of value in omega arith
value-digits_of (suc f) n h =
    let before = digits_of f (n / 10) in
    let ih = value-digits_of f (n / 10) (grind arith) in
    rw digits_of-step (elim (Bool-cases (ltb n 10)) [
      | inl small ↦ rw small ((digit-Spelled n (ltb_lt n 10 small)).2 0 ∙ omega arith)
      | inr big ↦ rw big (
          value-append before (digit (n % 10)) 0
          ∙ (digit-Spelled (n % 10) (omega arith)).2 (value 0 before)
          ∙ grind (arith, ih))
    ])

IsNumeral-AllDigits : (t : String) → t ≢ "" → AllDigits t → IsNumeral t
IsNumeral-AllDigits Native.[] n h = n refl
IsNumeral-AllDigits (Native.◌∷◌ c s) n h = h

pub decimal-IsNumeral : (n : ℕ) → IsNumeral (decimal n)
unfolding decimal
decimal-IsNumeral n =
    IsNumeral-AllDigits (digits_of 20 n) (digits_of-ne-nil 19 n) (AllDigits-digits_of 20 n)

AllDigits-AllSolid : (t : String) → AllDigits t → AllSolid t
AllDigits-AllSolid Native.[] h = tt
AllDigits-AllSolid (Native.◌∷◌ c s) (h, hs) = (grind arith, AllDigits-AllSolid s hs)

IsNumeral-IsWord : (t : String) → IsNumeral t → IsWord t
IsNumeral-IsWord Native.[] h = h
IsNumeral-IsWord (Native.◌∷◌ c s) h = AllDigits-AllSolid (Native.◌∷◌ c s) h

pub decimal-IsWord : (n : ℕ) → IsWord (decimal n)
decimal-IsWord n = IsNumeral-IsWord (decimal n) (decimal-IsNumeral n)

pub value-decimal : (n : ℕ) → n < 10 ^ 20 → value 0 (decimal n) ≡ n
unfolding decimal
value-decimal n h = value-digits_of 20 n h

-- A time below 2 ^ 63 printed in decimal is read back by ParseMilliseconds as itself.
pub parse_milliseconds-decimal :
    (n : ℕ) → n < 2 ^ 63 → parse_milliseconds (decimal n) ≡ some (pos n)
parse_milliseconds-decimal n h =
    let v = value-decimal n (omega arith) in
    (parse_milliseconds_iff (decimal n) (pos n)).1
      (decimal-IsNumeral n, subst (λ k. k < 2 ^ 63) (sym v) h, ap pos (sym v))
