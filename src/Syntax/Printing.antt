-- ===== src/Syntax/Printing.antt =====
-- A printer of programs in the language of src/roborun/parser.cpp, and lemmas on the words it prints.
use Prim.Native.String as Native
use text.Mathlib.TextLemmas.{cons-append, nil-append}
use roborun.Prelude.{
  ℕ, suc, ◌^◌, ◌<◌, ◌≤◌, ℤ, pos, negsuc, false, String, text_append, decimal, decimalℤ, Option,
  none, some, List, [], ◌∷◌, map, All, ◌≡◌, inl, inr, ap, sym, ◌∙◌, subst, arith,
}
use roborun.Types.{Double, joint_list}
use roborun.Text.{Strtod, parse_double}
use roborun.Text.Integers.{Denotes, minus}
use roborun.Text.Words.{IsWord, line_of, text_of}
use roborun.Text.Printing.{decimal-IsNumeral, value-decimal}
use roborun.Parser.{starts_alpha}
use roborun.Syntax.{Statement, level_word, position_word, IsTime, IsName}

module _ (show : Double → String) where
  abbrev pub timeout_words : Option ℤ → List String
  timeout_words none = []
  timeout_words (some d) = "TIMEOUT" ∷ decimalℤ d ∷ []

  -- The words of a statement.
  abbrev pub spelling : Statement → List String
  spelling Statement.servo_on = "SERVO_ON" ∷ []
  spelling Statement.servo_off = "SERVO_OFF" ∷ []
  spelling Statement.stop = "STOP" ∷ []
  spelling (Statement.delay d) = "DELAY" ∷ decimalℤ d ∷ []
  spelling (Statement.set_do name level) = "SET_DO" ∷ name ∷ level_word level ∷ []
  spelling (Statement.wait_di name level d) =
      "WAIT_DI" ∷ name ∷ level_word level ∷ "TIMEOUT" ∷ decimalℤ d ∷ []
  spelling (Statement.set_tool name position d) =
      "SET_TOOL" ∷ name ∷ position_word position ∷ "TIMEOUT" ∷ decimalℤ d ∷ []
  spelling (Statement.move_point name speed timeout) =
      "MOVEJ" ∷ name ∷ "SPEED" ∷ decimalℤ speed ∷ timeout_words timeout
  spelling (Statement.move_joints p timeout) =
      "MOVEJ"
      ∷ show p.j1
      ∷ show p.j2
      ∷ show p.j3
      ∷ show p.j4
      ∷ show p.j5
      ∷ show p.j6
      ∷ timeout_words timeout

  -- One statement to a line.
  unfoldable pub print_program : List Statement → String
  print_program ss = text_of (map (λ s. line_of (spelling s)) ss)

-- A time that the language can write.
abbrev pub Writable : ℤ → Type 0
Writable d = (n : ℕ) × (d ≡ pos n) × (n < 2 ^ 63)

abbrev pub WritableTimeout : Option ℤ → Type 0
WritableTimeout none = Unit
WritableTimeout (some d) = Writable d

-- A 32-bit speed.
abbrev pub WritableSpeed : ℤ → Type 0
WritableSpeed (pos n) = n < 2 ^ 31
WritableSpeed (negsuc n) = n < 2 ^ 31

-- A number whose text is one word, begins with no letter and is read back by ParseDouble.
abbrev pub Shown : (String → Strtod) → (Double → String) → Double → Type 0
Shown strtod show d =
    IsWord (show d) × (starts_alpha (show d) ≡ false) × (parse_double strtod (show d) ≡ some d)

abbrev pub IsPrintable : (String → Strtod) → (Double → String) → Statement → Type 0
IsPrintable strtod show Statement.servo_on = Unit
IsPrintable strtod show Statement.servo_off = Unit
IsPrintable strtod show Statement.stop = Unit
IsPrintable strtod show (Statement.delay d) = Writable d
IsPrintable strtod show (Statement.set_do name level) = IsName name
IsPrintable strtod show (Statement.wait_di name level d) = IsName name × Writable d
IsPrintable strtod show (Statement.set_tool name position d) = IsName name × Writable d
IsPrintable strtod show (Statement.move_point name speed timeout) =
    IsName name × WritableSpeed speed × WritableTimeout timeout
IsPrintable strtod show (Statement.move_joints p timeout) =
    All (Shown strtod show) (joint_list p) × WritableTimeout timeout

pub Writable-IsTime : (d : ℤ) → Writable d → IsTime (decimalℤ d) d
unfolding decimalℤ
Writable-IsTime d (n, e, l) =
    let v = value-decimal n (omega arith) in
    subst (λ z. IsTime (decimalℤ z) z) (sym e)
      (decimal-IsNumeral n, subst (λ k. k < 2 ^ 63) (sym v) l, ap pos (sym v))

pub minus-append : (s : String) → text_append "-" s ≡ Native.◌∷◌ minus s
minus-append s = cons-append minus "" s ∙ ap (Native.◌∷◌ minus) (nil-append s)

pub WritableSpeed-Denotes : (v : ℤ) → WritableSpeed v → Denotes (2 ^ 31) (decimalℤ v) v
unfolding decimalℤ
WritableSpeed-Denotes (pos n) l =
    let v = value-decimal n (omega arith) in
    inl (decimal-IsNumeral n, subst (λ k. k < 2 ^ 31) (sym v) l, ap pos (sym v))
WritableSpeed-Denotes (negsuc n) l =
    let v = value-decimal (suc n) (omega arith) in
    inr (
      decimal (suc n),
      minus-append (decimal (suc n)),
      decimal-IsNumeral (suc n),
      subst (λ k. k ≤ 2 ^ 31) (sym v) (omega arith),
      rw v (grind arith),
    )
