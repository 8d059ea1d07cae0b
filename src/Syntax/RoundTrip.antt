-- ===== src/Syntax/RoundTrip.antt =====
-- About printed programs read back by ParseProgram of src/roborun/parser.cpp.
use Prim.Native.Char.{code}
use Prim.Native.String as Native
use mathlib.Core.List.{append-nil, append_assoc}
use roborun.Prelude.{
  ℕ, zero, suc, ◌+◌, ℤ, pos, negsuc, Bool, true, false, not, ◌&&◌, String, decimal, decimalℤ,
  Option, none, some, List, [], ◌∷◌, ◌++◌, map, All, ◌≡◌, ap, sym, ◌∙◌, refl, subst, arith,
}
use roborun.Types.{ToolPosition, Double, Command, CheckedProgram}
use roborun.Text.{Strtod, is_space, split_whitespace}
use roborun.Text.Words.{
  AllSolid, IsWord, IsLine, line_of, split_whitespace-line_of, get_lines-text_of, IsLine-line_of,
}
use roborun.Text.Printing.{decimal-IsWord}
use roborun.Config.{is_upper, is_name_char, is_name_tail, is_valid_point_name}
use roborun.Parser.{LineResult, parse_tokens, push_command, add_line, parse_lines, parse_program}
use roborun.Syntax.{Statement, meaning, level_word, position_word, IsName, SpellsTimeout, Spells}
use roborun.Syntax.Complete.{parse_tokens_complete}
use roborun.Syntax.Moves.{both}
use roborun.Syntax.Printing.{
  timeout_words, spelling, print_program, Writable, WritableTimeout, IsPrintable, Writable-IsTime,
  WritableSpeed-Denotes, minus-append,
}

Writable-IsWord : (d : ℤ) → Writable d → IsWord (decimalℤ d)
unfolding decimalℤ
Writable-IsWord d (n, e, l) = subst (λ z. IsWord (decimalℤ z)) (sym e) (decimal-IsWord n)

IsWord-AllSolid : (t : String) → IsWord t → AllSolid t
IsWord-AllSolid Native.[] h = absurd h
IsWord-AllSolid (Native.◌∷◌ c s) h = h

speed-IsWord : (v : ℤ) → IsWord (decimalℤ v)
unfolding decimalℤ
speed-IsWord (pos n) = decimal-IsWord n
speed-IsWord (negsuc n) =
    subst IsWord (sym (minus-append (decimal (suc n))))
      (refl, IsWord-AllSolid (decimal (suc n)) (decimal-IsWord (suc n)))

is_word : String → Bool
is_word Native.[] = true
is_word (Native.◌∷◌ c s) = not (is_space (code c)) && is_word s

is_word-AllSolid : (s : String) → is_word s ≡ true → AllSolid s
unfolding is_word
is_word-AllSolid Native.[] h = tt
is_word-AllSolid (Native.◌∷◌ c s) h = (grind arith, is_word-AllSolid s (grind arith))

name_char_solid : (n : ℕ) → is_name_char n ≡ true → is_space n ≡ false
name_char_solid n h = grind arith

name_tail-AllSolid : (most : ℕ) (s : String) → is_name_tail most s ≡ true → AllSolid s
unfolding is_name_tail
name_tail-AllSolid most Native.[] h = tt
name_tail-AllSolid zero (Native.◌∷◌ c s) h = cc
name_tail-AllSolid (suc most) (Native.◌∷◌ c s) h =
    let (here, rest) = both (is_name_char (code c)) _ h in
    (name_char_solid (code c) here, name_tail-AllSolid most s rest)

IsName-IsWord : (name : String) → IsName name → IsWord name
unfolding is_valid_point_name
IsName-IsWord Native.[] h = cc
IsName-IsWord (Native.◌∷◌ c s) h =
    let (here, rest) = both (is_upper (code c)) _ h in (grind arith, name_tail-AllSolid 63 s rest)

level-IsWord : (level : Bool) → IsWord (level_word level)
unfolding is_word
level-IsWord true = is_word-AllSolid "ON" refl
level-IsWord false = is_word-AllSolid "OFF" refl

position-IsWord : (position : ToolPosition) → IsWord (position_word position)
unfolding is_word
position-IsWord ToolPosition.opened = is_word-AllSolid "OPEN" refl
position-IsWord ToolPosition.closed = is_word-AllSolid "CLOSED" refl

timeout-IsWord : IsWord "TIMEOUT"
unfolding is_word
timeout-IsWord = is_word-AllSolid "TIMEOUT" refl

module _ (strtod : String → Strtod) (show : Double → String) where
  timeout_words-IsWord :
      (timeout : Option ℤ) → WritableTimeout timeout → All IsWord (timeout_words show timeout)
  timeout_words-IsWord none h = tt
  timeout_words-IsWord (some d) h = (timeout-IsWord, (Writable-IsWord d h, tt))

  spelling-IsWord : (s : Statement) → IsPrintable strtod show s → All IsWord (spelling show s)
  unfolding is_word
  spelling-IsWord Statement.servo_on h = (is_word-AllSolid "SERVO_ON" refl, tt)
  spelling-IsWord Statement.servo_off h = (is_word-AllSolid "SERVO_OFF" refl, tt)
  spelling-IsWord Statement.stop h = (is_word-AllSolid "STOP" refl, tt)
  spelling-IsWord (Statement.delay d) h = (is_word-AllSolid "DELAY" refl, (Writable-IsWord d h, tt))
  spelling-IsWord (Statement.set_do name level) h =
      (is_word-AllSolid "SET_DO" refl, (IsName-IsWord name h, (level-IsWord level, tt)))
  spelling-IsWord (Statement.wait_di name level d) (h, k) = (
    is_word-AllSolid "WAIT_DI" refl,
    (IsName-IsWord name h, (level-IsWord level, (timeout-IsWord, (Writable-IsWord d k, tt)))),
  )
  spelling-IsWord (Statement.set_tool name position d) (h, k) = (
    is_word-AllSolid "SET_TOOL" refl,
    (IsName-IsWord name h, (position-IsWord position, (timeout-IsWord, (Writable-IsWord d k, tt)))),
  )
  spelling-IsWord (Statement.move_point name speed timeout) (h, k, l) = (
    is_word-AllSolid "MOVEJ" refl,
    (
      IsName-IsWord name h,
      (is_word-AllSolid "SPEED" refl, (speed-IsWord speed, timeout_words-IsWord timeout l)),
    ),
  )
  spelling-IsWord (Statement.move_joints p timeout) ((h1, (h2, (h3, (h4, (h5, (h6, _)))))), l) = (
    is_word-AllSolid "MOVEJ" refl,
    (h1.0, (h2.0, (h3.0, (h4.0, (h5.0, (h6.0, timeout_words-IsWord timeout l)))))),
  )

  timeout_words-SpellsTimeout :
      (timeout : Option ℤ)
      → WritableTimeout timeout
      → SpellsTimeout timeout (timeout_words show timeout)
  timeout_words-SpellsTimeout none h = refl
  timeout_words-SpellsTimeout (some d) h = (decimalℤ d, refl, Writable-IsTime d h)

  spelling-Spells : (s : Statement) → IsPrintable strtod show s → Spells strtod s (spelling show s)
  spelling-Spells Statement.servo_on h = refl
  spelling-Spells Statement.servo_off h = refl
  spelling-Spells Statement.stop h = refl
  spelling-Spells (Statement.delay d) h = (decimalℤ d, refl, Writable-IsTime d h)
  spelling-Spells (Statement.set_do name level) h = (refl, h)
  spelling-Spells (Statement.wait_di name level d) (h, k) =
      (decimalℤ d, refl, h, Writable-IsTime d k)
  spelling-Spells (Statement.set_tool name position d) (h, k) =
      (decimalℤ d, refl, h, Writable-IsTime d k)
  spelling-Spells (Statement.move_point name speed timeout) (h, k, l) = (
    decimalℤ speed,
    timeout_words show timeout,
    refl,
    h,
    WritableSpeed-Denotes speed k,
    timeout_words-SpellsTimeout timeout l,
  )
  spelling-Spells (Statement.move_joints p timeout) ((h1, (h2, (h3, (h4, (h5, (h6, _)))))), l) = (
    record {
      t1 = show p.j1;
      t2 = show p.j2;
      t3 = show p.j3;
      t4 = show p.j4;
      t5 = show p.j5;
      t6 = show p.j6;
      rest = timeout_words show timeout;
      words = refl;
      no_letter = h1.1;
      d1 = h1.2;
      d2 = h2.2;
      d3 = h3.2;
      d4 = h4.2;
      d5 = h5.2;
      d6 = h6.2;
    },
    timeout_words-SpellsTimeout timeout l,
  )

  -- The commands of the statements, from line `n`.
  abbrev pub numbered : ℕ → List Statement → List Command
  numbered n [] = []
  numbered n (s ∷ ss) = meaning n s ∷ numbered (n + 1) ss

  line_read :
      (n : ℕ) (s : Statement)
      → IsPrintable strtod show s
      → parse_tokens strtod n (split_whitespace (line_of (spelling show s)))
        ≡ LineResult.accepted (meaning n s)
  line_read n s h =
      ap (parse_tokens strtod n) (split_whitespace-line_of (spelling show s) (spelling-IsWord s h))
      ∙ parse_tokens_complete strtod n s (spelling show s) (spelling-Spells s h)

  abbrev with_commands : CheckedProgram → List Command → CheckedProgram
  with_commands r cs = record r {
    program = record r.program { commands = r.program.commands ++ cs };
  }

  lines_read :
      (source : String) (ss : List Statement) (n : ℕ) (r : CheckedProgram)
      → All (IsPrintable strtod show) ss
      → parse_lines strtod source n (map (λ s. line_of (spelling show s)) ss) r
        ≡ with_commands r (numbered (n + 1) ss)
  unfolding parse_lines push_command add_line
  lines_read source [] n r h =
      ap (λ cs. record r { program = record r.program { commands = cs } })
        (sym (append-nil r.program.commands))
  lines_read source (s ∷ ss) n r (h, hs) =
      let rest = map (λ s. line_of (spelling show s)) ss in
      let next = push_command r (meaning (n + 1) s) in
      ap (λ q. parse_lines strtod source (n + 1) rest (add_line source (n + 1) q r))
        (line_read (n + 1) s h)
      ∙ lines_read source ss (n + 1) next hs
      ∙ ap (λ cs. record r { program = record r.program { commands = cs } })
          (append_assoc r.program.commands (meaning (n + 1) s ∷ []) (numbered (n + 1 + 1) ss))

  lines-IsLine :
      (ss : List Statement)
      → All (IsPrintable strtod show) ss
      → All IsLine (map (λ s. line_of (spelling show s)) ss)
  lines-IsLine [] h = tt
  lines-IsLine (s ∷ ss) (h, hs) =
      (IsLine-line_of (spelling show s) (spelling-IsWord s h), lines-IsLine ss hs)

-- A program of statements that can be written down, printed one to a line and read by
-- ParseProgram, gives the commands that the statements mean, numbered by their lines from 1, and no
-- diagnostic, where each joint target's text is one word that begins with no letter and that
-- ParseDouble reads back.
pub parse_program-print_program :
    (strtod : String → Strtod) (show : Double → String) (source : String) (ss : List Statement)
    → All (IsPrintable strtod show) ss
    → parse_program strtod (print_program show ss) source ≡ record {
      program = record { source = source; commands = numbered strtod show 1 ss };
      diagnostics = [];
    }
unfolding parse_program print_program
parse_program-print_program strtod show source ss h =
    let empty : CheckedProgram = record {
      program = record { source = source; commands = [] };
      diagnostics = [];
    } in
    ap (λ ls. parse_lines strtod source 0 ls empty)
      (get_lines-text_of (map (λ s. line_of (spelling show s)) ss) (lines-IsLine strtod show ss h))
    ∙ lines_read strtod show source ss 0 empty h
