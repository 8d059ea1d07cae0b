-- ===== src/Examples/Parsing.antt =====
-- Tests and instances for the parser.
use Prim.Native.String.{count}
use mathlib.Core.List.{Perm}
use roborun.Prelude.{
  ◌^◌, ◌<◌, pos, negsuc, false, String, none, some, List, [], ◌∷◌, ◌++◌, map, All, ◌≡◌, ◌↔◌, refl,
  decimal, decimalℤ, arith,
}
use roborun.Types.{ToolPosition, DiagnosticCode, Diagnostic, JointPositions, joint_list}
use roborun.Text.{
  Strtod, scan_digits, read_digits, from_chars, get_lines, split_whitespace, parse_milliseconds,
  parse_int, parse_double, ends_at,
}
use roborun.Text.Numbers.{IsNumeral, value, parse_milliseconds_iff}
use roborun.Text.Printing.{parse_milliseconds-decimal}
use roborun.Text.Integers.{Denotes, parse_int_iff}
use roborun.Config.{is_valid_point_name, is_name_tail}
use roborun.Parser.{
  LineResult, parse_tokens, parse_program, starts_alpha, is_alpha, parse_lines, parse_command,
  parse_bare, parse_delay, parse_movej, parse_named, parse_joints, looks_like_point_reference,
  add_line, push_command, add_diagnostic, make_command, with_timeout, named_command,
}
use roborun.Text.Words.{text_of, line_of, behind_spaces}
use roborun.Syntax.{Statement, meaning, Spells}
use roborun.Syntax.Language.{parse_tokens_iff}
use roborun.Syntax.Printing.{print_program, Shown, IsPrintable}
use roborun.Syntax.RoundTrip.{numbered, parse_program-print_program}
use roborun.Syntax.Accounting.{command_lines, diagnostic_lines, written_lines, parse_program-Perm}

-- A reader of numerals in the place of std::strtod.
abbrev numerals : String → Strtod
numerals t = record { parsed = (scan_digits 0 t).0; consumed = count t; range_error = false }

abbrev joints : JointPositions
joints = record { j1 = 1; j2 = 20; j3 = 3; j4 = 4; j5 = 5; j6 = 6 }

abbrev statements : List Statement
statements =
    Statement.servo_on
    ∷ Statement.set_tool "GRIP_1" ToolPosition.closed (pos 900)
    ∷ Statement.move_point "PICK" (negsuc 4) (some (pos 30))
    ∷ Statement.move_joints joints none
    ∷ []

printed :
    print_program decimal statements
    ≡ "SERVO_ON\nSET_TOOL GRIP_1 CLOSED TIMEOUT 900\nMOVEJ PICK SPEED -5 TIMEOUT 30\nMOVEJ 1 20 3 4 5 6\n"
unfolding print_program decimal text_of line_of behind_spaces decimalℤ
printed = refl

abbrev text : String
text = "  SERVO_ON\t\n\nDELAY 12x\nDELAY 0012\nMOVEJ P SPEED 5 TIMEOUT\nJUMP"

diagnosed :
    (command_lines (parse_program numerals text "t") ≡ 1 ∷ 4 ∷ [])
    × (map (λ (d : Diagnostic). d.code) (parse_program numerals text "t").diagnostics
        ≡ DiagnosticCode.invalid_duration ∷ DiagnosticCode.invalid_speed
          ∷ DiagnosticCode.task_syntax ∷ [])
unfolding parse_program parse_lines get_lines split_whitespace parse_tokens parse_command parse_bare
    parse_delay parse_movej parse_named add_line push_command add_diagnostic make_command
    parse_milliseconds from_chars read_digits scan_digits parse_int with_timeout named_command
    parse_joints looks_like_point_reference starts_alpha is_alpha is_valid_point_name is_name_tail
diagnosed = (refl, refl)

too_late : parse_milliseconds "9223372036854775808" ≡ none
unfolding parse_milliseconds from_chars read_digits scan_digits
too_late = refl

shown : All (Shown numerals decimal) (joint_list joints)
unfolding decimal parse_double ends_at scan_digits starts_alpha is_alpha
shown = (
  ((refl, tt), refl, refl),
  (
    ((refl, (refl, tt)), refl, refl),
    (
      ((refl, tt), refl, refl),
      (((refl, tt), refl, refl), (((refl, tt), refl, refl), (((refl, tt), refl, refl), tt))),
    ),
  ),
)

printable : All (IsPrintable numerals decimal) statements
unfolding is_valid_point_name is_name_tail
printable = (
  tt,
  (
    (refl, (900, refl, omega arith)),
    ((refl, omega arith, (30, refl, omega arith)), ((shown, tt), tt)),
  ),
)

parse_program-print_program_example :
    parse_program numerals (print_program decimal statements) "t" ≡ record {
      program = record { source = "t"; commands = numbered numerals decimal 1 statements };
      diagnostics = [];
    }
parse_program-print_program_example =
    parse_program-print_program numerals decimal "t" statements printable

parse_program-Perm_example :
    Perm
      (command_lines (parse_program numerals text "t")
        ++ diagnostic_lines (parse_program numerals text "t"))
      (written_lines 0 (get_lines text))
parse_program-Perm_example = parse_program-Perm numerals text "t"

parse_tokens_iff_example :
    (parse_tokens numerals 3 ("DELAY" ∷ "42" ∷ [])
      ≡ LineResult.accepted (meaning 3 (Statement.delay (pos 42))))
    ↔ ((s : Statement) × Spells numerals s ("DELAY" ∷ "42" ∷ [])
        × (meaning 3 (Statement.delay (pos 42)) ≡ meaning 3 s))
parse_tokens_iff_example =
    parse_tokens_iff numerals 3 ("DELAY" ∷ "42" ∷ []) (meaning 3 (Statement.delay (pos 42)))

parse_milliseconds_iff_example :
    (parse_milliseconds "0042" ≡ some (pos 42))
    ↔ (IsNumeral "0042" × (value 0 "0042" < 2 ^ 63) × (pos 42 ≡ pos (value 0 "0042")))
parse_milliseconds_iff_example = parse_milliseconds_iff "0042" (pos 42)

parse_int_iff_example : (parse_int "-5" ≡ some (negsuc 4)) ↔ Denotes (2 ^ 31) "-5" (negsuc 4)
parse_int_iff_example = parse_int_iff "-5" (negsuc 4)

parse_milliseconds-decimal_example : parse_milliseconds (decimal 1500) ≡ some (pos 1500)
parse_milliseconds-decimal_example = parse_milliseconds-decimal 1500 (omega arith)
