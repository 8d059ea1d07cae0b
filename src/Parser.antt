-- ===== src/Parser.antt =====
-- ParseProgram of src/roborun/parser.cpp: a text to commands and diagnostics, line by line. The
-- line counter is not bounded here.
mod Commands
mod Moves
unfoldable pub use Commands.*
unfoldable pub use Moves.*
use roborun.Prelude.{ℕ, ◌+◌, String, str_eq, text_append, List, [], ◌∷◌, if◌then◌else◌}
use roborun.Types.{CommandType, DiagnosticCode, CheckedProgram}
use roborun.Text.{get_lines, split_whitespace, Strtod}

-- The branches of the loop's body.
unfoldable pub parse_command : (String → Strtod) → ℕ → String → List String → LineResult
parse_command strtod n keyword tokens =
    if str_eq keyword "SERVO_ON"
    then parse_bare CommandType.servo_on "SERVO_ON does not accept parameters" n tokens
    else if str_eq keyword "SERVO_OFF"
    then parse_bare CommandType.servo_off "SERVO_OFF does not accept parameters" n tokens
    else if str_eq keyword "STOP"
    then parse_bare CommandType.stop "STOP does not accept parameters" n tokens
    else if str_eq keyword "DELAY"
    then parse_delay n tokens
    else if str_eq keyword "SET_DO"
    then parse_set_do n tokens
    else if str_eq keyword "WAIT_DI"
    then parse_wait_di n tokens
    else if str_eq keyword "SET_TOOL"
    then parse_set_tool n tokens
    else if str_eq keyword "MOVEJ"
    then parse_movej strtod n tokens
    else LineResult.refused DiagnosticCode.task_syntax (text_append "unknown command: " keyword)

unfoldable pub parse_tokens : (String → Strtod) → ℕ → List String → LineResult
parse_tokens strtod n [] = LineResult.blank
parse_tokens strtod n (keyword ∷ rest) = parse_command strtod n keyword (keyword ∷ rest)

unfoldable pub add_line : String → ℕ → LineResult → CheckedProgram → CheckedProgram
add_line source n LineResult.blank result = result
add_line source n (LineResult.accepted command) result = push_command result command
add_line source n (LineResult.refused code message) result =
    add_diagnostic result source n code message

-- The `while` of ParseProgram, from the line behind line `n`.
unfoldable pub parse_lines :
    (String → Strtod) → String → ℕ → List String → CheckedProgram → CheckedProgram
parse_lines strtod source n [] result = result
parse_lines strtod source n (line ∷ lines) result =
    let read = parse_tokens strtod (n + 1) (split_whitespace line) in
    parse_lines strtod source (n + 1) lines (add_line source (n + 1) read result)

unfoldable pub parse_program : (String → Strtod) → String → String → CheckedProgram
parse_program strtod input source =
    parse_lines strtod source 0 (get_lines input)
      (record { program = record { source = source; commands = [] }; diagnostics = [] })
