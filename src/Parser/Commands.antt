-- ===== src/Parser/Commands.antt =====
-- The helpers of src/roborun/parser.cpp and the commands other than MOVEJ.
use Prim.Native.Char.{code}
use Prim.Native.String as Native
use roborun.Prelude.{
  ℕ, ℤ, Bool, false, not, ◌&&◌, ◌||◌, String, str_eq, Option, none, some, List, [], ◌∷◌, ◌++◌,
  length, get_elem?, value_or, leb, ◌==◌, if◌then◌else◌,
}
use roborun.Types.{
  CommandType, ToolPosition, DiagnosticCode, Command, CheckedProgram, default_command,
}
use roborun.Text.{parse_milliseconds}
use roborun.Config.{is_valid_point_name}

-- What one line adds to the result: nothing, a command or a diagnostic.
pub data LineResult : Type 0 where
  blank : LineResult
  accepted : Command → LineResult
  refused : DiagnosticCode → String → LineResult

-- AddDiagnostic.
unfoldable pub add_diagnostic :
    CheckedProgram → String → ℕ → DiagnosticCode → String → CheckedProgram
add_diagnostic result source line_number code message = record result {
  diagnostics =
      result.diagnostics
      ++ record {
        code = code;
        source = source;
        line = line_number;
        column = 1;
        path = "";
        message = message;
      }
        ∷ [];
}

-- `program.commands.push_back`.
unfoldable pub push_command : CheckedProgram → Command → CheckedProgram
push_command result command = record result {
  program = record result.program { commands = result.program.commands ++ command ∷ [] };
}

-- MakeCommand.
unfoldable pub make_command : CommandType → ℕ → Command
make_command type line_number = record default_command { type = type; line = line_number }

-- `tokens[i]`, read only where it exists.
abbrev pub token_at : List String → ℕ → String
token_at tokens i = value_or (get_elem? tokens i) ""

unfoldable pub is_alpha : ℕ → Bool
is_alpha c = (leb b'A' c && leb c b'Z') || (leb b'a' c && leb c b'z')

unfoldable pub starts_alpha : String → Bool
starts_alpha Native.[] = false
starts_alpha (Native.◌∷◌ c s) = is_alpha (code c)

-- LooksLikePointReference.
unfoldable pub looks_like_point_reference : List String → Bool
looks_like_point_reference tokens = leb 2 (length tokens) && starts_alpha (token_at tokens 1)

unfoldable pub parse_bare : CommandType → String → ℕ → List String → LineResult
parse_bare type message n tokens =
    if length tokens == 1
    then LineResult.accepted (make_command type n)
    else LineResult.refused DiagnosticCode.task_syntax message

unfoldable pub delay_of : ℕ → Option ℤ → LineResult
delay_of n (some d) =
    LineResult.accepted (record (make_command CommandType.delay n) { duration_ms = d })
delay_of n none =
    LineResult.refused DiagnosticCode.invalid_duration
      "DELAY requires a non-negative integer number of milliseconds"

unfoldable pub parse_delay : ℕ → List String → LineResult
unfolding delay_of
parse_delay n tokens =
    if not (length tokens == 2)
    then delay_of n none
    else delay_of n (parse_milliseconds (token_at tokens 1))

unfoldable pub parse_set_do : ℕ → List String → LineResult
parse_set_do n tokens =
    if not (length tokens == 3)
      || not (is_valid_point_name (token_at tokens 1))
      || (not (str_eq (token_at tokens 2) "ON") && not (str_eq (token_at tokens 2) "OFF"))
    then LineResult.refused DiagnosticCode.task_syntax "SET_DO requires <NAME> <ON|OFF>"
    else LineResult.accepted (record (make_command CommandType.set_do n) {
      signal_name = token_at tokens 1;
      signal_value = str_eq (token_at tokens 2) "ON";
    })

unfoldable pub wait_di_of : ℕ → List String → Option ℤ → LineResult
wait_di_of n tokens (some t) = LineResult.accepted (record (make_command CommandType.wait_di n) {
  signal_name = token_at tokens 1;
  signal_value = str_eq (token_at tokens 2) "ON";
  timeout_ms = some t;
})
wait_di_of n tokens none =
    LineResult.refused DiagnosticCode.task_syntax
      "WAIT_DI requires <NAME> <ON|OFF> TIMEOUT <milliseconds>"

unfoldable pub parse_wait_di : ℕ → List String → LineResult
unfolding wait_di_of
parse_wait_di n tokens =
    if not (length tokens == 5)
      || not (is_valid_point_name (token_at tokens 1))
      || (not (str_eq (token_at tokens 2) "ON") && not (str_eq (token_at tokens 2) "OFF"))
      || not (str_eq (token_at tokens 3) "TIMEOUT")
    then wait_di_of n tokens none
    else wait_di_of n tokens (parse_milliseconds (token_at tokens 4))

unfoldable pub set_tool_of : ℕ → List String → Option ℤ → LineResult
set_tool_of n tokens (some t) = LineResult.accepted (record (make_command CommandType.set_tool n) {
  tool_name = token_at tokens 1;
  tool_position =
      if str_eq (token_at tokens 2) "OPEN" then ToolPosition.opened else ToolPosition.closed;
  timeout_ms = some t;
})
set_tool_of n tokens none =
    LineResult.refused DiagnosticCode.task_syntax
      "SET_TOOL requires <NAME> <OPEN|CLOSED> TIMEOUT <milliseconds>"

-- The test of the position stands behind the timeout's in the source; neither has an effect.
unfoldable pub parse_set_tool : ℕ → List String → LineResult
unfolding set_tool_of
parse_set_tool n tokens =
    if not (length tokens == 5)
      || not (is_valid_point_name (token_at tokens 1))
      || not (str_eq (token_at tokens 3) "TIMEOUT")
      || (not (str_eq (token_at tokens 2) "OPEN") && not (str_eq (token_at tokens 2) "CLOSED"))
    then set_tool_of n tokens none
    else set_tool_of n tokens (parse_milliseconds (token_at tokens 4))
