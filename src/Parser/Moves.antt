-- ===== src/Parser/Moves.antt =====
-- The MOVEJ command of src/roborun/parser.cpp, in its two forms.
use roborun.Prelude.{
  ℕ, zero, suc, ◌+◌, ℤ, not, ◌&&◌, ◌||◌, String, str_eq, text_append, decimal, Option, none, some,
  List, length, ltb, ◌==◌, if◌then◌else◌,
}
use Prim.Native.String.{count}
use roborun.Types.{CommandType, DiagnosticCode, Command, Double, JointPositions, no_positions}
use roborun.Text.{parse_int, parse_milliseconds, Strtod, parse_double}
use roborun.Config.{is_valid_point_name}
use roborun.Parser.Commands.{LineResult, make_command, token_at, looks_like_point_reference}

timeout_refused : LineResult
timeout_refused =
    LineResult.refused DiagnosticCode.invalid_duration
      "MOVEJ TIMEOUT requires a non-negative integer number of milliseconds"

unfoldable pub timeout_of : Command → Option ℤ → LineResult
unfolding timeout_refused
timeout_of command none = timeout_refused
timeout_of command (some t) = LineResult.accepted (record command { timeout_ms = some t })

-- `tokens[at] != "TIMEOUT" || !ParseMilliseconds(tokens[at + 1], ...)`.
unfoldable pub with_timeout : List String → ℕ → Command → LineResult
unfolding timeout_of timeout_refused
with_timeout tokens at command =
    if not (str_eq (token_at tokens at) "TIMEOUT")
    then timeout_refused
    else timeout_of command (parse_milliseconds (token_at tokens (at + 1)))

unfoldable pub named_command : ℕ → List String → ℤ → Command
named_command n tokens speed =
    let base = make_command CommandType.movej n in
    record base {
      point_reference = token_at tokens 1;
      movej = record base.movej { speed_percent = speed };
    }

unfoldable pub speed_of : ℕ → List String → Option ℤ → LineResult
speed_of n tokens none =
    LineResult.refused DiagnosticCode.invalid_speed "SPEED value must be an integer from 1 to 100"
speed_of n tokens (some speed) =
    if length tokens == 6
    then with_timeout tokens 4 (named_command n tokens speed)
    else LineResult.accepted (named_command n tokens speed)

-- `MOVEJ <POINT> SPEED <n>`, with or without a timeout.
unfoldable pub parse_named : ℕ → List String → LineResult
unfolding speed_of
parse_named n tokens =
    if ltb 64 (count (token_at tokens 1))
    then LineResult.refused DiagnosticCode.invalid_point_name
        "point reference exceeds 64 characters"
    else if not (is_valid_point_name (token_at tokens 1))
    then LineResult.refused DiagnosticCode.invalid_point_name
        "point reference must be an uppercase identifier"
    else speed_of n tokens (parse_int (token_at tokens 3))

-- `targets[index] = value`.
unfoldable pub set_target : ℕ → Double → JointPositions → JointPositions
set_target zero d p = record p { j1 = d }
set_target (suc zero) d p = record p { j2 = d }
set_target (suc (suc zero)) d p = record p { j3 = d }
set_target (suc (suc (suc zero))) d p = record p { j4 = d }
set_target (suc (suc (suc (suc zero)))) d p = record p { j5 = d }
set_target _ d p = record p { j6 = d }

-- The loop over the targets: all of them, or the index of the first that is no number.
pub data TargetsRead : Type 0 where
  targets : JointPositions → TargetsRead
  not_a_number : ℕ → TargetsRead

unfoldable pub read_targets :
    (String → Strtod) → List String → (rounds index : ℕ) → JointPositions → TargetsRead
read_targets strtod tokens zero index done = TargetsRead.targets done
read_targets strtod tokens (suc rounds) index done =
    elim (parse_double strtod (token_at tokens (index + 1))) [
      | none ↦ TargetsRead.not_a_number index
      | some d ↦ read_targets strtod tokens rounds (index + 1) (set_target index d done)
    ]

unfoldable pub joint_command : ℕ → JointPositions → Command
joint_command n done =
    let base = make_command CommandType.movej n in
    record base { movej = record base.movej { targets = done } }

unfoldable pub joints_of : ℕ → List String → TargetsRead → LineResult
joints_of n tokens (TargetsRead.not_a_number index) =
    LineResult.refused DiagnosticCode.task_syntax
      (text_append "MOVEJ target " (text_append (decimal (index + 1)) " is not a number"))
joints_of n tokens (TargetsRead.targets done) =
    if length tokens == 9
    then with_timeout tokens 7 (joint_command n done)
    else LineResult.accepted (joint_command n done)

unfoldable pub parse_joints : (String → Strtod) → ℕ → List String → LineResult
unfolding joints_of
parse_joints strtod n tokens =
    if looks_like_point_reference tokens
    then LineResult.refused DiagnosticCode.invalid_speed "named MOVEJ requires SPEED <1-100>"
    else if ltb (length tokens) 7
    then LineResult.refused DiagnosticCode.task_syntax
        "MOVEJ requires 6 joint targets or <POINT> SPEED <1-100>"
    else if not (length tokens == 7) && not (length tokens == 9)
    then LineResult.refused DiagnosticCode.task_syntax
        "MOVEJ requires exactly 6 joint targets in radians"
    else joints_of n tokens (read_targets strtod tokens 6 0 no_positions)

unfoldable pub parse_movej : (String → Strtod) → ℕ → List String → LineResult
parse_movej strtod n tokens =
    if (length tokens == 4 || length tokens == 6) && str_eq (token_at tokens 2) "SPEED"
    then parse_named n tokens
    else parse_joints strtod n tokens
