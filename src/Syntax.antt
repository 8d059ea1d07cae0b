-- ===== src/Syntax.antt =====
-- The language of src/roborun/parser.cpp as a grammar: the statements of a program, the command that
-- each one means, and the words that spell it. Nothing here calls the parser of commands.
pub mod Complete
pub mod Sound
pub mod Moves
pub mod Language
pub mod Printing
pub mod RoundTrip
pub mod Accounting
use roborun.Prelude.{
  ℕ, ◌^◌, ◌<◌, ℤ, pos, Bool, true, false, String, Option, none, some, List, [], ◌∷◌, ◌≡◌,
}
use roborun.Types.{CommandType, ToolPosition, Command, JointPositions, default_command}
use roborun.Text.{Strtod, parse_double}
use roborun.Text.Numbers.{IsNumeral, value}
use roborun.Text.Integers.{Denotes}
use roborun.Config.{is_valid_point_name}
use roborun.Parser.{starts_alpha}

pub data Statement : Type 0 where
  servo_on servo_off stop : Statement
  delay : ℤ → Statement
  set_do : String → Bool → Statement
  wait_di : String → Bool → ℤ → Statement
  set_tool : String → ToolPosition → ℤ → Statement
  move_point : String → ℤ → Option ℤ → Statement
  move_joints : JointPositions → Option ℤ → Statement

module _ (line : ℕ) where
  abbrev command : CommandType → Command
  command type = record default_command { type = type; line = line }

  -- The command that a statement of that line means.
  abbrev pub meaning : Statement → Command
  meaning Statement.servo_on = command CommandType.servo_on
  meaning Statement.servo_off = command CommandType.servo_off
  meaning Statement.stop = command CommandType.stop
  meaning (Statement.delay d) = record (command CommandType.delay) { duration_ms = d }
  meaning (Statement.set_do name level) = record (command CommandType.set_do) {
    signal_name = name;
    signal_value = level;
  }
  meaning (Statement.wait_di name level d) = record (command CommandType.wait_di) {
    signal_name = name;
    signal_value = level;
    timeout_ms = some d;
  }
  meaning (Statement.set_tool name position d) = record (command CommandType.set_tool) {
    tool_name = name;
    tool_position = position;
    timeout_ms = some d;
  }
  meaning (Statement.move_point name speed timeout) = record (command CommandType.movej) {
    point_reference = name;
    movej = record default_command.movej { speed_percent = speed };
    timeout_ms = timeout;
  }
  meaning (Statement.move_joints joints timeout) = record (command CommandType.movej) {
    movej = record default_command.movej { targets = joints };
    timeout_ms = timeout;
  }

abbrev pub level_word : Bool → String
level_word true = "ON"
level_word false = "OFF"

abbrev pub position_word : ToolPosition → String
position_word ToolPosition.opened = "OPEN"
position_word ToolPosition.closed = "CLOSED"

-- A time: a numeral below 2 ^ 63.
abbrev pub IsTime : String → ℤ → Type 0
IsTime t d = IsNumeral t × (value 0 t < 2 ^ 63) × (d ≡ pos (value 0 t))

abbrev pub IsName : String → Type 0
IsName name = is_valid_point_name name ≡ true

-- The words behind a move: none, or TIMEOUT and a time.
abbrev pub SpellsTimeout : Option ℤ → List String → Type 0
SpellsTimeout none ts = ts ≡ []
SpellsTimeout (some d) ts = (t : String) × (ts ≡ "TIMEOUT" ∷ t ∷ []) × IsTime t d

-- The six words of a joint move; the first begins with no letter.
pub record SpellsJoints (strtod : String → Strtod) (p : JointPositions) (ts : List String)
    : Type 0 where
  pub t1 : String
  pub t2 : String
  pub t3 : String
  pub t4 : String
  pub t5 : String
  pub t6 : String
  pub rest : List String
  pub words : ts ≡ "MOVEJ" ∷ t1 ∷ t2 ∷ t3 ∷ t4 ∷ t5 ∷ t6 ∷ rest
  pub no_letter : starts_alpha t1 ≡ false
  pub d1 : parse_double strtod t1 ≡ some p.j1
  pub d2 : parse_double strtod t2 ≡ some p.j2
  pub d3 : parse_double strtod t3 ≡ some p.j3
  pub d4 : parse_double strtod t4 ≡ some p.j4
  pub d5 : parse_double strtod t5 ≡ some p.j5
  pub d6 : parse_double strtod t6 ≡ some p.j6

-- The words of a line that spell a statement.
abbrev pub Spells : (String → Strtod) → Statement → List String → Type 0
Spells strtod Statement.servo_on ts = ts ≡ "SERVO_ON" ∷ []
Spells strtod Statement.servo_off ts = ts ≡ "SERVO_OFF" ∷ []
Spells strtod Statement.stop ts = ts ≡ "STOP" ∷ []
Spells strtod (Statement.delay d) ts = (t : String) × (ts ≡ "DELAY" ∷ t ∷ []) × IsTime t d
Spells strtod (Statement.set_do name level) ts =
    (ts ≡ "SET_DO" ∷ name ∷ level_word level ∷ []) × IsName name
Spells strtod (Statement.wait_di name level d) ts =
    (t : String) × (ts ≡ "WAIT_DI" ∷ name ∷ level_word level ∷ "TIMEOUT" ∷ t ∷ [])
    × IsName name
    × IsTime t d
Spells strtod (Statement.set_tool name position d) ts =
    (t : String) × (ts ≡ "SET_TOOL" ∷ name ∷ position_word position ∷ "TIMEOUT" ∷ t ∷ [])
    × IsName name
    × IsTime t d
Spells strtod (Statement.move_point name speed timeout) ts =
    (t : String) × (rest : List String) × (ts ≡ "MOVEJ" ∷ name ∷ "SPEED" ∷ t ∷ rest)
    × IsName name
    × Denotes (2 ^ 31) t speed
    × SpellsTimeout timeout rest
Spells strtod (Statement.move_joints joints timeout) ts =
    (w : SpellsJoints strtod joints ts) × SpellsTimeout timeout w.rest
