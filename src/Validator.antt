-- ===== src/Validator.antt =====
-- src/roborun/validator.cpp: ValidateProgram. A loop's pass over one command is a function from the
-- servo state before it to the servo state, the command and the diagnostics after it. What the code
-- does with doubles is a parameter, over their 64-bit patterns.
pub mod Spec
pub mod Pieces
pub mod Moves
pub mod Verdict
pub mod Resolution
use roborun.Prelude.{
  ℕ, ℤ, pos, ◌+◌, ltbℤ, Bool, true, false, not, ◌||◌, String, str_eq, text_append, decimal, List,
  [], ◌∷◌, ◌++◌, Option, none, some, get_elem?, lookup, value_or, if◌then◌else◌,
}
use roborun.Types.{
  CommandType, ValidatorServoState, SignalDirection, DiagnosticCode, Command, Diagnostic, Program,
  CheckedProgram, Double, JointLimit, JointPositions, RobotConfiguration, PointCatalog,
  IoConfiguration, ToolConfiguration, joint_list, is_direction,
}

-- The operations on doubles that the validation uses: std::isfinite, <, *, / and the conversion of
-- an int.
pub record Doubles : Type 0 where
  pub is_finite : Double → Bool
  pub less : Double → Double → Bool
  pub times : Double → Double → Double
  pub over : Double → Double → Double
  pub of_int : ℤ → Double

-- The arguments of ValidateProgram but for the commands (`none` for a null pointer).
pub record Context : Type 0 where
  pub doubles : Doubles
  pub source : String
  pub robot_configuration : Option RobotConfiguration
  pub point_catalog : Option PointCatalog
  pub io_configuration : Option IoConfiguration
  pub tool_configuration : Option ToolConfiguration

-- 1.0, 100.0 and kJointLimitRadians, 2 pi, with its negation.
abbrev pub one_double : Double
one_double = 4607182418800017408

abbrev pub hundred_double : Double
hundred_double = 4636737291354636288

abbrev pub joint_limit_radians : JointLimit
joint_limit_radians = record { minimum = 13842132293034192152; maximum = 4618760256179416344 }

unfoldable pub diagnostic : Context → ℕ → DiagnosticCode → String → List Diagnostic
diagnostic ctx line code message =
    record {
      code = code;
      source = ctx.source;
      line = line;
      column = 1;
      path = "";
      message = message;
    }
    ∷ []

-- The diagnostic of a condition that does not hold.
unfoldable pub unless : Bool → List Diagnostic → List Diagnostic
unless true ds = []
unless false ds = ds

abbrev pub is_ready : ValidatorServoState → Bool
is_ready ValidatorServoState.ready = true
is_ready _ = false

-- The limits of a joint. The array of a configuration has six; the default is never read.
unfoldable pub limit_of : Context → ℕ → JointLimit
limit_of ctx index = elim ctx.robot_configuration [
  | none ↦ joint_limit_radians
  | some robot ↦ value_or (get_elem? robot.joints index) joint_limit_radians
]

unfoldable pub check_joint : Context → ℕ → ℕ → Double → List Diagnostic
check_joint ctx line index target =
    let limit = limit_of ctx index in
    if not (ctx.doubles.is_finite target)
    then diagnostic ctx line DiagnosticCode.non_finite_joint
        (text_append "MOVEJ target " (text_append (decimal (index + 1)) " must be finite"))
    else if ctx.doubles.less target limit.minimum || ctx.doubles.less limit.maximum target
    then diagnostic ctx line DiagnosticCode.joint_limit_violation (
        text_append "MOVEJ target "
          (text_append (decimal (index + 1)) " is outside the configured joint limit"))
    else []

unfoldable pub check_joints : Context → ℕ → ℕ → List Double → List Diagnostic
check_joints ctx line index [] = []
check_joints ctx line index (t ∷ ts) =
    check_joint ctx line index t ++ check_joints ctx line (index + 1) ts

unfoldable pub reference_speed : Context → Double
reference_speed ctx = elim ctx.robot_configuration [
  | none ↦ one_double
  | some robot ↦ robot.reference_joint_speed
]

unfoldable pub joint_speed : Context → Command → Double
joint_speed ctx c =
    ctx.doubles.over
      (ctx.doubles.times (reference_speed ctx) (ctx.doubles.of_int c.movej.speed_percent))
      hundred_double

unfoldable pub with_speed : Context → Command → Command
with_speed ctx c = record c {
  movej = record (c.movej) { joint_speed_radians_per_second = joint_speed ctx c };
}

unfoldable pub with_point : JointPositions → Command → Command
with_point joints c = record c {
  movej = record (c.movej) { targets = joints; point_name = c.point_reference };
}

-- The targets that a MOVEJ's reference names, or what is missing.
unfoldable pub resolve : Context → Command → Option JointPositions × List Diagnostic
resolve ctx c = elim ctx.robot_configuration [
  | none ↦ (
    none,
    diagnostic ctx c.line DiagnosticCode.invalid_configuration
        "named MOVEJ requires a robot configuration",
  )
  | some _ ↦ elim ctx.point_catalog [
    | none ↦ (
      none,
      diagnostic ctx c.line DiagnosticCode.invalid_configuration
          "named MOVEJ requires a point catalog",
    )
    | some catalog ↦ elim (lookup c.point_reference catalog.points) [
      | none ↦ (
        none,
        diagnostic ctx c.line DiagnosticCode.unknown_point
            (text_append "unknown point: " c.point_reference),
      )
      | some point ↦ (some point.joints, [])
    ]
  ]
]

unfoldable pub bounded : Context → Command → Command × List Diagnostic
bounded ctx c = (c, check_joints ctx c.line 0 (joint_list c.movej.targets))

unfoldable pub resolved :
    Context → Command → Option JointPositions × List Diagnostic → Command × List Diagnostic
resolved ctx c (none, ds) = (c, ds)
resolved ctx c (some joints, ds) = bounded ctx (with_point joints c)

unfoldable pub speed_in_range : Command → Bool
speed_in_range c = not (ltbℤ c.movej.speed_percent (pos 1) || ltbℤ (pos 100) c.movej.speed_percent)

-- The MOVEJ case behind its test of the servo state, without the diagnostic of the speed.
unfoldable pub check_targets : Context → Command → Command × List Diagnostic
check_targets ctx c =
    if str_eq c.point_reference ""
    then bounded ctx (with_speed ctx c)
    else resolved ctx (with_speed ctx c) (resolve ctx (with_speed ctx c))

unfoldable pub check_signal :
    Context → Command → SignalDirection → String → String → List Diagnostic
check_signal ctx c direction no_configuration wrong_direction = elim ctx.io_configuration [
  | none ↦ diagnostic ctx c.line DiagnosticCode.invalid_configuration no_configuration
  | some io ↦ elim (lookup c.signal_name io.signals) [
    | none ↦
        diagnostic ctx c.line DiagnosticCode.unknown_signal
          (text_append "unknown signal: " c.signal_name)
    | some signal ↦ unless (is_direction signal.direction direction) (
        diagnostic ctx c.line DiagnosticCode.signal_direction_mismatch
          (text_append wrong_direction c.signal_name))
  ]
]

unfoldable pub check_tool : Context → Command → List Diagnostic
check_tool ctx c = elim ctx.tool_configuration [
  | none ↦
      diagnostic ctx c.line DiagnosticCode.invalid_configuration
        "SET_TOOL requires a tool configuration"
  | some tools ↦ elim (lookup c.tool_name tools.tools) [
    | none ↦
        diagnostic ctx c.line DiagnosticCode.unknown_tool (text_append "unknown tool: " c.tool_name)
    | some _ ↦ []
  ]
]

-- A pass of the loop: the servo state, the command as it is kept, and the diagnostics.
pub record Pass : Type 0 where
  pub state : ValidatorServoState
  pub command : Command
  pub diagnostics : List Diagnostic

abbrev pub pass : ValidatorServoState → Command → List Diagnostic → Pass
pass state c ds = record { state = state; command = c; diagnostics = ds }

unfoldable pub bad_state : Context → Command → String → List Diagnostic
bad_state ctx c message = diagnostic ctx c.line DiagnosticCode.invalid_runtime_state message

unfoldable pub check_movej : Context → Command → Pass
check_movej ctx c = pass ValidatorServoState.ready (check_targets ctx c).0 (
    unless (speed_in_range c)
      (diagnostic ctx c.line DiagnosticCode.invalid_speed "SPEED must be in the range 1 to 100")
    ++ (check_targets ctx c).1)

-- The switch of the loop.
unfoldable pub check_command : Context → ValidatorServoState → CommandType → Command → Pass
check_command ctx ValidatorServoState.servo_off CommandType.servo_on c =
    pass ValidatorServoState.ready c []
check_command ctx s CommandType.servo_on c =
    pass s c (bad_state ctx c "SERVO_ON requires servo_off state")
check_command ctx ValidatorServoState.ready CommandType.servo_off c =
    pass ValidatorServoState.servo_off c []
check_command ctx s CommandType.servo_off c =
    pass s c (bad_state ctx c "SERVO_OFF requires ready state")
check_command ctx ValidatorServoState.ready CommandType.movej c = check_movej ctx c
check_command ctx s CommandType.movej c =
    pass s c (bad_state ctx c "MOVEJ requires a preceding SERVO_ON command")
check_command ctx s CommandType.delay c =
    pass s c (unless (is_ready s) (bad_state ctx c "DELAY requires a ready servo state"))
check_command ctx s CommandType.set_do c = pass s c (
    unless (is_ready s) (bad_state ctx c "SET_DO requires a ready servo state")
    ++ check_signal ctx c SignalDirection.do_ "SET_DO requires an I/O configuration"
        "SET_DO requires a DO signal: ")
check_command ctx s CommandType.wait_di c = pass s c (
    unless (is_ready s) (bad_state ctx c "WAIT_DI requires a ready servo state")
    ++ check_signal ctx c SignalDirection.di "WAIT_DI requires an I/O configuration"
        "WAIT_DI requires a DI signal: ")
check_command ctx s CommandType.set_tool c = pass s c (
    unless (is_ready s) (bad_state ctx c "SET_TOOL requires a ready servo state")
    ++ check_tool ctx c)
check_command ctx ValidatorServoState.stopped CommandType.stop c =
    pass ValidatorServoState.stopped c (bad_state ctx c "STOP requires ready or servo_off state")
check_command ctx s CommandType.stop c = pass ValidatorServoState.stopped c []
check_command ctx s CommandType.no_command c =
    pass s c (diagnostic ctx c.line DiagnosticCode.task_syntax "command type is missing")

-- Behind a STOP no command is looked at.
unfoldable pub check_next : Context → ValidatorServoState → Command → Pass
check_next ctx ValidatorServoState.stopped c =
    pass ValidatorServoState.stopped c (bad_state ctx c "command appears after STOP")
check_next ctx s c = check_command ctx s c.type c

unfoldable pub must_stop : Context → ValidatorServoState → List Diagnostic
must_stop ctx ValidatorServoState.stopped = []
must_stop ctx _ = diagnostic ctx 0 DiagnosticCode.invalid_runtime_state "program must end with STOP"

-- The loop, and the test behind it.
unfoldable pub check_commands :
    Context → ValidatorServoState → List Command → List Command × List Diagnostic
check_commands ctx s [] = ([], must_stop ctx s)
check_commands ctx s (c ∷ cs) =
    let p = check_next ctx s c in
    let rest = check_commands ctx p.state cs in (p.command ∷ rest.0, p.diagnostics ++ rest.1)

unfoldable pub validate_program : Context → List Command → CheckedProgram
validate_program ctx [] = record {
  program = record { source = ctx.source; commands = [] };
  diagnostics = diagnostic ctx 0 DiagnosticCode.task_syntax "program does not contain any commands";
}
validate_program ctx (c ∷ cs) =
    let checked = check_commands ctx ValidatorServoState.servo_off (c ∷ cs) in
    record {
      program = record { source = ctx.source; commands = checked.0 };
      diagnostics = checked.1;
    }
