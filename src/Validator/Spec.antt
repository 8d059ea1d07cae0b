-- ===== src/Validator/Spec.antt =====
-- What a program has to be, said without the validator: a path of the servo's states from off to a
-- STOP that ends the program, of commands whose arguments the configurations know.
use roborun.Prelude.{ℕ, pos, ◌+◌, ◌≡◌, ◌≢◌, lebℤ, true, false, List, [], ◌∷◌, some, lookup}
use roborun.Types.{
  CommandType, ValidatorServoState, SignalDirection, Command, Double, JointPositions, Point,
  DigitalSignal, ToolState, RobotConfiguration, PointCatalog, IoConfiguration, ToolConfiguration,
  joint_list,
}
use roborun.Validator.{Context, limit_of}

-- The commands that need an enabled servo and leave it enabled.
pub data Work : CommandType → Type 0 where
  movej : Work CommandType.movej
  delay : Work CommandType.delay
  set_do : Work CommandType.set_do
  wait_di : Work CommandType.wait_di
  set_tool : Work CommandType.set_tool

-- The programs that may follow in a servo state.
pub data Runs : ValidatorServoState → List Command → Type 0 where
  done : Runs ValidatorServoState.stopped []
  turn_on :
      {c : Command} {cs : List Command}
      → c.type ≡ CommandType.servo_on
      → Runs ValidatorServoState.ready cs
      → Runs ValidatorServoState.servo_off (c ∷ cs)
  turn_off :
      {c : Command} {cs : List Command}
      → c.type ≡ CommandType.servo_off
      → Runs ValidatorServoState.servo_off cs
      → Runs ValidatorServoState.ready (c ∷ cs)
  work :
      {c : Command} {cs : List Command}
      → Work c.type
      → Runs ValidatorServoState.ready cs
      → Runs ValidatorServoState.ready (c ∷ cs)
  stop :
      {s : ValidatorServoState} {c : Command} {cs : List Command}
      → s ≢ ValidatorServoState.stopped
      → c.type ≡ CommandType.stop
      → Runs ValidatorServoState.stopped cs
      → Runs s (c ∷ cs)

-- A finite target between the limits of its joint.
pub record Within (ctx : Context) (index : ℕ) (target : Double) : Type 0 where
  pub finite : ctx.doubles.is_finite target ≡ true
  pub above : ctx.doubles.less target (limit_of ctx index).minimum ≡ false
  pub below : ctx.doubles.less (limit_of ctx index).maximum target ≡ false

abbrev pub AllWithin : Context → ℕ → List Double → Type 0
AllWithin ctx index [] = Unit
AllWithin ctx index (t ∷ ts) = Within ctx index t × AllWithin ctx (index + 1) ts

-- The positions that a MOVEJ goes to: its own, or those of the point that it names.
pub data Targets (ctx : Context) (c : Command) : JointPositions → Type 0 where
  own : c.point_reference ≡ "" → Targets ctx c c.movej.targets
  named :
      (robot : RobotConfiguration) (catalog : PointCatalog) (point : Point)
      → c.point_reference ≢ ""
      → ctx.robot_configuration ≡ some robot
      → ctx.point_catalog ≡ some catalog
      → lookup c.point_reference catalog.points ≡ some point
      → Targets ctx c point.joints

pub record MoveOk (ctx : Context) (c : Command) : Type 0 where
  pub speed :
      (lebℤ (pos 1) c.movej.speed_percent ≡ true) × (lebℤ c.movej.speed_percent (pos 100) ≡ true)
  pub joints : JointPositions
  pub targets : Targets ctx c joints
  pub within : AllWithin ctx 0 (joint_list joints)

pub record SignalOk (ctx : Context) (c : Command) (direction : SignalDirection) : Type 0 where
  pub io : IoConfiguration
  pub signal : DigitalSignal
  pub configured : ctx.io_configuration ≡ some io
  pub known : lookup c.signal_name io.signals ≡ some signal
  pub directed : signal.direction ≡ direction

pub record ToolOk (ctx : Context) (c : Command) : Type 0 where
  pub tools : ToolConfiguration
  pub tool : ToolState
  pub configured : ctx.tool_configuration ≡ some tools
  pub known : lookup c.tool_name tools.tools ≡ some tool

-- What a command asks of the configurations, by its type.
abbrev pub ArgumentsOk : Context → CommandType → Command → Type 0
ArgumentsOk ctx CommandType.movej c = MoveOk ctx c
ArgumentsOk ctx CommandType.set_do c = SignalOk ctx c SignalDirection.do_
ArgumentsOk ctx CommandType.wait_di c = SignalOk ctx c SignalDirection.di
ArgumentsOk ctx CommandType.set_tool c = ToolOk ctx c
ArgumentsOk ctx _ c = Unit

abbrev pub AllOk : Context → List Command → Type 0
AllOk ctx [] = Unit
AllOk ctx (c ∷ cs) = ArgumentsOk ctx c.type c × AllOk ctx cs
