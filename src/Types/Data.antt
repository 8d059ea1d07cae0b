-- ===== src/Types/Data.antt =====
-- The structs. A `double` is its 64-bit pattern, a number: the code under src/ only copies it, and
-- what it computes with one is a parameter where it stands. A `BusinessTime` is an integer.
use roborun.Prelude.{ℕ, ℤ, pos, Bool, false, String, Option, none, List, [], ◌∷◌, Dict}
use roborun.Types.Enums.{
  CommandType, SignalDirection, ToolType, ToolPosition, CommandExecutionStatus, DiagnosticCode,
  AlarmSeverity, AlarmRecoveryCondition, MotionSubmissionStatus, MotionStatus, StopSubmissionStatus,
  StopStatus, WorkcellCommandStatus, MotionPlanOutcome, StopPlanOutcome, ScenarioEventKind,
  ControlType,
}

abbrev pub BusinessTime : Type 0
BusinessTime = ℤ

abbrev pub Double : Type 0
Double = ℕ

pub record JointPositions : Type 0 where
  pub j1 : Double
  pub j2 : Double
  pub j3 : Double
  pub j4 : Double
  pub j5 : Double
  pub j6 : Double

-- `JointPositions{}`: the pattern of 0.0 is 0.
abbrev pub no_positions : JointPositions
no_positions = record { j1 = 0; j2 = 0; j3 = 0; j4 = 0; j5 = 0; j6 = 0 }

abbrev pub joint_list : JointPositions → List Double
joint_list p = p.j1 ∷ p.j2 ∷ p.j3 ∷ p.j4 ∷ p.j5 ∷ p.j6 ∷ []

pub record Diagnostic : Type 0 where
  pub code : DiagnosticCode
  pub source : String
  pub line : ℕ
  pub column : ℕ
  pub path : String
  pub message : String

pub record Alarm : Type 0 where
  pub code : DiagnosticCode
  pub severity : AlarmSeverity
  pub source : String
  pub reason : String
  pub details : String
  pub raised_business_time_ms : BusinessTime
  pub recoverable : Bool
  pub active : Bool
  pub recovery_conditions : List AlarmRecoveryCondition

pub record MoveJRequest : Type 0 where
  pub targets : JointPositions
  pub speed_percent : ℤ
  pub joint_speed_radians_per_second : Double
  pub point_name : String

pub record DigitalSignal : Type 0 where
  pub name : String
  pub direction : SignalDirection
  pub value : Bool
  pub last_update_ms : BusinessTime

pub record ToolState : Type 0 where
  pub name : String
  pub type : ToolType
  pub commanded : ToolPosition
  pub observed : ToolPosition
  pub last_feedback_ms : BusinessTime

pub record Command : Type 0 where
  pub type : CommandType
  pub line : ℕ
  pub column : ℕ
  pub movej : MoveJRequest
  pub point_reference : String
  pub duration_ms : BusinessTime
  pub timeout_ms : Option BusinessTime
  pub signal_name : String
  pub signal_value : Bool
  pub tool_name : String
  pub tool_position : ToolPosition

-- `Command{}`.
abbrev pub default_command : Command
default_command = record {
  type = CommandType.no_command;
  line = 0;
  column = 1;
  movej = record {
    targets = no_positions;
    speed_percent = pos 100;
    joint_speed_radians_per_second = 4607182418800017408;
    point_name = "";
  };
  point_reference = "";
  duration_ms = pos 0;
  timeout_ms = none;
  signal_name = "";
  signal_value = false;
  tool_name = "";
  tool_position = ToolPosition.opened;
}

pub record ActiveCommand : Type 0 where
  pub command_index : ℕ
  pub line : ℕ
  pub type : CommandType
  pub status : CommandExecutionStatus
  pub started_at_ms : BusinessTime
  pub deadline_ms : Option BusinessTime
  pub remaining_ms : BusinessTime
  pub generation : ℕ

pub record Program : Type 0 where
  pub source : String
  pub commands : List Command

-- `ParseResult` and `ValidationResult`.
pub record CheckedProgram : Type 0 where
  pub program : Program
  pub diagnostics : List Diagnostic

pub record JointLimit : Type 0 where
  pub minimum : Double
  pub maximum : Double

pub record RobotConfiguration : Type 0 where
  pub robot_id : String
  pub joints : List JointLimit
  pub reference_joint_speed : Double

pub record Point : Type 0 where
  pub joints : JointPositions
  pub joints_path : String

pub record PointCatalog : Type 0 where
  pub source : String
  pub robot_id : String
  pub points : Dict Point

pub record IoConfiguration : Type 0 where
  pub source : String
  pub signals : Dict DigitalSignal

pub record ToolConfiguration : Type 0 where
  pub source : String
  pub tools : Dict ToolState

pub record MotionSubmission : Type 0 where
  pub status : MotionSubmissionStatus
  pub message : String
  pub poll_after_ms : Option BusinessTime

pub record MotionSnapshot : Type 0 where
  pub status : MotionStatus
  pub positions : JointPositions
  pub backend_steps : ℤ
  pub message : String
  pub poll_after_ms : Option BusinessTime

pub record StopSubmission : Type 0 where
  pub status : StopSubmissionStatus
  pub message : String
  pub poll_after_ms : Option BusinessTime

pub record StopSnapshot : Type 0 where
  pub status : StopStatus
  pub positions : JointPositions
  pub backend_steps : ℤ
  pub message : String
  pub poll_after_ms : Option BusinessTime

pub record WorkcellCommandSubmission : Type 0 where
  pub status : WorkcellCommandStatus
  pub message : String
  pub poll_after_ms : Option BusinessTime

pub record WorkpieceSnapshot : Type 0 where
  pub present : Bool
  pub at_pick : Bool
  pub attached : Bool
  pub at_place : Bool
  pub attached_stable_samples : ℤ
  pub place_stable_samples : ℤ
  pub parent_alias : String
  pub world_pose : List Double

pub record WorkcellSnapshot : Type 0 where
  pub generation : ℕ
  pub valid : Bool
  pub scene_schema : String
  pub joint_positions : JointPositions
  pub signals : Dict DigitalSignal
  pub tools : Dict ToolState
  pub tool_openings : Dict Double
  pub tool_stable_samples : Dict ℤ
  pub required_stable_samples : ℤ
  pub workpiece : WorkpieceSnapshot
  pub grip_failed : Bool
  pub placement_failed : Bool
  pub collision : Bool
  pub collision_aliases : List String
  pub simulation_running : Bool
  pub message : String

pub record MotionPlan : Type 0 where
  pub movej_occurrence : ℕ
  pub outcome : MotionPlanOutcome
  pub delay_ms : BusinessTime

pub record StopPlan : Type 0 where
  pub stop_episode : ℕ
  pub outcome : StopPlanOutcome
  pub delay_ms : BusinessTime

pub record ScenarioEvent : Type 0 where
  pub time_ms : BusinessTime
  pub kind : ScenarioEventKind
  pub name : String
  pub value : Bool
  pub tool_position : ToolPosition

pub record ScenarioControl : Type 0 where
  pub time_ms : BusinessTime
  pub type : ControlType
  pub source : String

-- The plans are maps from an occurrence to its plan.
pub record MockScenario : Type 0 where
  pub source : String
  pub schema_version : ℤ
  pub motion_plans : List (ℕ × MotionPlan)
  pub stop_plans : List (ℕ × StopPlan)
  pub events : List ScenarioEvent
  pub controls : List ScenarioControl
