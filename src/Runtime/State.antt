-- ===== src/Runtime/State.antt =====
-- The state of a RuntimeExecution (runtime.h), and its calls of the robot and workcell backends.
-- A backend is what it answers to each call after the calls made so far, newest first: that is
-- every deterministic object behind the interfaces RobotBackend and WorkcellBackend. The calls are
-- kept in the session, which makes what the runtime asks of the devices part of its behaviour.
use roborun.Prelude.{
  ℕ, ℤ, pos, Bool, true, String, List, ◌∷◌, Option, none, some, Action, ok, threw, Dict,
}
use roborun.Types.{
  BusinessTime, CommandType, RuntimeState, LifecycleState, ControlType, ControlSubmissionStatus,
  ExecutionOutcome, ToolPosition, CommandExecutionStatus, BackendState, BackendOperationState,
  StopReason, StopStatus, StopDisposition, JointPositions, Double, Diagnostic, Alarm, MoveJRequest,
  DigitalSignal, ToolState, ActiveCommand, Program, RobotConfiguration, PointCatalog,
  IoConfiguration, ToolConfiguration, MockScenario, MotionSubmission, MotionSnapshot,
  StopSubmission, StopSnapshot, WorkcellCommandSubmission, WorkcellSnapshot,
}
use roborun.Clock.{Clock}
use roborun.EventQueue.{EventQueue, RuntimeEvent}

pub data DeviceCall : Type 0 where
  begin_program connect disconnect poll_motion poll_stop : DeviceCall
  set_servo_enabled : Bool → DeviceCall
  submit_movej resume_movej : MoveJRequest → DeviceCall
  submit_stop : StopReason → DeviceCall
  submit_tool_command : String → ToolPosition → DeviceCall
  set_digital_output : String → Bool → DeviceCall
  request_safe_state : StopReason → DeviceCall
  poll_workcell poll_safe_state : DeviceCall

pub data Reply (A : Type 0) : Type 0 where
  returns : A → Reply A
  throws : String → Reply A

-- What each method answers, given all calls up to and with this one.
pub record Devices : Type 0 where
  pub name : String
  pub version : String
  pub connect : List DeviceCall → Reply (Unit {0})
  pub set_servo_enabled : List DeviceCall → Reply (Unit {0})
  pub submit_movej : List DeviceCall → Reply MotionSubmission
  pub resume_movej : List DeviceCall → Reply MotionSubmission
  pub poll_motion : List DeviceCall → Reply MotionSnapshot
  pub submit_stop : List DeviceCall → Reply StopSubmission
  pub poll_stop : List DeviceCall → Reply StopSnapshot
  pub disconnect : List DeviceCall → Reply (Unit {0})
  pub submit_tool_command : List DeviceCall → Reply WorkcellCommandSubmission
  pub set_digital_output : List DeviceCall → Reply WorkcellCommandSubmission
  pub poll_workcell : List DeviceCall → Reply WorkcellSnapshot
  pub request_safe_state : List DeviceCall → Reply WorkcellCommandSubmission
  pub poll_safe_state : List DeviceCall → Reply WorkcellCommandSubmission

pub record RuntimeOptions : Type 0 where
  pub move_timeout_ms : BusinessTime
  pub tool_timeout_ms : BusinessTime
  pub grip_timeout_ms : BusinessTime
  pub workcell_output_timeout_ms : BusinessTime
  pub workcell_safe_state_timeout_ms : BusinessTime
  pub stop_confirmation_timeout_ms : BusinessTime
  pub default_stop_poll_ms : BusinessTime
  pub disconnect_on_terminal : Bool

abbrev pub default_options : RuntimeOptions
default_options = record {
  move_timeout_ms = pos 30000;
  tool_timeout_ms = pos 500;
  grip_timeout_ms = pos 500;
  workcell_output_timeout_ms = pos 1000;
  workcell_safe_state_timeout_ms = pos 500;
  stop_confirmation_timeout_ms = pos 2000;
  default_stop_poll_ms = pos 10;
  disconnect_on_terminal = true;
}

-- What the constructor is given: the pointers (`none`, or a `has_` field that is false, for null).
pub record Setup : Type 0 where
  pub has_backend : Bool
  pub has_workcell : Bool
  pub devices : Devices
  pub robot_configuration : Option RobotConfiguration
  pub point_catalog : Option PointCatalog
  pub io_configuration : Option IoConfiguration
  pub tool_configuration : Option ToolConfiguration
  pub scenario : Option MockScenario
  pub options : RuntimeOptions

pub record TraceEntry : Type 0 where
  pub business_time_ms : BusinessTime
  pub command_index : ℕ
  pub line : ℕ
  pub command : CommandType
  pub state_before : RuntimeState
  pub state_during : RuntimeState
  pub state_after : RuntimeState
  pub lifecycle_before : LifecycleState
  pub lifecycle_during : LifecycleState
  pub lifecycle_after : LifecycleState
  pub command_status : CommandExecutionStatus
  pub control_type : ControlType
  pub control_status : ControlSubmissionStatus
  pub control_request_id : ℕ
  pub control_source : String
  pub stop_reason : StopReason
  pub stop_status : StopStatus
  pub outcome : ExecutionOutcome
  pub event_cause : String
  pub point_name : String
  pub signal_name : String
  pub tool_name : String
  pub expected_value : Bool
  pub observed_value : Bool
  pub deadline_ms : BusinessTime
  pub commanded_tool_position : ToolPosition
  pub observed_tool_position : ToolPosition
  pub speed_percent : ℤ
  pub backend_steps : ℤ
  pub workcell_generation : ℕ
  pub targets : JointPositions
  pub actual_positions : JointPositions

pub record WorkcellEvidence : Type 0 where
  pub generation : ℕ
  pub scene_schema : String
  pub joint_positions : JointPositions
  pub signals : Dict DigitalSignal
  pub tools : Dict ToolState
  pub tool_openings : Dict Double
  pub workpiece_present : Bool
  pub workpiece_attached : Bool
  pub workpiece_at_place : Bool
  pub workpiece_pose : List Double
  pub collision : Bool
  pub collision_aliases : List String
  pub simulation_running : Bool

-- Without `started_at` and `finished_at`, texts of the wall clock that nothing reads.
pub record ExecutionResult : Type 0 where
  pub succeeded : Bool
  pub outcome : ExecutionOutcome
  pub final_state : RuntimeState
  pub lifecycle_state : LifecycleState
  pub backend_state : BackendState
  pub backend_operation_state : BackendOperationState
  pub task_source : String
  pub backend_name : String
  pub backend_version : String
  pub finished_business_time_ms : BusinessTime
  pub signals : Dict DigitalSignal
  pub tools : Dict ToolState
  pub workcell : Option WorkcellEvidence
  pub workcell_safe_confirmed : Bool
  pub trace : List TraceEntry
  pub diagnostics : List Diagnostic
  pub alarms : List Alarm
  pub primary_alarm_index : Option ℕ

pub record StopEpisode : Type 0 where
  pub id : ℕ
  pub reason : StopReason
  pub disposition : StopDisposition
  pub deadline_ms : BusinessTime
  pub control_event : Option RuntimeEvent

pub record Session : Type 0 where
  pub setup : Setup
  pub clock : Option Clock
  pub calls : List DeviceCall
  pub program : Program
  pub events : EventQueue
  pub result : ExecutionResult
  pub alarm_history : List Alarm
  pub state : RuntimeState
  pub lifecycle_state : LifecycleState
  pub backend_state : BackendState
  pub backend_operation_state : BackendOperationState
  pub latest_positions : JointPositions
  pub signals : Dict DigitalSignal
  pub tools : Dict ToolState
  pub next_command_index : ℕ
  pub active_command : Option ActiveCommand
  pub stop_episode : Option StopEpisode
  pub connected : Bool
  pub servo_disabled : Bool
  pub task_terminal : Bool
  pub session_untrusted : Bool
  pub workcell_safe_requested : Bool
  pub workcell_safe_confirmed : Bool
  pub workcell_safe_deadline_ms : Option BusinessTime
  pub last_workcell_generation : Option ℕ
  pub workcell_safe_generation : Option ℕ
  pub next_control_request_id : ℕ
  pub next_stop_episode_id : ℕ

abbrev pub M : Type 0 → Type 0
M A = Action Session A

-- `clock_ == nullptr ? 0 : clock_->Now()`. No event and no program is accepted without a clock, so
-- the source's other reads of `clock_->Now()` find one.
abbrev pub now : Session → BusinessTime
now s = elim s.clock [ none ↦ pos 0 | some c ↦ c.now ]

-- The answer to a call, once the call is in the record.
unfoldable pub answer : {A : Type 0} → Reply A → M A
answer (returns a) s = ok a s
answer (throws e) s = threw e s

-- A call of a backend's method: recorded, then answered by the method's field of `Devices`.
unfoldable pub invoke : {A : Type 0} → DeviceCall → (Devices → List DeviceCall → Reply A) → M A
unfolding answer
invoke call method s =
    answer (method s.setup.devices (call ∷ s.calls)) (record s { calls = call ∷ s.calls })
