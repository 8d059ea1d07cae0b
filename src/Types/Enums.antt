-- ===== src/Types/Enums.antt =====
-- The enumerations of types.h, robot_backend.h, workcell_backend.h, event_queue.h, scenario.h and
-- runtime.h, with the underlying value of those that the source compares or prints as numbers.
use Prim.Native.Nat.{ℕ}
use mathlib.Core.Bool.{Bool}
use roborun.Prelude.{◌==◌}

pub data CommandType : Type 0 where
  servo_on servo_off movej delay set_do wait_di set_tool stop no_command : CommandType

pub data RuntimeState : Type 0 where
  servo_off ready running stopped faulted : RuntimeState

pub data ValidatorServoState : Type 0 where
  servo_off ready stopped : ValidatorServoState

pub data LifecycleState : Type 0 where
  idle running waiting pausing paused : LifecycleState
  stopping stopped emergency_stopping emergency_stopped faulted : LifecycleState

pub data ControlType : Type 0 where
  no_control pause resume stop estop reset : ControlType

pub data ControlSubmissionStatus : Type 0 where
  unset queued accepted ignored rejected : ControlSubmissionStatus

pub data ExecutionOutcome : Type 0 where
  no_outcome program_completed operator_stopped emergency_stopped faulted : ExecutionOutcome

pub data ProgramSubmissionStatus : Type 0 where
  accepted rejected : ProgramSubmissionStatus

pub data SignalDirection : Type 0 where
  di do_ : SignalDirection

pub data ToolType : Type 0 where
  gripper : ToolType

pub data ToolPosition : Type 0 where
  opened closed : ToolPosition

pub data CommandExecutionStatus : Type 0 where
  pending accepted running pausing paused : CommandExecutionStatus
  cancelling cancelled succeeded timed_out failed : CommandExecutionStatus

pub data BackendState : Type 0 where
  disconnected connected faulted : BackendState

pub data BackendOperationState : Type 0 where
  idle active stopping stopped : BackendOperationState

pub data StopReason : Type 0 where
  program_complete pause operator_stop emergency timeout fault_cleanup : StopReason

pub data StopStatus : Type 0 where
  stopping stopped failed : StopStatus

pub data AlarmSeverity : Type 0 where
  fault emergency : AlarmSeverity

pub data AlarmRecoveryCondition : Type 0 where
  no_active_command backend_stopped servo_disabled new_backend_session : AlarmRecoveryCondition

pub data DiagnosticCode : Type 0 where
  config_io json_syntax schema_mismatch invalid_configuration robot_mismatch : DiagnosticCode
  duplicate_point invalid_point_name invalid_joint_count non_finite_joint : DiagnosticCode
  joint_limit_violation unknown_point invalid_speed invalid_runtime_state : DiagnosticCode
  task_syntax invalid_duration unknown_signal signal_direction_mismatch : DiagnosticCode
  duplicate_signal invalid_signal_configuration unknown_tool : DiagnosticCode
  invalid_tool_configuration invalid_tool_state invalid_scenario motion_rejected : DiagnosticCode
  motion_timeout di_timeout tool_timeout backend_failure : DiagnosticCode
  backend_connection_loss stop_rejected stop_confirmation_timeout : DiagnosticCode
  stop_polling_failure servo_disable_failure disconnect_failure : DiagnosticCode
  emergency_stopped invalid_workcell_configuration duplicate_workcell_alias : DiagnosticCode
  workcell_schema_mismatch workcell_snapshot_failure grip_failure : DiagnosticCode
  placement_failure collision_detected : DiagnosticCode

pub data MotionSubmissionStatus : Type 0 where
  accepted rejected : MotionSubmissionStatus

pub data MotionStatus : Type 0 where
  running succeeded failed : MotionStatus

pub data StopSubmissionStatus : Type 0 where
  accepted rejected : StopSubmissionStatus

pub data WorkcellCommandStatus : Type 0 where
  accepted rejected : WorkcellCommandStatus

pub data RuntimeEventPriority : Type 0 where
  emergency_control stop_control lifecycle_control : RuntimeEventPriority
  external_feedback command_completion timeout : RuntimeEventPriority

pub data RuntimeEventType : Type 0 where
  motion_poll delay_complete digital_input tool_feedback : RuntimeEventType
  backend_fault control stop_poll : RuntimeEventType

pub data MotionPlanOutcome : Type 0 where
  immediate_success delayed_success rejected frozen : MotionPlanOutcome

pub data StopPlanOutcome : Type 0 where
  immediate_confirmation delayed_confirmation rejected never_confirmed failed : StopPlanOutcome

pub data ScenarioEventKind : Type 0 where
  di_change tool_feedback connection_loss : ScenarioEventKind

pub data StopDisposition : Type 0 where
  pause program_complete operator_stop emergency fault : StopDisposition

pub data ExecutionAdvanceResult : Type 0 where
  idle progressed terminal : ExecutionAdvanceResult

-- `==` on enumerations compares the underlying values.
abbrev pub command_value : CommandType → ℕ
command_value CommandType.servo_on = 0
command_value CommandType.servo_off = 1
command_value CommandType.movej = 2
command_value CommandType.delay = 3
command_value CommandType.set_do = 4
command_value CommandType.wait_di = 5
command_value CommandType.set_tool = 6
command_value CommandType.stop = 7
command_value CommandType.no_command = 8

abbrev pub lifecycle_value : LifecycleState → ℕ
lifecycle_value LifecycleState.idle = 0
lifecycle_value LifecycleState.running = 1
lifecycle_value LifecycleState.waiting = 2
lifecycle_value LifecycleState.pausing = 3
lifecycle_value LifecycleState.paused = 4
lifecycle_value LifecycleState.stopping = 5
lifecycle_value LifecycleState.stopped = 6
lifecycle_value LifecycleState.emergency_stopping = 7
lifecycle_value LifecycleState.emergency_stopped = 8
lifecycle_value LifecycleState.faulted = 9

abbrev pub priority_value : RuntimeEventPriority → ℕ
priority_value RuntimeEventPriority.emergency_control = 0
priority_value RuntimeEventPriority.stop_control = 1
priority_value RuntimeEventPriority.lifecycle_control = 2
priority_value RuntimeEventPriority.external_feedback = 3
priority_value RuntimeEventPriority.command_completion = 4
priority_value RuntimeEventPriority.timeout = 5

abbrev pub is_command : CommandType → CommandType → Bool
is_command a b = command_value a == command_value b

abbrev pub is_lifecycle : LifecycleState → LifecycleState → Bool
is_lifecycle a b = lifecycle_value a == lifecycle_value b

abbrev pub is_position : ToolPosition → ToolPosition → Bool
is_position ToolPosition.opened ToolPosition.opened = Bool.true
is_position ToolPosition.closed ToolPosition.closed = Bool.true
is_position _ _ = Bool.false

abbrev pub is_direction : SignalDirection → SignalDirection → Bool
is_direction SignalDirection.di SignalDirection.di = Bool.true
is_direction SignalDirection.do_ SignalDirection.do_ = Bool.true
is_direction _ _ = Bool.false

abbrev pub same_bool : Bool → Bool → Bool
same_bool Bool.true Bool.true = Bool.true
same_bool Bool.false Bool.false = Bool.true
same_bool _ _ = Bool.false
