-- ===== src/Types/Names/Distinct.antt =====
-- About the printed names of types.cpp, as a consumer of the printed records reads them back.
use roborun.Prelude.{◌≡◌, refl, List, [], ◌∷◌, Option, none, some, String, str_eq, if◌then◌else◌}
use roborun.Types.Enums.{
  CommandType, SignalDirection, ToolType, ToolPosition, RuntimeState, ValidatorServoState,
  LifecycleState, ControlType, ControlSubmissionStatus, ExecutionOutcome, ProgramSubmissionStatus,
  CommandExecutionStatus, BackendState, BackendOperationState, StopReason, StopStatus,
  AlarmSeverity, AlarmRecoveryCondition, DiagnosticCode,
}
use roborun.Types.Names.{
  command_type_to_string, signal_direction_to_string, tool_type_to_string, tool_position_to_string,
  runtime_state_to_string, validator_servo_state_to_string, lifecycle_state_to_string,
  control_type_to_string, control_submission_status_to_string, execution_outcome_to_string,
  program_submission_status_to_string, command_execution_status_to_string, backend_state_to_string,
  backend_operation_state_to_string, stop_reason_to_string, stop_status_to_string,
  alarm_severity_to_string, alarm_recovery_condition_to_string, diagnostic_code_to_string,
}

-- The first of the enumerators that prints as the text.
abbrev pub read_name : {A : Type 0} → (A → String) → List A → String → Option A
read_name print [] s = none
read_name print (a ∷ as') s = if str_eq (print a) s then some a else read_name print as' s

abbrev pub command_type_all : List CommandType
command_type_all =
    CommandType.servo_on ∷ CommandType.servo_off ∷ CommandType.movej ∷ CommandType.delay
    ∷ CommandType.set_do ∷ CommandType.wait_di ∷ CommandType.set_tool ∷ CommandType.stop
    ∷ CommandType.no_command ∷ []

command_type_read :
    (a : CommandType)
    → read_name command_type_to_string command_type_all (command_type_to_string a) ≡ some a
unfolding command_type_to_string
command_type_read CommandType.servo_on = refl
command_type_read _ = refl

abbrev pub signal_direction_all : List SignalDirection
signal_direction_all = SignalDirection.di ∷ SignalDirection.do_ ∷ []

signal_direction_read :
    (a : SignalDirection)
    → read_name signal_direction_to_string signal_direction_all (signal_direction_to_string a)
      ≡ some a
unfolding signal_direction_to_string
signal_direction_read SignalDirection.di = refl
signal_direction_read _ = refl

abbrev pub tool_type_all : List ToolType
tool_type_all = ToolType.gripper ∷ []

tool_type_read :
    (a : ToolType) → read_name tool_type_to_string tool_type_all (tool_type_to_string a) ≡ some a
unfolding tool_type_to_string
tool_type_read ToolType.gripper = refl

abbrev pub tool_position_all : List ToolPosition
tool_position_all = ToolPosition.opened ∷ ToolPosition.closed ∷ []

tool_position_read :
    (a : ToolPosition)
    → read_name tool_position_to_string tool_position_all (tool_position_to_string a) ≡ some a
unfolding tool_position_to_string
tool_position_read ToolPosition.opened = refl
tool_position_read _ = refl

abbrev pub runtime_state_all : List RuntimeState
runtime_state_all =
    RuntimeState.servo_off ∷ RuntimeState.ready ∷ RuntimeState.running ∷ RuntimeState.stopped
    ∷ RuntimeState.faulted ∷ []

runtime_state_read :
    (a : RuntimeState)
    → read_name runtime_state_to_string runtime_state_all (runtime_state_to_string a) ≡ some a
unfolding runtime_state_to_string
runtime_state_read RuntimeState.servo_off = refl
runtime_state_read _ = refl

abbrev pub validator_servo_state_all : List ValidatorServoState
validator_servo_state_all =
    ValidatorServoState.servo_off ∷ ValidatorServoState.ready ∷ ValidatorServoState.stopped ∷ []

validator_servo_state_read :
    (a : ValidatorServoState)
    → read_name validator_servo_state_to_string validator_servo_state_all
        (validator_servo_state_to_string a)
      ≡ some a
unfolding validator_servo_state_to_string
validator_servo_state_read ValidatorServoState.servo_off = refl
validator_servo_state_read _ = refl

abbrev pub lifecycle_state_all : List LifecycleState
lifecycle_state_all =
    LifecycleState.idle ∷ LifecycleState.running ∷ LifecycleState.waiting ∷ LifecycleState.pausing
    ∷ LifecycleState.paused ∷ LifecycleState.stopping ∷ LifecycleState.stopped
    ∷ LifecycleState.emergency_stopping ∷ LifecycleState.emergency_stopped ∷ LifecycleState.faulted
    ∷ []

-- Reading back the printed name of any LifecycleState gives that LifecycleState.
lifecycle_state_read :
    (a : LifecycleState)
    → read_name lifecycle_state_to_string lifecycle_state_all (lifecycle_state_to_string a) ≡ some a
unfolding lifecycle_state_to_string
lifecycle_state_read LifecycleState.idle = refl
lifecycle_state_read _ = refl

abbrev pub control_type_all : List ControlType
control_type_all =
    ControlType.no_control ∷ ControlType.pause ∷ ControlType.resume ∷ ControlType.stop
    ∷ ControlType.estop ∷ ControlType.reset ∷ []

control_type_read :
    (a : ControlType)
    → read_name control_type_to_string control_type_all (control_type_to_string a) ≡ some a
unfolding control_type_to_string
control_type_read ControlType.no_control = refl
control_type_read _ = refl

abbrev pub control_submission_status_all : List ControlSubmissionStatus
control_submission_status_all =
    ControlSubmissionStatus.unset ∷ ControlSubmissionStatus.queued
    ∷ ControlSubmissionStatus.accepted ∷ ControlSubmissionStatus.ignored
    ∷ ControlSubmissionStatus.rejected ∷ []

control_submission_status_read :
    (a : ControlSubmissionStatus)
    → read_name control_submission_status_to_string control_submission_status_all
        (control_submission_status_to_string a)
      ≡ some a
unfolding control_submission_status_to_string
control_submission_status_read ControlSubmissionStatus.unset = refl
control_submission_status_read _ = refl

abbrev pub execution_outcome_all : List ExecutionOutcome
execution_outcome_all =
    ExecutionOutcome.no_outcome ∷ ExecutionOutcome.program_completed
    ∷ ExecutionOutcome.operator_stopped ∷ ExecutionOutcome.emergency_stopped
    ∷ ExecutionOutcome.faulted ∷ []

execution_outcome_read :
    (a : ExecutionOutcome)
    → read_name execution_outcome_to_string execution_outcome_all (execution_outcome_to_string a)
      ≡ some a
unfolding execution_outcome_to_string
execution_outcome_read ExecutionOutcome.no_outcome = refl
execution_outcome_read _ = refl

abbrev pub program_submission_status_all : List ProgramSubmissionStatus
program_submission_status_all =
    ProgramSubmissionStatus.accepted ∷ ProgramSubmissionStatus.rejected ∷ []

program_submission_status_read :
    (a : ProgramSubmissionStatus)
    → read_name program_submission_status_to_string program_submission_status_all
        (program_submission_status_to_string a)
      ≡ some a
unfolding program_submission_status_to_string
program_submission_status_read ProgramSubmissionStatus.accepted = refl
program_submission_status_read _ = refl

abbrev pub command_execution_status_all : List CommandExecutionStatus
command_execution_status_all =
    CommandExecutionStatus.pending ∷ CommandExecutionStatus.accepted
    ∷ CommandExecutionStatus.running ∷ CommandExecutionStatus.pausing
    ∷ CommandExecutionStatus.paused ∷ CommandExecutionStatus.cancelling
    ∷ CommandExecutionStatus.cancelled ∷ CommandExecutionStatus.succeeded
    ∷ CommandExecutionStatus.timed_out ∷ CommandExecutionStatus.failed ∷ []

command_execution_status_read :
    (a : CommandExecutionStatus)
    → read_name command_execution_status_to_string command_execution_status_all
        (command_execution_status_to_string a)
      ≡ some a
unfolding command_execution_status_to_string
command_execution_status_read CommandExecutionStatus.pending = refl
command_execution_status_read _ = refl

abbrev pub backend_state_all : List BackendState
backend_state_all = BackendState.disconnected ∷ BackendState.connected ∷ BackendState.faulted ∷ []

backend_state_read :
    (a : BackendState)
    → read_name backend_state_to_string backend_state_all (backend_state_to_string a) ≡ some a
unfolding backend_state_to_string
backend_state_read BackendState.disconnected = refl
backend_state_read _ = refl

abbrev pub backend_operation_state_all : List BackendOperationState
backend_operation_state_all =
    BackendOperationState.idle ∷ BackendOperationState.active ∷ BackendOperationState.stopping
    ∷ BackendOperationState.stopped ∷ []

backend_operation_state_read :
    (a : BackendOperationState)
    → read_name backend_operation_state_to_string backend_operation_state_all
        (backend_operation_state_to_string a)
      ≡ some a
unfolding backend_operation_state_to_string
backend_operation_state_read BackendOperationState.idle = refl
backend_operation_state_read _ = refl

abbrev pub stop_reason_all : List StopReason
stop_reason_all =
    StopReason.program_complete ∷ StopReason.pause ∷ StopReason.operator_stop ∷ StopReason.emergency
    ∷ StopReason.timeout ∷ StopReason.fault_cleanup ∷ []

stop_reason_read :
    (a : StopReason)
    → read_name stop_reason_to_string stop_reason_all (stop_reason_to_string a) ≡ some a
unfolding stop_reason_to_string
stop_reason_read StopReason.program_complete = refl
stop_reason_read _ = refl

abbrev pub stop_status_all : List StopStatus
stop_status_all = StopStatus.stopping ∷ StopStatus.stopped ∷ StopStatus.failed ∷ []

stop_status_read :
    (a : StopStatus)
    → read_name stop_status_to_string stop_status_all (stop_status_to_string a) ≡ some a
unfolding stop_status_to_string
stop_status_read StopStatus.stopping = refl
stop_status_read _ = refl

abbrev pub alarm_severity_all : List AlarmSeverity
alarm_severity_all = AlarmSeverity.emergency ∷ AlarmSeverity.fault ∷ []

alarm_severity_read :
    (a : AlarmSeverity)
    → read_name alarm_severity_to_string alarm_severity_all (alarm_severity_to_string a) ≡ some a
unfolding alarm_severity_to_string
alarm_severity_read AlarmSeverity.emergency = refl
alarm_severity_read _ = refl

abbrev pub alarm_recovery_condition_all : List AlarmRecoveryCondition
alarm_recovery_condition_all =
    AlarmRecoveryCondition.no_active_command ∷ AlarmRecoveryCondition.backend_stopped
    ∷ AlarmRecoveryCondition.servo_disabled ∷ AlarmRecoveryCondition.new_backend_session ∷ []

alarm_recovery_condition_read :
    (a : AlarmRecoveryCondition)
    → read_name alarm_recovery_condition_to_string alarm_recovery_condition_all
        (alarm_recovery_condition_to_string a)
      ≡ some a
unfolding alarm_recovery_condition_to_string
alarm_recovery_condition_read AlarmRecoveryCondition.no_active_command = refl
alarm_recovery_condition_read _ = refl

abbrev pub diagnostic_code_all : List DiagnosticCode
diagnostic_code_all =
    DiagnosticCode.config_io ∷ DiagnosticCode.json_syntax ∷ DiagnosticCode.schema_mismatch
    ∷ DiagnosticCode.invalid_configuration ∷ DiagnosticCode.robot_mismatch
    ∷ DiagnosticCode.duplicate_point ∷ DiagnosticCode.invalid_point_name
    ∷ DiagnosticCode.invalid_joint_count ∷ DiagnosticCode.non_finite_joint
    ∷ DiagnosticCode.joint_limit_violation ∷ DiagnosticCode.unknown_point
    ∷ DiagnosticCode.invalid_speed ∷ DiagnosticCode.invalid_runtime_state
    ∷ DiagnosticCode.task_syntax ∷ DiagnosticCode.invalid_duration ∷ DiagnosticCode.unknown_signal
    ∷ DiagnosticCode.signal_direction_mismatch ∷ DiagnosticCode.duplicate_signal
    ∷ DiagnosticCode.invalid_signal_configuration ∷ DiagnosticCode.unknown_tool
    ∷ DiagnosticCode.invalid_tool_configuration ∷ DiagnosticCode.invalid_tool_state
    ∷ DiagnosticCode.invalid_scenario ∷ DiagnosticCode.motion_rejected
    ∷ DiagnosticCode.motion_timeout ∷ DiagnosticCode.di_timeout ∷ DiagnosticCode.tool_timeout
    ∷ DiagnosticCode.backend_failure ∷ DiagnosticCode.backend_connection_loss
    ∷ DiagnosticCode.stop_rejected ∷ DiagnosticCode.stop_confirmation_timeout
    ∷ DiagnosticCode.stop_polling_failure ∷ DiagnosticCode.servo_disable_failure
    ∷ DiagnosticCode.disconnect_failure ∷ DiagnosticCode.emergency_stopped
    ∷ DiagnosticCode.invalid_workcell_configuration ∷ DiagnosticCode.duplicate_workcell_alias
    ∷ DiagnosticCode.workcell_schema_mismatch ∷ DiagnosticCode.workcell_snapshot_failure
    ∷ DiagnosticCode.grip_failure ∷ DiagnosticCode.placement_failure
    ∷ DiagnosticCode.collision_detected ∷ []

-- Reading back the printed name of any DiagnosticCode gives that DiagnosticCode.
diagnostic_code_read :
    (a : DiagnosticCode)
    → read_name diagnostic_code_to_string diagnostic_code_all (diagnostic_code_to_string a) ≡ some a
unfolding diagnostic_code_to_string
diagnostic_code_read DiagnosticCode.config_io = refl
diagnostic_code_read _ = refl
