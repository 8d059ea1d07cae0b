-- ===== src/Types/Names.antt =====
-- src/roborun/types.cpp: the printed name of each enumerator (the overloads of ToString; the value
-- behind the last case of each switch is never reached, since these are all the enumerators).
pub mod Distinct
use roborun.Prelude.{String}
use roborun.Types.Enums.{
  CommandType, SignalDirection, ToolType, ToolPosition, RuntimeState, ValidatorServoState,
  LifecycleState, ControlType, ControlSubmissionStatus, ExecutionOutcome, ProgramSubmissionStatus,
  CommandExecutionStatus, BackendState, BackendOperationState, StopReason, StopStatus,
  AlarmSeverity, AlarmRecoveryCondition, DiagnosticCode,
}

unfoldable pub command_type_to_string : CommandType → String
command_type_to_string CommandType.servo_on = "SERVO_ON"
command_type_to_string CommandType.servo_off = "SERVO_OFF"
command_type_to_string CommandType.movej = "MOVEJ"
command_type_to_string CommandType.delay = "DELAY"
command_type_to_string CommandType.set_do = "SET_DO"
command_type_to_string CommandType.wait_di = "WAIT_DI"
command_type_to_string CommandType.set_tool = "SET_TOOL"
command_type_to_string CommandType.stop = "STOP"
command_type_to_string CommandType.no_command = "NONE"

unfoldable pub signal_direction_to_string : SignalDirection → String
signal_direction_to_string SignalDirection.di = "DI"
signal_direction_to_string SignalDirection.do_ = "DO"

unfoldable pub tool_type_to_string : ToolType → String
tool_type_to_string ToolType.gripper = "gripper"

unfoldable pub tool_position_to_string : ToolPosition → String
tool_position_to_string ToolPosition.opened = "OPEN"
tool_position_to_string ToolPosition.closed = "CLOSED"

unfoldable pub runtime_state_to_string : RuntimeState → String
runtime_state_to_string RuntimeState.servo_off = "servo_off"
runtime_state_to_string RuntimeState.ready = "ready"
runtime_state_to_string RuntimeState.running = "running"
runtime_state_to_string RuntimeState.stopped = "stopped"
runtime_state_to_string RuntimeState.faulted = "faulted"

unfoldable pub validator_servo_state_to_string : ValidatorServoState → String
validator_servo_state_to_string ValidatorServoState.servo_off = "servo_off"
validator_servo_state_to_string ValidatorServoState.ready = "ready"
validator_servo_state_to_string ValidatorServoState.stopped = "stopped"

unfoldable pub lifecycle_state_to_string : LifecycleState → String
lifecycle_state_to_string LifecycleState.idle = "idle"
lifecycle_state_to_string LifecycleState.running = "running"
lifecycle_state_to_string LifecycleState.waiting = "waiting"
lifecycle_state_to_string LifecycleState.pausing = "pausing"
lifecycle_state_to_string LifecycleState.paused = "paused"
lifecycle_state_to_string LifecycleState.stopping = "stopping"
lifecycle_state_to_string LifecycleState.stopped = "stopped"
lifecycle_state_to_string LifecycleState.emergency_stopping = "emergency_stopping"
lifecycle_state_to_string LifecycleState.emergency_stopped = "emergency_stopped"
lifecycle_state_to_string LifecycleState.faulted = "faulted"

unfoldable pub control_type_to_string : ControlType → String
control_type_to_string ControlType.no_control = "none"
control_type_to_string ControlType.pause = "pause"
control_type_to_string ControlType.resume = "resume"
control_type_to_string ControlType.stop = "stop"
control_type_to_string ControlType.estop = "estop"
control_type_to_string ControlType.reset = "reset"

unfoldable pub control_submission_status_to_string : ControlSubmissionStatus → String
control_submission_status_to_string ControlSubmissionStatus.unset = "none"
control_submission_status_to_string ControlSubmissionStatus.queued = "queued"
control_submission_status_to_string ControlSubmissionStatus.accepted = "accepted"
control_submission_status_to_string ControlSubmissionStatus.ignored = "ignored"
control_submission_status_to_string ControlSubmissionStatus.rejected = "rejected"

unfoldable pub execution_outcome_to_string : ExecutionOutcome → String
execution_outcome_to_string ExecutionOutcome.no_outcome = "none"
execution_outcome_to_string ExecutionOutcome.program_completed = "program_completed"
execution_outcome_to_string ExecutionOutcome.operator_stopped = "operator_stopped"
execution_outcome_to_string ExecutionOutcome.emergency_stopped = "emergency_stopped"
execution_outcome_to_string ExecutionOutcome.faulted = "faulted"

unfoldable pub program_submission_status_to_string : ProgramSubmissionStatus → String
program_submission_status_to_string ProgramSubmissionStatus.accepted = "accepted"
program_submission_status_to_string ProgramSubmissionStatus.rejected = "rejected"

unfoldable pub command_execution_status_to_string : CommandExecutionStatus → String
command_execution_status_to_string CommandExecutionStatus.pending = "pending"
command_execution_status_to_string CommandExecutionStatus.accepted = "accepted"
command_execution_status_to_string CommandExecutionStatus.running = "running"
command_execution_status_to_string CommandExecutionStatus.pausing = "pausing"
command_execution_status_to_string CommandExecutionStatus.paused = "paused"
command_execution_status_to_string CommandExecutionStatus.cancelling = "cancelling"
command_execution_status_to_string CommandExecutionStatus.cancelled = "cancelled"
command_execution_status_to_string CommandExecutionStatus.succeeded = "succeeded"
command_execution_status_to_string CommandExecutionStatus.timed_out = "timed_out"
command_execution_status_to_string CommandExecutionStatus.failed = "failed"

unfoldable pub backend_state_to_string : BackendState → String
backend_state_to_string BackendState.disconnected = "disconnected"
backend_state_to_string BackendState.connected = "connected"
backend_state_to_string BackendState.faulted = "faulted"

unfoldable pub backend_operation_state_to_string : BackendOperationState → String
backend_operation_state_to_string BackendOperationState.idle = "idle"
backend_operation_state_to_string BackendOperationState.active = "active"
backend_operation_state_to_string BackendOperationState.stopping = "stopping"
backend_operation_state_to_string BackendOperationState.stopped = "stopped"

unfoldable pub stop_reason_to_string : StopReason → String
stop_reason_to_string StopReason.program_complete = "program_complete"
stop_reason_to_string StopReason.pause = "pause"
stop_reason_to_string StopReason.operator_stop = "operator_stop"
stop_reason_to_string StopReason.emergency = "emergency"
stop_reason_to_string StopReason.timeout = "timeout"
stop_reason_to_string StopReason.fault_cleanup = "fault_cleanup"

unfoldable pub stop_status_to_string : StopStatus → String
stop_status_to_string StopStatus.stopping = "stopping"
stop_status_to_string StopStatus.stopped = "stopped"
stop_status_to_string StopStatus.failed = "failed"

unfoldable pub alarm_severity_to_string : AlarmSeverity → String
alarm_severity_to_string AlarmSeverity.emergency = "emergency"
alarm_severity_to_string AlarmSeverity.fault = "fault"

unfoldable pub alarm_recovery_condition_to_string : AlarmRecoveryCondition → String
alarm_recovery_condition_to_string AlarmRecoveryCondition.no_active_command = "no_active_command"
alarm_recovery_condition_to_string AlarmRecoveryCondition.backend_stopped = "backend_stopped"
alarm_recovery_condition_to_string AlarmRecoveryCondition.servo_disabled = "servo_disabled"
alarm_recovery_condition_to_string AlarmRecoveryCondition.new_backend_session =
    "new_backend_session"

unfoldable pub diagnostic_code_to_string : DiagnosticCode → String
diagnostic_code_to_string DiagnosticCode.config_io = "CONFIG_IO"
diagnostic_code_to_string DiagnosticCode.json_syntax = "JSON_SYNTAX"
diagnostic_code_to_string DiagnosticCode.schema_mismatch = "SCHEMA_MISMATCH"
diagnostic_code_to_string DiagnosticCode.invalid_configuration = "INVALID_CONFIGURATION"
diagnostic_code_to_string DiagnosticCode.robot_mismatch = "ROBOT_MISMATCH"
diagnostic_code_to_string DiagnosticCode.duplicate_point = "DUPLICATE_POINT"
diagnostic_code_to_string DiagnosticCode.invalid_point_name = "INVALID_POINT_NAME"
diagnostic_code_to_string DiagnosticCode.invalid_joint_count = "INVALID_JOINT_COUNT"
diagnostic_code_to_string DiagnosticCode.non_finite_joint = "NONFINITE_JOINT"
diagnostic_code_to_string DiagnosticCode.joint_limit_violation = "JOINT_LIMIT_VIOLATION"
diagnostic_code_to_string DiagnosticCode.unknown_point = "UNKNOWN_POINT"
diagnostic_code_to_string DiagnosticCode.invalid_speed = "INVALID_SPEED"
diagnostic_code_to_string DiagnosticCode.invalid_runtime_state = "INVALID_RUNTIME_STATE"
diagnostic_code_to_string DiagnosticCode.task_syntax = "TASK_SYNTAX"
diagnostic_code_to_string DiagnosticCode.invalid_duration = "INVALID_DURATION"
diagnostic_code_to_string DiagnosticCode.unknown_signal = "UNKNOWN_SIGNAL"
diagnostic_code_to_string DiagnosticCode.signal_direction_mismatch = "SIGNAL_DIRECTION_MISMATCH"
diagnostic_code_to_string DiagnosticCode.duplicate_signal = "DUPLICATE_SIGNAL"
diagnostic_code_to_string DiagnosticCode.invalid_signal_configuration =
    "INVALID_SIGNAL_CONFIGURATION"
diagnostic_code_to_string DiagnosticCode.unknown_tool = "UNKNOWN_TOOL"
diagnostic_code_to_string DiagnosticCode.invalid_tool_configuration = "INVALID_TOOL_CONFIGURATION"
diagnostic_code_to_string DiagnosticCode.invalid_tool_state = "INVALID_TOOL_STATE"
diagnostic_code_to_string DiagnosticCode.invalid_scenario = "INVALID_SCENARIO"
diagnostic_code_to_string DiagnosticCode.motion_rejected = "MOTION_REJECTED"
diagnostic_code_to_string DiagnosticCode.motion_timeout = "MOTION_TIMEOUT"
diagnostic_code_to_string DiagnosticCode.di_timeout = "DI_TIMEOUT"
diagnostic_code_to_string DiagnosticCode.tool_timeout = "TOOL_TIMEOUT"
diagnostic_code_to_string DiagnosticCode.backend_failure = "BACKEND_FAILURE"
diagnostic_code_to_string DiagnosticCode.backend_connection_loss = "BACKEND_CONNECTION_LOSS"
diagnostic_code_to_string DiagnosticCode.stop_rejected = "STOP_REJECTED"
diagnostic_code_to_string DiagnosticCode.stop_confirmation_timeout = "STOP_CONFIRMATION_TIMEOUT"
diagnostic_code_to_string DiagnosticCode.stop_polling_failure = "STOP_POLLING_FAILURE"
diagnostic_code_to_string DiagnosticCode.servo_disable_failure = "SERVO_DISABLE_FAILURE"
diagnostic_code_to_string DiagnosticCode.disconnect_failure = "DISCONNECT_FAILURE"
diagnostic_code_to_string DiagnosticCode.emergency_stopped = "EMERGENCY_STOPPED"
diagnostic_code_to_string DiagnosticCode.invalid_workcell_configuration =
    "INVALID_WORKCELL_CONFIGURATION"
diagnostic_code_to_string DiagnosticCode.duplicate_workcell_alias = "DUPLICATE_WORKCELL_ALIAS"
diagnostic_code_to_string DiagnosticCode.workcell_schema_mismatch = "WORKCELL_SCHEMA_MISMATCH"
diagnostic_code_to_string DiagnosticCode.workcell_snapshot_failure = "WORKCELL_SNAPSHOT_FAILURE"
diagnostic_code_to_string DiagnosticCode.grip_failure = "GRIP_FAILURE"
diagnostic_code_to_string DiagnosticCode.placement_failure = "PLACEMENT_FAILURE"
diagnostic_code_to_string DiagnosticCode.collision_detected = "COLLISION_DETECTED"
