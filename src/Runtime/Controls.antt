-- ===== src/Runtime/Controls.antt =====
-- HandleControl (runtime.cpp): one function for each control.
pub mod Recovery
use roborun.Prelude.{
  Bool, true, false, ◌||◌, String, [], ◌∷◌, none, some, has_value, ok, ◌>>◌, modify, if◌then◌else◌,
}
use roborun.Types.{
  LifecycleState, ControlType, ControlSubmissionStatus, CommandType, CommandExecutionStatus,
  ExecutionOutcome, StopReason, StopStatus, StopDisposition, DiagnosticCode, AlarmSeverity,
  AlarmRecoveryCondition, ActiveCommand, is_command,
}
use roborun.EventQueue.{RuntimeEvent}
use roborun.Runtime.State.{Session, M, now}
use roborun.Runtime.Records.{append_control_trace, raise_alarm, synchronize_result_state}
use roborun.Runtime.Cleanup.{finish_terminal}
use roborun.Runtime.Stopping.{begin_stop, request_safe}
use roborun.Runtime.Pausing.{pause_local_command, resume_active_command, time_left}
use roborun.Runtime.Resetting.{reset_session}

-- A trace entry of a control that stops nothing.
unfoldable pub noted : RuntimeEvent → ControlSubmissionStatus → String → Session → Session
noted event status cause s = append_control_trace event status cause s.lifecycle_state none none s

unfoldable pub is_local_wait : CommandType → Bool
is_local_wait CommandType.delay = true
is_local_wait CommandType.wait_di = true
is_local_wait CommandType.set_tool = true
is_local_wait _ = false

unfoldable pub pause_active_command : RuntimeEvent → ActiveCommand → M (Unit {0})
pause_active_command event a s =
    if is_command a.type CommandType.movej
    then begin_stop StopReason.pause StopDisposition.pause (some event) (record s {
      active_command = some (record a {
        remaining_ms = time_left a.deadline_ms (now s) s.setup.options.move_timeout_ms;
        status = CommandExecutionStatus.pausing;
      });
    })
    else if is_local_wait a.type
    then ok tt (pause_local_command event s)
    else ok tt (noted event ControlSubmissionStatus.rejected "pause_requires_active_command" s)

unfoldable pub pause_running : RuntimeEvent → M (Unit {0})
pause_running event s = elim s.active_command [
  | none ↦ ok tt (
      append_control_trace event ControlSubmissionStatus.accepted "pause_accepted" s.lifecycle_state
        none none (record s { lifecycle_state = LifecycleState.paused }))
  | some a ↦ pause_active_command event a s
]

unfoldable pub handle_pause : RuntimeEvent → M (Unit {0})
handle_pause event s = elim s.lifecycle_state [
  | LifecycleState.paused ↦
      ok tt (noted event ControlSubmissionStatus.ignored "pause_already_active" s)
  | LifecycleState.pausing ↦
      ok tt (noted event ControlSubmissionStatus.ignored "pause_already_active" s)
  | LifecycleState.running ↦ pause_running event s
  | LifecycleState.waiting ↦ pause_running event s
  | _ ↦ ok tt (noted event ControlSubmissionStatus.rejected "pause_not_allowed" s)
]

unfoldable pub handle_resume : RuntimeEvent → M (Unit {0})
handle_resume event s = elim s.lifecycle_state [
  | LifecycleState.paused ↦
      resume_active_command (noted event ControlSubmissionStatus.accepted "resume_accepted" s)
  | _ ↦ ok tt (noted event ControlSubmissionStatus.ignored "resume_not_paused" s)
]

-- The active command, if there is one, is being cancelled.
unfoldable pub cancelling : Session → Session
cancelling s = elim s.active_command [
  | none ↦ s
  | some a ↦ record s {
    active_command = some (record a { status = CommandExecutionStatus.cancelling });
  }
]

-- `active_command_.has_value() || connected_`.
abbrev pub has_work : Session → Bool
has_work s = has_value s.active_command || s.connected

unfoldable pub stop_working : RuntimeEvent → M (Unit {0})
stop_working event s =
    if has_work s
    then begin_stop StopReason.operator_stop StopDisposition.operator_stop (some event)
        (cancelling s)
    else ok tt (
        finish_terminal ExecutionOutcome.operator_stopped
          (noted event ControlSubmissionStatus.accepted "stop_without_active_command" s))

unfoldable pub handle_stop : RuntimeEvent → M (Unit {0})
handle_stop event s = elim s.lifecycle_state [
  | LifecycleState.stopped ↦ complete s
  | LifecycleState.idle ↦ complete s
  | LifecycleState.stopping ↦ complete s
  | LifecycleState.faulted ↦ complete s
  | LifecycleState.emergency_stopping ↦ superseded s
  | LifecycleState.emergency_stopped ↦ superseded s
  | _ ↦ stop_working event s
]
  where
    complete : M (Unit {0})
    complete t = ok tt (noted event ControlSubmissionStatus.ignored "stop_already_complete" t)

    superseded : M (Unit {0})
    superseded t =
        ok tt (noted event ControlSubmissionStatus.ignored "stop_superseded_by_emergency" t)

unfoldable pub emergency_without_backend : RuntimeEvent → Session → Session
emergency_without_backend event s = finish_terminal ExecutionOutcome.emergency_stopped (
    raise_alarm DiagnosticCode.emergency_stopped AlarmSeverity.emergency "runtime"
      "emergency_stop_confirmed" "emergency stop without an active backend" true
      (AlarmRecoveryCondition.no_active_command ∷ AlarmRecoveryCondition.backend_stopped
        ∷ AlarmRecoveryCondition.servo_disabled ∷ [])
      (append_control_trace event ControlSubmissionStatus.accepted "emergency_without_backend"
        s.lifecycle_state (some StopReason.emergency) (some StopStatus.stopped) s))

unfoldable pub estop_working : RuntimeEvent → M (Unit {0})
estop_working event s =
    if has_work s
    then (do
      modify cancelling
      request_safe StopReason.emergency true
      begin_stop StopReason.emergency StopDisposition.emergency (some event))
        s
    else ok tt (emergency_without_backend event s)

unfoldable pub handle_estop : RuntimeEvent → M (Unit {0})
handle_estop event s = elim s.lifecycle_state [
  | LifecycleState.emergency_stopping ↦
      ok tt (noted event ControlSubmissionStatus.ignored "emergency_already_active" s)
  | LifecycleState.emergency_stopped ↦
      ok tt (noted event ControlSubmissionStatus.ignored "emergency_already_active" s)
  | _ ↦ estop_working event s
]

unfoldable pub control_action : ControlType → RuntimeEvent → M (Unit {0})
control_action ControlType.pause event s = handle_pause event s
control_action ControlType.resume event s = handle_resume event s
control_action ControlType.stop event s = handle_stop event s
control_action ControlType.estop event s = handle_estop event s
control_action ControlType.reset event s = reset_session event s
control_action ControlType.no_control event s =
    ok tt (noted event ControlSubmissionStatus.rejected "control_type_is_missing" s)

unfoldable pub handle_control : RuntimeEvent → M (Unit {0})
handle_control event = do control_action event.control_type event; modify synchronize_result_state
