-- ===== src/Runtime/Confirmation.antt =====
-- HandleStopConfirmed (runtime.cpp): the end of a stop episode.
pub mod Emergency
use roborun.Prelude.{
  ℕ, ◌+◌, ◌%◌, ltbℤ, Bool, true, false, ◌&&◌, String, [], ◌∷◌, Option, none, some, value_or, ok,
  modify, ◌>>=◌, ◌>>◌, if◌then◌else◌,
}
use roborun.Types.{
  RuntimeState, LifecycleState, CommandExecutionStatus, ExecutionOutcome, BackendOperationState,
  StopDisposition, WorkcellCommandStatus, DiagnosticCode, AlarmSeverity, AlarmRecoveryCondition,
  ActiveCommand, StopSnapshot,
}
use roborun.EventQueue.{u64_mod}
use roborun.Runtime.State.{Session, StopEpisode, poll_safe_state, invoke, now, M}
use roborun.Runtime.Records.{raise_alarm, append_trace, synchronize_result_state}
use roborun.Runtime.Cleanup.{
  raise_permanent, disable_servo_for_cleanup, finish_fault, finish_terminal,
}
use roborun.Runtime.Scheduling.{command_at}

-- The dispositions after which the workcell's safe state is confirmed.
unfoldable pub needs_safe_state : StopDisposition → Bool
needs_safe_state StopDisposition.fault = true
needs_safe_state StopDisposition.emergency = true
needs_safe_state _ = false

unfoldable pub past_safe_deadline : Session → Bool
past_safe_deadline s = elim s.workcell_safe_deadline_ms [ none ↦ false | some d ↦ ltbℤ d (now s) ]

unfoldable pub raise_safe_timeout : Session → Session
raise_safe_timeout s =
    if past_safe_deadline s
    then (let raised =
          raise_permanent DiagnosticCode.backend_failure "workcell" "safe_state_timeout"
            "workcell safe state exceeded its configured deadline" s in
        record raised { session_untrusted = true })
    else s

unfoldable pub safe_answer : WorkcellCommandStatus → String → Session → Session
safe_answer WorkcellCommandStatus.rejected message s =
    let raised =
      raise_permanent DiagnosticCode.backend_failure "workcell" "safe_state_not_confirmed" message
        s in
    record raised { session_untrusted = true }
safe_answer WorkcellCommandStatus.accepted message s = record s {
  workcell_safe_confirmed = true;
  workcell_safe_generation = some (value_or s.last_workcell_generation 0);
  result = record (s.result) { workcell_safe_confirmed = true };
}

-- The check of the safe state in HandleStopConfirmed.
unfoldable pub confirm_safe_state : StopDisposition → M (Unit {0})
confirm_safe_state disposition s =
    if needs_safe_state disposition && s.setup.has_workcell && s.workcell_safe_requested
    then (do
      modify raise_safe_timeout
      answer ← invoke poll_safe_state (λ d. d.poll_safe_state)
      modify (safe_answer answer.status answer.message))
        s
    else ok tt s

unfoldable pub pause_active : Option ActiveCommand → Session → Session
pause_active none s = s
pause_active (some a) s =
    append_trace (command_at s a.command_index) a.command_index CommandExecutionStatus.paused
      s.state s.state s.state "pause_confirmed" none
      (record s {
        lifecycle_state = LifecycleState.paused;
        active_command = some (record a {
          status = CommandExecutionStatus.paused;
          generation = (a.generation + 1) % u64_mod;
        });
      })

unfoldable pub stopped_status : StopDisposition → CommandExecutionStatus
stopped_status StopDisposition.program_complete = CommandExecutionStatus.succeeded
stopped_status _ = CommandExecutionStatus.cancelled

-- The next command after a stop: only the end of the program counts its STOP.
unfoldable pub stopped_next : StopDisposition → ℕ → ℕ
stopped_next StopDisposition.program_complete n = (n + 1) % u64_mod
stopped_next _ n = n

unfoldable pub end_active : StopDisposition → Option ActiveCommand → Session → Session
end_active disposition none s = s
end_active disposition (some a) s =
    let traced =
      append_trace (command_at s a.command_index) a.command_index (stopped_status disposition)
        s.state s.state RuntimeState.stopped "stop_confirmed" none s in
    record traced {
      next_command_index = stopped_next disposition traced.next_command_index;
      active_command = none;
    }

unfoldable pub finish_emergency : Session → Session
finish_emergency s =
    let disabled = disable_servo_for_cleanup s in
    if disabled.session_untrusted
    then finish_fault disabled
    else finish_terminal ExecutionOutcome.emergency_stopped (
        raise_alarm DiagnosticCode.emergency_stopped AlarmSeverity.emergency "runtime"
          "emergency_stop_confirmed" "emergency stop was confirmed" true
          (AlarmRecoveryCondition.no_active_command ∷ AlarmRecoveryCondition.backend_stopped
            ∷ AlarmRecoveryCondition.servo_disabled ∷ [])
          disabled)

-- What HandleStopConfirmed does for each disposition, the episode closed.
unfoldable pub conclude_stop : StopDisposition → Session → Session
conclude_stop StopDisposition.pause s = synchronize_result_state (pause_active s.active_command s)
conclude_stop StopDisposition.fault s = finish_fault s
conclude_stop StopDisposition.emergency s =
    finish_emergency (end_active StopDisposition.emergency s.active_command s)
conclude_stop StopDisposition.program_complete s =
    finish_terminal ExecutionOutcome.program_completed
      (end_active StopDisposition.program_complete s.active_command s)
conclude_stop StopDisposition.operator_stop s =
    finish_terminal ExecutionOutcome.operator_stopped
      (end_active StopDisposition.operator_stop s.active_command s)

unfoldable pub stop_confirmed : StopSnapshot → Option StopEpisode → M (Unit {0})
stop_confirmed snapshot none s = ok tt s
stop_confirmed snapshot (some episode) s =
    (do confirm_safe_state episode.disposition; modify (conclude_stop episode.disposition))
      (record s {
        latest_positions = snapshot.positions;
        backend_operation_state = BackendOperationState.stopped;
        stop_episode = none;
      })

unfoldable pub handle_stop_confirmed : StopSnapshot → M (Unit {0})
handle_stop_confirmed snapshot s = stop_confirmed snapshot s.stop_episode s
