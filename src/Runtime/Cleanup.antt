-- ===== src/Runtime/Cleanup.antt =====
-- The ends of a session (runtime.cpp): the cleanup of the backend, whose failures are caught and
-- kept as alarms, and the terminal states.
pub mod Terminal
use roborun.Prelude.{
  Bool, true, false, not, ◌||◌, String, [], ◌∷◌, none, Outcome, ok, threw, if◌then◌else◌,
}
use roborun.Types.{
  RuntimeState, LifecycleState, ExecutionOutcome, BackendState, BackendOperationState,
  DiagnosticCode, AlarmSeverity, AlarmRecoveryCondition,
}
use roborun.Types.Names.{diagnostic_code_to_string}
use roborun.Runtime.State.{Session, set_servo_enabled, disconnect, invoke, now}
use roborun.Runtime.Records.{raise_alarm, synchronize_result_state}

-- An alarm that only a new session can clear.
unfoldable pub raise_permanent : DiagnosticCode → String → String → String → Session → Session
raise_permanent code source reason details =
    raise_alarm code AlarmSeverity.fault source reason details false
      (AlarmRecoveryCondition.new_backend_session ∷ [])

unfoldable pub servo_cleaned : Outcome Session (Unit {0}) → Session
servo_cleaned (ok _ s) = record s { servo_disabled = true }
servo_cleaned (threw e s) =
    raise_permanent DiagnosticCode.servo_disable_failure "backend" "servo_disable_failed" e
      (record s { session_untrusted = true })

unfoldable pub disable_servo_for_cleanup : Session → Session
disable_servo_for_cleanup s =
    if not s.connected || s.servo_disabled
    then s
    else servo_cleaned (invoke (set_servo_enabled false) (λ d. d.set_servo_enabled) s)

unfoldable pub disconnected : Outcome Session (Unit {0}) → Session
disconnected (ok _ s) = record s { connected = false; backend_state = BackendState.disconnected }
disconnected (threw e s) =
    raise_permanent DiagnosticCode.disconnect_failure "backend" "disconnect_failed" e
      (record s { session_untrusted = true; backend_state = BackendState.faulted })

unfoldable pub disconnect_for_cleanup : Session → Session
disconnect_for_cleanup s =
    if not s.setup.options.disconnect_on_terminal
    then s
    else if not s.connected
    then record s { backend_state = BackendState.disconnected }
    else disconnected (invoke disconnect (λ d. d.disconnect) s)

-- The assignments that FinishFault and FinishTerminal share: the state, its copies in the result,
-- and the end of the task.
unfoldable pub settle : RuntimeState → LifecycleState → Bool → ExecutionOutcome → Session → Session
settle state lifecycle succeeded outcome s = synchronize_result_state (record s {
  state = state;
  lifecycle_state = lifecycle;
  backend_operation_state = BackendOperationState.stopped;
  task_terminal = true;
  result = record (s.result) {
    succeeded = succeeded;
    outcome = outcome;
    final_state = state;
    finished_business_time_ms = now s;
    signals = s.signals;
    tools = s.tools;
  };
})

unfoldable pub finish_fault : Session → Session
finish_fault s =
    let cleaned = disconnect_for_cleanup (disable_servo_for_cleanup s) in
    settle RuntimeState.faulted LifecycleState.faulted false ExecutionOutcome.faulted
      (record cleaned { active_command = none; stop_episode = none })

unfoldable pub terminal_lifecycle : ExecutionOutcome → LifecycleState
terminal_lifecycle ExecutionOutcome.emergency_stopped = LifecycleState.emergency_stopped
terminal_lifecycle _ = LifecycleState.stopped

unfoldable pub completed : ExecutionOutcome → Bool
completed ExecutionOutcome.program_completed = true
completed _ = false

unfoldable pub finish_terminal : ExecutionOutcome → Session → Session
finish_terminal outcome s =
    let cleaned = disconnect_for_cleanup s in
    if cleaned.session_untrusted
    then finish_fault cleaned
    else settle RuntimeState.stopped (terminal_lifecycle outcome) (completed outcome) outcome
        cleaned

unfoldable pub fail_stop : DiagnosticCode → String → Session → Session
fail_stop code message s =
    let raised = raise_permanent code "backend" (diagnostic_code_to_string code) message s in
    finish_fault (record raised { session_untrusted = true })
