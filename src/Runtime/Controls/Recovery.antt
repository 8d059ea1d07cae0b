-- ===== src/Runtime/Controls/Recovery.antt =====
-- About HandleControl and ResetSession (runtime.cpp), for an ESTOP in a session that has ended in a
-- fault.
use roborun.Prelude.{◌≡◌, inl, true, false, none, arith, ok, after}
use roborun.Types.{LifecycleState, ControlType, ExecutionOutcome}
use roborun.EventQueue.{RuntimeEvent}
use roborun.Runtime.State.{Session}
use roborun.Runtime.Records.{
  append_control_trace, push_trace, synchronize_result_state, raise_alarm, add_diagnostic,
}
use roborun.Runtime.Cleanup.{disconnect_for_cleanup, settle, terminal_lifecycle, finish_terminal}
use roborun.Runtime.Resetting.{reset_allowed}
use roborun.Runtime.Resetting.Gate.{MayReset, MayReset→reset_allowed}
use roborun.Runtime.Controls.{
  handle_control, control_action, handle_estop, estop_working, emergency_without_backend,
}

-- A session with no workcell that ended and can be reset, but for its lifecycle.
record Ended (s : Session) : Type 0 where
  workcell : s.setup.has_workcell ≡ false
  connected : s.connected ≡ false
  trusted : s.session_untrusted ≡ false
  servo : s.servo_disabled ≡ true
  idle : s.active_command ≡ none
  quiet : s.stop_episode ≡ none

finish_terminal-Ended :
    (s : Session)
    → Ended s
    → Ended (finish_terminal ExecutionOutcome.emergency_stopped s)
      × ((finish_terminal ExecutionOutcome.emergency_stopped s).lifecycle_state
          ≡ LifecycleState.emergency_stopped)
unfolding finish_terminal disconnect_for_cleanup settle terminal_lifecycle synchronize_result_state
finish_terminal-Ended s d = grind arith

emergency_without_backend-Ended :
    (e : RuntimeEvent) (s : Session)
    → Ended s
    → Ended (emergency_without_backend e s)
      × ((emergency_without_backend e s).lifecycle_state ≡ LifecycleState.emergency_stopped)
unfolding emergency_without_backend append_control_trace push_trace raise_alarm add_diagnostic
emergency_without_backend-Ended e s d = finish_terminal-Ended _ (record {
  workcell = d.workcell;
  connected = d.connected;
  trusted = d.trusted;
  servo = d.servo;
  idle = d.idle;
  quiet = d.quiet;
})

estop_without_work :
    (e : RuntimeEvent) (s : Session)
    → Ended s
    → s.lifecycle_state ≡ LifecycleState.faulted
    → handle_estop e s ≡ ok tt (emergency_without_backend e s)
unfolding handle_estop estop_working
estop_without_work e s d h = grind arith

estop_controls :
    (e : RuntimeEvent) (s : Session)
    → e.control_type ≡ ControlType.estop
    → Ended s
    → s.lifecycle_state ≡ LifecycleState.faulted
    → handle_control e s ≡ ok tt (synchronize_result_state (emergency_without_backend e s))
unfolding handle_control control_action
estop_controls e s a d h = let q = estop_without_work e s d h in grind (arith, a, q)

synchronize_result_state-MayReset :
    (s : Session)
    → Ended s
    → s.lifecycle_state ≡ LifecycleState.emergency_stopped
    → MayReset (synchronize_result_state s)
unfolding synchronize_result_state
synchronize_result_state-MayReset s d h = record {
  ended = inl h;
  idle = d.idle;
  quiet = d.quiet;
  servo = d.servo;
  trusted = d.trusted;
  safe = inl d.workcell;
}

-- A session with no workcell that ended in a fault, disconnected, trusted, with its servo off and
-- nothing pending, may be reset once an ESTOP has been handled, whether its primary alarm is
-- recoverable or not.
pub estop_opens_reset :
    (e : RuntimeEvent) (s : Session)
    → e.control_type ≡ ControlType.estop
    → s.lifecycle_state ≡ LifecycleState.faulted
    → s.setup.has_workcell ≡ false
    → s.connected ≡ false
    → s.session_untrusted ≡ false
    → s.servo_disabled ≡ true
    → s.active_command ≡ none
    → s.stop_episode ≡ none
    → reset_allowed (after (handle_control e s)) ≡ true
estop_opens_reset e s a b c d f g h i =
    let ended : Ended s = record {
      workcell = c;
      connected = d;
      trusted = f;
      servo = g;
      idle = h;
      quiet = i;
    } in
    let q = emergency_without_backend-Ended e s ended in
    rw (estop_controls e s a ended b)
      (MayReset→reset_allowed _ (synchronize_result_state-MayReset _ q.0 q.1))
