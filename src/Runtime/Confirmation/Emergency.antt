-- ===== src/Runtime/Confirmation/Emergency.antt =====
-- About the emergency branch of HandleStopConfirmed (runtime.cpp).
use roborun.Prelude.{
  ◌≡◌, refl, ◌⊎◌, Bool, true, false, none, some, Option, arith, List, String, if◌then◌else◌, ◌∙◌,
}
use roborun.Types.{
  DiagnosticCode, AlarmSeverity, AlarmRecoveryCondition, ExecutionOutcome, StopDisposition,
  ActiveCommand,
}
use roborun.Runtime.State.{Session, invoke}
use roborun.Runtime.Records.{
  raise_alarm, synchronize_result_state, append_trace, push_trace, add_diagnostic,
}
use roborun.Runtime.Cleanup.{
  servo_cleaned, disconnected, raise_permanent, disable_servo_for_cleanup, disconnect_for_cleanup,
  settle, finish_fault, finish_terminal,
}
use roborun.Runtime.Confirmation.{conclude_stop, finish_emergency, end_active}

-- The servo is known to be off, or the session is known not to be trusted.
abbrev pub Safe : Session → Type 0
Safe s = (s.servo_disabled ≡ true) ⊎ (s.session_untrusted ≡ true)

disable_servo-Safe : (s : Session) → s.connected ≡ true → Safe (disable_servo_for_cleanup s)
unfolding disable_servo_for_cleanup raise_permanent raise_alarm invoke servo_cleaned add_diagnostic
disable_servo-Safe s h = ground arith

disconnect-Safe : (s : Session) → Safe s → Safe (disconnect_for_cleanup s)
unfolding disconnect_for_cleanup raise_permanent raise_alarm invoke disconnected add_diagnostic
disconnect-Safe s h = ground arith

pub finish_fault-Safe : (s : Session) → Safe s → Safe (finish_fault s)
unfolding finish_fault settle synchronize_result_state disable_servo_for_cleanup
    disconnect_for_cleanup raise_permanent raise_alarm invoke servo_cleaned disconnected
    add_diagnostic
finish_fault-Safe s h = ground arith

finish_terminal-Safe : (o : ExecutionOutcome) (s : Session) → Safe s → Safe (finish_terminal o s)
unfolding finish_terminal settle synchronize_result_state
finish_terminal-Safe o s h =
    let q = disconnect-Safe s h in
    let f = finish_fault-Safe (disconnect_for_cleanup s) q in grind arith

raise_alarm-Safe :
    (c : DiagnosticCode) (v : AlarmSeverity) (a b m : String) (r : Bool)
    (cs : List AlarmRecoveryCondition) (s : Session)
    → Safe s
    → Safe (raise_alarm c v a b m r cs s)
unfolding raise_alarm add_diagnostic
raise_alarm-Safe c v a b m r cs s h = h

Safe-if : (b : Bool) (t u : Session) → Safe t → Safe u → Safe (if b then t else u)
Safe-if true t u p q = p
Safe-if false t u p q = q

finish_emergency-Safe : (s : Session) → s.connected ≡ true → Safe (finish_emergency s)
unfolding finish_emergency
finish_emergency-Safe s h =
    let d = disable_servo_for_cleanup s in
    let p = disable_servo-Safe s h in
    Safe-if d.session_untrusted _ _ (finish_fault-Safe d p) (
      finish_terminal-Safe ExecutionOutcome.emergency_stopped _
        (raise_alarm-Safe _ _ _ _ _ _ _ d p))

end_active_connected :
    (d : StopDisposition) (a : Option ActiveCommand) (s : Session)
    → (end_active d a s).connected ≡ s.connected
unfolding end_active append_trace push_trace
end_active_connected d none s = refl
end_active_connected d (some a) s = refl

-- Once an emergency stop of a connected session is confirmed, the servo is off or the session is not
-- trusted, whatever the backend answered to the cleanup.
pub emergency-Safe :
    (s : Session) → s.connected ≡ true → Safe (conclude_stop StopDisposition.emergency s)
unfolding conclude_stop
emergency-Safe s h =
    finish_emergency-Safe _ (end_active_connected StopDisposition.emergency s.active_command s ∙ h)
