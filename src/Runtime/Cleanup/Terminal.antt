-- ===== src/Runtime/Cleanup/Terminal.antt =====
-- About FinishFault, FinishTerminal and FailStop (runtime.cpp).
use roborun.Prelude.{
  ◌≡◌, refl, ◌⊎◌, Bool, true, false, String, none, arith, inl, inr, ◌∙◌, if◌then◌else◌,
}
use roborun.Types.{RuntimeState, LifecycleState, ExecutionOutcome, DiagnosticCode}
use roborun.Runtime.State.{Session, invoke}
use roborun.Runtime.Records.{raise_alarm, synchronize_result_state}
use roborun.Runtime.Cleanup.{
  servo_cleaned, disconnected, raise_permanent, disable_servo_for_cleanup, disconnect_for_cleanup,
  settle, finish_fault, finish_terminal, fail_stop, terminal_lifecycle, completed,
}

-- The task is over with a fault: nothing is active, no stop is pending, and the result says so.
pub record Faulted (s : Session) : Type 0 where
  pub terminal : s.task_terminal ≡ true
  pub state : s.state ≡ RuntimeState.faulted
  pub lifecycle : s.lifecycle_state ≡ LifecycleState.faulted
  pub outcome : s.result.outcome ≡ ExecutionOutcome.faulted
  pub failed : s.result.succeeded ≡ false
  pub idle : s.active_command ≡ none
  pub quiet : s.stop_episode ≡ none
  pub mirrored : s.result.lifecycle_state ≡ s.lifecycle_state

pub finish_fault-Faulted : (s : Session) → Faulted (finish_fault s)
unfolding finish_fault settle synchronize_result_state
finish_fault-Faulted s = ground arith

-- The servo of a connected session is off after a fault, or the session is no longer trusted.
finish_fault_servo :
    (s : Session)
    → (s.connected ≡ false)
      ⊎ ((finish_fault s).servo_disabled ≡ true)
      ⊎ ((finish_fault s).session_untrusted ≡ true)
unfolding finish_fault settle synchronize_result_state disable_servo_for_cleanup
    disconnect_for_cleanup raise_permanent raise_alarm invoke servo_cleaned disconnected
finish_fault_servo s = ground arith

-- The task is over as an outcome wants it: the result reports that outcome, and success exactly if
-- it is the end of the program.
pub record Concluded (o : ExecutionOutcome) (s : Session) : Type 0 where
  pub terminal : s.task_terminal ≡ true
  pub state : s.state ≡ RuntimeState.stopped
  pub lifecycle : s.lifecycle_state ≡ terminal_lifecycle o
  pub outcome : s.result.outcome ≡ o
  pub succeeded : s.result.succeeded ≡ completed o
  pub mirrored : s.result.lifecycle_state ≡ s.lifecycle_state

settle-Concluded :
    (o : ExecutionOutcome) (s : Session)
    → Concluded o (settle RuntimeState.stopped (terminal_lifecycle o) (completed o) o s)
unfolding settle synchronize_result_state
settle-Concluded o s = ground arith

settle_trust :
    (x : RuntimeState) (l : LifecycleState) (b : Bool) (o : ExecutionOutcome) (s : Session)
    → (settle x l b o s).session_untrusted ≡ s.session_untrusted
unfolding settle synchronize_result_state
settle_trust x l b o s = refl

finish_fault_untrusted :
    (s : Session) → s.session_untrusted ≡ true → (finish_fault s).session_untrusted ≡ true
unfolding finish_fault settle synchronize_result_state disable_servo_for_cleanup
    disconnect_for_cleanup raise_permanent raise_alarm invoke servo_cleaned disconnected
finish_fault_untrusted s h = ground arith

-- The end of a task is the one that was asked for in a session that is trusted after the cleanup,
-- and a fault in one that is not: never a success, whatever outcome was asked for.
pub finish_terminal_honest :
    (o : ExecutionOutcome) (s : Session)
    → (((finish_terminal o s).session_untrusted ≡ false) × Concluded o (finish_terminal o s))
      ⊎ (((finish_terminal o s).session_untrusted ≡ true) × Faulted (finish_terminal o s))
unfolding finish_terminal
finish_terminal_honest o s = go c.session_untrusted refl
  where
    c : Session
    c = disconnect_for_cleanup s

    settled : Session
    settled = settle RuntimeState.stopped (terminal_lifecycle o) (completed o) o c

    go :
        (b : Bool)
        → c.session_untrusted ≡ b
        → (((if b then finish_fault c else settled).session_untrusted ≡ false)
            × Concluded o (if b then finish_fault c else settled))
          ⊎ (((if b then finish_fault c else settled).session_untrusted ≡ true)
              × Faulted (if b then finish_fault c else settled))
    go true h = inr (finish_fault_untrusted c h, finish_fault-Faulted c)
    go false h = inl (
      settle_trust RuntimeState.stopped (terminal_lifecycle o) (completed o) o c ∙ h,
      settle-Concluded o c,
    )

-- FailStop, with any code and message and whatever the backend answers to the cleanup, ends the
-- task in a fault and ends the trust in the session.
pub fail_stop-Faulted :
    (c : DiagnosticCode) (m : String) (s : Session)
    → Faulted (fail_stop c m s) × ((fail_stop c m s).session_untrusted ≡ true)
unfolding fail_stop
fail_stop-Faulted c m s = (finish_fault-Faulted _, finish_fault_untrusted _ refl)
