-- ===== src/Runtime/Trust/Controls.antt =====
-- About HandleControl and HandleEvent (runtime.cpp), and the relation Calm.
use roborun.Prelude.{
  ◌≡◌, ◌≢◌, refl, true, String, some, arith, after, ok, threw, inr, Outcome, not, text_append,
}
use roborun.Types.{
  ControlType, ControlSubmissionStatus, LifecycleState, ActiveCommand, RuntimeEventType, StopReason,
  StopDisposition, WorkcellCommandSubmission, WorkcellSnapshot, ExecutionOutcome,
}
use roborun.EventQueue.{RuntimeEvent}
use roborun.Runtime.State.{Session, invoke, disconnect, poll_safe_state, poll_workcell}
use roborun.Runtime.Records.{
  append_trace, append_control_trace, synchronize_result_state, raise_alarm,
}
use roborun.Runtime.Cleanup.{raise_permanent}
use roborun.Runtime.Stopping.{request_safe}
use roborun.Runtime.Pausing.{pause_local_command, pause_local_active}
use roborun.Runtime.Resetting.{
  reset_session, reset_rejected, cleared, reset_disconnected, reset_revalidated, reset_polls,
  reset_workcell, revalidated,
}
use roborun.Runtime.Controls.{
  noted, pause_active_command, pause_running, handle_pause, handle_stop, stop_working, cancelling,
  has_work, emergency_without_backend, estop_working, handle_estop, control_action, handle_control,
}
use roborun.Runtime.Advance.{handle_event}
use roborun.Runtime.Workcell.{apply_workcell_snapshot}
use roborun.Runtime.Trust.{
  Calm, Calm-refl, Calm-trans, Calm-same, Calm-bind, Calm-branch, Calm-invoke,
}
use roborun.Runtime.Trust.Stops.{
  finish_terminal-Calm, begin_stop-Calm, request_safe-Calm, handle_stop_poll-Calm,
}
use roborun.Runtime.Trust.Handlers.{
  apply_workcell_snapshot-Calm, handle_external_event-Calm, handle_timeout-Calm,
  handle_motion_poll-Calm, handle_delay_complete-Calm,
}

noted-Calm :
    (e : RuntimeEvent) (c : ControlSubmissionStatus) (m : String) (s : Session)
    → Calm s (noted e c m s)
unfolding noted append_control_trace
noted-Calm e c m s = Calm-same refl refl

pause_local_command-Calm : (e : RuntimeEvent) (s : Session) → Calm s (pause_local_command e s)
unfolding pause_local_command pause_local_active append_control_trace append_trace
pause_local_command-Calm e s = ground arith

pause_active_command-Calm :
    (e : RuntimeEvent) (a : ActiveCommand) (s : Session)
    → Calm s (after (pause_active_command e a s))
unfolding pause_active_command
pause_active_command-Calm e a s =
    grind (arith, begin_stop-Calm, pause_local_command-Calm, noted-Calm)

pause_running-Calm : (e : RuntimeEvent) (s : Session) → Calm s (after (pause_running e s))
unfolding pause_running append_control_trace
pause_running-Calm e s = grind (arith, pause_active_command-Calm)

handle_pause-Calm : (e : RuntimeEvent) (s : Session) → Calm s (after (handle_pause e s))
unfolding handle_pause
handle_pause-Calm e s = grind (arith, pause_running-Calm, noted-Calm)

cancelling-Calm : (s : Session) → Calm s (cancelling s)
unfolding cancelling
cancelling-Calm s = ground arith

stop_working-Calm : (e : RuntimeEvent) (s : Session) → Calm s (after (stop_working e s))
unfolding stop_working
stop_working-Calm e s =
    grind (arith, begin_stop-Calm, cancelling-Calm, finish_terminal-Calm, noted-Calm)

handle_stop-Calm : (e : RuntimeEvent) (s : Session) → Calm s (after (handle_stop e s))
unfolding handle_stop
handle_stop-Calm e s = grind (arith, stop_working-Calm, noted-Calm)

emergency_without_backend-Calm :
    (e : RuntimeEvent) (s : Session) → Calm s (emergency_without_backend e s)
unfolding emergency_without_backend append_control_trace raise_alarm
emergency_without_backend-Calm e s =
    Calm-trans (Calm-same refl refl) (finish_terminal-Calm ExecutionOutcome.emergency_stopped _)

estop_working-Calm : (e : RuntimeEvent) (s : Session) → Calm s (after (estop_working e s))
unfolding estop_working
estop_working-Calm e s =
    Calm-branch (has_work s) s _ _
      (Calm-trans (cancelling-Calm s) (
        Calm-bind (request_safe StopReason.emergency true) _ _
          (request_safe-Calm StopReason.emergency true _)
          (λ _ t. begin_stop-Calm StopReason.emergency StopDisposition.emergency (some e) t)))
      (emergency_without_backend-Calm e s)

handle_estop-Calm : (e : RuntimeEvent) (s : Session) → Calm s (after (handle_estop e s))
unfolding handle_estop
handle_estop-Calm e s = grind (arith, estop_working-Calm, noted-Calm)

reset_rejected-Calm : (e : RuntimeEvent) (m : String) (s : Session) → Calm s (reset_rejected e m s)
unfolding reset_rejected append_control_trace
reset_rejected-Calm e m s = Calm-same refl refl

cleared-Calm : (e : RuntimeEvent) (l : LifecycleState) (s : Session) → Calm s (cleared e l s)
unfolding cleared append_control_trace synchronize_result_state
cleared-Calm e l s = Calm-same refl refl

reset_disconnected-Calm :
    (e : RuntimeEvent) (l : LifecycleState) (s : Session) (o : Outcome Session (Unit {0}))
    → Calm s (after o)
    → Calm s (reset_disconnected e l o)
unfolding reset_disconnected append_control_trace raise_permanent raise_alarm
reset_disconnected-Calm e l s (ok _ t) p =
    Calm-trans p (Calm-trans (Calm-same refl refl) (cleared-Calm e l _))
reset_disconnected-Calm e l s (threw m t) p =
    Calm-trans p (record { still = refl; trust = inr refl })

reset_revalidated-Calm :
    (e : RuntimeEvent) (p : WorkcellCommandSubmission × WorkcellSnapshot) (s : Session)
    → Calm s (after (reset_revalidated e p s))
unfolding reset_revalidated
reset_revalidated-Calm e (x, w) s =
    Calm-branch (revalidated x w s) s _ _
      (Calm-bind (apply_workcell_snapshot w) _ s (apply_workcell_snapshot-Calm w s) λ _ t.
        reset_disconnected-Calm e s.lifecycle_state t _
          (Calm-invoke disconnect (λ d. d.disconnect) t refl))
      (reset_rejected-Calm e _ s)

reset_polls-Calm : (s : Session) → Calm s (after (reset_polls s))
unfolding reset_polls
reset_polls-Calm s =
    Calm-bind (invoke poll_safe_state (λ d. d.poll_safe_state)) _ s
      (Calm-invoke poll_safe_state (λ d. d.poll_safe_state) s refl)
      λ x t.
        Calm-bind (invoke poll_workcell (λ d. d.poll_workcell)) _ t
          (Calm-invoke poll_workcell (λ d. d.poll_workcell) t refl) (λ w u. Calm-refl u)

reset_workcell-Calm : (e : RuntimeEvent) (s : Session) → Calm s (after (reset_workcell e s))
unfolding reset_workcell
reset_workcell-Calm e s =
    Calm-branch (not s.connected) s _ _ (reset_rejected-Calm e _ s)
      (go (reset_polls s) (reset_polls-Calm s))
  where
    go :
        (o : Outcome Session (WorkcellCommandSubmission × WorkcellSnapshot))
        → Calm s (after o)
        → Calm s (
            after (elim o [
              | threw m s' ↦
                  ok tt (reset_rejected e (text_append "reset_workcell_revalidation_failed: " m) s')
              | ok polled s' ↦ reset_revalidated e polled s'
            ]))
    go (ok x t) p = Calm-trans p (reset_revalidated-Calm e x t)
    go (threw m t) p = Calm-trans p (reset_rejected-Calm e _ t)

reset_session-Calm : (e : RuntimeEvent) (s : Session) → Calm s (after (reset_session e s))
unfolding reset_session
reset_session-Calm e s = grind (arith, reset_rejected-Calm, reset_workcell-Calm, cleared-Calm)

-- No control but RESUME starts a motion, and none gives trust back.
handle_control-Calm :
    (e : RuntimeEvent) (s : Session)
    → e.control_type ≢ ControlType.resume
    → Calm s (after (handle_control e s))
unfolding handle_control
handle_control-Calm e s h =
    Calm-bind (control_action e.control_type e) _ s (go e.control_type h)
      (λ _ t. unfold synchronize_result_state in Calm-same refl refl)
  where
    go : (c : ControlType) → c ≢ ControlType.resume → Calm s (after (control_action c e s))
    go ControlType.pause k = unfold control_action in handle_pause-Calm e s
    go ControlType.resume k = absurd (k refl)
    go ControlType.stop k = unfold control_action in handle_stop-Calm e s
    go ControlType.estop k = unfold control_action in handle_estop-Calm e s
    go ControlType.reset k = unfold control_action in reset_session-Calm e s
    go ControlType.no_control k = unfold control_action in noted-Calm e _ _ s

-- Whatever event the runtime handles, unless it is a RESUME: no motion is started and no servo
-- enabled, and a session that is not trusted stays so, also where the handler throws.
pub handle_event-Calm :
    (e : RuntimeEvent) (s : Session)
    → (e.type ≡ RuntimeEventType.control → e.control_type ≢ ControlType.resume)
    → Calm s (after (handle_event e s))
unfolding handle_event
handle_event-Calm e s h = grind (
  arith, handle_control-Calm, handle_motion_poll-Calm, handle_delay_complete-Calm,
  handle_stop_poll-Calm, handle_external_event-Calm, handle_timeout-Calm,
)
