-- ===== src/Runtime/Trust/Handlers.antt =====
-- About the handlers of the events that are no control (runtime.cpp), and the relation Calm.
use roborun.Prelude.{
  ℕ, ◌>>=◌, refl, false, String, Option, none, some, arith, after, ok, threw, Outcome,
}
use roborun.Types.{
  MotionSnapshot, WorkcellSnapshot, DiagnosticCode, StopReason, BusinessTime, ActiveCommand,
  Command, CommandType,
}
use roborun.EventQueue.{RuntimeEvent}
use roborun.Runtime.State.{Session, M, invoke, poll_workcell, poll_motion}
use roborun.Runtime.Records.{append_trace}
use roborun.Runtime.Workcell.{
  finish_active_success, succeed, apply_workcell_snapshot, apply_fresh, fail_active, adopt, observe,
  tool_reached,
}
use roborun.Runtime.Feedback.{
  handle_timeout, command_timed_out, stop_timed_out, handle_delay_complete, digital_input,
  tool_feedback, handle_external_event, schedule_motion_poll, poll_again, motion_observed,
  poll_workcell_then, poll_movej, poll_other, handle_motion_poll,
}
use roborun.Runtime.Stopping.{begin_fault}
use roborun.Runtime.Trust.{
  Calm, Calm-refl, Calm-trans, Calm-same, Calm-bind, Calm-branch, Calm-invoke,
}
use roborun.Runtime.Trust.Stops.{begin_fault-Calm, fail_stop-Calm, schedule_event-Calm}

finish_active_success-Calm :
    (c : String) (m : Option MotionSnapshot) (s : Session) → Calm s (finish_active_success c m s)
unfolding finish_active_success succeed append_trace
finish_active_success-Calm c m s = ground arith

tool_reached-Calm :
    (c : Command) (w : WorkcellSnapshot) (s : Session) → Calm s (after (tool_reached c w s))
unfolding tool_reached
tool_reached-Calm c w s = grind (arith, begin_fault-Calm, finish_active_success-Calm)

observe-Calm :
    (t : CommandType) (c : Command) (w : WorkcellSnapshot) (s : Session)
    → Calm s (after (observe t c w s))
unfolding observe
observe-Calm t c w s = grind (arith, tool_reached-Calm, finish_active_success-Calm)

command_timed_out-Calm :
    (a : ActiveCommand) (d : BusinessTime) (s : Session) → Calm s (after (command_timed_out a d s))
unfolding command_timed_out append_trace
command_timed_out-Calm a d s = Calm-trans (Calm-same refl refl) (begin_fault-Calm _ _ _ _ _)

pub handle_timeout-Calm : (e : RuntimeEvent) (s : Session) → Calm s (after (handle_timeout e s))
unfolding handle_timeout stop_timed_out
handle_timeout-Calm e s = grind (arith, command_timed_out-Calm, fail_stop-Calm)

pub handle_delay_complete-Calm :
    (e : RuntimeEvent) (s : Session) → Calm s (after (handle_delay_complete e s))
unfolding handle_delay_complete
handle_delay_complete-Calm e s = grind (arith, finish_active_success-Calm)

fail_active-Calm :
    (c : String) (a : Option ActiveCommand) (s : Session) → Calm s (fail_active c a s)
unfolding fail_active append_trace
fail_active-Calm c none s = Calm-refl s
fail_active-Calm c (some a) s = Calm-same refl refl

adopt-Calm : (w : WorkcellSnapshot) (s : Session) → Calm s (adopt w s)
unfolding adopt
adopt-Calm w s = Calm-same refl refl

apply_fresh-Calm : (w : WorkcellSnapshot) (s : Session) → Calm s (after (apply_fresh w s))
unfolding apply_fresh
apply_fresh-Calm w s = grind (arith, adopt-Calm, fail_active-Calm, begin_fault-Calm, observe-Calm)

pub apply_workcell_snapshot-Calm :
    (w : WorkcellSnapshot) (s : Session) → Calm s (after (apply_workcell_snapshot w s))
unfolding apply_workcell_snapshot
apply_workcell_snapshot-Calm w s = grind (arith, begin_fault-Calm, apply_fresh-Calm)

digital_input-Calm : (e : RuntimeEvent) (s : Session) → Calm s (after (digital_input e s))
unfolding digital_input
digital_input-Calm e s = grind (arith, begin_fault-Calm, finish_active_success-Calm)

tool_feedback-Calm : (e : RuntimeEvent) (s : Session) → Calm s (after (tool_feedback e s))
unfolding tool_feedback
tool_feedback-Calm e s = grind (arith, begin_fault-Calm, finish_active_success-Calm)

pub handle_external_event-Calm :
    (e : RuntimeEvent) (s : Session) → Calm s (after (handle_external_event e s))
unfolding handle_external_event
handle_external_event-Calm e s =
    grind (arith, begin_fault-Calm, digital_input-Calm, tool_feedback-Calm)

schedule_motion_poll-Calm :
    (d : BusinessTime) (g : ℕ) (s : Session) → Calm s (after (schedule_motion_poll d g s))
unfolding schedule_motion_poll
schedule_motion_poll-Calm d g s = schedule_event-Calm _ s

poll_again-Calm : (d : BusinessTime) (s : Session) → Calm s (after (poll_again d s))
unfolding poll_again
poll_again-Calm d s = grind (arith, schedule_motion_poll-Calm)

motion_observed-Calm : (w : MotionSnapshot) (s : Session) → Calm s (after (motion_observed w s))
unfolding motion_observed append_trace
motion_observed-Calm w s =
    grind (arith, poll_again-Calm, begin_fault-Calm, finish_active_success-Calm)

polled_and_applied-Calm :
    (s : Session)
    → Calm s
        (after ((do w ← invoke poll_workcell (λ d. d.poll_workcell); apply_workcell_snapshot w) s))
polled_and_applied-Calm s =
    Calm-bind (invoke poll_workcell (λ d. d.poll_workcell)) apply_workcell_snapshot s
      (Calm-invoke poll_workcell (λ d. d.poll_workcell) s refl)
      (λ w t. apply_workcell_snapshot-Calm w t)

poll_workcell_then-Calm :
    (rest : M (Unit {0}))
    → ((t : Session) → Calm t (after (rest t)))
    → (s : Session) → Calm s (after (poll_workcell_then rest s))
unfolding poll_workcell_then
poll_workcell_then-Calm rest h s =
    go ((do w ← invoke poll_workcell (λ d. d.poll_workcell); apply_workcell_snapshot w) s)
      (polled_and_applied-Calm s)
  where
    go :
        (o : Outcome Session (Unit {0}))
        → Calm s (after o)
        → Calm s (
            after (elim o [
              | ok _ s' ↦ rest s'
              | threw e s' ↦
                  begin_fault DiagnosticCode.workcell_snapshot_failure e false
                    StopReason.fault_cleanup s'
            ]))
    go (ok _ t) p = Calm-trans p (h t)
    go (threw e t) p = Calm-trans p (begin_fault-Calm _ e _ _ t)

poll_movej-Calm : (s : Session) → Calm s (after (poll_movej s))
unfolding poll_movej
poll_movej-Calm s =
    Calm-bind (invoke poll_motion (λ d. d.poll_motion)) _ s
      (Calm-invoke poll_motion (λ d. d.poll_motion) s refl)
      λ w t. Calm-trans (Calm-same refl refl) (
        Calm-branch t.setup.has_workcell _ _ _
          (poll_workcell_then-Calm (motion_observed w) (motion_observed-Calm w) _)
          (motion_observed-Calm w _))

poll_other-Calm : (s : Session) → Calm s (after (poll_other s))
unfolding poll_other
poll_other-Calm s =
    Calm-branch s.setup.has_workcell s _ _ (poll_workcell_then-Calm _ (λ t. poll_again-Calm _ t) s)
      (Calm-refl s)

pub handle_motion_poll-Calm :
    (e : RuntimeEvent) (s : Session) → Calm s (after (handle_motion_poll e s))
unfolding handle_motion_poll
handle_motion_poll-Calm e s = grind (arith, poll_movej-Calm, poll_other-Calm)
