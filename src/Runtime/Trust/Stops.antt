-- ===== src/Runtime/Trust/Stops.antt =====
-- About the cleanup, the stop episodes and BeginFault (runtime.cpp), and the relation Calm.
use roborun.Prelude.{
  refl, Bool, false, String, Option, none, some, arith, after, ok, threw, inr, Outcome, modify,
  lebℤ, minℤ, maxℤ, pos, value_or, has_value, not, ◌&&◌, ◌==◌, if◌then◌else◌,
}
use roborun.Clock.{saturating_business_time_add}
use roborun.Types.{
  ExecutionOutcome, DiagnosticCode, StopDisposition, StopReason, LifecycleState, StopSnapshot,
  StopSubmission, StopSubmissionStatus, StopStatus, ActiveCommand, ControlSubmissionStatus,
  WorkcellCommandSubmission,
}
use roborun.EventQueue.{EventScheduleRequest, RuntimeEvent, schedule}
use roborun.Runtime.State.{
  Session, StopEpisode, now, invoke, submit_stop, poll_stop, request_safe_state,
}
use roborun.Runtime.Records.{
  raise_alarm, synchronize_result_state, append_trace, append_control_trace,
}
use roborun.Runtime.Cleanup.{
  raise_permanent, servo_cleaned, disconnected, disable_servo_for_cleanup, disconnect_for_cleanup,
  settle, finish_fault, finish_terminal, fail_stop,
}
use roborun.Runtime.Scheduling.{schedule_event, scheduled, or_message}
use roborun.Runtime.Confirmation.{
  raise_safe_timeout, safe_answer, confirm_safe_state, pause_active, end_active, finish_emergency,
  conclude_stop, stop_confirmed, handle_stop_confirmed,
}
use roborun.Runtime.Stopping.{
  traced_control, stop_pending, open_episode, stop_accepted, stop_answered, begin_new_stop,
  begin_stop, stop_poll_at, stop_polled, handle_stop_poll, raise_first_fault, safe_request_answer,
  request_safe, stop_or_finish, begin_fault,
}
use roborun.Runtime.Trust.{
  Calm, Calm-refl, Calm-trans, Calm-same, Calm-bind, Calm-if, Calm-branch, Calm-invoke,
}

disable_servo-Calm : (s : Session) → Calm s (disable_servo_for_cleanup s)
unfolding disable_servo_for_cleanup servo_cleaned invoke raise_permanent raise_alarm
disable_servo-Calm s = ground arith

disconnect-Calm : (s : Session) → Calm s (disconnect_for_cleanup s)
unfolding disconnect_for_cleanup disconnected invoke raise_permanent raise_alarm
disconnect-Calm s = ground arith

finish_fault-Calm : (s : Session) → Calm s (finish_fault s)
unfolding finish_fault settle synchronize_result_state
finish_fault-Calm s =
    ground (arith, disable_servo-Calm s, disconnect-Calm (disable_servo_for_cleanup s))

pub finish_terminal-Calm : (o : ExecutionOutcome) (s : Session) → Calm s (finish_terminal o s)
unfolding finish_terminal settle synchronize_result_state
finish_terminal-Calm o s =
    ground (arith, disconnect-Calm s, finish_fault-Calm (disconnect_for_cleanup s))

pub fail_stop-Calm : (c : DiagnosticCode) (m : String) (s : Session) → Calm s (fail_stop c m s)
unfolding fail_stop raise_permanent raise_alarm
fail_stop-Calm c m s = Calm-trans (record { still = refl; trust = inr refl }) (finish_fault-Calm _)

pub schedule_event-Calm :
    (r : EventScheduleRequest) (s : Session) → Calm s (after (schedule_event r s))
unfolding schedule_event scheduled schedule
schedule_event-Calm r s = ground arith

confirm_safe_state-Calm :
    (d : StopDisposition) (s : Session) → Calm s (after (confirm_safe_state d s))
unfolding confirm_safe_state raise_safe_timeout safe_answer invoke raise_permanent raise_alarm
confirm_safe_state-Calm d s = ground arith

end_active-Calm :
    (d : StopDisposition) (a : Option ActiveCommand) (s : Session) → Calm s (end_active d a s)
unfolding end_active append_trace
end_active-Calm d none s = Calm-refl s
end_active-Calm d (some a) s = Calm-same refl refl

finish_emergency-Calm : (s : Session) → Calm s (finish_emergency s)
unfolding finish_emergency raise_alarm
finish_emergency-Calm s = Calm-trans (disable_servo-Calm s) (
    Calm-if (disable_servo_for_cleanup s).session_untrusted _ _ _ (finish_fault-Calm _) (
      Calm-trans (Calm-same refl refl) (finish_terminal-Calm ExecutionOutcome.emergency_stopped _)))

conclude_stop-Calm : (d : StopDisposition) (s : Session) → Calm s (conclude_stop d s)
unfolding conclude_stop synchronize_result_state pause_active append_trace
conclude_stop-Calm StopDisposition.pause s = ground arith
conclude_stop-Calm StopDisposition.fault s = finish_fault-Calm s
conclude_stop-Calm StopDisposition.emergency s =
    Calm-trans (end_active-Calm _ s.active_command s) (finish_emergency-Calm _)
conclude_stop-Calm StopDisposition.program_complete s =
    Calm-trans (end_active-Calm _ s.active_command s) (finish_terminal-Calm _ _)
conclude_stop-Calm StopDisposition.operator_stop s =
    Calm-trans (end_active-Calm _ s.active_command s) (finish_terminal-Calm _ _)

stop_confirmed-Calm :
    (w : StopSnapshot) (e : Option StopEpisode) (s : Session)
    → Calm s (after (stop_confirmed w e s))
unfolding stop_confirmed
stop_confirmed-Calm w none s = Calm-refl s
stop_confirmed-Calm w (some e) s = Calm-trans (Calm-same refl refl) (
    Calm-bind (confirm_safe_state e.disposition) (λ _. modify (conclude_stop e.disposition)) _
      (confirm_safe_state-Calm e.disposition _) (λ _ t. conclude_stop-Calm e.disposition t))

handle_stop_confirmed-Calm :
    (w : StopSnapshot) (s : Session) → Calm s (after (handle_stop_confirmed w s))
unfolding handle_stop_confirmed
handle_stop_confirmed-Calm w s = stop_confirmed-Calm w s.stop_episode s

traced_control-Calm :
    (e : Option RuntimeEvent) (c : ControlSubmissionStatus) (m : String) (b : LifecycleState)
    (r : StopReason) (s : Session)
    → Calm s (traced_control e c m b r s)
unfolding traced_control append_control_trace
traced_control-Calm none c m b r s = Calm-refl s
traced_control-Calm (some e) c m b r s = Calm-same refl refl

stop_pending-Calm :
    (r : StopReason) (c : Option RuntimeEvent) (e : StopEpisode) (s : Session)
    → Calm s (stop_pending r c e s)
unfolding stop_pending synchronize_result_state traced_control append_control_trace
stop_pending-Calm r c e s = ground arith

stop_accepted-Calm :
    (r : StopReason) (d : StopDisposition) (c : Option RuntimeEvent) (b : LifecycleState)
    (w : StopSubmission) (s : Session)
    → Calm s (after (stop_accepted r d c b w s))
unfolding stop_accepted open_episode synchronize_result_state
stop_accepted-Calm r d c b w s =
    Calm-trans (Calm-trans (Calm-same refl refl) (traced_control-Calm c _ _ b r _)) (
      Calm-bind (schedule_event _) _ _ (schedule_event-Calm _ _) λ _ t.
        Calm-bind (schedule_event _) _ _ (schedule_event-Calm _ _) λ _ u. Calm-same refl refl)

stop_answered-Calm :
    (r : StopReason) (d : StopDisposition) (c : Option RuntimeEvent) (b : LifecycleState)
    (s : Session) (o : Outcome Session StopSubmission)
    → Calm s (after o)
    → Calm s (after (stop_answered r d c b o))
unfolding stop_answered
stop_answered-Calm r d c b s (threw e t) p = Calm-trans p (fail_stop-Calm _ e t)
stop_answered-Calm r d c b s (ok w t) p = Calm-trans p (go w.status)
  where
    go :
        (x : StopSubmissionStatus)
        → Calm t (
            after (elim x [
              | StopSubmissionStatus.rejected ↦ ok tt (
                  fail_stop DiagnosticCode.stop_rejected
                    (or_message w.message "backend rejected stop")
                    t)
              | StopSubmissionStatus.accepted ↦ stop_accepted r d c b w t
            ]))
    go StopSubmissionStatus.rejected = fail_stop-Calm _ _ t
    go StopSubmissionStatus.accepted = stop_accepted-Calm r d c b w t

begin_new_stop-Calm :
    (r : StopReason) (d : StopDisposition) (c : Option RuntimeEvent) (s : Session)
    → Calm s (after (begin_new_stop r d c s))
unfolding begin_new_stop open_episode
begin_new_stop-Calm r d c s =
    Calm-branch s.connected _ _ _
      (stop_answered-Calm r d c _ s _ (Calm-invoke (submit_stop r) (λ x. x.submit_stop) s refl))
      (Calm-trans (Calm-same refl refl) (handle_stop_confirmed-Calm _ _))

pub begin_stop-Calm :
    (r : StopReason) (d : StopDisposition) (c : Option RuntimeEvent) (s : Session)
    → Calm s (after (begin_stop r d c s))
unfolding begin_stop
begin_stop-Calm r d c s = go s.stop_episode
  where
    go :
        (e : Option StopEpisode)
        → Calm s (
            after (elim e [
              | some episode ↦ ok tt (stop_pending r c episode s)
              | none ↦ begin_new_stop r d c s
            ]))
    go none = begin_new_stop-Calm r d c s
    go (some e) = stop_pending-Calm r c e s

stop_polled-Calm :
    (e : StopEpisode) (s : Session) (o : Outcome Session StopSnapshot)
    → Calm s (after o)
    → Calm s (after (stop_polled e o))
unfolding stop_polled
stop_polled-Calm e s (threw m t) p = Calm-trans p (fail_stop-Calm _ m t)
stop_polled-Calm e s (ok w t) p = Calm-trans p (Calm-trans (Calm-same refl refl) (go w.status))
  where
    moved : Session
    moved = record t { latest_positions = w.positions }

    go :
        (x : StopStatus)
        → Calm moved (
            after (elim x [
              | StopStatus.failed ↦ ok tt (
                  fail_stop DiagnosticCode.stop_polling_failure
                    (or_message w.message "backend stop polling failed")
                    moved)
              | StopStatus.stopping ↦
                  if lebℤ e.deadline_ms (now moved)
                  then ok tt (
                      fail_stop DiagnosticCode.stop_confirmation_timeout
                        "backend did not confirm stop before deadline" moved)
                  else schedule_event
                      (stop_poll_at
                        (minℤ e.deadline_ms (
                          saturating_business_time_add (now moved) (
                            maxℤ
                              (pos 1)
                              (value_or w.poll_after_ms moved.setup.options.default_stop_poll_ms))))
                        e.id)
                      moved
              | StopStatus.stopped ↦ handle_stop_confirmed w moved
            ]))
    go StopStatus.failed = fail_stop-Calm _ _ moved
    go StopStatus.stopping =
        Calm-branch (lebℤ e.deadline_ms (now moved)) moved _ _ (fail_stop-Calm _ _ moved)
          (schedule_event-Calm _ moved)
    go StopStatus.stopped = handle_stop_confirmed-Calm w moved

pub handle_stop_poll-Calm : (e : RuntimeEvent) (s : Session) → Calm s (after (handle_stop_poll e s))
unfolding handle_stop_poll
handle_stop_poll-Calm e s = go s.stop_episode
  where
    go :
        (x : Option StopEpisode)
        → Calm s (
            after (elim x [
              | none ↦ ok tt s
              | some episode ↦
                  if e.stop_episode_id == episode.id
                  then stop_polled episode (invoke poll_stop (λ d. d.poll_stop) s)
                  else ok tt s
            ]))
    go none = Calm-refl s
    go (some x) =
        Calm-branch (e.stop_episode_id == x.id) s _ _
          (stop_polled-Calm x s _ (Calm-invoke poll_stop (λ d. d.poll_stop) s refl)) (Calm-refl s)

raise_first_fault-Calm :
    (c : DiagnosticCode) (m : String) (b : Bool) (s : Session) → Calm s (raise_first_fault c m b s)
unfolding raise_first_fault raise_alarm
raise_first_fault-Calm c m b s = ground arith

safe_request_answer-Calm :
    (b : Bool) (w : WorkcellCommandSubmission) (s : Session) → Calm s (safe_request_answer b w s)
unfolding safe_request_answer raise_permanent raise_alarm
safe_request_answer-Calm b w s = ground arith

pub request_safe-Calm :
    (r : StopReason) (b : Bool) (s : Session) → Calm s (after (request_safe r b s))
unfolding request_safe
request_safe-Calm r b s =
    Calm-branch (s.setup.has_workcell && not s.workcell_safe_requested) s _ _
      (Calm-trans (Calm-same refl refl) (
        Calm-bind (invoke (request_safe_state r) (λ d. d.request_safe_state)) _ _
          (Calm-invoke (request_safe_state r) (λ d. d.request_safe_state) _ refl)
          (λ w t. safe_request_answer-Calm b w t)))
      (Calm-refl s)

stop_or_finish-Calm : (r : StopReason) (s : Session) → Calm s (after (stop_or_finish r s))
unfolding stop_or_finish
stop_or_finish-Calm r s =
    Calm-branch (s.connected && not (has_value s.stop_episode)) s _ _
      (begin_stop-Calm r StopDisposition.fault none s) (finish_fault-Calm s)

pub begin_fault-Calm :
    (c : DiagnosticCode) (m : String) (b : Bool) (r : StopReason) (s : Session)
    → Calm s (after (begin_fault c m b r s))
unfolding begin_fault
begin_fault-Calm c m b r s = Calm-trans (raise_first_fault-Calm c m b s) (
    Calm-bind (request_safe r false) _ _ (request_safe-Calm r false _)
      (λ _ t. stop_or_finish-Calm r t))
