-- ===== src/Runtime/Stopping.antt =====
-- Stop episodes and faults (runtime.cpp): BeginStop, HandleStopPoll and BeginFault.
pub mod Emergency
pub mod Timeout
use roborun.Prelude.{
  ℕ, pos, ◌+◌, ◌%◌, ◌==◌, lebℤ, maxℤ, minℤ, Bool, true, false, not, ◌&&◌, ◌||◌, String, List, [],
  ◌∷◌, Option, none, some, value_or, has_value, Outcome, ok, threw, modify, ◌>>=◌, ◌>>◌,
  if◌then◌else◌,
}
use roborun.Types.{
  BusinessTime, LifecycleState, ControlSubmissionStatus, BackendOperationState, StopReason,
  StopStatus, StopDisposition, StopSubmissionStatus, WorkcellCommandStatus, DiagnosticCode,
  AlarmSeverity, AlarmRecoveryCondition, RuntimeEventPriority, RuntimeEventType, StopSubmission,
  StopSnapshot, WorkcellCommandSubmission,
}
use roborun.Types.Names.{diagnostic_code_to_string}
use roborun.Clock.{saturating_business_time_add}
use roborun.EventQueue.{RuntimeEvent, EventScheduleRequest, no_command_index, u64_mod}
use roborun.Runtime.State.{
  Session, StopEpisode, submit_stop, poll_stop, request_safe_state, invoke, now, M,
}
use roborun.Runtime.Records.{raise_alarm, append_control_trace, synchronize_result_state}
use roborun.Runtime.Cleanup.{raise_permanent, finish_fault, fail_stop}
use roborun.Runtime.Scheduling.{schedule_event, plain_request, or_message}
use roborun.Runtime.Confirmation.{handle_stop_confirmed}

unfoldable pub stop_poll_at : BusinessTime → ℕ → EventScheduleRequest
stop_poll_at time episode =
    plain_request time RuntimeEventPriority.external_feedback RuntimeEventType.stop_poll ""
      no_command_index 0 episode

unfoldable pub stop_timeout_at : BusinessTime → ℕ → EventScheduleRequest
stop_timeout_at time episode =
    plain_request time RuntimeEventPriority.timeout RuntimeEventType.backend_fault "stop_timeout"
      no_command_index 0 episode

-- `SubmitStop` while an episode is open: an emergency takes it over, anything else is ignored.
unfoldable pub escalates : StopReason → StopDisposition → Bool
escalates StopReason.emergency StopDisposition.emergency = false
escalates StopReason.emergency _ = true
escalates _ _ = false

unfoldable pub traced_control :
    Option RuntimeEvent
    → ControlSubmissionStatus
    → String
    → LifecycleState
    → StopReason
    → Session
    → Session
traced_control none status cause before reason s = s
traced_control (some event) status cause before reason s =
    append_control_trace event status cause before (some reason) (some StopStatus.stopping) s

unfoldable pub stop_pending : StopReason → Option RuntimeEvent → StopEpisode → Session → Session
stop_pending reason control_event episode s =
    if escalates reason episode.disposition
    then synchronize_result_state (
        traced_control control_event ControlSubmissionStatus.accepted
          "emergency_escalates_pending_stop" s.lifecycle_state reason
          (record s {
            stop_episode = some (record episode {
              reason = StopReason.emergency;
              disposition = StopDisposition.emergency;
            });
            lifecycle_state = LifecycleState.emergency_stopping;
          }))
    else traced_control control_event ControlSubmissionStatus.ignored "stop_already_pending"
        s.lifecycle_state reason s

unfoldable pub stop_lifecycle : StopDisposition → LifecycleState
stop_lifecycle StopDisposition.pause = LifecycleState.pausing
stop_lifecycle StopDisposition.emergency = LifecycleState.emergency_stopping
stop_lifecycle _ = LifecycleState.stopping

unfoldable pub open_episode :
    StopReason → StopDisposition → BusinessTime → Option RuntimeEvent → Session → Session
open_episode reason disposition deadline control_event s = record s {
  stop_episode = some (record {
    id = s.next_stop_episode_id;
    reason = reason;
    disposition = disposition;
    deadline_ms = deadline;
    control_event = control_event;
  });
  next_stop_episode_id = (s.next_stop_episode_id + 1) % u64_mod;
}

-- The part of BeginStop behind an accepted SubmitStop.
unfoldable pub stop_accepted :
    StopReason
    → StopDisposition
    → Option RuntimeEvent
    → LifecycleState
    → StopSubmission
    → M (Unit {0})
stop_accepted reason disposition control_event before submission s =
    let deadline =
      saturating_business_time_add (now s) s.setup.options.stop_confirmation_timeout_ms in
    let first_poll = minℤ deadline (
      saturating_business_time_add (now s)
        (maxℤ (pos 0) (value_or submission.poll_after_ms (pos 0)))) in
    let opened = open_episode reason disposition deadline control_event s in
    (do
      schedule_event (stop_poll_at first_poll s.next_stop_episode_id)
      schedule_event (stop_timeout_at deadline s.next_stop_episode_id)
      modify synchronize_result_state)
      (traced_control control_event ControlSubmissionStatus.accepted "stop_submitted" before reason
        (record opened {
          backend_operation_state = BackendOperationState.stopping;
          lifecycle_state = stop_lifecycle disposition;
        }))

unfoldable pub stop_answered :
    StopReason
    → StopDisposition
    → Option RuntimeEvent
    → LifecycleState
    → Outcome Session StopSubmission
    → Outcome Session (Unit {0})
stop_answered reason disposition control_event before (threw e s) =
    ok tt (fail_stop DiagnosticCode.stop_polling_failure e s)
stop_answered reason disposition control_event before (ok submission s) = elim submission.status [
  | StopSubmissionStatus.rejected ↦ ok tt (
      fail_stop DiagnosticCode.stop_rejected (or_message submission.message "backend rejected stop")
        s)
  | StopSubmissionStatus.accepted ↦
      stop_accepted reason disposition control_event before submission s
]

unfoldable pub begin_new_stop : StopReason → StopDisposition → Option RuntimeEvent → M (Unit {0})
begin_new_stop reason disposition control_event s =
    if s.connected
    then stop_answered reason disposition control_event s.lifecycle_state
        (invoke (submit_stop reason) (λ d. d.submit_stop) s)
    else handle_stop_confirmed
        (record {
          status = StopStatus.stopped;
          positions = s.latest_positions;
          backend_steps = pos 0;
          message = "";
          poll_after_ms = none;
        })
        (open_episode reason disposition (now s) control_event s)

unfoldable pub begin_stop : StopReason → StopDisposition → Option RuntimeEvent → M (Unit {0})
begin_stop reason disposition control_event s = elim s.stop_episode [
  | some episode ↦ ok tt (stop_pending reason control_event episode s)
  | none ↦ begin_new_stop reason disposition control_event s
]

unfoldable pub stop_polled : StopEpisode → Outcome Session StopSnapshot → Outcome Session (Unit {0})
stop_polled episode (threw e s) = ok tt (fail_stop DiagnosticCode.stop_polling_failure e s)
stop_polled episode (ok snapshot s) =
    let moved = record s { latest_positions = snapshot.positions } in
    elim snapshot.status [
      | StopStatus.failed ↦ ok tt (
          fail_stop DiagnosticCode.stop_polling_failure
            (or_message snapshot.message "backend stop polling failed") moved)
      | StopStatus.stopping ↦
          if lebℤ episode.deadline_ms (now moved)
          then ok tt (
              fail_stop DiagnosticCode.stop_confirmation_timeout
                "backend did not confirm stop before deadline" moved)
          else schedule_event
              (stop_poll_at
                (minℤ episode.deadline_ms (
                  saturating_business_time_add (now moved) (
                    maxℤ (pos 1)
                      (value_or snapshot.poll_after_ms moved.setup.options.default_stop_poll_ms))))
                episode.id)
              moved
      | StopStatus.stopped ↦ handle_stop_confirmed snapshot moved
    ]

unfoldable pub handle_stop_poll : RuntimeEvent → M (Unit {0})
handle_stop_poll event s = elim s.stop_episode [
  | none ↦ ok tt s
  | some episode ↦
      if event.stop_episode_id == episode.id
      then stop_polled episode (invoke poll_stop (λ d. d.poll_stop) s)
      else ok tt s
]

unfoldable pub fault_conditions : Bool → List AlarmRecoveryCondition
fault_conditions true =
    AlarmRecoveryCondition.no_active_command ∷ AlarmRecoveryCondition.backend_stopped
    ∷ AlarmRecoveryCondition.servo_disabled ∷ []
fault_conditions false = AlarmRecoveryCondition.new_backend_session ∷ []

unfoldable pub raise_first_fault : DiagnosticCode → String → Bool → Session → Session
raise_first_fault code message recoverable s =
    if has_value s.result.primary_alarm_index
    then s
    else raise_alarm code AlarmSeverity.fault "runtime" (diagnostic_code_to_string code) message
        recoverable (fault_conditions recoverable) s

unfoldable pub safe_request_answer : Bool → WorkcellCommandSubmission → Session → Session
safe_request_answer distrust submission s = elim submission.status [
  | WorkcellCommandStatus.accepted ↦ s
  | WorkcellCommandStatus.rejected ↦
      let raised =
        raise_permanent DiagnosticCode.backend_failure "workcell" "safe_state_rejected"
          submission.message s in
      record raised { session_untrusted = s.session_untrusted || distrust }
]

-- The request of the safe state, once; a rejected one in an emergency also ends the trust.
unfoldable pub request_safe : StopReason → Bool → M (Unit {0})
request_safe reason distrust s =
    if s.setup.has_workcell && not s.workcell_safe_requested
    then (do
      submission ← invoke (request_safe_state reason) (λ d. d.request_safe_state)
      modify (safe_request_answer distrust submission))
        (record s {
          workcell_safe_requested = true;
          workcell_safe_deadline_ms =
              some (
                saturating_business_time_add (now s)
                  s.setup.options.workcell_safe_state_timeout_ms);
        })
    else ok tt s

unfoldable pub stop_or_finish : StopReason → M (Unit {0})
stop_or_finish stop_reason s =
    if s.connected && not (has_value s.stop_episode)
    then begin_stop stop_reason StopDisposition.fault none s
    else ok tt (finish_fault s)

unfoldable pub begin_fault : DiagnosticCode → String → Bool → StopReason → M (Unit {0})
begin_fault code message recoverable stop_reason = do
  modify (raise_first_fault code message recoverable)
  request_safe stop_reason false
  stop_or_finish stop_reason
