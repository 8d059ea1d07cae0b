-- ===== src/Runtime/Advance.antt =====
-- HandleEvent, Advance and the submissions of controls (runtime.cpp).
pub mod Preemption
use roborun.Prelude.{
  ℕ, ◌+◌, ◌%◌, ◌==◌, ltb, ltbℤ, lebℤ, Bool, true, false, not, ◌&&◌, ◌||◌, String, str_eq, none,
  some, has_value, Outcome, ok, threw, ◌>>◌, if◌then◌else◌,
}
use roborun.Types.{
  BusinessTime, LifecycleState, ControlType, ControlSubmissionStatus, StopReason, DiagnosticCode,
  RuntimeEventType, ExecutionAdvanceResult, is_lifecycle,
}
use roborun.Clock.{Clock, advance_to}
use roborun.EventQueue.{EventQueue, RuntimeEvent, schedule_control, peek_next, pop_next, u64_mod}
use roborun.Runtime.State.{Session, M, now}
use roborun.Runtime.Stopping.{handle_stop_poll, begin_fault}
use roborun.Runtime.Feedback.{
  handle_external_event, handle_timeout, handle_motion_poll, handle_delay_complete,
}
use roborun.Runtime.Controls.{handle_control}
use roborun.Runtime.Commands.{handle_next_command}

unfoldable pub handle_event : RuntimeEvent → M (Unit {0})
handle_event event s = elim event.type [
  | RuntimeEventType.control ↦ handle_control event s
  | RuntimeEventType.motion_poll ↦ handle_motion_poll event s
  | RuntimeEventType.delay_complete ↦ handle_delay_complete event s
  | RuntimeEventType.stop_poll ↦ handle_stop_poll event s
  | RuntimeEventType.digital_input ↦ handle_external_event event s
  | RuntimeEventType.tool_feedback ↦ handle_external_event event s
  | RuntimeEventType.backend_fault ↦
      if str_eq event.detail "timeout" || str_eq event.detail "stop_timeout"
      then handle_timeout event s
      else handle_external_event event s
]

unfoldable pub clock_moved : Session → Outcome Clock (Unit {0}) → Outcome Session (Unit {0})
clock_moved s (ok _ c) = ok tt (record s { clock = some c })
clock_moved s (threw e c) = threw e (record s { clock = some c })

-- AdvanceClockTo.
unfoldable pub advance_clock_to : BusinessTime → M (Unit {0})
advance_clock_to time s =
    if ltbℤ (now s) time
    then elim s.clock [ none ↦ ok tt s | some c ↦ clock_moved s (advance_to time c) ]
    else ok tt s

unfoldable pub is_control : RuntimeEventType → Bool
is_control RuntimeEventType.control = true
is_control _ = false

-- `must_process_event`, of the next event.
unfoldable pub must_process : RuntimeEvent → Session → Bool
must_process next s =
    lebℤ next.time (now s)
    || has_value s.active_command
    || has_value s.stop_episode
    || is_lifecycle s.lifecycle_state LifecycleState.paused
    || (s.task_terminal && is_control next.type)

unfoldable pub event_processed : Session → ExecutionAdvanceResult
event_processed s =
    if s.task_terminal && not (has_value (peek_next s.events))
    then ExecutionAdvanceResult.terminal
    else ExecutionAdvanceResult.progressed

unfoldable pub progress : Session → ExecutionAdvanceResult
progress s =
    if s.task_terminal then ExecutionAdvanceResult.terminal else ExecutionAdvanceResult.progressed

unfoldable pub process_event : RuntimeEvent → M ExecutionAdvanceResult
process_event event s =
    (do advance_clock_to event.time; handle_event event; λ s'. ok (event_processed s') s')
      (record s { events = (pop_next s.events).1 })

unfoldable pub take_command : M ExecutionAdvanceResult
take_command s =
    if s.task_terminal
    then ok ExecutionAdvanceResult.terminal s
    else if is_lifecycle s.lifecycle_state LifecycleState.idle
    then ok ExecutionAdvanceResult.idle s
    else if is_lifecycle s.lifecycle_state LifecycleState.paused
    then ok ExecutionAdvanceResult.progressed s
    else (do handle_next_command; λ s'. ok (progress s') s') s

-- The `try` block of Advance.
unfoldable pub advance_body : M ExecutionAdvanceResult
advance_body s = elim (peek_next s.events) [
  | none ↦ take_command s
  | some next ↦ if must_process next s then process_event next s else take_command s
]

-- Without RefreshSnapshot, which numbers the snapshots that differ.
unfoldable pub advance : M ExecutionAdvanceResult
advance s = elim (advance_body s) [
  | ok r s' ↦ ok r s'
  | threw e s' ↦
      (do
        begin_fault DiagnosticCode.backend_failure e false StopReason.fault_cleanup
        λ s''. ok (progress s'') s'')
        s'
]

pub record ControlSubmission : Type 0 where
  pub request_id : ℕ
  pub type : ControlType
  pub status : ControlSubmissionStatus
  pub message : String

unfoldable pub controlled : Session → Outcome EventQueue (Unit {0}) → Outcome Session (Unit {0})
controlled s (ok _ q) = ok tt (record s { events = q })
controlled s (threw e q) = threw e (record s { events = q })

-- `events_.ScheduleControl(...)`.
unfoldable pub schedule_control_event : BusinessTime → ControlType → ℕ → String → M (Unit {0})
schedule_control_event time type request_id source s =
    controlled s (schedule_control time type request_id source s.events)

unfoldable pub missing_type : ControlType → Bool
missing_type ControlType.no_control = true
missing_type _ = false

unfoldable pub refused : ℕ → ControlType → String → ControlSubmission
refused request_id type message = record {
  request_id = request_id;
  type = type;
  status = ControlSubmissionStatus.rejected;
  message = message;
}

unfoldable pub queued : ℕ → ControlType → ControlSubmission
queued request_id type = record {
  request_id = request_id;
  type = type;
  status = ControlSubmissionStatus.queued;
  message = "";
}

unfoldable pub max_id : ℕ → ℕ → ℕ
max_id a b = if ltb a b then b else a

unfoldable pub submit_control_with_request_id : ControlType → ℕ → String → M ControlSubmission
submit_control_with_request_id type request_id source s =
    if request_id == 0
    then ok (refused request_id type "control request id is missing") s
    else if missing_type type
    then ok (refused request_id type "control type is missing") s
    else if not (has_value s.clock)
    then ok (refused request_id type "clock is missing") s
    else (do schedule_control_event (now s) type request_id source; ok (queued request_id type))
        (record s {
          next_control_request_id = max_id s.next_control_request_id ((request_id + 1) % u64_mod);
        })

unfoldable pub submit_control : ControlType → String → M ControlSubmission
submit_control type source s =
    submit_control_with_request_id type s.next_control_request_id source
      (record s { next_control_request_id = (s.next_control_request_id + 1) % u64_mod })

unfoldable pub submit_control_at : BusinessTime → ControlType → String → M ControlSubmission
submit_control_at time type source s =
    if missing_type type
    then ok (refused 0 type "control type is missing") s
    else if not (has_value s.clock) || ltbℤ time (now s)
    then ok (refused 0 type "control time is invalid") s
    else (do
      schedule_control_event time type s.next_control_request_id source
      ok (queued s.next_control_request_id type))
        (record s { next_control_request_id = (s.next_control_request_id + 1) % u64_mod })
