-- ===== src/Examples/Sessions.antt =====
-- Applications of the theorems on the sessions.
use roborun.Prelude.{
  pos, ◌+◌, ◌-◌, ◌≡◌, ◌≢◌, ◌⊎◌, refl, false, true, [], ◌∷◌, none, some, arith, after, ok, lebℤ, inl,
  sym, ap,
}
use roborun.Types.{
  StopSubmission, StopSubmissionStatus, ControlType, LifecycleState, RuntimeEventType, CommandType,
  StopReason, StopDisposition, ExecutionOutcome,
}
use mathlib.Core.Option.{some-injective}
use roborun.EventQueue.{RuntimeEvent, event_of, schedule, peek_next}
use roborun.Runtime.State.{Session, now}
use roborun.Runtime.Cleanup.{finish_terminal}
use roborun.Runtime.Cleanup.Terminal.{Faulted, Concluded, finish_terminal_honest}
use roborun.Runtime.Confirmation.{conclude_stop}
use roborun.Runtime.Confirmation.Emergency.{Safe, emergency-Safe}
use roborun.Runtime.Stopping.{handle_stop_poll}
use roborun.Runtime.Stopping.{stop_accepted}
use roborun.Runtime.Stopping.Timeout.{Timed, stop_accepted-Timed, stop_timeout-Faulted}
use roborun.Runtime.Stopping.Emergency.{taken_over, escalated_stop-Safe}
use roborun.Runtime.Feedback.{poll_time}
use roborun.Runtime.Feedback.Deadlines.{poll_before_deadline}
use roborun.Runtime.Pausing.Superseded.{superseded_by_resume}
use roborun.Runtime.Workcell.{finish_active_success}
use roborun.Runtime.Pausing.{pause_local_command, resume_active_command}
use roborun.Runtime.Pausing.Remaining.{resumed_at, delay_end, delay_pause_exact}
use roborun.Runtime.Resetting.{reset_session, reset_rejected, reset_allowed, cleared}
use roborun.Runtime.Resetting.Gate.{MayReset, Fresh, reset_decides, reset_sound}
use roborun.Runtime.Controls.{handle_control}
use roborun.Runtime.Controls.Recovery.{estop_opens_reset}
use roborun.Runtime.Advance.Preemption.{estop_event, estop_handled_next}
use roborun.Runtime.Advance.{advance_body, process_event, submit_control, handle_event, advance}
use roborun.Runtime.Trust.{Calm}
use roborun.Runtime.Trust.Controls.{handle_event-Calm}
use roborun.Runtime.Trust.Halted.{NoResume, advance-Halted}
use roborun.Runtime.Records.{append_control_trace, push_trace, synchronize_result_state}
use roborun.Examples.{
  waiting, moving, stopping, emergency, faulted, episode, active, event, control,
}

abbrev stop_request : RuntimeEvent
stop_request = control ControlType.stop

handle_event-Calm_example : Calm moving (after (handle_event stop_request moving))
handle_event-Calm_example = handle_event-Calm stop_request moving (λ _ h. stop_is_no_resume h)
  where
    stop_is_no_resume : ControlType.stop ≢ ControlType.resume
    stop_is_no_resume = ground arith

abbrev reset_pending : Session
reset_pending = record emergency {
  events = record { events = control ControlType.reset ∷ []; next_sequence = 6 };
}

reset_only : (e : RuntimeEvent) → peek_next reset_pending.events ≡ some e → NoResume e
unfolding peek_next
reset_only e h k =
    let q = sym (ap (λ (x : RuntimeEvent). x.control_type) (some-injective _ _ h)) in ground arith

advance-Halted_example : Calm reset_pending (after (advance reset_pending))
advance-Halted_example = advance-Halted reset_pending (inl refl) reset_only

reset_decides_example :
    (MayReset emergency
      × Fresh (after (reset_session (control ControlType.reset) emergency))
      × ((after (reset_session (control ControlType.reset) emergency)).calls ≡ emergency.calls))
    ⊎ (¬ MayReset emergency)
      × (reset_session (control ControlType.reset) emergency
          ≡ ok tt (
              reset_rejected
                (control ControlType.reset)
                "reset_recovery_conditions_not_met"
                emergency))
reset_decides_example = reset_decides (control ControlType.reset) emergency refl

reset_sound_example : MayReset emergency
unfolding reset_session reset_allowed cleared append_control_trace push_trace
    synchronize_result_state
reset_sound_example = reset_sound (control ControlType.reset) emergency (ground arith) refl

estop_opens_reset_example :
    reset_allowed (after (handle_control (control ControlType.estop) faulted)) ≡ true
estop_opens_reset_example =
    estop_opens_reset (control ControlType.estop) faulted refl refl refl refl refl refl refl refl

emergency-Safe_example : Safe (conclude_stop StopDisposition.emergency moving)
emergency-Safe_example = emergency-Safe moving refl

finish_terminal_honest_example :
    (((finish_terminal ExecutionOutcome.operator_stopped moving).session_untrusted ≡ false)
      × Concluded ExecutionOutcome.operator_stopped
          (finish_terminal ExecutionOutcome.operator_stopped moving))
    ⊎ (((finish_terminal ExecutionOutcome.operator_stopped moving).session_untrusted ≡ true)
        × Faulted (finish_terminal ExecutionOutcome.operator_stopped moving))
finish_terminal_honest_example = finish_terminal_honest ExecutionOutcome.operator_stopped moving

abbrev estop : RuntimeEvent
estop = control ControlType.estop

-- A poll of the episode that is pending.
abbrev next_poll : RuntimeEvent
next_poll = record (event RuntimeEventType.stop_poll) { stop_episode_id = 1 }

escalated_stop-Safe_example :
    let t = after (handle_control estop stopping) in
    (t.calls ≡ stopping.calls)
    × (t.stop_episode ≡ some (taken_over episode))
    × (Safe (after (handle_stop_poll next_poll t))
        ⊎ ((after (handle_stop_poll next_poll t)).stop_episode ≡ some (taken_over episode)))
escalated_stop-Safe_example =
    escalated_stop-Safe estop next_poll stopping episode refl refl (ground arith) refl refl
      (ground arith) (ground arith)

abbrev motion_poll : RuntimeEvent
motion_poll = event RuntimeEventType.motion_poll

poll_before_deadline_example :
    (lebℤ (now moving) (poll_time (pos 5000) moving) ≡ true)
    × (lebℤ (poll_time (pos 5000) moving) (pos 1000) ≡ true)
poll_before_deadline_example =
    poll_before_deadline (pos 5000) moving (active CommandType.movej) 400 (pos 1000) refl refl refl
      (omega arith) refl

-- The waiting session once it is paused, 5000 ms later.
abbrev paused : Session
paused = record waiting {
  clock = some (record { now = pos 5400; is_virtual = true });
  lifecycle_state = LifecycleState.paused;
  active_command = (pause_local_command (control ControlType.pause) waiting).active_command;
}

delay_pause_exact_example :
    ((after (resume_active_command paused)).active_command
      ≡ some (resumed_at (active CommandType.delay) 400 1000 5400))
    × ((after (resume_active_command paused)).events
        ≡ after (
            schedule
              (delay_end
                (resumed_at (active CommandType.delay) 400 1000 5400)
                (5400 + (1000 - 400)))
              paused.events))
delay_pause_exact_example =
    delay_pause_exact (control ControlType.pause) waiting paused (active CommandType.delay) 400 1000
      5400 refl refl refl refl (omega arith) refl refl (omega arith)

superseded_by_resume_example :
    let u = after (resume_active_command paused) in
    (handle_event (event_of (delay_end (active CommandType.delay) 1000) 3) u ≡ ok tt u)
    × (handle_event
          (event_of
            (delay_end (resumed_at (active CommandType.delay) 400 1000 5400) (5400 + (1000 - 400)))
            9)
          u
        ≡ ok tt (finish_active_success "delay_completed" none u))
superseded_by_resume_example =
    superseded_by_resume (control ControlType.pause) waiting paused (active CommandType.delay) 400
      1000 5400 3 9 refl refl refl refl (omega arith) refl refl (omega arith) (omega arith)

-- A moving session whose next poll is due now.
abbrev polled : Session
polled = record moving { events = record { events = motion_poll ∷ []; next_sequence = 6 } }

estop_handled_next_example :
    advance_body (after (submit_control ControlType.estop "operator" polled))
    ≡ process_event
        (estop_event "operator" polled)
        (after (submit_control ControlType.estop "operator" polled))
estop_handled_next_example =
    estop_handled_next "operator" polled (record { now = pos 400; is_virtual = true }) refl
      (ground arith) refl ((omega arith, λ _. omega arith), tt)

abbrev agreed : StopSubmission
agreed = record { status = StopSubmissionStatus.accepted; message = ""; poll_after_ms = none }

stop_accepted-Timed_example : Timed (
    after (
      stop_accepted StopReason.operator_stop StopDisposition.operator_stop none
        LifecycleState.running agreed moving))
stop_accepted-Timed_example =
    stop_accepted-Timed StopReason.operator_stop StopDisposition.operator_stop none
      LifecycleState.running agreed moving

-- The stopping session at the deadline of its episode, and the event of its timeout.
abbrev overdue : Session
overdue = record stopping { clock = some (record { now = pos 2400; is_virtual = true }) }

abbrev timeout : RuntimeEvent
timeout = record (event RuntimeEventType.backend_fault) {
  time = pos 2400;
  detail = "stop_timeout";
  stop_episode_id = 1;
}

stop_timeout-Faulted_example :
    (t : Session) × (handle_event timeout overdue ≡ ok tt t)
    × Faulted t
    × (t.session_untrusted ≡ true)
stop_timeout-Faulted_example =
    stop_timeout-Faulted timeout overdue episode refl (refl, refl, refl, refl) refl
