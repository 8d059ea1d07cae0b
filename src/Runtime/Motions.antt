-- ===== src/Runtime/Motions.antt =====
-- EnsureConnected, and the commands of HandleNextCommand (runtime.cpp) that move the robot or wait
-- for a time: the servo, MOVEJ and DELAY.
use roborun.Prelude.{
  ℕ, pos, ◌+◌, ◌%◌, eqbℤ, Bool, true, false, not, String, Option, none, some, value_or, Outcome, ok,
  threw, ◌>>=◌, ◌>>◌, modify, if◌then◌else◌,
}
use roborun.Types.{
  BusinessTime, RuntimeState, LifecycleState, CommandExecutionStatus, BackendState,
  BackendOperationState, StopReason, DiagnosticCode, MotionSubmissionStatus, RuntimeEventPriority,
  RuntimeEventType, Command, ActiveCommand, MotionSubmission,
}
use roborun.Clock.{checked_business_time_add}
use roborun.EventQueue.{u64_mod}
use roborun.Runtime.State.{
  Session, M, connect, disconnect, set_servo_enabled, submit_movej, invoke, now,
}
use roborun.Runtime.Records.{append_trace}
use roborun.Runtime.Scheduling.{schedule_event, plain_request, or_message}
use roborun.Runtime.Stopping.{begin_fault}
use roborun.Runtime.Feedback.{schedule_command_timeout, schedule_motion_poll}

-- A connection that fails is undone, whatever the undoing answers, and the failure goes on.
unfoldable pub connection : Outcome Session (Unit {0}) → Outcome Session (Unit {0})
connection (ok _ s) = ok tt (record s { connected = true; backend_state = BackendState.connected })
connection (threw e s) = elim (invoke disconnect (λ d. d.disconnect) s) [
  | ok _ s' ↦ threw e s'
  | threw _ s' ↦ threw e s'
]

unfoldable pub ensure_connected : M (Unit {0})
ensure_connected s = if s.connected then ok tt s else connection (invoke connect (λ d. d.connect) s)

-- `++next_command_index_`.
abbrev pub next_index : Session → ℕ
next_index s = (s.next_command_index + 1) % u64_mod

-- A fault of the runtime's own, that no alarm condition clears.
unfoldable pub time_fault : String → M (Unit {0})
time_fault message =
    begin_fault DiagnosticCode.invalid_duration message false StopReason.fault_cleanup

unfoldable pub activated :
    Command
    → ℕ
    → CommandExecutionStatus
    → Option BusinessTime
    → BusinessTime
    → Session
    → ActiveCommand
activated command index status deadline remaining s = record {
  command_index = index;
  line = command.line;
  type = command.type;
  status = status;
  started_at_ms = now s;
  deadline_ms = deadline;
  remaining_ms = remaining;
  generation = 1;
}

unfoldable pub servo : Bool → RuntimeState → String → Command → ℕ → M (Unit {0})
servo enabled state cause command index s =
    (do
      invoke (set_servo_enabled enabled) (λ d. d.set_servo_enabled)
      modify (λ s'.
          let traced =
            append_trace command index CommandExecutionStatus.succeeded s.state s.state state cause
              none (record s' { servo_disabled = not enabled; state = state }) in
          record traced { next_command_index = next_index traced }))
      s

-- The active command is accepted and running, and its poll and timeout are scheduled.
unfoldable pub accepted_running :
    String → BusinessTime → Command → ActiveCommand → RuntimeState → M (Unit {0})
accepted_running cause poll command active before s =
    (do schedule_motion_poll poll active.generation; schedule_command_timeout active)
      (append_trace command active.command_index CommandExecutionStatus.accepted before s.state
        s.state cause none s)

unfoldable pub movej_submitted :
    Command → ActiveCommand → RuntimeState → MotionSubmission → M (Unit {0})
movej_submitted command active before submission s = elim submission.status [
  | MotionSubmissionStatus.rejected ↦
      begin_fault DiagnosticCode.motion_rejected
        (or_message submission.message "backend rejected MOVEJ") true StopReason.fault_cleanup
        (append_trace command active.command_index CommandExecutionStatus.failed before s.state
          RuntimeState.faulted "motion_rejected" none
          (record s {
            active_command = some (record active { status = CommandExecutionStatus.failed });
          }))
  | MotionSubmissionStatus.accepted ↦
      let accepted = record active { status = CommandExecutionStatus.accepted } in
      accepted_running "motion_accepted" (value_or submission.poll_after_ms (pos 0)) command
        accepted before
        (record s {
          active_command = some accepted;
          state = RuntimeState.running;
          lifecycle_state = LifecycleState.running;
          backend_operation_state = BackendOperationState.active;
        })
]

unfoldable pub start_movej : Command → ℕ → M (Unit {0})
start_movej command index s =
    let timeout = value_or command.timeout_ms s.setup.options.move_timeout_ms in
    elim (checked_business_time_add (now s) timeout) [
      | none ↦ time_fault "MOVEJ timeout exceeds the business time range" s
      | some deadline ↦
          let active =
            activated command index CommandExecutionStatus.pending (some deadline) timeout s in
          (do
            submission ← invoke (submit_movej command.movej) (λ d. d.submit_movej)
            movej_submitted command active s.state submission)
            (record s { active_command = some active })
    ]

unfoldable pub start_delay : Command → ℕ → M (Unit {0})
start_delay command index s =
    if eqbℤ command.duration_ms (pos 0)
    then (let traced =
          append_trace command index CommandExecutionStatus.succeeded s.state s.state s.state
            "delay_completed" none s in
        ok tt (record traced { next_command_index = next_index traced }))
    else elim (checked_business_time_add (now s) command.duration_ms) [
      | none ↦ time_fault "DELAY duration exceeds the business time range" s
      | some deadline ↦
          schedule_event
            (plain_request deadline RuntimeEventPriority.command_completion
              RuntimeEventType.delay_complete "" index 1 0)
            (append_trace command index CommandExecutionStatus.accepted s.state RuntimeState.running
              RuntimeState.running "delay_started" none
              (record s {
                active_command = some (
                    activated command index CommandExecutionStatus.accepted (some deadline)
                      command.duration_ms s);
                state = RuntimeState.running;
                lifecycle_state = LifecycleState.waiting;
              }))
    ]
