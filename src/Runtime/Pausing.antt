-- ===== src/Runtime/Pausing.antt =====
-- PauseLocalCommand and ResumeActiveCommand (runtime.cpp).
pub mod Remaining
pub mod Superseded
use roborun.Prelude.{
  pos, ◌+◌, ◌%◌, ◌-ℤ◌, maxℤ, true, false, String, Dict, Option, none, some, lookup, value_or, ok,
  threw, ◌>>=◌, ◌>>◌, if◌then◌else◌,
}
use roborun.Types.{
  BusinessTime, LifecycleState, CommandType, CommandExecutionStatus, ControlSubmissionStatus,
  BackendOperationState, StopReason, DiagnosticCode, MotionSubmissionStatus, RuntimeEventPriority,
  RuntimeEventType, Command, ActiveCommand, MotionSubmission, is_command, is_position, same_bool,
}
use roborun.Clock.{checked_business_time_add}
use roborun.EventQueue.{RuntimeEvent, u64_mod}
use roborun.Runtime.State.{Session, M, resume_movej, invoke, now}
use roborun.Runtime.Records.{append_trace, append_control_trace}
use roborun.Runtime.Scheduling.{command_at, schedule_event, plain_request, or_message}
use roborun.Runtime.Stopping.{begin_fault}
use roborun.Runtime.Workcell.{finish_active_success}
use roborun.Runtime.Feedback.{schedule_command_timeout, schedule_motion_poll}

-- `map.at(name)`: std::out_of_range on a missing key, whose text the standard leaves open.
unfoldable pub at_key : {V : Type 0} → String → Dict V → M V
at_key name m s = elim (lookup name m) [ none ↦ threw "map::at" s | some v ↦ ok v s ]

-- The time left until the deadline of a command.
unfoldable pub time_left : Option BusinessTime → BusinessTime → BusinessTime → BusinessTime
time_left none time otherwise = otherwise
time_left (some deadline) time otherwise = maxℤ (pos 0) (deadline -ℤ time)

unfoldable pub pause_local_active : RuntimeEvent → ActiveCommand → Session → Session
pause_local_active event a s =
    let traced =
      append_control_trace event ControlSubmissionStatus.accepted "pause_accepted" s.lifecycle_state
        none none
        (record s {
          lifecycle_state = LifecycleState.paused;
          active_command = some (record a {
            remaining_ms = time_left a.deadline_ms (now s) (pos 0);
            deadline_ms = none;
            status = CommandExecutionStatus.paused;
            generation = (a.generation + 1) % u64_mod;
          });
        }) in
    append_trace (command_at s a.command_index) a.command_index CommandExecutionStatus.paused
      s.state s.state s.state "local_wait_paused" none traced

-- The source dereferences the active command; its caller has one.
unfoldable pub pause_local_command : RuntimeEvent → Session → Session
pause_local_command event s = elim s.active_command [
  | none ↦ s
  | some a ↦ pause_local_active event a s
]

unfoldable pub resumed_movej : ActiveCommand → BusinessTime → MotionSubmission → M (Unit {0})
resumed_movej a deadline submission s =
    let command = command_at s a.command_index in
    elim submission.status [
      | MotionSubmissionStatus.rejected ↦
          begin_fault DiagnosticCode.motion_rejected
            (or_message submission.message "backend rejected resumed MOVEJ") true
            StopReason.fault_cleanup s
      | MotionSubmissionStatus.accepted ↦
          (let active = record a {
            status = CommandExecutionStatus.accepted;
            started_at_ms = now s;
            deadline_ms = some deadline;
          } in
            (do
              schedule_motion_poll (value_or submission.poll_after_ms (pos 0)) active.generation
              schedule_command_timeout active)
              (append_trace command a.command_index CommandExecutionStatus.accepted s.state s.state
                s.state "motion_resubmitted" none
                (record s {
                  active_command = some active;
                  lifecycle_state = LifecycleState.running;
                  backend_operation_state = BackendOperationState.active;
                })))
    ]

unfoldable pub resume_movej_command : ActiveCommand → M (Unit {0})
resume_movej_command a s = elim (checked_business_time_add (now s) a.remaining_ms) [
  | none ↦
      begin_fault DiagnosticCode.invalid_duration "resumed MOVEJ exceeds the business time range"
        false StopReason.fault_cleanup s
  | some deadline ↦
      (do
        submission ←
            invoke (resume_movej (command_at s a.command_index).movej) (λ d. d.resume_movej)
        resumed_movej a deadline submission)
        s
]

unfoldable pub resume_delay : ActiveCommand → M (Unit {0})
resume_delay a s = elim a.deadline_ms [
  | none ↦
      begin_fault DiagnosticCode.invalid_duration "resumed DELAY exceeds the business time range"
        false StopReason.fault_cleanup s
  | some deadline ↦
      schedule_event
        (plain_request deadline RuntimeEventPriority.command_completion
          RuntimeEventType.delay_complete "" a.command_index a.generation 0)
        s
]

-- Without a workcell, a wait that was satisfied while it was paused ends at once.
unfoldable pub satisfied_while_paused : ActiveCommand → Command → M (Option String)
satisfied_while_paused a command s = if s.setup.has_workcell then ok none s else elim a.type [
  | CommandType.wait_di ↦
      (do
        signal ← at_key command.signal_name s.signals
        ok (
            if same_bool signal.value command.signal_value
            then some "di_satisfied_while_paused"
            else none))
        s
  | CommandType.set_tool ↦
      (do
        tool ← at_key command.tool_name s.tools
        ok (
            if is_position tool.observed command.tool_position
            then some "tool_satisfied_while_paused"
            else none))
        s
  | _ ↦ ok none s
]

unfoldable pub resume_or_finish : ActiveCommand → Option String → M (Unit {0})
resume_or_finish a (some cause) s = ok tt (finish_active_success cause none s)
resume_or_finish a none s =
    (do
      schedule_command_timeout a
      λ s'.
          if s'.setup.has_workcell
          then schedule_motion_poll s'.setup.options.default_stop_poll_ms a.generation s'
          else ok tt s')
      s

unfoldable pub resume_wait : ActiveCommand → M (Unit {0})
resume_wait a s = elim a.deadline_ms [
  | none ↦
      begin_fault DiagnosticCode.invalid_duration "resumed command exceeds the business time range"
        false StopReason.fault_cleanup s
  | some deadline ↦
      (do cause ← satisfied_while_paused a (command_at s a.command_index); resume_or_finish a cause)
        s
]

unfoldable pub resume_local : ActiveCommand → M (Unit {0})
resume_local a s =
    let active = record a {
      status = CommandExecutionStatus.accepted;
      started_at_ms = now s;
      deadline_ms = checked_business_time_add (now s) a.remaining_ms;
    } in
    let resumed = record s {
      lifecycle_state =
          if s.setup.has_workcell then LifecycleState.running else LifecycleState.waiting;
      active_command = some active;
    } in
    if is_command a.type CommandType.delay
    then resume_delay active resumed
    else resume_wait active resumed

unfoldable pub resume_active_command : M (Unit {0})
resume_active_command s = elim s.active_command [
  | none ↦ ok tt (record s { lifecycle_state = LifecycleState.running })
  | some a ↦
      let active = record a { generation = (a.generation + 1) % u64_mod } in
      let counted = record s { active_command = some active } in
      if is_command a.type CommandType.movej
      then resume_movej_command active counted
      else resume_local active counted
]
