-- ===== src/Runtime/Feedback.antt =====
-- The handlers of the events that are no control (runtime.cpp): HandleExternalEvent,
-- HandleTimeout, HandleMotionPoll, HandleDelayComplete, and what they schedule.
pub mod Deadlines
use roborun.Prelude.{
  ℕ, pos, ◌==◌, ltbℤ, lebℤ, maxℤ, minℤ, Bool, true, false, not, ◌&&◌, String, str_eq, text_append,
  decimalℤ, Option, none, some, update, contains, value_or, ok, threw, ◌>>=◌, ◌>>◌, modify,
  if◌then◌else◌,
}
use roborun.Types.{
  BusinessTime, RuntimeState, LifecycleState, CommandType, CommandExecutionStatus, StopReason,
  DiagnosticCode, ToolPosition, MotionStatus, RuntimeEventPriority, RuntimeEventType, Command,
  ActiveCommand, MotionSnapshot, is_lifecycle, is_command,
}
use roborun.Clock.{saturating_business_time_add}
use roborun.EventQueue.{RuntimeEvent, no_command_index}
use roborun.Runtime.State.{Session, M, poll_motion, poll_workcell, invoke, now}
use roborun.Runtime.Records.{append_trace}
use roborun.Runtime.Cleanup.{fail_stop}
use roborun.Runtime.Scheduling.{command_at, schedule_event, plain_request, or_message}
use roborun.Runtime.Stopping.{begin_fault}
use roborun.Runtime.Workcell.{finish_active_success, apply_workcell_snapshot, signal_is, tool_is}

unfoldable pub schedule_command_timeout : ActiveCommand → M (Unit {0})
schedule_command_timeout active s = elim active.deadline_ms [
  | none ↦ ok tt s
  | some deadline ↦
      schedule_event
        (plain_request deadline RuntimeEventPriority.timeout RuntimeEventType.backend_fault
          "timeout" active.command_index active.generation 0)
        s
]

-- A poll is never scheduled behind the deadline of the active command.
unfoldable pub poll_time : BusinessTime → Session → BusinessTime
poll_time delay_ms s =
    let time = saturating_business_time_add (now s) (maxℤ (pos 0) delay_ms) in
    elim s.active_command [
      | none ↦ time
      | some a ↦ elim a.deadline_ms [ none ↦ time | some deadline ↦ minℤ time deadline ]
    ]

unfoldable pub polled_command : Option ActiveCommand → ℕ
polled_command none = no_command_index
polled_command (some a) = a.command_index

unfoldable pub schedule_motion_poll : BusinessTime → ℕ → M (Unit {0})
schedule_motion_poll delay_ms generation s =
    schedule_event
      (plain_request (poll_time delay_ms s) RuntimeEventPriority.external_feedback
        RuntimeEventType.motion_poll "" (polled_command s.active_command) generation 0)
      s

-- A wait that is not paused and that an event's new value satisfies.
abbrev pub waits_for : CommandType → (Command → Bool) → Session → Bool
waits_for type satisfied s = elim s.active_command [
  | none ↦ false
  | some a ↦
      not (is_lifecycle s.lifecycle_state LifecycleState.paused)
      && is_command a.type type
      && satisfied (command_at s a.command_index)
]

unfoldable pub digital_input : RuntimeEvent → M (Unit {0})
digital_input event s =
    if not (contains event.name s.signals)
    then begin_fault DiagnosticCode.invalid_scenario "scenario changed an unknown signal" false
        StopReason.fault_cleanup s
    else (let written =
          update event.name (λ v. record v { value = event.value; last_update_ms = now s })
            s.signals in
        let moved = record s {
          signals = written;
          result = record (s.result) { signals = written };
        } in
        ok tt (
          if waits_for CommandType.wait_di
            (λ c. str_eq event.name c.signal_name && signal_is event.name c.signal_value moved)
            moved
          then finish_active_success "di_satisfied" none moved
          else moved))

unfoldable pub fed_back : String → ToolPosition
fed_back detail = if str_eq detail "CLOSED" then ToolPosition.closed else ToolPosition.opened

unfoldable pub tool_feedback : RuntimeEvent → M (Unit {0})
tool_feedback event s =
    if not (contains event.name s.tools)
    then begin_fault DiagnosticCode.invalid_scenario "scenario changed an unknown tool" false
        StopReason.fault_cleanup s
    else (let written =
          update event.name
            (λ t. record t { observed = fed_back event.detail; last_feedback_ms = now s })
            s.tools in
        let moved = record s { tools = written; result = record (s.result) { tools = written } } in
        ok tt (
          if waits_for CommandType.set_tool
            (λ c. str_eq event.name c.tool_name && tool_is event.name c.tool_position moved) moved
          then finish_active_success "tool_feedback_satisfied" none moved
          else moved))

unfoldable pub handle_external_event : RuntimeEvent → M (Unit {0})
handle_external_event event s = elim event.type [
  | RuntimeEventType.backend_fault ↦
      begin_fault DiagnosticCode.backend_connection_loss
        (or_message event.detail "backend connection was lost") false StopReason.fault_cleanup s
  | RuntimeEventType.digital_input ↦ digital_input event s
  | RuntimeEventType.tool_feedback ↦ tool_feedback event s
  | _ ↦ ok tt s
]

unfoldable pub stop_timed_out : RuntimeEvent → Session → Session
stop_timed_out event s = elim s.stop_episode [
  | none ↦ s
  | some episode ↦
      if event.stop_episode_id == episode.id && lebℤ episode.deadline_ms (now s)
      then fail_stop DiagnosticCode.stop_confirmation_timeout
          "backend did not confirm stop before deadline" s
      else s
]

unfoldable pub timeout_code : CommandType → DiagnosticCode
timeout_code CommandType.wait_di = DiagnosticCode.di_timeout
timeout_code CommandType.set_tool = DiagnosticCode.tool_timeout
timeout_code _ = DiagnosticCode.motion_timeout

unfoldable pub command_timed_out : ActiveCommand → BusinessTime → M (Unit {0})
command_timed_out a deadline s =
    let command = command_at s a.command_index in
    begin_fault (timeout_code command.type)
      (text_append "command timed out at deadline " (text_append (decimalℤ deadline) " ms")) true
      StopReason.timeout
      (append_trace command a.command_index CommandExecutionStatus.timed_out s.state s.state
        RuntimeState.faulted "command_timeout" none
        (record s {
          active_command = some (record a { status = CommandExecutionStatus.timed_out });
        }))

unfoldable pub handle_timeout : RuntimeEvent → M (Unit {0})
handle_timeout event s =
    if str_eq event.detail "stop_timeout"
    then ok tt (stop_timed_out event s)
    else elim s.active_command [
      | none ↦ ok tt s
      | some a ↦ elim a.deadline_ms [
        | none ↦ ok tt s
        | some deadline ↦
            if event.command_index == a.command_index
              && event.command_generation == a.generation
              && lebℤ deadline (now s)
            then command_timed_out a deadline s
            else ok tt s
      ]
    ]

-- `ApplyWorkcellSnapshot(workcell_backend_->PollWorkcell())`, caught: the rest of the handler runs
-- only if nothing was thrown.
unfoldable pub poll_workcell_then : M (Unit {0}) → M (Unit {0})
poll_workcell_then rest s =
    elim ((do w ← invoke poll_workcell (λ d. d.poll_workcell); apply_workcell_snapshot w) s) [
      | ok _ s' ↦ rest s'
      | threw e s' ↦
          begin_fault DiagnosticCode.workcell_snapshot_failure e false StopReason.fault_cleanup s'
    ]

-- Another poll, if a command is still active and its deadline is ahead.
unfoldable pub poll_again : BusinessTime → M (Unit {0})
poll_again delay s = elim s.active_command [
  | none ↦ ok tt s
  | some a ↦ elim a.deadline_ms [
    | none ↦ ok tt s
    | some deadline ↦
        if ltbℤ (now s) deadline then schedule_motion_poll delay a.generation s else ok tt s
  ]
]

unfoldable pub motion_observed : MotionSnapshot → M (Unit {0})
motion_observed snapshot s = elim s.active_command [
  | none ↦ ok tt s
  | some a ↦
      let command = command_at s a.command_index in
      elim snapshot.status [
        | MotionStatus.running ↦
            poll_again
              (maxℤ (pos 1) (value_or snapshot.poll_after_ms s.setup.options.default_stop_poll_ms))
              (append_trace command a.command_index CommandExecutionStatus.running s.state s.state
                s.state "motion_running" (some snapshot)
                (record s {
                  active_command = some (record a { status = CommandExecutionStatus.running });
                }))
        | MotionStatus.failed ↦
            begin_fault DiagnosticCode.backend_failure
              (or_message snapshot.message "backend reported motion failure") true
              StopReason.fault_cleanup
              (append_trace command a.command_index CommandExecutionStatus.failed s.state s.state
                RuntimeState.faulted "motion_failed" (some snapshot)
                (record s {
                  active_command = some (record a { status = CommandExecutionStatus.failed });
                }))
        | MotionStatus.succeeded ↦
            ok tt (finish_active_success "motion_succeeded" (some snapshot) s)
      ]
]

-- The MOVEJ branch of HandleMotionPoll, and the branch of the other commands.
unfoldable pub poll_movej : M (Unit {0})
poll_movej = do
  snapshot ← invoke poll_motion (λ d. d.poll_motion)
  modify (λ s. record s { latest_positions = snapshot.positions })
  λ s.
      if s.setup.has_workcell
      then poll_workcell_then (motion_observed snapshot) s
      else motion_observed snapshot s

unfoldable pub poll_other : M (Unit {0})
poll_other s =
    if s.setup.has_workcell
    then poll_workcell_then
        (λ s'. poll_again (maxℤ (pos 1) s'.setup.options.default_stop_poll_ms) s') s
    else ok tt s

unfoldable pub handle_motion_poll : RuntimeEvent → M (Unit {0})
handle_motion_poll event s = elim s.active_command [
  | none ↦ ok tt s
  | some a ↦
      if a.generation == event.command_generation
        && is_lifecycle s.lifecycle_state LifecycleState.running
      then (if is_command a.type CommandType.movej then poll_movej s else poll_other s)
      else ok tt s
]

unfoldable pub handle_delay_complete : RuntimeEvent → M (Unit {0})
handle_delay_complete event s = elim s.active_command [
  | none ↦ ok tt s
  | some a ↦ ok tt (
      if is_command a.type CommandType.delay
        && a.generation == event.command_generation
        && not (is_lifecycle s.lifecycle_state LifecycleState.paused)
      then finish_active_success "delay_completed" none s
      else s)
]
