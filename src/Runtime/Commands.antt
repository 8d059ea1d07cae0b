-- ===== src/Runtime/Commands.antt =====
-- HandleNextCommand (runtime.cpp): one function for each of the other commands, and the dispatch.
use roborun.Prelude.{
  ℕ, pos, leb, Bool, true, false, none, some, update, length, value_or, ok, ◌>>=◌, ◌>>◌,
  if◌then◌else◌,
}
use roborun.Types.{
  BusinessTime, RuntimeState, LifecycleState, CommandType, CommandExecutionStatus,
  BackendOperationState, StopReason, StopDisposition, DiagnosticCode, ToolPosition,
  WorkcellCommandStatus, Command, ActiveCommand, DigitalSignal, ToolState,
  WorkcellCommandSubmission, is_command,
}
use roborun.Clock.{checked_business_time_add}
use roborun.Runtime.State.{Session, M, set_digital_output, submit_tool_command, invoke, now}
use roborun.Runtime.Records.{append_trace}
use roborun.Runtime.Scheduling.{command_at}
use roborun.Runtime.Stopping.{begin_stop, begin_fault}
use roborun.Runtime.Workcell.{finish_active_success, signal_is, tool_is}
use roborun.Runtime.Feedback.{schedule_command_timeout, schedule_motion_poll}
use roborun.Runtime.Pausing.{at_key}
use roborun.Runtime.Motions.{
  ensure_connected, next_index, time_fault, activated, servo, accepted_running, start_movej,
  start_delay,
}

unfoldable pub output_submitted :
    Command → ActiveCommand → RuntimeState → WorkcellCommandSubmission → M (Unit {0})
output_submitted command active before submission s = elim submission.status [
  | WorkcellCommandStatus.rejected ↦
      begin_fault DiagnosticCode.backend_failure submission.message true StopReason.fault_cleanup s
  | WorkcellCommandStatus.accepted ↦
      accepted_running "workcell_do_accepted"
        (value_or submission.poll_after_ms s.setup.options.default_stop_poll_ms) command active
        before
        (record s {
          state = RuntimeState.running;
          lifecycle_state = LifecycleState.running;
          backend_operation_state = BackendOperationState.active;
        })
]

unfoldable pub workcell_output : Command → ℕ → M (Unit {0})
workcell_output command index s =
    let timeout = s.setup.options.workcell_output_timeout_ms in
    elim (checked_business_time_add (now s) timeout) [
      | none ↦ time_fault "SET_DO timeout exceeds the business time range" s
      | some deadline ↦
          let active =
            activated command index CommandExecutionStatus.accepted (some deadline) timeout s in
          (do
            submission ←
                invoke (set_digital_output command.signal_name command.signal_value)
                  (λ d. d.set_digital_output)
            output_submitted command active s.state submission)
            (record s { active_command = some active })
    ]

unfoldable pub local_output : Command → ℕ → M (Unit {0})
local_output command index s =
    (at_key command.signal_name s.signals >>= λ _ s'.
    let written =
      update command.signal_name
        (λ (v : DigitalSignal). record v { value = command.signal_value; last_update_ms = now s' })
        s'.signals in
    let traced =
      append_trace command index CommandExecutionStatus.succeeded s'.state s'.state s'.state
        "do_updated" none
        (record s' { signals = written; result = record (s'.result) { signals = written } }) in
    ok tt (record traced { next_command_index = next_index traced }))
      s

unfoldable pub start_set_do : Command → ℕ → M (Unit {0})
start_set_do command index s =
    if s.setup.has_workcell then workcell_output command index s else local_output command index s

-- `tools_.at(name).commanded = position`, copied to the result.
unfoldable pub command_tool : Command → M (Unit {0})
command_tool command s =
    (at_key command.tool_name s.tools >>= λ _ s'.
    let written =
      update command.tool_name (λ (t : ToolState). record t { commanded = command.tool_position })
        s'.tools in
    ok tt (record s' { tools = written; result = record (s'.result) { tools = written } }))
      s

unfoldable pub tool_submitted :
    Command → ℕ → BusinessTime → BusinessTime → WorkcellCommandSubmission → M (Unit {0})
tool_submitted command index timeout deadline submission s = elim submission.status [
  | WorkcellCommandStatus.rejected ↦
      begin_fault DiagnosticCode.backend_failure submission.message true StopReason.fault_cleanup s
  | WorkcellCommandStatus.accepted ↦
      (do
        command_tool command
        λ s'.
            let active =
              activated command index CommandExecutionStatus.accepted (some deadline) timeout s' in
            accepted_running "workcell_tool_accepted"
              (value_or submission.poll_after_ms s'.setup.options.default_stop_poll_ms) command
              active s'.state
              (record s' {
                active_command = some active;
                state = RuntimeState.running;
                lifecycle_state = LifecycleState.running;
              }))
        s
]

unfoldable pub tool_timeout : Command → Session → BusinessTime
tool_timeout command s = elim command.tool_position [
  | ToolPosition.closed ↦ s.setup.options.grip_timeout_ms
  | ToolPosition.opened ↦ s.setup.options.tool_timeout_ms
]

unfoldable pub workcell_tool : Command → ℕ → M (Unit {0})
workcell_tool command index s =
    let timeout = value_or command.timeout_ms (tool_timeout command s) in
    elim (checked_business_time_add (now s) timeout) [
      | none ↦ time_fault "SET_TOOL timeout exceeds the business time range" s
      | some deadline ↦
          (do
            submission ←
                invoke (submit_tool_command command.tool_name command.tool_position)
                  (λ d. d.submit_tool_command)
            tool_submitted command index timeout deadline submission)
            s
    ]

-- Whether the wait or the tool command is satisfied from the start.
unfoldable pub already_satisfied : Command → M Bool
already_satisfied command s = elim command.type [
  | CommandType.wait_di ↦
      (at_key command.signal_name s.signals >>= λ _ s'.
      ok (signal_is command.signal_name command.signal_value s') s')
        s
  | CommandType.set_tool ↦
      (at_key command.tool_name s.tools >>= λ _ s'.
      ok (tool_is command.tool_name command.tool_position s') s')
        s
  | _ ↦ ok false s
]

unfoldable pub wait_or_finish : Command → ActiveCommand → Bool → M (Unit {0})
wait_or_finish command active true s = ok tt (
    finish_active_success
      (if is_command command.type CommandType.wait_di
        then "di_already_satisfied"
        else "tool_already_satisfied")
      none s)
wait_or_finish command active false s =
    (do
      schedule_command_timeout active
      λ s'.
          if s'.setup.has_workcell
          then schedule_motion_poll s'.setup.options.default_stop_poll_ms active.generation s'
          else ok tt s')
      s

-- The part of WAIT_DI and SET_TOOL that is kept by the runtime itself.
unfoldable pub local_wait : Command → ℕ → M (Unit {0})
local_wait command index s =
    let timeout = value_or command.timeout_ms (pos 0) in
    elim (checked_business_time_add (now s) timeout) [
      | none ↦ time_fault "local command timeout exceeds the business time range" s
      | some deadline ↦
          let active =
            activated command index CommandExecutionStatus.accepted (some deadline) timeout s in
          (do satisfied ← already_satisfied command; wait_or_finish command active satisfied)
            (append_trace command index CommandExecutionStatus.accepted s.state RuntimeState.running
              RuntimeState.running
              (if is_command command.type CommandType.wait_di
                then "di_wait_started"
                else "tool_commanded")
              none
              (record s {
                active_command = some active;
                state = RuntimeState.running;
                lifecycle_state =
                    if s.setup.has_workcell then LifecycleState.running else LifecycleState.waiting;
              }))
    ]

unfoldable pub start_set_tool : Command → ℕ → M (Unit {0})
start_set_tool command index s =
    if s.setup.has_workcell
    then workcell_tool command index s
    else (do command_tool command; local_wait command index) s

unfoldable pub start_stop : Command → ℕ → M (Unit {0})
start_stop command index s =
    begin_stop StopReason.program_complete StopDisposition.program_complete none (record s {
      active_command =
          some (activated command index CommandExecutionStatus.cancelling none (pos 0) s);
    })

unfoldable pub dispatch_command : CommandType → Command → ℕ → M (Unit {0})
dispatch_command CommandType.servo_on command index =
    servo true RuntimeState.ready "servo_enabled" command index
dispatch_command CommandType.servo_off command index =
    servo false RuntimeState.servo_off "servo_disabled" command index
dispatch_command CommandType.movej command index = start_movej command index
dispatch_command CommandType.delay command index = start_delay command index
dispatch_command CommandType.set_do command index = start_set_do command index
dispatch_command CommandType.wait_di command index = local_wait command index
dispatch_command CommandType.set_tool command index = start_set_tool command index
dispatch_command CommandType.stop command index = start_stop command index
dispatch_command CommandType.no_command command index =
    begin_fault DiagnosticCode.task_syntax "command type is missing" false StopReason.fault_cleanup

unfoldable pub run_next : M (Unit {0})
run_next s =
    let command = command_at s s.next_command_index in
    dispatch_command command.type command s.next_command_index s

unfoldable pub handle_next_command : M (Unit {0})
handle_next_command s =
    if leb (length s.program.commands) s.next_command_index
    then begin_fault DiagnosticCode.invalid_runtime_state "program ended without a terminal command"
        false StopReason.fault_cleanup s
    else (do ensure_connected; run_next) s
