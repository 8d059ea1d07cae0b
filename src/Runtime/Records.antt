-- ===== src/Runtime/Records.antt =====
-- What the session writes down (runtime.cpp): diagnostics, alarms, trace entries, and the copies of
-- its states in the result.
use roborun.Prelude.{
  ℕ, pos, negsuc, ◌+◌, ◌==◌, Bool, true, false, String, List, [], ◌∷◌, ◌++◌, Option, none, some,
  ◌||◌, length, lookup, value_or, if◌then◌else◌,
}
use roborun.Types.{
  BusinessTime, CommandType, RuntimeState, LifecycleState, ControlType, ControlSubmissionStatus,
  ToolPosition, CommandExecutionStatus, StopReason, StopStatus, DiagnosticCode, AlarmSeverity,
  AlarmRecoveryCondition, Alarm, Command, ActiveCommand, MotionSnapshot, is_command, no_positions,
}
use roborun.EventQueue.{RuntimeEvent}
use roborun.Runtime.State.{Session, TraceEntry, now}

unfoldable pub synchronize_result_state : Session → Session
synchronize_result_state s = record s {
  result = record (s.result) {
    lifecycle_state = s.lifecycle_state;
    backend_state = s.backend_state;
    backend_operation_state = s.backend_operation_state;
  };
}

unfoldable pub add_diagnostic : DiagnosticCode → String → Session → Session
add_diagnostic code message s = record s {
  result = record (s.result) {
    diagnostics =
        s.result.diagnostics
        ++ record {
          code = code;
          source = s.program.source;
          line = 0;
          column = 0;
          path = "";
          message = message;
        }
          ∷ [];
  };
}

-- The alarm that is raised now.
unfoldable pub alarm_of :
    DiagnosticCode
    → AlarmSeverity
    → String
    → String
    → String
    → Bool
    → List AlarmRecoveryCondition
    → Session
    → Alarm
alarm_of code severity source reason details recoverable conditions s = record {
  code = code;
  severity = severity;
  source = source;
  reason = reason;
  details = details;
  raised_business_time_ms = now s;
  recoverable = recoverable;
  active = true;
  recovery_conditions = conditions;
}

-- The first alarm of a result stays its primary one.
unfoldable pub primary_or : Option ℕ → ℕ → Option ℕ
primary_or none n = some n
primary_or (some i) n = some i

unfoldable pub raise_alarm :
    DiagnosticCode
    → AlarmSeverity
    → String
    → String
    → String
    → Bool
    → List AlarmRecoveryCondition
    → Session
    → Session
unfolding alarm_of primary_or add_diagnostic
raise_alarm code severity source reason details recoverable conditions s =
    let alarm = alarm_of code severity source reason details recoverable conditions s in
    add_diagnostic code details (record s {
      alarm_history = s.alarm_history ++ alarm ∷ [];
      result = record (s.result) {
        alarms = s.result.alarms ++ alarm ∷ [];
        primary_alarm_index = primary_or s.result.primary_alarm_index (length s.result.alarms);
      };
    })

-- `active_command_->deadline_ms.value_or(-1)`, where the command of the entry is the active one.
unfoldable pub traced_deadline : Option ActiveCommand → ℕ → BusinessTime
traced_deadline none index = negsuc 0
traced_deadline (some a) index =
    if a.command_index == index then value_or a.deadline_ms (negsuc 0) else negsuc 0

unfoldable pub traced_tool : Command → Session → ToolPosition
traced_tool command s = elim (lookup command.tool_name s.tools) [
  | none ↦ ToolPosition.opened
  | some tool ↦ tool.observed
]

unfoldable pub traced_signal : Command → Session → Bool
traced_signal command s = elim (lookup command.signal_name s.signals) [
  | none ↦ false
  | some signal ↦ signal.value
]

-- The entry of AppendTrace.
unfoldable pub trace_entry :
    Command
    → ℕ
    → CommandExecutionStatus
    → RuntimeState
    → RuntimeState
    → RuntimeState
    → String
    → Option MotionSnapshot
    → Session
    → TraceEntry
unfolding traced_deadline traced_tool traced_signal
trace_entry command index status before during after_ cause snapshot s = record {
  business_time_ms = now s;
  command_index = index + 1;
  line = command.line;
  command = command.type;
  state_before = before;
  state_during = during;
  state_after = after_;
  lifecycle_before = s.lifecycle_state;
  lifecycle_during = s.lifecycle_state;
  lifecycle_after = s.lifecycle_state;
  command_status = status;
  control_type = ControlType.no_control;
  control_status = ControlSubmissionStatus.unset;
  control_request_id = 0;
  control_source = "";
  stop_reason = StopReason.program_complete;
  stop_status = StopStatus.stopped;
  outcome = s.result.outcome;
  event_cause = cause;
  point_name = command.movej.point_name;
  signal_name = command.signal_name;
  tool_name = command.tool_name;
  expected_value = command.signal_value;
  observed_value =
      if is_command command.type CommandType.set_do || is_command command.type CommandType.wait_di
      then traced_signal command s
      else false;
  deadline_ms = traced_deadline s.active_command index;
  commanded_tool_position =
      if is_command command.type CommandType.set_tool
      then command.tool_position
      else ToolPosition.opened;
  observed_tool_position =
      if is_command command.type CommandType.set_tool
      then traced_tool command s
      else ToolPosition.opened;
  speed_percent =
      if is_command command.type CommandType.movej then command.movej.speed_percent else pos 0;
  backend_steps = elim snapshot [ none ↦ pos 0 | some m ↦ m.backend_steps ];
  workcell_generation = value_or s.last_workcell_generation 0;
  targets = command.movej.targets;
  actual_positions = elim snapshot [ none ↦ s.latest_positions | some m ↦ m.positions ];
}

unfoldable pub push_trace : TraceEntry → Session → Session
push_trace entry s = record s {
  result = record (s.result) { trace = s.result.trace ++ entry ∷ [] };
}

unfoldable pub append_trace :
    Command
    → ℕ
    → CommandExecutionStatus
    → RuntimeState
    → RuntimeState
    → RuntimeState
    → String
    → Option MotionSnapshot
    → Session
    → Session
unfolding push_trace
append_trace command index status before during after_ cause snapshot s =
    push_trace (trace_entry command index status before during after_ cause snapshot s) s

-- The entry of AppendControlTrace.
unfoldable pub control_entry :
    RuntimeEvent
    → ControlSubmissionStatus
    → String
    → LifecycleState
    → Option StopReason
    → Option StopStatus
    → Session
    → TraceEntry
control_entry event status cause before stop_reason stop_status s = record {
  business_time_ms = now s;
  command_index = elim s.active_command [ none ↦ 0 | some a ↦ a.command_index + 1 ];
  line = elim s.active_command [ none ↦ 0 | some a ↦ a.line ];
  command = elim s.active_command [ none ↦ CommandType.no_command | some a ↦ a.type ];
  state_before = s.state;
  state_during = s.state;
  state_after = s.state;
  lifecycle_before = before;
  lifecycle_during = s.lifecycle_state;
  lifecycle_after = s.lifecycle_state;
  command_status = CommandExecutionStatus.pending;
  control_type = event.control_type;
  control_status = status;
  control_request_id = event.control_request_id;
  control_source = event.control_source;
  stop_reason = value_or stop_reason StopReason.program_complete;
  stop_status = value_or stop_status StopStatus.stopped;
  outcome = s.result.outcome;
  event_cause = cause;
  point_name = "";
  signal_name = "";
  tool_name = "";
  expected_value = false;
  observed_value = false;
  deadline_ms = negsuc 0;
  commanded_tool_position = ToolPosition.opened;
  observed_tool_position = ToolPosition.opened;
  speed_percent = pos 0;
  backend_steps = pos 0;
  workcell_generation = value_or s.last_workcell_generation 0;
  targets = no_positions;
  actual_positions = no_positions;
}

unfoldable pub append_control_trace :
    RuntimeEvent
    → ControlSubmissionStatus
    → String
    → LifecycleState
    → Option StopReason
    → Option StopStatus
    → Session
    → Session
unfolding push_trace
append_control_trace event status cause before stop_reason stop_status s =
    push_trace (control_entry event status cause before stop_reason stop_status s) s
