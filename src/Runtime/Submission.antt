-- ===== src/Runtime/Submission.antt =====
-- PrepareResult and SubmitProgram (runtime.cpp).
pub mod Entry
pub mod NoThrow
use roborun.Prelude.{
  ℕ, pos, suc, Bool, true, false, not, ◌&&◌, ◌||◌, String, List, [], ◌∷◌, ◌++◌, Option, none, some,
  has_value, Dict, ok, ◌>>=◌, ◌>>◌, if◌then◌else◌,
}
use roborun.Types.{
  RuntimeState, LifecycleState, ExecutionOutcome, BackendState, BackendOperationState,
  ProgramSubmissionStatus, RuntimeEventPriority, RuntimeEventType, ScenarioEventKind, Alarm,
  Diagnostic, Program, ScenarioEvent, ScenarioControl, MockScenario, DigitalSignal, ToolState,
  is_lifecycle, no_positions,
}
use roborun.Types.Names.{tool_position_to_string}
use roborun.EventQueue.{EventScheduleRequest, clear, no_command_index}
use roborun.Validator.{Doubles, Context, validate_program}
use roborun.Config.{validate_point_catalog}
use roborun.Runtime.State.{Session, M, begin_program}
use roborun.Runtime.Records.{synchronize_result_state}
use roborun.Runtime.Scheduling.{schedule_event}
use roborun.Runtime.Resetting.{empty_result}
use roborun.Runtime.Advance.{submit_control_at}
use roborun.Runtime.Scenario.{validate_scenario}

-- The signals and tools of the configurations, where there are any, and their copies in the result.
unfoldable pub copied_signals : Session → Dict DigitalSignal
copied_signals s = elim s.setup.io_configuration [ none ↦ s.signals | some io ↦ io.signals ]

unfoldable pub copied_tools : Session → Dict ToolState
copied_tools s = elim s.setup.tool_configuration [ none ↦ s.tools | some t ↦ t.tools ]

unfoldable pub copy_workcell_state : Session → Session
copy_workcell_state s = record s {
  signals = copied_signals s;
  tools = copied_tools s;
  result = record (s.result) { signals = copied_signals s; tools = copied_tools s };
}

-- The first alarm that is still active, counted from `index`.
unfoldable pub first_active : ℕ → List Alarm → Option ℕ
first_active index [] = none
first_active index (a ∷ alarms) =
    let rest = first_active (suc index) alarms in if a.active then some index else rest

unfoldable pub prepare_result : Program → Session → Session
prepare_result program s = synchronize_result_state (
    copy_workcell_state (record s {
      program = program;
      events = clear s.events;
      result = record empty_result {
        task_source = program.source;
        alarms = s.alarm_history;
        primary_alarm_index = first_active 0 s.alarm_history;
      };
      state = RuntimeState.servo_off;
      lifecycle_state = LifecycleState.running;
      backend_state = BackendState.disconnected;
      backend_operation_state = BackendOperationState.idle;
      latest_positions = no_positions;
      next_command_index = 0;
      active_command = none;
      stop_episode = none;
      connected = false;
      servo_disabled = true;
      task_terminal = false;
      workcell_safe_requested = false;
      workcell_safe_confirmed = false;
      workcell_safe_deadline_ms = none;
      last_workcell_generation = none;
      workcell_safe_generation = none;
    }))

pub record ProgramSubmission : Type 0 where
  pub status : ProgramSubmissionStatus
  pub message : String

unfoldable pub rejects : String → ProgramSubmission
rejects message = record { status = ProgramSubmissionStatus.rejected; message = message }

-- A rejected program leaves a faulted session with the diagnostics.
unfoldable pub faulted_submission : List Diagnostic → Session → Session
faulted_submission diagnostics s = synchronize_result_state (record s {
  state = RuntimeState.faulted;
  lifecycle_state = LifecycleState.faulted;
  task_terminal = true;
  result = record (s.result) {
    diagnostics = diagnostics;
    outcome = ExecutionOutcome.faulted;
    final_state = RuntimeState.faulted;
  };
})

unfoldable pub no_alarms : List Alarm → Bool
no_alarms [] = true
no_alarms (a ∷ alarms) = false

unfoldable pub no_diagnostics : List Diagnostic → Bool
no_diagnostics [] = true
no_diagnostics (d ∷ ds) = false

-- `replaceable_rejected_submission`.
unfoldable pub replaceable : Session → Bool
replaceable s =
    s.task_terminal
    && is_lifecycle s.lifecycle_state LifecycleState.faulted
    && no_alarms s.result.alarms
    && not s.connected
    && not (has_value s.active_command)
    && not (has_value s.stop_episode)

unfoldable pub open_for_program : Session → Bool
open_for_program s =
    is_lifecycle s.lifecycle_state LifecycleState.idle
    || is_lifecycle s.lifecycle_state LifecycleState.stopped
    || replaceable s

unfoldable pub context_of : Doubles → Program → Session → Context
context_of doubles program s = record {
  doubles = doubles;
  source = program.source;
  robot_configuration = s.setup.robot_configuration;
  point_catalog = s.setup.point_catalog;
  io_configuration = s.setup.io_configuration;
  tool_configuration = s.setup.tool_configuration;
}

unfoldable pub catalog_diagnostics : Doubles → Session → List Diagnostic
catalog_diagnostics doubles s = elim s.setup.robot_configuration [
  | none ↦ []
  | some robot ↦ elim s.setup.point_catalog [
    | none ↦ []
    | some catalog ↦ validate_point_catalog doubles catalog robot
  ]
]

unfoldable pub event_request : ScenarioEvent → EventScheduleRequest
event_request event = elim event.kind [
  | ScenarioEventKind.di_change ↦ record {
    time = event.time_ms;
    priority = RuntimeEventPriority.external_feedback;
    type = RuntimeEventType.digital_input;
    name = event.name;
    value = event.value;
    detail = "";
    command_index = no_command_index;
    command_generation = 0;
    stop_episode_id = 0;
  }
  | ScenarioEventKind.tool_feedback ↦ record {
    time = event.time_ms;
    priority = RuntimeEventPriority.external_feedback;
    type = RuntimeEventType.tool_feedback;
    name = event.name;
    value = false;
    detail = tool_position_to_string event.tool_position;
    command_index = no_command_index;
    command_generation = 0;
    stop_episode_id = 0;
  }
  | ScenarioEventKind.connection_loss ↦ record {
    time = event.time_ms;
    priority = RuntimeEventPriority.external_feedback;
    type = RuntimeEventType.backend_fault;
    name = "";
    value = false;
    detail = "connection loss";
    command_index = no_command_index;
    command_generation = 0;
    stop_episode_id = 0;
  }
]

unfoldable pub schedule_scenario_events : List ScenarioEvent → M (Unit {0})
schedule_scenario_events [] s = ok tt s
schedule_scenario_events (event ∷ events) s =
    (do schedule_event (event_request event); schedule_scenario_events events) s

-- The submissions' answers are dropped.
unfoldable pub schedule_scenario_controls : List ScenarioControl → M (Unit {0})
schedule_scenario_controls [] s = ok tt s
schedule_scenario_controls (control ∷ controls) s =
    (do
      _ ← submit_control_at control.time_ms control.type control.source
      schedule_scenario_controls controls)
      s

unfoldable pub schedule_scenario : Option MockScenario → M (Unit {0})
schedule_scenario none s = ok tt s
schedule_scenario (some scenario) s =
    (do schedule_scenario_events scenario.events; schedule_scenario_controls scenario.controls) s

-- `backend_->BeginProgram()` answers nothing and does not throw.
unfoldable pub begin_on_backend : Session → Session
begin_on_backend s = record s {
  calls = begin_program ∷ s.calls;
  result = record (s.result) {
    backend_name = s.setup.devices.name;
    backend_version = s.setup.devices.version;
  };
}

unfoldable pub start_program : Program → M ProgramSubmission
start_program program s =
    let prepared = prepare_result program s in
    let report = validate_scenario prepared in
    if report.0
    then (do
      schedule_scenario s.setup.scenario
      ok (record { status = ProgramSubmissionStatus.accepted; message = "" }))
        (begin_on_backend prepared)
    else ok (rejects "Mock scenario validation failed") (faulted_submission report.1 prepared)

-- All that the validation of a program reports.
unfoldable pub program_diagnostics : Doubles → Program → Session → List Diagnostic
program_diagnostics doubles program s =
    (validate_program (context_of doubles program s) program.commands).diagnostics
    ++ catalog_diagnostics doubles s

unfoldable pub submit_program : Doubles → Program → M ProgramSubmission
submit_program doubles program s =
    if not (open_for_program s)
    then ok (rejects "Runtime Session already has an active Program") s
    else if not s.setup.has_backend
    then ok (rejects "robot backend is missing") s
    else if not (has_value s.clock)
    then ok (rejects "clock is missing") s
    else if no_diagnostics (program_diagnostics doubles program s)
    then start_program (validate_program (context_of doubles program s) program.commands).program s
    else ok (rejects "Program validation failed")
        (faulted_submission (program_diagnostics doubles program s) (prepare_result program s))
