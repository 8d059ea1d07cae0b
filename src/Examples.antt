-- ===== src/Examples.antt =====
-- Concrete devices, configurations and sessions, at which the theorems are applied.
mod Queues
mod Sessions
mod Programs
mod Simulators
mod Parsing
mod Robots
mod Scenarios
use roborun.Prelude.{ℕ, ℤ, pos, Bool, true, false, String, List, [], ◌∷◌, Option, none, some}
use roborun.Types.{
  RuntimeState, LifecycleState, ControlType, BackendState, BackendOperationState, CommandType,
  CommandExecutionStatus, SignalDirection, StopReason, StopDisposition, MotionSubmissionStatus,
  MotionStatus, StopSubmissionStatus, StopStatus, WorkcellCommandStatus, RuntimeEventPriority,
  RuntimeEventType, ActiveCommand, DigitalSignal, IoConfiguration, Program, WorkcellSnapshot,
  no_positions,
}
use roborun.Clock.{Clock}
use roborun.EventQueue.{RuntimeEvent, EventQueue, no_command_index}
use roborun.Runtime.State.{
  Devices, Reply, returns, throws, Setup, Session, StopEpisode, default_options,
}
use roborun.Runtime.Resetting.{empty_result, empty_program}

abbrev pub clear_workcell : WorkcellSnapshot
clear_workcell = record {
  generation = 7;
  valid = true;
  scene_schema = "scene";
  joint_positions = no_positions;
  signals = [];
  tools = [];
  tool_openings = [];
  tool_stable_samples = [];
  required_stable_samples = pos 3;
  workpiece = record {
    present = true;
    at_pick = true;
    attached = false;
    at_place = false;
    attached_stable_samples = pos 0;
    place_stable_samples = pos 0;
    parent_alias = "";
    world_pose = [];
  };
  grip_failed = false;
  placement_failed = false;
  collision = false;
  collision_aliases = [];
  simulation_running = true;
  message = "";
}

-- A robot that accepts every motion, confirms every stop, and fails to switch its servo.
abbrev pub devices : Devices
devices = record {
  name = "robot";
  version = "1";
  connect = λ _. returns tt;
  set_servo_enabled = λ _. throws "servo is stuck";
  submit_movej = λ _.
      returns
        (record { status = MotionSubmissionStatus.accepted; message = ""; poll_after_ms = none });
  resume_movej = λ _.
      returns
        (record { status = MotionSubmissionStatus.accepted; message = ""; poll_after_ms = none });
  poll_motion = λ _. returns (record {
    status = MotionStatus.running;
    positions = no_positions;
    backend_steps = pos 1;
    message = "";
    poll_after_ms = none;
  });
  submit_stop = λ _.
      returns
        (record { status = StopSubmissionStatus.accepted; message = ""; poll_after_ms = none });
  poll_stop = λ _. returns (record {
    status = StopStatus.stopped;
    positions = no_positions;
    backend_steps = pos 1;
    message = "";
    poll_after_ms = none;
  });
  disconnect = λ _. returns tt;
  submit_tool_command = λ _.
      returns
        (record { status = WorkcellCommandStatus.accepted; message = ""; poll_after_ms = none });
  set_digital_output = λ _.
      returns
        (record { status = WorkcellCommandStatus.accepted; message = ""; poll_after_ms = none });
  poll_workcell = λ _. returns clear_workcell;
  request_safe_state = λ _.
      returns
        (record { status = WorkcellCommandStatus.accepted; message = ""; poll_after_ms = none });
  poll_safe_state = λ _.
      returns
        (record { status = WorkcellCommandStatus.accepted; message = ""; poll_after_ms = none });
}

abbrev pub lamp : DigitalSignal
lamp = record {
  name = "DO_LAMP";
  direction = SignalDirection.do_;
  value = false;
  last_update_ms = pos 0;
}

abbrev pub io : IoConfiguration
io = record { source = "io.json"; signals = ("DO_LAMP", lamp) ∷ [] }

abbrev pub setup : Setup
setup = record {
  has_backend = true;
  has_workcell = false;
  devices = devices;
  robot_configuration = none;
  point_catalog = none;
  io_configuration = some io;
  tool_configuration = none;
  scenario = none;
  options = default_options;
}

-- A session behind its construction, at the time 400.
abbrev pub idle : Session
idle = record {
  setup = setup;
  clock = some (record { now = pos 400; is_virtual = true });
  calls = [];
  program = empty_program;
  events = record { events = []; next_sequence = 0 };
  result = empty_result;
  alarm_history = [];
  state = RuntimeState.servo_off;
  lifecycle_state = LifecycleState.idle;
  backend_state = BackendState.disconnected;
  backend_operation_state = BackendOperationState.idle;
  latest_positions = no_positions;
  signals = ("DO_LAMP", lamp) ∷ [];
  tools = [];
  next_command_index = 0;
  active_command = none;
  stop_episode = none;
  connected = false;
  servo_disabled = true;
  task_terminal = false;
  session_untrusted = false;
  workcell_safe_requested = false;
  workcell_safe_confirmed = false;
  workcell_safe_deadline_ms = none;
  last_workcell_generation = none;
  workcell_safe_generation = none;
  next_control_request_id = 1;
  next_stop_episode_id = 1;
}

abbrev pub active : CommandType → ActiveCommand
active type = record {
  command_index = 1;
  line = 2;
  type = type;
  status = CommandExecutionStatus.running;
  started_at_ms = pos 300;
  deadline_ms = some (pos 1000);
  remaining_ms = pos 700;
  generation = 1;
}

abbrev pub waiting : Session
waiting = record idle {
  lifecycle_state = LifecycleState.waiting;
  state = RuntimeState.running;
  active_command = some (active CommandType.delay);
}

abbrev pub moving : Session
moving = record idle {
  lifecycle_state = LifecycleState.running;
  state = RuntimeState.running;
  backend_operation_state = BackendOperationState.active;
  backend_state = BackendState.connected;
  connected = true;
  servo_disabled = false;
  active_command = some (active CommandType.movej);
}

abbrev pub episode : StopEpisode
episode = record {
  id = 1;
  reason = StopReason.operator_stop;
  disposition = StopDisposition.operator_stop;
  deadline_ms = pos 2400;
  control_event = none;
}

abbrev pub stopping : Session
stopping = record moving {
  lifecycle_state = LifecycleState.stopping;
  stop_episode = some episode;
  next_stop_episode_id = 2;
}

-- Ended in an emergency stop, with the servo off.
abbrev pub emergency : Session
emergency = record idle {
  lifecycle_state = LifecycleState.emergency_stopped;
  state = RuntimeState.stopped;
  task_terminal = true;
}

-- Ended in a fault that no condition clears.
abbrev pub faulted : Session
faulted = record idle {
  lifecycle_state = LifecycleState.faulted;
  state = RuntimeState.faulted;
  task_terminal = true;
}

abbrev pub event : RuntimeEventType → RuntimeEvent
event type = record {
  time = pos 400;
  priority = RuntimeEventPriority.external_feedback;
  sequence = 5;
  type = type;
  name = "";
  value = false;
  detail = "";
  command_index = 1;
  control_type = ControlType.no_control;
  control_request_id = 0;
  control_source = "";
  command_generation = 9;
  stop_episode_id = 9;
}

abbrev pub control : ControlType → RuntimeEvent
control type = record (event RuntimeEventType.control) {
  control_type = type;
  control_request_id = 3;
  control_source = "operator";
  priority = RuntimeEventPriority.lifecycle_control;
}
