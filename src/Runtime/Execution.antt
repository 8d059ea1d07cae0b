-- ===== src/Runtime/Execution.antt =====
-- RobotTaskRuntime::Start and Execute, and the constructor of RuntimeExecution (runtime.cpp). The
-- second loop of Execute runs on fuel.
pub mod Rejection
use roborun.Prelude.{
  ℕ, zero, suc, pos, Bool, true, false, Option, none, some, [], Outcome, ok, threw, ◌>>=◌, ◌>>◌,
  if◌then◌else◌,
}
use roborun.Types.{
  RuntimeState, LifecycleState, BackendState, BackendOperationState, ControlType, Program,
  no_positions,
}
use roborun.Clock.{Clock}
use roborun.Validator.{Doubles}
use roborun.Runtime.State.{Setup, Session, ExecutionResult, M, default_options}
use roborun.Runtime.Records.{synchronize_result_state}
use roborun.Runtime.Resetting.{empty_result, empty_program}
use roborun.Runtime.Submission.{copy_workcell_state, submit_program}
use roborun.Runtime.Advance.{advance, submit_control}

-- The members of a new RuntimeExecution, before the constructor's body.
unfoldable pub initial_session : Setup → Option Clock → Session
initial_session setup clock = record {
  setup = setup;
  clock = clock;
  calls = [];
  program = empty_program;
  events = record { events = []; next_sequence = 0 };
  result = empty_result;
  alarm_history = [];
  state = RuntimeState.servo_off;
  lifecycle_state = LifecycleState.idle;
  backend_state = BackendState.disconnected;
  backend_operation_state = BackendOperationState.idle;
  latest_positions = no_positions;
  signals = [];
  tools = [];
  next_command_index = 0;
  active_command = none;
  stop_episode = none;
  connected = false;
  servo_disabled = true;
  task_terminal = false;
  session_untrusted = false;
  workcell_safe_requested = false;
  workcell_safe_confirmed = false;
  workcell_safe_deadline_ms = none;
  last_workcell_generation = none;
  workcell_safe_generation = none;
  next_control_request_id = 1;
  next_stop_episode_id = 1;
}

unfoldable pub new_session : Setup → Option Clock → Session
new_session setup clock =
    synchronize_result_state (copy_workcell_state (initial_session setup clock))

-- Start, which drops what SubmitProgram answers.
unfoldable pub start : Doubles → Setup → Option Clock → Program → Outcome Session (Unit {0})
start doubles setup clock program =
    (do _ ← submit_program doubles program; ok tt)
      (new_session (record setup { options = default_options }) clock)

-- `for (step = 0; !is_terminal() && step < rounds; ++step) Advance();`
unfoldable pub run_steps : ℕ → M (Unit {0})
run_steps zero s = ok tt s
run_steps (suc rounds) s = elim s.task_terminal [
  | true ↦ ok tt s
  | false ↦ (do _ ← advance; run_steps rounds) s
]

-- `while (!is_terminal()) Advance();`, and whether the fuel was enough.
unfoldable pub drain : ℕ → M Bool
drain zero s = ok s.task_terminal s
drain (suc fuel) s = elim s.task_terminal [
  | true ↦ ok true s
  | false ↦ (do _ ← advance; drain fuel) s
]

-- The end of Execute: the guard against a program that does not end.
unfoldable pub guarded_result : ℕ → M (Option ExecutionResult)
guarded_result fuel s =
    if s.task_terminal
    then ok (some s.result) s
    else (do
      _ ← submit_control ControlType.estop "one-shot-guard"
      ended ← drain fuel
      λ t. ok (if ended then some t.result else none) t)
        s

abbrev virtual_clock : Clock
virtual_clock = record { now = pos 0; is_virtual = true }

-- `none` where the fuel was not enough.
unfoldable pub execute : ℕ → Doubles → Setup → Program → Outcome Session (Option ExecutionResult)
execute fuel doubles setup program = elim (start doubles setup (some virtual_clock) program) [
  | threw e s ↦ threw e s
  | ok _ s ↦ (do run_steps 100000; guarded_result fuel) s
]
