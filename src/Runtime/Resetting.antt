-- ===== src/Runtime/Resetting.antt =====
-- ResetSession (runtime.cpp).
pub mod Gate
use roborun.Prelude.{
  ℕ, pos, leb, Bool, true, false, not, ◌&&◌, ◌||◌, String, str_eq, text_append, [], map, Option,
  none, some, get_elem?, has_value, Outcome, ok, threw, ◌>>=◌, ◌>>◌, if◌then◌else◌,
}
use roborun.Types.{
  RuntimeState, LifecycleState, ExecutionOutcome, BackendState, BackendOperationState,
  ControlSubmissionStatus, WorkcellCommandStatus, DiagnosticCode, Alarm, Program,
  WorkcellCommandSubmission, WorkcellSnapshot, is_lifecycle,
}
use roborun.EventQueue.{RuntimeEvent, clear}
use roborun.Runtime.State.{
  Session, ExecutionResult, M, disconnect, poll_safe_state, poll_workcell, invoke,
}
use roborun.Runtime.Records.{append_control_trace, synchronize_result_state}
use roborun.Runtime.Cleanup.{raise_permanent}
use roborun.Runtime.Workcell.{apply_workcell_snapshot}

-- `ExecutionResult{}` and `Program{}`.
abbrev pub empty_result : ExecutionResult
empty_result = record {
  succeeded = false;
  outcome = ExecutionOutcome.no_outcome;
  final_state = RuntimeState.servo_off;
  lifecycle_state = LifecycleState.idle;
  backend_state = BackendState.disconnected;
  backend_operation_state = BackendOperationState.idle;
  task_source = "";
  backend_name = "";
  backend_version = "";
  finished_business_time_ms = pos 0;
  signals = [];
  tools = [];
  workcell = none;
  workcell_safe_confirmed = false;
  trace = [];
  diagnostics = [];
  alarms = [];
  primary_alarm_index = none;
}

abbrev pub empty_program : Program
empty_program = record { source = ""; commands = [] }

-- The primary alarm is recoverable. The source indexes the alarms with no check.
unfoldable pub primary_recoverable : Session → Bool
primary_recoverable s = elim s.result.primary_alarm_index [
  | none ↦ false
  | some i ↦ elim (get_elem? s.result.alarms i) [ none ↦ false | some a ↦ a.recoverable ]
]

-- `allowed` of ResetSession.
unfoldable pub reset_allowed : Session → Bool
reset_allowed s =
    (is_lifecycle s.lifecycle_state LifecycleState.emergency_stopped
      || (is_lifecycle s.lifecycle_state LifecycleState.faulted && primary_recoverable s))
    && not (has_value s.active_command)
    && not (has_value s.stop_episode)
    && s.servo_disabled
    && not s.session_untrusted
    && (not s.setup.has_workcell
        || (s.workcell_safe_requested
            && s.workcell_safe_confirmed
            && has_value s.workcell_safe_generation))

unfoldable pub reset_rejected : RuntimeEvent → String → Session → Session
reset_rejected event cause s =
    append_control_trace event ControlSubmissionStatus.rejected cause s.lifecycle_state none none s

-- The new session state behind an accepted reset.
unfoldable pub cleared : RuntimeEvent → LifecycleState → Session → Session
cleared event before s =
    let history = map (λ (a : Alarm). record a { active = false }) s.alarm_history in
    synchronize_result_state (
      append_control_trace event ControlSubmissionStatus.accepted "reset_accepted" before none none
        (record s {
          alarm_history = history;
          result = record empty_result { alarms = history; trace = s.result.trace };
          events = clear s.events;
          program = empty_program;
          state = RuntimeState.servo_off;
          lifecycle_state = LifecycleState.idle;
          backend_state = BackendState.disconnected;
          backend_operation_state = BackendOperationState.idle;
          task_terminal = false;
          workcell_safe_requested = false;
          workcell_safe_confirmed = false;
          workcell_safe_deadline_ms = none;
          workcell_safe_generation = none;
          last_workcell_generation = none;
        }))

unfoldable pub newer_than : Option ℕ → ℕ → Bool
newer_than none generation = true
newer_than (some last) generation = not (leb generation last)

unfoldable pub same_scene : WorkcellSnapshot → Session → Bool
same_scene w s = elim s.result.workcell [
  | none ↦ true
  | some e ↦ str_eq w.scene_schema e.scene_schema
]

-- The revalidation of the workcell succeeded.
unfoldable pub revalidated : WorkcellCommandSubmission → WorkcellSnapshot → Session → Bool
revalidated safe w s = elim safe.status [
  | WorkcellCommandStatus.rejected ↦ false
  | WorkcellCommandStatus.accepted ↦
      w.valid
      && w.simulation_running
      && not w.collision
      && same_scene w s
      && newer_than s.workcell_safe_generation w.generation
      && newer_than s.last_workcell_generation w.generation
]

unfoldable pub reset_disconnected :
    RuntimeEvent → LifecycleState → Outcome Session (Unit {0}) → Session
reset_disconnected event before (ok _ s) =
    cleared event before (record s { connected = false; backend_state = BackendState.disconnected })
reset_disconnected event before (threw e s) =
    append_control_trace event ControlSubmissionStatus.rejected "reset_disconnect_failed" before
      none none
      (raise_permanent DiagnosticCode.disconnect_failure "backend" "disconnect_failed" e
        (record s { session_untrusted = true; backend_state = BackendState.faulted }))

unfoldable pub reset_revalidated :
    RuntimeEvent → WorkcellCommandSubmission × WorkcellSnapshot → M (Unit {0})
reset_revalidated event (safe, w) s =
    let before = s.lifecycle_state in
    if revalidated safe w s
    then (do
      apply_workcell_snapshot w
      λ s'. ok tt (reset_disconnected event before (invoke disconnect (λ d. d.disconnect) s')))
        s
    else ok tt (reset_rejected event "reset_workcell_revalidation_failed" s)

unfoldable pub reset_polls : M (WorkcellCommandSubmission × WorkcellSnapshot)
reset_polls = do
  safe ← invoke poll_safe_state (λ d. d.poll_safe_state)
  w ← invoke poll_workcell (λ d. d.poll_workcell)
  ok (safe, w)

unfoldable pub reset_workcell : RuntimeEvent → M (Unit {0})
reset_workcell event s =
    if not s.connected
    then ok tt (reset_rejected event "reset_workcell_connection_not_valid" s)
    else elim (reset_polls s) [
      | threw e s' ↦
          ok tt (reset_rejected event (text_append "reset_workcell_revalidation_failed: " e) s')
      | ok polled s' ↦ reset_revalidated event polled s'
    ]

unfoldable pub reset_session : RuntimeEvent → M (Unit {0})
reset_session event s =
    if not (reset_allowed s)
    then ok tt (reset_rejected event "reset_recovery_conditions_not_met" s)
    else if s.setup.has_workcell
    then reset_workcell event s
    else ok tt (cleared event s.lifecycle_state s)
