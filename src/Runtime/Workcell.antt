-- ===== src/Runtime/Workcell.antt =====
-- The end of a command, and what a workcell snapshot does to the session (runtime.cpp):
-- FinishActiveSuccess and ApplyWorkcellSnapshot.
use roborun.Prelude.{
  ℕ, ℤ, pos, ◌+◌, ◌%◌, leb, ltbℤ, Bool, true, false, not, ◌&&◌, ◌||◌, String, text_append, decimal,
  List, [], ◌∷◌, Option, none, some, lookup, ok, if◌then◌else◌,
}
use roborun.Types.{
  RuntimeState, LifecycleState, CommandType, CommandExecutionStatus, BackendOperationState,
  StopReason, DiagnosticCode, ToolPosition, Command, ActiveCommand, MotionSnapshot,
  WorkcellSnapshot, is_lifecycle, is_position, same_bool,
}
use roborun.EventQueue.{u64_mod}
use roborun.Runtime.State.{Session, WorkcellEvidence, M}
use roborun.Runtime.Records.{append_trace}
use roborun.Runtime.Scheduling.{command_at, or_message}
use roborun.Runtime.Stopping.{begin_fault}

-- `lifecycle_state_ == kRunning || lifecycle_state_ == kWaiting`.
abbrev pub in_progress : LifecycleState → Bool
in_progress l = is_lifecycle l LifecycleState.running || is_lifecycle l LifecycleState.waiting

-- The success of a command that is active.
unfoldable pub succeed : ActiveCommand → String → Option MotionSnapshot → Session → Session
succeed a cause snapshot s =
    let traced =
      append_trace (command_at s a.command_index) a.command_index CommandExecutionStatus.succeeded
        s.state RuntimeState.running RuntimeState.ready cause snapshot s in
    record traced {
      state = RuntimeState.ready;
      lifecycle_state = LifecycleState.running;
      backend_operation_state = BackendOperationState.idle;
      next_command_index = (s.next_command_index + 1) % u64_mod;
      active_command = none;
    }

unfoldable pub finish_active_success : String → Option MotionSnapshot → Session → Session
finish_active_success cause snapshot s = elim s.active_command [
  | none ↦ s
  | some a ↦ if in_progress s.lifecycle_state then succeed a cause snapshot s else s
]

unfoldable pub evidence_of : WorkcellSnapshot → WorkcellEvidence
evidence_of w = record {
  generation = w.generation;
  scene_schema = w.scene_schema;
  joint_positions = w.joint_positions;
  signals = w.signals;
  tools = w.tools;
  tool_openings = w.tool_openings;
  workpiece_present = w.workpiece.present;
  workpiece_attached = w.workpiece.attached;
  workpiece_at_place = w.workpiece.at_place;
  workpiece_pose = w.workpiece.world_pose;
  collision = w.collision;
  collision_aliases = w.collision_aliases;
  simulation_running = w.simulation_running;
}

-- The writes of a snapshot that is newer than the last one.
unfoldable pub adopt : WorkcellSnapshot → Session → Session
adopt w s = record s {
  last_workcell_generation = some w.generation;
  latest_positions = w.joint_positions;
  signals = w.signals;
  tools = w.tools;
  result = record (s.result) {
    signals = w.signals;
    tools = w.tools;
    workcell = some (evidence_of w);
  };
}

unfoldable pub spaced : List String → String
spaced [] = ""
spaced (a ∷ rest) = text_append " " (text_append a (spaced rest))

unfoldable pub collision_details : WorkcellSnapshot → String
collision_details w =
    text_append "workcell generation "
      (text_append (decimal w.generation) (text_append " collision" (spaced w.collision_aliases)))

unfoldable pub fail_active : String → Option ActiveCommand → Session → Session
fail_active cause none s = s
fail_active cause (some a) s =
    append_trace (command_at s a.command_index) a.command_index CommandExecutionStatus.failed
      s.state s.state RuntimeState.faulted cause none
      (record s { active_command = some (record a { status = CommandExecutionStatus.failed }) })

unfoldable pub signal_is : String → Bool → Session → Bool
signal_is name value s = elim (lookup name s.signals) [
  | none ↦ false
  | some signal ↦ same_bool signal.value value
]

unfoldable pub tool_is : String → ToolPosition → Session → Bool
tool_is name position s = elim (lookup name s.tools) [
  | none ↦ false
  | some tool ↦ is_position tool.observed position
]

unfoldable pub stable_samples : String → WorkcellSnapshot → ℤ
stable_samples name w = elim (lookup name w.tool_stable_samples) [ none ↦ pos 0 | some n ↦ n ]

-- Whether the workpiece is, for enough samples, where the tool's position should have put it.
unfoldable pub workpiece_settled : ToolPosition → WorkcellSnapshot → Bool
workpiece_settled ToolPosition.closed w =
    w.workpiece.attached && not (ltbℤ w.workpiece.attached_stable_samples w.required_stable_samples)
workpiece_settled ToolPosition.opened w =
    not w.workpiece.attached
    && not (ltbℤ w.workpiece.place_stable_samples w.required_stable_samples)

-- The fault that a snapshot reports of a tool in its commanded position.
unfoldable pub tool_fault : ToolPosition → WorkcellSnapshot → Option (DiagnosticCode × String)
tool_fault ToolPosition.closed w =
    if w.grip_failed
    then some (DiagnosticCode.grip_failure, "gripper closed without attaching the workpiece")
    else none
tool_fault ToolPosition.opened w =
    if w.placement_failed
    then some (
      DiagnosticCode.placement_failure,
      "gripper opened without a stable detached workpiece at PLACE",
    )
    else none

unfoldable pub tool_reached : Command → WorkcellSnapshot → M (Unit {0})
tool_reached command w s =
    if ltbℤ (stable_samples command.tool_name w) w.required_stable_samples
    then ok tt s
    else elim (tool_fault command.tool_position w) [
      | some (code, message) ↦ begin_fault code message true StopReason.fault_cleanup s
      | none ↦ ok tt (
          if workpiece_settled command.tool_position w
          then finish_active_success "workcell_tool_satisfied" none s
          else s)
    ]

-- The command that a snapshot may complete, by its type.
unfoldable pub observe : CommandType → Command → WorkcellSnapshot → M (Unit {0})
observe CommandType.wait_di command w s = ok tt (
    if signal_is command.signal_name command.signal_value s
    then finish_active_success "workcell_di_satisfied" none s
    else s)
observe CommandType.set_tool command w s =
    if tool_is command.tool_name command.tool_position s then tool_reached command w s else ok tt s
observe CommandType.set_do command w s = ok tt (
    if signal_is command.signal_name command.signal_value s
    then finish_active_success "workcell_do_satisfied" none s
    else s)
observe _ command w s = ok tt s

unfoldable pub stale : Option ℕ → ℕ → Bool
stale none generation = false
stale (some last) generation = leb generation last

unfoldable pub apply_fresh : WorkcellSnapshot → M (Unit {0})
apply_fresh w s =
    let adopted = adopt w s in
    if w.collision
    then begin_fault DiagnosticCode.collision_detected (collision_details w) false
        StopReason.fault_cleanup (fail_active "workcell_collision" adopted.active_command adopted)
    else elim adopted.active_command [
      | none ↦ ok tt adopted
      | some a ↦
          if in_progress adopted.lifecycle_state
          then (let command = command_at adopted a.command_index in
              observe command.type command w adopted)
          else ok tt adopted
    ]

unfoldable pub apply_workcell_snapshot : WorkcellSnapshot → M (Unit {0})
apply_workcell_snapshot w s =
    if not w.valid
    then begin_fault DiagnosticCode.workcell_snapshot_failure
        (or_message w.message "workcell returned an invalid snapshot") false
        StopReason.fault_cleanup s
    else if stale s.last_workcell_generation w.generation
    then ok tt s
    else apply_fresh w s
