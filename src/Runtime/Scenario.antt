-- ===== src/Runtime/Scenario.antt =====
-- ValidateScenario (runtime.cpp). Every test that fails adds a diagnostic and clears the flag.
use roborun.Prelude.{
  ℕ, pos, suc, ltb, ◌==◌, ltbℤ, eqbℤ, Bool, true, false, not, ◌&&◌, ◌||◌, String, List, [], ◌∷◌,
  ◌++◌, none, some, lookup, contains, if◌then◌else◌,
}
use roborun.Types.{
  BusinessTime, CommandType, ControlType, ScenarioEventKind, SignalDirection, DiagnosticCode,
  Command, Diagnostic, MotionPlan, StopPlan, ScenarioEvent, ScenarioControl, MockScenario,
  is_command, is_direction,
}
use roborun.Runtime.State.{Session}

-- What the tests so far say, and the diagnostics they left.
abbrev pub Report : Type 0
Report = Bool × List Diagnostic

abbrev pub passed : Report
passed = (true, [])

unfoldable pub both : Report → Report → Report
both (a, ds) (b, es) = (a && b, ds ++ es)

unfoldable pub expect : Bool → String → String → Report
expect holds source message = if holds then passed else (
  false,
  record {
    code = DiagnosticCode.invalid_scenario;
    source = source;
    line = 0;
    column = 0;
    path = "";
    message = message;
  }
      ∷ [],
)

unfoldable pub movej_count : List Command → ℕ
movej_count [] = 0
movej_count (c ∷ cs) =
    let rest = movej_count cs in if is_command c.type CommandType.movej then suc rest else rest

unfoldable pub check_motion_plans : String → ℕ → List (ℕ × MotionPlan) → Report
check_motion_plans source count [] = passed
check_motion_plans source count ((occurrence, plan) ∷ plans) =
    both
      (expect
        (not (occurrence == 0 || ltb count occurrence || not (plan.movej_occurrence == occurrence)))
        source "scenario references an invalid MOVEJ occurrence")
      (check_motion_plans source count plans)

abbrev pub is_loss : ScenarioEventKind → Bool
is_loss ScenarioEventKind.connection_loss = true
is_loss _ = false

unfoldable pub names_input : String → Session → Bool
names_input name s = elim s.setup.io_configuration [
  | none ↦ false
  | some io ↦ elim (lookup name io.signals) [
    | none ↦ false
    | some signal ↦ is_direction signal.direction SignalDirection.di
  ]
]

unfoldable pub names_tool : String → Session → Bool
names_tool name s = elim s.setup.tool_configuration [
  | none ↦ false
  | some tools ↦ contains name tools.tools
]

unfoldable pub check_event_target : ScenarioEvent → Session → Report
check_event_target event s = elim event.kind [
  | ScenarioEventKind.di_change ↦
      expect (names_input event.name s) s.program.source
        "scenario DI event references an unknown or non-DI signal"
  | ScenarioEventKind.tool_feedback ↦
      expect (names_tool event.name s) s.program.source
        "scenario tool event references an unknown tool"
  | ScenarioEventKind.connection_loss ↦ passed
]

unfoldable pub check_events : BusinessTime → List ScenarioEvent → Session → Report
check_events previous [] s = passed
check_events previous (event ∷ events) s =
    both
      (both
        (expect
          (not (ltbℤ event.time_ms previous || (is_loss event.kind && eqbℤ event.time_ms (pos 0))))
          s.program.source "scenario event time is invalid")
        (check_event_target event s))
      (check_events event.time_ms events s)

abbrev pub is_unset : ControlType → Bool
is_unset ControlType.no_control = true
is_unset _ = false

unfoldable pub check_controls : String → Bool → BusinessTime → List ScenarioControl → Report
check_controls source second previous [] = passed
check_controls source second previous (control ∷ controls) =
    both
      (expect (not (not second || ltbℤ control.time_ms previous || is_unset control.type)) source
        "scenario control is invalid")
      (check_controls source second control.time_ms controls)

unfoldable pub check_stop_plans : String → Bool → List (ℕ × StopPlan) → Report
check_stop_plans source second [] = passed
check_stop_plans source second ((episode, plan) ∷ plans) =
    both
      (expect (not (not second || episode == 0 || not (plan.stop_episode == episode))) source
        "scenario stop plan is invalid")
      (check_stop_plans source second plans)

unfoldable pub check_scenario : MockScenario → Session → Report
check_scenario scenario s =
    let source = s.program.source in
    let second = eqbℤ scenario.schema_version (pos 2) in
    both
      (expect (eqbℤ scenario.schema_version (pos 1) || second) source
        "scenario schema version is unsupported")
      (both (check_motion_plans source (movej_count s.program.commands) scenario.motion_plans) (
        both (check_events (pos 0) scenario.events s) (
          both (check_controls source second (pos 0) scenario.controls)
            (check_stop_plans source second scenario.stop_plans))))

unfoldable pub validate_scenario : Session → Report
validate_scenario s = elim s.setup.scenario [
  | none ↦ passed
  | some scenario ↦ check_scenario scenario s
]
