-- ===== src/Examples/Scenarios.antt =====
-- Tests and instances for the loader of scenarios.
use roborun.Prelude.{
  ℕ, pos, Bool, true, false, String, str_eq, Option, none, some, List, [], ◌∷◌, map, ◌≡◌, refl, ◌↔◌,
  ◌≢◌, if◌then◌else◌, decimal,
}
use roborun.Types.{
  ControlType, Diagnostic, MotionPlanOutcome, MockScenario, ScenarioEventKind, StopPlanOutcome,
  ToolPosition,
}
use roborun.Json.{
  JsonLibrary, invalidate, fail, add, scenario_diagnostic, is_known, unknown_fields,
  reject_unknown_fields, unchanged_since, checked_fields, found, required, is_whole, non_negative,
  read_non_negative, read_name, contains_key, text_or_empty, time_field,
}
use roborun.Scenario.{
  Input, to_int, bad_version, version_checked, version_of, version_allows, member_items, load_root,
  no_errors, loaded, rejected_file, load_mock_scenario, has_plan, positive, occurrence_of,
  motion_outcome_text, motion_outcome, store_motion, load_motion, load_motions, stop_outcome,
  store_stop, load_episode, load_stop, load_stops, in_order, event_at, boolean_value, di_failed,
  di_event, load_di, tool_failed, tool_event, named_tool, load_tool, load_kind, kind_text,
  finish_event, load_event, load_events, control_type, control_source, load_control, load_controls,
}
use roborun.Loaded.Told.Verdict.{nothing_loaded_iff}
use roborun.Loaded.WellFormed.{WellFormed, load_mock_scenario-WellFormed}

-- Documents without negative numbers. Arrays and objects are chains that `nothing` ends.
data Document : Type 0 where
  nothing : Document
  whole : ℕ → Document
  text : String → Document
  truth : Bool → Document
  item : Document → Document → Document
  member : String → Document → Document → Document

abbrev find_member : Document → String → Option Document
find_member (Document.member k v rest) key =
    let later = find_member rest key in if str_eq k key then some v else later
find_member Document.nothing key = none
find_member (Document.whole n) key = none
find_member (Document.text t) key = none
find_member (Document.truth b) key = none
find_member (Document.item d rest) key = none

abbrev all_keys : Document → List String
all_keys (Document.member k v rest) = k ∷ all_keys rest
all_keys _ = []

abbrev all_items : Document → List Document
all_items (Document.item d rest) = d ∷ all_items rest
all_items _ = []

abbrev is_text : Document → Bool
is_text (Document.text t) = true
is_text _ = false

abbrev is_truth : Document → Bool
is_truth (Document.truth b) = true
is_truth _ = false

abbrev is_whole_number : Document → Bool
is_whole_number (Document.whole n) = true
is_whole_number _ = false

abbrev is_items : Document → Bool
is_items (Document.item d rest) = true
is_items _ = false

abbrev is_members : Document → Bool
is_members (Document.member k v rest) = true
is_members _ = false

abbrev number_in : Document → ℕ
number_in (Document.whole n) = n
number_in _ = 0

abbrev text_in : Document → String
text_in (Document.text t) = t
text_in _ = ""

abbrev truth_in : Document → Bool
truth_in (Document.truth b) = b
truth_in _ = false

abbrev documents : JsonLibrary Document
documents = record {
  is_object = is_members;
  is_array = is_items;
  is_string = is_text;
  is_boolean = is_truth;
  is_number_integer = is_whole_number;
  is_number_unsigned = is_whole_number;
  get_int64 = λ d. pos (number_in d);
  get_uint64 = number_in;
  get_bool = truth_in;
  get_string = text_in;
  find = find_member;
  keys = all_keys;
  elements = all_items;
}

abbrev motion : ℕ → Document
motion n = Document.member "movej" (Document.whole n) (
    Document.member "outcome" (Document.text "delayed_success")
      (Document.member "delay_ms" (Document.whole 40) Document.nothing))

abbrev lamp_event : Document
lamp_event = Document.member "time_ms" (Document.whole 10) (
    Document.member "kind" (Document.text "DI") (
      Document.member "name" (Document.text "LAMP")
        (Document.member "value" (Document.truth true) Document.nothing)))

abbrev grip_event : Document
grip_event = Document.member "time_ms" (Document.whole 10) (
    Document.member "kind" (Document.text "TOOL") (
      Document.member "name" (Document.text "GRIP")
        (Document.member "state" (Document.text "CLOSED") Document.nothing)))

abbrev stop_plan : Document
stop_plan =
    Document.member "episode" (Document.whole 1)
      (Document.member "outcome" (Document.text "failed") Document.nothing)

abbrev pause : Document
pause =
    Document.member "time_ms" (Document.whole 5)
      (Document.member "action" (Document.text "PAUSE") Document.nothing)

abbrev chain : List Document → Document
chain [] = Document.nothing
chain (d ∷ ds) = Document.item d (chain ds)

abbrev scenario_with : List Document → Document
scenario_with motions = Document.member "schema_version" (Document.whole 2) (
    Document.member "motions" (chain motions) (
      Document.member "events" (chain (lamp_event ∷ grip_event ∷ [])) (
        Document.member "stops" (chain (stop_plan ∷ []))
          (Document.member "controls" (chain (pause ∷ [])) Document.nothing))))

abbrev expected : MockScenario
expected = record {
  source = "s.json";
  schema_version = pos 2;
  motion_plans =
      (
        1,
        record {
          movej_occurrence = 1;
          outcome = MotionPlanOutcome.delayed_success;
          delay_ms = pos 40;
        },
      )
      ∷ [];
  stop_plans =
      (1, record { stop_episode = 1; outcome = StopPlanOutcome.failed; delay_ms = pos 0 }) ∷ [];
  events =
      record {
        time_ms = pos 10;
        kind = ScenarioEventKind.di_change;
        name = "LAMP";
        value = true;
        tool_position = ToolPosition.opened;
      }
      ∷ record {
        time_ms = pos 10;
        kind = ScenarioEventKind.tool_feedback;
        name = "GRIP";
        value = false;
        tool_position = ToolPosition.closed;
      }
      ∷ [];
  controls = record { time_ms = pos 5; type = ControlType.pause; source = "scenario" } ∷ [];
}

-- A second plan for the same motion is told of, and nothing is loaded.
planned_twice :
    map
      (λ (d : Diagnostic). d.path)
      (load_mock_scenario documents "s.json"
        (Input.document (scenario_with (motion 1 ∷ motion 1 ∷ [])))).diagnostics
    ≡ "/motions/1/movej" ∷ []
unfolding load_mock_scenario load_root loaded no_errors rejected_file member_items version_allows
    version_of version_checked bad_version to_int has_plan positive occurrence_of
    motion_outcome_text motion_outcome store_motion load_motion load_motions stop_outcome store_stop
    load_episode load_stop load_stops in_order event_at boolean_value di_failed di_event load_di
    tool_failed tool_event named_tool load_tool load_kind kind_text finish_event load_event
    load_events control_type control_source load_control load_controls invalidate fail add
    scenario_diagnostic is_known unknown_fields reject_unknown_fields unchanged_since checked_fields
    found required is_whole non_negative read_non_negative read_name contains_key text_or_empty
    time_field decimal
planned_twice = refl

is_expected :
    (load_mock_scenario documents "s.json"
      (Input.document (scenario_with (motion 1 ∷ [])))).scenario
    ≡ some expected
unfolding load_mock_scenario load_root loaded no_errors rejected_file member_items version_allows
    version_of version_checked bad_version to_int has_plan positive occurrence_of
    motion_outcome_text motion_outcome store_motion load_motion load_motions stop_outcome store_stop
    load_episode load_stop load_stops in_order event_at boolean_value di_failed di_event load_di
    tool_failed tool_event named_tool load_tool load_kind kind_text finish_event load_event
    load_events control_type control_source load_control load_controls invalidate fail add
    scenario_diagnostic is_known unknown_fields reject_unknown_fields unchanged_since checked_fields
    found required is_whole non_negative read_non_negative read_name contains_key text_or_empty
    time_field decimal
is_expected = refl

load_mock_scenario-WellFormed_example : WellFormed "s.json" expected
load_mock_scenario-WellFormed_example =
    load_mock_scenario-WellFormed documents "s.json"
      (Input.document (scenario_with (motion 1 ∷ []))) expected is_expected

abbrev conflicting : Input Document
conflicting = Input.document (scenario_with (motion 1 ∷ motion 1 ∷ []))

nothing_loaded_iff_example :
    ((load_mock_scenario documents "s.json" conflicting).scenario ≡ none)
    ↔ ((load_mock_scenario documents "s.json" conflicting).diagnostics ≢ [])
nothing_loaded_iff_example = nothing_loaded_iff documents "s.json" conflicting
