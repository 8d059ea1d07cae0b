-- ===== src/Scenario/Timeline.antt =====
-- The events and the controls of LoadMockScenario (src/roborun/scenario.cpp).
use roborun.Prelude.{
  ℕ, ◌+◌, ltbℤ, Bool, false, String, str_eq, text_append, decimal, Option, none, some, List, [],
  ◌∷◌, ◌++◌, length, ok, ◌>>=◌, ◌>>◌, if◌then◌else◌,
}
use roborun.Types.{
  DiagnosticCode, BusinessTime, ScenarioEvent, ScenarioEventKind, ScenarioControl, ControlType,
  ToolPosition,
}
use roborun.Json.{
  JsonLibrary, L, invalidate, fail, reject_unknown_fields, unchanged_since, required, read_name,
  contains_key, text_or_empty, time_field,
}

module _ {J : Type 0} (json : JsonLibrary J) (source : String) where
  -- The test that times do not move backward.
  unfoldable pub in_order : String → String → BusinessTime → BusinessTime → L (Unit {0})
  in_order path message previous time =
      if ltbℤ time previous
      then fail DiagnosticCode.invalid_scenario source (text_append path "/time_ms") message
      else ok tt

  unfoldable pub event_at : BusinessTime → ScenarioEventKind → ScenarioEvent
  event_at time kind = record {
    time_ms = time;
    kind = kind;
    name = "";
    value = false;
    tool_position = ToolPosition.opened;
  }

  -- `item["value"]`, where it is a boolean.
  unfoldable pub boolean_value : J → Option Bool
  boolean_value item = elim (json.find item "value") [
    | none ↦ none
    | some value ↦ if json.is_boolean value then some (json.get_bool value) else none
  ]

  unfoldable pub di_failed : String → ScenarioEvent → L ScenarioEvent
  di_failed path event = do
    fail DiagnosticCode.invalid_scenario source path "DI event requires name and boolean value"
    ok event

  unfoldable pub di_event : String → ScenarioEvent → Option String → Option Bool → L ScenarioEvent
  di_event path event (some name) (some value) = ok (record event { name = name; value = value })
  di_event path event (some name) none = di_failed path (record event { name = name })
  di_event path event none value = di_failed path event

  unfoldable pub load_di : BusinessTime → J → String → L ScenarioEvent
  load_di time item path = do
    reject_unknown_fields json source item ("time_ms" ∷ "kind" ∷ "name" ∷ "value" ∷ []) path
    named ← required json source item "name" path
    name ← read_name json source named (text_append path "/name")
    di_event path (event_at time ScenarioEventKind.di_change) name (boolean_value item)

  unfoldable pub tool_failed : String → ScenarioEvent → L ScenarioEvent
  tool_failed path event = do
    fail DiagnosticCode.invalid_scenario source path
        "TOOL event requires name and OPEN/CLOSED state"
    ok event

  unfoldable pub tool_event : String → ScenarioEvent → Option String → L ScenarioEvent
  tool_event path event none = tool_failed path event
  tool_event path event (some position) =
      if str_eq position "OPEN"
      then ok (record event { tool_position = ToolPosition.opened })
      else if str_eq position "CLOSED"
      then ok (record event { tool_position = ToolPosition.closed })
      else tool_failed path event

  -- The state is read only where the name was.
  unfoldable pub named_tool : J → String → ScenarioEvent → Option String → L ScenarioEvent
  named_tool item path event none = tool_failed path event
  named_tool item path event (some name) = do
    state ← required json source item "state" path
    position ← read_name json source state (text_append path "/state")
    tool_event path (record event { name = name }) position

  unfoldable pub load_tool : BusinessTime → J → String → L ScenarioEvent
  load_tool time item path = do
    reject_unknown_fields json source item ("time_ms" ∷ "kind" ∷ "name" ∷ "state" ∷ []) path
    named ← required json source item "name" path
    name ← read_name json source named (text_append path "/name")
    named_tool item path (event_at time ScenarioEventKind.tool_feedback) name

  unfoldable pub load_kind : BusinessTime → J → String → String → L ScenarioEvent
  load_kind time item path kind =
      if str_eq kind "DI"
      then load_di time item path
      else if str_eq kind "TOOL"
      then load_tool time item path
      else if str_eq kind "CONNECTION_LOSS"
      then (do
        reject_unknown_fields json source item ("time_ms" ∷ "kind" ∷ []) path
        ok (event_at time ScenarioEventKind.connection_loss))
      else (do
        fail DiagnosticCode.invalid_scenario source (text_append path "/kind") "unknown event kind"
        ok (event_at time ScenarioEventKind.di_change))

  unfoldable pub kind_text : Option J → Option String
  kind_text none = none
  kind_text (some value) = if json.is_string value then some (json.get_string value) else none

  -- The end of the loop's body; `before` is the count of the diagnostics at its start.
  unfoldable pub finish_event :
      ℕ → BusinessTime → J → String → Option String → List ScenarioEvent → L (List ScenarioEvent)
  finish_event before time item path none events = do
    fail DiagnosticCode.invalid_scenario source (text_append path "/kind") "event kind is required"
    ok events
  finish_event before time item path (some kind) events = do
    event ← load_kind time item path kind
    unchanged_since json source before
    ok (events ++ event ∷ [])

  unfoldable pub load_event :
      ℕ → J → BusinessTime × List ScenarioEvent → L (BusinessTime × List ScenarioEvent)
  load_event index item (previous, events) s =
      (let path = text_append "/events/" (decimal index) in
          do
            time ← time_field json source item "time_ms" path
            in_order path "event times must not move backward" previous time
            kind ← required json source item "kind" path
            loaded ← finish_event (length s.diagnostics) time item path (kind_text kind) events
            ok (time, loaded))
        s

  unfoldable pub load_events :
      ℕ → List J → BusinessTime × List ScenarioEvent → L (BusinessTime × List ScenarioEvent)
  load_events index [] loaded = ok loaded
  load_events index (item ∷ items) loaded = do
    next ← load_event index item loaded
    load_events (index + 1) items next

  unfoldable pub control_type : String → String → L ControlType
  control_type path action =
      if str_eq action "PAUSE"
      then ok ControlType.pause
      else if str_eq action "RESUME"
      then ok ControlType.resume
      else if str_eq action "STOP"
      then ok ControlType.stop
      else if str_eq action "ESTOP"
      then ok ControlType.estop
      else if str_eq action "RESET"
      then ok ControlType.reset
      else (do
        fail DiagnosticCode.invalid_scenario source (text_append path "/action")
            "unknown control action"
        ok ControlType.no_control)

  unfoldable pub control_source : J → String → L String
  control_source item path =
      if contains_key json source item "source"
      then (do
        name ← read_name json source (json.find item "source") (text_append path "/source")
        elim name [ none ↦ do invalidate; ok "" | some n ↦ ok n ])
      else ok "scenario"

  unfoldable pub load_control :
      ℕ → J → BusinessTime × List ScenarioControl → L (BusinessTime × List ScenarioControl)
  load_control index item (previous, controls) =
      let path = text_append "/controls/" (decimal index) in
      do
        reject_unknown_fields json source item ("time_ms" ∷ "action" ∷ "source" ∷ []) path
        time ← time_field json source item "time_ms" path
        in_order path "control times must not move backward" previous time
        action ← required json source item "action" path
        type ← control_type path (text_or_empty json source action)
        name ← control_source item path
        ok (time, controls ++ record { time_ms = time; type = type; source = name } ∷ [])

  unfoldable pub load_controls :
      ℕ → List J → BusinessTime × List ScenarioControl → L (BusinessTime × List ScenarioControl)
  load_controls index [] loaded = ok loaded
  load_controls index (item ∷ items) loaded = do
    next ← load_control index item loaded
    load_controls (index + 1) items next
