-- ===== src/Loaded/Told/Timeline.antt =====
-- About what LoadMockScenario (scenario.cpp) reports of the events and controls of a document.
use roborun.Prelude.{
  ℕ, ◌+◌, ltbℤ, Bool, String, str_eq, text_append, decimal, Option, none, some, has_value, List, [],
  ◌∷◌, ◌++◌, length, ok, ◌>>=◌, ◌>>◌, if◌then◌else◌,
}
use roborun.Types.{
  BusinessTime, ScenarioEvent, ScenarioEventKind, ScenarioControl, ControlType, ToolPosition,
}
use roborun.Json.{
  JsonLibrary, L, invalidate, reject_unknown_fields, unchanged_since, required, read_name,
  contains_key, text_or_empty, time_field,
}
use roborun.Scenario.{
  in_order, event_at, boolean_value, di_failed, di_event, load_di, tool_failed, tool_event,
  named_tool, load_tool, load_kind, finish_event, load_event, load_events, control_type,
  control_source, load_control, load_controls,
}
use roborun.Loaded.Told.{
  Tells, Always, TellsFrom, Reported, Missing, Tells-after, Tells-bind, TellsFrom-bind,
  TellsFrom-end, Tells-ok, Tells-if, Tells-weaken, fail-Tells, or_invalid,
  reject_unknown_fields-Tells, unchanged_since-TellsFrom, required-Tells, read_name-Tells,
  time_field-Tells, counted,
}
use roborun.Loaded.Told.Plans.{failed, member-Tells, name_member-Tells}

module _ {J : Type 0} (json : JsonLibrary J) (source : String) where
  in_order-Tells :
      (path message : String) (previous time : BusinessTime)
      → Tells (in_order json source path message previous time) Always
  unfolding in_order
  in_order-Tells path message previous time =
      Tells-if (ltbℤ time previous) _ _ Always
        (Tells-weaken _ (λ _ t. Reported t) (fail-Tells _ _ _ _)) (Tells-ok tt)

  di_event-Tells :
      (path : String) (e : ScenarioEvent) (name : Option String) (value : Option Bool)
      → Tells (di_event json source path e name value) Always
  unfolding di_event di_failed
  di_event-Tells path e none value = failed _ _ _ _ e
  di_event-Tells path e (some n) none = failed _ _ _ _ _
  di_event-Tells path e (some n) (some b) = Tells-ok (record e { name = n; value = b })

  tool_event-Tells :
      (path : String) (e : ScenarioEvent) (position : Option String)
      → Tells (tool_event json source path e position) Always
  unfolding tool_event tool_failed
  tool_event-Tells path e none = failed _ _ _ _ e
  tool_event-Tells path e (some p) =
      Tells-if (str_eq p "OPEN") _ _ Always
        (Tells-ok (record e { tool_position = ToolPosition.opened }))
        (Tells-if (str_eq p "CLOSED") _ _ Always
          (Tells-ok (record e { tool_position = ToolPosition.closed })) (failed _ _ _ _ e))

  named_tool-Tells :
      (item : J) (path : String) (e : ScenarioEvent) (name : Option String)
      → Tells (named_tool json source item path e name) Always
  unfolding named_tool tool_failed
  named_tool-Tells item path e none = failed _ _ _ _ e
  named_tool-Tells item path e (some n) = member-Tells json source item "state" path _ (λ v.
      name_member-Tells json source v _ _ (λ p. tool_event-Tells path (record e { name = n }) p))

  -- An event with a name, its fields checked first.
  named_event-Tells :
      (item : J) (allowed : List String) (path : String) (f : Option String → L ScenarioEvent)
      → ((n : Option String) → Tells (f n) Always)
      → Tells
          (do
            reject_unknown_fields json source item allowed path
            v ← required json source item "name" path
            n ← read_name json source v (text_append path "/name")
            f n)
          Always
  named_event-Tells item allowed path f h =
      Tells-bind (reject_unknown_fields json source item allowed path) _ Always Always
        (reject_unknown_fields-Tells json source item allowed path)
        (λ _.
          member-Tells json source item "name" path _ (λ v. name_member-Tells json source v _ f h))

  load_kind-Tells :
      (time : BusinessTime) (item : J) (path kind : String)
      → Tells (load_kind json source time item path kind) Always
  unfolding load_kind load_di load_tool
  load_kind-Tells time item path kind =
      Tells-if (str_eq kind "DI") _ _ Always
        (named_event-Tells item _ path _
          (λ n. di_event-Tells path _ n (boolean_value json source item)))
        (Tells-if (str_eq kind "TOOL") _ _ Always
          (named_event-Tells item _ path _ (λ n. named_tool-Tells item path _ n))
          (Tells-if (str_eq kind "CONNECTION_LOSS") _ _ Always
            (Tells-bind (reject_unknown_fields json source item _ path) _ Always Always
              (reject_unknown_fields-Tells json source item _ path)
              (λ _. Tells-ok (event_at json source time ScenarioEventKind.connection_loss)))
            (failed _ _ _ _ _)))

  finish_event-TellsFrom :
      (before : ℕ) (time : BusinessTime) (item : J) (path : String) (kind : Option String)
      (es : List ScenarioEvent)
      → TellsFrom before (finish_event json source before time item path kind es)
  unfolding finish_event
  finish_event-TellsFrom before time item path none es = λ s _. failed _ _ _ _ es s
  finish_event-TellsFrom before time item path (some k) es =
      TellsFrom-bind before (load_kind json source time item path k) _ Always
        (load_kind-Tells time item path k)
        (λ e.
          TellsFrom-end before (unchanged_since json source before) _
            (unchanged_since-TellsFrom json source before) (λ _. Tells-ok (es ++ e ∷ [])))

  load_event-Tells :
      (index : ℕ) (item : J) (start : BusinessTime × List ScenarioEvent)
      → Tells (load_event json source index item start) Always
  unfolding load_event
  load_event-Tells index item (previous, es) s =
      let path = text_append "/events/" (decimal index) in
      let n = length s.diagnostics in
      TellsFrom-bind n (time_field json source item "time_ms" path) _ Always
        (time_field-Tells json source item "time_ms" path)
        (λ time.
          TellsFrom-bind n (in_order json source path _ previous time) _ Always
            (in_order-Tells path _ previous time)
            (λ _.
              TellsFrom-bind n (required json source item "kind" path) _ Missing
                (required-Tells json source item "kind" path)
                (λ k.
                  TellsFrom-end n (finish_event json source n time item path _ es) _
                    (finish_event-TellsFrom n time item path _ es)
                    (λ ls s. (((λ h. h), (λ h. h)), tt)))))
        s (counted s.diagnostics)

  pub load_events-Tells :
      (items : List J) (index : ℕ) (start : BusinessTime × List ScenarioEvent)
      → Tells (load_events json source index items start) Always
  unfolding load_events
  load_events-Tells [] index start = Tells-ok start
  load_events-Tells (item ∷ items) index start =
      Tells-bind (load_event json source index item start) _ Always Always
        (load_event-Tells index item start) (load_events-Tells items (index + 1))

  control_type-Tells : (path action : String) → Tells (control_type json source path action) Always
  unfolding control_type
  control_type-Tells path action =
      Tells-if (str_eq action "PAUSE") _ _ Always (Tells-ok ControlType.pause) (
        Tells-if (str_eq action "RESUME") _ _ Always (Tells-ok ControlType.resume) (
          Tells-if (str_eq action "STOP") _ _ Always (Tells-ok ControlType.stop) (
            Tells-if (str_eq action "ESTOP") _ _ Always (Tells-ok ControlType.estop) (
              Tells-if (str_eq action "RESET") _ _ Always (Tells-ok ControlType.reset)
                (failed _ _ _ _ ControlType.no_control)))))

  control_source-Tells :
      (item : J) (path : String) → Tells (control_source json source item path) Always
  unfolding control_source contains_key
  control_source-Tells item path = by_value (json.find item "source")
    where
      by_value :
          (v : Option J)
          → Tells
              (if has_value v
                then (do
                  name ← read_name json source v (text_append path "/source")
                  elim name as (λ _. L String) [ none ↦ do invalidate; ok "" | some n ↦ ok n ])
                else ok "scenario")
              Always
      by_value none = Tells-ok {A = String} "scenario"
      by_value (some v) =
          Tells-after (read_name json source (some v) _) _ Missing Always
            (read_name-Tells json source v _) (λ o t p. or_invalid json source o "" t p)

  pub load_controls-Tells :
      (items : List J) (index : ℕ) (start : BusinessTime × List ScenarioControl)
      → Tells (load_controls json source index items start) Always
  unfolding load_controls load_control
  load_controls-Tells [] index start = Tells-ok start
  load_controls-Tells (item ∷ items) index (previous, cs) =
      let path = text_append "/controls/" (decimal index) in
      Tells-bind (load_control json source index item (previous, cs)) _ Always Always
        (Tells-bind (reject_unknown_fields json source item _ path) _ Always Always
          (reject_unknown_fields-Tells json source item _ path)
          (λ _.
            Tells-bind (time_field json source item "time_ms" path) _ Always Always
              (time_field-Tells json source item "time_ms" path)
              (λ time.
                Tells-bind (in_order json source path _ previous time) _ Always Always
                  (in_order-Tells path _ previous time)
                  (λ _. member-Tells json source item "action" path _ (λ a.
                    Tells-bind (control_type json source path (text_or_empty json source a)) _
                      Always Always (control_type-Tells path _)
                      (λ type.
                        Tells-bind (control_source json source item path) _ Always Always
                          (control_source-Tells item path)
                          (λ name s. (((λ h. h), (λ h. h)), tt))))))))
        (load_controls-Tells items (index + 1))
