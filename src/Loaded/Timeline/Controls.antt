-- ===== src/Loaded/Timeline/Controls.antt =====
-- About the controls that LoadMockScenario (scenario.cpp) reads.
use roborun.Prelude.{
  ℕ, ◌+◌, String, str_eq, text_append, decimal, Option, none, some, List, [], ◌∷◌, ok, ◌>>◌, ◌≢◌,
  refl, arith,
}
use text.Mathlib.TextLemmas.{cons≢nil}
use roborun.Types.{BusinessTime, ScenarioControl, ControlType}
use roborun.Json.{
  JsonLibrary, L, invalidate, text_or_empty, required, read_name, reject_unknown_fields,
  contains_key, time_field,
}
use roborun.Scenario.{in_order, control_type, control_source, load_control, load_controls}
use roborun.Loaded.{
  Ensures, Any, Ensures-bind, Ensures-if, Ensures-weaken, Ensures-fail,
  reject_unknown_fields-Ensures, required-Ensures, NotNegative, time_field-Ensures, IfNamed,
  read_name-Ensures,
}
use roborun.Loaded.Timeline.{Timeline, Timeline-append, in_order-Ensures}

-- A control of a known type, from a source with a name.
abbrev pub Commanded : ScenarioControl → Type 0
Commanded c = (c.type ≢ ControlType.no_control) × (c.source ≢ "")

abbrev pub Controls : BusinessTime × List ScenarioControl → Type 0
Controls = Timeline (λ (c : ScenarioControl). c.time_ms) Commanded

module _ {J : Type 0} (json : JsonLibrary J) (source : String) where
  control_type-Ensures :
      (path action : String)
      → Ensures (control_type json source path action) (λ t. t ≢ ControlType.no_control)
  unfolding control_type
  control_type-Ensures path action =
      let P = λ (t : ControlType). t ≢ ControlType.no_control in
      Ensures-if (str_eq action "PAUSE") _ _ P (λ _ s v. (v, cc))
        (λ _.
          Ensures-if (str_eq action "RESUME") _ _ P (λ _ s v. (v, cc))
            (λ _.
              Ensures-if (str_eq action "STOP") _ _ P (λ _ s v. (v, cc))
                (λ _.
                  Ensures-if (str_eq action "ESTOP") _ _ P (λ _ s v. (v, cc))
                    (λ _.
                      Ensures-if (str_eq action "RESET") _ _ P (λ _ s v. (v, cc))
                        (λ _. Ensures-fail _ _ _ _ ControlType.no_control P)))))

  name_or_invalid :
      (name : Option String)
      → Ensures
          (elim name as (λ _. L String) [ none ↦ do invalidate; ok "" | some n ↦ ok n ])
          (λ n. IfNamed name → n ≢ "")
  unfolding invalidate
  name_or_invalid none s = grind arith
  name_or_invalid (some n) s = λ v. (v, λ h. h)

  control_source-Ensures :
      (item : J) (path : String) → Ensures (control_source json source item path) (λ n. n ≢ "")
  unfolding control_source
  control_source-Ensures item path =
      let P = λ (n : String). n ≢ "" in
      Ensures-if (contains_key json source item "source") _ _ P
        (λ _.
          Ensures-bind (read_name json source (json.find item "source") _) _ IfNamed P
            (read_name-Ensures json source (json.find item "source") _) (λ n. name_or_invalid n))
        (λ _ s v. (v, cons≢nil))

  load_control-Ensures :
      (index : ℕ) (item : J) (loaded : BusinessTime × List ScenarioControl)
      → Ensures
          (load_control json source index item loaded)
          (λ next. Controls loaded → Controls next)
  unfolding load_control
  load_control-Ensures index item (previous, cs) =
      let path = text_append "/controls/" (decimal index) in
      Ensures-bind (reject_unknown_fields json source item _ path) _ Any _
        (reject_unknown_fields-Ensures json source item _ path)
        (λ _.
          Ensures-bind (time_field json source item "time_ms" path) _ NotNegative _
            (time_field-Ensures json source item "time_ms" path)
            (λ time.
              Ensures-bind (in_order json source path _ previous time) _ _ _
                (in_order-Ensures json source path _ previous time)
                (λ _.
                  Ensures-bind (required json source item "action" path) _ Any _
                    (required-Ensures json source item "action" path)
                    (λ a.
                      Ensures-bind (control_type json source path (text_or_empty json source a)) _ _
                        _ (control_type-Ensures path _)
                        (λ type.
                          Ensures-bind (control_source json source item path) _ _ _
                            (control_source-Ensures item path)
                            (λ name s v. (
                              v,
                              λ named typed _ order _ _ h.
                                  Timeline-append (λ (c : ScenarioControl). c.time_ms) Commanded
                                    previous time cs
                                    (record { time_ms = time; type = type; source = name }) order h
                                    refl (typed, named),
                            )))))))

  pub load_controls-Ensures :
      (items : List J) (index : ℕ) (start : BusinessTime × List ScenarioControl)
      → Ensures
          (load_controls json source index items start)
          (λ next. Controls start → Controls next)
  unfolding load_controls
  load_controls-Ensures [] index start = λ s v. (v, λ h. h)
  load_controls-Ensures (item ∷ items) index start =
      Ensures-bind (load_control json source index item start) _ _ _
        (load_control-Ensures index item start)
        (λ next.
          Ensures-weaken _ _ _ (λ ps f g h. f (g h)) (load_controls-Ensures items (index + 1) next))
