-- ===== src/Loaded/Timeline/Events.antt =====
-- About the events that LoadMockScenario (scenario.cpp) reads.
use roborun.Prelude.{
  ℕ, ◌+◌, ltbℤ, Bool, true, false, String, str_eq, text_append, decimal, Option, none, some, List,
  [], ◌∷◌, length, ◌≡◌, ◌≢◌, ◌⊎◌, inl, inr, refl,
}
use roborun.Types.{BusinessTime, ScenarioEvent, ScenarioEventKind}
use roborun.Json.{
  JsonLibrary, required, read_name, reject_unknown_fields, unchanged_since, time_field,
}
use roborun.Scenario.{
  in_order, event_at, boolean_value, di_failed, di_event, load_di, tool_failed, tool_event,
  named_tool, load_tool, load_kind, kind_text, finish_event, load_event, load_events,
}
use roborun.Loaded.{
  Ensures, Any, Ensures-bind, Ensures-if, Ensures-weaken, Ensures-fail,
  reject_unknown_fields-Ensures, unchanged_since-Ensures, required-Ensures, NotNegative,
  time_field-Ensures, IfNamed, read_name-Ensures,
}
use roborun.Loaded.Timeline.{Timeline, Timeline-append, in_order-Ensures}

abbrev is_loss : ScenarioEventKind → Bool
is_loss ScenarioEventKind.connection_loss = true
is_loss _ = false

-- An event of a signal or a tool names it.
abbrev pub Named : ScenarioEvent → Type 0
Named e = (is_loss e.kind ≡ true) ⊎ (e.name ≢ "")

abbrev pub Events : BusinessTime × List ScenarioEvent → Type 0
Events = Timeline (λ (e : ScenarioEvent). e.time_ms) Named

module _ {J : Type 0} (json : JsonLibrary J) (source : String) where
  -- What an event that is read at a time must be.
  abbrev EventOf : BusinessTime → ScenarioEvent → Type 0
  EventOf time e = (e.time_ms ≡ time) × Named e

  di_event-Ensures :
      (path : String) (time : BusinessTime) (name : Option String) (value : Option Bool)
      → Ensures
          (di_event json source path
            (event_at json source time ScenarioEventKind.di_change)
            name
            value)
          (λ e. IfNamed name → EventOf time e)
  unfolding di_event di_failed event_at
  di_event-Ensures path time none value = Ensures-fail _ _ _ _ _ _
  di_event-Ensures path time (some n) none = Ensures-fail _ _ _ _ _ _
  di_event-Ensures path time (some n) (some b) = λ s v. (v, λ h. (refl, inr h))

  load_di-Ensures :
      (time : BusinessTime) (item : J) (path : String)
      → Ensures (load_di json source time item path) (EventOf time)
  unfolding load_di
  load_di-Ensures time item path =
      Ensures-bind (reject_unknown_fields json source item _ path) _ Any _
        (reject_unknown_fields-Ensures json source item _ path)
        (λ _.
          Ensures-bind (required json source item "name" path) _ Any _
            (required-Ensures json source item "name" path)
            (λ v.
              Ensures-bind (read_name json source v _) _ IfNamed _
                (read_name-Ensures json source v _)
                (λ n.
                  Ensures-weaken _ _ _ (λ e f i _ _. f i)
                    (di_event-Ensures path time n (boolean_value json source item)))))

  tool_failed-Ensures :
      (path : String) (e : ScenarioEvent) (P : ScenarioEvent → Type 0)
      → Ensures (tool_failed json source path e) P
  unfolding tool_failed
  tool_failed-Ensures path e P = Ensures-fail _ _ _ _ e P

  tool_event-Ensures :
      (path : String) (time : BusinessTime) (e : ScenarioEvent) (position : Option String)
      → Ensures (tool_event json source path e position) (λ e'. EventOf time e → EventOf time e')
  unfolding tool_event
  tool_event-Ensures path time e none = tool_failed-Ensures path e _
  tool_event-Ensures path time e (some p) =
      let Q = λ (e' : ScenarioEvent). EventOf time e → EventOf time e' in
      Ensures-if (str_eq p "OPEN") _ _ Q (λ _ s v. (v, λ h. h))
        (λ _.
          Ensures-if (str_eq p "CLOSED") _ _ Q (λ _ s v. (v, λ h. h))
            (λ _. tool_failed-Ensures path e Q))

  named_tool-Ensures :
      (item : J) (path : String) (time : BusinessTime) (name : Option String)
      → Ensures
          (named_tool json source item path
            (event_at json source time ScenarioEventKind.tool_feedback)
            name)
          (λ e. IfNamed name → EventOf time e)
  unfolding named_tool event_at
  named_tool-Ensures item path time none = tool_failed-Ensures path _ _
  named_tool-Ensures item path time (some n) =
      Ensures-bind (required json source item "state" path) _ Any _
        (required-Ensures json source item "state" path)
        (λ v.
          Ensures-bind (read_name json source v _) _ Any _
            (Ensures-weaken _ _ _ (λ _ _. tt) (read_name-Ensures json source v _))
            (λ p.
              Ensures-weaken _ _ _ (λ e f _ _ named. f (refl, inr named))
                (tool_event-Ensures path time _ p)))

  load_tool-Ensures :
      (time : BusinessTime) (item : J) (path : String)
      → Ensures (load_tool json source time item path) (EventOf time)
  unfolding load_tool
  load_tool-Ensures time item path =
      Ensures-bind (reject_unknown_fields json source item _ path) _ Any _
        (reject_unknown_fields-Ensures json source item _ path)
        (λ _.
          Ensures-bind (required json source item "name" path) _ Any _
            (required-Ensures json source item "name" path)
            (λ v.
              Ensures-bind (read_name json source v _) _ IfNamed _
                (read_name-Ensures json source v _)
                (λ n.
                  Ensures-weaken _ _ _ (λ e f i _ _. f i) (named_tool-Ensures item path time n))))

  load_kind-Ensures :
      (time : BusinessTime) (item : J) (path kind : String)
      → Ensures (load_kind json source time item path kind) (EventOf time)
  unfolding load_kind event_at
  load_kind-Ensures time item path kind =
      let P = EventOf time in
      Ensures-if (str_eq kind "DI") _ _ P (λ _. load_di-Ensures time item path)
        (λ _.
          Ensures-if (str_eq kind "TOOL") _ _ P (λ _. load_tool-Ensures time item path)
            (λ _.
              Ensures-if (str_eq kind "CONNECTION_LOSS") _ _ P
                (λ _.
                  Ensures-bind (reject_unknown_fields json source item _ path) _ Any P
                    (reject_unknown_fields-Ensures json source item _ path)
                    (λ _ s v. (v, λ _. (refl, inl refl))))
                (λ _. Ensures-fail _ _ _ _ _ P)))

  finish_event-Ensures :
      (before : ℕ) (last time : BusinessTime) (item : J) (path : String) (kind : Option String)
      (es : List ScenarioEvent)
      → Ensures
          (finish_event json source before time item path kind es)
          (λ ls. ltbℤ time last ≡ false → Events (last, es) → Events (time, ls))
  unfolding finish_event
  finish_event-Ensures before last time item path none es = Ensures-fail _ _ _ _ es _
  finish_event-Ensures before last time item path (some k) es =
      Ensures-bind (load_kind json source time item path k) _ (EventOf time) _
        (load_kind-Ensures time item path k)
        (λ e.
          Ensures-bind (unchanged_since json source before) _ Any _
            (unchanged_since-Ensures json source before)
            (λ _ s v. (
              v,
              λ _ of h a.
                  Timeline-append (λ (e : ScenarioEvent). e.time_ms) Named last time es e h a of.0
                    of.1,
            )))

  load_event-Ensures :
      (index : ℕ) (item : J) (loaded : BusinessTime × List ScenarioEvent)
      → Ensures (load_event json source index item loaded) (λ next. Events loaded → Events next)
  unfolding load_event
  load_event-Ensures index item (previous, es) s =
      let path = text_append "/events/" (decimal index) in
      Ensures-bind (time_field json source item "time_ms" path) _ NotNegative _
        (time_field-Ensures json source item "time_ms" path)
        (λ time.
          Ensures-bind (in_order json source path _ previous time) _ _ _
            (in_order-Ensures json source path _ previous time)
            (λ _.
              Ensures-bind (required json source item "kind" path) _ Any _
                (required-Ensures json source item "kind" path)
                (λ k.
                  Ensures-bind
                    (finish_event json source (length s.diagnostics) time item path
                      (kind_text json source k) es)
                    _ (λ ls. ltbℤ time previous ≡ false → Events (previous, es) → Events (time, ls))
                    _ (finish_event-Ensures _ previous time item path _ es)
                    (λ ls s v. (v, λ post _ order _ a. post order a)))))
        s

  pub load_events-Ensures :
      (items : List J) (index : ℕ) (start : BusinessTime × List ScenarioEvent)
      → Ensures (load_events json source index items start) (λ next. Events start → Events next)
  unfolding load_events
  load_events-Ensures [] index start = λ s v. (v, λ h. h)
  load_events-Ensures (item ∷ items) index start =
      Ensures-bind (load_event json source index item start) _ _ _
        (load_event-Ensures index item start)
        (λ next.
          Ensures-weaken _ _ _ (λ ps f g h. f (g h)) (load_events-Ensures items (index + 1) next))
