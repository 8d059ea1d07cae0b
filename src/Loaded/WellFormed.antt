-- ===== src/Loaded/WellFormed.antt =====
-- About the scenarios that LoadMockScenario (scenario.cpp) yields.
use roborun.Prelude.{
  ℕ, ℤ, pos, negsuc, ltb, ltbℤ, eqbℤ, Bool, true, false, not, ◌&&◌, ◌||◌, String, Option, none,
  some, List, [], Outcome, ok, threw, ◌>>=◌, ◌≡◌, ◌⊎◌, inl, inr, refl, ap, subst, if◌then◌else◌,
  arith,
}
use roborun.Types.{DiagnosticCode, Diagnostic, MockScenario}
use roborun.Json.{JsonLibrary, Loading, L, required, checked_fields}
use roborun.Scenario.{
  Input, ScenarioLoadResult, to_int, bad_version, version_checked, version_of, version_allows,
  member_items, load_motions, load_events, load_stops, load_controls, load_root, no_errors, loaded,
  rejected_file, load_mock_scenario,
}
use roborun.Loaded.{
  Good, Ensures, Any, Ensures-bind, Ensures-ok, Ensures-if, Ensures-weaken, Ensures-fail,
  fail-Ensures, checked_fields-Ensures, required-Ensures,
}
use roborun.Loaded.Plans.{MotionPlans, StopPlans, load_motions-Ensures, load_stops-Ensures}
use roborun.Loaded.Timeline.Events.{Events, load_events-Ensures}
use roborun.Loaded.Timeline.Controls.{Controls, load_controls-Ensures}

-- What the rest of the program relies on in a scenario.
pub record WellFormed (source : String) (m : MockScenario) : Type 0 where
  pub named : m.source ≡ source
  pub version : (m.schema_version ≡ pos 1) ⊎ (m.schema_version ≡ pos 2)
  pub motions : MotionPlans m.motion_plans
  pub stops : StopPlans m.stop_plans
  pub last_event : ℤ
  pub events : Events (last_event, m.events)
  pub last_control : ℤ
  pub controls : Controls (last_control, m.controls)

abbrev OneOrTwo : ℤ → Type 0
OneOrTwo v = (v ≡ pos 1) ⊎ (v ≡ pos 2)

one_or_two : (n : ℕ) → (ltb n 1 || ltb 2 n) ≡ false → (n ≡ 1) ⊎ (n ≡ 2)
one_or_two n h = ground arith

as_int : (n : ℕ) → (n ≡ 1) ⊎ (n ≡ 2) → OneOrTwo (to_int (pos n))
unfolding to_int
as_int n (inl e) = inl (ap (λ k. to_int (pos k)) e)
as_int n (inr e) = inr (ap (λ k. to_int (pos k)) e)

between : (v : ℤ) → (ltbℤ v (pos 1) || ltbℤ (pos 2) v) ≡ false → OneOrTwo (to_int v)
between (pos n) h = as_int n (one_or_two n (ground arith))
between (negsuc n) h = ground arith

module _ {J : Type 0} (json : JsonLibrary J) (source : String) where
  choose :
      (i u : Bool) (a b : Bool) (x y : ℤ)
      → (not i && not u || i && a || u && b) ≡ false
      → (a ≡ false → OneOrTwo x)
      → (b ≡ false → OneOrTwo y)
      → OneOrTwo (if i then x else if u then y else pos 1)
  choose true u false b x y h f g = f refl
  choose true u true b x y h f g = cc
  choose false true a false x y h f g = g refl
  choose false true a true x y h f g = cc
  choose false false a b x y h f g = inl refl

  good_version :
      (v : J) → bad_version json source v ≡ false → OneOrTwo (version_of json source (some v))
  unfolding bad_version version_of
  good_version v h =
      choose (json.is_number_integer v) (json.is_number_unsigned v) _ _ _ _ h
        (between (json.get_int64 v))
        (λ k. as_int (json.get_uint64 v) (one_or_two (json.get_uint64 v) k))

  version_checked-Ensures :
      (v : Option J)
      → Ensures (version_checked json source v) (λ _. OneOrTwo (version_of json source v))
  unfolding version_checked
  version_checked-Ensures none = fail-Ensures _ _ _ _ _
  version_checked-Ensures (some v) =
      Ensures-if (bad_version json source v) _ _ _ (λ _. fail-Ensures _ _ _ _ _)
        (λ h s t. (t, good_version v h))

  version_allows-Ensures : (n : ℤ) (root : J) → Ensures (version_allows json source n root) Any
  unfolding version_allows
  version_allows-Ensures n root =
      Ensures-if (eqbℤ n (pos 1) && _) _ (ok tt) Any (λ _. fail-Ensures _ _ _ _ Any)
        (λ _. Ensures-ok tt Any tt)

  member_items-Ensures :
      (path message : String) (v : Option J) → Ensures (member_items json source path message v) Any
  unfolding member_items
  member_items-Ensures path message none = λ s t. (t, tt)
  member_items-Ensures path message (some v) =
      Ensures-if (json.is_array v) (ok (json.elements v)) _ Any
        (λ _. Ensures-ok (json.elements v) Any tt) (λ _. Ensures-fail _ _ _ _ [] Any)

  member-Ensures :
      {B : Type 0} (path message : String) (v : Option J) (f : List J → L B) (P : B → Type 0)
      → ((items : List J) → Ensures (f items) P)
      → Ensures (do items ← member_items json source path message v; f items) P
  member-Ensures path message v f P h =
      Ensures-bind (member_items json source path message v) _ Any P
        (member_items-Ensures path message v) (λ items. Ensures-weaken _ _ _ (λ b p _. p) (h items))

  load_root-Ensures : (root : J) → Ensures (load_root json source root) (WellFormed source)
  unfolding load_root
  load_root-Ensures root =
      Ensures-bind (checked_fields json source root _ "") _ Any _
        (checked_fields-Ensures json source root _ "")
        (λ _.
          Ensures-bind (required json source root "schema_version" "") _ Any _
            (required-Ensures json source root "schema_version" "")
            (λ v.
              Ensures-bind (version_checked json source v) _ _ _ (version_checked-Ensures v) (λ _.
                Ensures-bind (version_allows json source _ root) _ Any _
                  (version_allows-Ensures _ root)
                  (λ _. member-Ensures _ _ _ _ _ (λ motions.
                    Ensures-bind (load_motions json source 0 motions []) _ _ _
                      (load_motions-Ensures json source motions 0 [])
                      (λ plans. member-Ensures _ _ _ _ _ (λ events.
                        Ensures-bind (load_events json source 0 events (pos 0, [])) _ _ _
                          (load_events-Ensures json source events 0 (pos 0, []))
                          (λ timeline. member-Ensures _ _ _ _ _ (λ stops.
                            Ensures-bind (load_stops json source 0 stops []) _ _ _
                              (load_stops-Ensures json source stops 0 [])
                              (λ stop_plans. member-Ensures _ _ _ _ _ (λ controls.
                                Ensures-bind (load_controls json source 0 controls (pos 0, [])) _ _
                                  _ (load_controls-Ensures json source controls 0 (pos 0, []))
                                  (λ operator s t. (
                                    t,
                                    λ made_controls made_stops made_events made_motions _ good _ _.
                                        record {
                                          named = refl;
                                          version = good;
                                          motions = made_motions (tt, tt);
                                          stops = made_stops (tt, tt);
                                          last_event = timeline.0;
                                          events = made_events (refl, tt);
                                          last_control = operator.0;
                                          controls = made_controls (refl, tt);
                                        },
                                  )))))))))))))

  abbrev result_if : Bool → Bool → MockScenario → List Diagnostic → ScenarioLoadResult
  result_if v c a ds =
      if v && c
      then record { scenario = some a; diagnostics = ds }
      else record { scenario = none; diagnostics = ds }

  accepted :
      (v c : Bool) (a m : MockScenario) (ds : List Diagnostic)
      → (result_if v c a ds).scenario ≡ some m
      → (v ≡ true) × (a ≡ m)
  accepted true true a m ds h = (refl, cc)
  accepted true false a m ds h = cc
  accepted false c a m ds h = cc

  loaded-WellFormed :
      (o : Outcome Loading MockScenario) (m : MockScenario)
      → Good (WellFormed source) (record { valid = true; diagnostics = [] }) o
      → (loaded json source o).scenario ≡ some m
      → WellFormed source m
  unfolding loaded
  loaded-WellFormed (threw e s) m g h = cc
  loaded-WellFormed (ok a s) m g h =
      let found = accepted s.valid (no_errors json source s.diagnostics) a m s.diagnostics h in
      subst (WellFormed source) found.1 (g found.0).1

  -- Whatever the document holds, a scenario that is loaded is named after its file and of version 1 or
  -- 2. Each of its plans stands under its own number, which is positive and no other plan's, and has a
  -- delay that is not negative. Its events begin at time 0 or later and do not move backward in time,
  -- and an event of a signal or a tool has a name. Its controls are in order in the same way, and each
  -- is of a known type and from a source with a name.
  pub load_mock_scenario-WellFormed :
      (input : Input J) (m : MockScenario)
      → (load_mock_scenario json source input).scenario ≡ some m
      → WellFormed source m
  unfolding load_mock_scenario rejected_file
  load_mock_scenario-WellFormed Input.unreadable m h = cc
  load_mock_scenario-WellFormed (Input.malformed e) m h = cc
  load_mock_scenario-WellFormed (Input.document root) m h = from_root (json.is_object root) h
    where
      start : Loading
      start = record { valid = true; diagnostics = [] }

      from_root :
          (b : Bool)
          → (if not b
              then rejected_file json source DiagnosticCode.invalid_scenario
                  "scenario root must be an object"
              else loaded json source (load_root json source root start)).scenario
            ≡ some m
          → WellFormed source m
      from_root true k =
          loaded-WellFormed (load_root json source root start) m (load_root-Ensures root start) k
      from_root false k = cc
