-- ===== src/Loaded/Told/Verdict.antt =====
-- About the outcome of LoadMockScenario (scenario.cpp).
use roborun.Prelude.{
  ℤ, pos, eqbℤ, Bool, true, false, not, ◌&&◌, ◌||◌, String, Option, none, some, List, [], ◌∷◌,
  Outcome, ok, threw, ◌>>=◌, ◌≡◌, ◌≢◌, ◌↔◌, refl, if◌then◌else◌,
}
use roborun.Types.{DiagnosticCode, Diagnostic, MockScenario}
use roborun.Json.{JsonLibrary, Loading, L, fail, checked_fields}
use roborun.Scenario.{
  Input, ScenarioLoadResult, bad_version, version_checked, version_allows, member_items,
  load_motions, load_events, load_stops, load_controls, load_root, no_errors, loaded, rejected_file,
  load_mock_scenario,
}
use roborun.Loaded.Told.{
  Told, Later, Ends, Tells, Always, Reported, Tells-bind, Tells-ok, Tells-if, Tells-weaken,
  fail-Tells, checked_fields-Tells, some_errors,
}
use roborun.Loaded.Told.Plans.{failed, member-Tells, load_motions-Tells, load_stops-Tells}
use roborun.Loaded.Told.Timeline.{load_events-Tells, load_controls-Tells}

module _ {J : Type 0} (json : JsonLibrary J) (source : String) where
  refused :
      (code : DiagnosticCode) (path message : String) → Tells (fail code source path message) Always
  refused code path message =
      Tells-weaken _ (λ _ t. Reported t) (fail-Tells code source path message)

  version_checked-Tells : (v : Option J) → Tells (version_checked json source v) Always
  unfolding version_checked
  version_checked-Tells none = refused _ _ _
  version_checked-Tells (some v) =
      Tells-if (bad_version json source v) _ _ Always (refused _ _ _) (Tells-ok tt)

  version_allows-Tells : (n : ℤ) (root : J) → Tells (version_allows json source n root) Always
  unfolding version_allows
  version_allows-Tells n root =
      Tells-if (eqbℤ n (pos 1) && _) _ _ Always (refused _ _ _) (Tells-ok tt)

  items-Tells :
      {B : Type 0} (path message : String) (v : Option J) (f : List J → L B)
      → ((items : List J) → Tells (f items) Always)
      → Tells (do items ← member_items json source path message v; f items) Always
  unfolding member_items
  items-Tells path message none f h = h []
  items-Tells path message (some v) f h =
      Tells-bind (member_items json source path message (some v)) f Always Always
        (Tells-if (json.is_array v) _ _ Always (Tells-ok (json.elements v)) (failed _ _ _ _ [])) h

  load_root-Tells : (root : J) → Tells (load_root json source root) Always
  unfolding load_root
  load_root-Tells root =
      Tells-bind (checked_fields json source root _ "") _ Always Always
        (checked_fields-Tells json source root _ "")
        (λ _. member-Tells json source root "schema_version" "" _ (λ v.
          Tells-bind (version_checked json source v) _ Always Always (version_checked-Tells v) (λ _.
            Tells-bind (version_allows json source _ root) _ Always Always
              (version_allows-Tells _ root)
              (λ _. items-Tells _ _ _ _ (λ motions.
                Tells-bind (load_motions json source 0 motions []) _ Always Always
                  (load_motions-Tells json source motions 0 [])
                  (λ plans. items-Tells _ _ _ _ (λ events.
                    Tells-bind (load_events json source 0 events (pos 0, [])) _ Always Always
                      (load_events-Tells json source events 0 (pos 0, []))
                      (λ timeline. items-Tells _ _ _ _ (λ stops.
                        Tells-bind (load_stops json source 0 stops []) _ Always Always
                          (load_stops-Tells json source stops 0 [])
                          (λ stop_plans. items-Tells _ _ _ _ (λ controls.
                            Tells-bind (load_controls json source 0 controls (pos 0, [])) _ Always
                              Always (load_controls-Tells json source controls 0 (pos 0, []))
                              (λ operator s. (((λ h. h), (λ h. h)), tt)))))))))))))

  -- Nothing is loaded exactly where a diagnostic is reported.
  abbrev Answered : ScenarioLoadResult → Type 0
  Answered r = (r.scenario ≡ none) ↔ (r.diagnostics ≢ [])

  refused-Answered :
      (d : Diagnostic) (ds : List Diagnostic)
      → Answered (record { scenario = none; diagnostics = d ∷ ds })
  refused-Answered d ds = ((λ _ e. cc), (λ _. refl))

  decided :
      (v : Bool) (ds : List Diagnostic) (a : MockScenario)
      → (v || some_errors ds) ≡ true
      → Answered (
          if v && no_errors json source ds
          then record { scenario = some a; diagnostics = ds }
          else record { scenario = none; diagnostics = ds })
  unfolding no_errors
  decided true [] a z = ((λ e. cc), (λ n. elim (n refl) [ ]))
  decided true (d ∷ ds) a z = refused-Answered d ds
  decided false [] a z = cc
  decided false (d ∷ ds) a z = refused-Answered d ds

  loaded-Answered :
      (s : Loading) (o : Outcome Loading MockScenario)
      → Told s
      → Ends (λ a t. Later s t × Always a t) o
      → Answered (loaded json source o)
  unfolding loaded
  loaded-Answered s (threw e t) z g = elim g [ ]
  loaded-Answered s (ok a t) z g = decided t.valid t.diagnostics a (g.0.0 z)

  -- Whatever the file holds, no scenario is loaded exactly where a diagnostic is reported: no file is
  -- refused in silence, and no warning goes with a scenario.
  pub nothing_loaded_iff :
      (input : Input J)
      → ((load_mock_scenario json source input).scenario ≡ none)
        ↔ ((load_mock_scenario json source input).diagnostics ≢ [])
  unfolding load_mock_scenario rejected_file
  nothing_loaded_iff Input.unreadable = refused-Answered _ []
  nothing_loaded_iff (Input.malformed e) = refused-Answered _ []
  nothing_loaded_iff (Input.document root) = by_type (json.is_object root)
    where
      start : Loading
      start = record { valid = true; diagnostics = [] }

      by_type :
          (b : Bool)
          → Answered (
              if not b
              then rejected_file json source DiagnosticCode.invalid_scenario
                  "scenario root must be an object"
              else loaded json source (load_root json source root start))
      by_type false = refused-Answered _ []
      by_type true =
          loaded-Answered start (load_root json source root start) refl (load_root-Tells root start)
