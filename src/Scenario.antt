-- ===== src/Scenario.antt =====
-- LoadMockScenario of src/roborun/scenario.cpp. What the file holds is an argument; a scenario's maps
-- are lists in the order of the document.
mod Plans
mod Timeline
unfoldable pub use Plans.*
unfoldable pub use Timeline.*
use roborun.Prelude.{
  ◌-◌, ◌%◌, ℤ, pos, negsuc, ◌-ℤ◌, ltb, ltbℤ, eqbℤ, Bool, true, false, not, ◌&&◌, ◌||◌, String,
  Option, none, some, List, [], ◌∷◌, Outcome, ok, threw, ◌>>=◌, ◌>>◌, if◌then◌else◌,
}
use roborun.Types.{DiagnosticCode, Diagnostic, MockScenario}
use roborun.Json.{
  JsonLibrary, Loading, L, fail, scenario_diagnostic, checked_fields, required, contains_key,
}

-- What reading the file gives: no file, the parser's exception, or a document.
pub data Input (J : Type 0) : Type 0 where
  unreadable : Input J
  malformed : String → Input J
  document : J → Input J

pub record ScenarioLoadResult : Type 0 where
  pub scenario : Option MockScenario
  pub diagnostics : List Diagnostic

-- `static_cast<int>` of a 64-bit integer.
unfoldable pub to_int : ℤ → ℤ
to_int (pos n) =
    let r = n % 4294967296 in if ltb r 2147483648 then pos r else pos r -ℤ pos 4294967296
to_int (negsuc n) =
    let r = n % 4294967296 in if ltb r 2147483648 then negsuc r else pos (4294967295 - r)

module _ {J : Type 0} (json : JsonLibrary J) (source : String) where
  -- The test of `schema_version` for a value that is there.
  unfoldable pub bad_version : J → Bool
  bad_version v =
      (not (json.is_number_integer v) && not (json.is_number_unsigned v))
      || (json.is_number_integer v
          && (ltbℤ (json.get_int64 v) (pos 1) || ltbℤ (pos 2) (json.get_int64 v)))
      || (json.is_number_unsigned v && (ltb (json.get_uint64 v) 1 || ltb 2 (json.get_uint64 v)))

  unfoldable pub version_checked : Option J → L (Unit {0})
  version_checked none =
      fail DiagnosticCode.schema_mismatch source "/schema_version"
        "scenario schema_version must be 1 or 2"
  version_checked (some v) =
      if bad_version v
      then fail DiagnosticCode.schema_mismatch source "/schema_version"
          "scenario schema_version must be 1 or 2"
      else ok tt

  -- 1, the default of the struct, where there is no integer.
  unfoldable pub version_of : Option J → ℤ
  version_of none = pos 1
  version_of (some v) =
      if json.is_number_integer v
      then to_int (json.get_int64 v)
      else if json.is_number_unsigned v
      then to_int (pos (json.get_uint64 v))
      else pos 1

  unfoldable pub version_allows : ℤ → J → L (Unit {0})
  version_allows version root =
      if eqbℤ version (pos 1)
        && (contains_key json source root "controls" || contains_key json source root "stops")
      then fail DiagnosticCode.schema_mismatch source "/schema_version"
          "scenario controls and stops require schema_version 2"
      else ok tt

  -- The elements of a member of the root; none where it is missing, or no array.
  unfoldable pub member_items : String → String → Option J → L (List J)
  member_items path message none = ok []
  member_items path message (some value) =
      if json.is_array value
      then ok (json.elements value)
      else (do fail DiagnosticCode.invalid_scenario source path message; ok [])

  unfoldable pub load_root : J → L MockScenario
  load_root root = do
    checked_fields json source root
        ("schema_version" ∷ "motions" ∷ "events" ∷ "controls" ∷ "stops" ∷ []) ""
    version ← required json source root "schema_version" ""
    version_checked version
    version_allows (version_of version) root
    motions ← member_items "/motions" "motions must be an array" (json.find root "motions")
    motion_plans ← load_motions json source 0 motions []
    events ← member_items "/events" "events must be an array" (json.find root "events")
    timeline ← load_events json source 0 events (pos 0, [])
    stops ← member_items "/stops" "stops must be an array" (json.find root "stops")
    stop_plans ← load_stops json source 0 stops []
    controls ← member_items "/controls" "controls must be an array" (json.find root "controls")
    operator ← load_controls json source 0 controls (pos 0, [])
    ok (record {
      source = source;
      schema_version = version_of version;
      motion_plans = motion_plans;
      stop_plans = stop_plans;
      events = timeline.1;
      controls = operator.1;
    })

  unfoldable pub no_errors : List Diagnostic → Bool
  no_errors [] = true
  no_errors (d ∷ ds) = false

  -- `if (valid && result.diagnostics.empty())`.
  unfoldable pub loaded : Outcome Loading MockScenario → ScenarioLoadResult
  loaded (threw e s) = record { scenario = none; diagnostics = s.diagnostics }
  loaded (ok scenario s) =
      if s.valid && no_errors s.diagnostics
      then record { scenario = some scenario; diagnostics = s.diagnostics }
      else record { scenario = none; diagnostics = s.diagnostics }

  unfoldable pub rejected_file : DiagnosticCode → String → ScenarioLoadResult
  rejected_file code message = record {
    scenario = none;
    diagnostics = scenario_diagnostic code source "" message ∷ [];
  }

  unfoldable pub load_mock_scenario : Input J → ScenarioLoadResult
  load_mock_scenario Input.unreadable =
      rejected_file DiagnosticCode.config_io "cannot open scenario file"
  load_mock_scenario (Input.malformed error) = rejected_file DiagnosticCode.json_syntax error
  load_mock_scenario (Input.document root) =
      if not (json.is_object root)
      then rejected_file DiagnosticCode.invalid_scenario "scenario root must be an object"
      else loaded (load_root root (record { valid = true; diagnostics = [] }))
