-- ===== src/Json.antt =====
-- The library nlohmann_json as src/roborun/scenario.cpp uses it, a parameter, and the helpers of
-- that file. The members are the type tests, the conversions `get`, `find`, the keys of an object
-- and the elements of an array.
use roborun.Prelude.{
  ℕ, ◌==◌, ℤ, pos, ltb, ltbℤ, Bool, false, not, ◌&&◌, ◌||◌, String, str_eq, text_append, Option,
  none, some, has_value, List, [], ◌∷◌, ◌++◌, length, ok, Action, ◌>>=◌, ◌>>◌, if◌then◌else◌,
}
use roborun.Types.{DiagnosticCode, Diagnostic}

pub record JsonLibrary (J : Type 0) : Type 0 where
  pub is_object : J → Bool
  pub is_array : J → Bool
  pub is_string : J → Bool
  pub is_boolean : J → Bool
  pub is_number_integer : J → Bool
  pub is_number_unsigned : J → Bool
  pub get_int64 : J → ℤ
  pub get_uint64 : J → ℕ
  pub get_bool : J → Bool
  pub get_string : J → String
  pub find : J → String → Option J
  pub keys : J → List String
  pub elements : J → List J

-- The flag `valid` and the diagnostics of the result.
pub record Loading : Type 0 where
  pub valid : Bool
  pub diagnostics : List Diagnostic

abbrev pub L : Type 0 → Type 0
L A = Action Loading A

unfoldable pub scenario_diagnostic : DiagnosticCode → String → String → String → Diagnostic
scenario_diagnostic code source path message = record {
  code = code;
  source = source;
  line = 0;
  column = 0;
  path = path;
  message = message;
}

unfoldable pub is_known : String → List String → Bool
is_known key [] = false
is_known key (field ∷ fields) = str_eq key field || is_known key fields

unfoldable pub unknown_fields : String → String → List String → List String → List Diagnostic
unknown_fields source path allowed [] = []
unknown_fields source path allowed (key ∷ keys) =
    let rest = unknown_fields source path allowed keys in
    if is_known key allowed
    then rest
    else scenario_diagnostic DiagnosticCode.invalid_scenario source
        (text_append path (text_append "/" key)) "unknown field"
      ∷ rest

-- `valid = false`.
unfoldable pub invalidate : L (Unit {0})
invalidate s = ok tt (record s { valid = false })

-- Add, to the result's diagnostics.
unfoldable pub add : DiagnosticCode → String → String → String → L (Unit {0})
add code source path message s =
    ok tt (record s {
      diagnostics = s.diagnostics ++ scenario_diagnostic code source path message ∷ [];
    })

-- The two together, as most tests of the loader do.
unfoldable pub fail : DiagnosticCode → String → String → String → L (Unit {0})
fail code source path message = do add code source path message; invalidate

module _ {J : Type 0} (json : JsonLibrary J) (source : String) where
  unfoldable pub reject_unknown_fields : J → List String → String → L (Unit {0})
  reject_unknown_fields object allowed path s =
      if not (json.is_object object)
      then ok tt s
      else ok tt (record s {
        diagnostics = s.diagnostics ++ unknown_fields source path allowed (json.keys object);
      })

  -- `valid = valid && diagnostics.size() == before`.
  unfoldable pub unchanged_since : ℕ → L (Unit {0})
  unchanged_since before s = ok tt (record s { valid = s.valid && length s.diagnostics == before })

  -- RejectUnknownFields between the count of the diagnostics and its comparison.
  unfoldable pub checked_fields : J → List String → String → L (Unit {0})
  checked_fields object allowed path s =
      (do reject_unknown_fields object allowed path; unchanged_since (length s.diagnostics)) s

  unfoldable pub found : String → String → Option J → L (Option J)
  found key path (some value) = ok (some value)
  found key path none = do
    add DiagnosticCode.invalid_scenario source (text_append path (text_append "/" key))
        "required field is missing"
    ok none

  unfoldable pub required : J → String → String → L (Option J)
  required object key path =
      if not (json.is_object object)
      then (do add DiagnosticCode.invalid_scenario source path "expected an object"; ok none)
      else found key path (json.find object key)

  unfoldable pub is_whole : J → Bool
  is_whole value = json.is_number_integer value || json.is_number_unsigned value

  unfoldable pub non_negative : J → String → L (Option ℤ)
  non_negative value path =
      if not (is_whole value)
      then (do
        add DiagnosticCode.invalid_scenario source path "expected a non-negative integer"
        ok none)
      else if json.is_number_integer value
      then (if ltbℤ (json.get_int64 value) (pos 0)
          then (do
            add DiagnosticCode.invalid_scenario source path "value must be non-negative"
            ok none)
          else ok (some (json.get_int64 value)))
      else if ltb 9223372036854775807 (json.get_uint64 value)
      then (do add DiagnosticCode.invalid_scenario source path "value is too large"; ok none)
      else ok (some (pos (json.get_uint64 value)))

  -- ReadNonNegative: the value it writes, or nothing where it returns false.
  unfoldable pub read_non_negative : Option J → String → L (Option ℤ)
  read_non_negative none path = ok none
  read_non_negative (some value) path = non_negative value path

  unfoldable pub read_name : Option J → String → L (Option String)
  read_name none path = ok none
  read_name (some value) path =
      if not (json.is_string value) || str_eq (json.get_string value) ""
      then (do
        add DiagnosticCode.invalid_scenario source path "expected a non-empty string"
        ok none)
      else ok (some (json.get_string value))

  unfoldable pub contains_key : J → String → Bool
  contains_key object key = has_value (json.find object key)

  -- `value != nullptr && value->is_string() ? value->get<std::string>() : ""`.
  unfoldable pub text_or_empty : Option J → String
  text_or_empty none = ""
  text_or_empty (some value) = if json.is_string value then json.get_string value else ""

  -- A time that must be there; 0 and an invalid document if it is not.
  unfoldable pub time_field : J → String → String → L ℤ
  time_field object key path = do
    value ← required object key path
    time ← read_non_negative value (text_append path (text_append "/" key))
    elim time [ none ↦ do invalidate; ok (pos 0) | some t ↦ ok t ]
