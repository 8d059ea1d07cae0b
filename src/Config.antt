-- ===== src/Config.antt =====
-- IsValidPointName and ValidatePointCatalog of src/roborun/config.cpp. The loaders of that file read
-- JSON and are not modelled.
use Prim.Native.Char.{code}
use Prim.Native.String as Native
use roborun.Prelude.{
  ℕ, zero, suc, ◌+◌, Bool, true, false, ◌&&◌, ◌||◌, leb, ◌==◌, String, str_eq, text_append, decimal,
  List, [], ◌∷◌, ◌++◌, get_elem?, value_or, if◌then◌else◌,
}
use roborun.Types.{
  DiagnosticCode, Diagnostic, Double, Point, PointCatalog, RobotConfiguration, joint_list,
}
use roborun.Validator.{Doubles, joint_limit_radians}

abbrev pub is_upper : ℕ → Bool
is_upper c = leb b'A' c && leb c b'Z'

-- `[A-Z0-9_]`.
abbrev pub is_name_char : ℕ → Bool
is_name_char c = is_upper c || leb b'0' c && leb c b'9' || c == b'_'

-- `[A-Z0-9_]{0,most}$`.
unfoldable pub is_name_tail : ℕ → String → Bool
is_name_tail most Native.[] = true
is_name_tail zero (Native.◌∷◌ c s) = false
is_name_tail (suc most) (Native.◌∷◌ c s) = is_name_char (code c) && is_name_tail most s

-- IsValidPointName: `^[A-Z][A-Z0-9_]{0,63}$`.
unfoldable pub is_valid_point_name : String → Bool
is_valid_point_name Native.[] = false
is_valid_point_name (Native.◌∷◌ c s) = is_upper (code c) && is_name_tail 63 s

unfoldable pub catalog_diagnostic : DiagnosticCode → String → String → String → Diagnostic
catalog_diagnostic code source path message = record {
  code = code;
  source = source;
  line = 0;
  column = 0;
  path = path;
  message = message;
}

-- The array of limits has six; the default is never read.
unfoldable pub exceeds : Doubles → RobotConfiguration → ℕ → Double → Bool
exceeds doubles robot index joint =
    let limit = value_or (get_elem? robot.joints index) joint_limit_radians in
    doubles.less joint limit.minimum || doubles.less limit.maximum joint

unfoldable pub check_point_joints :
    Doubles → RobotConfiguration → String → Point → ℕ → List Double → List Diagnostic
check_point_joints doubles robot source point index [] = []
check_point_joints doubles robot source point index (j ∷ js) =
    let rest = check_point_joints doubles robot source point (index + 1) js in
    if exceeds doubles robot index j
    then catalog_diagnostic DiagnosticCode.joint_limit_violation source
        (text_append point.joints_path (text_append "/" (decimal index)))
        (text_append "point joint " (text_append (decimal (index + 1)) " exceeds robot limit"))
      ∷ rest
    else rest

unfoldable pub check_points :
    Doubles → RobotConfiguration → String → List (String × Point) → List Diagnostic
check_points doubles robot source [] = []
check_points doubles robot source ((name, point) ∷ points) =
    check_point_joints doubles robot source point 0 (joint_list point.joints)
    ++ check_points doubles robot source points

unfoldable pub validate_point_catalog :
    Doubles → PointCatalog → RobotConfiguration → List Diagnostic
validate_point_catalog doubles catalog robot =
    let checked = check_points doubles robot catalog.source catalog.points in
    if str_eq catalog.robot_id robot.robot_id
    then checked
    else catalog_diagnostic DiagnosticCode.robot_mismatch catalog.source "/robot_id"
        "point catalog robot_id does not match robot configuration"
      ∷ checked
