-- ===== src/Validator/Moves.antt =====
-- About the MOVEJ case of ValidateProgram (validator.cpp).
use roborun.Prelude.{
  ◌≡◌, ◌≢◌, inl, inr, refl, true, false, [], some, lookup, arith, String, ap, str_eq, str_eq_iff,
  Bool-cases, ◌∙◌, sym,
}
use roborun.Types.{Command, JointPositions, Point, RobotConfiguration, PointCatalog, joint_list}
use roborun.Validator.{
  Context, diagnostic, unless, check_targets, check_movej, bounded, resolve, resolved, with_speed,
  with_point, speed_in_range,
}
use roborun.Validator.Spec.{AllWithin, Targets, own, named, MoveOk}
use roborun.Validator.Pieces.{
  append_nil, unless_nil, check_joints_sound, check_joints_complete, speed_sound, speed_complete,
}

-- The reference of a MOVEJ resolves, through both configurations.
record Resolves (ctx : Context) (c : Command) : Type 0 where
  robot : RobotConfiguration
  catalog : PointCatalog
  point : Point
  robot_eq : ctx.robot_configuration ≡ some robot
  catalog_eq : ctx.point_catalog ≡ some catalog
  point_eq : lookup c.point_reference catalog.points ≡ some point

resolved_sound :
    (ctx : Context) (c : Command) → (resolved ctx c (resolve ctx c)).1 ≡ [] → Resolves ctx c
unfolding resolved resolve diagnostic
resolved_sound ctx c h = grind arith

resolved_eq :
    (ctx : Context) (c : Command) (r : Resolves ctx c)
    → resolved ctx c (resolve ctx c) ≡ bounded ctx (with_point r.point.joints c)
unfolding resolved resolve
resolved_eq ctx c r = rw (r.robot_eq, r.catalog_eq, r.point_eq) refl

-- What the targets of a MOVEJ resolve to, that a pass without diagnostics keeps.
pub record Kept (ctx : Context) (c : Command) : Type 0 where
  pub joints : JointPositions
  pub targets : Targets ctx c joints
  pub within : AllWithin ctx 0 (joint_list joints)
  pub kept : (check_targets ctx c).0.movej.targets ≡ joints

targets_own :
    (ctx : Context) (c : Command)
    → str_eq c.point_reference "" ≡ true
    → check_targets ctx c ≡ bounded ctx (with_speed ctx c)
unfolding check_targets
targets_own ctx c y = rw y refl

targets_named :
    (ctx : Context) (c : Command)
    → str_eq c.point_reference "" ≡ false
    → check_targets ctx c ≡ resolved ctx (with_speed ctx c) (resolve ctx (with_speed ctx c))
unfolding check_targets
targets_named ctx c n = rw n refl

reference_missing : (s : String) → str_eq s "" ≡ false → s ≢ ""
reference_missing s n h = let y = (str_eq_iff s "").0 h in ground arith

reference_present : (s : String) → s ≢ "" → str_eq s "" ≡ false
reference_present s n = elim (Bool-cases (str_eq s "")) [
  | inl y ↦ absurd (n ((str_eq_iff s "").1 y))
  | inr f ↦ f
]

own_sound :
    (ctx : Context) (c : Command)
    → str_eq c.point_reference "" ≡ true
    → (bounded ctx (with_speed ctx c)).1 ≡ []
    → Kept ctx c
unfolding bounded with_speed
own_sound ctx c y h = record {
  joints = c.movej.targets;
  targets = own ((str_eq_iff c.point_reference "").1 y);
  within = check_joints_sound ctx c.line 0 (joint_list c.movej.targets) h;
  kept = rw (targets_own ctx c y) refl;
}

named_sound :
    (ctx : Context) (c : Command) (r : Resolves ctx c)
    → str_eq c.point_reference "" ≡ false
    → check_targets ctx c ≡ bounded ctx (with_point r.point.joints (with_speed ctx c))
    → (bounded ctx (with_point r.point.joints (with_speed ctx c))).1 ≡ []
    → Kept ctx c
unfolding bounded with_speed with_point
named_sound ctx c r n e h = record {
  joints = r.point.joints;
  targets =
      named r.robot r.catalog r.point (reference_missing c.point_reference n) r.robot_eq
        r.catalog_eq r.point_eq;
  within = check_joints_sound ctx c.line 0 (joint_list r.point.joints) h;
  kept = rw e refl;
}

same_reference : (ctx : Context) (c : Command) → Resolves ctx (with_speed ctx c) → Resolves ctx c
unfolding with_speed
same_reference ctx c r = record {
  robot = r.robot;
  catalog = r.catalog;
  point = r.point;
  robot_eq = r.robot_eq;
  catalog_eq = r.catalog_eq;
  point_eq = r.point_eq;
}

named_eq :
    (ctx : Context) (c : Command) (r : Resolves ctx c)
    → str_eq c.point_reference "" ≡ false
    → check_targets ctx c ≡ bounded ctx (with_point r.point.joints (with_speed ctx c))
unfolding with_speed
named_eq ctx c r n =
    targets_named ctx c n
    ∙ resolved_eq ctx (with_speed ctx c) (record {
      robot = r.robot;
      catalog = r.catalog;
      point = r.point;
      robot_eq = r.robot_eq;
      catalog_eq = r.catalog_eq;
      point_eq = r.point_eq;
    })

pub targets_sound : (ctx : Context) (c : Command) → (check_targets ctx c).1 ≡ [] → Kept ctx c
targets_sound ctx c h = elim (Bool-cases (str_eq c.point_reference "")) [
  | inl y ↦ own_sound ctx c y (sym (ap (λ p. p.1) (targets_own ctx c y)) ∙ h)
  | inr n ↦
      let r =
        same_reference ctx c (
          resolved_sound ctx (with_speed ctx c)
            (sym (ap (λ p. p.1) (targets_named ctx c n)) ∙ h)) in
      named_sound ctx c r n (named_eq ctx c r n) (sym (ap (λ p. p.1) (named_eq ctx c r n)) ∙ h)
]

Targets-complete :
    (ctx : Context) (c : Command) (j : JointPositions)
    → Targets ctx c j
    → AllWithin ctx 0 (joint_list j)
    → (check_targets ctx c).1 ≡ []
unfolding bounded with_speed with_point
Targets-complete ctx c j (own h) w =
    rw (targets_own ctx c ((str_eq_iff c.point_reference "").0 h))
      (check_joints_complete ctx c.line 0 _ w)
Targets-complete ctx c j (named robot catalog point n a b k) w =
    rw
      (named_eq ctx c
        (record {
          robot = robot;
          catalog = catalog;
          point = point;
          robot_eq = a;
          catalog_eq = b;
          point_eq = k;
        })
        (reference_present c.point_reference n))
      (check_joints_complete ctx c.line 0 _ w)

pub check_movej_sound :
    (ctx : Context) (c : Command) → (check_movej ctx c).diagnostics ≡ [] → MoveOk ctx c
unfolding check_movej
check_movej_sound ctx c h =
    let p = append_nil _ (check_targets ctx c).1 h in
    let k = targets_sound ctx c p.1 in
    record {
      speed = speed_sound c (unless_nil (speed_in_range c) ctx c.line _ _ p.0);
      joints = k.joints;
      targets = k.targets;
      within = k.within;
    }

pub check_movej_complete :
    (ctx : Context) (c : Command) → MoveOk ctx c → (check_movej ctx c).diagnostics ≡ []
unfolding check_movej unless
check_movej_complete ctx c m =
    rw (speed_complete c m.speed.0 m.speed.1, Targets-complete ctx c m.joints m.targets m.within)
      refl
