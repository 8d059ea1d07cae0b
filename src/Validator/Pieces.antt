-- ===== src/Validator/Pieces.antt =====
-- About the parts of ValidateProgram (validator.cpp) that look at one command.
use roborun.Prelude.{ℕ, pos, ◌+◌, ◌≡◌, refl, lebℤ, Bool, true, List, [], ◌∷◌, ◌++◌, arith, String}
use roborun.Types.{SignalDirection, DiagnosticCode, Command, Diagnostic, Double}
use roborun.Validator.{
  Context, diagnostic, unless, check_joint, check_joints, check_signal, check_tool, speed_in_range,
}
use roborun.Validator.Spec.{Within, AllWithin, SignalOk, ToolOk}

pub append_nil : (xs ys : List Diagnostic) → xs ++ ys ≡ [] → (xs ≡ []) × (ys ≡ [])
append_nil [] ys h = (refl, h)
append_nil (x ∷ xs) ys h = ground arith

pub unless_nil :
    (b : Bool) (ctx : Context) (l : ℕ) (c : DiagnosticCode) (m : String)
    → unless b (diagnostic ctx l c m) ≡ []
    → b ≡ true
unfolding unless diagnostic
unless_nil b ctx l c m h = ground arith

check_joint_sound :
    (ctx : Context) (l i : ℕ) (t : Double) → check_joint ctx l i t ≡ [] → Within ctx i t
unfolding check_joint diagnostic
check_joint_sound ctx l i t h = grind arith

check_joint_complete :
    (ctx : Context) (l i : ℕ) (t : Double) → Within ctx i t → check_joint ctx l i t ≡ []
unfolding check_joint
check_joint_complete ctx l i t w = rw (w.finite, w.above, w.below) refl

pub check_joints_sound :
    (ctx : Context) (l i : ℕ) (ts : List Double) → check_joints ctx l i ts ≡ [] → AllWithin ctx i ts
unfolding check_joints
check_joints_sound ctx l i [] h = tt
check_joints_sound ctx l i (t ∷ ts) h =
    let p = append_nil (check_joint ctx l i t) _ h in
    (check_joint_sound ctx l i t p.0, check_joints_sound ctx l (i + 1) ts p.1)

pub check_joints_complete :
    (ctx : Context) (l i : ℕ) (ts : List Double) → AllWithin ctx i ts → check_joints ctx l i ts ≡ []
unfolding check_joints
check_joints_complete ctx l i [] h = refl
check_joints_complete ctx l i (t ∷ ts) h =
    rw (check_joint_complete ctx l i t h.0, check_joints_complete ctx l (i + 1) ts h.1) refl

pub check_signal_sound :
    (ctx : Context) (c : Command) (d : SignalDirection) (m w : String)
    → check_signal ctx c d m w ≡ []
    → SignalOk ctx c d
unfolding check_signal unless diagnostic
check_signal_sound ctx c d m w h = grind arith

pub check_signal_complete :
    (ctx : Context) (c : Command) (d : SignalDirection) (m w : String)
    → SignalOk ctx c d
    → check_signal ctx c d m w ≡ []
unfolding check_signal unless
check_signal_complete ctx c d m w k =
    let a = k.configured in let b = k.known in let e = k.directed in grind (arith, a, b, e)

pub check_tool_sound : (ctx : Context) (c : Command) → check_tool ctx c ≡ [] → ToolOk ctx c
unfolding check_tool diagnostic
check_tool_sound ctx c h = grind arith

pub check_tool_complete : (ctx : Context) (c : Command) → ToolOk ctx c → check_tool ctx c ≡ []
unfolding check_tool
check_tool_complete ctx c k = let a = k.configured in let b = k.known in grind (arith, a, b)

pub speed_sound :
    (c : Command)
    → speed_in_range c ≡ true
    → (lebℤ (pos 1) c.movej.speed_percent ≡ true) × (lebℤ c.movej.speed_percent (pos 100) ≡ true)
unfolding speed_in_range
speed_sound c h = ground arith

pub speed_complete :
    (c : Command)
    → lebℤ (pos 1) c.movej.speed_percent ≡ true
    → lebℤ c.movej.speed_percent (pos 100) ≡ true
    → speed_in_range c ≡ true
unfolding speed_in_range
speed_complete c h k = ground arith
