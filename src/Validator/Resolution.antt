-- ===== src/Validator/Resolution.antt =====
-- About the program that ValidateProgram (validator.cpp) returns.
use roborun.Prelude.{◌≡◌, ◌≢◌, refl, List, [], ◌∷◌, arith, sym, ◌∙◌, ap, subst, All}
use roborun.Types.{CommandType, ValidatorServoState, Command, joint_list}
use roborun.Validator.{
  Context, diagnostic, bad_state, check_command, check_movej, check_next, check_commands,
  check_targets, validate_program,
}
use roborun.Validator.Spec.{AllWithin}
use roborun.Validator.Pieces.{append_nil}
use roborun.Validator.Moves.{targets_sound}

abbrev MovesWithin : Context → Command → Type 0
MovesWithin ctx c = c.type ≡ CommandType.movej → AllWithin ctx 0 (joint_list c.movej.targets)

-- What is asked of a command as it is kept, by its type: of a MOVEJ, targets within the limits.
abbrev pub KeptOk : Context → CommandType → Command → Type 0
KeptOk ctx CommandType.movej c = AllWithin ctx 0 (joint_list c.movej.targets)
KeptOk ctx _ c = Unit

kept_ok :
    (ctx : Context) (t : CommandType) (c : Command)
    → c.type ≡ t
    → MovesWithin ctx c
    → KeptOk ctx t c
kept_ok ctx CommandType.movej c e h = h e
kept_ok ctx CommandType.servo_on c e h = tt
kept_ok ctx CommandType.servo_off c e h = tt
kept_ok ctx CommandType.delay c e h = tt
kept_ok ctx CommandType.set_do c e h = tt
kept_ok ctx CommandType.wait_di c e h = tt
kept_ok ctx CommandType.set_tool c e h = tt
kept_ok ctx CommandType.stop c e h = tt
kept_ok ctx CommandType.no_command c e h = tt

All-KeptOk :
    (ctx : Context) (cs : List Command)
    → All (MovesWithin ctx) cs
    → All (λ c. KeptOk ctx c.type c) cs
All-KeptOk ctx [] h = tt
All-KeptOk ctx (c ∷ cs) h = (kept_ok ctx c.type c refl h.0, All-KeptOk ctx cs h.1)

movej_within :
    (ctx : Context) (c : Command)
    → (check_movej ctx c).diagnostics ≡ []
    → AllWithin ctx 0 (joint_list (check_movej ctx c).command.movej.targets)
unfolding check_movej
movej_within ctx c h =
    let k = targets_sound ctx c (append_nil _ (check_targets ctx c).1 h).1 in
    subst (λ j. AllWithin ctx 0 (joint_list j)) (sym k.kept) k.within

command_same :
    (ctx : Context) (s : ValidatorServoState) (t : CommandType) (c : Command)
    → t ≢ CommandType.movej
    → (check_command ctx s t c).command ≡ c
unfolding check_command
command_same ctx s t c n = ground arith

other_within :
    (ctx : Context) (s : ValidatorServoState) (t : CommandType) (c : Command)
    → t ≢ CommandType.movej
    → c.type ≡ t
    → MovesWithin ctx (check_command ctx s t c).command
other_within ctx s t c n e m =
    absurd (n (sym e ∙ sym (ap (λ (x : Command). x.type) (command_same ctx s t c n)) ∙ m))

command_within :
    (ctx : Context) (s : ValidatorServoState) (t : CommandType) (c : Command)
    → c.type ≡ t
    → (check_command ctx s t c).diagnostics ≡ []
    → MovesWithin ctx (check_command ctx s t c).command
unfolding check_command bad_state diagnostic
command_within ctx ValidatorServoState.ready CommandType.movej c e h = λ _. movej_within ctx c h
command_within ctx ValidatorServoState.servo_off CommandType.movej c e h = ground arith
command_within ctx ValidatorServoState.stopped CommandType.movej c e h = ground arith
command_within ctx s CommandType.servo_on c e h =
    other_within ctx s CommandType.servo_on c (ground arith) e
command_within ctx s CommandType.servo_off c e h =
    other_within ctx s CommandType.servo_off c (ground arith) e
command_within ctx s CommandType.delay c e h =
    other_within ctx s CommandType.delay c (ground arith) e
command_within ctx s CommandType.set_do c e h =
    other_within ctx s CommandType.set_do c (ground arith) e
command_within ctx s CommandType.wait_di c e h =
    other_within ctx s CommandType.wait_di c (ground arith) e
command_within ctx s CommandType.set_tool c e h =
    other_within ctx s CommandType.set_tool c (ground arith) e
command_within ctx s CommandType.stop c e h = other_within ctx s CommandType.stop c (ground arith) e
command_within ctx s CommandType.no_command c e h =
    other_within ctx s CommandType.no_command c (ground arith) e

next_within :
    (ctx : Context) (s : ValidatorServoState) (c : Command)
    → (check_next ctx s c).diagnostics ≡ []
    → MovesWithin ctx (check_next ctx s c).command
unfolding check_next bad_state diagnostic
next_within ctx ValidatorServoState.stopped c h = ground arith
next_within ctx ValidatorServoState.ready c h =
    command_within ctx ValidatorServoState.ready c.type c refl h
next_within ctx ValidatorServoState.servo_off c h =
    command_within ctx ValidatorServoState.servo_off c.type c refl h

commands_within :
    (ctx : Context) (s : ValidatorServoState) (cs : List Command)
    → (check_commands ctx s cs).1 ≡ []
    → All (MovesWithin ctx) (check_commands ctx s cs).0
unfolding check_commands
commands_within ctx s [] h = tt
commands_within ctx s (c ∷ cs) h =
    let p = append_nil (check_next ctx s c).diagnostics _ h in
    (next_within ctx s c p.0, commands_within ctx (check_next ctx s c).state cs p.1)

-- Of a program that is validated with no diagnostics, every MOVEJ that is kept for the runtime has
-- finite targets between the limits of their joints, also where it names a point.
pub validated_within :
    (ctx : Context) (cs : List Command)
    → (validate_program ctx cs).diagnostics ≡ []
    → All (λ c. KeptOk ctx c.type c) (validate_program ctx cs).program.commands
unfolding validate_program
validated_within ctx [] h = tt
validated_within ctx (c ∷ cs) h =
    All-KeptOk ctx _ (commands_within ctx ValidatorServoState.servo_off (c ∷ cs) h)
