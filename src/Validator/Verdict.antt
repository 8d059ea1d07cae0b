-- ===== src/Validator/Verdict.antt =====
-- About ValidateProgram (validator.cpp) and the specification in Validator/Spec.antt.
use roborun.Prelude.{◌≡◌, ◌≢◌, ◌↔◌, refl, List, [], ◌∷◌, arith, sym, ◌∙◌, ap, subst}
use roborun.Types.{CommandType, ValidatorServoState, DiagnosticCode, Command, Diagnostic}
use roborun.Validator.{
  Context, diagnostic, unless, bad_state, check_movej, check_command, check_next, check_commands,
  must_stop, validate_program,
}
use roborun.Validator.Spec.{Runs, done, turn_on, turn_off, work, stop, Work, ArgumentsOk, AllOk}
use roborun.Validator.Pieces.{
  append_nil, check_signal_sound, check_signal_complete, check_tool_sound, check_tool_complete,
}
use roborun.Validator.Moves.{check_movej_sound, check_movej_complete}

-- A command that may stand in a servo state: what it asks for holds, and the programs that may
-- follow it are those of the state behind it.
record Passes (ctx : Context) (s : ValidatorServoState) (t : CommandType) (c : Command)
    : Type 0 where
  arguments : ArgumentsOk ctx t c
  follows :
      (cs : List Command) → c.type ≡ t → Runs (check_command ctx s t c).state cs → Runs s (c ∷ cs)

check_command_sound :
    (ctx : Context) (s : ValidatorServoState) (t : CommandType) (c : Command)
    → s ≢ ValidatorServoState.stopped
    → (check_command ctx s t c).diagnostics ≡ []
    → Passes ctx s t c
unfolding check_command check_movej bad_state diagnostic unless
check_command_sound ctx ValidatorServoState.servo_off CommandType.servo_on c n h = record {
  arguments = tt;
  follows = λ cs e r. turn_on e r;
}
check_command_sound ctx ValidatorServoState.ready CommandType.servo_off c n h = record {
  arguments = tt;
  follows = λ cs e r. turn_off e r;
}
check_command_sound ctx ValidatorServoState.ready CommandType.movej c n h = record {
  arguments = check_movej_sound ctx c h;
  follows = λ cs e r. work (rw e Work.movej) r;
}
check_command_sound ctx ValidatorServoState.ready CommandType.delay c n h = record {
  arguments = tt;
  follows = λ cs e r. work (rw e Work.delay) r;
}
check_command_sound ctx ValidatorServoState.ready CommandType.set_do c n h = record {
  arguments = check_signal_sound ctx c _ _ _ h;
  follows = λ cs e r. work (rw e Work.set_do) r;
}
check_command_sound ctx ValidatorServoState.ready CommandType.wait_di c n h = record {
  arguments = check_signal_sound ctx c _ _ _ h;
  follows = λ cs e r. work (rw e Work.wait_di) r;
}
check_command_sound ctx ValidatorServoState.ready CommandType.set_tool c n h = record {
  arguments = check_tool_sound ctx c h;
  follows = λ cs e r. work (rw e Work.set_tool) r;
}
check_command_sound ctx ValidatorServoState.ready CommandType.stop c n h = record {
  arguments = tt;
  follows = λ cs e r. stop n e r;
}
check_command_sound ctx ValidatorServoState.servo_off CommandType.stop c n h = record {
  arguments = tt;
  follows = λ cs e r. stop n e r;
}
check_command_sound ctx ValidatorServoState.stopped t c n h = absurd (n refl)
check_command_sound ctx ValidatorServoState.ready CommandType.servo_on c n h = ground arith
check_command_sound ctx ValidatorServoState.ready CommandType.no_command c n h = ground arith
check_command_sound ctx ValidatorServoState.servo_off CommandType.servo_off c n h = ground arith
check_command_sound ctx ValidatorServoState.servo_off CommandType.movej c n h = ground arith
check_command_sound ctx ValidatorServoState.servo_off CommandType.delay c n h = ground arith
check_command_sound ctx ValidatorServoState.servo_off CommandType.set_do c n h = ground arith
check_command_sound ctx ValidatorServoState.servo_off CommandType.wait_di c n h = ground arith
check_command_sound ctx ValidatorServoState.servo_off CommandType.set_tool c n h = ground arith
check_command_sound ctx ValidatorServoState.servo_off CommandType.no_command c n h = ground arith

-- The same, said of the specification: a command that may stand in the state is passed.
record Passed (ctx : Context) (s : ValidatorServoState) (t : CommandType) (c : Command)
    (cs : List Command) : Type 0 where
  quiet : (check_command ctx s t c).diagnostics ≡ []
  next : Runs (check_command ctx s t c).state cs

work-Passed :
    (ctx : Context) (t : CommandType) (c : Command) (cs : List Command)
    → Work t
    → ArgumentsOk ctx t c
    → Runs ValidatorServoState.ready cs
    → Passed ctx ValidatorServoState.ready t c cs
unfolding check_command unless
work-Passed ctx t c cs Work.movej a r = record {
  quiet = check_movej_complete ctx c a;
  next = unfold check_movej in r;
}
work-Passed ctx t c cs Work.delay a r = record { quiet = refl; next = r }
work-Passed ctx t c cs Work.set_do a r = record {
  quiet = check_signal_complete ctx c _ _ _ a;
  next = r;
}
work-Passed ctx t c cs Work.wait_di a r = record {
  quiet = check_signal_complete ctx c _ _ _ a;
  next = r;
}
work-Passed ctx t c cs Work.set_tool a r = record { quiet = check_tool_complete ctx c a; next = r }

stop-Passed :
    (ctx : Context) (s : ValidatorServoState) (c : Command) (cs : List Command)
    → s ≢ ValidatorServoState.stopped
    → Runs ValidatorServoState.stopped cs
    → Passed ctx s CommandType.stop c cs
unfolding check_command
stop-Passed ctx ValidatorServoState.servo_off c cs n r = record { quiet = refl; next = r }
stop-Passed ctx ValidatorServoState.ready c cs n r = record { quiet = refl; next = r }
stop-Passed ctx ValidatorServoState.stopped c cs n r = absurd (n refl)

Passed-at :
    (ctx : Context) (s : ValidatorServoState) (t : CommandType) (c : Command) (cs : List Command)
    → c.type ≡ t
    → Passed ctx s t c cs
    → Passed ctx s c.type c cs
Passed-at ctx s t c cs e p = subst (λ u. Passed ctx s u c cs) (sym e) p

Runs-Passed :
    (ctx : Context) (s : ValidatorServoState) (c : Command) (cs : List Command)
    → ArgumentsOk ctx c.type c
    → Runs s (c ∷ cs)
    → Passed ctx s c.type c cs
Runs-Passed ctx s c cs a (turn_on e r) =
    Passed-at ctx s _ c cs e (unfold check_command in record { quiet = refl; next = r })
Runs-Passed ctx s c cs a (turn_off e r) =
    Passed-at ctx s _ c cs e (unfold check_command in record { quiet = refl; next = r })
Runs-Passed ctx s c cs a (work w r) = work-Passed ctx c.type c cs w a r
Runs-Passed ctx s c cs a (stop n e r) = Passed-at ctx s _ c cs e (stop-Passed ctx s c cs n r)

stopped_last :
    (s : ValidatorServoState) (c : Command) (cs : List Command)
    → Runs s (c ∷ cs)
    → s ≢ ValidatorServoState.stopped
stopped_last s c cs (turn_on e r) h = ground arith
stopped_last s c cs (turn_off e r) h = ground arith
stopped_last s c cs (work w r) h = ground arith
stopped_last s c cs (stop n e r) h = n h

next_open :
    (ctx : Context) (s : ValidatorServoState) (c : Command)
    → s ≢ ValidatorServoState.stopped
    → check_next ctx s c ≡ check_command ctx s c.type c
unfolding check_next
next_open ctx ValidatorServoState.servo_off c n = refl
next_open ctx ValidatorServoState.ready c n = refl
next_open ctx ValidatorServoState.stopped c n = absurd (n refl)

next_sound :
    (ctx : Context) (s : ValidatorServoState) (c : Command)
    → (check_next ctx s c).diagnostics ≡ []
    → s ≢ ValidatorServoState.stopped
unfolding check_next bad_state diagnostic
next_sound ctx s c h k = ground arith

must_stop_sound : (ctx : Context) (s : ValidatorServoState) → must_stop ctx s ≡ [] → Runs s []
unfolding must_stop diagnostic
must_stop_sound ctx ValidatorServoState.stopped h = done
must_stop_sound ctx ValidatorServoState.ready h = ground arith
must_stop_sound ctx ValidatorServoState.servo_off h = ground arith

must_stop_complete : (ctx : Context) (s : ValidatorServoState) → Runs s [] → must_stop ctx s ≡ []
unfolding must_stop
must_stop_complete ctx s done = refl

empty_stopped : (s : ValidatorServoState) → Runs s [] → s ≡ ValidatorServoState.stopped
empty_stopped s done = refl

commands_sound :
    (ctx : Context) (s : ValidatorServoState) (cs : List Command)
    → (check_commands ctx s cs).1 ≡ []
    → Runs s cs × AllOk ctx cs
unfolding check_commands
commands_sound ctx s [] h = (must_stop_sound ctx s h, tt)
commands_sound ctx s (c ∷ cs) h =
    let p = append_nil (check_next ctx s c).diagnostics _ h in
    let n = next_sound ctx s c p.0 in
    let e = next_open ctx s c n in
    let rest = commands_sound ctx (check_next ctx s c).state cs p.1 in
    let k = check_command_sound ctx s c.type c n (sym (ap (λ x. x.diagnostics) e) ∙ p.0) in
    (k.follows cs refl (subst (λ x. Runs x.state cs) e rest.0), (k.arguments, rest.1))

commands_complete :
    (ctx : Context) (s : ValidatorServoState) (cs : List Command)
    → Runs s cs
    → AllOk ctx cs
    → (check_commands ctx s cs).1 ≡ []
unfolding check_commands
commands_complete ctx s [] r a = must_stop_complete ctx s r
commands_complete ctx s (c ∷ cs) r a =
    let e = next_open ctx s c (stopped_last s c cs r) in
    let p = Runs-Passed ctx s c cs a.0 r in
    rw (e, p.quiet) (commands_complete ctx (check_command ctx s c.type c).state cs p.next a.1)

-- The validation reports nothing exactly on the programs of the specification: those that run from a
-- servo that is off to a STOP that is their last command, every command that needs the servo between
-- a SERVO_ON and the next SERVO_OFF, and every argument in order.
pub validate_program_iff :
    (ctx : Context) (cs : List Command)
    → ((validate_program ctx cs).diagnostics ≡ [])
      ↔ (Runs ValidatorServoState.servo_off cs × AllOk ctx cs)
unfolding validate_program diagnostic
validate_program_iff ctx [] = (
  λ h.
      let d : (◌≡◌ {A = List Diagnostic}
          (record {
            code = DiagnosticCode.task_syntax;
            source = ctx.source;
            line = 0;
            column = 1;
            path = "";
            message = "program does not contain any commands";
          }
            ∷ [])
          []) =
        h in
      ground arith,
  λ p. let d = empty_stopped ValidatorServoState.servo_off p.0 in ground arith,
)
validate_program_iff ctx (c ∷ cs) = (
  λ h. commands_sound ctx ValidatorServoState.servo_off (c ∷ cs) h,
  λ p. commands_complete ctx ValidatorServoState.servo_off (c ∷ cs) p.0 p.1,
)
