-- ===== src/Runtime/Execution/Rejection.antt =====
-- About one-shot execution (runtime.cpp) of a program that is not accepted.
use roborun.Prelude.{
  ℕ, suc, true, false, some, [], Outcome, ok, threw, ◌>>=◌, ◌≡◌, refl, has_value, ap, ◌∙◌, zero,
  arith,
}
use roborun.Types.{ExecutionOutcome, Program}
use roborun.Validator.{Doubles}
use roborun.Runtime.State.{Setup, Session, M, default_options}
use roborun.Runtime.Records.{synchronize_result_state}
use roborun.Runtime.Submission.{
  copy_workcell_state, prepare_result, faulted_submission, program_diagnostics, no_diagnostics,
  open_for_program, rejects, submit_program,
}
use roborun.Runtime.Execution.{
  initial_session, new_session, start, run_steps, guarded_result, virtual_clock, execute,
}

-- The session that Execute submits the program to.
abbrev pub fresh : Setup → Session
fresh setup = new_session (record setup { options = default_options }) (some virtual_clock)

fresh-open : (setup : Setup) → open_for_program (fresh setup) ≡ true
unfolding open_for_program new_session initial_session copy_workcell_state synchronize_result_state
fresh-open setup = refl

fresh-setup : (setup : Setup) → (fresh setup).setup ≡ record setup { options = default_options }
unfolding new_session initial_session copy_workcell_state synchronize_result_state
fresh-setup setup = refl

fresh-clock : (setup : Setup) → has_value (fresh setup).clock ≡ true
unfolding new_session initial_session copy_workcell_state synchronize_result_state
fresh-clock setup = refl

bind_ok :
    {A : Type 0} {B : Type 0} (m : M A) (f : A → M B) (s t : Session) (a : A)
    → m s ≡ ok a t
    → (m >>= f) s ≡ f a t
bind_ok {B = B} m f s t a h =
    ap (λ o. elim o as (λ _. Outcome Session B) [ ok a' s' ↦ f a' s' | threw e s' ↦ threw e s' ]) h

refused_submission :
    (doubles : Doubles) (program : Program) (s : Session)
    → open_for_program s ≡ true
    → s.setup.has_backend ≡ true
    → has_value s.clock ≡ true
    → no_diagnostics (program_diagnostics doubles program s) ≡ false
    → submit_program doubles program s
      ≡ ok
          (rejects "Program validation failed")
          (faulted_submission (program_diagnostics doubles program s) (prepare_result program s))
unfolding submit_program
refused_submission doubles program s o b c d = grind arith

-- What Execute reports of a program that validation refuses.
abbrev refused_session : Doubles → Setup → Program → Session
refused_session doubles setup program =
    faulted_submission (program_diagnostics doubles program (fresh setup))
      (prepare_result program (fresh setup))

start_refused :
    (doubles : Doubles) (setup : Setup) (program : Program)
    → setup.has_backend ≡ true
    → no_diagnostics (program_diagnostics doubles program (fresh setup)) ≡ false
    → start doubles setup (some virtual_clock) program
      ≡ ok tt (refused_session doubles setup program)
unfolding start
start_refused doubles setup program b d =
    bind_ok (submit_program doubles program) (λ _. ok tt) (fresh setup) _ _
      (refused_submission doubles program (fresh setup) (fresh-open setup)
        (ap (λ (c : Setup). c.has_backend) (fresh-setup setup) ∙ b) (fresh-clock setup) d)

refused_session-terminal :
    (doubles : Doubles) (setup : Setup) (program : Program)
    → (refused_session doubles setup program).task_terminal ≡ true
unfolding faulted_submission synchronize_result_state
refused_session-terminal doubles setup program = refl

run_steps_terminal :
    (rounds : ℕ) (s : Session) → s.task_terminal ≡ true → run_steps rounds s ≡ ok tt s
unfolding run_steps
run_steps_terminal zero s h = refl
run_steps_terminal (suc rounds) s h = rw h refl

guarded_result_terminal :
    (fuel : ℕ) (s : Session) → s.task_terminal ≡ true → guarded_result fuel s ≡ ok (some s.result) s
unfolding guarded_result
guarded_result_terminal fuel s h = rw h refl

started :
    (fuel : ℕ) (doubles : Doubles) (setup : Setup) (program : Program) (s : Session)
    → start doubles setup (some virtual_clock) program ≡ ok tt s
    → execute fuel doubles setup program ≡ (run_steps 100000 >>= λ _. guarded_result fuel) s
unfolding execute
started fuel doubles setup program s h = rw (h, execute) refl

execute_terminal :
    (fuel : ℕ) (doubles : Doubles) (setup : Setup) (program : Program) (s : Session)
    → start doubles setup (some virtual_clock) program ≡ ok tt s
    → s.task_terminal ≡ true
    → execute fuel doubles setup program ≡ ok (some s.result) s
execute_terminal fuel doubles setup program s h t =
    started fuel doubles setup program s h
    ∙ bind_ok (run_steps 100000) (λ _. guarded_result fuel) s s tt (run_steps_terminal 100000 s t)
    ∙ guarded_result_terminal fuel s t

reported_lem :
    (doubles : Doubles) (setup : Setup) (program : Program)
    → let s = refused_session doubles setup program in
      (s.calls ≡ [])
      × (s.result.diagnostics ≡ program_diagnostics doubles program (fresh setup))
      × (s.result.outcome ≡ ExecutionOutcome.faulted)
      × (s.result.succeeded ≡ false)
unfolding faulted_submission prepare_result synchronize_result_state copy_workcell_state new_session
    initial_session
reported_lem doubles setup program = (refl, refl, refl, refl)

-- Execute of a program that validation refuses returns at once with a faulted result that carries
-- all the diagnostics of validation, with or without fuel for the guard, and calls no device.
pub execute_refused :
    (fuel : ℕ) (doubles : Doubles) (setup : Setup) (program : Program)
    → setup.has_backend ≡ true
    → no_diagnostics (program_diagnostics doubles program (fresh setup)) ≡ false
    → (s : Session) × (execute fuel doubles setup program ≡ ok (some s.result) s)
      × (s.calls ≡ [])
      × (s.result.diagnostics ≡ program_diagnostics doubles program (fresh setup))
      × (s.result.outcome ≡ ExecutionOutcome.faulted)
      × (s.result.succeeded ≡ false)
execute_refused fuel doubles setup program b d =
    let s = refused_session doubles setup program in
    let (calls, diagnostics, outcome, succeeded) = reported_lem doubles setup program in
    (
      s,
      execute_terminal fuel doubles setup program s (start_refused doubles setup program b d)
          (refused_session-terminal doubles setup program),
      calls,
      diagnostics,
      outcome,
      succeeded,
    )
