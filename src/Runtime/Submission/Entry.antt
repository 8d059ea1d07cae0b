-- ===== src/Runtime/Submission/Entry.antt =====
-- About SubmitProgram (runtime.cpp), where it accepts a program.
use roborun.Prelude.{
  ◌≡◌, refl, Bool, true, false, not, List, [], ◌∷◌, ◌++◌, Option, none, some, arith, ok, after,
  has_value, Outcome, threw, String, ◌∙◌, ◌>>=◌, ◌>>◌, if◌then◌else◌, subst,
}
use roborun.Types.{
  LifecycleState, ProgramSubmissionStatus, ValidatorServoState, Program, Diagnostic, BusinessTime,
  ControlType, ScenarioEvent, ScenarioControl, MockScenario,
}
use roborun.Validator.{Doubles, validate_program}
use roborun.Runtime.State.{Session, M, begin_program}
use roborun.Runtime.Records.{synchronize_result_state}
use roborun.Runtime.Scenario.{validate_scenario}
use roborun.Validator.Spec.{Runs, AllOk}
use roborun.Validator.Verdict.{validate_program_iff}
use roborun.Runtime.Scheduling.{scheduled, schedule_event}
use roborun.Runtime.Advance.{submit_control_at, schedule_control_event, controlled}
use roborun.EventQueue.{EventQueue, EventScheduleRequest, schedule}
use roborun.Runtime.Submission.{
  submit_program, open_for_program, program_diagnostics, start_program, schedule_scenario_events,
  schedule_scenario_controls, schedule_scenario, event_request, context_of, begin_on_backend,
  prepare_result, copy_workcell_state, ProgramSubmission, rejects, no_diagnostics,
  catalog_diagnostics,
}

-- What the scheduling of a scenario leaves alone.
record Kept (s t : Session) : Type 0 where
  calls : t.calls ≡ s.calls
  lifecycle : t.lifecycle_state ≡ s.lifecycle_state
  active : t.active_command ≡ s.active_command
  episode : t.stop_episode ≡ s.stop_episode
  program : t.program ≡ s.program
  connected : t.connected ≡ s.connected
  index : t.next_command_index ≡ s.next_command_index

Kept-refl : (s : Session) → Kept s s
Kept-refl s = record {
  calls = refl;
  lifecycle = refl;
  active = refl;
  episode = refl;
  program = refl;
  connected = refl;
  index = refl;
}

Kept-trans : {s t u : Session} → Kept s t → Kept t u → Kept s u
Kept-trans p q = record {
  calls = q.calls ∙ p.calls;
  lifecycle = q.lifecycle ∙ p.lifecycle;
  active = q.active ∙ p.active;
  episode = q.episode ∙ p.episode;
  program = q.program ∙ p.program;
  connected = q.connected ∙ p.connected;
  index = q.index ∙ p.index;
}

scheduled-Kept : (s : Session) (o : Outcome EventQueue (Unit {0})) → Kept s (after (scheduled s o))
unfolding scheduled
scheduled-Kept s (ok _ q) = Kept-trans (Kept-refl s) (record {
  calls = refl;
  lifecycle = refl;
  active = refl;
  episode = refl;
  program = refl;
  connected = refl;
  index = refl;
})
scheduled-Kept s (threw e q) = record {
  calls = refl;
  lifecycle = refl;
  active = refl;
  episode = refl;
  program = refl;
  connected = refl;
  index = refl;
}

schedule_event-Kept : (r : EventScheduleRequest) (s : Session) → Kept s (after (schedule_event r s))
unfolding schedule_event
schedule_event-Kept r s = scheduled-Kept s (schedule r s.events)

submit_control_at-Kept :
    (t : BusinessTime) (c : ControlType) (n : String) (s : Session)
    → Kept s (after (submit_control_at t c n s))
unfolding submit_control_at schedule_control_event controlled
submit_control_at-Kept t c n s = ground arith

Kept-bind :
    {A B : Type 0} (m : M A) (f : A → M B) (s : Session)
    → Kept s (after (m s))
    → ((a : A) (t : Session) → Kept t (after (f a t)))
    → Kept s (after ((m >>= f) s))
Kept-bind {A} m f s p q = go (m s) p
  where
    go :
        (r : Outcome Session A) → Kept s (after r) → Kept s (after (((λ (t : Session). r) >>= f) s))
    go (ok a t) p = Kept-trans p (q a t)
    go (threw e t) p = p

events-Kept :
    (es : List ScenarioEvent) (s : Session) → Kept s (after (schedule_scenario_events es s))
unfolding schedule_scenario_events
events-Kept [] s = Kept-refl s
events-Kept (e ∷ es) s =
    Kept-bind (schedule_event (event_request e)) _ s (schedule_event-Kept (event_request e) s)
      (λ _ t. events-Kept es t)

controls-Kept :
    (cs : List ScenarioControl) (s : Session) → Kept s (after (schedule_scenario_controls cs s))
unfolding schedule_scenario_controls
controls-Kept [] s = Kept-refl s
controls-Kept (c ∷ cs) s =
    Kept-bind (submit_control_at c.time_ms c.type c.source) _ s
      (submit_control_at-Kept c.time_ms c.type c.source s) (λ _ t. controls-Kept cs t)

scenario-Kept : (x : Option MockScenario) (s : Session) → Kept s (after (schedule_scenario x s))
unfolding schedule_scenario
scenario-Kept none s = Kept-refl s
scenario-Kept (some x) s =
    Kept-bind (schedule_scenario_events x.events) _ s (events-Kept x.events s)
      (λ _ t. controls-Kept x.controls t)

-- A session in which a program has been started: it conforms to the specification of programs, it
-- runs from its first command, and no device has been operated for it.
pub record Started (f : Doubles) (p : Program) (s t : Session) : Type 0 where
  pub path : Runs ValidatorServoState.servo_off p.commands
  pub arguments : AllOk (context_of f p s) p.commands
  pub program : t.program ≡ (validate_program (context_of f p s) p.commands).program
  pub calls : t.calls ≡ begin_program ∷ s.calls
  pub lifecycle : t.lifecycle_state ≡ LifecycleState.running
  pub index : t.next_command_index ≡ 0
  pub idle : t.active_command ≡ none
  pub quiet : t.stop_episode ≡ none
  pub connected : t.connected ≡ false

-- The same of the session that the scenario is scheduled in.
record Ready (q : Program) (s t : Session) : Type 0 where
  program : t.program ≡ q
  calls : t.calls ≡ begin_program ∷ s.calls
  lifecycle : t.lifecycle_state ≡ LifecycleState.running
  index : t.next_command_index ≡ 0
  idle : t.active_command ≡ none
  quiet : t.stop_episode ≡ none
  connected : t.connected ≡ false

Ready-Kept : {q : Program} {s t u : Session} → Ready q s t → Kept t u → Ready q s u
Ready-Kept r k = record {
  program = k.program ∙ r.program;
  calls = k.calls ∙ r.calls;
  lifecycle = k.lifecycle ∙ r.lifecycle;
  index = k.index ∙ r.index;
  idle = k.active ∙ r.idle;
  quiet = k.episode ∙ r.quiet;
  connected = k.connected ∙ r.connected;
}

prepared-Ready : (q : Program) (s : Session) → Ready q s (begin_on_backend (prepare_result q s))
unfolding begin_on_backend prepare_result copy_workcell_state synchronize_result_state
prepared-Ready q s = record {
  program = refl;
  calls = refl;
  lifecycle = refl;
  index = refl;
  idle = refl;
  quiet = refl;
  connected = refl;
}

-- What holds of the session behind an accepted submission.
abbrev Accepting : (Session → Type 0) → Outcome Session ProgramSubmission → Type 0
Accepting P (ok r t) = r.status ≡ ProgramSubmissionStatus.accepted → P t
Accepting P (threw e t) = Unit

Accepting-if :
    (P : Session → Type 0) (b : Bool) (o n : Outcome Session ProgramSubmission)
    → (b ≡ true → Accepting P o)
    → Accepting P n
    → Accepting P (if b then o else n)
Accepting-if P true o n h k = h refl
Accepting-if P false o n h k = k

rejects-Accepting :
    (P : Session → Type 0) (m : String) (t : Session) → Accepting P (ok (rejects m) t)
unfolding rejects
rejects-Accepting P m t h = ground arith

scheduled-Accepting :
    (q : Program) (s : Session) (r : ProgramSubmission) (x : Option MockScenario) (t : Session)
    → Ready q s t
    → Accepting (Ready q s) ((schedule_scenario x >> (λ u. ok r u)) t)
scheduled-Accepting q s r x t y = go (schedule_scenario x t) (scenario-Kept x t)
  where
    go :
        (o : Outcome Session (Unit {0}))
        → Kept t (after o)
        → Accepting (Ready q s) (((λ (_ : Session). o) >> (λ u. ok r u)) t)
    go (ok _ u) k = λ h. Ready-Kept y k
    go (threw e u) k = tt

start_program-Accepting : (q : Program) (s : Session) → Accepting (Ready q s) (start_program q s)
unfolding start_program
start_program-Accepting q s =
    Accepting-if (Ready q s) (validate_scenario (prepare_result q s)).0 _ _
      (λ _. scheduled-Accepting q s _ s.setup.scenario _ (prepared-Ready q s))
      (rejects-Accepting (Ready q s) _ _)

no_diagnostics_nil : (ds es : List Diagnostic) → no_diagnostics (ds ++ es) ≡ true → ds ≡ []
unfolding no_diagnostics
no_diagnostics_nil [] es h = refl
no_diagnostics_nil (d ∷ ds) es h = ground arith

Accepting-map :
    (P Q : Session → Type 0) (o : Outcome Session ProgramSubmission)
    → ((t : Session) → P t → Q t)
    → Accepting P o
    → Accepting Q o
Accepting-map P Q (ok r t) f h = λ k. f t (h k)
Accepting-map P Q (threw e t) f h = tt

Ready-Started :
    (f : Doubles) (p : Program) (s t : Session)
    → no_diagnostics (program_diagnostics f p s) ≡ true
    → Ready (validate_program (context_of f p s) p.commands).program s t
    → Started f p s t
unfolding program_diagnostics
Ready-Started f p s t n r =
    let v =
      (validate_program_iff (context_of f p s) p.commands).0
        (no_diagnostics_nil _ (catalog_diagnostics f s) n) in
    record {
      path = v.0;
      arguments = v.1;
      program = r.program;
      calls = r.calls;
      lifecycle = r.lifecycle;
      index = r.index;
      idle = r.idle;
      quiet = r.quiet;
      connected = r.connected;
    }

submit_program-Accepting :
    (f : Doubles) (p : Program) (s : Session) → Accepting (Started f p s) (submit_program f p s)
unfolding submit_program
submit_program-Accepting f p s =
    Accepting-if P (not (open_for_program s)) _ _ (λ _. rejects-Accepting P _ s)
      (Accepting-if P (not s.setup.has_backend) _ _ (λ _. rejects-Accepting P _ s)
        (Accepting-if P (not (has_value s.clock)) _ _ (λ _. rejects-Accepting P _ s)
          (Accepting-if P (no_diagnostics (program_diagnostics f p s)) _ _
            (λ n.
              Accepting-map (Ready q s) P _ (λ t r. Ready-Started f p s t n r)
                (start_program-Accepting q s))
            (rejects-Accepting P _ _))))
  where
    P : Session → Type 0
    P = Started f p s

    q : Program
    q = (validate_program (context_of f p s) p.commands).program

-- Where a submission is accepted, the program conforms to the specification of programs in the
-- session's configurations, and the session runs it from its first command, in the form that the
-- validation gave it; no device has been operated, and nothing is active.
pub submission_accepted :
    (f : Doubles) (p : Program) (s t : Session) (r : ProgramSubmission)
    → submit_program f p s ≡ ok r t
    → r.status ≡ ProgramSubmissionStatus.accepted
    → Started f p s t
submission_accepted f p s t r h =
    subst (Accepting (Started f p s)) h (submit_program-Accepting f p s)
