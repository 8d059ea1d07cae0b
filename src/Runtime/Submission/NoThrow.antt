-- ===== src/Runtime/Submission/NoThrow.antt =====
-- About SubmitProgram and ValidateScenario (runtime.cpp): the times that the queue would refuse.
use roborun.Prelude.{
  pos, ◌≡◌, refl, Bool, true, false, not, ◌||◌, List, [], ◌∷◌, Option, none, some, arith, Outcome,
  ok, threw, ◌>>=◌, ltbℤ, All, if◌then◌else◌, has_value, subst, String,
}
use roborun.Types.{BusinessTime, ControlType, Program, ScenarioEvent, ScenarioControl, MockScenario}
use roborun.EventQueue.{EventScheduleRequest, schedule, schedule_control}
use roborun.Validator.{Doubles}
use roborun.Runtime.State.{Session, M}
use roborun.Runtime.Records.{synchronize_result_state}
use roborun.Runtime.Scheduling.{scheduled, schedule_event}
use roborun.Runtime.Advance.{submit_control_at, schedule_control_event, controlled}
use roborun.Runtime.Scenario.{
  Report, passed, both, expect, check_events, check_event_target, check_controls, check_scenario,
  validate_scenario,
}
use roborun.Runtime.Submission.{
  event_request, schedule_scenario_events, schedule_scenario_controls, schedule_scenario,
  open_for_program, no_diagnostics, program_diagnostics, start_program, submit_program,
  prepare_result, copy_workcell_state,
}

abbrev pub Returns : {A : Type 0} → Outcome Session A → Type 0
Returns (ok a s) = Unit
Returns (threw e s) = ⊥

Returns-bind :
    {A B : Type 0} (m : M A) (f : A → M B) (s : Session)
    → Returns (m s)
    → ((a : A) (t : Session) → Returns (f a t))
    → Returns ((m >>= f) s)
Returns-bind {A} m f s p q = go (m s) p
  where
    go : (r : Outcome Session A) → Returns r → Returns (((λ (t : Session). r) >>= f) s)
    go (ok a t) p = q a t
    go (threw e t) p = absurd p

Returns-if :
    {A : Type 0} (b : Bool) (m n : Outcome Session A)
    → (b ≡ true → Returns m)
    → Returns n
    → Returns (if b then m else n)
Returns-if true m n p q = p refl
Returns-if false m n p q = q

-- A time that the queue takes.
abbrev Timely : BusinessTime → Type 0
Timely t = ltbℤ t (pos 0) ≡ false

both-true : (a b : Report) → (both a b).0 ≡ true → (a.0 ≡ true) × (b.0 ≡ true)
unfolding both
both-true (a, ds) (b, es) h = ground arith

expect-true : (b : Bool) (s m : String) → (expect b s m).0 ≡ true → b ≡ true
unfolding expect
expect-true b s m h = ground arith

Timely-after : (p t : BusinessTime) (b : Bool) → Timely p → not (ltbℤ t p || b) ≡ true → Timely t
Timely-after p t b h k = ground arith

Timely-second :
    (p t : BusinessTime) (a b : Bool) → Timely p → not (a || ltbℤ t p || b) ≡ true → Timely t
Timely-second p t a b h k = ground arith

events-Timely :
    (p : BusinessTime) (es : List ScenarioEvent) (s : Session)
    → Timely p
    → (check_events p es s).0 ≡ true
    → All (λ e. Timely e.time_ms) es
unfolding check_events
events-Timely p [] s h k = tt
events-Timely p (e ∷ es) s h k =
    let x = both-true _ (check_events e.time_ms es s) k in
    let y = both-true _ (check_event_target e s) x.0 in
    let t = Timely-after p e.time_ms _ h (expect-true _ _ _ y.0) in
    (t, events-Timely e.time_ms es s t x.1)

controls-Timely :
    (source : String) (b : Bool) (p : BusinessTime) (cs : List ScenarioControl)
    → Timely p
    → (check_controls source b p cs).0 ≡ true
    → All (λ c. Timely c.time_ms) cs
unfolding check_controls
controls-Timely source b p [] h k = tt
controls-Timely source b p (c ∷ cs) h k =
    let x = both-true _ (check_controls source b c.time_ms cs) k in
    let t = Timely-second p c.time_ms _ _ h (expect-true _ _ _ x.0) in
    (t, controls-Timely source b c.time_ms cs t x.1)

schedule_event-Returns :
    (r : EventScheduleRequest) (s : Session) → Timely r.time → Returns (schedule_event r s)
unfolding schedule_event scheduled schedule
schedule_event-Returns r s h = rw h tt

event_request_time : (e : ScenarioEvent) → (event_request e).time ≡ e.time_ms
unfolding event_request
event_request_time e = ground arith

submit_control_at-Returns :
    (t : BusinessTime) (c : ControlType) (n : String) (s : Session)
    → Timely t
    → Returns (submit_control_at t c n s)
unfolding submit_control_at schedule_control_event controlled schedule_control
submit_control_at-Returns t c n s h = grind (arith, h)

events-Returns :
    (es : List ScenarioEvent) (s : Session)
    → All (λ e. Timely e.time_ms) es
    → Returns (schedule_scenario_events es s)
unfolding schedule_scenario_events
events-Returns [] s h = tt
events-Returns (e ∷ es) s h =
    Returns-bind (schedule_event (event_request e)) _ s
      (schedule_event-Returns (event_request e) s (rw (event_request_time e) h.0))
      (λ _ t. events-Returns es t h.1)

controls-Returns :
    (cs : List ScenarioControl) (s : Session)
    → All (λ c. Timely c.time_ms) cs
    → Returns (schedule_scenario_controls cs s)
unfolding schedule_scenario_controls
controls-Returns [] s h = tt
controls-Returns (c ∷ cs) s h =
    Returns-bind (submit_control_at c.time_ms c.type c.source) _ s
      (submit_control_at-Returns c.time_ms c.type c.source s h.0) (λ _ t. controls-Returns cs t h.1)

scenario-Timely :
    (x : MockScenario) (s : Session)
    → (check_scenario x s).0 ≡ true
    → All (λ (e : ScenarioEvent). Timely e.time_ms) x.events
      × All (λ (c : ScenarioControl). Timely c.time_ms) x.controls
unfolding check_scenario
scenario-Timely x s h =
    let a = both-true _ _ h in
    let b = both-true _ _ a.1 in
    let c = both-true _ _ b.1 in
    let d = both-true _ _ c.1 in
    (events-Timely (pos 0) x.events s refl c.0, controls-Timely _ _ (pos 0) x.controls refl d.0)

schedule_scenario-Returns :
    (x : Option MockScenario) (s t : Session)
    → (◌≡◌ {A = Bool}
        (elim x as (λ _. Report) [ none ↦ passed | some y ↦ check_scenario y s ]).0
        true)
    → Returns (schedule_scenario x t)
unfolding schedule_scenario
schedule_scenario-Returns none s t h = tt
schedule_scenario-Returns (some x) s t h =
    let a = scenario-Timely x s h in
    Returns-bind (schedule_scenario_events x.events) _ t (events-Returns x.events t a.0)
      (λ _ u. controls-Returns x.controls u a.1)

prepared_scenario :
    (p : Program) (s : Session) → (prepare_result p s).setup.scenario ≡ s.setup.scenario
unfolding prepare_result copy_workcell_state synchronize_result_state
prepared_scenario p s = refl

start_program-Returns : (p : Program) (s : Session) → Returns (start_program p s)
unfolding start_program validate_scenario
start_program-Returns p s =
    Returns-if (validate_scenario (prepare_result p s)).0 _ _
      (λ h.
        Returns-bind (schedule_scenario s.setup.scenario) _ _
          (schedule_scenario-Returns s.setup.scenario (prepare_result p s) _ (
            subst
              (λ x.
                (elim x as (λ _. Report) [
                  | none ↦ passed
                  | some y ↦ check_scenario y (prepare_result p s)
                ]).0
                ≡ true)
              (prepared_scenario p s) h))
          (λ _ t. tt))
      tt

-- The submission of a program returns, whatever the program, the configurations and the scenario
-- are: no exception of the event queue leaves it.
pub submit_program-Returns :
    (f : Doubles) (p : Program) (s : Session) → Returns (submit_program f p s)
unfolding submit_program
submit_program-Returns f p s =
    Returns-if (not (open_for_program s)) _ _ (λ _. tt)
      (Returns-if (not s.setup.has_backend) _ _ (λ _. tt)
        (Returns-if (not (has_value s.clock)) _ _ (λ _. tt)
          (Returns-if (no_diagnostics (program_diagnostics f p s)) _ _
            (λ _. start_program-Returns _ s) tt)))
