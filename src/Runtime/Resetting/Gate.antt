-- ===== src/Runtime/Resetting/Gate.antt =====
-- About ResetSession (runtime.cpp).
use roborun.Prelude.{
  ◌≡◌, ◌≢◌, ◌⊎◌, inl, inr, refl, All, map, [], ◌∷◌, Bool-cases, true, false, none, arith, ok, after,
  List,
}
use roborun.Types.{LifecycleState, Alarm, ExecutionOutcome}
use roborun.EventQueue.{RuntimeEvent, clear}
use roborun.Runtime.State.{Session}
use roborun.Runtime.Records.{append_control_trace, push_trace, synchronize_result_state}
use roborun.Runtime.Resetting.{
  reset_session, reset_allowed, primary_recoverable, reset_rejected, cleared,
}

-- What a RESET asks of a session: an emergency stop, or a fault whose primary alarm is recoverable;
-- nothing active, no stop pending, the servo off, the session trusted, and of a workcell that its
-- safe state was requested and confirmed.
pub record MayReset (s : Session) : Type 0 where
  pub ended :
      (s.lifecycle_state ≡ LifecycleState.emergency_stopped)
      ⊎ (s.lifecycle_state ≡ LifecycleState.faulted) × (primary_recoverable s ≡ true)
  pub idle : s.active_command ≡ none
  pub quiet : s.stop_episode ≡ none
  pub servo : s.servo_disabled ≡ true
  pub trusted : s.session_untrusted ≡ false
  pub safe :
      (s.setup.has_workcell ≡ false)
      ⊎ (s.workcell_safe_requested ≡ true)
        × (s.workcell_safe_confirmed ≡ true)
        × (s.workcell_safe_generation ≢ none)

reset_allowed→MayReset : (s : Session) → reset_allowed s ≡ true → MayReset s
unfolding reset_allowed
reset_allowed→MayReset s h = grind arith

pub MayReset→reset_allowed : (s : Session) → MayReset s → reset_allowed s ≡ true
unfolding reset_allowed
MayReset→reset_allowed s m = go m.ended m.idle m.quiet m.servo m.trusted m.safe
  where
    go :
        (s.lifecycle_state ≡ LifecycleState.emergency_stopped)
          ⊎ (s.lifecycle_state ≡ LifecycleState.faulted) × (primary_recoverable s ≡ true)
        → s.active_command ≡ none
        → s.stop_episode ≡ none
        → s.servo_disabled ≡ true
        → s.session_untrusted ≡ false
        → (s.setup.has_workcell ≡ false)
          ⊎ (s.workcell_safe_requested ≡ true)
            × (s.workcell_safe_confirmed ≡ true)
            × (s.workcell_safe_generation ≢ none)
        → reset_allowed s ≡ true
    go a b c d e f = grind arith

-- A session that is ready for a program, as after its construction.
pub record Fresh (s : Session) : Type 0 where
  pub lifecycle : s.lifecycle_state ≡ LifecycleState.idle
  pub reported : s.result.lifecycle_state ≡ LifecycleState.idle
  pub open_ : s.task_terminal ≡ false
  pub empty_queue : s.events.events ≡ []
  pub no_program : s.program.commands ≡ []
  pub alarms_off : All (λ a. a.active ≡ false) s.alarm_history
  pub no_primary : s.result.primary_alarm_index ≡ none
  pub no_outcome : s.result.outcome ≡ ExecutionOutcome.no_outcome

inactive :
    (as' : List Alarm)
    → All (λ a. a.active ≡ false) (map (λ (a : Alarm). record a { active = false }) as')
inactive [] = tt
inactive (a ∷ as') = (refl, inactive as')

cleared-Fresh : (e : RuntimeEvent) (l : LifecycleState) (s : Session) → Fresh (cleared e l s)
unfolding cleared append_control_trace push_trace synchronize_result_state clear
cleared-Fresh e l s = record {
  lifecycle = refl;
  reported = refl;
  open_ = refl;
  empty_queue = refl;
  no_program = refl;
  alarms_off = inactive s.alarm_history;
  no_primary = refl;
  no_outcome = refl;
}

cleared-calls :
    (e : RuntimeEvent) (l : LifecycleState) (s : Session) → (cleared e l s).calls ≡ s.calls
unfolding cleared append_control_trace push_trace synchronize_result_state
cleared-calls e l s = refl

-- A RESET of a session with no workcell: where the session may be reset, it is fresh afterwards, and no
-- device is called; where it may not, the session is
-- changed by nothing but the trace entry of the refusal.
pub reset_decides :
    (e : RuntimeEvent) (s : Session)
    → s.setup.has_workcell ≡ false
    → (MayReset s
        × Fresh (after (reset_session e s))
        × ((after (reset_session e s)).calls ≡ s.calls))
      ⊎ (¬ MayReset s)
        × (reset_session e s ≡ ok tt (reset_rejected e "reset_recovery_conditions_not_met" s))
unfolding reset_session
reset_decides e s h = elim (Bool-cases (reset_allowed s)) [
  | inl y ↦
      inl (
        reset_allowed→MayReset s y,
        rw (y, h) (cleared-Fresh e _ _),
        rw (y, h) (cleared-calls e _ _),
      )
  | inr n ↦ inr (λ m. let y = MayReset→reset_allowed s m in ground arith, rw n refl)
]

-- With or without a workcell, a RESET brings a session that is not idle to idle only from a state
-- that may be reset.
pub reset_sound :
    (e : RuntimeEvent) (s : Session)
    → s.lifecycle_state ≢ LifecycleState.idle
    → (after (reset_session e s)).lifecycle_state ≡ LifecycleState.idle
    → MayReset s
unfolding reset_session reset_rejected append_control_trace push_trace
reset_sound e s k h = elim (Bool-cases (reset_allowed s)) [
  | inl y ↦ reset_allowed→MayReset s y
  | inr n ↦ absurd (k (refused n h))
]
  where
    refused :
        reset_allowed s ≡ false
        → (after (reset_session e s)).lifecycle_state ≡ LifecycleState.idle
        → s.lifecycle_state ≡ LifecycleState.idle
    refused n = rw n (λ p. p)
