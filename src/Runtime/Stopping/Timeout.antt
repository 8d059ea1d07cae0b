-- ===== src/Runtime/Stopping/Timeout.antt =====
-- About BeginStop and HandleTimeout (runtime.cpp): the timeout of a stop episode.
use roborun.Prelude.{
  ℕ, pos, ◌≡◌, ◌⊎◌, inl, inr, refl, true, false, List, [], ◌∷◌, Option, none, some, arith, after,
  ok, threw, Outcome, String, ltbℤ, lebℤ, minℤ, maxℤ, value_or, Bool-cases, ◌>>◌, modify, ap, ◌∙◌,
  str_eq, str_eq_iff,
}
use roborun.Types.{
  BusinessTime, DiagnosticCode, LifecycleState, RuntimeEventType, StopReason, StopDisposition,
  StopSubmission, ControlSubmissionStatus, BackendOperationState,
}
use roborun.Clock.{saturating_business_time_add, checked_business_time_add}
use roborun.EventQueue.{
  RuntimeEvent, EventScheduleRequest, EventQueue, later_event_first, push, push_next, event_of,
  schedule,
}
use roborun.Runtime.State.{Session, StopEpisode, M, now}
use roborun.Runtime.Records.{append_control_trace, push_trace, synchronize_result_state}
use roborun.Runtime.Cleanup.{fail_stop}
use roborun.Runtime.Cleanup.Terminal.{Faulted, fail_stop-Faulted}
use roborun.Runtime.Scheduling.{scheduled, schedule_event, plain_request}
use roborun.Runtime.Feedback.{stop_timed_out, handle_timeout}
use roborun.Runtime.Advance.{handle_event}
use roborun.Runtime.Stopping.{
  stop_poll_at, stop_timeout_at, open_episode, stop_accepted, stop_lifecycle, traced_control,
}

-- The timeout of a stop episode, due at a time.
abbrev pub IsStopTimeout : ℕ → BusinessTime → RuntimeEvent → Type 0
IsStopTimeout id time e =
    (e.type ≡ RuntimeEventType.backend_fault)
    × (e.detail ≡ "stop_timeout")
    × (e.stop_episode_id ≡ id)
    × (e.time ≡ time)

abbrev pub Holds : (RuntimeEvent → Type 0) → List RuntimeEvent → Type 0
Holds P [] = ⊥
Holds P (x ∷ xs) = P x ⊎ Holds P xs

push-Holds :
    (P : RuntimeEvent → Type 0) (e : RuntimeEvent) (xs : List RuntimeEvent)
    → P e
    → Holds P (push e xs)
unfolding push
push-Holds P e [] h = inl h
push-Holds P e (x ∷ xs) h = elim (Bool-cases (later_event_first x e)) [
  | inl l ↦ rw l (inl h)
  | inr l ↦ rw l (inr (push-Holds P e xs h))
]

schedule_event_eq :
    (r : EventScheduleRequest) (s : Session)
    → ltbℤ r.time (pos 0) ≡ false
    → schedule_event r s
      ≡ ok tt (record s { events = push_next (event_of r s.events.next_sequence) s.events })
unfolding schedule_event scheduled schedule
schedule_event_eq r s h = rw h refl

saturating_timely : (b d : BusinessTime) → ltbℤ (saturating_business_time_add b d) (pos 0) ≡ false
unfolding saturating_business_time_add checked_business_time_add
saturating_timely b d = ground arith

min_timely :
    (a b : BusinessTime)
    → ltbℤ a (pos 0) ≡ false
    → ltbℤ b (pos 0) ≡ false
    → ltbℤ (minℤ a b) (pos 0) ≡ false
min_timely a b h k = ground arith

then_ok : (m n : M (Unit {0})) (s t : Session) → m s ≡ ok tt t → (m >> n) s ≡ n t
then_ok m n s t h =
    ap
      (λ (o : Outcome Session (Unit {0})). elim o as (λ _. Outcome Session (Unit {0})) [
        | ok a s' ↦ n s'
        | threw e s' ↦ threw e s'
      ])
      h

scheduled_pair :
    (p q : EventScheduleRequest) (s : Session)
    → ltbℤ p.time (pos 0) ≡ false
    → ltbℤ q.time (pos 0) ≡ false
    → (schedule_event p >> (schedule_event q >> modify synchronize_result_state)) s
      ≡ ok tt (
          synchronize_result_state (record s {
            events =
                push_next
                  (event_of q
                    (push_next (event_of p s.events.next_sequence) s.events).next_sequence)
                  (push_next (event_of p s.events.next_sequence) s.events);
          }))
scheduled_pair p q s h k =
    then_ok (schedule_event p) (schedule_event q >> modify synchronize_result_state) s _
      (schedule_event_eq p s h)
    ∙ then_ok (schedule_event q) (modify synchronize_result_state) _ _ (schedule_event_eq q _ k)

-- An open stop episode with its timeout in the queue.
pub record Timed (s : Session) : Type 0 where
  pub episode : StopEpisode
  pub open_ : s.stop_episode ≡ some episode
  pub timeout : Holds (IsStopTimeout episode.id episode.deadline_ms) s.events.events

synchronized-Timed :
    (s : Session) (x : StopEpisode) (q : EventQueue)
    → s.stop_episode ≡ some x
    → Holds (IsStopTimeout x.id x.deadline_ms) q.events
    → Timed (synchronize_result_state (record s { events = q }))
unfolding synchronize_result_state
synchronized-Timed s x q h k = record { episode = x; open_ = h; timeout = k }

timeout_pushed :
    (d : BusinessTime) (id n : ℕ) (q : EventQueue)
    → Holds (IsStopTimeout id d) (push_next (event_of (stop_timeout_at d id) n) q).events
unfolding push_next event_of stop_timeout_at plain_request
timeout_pushed d id n q = push-Holds (IsStopTimeout id d) _ q.events (refl, refl, refl, refl)

traced_episode :
    (c : Option RuntimeEvent) (x : ControlSubmissionStatus) (m : String) (l : LifecycleState)
    (r : StopReason) (s : Session)
    → (traced_control c x m l r s).stop_episode ≡ s.stop_episode
unfolding traced_control append_control_trace push_trace
traced_episode none x m l r s = refl
traced_episode (some e) x m l r s = refl

poll_at_timely :
    (t : BusinessTime) (id : ℕ)
    → ltbℤ t (pos 0) ≡ false
    → ltbℤ (stop_poll_at t id).time (pos 0) ≡ false
unfolding stop_poll_at plain_request
poll_at_timely t id h = h

timeout_at_timely :
    (t : BusinessTime) (id : ℕ)
    → ltbℤ t (pos 0) ≡ false
    → ltbℤ (stop_timeout_at t id).time (pos 0) ≡ false
unfolding stop_timeout_at plain_request
timeout_at_timely t id h = h

-- A stop that the backend accepts leaves its episode open, with the timeout of the episode
-- scheduled for the episode's deadline.
pub stop_accepted-Timed :
    (r : StopReason) (d : StopDisposition) (c : Option RuntimeEvent) (l : LifecycleState)
    (x : StopSubmission) (s : Session)
    → Timed (after (stop_accepted r d c l x s))
unfolding stop_accepted open_episode
stop_accepted-Timed r d c l x s =
    let deadline =
      saturating_business_time_add (now s) s.setup.options.stop_confirmation_timeout_ms in
    let first =
      saturating_business_time_add (now s) (maxℤ (pos 0) (value_or x.poll_after_ms (pos 0))) in
    let base : Session =
      traced_control c ControlSubmissionStatus.accepted "stop_submitted" l r
        (record (open_episode r d deadline c s) {
          backend_operation_state = BackendOperationState.stopping;
          lifecycle_state = stop_lifecycle d;
        }) in
    rw
      (scheduled_pair (stop_poll_at (minℤ deadline first) s.next_stop_episode_id)
        (stop_timeout_at deadline s.next_stop_episode_id) base
        (poll_at_timely _ _
          (min_timely deadline first (saturating_timely _ _) (saturating_timely _ _)))
        (timeout_at_timely deadline s.next_stop_episode_id (saturating_timely _ _)))
      (synchronized-Timed base _ _ (traced_episode c _ _ _ _ _) (timeout_pushed _ _ _ _))

stop_timed_out_eq :
    (e : RuntimeEvent) (s : Session) (x : StopEpisode)
    → s.stop_episode ≡ some x
    → e.stop_episode_id ≡ x.id
    → lebℤ x.deadline_ms (now s) ≡ true
    → stop_timed_out e s
      ≡ fail_stop DiagnosticCode.stop_confirmation_timeout
          "backend did not confirm stop before deadline" s
unfolding stop_timed_out
stop_timed_out_eq e s x h i l = grind (arith, h, i, l)

handle_stop_timeout :
    (e : RuntimeEvent) (s : Session)
    → e.type ≡ RuntimeEventType.backend_fault
    → str_eq e.detail "stop_timeout" ≡ true
    → handle_event e s ≡ ok tt (stop_timed_out e s)
unfolding handle_event handle_timeout
handle_stop_timeout e s h k = grind (arith, h, k)

-- The timeout of the open episode, handled at its deadline or later, returns and ends the task: the
-- session is faulted and no longer trusted, with nothing active and no stop pending.
pub stop_timeout-Faulted :
    (e : RuntimeEvent) (s : Session) (x : StopEpisode)
    → s.stop_episode ≡ some x
    → IsStopTimeout x.id x.deadline_ms e
    → lebℤ x.deadline_ms (now s) ≡ true
    → (t : Session) × (handle_event e s ≡ ok tt t) × Faulted t × (t.session_untrusted ≡ true)
stop_timeout-Faulted e s x h i l =
    let f =
      fail_stop-Faulted DiagnosticCode.stop_confirmation_timeout
        "backend did not confirm stop before deadline" s in
    let p = handle_stop_timeout e s i.0 ((str_eq_iff e.detail "stop_timeout").0 i.1) in
    let q = stop_timed_out_eq e s x h i.2 l in (_, p ∙ ap (λ t. ok tt t) q, f.0, f.1)
