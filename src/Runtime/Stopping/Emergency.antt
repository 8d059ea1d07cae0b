-- ===== src/Runtime/Stopping/Emergency.antt =====
-- About an ESTOP during another stop (runtime.cpp): HandleControl, BeginStop and then HandleStopPoll.
use roborun.Prelude.{
  ◌≡◌, ◌≢◌, ◌⊎◌, inl, inr, refl, ap, ◌∙◌, Bool, not, ◌&&◌, Option, true, false, none, some, arith,
  after, ok, threw, Outcome, String, ◌==◌, ◌||◌, has_value, ◌>>◌, modify, if◌then◌else◌,
}
use roborun.Types.{
  LifecycleState, ControlType, StopReason, StopDisposition, StopStatus, StopSnapshot,
  DiagnosticCode, BackendOperationState,
}
use roborun.EventQueue.{RuntimeEvent, EventScheduleRequest}
use roborun.Runtime.State.{Session, StopEpisode, invoke, Setup, answer, poll_stop}
use roborun.Runtime.Records.{append_control_trace, push_trace, synchronize_result_state}
use roborun.Runtime.Cleanup.{fail_stop}
use roborun.Runtime.Scheduling.{schedule_event, scheduled}
use roborun.Runtime.Confirmation.{
  handle_stop_confirmed, stop_confirmed, confirm_safe_state, needs_safe_state,
}
use roborun.Runtime.Confirmation.Emergency.{Safe, finish_fault-Safe, emergency-Safe}
use roborun.Runtime.Stopping.{
  begin_stop, stop_pending, traced_control, escalates, request_safe, stop_polled, handle_stop_poll,
}
use roborun.Runtime.Controls.{
  handle_control, control_action, handle_estop, estop_working, cancelling,
}

-- How a pending episode is taken over: the same episode, with the same number, deadline and control
-- event, is now an emergency.
abbrev pub taken_over : StopEpisode → StopEpisode
taken_over x = record x { reason = StopReason.emergency; disposition = StopDisposition.emergency }

record Escalated (x : StopEpisode) (s t : Session) : Type 0 where
  episode : t.stop_episode ≡ some (taken_over x)
  connected : t.connected ≡ true
  workcell : t.setup.has_workcell ≡ false
  calls : t.calls ≡ s.calls

begin_stop-Escalated :
    (e : RuntimeEvent) (s : Session) (x : StopEpisode)
    → s.stop_episode ≡ some x
    → x.disposition ≢ StopDisposition.emergency
    → s.connected ≡ true
    → s.setup.has_workcell ≡ false
    → Escalated x s (after (begin_stop StopReason.emergency StopDisposition.emergency (some e) s))
unfolding begin_stop stop_pending traced_control escalates append_control_trace push_trace
    synchronize_result_state
begin_stop-Escalated e s x h k c w = grind arith

if_true : {A : Type 0} (b : Bool) (x y : A) → b ≡ true → (if b then x else y) ≡ x
if_true true x y h = refl
if_true false x y h = cc

if_false : {A : Type 0} (b : Bool) (x y : A) → b ≡ false → (if b then x else y) ≡ y
if_false true x y h = cc
if_false false x y h = refl

request_safe_skips :
    (r : StopReason) (b : Bool) (s : Session)
    → s.setup.has_workcell ≡ false
    → request_safe r b s ≡ ok tt s
unfolding request_safe
request_safe_skips r b s w =
    if_false (s.setup.has_workcell && not s.workcell_safe_requested) _ _ (rw w refl)

cancelling_keeps :
    (s : Session)
    → ((cancelling s).stop_episode ≡ s.stop_episode)
      × ((cancelling s).connected ≡ s.connected)
      × ((cancelling s).setup ≡ s.setup)
      × ((cancelling s).calls ≡ s.calls)
unfolding cancelling
cancelling_keeps s = ground arith

some_work : (a b : Bool) → b ≡ true → (a || b) ≡ true
some_work true b h = refl
some_work false b h = h

estop_begins :
    (e : RuntimeEvent) (s : Session)
    → s.connected ≡ true
    → s.setup.has_workcell ≡ false
    → estop_working e s
      ≡ begin_stop StopReason.emergency StopDisposition.emergency (some e) (cancelling s)
unfolding estop_working
estop_begins e s c w =
    if_true _ _ _ (some_work (has_value s.active_command) s.connected c)
    ∙ ap
        (λ (o : Outcome Session (Unit {0})). elim o as (λ _. Outcome Session (Unit {0})) [
          | ok a t ↦ begin_stop StopReason.emergency StopDisposition.emergency (some e) t
          | threw m t ↦ threw m t
        ])
        (request_safe_skips StopReason.emergency true (cancelling s)
          (ap (λ (u : Setup). u.has_workcell) (cancelling_keeps s).2 ∙ w))

estop_works :
    (e : RuntimeEvent) (s : Session)
    → s.lifecycle_state ≢ LifecycleState.emergency_stopping
    → s.lifecycle_state ≢ LifecycleState.emergency_stopped
    → handle_estop e s ≡ estop_working e s
unfolding handle_estop
estop_works e s l m = grind arith

-- The end of HandleControl, behind the handler of the control.
abbrev control_end : Outcome Session (Unit {0}) → Outcome Session (Unit {0})
control_end (ok a t) = ok tt (synchronize_result_state t)
control_end (threw m t) = threw m t

end_same :
    (o : Outcome Session (Unit {0}))
    → (elim o as (λ _. Outcome Session (Unit {0})) [
      | ok a t ↦ modify synchronize_result_state t
      | threw m t ↦ threw m t
    ])
      ≡ control_end o
end_same (ok a t) = refl
end_same (threw m t) = refl

handle_estop_control :
    (e : RuntimeEvent) (s : Session)
    → e.control_type ≡ ControlType.estop
    → handle_control e s ≡ control_end (handle_estop e s)
unfolding handle_control control_action
handle_estop_control e s a =
    ap (λ k. (control_action k e >> modify synchronize_result_state) s) a
    ∙ end_same (handle_estop e s)

control_end-Escalated :
    (x : StopEpisode) (s : Session) (o : Outcome Session (Unit {0}))
    → Escalated x s (after o)
    → Escalated x s (after (control_end o))
unfolding synchronize_result_state
control_end-Escalated x s (ok a t) h = record {
  episode = h.episode;
  connected = h.connected;
  workcell = h.workcell;
  calls = h.calls;
}
control_end-Escalated x s (threw e t) h = h

cancelled-Escalated :
    (e : RuntimeEvent) (s : Session) (x : StopEpisode)
    → s.stop_episode ≡ some x
    → x.disposition ≢ StopDisposition.emergency
    → s.connected ≡ true
    → s.setup.has_workcell ≡ false
    → Escalated x s
        (after (begin_stop StopReason.emergency StopDisposition.emergency (some e) (cancelling s)))
cancelled-Escalated e s x h k c w =
    let (same, link, setup, calls) = cancelling_keeps s in
    let q =
      begin_stop-Escalated e (cancelling s) x (same ∙ h) k (link ∙ c)
        (ap (λ (u : Setup). u.has_workcell) setup ∙ w) in
    record {
      episode = q.episode;
      connected = q.connected;
      workcell = q.workcell;
      calls = q.calls ∙ calls;
    }

estop-Escalated :
    (e : RuntimeEvent) (s : Session) (x : StopEpisode)
    → e.control_type ≡ ControlType.estop
    → s.stop_episode ≡ some x
    → x.disposition ≢ StopDisposition.emergency
    → s.connected ≡ true
    → s.setup.has_workcell ≡ false
    → s.lifecycle_state ≢ LifecycleState.emergency_stopping
    → s.lifecycle_state ≢ LifecycleState.emergency_stopped
    → Escalated x s (after (handle_control e s))
estop-Escalated e s x a h k c w l m =
    rw (handle_estop_control e s a, estop_works e s l m, estop_begins e s c w)
      (control_end-Escalated x s
        (begin_stop StopReason.emergency StopDisposition.emergency (some e) (cancelling s))
        (cancelled-Escalated e s x h k c w))

fail_stop-Safe : (c : DiagnosticCode) (m : String) (s : Session) → Safe (fail_stop c m s)
unfolding fail_stop
fail_stop-Safe c m s = finish_fault-Safe _ (inr refl)

schedule_keeps :
    (r : EventScheduleRequest) (s : Session)
    → (after (schedule_event r s)).stop_episode ≡ s.stop_episode
unfolding schedule_event scheduled
schedule_keeps r s = ground arith

both_false : (p q r : Bool) → q ≡ false → (p && q && r) ≡ false
both_false true true r h = cc
both_false true false r h = refl
both_false false q r h = refl

confirm_skips :
    (d : StopDisposition) (s : Session)
    → s.setup.has_workcell ≡ false
    → confirm_safe_state d s ≡ ok tt s
unfolding confirm_safe_state
confirm_skips d s w =
    if_false (needs_safe_state d && s.setup.has_workcell && s.workcell_safe_requested) _ _
      (both_false (needs_safe_state d) s.setup.has_workcell s.workcell_safe_requested w)

confirmed-Safe :
    (a : StopSnapshot) (y : StopEpisode) (s : Session)
    → s.stop_episode ≡ some y
    → y.disposition ≡ StopDisposition.emergency
    → s.connected ≡ true
    → s.setup.has_workcell ≡ false
    → Safe (after (handle_stop_confirmed a s))
unfolding handle_stop_confirmed stop_confirmed confirm_safe_state needs_safe_state
confirmed-Safe a y s h d c w =
    let t : Session = record s {
      latest_positions = a.positions;
      backend_operation_state = BackendOperationState.stopped;
      stop_episode = none;
    } in
    rw (h, d, confirm_skips StopDisposition.emergency t w) (emergency-Safe t c)

status_cases :
    (t : StopStatus)
    → (t ≡ StopStatus.stopping) ⊎ ((t ≡ StopStatus.stopped) ⊎ (t ≡ StopStatus.failed))
status_cases StopStatus.stopping = inl refl
status_cases StopStatus.stopped = inr (inl refl)
status_cases StopStatus.failed = inr (inr refl)

-- An open emergency episode of a connected session without a workcell.
record Open (y : StopEpisode) (s : Session) : Type 0 where
  episode : s.stop_episode ≡ some y
  emergency : y.disposition ≡ StopDisposition.emergency
  connected : s.connected ≡ true
  workcell : s.setup.has_workcell ≡ false

-- The episode is over and safe, or still open.
abbrev Settled : StopEpisode → Session → Type 0
Settled y s = Safe s ⊎ (s.stop_episode ≡ some y)

module _ (y : StopEpisode) where
  pending-Settled :
      (b : Bool) (c : DiagnosticCode) (m : String) (r : EventScheduleRequest) (s : Session)
      → s.stop_episode ≡ some y
      → Settled y (after (if b then ok tt (fail_stop c m s) else schedule_event r s))
  pending-Settled true c m r s h = inl (fail_stop-Safe c m s)
  pending-Settled false c m r s h = inr (schedule_keeps r s ∙ h)

  stop_polled-Settled :
      (o : Outcome Session StopSnapshot) → Open y (after o) → Settled y (after (stop_polled y o))
  unfolding stop_polled
  stop_polled-Settled (threw e s) p = inl (fail_stop-Safe _ e s)
  stop_polled-Settled (ok a s) p = elim (status_cases a.status) [
    | inl e ↦ rw e (pending-Settled _ _ _ _ _ p.episode)
    | inr (inl e) ↦ rw e (inl (confirmed-Safe _ y _ p.episode p.emergency p.connected p.workcell))
    | inr (inr e) ↦ rw e (inl (fail_stop-Safe _ _ _))
  ]

  invoke_poll-Open :
      (s : Session) → Open y s → Open y (after (invoke poll_stop (λ d. d.poll_stop) s))
  unfolding invoke answer
  invoke_poll-Open s p = grind arith

  handle_stop_poll-Settled :
      (f : RuntimeEvent) (s : Session) → Open y s → Settled y (after (handle_stop_poll f s))
  unfolding handle_stop_poll
  handle_stop_poll-Settled f s p = rw (at_episode p.episode) (by_number (f.stop_episode_id == y.id))
    where
      at_episode :
          s.stop_episode ≡ some y
          → handle_stop_poll f s ≡ (
              if f.stop_episode_id == y.id
              then stop_polled y (invoke poll_stop (λ d. d.poll_stop) s)
              else ok tt s)
      at_episode h =
          ap
            (λ (o : Option StopEpisode). elim o as (λ _. Outcome Session (Unit {0})) [
              | none ↦ ok tt s
              | some x ↦
                  if f.stop_episode_id == x.id
                  then stop_polled x (invoke poll_stop (λ d. d.poll_stop) s)
                  else ok tt s
            ])
            h

      by_number :
          (b : Bool)
          → Settled y
              (after (if b then stop_polled y (invoke poll_stop (λ d. d.poll_stop) s) else ok tt s))
      by_number true = stop_polled-Settled _ (invoke_poll-Open s p)
      by_number false = inr p.episode

-- An ESTOP that a connected session without a workcell handles during a stop that is no emergency calls
-- no device: it makes the pending episode an emergency, under the same number and deadline. Whatever
-- stop poll is handled next, and whatever the backend answers to it, that episode is then still open,
-- or the servo is off or the session is not trusted.
pub escalated_stop-Safe :
    (e f : RuntimeEvent) (s : Session) (x : StopEpisode)
    → e.control_type ≡ ControlType.estop
    → s.stop_episode ≡ some x
    → x.disposition ≢ StopDisposition.emergency
    → s.connected ≡ true
    → s.setup.has_workcell ≡ false
    → s.lifecycle_state ≢ LifecycleState.emergency_stopping
    → s.lifecycle_state ≢ LifecycleState.emergency_stopped
    → let t = after (handle_control e s) in
      (t.calls ≡ s.calls)
      × (t.stop_episode ≡ some (taken_over x))
      × (Safe (after (handle_stop_poll f t))
          ⊎ ((after (handle_stop_poll f t)).stop_episode ≡ some (taken_over x)))
escalated_stop-Safe e f s x a h k c w l m =
    let q = estop-Escalated e s x a h k c w l m in
    let p : Open (taken_over x) (after (handle_control e s)) = record {
      episode = q.episode;
      emergency = refl;
      connected = q.connected;
      workcell = q.workcell;
    } in
    (q.calls, q.episode, handle_stop_poll-Settled (taken_over x) f _ p)
