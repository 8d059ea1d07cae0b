-- ===== src/Backends/Stops.antt =====
-- About the stops of ScriptedMockBackend (scripted_mock_backend.cpp).
use roborun.Prelude.{
  ℕ, zero, suc, ◌+◌, ◌≤◌, ◌<◌, pos, ltbℤ, Bool, true, false, Option, none, some, Outcome, ok, threw,
  after, ◌≡◌, ◌⊎◌, inl, inr, refl, subst, Bool-cases, arith,
}
use roborun.Types.{
  BusinessTime, StopReason, StopStatus, StopSubmissionStatus, StopPlanOutcome, StopPlan,
  StopSnapshot, StopSubmission,
}
use roborun.Backends.Mock.{next_int}
use roborun.Backends.Scripted.{
  ScriptedMock, find_plan, size_of_int, logged, count_stop, reset_stop, plan_stop, submit_stop,
  stop_snapshot, polled_stop, poll_stop,
}

-- The status that a poll answers, and when it asks to be polled again.
abbrev pub answers : Outcome ScriptedMock StopSnapshot → Option (StopStatus × Option BusinessTime)
answers (ok a s) = some (a.status, a.poll_after_ms)
answers (threw e s) = none

abbrev pub accepts : Outcome ScriptedMock StopSubmission → Option StopSubmissionStatus
accepts (ok a s) = some a.status
accepts (threw e s) = none

-- The plan for the next stop request.
abbrev pub planned : ScriptedMock → Option StopPlan
planned s = find_plan (size_of_int (next_int s.stop_requests)) s.scenario.stop_plans

-- What the stop's flags say once the request is taken.
record Submitted (frozen failed : Bool) (delay : BusinessTime) (polls : ℕ) (s : ScriptedMock)
    : Type 0 where
  connected : s.connected ≡ true
  submitted : s.stop_submitted ≡ true
  is_frozen : s.stop_frozen ≡ frozen
  is_failed : s.stop_failed ≡ failed
  is_delay : s.stop_delay_ms ≡ delay
  is_polls : s.stop_polls ≡ pos polls

abbrev pub delay_of : Option StopPlan → BusinessTime
delay_of none = pos 0
delay_of (some plan) = elim plan.outcome [
  | StopPlanOutcome.delayed_confirmation ↦ plan.delay_ms
  | _ ↦ pos 0
]

-- A plan that lets the stop be confirmed.
abbrev pub Confirming : Option StopPlan → Type 0
Confirming none = Unit
Confirming (some plan) = elim plan.outcome [
  | StopPlanOutcome.immediate_confirmation ↦ Unit
  | StopPlanOutcome.delayed_confirmation ↦ Unit
  | _ ↦ ⊥
]

abbrev fresh : StopReason → ScriptedMock → ScriptedMock
fresh reason s = reset_stop (count_stop reason s)

submit_stop_connected :
    (reason : StopReason) (s : ScriptedMock)
    → s.connected ≡ true
    → submit_stop reason s ≡ plan_stop (planned s) (fresh reason s)
unfolding submit_stop count_stop logged
submit_stop_connected reason s c = rw c refl

fresh-Submitted :
    (reason : StopReason) (s : ScriptedMock)
    → s.connected ≡ true
    → Submitted false false (pos 0) 0 (fresh reason s)
unfolding count_stop logged reset_stop
fresh-Submitted reason s c = record {
  connected = c;
  submitted = refl;
  is_frozen = refl;
  is_failed = refl;
  is_delay = refl;
  is_polls = refl;
}

plan_stop-Confirming :
    (plan : Option StopPlan) (s : ScriptedMock)
    → Confirming plan
    → Submitted false false (pos 0) 0 s
    → (accepts (plan_stop plan s) ≡ some StopSubmissionStatus.accepted)
      × Submitted false false (delay_of plan) 0 (after (plan_stop plan s))
unfolding plan_stop
plan_stop-Confirming none s h u = (refl, u)
plan_stop-Confirming (some plan) s h u = grind arith

-- A poll once the stop is delayed no further.
poll_confirmed :
    (delay : BusinessTime) (polls : ℕ) (s : ScriptedMock)
    → Submitted false false delay polls s
    → (ltbℤ (pos 0) delay ≡ false) ⊎ (1 ≤ polls)
    → (answers (poll_stop s) ≡ some (StopStatus.stopped, none))
      × ((after (poll_stop s)).motion_submitted ≡ false)
unfolding poll_stop polled_stop logged stop_snapshot next_int
poll_confirmed delay polls s u h = grind arith

-- The first poll of a delayed stop.
poll_delayed :
    (delay : BusinessTime) (s : ScriptedMock)
    → Submitted false false delay 0 s
    → ltbℤ (pos 0) delay ≡ true
    → (answers (poll_stop s) ≡ some (StopStatus.stopping, some delay))
      × Submitted false false delay 1 (after (poll_stop s))
unfolding poll_stop polled_stop logged stop_snapshot next_int
poll_delayed delay s u h = grind arith

-- The answer of the poll behind `n` others.
unfoldable pub after_polls : ℕ → ScriptedMock → ScriptedMock
after_polls zero s = s
after_polls (suc n) s = after (poll_stop (after_polls n s))

-- The stop is confirmed at the poll behind `n` others, and then no motion is under way.
abbrev pub ConfirmedAt : ℕ → ScriptedMock → Type 0
ConfirmedAt n s =
    (answers (poll_stop (after_polls n s)) ≡ some (StopStatus.stopped, none))
    × ((after (poll_stop (after_polls n s))).motion_submitted ≡ false)

confirms :
    (delay : BusinessTime) (s : ScriptedMock)
    → Submitted false false delay 0 s
    → ConfirmedAt 0 s
      ⊎ ((answers (poll_stop s) ≡ some (StopStatus.stopping, some delay)) × ConfirmedAt 1 s)
unfolding after_polls
confirms delay s u = elim (Bool-cases (ltbℤ (pos 0) delay)) [
  | inl waits ↦
      let (first, v) = poll_delayed delay s u waits in
      inr (first, poll_confirmed delay 1 (after (poll_stop s)) v (inr (omega arith)))
  | inr now ↦ inl (poll_confirmed delay 0 s u (inl now))
]

-- On a connected ScriptedMockBackend whose plan for the next stop lets it be confirmed (at once, after
-- a delay, or no plan), SubmitStop is accepted, and the stop is confirmed with the motion ended by the
-- first poll, or by the second where the first asked for the planned delay.
pub planned_stop_confirmed :
    (reason : StopReason) (s : ScriptedMock)
    → s.connected ≡ true
    → Confirming (planned s)
    → let t = after (submit_stop reason s) in
      (accepts (submit_stop reason s) ≡ some StopSubmissionStatus.accepted)
      × (ConfirmedAt 0 t
          ⊎ ((answers (poll_stop t) ≡ some (StopStatus.stopping, some (delay_of (planned s))))
              × ConfirmedAt 1 t))
planned_stop_confirmed reason s c h = rw (submit_stop_connected reason s c) (
    let (taken, u) =
      plan_stop-Confirming (planned s) (fresh reason s) h (fresh-Submitted reason s c) in
    (taken, confirms (delay_of (planned s)) _ u))

plan_stop_frozen :
    (plan : StopPlan) (s : ScriptedMock)
    → plan.outcome ≡ StopPlanOutcome.never_confirmed
    → Submitted false false (pos 0) 0 s
    → (accepts (plan_stop (some plan) s) ≡ some StopSubmissionStatus.accepted)
      × Submitted true false (pos 0) 0 (after (plan_stop (some plan) s))
unfolding plan_stop
plan_stop_frozen plan s h u = grind arith

poll_frozen :
    (polls : ℕ) (s : ScriptedMock)
    → polls < 2147483647
    → Submitted true false (pos 0) polls s
    → (answers (poll_stop s) ≡ some (StopStatus.stopping, some (pos 10)))
      × Submitted true false (pos 0) (polls + 1) (after (poll_stop s))
unfolding poll_stop polled_stop logged stop_snapshot next_int
poll_frozen polls s b u = grind arith

polls-frozen :
    (n : ℕ) (s : ScriptedMock)
    → n ≤ 2147483647
    → Submitted true false (pos 0) 0 s
    → Submitted true false (pos 0) n (after_polls n s)
unfolding after_polls
polls-frozen zero s b u = u
polls-frozen (suc n) s b u =
    subst (λ k. Submitted true false (pos 0) k (after (poll_stop (after_polls n s)))) (omega arith)
      (poll_frozen n (after_polls n s) (omega arith) (polls-frozen n s (omega arith) u)).1

-- On a connected ScriptedMockBackend whose plan for the next stop says that it is never confirmed,
-- SubmitStop is accepted, and behind fewer than 2^31 - 1 polls of the stop, so that the next does
-- not overflow the `int` that counts them, the next poll says that the stop is still under way and
-- asks for another after 10 ms.
pub planned_stop_unconfirmed :
    (reason : StopReason) (s : ScriptedMock) (plan : StopPlan) (n : ℕ)
    → s.connected ≡ true
    → planned s ≡ some plan
    → plan.outcome ≡ StopPlanOutcome.never_confirmed
    → n < 2147483647
    → let t = after (submit_stop reason s) in
      (accepts (submit_stop reason s) ≡ some StopSubmissionStatus.accepted)
      × (answers (poll_stop (after_polls n t)) ≡ some (StopStatus.stopping, some (pos 10)))
planned_stop_unconfirmed reason s plan n c p h b =
    rw (submit_stop_connected reason s c, p)
      (let (taken, u) = plan_stop_frozen plan (fresh reason s) h (fresh-Submitted reason s c) in
        (taken, (poll_frozen n _ b (polls-frozen n _ (omega arith) u)).0))
