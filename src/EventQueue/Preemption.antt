-- ===== src/EventQueue/Preemption.antt =====
-- About EventQueue::ScheduleControl and PeekNext (event_queue.h), for an emergency stop.
use roborun.Prelude.{
  ℕ, ◌⊎◌, ◌+◌, ◌<◌, ◌≤◌, ◌≡◌, refl, false, List, [], ◌∷◌, some, All, arith, String, after, ltbℤ,
  pos, pos_part, neg_part,
}
use roborun.Types.{BusinessTime, ControlType, priority_value}
use roborun.EventQueue.{
  RuntimeEvent, EventQueue, push, push_next, control_event_of, schedule_control, peek_next,
}
use roborun.EventQueue.Order.{Precedes, Before→Precedes}

-- Every pending event is due at `now` or later, and at `now` none has emergency priority.
abbrev pub NoEarlierEmergency : BusinessTime → RuntimeEvent → Type 0
NoEarlierEmergency now x =
    (pos_part now + neg_part x.time ≤ pos_part x.time + neg_part now)
    × (pos_part now + neg_part x.time ≡ pos_part x.time + neg_part now
        → 0 < priority_value x.priority)

emergency_first :
    (a b p : ℕ)
    → a ≤ b
    → (a ≡ b → 0 < p)
    → (s t : ℕ) → (a < b) ⊎ (a ≡ b) × ((0 < p) ⊎ (◌≡◌ {A = ℕ} 0 p) × (s < t))
emergency_first a b p h k s t = ground arith

estop-Precedes :
    (now : BusinessTime) (id : ℕ) (source : String) (n : ℕ) (x : RuntimeEvent)
    → NoEarlierEmergency now x
    → Precedes (control_event_of now ControlType.estop id source n) x
unfolding control_event_of
estop-Precedes now id source n x h =
    Before→Precedes (control_event_of now ControlType.estop id source n) x (
      emergency_first (pos_part now + neg_part x.time) (pos_part x.time + neg_part now)
        (priority_value x.priority) h.0 h.1 n x.sequence)

peek_push :
    (e : RuntimeEvent) (q : EventQueue)
    → All (Precedes e) q.events
    → peek_next (push_next e q) ≡ some e
unfolding peek_next push_next
peek_push e q h = go q.events h
  where
    go :
        (xs : List RuntimeEvent)
        → All (Precedes e) xs
        → peek_next (record { events = push e xs; next_sequence = 0 }) ≡ some e
    go [] h = unfold push in refl
    go (x ∷ xs) h = unfold push in rw (h.0, push) refl

estop-Precedes-All :
    (now : BusinessTime) (id : ℕ) (source : String) (n : ℕ) (xs : List RuntimeEvent)
    → All (NoEarlierEmergency now) xs
    → All (Precedes (control_event_of now ControlType.estop id source n)) xs
estop-Precedes-All now id source n [] h = tt
estop-Precedes-All now id source n (x ∷ xs) h =
    (estop-Precedes now id source n x h.0, estop-Precedes-All now id source n xs h.1)

-- An emergency stop requested at a time `now` that is not negative, while every pending event is
-- due at `now` or later and none at `now` is an emergency already, is the next event taken.
pub estop_preempts :
    (now : BusinessTime) (id : ℕ) (source : String) (q : EventQueue)
    → ltbℤ now (pos 0) ≡ false
    → All (NoEarlierEmergency now) q.events
    → peek_next (after (schedule_control now ControlType.estop id source q))
      ≡ some (control_event_of now ControlType.estop id source q.next_sequence)
unfolding schedule_control
estop_preempts now id source q e h = rw e (
    peek_push (control_event_of now ControlType.estop id source q.next_sequence) q
      (estop-Precedes-All now id source q.next_sequence q.events h))
