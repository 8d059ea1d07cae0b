-- ===== src/EventQueue/Contents.antt =====
-- About EventQueue::Schedule (event_queue.h): what a queue holds, its order forgotten.
use mathlib.Core.List.{Perm}
use mathlib.Core.List.Perm
use roborun.Prelude.{
  ◌≡◌, refl, inl, inr, ◌⊎◌, true, false, List, [], ◌∷◌, Bool-cases, ltbℤ, pos, threw, after,
}
use roborun.EventQueue.{
  RuntimeEvent, EventScheduleRequest, EventQueue, later_event_first, push, event_of, schedule,
}

push-perm : (e : RuntimeEvent) (xs : List RuntimeEvent) → Perm (push e xs) (e ∷ xs)
unfolding push
push-perm e [] = Perm.refl _
push-perm e (x ∷ xs) = elim (Bool-cases (later_event_first x e)) [
  | inl l ↦ rw l (Perm.refl _)
  | inr l ↦ rw l (Perm.trans (Perm.cons x (push-perm e xs)) (Perm.swap e x xs))
]

-- A request at a negative time throws and leaves the queue as it was; any other adds its event.
pub schedule_contents :
    (r : EventScheduleRequest) (q : EventQueue)
    → ((ltbℤ r.time (pos 0) ≡ true) × (schedule r q ≡ threw "event time cannot be negative" q))
      ⊎ ((ltbℤ r.time (pos 0) ≡ false)
          × Perm (after (schedule r q)).events (event_of r q.next_sequence ∷ q.events))
unfolding schedule
schedule_contents r q = elim (Bool-cases (ltbℤ r.time (pos 0))) [
  | inl e ↦ inl (e, rw e refl)
  | inr e ↦ inr (e, rw e (push-perm (event_of r q.next_sequence) q.events))
]
