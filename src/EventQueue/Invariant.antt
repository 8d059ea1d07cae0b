-- ===== src/EventQueue/Invariant.antt =====
-- About all methods of EventQueue (event_queue.h): the order of its list and its numbers.
use roborun.Prelude.{
  ℕ, ◌+◌, ◌%◌, ◌<◌, ◌≤◌, ◌≡◌, refl, inl, inr, List, [], ◌∷◌, All, arith, after, Bool-cases, String,
  ltbℤ, pos,
}
use roborun.Types.{BusinessTime, ControlType}
use roborun.EventQueue.{
  RuntimeEvent, EventScheduleRequest, EventQueue, later_event_first, push, push_next, event_of,
  control_event_of, schedule, schedule_control, pop_next, clear, u64_mod,
}
use roborun.EventQueue.Order.{Precedes, Precedes-trans, Precedes-of_not}

abbrev pub Sorted : List RuntimeEvent → Type 0
Sorted [] = Unit
Sorted (x ∷ xs) = All (Precedes x) xs × Sorted xs

abbrev pub Numbered : ℕ → List RuntimeEvent → Type 0
Numbered n = All (λ x. x.sequence < n)

pub record IsValid (q : EventQueue) : Type 0 where
  pub sorted : Sorted q.events
  pub numbered : Numbered q.next_sequence q.events

All-push {ℓ} :
    (P : RuntimeEvent → Type ℓ) (e : RuntimeEvent) (xs : List RuntimeEvent)
    → P e
    → All P xs
    → All P (push e xs)
unfolding push
All-push P e [] h hs = (h, tt)
All-push P e (x ∷ xs) h hs = elim (Bool-cases (later_event_first x e)) [
  | inl l ↦ rw l (h, hs)
  | inr l ↦ rw l (hs.0, All-push P e xs h hs.1)
]

pub Precedes-All :
    (e x : RuntimeEvent) (xs : List RuntimeEvent)
    → Precedes e x
    → All (Precedes x) xs
    → All (Precedes e) xs
Precedes-All e x [] h hs = tt
Precedes-All e x (y ∷ ys) h hs = (Precedes-trans e x y h hs.0, Precedes-All e x ys h hs.1)

pub push-Sorted :
    (e : RuntimeEvent) (xs : List RuntimeEvent)
    → Numbered e.sequence xs
    → Sorted xs
    → Sorted (push e xs)
unfolding push
push-Sorted e [] n s = (tt, tt)
push-Sorted e (x ∷ xs) n s = elim (Bool-cases (later_event_first x e)) [
  | inl l ↦ rw l ((l, Precedes-All e x xs l s.0), s)
  | inr l ↦ rw l (
    All-push (Precedes x) e xs (Precedes-of_not e x (omega arith) l) s.0,
    push-Sorted e xs n.1 s.1,
  )
]

Numbered-mono : (m n : ℕ) (xs : List RuntimeEvent) → m ≤ n → Numbered m xs → Numbered n xs
Numbered-mono m n [] h a = tt
Numbered-mono m n (x ∷ xs) h a = (omega arith, Numbered-mono m n xs h a.1)

-- Pushing an event under the next number keeps the invariant, while the counter does not wrap.
pub push_next-IsValid :
    (e : RuntimeEvent) (q : EventQueue)
    → e.sequence ≡ q.next_sequence
    → q.next_sequence + 1 < u64_mod
    → IsValid q
    → IsValid (push_next e q)
unfolding push_next
push_next-IsValid e q same room v =
    let wrap : (q.next_sequence + 1) % u64_mod ≡ q.next_sequence + 1 = omega arith in
    record {
      sorted = push-Sorted e q.events (rw same v.numbered) v.sorted;
      numbered = rw wrap (
          All-push (λ x. x.sequence < q.next_sequence + 1) e q.events (omega arith)
            (Numbered-mono q.next_sequence (q.next_sequence + 1) q.events (omega arith)
              v.numbered));
    }

-- The calls that change a queue.
pub data QueueCall : Type 0 where
  schedules : EventScheduleRequest → QueueCall
  schedules_control : BusinessTime → ControlType → ℕ → String → QueueCall
  pops clears : QueueCall

unfoldable pub step : EventQueue → QueueCall → EventQueue
step q (schedules r) = after (schedule r q)
step q (schedules_control t c n s) = after (schedule_control t c n s q)
step q pops = (pop_next q).1
step q clears = clear q

pop_next-IsValid : (q : EventQueue) → IsValid q → IsValid (pop_next q).1
unfolding pop_next
pop_next-IsValid q v = go q.events v.sorted v.numbered
  where
    go :
        (es : List RuntimeEvent)
        → Sorted es
        → Numbered q.next_sequence es
        → IsValid (pop_next (record q { events = es })).1
    go [] s n = record { sorted = tt; numbered = tt }
    go (x ∷ xs) s n = record { sorted = s.1; numbered = n.1 }

-- Every call of the queue keeps its events in the comparator's order and its numbers fresh, while
-- the 64-bit counter of events does not wrap.
pub step-IsValid :
    (q : EventQueue) (c : QueueCall)
    → q.next_sequence + 1 < u64_mod
    → IsValid q
    → IsValid (step q c)
unfolding step
step-IsValid q (schedules r) room v = elim (Bool-cases (ltbℤ r.time (pos 0))) [
  | inl e ↦ unfold schedule in rw e v
  | inr e ↦
      unfold schedule event_of in
      rw e (push_next-IsValid (event_of r q.next_sequence) q refl room v)
]
step-IsValid q (schedules_control t c n s) room v = elim (Bool-cases (ltbℤ t (pos 0))) [
  | inl e ↦ unfold schedule_control in rw e v
  | inr e ↦
      unfold schedule_control control_event_of in
      rw e (push_next-IsValid (control_event_of t c n s q.next_sequence) q refl room v)
]
step-IsValid q pops room v = pop_next-IsValid q v
step-IsValid q clears room v = unfold clear in record { sorted = tt; numbered = tt }
