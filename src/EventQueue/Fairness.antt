-- ===== src/EventQueue/Fairness.antt =====
-- About EventQueue (event_queue.h) as a whole: what PopNext takes after a run of Schedule.
use roborun.Prelude.{
  ℕ, zero, suc, pos, ◌+◌, ◌==◌, ◌<◌, ◌≤◌, ltbℤ, eqbℤ, Bool, true, false, ◌&&◌, Option, none, some,
  List, [], ◌∷◌, ◌++◌, map, length, All, ◌≡◌, refl, inl, inr, ap, sym, ◌∙◌, Bool-cases, after,
  if◌then◌else◌, arith,
}
use mathlib.Core.List.{append-nil, append_assoc}
use roborun.Types.{BusinessTime, priority_value}
use roborun.EventQueue.{
  RuntimeEvent, EventScheduleRequest, EventQueue, empty, later_event_first, push, event_of,
  schedule, pop_next, u64_mod,
}
use roborun.EventQueue.Order.{Precedes, Precedes→Before}
use roborun.EventQueue.Invariant.{Sorted, Numbered, IsValid, Precedes-All, push_next-IsValid}

-- Calls of Schedule, in order.
abbrev pub schedule_all : List EventScheduleRequest → EventQueue → EventQueue
schedule_all [] q = q
schedule_all (r ∷ rs) q = schedule_all rs (after (schedule r q))

abbrev taken : Option RuntimeEvent → List RuntimeEvent → List RuntimeEvent
taken none es = es
taken (some e) es = e ∷ es

-- What that many calls of PopNext give, in order.
abbrev pub pop_all : ℕ → EventQueue → List RuntimeEvent
pop_all zero q = []
pop_all (suc n) q = let rest = pop_all n (pop_next q).1 in taken (pop_next q).0 rest

-- The request that an event was scheduled by.
abbrev pub request_of : RuntimeEvent → EventScheduleRequest
request_of e = record {
  time = e.time;
  priority = e.priority;
  type = e.type;
  name = e.name;
  value = e.value;
  detail = e.detail;
  command_index = e.command_index;
  command_generation = e.command_generation;
  stop_episode_id = e.stop_episode_id;
}

-- The requests for one time and one priority.
abbrev pub select : BusinessTime → ℕ → List EventScheduleRequest → List EventScheduleRequest
select t p [] = []
select t p (r ∷ rs) =
    let rest = select t p rs in
    if eqbℤ r.time t && priority_value r.priority == p then r ∷ rest else rest

-- No later in time, and at the same time of no lower priority.
abbrev Ranked : RuntimeEvent → RuntimeEvent → Type 0
Ranked e x =
    (ltbℤ x.time e.time ≡ false)
    × (e.time ≡ x.time → priority_value e.priority ≤ priority_value x.priority)

abbrev pub InOrder : List RuntimeEvent → Type 0
InOrder [] = Unit
InOrder (e ∷ es) = All (Ranked e) es × InOrder es

Precedes→Ranked : (e x : RuntimeEvent) → Precedes e x → Ranked e x
Precedes→Ranked e x h = let b = Precedes→Before e x h in (ground arith, λ t. ground arith)

All-Ranked : (e : RuntimeEvent) (xs : List RuntimeEvent) → All (Precedes e) xs → All (Ranked e) xs
All-Ranked e [] h = tt
All-Ranked e (x ∷ xs) (h, hs) = (Precedes→Ranked e x h, All-Ranked e xs hs)

Sorted→InOrder : (xs : List RuntimeEvent) → Sorted xs → InOrder xs
Sorted→InOrder [] h = tt
Sorted→InOrder (x ∷ xs) (h, hs) = (All-Ranked x xs h, Sorted→InOrder xs hs)

module _ (t : BusinessTime) (p : ℕ) where
  abbrev requests : List RuntimeEvent → List EventScheduleRequest
  requests es = select t p (map request_of es)

  abbrev alike : RuntimeEvent → Bool
  alike e = eqbℤ e.time t && priority_value e.priority == p

  -- An event that is ranked before another with a smaller number is not like it.
  unlike :
      (e x : RuntimeEvent)
      → alike e ≡ true
      → Precedes e x
      → x.sequence < e.sequence
      → alike x ≡ false
  unlike e x a h n = let b = Precedes→Before e x h in ground arith

  none_alike :
      (e : RuntimeEvent) (xs : List RuntimeEvent)
      → alike e ≡ true
      → All (Precedes e) xs
      → Numbered e.sequence xs
      → requests xs ≡ []
  none_alike e [] a h n = refl
  none_alike e (x ∷ xs) a (h, hs) (n, ns) = rw (unlike e x a h n) (none_alike e xs a hs ns)

  front :
      (e : RuntimeEvent) (ys : List RuntimeEvent)
      → (alike e ≡ true → requests ys ≡ [])
      → requests (e ∷ ys) ≡ requests ys ++ select t p (request_of e ∷ [])
  front e ys h = elim (Bool-cases (alike e)) [
    | inl a ↦ rw (a, h a) refl
    | inr a ↦ rw a (sym (append-nil (requests ys)))
  ]

  behind :
      (x : RuntimeEvent) (ys zs : List RuntimeEvent) (us : List EventScheduleRequest)
      → requests ys ≡ requests zs ++ us
      → requests (x ∷ ys) ≡ requests (x ∷ zs) ++ us
  behind x ys zs us h = elim (Bool-cases (alike x)) [ inl a ↦ rw (a, h) refl | inr a ↦ rw a h ]

  -- A new event comes behind all that are like it.
  push-requests :
      (e : RuntimeEvent) (xs : List RuntimeEvent)
      → Sorted xs
      → Numbered e.sequence xs
      → requests (push e xs) ≡ requests xs ++ select t p (request_of e ∷ [])
  unfolding push
  push-requests e [] s n = refl
  push-requests e (x ∷ xs) (s, ss) (n, ns) = elim (Bool-cases (later_event_first x e)) [
    | inl l ↦
        rw l (front e (x ∷ xs) (λ a. none_alike e (x ∷ xs) a (l, Precedes-All e x xs l s) (n, ns)))
    | inr l ↦ rw l (behind x (push e xs) xs _ (push-requests e xs ss ns))
  ]

  schedule-requests :
      (r : EventScheduleRequest) (q : EventQueue)
      → ltbℤ r.time (pos 0) ≡ false
      → IsValid q
      → requests (after (schedule r q)).events ≡ requests q.events ++ select t p (r ∷ [])
  unfolding schedule event_of
  schedule-requests r q h v =
      rw h (push-requests (event_of r q.next_sequence) q.events v.sorted v.numbered)

abbrev pub Timely : EventScheduleRequest → Type 0
Timely r = ltbℤ r.time (pos 0) ≡ false

scheduled-IsValid :
    (r : EventScheduleRequest) (q : EventQueue)
    → Timely r
    → q.next_sequence + 1 < u64_mod
    → IsValid q
    → IsValid (after (schedule r q)) × ((after (schedule r q)).next_sequence ≡ q.next_sequence + 1)
unfolding schedule event_of
scheduled-IsValid r q h room v =
    rw h (push_next-IsValid (event_of r q.next_sequence) q refl room v, omega arith)

push-length : (e : RuntimeEvent) (xs : List RuntimeEvent) → length (push e xs) ≡ length xs + 1
unfolding push
push-length e [] = refl
push-length e (x ∷ xs) = ground (arith, push-length e xs)

schedule-length :
    (r : EventScheduleRequest) (q : EventQueue)
    → Timely r
    → length (after (schedule r q)).events ≡ length q.events + 1
unfolding schedule
schedule-length r q h = rw h (push-length (event_of r q.next_sequence) q.events)

select-cons :
    (t : BusinessTime) (p : ℕ) (r : EventScheduleRequest) (rs : List EventScheduleRequest)
    → select t p (r ∷ []) ++ select t p rs ≡ select t p (r ∷ rs)
select-cons t p r rs = elim (Bool-cases (eqbℤ r.time t && priority_value r.priority == p)) [
  | inl a ↦ rw a refl
  | inr a ↦ rw a refl
]

-- What a run of Schedule makes of a queue.
record Filled (rs : List EventScheduleRequest) (q u : EventQueue) : Type 0 where
  valid : IsValid u
  size : length u.events ≡ length q.events + length rs
  contents :
      (t : BusinessTime) (p : ℕ)
      → select t p (map request_of u.events) ≡ select t p (map request_of q.events) ++ select t p rs

schedule_all-Filled :
    (rs : List EventScheduleRequest) (q : EventQueue)
    → All Timely rs
    → q.next_sequence + length rs < u64_mod
    → IsValid q
    → Filled rs q (schedule_all rs q)
schedule_all-Filled [] q h room v = record {
  valid = v;
  size = omega arith;
  contents = λ t p. sym (append-nil _);
}
schedule_all-Filled (r ∷ rs) q (h, hs) room v =
    let (valid, number) = scheduled-IsValid r q h (omega arith) v in
    let more = schedule_all-Filled rs (after (schedule r q)) hs (omega arith) valid in
    record {
      valid = more.valid;
      size = omega (arith, more.size, schedule-length r q h);
      contents = λ t p.
          more.contents t p
          ∙ ap (λ ls. ls ++ select t p rs) (schedule-requests t p r q h v)
          ∙ append_assoc _ (select t p (r ∷ [])) (select t p rs)
          ∙ ap (λ ls. select t p (map request_of q.events) ++ ls) (select-cons t p r rs);
    }

drained :
    (es : List RuntimeEvent) (n : ℕ)
    → pop_all (length es) (record { events = es; next_sequence = n }) ≡ es
unfolding pop_next
drained [] n = refl
drained (e ∷ es) n = ap (λ rest. e ∷ rest) (drained es n)

drained_by : (n : ℕ) (q : EventQueue) → length q.events ≡ n → pop_all n q ≡ q.events
drained_by n q h = ap (λ k. pop_all k q) (sym h) ∙ drained q.events q.next_sequence

-- The events of any run of Schedule calls on an empty queue, each for a time that is not negative and
-- together fewer than 2^64, are taken by as many calls of PopNext in the order of their times and, at
-- the same time, of their priorities; and the events for one time and one priority are those that were
-- scheduled for them, none lost and none added, in the order of the calls.
pub pop_all-schedule_all :
    (rs : List EventScheduleRequest)
    → All Timely rs
    → length rs < u64_mod
    → let es = pop_all (length rs) (schedule_all rs empty) in
      InOrder es × ((t : BusinessTime) (p : ℕ) → select t p (map request_of es) ≡ select t p rs)
unfolding empty
pop_all-schedule_all rs h room =
    let f = schedule_all-Filled rs empty h (omega arith) (record { sorted = tt; numbered = tt }) in
    rw (drained_by (length rs) (schedule_all rs empty) (f.size ∙ omega arith))
      (Sorted→InOrder _ f.valid.sorted, f.contents)
