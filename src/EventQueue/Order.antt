-- ===== src/EventQueue/Order.antt =====
-- About the comparator LaterEventFirst (event_queue.h), as an order on events.
use roborun.Prelude.{
  ℕ, ◌+◌, ◌<◌, ◌≡◌, ◌≢◌, ◌⊎◌, inl, inr, Bool, true, false, not, arith, pos_part, neg_part, ltb,
  ◌==◌, if◌then◌else◌,
}
use roborun.Types.{BusinessTime, priority_value}
use roborun.EventQueue.{RuntimeEvent, later_event_first}

-- `LaterEventFirst` ranks the second event after the first.
abbrev pub Precedes : RuntimeEvent → RuntimeEvent → Type 0
Precedes e x = later_event_first x e ≡ true

abbrev pub TimeLt : BusinessTime → BusinessTime → Type 0
TimeLt a b = pos_part a + neg_part b < pos_part b + neg_part a

abbrev TimeEq : BusinessTime → BusinessTime → Type 0
TimeEq a b = pos_part a + neg_part b ≡ pos_part b + neg_part a

-- The order that the comparator is meant to be: lexicographic on time, priority and number.
abbrev pub Before : RuntimeEvent → RuntimeEvent → Type 0
Before e x =
    TimeLt e.time x.time
    ⊎ TimeEq e.time x.time
      × ((priority_value e.priority < priority_value x.priority)
          ⊎ (priority_value e.priority ≡ priority_value x.priority) × (e.sequence < x.sequence))

-- The comparator's tests at plain numbers.
abbrev later_test : ℕ → ℕ → ℕ → ℕ → ℕ → ℕ → Bool
later_test a b p q s t = if not (a == b) then ltb b a else if not (p == q) then ltb q p else ltb t s

later_test_sound :
    (a b p q s t : ℕ)
    → later_test a b p q s t ≡ true
    → (b < a) ⊎ (b ≡ a) × ((q < p) ⊎ (q ≡ p) × (t < s))
later_test_sound a b p q s t h = ground arith

later_test_complete :
    (a b p q s t : ℕ)
    → (b < a) ⊎ (b ≡ a) × ((q < p) ⊎ (q ≡ p) × (t < s))
    → later_test a b p q s t ≡ true
later_test_complete a b p q s t (inl h) = ground arith
later_test_complete a b p q s t (inr (e, inl h)) = ground arith
later_test_complete a b p q s t (inr (e, inr (f, h))) = ground arith

pub Precedes→Before : (e x : RuntimeEvent) → Precedes e x → Before e x
unfolding later_event_first
Precedes→Before e x h =
    later_test_sound (pos_part x.time + neg_part e.time) (pos_part e.time + neg_part x.time)
      (priority_value x.priority) (priority_value e.priority) x.sequence e.sequence h

pub Before→Precedes : (e x : RuntimeEvent) → Before e x → Precedes e x
unfolding later_event_first
Before→Precedes e x h =
    later_test_complete (pos_part x.time + neg_part e.time) (pos_part e.time + neg_part x.time)
      (priority_value x.priority) (priority_value e.priority) x.sequence e.sequence h

Before-trans : (a b c : RuntimeEvent) → Before a b → Before b c → Before a c
Before-trans a b c h k = omega arith

pub Precedes-trans : (a b c : RuntimeEvent) → Precedes a b → Precedes b c → Precedes a c
Precedes-trans a b c h k =
    Before→Precedes a c (Before-trans a b c (Precedes→Before a b h) (Precedes→Before b c k))

later_test_total :
    (a b p q s t : ℕ)
    → s ≢ t
    → later_test a b p q s t ≡ false
    → (a < b) ⊎ (a ≡ b) × ((p < q) ⊎ (p ≡ q) × (s < t))
later_test_total a b p q s t n h = ground arith

-- Events with different numbers are ranked one way or the other.
pub Precedes-of_not :
    (e x : RuntimeEvent) → x.sequence ≢ e.sequence → later_event_first x e ≡ false → Precedes x e
unfolding later_event_first
Precedes-of_not e x n h = Before→Precedes x e (
    later_test_total (pos_part x.time + neg_part e.time) (pos_part e.time + neg_part x.time)
      (priority_value x.priority) (priority_value e.priority) x.sequence e.sequence n h)
