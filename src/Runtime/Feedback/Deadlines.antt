-- ===== src/Runtime/Feedback/Deadlines.antt =====
-- About ScheduleMotionPoll (runtime.cpp).
use roborun.Prelude.{ℕ, pos, ◌≤◌, ◌≡◌, true, some, arith, lebℤ, maxℤ, minℤ}
use roborun.Types.{BusinessTime, ActiveCommand}
use roborun.Clock.{saturating_business_time_add, checked_business_time_add}
use roborun.Runtime.State.{Session, now}
use roborun.Runtime.Feedback.{poll_time}

saturating_ge :
    (b : ℕ) (d : BusinessTime)
    → b ≤ 9223372036854775807
    → lebℤ (pos b) (saturating_business_time_add (pos b) d) ≡ true
unfolding saturating_business_time_add checked_business_time_add
saturating_ge b d h = ground arith

poll_time_deadline :
    (delay : BusinessTime) (s : Session) (a : ActiveCommand) (d : BusinessTime)
    → s.active_command ≡ some a
    → a.deadline_ms ≡ some d
    → poll_time delay s ≡ minℤ (saturating_business_time_add (now s) (maxℤ (pos 0) delay)) d
unfolding poll_time
poll_time_deadline delay s a d h k = grind (arith, h, k)

min_between :
    (n x d : BusinessTime)
    → lebℤ n x ≡ true
    → lebℤ n d ≡ true
    → (lebℤ n (minℤ x d) ≡ true) × (lebℤ (minℤ x d) d ≡ true)
min_between n x d h k = ground arith

-- At a 64-bit time of the clock from 0 up to the deadline of the active command, and whatever delay
-- the backend asks for, negative or beyond the range included: the next poll is due no earlier than
-- now and no later than the deadline.
pub poll_before_deadline :
    (delay : BusinessTime) (s : Session) (a : ActiveCommand) (n : ℕ) (d : BusinessTime)
    → s.active_command ≡ some a
    → a.deadline_ms ≡ some d
    → now s ≡ pos n
    → n ≤ 9223372036854775807
    → lebℤ (pos n) d ≡ true
    → (lebℤ (now s) (poll_time delay s) ≡ true) × (lebℤ (poll_time delay s) d ≡ true)
poll_before_deadline delay s a n d h k c l m =
    rw (poll_time_deadline delay s a d h k, c) (min_between (pos n) _ d (saturating_ge n _ l) m)
