-- ===== src/Clock/Laws.antt =====
-- About src/roborun/clock.h and the additions of business times in runtime.cpp.
use roborun.Prelude.{ℕ, pos, negsuc, ◌+◌, ◌≤◌, ◌≡◌, ◌⊎◌, false, none, some, arith, ltbℤ, after}
use roborun.Types.{BusinessTime}
use roborun.Clock.{
  Clock, time_max, advance_to, checked_business_time_add, saturating_business_time_add,
}

-- A 64-bit signed time that is not negative.
abbrev pub InRange : BusinessTime → Type 0
InRange (pos n) = n ≤ 9223372036854775807
InRange (negsuc n) = ⊥

-- For times that are not negative and in range: the checked sum and the saturating sum are the
-- exact sum, in range; or the checked sum is refused and the saturating one the 64-bit maximum, and
-- the exact sum is above that maximum.
pub time_add_bounds :
    (b d : ℕ)
    → InRange (pos b)
    → InRange (pos d)
    → ((checked_business_time_add (pos b) (pos d) ≡ some (pos (b + d)))
        × (saturating_business_time_add (pos b) (pos d) ≡ pos (b + d))
        × InRange (pos (b + d)))
      ⊎ ((checked_business_time_add (pos b) (pos d) ≡ none)
          × (saturating_business_time_add (pos b) (pos d) ≡ time_max)
          × (9223372036854775808 ≤ b + d))
unfolding saturating_business_time_add
time_add_bounds b d h k = ground arith

-- `AdvanceTo` never moves a clock back, whether it returns or throws.
advance_to_monotone :
    (time : BusinessTime) (c : Clock) → ltbℤ (after (advance_to time c)).now c.now ≡ false
unfolding advance_to
advance_to_monotone time c = ground arith
