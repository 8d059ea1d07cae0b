-- ===== src/Clock.antt =====
-- src/roborun/clock.h, and the two additions of business times in runtime.cpp. A clock is its
-- current time and whether it is a VirtualClock; any other clock has the base class's AdvanceTo.
pub mod Laws
use roborun.Prelude.{
  ℤ, pos, negsuc, ◌+◌, ◌-◌, ◌+ℤ◌, ltb, ltbℤ, eqbℤ, Bool, Option, none, some, value_or, Action, ok,
  threw, if◌then◌else◌,
}
use roborun.Types.{BusinessTime}

-- `std::numeric_limits<BusinessTime>::max()`, of a 64-bit signed integer.
abbrev pub time_max : BusinessTime
time_max = pos 9223372036854775807

pub record Clock : Type 0 where
  pub now : BusinessTime
  pub is_virtual : Bool

unfoldable pub advance_to : BusinessTime → Action Clock (Unit {0})
advance_to time c =
    if c.is_virtual
    then (if ltbℤ time c.now
        then threw "virtual clock cannot move backward" c
        else ok tt (record c { now = time }))
    else (if eqbℤ time c.now then ok tt c else threw "clock cannot be advanced by the runtime" c)

-- `now_ > max - duration`, where `duration` is not negative.
unfoldable pub advance_by : BusinessTime → Action Clock (Unit {0})
unfolding advance_to
advance_by (negsuc d) c = threw "virtual clock duration is outside the business time range" c
advance_by (pos d) c =
    if ltbℤ (pos (9223372036854775807 - d)) c.now
    then threw "virtual clock duration is outside the business time range" c
    else advance_to (c.now +ℤ pos d) c

unfoldable pub checked_business_time_add : BusinessTime → BusinessTime → Option BusinessTime
checked_business_time_add (negsuc b) duration = none
checked_business_time_add (pos b) (negsuc d) = none
checked_business_time_add (pos b) (pos d) =
    if ltb (9223372036854775807 - d) b then none else some (pos (b + d))

unfoldable pub saturating_business_time_add : BusinessTime → BusinessTime → BusinessTime
unfolding checked_business_time_add
saturating_business_time_add base duration =
    value_or (checked_business_time_add base duration) time_max
