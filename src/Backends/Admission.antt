-- ===== src/Backends/Admission.antt =====
-- About the motions that ScriptedMockBackend (scripted_mock_backend.cpp) takes, behind any record of
-- calls.
use roborun.Prelude.{
  pos, ltbℤ, Bool, true, false, Option, List, length, ◌<◌, Outcome, ok, threw, ◌≡◌, ◌↔◌, arith,
}
use roborun.Types.{MoveJRequest, MotionPlan, MockScenario}
use roborun.Validator.{Doubles}
use roborun.Runtime.State.{DeviceCall}
use roborun.Backends.{replay}
use roborun.Backends.Mock.{bad_percent, bad_speed}
use roborun.Backends.Scripted.{
  ScriptedMock, new_scripted, logged, plan_motion, submit_motion, submit_movej, resume_movej,
  scripted_mock_backend,
}
use roborun.Backends.Link.{Link, link_of, IsOpen, replay-link_of}
use roborun.Backends.Link.Instances.{scripted_link, scripted_mock_backend-Follows}

-- The call answers, rather than throws.
abbrev pub answered : {S A : Type 0} → Outcome S A → Bool
answered (ok a s) = true
answered (threw e s) = false

-- No connection, and the servo off.
abbrev closed : Link
closed = record { connected = false; enabled = false }

plan_motion-answered :
    (plan : Option MotionPlan) (s : ScriptedMock) → answered (plan_motion plan s) ≡ true
unfolding plan_motion
plan_motion-answered plan s = grind arith

module _ (doubles : Doubles) where
  -- A speed of 1 to 100 percent, of a joint speed that is finite and positive.
  abbrev MovesSafely : MoveJRequest → Type 0
  MovesSafely r =
      (ltbℤ r.speed_percent (pos 1) ≡ false)
      × (ltbℤ (pos 100) r.speed_percent ≡ false)
      × (doubles.is_finite r.joint_speed_radians_per_second ≡ true)
      × (doubles.less 0 r.joint_speed_radians_per_second ≡ true)

  -- The calls so far, newest first, have opened the connection and then enabled the servo, and the
  -- request is within its bounds.
  abbrev pub Allowed : List DeviceCall → MoveJRequest → Type 0
  Allowed calls r = IsOpen (link_of closed calls) × MovesSafely r

  submit_motion_iff :
      (resume : Bool) (r : MoveJRequest) (s : ScriptedMock)
      → (answered (submit_motion doubles r resume s) ≡ true)
        ↔ (IsOpen (scripted_link s) × MovesSafely r)
  unfolding submit_motion logged bad_percent bad_speed
  submit_motion_iff resume r s = grind (arith, plan_motion-answered)

  -- Behind any record of fewer than 2^31 calls, which no `int` counter overflows on, to a new
  -- ScriptedMockBackend, SubmitMoveJ and ResumeMoveJ answer, and do not throw, exactly if those
  -- calls have left it connected with its servo enabled and the request has a speed of 1 to 100
  -- percent and a finite positive joint speed.
  pub motion_admitted_iff :
      (scenario : MockScenario) (calls : List DeviceCall) (r : MoveJRequest)
      → length calls < 2147483648
      → let s = replay (scripted_mock_backend doubles) (new_scripted scenario) calls in
        ((answered (submit_movej doubles r s) ≡ true) ↔ Allowed calls r)
        × ((answered (resume_movej doubles r s) ≡ true) ↔ Allowed calls r)
  unfolding submit_movej resume_movej
  motion_admitted_iff scenario calls r _ =
      let s = replay (scripted_mock_backend doubles) (new_scripted scenario) calls in
      rw
        (← replay-link_of (scripted_mock_backend doubles) scripted_link (λ s. s.motion_submitted)
          (scripted_mock_backend-Follows doubles) (new_scripted scenario) calls)
        (submit_motion_iff false r s, submit_motion_iff true r s)
