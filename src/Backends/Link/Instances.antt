-- ===== src/Backends/Link/Instances.antt =====
-- About the two mock backends behind the contract of the interface.
use roborun.Prelude.{Bool, true, false, Option, ok, after, ◌≡◌, ◌⊎◌, refl, arith}
use roborun.Types.{StopReason, MoveJRequest, MotionSubmission, MotionSnapshot, MotionPlan, StopPlan}
use roborun.Runtime.State.{DeviceCall}
use roborun.Validator.{Doubles}
use roborun.Backends.{perform}
use roborun.Backends.Mock as Mock
use roborun.Backends.Mock.{MockRobot, mock_robot_backend}
use roborun.Backends.Scripted as Scripted
use roborun.Backends.Scripted.{ScriptedMock, scripted_mock_backend}
use roborun.Backends.Link.{Link, link_after, IsOpen, Follows, starts_motion}

abbrev pub mock_link : MockRobot → Link
mock_link s = record { connected = s.connected; enabled = s.servo_enabled }

module _ (doubles : Doubles) where
  mock_submit-IsOpen :
      (r : MoveJRequest) (s t : MockRobot) (a : MotionSubmission)
      → Mock.submit_movej doubles r s ≡ ok a t
      → IsOpen (mock_link s)
  unfolding Mock.submit_movej
  mock_submit-IsOpen r s t a h = grind arith

  mock_polls :
      (s t : MockRobot) (a : MotionSnapshot)
      → Mock.poll_motion s ≡ ok a t
      → (s.connected ≡ true) × (s.motion_submitted ≡ true)
  unfolding Mock.poll_motion
  mock_polls s t a h = grind arith

  mock_tracks :
      (call : DeviceCall) (s : MockRobot)
      → mock_link (perform (mock_robot_backend doubles) call s) ≡ link_after call (mock_link s)
  unfolding perform link_after mock_robot_backend Mock.connect Mock.set_servo_enabled
      Mock.submit_movej Mock.poll_motion Mock.submit_stop Mock.poll_stop Mock.disconnect
  mock_tracks call s = grind arith

  mock_starts :
      (call : DeviceCall) (s : MockRobot)
      → (perform (mock_robot_backend doubles) call s).motion_submitted ≡ true
      → (s.motion_submitted ≡ true) ⊎ ((starts_motion call ≡ true) × IsOpen (mock_link s))
  unfolding perform mock_robot_backend Mock.connect Mock.set_servo_enabled Mock.submit_movej
      Mock.poll_motion Mock.submit_stop Mock.poll_stop Mock.disconnect
  mock_starts call s h = grind arith

  mock_ends :
      (s : MockRobot)
      → (perform (mock_robot_backend doubles) DeviceCall.disconnect s).motion_submitted ≡ false
  unfolding perform mock_robot_backend Mock.disconnect
  mock_ends s = refl

  -- MockRobotBackend follows the contract of RobotBackend: each call moves its connection and servo
  -- flags as the contract says, it takes a motion only while connected with the servo enabled,
  -- answers a poll only while connected with a motion under way, starts a motion on no other call,
  -- and ends it when disconnected.
  pub mock_robot_backend-Follows :
      Follows (mock_robot_backend doubles) mock_link (λ s. s.motion_submitted)
  mock_robot_backend-Follows = record {
    tracks = mock_tracks;
    submits = unfold mock_robot_backend in mock_submit-IsOpen;
    resumes = unfold mock_robot_backend in mock_submit-IsOpen;
    polls = unfold mock_robot_backend in mock_polls;
    starts = mock_starts;
    ends = mock_ends;
  }

abbrev pub scripted_link : ScriptedMock → Link
scripted_link s = record { connected = s.connected; enabled = s.servo_enabled }

plan_motion-link :
    (plan : Option MotionPlan) (s : ScriptedMock)
    → scripted_link (after (Scripted.plan_motion plan s)) ≡ scripted_link s
unfolding Scripted.plan_motion
plan_motion-link plan s = grind arith

plan_stop-link :
    (plan : Option StopPlan) (s : ScriptedMock)
    → (scripted_link (after (Scripted.plan_stop plan s)) ≡ scripted_link s)
      × ((after (Scripted.plan_stop plan s)).motion_submitted ≡ s.motion_submitted)
unfolding Scripted.plan_stop
plan_stop-link plan s = grind arith

module _ (doubles : Doubles) where
  submit_motion-IsOpen :
      (resume : Bool) (r : MoveJRequest) (s t : ScriptedMock) (a : MotionSubmission)
      → Scripted.submit_motion doubles r resume s ≡ ok a t
      → IsOpen (scripted_link s)
  unfolding Scripted.submit_motion Scripted.logged
  submit_motion-IsOpen resume r s t a h = grind arith

  submit_motion_lem :
      (resume : Bool) (r : MoveJRequest) (s : ScriptedMock)
      → (scripted_link (after (Scripted.submit_motion doubles r resume s)) ≡ scripted_link s)
        × ((after (Scripted.submit_motion doubles r resume s)).motion_submitted ≡ true
            → (s.motion_submitted ≡ true) ⊎ IsOpen (scripted_link s))
  unfolding Scripted.submit_motion Scripted.logged Scripted.take_request
  submit_motion_lem resume r s = grind (arith, plan_motion-link)

  submit_stop_lem :
      (reason : StopReason) (s : ScriptedMock)
      → (scripted_link (after (Scripted.submit_stop reason s)) ≡ scripted_link s)
        × ((after (Scripted.submit_stop reason s)).motion_submitted ≡ s.motion_submitted)
  unfolding Scripted.submit_stop Scripted.count_stop Scripted.reset_stop Scripted.logged
  submit_stop_lem reason s = grind (arith, plan_stop-link)

  scripted_polls :
      (s t : ScriptedMock) (a : MotionSnapshot)
      → Scripted.poll_motion s ≡ ok a t
      → (s.connected ≡ true) × (s.motion_submitted ≡ true)
  unfolding Scripted.poll_motion Scripted.logged
  scripted_polls s t a h = grind arith

  scripted_tracks :
      (call : DeviceCall) (s : ScriptedMock)
      → scripted_link (perform (scripted_mock_backend doubles) call s)
        ≡ link_after call (scripted_link s)
  unfolding perform link_after scripted_mock_backend Scripted.connect Scripted.set_servo_enabled
      Scripted.submit_movej Scripted.resume_movej Scripted.poll_motion Scripted.poll_stop
      Scripted.polled_stop Scripted.disconnect Scripted.begin_program Scripted.logged
  scripted_tracks call s = grind (arith, submit_motion_lem, submit_stop_lem)

  scripted_starts :
      (call : DeviceCall) (s : ScriptedMock)
      → (perform (scripted_mock_backend doubles) call s).motion_submitted ≡ true
      → (s.motion_submitted ≡ true) ⊎ ((starts_motion call ≡ true) × IsOpen (scripted_link s))
  unfolding perform scripted_mock_backend Scripted.connect Scripted.set_servo_enabled
      Scripted.submit_movej Scripted.resume_movej Scripted.poll_motion Scripted.poll_stop
      Scripted.polled_stop Scripted.disconnect Scripted.begin_program Scripted.logged
  scripted_starts call s h = grind (arith, submit_motion_lem, submit_stop_lem)

  scripted_ends :
      (s : ScriptedMock)
      → (perform (scripted_mock_backend doubles) DeviceCall.disconnect s).motion_submitted ≡ false
  unfolding perform scripted_mock_backend Scripted.disconnect Scripted.logged
  scripted_ends s = refl

  -- ScriptedMockBackend follows the contract of RobotBackend, whatever its scenario plans: each call
  -- moves its connection and servo flags as the contract says, it takes a motion only while
  -- connected with the servo enabled, answers a poll only while connected with a motion under way,
  -- starts a motion on no other call, and ends it when disconnected.
  pub scripted_mock_backend-Follows :
      Follows (scripted_mock_backend doubles) scripted_link (λ s. s.motion_submitted)
  scripted_mock_backend-Follows = record {
    tracks = scripted_tracks;
    submits = unfold scripted_mock_backend Scripted.submit_movej in submit_motion-IsOpen false;
    resumes = unfold scripted_mock_backend Scripted.resume_movej in submit_motion-IsOpen true;
    polls = unfold scripted_mock_backend in scripted_polls;
    starts = scripted_starts;
    ends = scripted_ends;
  }
