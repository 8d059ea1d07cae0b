-- ===== src/Backends/Mock.antt =====
-- MockRobotBackend of src/roborun/mock_robot_backend.cpp.
use roborun.Prelude.{
  ℤ, pos, negsuc, ◌+ℤ◌, eqbℤ, ltbℤ, Bool, true, false, not, ◌||◌, none, some, ok, threw, Action,
  if◌then◌else◌,
}
use roborun.Types.{
  StopReason, MotionSubmissionStatus, MotionStatus, StopSubmissionStatus, StopStatus,
  JointPositions, no_positions, MoveJRequest, default_command, MotionSubmission, MotionSnapshot,
  StopSubmission, StopSnapshot,
}
use roborun.Validator.{Doubles}
use roborun.Backends.{RobotBackend}

-- `++` on an `int`. Its overflow, undefined in the source, wraps around here.
unfoldable pub next_int : ℤ → ℤ
next_int n = if eqbℤ n (pos 2147483647) then negsuc 2147483647 else n +ℤ pos 1

pub record MockRobot : Type 0 where
  pub connected : Bool
  pub servo_enabled : Bool
  pub motion_submitted : Bool
  pub positions : JointPositions
  pub last_request : MoveJRequest
  pub stop_steps : ℤ

abbrev pub new_mock : MockRobot
new_mock = record {
  connected = false;
  servo_enabled = false;
  motion_submitted = false;
  positions = no_positions;
  last_request = default_command.movej;
  stop_steps = pos 0;
}

unfoldable pub connect : Action MockRobot (Unit {0})
connect s = ok tt (record s { connected = true })

unfoldable pub set_servo_enabled : Bool → Action MockRobot (Unit {0})
set_servo_enabled enabled s =
    if not s.connected
    then threw "mock backend is not connected" s
    else ok tt (record s { servo_enabled = enabled })

-- `!std::isfinite(x) || x <= 0.0`, where the pattern 0 is 0.0.
unfoldable pub bad_speed : Doubles → MoveJRequest → Bool
bad_speed doubles request =
    not (doubles.is_finite request.joint_speed_radians_per_second)
    || not (doubles.less 0 request.joint_speed_radians_per_second)

unfoldable pub bad_percent : MoveJRequest → Bool
bad_percent request = ltbℤ request.speed_percent (pos 1) || ltbℤ (pos 100) request.speed_percent

unfoldable pub submit_movej : Doubles → MoveJRequest → Action MockRobot MotionSubmission
submit_movej doubles request s =
    if bad_percent request
    then threw "mock backend requires speed_percent in the range 1 to 100" s
    else if bad_speed doubles request
    then threw "mock backend requires a positive finite joint speed" s
    else if not s.connected || not s.servo_enabled
    then threw "mock backend requires an enabled servo" s
    else ok
        (record {
          status = MotionSubmissionStatus.accepted;
          message = "";
          poll_after_ms = some (pos 0);
        })
        (record s { last_request = request; positions = request.targets; motion_submitted = true })

unfoldable pub poll_motion : Action MockRobot MotionSnapshot
poll_motion s =
    if not s.connected || not s.motion_submitted
    then threw "mock backend has no submitted motion" s
    else ok
        (record {
          status = MotionStatus.succeeded;
          positions = s.positions;
          backend_steps = pos 1;
          message = "";
          poll_after_ms = none;
        })
        (record s { motion_submitted = false })

unfoldable pub submit_stop : StopReason → Action MockRobot StopSubmission
submit_stop reason s =
    if not s.connected
    then ok
        (record {
          status = StopSubmissionStatus.rejected;
          message = "mock backend is not connected";
          poll_after_ms = none;
        })
        s
    else ok
        (record {
          status = StopSubmissionStatus.accepted;
          message = "";
          poll_after_ms = some (pos 0);
        })
        (record s { motion_submitted = false; stop_steps = pos 0 })

unfoldable pub poll_stop : Action MockRobot StopSnapshot
poll_stop s =
    if not s.connected
    then ok
        (record {
          status = StopStatus.failed;
          positions = s.positions;
          backend_steps = s.stop_steps;
          message = "mock backend is not connected";
          poll_after_ms = none;
        })
        s
    else ok
        (record {
          status = StopStatus.stopped;
          positions = s.positions;
          backend_steps = next_int s.stop_steps;
          message = "";
          poll_after_ms = none;
        })
        (record s { stop_steps = next_int s.stop_steps })

unfoldable pub disconnect : Action MockRobot (Unit {0})
disconnect s =
    ok tt (record s { connected = false; servo_enabled = false; motion_submitted = false })

-- BeginProgram and ResumeMoveJ are those of the interface.
unfoldable pub mock_robot_backend : Doubles → RobotBackend MockRobot
mock_robot_backend doubles = record {
  name = "mock";
  version = "roborun-mock-v1";
  begin_program = λ s. s;
  connect = connect;
  set_servo_enabled = set_servo_enabled;
  submit_movej = submit_movej doubles;
  resume_movej = submit_movej doubles;
  poll_motion = poll_motion;
  submit_stop = submit_stop;
  poll_stop = poll_stop;
  disconnect = disconnect;
}
