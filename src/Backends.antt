-- ===== src/Backends.antt =====
-- The interface RobotBackend of src/roborun/robot_backend.h over the object's state, and the
-- answers of an object behind it to the calls that a session records.
pub mod Mock
pub mod Scripted
pub mod Link
pub mod Admission
pub mod Stops
pub mod Resumption
use roborun.Prelude.{Bool, String, List, [], ◌∷◌, Outcome, ok, threw, Action, after}
use roborun.Types.{
  StopReason, MoveJRequest, MotionSubmission, MotionSnapshot, StopSubmission, StopSnapshot,
}
use roborun.Runtime.State.{DeviceCall, Reply, Devices}

-- `S` is the state of the object; a method may throw what it has written so far.
pub record RobotBackend (S : Type 0) : Type 0 where
  pub name : String
  pub version : String
  pub begin_program : S → S
  pub connect : Action S (Unit {0})
  pub set_servo_enabled : Bool → Action S (Unit {0})
  pub submit_movej : MoveJRequest → Action S MotionSubmission
  pub resume_movej : MoveJRequest → Action S MotionSubmission
  pub poll_motion : Action S MotionSnapshot
  pub submit_stop : StopReason → Action S StopSubmission
  pub poll_stop : Action S StopSnapshot
  pub disconnect : Action S (Unit {0})

abbrev pub replied : {S A : Type 0} → Outcome S A → Reply A
replied (ok a s) = Reply.returns a
replied (threw e s) = Reply.throws e

module _ {S : Type 0} (b : RobotBackend S) where
  -- The state that a call leaves. The workcell's calls go to another object.
  unfoldable pub perform : DeviceCall → S → S
  perform DeviceCall.begin_program s = b.begin_program s
  perform DeviceCall.connect s = after (b.connect s)
  perform DeviceCall.disconnect s = after (b.disconnect s)
  perform DeviceCall.poll_motion s = after (b.poll_motion s)
  perform DeviceCall.poll_stop s = after (b.poll_stop s)
  perform (DeviceCall.set_servo_enabled enabled) s = after (b.set_servo_enabled enabled s)
  perform (DeviceCall.submit_movej request) s = after (b.submit_movej request s)
  perform (DeviceCall.resume_movej request) s = after (b.resume_movej request s)
  perform (DeviceCall.submit_stop reason) s = after (b.submit_stop reason s)
  perform _ s = s

  -- The state after a record of calls, newest first.
  unfoldable pub replay : S → List DeviceCall → S
  replay s [] = s
  replay s (call ∷ earlier) = perform call (replay s earlier)

  -- The answer to the newest call, if it is one of the method's.
  unfoldable pub answer_of :
      {A : Type 0} → S → (DeviceCall → S → Reply A) → List DeviceCall → Reply A
  answer_of s method [] = Reply.throws "no call"
  answer_of s method (call ∷ earlier) = method call (replay s earlier)

  -- The object in the place of the robot of a session, with the answers of `workcell` for the rest.
  unfoldable pub devices_of : S → Devices → Devices
  devices_of s workcell = record workcell {
    name = b.name;
    version = b.version;
    connect = answer_of s (λ call t. replied (b.connect t));
    set_servo_enabled = answer_of s (λ call t. elim call [
      | DeviceCall.set_servo_enabled enabled ↦ replied (b.set_servo_enabled enabled t)
      | _ ↦ Reply.throws "another call"
    ]);
    submit_movej = answer_of s (λ call t. elim call [
      | DeviceCall.submit_movej request ↦ replied (b.submit_movej request t)
      | _ ↦ Reply.throws "another call"
    ]);
    resume_movej = answer_of s (λ call t. elim call [
      | DeviceCall.resume_movej request ↦ replied (b.resume_movej request t)
      | _ ↦ Reply.throws "another call"
    ]);
    poll_motion = answer_of s (λ call t. replied (b.poll_motion t));
    submit_stop = answer_of s (λ call t. elim call [
      | DeviceCall.submit_stop reason ↦ replied (b.submit_stop reason t)
      | _ ↦ Reply.throws "another call"
    ]);
    poll_stop = answer_of s (λ call t. replied (b.poll_stop t));
    disconnect = answer_of s (λ call t. replied (b.disconnect t));
  }
