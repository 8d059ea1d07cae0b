-- ===== src/Backends/Link.antt =====
-- The contract of RobotBackend (robot_backend.h) for the connection, the servo and the motion, and
-- what a client may conclude from it for every record of calls.
pub mod Instances
use roborun.Prelude.{Bool, true, false, List, [], ◌∷◌, ok, ◌≡◌, ◌⊎◌, ap, ◌∙◌, refl, if◌then◌else◌}
use roborun.Types.{MoveJRequest, MotionSubmission, MotionSnapshot}
use roborun.Runtime.State.{DeviceCall}
use roborun.Backends.{RobotBackend, perform, replay}

pub record Link : Type 0 where
  pub connected : Bool
  pub enabled : Bool

-- What a call does to the link, whatever the object behind the interface is.
unfoldable pub link_after : DeviceCall → Link → Link
link_after DeviceCall.connect l = record l { connected = true }
link_after DeviceCall.disconnect l = record { connected = false; enabled = false }
link_after (DeviceCall.set_servo_enabled b) l = if l.connected then record l { enabled = b } else l
link_after _ l = l

-- The link after a record of calls, newest first.
unfoldable pub link_of : Link → List DeviceCall → Link
link_of l [] = l
link_of l (call ∷ earlier) = link_after call (link_of l earlier)

abbrev pub IsOpen : Link → Type 0
IsOpen l = (l.connected ≡ true) × (l.enabled ≡ true)

abbrev pub starts_motion : DeviceCall → Bool
starts_motion (DeviceCall.submit_movej r) = true
starts_motion (DeviceCall.resume_movej r) = true
starts_motion _ = false

-- An object that follows the contract, with its link and whether a motion is under way.
pub record Follows {S : Type 0} (b : RobotBackend S) (link : S → Link) (moving : S → Bool)
    : Type 0 where
  pub tracks : (call : DeviceCall) (s : S) → link (perform b call s) ≡ link_after call (link s)
  pub submits :
      (r : MoveJRequest) (s t : S) (a : MotionSubmission)
      → b.submit_movej r s ≡ ok a t
      → IsOpen (link s)
  pub resumes :
      (r : MoveJRequest) (s t : S) (a : MotionSubmission)
      → b.resume_movej r s ≡ ok a t
      → IsOpen (link s)
  pub polls :
      (s t : S) (a : MotionSnapshot)
      → b.poll_motion s ≡ ok a t
      → ((link s).connected ≡ true) × (moving s ≡ true)
  pub starts :
      (call : DeviceCall) (s : S)
      → moving (perform b call s) ≡ true
      → (moving s ≡ true) ⊎ ((starts_motion call ≡ true) × IsOpen (link s))
  pub ends : (s : S) → moving (perform b DeviceCall.disconnect s) ≡ false

module _ {S : Type 0} (b : RobotBackend S) (link : S → Link) (moving : S → Bool)
    (f : Follows b link moving) where
  -- The link of the object is the one that the record of calls gives.
  pub replay-link_of :
      (s : S) (calls : List DeviceCall) → link (replay b s calls) ≡ link_of (link s) calls
  unfolding replay link_of
  replay-link_of s [] = refl
  replay-link_of s (call ∷ calls) =
      f.tracks call (replay b s calls) ∙ ap (link_after call) (replay-link_of s calls)
