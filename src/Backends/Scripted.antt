-- ===== src/Backends/Scripted.antt =====
-- ScriptedMockBackend of src/roborun/scripted_mock_backend.cpp. The overflow of its `int` counters,
-- undefined in the source, wraps around here.
use roborun.Prelude.{
  ℕ, ℤ, ◌+◌, ◌-◌, ◌%◌, ◌==◌, pos, negsuc, eqbℤ, ltbℤ, Bool, true, false, not, ◌&&◌, ◌||◌, String,
  text_append, List, [], ◌∷◌, ◌++◌, Option, none, some, Outcome, ok, threw, Action, if◌then◌else◌,
}
use roborun.Types.{
  BusinessTime, StopReason, MotionSubmissionStatus, MotionStatus, StopSubmissionStatus, StopStatus,
  MotionPlanOutcome, StopPlanOutcome, JointPositions, no_positions, MoveJRequest, default_command,
  MotionSubmission, MotionSnapshot, StopSubmission, StopSnapshot, MotionPlan, StopPlan,
  MockScenario,
}
use roborun.Types.Names.{stop_reason_to_string}
use roborun.Validator.{Doubles}
use roborun.Backends.{RobotBackend}
use roborun.Backends.Mock.{bad_percent, bad_speed, next_int}
use roborun.EventQueue.{u64_mod}

pub record ScriptedMock : Type 0 where
  pub scenario : MockScenario
  pub connected : Bool
  pub servo_enabled : Bool
  pub motion_submitted : Bool
  pub motion_frozen : Bool
  pub movej_occurrence : ℕ
  pub last_request : MoveJRequest
  pub positions : JointPositions
  pub stop_requests : ℤ
  pub stop_submitted : Bool
  pub stop_failed : Bool
  pub stop_frozen : Bool
  pub stop_delay_ms : BusinessTime
  pub stop_polls : ℤ
  pub call_log : List String

abbrev pub new_scripted : MockScenario → ScriptedMock
new_scripted scenario = record {
  scenario = scenario;
  connected = false;
  servo_enabled = false;
  motion_submitted = false;
  motion_frozen = false;
  movej_occurrence = 0;
  last_request = default_command.movej;
  positions = no_positions;
  stop_requests = pos 0;
  stop_submitted = false;
  stop_failed = false;
  stop_frozen = false;
  stop_delay_ms = pos 0;
  stop_polls = pos 0;
  call_log = [];
}

-- `find` in a map of plans.
unfoldable pub find_plan : {P : Type 0} → ℕ → List (ℕ × P) → Option P
find_plan k [] = none
find_plan k ((j, plan) ∷ plans) = if j == k then some plan else find_plan k plans

unfoldable pub begin_program : ScriptedMock → ScriptedMock
begin_program s = record s {
  movej_occurrence = 0;
  stop_requests = pos 0;
  motion_submitted = false;
  stop_submitted = false;
}

unfoldable pub logged : String → ScriptedMock → ScriptedMock
logged call s = record s { call_log = s.call_log ++ call ∷ [] }

unfoldable pub connect : Action ScriptedMock (Unit {0})
connect s = ok tt (record (logged "connect" s) { connected = true })

unfoldable pub set_servo_enabled : Bool → Action ScriptedMock (Unit {0})
set_servo_enabled enabled s =
    let t = logged (if enabled then "servo_on" else "servo_off") s in
    if not t.connected
    then threw "scripted mock backend is not connected" t
    else ok tt (record t { servo_enabled = enabled })

accept_motion : BusinessTime → ScriptedMock → Outcome ScriptedMock MotionSubmission
accept_motion delay s =
    ok
      (record {
        status = MotionSubmissionStatus.accepted;
        message = "";
        poll_after_ms = some delay;
      })
      s

-- The end of SubmitMotion, by the plan that was found.
unfoldable pub plan_motion :
    Option MotionPlan → ScriptedMock → Outcome ScriptedMock MotionSubmission
unfolding accept_motion
plan_motion none s = accept_motion (pos 0) s
plan_motion (some plan) s = elim plan.outcome [
  | MotionPlanOutcome.immediate_success ↦ accept_motion (pos 0) s
  | MotionPlanOutcome.rejected ↦
      ok
        (record {
          status = MotionSubmissionStatus.rejected;
          message = "motion target was rejected";
          poll_after_ms = some (pos 0);
        })
        (record s { motion_submitted = false })
  | MotionPlanOutcome.frozen ↦ accept_motion (pos 0) (record s { motion_frozen = true })
  | MotionPlanOutcome.delayed_success ↦ accept_motion plan.delay_ms s
]

unfoldable pub next_occurrence : Bool → ScriptedMock → ℕ
next_occurrence resume s = if resume then s.movej_occurrence else (s.movej_occurrence + 1) % u64_mod

-- The writes of SubmitMotion before it looks for the plan.
unfoldable pub take_request : MoveJRequest → Bool → ScriptedMock → ScriptedMock
take_request request resume s = record s {
  last_request = request;
  movej_occurrence = next_occurrence resume s;
  motion_submitted = true;
  motion_frozen = false;
}

unfoldable pub submit_motion : Doubles → MoveJRequest → Bool → Action ScriptedMock MotionSubmission
submit_motion doubles request resume s =
    let t = logged "submit_movej" s in
    if not t.connected || not t.servo_enabled
    then threw "scripted mock backend requires an enabled servo" t
    else if bad_percent request || bad_speed doubles request
    then threw "scripted mock backend received invalid motion parameters" t
    else plan_motion (find_plan (next_occurrence resume t) t.scenario.motion_plans)
        (take_request request resume t)

unfoldable pub submit_movej : Doubles → MoveJRequest → Action ScriptedMock MotionSubmission
submit_movej doubles request = submit_motion doubles request false

unfoldable pub resume_movej : Doubles → MoveJRequest → Action ScriptedMock MotionSubmission
resume_movej doubles request = submit_motion doubles request true

unfoldable pub poll_motion : Action ScriptedMock MotionSnapshot
poll_motion s =
    let t = logged "poll_motion" s in
    if not t.connected || not t.motion_submitted
    then threw "scripted mock backend has no submitted motion" t
    else if t.motion_frozen
    then ok
        (record {
          status = MotionStatus.running;
          positions = t.positions;
          backend_steps = pos 0;
          message = "";
          poll_after_ms = none;
        })
        t
    else ok
        (record {
          status = MotionStatus.succeeded;
          positions = t.last_request.targets;
          backend_steps = pos 1;
          message = "";
          poll_after_ms = none;
        })
        (record t { positions = t.last_request.targets; motion_submitted = false })

accept_stop : ScriptedMock → Outcome ScriptedMock StopSubmission
accept_stop s =
    ok
      (record {
        status = StopSubmissionStatus.accepted;
        message = "";
        poll_after_ms = some (pos 0);
      })
      s

-- The end of SubmitStop, by the plan that was found.
unfoldable pub plan_stop : Option StopPlan → ScriptedMock → Outcome ScriptedMock StopSubmission
unfolding accept_stop
plan_stop none s = accept_stop s
plan_stop (some plan) s = elim plan.outcome [
  | StopPlanOutcome.immediate_confirmation ↦ accept_stop s
  | StopPlanOutcome.rejected ↦
      ok
        (record {
          status = StopSubmissionStatus.rejected;
          message = "stop request was rejected";
          poll_after_ms = none;
        })
        (record s { stop_submitted = false })
  | StopPlanOutcome.never_confirmed ↦ accept_stop (record s { stop_frozen = true })
  | StopPlanOutcome.failed ↦ accept_stop (record s { stop_failed = true })
  | StopPlanOutcome.delayed_confirmation ↦ accept_stop (record s { stop_delay_ms = plan.delay_ms })
]

-- `static_cast<std::size_t>` of an `int`.
unfoldable pub size_of_int : ℤ → ℕ
size_of_int (pos n) = n
size_of_int (negsuc n) = u64_mod - (n + 1)

-- The call in the log and in the count of requests.
unfoldable pub count_stop : StopReason → ScriptedMock → ScriptedMock
count_stop reason s =
    record (logged (text_append "submit_stop:" (stop_reason_to_string reason)) s) {
      stop_requests = next_int s.stop_requests;
    }

unfoldable pub reset_stop : ScriptedMock → ScriptedMock
reset_stop s = record s {
  stop_submitted = true;
  stop_failed = false;
  stop_frozen = false;
  stop_delay_ms = pos 0;
  stop_polls = pos 0;
}

unfoldable pub submit_stop : StopReason → Action ScriptedMock StopSubmission
submit_stop reason s =
    let t = count_stop reason s in
    if not t.connected
    then ok
        (record {
          status = StopSubmissionStatus.rejected;
          message = "scripted mock backend is not connected";
          poll_after_ms = none;
        })
        t
    else plan_stop (find_plan (size_of_int t.stop_requests) t.scenario.stop_plans) (reset_stop t)

unfoldable pub stop_snapshot :
    StopStatus → String → Option BusinessTime → ScriptedMock → StopSnapshot
stop_snapshot status message poll_after s = record {
  status = status;
  positions = s.positions;
  backend_steps = s.stop_polls;
  message = message;
  poll_after_ms = poll_after;
}

-- PollStop of a submitted stop, behind the count of the poll.
unfoldable pub polled_stop : Action ScriptedMock StopSnapshot
polled_stop t =
    if t.stop_failed
    then ok (stop_snapshot StopStatus.failed "stop polling failed" none t) t
    else if t.stop_frozen
    then ok (stop_snapshot StopStatus.stopping "" (some (pos 10)) t) t
    else if ltbℤ (pos 0) t.stop_delay_ms && eqbℤ t.stop_polls (pos 1)
    then ok (stop_snapshot StopStatus.stopping "" (some t.stop_delay_ms) t) t
    else ok (stop_snapshot StopStatus.stopped "" none t)
        (record t { motion_submitted = false; stop_submitted = false })

unfoldable pub poll_stop : Action ScriptedMock StopSnapshot
poll_stop s =
    let t = logged "poll_stop" s in
    if not t.connected || not t.stop_submitted
    then ok (stop_snapshot StopStatus.failed "stop was not submitted" none t) t
    else polled_stop (record t { stop_polls = next_int t.stop_polls })

unfoldable pub disconnect : Action ScriptedMock (Unit {0})
disconnect s = ok tt (record (logged "disconnect" s) {
  connected = false;
  servo_enabled = false;
  motion_submitted = false;
})

unfoldable pub scripted_mock_backend : Doubles → RobotBackend ScriptedMock
scripted_mock_backend doubles = record {
  name = "scripted-mock";
  version = "roborun-scripted-mock-v1";
  begin_program = begin_program;
  connect = connect;
  set_servo_enabled = set_servo_enabled;
  submit_movej = submit_movej doubles;
  resume_movej = resume_movej doubles;
  poll_motion = poll_motion;
  submit_stop = submit_stop;
  poll_stop = poll_stop;
  disconnect = disconnect;
}
