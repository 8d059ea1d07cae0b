-- ===== src/Backends/Resumption.antt =====
-- About the motions that ScriptedMockBackend (scripted_mock_backend.cpp) resumes.
use roborun.Prelude.{
  ℕ, pos, Bool, true, false, Option, none, some, List, [], ◌∷◌, ok, after, ◌≡◌, refl, ap, sym, ◌∙◌,
  arith,
}
use roborun.Types.{
  StopReason, MotionSubmissionStatus, MotionPlanOutcome, MoveJRequest, MotionPlan, StopPlan,
  MotionSubmission, MockScenario,
}
use roborun.Validator.{Doubles}
use roborun.Runtime.State.{DeviceCall}
use roborun.Backends.{perform, replay}
use roborun.Backends.Scripted.{
  ScriptedMock, find_plan, logged, plan_motion, next_occurrence, take_request, submit_motion,
  submit_movej, resume_movej, poll_motion, plan_stop, count_stop, reset_stop, submit_stop,
  polled_stop, poll_stop, connect, disconnect, set_servo_enabled, scripted_mock_backend,
}

-- A call that starts no other motion of the program.
abbrev pub keeps_motion : DeviceCall → Bool
keeps_motion DeviceCall.begin_program = false
keeps_motion (DeviceCall.submit_movej r) = false
keeps_motion _ = true

abbrev pub AllKeep : List DeviceCall → Type 0
AllKeep [] = Unit
AllKeep (call ∷ calls) = (keeps_motion call ≡ true) × AllKeep calls

-- The plan of the motion that was last submitted.
abbrev current : ScriptedMock → ℕ × MockScenario
current s = (s.movej_occurrence, s.scenario)

plan_motion-current :
    (plan : Option MotionPlan) (s : ScriptedMock) → current (after (plan_motion plan s)) ≡ current s
unfolding plan_motion
plan_motion-current plan s = grind arith

plan_stop-current :
    (plan : Option StopPlan) (s : ScriptedMock) → current (after (plan_stop plan s)) ≡ current s
unfolding plan_stop
plan_stop-current plan s = grind arith

module _ (doubles : Doubles) where
  resume-current :
      (r : MoveJRequest) (s : ScriptedMock) → current (after (resume_movej doubles r s)) ≡ current s
  unfolding resume_movej submit_motion logged take_request next_occurrence
  resume-current r s = grind (arith, plan_motion-current)

  submit_stop-current :
      (reason : StopReason) (s : ScriptedMock) → current (after (submit_stop reason s)) ≡ current s
  unfolding submit_stop count_stop reset_stop logged
  submit_stop-current reason s = grind (arith, plan_stop-current)

  perform-current :
      (call : DeviceCall) (s : ScriptedMock)
      → keeps_motion call ≡ true
      → current (perform (scripted_mock_backend doubles) call s) ≡ current s
  unfolding perform scripted_mock_backend connect disconnect set_servo_enabled poll_motion poll_stop
      polled_stop logged
  perform-current call s h = grind (arith, resume-current, submit_stop-current)

  replay-current :
      (calls : List DeviceCall) (s : ScriptedMock)
      → AllKeep calls
      → current (replay (scripted_mock_backend doubles) s calls) ≡ current s
  unfolding replay
  replay-current [] s h = refl
  replay-current (call ∷ calls) s (h, hs) =
      perform-current call (replay (scripted_mock_backend doubles) s calls) h
      ∙ replay-current calls s hs

  -- What SubmitMotion answers, by the plan.
  answer_by : Option MotionPlan → MotionSubmission
  answer_by none = record {
    status = MotionSubmissionStatus.accepted;
    message = "";
    poll_after_ms = some (pos 0);
  }
  answer_by (some plan) = elim plan.outcome [
    | MotionPlanOutcome.rejected ↦ record {
      status = MotionSubmissionStatus.rejected;
      message = "motion target was rejected";
      poll_after_ms = some (pos 0);
    }
    | MotionPlanOutcome.delayed_success ↦ record {
      status = MotionSubmissionStatus.accepted;
      message = "";
      poll_after_ms = some plan.delay_ms;
    }
    | _ ↦ record {
      status = MotionSubmissionStatus.accepted;
      message = "";
      poll_after_ms = some (pos 0);
    }
  ]

  planned : ℕ × MockScenario → Option MotionPlan
  planned (k, scenario) = find_plan k scenario.motion_plans

  plan_motion_answer :
      (plan : Option MotionPlan) (s t : ScriptedMock) (a : MotionSubmission)
      → plan_motion plan s ≡ ok a t
      → (a ≡ answer_by plan) × (current t ≡ current s)
  unfolding plan_motion answer_by
  plan_motion_answer plan s t a h = grind arith

  submit_motion_answer :
      (resume : Bool) (r : MoveJRequest) (s t : ScriptedMock) (a : MotionSubmission)
      → submit_motion doubles r resume s ≡ ok a t
      → (a ≡ answer_by (planned (current t))) × (current t ≡ (next_occurrence resume s, s.scenario))
  unfolding submit_motion logged take_request planned next_occurrence
  submit_motion_answer resume r s t a h = grind (arith, plan_motion_answer)

  same_occurrence : (s : ScriptedMock) → (next_occurrence true s, s.scenario) ≡ current s
  unfolding next_occurrence
  same_occurrence s = refl

  -- ScriptedMockBackend resumes a motion by the plan that it was submitted under: after any further
  -- calls that neither begin a program nor submit another motion, ResumeMoveJ gives, if it does not
  -- throw, the same answer as the SubmitMoveJ did, with the same delay.
  pub resumed_as_submitted :
      (r r' : MoveJRequest) (s t v : ScriptedMock) (a a' : MotionSubmission)
      (calls : List DeviceCall)
      → submit_movej doubles r s ≡ ok a t
      → AllKeep calls
      → resume_movej doubles r' (replay (scripted_mock_backend doubles) t calls) ≡ ok a' v
      → a' ≡ a
  unfolding submit_movej resume_movej
  resumed_as_submitted r r' s t v a a' calls h keep k =
      let w = replay (scripted_mock_backend doubles) t calls in
      let (first, _) = submit_motion_answer false r s t a h in
      let (second, at) = submit_motion_answer true r' w v a' k in
      let same = at ∙ same_occurrence w ∙ replay-current calls t keep in
      second ∙ ap (λ c. answer_by (planned c)) same ∙ sym first
