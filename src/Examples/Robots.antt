-- ===== src/Examples/Robots.antt =====
-- Applications of the theorems on the mock backends and on one-shot execution.
use mathlib.Core.List.{[], ◌∷◌}
use roborun.Prelude.{
  ◌*◌, ltb, pos, pos_part, true, false, some, List, Outcome, ok, after, ◌≡◌, ◌⊎◌, ◌↔◌, refl, arith,
}
use roborun.Types.{
  StopReason, StopStatus, StopSubmissionStatus, StopPlanOutcome, MotionPlanOutcome,
  MotionSubmissionStatus, CommandType, Program, default_command, MotionSubmission, MockScenario,
  StopPlan, ExecutionOutcome,
}
use roborun.Validator.{
  Doubles, validate_program, check_commands, check_next, check_command, unless, bad_state,
  diagnostic,
}
use roborun.Runtime.State.{DeviceCall, Session}
use roborun.Backends.{replay, perform}
use roborun.Backends.Mock as Mock
use roborun.Backends.Mock.{mock_robot_backend, bad_percent, bad_speed}
use roborun.Backends.Scripted as Scripted
use roborun.Backends.Scripted.{ScriptedMock, new_scripted, scripted_mock_backend, find_plan}
use roborun.Backends.Link.{Follows}
use roborun.Backends.Admission.{answered, Allowed, motion_admitted_iff}
use roborun.Backends.Link.Instances.{
  mock_link, scripted_link, mock_robot_backend-Follows, scripted_mock_backend-Follows,
}
use roborun.Backends.Stops.{
  answers, accepts, planned, Confirming, delay_of, ConfirmedAt, after_polls, planned_stop_confirmed,
  planned_stop_unconfirmed,
}
use roborun.Backends.Resumption.{resumed_as_submitted}
use roborun.Runtime.Submission.{program_diagnostics, no_diagnostics}
use roborun.Runtime.Execution.{execute}
use roborun.Runtime.Execution.Rejection.{fresh, execute_refused}
use roborun.Examples.{setup}

-- Doubles compared by their patterns, as those of positive numbers are.
abbrev doubles : Doubles
doubles = record {
  is_finite = λ _. true;
  less = ltb;
  times = λ a b. a * b;
  over = λ a b. a;
  of_int = pos_part;
}

abbrev frozen_stop : StopPlan
frozen_stop = record {
  stop_episode = 2;
  outcome = StopPlanOutcome.never_confirmed;
  delay_ms = pos 0;
}

-- The first motion is delayed; the first stop is delayed and the second never confirmed.
abbrev scenario : MockScenario
scenario = record {
  source = "s";
  schema_version = pos 2;
  motion_plans =
      (
        1,
        record {
          movej_occurrence = 1;
          outcome = MotionPlanOutcome.delayed_success;
          delay_ms = pos 70;
        },
      )
      ∷ [];
  stop_plans =
      (
        1,
        record {
          stop_episode = 1;
          outcome = StopPlanOutcome.delayed_confirmation;
          delay_ms = pos 30;
        },
      )
      ∷ (2, frozen_stop)
      ∷ [];
  events = [];
  controls = [];
}

abbrev scripted : ScriptedMock
scripted = record (new_scripted scenario) { connected = true; servo_enabled = true }

abbrev opened : List DeviceCall
opened = DeviceCall.set_servo_enabled true ∷ DeviceCall.connect ∷ []

mock_robot_backend-Follows_example :
    Follows (mock_robot_backend doubles) mock_link (λ s. s.motion_submitted)
mock_robot_backend-Follows_example = mock_robot_backend-Follows doubles

scripted_mock_backend-Follows_example :
    Follows (scripted_mock_backend doubles) scripted_link (λ s. s.motion_submitted)
scripted_mock_backend-Follows_example = scripted_mock_backend-Follows doubles

motion_admitted_iff_example :
    let s = replay (scripted_mock_backend doubles) (new_scripted scenario) opened in
    ((answered (Scripted.submit_movej doubles default_command.movej s) ≡ true)
      ↔ Allowed doubles opened default_command.movej)
    × ((answered (Scripted.resume_movej doubles default_command.movej s) ≡ true)
        ↔ Allowed doubles opened default_command.movej)
motion_admitted_iff_example =
    motion_admitted_iff doubles scenario opened default_command.movej (omega arith)

delayed-Confirming : Confirming (planned scripted)
unfolding find_plan Scripted.size_of_int Mock.next_int
delayed-Confirming = tt

planned_stop_confirmed_example :
    let t = after (Scripted.submit_stop StopReason.pause scripted) in
    (accepts (Scripted.submit_stop StopReason.pause scripted) ≡ some StopSubmissionStatus.accepted)
    × (ConfirmedAt 0 t
        ⊎ ((answers (Scripted.poll_stop t)
              ≡ some (StopStatus.stopping, some (delay_of (planned scripted))))
            × ConfirmedAt 1 t))
planned_stop_confirmed_example =
    planned_stop_confirmed StopReason.pause scripted refl delayed-Confirming

abbrev stopped_once : ScriptedMock
stopped_once = record scripted { stop_requests = pos 1 }

frozen_planned : planned stopped_once ≡ some frozen_stop
unfolding find_plan Scripted.size_of_int Mock.next_int
frozen_planned = refl

planned_stop_unconfirmed_example :
    let t = after (Scripted.submit_stop StopReason.pause stopped_once) in
    (accepts (Scripted.submit_stop StopReason.pause stopped_once)
      ≡ some StopSubmissionStatus.accepted)
    × (answers (Scripted.poll_stop (after_polls 20 t)) ≡ some (StopStatus.stopping, some (pos 10)))
planned_stop_unconfirmed_example =
    planned_stop_unconfirmed StopReason.pause stopped_once frozen_stop 20 refl frozen_planned refl
      (omega arith)

abbrev first_motion : Outcome ScriptedMock MotionSubmission
first_motion = Scripted.submit_movej doubles default_command.movej scripted

abbrev delayed : MotionSubmission
delayed = record {
  status = MotionSubmissionStatus.accepted;
  message = "";
  poll_after_ms = some (pos 70);
}

abbrev paused : List DeviceCall
paused = DeviceCall.poll_stop ∷ DeviceCall.submit_stop StopReason.pause ∷ []

first_taken : first_motion ≡ ok delayed (after first_motion)
unfolding Scripted.submit_movej Scripted.submit_motion Scripted.plan_motion find_plan bad_percent
    bad_speed Scripted.logged Scripted.take_request Scripted.next_occurrence
first_taken = refl

abbrev resumed_motion : Outcome ScriptedMock MotionSubmission
resumed_motion =
    Scripted.resume_movej doubles default_command.movej
      (replay (scripted_mock_backend doubles) (after first_motion) paused)

resumed_taken : resumed_motion ≡ ok delayed (after resumed_motion)
unfolding Mock.next_int Scripted.size_of_int Scripted.submit_movej Scripted.resume_movej
    Scripted.submit_motion Scripted.plan_motion find_plan bad_percent bad_speed Scripted.logged
    Scripted.take_request Scripted.next_occurrence replay perform scripted_mock_backend
    Scripted.submit_stop Scripted.plan_stop Scripted.count_stop Scripted.reset_stop
    Scripted.poll_stop Scripted.polled_stop
resumed_taken = refl

resumed_as_submitted_example : delayed ≡ delayed
resumed_as_submitted_example =
    resumed_as_submitted doubles default_command.movej default_command.movej scripted
      (after first_motion) (after resumed_motion) delayed delayed paused first_taken
      (refl, (refl, tt)) resumed_taken

-- A program that writes an output which the configuration does not have.
abbrev doubtful : Program
doubtful = record {
  source = "p";
  commands = record default_command { type = CommandType.set_do; signal_name = "NO_LAMP" } ∷ [];
}

is_refused : no_diagnostics (program_diagnostics doubles doubtful (fresh setup)) ≡ false
unfolding program_diagnostics no_diagnostics validate_program check_commands check_next
    check_command unless bad_state diagnostic
is_refused = refl

execute_refused_example :
    (s : Session) × (execute 0 doubles setup doubtful ≡ ok (some s.result) s)
    × (s.calls ≡ [])
    × (s.result.diagnostics ≡ program_diagnostics doubles doubtful (fresh setup))
    × (s.result.outcome ≡ ExecutionOutcome.faulted)
    × (s.result.succeeded ≡ false)
execute_refused_example = execute_refused 0 doubles setup doubtful refl is_refused
