-- ===== src/Examples/Programs.antt =====
-- Applications of the theorems on the validation and the submission of programs.
use roborun.Prelude.{◌≡◌, ◌↔◌, refl, false, true, [], ◌∷◌, none, All, after}
use roborun.Types.{
  default_command, CommandType, ValidatorServoState, Command, Program, ProgramSubmissionStatus,
}
use roborun.Validator.{
  Doubles, Context, validate_program, check_commands, check_next, check_command, check_movej,
  check_targets, with_speed, bounded, check_joints, check_joint, limit_of, speed_in_range,
  must_stop, unless, diagnostic,
}
use roborun.Validator.Spec.{Runs, AllOk}
use roborun.Validator.Verdict.{validate_program_iff}
use roborun.Validator.Resolution.{KeptOk, validated_within}
use roborun.Runtime.Submission.{
  submit_program, open_for_program, program_diagnostics, catalog_diagnostics, no_diagnostics,
  context_of, start_program, schedule_scenario, prepare_result, copy_workcell_state,
  begin_on_backend,
}
use roborun.Runtime.Scenario.{validate_scenario}
use roborun.Runtime.Records.{synchronize_result_state}
use roborun.Runtime.Submission.Entry.{Started, submission_accepted}
use roborun.Runtime.Submission.NoThrow.{Returns, submit_program-Returns}
use roborun.Examples.{idle}

-- Doubles that are all finite and none of which is below another.
abbrev doubles : Doubles
doubles = record {
  is_finite = λ _. true;
  less = λ _ _. false;
  times = λ a _. a;
  over = λ a _. a;
  of_int = λ _. 0;
}

abbrev command : CommandType → Command
command type = record default_command { type = type }

abbrev program : Program
program = record {
  source = "task.txt";
  commands =
      command CommandType.servo_on
      ∷ command CommandType.movej
      ∷ command CommandType.delay
      ∷ command CommandType.servo_off
      ∷ command CommandType.stop
      ∷ [];
}

abbrev context : Context
context = record {
  doubles = doubles;
  source = "task.txt";
  robot_configuration = none;
  point_catalog = none;
  io_configuration = none;
  tool_configuration = none;
}

validate_program_iff_example :
    ((validate_program context program.commands).diagnostics ≡ [])
    ↔ (Runs ValidatorServoState.servo_off program.commands × AllOk context program.commands)
validate_program_iff_example = validate_program_iff context program.commands

validated_within_example :
    All (λ c. KeptOk context c.type c) (validate_program context program.commands).program.commands
unfolding validate_program check_commands check_next check_command check_movej check_targets
    with_speed bounded check_joints check_joint limit_of speed_in_range must_stop unless diagnostic
validated_within_example = validated_within context program.commands refl

submission_accepted_example :
    Started doubles program idle (after (submit_program doubles program idle))
unfolding submit_program open_for_program program_diagnostics catalog_diagnostics no_diagnostics
    context_of start_program validate_scenario schedule_scenario validate_program check_commands
    check_next check_command check_movej check_targets with_speed bounded check_joints check_joint
    limit_of speed_in_range must_stop unless diagnostic prepare_result copy_workcell_state
    synchronize_result_state begin_on_backend
submission_accepted_example =
    submission_accepted doubles program idle _
      (record { status = ProgramSubmissionStatus.accepted; message = "" }) refl refl

submit_program-Returns_example : Returns (submit_program doubles program idle)
submit_program-Returns_example = submit_program-Returns doubles program idle
