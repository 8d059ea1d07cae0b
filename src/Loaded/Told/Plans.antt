-- ===== src/Loaded/Told/Plans.antt =====
-- About what LoadMockScenario (scenario.cpp) reports of the plans of a document.
use roborun.Prelude.{
  ℕ, ◌+◌, ℤ, pos, ltbℤ, not, String, str_eq, text_append, decimal, Option, none, some, List, [],
  ◌∷◌, ◌++◌, ok, ◌>>=◌, ◌>>◌,
}
use roborun.Types.{
  DiagnosticCode, BusinessTime, MotionPlan, MotionPlanOutcome, StopPlan, StopPlanOutcome,
}
use roborun.Json.{
  JsonLibrary, L, fail, reject_unknown_fields, checked_fields, required, read_name, text_or_empty,
  time_field,
}
use roborun.Scenario.{
  has_plan, positive, occurrence_of, motion_outcome_text, motion_outcome, store_motion, load_motion,
  load_motions, stop_outcome, store_stop, load_episode, load_stop, load_stops,
}
use roborun.Loaded.Told.{
  Tells, Always, Reported, Missing, Tells-bind, Tells-ok, Tells-if, Tells-fail, Tells-weaken,
  reject_unknown_fields-Tells, checked_fields-Tells, required-Tells, read_name-Tells,
  time_field-Tells,
}

-- A failure before a result.
pub failed :
    {A : Type 0} (code : DiagnosticCode) (source path message : String) (a : A)
    → Tells (fail code source path message >> ok a) Always
failed code source path message a =
    Tells-weaken _ (λ _ t. Reported t) (Tells-fail code source path message a)

at_time : {O : Type 0} (o : O) (t : BusinessTime) → Tells {A = O × BusinessTime} (ok (o, t)) Always
at_time {O} o t = Tells-ok {A = O × BusinessTime} (o, t)

module _ {J : Type 0} (json : JsonLibrary J) (source : String) where
  -- A member that is required, and what is made of it.
  pub member-Tells :
      {B : Type 0} (item : J) (k path : String) (f : Option J → L B)
      → ((v : Option J) → Tells (f v) Always)
      → Tells (do v ← required json source item k path; f v) Always
  member-Tells item k path f h =
      Tells-bind (required json source item k path) f Missing Always
        (required-Tells json source item k path) h

  pub name_member-Tells :
      {B : Type 0} (v : Option J) (path : String) (f : Option String → L B)
      → ((n : Option String) → Tells (f n) Always)
      → Tells (do n ← read_name json source v path; f n) Always
  unfolding read_name
  name_member-Tells none path f h = h none
  name_member-Tells (some v) path f h =
      Tells-bind (read_name json source (some v) path) f Missing Always
        (read_name-Tells json source v path) h

  occurrence_of-Tells :
      (path : String) (v : Option J) → Tells (occurrence_of json source path v) Always
  unfolding occurrence_of
  occurrence_of-Tells path none = failed _ _ _ _ (pos 0)
  occurrence_of-Tells path (some v) =
      Tells-if (positive json source v) _ _ Always (Tells-ok (json.get_int64 v))
        (failed _ _ _ _ (pos 0))

  motion_outcome_text-Tells :
      (path : String) (v : Option J) → Tells (motion_outcome_text json source path v) Always
  unfolding motion_outcome_text
  motion_outcome_text-Tells path none = failed _ _ _ _ ""
  motion_outcome_text-Tells path (some v) =
      Tells-if (json.is_string v) _ _ Always (Tells-ok (json.get_string v)) (failed _ _ _ _ "")

  delayed :
      {O : Type 0} (o : O) (item : J) (path : String)
      → Tells {A = O × BusinessTime}
          (do delay ← time_field json source item "delay_ms" path; ok (o, delay))
          Always
  delayed o item path =
      Tells-bind (time_field json source item "delay_ms" path) _ Always Always
        (time_field-Tells json source item "delay_ms" path) (λ t. at_time o t)

  motion_outcome-Tells :
      (item : J) (path outcome : String)
      → Tells (motion_outcome json source item path outcome) Always
  unfolding motion_outcome
  motion_outcome-Tells item path outcome =
      Tells-if (str_eq outcome "immediate_success") _ _ Always
        (at_time MotionPlanOutcome.immediate_success (pos 0))
        (Tells-if (str_eq outcome "delayed_success") _ _ Always
          (delayed MotionPlanOutcome.delayed_success item path)
          (Tells-if (str_eq outcome "rejected") _ _ Always
            (at_time MotionPlanOutcome.rejected (pos 0))
            (Tells-if (str_eq outcome "frozen") _ _ Always
              (at_time MotionPlanOutcome.frozen (pos 0))
              (failed {A = MotionPlanOutcome × BusinessTime} _ _ _ _
                (MotionPlanOutcome.immediate_success, pos 0)))))

  store_motion-Tells :
      (path : String) (n : ℤ) (plan : MotionPlan) (plans : List (ℕ × MotionPlan))
      → Tells (store_motion json source path n plan plans) Always
  unfolding store_motion
  store_motion-Tells path n plan plans =
      Tells-if (has_plan plan.movej_occurrence plans) _ _ Always (failed _ _ _ _ plans) (
        Tells-if (ltbℤ (pos 0) n) _ _ Always
          (Tells-ok (plans ++ (plan.movej_occurrence, plan) ∷ [])) (Tells-ok plans))

  load_motion-Tells :
      (index : ℕ) (item : J) (plans : List (ℕ × MotionPlan))
      → Tells (load_motion json source index item plans) Always
  unfolding load_motion
  load_motion-Tells index item plans =
      let path = text_append "/motions/" (decimal index) in
      Tells-bind (checked_fields json source item _ path) _ Always Always
        (checked_fields-Tells json source item _ path)
        (λ _. member-Tells item "movej" path _ (λ v.
          Tells-bind (occurrence_of json source path v) _ Always Always (occurrence_of-Tells path v)
            (λ n. member-Tells item "outcome" path _ (λ t.
              Tells-bind (motion_outcome_text json source path t) _ Always Always
                (motion_outcome_text-Tells path t)
                (λ o.
                  Tells-bind (motion_outcome json source item path o) _ Always Always
                    (motion_outcome-Tells item path o) (λ p. store_motion-Tells path n _ plans))))))

  pub load_motions-Tells :
      (items : List J) (index : ℕ) (plans : List (ℕ × MotionPlan))
      → Tells (load_motions json source index items plans) Always
  unfolding load_motions
  load_motions-Tells [] index plans = Tells-ok plans
  load_motions-Tells (item ∷ items) index plans =
      Tells-bind (load_motion json source index item plans) _ Always Always
        (load_motion-Tells index item plans) (load_motions-Tells items (index + 1))

  stop_outcome-Tells :
      (item : J) (path outcome : String) → Tells (stop_outcome json source item path outcome) Always
  unfolding stop_outcome
  stop_outcome-Tells item path outcome =
      Tells-if (str_eq outcome "immediate_confirmation") _ _ Always
        (at_time StopPlanOutcome.immediate_confirmation (pos 0))
        (Tells-if (str_eq outcome "delayed_confirmation") _ _ Always
          (delayed StopPlanOutcome.delayed_confirmation item path)
          (Tells-if (str_eq outcome "rejected") _ _ Always
            (at_time StopPlanOutcome.rejected (pos 0))
            (Tells-if (str_eq outcome "never_confirmed") _ _ Always
              (at_time StopPlanOutcome.never_confirmed (pos 0))
              (Tells-if (str_eq outcome "failed") _ _ Always
                (at_time StopPlanOutcome.failed (pos 0))
                (failed {A = StopPlanOutcome × BusinessTime} _ _ _ _
                  (StopPlanOutcome.immediate_confirmation, pos 0))))))

  store_stop-Tells :
      (path : String) (plan : StopPlan) (plans : List (ℕ × StopPlan))
      → Tells (store_stop json source path plan plans) Always
  unfolding store_stop
  store_stop-Tells path plan plans =
      Tells-if (has_plan plan.stop_episode plans) _ _ Always (failed _ _ _ _ plans)
        (Tells-ok (plans ++ (plan.stop_episode, plan) ∷ []))

  load_episode-Tells :
      (item : J) (path : String) (v : Option J) (plans : List (ℕ × StopPlan))
      → Tells (load_episode json source item path v plans) Always
  unfolding load_episode
  load_episode-Tells item path none plans = failed _ _ _ _ plans
  load_episode-Tells item path (some e) plans =
      Tells-if (not (positive json source e)) _ _ Always (failed _ _ _ _ plans) (
        member-Tells item "outcome" path _ (λ v.
          Tells-bind (stop_outcome json source item path (text_or_empty json source v)) _ Always
            Always (stop_outcome-Tells item path _) (λ p. store_stop-Tells path _ plans)))

  pub load_stops-Tells :
      (items : List J) (index : ℕ) (plans : List (ℕ × StopPlan))
      → Tells (load_stops json source index items plans) Always
  unfolding load_stops load_stop
  load_stops-Tells [] index plans = Tells-ok plans
  load_stops-Tells (item ∷ items) index plans =
      let path = text_append "/stops/" (decimal index) in
      Tells-bind (load_stop json source index item plans) _ Always Always
        (Tells-bind (reject_unknown_fields json source item _ path) _ Always Always
          (reject_unknown_fields-Tells json source item _ path)
          (λ _. member-Tells item "episode" path _ (λ v. load_episode-Tells item path v plans)))
        (load_stops-Tells items (index + 1))
