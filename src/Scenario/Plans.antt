-- ===== src/Scenario/Plans.antt =====
-- The motion plans and the stop plans of LoadMockScenario (src/roborun/scenario.cpp).
use roborun.Prelude.{
  ℕ, ◌+◌, ◌==◌, ℤ, pos, pos_part, ltbℤ, Bool, false, not, ◌&&◌, ◌||◌, String, str_eq, text_append,
  decimal, Option, none, some, List, [], ◌∷◌, ◌++◌, ok, ◌>>=◌, ◌>>◌, if◌then◌else◌,
}
use roborun.Types.{
  DiagnosticCode, BusinessTime, MotionPlan, MotionPlanOutcome, StopPlan, StopPlanOutcome,
}
use roborun.Json.{
  JsonLibrary, L, fail, checked_fields, reject_unknown_fields, required, text_or_empty, time_field,
}

-- `contains`, of a map of plans.
unfoldable pub has_plan : {P : Type 0} → ℕ → List (ℕ × P) → Bool
has_plan k [] = false
has_plan k ((j, plan) ∷ plans) = j == k || has_plan k plans

module _ {J : Type 0} (json : JsonLibrary J) (source : String) where
  unfoldable pub positive : J → Bool
  positive value = json.is_number_integer value && ltbℤ (pos 0) (json.get_int64 value)

  unfoldable pub occurrence_of : String → Option J → L ℤ
  occurrence_of path none = do
    fail DiagnosticCode.invalid_scenario source (text_append path "/movej")
        "movej occurrence must be a positive integer"
    ok (pos 0)
  occurrence_of path (some value) = if positive value then ok (json.get_int64 value) else (do
    fail DiagnosticCode.invalid_scenario source (text_append path "/movej")
        "movej occurrence must be a positive integer"
    ok (pos 0))

  unfoldable pub motion_outcome_text : String → Option J → L String
  motion_outcome_text path none = do
    fail DiagnosticCode.invalid_scenario source (text_append path "/outcome") "outcome is required"
    ok ""
  motion_outcome_text path (some value) =
      if json.is_string value then ok (json.get_string value) else (do
        fail DiagnosticCode.invalid_scenario source (text_append path "/outcome")
            "outcome is required"
        ok "")

  unfoldable pub motion_outcome : J → String → String → L (MotionPlanOutcome × BusinessTime)
  motion_outcome item path outcome =
      if str_eq outcome "immediate_success"
      then ok (MotionPlanOutcome.immediate_success, pos 0)
      else if str_eq outcome "delayed_success"
      then (do
        delay ← time_field json source item "delay_ms" path
        ok (MotionPlanOutcome.delayed_success, delay))
      else if str_eq outcome "rejected"
      then ok (MotionPlanOutcome.rejected, pos 0)
      else if str_eq outcome "frozen"
      then ok (MotionPlanOutcome.frozen, pos 0)
      else (do
        fail DiagnosticCode.invalid_scenario source (text_append path "/outcome")
            "unknown motion outcome"
        ok (MotionPlanOutcome.immediate_success, pos 0))

  unfoldable pub store_motion :
      String → ℤ → MotionPlan → List (ℕ × MotionPlan) → L (List (ℕ × MotionPlan))
  store_motion path occurrence plan plans =
      if has_plan plan.movej_occurrence plans
      then (do
        fail DiagnosticCode.invalid_scenario source (text_append path "/movej")
            "motion occurrence has more than one plan"
        ok plans)
      else if ltbℤ (pos 0) occurrence
      then ok (plans ++ (plan.movej_occurrence, plan) ∷ [])
      else ok plans

  unfoldable pub load_motion : ℕ → J → List (ℕ × MotionPlan) → L (List (ℕ × MotionPlan))
  load_motion index item plans =
      let path = text_append "/motions/" (decimal index) in
      do
        checked_fields json source item ("movej" ∷ "outcome" ∷ "delay_ms" ∷ []) path
        value ← required json source item "movej" path
        occurrence ← occurrence_of path value
        text ← required json source item "outcome" path
        outcome ← motion_outcome_text path text
        planned ← motion_outcome item path outcome
        store_motion path occurrence
            (record {
              movej_occurrence = pos_part occurrence;
              outcome = planned.0;
              delay_ms = planned.1;
            })
            plans

  unfoldable pub load_motions : ℕ → List J → List (ℕ × MotionPlan) → L (List (ℕ × MotionPlan))
  load_motions index [] plans = ok plans
  load_motions index (item ∷ items) plans = do
    next ← load_motion index item plans
    load_motions (index + 1) items next

  unfoldable pub stop_outcome : J → String → String → L (StopPlanOutcome × BusinessTime)
  stop_outcome item path outcome =
      if str_eq outcome "immediate_confirmation"
      then ok (StopPlanOutcome.immediate_confirmation, pos 0)
      else if str_eq outcome "delayed_confirmation"
      then (do
        delay ← time_field json source item "delay_ms" path
        ok (StopPlanOutcome.delayed_confirmation, delay))
      else if str_eq outcome "rejected"
      then ok (StopPlanOutcome.rejected, pos 0)
      else if str_eq outcome "never_confirmed"
      then ok (StopPlanOutcome.never_confirmed, pos 0)
      else if str_eq outcome "failed"
      then ok (StopPlanOutcome.failed, pos 0)
      else (do
        fail DiagnosticCode.invalid_scenario source (text_append path "/outcome")
            "unknown stop outcome"
        ok (StopPlanOutcome.immediate_confirmation, pos 0))

  unfoldable pub store_stop : String → StopPlan → List (ℕ × StopPlan) → L (List (ℕ × StopPlan))
  store_stop path plan plans =
      if has_plan plan.stop_episode plans
      then (do
        fail DiagnosticCode.invalid_scenario source (text_append path "/episode")
            "stop episode has more than one plan"
        ok plans)
      else ok (plans ++ (plan.stop_episode, plan) ∷ [])

  unfoldable pub load_episode :
      J → String → Option J → List (ℕ × StopPlan) → L (List (ℕ × StopPlan))
  load_episode item path none plans = do
    fail DiagnosticCode.invalid_scenario source (text_append path "/episode")
        "stop episode must be a positive integer"
    ok plans
  load_episode item path (some episode) plans =
      if not (positive episode)
      then (do
        fail DiagnosticCode.invalid_scenario source (text_append path "/episode")
            "stop episode must be a positive integer"
        ok plans)
      else (do
        value ← required json source item "outcome" path
        planned ← stop_outcome item path (text_or_empty json source value)
        store_stop path
            (record {
              stop_episode = pos_part (json.get_int64 episode);
              outcome = planned.0;
              delay_ms = planned.1;
            })
            plans)

  unfoldable pub load_stop : ℕ → J → List (ℕ × StopPlan) → L (List (ℕ × StopPlan))
  load_stop index item plans =
      let path = text_append "/stops/" (decimal index) in
      do
        reject_unknown_fields json source item ("episode" ∷ "outcome" ∷ "delay_ms" ∷ []) path
        episode ← required json source item "episode" path
        load_episode item path episode plans

  unfoldable pub load_stops : ℕ → List J → List (ℕ × StopPlan) → L (List (ℕ × StopPlan))
  load_stops index [] plans = ok plans
  load_stops index (item ∷ items) plans = do
    next ← load_stop index item plans
    load_stops (index + 1) items next
