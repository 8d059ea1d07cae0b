-- ===== src/Loaded/Plans.antt =====
-- About the plans that LoadMockScenario (scenario.cpp) reads.
use roborun.Prelude.{
  ℕ, ◌+◌, ◌==◌, ◌<◌, ℤ, pos, pos_part, ltbℤ, Bool, true, false, not, ◌&&◌, String, str_eq,
  text_append, decimal, Option, none, some, List, [], ◌∷◌, ◌++◌, All, All-append, ok, ◌>>=◌, ◌≡◌,
  refl, arith,
}
use roborun.Types.{BusinessTime, MotionPlan, MotionPlanOutcome, StopPlan, StopPlanOutcome}
use roborun.Json.{
  JsonLibrary, text_or_empty, required, checked_fields, reject_unknown_fields, time_field,
}
use roborun.Scenario.{
  has_plan, positive, occurrence_of, motion_outcome_text, motion_outcome, store_motion, load_motion,
  load_motions, stop_outcome, store_stop, load_episode, load_stop, load_stops,
}
use roborun.Loaded.{
  Ensures, Any, Ensures-bind, Ensures-ok, Ensures-if, Ensures-weaken, Ensures-fail,
  reject_unknown_fields-Ensures, checked_fields-Ensures, required-Ensures, NotNegative,
  time_field-Ensures,
}

module _ {P : Type 0} where
  -- No two plans for the same number.
  abbrev pub Distinct : List (ℕ × P) → Type 0
  Distinct [] = Unit
  Distinct ((k, plan) ∷ plans) = (has_plan k plans ≡ false) × Distinct plans

  has_plan-append :
      (k : ℕ) (plans : List (ℕ × P)) (j : ℕ) (plan : P)
      → has_plan k plans ≡ false
      → (j == k) ≡ false
      → has_plan k (plans ++ (j, plan) ∷ []) ≡ false
  unfolding has_plan
  has_plan-append k [] j plan h e = ground arith
  has_plan-append k ((i, p) ∷ plans) j plan h e = ground (arith, has_plan-append k plans j plan)

  Distinct-append :
      (plans : List (ℕ × P)) (j : ℕ) (plan : P)
      → Distinct plans
      → has_plan j plans ≡ false
      → Distinct (plans ++ (j, plan) ∷ [])
  unfolding has_plan
  Distinct-append [] j plan d h = ground arith
  Distinct-append ((i, p) ∷ plans) j plan (n, d) h = (
    has_plan-append i plans j plan n (ground arith),
    Distinct-append plans j plan d (ground arith),
  )

-- A plan under its own positive number, with a delay that is not negative.
abbrev pub MotionPlanned : ℕ × MotionPlan → Type 0
MotionPlanned (k, plan) =
    (plan.movej_occurrence ≡ k) × (0 < k) × (ltbℤ plan.delay_ms (pos 0) ≡ false)

abbrev pub MotionPlans : List (ℕ × MotionPlan) → Type 0
MotionPlans plans = Distinct plans × All MotionPlanned plans

abbrev pub StopPlanned : ℕ × StopPlan → Type 0
StopPlanned (k, plan) = (plan.stop_episode ≡ k) × (0 < k) × (ltbℤ plan.delay_ms (pos 0) ≡ false)

abbrev pub StopPlans : List (ℕ × StopPlan) → Type 0
StopPlans plans = Distinct plans × All StopPlanned plans

above : (a b : Bool) → not (a && b) ≡ false → b ≡ true
above true true h = refl
above true false h = cc
above false b h = cc

abbrev Delayed : {O : Type 0} → O × BusinessTime → Type 0
Delayed p = NotNegative p.1

positive_part : (z : ℤ) → ltbℤ (pos 0) z ≡ true → 0 < pos_part z
positive_part z h = ground arith

module _ {J : Type 0} (json : JsonLibrary J) (source : String) where
  occurrence-Ensures :
      (path : String) (v : Option J) → Ensures (occurrence_of json source path v) Any
  unfolding occurrence_of
  occurrence-Ensures path none = Ensures-fail _ _ _ _ (pos 0) Any
  occurrence-Ensures path (some v) =
      Ensures-if (positive json source v) _ _ Any (λ _. Ensures-ok (json.get_int64 v) Any tt)
        (λ _. Ensures-fail _ _ _ _ (pos 0) Any)

  text-Ensures :
      (path : String) (v : Option J) → Ensures (motion_outcome_text json source path v) Any
  unfolding motion_outcome_text
  text-Ensures path none = Ensures-fail _ _ _ _ "" Any
  text-Ensures path (some v) =
      Ensures-if (json.is_string v) _ _ Any (λ _. Ensures-ok (json.get_string v) Any tt)
        (λ _. Ensures-fail _ _ _ _ "" Any)

  at_once-Ensures : {O : Type 0} (o : O) → Ensures (ok (o, pos 0)) (Delayed {O = O})
  at_once-Ensures {O} o s = λ v. (v, refl)

  delay_outcome-Ensures :
      {O : Type 0} (o : O) (item : J) (path : String)
      → Ensures
          (do delay ← time_field json source item "delay_ms" path; ok (o, delay))
          (Delayed {O = O})
  delay_outcome-Ensures {O} o item path =
      Ensures-bind (time_field json source item "delay_ms" path) _ NotNegative (Delayed {O = O})
        (time_field-Ensures json source item "delay_ms" path) (λ d s v. (v, λ h. h))

  motion_outcome-Ensures :
      (item : J) (path outcome : String)
      → Ensures (motion_outcome json source item path outcome) (Delayed {O = MotionPlanOutcome})
  unfolding motion_outcome
  motion_outcome-Ensures item path outcome =
      let P : MotionPlanOutcome × BusinessTime → Type 0 = Delayed in
      Ensures-if (str_eq outcome "immediate_success") _ _ P
        (λ _. at_once-Ensures MotionPlanOutcome.immediate_success)
        (λ _.
          Ensures-if (str_eq outcome "delayed_success") _ _ P
            (λ _. delay_outcome-Ensures MotionPlanOutcome.delayed_success item path)
            (λ _.
              Ensures-if (str_eq outcome "rejected") _ _ P
                (λ _. at_once-Ensures MotionPlanOutcome.rejected)
                (λ _.
                  Ensures-if (str_eq outcome "frozen") _ _ P
                    (λ _. at_once-Ensures MotionPlanOutcome.frozen)
                    (λ _. Ensures-fail _ _ _ _ _ P))))

  stop_outcome-Ensures :
      (item : J) (path outcome : String)
      → Ensures (stop_outcome json source item path outcome) (Delayed {O = StopPlanOutcome})
  unfolding stop_outcome
  stop_outcome-Ensures item path outcome =
      let P : StopPlanOutcome × BusinessTime → Type 0 = Delayed in
      Ensures-if (str_eq outcome "immediate_confirmation") _ _ P
        (λ _. at_once-Ensures StopPlanOutcome.immediate_confirmation)
        (λ _.
          Ensures-if (str_eq outcome "delayed_confirmation") _ _ P
            (λ _. delay_outcome-Ensures StopPlanOutcome.delayed_confirmation item path)
            (λ _.
              Ensures-if (str_eq outcome "rejected") _ _ P
                (λ _. at_once-Ensures StopPlanOutcome.rejected)
                (λ _.
                  Ensures-if (str_eq outcome "never_confirmed") _ _ P
                    (λ _. at_once-Ensures StopPlanOutcome.never_confirmed)
                    (λ _.
                      Ensures-if (str_eq outcome "failed") _ _ P
                        (λ _. at_once-Ensures StopPlanOutcome.failed)
                        (λ _. Ensures-fail _ _ _ _ _ P)))))

  store_motion-Ensures :
      (path : String) (z : ℤ) (o : MotionPlanOutcome) (d : BusinessTime)
      (plans : List (ℕ × MotionPlan))
      → Ensures
          (store_motion json source path z
            (record { movej_occurrence = pos_part z; outcome = o; delay_ms = d })
            plans)
          (λ ps. NotNegative d → MotionPlans plans → MotionPlans ps)
  unfolding store_motion
  store_motion-Ensures path z o d plans =
      let plan : MotionPlan = record { movej_occurrence = pos_part z; outcome = o; delay_ms = d } in
      let Q = λ (ps : List (ℕ × MotionPlan)). NotNegative d → MotionPlans plans → MotionPlans ps in
      Ensures-if (has_plan (pos_part z) plans) _ _ Q (λ _. Ensures-fail _ _ _ _ plans Q)
        (λ absent.
          Ensures-if (ltbℤ (pos 0) z) _ _ Q
            (λ positive. Ensures-ok (plans ++ (pos_part z, plan) ∷ []) Q (λ nn h. (
              Distinct-append plans (pos_part z) plan h.0 absent,
              All-append MotionPlanned plans (pos_part z, plan) h.1
                  (refl, positive_part z positive, nn),
            )))
            (λ _. Ensures-ok plans Q (λ nn h. h)))

  store_stop-Ensures :
      (path : String) (z : ℤ) (o : StopPlanOutcome) (d : BusinessTime) (plans : List (ℕ × StopPlan))
      → ltbℤ (pos 0) z ≡ true
      → Ensures
          (store_stop json source path
            (record { stop_episode = pos_part z; outcome = o; delay_ms = d })
            plans)
          (λ ps. NotNegative d → StopPlans plans → StopPlans ps)
  unfolding store_stop
  store_stop-Ensures path z o d plans positive =
      let plan : StopPlan = record { stop_episode = pos_part z; outcome = o; delay_ms = d } in
      let Q = λ (ps : List (ℕ × StopPlan)). NotNegative d → StopPlans plans → StopPlans ps in
      Ensures-if (has_plan (pos_part z) plans) _ _ Q (λ _. Ensures-fail _ _ _ _ plans Q)
        (λ absent. Ensures-ok (plans ++ (pos_part z, plan) ∷ []) Q (λ nn h. (
          Distinct-append plans (pos_part z) plan h.0 absent,
          All-append StopPlanned plans (pos_part z, plan) h.1 (refl, positive_part z positive, nn),
        )))

  load_motion-Ensures :
      (index : ℕ) (item : J) (plans : List (ℕ × MotionPlan))
      → Ensures
          (load_motion json source index item plans)
          (λ ps. MotionPlans plans → MotionPlans ps)
  unfolding load_motion
  load_motion-Ensures index item plans =
      let path = text_append "/motions/" (decimal index) in
      Ensures-bind (checked_fields json source item _ path) _ Any _
        (checked_fields-Ensures json source item _ path)
        (λ _.
          Ensures-bind (required json source item "movej" path) _ Any _
            (required-Ensures json source item "movej" path)
            (λ v.
              Ensures-bind (occurrence_of json source path v) _ Any _ (occurrence-Ensures path v)
                (λ z.
                  Ensures-bind (required json source item "outcome" path) _ Any _
                    (required-Ensures json source item "outcome" path)
                    (λ t.
                      Ensures-bind (motion_outcome_text json source path t) _ Any _
                        (text-Ensures path t)
                        (λ o.
                          Ensures-bind (motion_outcome json source item path o) _ Delayed _
                            (motion_outcome-Ensures item path o)
                            (λ p.
                              Ensures-weaken _ _ _ (λ ps f nn _ _ _ _ _. f nn)
                                (store_motion-Ensures path z p.0 p.1 plans)))))))

  pub load_motions-Ensures :
      (items : List J) (index : ℕ) (plans : List (ℕ × MotionPlan))
      → Ensures
          (load_motions json source index items plans)
          (λ ps. MotionPlans plans → MotionPlans ps)
  unfolding load_motions
  load_motions-Ensures [] index plans = λ s v. (v, λ h. h)
  load_motions-Ensures (item ∷ items) index plans =
      Ensures-bind (load_motion json source index item plans) _ _ _
        (load_motion-Ensures index item plans)
        (λ next.
          Ensures-weaken _ _ _ (λ ps f g h. f (g h)) (load_motions-Ensures items (index + 1) next))

  load_episode-Ensures :
      (item : J) (path : String) (v : Option J) (plans : List (ℕ × StopPlan))
      → Ensures (load_episode json source item path v plans) (λ ps. StopPlans plans → StopPlans ps)
  unfolding load_episode positive
  load_episode-Ensures item path none plans = Ensures-fail _ _ _ _ plans _
  load_episode-Ensures item path (some e) plans =
      let Q = λ (ps : List (ℕ × StopPlan)). StopPlans plans → StopPlans ps in
      Ensures-if (not (positive json source e)) _ _ Q (λ _. Ensures-fail _ _ _ _ plans Q)
        (λ good.
          Ensures-bind (required json source item "outcome" path) _ Any Q
            (required-Ensures json source item "outcome" path)
            (λ v.
              Ensures-bind (stop_outcome json source item path (text_or_empty json source v)) _
                Delayed _ (stop_outcome-Ensures item path _)
                (λ p.
                  Ensures-weaken _ _ _ (λ ps f nn _. f nn)
                    (store_stop-Ensures path (json.get_int64 e) p.0 p.1 plans
                      (above (json.is_number_integer e) _ good)))))

  load_stop-Ensures :
      (index : ℕ) (item : J) (plans : List (ℕ × StopPlan))
      → Ensures (load_stop json source index item plans) (λ ps. StopPlans plans → StopPlans ps)
  unfolding load_stop
  load_stop-Ensures index item plans =
      let path = text_append "/stops/" (decimal index) in
      Ensures-bind (reject_unknown_fields json source item _ path) _ Any _
        (reject_unknown_fields-Ensures json source item _ path)
        (λ _.
          Ensures-bind (required json source item "episode" path) _ Any _
            (required-Ensures json source item "episode" path)
            (λ v. Ensures-weaken _ _ _ (λ ps f _ _. f) (load_episode-Ensures item path v plans)))

  pub load_stops-Ensures :
      (items : List J) (index : ℕ) (plans : List (ℕ × StopPlan))
      → Ensures (load_stops json source index items plans) (λ ps. StopPlans plans → StopPlans ps)
  unfolding load_stops
  load_stops-Ensures [] index plans = λ s v. (v, λ h. h)
  load_stops-Ensures (item ∷ items) index plans =
      Ensures-bind (load_stop json source index item plans) _ _ _
        (load_stop-Ensures index item plans)
        (λ next.
          Ensures-weaken _ _ _ (λ ps f g h. f (g h)) (load_stops-Ensures items (index + 1) next))
