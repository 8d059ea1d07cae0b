-- ===== src/Simulator/Cleanup.antt =====
-- About RunSimulatorCleanup (simulator_lifecycle.cpp).
use roborun.Prelude.{
  ◌≡◌, refl, ◌∙◌, ap, Bool, true, false, List, [], ◌∷◌, Outcome, ok, threw, after, map,
}
use roborun.Simulator.{
  SimulatorOperation, SimulatorLifecycle, SimulatorResult, call, reported, run_operation,
  run_operations, run_cleanup,
}

-- Whether a call returned.
abbrev pub returned : {S : Type 0} → Outcome S (Unit {0}) → Bool
returned (ok _ s) = true
returned (threw e s) = false

-- All operations, in the state that the ones before have left, with what was to be reported.
abbrev pub attempted :
    {S : Type 0}
    → SimulatorLifecycle S
    → List SimulatorOperation
    → S
    → List (SimulatorOperation × Bool)
attempted l [] s = []
attempted l (o ∷ os) s =
    let rest = attempted l os (after (call l o s)) in (o, returned (call l o s)) ∷ rest

abbrev pub left_behind : {S : Type 0} → SimulatorLifecycle S → List SimulatorOperation → S → S
left_behind l [] s = s
left_behind l (o ∷ os) s = left_behind l os (after (call l o s))

abbrev pub summary : SimulatorResult → SimulatorOperation × Bool
summary r = (r.operation, r.succeeded)

module _ {S : Type 0} (simulator : SimulatorLifecycle S) where
  reported_state :
      (o : SimulatorOperation) (r : Outcome S (Unit {0})) → (reported simulator o r).1 ≡ after r
  unfolding reported
  reported_state o (ok _ s) = refl
  reported_state o (threw e s) = refl

  reported_summary :
      (o : SimulatorOperation) (r : Outcome S (Unit {0}))
      → summary (reported simulator o r).0 ≡ (o, returned r)
  unfolding reported
  reported_summary o (ok _ s) = refl
  reported_summary o (threw e s) = refl

  operations_state :
      (os : List SimulatorOperation) (s : S)
      → (run_operations simulator os s).1 ≡ left_behind simulator os s
  unfolding run_operations run_operation
  operations_state [] s = refl
  operations_state (o ∷ os) s =
      operations_state os (reported simulator o (call simulator o s)).1
      ∙ ap (left_behind simulator os) (reported_state o (call simulator o s))

  operations_summary :
      (os : List SimulatorOperation) (s : S)
      → map summary (run_operations simulator os s).0 ≡ attempted simulator os s
  unfolding run_operations run_operation
  operations_summary [] s = refl
  operations_summary (o ∷ os) s =
      rw
        (
          reported_summary o (call simulator o s),
          operations_summary os (reported simulator o (call simulator o s)).1,
          reported_state o (call simulator o s),
        )
        refl

  -- The cleanup stops the simulation, disconnects and quits, in that order, each in the state that
  -- the call before has left, also by an exception; it reports each once, as a success exactly if
  -- the call returned.
  pub cleanup_complete :
      (s : S)
      → ((run_cleanup simulator s).1
          ≡ after (
              simulator.quit_simulator
                (after (simulator.disconnect (after (simulator.stop_simulation s))))))
        × (map summary (run_cleanup simulator s).0
            ≡ (SimulatorOperation.stop_simulation, returned (simulator.stop_simulation s))
              ∷ (
                SimulatorOperation.disconnect,
                returned (simulator.disconnect (after (simulator.stop_simulation s))),
              )
              ∷ (
                SimulatorOperation.quit_simulator,
                returned (
                    simulator.quit_simulator
                      (after (simulator.disconnect (after (simulator.stop_simulation s))))),
              )
              ∷ [])
  unfolding run_cleanup
  cleanup_complete s = (operations_state _ s, operations_summary _ s)
