-- ===== src/Examples/Simulators.antt =====
-- An application of the theorem on the simulator's cleanup.
use roborun.Prelude.{◌≡◌, true, false, List, [], ◌∷◌, ok, threw, map}
use roborun.Simulator.{SimulatorOperation, SimulatorLifecycle, run_cleanup}
use roborun.Simulator.Cleanup.{summary, cleanup_complete}

-- A simulator that keeps its calls, and whose disconnection fails.
abbrev broken : SimulatorLifecycle (List SimulatorOperation)
broken = record {
  stop_simulation = λ s. ok tt (SimulatorOperation.stop_simulation ∷ s);
  disconnect = λ s. threw "connection lost" (SimulatorOperation.disconnect ∷ s);
  quit_simulator = λ s. ok tt (SimulatorOperation.quit_simulator ∷ s);
}

cleanup_complete_example :
    ((run_cleanup broken []).1
      ≡ SimulatorOperation.quit_simulator ∷ SimulatorOperation.disconnect
        ∷ SimulatorOperation.stop_simulation ∷ [])
    × (map summary (run_cleanup broken []).0
        ≡ (SimulatorOperation.stop_simulation, true)
          ∷ (SimulatorOperation.disconnect, false)
          ∷ (SimulatorOperation.quit_simulator, true)
          ∷ [])
cleanup_complete_example = cleanup_complete broken []
