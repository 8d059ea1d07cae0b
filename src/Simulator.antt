-- ===== src/Simulator.antt =====
-- src/roborun/simulator_lifecycle.h and simulator_lifecycle.cpp. The simulator is a parameter: what
-- its three calls do to a state of it, and whether they return or throw.
pub mod Cleanup
use roborun.Prelude.{Bool, true, false, String, List, [], ◌∷◌, Action, Outcome, ok, threw}

pub data SimulatorOperation : Type 0 where
  stop_simulation disconnect quit_simulator : SimulatorOperation

pub record SimulatorLifecycle (S : Type 0) : Type 0 where
  pub stop_simulation : Action S (Unit {0})
  pub disconnect : Action S (Unit {0})
  pub quit_simulator : Action S (Unit {0})

pub record SimulatorResult : Type 0 where
  pub operation : SimulatorOperation
  pub succeeded : Bool
  pub message : String

unfoldable pub simulator_operation_to_string : SimulatorOperation → String
simulator_operation_to_string SimulatorOperation.stop_simulation = "stop_simulation"
simulator_operation_to_string SimulatorOperation.disconnect = "disconnect"
simulator_operation_to_string SimulatorOperation.quit_simulator = "quit_simulator"

module _ {S : Type 0} (simulator : SimulatorLifecycle S) where
  -- The switch of RunSimulatorLifecycleOperation.
  abbrev pub call : SimulatorOperation → Action S (Unit {0})
  call SimulatorOperation.stop_simulation = simulator.stop_simulation
  call SimulatorOperation.disconnect = simulator.disconnect
  call SimulatorOperation.quit_simulator = simulator.quit_simulator

  unfoldable pub reported : SimulatorOperation → Outcome S (Unit {0}) → SimulatorResult × S
  reported operation (ok _ s) =
      (record { operation = operation; succeeded = true; message = "" }, s)
  reported operation (threw e s) =
      (record { operation = operation; succeeded = false; message = e }, s)

  unfoldable pub run_operation : SimulatorOperation → S → SimulatorResult × S
  run_operation operation s = reported operation (call operation s)

  unfoldable pub run_operations : List SimulatorOperation → S → List SimulatorResult × S
  run_operations [] s = ([], s)
  run_operations (operation ∷ operations) s =
      let result = run_operation operation s in
      let rest = run_operations operations result.1 in (result.0 ∷ rest.0, rest.1)

  unfoldable pub run_cleanup : S → List SimulatorResult × S
  run_cleanup s =
      run_operations
        (SimulatorOperation.stop_simulation ∷ SimulatorOperation.disconnect
          ∷ SimulatorOperation.quit_simulator ∷ [])
        s
