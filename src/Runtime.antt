-- ===== src/Runtime.antt =====
-- src/roborun/runtime.h and runtime.cpp: the RuntimeExecution session.
pub mod State
pub mod Records
pub mod Cleanup
pub mod Scheduling
pub mod Confirmation
pub mod Stopping
pub mod Workcell
pub mod Feedback
pub mod Pausing
pub mod Resetting
pub mod Controls
pub mod Motions
pub mod Commands
pub mod Advance
pub mod Scenario
pub mod Submission
pub mod Execution
pub mod Trust
