-- ===== src/Lib.antt =====
-- The verification library of roborun, a runtime for robot task programs: a program of servo,
-- motion, wait and output commands is validated and submitted to a session, which executes it
-- against a robot backend and, optionally, a workcell backend, under the operator's controls.
--
-- Parts, and how they interact. `Types` holds the data of src/roborun/types.h and of the headers of
-- the backends, the configurations and the scenarios, and the printed names of types.cpp. `Clock`
-- and `EventQueue` are clock.h and event_queue.h: business time, and the events that are due. `Validator`
-- is validator.cpp, and `Config` the check of a point catalog in config.cpp. `Runtime` is runtime.h and
-- runtime.cpp, the class RuntimeExecution: `Runtime.State` its members, `Runtime.Records` what it
-- writes down, `Runtime.Scheduling` how it uses the queue, `Runtime.Cleanup` the ends of a task,
-- `Runtime.Confirmation` and `Runtime.Stopping` the stop episodes and the faults, `Runtime.Workcell`
-- the snapshots of the workcell, `Runtime.Feedback` the polls, timeouts and external events,
-- `Runtime.Pausing`, `Runtime.Resetting` and `Runtime.Controls` the controls, `Runtime.Motions` and
-- `Runtime.Commands` the commands, `Runtime.Advance` the step of the session and the submission of
-- controls, `Runtime.Scenario` and `Runtime.Submission` the submission of programs, and
-- `Runtime.Execution` the start of a session and the execution of a program from begin to end.
-- `Backends` is robot_backend.h and the two backends that take the place of a robot in tests,
-- mock_robot_backend.cpp and scripted_mock_backend.cpp, as objects with a state of their own;
-- `Backends.Link` ties them to the calls that a session makes. `Text` and `Parser` are parser.cpp:
-- lines, words and integers, and then the commands; `Syntax` is an independent grammar of programs,
-- with which the parser is compared. `Json` and `Scenario` are scenario.cpp, the loader of mock
-- scenarios, and `Loaded` what it promises. `Simulator` is simulator_lifecycle.h and
-- simulator_lifecycle.cpp, the cleanup of a simulator. The remaining modules below these are proofs,
-- beside the definitions that they are about; `Runtime.Trust` has those on all handlers at once.
-- `Examples` applies the theorems to concrete programs, documents and sessions.
--
-- Conventions. Each method of the session is a function of the same name in small letters, from
-- the session to the session, or, where a call may throw, to the session and the way out of it:
-- what was written before an exception stays written. `catch` clauses are cases on that outcome. The
-- parts of a long method are functions of their own, composed as the method composes them. A backend
-- is what it answers to each call, by return or by exception, after all calls so far: this is any
-- deterministic object behind the interfaces RobotBackend and WorkcellBackend. The calls are kept
-- in the session, newest first. BusinessTime is an integer; std::size_t and std::uint64_t are natural
-- numbers whose increments wrap at 2^64, and the overflow of an `int` counter, undefined in the source,
-- wraps at 2^31. A double is its 64-bit pattern, which the code copies; the
-- operations that the validation needs are the record `Doubles`, an argument. A std::map is an
-- association list, and `at` on a missing key throws. An enumeration is a data type, and `==` on one
-- compares values. A text is a string of one character for each byte; std::strtod is the record
-- `Strtod` for each word, and nlohmann_json the record `JsonLibrary`, both arguments. Each recursion
-- follows a list but two: Execute advances 100000 times at most, as the source counts, and the loop
-- behind an emergency stop, which the source does not bound, runs on fuel.
--
-- Not modelled: the texts of the wall clock in a result; the snapshots that BuildSnapshot and
-- RefreshSnapshot number, from which nothing flows back; the loaders of config.cpp and workcell.cpp,
-- whose results are arguments here; the CoppeliaSim backend, which the parameter stands for; the
-- command line, the ROS 2 bridge, and the vendored libraries. An index behind the end of the program
-- or of a list of alarms, undefined in the source, reads a default; a clock that is null is at time 0.
pub mod Prelude
pub mod Types
pub mod Clock
pub mod EventQueue
pub mod Validator
pub mod Config
pub mod Runtime
pub mod Text
pub mod Parser
pub mod Syntax
pub mod Backends
pub mod Json
pub mod Scenario
pub mod Loaded
pub mod Simulator
pub mod Examples
