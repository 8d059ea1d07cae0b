-- ===== src/Runtime/Scheduling.antt =====
-- How the handlers of runtime.cpp read the program and schedule events.
use roborun.Prelude.{
  ℕ, false, String, str_eq, get_elem?, value_or, Outcome, ok, threw, if◌then◌else◌,
}
use roborun.Types.{BusinessTime, RuntimeEventPriority, RuntimeEventType, Command, default_command}
use roborun.EventQueue.{EventQueue, EventScheduleRequest, schedule}
use roborun.Runtime.State.{Session, M}

-- `program_.commands[index]`. The source has no check; behind the end, this reads an empty command.
unfoldable pub command_at : Session → ℕ → Command
command_at s index = value_or (get_elem? s.program.commands index) default_command

unfoldable pub scheduled : Session → Outcome EventQueue (Unit {0}) → Outcome Session (Unit {0})
scheduled s (ok _ q) = ok tt (record s { events = q })
scheduled s (threw e q) = threw e (record s { events = q })

-- `events_.Schedule(...)`.
unfoldable pub schedule_event : EventScheduleRequest → M (Unit {0})
schedule_event r s = scheduled s (schedule r s.events)

-- A request whose name, value and command are left at their defaults.
unfoldable pub plain_request :
    BusinessTime
    → RuntimeEventPriority
    → RuntimeEventType
    → String
    → ℕ
    → ℕ
    → ℕ
    → EventScheduleRequest
plain_request time priority type detail index generation episode = record {
  time = time;
  priority = priority;
  type = type;
  name = "";
  value = false;
  detail = detail;
  command_index = index;
  command_generation = generation;
  stop_episode_id = episode;
}

-- `result.empty() ? fallback : result`.
abbrev pub or_message : String → String → String
or_message message fallback = if str_eq message "" then fallback else message
