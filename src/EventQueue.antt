-- ===== src/EventQueue.antt =====
-- src/roborun/event_queue.h. The std::priority_queue is the list of its events in the order in
-- which `top` and `pop` take them: `push` puts an event behind those that its comparator
-- LaterEventFirst does not rank after it.
pub mod Order
pub mod Invariant
pub mod Contents
pub mod Fairness
pub mod Preemption
use roborun.Prelude.{
  ℕ, ℤ, pos, ◌+◌, ◌%◌, ◌==◌, ltb, ltbℤ, eqbℤ, not, Bool, false, String, List, [], ◌∷◌, Option, none,
  some, Action, ok, threw, if◌then◌else◌,
}
use roborun.Types.{
  BusinessTime, RuntimeEventPriority, RuntimeEventType, ControlType, priority_value,
}

pub record RuntimeEvent : Type 0 where
  pub time : BusinessTime
  pub priority : RuntimeEventPriority
  pub sequence : ℕ
  pub type : RuntimeEventType
  pub name : String
  pub value : Bool
  pub detail : String
  pub command_index : ℕ
  pub control_type : ControlType
  pub control_request_id : ℕ
  pub control_source : String
  pub command_generation : ℕ
  pub stop_episode_id : ℕ

pub record EventScheduleRequest : Type 0 where
  pub time : BusinessTime
  pub priority : RuntimeEventPriority
  pub type : RuntimeEventType
  pub name : String
  pub value : Bool
  pub detail : String
  pub command_index : ℕ
  pub command_generation : ℕ
  pub stop_episode_id : ℕ

pub record EventQueue : Type 0 where
  pub events : List RuntimeEvent
  pub next_sequence : ℕ

-- A counter of 64 bits.
abbrev pub u64_mod : ℕ
u64_mod = 18446744073709551616

-- `static_cast<std::size_t>(-1)`.
abbrev pub no_command_index : ℕ
no_command_index = 18446744073709551615

unfoldable pub empty : EventQueue
empty = record { events = []; next_sequence = 0 }

unfoldable pub priority_for : ControlType → RuntimeEventPriority
priority_for ControlType.estop = RuntimeEventPriority.emergency_control
priority_for ControlType.stop = RuntimeEventPriority.stop_control
priority_for _ = RuntimeEventPriority.lifecycle_control

unfoldable pub later_event_first : RuntimeEvent → RuntimeEvent → Bool
later_event_first left right =
    if not (eqbℤ left.time right.time)
    then ltbℤ right.time left.time
    else if not (priority_value left.priority == priority_value right.priority)
    then ltb (priority_value right.priority) (priority_value left.priority)
    else ltb right.sequence left.sequence

unfoldable pub push : RuntimeEvent → List RuntimeEvent → List RuntimeEvent
push e [] = e ∷ []
push e (x ∷ xs) = if later_event_first x e then e ∷ x ∷ xs else x ∷ push e xs

-- The event of a request, under a sequence number.
unfoldable pub event_of : EventScheduleRequest → ℕ → RuntimeEvent
event_of r n = record {
  time = r.time;
  priority = r.priority;
  sequence = n;
  type = r.type;
  name = r.name;
  value = r.value;
  detail = r.detail;
  command_index = r.command_index;
  control_type = ControlType.no_control;
  control_request_id = 0;
  control_source = "";
  command_generation = r.command_generation;
  stop_episode_id = r.stop_episode_id;
}

unfoldable pub control_event_of : BusinessTime → ControlType → ℕ → String → ℕ → RuntimeEvent
unfolding priority_for
control_event_of time control_type request_id source n = record {
  time = time;
  priority = priority_for control_type;
  sequence = n;
  type = RuntimeEventType.control;
  name = "";
  value = false;
  detail = "";
  command_index = no_command_index;
  control_type = control_type;
  control_request_id = request_id;
  control_source = source;
  command_generation = 0;
  stop_episode_id = 0;
}

-- `events_.push(...)` with `next_sequence_++`.
unfoldable pub push_next : RuntimeEvent → EventQueue → EventQueue
push_next e q = record { events = push e q.events; next_sequence = (q.next_sequence + 1) % u64_mod }

unfoldable pub schedule : EventScheduleRequest → Action EventQueue (Unit {0})
unfolding event_of push_next
schedule r q =
    if ltbℤ r.time (pos 0)
    then threw "event time cannot be negative" q
    else ok tt (push_next (event_of r q.next_sequence) q)

unfoldable pub schedule_control :
    BusinessTime → ControlType → ℕ → String → Action EventQueue (Unit {0})
unfolding control_event_of push_next
schedule_control time control_type request_id source q =
    if ltbℤ time (pos 0)
    then threw "event time cannot be negative" q
    else ok tt (push_next (control_event_of time control_type request_id source q.next_sequence) q)

first_of_list : List RuntimeEvent → Option RuntimeEvent
first_of_list [] = none
first_of_list (x ∷ xs) = some x

rest_of_list : List RuntimeEvent → List RuntimeEvent
rest_of_list [] = []
rest_of_list (x ∷ xs) = xs

unfoldable pub peek_next : EventQueue → Option RuntimeEvent
unfolding first_of_list
peek_next q = first_of_list q.events

unfoldable pub pop_next : EventQueue → Option RuntimeEvent × EventQueue
unfolding first_of_list rest_of_list
pop_next q = (first_of_list q.events, record q { events = rest_of_list q.events })

unfoldable pub clear : EventQueue → EventQueue
clear q = record { events = []; next_sequence = 0 }
