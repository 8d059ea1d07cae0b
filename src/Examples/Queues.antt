-- ===== src/Examples/Queues.antt =====
-- Applications of the theorems on clocks and the event queue.
use roborun.Prelude.{
  ℕ, List, map, pos, ◌+◌, ◌≤◌, ◌≡◌, ◌⊎◌, refl, false, true, [], ◌∷◌, none, some, arith, after, ltbℤ,
  threw,
}
use mathlib.Core.List.{Perm}
use roborun.Types.{BusinessTime, ControlType, RuntimeEventType, RuntimeEventPriority}
use roborun.Clock.{Clock, checked_business_time_add, saturating_business_time_add, time_max}
use roborun.Clock.Laws.{InRange, time_add_bounds}
use roborun.EventQueue.{
  RuntimeEvent, EventScheduleRequest, EventQueue, schedule, schedule_control, control_event_of,
  event_of, empty, peek_next,
}
use roborun.EventQueue.Invariant.{IsValid, QueueCall, step, step-IsValid}
use roborun.EventQueue.Fairness.{
  schedule_all, pop_all, request_of, select, InOrder, pop_all-schedule_all,
}
use roborun.EventQueue.Contents.{schedule_contents}
use roborun.EventQueue.Preemption.{estop_preempts}
use roborun.Examples.{event}

time_add_bounds_example :
    ((checked_business_time_add (pos 400) (pos 2000) ≡ some (pos (400 + 2000)))
      × (saturating_business_time_add (pos 400) (pos 2000) ≡ pos (400 + 2000))
      × InRange (pos (400 + 2000)))
    ⊎ ((checked_business_time_add (pos 400) (pos 2000) ≡ none)
        × (saturating_business_time_add (pos 400) (pos 2000) ≡ time_max)
        × (9223372036854775808 ≤ 400 + 2000))
time_add_bounds_example = time_add_bounds 400 2000 (omega arith) (omega arith)

abbrev late : Clock
late = record { now = pos 500; is_virtual = true }

abbrev poll : RuntimeEvent
poll = event RuntimeEventType.motion_poll

abbrev queue : EventQueue
queue = record { events = poll ∷ []; next_sequence = 6 }

abbrev queue_valid : IsValid queue
queue_valid = record { sorted = (tt, tt); numbered = (omega arith, tt) }

abbrev request : EventScheduleRequest
request = record {
  time = pos 300;
  priority = RuntimeEventPriority.timeout;
  type = RuntimeEventType.backend_fault;
  name = "";
  value = false;
  detail = "timeout";
  command_index = 1;
  command_generation = 1;
  stop_episode_id = 0;
}

step-IsValid_example : IsValid (step queue (QueueCall.schedules request))
step-IsValid_example = step-IsValid queue (QueueCall.schedules request) (omega arith) queue_valid

-- Two requests for one time, behind a later one.
abbrev requests : List EventScheduleRequest
requests = record request { time = pos 700 } ∷ request ∷ record request { detail = "again" } ∷ []

pop_all-schedule_all_example :
    let es = pop_all 3 (schedule_all requests empty) in
    InOrder es × ((t : BusinessTime) (p : ℕ) → select t p (map request_of es) ≡ select t p requests)
pop_all-schedule_all_example =
    pop_all-schedule_all requests (refl, (refl, (refl, tt))) (omega arith)

schedule_contents_example :
    ((ltbℤ request.time (pos 0) ≡ true)
      × (schedule request queue ≡ threw "event time cannot be negative" queue))
    ⊎ ((ltbℤ request.time (pos 0) ≡ false)
        × Perm
            (after (schedule request queue)).events
            (event_of request queue.next_sequence ∷ queue.events))
schedule_contents_example = schedule_contents request queue

estop_preempts_example :
    peek_next (after (schedule_control (pos 400) ControlType.estop 7 "operator" queue))
    ≡ some (control_event_of (pos 400) ControlType.estop 7 "operator" 6)
estop_preempts_example =
    estop_preempts (pos 400) 7 "operator" queue refl ((omega arith, λ _. omega arith), tt)
