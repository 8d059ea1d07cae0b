-- ===== src/Runtime/Pausing/Remaining.antt =====
-- About PauseLocalCommand and ResumeActiveCommand (runtime.cpp), for a DELAY.
use roborun.Prelude.{
  ℕ, pos, ◌+◌, ◌-◌, ◌%◌, ◌≤◌, if◌then◌else◌, ◌≡◌, refl, none, some, arith, after, ◌∙◌,
}
use roborun.Types.{
  BusinessTime, LifecycleState, CommandType, CommandExecutionStatus, RuntimeEventPriority,
  RuntimeEventType, ActiveCommand,
}
use roborun.Clock.{checked_business_time_add}
use roborun.EventQueue.{RuntimeEvent, EventScheduleRequest, schedule, u64_mod}
use roborun.Runtime.State.{Session, now}
use roborun.Runtime.Records.{append_control_trace, append_trace, push_trace}
use roborun.Runtime.Scheduling.{plain_request, schedule_event, scheduled}
use roborun.Runtime.Pausing.{
  pause_local_command, pause_local_active, time_left, resume_active_command, resume_local,
  resume_delay,
}

-- A local wait, paused at `p` before its deadline `d`.
abbrev pub paused_at : ActiveCommand → ℕ → ℕ → ActiveCommand
paused_at a p d = record a {
  remaining_ms = pos (d - p);
  deadline_ms = none;
  status = CommandExecutionStatus.paused;
  generation = (a.generation + 1) % u64_mod;
}

-- The same, resumed at `r`.
abbrev pub resumed_at : ActiveCommand → ℕ → ℕ → ℕ → ActiveCommand
resumed_at a p d r = record a {
  remaining_ms = pos (d - p);
  deadline_ms = some (pos (r + (d - p)));
  status = CommandExecutionStatus.accepted;
  started_at_ms = pos r;
  generation = ((a.generation + 1) % u64_mod + 1) % u64_mod;
}

-- The event that ends a delay.
abbrev pub delay_end : ActiveCommand → ℕ → EventScheduleRequest
delay_end a time =
    plain_request (pos time) RuntimeEventPriority.command_completion RuntimeEventType.delay_complete
      "" a.command_index a.generation 0

time_left_exact :
    (d p : ℕ) (x : BusinessTime) → p ≤ d → time_left (some (pos d)) (pos p) x ≡ pos (d - p)
unfolding time_left
time_left_exact d p x h = ground arith

pub pause_keeps_remaining :
    (e : RuntimeEvent) (s : Session) (a : ActiveCommand) (p d : ℕ)
    → s.active_command ≡ some a
    → a.deadline_ms ≡ some (pos d)
    → now s ≡ pos p
    → p ≤ d
    → (pause_local_command e s).active_command ≡ some (paused_at a p d)
unfolding pause_local_command pause_local_active append_control_trace append_trace push_trace
pause_keeps_remaining e s a p d h k c l =
    let q = time_left_exact d p (pos 0) l in grind (arith, h, k, c, q)

pub checked_add_exact :
    (b d : ℕ)
    → b + d ≤ 9223372036854775807
    → checked_business_time_add (pos b) (pos d) ≡ some (pos (b + d))
unfolding checked_business_time_add
checked_add_exact b d h = ground arith

-- Scheduling writes nothing but the queue.
schedule_event_ok :
    (r : EventScheduleRequest) (s : Session)
    → after (schedule_event r s) ≡ record s { events = after (schedule r s.events) }
unfolding schedule_event scheduled
schedule_event_ok r s = ground arith

pub resume_delay_ok :
    (a : ActiveCommand) (n : ℕ) (s : Session)
    → a.deadline_ms ≡ some (pos n)
    → after (resume_delay a s) ≡ record s { events = after (schedule (delay_end a n) s.events) }
unfolding resume_delay plain_request
resume_delay_ok a n s h = rw (h, schedule_event_ok (delay_end a n) s) refl

pub resume_shape :
    (t : Session) (a : ActiveCommand) (p d r : ℕ)
    → t.active_command ≡ some (paused_at a p d)
    → a.type ≡ CommandType.delay
    → now t ≡ pos r
    → checked_business_time_add (pos r) (pos (d - p)) ≡ some (pos (r + (d - p)))
    → resume_active_command t
      ≡ resume_delay (resumed_at a p d r) (record t {
        lifecycle_state =
            if t.setup.has_workcell then LifecycleState.running else LifecycleState.waiting;
        active_command = some (resumed_at a p d r);
      })
unfolding resume_active_command resume_local
resume_shape t a p d r q y m x = grind (arith, q, y, m, x)

-- A delay with the deadline `d`, paused at `p` no later than `d`, and resumed at `r` in whatever
-- state the session is then, where the new deadline fits a 64-bit time: it is as far behind `r` as
-- the old one was behind `p`, the delay is numbered anew twice, and the event that ends it is
-- scheduled for that deadline under the new number.
pub delay_pause_exact :
    (e : RuntimeEvent) (s t : Session) (a : ActiveCommand) (p d r : ℕ)
    → s.active_command ≡ some a
    → a.type ≡ CommandType.delay
    → a.deadline_ms ≡ some (pos d)
    → now s ≡ pos p
    → p ≤ d
    → t.active_command ≡ (pause_local_command e s).active_command
    → now t ≡ pos r
    → r + (d - p) ≤ 9223372036854775807
    → ((after (resume_active_command t)).active_command ≡ some (resumed_at a p d r))
      × ((after (resume_active_command t)).events
          ≡ after (schedule (delay_end (resumed_at a p d r) (r + (d - p))) t.events))
delay_pause_exact e s t a p d r h y k c l g m w =
    let q = g ∙ pause_keeps_remaining e s a p d h k c l in
    let x = checked_add_exact r (d - p) w in
    rw (resume_shape t a p d r q y m x, resume_delay_ok (resumed_at a p d r) (r + (d - p)) _ refl)
      (refl, refl)
