-- ===== src/Runtime/Pausing/Superseded.antt =====
-- About the events of a DELAY that was paused and resumed (runtime.cpp): PauseLocalCommand,
-- ResumeActiveCommand and then HandleEvent.
use roborun.Prelude.{
  ℕ, pos, ◌+◌, ◌-◌, ◌%◌, ◌==◌, ◌<◌, ◌≤◌, Bool, true, false, not, ◌&&◌, Outcome, ap, if◌then◌else◌,
  ◌≡◌, refl, none, some, ok, arith, after, ◌∙◌,
}
use roborun.Types.{LifecycleState, CommandType, ActiveCommand, is_command, is_lifecycle}
use roborun.EventQueue.{RuntimeEvent, EventQueue, event_of, schedule, u64_mod}
use roborun.Runtime.State.{Session, now}
use roborun.Runtime.Scheduling.{plain_request}
use roborun.Runtime.Workcell.{finish_active_success}
use roborun.Runtime.Feedback.{handle_delay_complete}
use roborun.Runtime.Advance.{handle_event}
use roborun.Runtime.Pausing.{pause_local_command, resume_active_command}
use roborun.Runtime.Pausing.Remaining.{
  resumed_at, delay_end, pause_keeps_remaining, checked_add_exact, resume_delay_ok, resume_shape,
}

-- The session that a resumed delay leaves.
abbrev resumed : Session → ActiveCommand → EventQueue → Session
resumed t a q = record t {
  lifecycle_state = if t.setup.has_workcell then LifecycleState.running else LifecycleState.waiting;
  active_command = some a;
  events = q;
}

same_test : (x g l : Bool) → x ≡ true → l ≡ true → (x && g && l) ≡ g
same_test true g true h k = ground arith
same_test true g false h k = cc
same_test false g l h k = cc

is_delay :
    (a : ActiveCommand) → a.type ≡ CommandType.delay → is_command a.type CommandType.delay ≡ true
is_delay a h = ap (λ k. is_command k CommandType.delay) h

unpaused :
    (b : Bool)
    → not (
        is_lifecycle
          (if b then LifecycleState.running else LifecycleState.waiting)
          LifecycleState.paused)
      ≡ true
unpaused true = refl
unpaused false = refl

-- On such a session, the end of a delay is handled by its generation alone.
delay_end_handled :
    (b c : ActiveCommand) (time n : ℕ) (t : Session) (q : EventQueue)
    → b.type ≡ CommandType.delay
    → handle_event (event_of (delay_end c time) n) (resumed t b q)
      ≡ ok tt (
          if b.generation == c.generation
          then finish_active_success "delay_completed" none (resumed t b q)
          else resumed t b q)
unfolding handle_event event_of plain_request handle_delay_complete
delay_end_handled b c time n t q h =
    ap
      (λ k.
        ok tt (
          if k
          then finish_active_success "delay_completed" none (resumed t b q)
          else resumed t b q))
      (same_test (is_command b.type CommandType.delay) (b.generation == c.generation) _
        (is_delay b h) (unpaused t.setup.has_workcell))

twice_renumbered : (g : ℕ) → g < u64_mod → (((g + 1) % u64_mod + 1) % u64_mod == g) ≡ false
twice_renumbered g h = ground arith

same_number : (g : ℕ) → (g == g) ≡ true
same_number g = ground arith

-- A delay with the deadline `d`, paused at `p` no later than `d`, and resumed at `r` in whatever
-- state the session is then, where the new deadline fits a 64-bit time. Behind the resumption, the
-- event that was scheduled to end the delay before the pause changes nothing when it is handled,
-- and the one that the resumption schedules completes the delay, whatever numbers they have in the
-- queue.
pub superseded_by_resume :
    (e : RuntimeEvent) (s t : Session) (a : ActiveCommand) (p d r m n : ℕ)
    → s.active_command ≡ some a
    → a.type ≡ CommandType.delay
    → a.deadline_ms ≡ some (pos d)
    → now s ≡ pos p
    → p ≤ d
    → t.active_command ≡ (pause_local_command e s).active_command
    → now t ≡ pos r
    → r + (d - p) ≤ 9223372036854775807
    → a.generation < u64_mod
    → let u = after (resume_active_command t) in
      (handle_event (event_of (delay_end a d) m) u ≡ ok tt u)
      × (handle_event (event_of (delay_end (resumed_at a p d r) (r + (d - p))) n) u
          ≡ ok tt (finish_active_success "delay_completed" none u))
superseded_by_resume e s t a p d r m n h y k c l g i w z =
    let q = g ∙ pause_keeps_remaining e s a p d h k c l in
    let x = checked_add_exact r (d - p) w in
    let b = resumed_at a p d r in
    let v = after (schedule (delay_end b (r + (d - p))) t.events) in
    rw (resume_shape t a p d r q y i x, resume_delay_ok b (r + (d - p)) _ refl)
      (
        delay_end_handled b a d m t v y ∙ ap (by_number v) (twice_renumbered a.generation z),
        delay_end_handled b b (r + (d - p)) n t v y ∙ ap (by_number v) (same_number b.generation),
      )
  where
    by_number : EventQueue → Bool → Outcome Session (Unit {0})
    by_number v k =
        let u = resumed t (resumed_at a p d r) v in
        ok tt (if k then finish_active_success "delay_completed" none u else u)
