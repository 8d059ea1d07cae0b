-- ===== src/Runtime/Trust/Halted.antt =====
-- About Advance (runtime.cpp), and the relation Calm.
use roborun.Prelude.{
  ◌≡◌, ◌≢◌, ◌⊎◌, refl, true, false, Option, none, some, arith, after, ok, threw, Outcome, ◌>>◌,
  if◌then◌else◌,
}
use roborun.Types.{
  BusinessTime, LifecycleState, ControlType, RuntimeEventType, ExecutionAdvanceResult,
  DiagnosticCode, StopReason,
}
use roborun.Clock.{Clock}
use roborun.EventQueue.{RuntimeEvent, peek_next}
use roborun.Runtime.State.{Session}
use roborun.Runtime.Stopping.{begin_fault}
use roborun.Runtime.Advance.{
  handle_event, clock_moved, advance_clock_to, must_process, process_event, take_command,
  advance_body, advance, progress,
}
use roborun.Runtime.Trust.{Calm, Calm-refl, Calm-trans, Calm-same, Calm-bind, Calm-branch}
use roborun.Runtime.Trust.Stops.{begin_fault-Calm}
use roborun.Runtime.Trust.Controls.{handle_event-Calm}

clock_moved-Calm : (s : Session) (o : Outcome Clock (Unit {0})) → Calm s (after (clock_moved s o))
unfolding clock_moved
clock_moved-Calm s (ok _ c) = Calm-same refl refl
clock_moved-Calm s (threw e c) = Calm-same refl refl

advance_clock_to-Calm : (t : BusinessTime) (s : Session) → Calm s (after (advance_clock_to t s))
unfolding advance_clock_to
advance_clock_to-Calm t s = grind (arith, clock_moved-Calm, Calm-refl)

-- The event is no RESUME.
abbrev pub NoResume : RuntimeEvent → Type 0
NoResume e = e.type ≡ RuntimeEventType.control → e.control_type ≢ ControlType.resume

process_event-Calm :
    (e : RuntimeEvent) (s : Session) → NoResume e → Calm s (after (process_event e s))
unfolding process_event
process_event-Calm e s h = Calm-trans (Calm-same refl refl) (
    Calm-bind (advance_clock_to e.time) _ _ (advance_clock_to-Calm e.time _)
      (λ _ t. Calm-bind (handle_event e) _ t (handle_event-Calm e t h) (λ _ u. Calm-refl u)))

-- Terminal, idle or paused.
abbrev pub Halted : Session → Type 0
Halted s =
    (s.task_terminal ≡ true)
    ⊎ (s.lifecycle_state ≡ LifecycleState.idle)
    ⊎ (s.lifecycle_state ≡ LifecycleState.paused)

take_command-Halted : (s : Session) → Halted s → after (take_command s) ≡ s
unfolding take_command
take_command-Halted s h = ground arith

take_command-Calm : (s : Session) → Halted s → Calm s (after (take_command s))
take_command-Calm s h = rw (take_command-Halted s h) (Calm-refl s)

advance_body-Calm :
    (s : Session)
    → Halted s
    → ((e : RuntimeEvent) → peek_next s.events ≡ some e → NoResume e)
    → Calm s (after (advance_body s))
unfolding advance_body
advance_body-Calm s h k = go (peek_next s.events) k
  where
    go :
        (o : Option RuntimeEvent)
        → ((e : RuntimeEvent) → o ≡ some e → NoResume e)
        → Calm s (
            after (elim o [
              | none ↦ take_command s
              | some next ↦ if must_process next s then process_event next s else take_command s
            ]))
    go none k = take_command-Calm s h
    go (some e) k =
        Calm-branch (must_process e s) s _ _ (process_event-Calm e s (k e refl))
          (take_command-Calm s h)

-- Advancing a session that is terminal, idle or paused starts no motion and gives no trust back,
-- whatever the devices answer or throw, unless the next event of its queue is a RESUME.
pub advance-Halted :
    (s : Session)
    → Halted s
    → ((e : RuntimeEvent) → peek_next s.events ≡ some e → NoResume e)
    → Calm s (after (advance s))
unfolding advance
advance-Halted s h k = go (advance_body s) (advance_body-Calm s h k)
  where
    go :
        (o : Outcome Session ExecutionAdvanceResult)
        → Calm s (after o)
        → Calm s (
            after (elim o [
              | ok r s' ↦ ok r s'
              | threw e s' ↦
                  (do
                    begin_fault DiagnosticCode.backend_failure e false StopReason.fault_cleanup
                    λ s''. ok (progress s'') s'')
                    s'
            ]))
    go (ok r t) p = p
    go (threw e t) p = Calm-trans p (
        Calm-bind (begin_fault DiagnosticCode.backend_failure e false StopReason.fault_cleanup) _ t
          (begin_fault-Calm _ e _ _ t) (λ _ u. Calm-refl u))
