-- ===== src/Runtime/Advance/Preemption.antt =====
-- About SubmitControl and Advance (runtime.cpp), for an ESTOP.
use roborun.Prelude.{
  pos, ◌≡◌, ◌≢◌, refl, true, false, Option, none, some, All, arith, after, ok, threw, Outcome,
  String, ltbℤ, ◌∙◌, sym, ap,
}
use roborun.Types.{ControlType, BusinessTime}
use roborun.Clock.{Clock}
use roborun.EventQueue.{RuntimeEvent, EventQueue, control_event_of, schedule_control, peek_next}
use roborun.EventQueue.Preemption.{NoEarlierEmergency, estop_preempts}
use roborun.Runtime.State.{Session, now}
use roborun.Runtime.Advance.{
  controlled, schedule_control_event, submit_control, submit_control_with_request_id, missing_type,
  must_process, advance_body, process_event,
}

-- The event of an ESTOP that is submitted now.
abbrev pub estop_event : String → Session → RuntimeEvent
estop_event source s =
    control_event_of (now s) ControlType.estop s.next_control_request_id source
      s.events.next_sequence

controlled_events :
    (s : Session) (o : Outcome EventQueue (Unit {0})) → (after (controlled s o)).events ≡ after o
unfolding controlled
controlled_events s (ok _ q) = refl
controlled_events s (threw e q) = refl

submitted_events :
    (source : String) (s : Session) (c : Clock)
    → s.clock ≡ some c
    → s.next_control_request_id ≢ 0
    → (after (submit_control ControlType.estop source s)).events
      ≡ after (schedule_control (now s) ControlType.estop s.next_control_request_id source s.events)
unfolding submit_control submit_control_with_request_id missing_type schedule_control_event
    controlled
submitted_events source s c h n = grind (arith, h)

submitted_clock :
    (source : String) (s : Session)
    → (after (submit_control ControlType.estop source s)).clock ≡ s.clock
unfolding submit_control submit_control_with_request_id missing_type schedule_control_event
    controlled
submitted_clock source s = ground arith

event_time : (source : String) (s : Session) → (estop_event source s).time ≡ now s
unfolding control_event_of
event_time source s = refl

same_now : (s t : Session) → t.clock ≡ s.clock → now t ≡ now s
same_now s t h =
    ap (λ (o : Option Clock). elim o as (λ _. BusinessTime) [ none ↦ pos 0 | some c ↦ c.now ]) h

due_now : (e : RuntimeEvent) (s : Session) → e.time ≡ now s → must_process e s ≡ true
unfolding must_process
due_now e s h = ground arith

advance_next :
    (e : RuntimeEvent) (s : Session)
    → peek_next s.events ≡ some e
    → must_process e s ≡ true
    → advance_body s ≡ process_event e s
unfolding advance_body
advance_next e s h k = grind (arith, h, k)

-- An ESTOP that is submitted to a session at a time that is not negative, under a number that is not
-- 0, while every pending event is due now or later and none now is an emergency already: the next
-- step of the session is to handle it, before any command and any other event.
pub estop_handled_next :
    (source : String) (s : Session) (c : Clock)
    → s.clock ≡ some c
    → s.next_control_request_id ≢ 0
    → ltbℤ (now s) (pos 0) ≡ false
    → All (NoEarlierEmergency (now s)) s.events.events
    → advance_body (after (submit_control ControlType.estop source s))
      ≡ process_event (estop_event source s) (after (submit_control ControlType.estop source s))
estop_handled_next source s c h n l a =
    let t = after (submit_control ControlType.estop source s) in
    let p = submitted_events source s c h n in
    advance_next (estop_event source s) t
      (ap peek_next p ∙ estop_preempts (now s) s.next_control_request_id source s.events l a)
      (due_now (estop_event source s) t
        (event_time source s ∙ sym (same_now s t (submitted_clock source s))))
