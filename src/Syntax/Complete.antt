-- ===== src/Syntax/Complete.antt =====
-- About the words that spell a statement, read by the parser of a line.
use roborun.Prelude.{
  ℕ, zero, suc, ◌+◌, ◌^◌, ◌≤◌, ltb, ◌&&◌, ℤ, Bool, true, false, String, Option, none, some, List,
  [], ◌∷◌, ◌≡◌, ap, ◌∙◌, refl, subst, arith,
}
use Prim.Native.Char.{code}
use Prim.Native.String as Native
use Prim.Native.String.{count}
use text.Mathlib.TextLemmas.{length-nil, length-cons}
use roborun.Types.{ToolPosition, JointPositions, Double, no_positions}
use roborun.Text.{Strtod, parse_double, parse_milliseconds}
use roborun.Text.Numbers.{parse_milliseconds_iff}
use roborun.Text.Integers.{Denotes, parse_int_iff}
use roborun.Config.{is_upper, is_name_char, is_name_tail, is_valid_point_name}
use roborun.Parser.{
  LineResult, parse_tokens, parse_command, parse_bare, parse_delay, parse_set_do, parse_wait_di,
  parse_set_tool, parse_movej, parse_named, parse_joints, make_command, named_command,
  joint_command, with_timeout, looks_like_point_reference, read_targets, set_target, TargetsRead,
  token_at, starts_alpha,
}
use roborun.Syntax.{
  Statement, meaning, level_word, position_word, IsTime, IsName, SpellsTimeout, SpellsJoints,
  Spells,
}

both_right : (a b : Bool) → (a && b) ≡ true → b ≡ true
both_right true b h = h
both_right false b h = cc

IsTime-read : (t : String) (d : ℤ) → IsTime t d → parse_milliseconds t ≡ some d
IsTime-read t d h = (parse_milliseconds_iff t d).1 h

name_tail_count : (most : ℕ) (s : String) → is_name_tail most s ≡ true → count s ≤ most
unfolding is_name_tail
name_tail_count most Native.[] h = rw length-nil (omega arith)
name_tail_count zero (Native.◌∷◌ c s) h = cc
name_tail_count (suc most) (Native.◌∷◌ c s) h =
    rw length-cons (omega (arith, name_tail_count most s (both_right (is_name_char (code c)) _ h)))

IsName-short : (name : String) → IsName name → ltb 64 (count name) ≡ false
unfolding is_valid_point_name
IsName-short Native.[] h = cc
IsName-short (Native.◌∷◌ c s) h =
    let short = name_tail_count 63 s (both_right (is_upper (code c)) _ h) in
    rw length-cons (ground arith)

module _ (strtod : String → Strtod) (n : ℕ) where
  bare_complete :
      (parse_tokens strtod n ("SERVO_ON" ∷ []) ≡ LineResult.accepted (meaning n Statement.servo_on))
      × (parse_tokens strtod n ("SERVO_OFF" ∷ [])
          ≡ LineResult.accepted (meaning n Statement.servo_off))
      × (parse_tokens strtod n ("STOP" ∷ []) ≡ LineResult.accepted (meaning n Statement.stop))
  unfolding parse_tokens parse_command parse_bare make_command
  bare_complete = (refl, refl, refl)

  delay_complete :
      (t : String) (d : ℤ)
      → IsTime t d
      → parse_tokens strtod n ("DELAY" ∷ t ∷ [])
        ≡ LineResult.accepted (meaning n (Statement.delay d))
  unfolding parse_tokens parse_command parse_delay make_command
  delay_complete t d h = rw (IsTime-read t d h) refl

  set_do_complete :
      (name : String) (level : Bool)
      → IsName name
      → parse_tokens strtod n ("SET_DO" ∷ name ∷ level_word level ∷ [])
        ≡ LineResult.accepted (meaning n (Statement.set_do name level))
  unfolding parse_tokens parse_command parse_set_do make_command
  set_do_complete name true h = rw h refl
  set_do_complete name false h = rw h refl

  wait_di_complete :
      (name : String) (level : Bool) (t : String) (d : ℤ)
      → IsName name
      → IsTime t d
      → parse_tokens strtod n ("WAIT_DI" ∷ name ∷ level_word level ∷ "TIMEOUT" ∷ t ∷ [])
        ≡ LineResult.accepted (meaning n (Statement.wait_di name level d))
  unfolding parse_tokens parse_command parse_wait_di make_command
  wait_di_complete name true t d h k = rw (h, IsTime-read t d k) refl
  wait_di_complete name false t d h k = rw (h, IsTime-read t d k) refl

  set_tool_complete :
      (name : String) (position : ToolPosition) (t : String) (d : ℤ)
      → IsName name
      → IsTime t d
      → parse_tokens strtod n ("SET_TOOL" ∷ name ∷ position_word position ∷ "TIMEOUT" ∷ t ∷ [])
        ≡ LineResult.accepted (meaning n (Statement.set_tool name position d))
  unfolding parse_tokens parse_command parse_set_tool make_command
  set_tool_complete name ToolPosition.opened t d h k = rw (h, IsTime-read t d k) refl
  set_tool_complete name ToolPosition.closed t d h k = rw (h, IsTime-read t d k) refl

  move_point_complete :
      (name t : String) (speed : ℤ) (timeout : Option ℤ) (rest : List String)
      → IsName name
      → Denotes (2 ^ 31) t speed
      → SpellsTimeout timeout rest
      → parse_tokens strtod n ("MOVEJ" ∷ name ∷ "SPEED" ∷ t ∷ rest)
        ≡ LineResult.accepted (meaning n (Statement.move_point name speed timeout))
  unfolding parse_tokens parse_command parse_movej parse_named named_command make_command
      with_timeout
  move_point_complete name t speed none rest h k e =
      rw (e, IsName-short name h, h, (parse_int_iff t speed).1 k) refl
  move_point_complete name t speed (some d) rest h k (u, e, time) =
      rw (e, IsName-short name h, h, (parse_int_iff t speed).1 k, IsTime-read u d time) refl

  read_targets-step :
      (ts : List String) (rounds i : ℕ) (d : Double) (done : JointPositions)
      → parse_double strtod (token_at ts (i + 1)) ≡ some d
      → read_targets strtod ts (suc rounds) i done
        ≡ read_targets strtod ts rounds (i + 1) (set_target i d done)
  unfolding read_targets
  read_targets-step ts rounds i d done h = rw (h, read_targets) refl

  joints_complete :
      (p : JointPositions) (ts : List String)
      → SpellsJoints strtod p ts
      → read_targets strtod ts 6 0 no_positions ≡ TargetsRead.targets p
  unfolding set_target
  joints_complete p ts w = rw w.words (
      read_targets-step _ 5 0 p.j1 _ w.d1
      ∙ read_targets-step _ 4 1 p.j2 _ w.d2
      ∙ read_targets-step _ 3 2 p.j3 _ w.d3
      ∙ read_targets-step _ 2 3 p.j4 _ w.d4
      ∙ read_targets-step _ 1 4 p.j5 _ w.d5
      ∙ read_targets-step _ 0 5 p.j6 _ w.d6
      ∙ (unfold read_targets in refl))

  module _ (t1 t2 t3 t4 t5 t6 : String) (p : JointPositions)
      (no_letter : starts_alpha t1 ≡ false) where
    abbrev joint_words : List String → List String
    joint_words rest = "MOVEJ" ∷ t1 ∷ t2 ∷ t3 ∷ t4 ∷ t5 ∷ t6 ∷ rest

    untimed_complete :
        read_targets strtod (joint_words []) 6 0 no_positions ≡ TargetsRead.targets p
        → parse_tokens strtod n (joint_words [])
          ≡ LineResult.accepted (meaning n (Statement.move_joints p none))
    unfolding parse_tokens parse_command parse_movej parse_joints looks_like_point_reference
        joint_command make_command
    untimed_complete read = rw (no_letter, read) refl

    timed_complete :
        (u : String) (d : ℤ)
        → read_targets strtod (joint_words ("TIMEOUT" ∷ u ∷ [])) 6 0 no_positions
          ≡ TargetsRead.targets p
        → IsTime u d
        → parse_tokens strtod n (joint_words ("TIMEOUT" ∷ u ∷ []))
          ≡ LineResult.accepted (meaning n (Statement.move_joints p (some d)))
    unfolding parse_tokens parse_command parse_movej parse_joints looks_like_point_reference
        with_timeout joint_command make_command
    timed_complete u d read time = rw (no_letter, read, IsTime-read u d time) refl

  move_joints_complete :
      (p : JointPositions) (timeout : Option ℤ) (ts : List String) (w : SpellsJoints strtod p ts)
      → SpellsTimeout timeout w.rest
      → parse_tokens strtod n ts ≡ LineResult.accepted (meaning n (Statement.move_joints p timeout))
  move_joints_complete p none ts w e =
      let words = w.words ∙ ap (joint_words w.t1 w.t2 w.t3 w.t4 w.t5 w.t6 p w.no_letter) e in
      let read = joints_complete p ts w in
      ap (parse_tokens strtod n) words
      ∙ untimed_complete w.t1 w.t2 w.t3 w.t4 w.t5 w.t6 p w.no_letter
          (subst (λ us. read_targets strtod us 6 0 no_positions ≡ TargetsRead.targets p) words read)
  move_joints_complete p (some d) ts w (u, e, time) =
      let words = w.words ∙ ap (joint_words w.t1 w.t2 w.t3 w.t4 w.t5 w.t6 p w.no_letter) e in
      let read = joints_complete p ts w in
      ap (parse_tokens strtod n) words
      ∙ timed_complete w.t1 w.t2 w.t3 w.t4 w.t5 w.t6 p w.no_letter u d
          (subst (λ us. read_targets strtod us 6 0 no_positions ≡ TargetsRead.targets p) words read)
          time

  -- The parser of a line reads the words of every statement as the command that it means.
  pub parse_tokens_complete :
      (s : Statement) (ts : List String)
      → Spells strtod s ts
      → parse_tokens strtod n ts ≡ LineResult.accepted (meaning n s)
  parse_tokens_complete Statement.servo_on ts e = ap (parse_tokens strtod n) e ∙ bare_complete.0
  parse_tokens_complete Statement.servo_off ts e = ap (parse_tokens strtod n) e ∙ bare_complete.1
  parse_tokens_complete Statement.stop ts e = ap (parse_tokens strtod n) e ∙ bare_complete.2
  parse_tokens_complete (Statement.delay d) ts (t, e, h) =
      ap (parse_tokens strtod n) e ∙ delay_complete t d h
  parse_tokens_complete (Statement.set_do name level) ts (e, h) =
      ap (parse_tokens strtod n) e ∙ set_do_complete name level h
  parse_tokens_complete (Statement.wait_di name level d) ts (t, e, h, k) =
      ap (parse_tokens strtod n) e ∙ wait_di_complete name level t d h k
  parse_tokens_complete (Statement.set_tool name position d) ts (t, e, h, k) =
      ap (parse_tokens strtod n) e ∙ set_tool_complete name position t d h k
  parse_tokens_complete (Statement.move_point name speed timeout) ts (t, rest, e, h, k, l) =
      ap (parse_tokens strtod n) e ∙ move_point_complete name t speed timeout rest h k l
  parse_tokens_complete (Statement.move_joints p timeout) ts (w, l) =
      move_joints_complete p timeout ts w l
