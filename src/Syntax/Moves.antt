-- ===== src/Syntax/Moves.antt =====
-- About the lines that the parser of a line accepts: MOVEJ in its two forms.
use roborun.Prelude.{
  ℕ, suc, ◌+◌, ltb, leb, ℤ, Bool, true, false, not, ◌&&◌, ◌||◌, String, str_eq, str_eq_iff, none,
  some, List, [], ◌∷◌, length, ◌==◌, if◌then◌else◌, ◌≡◌, inl, inr, ap, sym, ◌∙◌, refl, subst,
  Option-cases, arith,
}
use roborun.Types.{Command, DiagnosticCode, Double, JointPositions, no_positions}
use roborun.Text.{Strtod, parse_milliseconds, parse_int, parse_double}
use roborun.Text.Numbers.{parse_milliseconds_iff}
use roborun.Text.Integers.{parse_int_iff}
use roborun.Config.{is_valid_point_name}
use Prim.Native.String.{count}
use roborun.Parser.{
  LineResult, parse_named, parse_joints, parse_movej, make_command, token_at, timeout_of,
  with_timeout, named_command, joint_command, speed_of, joints_of, TargetsRead, read_targets,
  set_target, looks_like_point_reference, starts_alpha,
}
use roborun.Syntax.{Statement, meaning, IsTime, IsName, SpellsJoints, Spells}
use roborun.Syntax.Sound.{Meant, by_test, affirmed, headed, exactly4, exactly6, exactly7, exactly9}

leftover : (a b : Bool) → (a || b) ≡ true → b ≡ false → a ≡ true
leftover true b h e = refl
leftover false b h e = absurd (cc)

seven : (a b : Bool) → (not a && not b) ≡ false → b ≡ false → a ≡ true
seven true b h e = refl
seven false b h e = absurd (cc)

second : (a b : Bool) → (a && b) ≡ false → a ≡ true → b ≡ false
second true b h e = h
second false b h e = absurd (cc)

no_letter_of :
    (ts : List String)
    → looks_like_point_reference ts ≡ false
    → ltb (length ts) 7 ≡ false
    → starts_alpha (token_at ts 1) ≡ false
unfolding looks_like_point_reference
no_letter_of ts h enough = second (leb 2 (length ts)) _ h (ground arith)

pub both : (a b : Bool) → (a && b) ≡ true → (a ≡ true) × (b ≡ true)
both true b h = (refl, h)
both false b h = cc

module _ (strtod : String → Strtod) (n : ℕ) where
  guard :
      (ts : List String) (b : Bool) (code : DiagnosticCode) (message : String) (y : LineResult)
      → (b ≡ false → Meant strtod n ts y)
      → Meant strtod n ts (if b then LineResult.refused code message else y)
  guard ts b code message y f = by_test (Meant strtod n ts) b _ y (λ _. tt) f

  -- The timeout behind the words of a move, given what the words spell with it.
  with_timeout-Meant :
      (ts : List String) (at : ℕ) (command : Command) (s : ℤ → Statement)
      → ((d : ℤ) → record command { timeout_ms = some d } ≡ meaning n (s d))
      → ((d : ℤ)
          → token_at ts at ≡ "TIMEOUT"
          → IsTime (token_at ts (at + 1)) d
          → Spells strtod (s d) ts)
      → Meant strtod n ts (with_timeout ts at command)
  unfolding with_timeout timeout_of
  with_timeout-Meant ts at command s means spells =
      by_test (Meant strtod n ts) _ _
        (timeout_of command (parse_milliseconds (token_at ts (at + 1)))) (λ _. tt)
        (λ timeout. elim (Option-cases (parse_milliseconds (token_at ts (at + 1)))) [
          | inl fails ↦ rw fails tt
          | inr (d, reads) ↦ rw reads (
            s d,
            spells d ((str_eq_iff _ "TIMEOUT").1 (affirmed _ timeout))
                ((parse_milliseconds_iff _ d).0 reads),
            means d,
          )
        ])

  timed_point_words :
      (name t k u : String) (speed : ℤ)
      → IsName name
      → parse_int t ≡ some speed
      → let ts = "MOVEJ" ∷ name ∷ "SPEED" ∷ t ∷ k ∷ u ∷ [] in
        Meant strtod n ts (with_timeout ts 4 (named_command n ts speed))
  unfolding named_command make_command
  timed_point_words name t k u speed named reads =
      with_timeout-Meant ("MOVEJ" ∷ name ∷ "SPEED" ∷ t ∷ k ∷ u ∷ []) 4 _
        (λ d. Statement.move_point name speed (some d)) (λ d. refl)
        (λ d timeout time. (
          t,
          "TIMEOUT" ∷ u ∷ [],
          (λ i. "MOVEJ" ∷ name ∷ "SPEED" ∷ t ∷ timeout i ∷ u ∷ []),
          named,
          (parse_int_iff t speed).0 reads,
          (u, refl, time),
        ))

  point_words :
      (name t : String) (speed : ℤ)
      → IsName name
      → parse_int t ≡ some speed
      → let ts = "MOVEJ" ∷ name ∷ "SPEED" ∷ t ∷ [] in
        Meant strtod n ts (LineResult.accepted (named_command n ts speed))
  unfolding named_command make_command
  point_words name t speed named reads = (
    Statement.move_point name speed none,
    (t, [], refl, named, (parse_int_iff t speed).0 reads, refl),
    refl,
  )

  speed-Meant :
      (ts : List String) (speed : ℤ)
      → token_at ts 0 ≡ "MOVEJ"
      → (length ts == 4 || length ts == 6) ≡ true
      → str_eq (token_at ts 2) "SPEED" ≡ true
      → IsName (token_at ts 1)
      → parse_int (token_at ts 3) ≡ some speed
      → Meant strtod n ts (speed_of n ts (some speed))
  unfolding speed_of
  speed-Meant ts speed keyword size word named reads =
      by_test (Meant strtod n ts) (length ts == 6) _ _
        (λ six.
          let (a, name, w, t, k, u, e) = exactly6 ts six in
          let p = ap (λ us. token_at us 2) (sym e) ∙ (str_eq_iff _ "SPEED").1 word in
          let words = headed e keyword ∙ (λ i. "MOVEJ" ∷ name ∷ p i ∷ t ∷ k ∷ u ∷ []) in
          subst (λ us. Meant strtod n us (with_timeout us 4 (named_command n us speed))) (sym words)
            (timed_point_words name t k u speed (subst IsName (ap (λ us. token_at us 1) e) named)
              (subst (λ v. parse_int v ≡ some speed) (ap (λ us. token_at us 3) e) reads)))
        (λ other.
          let (a, name, w, t, e) = exactly4 ts (leftover _ _ size other) in
          let p = ap (λ us. token_at us 2) (sym e) ∙ (str_eq_iff _ "SPEED").1 word in
          let words = headed e keyword ∙ (λ i. "MOVEJ" ∷ name ∷ p i ∷ t ∷ []) in
          subst (λ us. Meant strtod n us (LineResult.accepted (named_command n us speed)))
            (sym words)
            (point_words name t speed (subst IsName (ap (λ us. token_at us 1) e) named)
              (subst (λ v. parse_int v ≡ some speed) (ap (λ us. token_at us 3) e) reads)))

  named-Meant :
      (ts : List String)
      → token_at ts 0 ≡ "MOVEJ"
      → ((length ts == 4 || length ts == 6) && str_eq (token_at ts 2) "SPEED") ≡ true
      → Meant strtod n ts (parse_named n ts)
  unfolding parse_named
  named-Meant ts keyword shape =
      let (size, word) = both _ _ shape in
      let rest = speed_of n ts (parse_int (token_at ts 3)) in
      guard ts (ltb 64 (count (token_at ts 1))) _ _ _ (λ _.
        guard ts (not (is_valid_point_name (token_at ts 1))) _ _ rest (λ named.
          elim (Option-cases (parse_int (token_at ts 3))) [
            | inl fails ↦ rw fails (unfold speed_of in tt)
            | inr (speed, reads) ↦
                rw reads (speed-Meant ts speed keyword size word (affirmed _ named) reads)
          ]))

  -- What the loop over the targets has read when it ends.
  abbrev Reads : List String → TargetsRead → Type 0
  Reads ts (TargetsRead.not_a_number index) = Unit
  Reads ts (TargetsRead.targets p) =
      (parse_double strtod (token_at ts 1) ≡ some p.j1)
      × (parse_double strtod (token_at ts 2) ≡ some p.j2)
      × (parse_double strtod (token_at ts 3) ≡ some p.j3)
      × (parse_double strtod (token_at ts 4) ≡ some p.j4)
      × (parse_double strtod (token_at ts 5) ≡ some p.j5)
      × (parse_double strtod (token_at ts 6) ≡ some p.j6)

  by_target :
      (ts : List String) (rounds i : ℕ) (done : JointPositions)
      → ((d : Double)
          → parse_double strtod (token_at ts (i + 1)) ≡ some d
          → Reads ts (read_targets strtod ts rounds (i + 1) (set_target i d done)))
      → Reads ts (read_targets strtod ts (suc rounds) i done)
  unfolding read_targets
  by_target ts rounds i done next =
      elim (Option-cases (parse_double strtod (token_at ts (i + 1)))) [
        | inl fails ↦ rw (fails, read_targets) tt
        | inr (d, reads) ↦ rw (reads, read_targets) (next d reads)
      ]

  read_none :
      (ts : List String) (i : ℕ) (done : JointPositions)
      → read_targets strtod ts 0 i done ≡ TargetsRead.targets done
  unfolding read_targets
  read_none ts i done = refl

  read_targets-Reads : (ts : List String) → Reads ts (read_targets strtod ts 6 0 no_positions)
  unfolding set_target
  read_targets-Reads ts = by_target ts 5 0 _ λ d1 r1. by_target ts 4 1 _ λ d2 r2.
      by_target ts 3 2 _ λ d3 r3. by_target ts 2 3 _ λ d4 r4.
        by_target ts 1 4 _
          λ d5 r5. by_target ts 0 5 _ λ d6 r6. rw read_none (r1, r2, r3, r4, r5, r6)

  joints_words :
      (ts : List String) (p : JointPositions) (t1 t2 t3 t4 t5 t6 : String) (rest : List String)
      → ts ≡ "MOVEJ" ∷ t1 ∷ t2 ∷ t3 ∷ t4 ∷ t5 ∷ t6 ∷ rest
      → starts_alpha (token_at ts 1) ≡ false
      → Reads ts (TargetsRead.targets p)
      → (w : SpellsJoints strtod p ts) × (w.rest ≡ rest)
  joints_words ts p t1 t2 t3 t4 t5 t6 rest e no_letter (r1, r2, r3, r4, r5, r6) =
      let at = λ (k : ℕ). ap (λ us. token_at us k) e in
      (
        record {
          t1 = t1;
          t2 = t2;
          t3 = t3;
          t4 = t4;
          t5 = t5;
          t6 = t6;
          rest = rest;
          words = e;
          no_letter = subst (λ t. starts_alpha t ≡ false) (at 1) no_letter;
          d1 = ap (parse_double strtod) (sym (at 1)) ∙ r1;
          d2 = ap (parse_double strtod) (sym (at 2)) ∙ r2;
          d3 = ap (parse_double strtod) (sym (at 3)) ∙ r3;
          d4 = ap (parse_double strtod) (sym (at 4)) ∙ r4;
          d5 = ap (parse_double strtod) (sym (at 5)) ∙ r5;
          d6 = ap (parse_double strtod) (sym (at 6)) ∙ r6;
        },
        refl,
      )

  joints_of-Meant :
      (ts : List String) (r : TargetsRead)
      → token_at ts 0 ≡ "MOVEJ"
      → starts_alpha (token_at ts 1) ≡ false
      → (not (length ts == 7) && not (length ts == 9)) ≡ false
      → Reads ts r
      → Meant strtod n ts (joints_of n ts r)
  unfolding joints_of joint_command make_command
  joints_of-Meant ts (TargetsRead.not_a_number i) keyword no_letter size reads = tt
  joints_of-Meant ts (TargetsRead.targets p) keyword no_letter size reads =
      by_test (Meant strtod n ts) (length ts == 9) _ (LineResult.accepted (joint_command n p))
        (λ nine.
          let (a, t1, t2, t3, t4, t5, t6, k, u, e) = exactly9 ts nine in
          with_timeout-Meant ts 7 _ (λ d. Statement.move_joints p (some d)) (λ d. refl)
            (λ d timeout time.
              let k_is = ap (λ us. token_at us 7) (sym e) ∙ timeout in
              let words =
                headed e keyword ∙ (λ i. "MOVEJ" ∷ t1 ∷ t2 ∷ t3 ∷ t4 ∷ t5 ∷ t6 ∷ k_is i ∷ u ∷ []) in
              let (w, tail) =
                joints_words ts p t1 t2 t3 t4 t5 t6 ("TIMEOUT" ∷ u ∷ []) words no_letter reads in
              (w, (u, tail, subst (λ v. IsTime v d) (ap (λ us. token_at us 8) e) time))))
        (λ other.
          let (a, t1, t2, t3, t4, t5, t6, e) = exactly7 ts (seven _ _ size other) in
          let (w, tail) =
            joints_words ts p t1 t2 t3 t4 t5 t6 [] (headed e keyword) no_letter reads in
          (Statement.move_joints p none, (w, tail), refl))

  parse_joints-Meant :
      (ts : List String) → token_at ts 0 ≡ "MOVEJ" → Meant strtod n ts (parse_joints strtod n ts)
  unfolding parse_joints
  parse_joints-Meant ts keyword =
      let final = joints_of n ts (read_targets strtod ts 6 0 no_positions) in
      let sized =
        if not (length ts == 7) && not (length ts == 9)
        then LineResult.refused DiagnosticCode.task_syntax
            "MOVEJ requires exactly 6 joint targets in radians"
        else final in
      guard ts (looks_like_point_reference ts) _ _ _ (λ no_point.
        guard ts (ltb (length ts) 7) _ _ sized (λ enough.
          guard ts (not (length ts == 7) && not (length ts == 9)) _ _ final (λ size.
            joints_of-Meant ts (read_targets strtod ts 6 0 no_positions) keyword
              (no_letter_of ts no_point enough) size (read_targets-Reads ts))))

  pub movej-Meant :
      (ts : List String) → token_at ts 0 ≡ "MOVEJ" → Meant strtod n ts (parse_movej strtod n ts)
  unfolding parse_movej
  movej-Meant ts keyword =
      by_test (Meant strtod n ts) _ _ (parse_joints strtod n ts)
        (λ named. named-Meant ts keyword named) (λ joints. parse_joints-Meant ts keyword)
