-- ===== src/Syntax/Language.antt =====
-- About the language that the parser of a line accepts.
use roborun.Prelude.{
  ℕ, String, str_eq, str_eq_iff, text_append, List, [], ◌∷◌, if◌then◌else◌, ◌≡◌, ◌↔◌, refl, ap, sym,
  ◌∙◌, subst,
}
use roborun.Types.{CommandType, Command, DiagnosticCode}
use roborun.Text.{Strtod}
use roborun.Parser.{
  LineResult, parse_command, parse_tokens, parse_bare, parse_delay, parse_set_do, parse_wait_di,
  parse_set_tool, parse_movej, make_command, token_at,
}
use roborun.Syntax.{Statement, meaning, Spells}
use roborun.Syntax.Complete.{parse_tokens_complete}
use roborun.Syntax.Sound.{
  Meant, by_test, bare-Meant, delay-Meant, set_do-Meant, wait_di-Meant, set_tool-Meant,
}
use roborun.Syntax.Moves.{movej-Meant}

module _ (strtod : String → Strtod) (n : ℕ) where
  -- One test of the keyword.
  keyword :
      (ts : List String) (word : String) (x y : LineResult)
      → (token_at ts 0 ≡ word → Meant strtod n ts x)
      → Meant strtod n ts y
      → Meant strtod n ts (if str_eq (token_at ts 0) word then x else y)
  keyword ts word x y f g =
      by_test (Meant strtod n ts) (str_eq (token_at ts 0) word) x y
        (λ e. f ((str_eq_iff (token_at ts 0) word).1 e)) (λ _. g)

  pub parse_tokens-Meant : (ts : List String) → Meant strtod n ts (parse_tokens strtod n ts)
  unfolding parse_tokens parse_command make_command
  parse_tokens-Meant [] = refl
  parse_tokens-Meant (k ∷ rest) =
      let ts = k ∷ rest in
      let unknown =
        LineResult.refused DiagnosticCode.task_syntax (text_append "unknown command: " k) in
      let k8 = if str_eq k "MOVEJ" then parse_movej strtod n ts else unknown in
      let k7 = if str_eq k "SET_TOOL" then parse_set_tool n ts else k8 in
      let k6 = if str_eq k "WAIT_DI" then parse_wait_di n ts else k7 in
      let k5 = if str_eq k "SET_DO" then parse_set_do n ts else k6 in
      let k4 = if str_eq k "DELAY" then parse_delay n ts else k5 in
      let bare = λ (type : CommandType) (message : String). parse_bare type message n ts in
      let k3 =
        if str_eq k "STOP" then bare CommandType.stop "STOP does not accept parameters" else k4 in
      let k2 =
        if str_eq k "SERVO_OFF"
        then bare CommandType.servo_off "SERVO_OFF does not accept parameters"
        else k3 in
      keyword ts "SERVO_ON" _ k2
        (λ e.
          bare-Meant strtod n ts CommandType.servo_on _ "SERVO_ON" Statement.servo_on e (λ us w. w)
            refl)
        (keyword ts "SERVO_OFF" _ k3
          (λ e.
            bare-Meant strtod n ts CommandType.servo_off _ "SERVO_OFF" Statement.servo_off e
              (λ us w. w) refl)
          (keyword ts "STOP" _ k4
            (λ e.
              bare-Meant strtod n ts CommandType.stop _ "STOP" Statement.stop e (λ us w. w) refl)
            (keyword ts "DELAY" _ k5 (delay-Meant strtod n ts) (
              keyword ts "SET_DO" _ k6 (set_do-Meant strtod n ts) (
                keyword ts "WAIT_DI" _ k7 (wait_di-Meant strtod n ts) (
                  keyword ts "SET_TOOL" _ k8 (set_tool-Meant strtod n ts)
                    (keyword ts "MOVEJ" _ unknown (movej-Meant strtod n ts) tt)))))))

  -- The parser of a line accepts exactly the words that spell a statement of the grammar, and
  -- yields the command that the statement means on that line.
  pub parse_tokens_iff :
      (ts : List String) (c : Command)
      → (parse_tokens strtod n ts ≡ LineResult.accepted c)
        ↔ ((s : Statement) × Spells strtod s ts × (c ≡ meaning n s))
  parse_tokens_iff ts c = (
    λ h. subst (Meant strtod n ts) h (parse_tokens-Meant ts),
    λ (s, w, e). parse_tokens_complete strtod n s ts w ∙ ap LineResult.accepted (sym e),
  )
