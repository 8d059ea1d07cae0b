-- ===== src/Syntax/Sound.antt =====
-- About the lines that the parser of a line accepts: commands other than MOVEJ.
use roborun.Prelude.{
  ℕ, Bool, true, false, not, ◌&&◌, ◌||◌, String, str_eq, str_eq_iff, List, [], ◌∷◌, length, ◌==◌,
  if◌then◌else◌, ◌≡◌, inl, inr, ap, sym, ◌∙◌, refl, subst, Bool-cases, Option-cases, arith,
}
use roborun.Types.{CommandType, ToolPosition}
use roborun.Text.{Strtod, parse_milliseconds}
use roborun.Text.Numbers.{parse_milliseconds_iff}
use roborun.Parser.{
  LineResult, parse_bare, parse_delay, parse_set_do, parse_wait_di, parse_set_tool, make_command,
  token_at, delay_of, wait_di_of, set_tool_of,
}
use roborun.Syntax.{Statement, meaning, level_word, position_word, IsName, Spells}

-- A line's result that is a command comes from a statement spelled by the words; only a line with
-- no word is blank.
abbrev pub Meant : (String → Strtod) → ℕ → List String → LineResult → Type 0
Meant strtod n ts (LineResult.accepted c) = (s : Statement) × Spells strtod s ts × (c ≡ meaning n s)
Meant strtod n ts LineResult.blank = ts ≡ []
Meant strtod n ts (LineResult.refused code message) = Unit

pub by_test :
    (P : LineResult → Type 0) (b : Bool) (x y : LineResult)
    → (b ≡ true → P x)
    → (b ≡ false → P y)
    → P (if b then x else y)
by_test P true x y f g = f refl
by_test P false x y f g = g refl

pub neither : (a b : Bool) → (a || b) ≡ false → (a ≡ false) × (b ≡ false)
neither true b h = cc
neither false b h = (refl, h)

neither3 : {a b c : Bool} → (a || b || c) ≡ false → (a ≡ false) × (b ≡ false) × (c ≡ false)
neither3 {a} {b} {c} h =
    let (x, y) = neither (a || b) c h in let (u, v) = neither a b x in (u, v, y)

neither4 :
    {a b c d : Bool}
    → (a || b || c || d) ≡ false
    → (a ≡ false) × (b ≡ false) × (c ≡ false) × (d ≡ false)
neither4 {a} {b} {c} {d} h =
    let (x, y) = neither (a || b || c) d h in let (u, v, w) = neither3 x in (u, v, w, y)

pub affirmed : (a : Bool) → not a ≡ false → a ≡ true
affirmed true h = refl
affirmed false h = cc

exactly1 : (ts : List String) → (length ts == 1) ≡ true → (a : String) × (ts ≡ a ∷ [])
exactly1 [] h = cc
exactly1 (a ∷ []) h = (a, refl)
exactly1 (a ∷ b ∷ ts) h = ground arith

exactly2 : (ts : List String) → (length ts == 2) ≡ true → (a b : String) × (ts ≡ a ∷ b ∷ [])
exactly2 [] h = cc
exactly2 (a ∷ ts) h = let (b, e) = exactly1 ts (grind arith) in (a, b, ap (◌∷◌ a) e)

exactly3 : (ts : List String) → (length ts == 3) ≡ true → (a b c : String) × (ts ≡ a ∷ b ∷ c ∷ [])
exactly3 [] h = cc
exactly3 (a ∷ ts) h = let (b, c, e) = exactly2 ts (grind arith) in (a, b, c, ap (◌∷◌ a) e)

pub exactly4 :
    (ts : List String) → (length ts == 4) ≡ true → (a b c d : String) × (ts ≡ a ∷ b ∷ c ∷ d ∷ [])
exactly4 [] h = cc
exactly4 (a ∷ ts) h = let (b, c, d, e) = exactly3 ts (grind arith) in (a, b, c, d, ap (◌∷◌ a) e)

exactly5 :
    (ts : List String)
    → (length ts == 5) ≡ true
    → (a b c d u : String) × (ts ≡ a ∷ b ∷ c ∷ d ∷ u ∷ [])
exactly5 [] h = cc
exactly5 (a ∷ ts) h =
    let (b, c, d, u, e) = exactly4 ts (grind arith) in (a, b, c, d, u, ap (◌∷◌ a) e)

pub exactly6 :
    (ts : List String)
    → (length ts == 6) ≡ true
    → (a b c d u v : String) × (ts ≡ a ∷ b ∷ c ∷ d ∷ u ∷ v ∷ [])
exactly6 [] h = cc
exactly6 (a ∷ ts) h =
    let (b, c, d, u, v, e) = exactly5 ts (grind arith) in (a, b, c, d, u, v, ap (◌∷◌ a) e)

pub exactly7 :
    (ts : List String)
    → (length ts == 7) ≡ true
    → (a b c d u v w : String) × (ts ≡ a ∷ b ∷ c ∷ d ∷ u ∷ v ∷ w ∷ [])
exactly7 [] h = cc
exactly7 (a ∷ ts) h =
    let (b, c, d, u, v, w, e) = exactly6 ts (grind arith) in (a, b, c, d, u, v, w, ap (◌∷◌ a) e)

exactly8 :
    (ts : List String)
    → (length ts == 8) ≡ true
    → (a b c d u v w x : String) × (ts ≡ a ∷ b ∷ c ∷ d ∷ u ∷ v ∷ w ∷ x ∷ [])
exactly8 [] h = cc
exactly8 (a ∷ ts) h =
    let (b, c, d, u, v, w, x, e) = exactly7 ts (grind arith) in
    (a, b, c, d, u, v, w, x, ap (◌∷◌ a) e)

pub exactly9 :
    (ts : List String)
    → (length ts == 9) ≡ true
    → (a b c d u v w x y : String) × (ts ≡ a ∷ b ∷ c ∷ d ∷ u ∷ v ∷ w ∷ x ∷ y ∷ [])
exactly9 [] h = cc
exactly9 (a ∷ ts) h =
    let (b, c, d, u, v, w, x, y, e) = exactly8 ts (grind arith) in
    (a, b, c, d, u, v, w, x, y, ap (◌∷◌ a) e)

pub headed :
    {ts : List String} {a : String} {rest : List String} {word : String}
    → ts ≡ a ∷ rest
    → token_at ts 0 ≡ word
    → ts ≡ word ∷ rest
headed {rest = rest} e k = e ∙ ap (λ w. w ∷ rest) (sym (ap (λ us. token_at us 0) e) ∙ k)

-- The word of a level or a position, from the test that it is one of the two.
level_read :
    (w : String)
    → (not (str_eq w "ON") && not (str_eq w "OFF")) ≡ false
    → w ≡ level_word (str_eq w "ON")
level_read w h = elim (Bool-cases (str_eq w "ON")) [
  | inl on ↦ (str_eq_iff w "ON").1 on ∙ ap level_word (sym on)
  | inr off ↦
      (str_eq_iff w "OFF").1
        (affirmed _ (subst (λ b. (not b && not (str_eq w "OFF")) ≡ false) off h))
      ∙ ap level_word (sym off)
]

abbrev position_of : String → ToolPosition
position_of w = if str_eq w "OPEN" then ToolPosition.opened else ToolPosition.closed

position_read :
    (w : String)
    → (not (str_eq w "OPEN") && not (str_eq w "CLOSED")) ≡ false
    → w ≡ position_word (position_of w)
position_read w h = elim (Bool-cases (str_eq w "OPEN")) [
  | inl on ↦ rw on ((str_eq_iff w "OPEN").1 on)
  | inr off ↦ rw off (
      (str_eq_iff w "CLOSED").1
        (affirmed _ (subst (λ b. (not b && not (str_eq w "CLOSED")) ≡ false) off h)))
]

module _ (strtod : String → Strtod) (n : ℕ) (ts : List String) where
  pub bare-Meant :
      (type : CommandType) (message word : String) (s : Statement)
      → token_at ts 0 ≡ word
      → ((us : List String) → us ≡ word ∷ [] → Spells strtod s us)
      → make_command type n ≡ meaning n s
      → Meant strtod n ts (parse_bare type message n ts)
  unfolding parse_bare
  bare-Meant type message word s keyword spells means =
      by_test (Meant strtod n ts) (length ts == 1) _ _
        (λ one. (s, spells ts (headed (exactly1 ts one).1 keyword), means)) (λ _. tt)

module _ (strtod : String → Strtod) (n : ℕ) where
  delay_words : (t : String) → Meant strtod n ("DELAY" ∷ t ∷ []) (delay_of n (parse_milliseconds t))
  unfolding delay_of make_command
  delay_words t = elim (Option-cases (parse_milliseconds t)) [
    | inl fails ↦ rw fails tt
    | inr (d, reads) ↦
        rw reads (Statement.delay d, (t, refl, (parse_milliseconds_iff t d).0 reads), refl)
  ]

  pub delay-Meant :
      (ts : List String) → token_at ts 0 ≡ "DELAY" → Meant strtod n ts (parse_delay n ts)
  unfolding parse_delay
  delay-Meant ts keyword =
      by_test (Meant strtod n ts) (not (length ts == 2)) _ _ (λ _. tt)
        (λ two.
          let (a, t, e) = exactly2 ts (affirmed _ two) in
          subst (λ us. Meant strtod n us (delay_of n (parse_milliseconds (token_at us 1))))
            (sym (headed e keyword)) (delay_words t))

  pub set_do-Meant :
      (ts : List String) → token_at ts 0 ≡ "SET_DO" → Meant strtod n ts (parse_set_do n ts)
  unfolding parse_set_do make_command
  set_do-Meant ts keyword =
      by_test (Meant strtod n ts) _ _
        (LineResult.accepted (record (make_command CommandType.set_do n) {
          signal_name = token_at ts 1;
          signal_value = str_eq (token_at ts 2) "ON";
        }))
        (λ _. tt)
        (λ passed.
          let (three, named, level) = neither3 passed in
          let (a, name, w, e) = exactly3 ts (affirmed _ three) in
          let p = ap (λ us. token_at us 1) (sym e) in
          let q = ap (λ us. token_at us 2) (sym e) ∙ level_read (token_at ts 2) level in
          (
            Statement.set_do (token_at ts 1) (str_eq (token_at ts 2) "ON"),
            (headed e keyword ∙ (λ i. "SET_DO" ∷ p i ∷ q i ∷ []), affirmed _ named),
            refl,
          ))

  wait_di_words :
      (name w t : String)
      → IsName name
      → w ≡ level_word (str_eq w "ON")
      → Meant strtod n
          ("WAIT_DI" ∷ name ∷ w ∷ "TIMEOUT" ∷ t ∷ [])
          (wait_di_of n ("WAIT_DI" ∷ name ∷ w ∷ "TIMEOUT" ∷ t ∷ []) (parse_milliseconds t))
  unfolding wait_di_of make_command
  wait_di_words name w t named level = elim (Option-cases (parse_milliseconds t)) [
    | inl fails ↦ rw fails tt
    | inr (d, reads) ↦ rw reads (
      Statement.wait_di name (str_eq w "ON") d,
      (
        t,
        (λ i. "WAIT_DI" ∷ name ∷ level i ∷ "TIMEOUT" ∷ t ∷ []),
        named,
        (parse_milliseconds_iff t d).0 reads,
      ),
      refl,
    )
  ]

  pub wait_di-Meant :
      (ts : List String) → token_at ts 0 ≡ "WAIT_DI" → Meant strtod n ts (parse_wait_di n ts)
  unfolding parse_wait_di
  wait_di-Meant ts keyword =
      by_test (Meant strtod n ts) _ _ _ (λ _. tt)
        (λ passed.
          let (five, named, level, timeout) = neither4 passed in
          let (a, name, w, k, t, e) = exactly5 ts (affirmed _ five) in
          let p =
            ap (λ us. token_at us 3) (sym e) ∙ (str_eq_iff _ "TIMEOUT").1 (affirmed _ timeout) in
          let words = headed e keyword ∙ (λ i. "WAIT_DI" ∷ name ∷ w ∷ p i ∷ t ∷ []) in
          subst (λ us. Meant strtod n us (wait_di_of n us (parse_milliseconds (token_at us 4))))
            (sym words)
            (wait_di_words name w t (subst IsName (ap (λ us. token_at us 1) e) (affirmed _ named)) (
              subst (λ v. v ≡ level_word (str_eq v "ON")) (ap (λ us. token_at us 2) e)
                (level_read _ level))))

  set_tool_words :
      (name w t : String)
      → IsName name
      → w ≡ position_word (position_of w)
      → Meant strtod n
          ("SET_TOOL" ∷ name ∷ w ∷ "TIMEOUT" ∷ t ∷ [])
          (set_tool_of n ("SET_TOOL" ∷ name ∷ w ∷ "TIMEOUT" ∷ t ∷ []) (parse_milliseconds t))
  unfolding set_tool_of make_command
  set_tool_words name w t named position = elim (Option-cases (parse_milliseconds t)) [
    | inl fails ↦ rw fails tt
    | inr (d, reads) ↦ rw reads (
      Statement.set_tool name (position_of w) d,
      (
        t,
        (λ i. "SET_TOOL" ∷ name ∷ position i ∷ "TIMEOUT" ∷ t ∷ []),
        named,
        (parse_milliseconds_iff t d).0 reads,
      ),
      refl,
    )
  ]

  pub set_tool-Meant :
      (ts : List String) → token_at ts 0 ≡ "SET_TOOL" → Meant strtod n ts (parse_set_tool n ts)
  unfolding parse_set_tool
  set_tool-Meant ts keyword =
      by_test (Meant strtod n ts) _ _ _ (λ _. tt)
        (λ passed.
          let (five, named, timeout, position) = neither4 passed in
          let (a, name, w, k, t, e) = exactly5 ts (affirmed _ five) in
          let p =
            ap (λ us. token_at us 3) (sym e) ∙ (str_eq_iff _ "TIMEOUT").1 (affirmed _ timeout) in
          let words = headed e keyword ∙ (λ i. "SET_TOOL" ∷ name ∷ w ∷ p i ∷ t ∷ []) in
          subst (λ us. Meant strtod n us (set_tool_of n us (parse_milliseconds (token_at us 4))))
            (sym words)
            (set_tool_words name w t (subst IsName (ap (λ us. token_at us 1) e) (affirmed _ named))
              (subst (λ v. v ≡ position_word (position_of v)) (ap (λ us. token_at us 2) e)
                (position_read _ position))))
