-- ===== src/Syntax/Accounting.antt =====
-- About how ParseProgram of src/roborun/parser.cpp accounts for the lines of a text.
use mathlib.Core.List.{append-nil, append_assoc, cons-ne-nil, Perm, perm_middle}
use mathlib.Core.List.Perm
use roborun.Prelude.{ℕ, ◌+◌, String, List, [], ◌∷◌, ◌++◌, map, ◌≡◌, ap, sym, ◌∙◌, refl, subst}
use roborun.Types.{DiagnosticCode, Command, Diagnostic, CheckedProgram}
use roborun.Text.{Strtod, get_lines, split_whitespace}
use roborun.Parser.{
  LineResult, parse_tokens, push_command, add_diagnostic, add_line, parse_lines, parse_program,
}
use roborun.Syntax.{Statement, meaning}
use roborun.Syntax.Sound.{Meant}
use roborun.Syntax.Language.{parse_tokens-Meant}

-- The numbers of the lines that hold a word, from the line behind line `n`.
abbrev written_at : ℕ → List String → List ℕ → List ℕ
written_at n [] rest = rest
written_at n (w ∷ ws) rest = n ∷ rest

abbrev pub written_lines : ℕ → List String → List ℕ
written_lines n [] = []
written_lines n (line ∷ lines) =
    written_at (n + 1) (split_whitespace line) (written_lines (n + 1) lines)

abbrev pub command_lines : CheckedProgram → List ℕ
command_lines r = map (λ (c : Command). c.line) r.program.commands

abbrev pub diagnostic_lines : CheckedProgram → List ℕ
diagnostic_lines r = map (λ (d : Diagnostic). d.line) r.diagnostics

abbrev report_lines : CheckedProgram → List ℕ
report_lines r = command_lines r ++ diagnostic_lines r

map-append {ℓ κ} :
    {A : Type ℓ} {B : Type κ} (f : A → B) (xs ys : List A) → map f (xs ++ ys) ≡ map f xs ++ map f ys
map-append f [] ys = refl
map-append f (x ∷ xs) ys = ap (◌∷◌ (f x)) (map-append f xs ys)

meaning_line : (n : ℕ) (s : Statement) → (meaning n s).line ≡ n
meaning_line n Statement.servo_on = refl
meaning_line n Statement.servo_off = refl
meaning_line n Statement.stop = refl
meaning_line n (Statement.delay d) = refl
meaning_line n (Statement.set_do name level) = refl
meaning_line n (Statement.wait_di name level d) = refl
meaning_line n (Statement.set_tool name position d) = refl
meaning_line n (Statement.move_point name speed timeout) = refl
meaning_line n (Statement.move_joints p timeout) = refl

-- An element put behind the first or the second of two lists.
last_first : (x : ℕ) (xs ys : List ℕ) → Perm ((xs ++ x ∷ []) ++ ys) (x ∷ (xs ++ ys))
last_first x xs ys =
    subst (λ l. Perm l (x ∷ (xs ++ ys))) (sym (append_assoc xs (x ∷ []) ys)) (perm_middle xs ys)

last_second : (x : ℕ) (xs ys : List ℕ) → Perm (xs ++ (ys ++ x ∷ [])) (x ∷ (xs ++ ys))
last_second x xs ys =
    subst (λ l. Perm l (x ∷ (xs ++ ys))) (append_assoc xs ys (x ∷ []))
      (subst (λ l. Perm ((xs ++ ys) ++ x ∷ []) (x ∷ l)) (append-nil (xs ++ ys))
        (perm_middle (xs ++ ys) []))

reported_command :
    (r : CheckedProgram) (c : Command)
    → Perm (report_lines (push_command r c)) (c.line ∷ report_lines r)
unfolding push_command
reported_command r c =
    subst (λ l. Perm (l ++ diagnostic_lines r) (c.line ∷ report_lines r))
      (sym (map-append (λ (c : Command). c.line) r.program.commands (c ∷ [])))
      (last_first c.line (command_lines r) (diagnostic_lines r))

reported_diagnostic :
    (source : String) (r : CheckedProgram) (n : ℕ) (code : DiagnosticCode) (message : String)
    → Perm (report_lines (add_diagnostic r source n code message)) (n ∷ report_lines r)
unfolding add_diagnostic
reported_diagnostic source r n code message =
    subst (λ l. Perm (command_lines r ++ l) (n ∷ report_lines r))
      (sym (map-append (λ (d : Diagnostic). d.line) r.diagnostics _))
      (last_second n (command_lines r) (diagnostic_lines r))

-- One more report, moved to where the line's number stands.
moved :
    {new old : List ℕ} (n : ℕ) (rest : List ℕ)
    → Perm new (n ∷ old)
    → Perm (new ++ rest) (old ++ n ∷ rest)
moved n rest p = Perm.trans (Perm.append_right rest p) (Perm.symm (perm_middle _ rest))

module _ (strtod : String → Strtod) (source : String) where
  reported_line :
      (n : ℕ) (k : String) (ks : List String) (q : LineResult) (r : CheckedProgram) (rest : List ℕ)
      → Meant strtod n (k ∷ ks) q
      → Perm (report_lines (add_line source n q r) ++ rest) (report_lines r ++ n ∷ rest)
  unfolding add_line
  reported_line n k ks LineResult.blank r rest m = absurd (cons-ne-nil k ks m)
  reported_line n k ks (LineResult.accepted c) r rest (s, w, e) = moved n rest (
      subst (λ l. Perm (report_lines (push_command r c)) (l ∷ report_lines r))
        (ap (λ (c : Command). c.line) e ∙ meaning_line n s) (reported_command r c))
  reported_line n k ks (LineResult.refused code message) r rest m =
      moved n rest (reported_diagnostic source r n code message)

  reported_words :
      (n : ℕ) (ts : List String) (r : CheckedProgram) (rest : List ℕ)
      → Perm
          (report_lines (add_line source n (parse_tokens strtod n ts) r) ++ rest)
          (report_lines r ++ written_at n ts rest)
  reported_words n [] r rest = unfold parse_tokens add_line in Perm.refl (report_lines r ++ rest)
  reported_words n (k ∷ ks) r rest =
      reported_line n k ks (parse_tokens strtod n (k ∷ ks)) r rest
        (parse_tokens-Meant strtod n (k ∷ ks))

  reported_lines :
      (lines : List String) (n : ℕ) (r : CheckedProgram)
      → Perm
          (report_lines (parse_lines strtod source n lines r))
          (report_lines r ++ written_lines n lines)
  unfolding parse_lines
  reported_lines [] n r =
      subst (Perm (report_lines r)) (sym (append-nil (report_lines r))) (Perm.refl (report_lines r))
  reported_lines (line ∷ lines) n r =
      Perm.trans (reported_lines lines (n + 1) _)
        (reported_words (n + 1) (split_whitespace line) r (written_lines (n + 1) lines))

-- ParseProgram reports every line that holds a word exactly once, as a command or as a diagnostic
-- with that line's number, and reports no other line.
pub parse_program-Perm :
    (strtod : String → Strtod) (input source : String)
    → let r = parse_program strtod input source in
      Perm (command_lines r ++ diagnostic_lines r) (written_lines 0 (get_lines input))
unfolding parse_program
parse_program-Perm strtod input source = reported_lines strtod source (get_lines input) 0 _
