-- ===== src/Text/Words.antt =====
-- About lines and words: texts laid out with a newline behind each line and a space between words.
use Prim.Native.Char.{Char, code}
use Prim.Native.String as Native
use text.Mathlib.TextLemmas.{cons-append, nil-append, cons≢nil}
use roborun.Prelude.{
  true, false, String, text_append, List, [], ◌∷◌, ◌≡◌, ◌≢◌, refl, ap, ◌∙◌, ◌==◌, All, arith,
}
use roborun.Text.{cons_line, get_lines, is_space, at_word, split_whitespace}

abbrev pub AllSolid : String → Type 0
AllSolid Native.[] = Unit
AllSolid (Native.◌∷◌ c s) = (is_space (code c) ≡ false) × AllSolid s

-- A word: at least one character, and no space.
abbrev pub IsWord : String → Type 0
IsWord Native.[] = ⊥
IsWord s = AllSolid s

abbrev space : Char
space = " "

abbrev newline : Char
newline = "\n"

-- The words of a line behind the first.
unfoldable pub behind_spaces : List String → String
behind_spaces [] = ""
behind_spaces (t ∷ ts) = Native.◌∷◌ space (text_append t (behind_spaces ts))

unfoldable pub line_of : List String → String
line_of [] = ""
line_of (t ∷ ts) = text_append t (behind_spaces ts)

unfoldable pub text_of : List String → String
text_of [] = ""
text_of (l ∷ ls) = text_append l (Native.◌∷◌ newline (text_of ls))

at_word-append : (t rest : String) → AllSolid t → t ≢ "" → at_word (text_append t rest) ≡ true
at_word-append Native.[] rest h n = absurd (n refl)
at_word-append (Native.◌∷◌ c s) rest (h, hs) n = rw (cons-append, h) refl

module _ (c : Char) (s : String) where
  get_lines_more :
      (code c == b'\n') ≡ false → get_lines (Native.◌∷◌ c s) ≡ cons_line c (get_lines s)
  unfolding get_lines
  get_lines_more h = rw h refl

  split_space : is_space (code c) ≡ true → split_whitespace (Native.◌∷◌ c s) ≡ split_whitespace s
  unfolding split_whitespace
  split_space h = rw h refl

  split_last :
      is_space (code c) ≡ false
      → at_word s ≡ false
      → split_whitespace (Native.◌∷◌ c s) ≡ Native.◌∷◌ c "" ∷ split_whitespace s
  unfolding split_whitespace
  split_last h e = rw (h, e) refl

  split_more :
      is_space (code c) ≡ false
      → at_word s ≡ true
      → split_whitespace (Native.◌∷◌ c s) ≡ cons_line c (split_whitespace s)
  unfolding split_whitespace
  split_more h e = rw (h, e) refl

split_whitespace_word :
    (t rest : String)
    → IsWord t
    → at_word rest ≡ false
    → split_whitespace (text_append t rest) ≡ t ∷ split_whitespace rest
split_whitespace_word Native.[] rest h e = absurd h
split_whitespace_word (Native.◌∷◌ c Native.[]) rest (h, hs) e =
    rw (cons-append, nil-append) (split_last c rest h e)
split_whitespace_word (Native.◌∷◌ c (Native.◌∷◌ d s)) rest (h, hs) e =
    let ih = split_whitespace_word (Native.◌∷◌ d s) rest hs e in
    let inside = at_word-append (Native.◌∷◌ d s) rest hs (cons≢nil) in
    rw (cons-append c (Native.◌∷◌ d s) rest)
      (split_more c (text_append (Native.◌∷◌ d s) rest) h inside ∙ ap (cons_line c) ih)

at_word-behind_spaces : (ts : List String) → at_word (behind_spaces ts) ≡ false
unfolding behind_spaces
at_word-behind_spaces [] = refl
at_word-behind_spaces (t ∷ ts) = refl

split_whitespace-behind_spaces :
    (ts : List String) → All IsWord ts → split_whitespace (behind_spaces ts) ≡ ts
unfolding behind_spaces
split_whitespace-behind_spaces [] h = unfold split_whitespace in refl
split_whitespace-behind_spaces (t ∷ ts) (h, hs) =
    split_space space (text_append t (behind_spaces ts)) refl
    ∙ split_whitespace_word t (behind_spaces ts) h (at_word-behind_spaces ts)
    ∙ ap (◌∷◌ t) (split_whitespace-behind_spaces ts hs)

-- The words of a line laid out with single spaces are the words it was made of.
pub split_whitespace-line_of :
    (ts : List String) → All IsWord ts → split_whitespace (line_of ts) ≡ ts
unfolding line_of
split_whitespace-line_of [] h = unfold split_whitespace in refl
split_whitespace-line_of (t ∷ ts) (h, hs) =
    split_whitespace_word t (behind_spaces ts) h (at_word-behind_spaces ts)
    ∙ ap (◌∷◌ t) (split_whitespace-behind_spaces ts hs)

-- No newline inside.
abbrev pub IsLine : String → Type 0
IsLine Native.[] = Unit
IsLine (Native.◌∷◌ c s) = ((code c == b'\n') ≡ false) × IsLine s

get_lines_line :
    (l rest : String)
    → IsLine l
    → get_lines (text_append l (Native.◌∷◌ newline rest)) ≡ l ∷ get_lines rest
get_lines_line Native.[] rest h = rw nil-append (unfold get_lines in refl)
get_lines_line (Native.◌∷◌ c s) rest (h, hs) =
    rw cons-append (get_lines_more c _ h ∙ ap (cons_line c) (get_lines_line s rest hs))

pub get_lines-text_of : (ls : List String) → All IsLine ls → get_lines (text_of ls) ≡ ls
unfolding text_of
get_lines-text_of [] h = unfold get_lines in refl
get_lines-text_of (l ∷ ls) (h, hs) =
    get_lines_line l (text_of ls) h ∙ ap (◌∷◌ l) (get_lines-text_of ls hs)

IsLine-append : (s t : String) → IsLine s → IsLine t → IsLine (text_append s t)
IsLine-append Native.[] t h k = rw nil-append k
IsLine-append (Native.◌∷◌ c s) t (h, hs) k = rw cons-append (h, IsLine-append s t hs k)

AllSolid-IsLine : (t : String) → AllSolid t → IsLine t
AllSolid-IsLine Native.[] h = tt
AllSolid-IsLine (Native.◌∷◌ c s) (h, hs) = (ground arith, AllSolid-IsLine s hs)

IsWord-AllSolid : (t : String) → IsWord t → AllSolid t
IsWord-AllSolid Native.[] h = absurd h
IsWord-AllSolid (Native.◌∷◌ c s) h = h

IsLine-behind_spaces : (ts : List String) → All IsWord ts → IsLine (behind_spaces ts)
unfolding behind_spaces
IsLine-behind_spaces [] h = tt
IsLine-behind_spaces (t ∷ ts) (h, hs) = (
  refl,
  IsLine-append t (behind_spaces ts) (AllSolid-IsLine t (IsWord-AllSolid t h))
      (IsLine-behind_spaces ts hs),
)

pub IsLine-line_of : (ts : List String) → All IsWord ts → IsLine (line_of ts)
IsLine-line_of [] h = unfold line_of in tt
IsLine-line_of (t ∷ ts) (h, hs) =
    unfold line_of in
    IsLine-append t (behind_spaces ts) (AllSolid-IsLine t (IsWord-AllSolid t h))
      (IsLine-behind_spaces ts hs)
