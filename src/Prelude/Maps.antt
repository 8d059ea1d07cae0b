-- ===== src/Prelude/Maps.antt =====
-- Dictionaries with text keys, as association lists.
use Prim.Native.String.{String}
use mathlib.Core.Path.{◌≡◌}
use mathlib.Core.Bool.{Bool, true}
use mathlib.Core.Option.{Option, none, some}
use mathlib.Core.List.{List, [], ◌∷◌}
use text.Mathlib.Text.{◌==◌ as same_text}
use text.Mathlib.TextEquality.{eq_iff}
use roborun.Prelude.Tests.{if◌then◌else◌, has_value}

abbrev pub str_eq : String → String → Bool
str_eq s t = same_text s t

pub str_eq_iff : (s t : String) → ((s ≡ t) → str_eq s t ≡ true) × (str_eq s t ≡ true → s ≡ t)
str_eq_iff s t = ((eq_iff s t).1, (eq_iff s t).0)

abbrev pub Dict : Type 0 → Type 0
Dict V = List (String × V)

module _ {V : Type 0} where
  unfoldable pub lookup : String → Dict V → Option V
  lookup k [] = none
  lookup k ((j, v) ∷ m) = if str_eq j k then some v else lookup k m

  -- A write through an iterator or `at`: nothing changes where the key is missing.
  unfoldable pub update : String → (V → V) → Dict V → Dict V
  update k f [] = []
  update k f ((j, v) ∷ m) = if str_eq j k then (j, f v) ∷ m else (j, v) ∷ update k f m

  abbrev pub contains : String → Dict V → Bool
  contains k m = has_value (lookup k m)
