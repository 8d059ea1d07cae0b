-- ===== src/Loaded.antt =====
-- Rules for the steps of LoadMockScenario (scenario.cpp): what a step gives if the document is still
-- valid behind it.
pub mod Plans
pub mod Timeline
pub mod Told
pub mod WellFormed
use roborun.Prelude.{
  ℕ, ℤ, pos, ltb, ltbℤ, Bool, true, false, not, ◌||◌, String, str_eq, Option, none, some, List,
  Outcome, ok, threw, ◌>>=◌, ◌>>◌, ◌≡◌, ◌≢◌, refl, sym, ◌∙◌, str_eq_iff, if◌then◌else◌, arith,
}
use roborun.Types.{DiagnosticCode}
use roborun.Json.{
  JsonLibrary, Loading, L, invalidate, fail, add, reject_unknown_fields, unchanged_since,
  checked_fields, found, required, non_negative, read_non_negative, read_name, time_field,
}

-- If the document is valid behind a step, it was valid before it, and the result is as said.
abbrev pub Good : {A : Type 0} → (A → Type 0) → Loading → Outcome Loading A → Type 0
Good P s (ok a t) = t.valid ≡ true → (s.valid ≡ true) × P a
Good P s (threw e t) = Unit

abbrev pub Ensures : {A : Type 0} → L A → (A → Type 0) → Type 0
Ensures m P = (s : Loading) → Good P s (m s)

abbrev pub Any : {A : Type 0} → A → Type 0
Any a = Unit

module _ {A : Type 0} {B : Type 0} where
  chain :
      (f : A → L B) (P : A → Type 0) (Q : B → Type 0) (s : Loading) (o : Outcome Loading A)
      → Good P s o
      → ((a : A) → Ensures (f a) (λ b. P a → Q b))
      → Good Q s (elim o as (λ _. Outcome Loading B) [ ok a t ↦ f a t | threw e t ↦ threw e t ])
  chain f P Q s (threw e t) h k = tt
  chain f P Q s (ok a t) h k = link (f a t) (k a t)
    where
      link : (o : Outcome Loading B) → Good (λ b. P a → Q b) t o → Good Q s o
      link (threw e u) g = tt
      link (ok b u) g = λ v. ((h (g v).0).0, (g v).1 (h (g v).0).1)

  pub Ensures-bind :
      (m : L A) (f : A → L B) (P : A → Type 0) (Q : B → Type 0)
      → Ensures m P
      → ((a : A) → Ensures (f a) (λ b. P a → Q b))
      → Ensures (m >>= f) Q
  Ensures-bind m f P Q h k s = chain f P Q s (m s) (h s) k

module _ {A : Type 0} where
  pub Ensures-ok : (a : A) (P : A → Type 0) → P a → Ensures (ok a) P
  Ensures-ok a P p s = λ v. (v, p)

  pub Ensures-if :
      (b : Bool) (x y : L A) (P : A → Type 0)
      → (b ≡ true → Ensures x P)
      → (b ≡ false → Ensures y P)
      → Ensures (λ s. (if b then x else y) s) P
  Ensures-if true x y P f g = f refl
  Ensures-if false x y P f g = g refl

  weaker :
      (P Q : A → Type 0) (s : Loading) (o : Outcome Loading A)
      → ((a : A) → P a → Q a)
      → Good P s o
      → Good Q s o
  weaker P Q s (ok a t) f h = λ v. ((h v).0, f a (h v).1)
  weaker P Q s (threw e t) f h = tt

  pub Ensures-weaken :
      (m : L A) (P Q : A → Type 0) → ((a : A) → P a → Q a) → Ensures m P → Ensures m Q
  Ensures-weaken m P Q f h s = weaker P Q s (m s) f (h s)

-- A failure is never valid behind it.
pub fail-Ensures :
    (code : DiagnosticCode) (source path message : String) (P : Unit {0} → Type 0)
    → Ensures (fail code source path message) P
unfolding fail add invalidate
fail-Ensures code source path message P s = λ v. absurd (false-ne-true v)
  where
    false-ne-true : false ≡ true → ⊥
    false-ne-true e = cc

-- A failure before any result.
pub Ensures-fail :
    {A : Type 0} (code : DiagnosticCode) (source path message : String) (a : A) (P : A → Type 0)
    → Ensures (fail code source path message >> ok a) P
unfolding fail add invalidate
Ensures-fail code source path message a P s = λ v. absurd (false-ne-true v)
  where
    false-ne-true : false ≡ true → ⊥
    false-ne-true e = cc

second : (a b : Bool) → (a || b) ≡ false → b ≡ false
second true b h = cc
second false b h = h

not_same : (t : String) → str_eq t "" ≡ false → t ≢ ""
not_same t h e = clash (sym h ∙ (str_eq_iff t "").0 e)
  where
    clash : false ≡ true → ⊥
    clash p = cc

-- A time that was read is not negative.
abbrev pub NotNegative : ℤ → Type 0
NotNegative t = ltbℤ t (pos 0) ≡ false

abbrev IfTime : Option ℤ → Type 0
IfTime none = Unit
IfTime (some t) = NotNegative t

abbrev pub IfNamed : Option String → Type 0
IfNamed none = Unit
IfNamed (some n) = n ≢ ""

module _ {J : Type 0} (json : JsonLibrary J) (source : String) where
  pub reject_unknown_fields-Ensures :
      (item : J) (allowed : List String) (path : String)
      → Ensures (reject_unknown_fields json source item allowed path) Any
  unfolding reject_unknown_fields
  reject_unknown_fields-Ensures item allowed path s = grind arith

  pub unchanged_since-Ensures : (n : ℕ) → Ensures (unchanged_since json source n) Any
  unfolding unchanged_since
  unchanged_since-Ensures n s = grind arith

  pub checked_fields-Ensures :
      (item : J) (allowed : List String) (path : String)
      → Ensures (checked_fields json source item allowed path) Any
  unfolding checked_fields reject_unknown_fields unchanged_since
  checked_fields-Ensures item allowed path s = grind arith

  pub required-Ensures :
      (item : J) (k path : String) → Ensures (required json source item k path) Any
  unfolding required found add
  required-Ensures item k path s = grind arith

  read_non_negative-Ensures :
      (v : Option J) (path : String) → Ensures (read_non_negative json source v path) IfTime
  unfolding read_non_negative non_negative add
  read_non_negative-Ensures none path s = λ h. (h, tt)
  read_non_negative-Ensures (some v) path s = grind arith

  time_or_zero :
      (t : Option ℤ)
      → Ensures
          (elim t as (λ _. L ℤ) [ none ↦ do invalidate; ok (pos 0) | some t ↦ ok t ])
          (λ u. IfTime t → NotNegative u)
  unfolding invalidate
  time_or_zero none s = grind arith
  time_or_zero (some t) s = λ h. (h, λ k. k)

  pub time_field-Ensures :
      (item : J) (k path : String) → Ensures (time_field json source item k path) NotNegative
  unfolding time_field
  time_field-Ensures item k path =
      Ensures-bind (required json source item k path) _ Any NotNegative
        (required-Ensures item k path)
        (λ v.
          Ensures-bind (read_non_negative json source v _) _ IfTime _
            (read_non_negative-Ensures v _)
            (λ t. Ensures-weaken _ _ _ (λ u f i _. f i) (time_or_zero t)))

  pub read_name-Ensures :
      (v : Option J) (path : String) → Ensures (read_name json source v path) IfNamed
  unfolding read_name add
  read_name-Ensures none path = λ s h. (h, tt)
  read_name-Ensures (some v) path =
      Ensures-if (not (json.is_string v) || str_eq (json.get_string v) "") _
        (ok (some (json.get_string v))) IfNamed (λ _ s h. (h, tt))
        (λ named.
          Ensures-ok (some (json.get_string v)) IfNamed
            (not_same (json.get_string v) (second (not (json.is_string v)) _ named)))
