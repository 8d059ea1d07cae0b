-- ===== src/Loaded/Told.antt =====
-- About what LoadMockScenario (scenario.cpp) reports: no document is refused in silence.
pub mod Plans
pub mod Timeline
pub mod Verdict
use roborun.Prelude.{
  ℕ, ◌+◌, ◌==◌, ℤ, pos, ltb, ltbℤ, Bool, true, false, not, ◌&&◌, ◌||◌, String, text_append, Option,
  none, some, List, [], ◌∷◌, ◌++◌, length, Outcome, ok, threw, ◌>>=◌, ◌>>◌, ◌≡◌, refl, ap,
  if◌then◌else◌, arith,
}
use roborun.Types.{DiagnosticCode, Diagnostic, MockScenario}
use roborun.Json.{
  JsonLibrary, Loading, L, invalidate, fail, add, unknown_fields, reject_unknown_fields,
  unchanged_since, checked_fields, found, required, is_whole, non_negative, read_non_negative,
  read_name, time_field,
}

abbrev some_errors : List Diagnostic → Bool
some_errors [] = false
some_errors (d ∷ ds) = true

-- A document that is no longer valid has a diagnostic.
abbrev Told : Loading → Type 0
Told s = (s.valid || some_errors s.diagnostics) ≡ true

abbrev Reported : Loading → Type 0
Reported s = some_errors s.diagnostics ≡ true

-- A step that only adds diagnostics, and does not invalidate the document without one.
abbrev pub Later : Loading → Loading → Type 0
Later s t = (Told s → Told t) × (Reported s → Reported t)

abbrev pub Ends : {A : Type 0} → (A → Loading → Type 0) → Outcome Loading A → Type 0
Ends P (ok a t) = P a t
Ends P (threw e t) = ⊥

-- Every run of the step returns, later, and where it returns is as said.
abbrev pub Tells : {A : Type 0} → L A → (A → Loading → Type 0) → Type 0
Tells m P = (s : Loading) → Ends (λ a t. Later s t × P a t) (m s)

abbrev pub Always : {A : Type 0} → A → Loading → Type 0
Always a t = Unit

-- A count of the diagnostics at `s` or before.
abbrev pub Starts : ℕ → Loading → Type 0
Starts n s = (n == 0 || some_errors s.diagnostics) ≡ true

still : (n : ℕ) (s t : Loading) → Later s t → Starts n s → Starts n t
still n s t (a, b) z = split (n == 0) _ _ b z
  where
    split : (x p q : Bool) → (p ≡ true → q ≡ true) → (x || p) ≡ true → (x || q) ≡ true
    split true p q f h = refl
    split false p q f h = f h

-- The same of a step that compares with a count of the diagnostics.
abbrev pub TellsFrom : {A : Type 0} → ℕ → L A → Type 0
TellsFrom n m = (s : Loading) → Starts n s → Ends (λ a t. Later s t × Always a t) (m s)

transitive : (s t u : Loading) → Later s t → Later t u → Later s u
transitive s t u (a, b) (c, d) = (λ h. c (a h), λ h. d (b h))

module _ {A : Type 0} {B : Type 0} where
  -- What follows a step of the run from `s`.
  follow :
      (f : A → L B) (P : A → Loading → Type 0) (Q : B → Loading → Type 0) (s : Loading)
      (o : Outcome Loading A)
      → Ends (λ a t. Later s t × P a t) o
      → ((a : A) (t : Loading) → Later s t → P a t → Ends (λ b u. Later t u × Q b u) (f a t))
      → Ends
          (λ b u. Later s u × Q b u)
          (elim o as (λ _. Outcome Loading B) [ ok a t ↦ f a t | threw e t ↦ threw e t ])
  follow f P Q s (threw e t) g k = elim g [ ]
  follow f P Q s (ok a t) (l, p) k = link (f a t) (k a t l p)
    where
      link :
          (o : Outcome Loading B)
          → Ends (λ b u. Later t u × Q b u) o
          → Ends (λ b u. Later s u × Q b u) o
      link (ok b u) (m, q) = (transitive s t u l m, q)
      link (threw e u) g = elim g [ ]

  pub Tells-after :
      (m : L A) (f : A → L B) (P : A → Loading → Type 0) (Q : B → Loading → Type 0)
      → Tells m P
      → ((a : A) (t : Loading) → P a t → Ends (λ b u. Later t u × Q b u) (f a t))
      → Tells (m >>= f) Q
  Tells-after m f P Q h k s = follow f P Q s (m s) (h s) (λ a t _ p. k a t p)

  pub Tells-bind :
      (m : L A) (f : A → L B) (P : A → Loading → Type 0) (Q : B → Loading → Type 0)
      → Tells m P
      → ((a : A) → Tells (f a) Q)
      → Tells (m >>= f) Q
  Tells-bind m f P Q h k = Tells-after m f P Q h (λ a t _. k a t)

  pub TellsFrom-bind :
      (n : ℕ) (m : L A) (f : A → L B) (P : A → Loading → Type 0)
      → Tells m P
      → ((a : A) → TellsFrom n (f a))
      → TellsFrom n (m >>= f)
  TellsFrom-bind n m f P h k s z =
      follow f P Always s (m s) (h s) (λ a t l _. k a t (still n s t l z))

  pub TellsFrom-end :
      (n : ℕ) (m : L A) (f : A → L B)
      → TellsFrom n m
      → ((a : A) → Tells (f a) Always)
      → TellsFrom n (m >>= f)
  TellsFrom-end n m f h k s z = follow f Always Always s (m s) (h s z) (λ a t _ _. k a t)

module _ {A : Type 0} where
  pub Tells-ok : (a : A) → Tells (ok a) Always
  Tells-ok a s = ((λ h. h, λ h. h), tt)

  pub Tells-if :
      (b : Bool) (x y : L A) (P : A → Loading → Type 0)
      → Tells x P
      → Tells y P
      → Tells (λ s. (if b then x else y) s) P
  Tells-if true x y P f g = f
  Tells-if false x y P f g = g

nonempty : (ds : List Diagnostic) (d : Diagnostic) → some_errors (ds ++ d ∷ []) ≡ true
nonempty [] d = refl
nonempty (e ∷ ds) d = refl

by_errors : (v : Bool) (ds : List Diagnostic) → some_errors ds ≡ true → (v || some_errors ds) ≡ true
by_errors true ds h = refl
by_errors false ds h = h

add-Tells :
    (code : DiagnosticCode) (source path message : String)
    → Tells (add code source path message) (λ _ t. Reported t)
unfolding add
add-Tells code source path message s = (
  (
    (λ _. by_errors s.valid (s.diagnostics ++ _) (nonempty s.diagnostics _)),
    (λ _. nonempty s.diagnostics _),
  ),
  nonempty s.diagnostics _,
)

pub fail-Tells :
    (code : DiagnosticCode) (source path message : String)
    → Tells (fail code source path message) (λ _ t. Reported t)
unfolding fail add invalidate
fail-Tells code source path message s =
    (((λ _. nonempty s.diagnostics _), (λ _. nonempty s.diagnostics _)), nonempty s.diagnostics _)

module _ {A : Type 0} where
  pub Tells-fail :
      (code : DiagnosticCode) (source path message : String) (a : A)
      → Tells (fail code source path message >> ok a) (λ _ t. Reported t)
  unfolding fail add invalidate
  Tells-fail code source path message a s =
      let e = nonempty s.diagnostics _ in (((λ _. e), (λ _. e)), e)

  -- Nothing was found, and that was reported.
  abbrev pub Missing : Option A → Loading → Type 0
  Missing none t = Reported t
  Missing (some a) t = Unit

  Tells-some : (a : A) → Tells (ok (some a)) Missing
  Tells-some a s = (((λ h. h), (λ h. h)), tt)

  pub Tells-weaken : (m : L A) (P : A → Loading → Type 0) → Tells m P → Tells m Always
  Tells-weaken m P h s = weaker (m s) (h s)
    where
      weaker :
          (o : Outcome Loading A)
          → Ends (λ a t. Later s t × P a t) o
          → Ends (λ a t. Later s t × Always a t) o
      weaker (ok a t) (l, p) = (l, tt)
      weaker (threw e t) g = elim g [ ]

more : (ds es : List Diagnostic) → some_errors ds ≡ true → some_errors (ds ++ es) ≡ true
more [] es h = cc
more (d ∷ ds) es h = refl

told_more :
    (v : Bool) (ds es : List Diagnostic)
    → (v || some_errors ds) ≡ true
    → (v || some_errors (ds ++ es)) ≡ true
told_more true ds es h = refl
told_more false ds es h = more ds es h

pub counted : (ds : List Diagnostic) → (length ds == 0 || some_errors ds) ≡ true
counted [] = refl
counted (d ∷ ds) = ground arith

compared :
    (v : Bool) (ds : List Diagnostic) (n : ℕ)
    → (n == 0 || some_errors ds) ≡ true
    → (v || some_errors ds) ≡ true
    → ((v && length ds == n) || some_errors ds) ≡ true
compared v [] n z h = ground arith
compared v (d ∷ ds) n z h = by_errors (v && length (d ∷ ds) == n) (d ∷ ds) refl

report_nothing :
    (A : Type 0) (code : DiagnosticCode) (source path message : String)
    → Tells (add code source path message >> ok none) (Missing {A = A})
report_nothing A code source path message =
    Tells-after (add code source path message) _ (λ _ t. Reported t) Missing
      (add-Tells code source path message) (λ _ t p. (((λ h. h), (λ h. h)), p))

module _ {J : Type 0} (json : JsonLibrary J) (source : String) where
  pub reject_unknown_fields-Tells :
      (item : J) (allowed : List String) (path : String)
      → Tells (reject_unknown_fields json source item allowed path) Always
  unfolding reject_unknown_fields
  reject_unknown_fields-Tells item allowed path s = by_type (json.is_object item)
    where
      new : List Diagnostic
      new = unknown_fields source path allowed (json.keys item)

      by_type :
          (b : Bool)
          → Ends
              (λ a t. Later s t × Always a t)
              (if not b then ok tt s else ok tt (record s { diagnostics = s.diagnostics ++ new }))
      by_type true = (((λ h. told_more s.valid s.diagnostics new h), more s.diagnostics new), tt)
      by_type false = (((λ h. h), (λ h. h)), tt)

  pub unchanged_since-TellsFrom : (n : ℕ) → TellsFrom n (unchanged_since json source n)
  unfolding unchanged_since
  unchanged_since-TellsFrom n s z = (((λ h. compared s.valid s.diagnostics n z h), (λ h. h)), tt)

  pub checked_fields-Tells :
      (item : J) (allowed : List String) (path : String)
      → Tells (checked_fields json source item allowed path) Always
  unfolding checked_fields
  checked_fields-Tells item allowed path s =
      TellsFrom-bind (length s.diagnostics) (reject_unknown_fields json source item allowed path) _
        Always (reject_unknown_fields-Tells item allowed path)
        (λ _. unchanged_since-TellsFrom (length s.diagnostics)) s (counted s.diagnostics)

  pub required-Tells :
      (item : J) (k path : String) → Tells (required json source item k path) Missing
  unfolding required found
  required-Tells item k path =
      Tells-if (not (json.is_object item)) _ _ Missing (report_nothing _ _ _ _ _)
        (at_key (json.find item k))
    where
      at_key : (v : Option J) → Tells (found json source k path v) Missing
      at_key none = report_nothing _ _ _ _ _
      at_key (some v) = Tells-some v

  non_negative-Tells : (v : J) (path : String) → Tells (non_negative json source v path) Missing
  unfolding non_negative
  non_negative-Tells v path =
      Tells-if (not (is_whole json source v)) _ _ Missing (report_nothing _ _ _ _ _) (
        Tells-if (json.is_number_integer v) _ _ Missing
          (Tells-if (ltbℤ (json.get_int64 v) (pos 0)) _ _ Missing (report_nothing _ _ _ _ _)
            (Tells-some (json.get_int64 v)))
          (Tells-if (ltb 9223372036854775807 (json.get_uint64 v)) _ _ Missing
            (report_nothing _ _ _ _ _) (Tells-some (pos (json.get_uint64 v)))))

  pub read_name-Tells :
      (v : J) (path : String) → Tells (read_name json source (some v) path) Missing
  unfolding read_name
  read_name-Tells v path =
      Tells-if _ _ (ok (some _)) Missing (report_nothing _ _ _ _ _) (Tells-some (json.get_string v))

  -- A result, or the document is invalid.
  pub or_invalid :
      {A : Type 0} (o : Option A) (a : A) (t : Loading)
      → Missing o t
      → Ends
          (λ b u. Later t u × Always b u)
          ((elim o as (λ _. L A) [ none ↦ do invalidate; ok a | some x ↦ ok x ]) t)
  unfolding invalidate
  or_invalid none a t p = (((λ _. p), (λ h. h)), tt)
  or_invalid (some x) a t p = Tells-ok x t

  pub time_field-Tells :
      (item : J) (k path : String) → Tells (time_field json source item k path) Always
  unfolding time_field read_non_negative
  time_field-Tells item k path =
      Tells-after (required json source item k path) _ Missing Always (required-Tells item k path)
        read
    where
      read :
          (v : Option J) (t : Loading)
          → Missing v t
          → Ends
              (λ b u. Later t u × Always b u)
              ((do
                time ← read_non_negative json source v (text_append path (text_append "/" k))
                elim time as (λ _. L ℤ) [ none ↦ do invalidate; ok (pos 0) | some x ↦ ok x ])
                t)
      read none t p = or_invalid none (pos 0) t p
      read (some v) t p =
          Tells-after (non_negative json source v _) _ Missing Always (non_negative-Tells v _)
            (λ o u q. or_invalid o (pos 0) u q) t
