-- ===== src/Prelude/Actions.antt =====
-- Actions that change a state and may throw. What was written before a throw stays written, as in
-- a method that an exception leaves.
use Prim.Native.String.{String}

pub data Outcome (S A : Type 0) : Type 0 where
  ok : A → S → Outcome S A
  threw : String → S → Outcome S A

abbrev pub Action : Type 0 → Type 0 → Type 0
Action S A = S → Outcome S A

-- The state that an action leaves behind, by either way out.
abbrev pub after : {S A : Type 0} → Outcome S A → S
after (ok a s) = s
after (threw e s) = s

infixl 5 ◌>>=◌ ◌>>◌
abbrev pub ◌>>=◌ : {S A B : Type 0} → Action S A → (A → Action S B) → Action S B
◌>>=◌ m f s = elim (m s) [ ok a s' ↦ f a s' | threw e s' ↦ threw e s' ]

abbrev pub ◌>>◌ : {S B : Type 0} → Action S (Unit {0}) → Action S B → Action S B
m >> n = m >>= λ _. n

-- A write that cannot fail.
abbrev pub modify : {S : Type 0} → (S → S) → Action S (Unit {0})
modify f s = ok tt (f s)
