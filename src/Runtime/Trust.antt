-- ===== src/Runtime/Trust.antt =====
-- A relation of sessions that the handlers of runtime.cpp are compared with: which calls of the
-- devices may start a motion, and whether the session is trusted.
pub mod Stops
pub mod Handlers
pub mod Controls
pub mod Halted
use roborun.Prelude.{
  ℕ, suc, ◌≡◌, refl, ap, ◌∙◌, ◌⊎◌, arith, Bool, true, false, List, [], ◌∷◌, Outcome, ok, threw,
  after, ◌>>=◌, if◌then◌else◌,
}
use roborun.Runtime.State.{
  DeviceCall, Devices, Reply, returns, throws, Session, M, invoke, answer, submit_movej,
  resume_movej, set_servo_enabled,
}

-- How many of the calls can start a motion: a submitted or resumed MOVEJ, or an enabled servo.
abbrev pub motions : List DeviceCall → ℕ
motions [] = 0
motions (submit_movej r ∷ cs) = suc (motions cs)
motions (resume_movej r ∷ cs) = suc (motions cs)
motions (set_servo_enabled true ∷ cs) = suc (motions cs)
motions (c ∷ cs) = motions cs

-- No motion is started, and trust that is lost stays lost.
pub record Calm (s t : Session) : Type 0 where
  pub still : motions t.calls ≡ motions s.calls
  pub trust : (s.session_untrusted ≡ false) ⊎ (t.session_untrusted ≡ true)

untrusted_or : (a b : Bool) → b ≡ a → (a ≡ false) ⊎ (b ≡ true)
untrusted_or a b h = ground arith

untrusted_trans :
    (a b c : Bool) → (a ≡ false) ⊎ (b ≡ true) → (b ≡ false) ⊎ (c ≡ true) → (a ≡ false) ⊎ (c ≡ true)
untrusted_trans a b c h k = ground arith

pub Calm-refl : (s : Session) → Calm s s
Calm-refl s = record {
  still = refl;
  trust = untrusted_or s.session_untrusted s.session_untrusted refl;
}

pub Calm-trans : {s t u : Session} → Calm s t → Calm t u → Calm s u
Calm-trans {s} {t} {u} p q = record {
  still = q.still ∙ p.still;
  trust =
      untrusted_trans s.session_untrusted t.session_untrusted u.session_untrusted p.trust q.trust;
}

-- Writes that leave the calls and the trust alone.
pub Calm-same :
    {s t : Session} → t.calls ≡ s.calls → t.session_untrusted ≡ s.session_untrusted → Calm s t
Calm-same {s} {t} p q = record {
  still = ap motions p;
  trust = untrusted_or s.session_untrusted t.session_untrusted q;
}

module _ {A B : Type 0} where
  pub Calm-bind :
      (m : M A) (f : A → M B) (s : Session)
      → Calm s (after (m s))
      → ((a : A) (t : Session) → Calm t (after (f a t)))
      → Calm s (after ((m >>= f) s))
  Calm-bind m f s p q = go (m s) p
    where
      go :
          (r : Outcome Session A)
          → Calm s (after r)
          → Calm s (after (((λ (t : Session). r) >>= f) s))
      go (ok a t) p = Calm-trans p (q a t)
      go (threw e t) p = p

pub Calm-if : (b : Bool) (s t u : Session) → Calm s t → Calm s u → Calm s (if b then t else u)
Calm-if true s t u p q = p
Calm-if false s t u p q = q

pub Calm-branch :
    {A : Type 0} (b : Bool) (s : Session) (m n : Outcome Session A)
    → Calm s (after m)
    → Calm s (after n)
    → Calm s (after (if b then m else n))
Calm-branch true s m n p q = p
Calm-branch false s m n p q = q

-- A call that starts no motion, whatever it answers.
pub Calm-invoke :
    {A : Type 0} (c : DeviceCall) (f : Devices → List DeviceCall → Reply A) (s : Session)
    → motions (c ∷ s.calls) ≡ motions s.calls
    → Calm s (after (invoke c f s))
unfolding invoke answer
Calm-invoke {A} c f s h = go (f s.setup.devices (c ∷ s.calls))
  where
    go : (r : Reply A) → Calm s (after (answer r (record s { calls = c ∷ s.calls })))
    go (returns a) = record {
      still = h;
      trust = untrusted_or s.session_untrusted s.session_untrusted refl;
    }
    go (throws e) = record {
      still = h;
      trust = untrusted_or s.session_untrusted s.session_untrusted refl;
    }
