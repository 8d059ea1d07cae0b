-- ===== src/Loaded/Timeline.antt =====
-- About the members in the order of their times that LoadMockScenario (scenario.cpp) reads.
pub mod Events
pub mod Controls
use roborun.Prelude.{
  ◌+◌, pos, ltbℤ, false, String, List, [], ◌∷◌, ◌++◌, All, All-append, ◌>>◌, ◌≡◌, ◌≢◌, subst, sym,
  arith,
}
use roborun.Types.{BusinessTime}
use roborun.Json.{
  JsonLibrary, L, required, read_name, reject_unknown_fields, unchanged_since, time_field,
}
use roborun.Scenario.{in_order}
use roborun.Loaded.{Ensures, Ensures-if, fail-Ensures}

module _ {A : Type 0} (time_of : A → BusinessTime) where
  -- Times that begin at `previous` or later and do not move backward, up to `last`.
  abbrev pub Ascending : BusinessTime → List A → BusinessTime → Type 0
  Ascending previous [] last = ltbℤ last previous ≡ false
  Ascending previous (e ∷ es) last =
      (ltbℤ (time_of e) previous ≡ false) × Ascending (time_of e) es last

  Ascending-append :
      (previous last : BusinessTime) (es : List A) (e : A)
      → Ascending previous es last
      → ltbℤ (time_of e) last ≡ false
      → Ascending previous (es ++ e ∷ []) (time_of e)
  Ascending-append previous last [] e h k = (ground arith, ground arith)
  Ascending-append previous last (d ∷ es) e (h, hs) k =
      (h, Ascending-append (time_of d) last es e hs k)

  -- Members in the order of their times from 0, each of which is as `P` says.
  abbrev pub Timeline : (A → Type 0) → BusinessTime × List A → Type 0
  Timeline P (last, es) = Ascending (pos 0) es last × All P es

  Timeline-append :
      (P : A → Type 0) (last time : BusinessTime) (es : List A) (e : A)
      → ltbℤ time last ≡ false
      → Timeline P (last, es)
      → time_of e ≡ time
      → P e
      → Timeline P (time, es ++ e ∷ [])
  Timeline-append P last time es e h (a, n) t p = (
    subst (Ascending (pos 0) (es ++ e ∷ [])) t
        (Ascending-append (pos 0) last es e a (subst (λ u. ltbℤ u last ≡ false) (sym t) h)),
    All-append P es e n p,
  )

module _ {J : Type 0} (json : JsonLibrary J) (source : String) where
  pub in_order-Ensures :
      (path message : String) (previous time : BusinessTime)
      → Ensures (in_order json source path message previous time) (λ _. ltbℤ time previous ≡ false)
  unfolding in_order
  in_order-Ensures path message previous time =
      Ensures-if (ltbℤ time previous) _ _ _ (λ _. fail-Ensures _ _ _ _ _) (λ h s v. (v, h))
