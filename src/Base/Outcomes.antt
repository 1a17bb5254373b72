-- ===== src/Base/Outcomes.antt =====
use mathlib.Core.Path.{◌≡◌, refl}
use mathlib.Core.Logic.{◌⊎◌, inl, inr}
use mathlib.Core.Option.{Option, none, some}

-- A Go function that changes a state and returns a value or an error. Whatever it changed before
-- it failed stays changed, so an error carries the state too.
pub data Outcome (E S A : Type 0) : Type 0 where
  ok : A → S → Outcome E S A
  err : E → S → Outcome E S A

abbrev pub and_then : {E S A B : Type 0} → Outcome E S A → (A → S → Outcome E S B) → Outcome E S B
and_then (ok a t) f = f a t
and_then (err e t) f = err e t

infixl 5 ◌>>=◌ ◌>>◌
abbrev pub ◌>>=◌ :
    {E S A B : Type 0} → (S → Outcome E S A) → (A → S → Outcome E S B) → S → Outcome E S B
◌>>=◌ m f s = and_then (m s) f

abbrev pub ◌>>◌ : {E S A B : Type 0} → (S → Outcome E S A) → (S → Outcome E S B) → S → Outcome E S B
m >> k = m >>= λ _. k

-- The state that is left, whether the call failed or not.
abbrev pub state_of : {E S A : Type 0} → Outcome E S A → S
state_of (ok a s) = s
state_of (err e s) = s

-- A value or an error, of a Go function that changes nothing.
pub data Try (E A : Type 0) : Type 0 where
  value : A → Try E A
  fault : E → Try E A

pub Try-cases : {E A : Type 0} (t : Try E A) → ((e : E) × (t ≡ fault e)) ⊎ ((a : A) × (t ≡ value a))
Try-cases (value a) = inr (a, refl)
Try-cases (fault e) = inl (e, refl)

-- `if err != nil { return err }` around such a call.
abbrev pub attempt : {E S A : Type 0} → Try E A → S → Outcome E S A
attempt (value a) s = ok a s
attempt (fault e) s = err e s

-- The check behind `return nil`: an error, or nothing.
abbrev pub check : {E S : Type 0} → Option E → S → Outcome E S (Unit {0})
check none s = ok tt s
check (some e) s = err e s

abbrev pub pass : {E S A : Type 0} → A → S → Outcome E S A
pass a s = ok a s
