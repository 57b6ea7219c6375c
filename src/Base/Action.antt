-- ===== src/Base/Action.antt =====
-- Calls that read and write a state and may return an error: `(T, error)` of Go beside the state
-- after the call. What was written before an error stays written.
pub mod Ensures
use mathlib.Core.Bool.{Bool, true, false}
use mathlib.Core.Option.{Option, none, some}
use uitgo_monorepo.Errors.{Error}

pub data Result (A : Type 0) : Type 0 where
  ok : A → Result A
  err : Error → Result A

abbrev pub Action : Type 0 → Type 0 → Type 0
Action W A = W → Result A × W

module _ {W A : Type 0} where
  abbrev pub pure : A → Action W A
  pure a w = (ok a, w)

  abbrev pub raise : Error → Action W A
  raise e w = (err e, w)

  -- A call that cannot fail, such as a reading of the clock.
  abbrev pub always : (W → A × W) → Action W A
  always f w = let (a, w') = f w in (ok a, w')

  -- `v, err := f()` where the error is looked at and not returned.
  abbrev pub attempt : Action W A → Action W (Result A)
  attempt m w = let (r, w') = m w in (ok r, w')

module _ {W A B : Type 0} where
  abbrev pub resume : Result A × W → (A → Action W B) → Result B × W
  resume (ok a, w) f = f a w
  resume (err e, w) f = (err e, w)

  infixl 5 ◌>>=◌ ◌>>◌
  abbrev pub ◌>>=◌ : Action W A → (A → Action W B) → Action W B
  ◌>>=◌ m f w = resume (m w) f

  abbrev pub ◌>>◌ : Action W A → Action W B → Action W B
  m >> k = m >>= λ _. k

-- A value, or the error that a function without effects returned.
abbrev pub checked : {W A : Type 0} → Result A → Action W A
checked (ok a) = pure a
checked (err e) = raise e

-- `if bad { return err }`
abbrev pub raise_if : {W : Type 0} → Bool → Error → Action W (Unit {0})
raise_if true e w = (err e, w)
raise_if false e w = (ok tt, w)
