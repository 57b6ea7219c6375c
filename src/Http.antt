-- ===== src/Http.antt =====
-- Replies of the HTTP handlers in backend/internal/http/handlers. A handler is a call that returns the
-- status and the body of its reply; `c.JSON(code, gin.H{"error": ...})` with a `return` after it is the
-- error `response code e`, and what was written before it stays written.
pub mod Params
pub mod Trips
pub mod Drivers
pub mod Wallets
pub mod Middleware
use uitgo_monorepo.Base.{ℕ, String}
use uitgo_monorepo.Errors.{Error, response}
use uitgo_monorepo.Base.Action.{Result, ok, err, Action, raise}
use uitgo_monorepo.Base.Action.Ensures.{Ensures, returned, raised}

-- What the middleware has put in the context of a request: an empty text where it put nothing.
pub record Context : Type 0 where
  pub user_id : String
  pub role : String

abbrev pub refused : {A : Type 0} → (Error → Error) → Result A → Result A
refused f (ok a) = ok a
refused f (err e) = err (f e)

module _ {W A : Type 0} where
  abbrev pub refuse : ℕ → Error → Action W A
  refuse code e = raise (response code e)

  -- A call whose error becomes an error reply.
  abbrev pub or_refuse : (Error → Error) → Action W A → Action W A
  or_refuse f m w = let (r, w') = m w in (refused f r, w')

  -- A body that was decoded and validated by `ShouldBindJSON`, or its error.
  abbrev pub bound : Result A → Action W A
  bound (ok a) w = (ok a, w)
  bound (err e) w = (err (response 400 e), w)

  abbrev refused_pair : (Error → Error) → Result A × W → Result A × W
  refused_pair f x = (refused f x.0, x.1)

  refused-Ensures :
      {P : A → W → Type 0} {Q Q' : Error → W → Type 0} (f : Error → Error) {x : Result A × W}
      → Ensures P Q x
      → ((e : Error) (w : W) → Q e w → Q' (f e) w)
      → Ensures P Q' (refused_pair f x)
  refused-Ensures f (returned p) k = returned p
  refused-Ensures f (raised q) k = raised (k _ _ q)

  pub Ensures-or_refuse :
      {P : A → W → Type 0} {Q Q' : Error → W → Type 0} (f : Error → Error) (m : Action W A) (w : W)
      → Ensures P Q (m w)
      → ((e : Error) (w' : W) → Q e w' → Q' (f e) w')
      → Ensures P Q' (or_refuse f m w)
  Ensures-or_refuse f m w h k = refused-Ensures f h k

  pub Ensures-bound :
      {P : A → W → Type 0} {Q : Error → W → Type 0} (r : Result A) (w : W)
      → ((a : A) → P a w)
      → ((e : Error) → Q (response 400 e) w)
      → Ensures P Q (bound r w)
  Ensures-bound (ok a) w k g = returned (k a)
  Ensures-bound (err e) w k g = raised (g e)
