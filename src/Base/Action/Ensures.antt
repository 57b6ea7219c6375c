-- ===== src/Base/Action/Ensures.antt =====
-- What a call ensures, by how it ended, with one rule for each way to build a call.
use mathlib.Core.Path.{◌≡◌, refl, subst₂}
use mathlib.Core.Logic.{◌⊎◌, inl, inr}
use mathlib.Core.Bool.{Bool, true, false}
use uitgo_monorepo.Errors.{Error}
use uitgo_monorepo.Base.Tests.{if◌then◌else◌}
use uitgo_monorepo.Base.Action.{
  Result, ok, err, Action, attempt, raise_if, resume, checked, ◌>>=◌, ◌>>◌,
}

-- `P` holds of the value and the state of a call that returned, `Q` of the error and the state of
-- one that failed.
pub data Ensures {W A : Type 0} (P : A → W → Type 0) (Q : Error → W → Type 0)
    : Result A × W → Type 0 where
  returned : {a : A} {w : W} → P a w → Ensures P Q (ok a, w)
  raised : {e : Error} {w : W} → Q e w → Ensures P Q (err e, w)

module _ {W A : Type 0} {P : A → W → Type 0} {Q : Error → W → Type 0} where
  -- What holds of a call that is known to have returned.
  pub Ensures-ok : {a : A} {w : W} {x : Result A × W} → Ensures P Q x → x ≡ (ok a, w) → P a w
  Ensures-ok {a} {w} (returned {a = b} {w = v} p) e =
      let ea : b ≡ a = cc in let ew : v ≡ w = cc in subst₂ P ea ew p
  Ensures-ok (raised q) e = cc

  pub Ensures-err : {c : Error} {w : W} {x : Result A × W} → Ensures P Q x → x ≡ (err c, w) → Q c w
  Ensures-err (returned p) e = cc
  Ensures-err {c} {w} (raised {e = d} {w = v} q) e =
      let ed : d ≡ c = cc in let ew : v ≡ w = cc in subst₂ Q ed ew q

  pub Ensures-mono :
      {P' : A → W → Type 0} {Q' : Error → W → Type 0} {x : Result A × W}
      → Ensures P Q x
      → ((a : A) (w : W) → P a w → P' a w)
      → ((e : Error) (w : W) → Q e w → Q' e w)
      → Ensures P' Q' x
  Ensures-mono (returned p) f g = returned (f _ _ p)
  Ensures-mono (raised q) f g = raised (g _ _ q)

  pub Ensures-if :
      (b : Bool) (m n : Action W A) (w : W)
      → (b ≡ true → Ensures P Q (m w))
      → (b ≡ false → Ensures P Q (n w))
      → Ensures P Q ((if b then m else n) w)
  Ensures-if true m n w km kn = km refl
  Ensures-if false m n w km kn = kn refl

  pub Ensures-raise_if :
      (b : Bool) (e : Error) (k : Action W A) (w : W)
      → (b ≡ true → Q e w)
      → (b ≡ false → Ensures P Q (k w))
      → Ensures P Q ((raise_if b e >> k) w)
  Ensures-raise_if true e k w bad good = raised (bad refl)
  Ensures-raise_if false e k w bad good = good refl

module _ {W A B : Type 0} {P : A → W → Type 0} {Q : Error → W → Type 0} where
  Ensures-resume :
      {P' : B → W → Type 0} {Q' : Error → W → Type 0} {x : Result A × W} (f : A → Action W B)
      → Ensures P Q x
      → ((a : A) (w : W) → P a w → Ensures P' Q' (f a w))
      → ((e : Error) (w : W) → Q e w → Q' e w)
      → Ensures P' Q' (resume x f)
  Ensures-resume f (returned p) k g = k _ _ p
  Ensures-resume f (raised q) k g = raised (g _ _ q)

  -- A call, then the rest of the block from the state that it left.
  pub Ensures-bind :
      {P' : B → W → Type 0} {Q' : Error → W → Type 0} (m : Action W A) (f : A → Action W B) (w : W)
      → Ensures P Q (m w)
      → ((a : A) (w' : W) → P a w' → Ensures P' Q' (f a w'))
      → ((e : Error) (w' : W) → Q e w' → Q' e w')
      → Ensures P' Q' ((m >>= f) w)
  Ensures-bind m f w h k g = Ensures-resume f h k g

  attempted :
      {P' : B → W → Type 0} {Q' : Error → W → Type 0} {x : Result A × W} (f : Result A → Action W B)
      → Ensures P Q x
      → ((a : A) (w' : W) → P a w' → Ensures P' Q' (f (ok a) w'))
      → ((e : Error) (w' : W) → Q e w' → Ensures P' Q' (f (err e) w'))
      → Ensures P' Q' (f x.0 x.1)
  attempted f (returned p) k g = k _ _ p
  attempted f (raised q) k g = g _ _ q

  -- A call whose error the rest of the block looks at.
  pub Ensures-attempt :
      {P' : B → W → Type 0} {Q' : Error → W → Type 0} (m : Action W A) (f : Result A → Action W B)
      (w : W)
      → Ensures P Q (m w)
      → ((a : A) (w' : W) → P a w' → Ensures P' Q' (f (ok a) w'))
      → ((e : Error) (w' : W) → Q e w' → Ensures P' Q' (f (err e) w'))
      → Ensures P' Q' ((attempt m >>= f) w)
  Ensures-attempt m f w h k g = attempted f h k g

-- A test that ends a block.
pub Ensures-raise_if_end :
    {W : Type 0} {P : Unit {0} → W → Type 0} {Q : Error → W → Type 0} (b : Bool) (e : Error) (w : W)
    → (b ≡ true → Q e w)
    → (b ≡ false → P tt w)
    → Ensures P Q (raise_if b e w)
Ensures-raise_if_end true e w bad good = raised (bad refl)
Ensures-raise_if_end false e w bad good = returned (good refl)

-- What holds of the state however the call ended.
pub Ensures-state :
    {W A : Type 0} {R : W → Type 0} {x : Result A × W} → Ensures (λ a w. R w) (λ e w. R w) x → R x.1
Ensures-state (returned r) = r
Ensures-state (raised r) = r

-- Nothing is known of a call.
pub Ensures-any : {W A : Type 0} (x : Result A × W) → Ensures (λ a w. Unit {0}) (λ e w. Unit {0}) x
Ensures-any (ok a, w) = returned tt
Ensures-any (err e, w) = raised tt

pub Result-cases :
    {A : Type 0} (x : Result A) → ((a : A) × (x ≡ ok a)) ⊎ ((e : Error) × (x ≡ err e))
Result-cases (ok a) = inl (a, refl)
Result-cases (err e) = inr (e, refl)

pub checked-Kept :
    {W A : Type 0} (x : Result A) (w : W)
    → Ensures (λ a w'. (x ≡ ok a) × (w' ≡ w)) (λ e w'. w' ≡ w) (checked x w)
checked-Kept (ok a) w = returned (refl, refl)
checked-Kept (err e) w = raised refl

-- A call with what it ensures, and the equation that says how it ended.
pub Ensures-known :
    {W A : Type 0} {P : A → W → Type 0} {Q : Error → W → Type 0} {x : Result A × W}
    → Ensures P Q x
    → Ensures (λ a w. P a w × (x ≡ (ok a, w))) (λ e w. Q e w × (x ≡ (err e, w))) x
Ensures-known (returned p) = returned (p, refl)
Ensures-known (raised q) = raised (q, refl)
