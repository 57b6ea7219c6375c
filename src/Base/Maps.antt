-- ===== src/Base/Maps.antt =====
-- Tables as functions from their keys.
use Prim.Native.String.{String}
use mathlib.Core.Path.{◌≡◌, refl, sym, ap, ◌∙◌}
use mathlib.Core.Bool.{Bool, true, false}
use mathlib.Core.Option.{Option, none, some}
use text.Mathlib.Text.{◌==◌}
use text.Mathlib.TextEquality.{eq_iff}
use text.Mathlib.TextPositions.{eq_refl}
use uitgo_monorepo.Base.Tests.{if◌then◌else◌}

abbrev pub put {ℓ} : {A : Type ℓ} → (String → Option A) → String → A → String → Option A
put f k a j = if k == j then some a else f j

pub put_self {ℓ} : {A : Type ℓ} (f : String → Option A) (k : String) (a : A) → put f k a k ≡ some a
put_self f k a = rw (eq_refl k) refl

pub put_other {ℓ} :
    {A : Type ℓ} (f : String → Option A) (k : String) (a : A) (j : String)
    → (k == j) ≡ false
    → put f k a j ≡ f j
put_other f k a j h = rw h refl

-- The table without the key.
abbrev pub removed {ℓ} : {A : Type ℓ} → (String → Option A) → String → String → Option A
removed f k j = if k == j then none else f j

removed_at {ℓ} :
    {A : Type ℓ} (b : Bool) (x : Option A) (a : A)
    → (b ≡ true → none ≡ x)
    → (if b then none else if b then some a else x) ≡ x
removed_at true x a h = h refl
removed_at false x a h = refl

pub removed-put {ℓ} :
    {A : Type ℓ} (f : String → Option A) (k : String) (a : A)
    → f k ≡ none
    → removed (put f k a) k ≡ f
removed-put f k a fresh =
    λ i j. removed_at (k == j) (f j) a (λ same. sym fresh ∙ ap f ((eq_iff k j).0 same)) i
