-- ===== src/Base/Numbers.antt =====
-- What the program uses of Go's `strconv` package: `Atoi`.
use Prim.Native.Nat.{ℕ, ◌+◌, ◌-◌, ◌*◌, ◌^◌}
use Prim.Native.Char.{Char, code}
use Prim.Native.String.{String, [], ◌∷◌}
use mathlib.Core.Path.{◌≡◌, refl}
use mathlib.Core.Bool.{Bool, ◌&&◌}
use mathlib.Core.Option.{Option, none, some}
use uitgo_monorepo.Base.Tests.{ltb, leb, eqb, if◌then◌else◌}
use uitgo_monorepo.Base.Int.{ℤ, pos, sub_ℕ}

is_digit : Char → Bool
is_digit c = leb b'0' (code c) && leb (code c) b'9'

-- The number of the digits behind those that `n` was read from.
digits_from : ℕ → String → Option ℕ
unfolding is_digit
digits_from n [] = some n
digits_from n (c ∷ s) = if is_digit c then digits_from (n * 10 + (code c - b'0')) s else none

some_digits : String → Option ℕ
unfolding digits_from
some_digits [] = none
some_digits (c ∷ s) = digits_from 0 (c ∷ s)

positive : Option ℕ → Option ℤ
positive none = none
positive (some n) = if ltb n (2 ^ 63) then some (pos n) else none

negative : Option ℕ → Option ℤ
negative none = none
negative (some n) = if leb n (2 ^ 63) then some (sub_ℕ 0 n) else none

-- `strconv.Atoi`: decimal digits behind at most one sign; a number that is no `int` is an error.
unfoldable pub atoi : String → Option ℤ
unfolding some_digits positive negative
atoi [] = none
atoi (c ∷ s) =
    if eqb (code c) b'-'
    then negative (some_digits s)
    else if eqb (code c) b'+'
    then positive (some_digits s)
    else positive (some_digits (c ∷ s))

atoi_example : atoi "-120" ≡ some (sub_ℕ 0 120)
unfolding atoi
atoi_example = refl

atoi_blank : atoi "12 " ≡ none
unfolding atoi
atoi_blank = refl
