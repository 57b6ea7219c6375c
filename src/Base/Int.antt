-- ===== src/Base/Int.antt =====
-- Signed integers over the native numbers, and Go's 64-bit arithmetic on them.
use Prim.Native.Nat.{ℕ, suc, ◌+◌, ◌-◌, ◌*◌, ◌%◌, ◌^◌, ◌≤◌, ◌<◌}
use mathlib.Core.Path.{◌≡◌}
use mathlib.Core.Bool.{Bool}
use native.Mathlib.Omega.{arith}
use uitgo_monorepo.Base.Tests.{ltb, leb, if◌then◌else◌}

-- `negsuc n` is -(n + 1).
pub data ℤ : Type 0 where
  pos : ℕ → ℤ
  negsuc : ℕ → ℤ

abbrev pub pos_part : ℤ → ℕ
pos_part (pos n) = n
pos_part (negsuc n) = 0

abbrev pub neg_part : ℤ → ℕ
neg_part (pos n) = 0
neg_part (negsuc n) = suc n

abbrev pub sub_ℕ : ℕ → ℕ → ℤ
sub_ℕ a b = if leb b a then pos (a - b) else negsuc (b - a - 1)

infixl 65 ◌+ℤ◌ ◌-ℤ◌
infix 50 ◌≤ℤ◌
unfoldable pub ◌+ℤ◌ : ℤ → ℤ → ℤ
a +ℤ b = sub_ℕ (pos_part a + pos_part b) (neg_part a + neg_part b)

unfoldable pub ◌-ℤ◌ : ℤ → ℤ → ℤ
a -ℤ b = sub_ℕ (pos_part a + neg_part b) (neg_part a + pos_part b)

infixl 70 ◌*ℤ◌
unfoldable pub ◌*ℤ◌ : ℤ → ℤ → ℤ
a *ℤ b =
    sub_ℕ (pos_part a * pos_part b + neg_part a * neg_part b)
      (pos_part a * neg_part b + neg_part a * pos_part b)

abbrev pub ◌≤ℤ◌ : ℤ → ℤ → Type 0
a ≤ℤ b = pos_part a + neg_part b ≤ pos_part b + neg_part a

abbrev pub ltb_ℤ : ℤ → ℤ → Bool
ltb_ℤ a b = ltb (pos_part a + neg_part b) (pos_part b + neg_part a)

abbrev pub leb_ℤ : ℤ → ℤ → Bool
leb_ℤ a b = leb (pos_part a + neg_part b) (pos_part b + neg_part a)

pub +ℤ_parts :
    (a b : ℤ)
    → pos_part (a +ℤ b) + neg_part a + neg_part b ≡ neg_part (a +ℤ b) + pos_part a + pos_part b
unfolding ◌+ℤ◌
+ℤ_parts a b = ground arith

pub -ℤ_parts :
    (a b : ℤ)
    → pos_part (a -ℤ b) + neg_part a + pos_part b ≡ neg_part (a -ℤ b) + pos_part a + neg_part b
unfolding ◌-ℤ◌
-ℤ_parts a b = ground arith

pub eq_of_parts : (a b : ℤ) → pos_part a + neg_part b ≡ pos_part b + neg_part a → a ≡ b
eq_of_parts a b h = ground arith

pub ruleset int_laws = (arith, +ℤ_parts, -ℤ_parts, eq_of_parts)

-- The two's complement reading of an integer in 64 bits: what an `int64` holds after arithmetic.
unfoldable pub int64 : ℤ → ℤ
int64 a = sub_ℕ ((pos_part a + 2 ^ 63 + (2 ^ 64 - neg_part a % 2 ^ 64)) % 2 ^ 64) (2 ^ 63)

-- A value that an `int64` can hold.
pub record InRange64 (a : ℤ) : Type 0 where
  pub below : pos_part a < 2 ^ 63
  pub above : neg_part a ≤ 2 ^ 63

-- Arithmetic that stays in range does not wrap.
pub int64-id : (a : ℤ) → InRange64 a → int64 a ≡ a
unfolding int64
int64-id a h = ground arith

-- Whatever is computed, what is stored is in range.
pub int64-InRange64 : (a : ℤ) → InRange64 (int64 a)
unfolding int64
int64-InRange64 a = ground arith

-- The residue that `int64` keeps.
abbrev residue : ℤ → ℕ
residue a = (pos_part a + 2 ^ 63 + (2 ^ 64 - neg_part a % 2 ^ 64)) % 2 ^ 64

int64_parts : (a : ℤ) → pos_part (int64 a) + 2 ^ 63 ≡ residue a + neg_part (int64 a)
unfolding int64
int64_parts a = ground arith

int64_of_residue : (a b : ℤ) → residue a ≡ residue b → int64 a ≡ int64 b
unfolding int64
int64_of_residue a b h = rw h

-- Adding to a wrapped number and wrapping is wrapping the sum.
pub int64-+ℤ : (a b : ℤ) → int64 (int64 a +ℤ b) ≡ int64 (a +ℤ b)
int64-+ℤ a b =
    int64_of_residue (int64 a +ℤ b) (a +ℤ b)
      (omega (arith, int64_parts a, +ℤ_parts a b, +ℤ_parts (int64 a) b))

-- The same for a difference.
pub int64--ℤ : (a b : ℤ) → int64 (int64 a -ℤ b) ≡ int64 (a -ℤ b)
int64--ℤ a b =
    int64_of_residue (int64 a -ℤ b) (a -ℤ b)
      (omega (arith, int64_parts a, -ℤ_parts a b, -ℤ_parts (int64 a) b))

-- Sums and differences that neither wrap nor turn negative.
pub +ℤ-fits :
    (a b : ℤ)
    → pos 0 ≤ℤ a
    → pos 0 ≤ℤ b
    → pos_part a + pos_part b < 2 ^ 63
    → (pos 0 ≤ℤ a +ℤ b) × InRange64 (a +ℤ b)
unfolding ◌+ℤ◌
+ℤ-fits a b na nb room = ground arith

pub -ℤ-fits : (a b : ℤ) → pos 0 ≤ℤ b → b ≤ℤ a → InRange64 a → (pos 0 ≤ℤ a -ℤ b) × InRange64 (a -ℤ b)
unfolding ◌-ℤ◌
-ℤ-fits a b nb le fits = ground arith
