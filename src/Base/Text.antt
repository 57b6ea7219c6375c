-- ===== src/Base/Text.antt =====
-- What the program uses of Go's `strings` package, on ASCII letters and spaces.
use Prim.Native.Nat.{ℕ, zero, suc, ◌+◌, ◌-◌, ◌<◌, compare, Ordering}
use Prim.Native.Char.{Char, char, code, IsScalar}
use Prim.Native.String.{String, [], ◌∷◌}
use mathlib.Core.Path.{◌≡◌, refl}
use mathlib.Core.Bool.{Bool, true, false, ◌&&◌, ◌||◌}
use mathlib.Core.Logic.{dite}
use native.Mathlib.Omega.{arith}
use text.Mathlib.Text.{starts_with}
use native.Mathlib.Decide.{dec_lt}
use uitgo_monorepo.Base.Tests.{leb, eqb, if◌then◌else◌}

-- `s == ""`
abbrev pub is_empty : String → Bool
is_empty [] = true
is_empty (c ∷ s) = false

compare_of_lt : (n m : ℕ) → n < m → compare n m ≡ Ordering.lt
compare_of_lt n m h = ground arith

IsScalar_of_lt : (n : ℕ) → n < 55296 → IsScalar n
IsScalar_of_lt n h = rw (compare_of_lt n 55296 h) tt

-- The character of a code point below 128, and any character for a code point that is not.
ascii : ℕ → Char
unfolding IsScalar_of_lt compare_of_lt dec_lt
ascii n = dite (dec_lt n 128) (λ h. char n (IsScalar_of_lt n (omega arith))) (λ _. char 0 tt)

is_upper : Char → Bool
is_upper c = leb b'A' (code c) && leb (code c) b'Z'

is_lower : Char → Bool
is_lower c = leb b'a' (code c) && leb (code c) b'z'

-- `unicode.IsSpace` on ASCII.
is_space : Char → Bool
is_space c = eqb (code c) 32 || leb 9 (code c) && leb (code c) 13

lower_char : Char → Char
unfolding ascii is_upper
lower_char c = if is_upper c then ascii (code c + 32) else c

upper_char : Char → Char
unfolding ascii is_lower
upper_char c = if is_lower c then ascii (code c - 32) else c

-- `strings.ToLower`
unfoldable pub to_lower : String → String
unfolding lower_char
to_lower [] = []
to_lower (c ∷ s) = lower_char c ∷ to_lower s

-- `strings.ToUpper`
unfoldable pub to_upper : String → String
unfolding upper_char
to_upper [] = []
to_upper (c ∷ s) = upper_char c ∷ to_upper s

trim_left : String → String
unfolding is_space
trim_left [] = []
trim_left (c ∷ s) = if is_space c then trim_left s else c ∷ s

-- A text of spaces only is dropped whole, so each step looks at what the tail became.
put_unless_space : Char → String → String
unfolding is_space
put_unless_space c [] = if is_space c then [] else c ∷ []
put_unless_space c (d ∷ s) = c ∷ d ∷ s

trim_right : String → String
unfolding put_unless_space
trim_right [] = []
trim_right (c ∷ s) = put_unless_space c (trim_right s)

-- `strings.TrimSpace`
unfoldable pub trim_space : String → String
unfolding trim_left trim_right
trim_space s = trim_right (trim_left s)

-- `a + b`
unfoldable pub concat : String → String → String
concat [] b = b
concat (c ∷ a) b = c ∷ concat a b

-- `strings.Contains`
unfoldable pub contains : String → String → Bool
contains [] part = is_empty part
contains (c ∷ s) part = starts_with (c ∷ s) part || contains s part

-- `s[n:]` of a text whose first `n` characters are one byte long.
unfoldable pub drop_chars : ℕ → String → String
drop_chars zero s = s
drop_chars (suc n) [] = []
drop_chars (suc n) (c ∷ s) = drop_chars n s

lower_example : to_lower "UIT-Go" ≡ "uit-go"
unfolding to_lower
lower_example = refl

upper_example : to_upper "59x1-ab" ≡ "59X1-AB"
unfolding to_upper
upper_example = refl

trim_example : trim_space "  a b  " ≡ "a b"
unfolding trim_space
trim_example = refl
