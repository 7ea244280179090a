-- ===== src/Prelude/Word.antt =====
-- Go's `int` on a 64-bit machine: a value is its bit pattern, a number below 2^64, and sums wrap.
use Prim.Native.Nat.{ℕ, ◌+◌, ◌-◌, ◌%◌, ◌^◌, ◌<◌}
use mathlib.Core.Path.{◌≡◌, refl}
use mathlib.Core.Bool.{Bool, true, ◌&&◌}
use native.Mathlib.Omega.{arith}
use publish_carousel.Prelude.Int.{ℤ, pos, negsuc, leb_ℤ, ltb_ℤ}
use publish_carousel.Prelude.Tests.{ltb, leb, if◌then◌else◌}

abbrev pub word_mod : ℕ
word_mod = 2 ^ 64

-- The least pattern that stands for a negative number.
abbrev pub sign_bit : ℕ
sign_bit = 2 ^ 63

abbrev pub add_int : ℕ → ℕ → ℕ
add_int a b = (a + b) % word_mod

-- `n++`
abbrev pub inc : ℕ → ℕ
inc n = (n + 1) % word_mod

-- The number that a pattern stands for.
abbrev pub as_int : ℕ → ℤ
as_int n = if ltb n sign_bit then pos n else negsuc (word_mod - 1 - n)

abbrev pub is_positive : ℕ → Bool
is_positive n = ltb 0 n && ltb n sign_bit

-- `a <= b` and `a < b` on `int`.
unfoldable pub int_le : ℕ → ℕ → Bool
int_le a b = leb_ℤ (as_int a) (as_int b)

unfoldable pub int_lt : ℕ → ℕ → Bool
int_lt a b = ltb_ℤ (as_int a) (as_int b)

pub int_le-leb : (a b : ℕ) → a < sign_bit → b < sign_bit → int_le a b ≡ leb a b
unfolding int_le
int_le-leb a b h k = ground arith

pub int_lt-ltb : (a b : ℕ) → a < sign_bit → b < sign_bit → int_lt a b ≡ ltb a b
unfolding int_lt
int_lt-ltb a b h k = ground arith

int_lt_negative : int_lt 0xffffffffffffffff 1 ≡ true
unfolding int_lt
int_lt_negative = refl
