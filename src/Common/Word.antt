-- ===== src/Common/Word.antt =====
-- Go's 64-bit integers as bit patterns, numbers below 2 ^ 64. A signed `int`, `int64` or
-- `time.Duration` is its two's complement pattern, and its comparisons are those of `◌<ₛ◌`.
use Prim.Native.Nat.{ℕ, ◌+◌, ◌-◌, ◌/◌, ◌%◌, ◌^◌, ◌<◌}
use mathlib.Core.Bool.{Bool}
use package.mse.Common.Tests.{ltb, if◌then◌else◌}

abbrev pub word : ℕ
word = 2 ^ 64

abbrev pub half_word : ℕ
half_word = 2 ^ 63

abbrev pub add64 : ℕ → ℕ → ℕ
add64 a b = (a + b) % word

abbrev pub sub64 : ℕ → ℕ → ℕ
sub64 a b = (a + (word - b % word)) % word

-- x < 0, of a signed number
abbrev pub is_neg : ℕ → Bool
is_neg x = ltb (half_word - 1) x

-- a < b, of signed numbers: adding 2 ^ 63 turns their order into that of the patterns
abbrev pub slt : ℕ → ℕ → Bool
slt a b = ltb ((a + half_word) % word) ((b + half_word) % word)

abbrev pub IsWord : ℕ → Type 0
IsWord x = x < 2 ^ 64

abbrev pub negate : ℕ → ℕ
negate x = (word - x) % word

-- signed division by a positive number, which rounds towards zero
unfoldable pub signed_div : ℕ → ℕ → ℕ
signed_div x d = if is_neg x then negate (negate x / d) else x / d
