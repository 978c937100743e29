-- ===== src/Golomb.antt =====
-- utils/bits/golomb_reader.go: bits and Exp-Golomb codes of a stream of bytes, as the parsers of
-- H.264 and H.265 read them. The reader underneath gives its bytes one by one, then an error, as
-- a `bytes.Reader` does.
pub mod Pending
pub mod Codes
mod Tests
use mse.Common.{
  ℕ, zero, suc, ◌+◌, ◌-◌, ◌*◌, ◌/◌, ◌%◌, ◌^◌, List, [], ◌∷◌, Option, none, some, ◌==◌,
  if◌then◌else◌, bit_and, bit_or,
}
use mse.Common.Word.{word, add64, sub64}

-- `GolombBitReader`
pub record GolombReader : Type 0 where
  pub src : List ℕ
  pub buf : ℕ
  pub left : ℕ

-- The reader after a read, with what it gave; `none` is the error of the reader underneath.
abbrev pub Reading : Type 0
Reading = GolombReader × Option ℕ

-- An error returns at once.
abbrev pub and_then : Reading → (GolombReader → ℕ → Reading) → Reading
and_then (r, none) f = (r, none)
and_then (r, some x) f = f r x

-- The end of `ReadBit`, with `left` as it is after `self.left--`.
unfoldable pub next_bit : List ℕ → ℕ → ℕ → Reading
next_bit src buf left =
    (record { src = src; buf = buf; left = left }, some (bit_and (buf / 2 ^ left) 1))

unfoldable pub read_bit : GolombReader → Reading
read_bit r = elim r.left [
  | zero ↦ elim r.src [ [] ↦ (r, none) | b ∷ rest ↦ next_bit rest b 7 ]
  | suc left ↦ next_bit r.src r.buf left
]

-- The loop of `ReadBits`, with the number of bits still to read and the result so far.
unfoldable pub read_bits_loop : ℕ → ℕ → GolombReader → Reading
read_bits_loop zero res r = (r, some res)
read_bits_loop (suc m) res r =
    and_then (read_bit r) (λ r' bit. read_bits_loop m (bit_or res (bit * 2 ^ m % word)) r')

unfoldable pub read_bits : GolombReader → ℕ → Reading
read_bits r n = read_bits_loop n 0 r

-- The loop of `ReadBits32` and of `ReadBits64`, which shift a result of `width` bits.
unfoldable pub shift_bits : ℕ → ℕ → ℕ → GolombReader → Reading
shift_bits width zero res r = (r, some res)
shift_bits width (suc m) res r =
    and_then (read_bit r) (λ r' bit. shift_bits width m (bit_or (res * 2 ^ 1 % 2 ^ width) bit) r')

unfoldable pub read_bits32 : GolombReader → ℕ → Reading
read_bits32 r n = shift_bits 32 n 0 r

unfoldable pub read_bits64 : GolombReader → ℕ → Reading
read_bits64 r n = shift_bits 64 n 0 r

-- The first loop of `ReadExponentialGolombCode`, which counts the zeros before the first one, up to
-- 32: the first argument is how many are left to 32, the second is `i`.
unfoldable pub read_zeros : ℕ → ℕ → GolombReader → Reading
read_zeros zero i r = and_then (read_bit r) (λ r' bit. (r', some i))
read_zeros (suc m) i r =
    and_then (read_bit r)
      (λ r' bit. let more = read_zeros m (i + 1) r' in if bit == 0 then more else (r', some i))

unfoldable pub read_exponential_golomb_code : GolombReader → Reading
read_exponential_golomb_code r =
    and_then (read_zeros 32 0 r)
      (λ r1 i. and_then (read_bits r1 i) (λ r2 res. (r2, some (add64 res (sub64 (2 ^ i) 1)))))

-- `ReadSE`; the result is unsigned, and so is the division of its negative.
unfoldable pub read_se : GolombReader → Reading
read_se r =
    and_then (read_exponential_golomb_code r)
      (λ r' res. (r', some (if bit_and res 1 == 0 then sub64 0 res / 2 else add64 res 1 / 2)))
