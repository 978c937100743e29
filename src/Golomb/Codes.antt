-- ===== src/Golomb/Codes.antt =====
-- What the reader of golomb_reader.go makes of its bits.
use mse.Common.{
  ℕ, zero, suc, ◌+◌, ◌-◌, ◌*◌, ◌/◌, ◌%◌, ◌^◌, ◌≤◌, ◌<◌, ◌≡◌, ap, ◌∙◌, arith, List, [], ◌∷◌, ◌++◌,
  some, ◌==◌, length, All, replicate, if◌then◌else◌, bit_and, bit_or,
}
use native.Mathlib.Nat.{pow-suc, add-mul, zero-mul, zero-add, one-le-pow, pow-le-pow_right}
use mathlib.Core.Path.{subst}
use mse.Common.Bits.{bit_and-ones, bit_or-zero, bit_or-eq-add}
use mse.Common.Word.{word, add64, sub64}
use mse.Golomb.{
  GolombReader, Reading, and_then, read_bit, read_bits_loop, read_bits, read_zeros,
  read_exponential_golomb_code, read_se,
}
use mse.Golomb.Pending.{pending, Gives, read_bit-Gives}

-- the number that bits stand for, the highest first
unfoldable pub value : List ℕ → ℕ
value [] = 0
value (b ∷ bs) = b * 2 ^ length bs + value bs

abbrev pub IsBits : List ℕ → Type 0
IsBits bits = All (λ b. b ≤ 1) bits

value-bound : (bits : List ℕ) → IsBits bits → value bits < 2 ^ length bits
unfolding value
value-bound [] h = omega arith
value-bound (zero ∷ bs) h = omega (arith, value-bound bs h.1, pow-suc 2 (length bs))
value-bound (suc zero ∷ bs) h = omega (arith, value-bound bs h.1, pow-suc 2 (length bs))
value-bound (suc (suc b) ∷ bs) h = absurd (omega (arith, h.0))

and_then-Gives :
    (reading : Reading) (f : GolombReader → ℕ → Reading) (x y : ℕ) (mid rest : List ℕ)
    → Gives reading x mid
    → ((r : GolombReader) → pending r ≡ mid → Gives (f r x) y rest)
    → Gives (and_then reading f) y rest
and_then-Gives reading f x y mid rest (r, e, p) go =
    let (r', e', p') = go r p in (r', ap (λ (z : Reading). and_then z f) e ∙ e', p')

double : (q p p' : ℕ) → p' ≡ p * 2 → q * p' ≡ q * 2 * p
double q p p' e = omega (arith, ap (λ (x : ℕ). q * x) e)

join_bit :
    (q b m acc : ℕ)
    → b ≤ 1
    → acc ≡ q * 2 ^ suc m
    → acc + b * 2 ^ m < word
    → bit_or acc (b * 2 ^ m % word) ≡ (q * 2 + b) * 2 ^ m
join_bit q zero m acc small e room =
    ap (λ (x : ℕ). bit_or acc (x % word)) (zero-mul (2 ^ m))
    ∙ bit_or-zero acc
    ∙ e
    ∙ omega (arith, pow-suc 2 m, double q (2 ^ m) (2 ^ suc m) (pow-suc 2 m))
join_bit q (suc zero) m acc small e room =
    bit_or-eq-add (suc m) q acc (1 * 2 ^ m % word) e
      (omega (arith, pow-suc 2 m, one-le-pow m 2, room))
    ∙ omega (arith, e, room, add-mul (q * 2) 1 (2 ^ m), double q (2 ^ m) (2 ^ suc m) (pow-suc 2 m))
join_bit q (suc (suc b)) m acc small e room = absurd (omega arith)

read_bits_loop-value :
    (xs rest : List ℕ) (r : GolombReader) (q acc : ℕ)
    → IsBits xs
    → acc ≡ q * 2 ^ length xs
    → acc + value xs < word
    → pending r ≡ xs ++ rest
    → Gives (read_bits_loop (length xs) acc r) (acc + value xs) rest
unfolding value read_bits_loop
read_bits_loop-value [] rest r q acc is e room p = (r, ap (λ (x : ℕ). (r, some x)) (omega arith), p)
read_bits_loop-value (b ∷ xs) rest r q acc is e room p =
    let joined = join_bit q b (length xs) acc is.0 e (omega (arith, room)) in
    let sum : (q * 2 + b) * 2 ^ length xs ≡ acc + b * 2 ^ length xs = omega (
      arith,
      e,
      add-mul (q * 2) b (2 ^ length xs),
      double q (2 ^ length xs) (2 ^ suc (length xs)) (pow-suc 2 (length xs)),
    ) in
    subst (λ (x : ℕ). Gives (read_bits_loop (suc (length xs)) acc r) x rest)
      (omega (arith, sum, joined))
      (and_then-Gives (read_bit r) _ b _ (xs ++ rest) rest (read_bit-Gives r b (xs ++ rest) p)
        (λ r' p'.
          read_bits_loop-value xs rest r' (q * 2 + b) (bit_or acc (b * 2 ^ length xs % word)) is.1
            joined (omega (arith, sum, joined, room)) p'))

-- `ReadBits` gives the number that the next bits stand for, the highest first, up to 64 bits.
pub read_bits-value :
    (r : GolombReader) (xs rest : List ℕ)
    → IsBits xs
    → length xs ≤ 64
    → pending r ≡ xs ++ rest
    → Gives (read_bits r (length xs)) (value xs) rest
unfolding read_bits
read_bits-value r xs rest is few p =
    subst (λ (x : ℕ). Gives (read_bits_loop (length xs) 0 r) x rest) (zero-add (value xs))
      (read_bits_loop-value xs rest r 0 0 is (omega arith)
        (omega (arith, value-bound xs is, pow-le-pow_right {n = 2} (omega arith) few)) p)

read_zeros-Gives :
    (k m i : ℕ) (r : GolombReader) (rest : List ℕ)
    → k ≤ m
    → pending r ≡ replicate k 0 ++ 1 ∷ rest
    → Gives (read_zeros m i r) (i + k) rest
unfolding read_zeros
read_zeros-Gives zero zero i r rest le p =
    and_then-Gives (read_bit r) _ 1 _ rest rest (read_bit-Gives r 1 rest p)
      (λ r' p'. (r', ap (λ (x : ℕ). (r', some x)) (omega arith), p'))
read_zeros-Gives zero (suc m) i r rest le p =
    and_then-Gives (read_bit r) _ 1 _ rest rest (read_bit-Gives r 1 rest p)
      (λ r' p'. (r', ap (λ (x : ℕ). (r', some x)) (omega arith), p'))
read_zeros-Gives (suc k) zero i r rest le p = absurd (omega arith)
read_zeros-Gives (suc k) (suc m) i r rest le p =
    and_then-Gives (read_bit r) _ 0 _ (replicate k 0 ++ 1 ∷ rest) rest
      (read_bit-Gives r 0 (replicate k 0 ++ 1 ∷ rest) p)
      (λ r' p'.
        subst (λ (x : ℕ). Gives (read_zeros m (i + 1) r') x rest) (omega arith)
          (read_zeros-Gives k m (i + 1) r' rest (omega arith) p'))

-- An Exp-Golomb code is `k` zeros, a one, and `k` bits more; up to 32 of them, it reads as the
-- number of the bits with 2 ^ k - 1 added, and what stands behind the code is left.
pub read_exponential_golomb_code-value :
    (r : GolombReader) (xs rest : List ℕ)
    → IsBits xs
    → length xs ≤ 32
    → pending r ≡ replicate (length xs) 0 ++ 1 ∷ (xs ++ rest)
    → Gives (read_exponential_golomb_code r) (value xs + (2 ^ length xs - 1)) rest
unfolding read_exponential_golomb_code
read_exponential_golomb_code-value r xs rest is few p =
    and_then-Gives (read_zeros 32 0 r) _ (length xs) _ (xs ++ rest) rest zeros (λ r1 p1.
      and_then-Gives (read_bits r1 (length xs)) _ (value xs) _ rest rest
        (read_bits-value r1 xs rest is (omega (arith, few)) p1)
        (λ r2 p2. (r2, ap (λ (x : ℕ). (r2, some x)) sum, p2)))
  where
    zeros : Gives (read_zeros 32 0 r) (length xs) (xs ++ rest)
    zeros =
        subst (λ (x : ℕ). Gives (read_zeros 32 0 r) x (xs ++ rest)) (zero-add (length xs))
          (read_zeros-Gives (length xs) 32 0 r (xs ++ rest) few p)

    sum : add64 (value xs) (sub64 (2 ^ length xs) 1) ≡ value xs + (2 ^ length xs - 1)
    sum = omega (
      arith,
      value-bound xs is,
      one-le-pow (length xs) 2,
      pow-le-pow_right {n = 2} (omega arith) few,
    )

signed_code :
    (v k b : ℕ)
    → b ≤ 1
    → v + 1 ≡ 2 * k + b
    → 1 ≤ k
    → v < 2 ^ 34
    → (if bit_and v 1 == 0 then sub64 0 v / 2 else add64 v 1 / 2)
      ≡ (if b == 0 then k else 2 ^ 63 - k)
signed_code v k b bit e pos small = ground (arith, bit_and-ones 1 v)

-- `ReadSE` of an odd code 2 * k - 1 gives k, but of an even one 2 * k it gives 2 ^ 63 - k, not the
-- pattern 2 ^ 64 - k of -k, since it divides an unsigned number. Here the code is 2 * k + b - 1.
pub read_se-value :
    (r : GolombReader) (xs rest : List ℕ) (k b : ℕ)
    → IsBits xs
    → length xs ≤ 32
    → pending r ≡ replicate (length xs) 0 ++ 1 ∷ (xs ++ rest)
    → b ≤ 1
    → value xs + 2 ^ length xs ≡ 2 * k + b
    → 1 ≤ k
    → Gives (read_se r) (if b == 0 then k else 2 ^ 63 - k) rest
unfolding read_se
read_se-value r xs rest k b is few p bit e pos =
    and_then-Gives (read_exponential_golomb_code r) _ (value xs + (2 ^ length xs - 1)) _ rest rest
      (read_exponential_golomb_code-value r xs rest is few p)
      (λ r' p'. (r', ap (λ (x : ℕ). (r', some x)) (signed_code _ k b bit code pos small), p'))
  where
    code : value xs + (2 ^ length xs - 1) + 1 ≡ 2 * k + b
    code = omega (arith, e, one-le-pow (length xs) 2)

    small : value xs + (2 ^ length xs - 1) < 2 ^ 34
    small = omega (arith, value-bound xs is, pow-le-pow_right {n = 2} (omega arith) few)
