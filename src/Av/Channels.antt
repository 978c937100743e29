-- ===== src/Av/Channels.antt =====
-- `ChannelLayout` of av/av.go: a bit for each speaker, in 16 bits, and the number of speakers.
use mse.Common.{
  ℕ, zero, suc, ◌+◌, ◌-◌, ◌*◌, ◌/◌, ◌%◌, ◌^◌, ◌≤◌, ◌<◌, ◌≡◌, refl, ap, ◌∙◌, arith, false, Option,
  none, some, ◌==◌, if◌then◌else◌, bit_and,
}
use native.Mathlib.Nat.{pow-suc}
use native.Mathlib.Decide.{ℕ_discrete}
use mse.Common.Bits.{and_step, bit_and-zero}

-- The loop of `Count`, which clears the lowest bit in each round; the fuel bounds its rounds.
unfoldable pub count_loop : ℕ → ℕ → ℕ → Option ℕ
count_loop zero n self = if self == 0 then some n else none
count_loop (suc fuel) n self =
    let more = count_loop fuel (n + 1) (bit_and (self - 1) self) in
    if self == 0 then some n else more

-- A layout has 16 bits, and each round clears one.
unfoldable pub channel_count : ℕ → Option ℕ
channel_count self = count_loop 16 0 self

-- the bits that are 1, of the lowest `w`
unfoldable pub ones : ℕ → ℕ → ℕ
ones zero x = 0
ones (suc w) x = x % 2 + ones w (x / 2)

and_self_below : (n y : ℕ) → y ≤ n → bit_and y y ≡ y
and_self_below zero zero h = bit_and-zero 0
and_self_below zero (suc y) h = absurd (omega arith)
and_self_below (suc n) zero h = bit_and-zero 0
and_self_below (suc n) (suc y) h =
    omega (arith, and_step (suc y) (suc y), and_self_below n (suc y / 2) (omega arith))

and_le_below : (n a b : ℕ) → b ≤ n → bit_and a b ≤ b
and_le_below n a zero h = omega (arith, bit_and-zero a)
and_le_below zero a (suc b) h = absurd (omega arith)
and_le_below (suc n) a (suc b) h =
    omega (arith, and_step a (suc b), and_le_below n (a / 2) (suc b / 2) (omega arith))

-- Clearing the lowest bit that is 1 leaves one bit less.
ones-cleared : (w x : ℕ) → 0 < x → x < 2 ^ w → ones w (bit_and (x - 1) x) + 1 ≡ ones w x
unfolding ones
ones-cleared zero x pos small = absurd (omega arith)
ones-cleared (suc w) x pos small = elim (ℕ_discrete (x % 2) 1) [
  | yes odd ↦
      let same : bit_and ((x - 1) / 2) (x / 2) ≡ x / 2 =
        ap (λ (y : ℕ). bit_and y (x / 2)) (omega arith)
        ∙ and_self_below (x / 2) (x / 2) (omega arith) in
      let cleared : bit_and (x - 1) x ≡ x / 2 * 2 = omega (arith, and_step (x - 1) x, same) in
      let halved : bit_and (x - 1) x / 2 ≡ x / 2 = omega (arith, cleared) in
      omega (arith, cleared, ap (ones w) halved)
  | no even ↦
      let less : bit_and ((x - 1) / 2) (x / 2) ≡ bit_and (x / 2 - 1) (x / 2) =
        ap (λ (y : ℕ). bit_and y (x / 2)) (omega arith) in
      let cleared : bit_and (x - 1) x ≡ bit_and (x / 2 - 1) (x / 2) * 2 =
        omega (arith, and_step (x - 1) x, less) in
      let halved : bit_and (x - 1) x / 2 ≡ bit_and (x / 2 - 1) (x / 2) = omega (arith, cleared) in
      omega (
        arith,
        cleared,
        ap (ones w) halved,
        ones-cleared w (x / 2) (omega arith) (omega (arith, pow-suc 2 w)),
      )
]

ones-zero : (w x : ℕ) → x < 2 ^ w → ones w x ≡ 0 → x ≡ 0
unfolding ones
ones-zero zero x small e = omega arith
ones-zero (suc w) x small e =
    omega (arith, ones-zero w (x / 2) (omega (arith, pow-suc 2 w)) (omega (arith, e)))

ones-zero_self : (w : ℕ) → ones w 0 ≡ 0
unfolding ones
ones-zero_self zero = refl
ones-zero_self (suc w) = omega (arith, ones-zero_self w)

ones-bound : (w x : ℕ) → ones w x ≤ w
unfolding ones
ones-bound zero x = omega arith
ones-bound (suc w) x = omega (arith, ones-bound w (x / 2))

count_loop-ones :
    (fuel n w x : ℕ) → x < 2 ^ w → ones w x ≤ fuel → count_loop fuel n x ≡ some (n + ones w x)
unfolding count_loop
count_loop-ones zero n w zero small few = ap some (omega (arith, few))
count_loop-ones (suc fuel) n w zero small few = ap some (omega (arith, ones-zero_self w))
count_loop-ones zero n w (suc x) small few =
    absurd (omega (arith, ones-zero w (suc x) small (omega (arith, few))))
count_loop-ones (suc fuel) n w (suc x) small few =
    let one_less = ones-cleared w (suc x) (omega arith) small in
    let below = and_le_below (suc x) x (suc x) (omega arith) in
    rw (not_zero x, pred x)
      (count_loop-ones fuel (n + 1) w (bit_and x (suc x)) (omega (arith, below, small))
          (omega (arith, ap (λ (y : ℕ). ones w (bit_and y (suc x))) (pred x), one_less, few))
        ∙ ap some (omega (arith, ap (λ (y : ℕ). ones w (bit_and y (suc x))) (pred x), one_less)))
  where
    pred : (x : ℕ) → suc x - 1 ≡ x
    pred x = omega arith

    not_zero : (x : ℕ) → (suc x == 0) ≡ false
    not_zero x = ground arith

-- `Count` ends, and gives the number of the bits that are 1.
pub channel_count-ones : (self : ℕ) → self < 2 ^ 16 → channel_count self ≡ some (ones 16 self)
unfolding channel_count
channel_count-ones self small =
    count_loop-ones 16 0 16 self small (ones-bound 16 self) ∙ ap some (omega arith)
