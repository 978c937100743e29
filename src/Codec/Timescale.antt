-- ===== src/Codec/Timescale.antt =====
-- format/fmp4/timescale/timescale.go: times in the units of a track. A `time.Duration` is a 64-bit
-- pattern of nanoseconds.
use mse.Common.{
  ℕ, ◌+◌, ◌-◌, ◌*◌, ◌/◌, ◌%◌, ◌^◌, ◌≤◌, ◌<◌, ◌≡◌, refl, ap, ◌∙◌, arith, Bool, true, false, not,
}
use mse.Common.{Option, none, some, ◌==◌, leb, if◌then◌else◌, bit_and, Bool-cases, inl, inr}
use native.Mathlib.Nat.{add-mul}
use mse.Common.Bits.{bit_and-ones}
use mse.Common.Word.{word, half_word, add64, is_neg, slt, negate, signed_div}

-- `time.Second`
abbrev pub second : ℕ
second = 1_000_000_000

-- `Mul64` gives the product in two words; `Div64` panics if the quotient needs more than one.
unfoldable pub to_scale : ℕ → ℕ → Option ℕ
to_scale t scale =
    let product = t * scale in
    let dts = product / second in
    let rem = product % second in
    if leb second (product / word)
    then none
    else some (if leb (second / 2) rem then add64 dts 1 else dts)

-- `x >> 1` of a signed number
unfoldable pub half : ℕ → ℕ
half x = x / 2 + (if is_neg x then half_word else 0)

-- the half of the quotient: an odd one of a time after 0 is raised first, and an even one of another
unfoldable pub round_half : Bool → ℕ → ℕ
round_half after rel =
    let odd = not (bit_and rel 1 == 0) in
    let up = if odd then after else not after in half (if up then add64 rel 1 else rel)

unfoldable pub relative : ℕ → ℕ → ℕ
relative t scale = round_half (slt 0 t) (signed_div (t * scale % word) (second / 2)) % 2 ^ 32

-- the quotient by a second, rounded to the nearest, halves up
abbrev pub IsNearest : ℕ → ℕ → Type 0
IsNearest p r = (r * second ≤ p + second / 2) × (p + second / 2 < r * second + second)

nearest :
    (p : ℕ)
    → (r : ℕ) × (r ≡ (if leb (second / 2) (p % second) then p / second + 1 else p / second))
      × IsNearest p r
nearest p = elim (Bool-cases (leb (second / 2) (p % second))) [
  | inl e ↦ (p / second + 1, rw e, (ground (arith, e), ground (arith, e)))
  | inr e ↦ (p / second, rw e, (ground (arith, e), ground (arith, e)))
]

-- `ToScale` rounds to the nearest unit, halves up, where the product is below 2 ^ 64 - 1 seconds.
pub to_scale-IsNearest :
    (t scale : ℕ)
    → t * scale < second * (word - 1)
    → (r : ℕ) × (to_scale t scale ≡ some r) × IsNearest (t * scale) r
unfolding to_scale
to_scale-IsNearest t scale small =
    let (r, e, near) = nearest (t * scale) in (r, scaled (t * scale) r small e, near)
  where
    scaled :
        (p r : ℕ)
        → p < second * (word - 1)
        → r ≡ (if leb (second / 2) (p % second) then p / second + 1 else p / second)
        → (if leb second (p / word)
            then none
            else some (if leb (second / 2) (p % second) then add64 (p / second) 1 else p / second))
          ≡ some r
    scaled p r small e = ground arith

round_half_later : (q : ℕ) → q + 1 < half_word → round_half true q ≡ (q + 1) / 2
unfolding round_half half
round_half_later q small = ground (arith, bit_and-ones 1 q)

relative_later :
    (t scale : ℕ)
    → 0 < t
    → t < half_word
    → t * scale < half_word
    → relative t scale ≡ (t * scale / (second / 2) + 1) / 2 % 2 ^ 32
unfolding relative
relative_later t scale pos small room =
    rw
      (
        is_after,
        later (t * scale) room,
        round_half_later (t * scale / (second / 2)) (omega (arith, room)),
      )
      refl
  where
    is_after : slt 0 t ≡ true
    is_after = ground arith

    later : (p : ℕ) → p < half_word → signed_div (p % word) (second / 2) ≡ p / (second / 2)
    later p room = unfold signed_div in ground arith

-- The quotient of a negative time, as a pattern.
round_half_earlier :
    (q : ℕ) → q + 1 < half_word → round_half false (negate q) ≡ negate ((q + 1) / 2)
unfolding round_half half
round_half_earlier q small = ground (arith, bit_and-ones 1 (negate q))

relative_earlier :
    (t scale : ℕ)
    → 0 < t
    → t < half_word
    → t * scale < half_word
    → relative (negate t) scale ≡ negate ((t * scale / (second / 2) + 1) / 2) % 2 ^ 32
unfolding relative
relative_earlier t scale pos small room =
    rw
      (
        not_after,
        product (negate t) t scale (omega arith) room,
        earlier (t * scale) room,
        round_half_earlier (t * scale / (second / 2)) (omega (arith, room)),
      )
      refl
  where
    not_after : slt 0 (negate t) ≡ false
    not_after = ground arith

    product :
        (m t scale : ℕ)
        → m + t ≡ word
        → t * scale < half_word
        → m * scale % word ≡ negate (t * scale)
    product m t scale e room = omega (arith, add-mul m t scale, ap (λ (x : ℕ). x * scale) e, room)

    earlier :
        (p : ℕ) → p < half_word → signed_div (negate p) (second / 2) ≡ negate (p / (second / 2))
    earlier p room = unfold signed_div in ground arith

-- For times after 0 `Relative` and `ToScale` agree where the product is below 2 ^ 31 - 1 seconds,
-- and `Relative` gives a time before 0 the negative of what it gives the time after 0.
pub relative-to_scale :
    (t scale : ℕ)
    → 0 < t
    → t < half_word
    → t * scale < second * (2 ^ 31 - 1)
    → (to_scale t scale ≡ some (relative t scale))
      × (relative (negate t) scale ≡ (2 ^ 32 - relative t scale) % 2 ^ 32)
relative-to_scale t scale pos small room =
    rw
      (
        relative_later t scale pos small (omega (arith, room)),
        relative_earlier t scale pos small (omega (arith, room)),
      )
      (same t scale room, negative _ (omega (arith, room)))
  where
    rounded :
        (p r : ℕ)
        → p < second * (2 ^ 31 - 1)
        → IsNearest p r
        → r ≡ (p / (second / 2) + 1) / 2 % 2 ^ 32
    rounded p r room near = omega (arith, near.0, near.1)

    same :
        (t scale : ℕ)
        → t * scale < second * (2 ^ 31 - 1)
        → to_scale t scale ≡ some ((t * scale / (second / 2) + 1) / 2 % 2 ^ 32)
    same t scale room =
        let (r, e, near) = to_scale-IsNearest t scale (omega (arith, room)) in
        e ∙ ap some (rounded (t * scale) r room near)

    negative : (n : ℕ) → n < 2 ^ 32 → negate n % 2 ^ 32 ≡ (2 ^ 32 - n % 2 ^ 32) % 2 ^ 32
    negative n small = omega arith
