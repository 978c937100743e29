-- ===== src/Flv/Amf0/Date/RoundTrip.antt =====
-- A date of whole milliseconds comes back from its float.
use mse.Common.{
  ℕ, ◌+◌, ◌-◌, ◌*◌, ◌/◌, ◌%◌, ◌^◌, ◌≤◌, ◌<◌, ◌≡◌, ap, ap₂, ◌∙◌, arith, refl, Bool, true, false, inl,
  inr,
}
use mse.Common.{ltb, leb, ◌==◌, ◌&&◌, ◌||◌, Bool-cases}
use mse.Common.Word.{signed_div, is_neg}
use mse.Flv.Amf0.Date.{
  top_bit, float_of_nat, float_of_int, exponent, mantissa, int_of_float, nearest_even, div_1000,
  seconds, time_of_float, float_of_time,
}

-- the float of a number with its highest bit at 40
abbrev float : ℕ → ℕ
float t = 1063 * 2 ^ 52 + (t * 2 ^ 12 - 2 ^ 52)

-- Dates of whole milliseconds from 2 ^ 40 ms (November 2004) up to 2 ^ 41 ms (September 2039), where
-- the float has the exponent 40.
module _ (t : ℕ) (low : 2 ^ 40 ≤ t) (high : t < 2 ^ 41) where
  top_bit-eq : top_bit 43 t ≡ 40
  unfolding top_bit
  top_bit-eq =
      let e43 : leb (2 ^ 43) t ≡ false = ground arith in
      let e42 : leb (2 ^ 42) t ≡ false = ground arith in
      let e41 : leb (2 ^ 41) t ≡ false = ground arith in
      let e40 : leb (2 ^ 40) t ≡ true = ground arith in rw (e43, e42, e41, e40) refl

  float-eq : float_of_int t ≡ float t
  unfolding float_of_int float_of_nat
  float-eq =
      let e : is_neg t ≡ false = ground arith in
      let z : (t == 0) ≡ false = ground arith in rw (e, z, top_bit-eq) refl

  exponent-eq : exponent (float t) ≡ 1063
  unfolding exponent
  exponent-eq = omega arith

  mantissa-eq : mantissa (float t) ≡ t * 2 ^ 12
  unfolding mantissa
  mantissa-eq = omega arith

  int-eq : int_of_float (float t) ≡ t
  unfolding int_of_float
  int-eq =
      let e : leb (2 ^ 63) (float t) ≡ false = ground arith in
      rw (exponent-eq, mantissa-eq, e) (omega arith)

is_up : ℕ → Bool
is_up n = ltb 1000 (2 * (n % 1000)) || ((2 * (n % 1000) == 1000) && (n / 1000 % 2 == 1))

nearest_even-bounds :
    (n : ℕ) → (n / 1000 ≤ nearest_even n 1000) × (nearest_even n 1000 * 1000 ≤ n + 500)
unfolding nearest_even is_up
nearest_even-bounds n = elim (Bool-cases (is_up n)) [
  | inl up ↦ rw up (omega arith, ground (arith, up))
  | inr down ↦ rw down (omega arith, omega arith)
]

-- The quotient rounds to a float whose whole part is the quotient of whole numbers.
quotient_9-eq :
    (q : ℕ) → 2 ^ 52 ≤ q → q < 2 ^ 53 → int_of_float (1054 * 2 ^ 52 + (q - 2 ^ 52)) ≡ q / 2 ^ 21
unfolding int_of_float exponent mantissa
quotient_9-eq q lower upper =
    let e : (1054 * 2 ^ 52 + (q - 2 ^ 52)) / 2 ^ 52 % 2 ^ 11 ≡ 1054 = omega arith in
    let m : 2 ^ 52 + (1054 * 2 ^ 52 + (q - 2 ^ 52)) % 2 ^ 52 ≡ q = omega arith in
    let z : leb (2 ^ 63) (1054 * 2 ^ 52 + (q - 2 ^ 52)) ≡ false = ground arith in rw (e, m, z) refl

quotient_10-eq :
    (q : ℕ) → 2 ^ 52 ≤ q → q < 2 ^ 53 → int_of_float (1053 * 2 ^ 52 + (q - 2 ^ 52)) ≡ q / 2 ^ 22
unfolding int_of_float exponent mantissa
quotient_10-eq q lower upper =
    let e : (1053 * 2 ^ 52 + (q - 2 ^ 52)) / 2 ^ 52 % 2 ^ 11 ≡ 1053 = omega arith in
    let m : 2 ^ 52 + (1053 * 2 ^ 52 + (q - 2 ^ 52)) % 2 ^ 52 ≡ q = omega arith in
    let z : leb (2 ^ 63) (1053 * 2 ^ 52 + (q - 2 ^ 52)) ≡ false = ground arith in rw (e, m, z) refl

module _ (t : ℕ) (low : 2 ^ 40 ≤ t) (high : t < 2 ^ 41) where
  sign-eq : float t / 2 ^ 63 * 2 ^ 63 ≡ 0
  sign-eq = omega arith

  seconds-eq : seconds (float t) ≡ t / 1000
  unfolding seconds div_1000
  seconds-eq = elim (Bool-cases (leb (2 ^ 53 * 1000) (t * 2 ^ 12 * 2 ^ 10))) [
    | inl big ↦
        let many : 2 ^ 53 * 1000 ≤ t * 2 ^ 12 * 2 ^ 10 = ground (arith, big) in
        let (lower, upper) = nearest_even-bounds (t * 2 ^ 12 * 2 ^ 9) in
        rw (exponent-eq t low high, mantissa-eq t low high, big, sign-eq)
          (ap int_of_float (omega arith)
            ∙ quotient_9-eq (nearest_even (t * 2 ^ 12 * 2 ^ 9) 1000) (omega arith) (omega arith)
            ∙ omega arith)
    | inr less ↦
        let few : t * 2 ^ 12 * 2 ^ 10 < 2 ^ 53 * 1000 = ground (arith, less) in
        let (lower, upper) = nearest_even-bounds (t * 2 ^ 12 * 2 ^ 10) in
        rw (exponent-eq t low high, mantissa-eq t low high, less, sign-eq)
          (ap int_of_float (omega arith)
            ∙ quotient_10-eq (nearest_even (t * 2 ^ 12 * 2 ^ 10) 1000) (omega arith) (omega arith)
            ∙ omega arith)
  ]

  time_of_float-eq : time_of_float (float t) ≡ (t / 1000, t % 1000 * 1_000_000)
  unfolding time_of_float
  time_of_float-eq =
      let e : is_neg t ≡ false = ground arith in rw (int-eq t low high, seconds-eq, e) refl

-- A date that comes back is one of whole milliseconds, from 2 ^ 40 ms, in November 2004, up to
-- 2 ^ 41 ms, in September 2039.
abbrev pub DateFits : ℕ → ℕ → Type 0
DateFits sec nsec =
    (nsec < 1_000_000_000)
    × (nsec % 1_000_000 ≡ 0)
    × (2 ^ 40 ≤ sec * 1000 + nsec / 1_000_000)
    × (sec * 1000 + nsec / 1_000_000 < 2 ^ 41)

module _ (sec nsec : ℕ) (fits : DateFits sec nsec) where
  abbrev ms : ℕ
  ms = sec * 1000 + nsec / 1_000_000

  float_of_time-eq : float_of_time sec nsec ≡ float ms
  unfolding float_of_time signed_div
  float_of_time-eq =
      let (short, whole, low, high) = fits in
      let e : (sec * 1_000_000_000 + nsec) % 2 ^ 64 ≡ sec * 1_000_000_000 + nsec = omega arith in
      let d : (sec * 1_000_000_000 + nsec) / 1_000_000 ≡ ms = omega arith in
      let n : is_neg (sec * 1_000_000_000 + nsec) ≡ false = ground arith in
      rw (e, n, d) (float-eq ms low high)

  pub float_of_time-bound : float_of_time sec nsec < 2 ^ 64
  float_of_time-bound = let (short, whole, low, high) = fits in rw float_of_time-eq (omega arith)

  pub time_of_float-float_of_time : time_of_float (float_of_time sec nsec) ≡ (sec, nsec)
  time_of_float-float_of_time =
      let (short, whole, low, high) = fits in
      rw float_of_time-eq
        (time_of_float-eq ms low high ∙ ap₂ (λ (a b : ℕ). (a, b)) (omega arith) (omega arith))
