-- ===== src/Pio/Join.antt =====
-- `i <<= 8; i |= x` as arithmetic: the shift drops the top byte of the type.
use mse.Common.{ℕ, ◌+◌, ◌*◌, ◌/◌, ◌%◌, ◌^◌, ◌<◌, ◌≡◌, ◌∙◌, ap, bit_or, arith}
use mse.Common.Bits.{bit_or-shifted}
use mse.Pio.{join}

join_shifted :
    (w i j x : ℕ) → i * 2 ^ 8 % 2 ^ w ≡ j * 2 ^ 8 → x < 2 ^ 8 → join w i x ≡ j * 2 ^ 8 + x
unfolding join
join_shifted w i j x e h = ap (λ (t : ℕ). bit_or t x) e ∙ bit_or-shifted 8 j x h

pub join16_lem : (i x : ℕ) → x < 2 ^ 8 → join 16 i x ≡ i % 2 ^ 8 * 2 ^ 8 + x
join16_lem i x h = join_shifted 16 i (i % 2 ^ 8) x (omega arith) h

pub join32_lem : (i x : ℕ) → x < 2 ^ 8 → join 32 i x ≡ i % 2 ^ 24 * 2 ^ 8 + x
join32_lem i x h = join_shifted 32 i (i % 2 ^ 24) x (omega arith) h

pub join64_lem : (i x : ℕ) → x < 2 ^ 8 → join 64 i x ≡ i % 2 ^ 56 * 2 ^ 8 + x
join64_lem i x h = join_shifted 64 i (i % 2 ^ 56) x (omega arith) h

pub ruleset join_laws = (arith, join16_lem, join32_lem, join64_lem)
