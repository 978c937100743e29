-- ===== src/Pktque/Buf/Positions.antt =====
-- Positions of av/pktque/buf.go as 64-bit words: where they lie in the ring, and their order.
use mse.Common.{ℕ, ◌+◌, ◌-◌, ◌%◌, ◌^◌, ◌≤◌, ◌<◌, ◌≡◌, ap, ◌∙◌, true, false, arith}
use mse.Common.{List, length, lt→ltb, le→ltb_false}
use mse.Common.Bits.{bit_and-ones}
use mse.Common.Word.{IsWord}
use mse.Av.{Packet}
use mse.Pktque.Buf.{slot, pos_lt}
use mse.Pktque.Buf.Window.{mod_pow-mod}
use native.Mathlib.Nat.{mod-lt, one-le-pow, pow-le-pow_right}

pub word-mod : (k x : ℕ) → k ≤ 64 → x % 2 ^ 64 % 2 ^ k ≡ x % 2 ^ k
word-mod k x h =
    let e : 64 ≡ k + (64 - k) = omega arith in
    ap (λ (t : ℕ). x % 2 ^ t % 2 ^ k) e ∙ mod_pow-mod k (64 - k) x

-- The mask picks the position's remainder.
pub slot-eq-mod :
    (k pos : ℕ) (pkts : List Packet) → length pkts ≡ 2 ^ k → slot pos pkts ≡ pos % 2 ^ k
unfolding slot
slot-eq-mod k pos pkts e = rw e (bit_and-ones k pos)

-- Within half the range the order of positions is that of their distance.
pub pos_lt-add : (p n : ℕ) → IsWord p → 0 < n → n ≤ 2 ^ 63 → pos_lt p ((p + n) % 2 ^ 64) ≡ true
pos_lt-add p n hp lo hi = lt→ltb _ _ (omega arith)

pub pos_lt-sub : (p n : ℕ) → IsWord p → n < 2 ^ 63 → pos_lt ((p + n) % 2 ^ 64) p ≡ false
pos_lt-sub p n hp hi = le→ltb_false _ _ (omega arith)

pub pow_pos : (k : ℕ) → 0 < 2 ^ k
pow_pos k = one-le-pow k 2 (omega arith)

pub mod_in_range : (k i : ℕ) (pkts : List Packet) → length pkts ≡ 2 ^ k → i % 2 ^ k < length pkts
mod_in_range k i pkts e = omega (arith, mod-lt i (pow_pos k))

pub pow_small : (k : ℕ) → k ≤ 61 → 2 ^ k ≤ 2 ^ 61
pow_small k h = pow-le-pow_right (omega arith) h
