-- ===== src/Pktque/Buf/Get.antt =====
-- `Get` and `IsValidPos` of av/pktque/buf.go: the packets by position.
use mse.Common.{ℕ, ◌+◌, ◌%◌, ◌^◌, ◌<◌, ◌≡◌, ◌↔◌, sym, ap, arith}
use mse.Common.{some, length, get_or, true}
use mse.Common.{get_elem?-eq-get_or}
use mse.Common.Word.{add64, sub64, IsWord}
use mse.Av.{zero_packet}
use mse.Pktque.Buf.{Buf, is_valid_pos, get}
use mse.Pktque.Buf.Refine.{IsValid, contents, slot_lem, slot_in, wrap_mod, cap_small}
use mse.Pktque.Buf.Window.{get_or-window}

-- A position is valid exactly when its distance from the head is below the count.
pub is_valid_pos_iff :
    (b : Buf)
    → IsValid b
    → (pos : ℕ) → IsWord pos
    → (is_valid_pos b pos ≡ true) ↔ (sub64 pos b.head < b.count)
unfolding is_valid_pos
is_valid_pos_iff b v pos h =
    let small : b.count < 2 ^ 62 = omega (arith, v.count_in, cap_small b v) in
    let hw = v.head_word in let tl = v.tail_at in (λ e. ground arith, λ e. ground arith)

-- The packet at the `j`-th position from the head is the `j`-th that the buffer holds.
pub get-contents :
    (b : Buf)
    → IsValid b
    → (j : ℕ) → j < b.count
    → (is_valid_pos b (add64 b.head j) ≡ true)
      × (get b (add64 b.head j) ≡ some (get_or (contents b) j zero_packet))
unfolding get
get-contents b v j h =
    let small = cap_small b v in
    let inside : sub64 (add64 b.head j) b.head < b.count = omega (arith, v.count_in, v.head_word) in
    let place : get_or b.pkts ((b.head + j) % length b.pkts) zero_packet
        ≡ get_or (contents b) j zero_packet =
      sym (get_or-window zero_packet (length b.pkts) b.pkts b.head b.count j h) in
    (
      (is_valid_pos_iff b v (add64 b.head j) (omega arith)).1 inside,
      rw
          (
            slot_lem b v (add64 b.head j),
            wrap_mod b v (b.head + j),
            get_elem?-eq-get_or b.pkts ((b.head + j) % length b.pkts) zero_packet
                (slot_in b v (b.head + j)),
          )
          (ap some place),
    )
