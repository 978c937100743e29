-- ===== src/Pktque/Buf/Refine.antt =====
-- av/pktque/buf.go behaves as a queue: the packets between head and tail, oldest first.
use mse.Common.{ℕ, suc, ◌+◌, ◌-◌, ◌%◌, ◌^◌, ◌≤◌, ◌<◌, ◌≡◌, refl, sym, ap, ◌∙◌, arith}
use mse.Common.{List, [], ◌∷◌, ◌++◌, some, length, set, false, ◌==◌}
use mse.Common.{length-set, get_elem?-eq-get_or, set?-eq-set}
use mse.Common.Word.{add64, sub64, IsWord}
use mse.Av.{Packet, zero_packet}
use mse.Pktque.Buf.{Buf, new_buf, slot, pop}
use mse.Pktque.Buf.Positions.{word-mod, slot-eq-mod, pow_small, pow_pos}
use mse.Pktque.Buf.Window.{
  window, window-congr, window_of_pos, window-set_first, window-set_last, length-window,
}
use mse.Pktque.Buf.Grow.{cell}

unfoldable pub byte_count : List Packet → ℕ
byte_count [] = 0
byte_count (p ∷ ps) = length p.bytes + byte_count ps

abbrev pub contents : Buf → List Packet
contents b = window zero_packet (length b.pkts) b.pkts b.head b.count

-- The ring has 2 ^ `exponent` slots, holds no more packets than that, and `size` counts their bytes.
pub record IsValid (b : Buf) : Type 0 where
  pub exponent : ℕ
  pub slots : length b.pkts ≡ 2 ^ exponent
  pub small : exponent ≤ 61
  pub head_word : IsWord b.head
  pub count_in : b.count ≤ length b.pkts
  pub tail_at : b.tail ≡ (b.head + b.count) % 2 ^ 64
  pub size_is : b.size ≡ byte_count (contents b) % 2 ^ 64

pub new_buf-IsValid : IsValid new_buf × (contents new_buf ≡ [])
unfolding new_buf byte_count
new_buf-IsValid = (
  record {
    exponent = 6;
    slots = refl;
    small = omega arith;
    head_word = omega arith;
    count_in = omega arith;
    tail_at = refl;
    size_is = refl;
  },
  refl,
)

byte_count-append : (ps qs : List Packet) → byte_count (ps ++ qs) ≡ byte_count ps + byte_count qs
unfolding byte_count
byte_count-append [] qs = omega arith
byte_count-append (p ∷ ps) qs = omega (arith, byte_count-append ps qs)

module _ (b : Buf) (v : IsValid b) where
  pub cap_pos : 0 < length b.pkts
  cap_pos = rw v.slots (pow_pos v.exponent)

  pub cap_small : length b.pkts ≤ 2 ^ 61
  cap_small = rw v.slots (pow_small v.exponent v.small)

  pub slot_lem : (pos : ℕ) → slot pos b.pkts ≡ pos % length b.pkts
  slot_lem pos = slot-eq-mod v.exponent pos b.pkts v.slots ∙ ap (λ (t : ℕ). pos % t) (sym v.slots)

  pub wrap_mod : (x : ℕ) → x % 2 ^ 64 % length b.pkts ≡ x % length b.pkts
  wrap_mod x = rw v.slots (word-mod v.exponent x (omega (arith, v.small)))

  pub slot_in : (pos : ℕ) → pos % length b.pkts < length b.pkts
  slot_in pos = omega (arith, cap_pos)

  -- What a pop returns and leaves.
  abbrev popped : Buf
  popped = record b {
    pkts = set b.pkts (b.head % length b.pkts) zero_packet;
    size = sub64 b.size (length (cell b.pkts (b.head % length b.pkts)).bytes);
    head = add64 b.head 1;
    count = sub64 b.count 1;
  }

  pop-eq : 0 < b.count → pop b ≡ some (cell b.pkts (b.head % length b.pkts), popped)
  unfolding pop
  pop-eq h =
      let busy : (b.count == 0) ≡ false = ground arith in
      rw (
        busy,
        slot_lem b.head,
        get_elem?-eq-get_or b.pkts (b.head % length b.pkts) zero_packet (slot_in b.head),
        set?-eq-set b.pkts (b.head % length b.pkts) zero_packet (slot_in b.head),
      )

  count_less : 0 < b.count → sub64 b.count 1 ≡ b.count - 1
  count_less h = omega (arith, v.count_in, cap_small)

  contents-popped_rest :
      0 < b.count
      → contents popped ≡ window zero_packet (length b.pkts) b.pkts (b.head + 1) (b.count - 1)
  contents-popped_rest h =
      rw (length-set b.pkts (b.head % length b.pkts) zero_packet, count_less h)
        (window-congr zero_packet (length b.pkts) _ (add64 b.head 1) (b.head + 1) (b.count - 1)
            (wrap_mod (b.head + 1))
          ∙ window-set_first zero_packet (length b.pkts) b.pkts zero_packet b.head (b.count - 1)
              (omega (arith, v.count_in)))

  contents-popped :
      0 < b.count → contents b ≡ cell b.pkts (b.head % length b.pkts) ∷ contents popped
  contents-popped h =
      window_of_pos zero_packet (length b.pkts) b.pkts b.head b.count h
      ∙ ap (λ (ps : List Packet). cell b.pkts (b.head % length b.pkts) ∷ ps)
          (sym (contents-popped_rest h))

  popped-IsValid : 0 < b.count → IsValid popped
  unfolding byte_count
  popped-IsValid h = record {
    exponent = v.exponent;
    slots = length-set b.pkts _ _ ∙ v.slots;
    small = v.small;
    head_word = omega arith;
    count_in =
        rw (length-set b.pkts (b.head % length b.pkts) zero_packet)
          (omega (arith, v.count_in, cap_small));
    tail_at = omega (arith, v.count_in, cap_small, v.tail_at);
    size_is = omega (arith, v.size_is, bytes);
  }
    where
      bytes :
          byte_count (contents b)
          ≡ length (cell b.pkts (b.head % length b.pkts)).bytes + byte_count (contents popped)
      bytes = ap byte_count (contents-popped h)

-- A valid, non-empty buffer gives its oldest packet, keeps the others in order, and stays valid.
pub pop-contents :
    (b : Buf)
    → IsValid b
    → (p : Packet) (ps : List Packet) → contents b ≡ p ∷ ps
    → (b' : Buf) × (pop b ≡ some (p, b')) × (contents b' ≡ ps) × IsValid b'
pop-contents b v p ps e =
    let h : 0 < b.count =
      omega (arith, length-window zero_packet (length b.pkts) b.pkts b.head b.count, ap length e) in
    let first : cell b.pkts (b.head % length b.pkts) ≡ p = cc (e, contents-popped b v h) in
    let rest : contents (popped b v) ≡ ps = cc (e, contents-popped b v h) in
    (
      popped b v,
      pop-eq b v h ∙ ap (λ (q : Packet). some (q, popped b v)) first,
      rest,
      popped-IsValid b v h,
    )

module _ (b : Buf) (v : IsValid b) (x : Packet) (room : b.count < length b.pkts) where
  abbrev pub pushed : Buf
  pushed = record b {
    pkts = set b.pkts (b.tail % length b.pkts) x;
    tail = add64 b.tail 1;
    count = add64 b.count 1;
    size = add64 b.size (length x.bytes);
  }

  count_more : add64 b.count 1 ≡ suc b.count
  count_more = omega (arith, v.count_in, cap_small b v)

  tail_slot : b.tail % length b.pkts ≡ (b.head + b.count) % length b.pkts
  tail_slot = ap (λ (t : ℕ). t % length b.pkts) v.tail_at ∙ wrap_mod b v (b.head + b.count)

  pub contents-pushed : contents pushed ≡ contents b ++ x ∷ []
  contents-pushed =
      rw (length-set b.pkts (b.tail % length b.pkts) x, count_more)
        (window-set_last zero_packet (length b.pkts) b.pkts x b.head b.count _ (omega arith) room
          tail_slot)

  pub pushed-IsValid : IsValid pushed
  unfolding byte_count
  pushed-IsValid = record {
    exponent = v.exponent;
    slots = length-set b.pkts _ _ ∙ v.slots;
    small = v.small;
    head_word = v.head_word;
    count_in = rw (length-set b.pkts (b.tail % length b.pkts) x) (omega (arith, count_more));
    tail_at = omega (arith, count_more, v.tail_at);
    size_is = omega (arith, v.size_is, bytes);
  }
    where
      bytes : byte_count (contents pushed) ≡ byte_count (contents b) + length x.bytes
      bytes = ap byte_count contents-pushed ∙ byte_count-append (contents b) (x ∷ []) ∙ omega arith
