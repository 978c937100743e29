-- ===== src/Pktque/Buf/Push.antt =====
-- `Push` of av/pktque/buf.go appends a packet, doubling the ring when it is full.
use mse.Common.{ℕ, suc, ◌*◌, ◌%◌, ◌^◌, ◌≤◌, ◌<◌, ◌≡◌, sym, ap, ◌∙◌, arith}
use mse.Common.{List, [], ◌∷◌, ◌++◌, some, length, true, false, ◌==◌, replicate}
use mse.Common.{length-replicate, set?-eq-set, ==_iff}
use mse.Av.{Packet, zero_packet}
use mse.Pktque.Buf.{Buf, grow_loop, grow, push}
use mse.Pktque.Buf.Positions.{pow_pos}
use mse.Pktque.Buf.Grow.{Copied, grow_loop-Copied}
use mse.Pktque.Buf.Refine.{
  IsValid, contents, byte_count, pushed, contents-pushed, pushed-IsValid, slot_lem, slot_in,
}
use native.Mathlib.Nat.{pow-suc, pow-le-pow_right}
use native.Mathlib.Decide.{dec_lt}

push_with_room :
    (b : Buf) (v : IsValid b) (x : Packet) (room : b.count < length b.pkts)
    → push b x ≡ some (pushed b v x room)
unfolding push
push_with_room b v x room =
    let spare : (b.count == length b.pkts) ≡ false = ground arith in
    rw (
      spare,
      slot_lem b v b.tail,
      set?-eq-set b.pkts (b.tail % length b.pkts) x (slot_in b v b.tail),
    )

-- A full ring of less than 2 ^ 61 slots grows to one with room, which shows the same packets.
record IsGrown (b b' : Buf) : Type 0 where
  same : contents b' ≡ contents b
  valid : IsValid b'
  room : b'.count < length b'.pkts

module _ (b : Buf) (v : IsValid b) (full : b.count ≡ length b.pkts) (small : v.exponent < 61) where
  blank : List Packet
  blank = replicate (length b.pkts * 2) zero_packet

  length-blank : length blank ≡ 2 ^ suc v.exponent
  unfolding blank
  length-blank =
      length-replicate (length b.pkts * 2) zero_packet
      ∙ omega (arith, v.slots, pow-suc 2 v.exponent)

  copy :
      Copied v.exponent b.head b.count b.pkts blank (grow_loop b.count b.head b.tail b.pkts blank)
  copy =
      grow_loop-Copied v.exponent b.pkts (omega arith) v.slots b.count b.count b.head b.tail blank
        v.head_word (omega arith) (omega (arith, v.slots)) v.tail_at length-blank

  abbrev grown : Buf
  grown = record b { pkts = copy.out }

  grow-eq : grow b ≡ some grown
  unfolding grow blank
  grow-eq = rw copy.returns

  length-grown : length copy.out ≡ 2 ^ suc v.exponent
  length-grown = copy.same_length ∙ length-blank

  contents-grown : contents grown ≡ contents b
  contents-grown = rw (length-grown, v.slots) copy.inside

  grown-IsGrown : IsGrown b grown
  grown-IsGrown = record {
    same = contents-grown;
    valid = record {
      exponent = suc v.exponent;
      slots = length-grown;
      small = omega arith;
      head_word = v.head_word;
      count_in = omega (arith, length-grown, v.slots, pow-suc 2 v.exponent);
      tail_at = v.tail_at;
      size_is = v.size_is ∙ ap (λ (ps : List Packet). byte_count ps % 2 ^ 64) (sym contents-grown);
    };
    room = omega (arith, length-grown, v.slots, pow-suc 2 v.exponent, pow_pos v.exponent);
  }

push_full :
    (b : Buf) (v : IsValid b) (x : Packet)
    → (full : b.count ≡ length b.pkts) → (small : v.exponent < 61)
    → push b x
      ≡ some (
          pushed
            (grown b v full small)
            (grown-IsGrown b v full small).valid
            x
            (grown-IsGrown b v full small).room)
unfolding push
push_full b v x full small =
    let g = grown-IsGrown b v full small in
    let none_left : (b.count == length b.pkts) ≡ true = (==_iff _ _).1 full in
    rw (
      none_left,
      grow-eq b v full small,
      slot_lem (grown b v full small) g.valid b.tail,
      set?-eq-set (copy b v full small).out (b.tail % length (copy b v full small).out) x
          (slot_in (grown b v full small) g.valid b.tail),
    )

exponent_below : (e n : ℕ) → n < 2 ^ 61 → 2 ^ e ≤ n → e < 61
exponent_below e n h p = elim (dec_lt e 61) [
  | yes q ↦ q
  | no q ↦
      absurd (omega (arith, pow-le-pow_right {n = 2} (omega arith) {i = 61} {j = e} (omega arith)))
]

-- A valid buffer of less than 2 ^ 61 packets takes one more behind the others, and stays valid.
pub push-contents :
    (b : Buf)
    → IsValid b
    → (x : Packet) → b.count < 2 ^ 61
    → (b' : Buf) × (push b x ≡ some b') × (contents b' ≡ contents b ++ x ∷ []) × IsValid b'
push-contents b v x h = elim (dec_lt b.count (length b.pkts)) [
  | yes room ↦ (
    pushed b v x room,
    push_with_room b v x room,
    contents-pushed b v x room,
    pushed-IsValid b v x room,
  )
  | no crowded ↦
      let full : b.count ≡ length b.pkts = omega (arith, v.count_in) in
      let small = exponent_below v.exponent b.count h (omega (arith, v.slots)) in
      let g = grown-IsGrown b v full small in
      (
        pushed (grown b v full small) g.valid x g.room,
        push_full b v x full small,
        contents-pushed (grown b v full small) g.valid x g.room
            ∙ ap (λ (ps : List Packet). ps ++ x ∷ []) g.same,
        pushed-IsValid (grown b v full small) g.valid x g.room,
      )
]
