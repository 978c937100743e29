-- ===== src/Pubsub/Read.antt =====
-- What a reader of av/pubsub/queue.go is given.
use mse.Common.{ℕ, zero, suc, ◌+◌, ◌^◌, ◌≤◌, ◌<◌, ◌≡◌, refl, sym, ap, ◌∙◌, arith}
use mse.Common.{Bool, true, false, if◌then◌else◌, Bool-cases, inl, inr}
use mse.Common.{List, [], ◌∷◌, Option, none, some, length, get_or, drop}
use mse.Common.Maybe.{◌>>=◌}
use mse.Common.Word.{add64}
use mse.Av.{Packet, zero_packet}
use mse.Pktque.Buf.{is_valid_pos, pos_lt}
use mse.Pktque.Buf.Refine.{IsValid, contents, cap_small}
use mse.Pktque.Buf.Get.{is_valid_pos_iff, get-contents}
use mse.Pubsub.{Queue}
use mse.Pubsub.Cursor.{QueueCursor, Reading, packet, eof, wait, clamp_pos, read_round, read_packet}
use mse.Pubsub.Trim.{length-contents}

module _ (q : Queue) (v : IsValid q.buf) where
  count_small : q.buf.count ≤ 2 ^ 61
  count_small = omega (arith, v.count_in, cap_small q.buf v)

  -- A position from the head to the tail stays.
  clamp_inside :
      (j : ℕ) → j ≤ q.buf.count → clamp_pos q.buf (add64 q.buf.head j) ≡ add64 q.buf.head j
  unfolding clamp_pos
  clamp_inside j h = ground (arith, count_small, v.tail_at, v.head_word)

  -- A position whose packet was dropped moves to the oldest packet.
  pub clamp_behind : (pos : ℕ) → pos_lt pos q.buf.head ≡ true → clamp_pos q.buf pos ≡ q.buf.head
  unfolding clamp_pos
  clamp_behind pos h = rw h

  read_round_at :
      (c : QueueCursor) (j : ℕ)
      → j < q.buf.count
      → clamp_pos q.buf c.pos ≡ add64 q.buf.head j
      → read_round q c
        ≡ some (
            packet
              (get_or (contents q.buf) j zero_packet)
              (record c { pos = add64 q.buf.head (suc j) }))
  unfolding read_round
  read_round_at c j h e =
      let (valid, found) = get-contents q.buf v j h in
      let next : add64 (add64 q.buf.head j) 1 ≡ add64 q.buf.head (suc j) = omega arith in
      rw (e, valid, found, next)

  -- Nothing is left for a reader that stands at the tail.
  abbrev at_tail : QueueCursor → Reading
  at_tail c =
      if q.closed then eof (record c { pos = q.buf.tail }) else wait (record c { pos = q.buf.tail })

  tail_not_valid : is_valid_pos q.buf (add64 q.buf.head q.buf.count) ≡ false
  tail_not_valid = elim (Bool-cases (is_valid_pos q.buf (add64 q.buf.head q.buf.count))) [
    | inl valid ↦ absurd (
        omega (
          arith,
          (is_valid_pos_iff q.buf v (add64 q.buf.head q.buf.count) (omega arith)).0 valid,
          count_small,
          v.head_word,
        ))
    | inr e ↦ e
  ]

  read_round_end :
      (c : QueueCursor) → c.pos ≡ add64 q.buf.head q.buf.count → read_round q c ≡ some (at_tail c)
  unfolding read_round
  read_round_end c e =
      let here = clamp_inside q.buf.count (omega arith) in
      let tail : add64 q.buf.head q.buf.count ≡ q.buf.tail = sym v.tail_at in
      rw (e, here, tail_not_valid, tail)
        (elim (Bool-cases q.closed) [ inl e ↦ rw e | inr e ↦ rw e ])

  -- With its position a cursor only loops.
  read_packet_later : (c : QueueCursor) → c.gotpos ≡ true → read_packet q c ≡ read_round q c
  unfolding read_packet
  read_packet_later c e = rw e

  -- A reader whose next packet is buffered gets that packet, and moves on by one.
  pub read_packet_at :
      (c : QueueCursor) (j : ℕ)
      → c.gotpos ≡ true
      → c.pos ≡ add64 q.buf.head j
      → j < q.buf.count
      → read_packet q c
        ≡ some (
            packet
              (get_or (contents q.buf) j zero_packet)
              (record c { pos = add64 q.buf.head (suc j) }))
  read_packet_at c j got e h =
      read_packet_later c got
      ∙ read_round_at c j h (ap (clamp_pos q.buf) e ∙ clamp_inside j (omega arith))

  -- A reader that fell behind, so that its next packet was dropped, goes on with the oldest packet
  -- that is buffered.
  pub read_packet_behind :
      (c : QueueCursor)
      → c.gotpos ≡ true
      → pos_lt c.pos q.buf.head ≡ true
      → 0 < q.buf.count
      → read_packet q c
        ≡ some
            (packet (get_or (contents q.buf) 0 zero_packet) (record c { pos = add64 q.buf.head 1 }))
  read_packet_behind c got behind h =
      let head : q.buf.head ≡ add64 q.buf.head 0 = omega (arith, v.head_word) in
      read_packet_later c got ∙ read_round_at c 0 h (clamp_behind c.pos behind ∙ head)

-- Reads until one waits or meets the end: the packets, and what stopped it.
pub drain : ℕ → Queue → QueueCursor → Option (List Packet × Reading)
drain zero q c = none
drain (suc fuel) q c = elim (read_packet q c) [
  | none ↦ none
  | some (packet p c') ↦ (do (ps, end) ← drain fuel q c'; some (p ∷ ps, end))
  | some (eof c') ↦ some ([], eof c')
  | some (wait c') ↦ some ([], wait c')
]

drop_step :
    (ps : List Packet) (j : ℕ)
    → j < length ps
    → drop j ps ≡ get_or ps j zero_packet ∷ drop (suc j) ps
drop_step [] j h = absurd (omega arith)
drop_step (p ∷ ps) zero h = refl
drop_step (p ∷ ps) (suc j) h = drop_step ps j (omega arith)

drop_all : (ps : List Packet) → drop (length ps) ps ≡ []
drop_all [] = refl
drop_all (p ∷ ps) = drop_all ps

drain_end :
    (fuel : ℕ) (q : Queue) (c : QueueCursor) (b : Bool) (cw ce : QueueCursor)
    → read_packet q c ≡ some (if b then eof ce else wait cw)
    → drain (suc fuel) q c ≡ some ([], if b then eof ce else wait cw)
unfolding drain
drain_end fuel q c true cw ce e = rw (e, drain)
drain_end fuel q c false cw ce e = rw (e, drain)

drain_packet :
    (fuel : ℕ) (q : Queue) (c c' : QueueCursor) (p : Packet) (ps : List Packet) (end : Reading)
    → read_packet q c ≡ some (packet p c')
    → drain fuel q c' ≡ some (ps, end)
    → drain (suc fuel) q c ≡ some (p ∷ ps, end)
unfolding drain
drain_packet fuel q c c' p ps end e later = rw (e, drain) (rw later)

-- A reader at the `j`-th buffered packet reads all from there on, in order and without a gap, and
-- then meets the end of a closed queue, or waits at the tail of an open one.
pub drain-contents :
    (q : Queue) (v : IsValid q.buf) (n j : ℕ) (c : QueueCursor)
    → c.gotpos ≡ true
    → c.pos ≡ add64 q.buf.head j
    → j + n ≡ q.buf.count
    → drain (suc n) q c ≡ some (drop j (contents q.buf), at_tail q v c)
drain-contents q v zero j c got e h =
    let last : j ≡ q.buf.count = omega arith in
    let stop : read_packet q c ≡ some (at_tail q v c) =
      read_packet_later q v c got ∙ read_round_end q v c (e ∙ ap (add64 q.buf.head) last) in
    let size : j ≡ length (contents q.buf) = last ∙ sym (length-contents q.buf) in
    drain_end 0 q c q.closed _ _ stop
    ∙ ap (λ (ps : List Packet). some (ps, at_tail q v c))
        (sym (ap (λ (k : ℕ). drop k (contents q.buf)) size ∙ drop_all (contents q.buf)))
drain-contents q v (suc n) j c got e h =
    let next : QueueCursor = record c { pos = add64 q.buf.head (suc j) } in
    let later = drain-contents q v n (suc j) next got refl (omega arith) in
    let inside : j < length (contents q.buf) = omega (arith, length-contents q.buf) in
    rw (drop_step (contents q.buf) j inside)
      (drain_packet (suc n) q c next _ _ _ (read_packet_at q v c j got e (omega arith)) later)
