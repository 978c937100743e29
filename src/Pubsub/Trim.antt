-- ===== src/Pubsub/Trim.antt =====
-- `WritePacket` of av/pubsub/queue.go against what it does to the list of buffered packets.
use mse.Common.{ℕ, zero, suc, ◌+◌, ◌^◌, ◌≤◌, ◌<◌, ◌≡◌, refl, sym, ap, ◌∙◌, arith}
use mse.Common.{Bool, true, false, not, ◌&&◌, leb, ltb, if◌then◌else◌, Bool-cases, inl, inr}
use mse.Common.{List, [], ◌∷◌, Option, some, length}
use mse.Common.Word.{sub64, slt}
use mse.Av.{Packet, zero_packet}
use mse.Pktque.Buf.{Buf, pop}
use mse.Pktque.Buf.Refine.{IsValid, contents, pop-contents}
use mse.Pktque.Buf.Window.{length-window}
use mse.Pubsub.{Queue, is_gop_start, shrink}

-- how many groups of pictures start among the packets
unfoldable pub gop_starts : ℕ → List Packet → ℕ
gop_starts videoidx [] = 0
gop_starts videoidx (p ∷ ps) = (if is_gop_start videoidx p then 1 else 0) + gop_starts videoidx ps

-- The oldest packets go while `max` groups or more are held; the newest packet always stays.
unfoldable pub trim : ℕ → ℕ → List Packet → List Packet
unfolding gop_starts
trim videoidx max [] = []
trim videoidx max (p ∷ ps) =
    let rest = trim videoidx max ps in
    if leb max (gop_starts videoidx (p ∷ ps)) && ltb 1 (length (p ∷ ps)) then rest else p ∷ ps

-- The buffer is valid and not near its limit, the limit is not negative, and the counter is right.
pub record IsSound (q : Queue) : Type 0 where
  pub valid : IsValid q.buf
  pub roomy : q.buf.count < 2 ^ 61
  pub limit : q.maxgopcount < 2 ^ 63
  pub counted : q.curgopcount ≡ gop_starts q.videoidx (contents q.buf)

pub length-contents : (b : Buf) → length (contents b) ≡ b.count
length-contents b = length-window zero_packet (length b.pkts) b.pkts b.head b.count

pub gop_starts-le : (v : ℕ) (ps : List Packet) → gop_starts v ps ≤ length ps
unfolding gop_starts
gop_starts-le v [] = omega arith
gop_starts-le v (p ∷ ps) = ground (arith, gop_starts-le v ps)

-- What `shrink` leaves of a queue.
pub record Shrunk (q : Queue) (result : Option Queue) : Type 0 where
  pub out : Queue
  pub returns : result ≡ some out
  pub packets : contents out.buf ≡ trim q.videoidx q.maxgopcount (contents q.buf)
  pub sound : IsSound out
  pub same_limit : out.maxgopcount ≡ q.maxgopcount
  pub same_video : out.videoidx ≡ q.videoidx

-- The test of the loop, and the same test on the list of packets.
abbrev over : Queue → Bool
over q = not (slt q.curgopcount q.maxgopcount) && slt 1 q.buf.count

abbrev over_list : ℕ → ℕ → List Packet → Bool
over_list v max ps = leb max (gop_starts v ps) && ltb 1 (length ps)

over-eq : (q : Queue) → IsSound q → over q ≡ over_list q.videoidx q.maxgopcount (contents q.buf)
over-eq q s =
    let n = length-contents q.buf in
    let small = s.roomy in
    let le = gop_starts-le q.videoidx (contents q.buf) in
    ground (arith, s.counted, s.limit, n, small, le)

shrink_keep : (fuel : ℕ) (q : Queue) → over q ≡ false → shrink fuel q ≡ some q
unfolding shrink
shrink_keep zero q h = rw h
shrink_keep (suc fuel) q h = rw h

trim_keep : (v max : ℕ) (ps : List Packet) → over_list v max ps ≡ false → trim v max ps ≡ ps
unfolding trim
trim_keep v max [] h = refl
trim_keep v max (p ∷ ps) h = rw h

trim_drop :
    (v max : ℕ) (p : Packet) (ps : List Packet)
    → over_list v max (p ∷ ps) ≡ true
    → trim v max (p ∷ ps) ≡ trim v max ps
unfolding trim
trim_drop v max p ps h = rw h

-- the queue without its oldest packet
abbrev dropped : Queue → Packet → Buf → Queue
dropped q p b = record q {
  buf = b;
  curgopcount = if is_gop_start q.videoidx p then sub64 q.curgopcount 1 else q.curgopcount;
}

shrink_drop :
    (fuel : ℕ) (q : Queue) (p : Packet) (b : Buf)
    → over q ≡ true
    → pop q.buf ≡ some (p, b)
    → shrink (suc fuel) q ≡ shrink fuel (dropped q p b)
unfolding shrink
shrink_drop fuel q p b h e =
    rw (h, e)
      (elim (Bool-cases (slt (dropped q p b).curgopcount q.maxgopcount)) [
        | inl under ↦ rw under (sym (shrink_keep fuel (dropped q p b) (rw under)))
        | inr still ↦ rw still
      ])

dropped-IsSound :
    (q : Queue) (p : Packet) (ps : List Packet) (b : Buf)
    → IsSound q
    → contents q.buf ≡ p ∷ ps
    → contents b ≡ ps
    → IsValid b
    → IsSound (dropped q p b)
unfolding gop_starts
dropped-IsSound q p ps b s e e' v = record {
  valid = v;
  roomy =
      omega (arith, s.roomy, length-contents q.buf, length-contents b, ap length e, ap length e');
  limit = s.limit;
  counted = count;
}
  where
    held : q.curgopcount ≡ gop_starts q.videoidx (p ∷ ps)
    held = s.counted ∙ ap (gop_starts q.videoidx) e

    small : gop_starts q.videoidx ps ≤ length ps
    small = gop_starts-le q.videoidx ps

    short : length ps < 2 ^ 61
    short = omega (arith, s.roomy, length-contents q.buf, ap length e)

    count : (dropped q p b).curgopcount ≡ gop_starts q.videoidx (contents b)
    count = rw e' (elim (Bool-cases (is_gop_start q.videoidx p)) [
      | inl start ↦ rw start (omega (arith, rw start at held, small, short))
      | inr other ↦ rw other (omega (arith, rw other at held, small, short))
    ])

Shrunk-kept : (q : Queue) (r : Option Queue) → IsSound q → over q ≡ false → r ≡ some q → Shrunk q r
Shrunk-kept q r s h e = record {
  out = q;
  returns = e;
  packets = sym (trim_keep _ _ _ (sym (over-eq q s) ∙ h));
  sound = s;
  same_limit = refl;
  same_video = refl;
}

pub shrink-Shrunk :
    (fuel : ℕ) (q : Queue) (ps : List Packet)
    → IsSound q
    → contents q.buf ≡ ps
    → length ps ≤ fuel
    → Shrunk q (shrink fuel q)
shrink-Shrunk fuel q [] s e h =
    let calm : over q ≡ false = over-eq q s ∙ rw e (ground arith) in
    Shrunk-kept q (shrink fuel q) s calm (shrink_keep fuel q calm)
shrink-Shrunk zero q (p ∷ ps) s e h = absurd (omega arith)
shrink-Shrunk (suc fuel) q (p ∷ ps) s e h = elim (Bool-cases (over q)) [
  | inr calm ↦ Shrunk-kept q _ s calm (shrink_keep (suc fuel) q calm)
  | inl full ↦
      let (b, popped, rest, v) = pop-contents q.buf s.valid p ps e in
      let sound = dropped-IsSound q p ps b s e rest v in
      let later = shrink-Shrunk fuel (dropped q p b) ps sound rest (omega arith) in
      record {
        out = later.out;
        returns = shrink_drop fuel q p b full popped ∙ later.returns;
        packets =
            later.packets
            ∙ ap (trim q.videoidx q.maxgopcount) rest
            ∙ sym (
                trim_drop q.videoidx q.maxgopcount p ps
                  (ap (over_list q.videoidx q.maxgopcount) (sym e) ∙ sym (over-eq q s) ∙ full))
            ∙ ap (trim q.videoidx q.maxgopcount) (sym e);
        sound = later.sound;
        same_limit = later.same_limit;
        same_video = later.same_video;
      }
]
