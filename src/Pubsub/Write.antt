-- ===== src/Pubsub/Write.antt =====
-- What a publisher of av/pubsub/queue.go can rely on when it writes a packet.
use mse.Common.{ℕ, suc, ◌+◌, ◌^◌, ◌≤◌, ◌<◌, ◌≡◌, ◌≢◌, ◌⊎◌, refl, ap, ◌∙◌, arith}
use mse.Common.{◌&&◌, leb, ltb, if◌then◌else◌, Bool-cases, inl, inr}
use mse.Common.{List, [], ◌∷◌, ◌++◌, some, length, length-append}
use mse.Common.Word.{add64}
use mse.Av.{Packet}
use mse.Pktque.Buf.{Buf}
use mse.Pktque.Buf.Refine.{IsValid, contents}
use mse.Pktque.Buf.Push.{push-contents}
use mse.Pubsub.{Queue, is_gop_start, write_packet}
use mse.Pubsub.Trim.{gop_starts, gop_starts-le, trim, IsSound, shrink-Shrunk, length-contents}

-- A queue with the packet at its end, before old packets are dropped.
abbrev added : Queue → Packet → Buf → Queue
added q p b = record q {
  buf = b;
  curgopcount = if is_gop_start q.videoidx p then add64 q.curgopcount 1 else q.curgopcount;
}

pub gop_starts-append :
    (v : ℕ) (ps qs : List Packet) → gop_starts v (ps ++ qs) ≡ gop_starts v ps + gop_starts v qs
unfolding gop_starts
gop_starts-append v [] qs = omega arith
gop_starts-append v (p ∷ ps) qs = omega (arith, gop_starts-append v ps qs)

added-IsSound :
    (q : Queue) (p : Packet) (b : Buf)
    → IsSound q
    → suc q.buf.count < 2 ^ 61
    → contents b ≡ contents q.buf ++ p ∷ []
    → IsValid b
    → IsSound (added q p b)
unfolding gop_starts
added-IsSound q p b s room e v = record {
  valid = v;
  roomy = omega (
    arith,
    room,
    length-contents q.buf,
    length-contents b,
    ap length e,
    length-append (contents q.buf) (p ∷ []),
  );
  limit = s.limit;
  counted = count;
}
  where
    old : List Packet
    old = contents q.buf

    small : gop_starts q.videoidx old < 2 ^ 61
    small = omega (arith, gop_starts-le q.videoidx old, length-contents q.buf, s.roomy)

    more :
        gop_starts q.videoidx (old ++ p ∷ [])
        ≡ gop_starts q.videoidx old + gop_starts q.videoidx (p ∷ [])
    more = gop_starts-append q.videoidx old (p ∷ [])

    count : (added q p b).curgopcount ≡ gop_starts q.videoidx (contents b)
    count =
        rw (e, more)
          (elim (Bool-cases (is_gop_start q.videoidx p)) [
            | inl start ↦ rw start (omega (arith, s.counted, small))
            | inr other ↦ rw other (omega (arith, s.counted, small))
          ])

-- A write to a sound queue with room never panics. It appends the packet and then drops exactly
-- the oldest packets that `trim` drops, and the queue is sound again, under the same limit.
pub write_packet-trim :
    (q : Queue)
    → IsSound q
    → (p : Packet) → suc q.buf.count < 2 ^ 61
    → (q' : Queue) × (write_packet q p ≡ some q')
      × (contents q'.buf ≡ trim q.videoidx q.maxgopcount (contents q.buf ++ p ∷ []))
      × IsSound q'
      × (q'.maxgopcount ≡ q.maxgopcount)
      × (q'.videoidx ≡ q.videoidx)
unfolding write_packet
write_packet-trim q s p room =
    let (b, pushed, e, v) = push-contents q.buf s.valid p s.roomy in
    let later =
      shrink-Shrunk b.count (added q p b) (contents b) (added-IsSound q p b s room e v) refl
        (omega (arith, length-contents b)) in
    (
      later.out,
      rw pushed later.returns,
      later.packets ∙ ap (trim q.videoidx q.maxgopcount) e,
      later.sound,
      later.same_limit,
      later.same_video,
    )

-- What `trim` keeps: an end of the list that holds the newest packet, under the limit.
pub record IsKept (v max : ℕ) (ps kept : List Packet) : Type 0 where
  pub old : List Packet
  pub split : old ++ kept ≡ ps
  pub newest : (ps ≡ []) ⊎ (kept ≢ [])
  pub within : (length kept ≤ 1) ⊎ (gop_starts v kept < max)
  pub needed : (old ≡ []) ⊎ (max ≤ gop_starts v ps)

trim-IsKept : (v max : ℕ) (ps : List Packet) → IsKept v max ps (trim v max ps)
unfolding trim
trim-IsKept v max [] = record {
  old = [];
  split = refl;
  newest = inl refl;
  within = inl (omega arith);
  needed = inl refl;
}
trim-IsKept v max (p ∷ ps) =
    elim (Bool-cases (leb max (gop_starts v (p ∷ ps)) && ltb 1 (length (p ∷ ps)))) [
      | inl full ↦
          let rest = trim-IsKept v max ps in
          rw full (record {
            old = p ∷ rest.old;
            split = ap (λ (qs : List Packet). p ∷ qs) rest.split;
            newest = elim rest.newest [
              | inl none_left ↦ ground (arith, full, ap length none_left)
              | inr kept ↦ inr kept
            ];
            within = rest.within;
            needed = inr (ground (arith, full));
          })
      | inr calm ↦ rw calm (record {
        old = [];
        split = refl;
        newest = inr (λ e. cc);
        within = ground (arith, calm);
        needed = inl refl;
      })
    ]

-- After a write to a sound queue with room the buffer holds an end of the packets so far: the new
-- packet is among them, they start fewer groups of pictures than the limit unless only one packet
-- is left, and nothing was dropped while the limit was not reached.
pub write_packet-IsKept :
    (q : Queue)
    → IsSound q
    → (p : Packet) → suc q.buf.count < 2 ^ 61
    → (q' : Queue) × (write_packet q p ≡ some q')
      × IsKept q.videoidx q.maxgopcount (contents q.buf ++ p ∷ []) (contents q'.buf)
write_packet-IsKept q s p room =
    let (q', e, kept, sound, limit, video) = write_packet-trim q s p room in
    (q', e, rw kept (trim-IsKept q.videoidx q.maxgopcount (contents q.buf ++ p ∷ [])))
