-- ===== src/Pubsub/DelayedGop.antt =====
-- Where `DelayedGopCount` of av/pubsub/queue.go puts a reader.
use mse.Common.{ℕ, zero, suc, ◌+◌, ◌-◌, ◌^◌, ◌≤◌, ◌<◌, ◌≡◌, ◌≢◌, ◌⊎◌, refl, sym, ap, ◌∙◌, arith}
use mse.Common.{Bool, true, false, if◌then◌else◌, ◌&&◌, ◌==◌, Bool-cases, inl, inr}
use mse.Common.{
  List, [], ◌∷◌, Option, some, length, get_or, drop, take, take-append-drop, take-length,
}
use mse.Common.Word.{word, add64, sub64, slt}
use mse.Av.{Packet, zero_packet}
use mse.Pktque.Buf.{Buf, is_valid_pos}
use mse.Pktque.Buf.Refine.{IsValid, contents, cap_small}
use mse.Pktque.Buf.Get.{is_valid_pos_iff, get-contents}
use mse.Pubsub.{Queue, is_gop_start}
use mse.Pubsub.Cursor.{back_gops, start_pos, delayed_gop_count}
use native.Mathlib.Decide.{dec_lt}
use mse.Pubsub.Trim.{gop_starts, length-contents}
use mse.Pubsub.Write.{gop_starts-append}

-- groups started among the first `j` packets
abbrev before : ℕ → List Packet → ℕ → ℕ
before v ps j = gop_starts v (take j ps)

before-suc :
    (v : ℕ) (ps : List Packet) (j : ℕ)
    → j < length ps
    → before v ps (suc j)
      ≡ before v ps j + (if is_gop_start v (get_or ps j zero_packet) then 1 else 0)
unfolding gop_starts
before-suc v [] j h = absurd (omega arith)
before-suc v (p ∷ ps) zero h = omega arith
before-suc v (p ∷ ps) (suc j) h = omega (arith, before-suc v ps j (omega arith))

-- the position before the `k`-th buffered packet
abbrev pub just_before : Buf → ℕ → ℕ
just_before b k = sub64 (add64 b.head k) 1

module _ (b : Buf) (v : IsValid b) (video n : ℕ) (n_small : n < 2 ^ 62) where
  -- Walking back from the `j`-th packet with `gop` groups seen stops at the `at`-th.
  record Walked (j gop : ℕ) (result : Option ℕ) : Type 0 where
    at : ℕ
    returns : result ≡ some (just_before b at)
    back : at ≤ j
    few : gop + before video (contents b) j ≤ n + before video (contents b) at
    stopped : (at ≡ 0) ⊎ (n + before video (contents b) at ≡ gop + before video (contents b) j)
    starts : at < j → 0 < at → is_gop_start video (get_or (contents b) at zero_packet) ≡ true

  gop_seen : ℕ → ℕ → ℕ
  gop_seen j gop =
      if is_gop_start video (get_or (contents b) j zero_packet) then add64 gop 1 else gop

  gop_seen-eq :
      (j gop : ℕ)
      → gop < n
      → gop_seen j gop
        ≡ gop + (if is_gop_start video (get_or (contents b) j zero_packet) then 1 else 0)
  unfolding gop_seen
  gop_seen-eq j gop h = elim (Bool-cases (is_gop_start video (get_or (contents b) j zero_packet))) [
    | inl e ↦ rw e (omega (arith, n_small))
    | inr e ↦ rw e (omega arith)
  ]

  back_gops_stop :
      (fuel i gop : ℕ)
      → is_valid_pos b i && slt gop n ≡ false
      → back_gops fuel b video n gop i ≡ some i
  unfolding back_gops
  back_gops_stop zero i gop e = rw e
  back_gops_stop (suc fuel) i gop e = rw e

  before_head : is_valid_pos b (just_before b 0) ≡ false
  before_head = elim (Bool-cases (is_valid_pos b (just_before b 0))) [
    | inl valid ↦ absurd (
        omega (
          arith,
          (is_valid_pos_iff b v (just_before b 0) (omega arith)).0 valid,
          v.count_in,
          cap_small b v,
          v.head_word,
        ))
    | inr e ↦ e
  ]

  just_before-suc : (j : ℕ) → just_before b (suc j) ≡ add64 b.head j
  just_before-suc j = omega arith

  back_gops_step :
      (fuel j gop : ℕ)
      → j < b.count
      → gop < n
      → back_gops (suc fuel) b video n gop (just_before b (suc j))
        ≡ back_gops fuel b video n (gop_seen j gop) (just_before b j)
  unfolding back_gops gop_seen
  back_gops_step fuel j gop hj hg =
      let (valid, found) = get-contents b v j hj in
      let more : slt gop n ≡ true = ground (arith, n_small) in
      rw (just_before-suc j, valid, more, found)

  one_at_most : (t : Bool) → (if t then 1 else 0) ≤ 1
  one_at_most true = omega arith
  one_at_most false = omega arith

  -- The walk stops behind a packet only if that packet started the last group to skip.
  start_found :
      (j gop : ℕ) {r : Option ℕ}
      → gop < n
      → (w : Walked j (gop_seen j gop) r) → w.at < suc j
      → 0 < w.at
      → is_gop_start video (get_or (contents b) w.at zero_packet) ≡ true
  start_found j gop hg w h k = elim (dec_lt w.at j) [
    | yes inner ↦ w.starts inner k
    | no last ↦
        let e : w.at ≡ j = omega (arith, w.back) in
        let is_start : ℕ → Bool = λ t. is_gop_start video (get_or (contents b) t zero_packet) in
        ap is_start e ∙ elim (Bool-cases (is_start j)) [
          | inl found ↦ found
          | inr other ↦ absurd (
              omega (
                arith,
                w.stopped,
                ap (before video (contents b)) e,
                rw other at (gop_seen-eq j gop hg),
              ))
        ]
  ]

  Walked-suc :
      (j gop : ℕ) {r s : Option ℕ}
      → j < b.count
      → gop < n
      → s ≡ r
      → Walked j (gop_seen j gop) r
      → Walked (suc j) gop s
  Walked-suc j gop hj hg e w =
      let seen = gop_seen-eq j gop hg in
      let grows = before-suc video (contents b) j (omega (arith, length-contents b)) in
      record {
        at = w.at;
        returns = e ∙ w.returns;
        back = omega (arith, w.back);
        few = omega (arith, w.few, seen, grows);
        stopped = omega (arith, w.stopped, seen, grows);
        starts = start_found j gop hg w;
      }

  back_gops-Walked :
      (fuel j gop : ℕ)
      → j ≤ fuel
      → j ≤ b.count
      → gop ≤ n
      → Walked j gop (back_gops fuel b video n gop (just_before b j))
  back_gops-Walked fuel zero gop hf hj hg = record {
    at = 0;
    returns = back_gops_stop fuel (just_before b 0) gop (rw before_head);
    back = omega arith;
    few = omega arith;
    stopped = inl refl;
    starts = λ h k. absurd (omega arith);
  }
  back_gops-Walked zero (suc j) gop hf hj hg = absurd (omega arith)
  back_gops-Walked (suc fuel) (suc j) gop hf hj hg = elim (dec_lt gop n) [
    | yes more ↦
        Walked-suc j gop (omega arith) more (back_gops_step fuel j gop (omega arith) more) (
          back_gops-Walked fuel j (gop_seen j gop) (omega arith) (omega arith) (
            omega (
              arith,
              gop_seen-eq j gop more,
              one_at_most (is_gop_start video (get_or (contents b) j zero_packet)),
            )))
    | no done ↦ record {
      at = suc j;
      returns = back_gops_stop (suc fuel) (just_before b (suc j)) gop (ground (arith, n_small));
      back = omega arith;
      few = omega arith;
      stopped = inr (omega arith);
      starts = λ h k. absurd (omega arith);
    }
  ]

module _ (b : Buf) (v : IsValid b) (video n : ℕ) (small : n < 2 ^ 62) (pos : 0 < n) where
  stops_inside :
      {r : Option ℕ} (w : Walked b v video n small b.count 0 r) → 0 < w.at → w.at < b.count
  stops_inside w later = elim (dec_lt w.at b.count) [
    | yes inner ↦ inner
    | no outer ↦
        let e : w.at ≡ b.count = omega (arith, w.back) in
        absurd (omega (arith, w.stopped, ap (before video (contents b)) e))
  ]

gops_split :
    (v : ℕ) (ps : List Packet) (k : ℕ) → gop_starts v ps ≡ before v ps k + gop_starts v (drop k ps)
gops_split v ps k =
    ap (gop_starts v) (sym (take-append-drop k ps)) ∙ gop_starts-append v (take k ps) (drop k ps)

take_all : {ps : List Packet} (n : ℕ) → length ps ≡ n → take n ps ≡ ps
take_all {ps} n e = ap (λ (k : ℕ). take k ps) (sym e) ∙ take-length ps

-- `DelayedGopCount(n)` with a video stream stops either at the oldest packet, with at most `n`
-- groups behind it, or at the start of a group with exactly `n` groups from there on. In both cases
-- the reader is put one position before the packet at which it stopped.
pub delayed_gop_count_stops :
    (q : Queue)
    → IsValid q.buf
    → (n : ℕ) → 0 < n
    → n < 2 ^ 62
    → q.videoidx ≢ word - 1
    → (k : ℕ) × (start_pos (delayed_gop_count n) q.buf q.videoidx ≡ some (just_before q.buf k))
      × (((k ≡ 0) × (gop_starts q.videoidx (contents q.buf) ≤ n))
          ⊎ ((k < q.buf.count)
              × (is_gop_start q.videoidx (get_or (contents q.buf) k zero_packet) ≡ true)
              × (gop_starts q.videoidx (drop k (contents q.buf)) ≡ n)))
unfolding start_pos
delayed_gop_count_stops q v n pos small video = (
  w.at,
  rw (other, last) w.returns,
  elim (dec_lt 0 w.at) [
    | yes later ↦
        let inner = stops_inside q.buf v q.videoidx n small pos w later in
        inr (inner, w.starts inner later, omega (arith, w.stopped, split, whole))
    | no start ↦
        let e : w.at ≡ 0 = omega arith in
        inl (e, omega (arith, w.few, whole, ap (before q.videoidx (contents q.buf)) e, zero_before))
  ],
)
  where
    w :
        Walked q.buf v q.videoidx n small q.buf.count 0
          (back_gops q.buf.count q.buf q.videoidx n 0 (just_before q.buf q.buf.count))
    w =
        back_gops-Walked q.buf v q.videoidx n small q.buf.count q.buf.count 0 (omega arith)
          (omega arith) (omega arith)

    other : (q.videoidx == word - 1) ≡ false
    other = ground arith

    last : sub64 q.buf.tail 1 ≡ just_before q.buf q.buf.count
    last = ap (λ (t : ℕ). sub64 t 1) v.tail_at

    split :
        gop_starts q.videoidx (contents q.buf)
        ≡ before q.videoidx (contents q.buf) w.at
          + gop_starts q.videoidx (drop w.at (contents q.buf))
    split = gops_split q.videoidx (contents q.buf) w.at

    whole : before q.videoidx (contents q.buf) q.buf.count ≡ gop_starts q.videoidx (contents q.buf)
    whole = ap (gop_starts q.videoidx) (take_all q.buf.count (length-contents q.buf))

    zero_before : before q.videoidx (contents q.buf) 0 ≡ 0
    zero_before = unfold gop_starts in refl
