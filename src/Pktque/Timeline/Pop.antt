-- ===== src/Pktque/Timeline/Pop.antt =====
-- What `Pop` of av/pktque/timeline.go takes off the front of a timeline, and what it leaves.
use mse.Common.{
  ℕ, zero, suc, ◌+◌, ◌-◌, ◌^◌, ◌≤◌, ◌<◌, ◌≡◌, refl, ◌∙◌, arith, min, sym, drop, ◌⊎◌, inl, inr,
}
use native.Mathlib.Decide.{dec_lt}
use mse.Common.{true, false, List, [], ◌∷◌, ◌++◌, Option, some, length, ◌==◌, if◌then◌else◌}
use mse.Common.Word.{add64, sub64, slt}
use mse.Pktque.Timeline.{Seg, Timeline, pop_loop, pop}
use mse.Pktque.Timeline.Order.{Ordered, total, Ordered-bound}

-- the units of time in a stretch, and in all of them
unfoldable pub ticks : ℕ → ℕ → List ℕ
ticks tm zero = []
ticks tm (suc dur) = tm ∷ ticks (suc tm) dur

unfoldable pub all_ticks : List Seg → List ℕ
all_ticks [] = []
all_ticks (s ∷ rest) = ticks s.tm s.dur ++ all_ticks rest

drop-ticks :
    (n tm dur : ℕ) (more : List ℕ)
    → n ≤ dur
    → drop n (ticks tm dur ++ more) ≡ ticks (tm + n) (dur - n) ++ more
unfolding ticks
drop-ticks zero tm dur more h =
    let same : tm + 0 ≡ tm = omega arith in
    let whole : dur - 0 ≡ dur = omega arith in rw (same, whole) refl
drop-ticks (suc n) tm zero more h = absurd (omega arith)
drop-ticks (suc n) tm (suc dur) more h =
    let later : tm + suc n ≡ suc tm + n = omega arith in
    let left : suc dur - suc n ≡ dur - n = omega arith in
    rw (later, left) (drop-ticks n (suc tm) dur more (omega arith))

drop_past :
    (n tm dur : ℕ) (more : List ℕ) → dur ≤ n → drop n (ticks tm dur ++ more) ≡ drop (n - dur) more
unfolding ticks
drop_past n tm zero more h = let same : n - 0 ≡ n = omega arith in rw same refl
drop_past zero tm (suc dur) more h = absurd (omega arith)
drop_past (suc n) tm (suc dur) more h =
    let left : suc n - suc dur ≡ n - dur = omega arith in
    rw left (drop_past n (suc tm) dur more (omega arith))

drop_nothing : (n : ℕ) → drop {A = ℕ} n [] ≡ []
drop_nothing zero = refl
drop_nothing (suc n) = refl

-- What `pop_loop` leaves: an ordered timeline, shorter by what was taken.
pub record Popped (from : ℕ) (segs : List Seg) (headtm dur : ℕ) (result : Option Timeline)
    : Type 0 where
  pub out : Timeline
  pub returns : result ≡ some out
  pub ordered : Ordered from out.segs
  pub left : total out.segs + min dur (total segs) ≡ total segs
  pub behind : all_ticks out.segs ≡ drop dur (all_ticks segs)
  pub moved : out.headtm ≡ add64 headtm (min dur (total segs))

pop_loop_stop :
    (fuel : ℕ) (segs : List Seg) (headtm : ℕ)
    → pop_loop fuel segs headtm 0 ≡ some (record { segs = segs; headtm = headtm })
unfolding pop_loop
pop_loop_stop fuel [] headtm = refl
pop_loop_stop zero (s ∷ rest) headtm = refl
pop_loop_stop (suc fuel) (s ∷ rest) headtm = refl

positive : (dur : ℕ) → 0 < dur → dur < 2 ^ 62 → slt 0 dur ≡ true
positive dur h small = ground arith

-- A round that uses up the first stretch, and one that takes only a part of it.
use_up :
    (fuel : ℕ) (s : Seg) (rest : List Seg) (headtm dur : ℕ)
    → 0 < dur
    → dur < 2 ^ 62
    → s.dur ≤ dur
    → pop_loop (suc fuel) (s ∷ rest) headtm dur
      ≡ pop_loop fuel rest (add64 headtm s.dur) (dur - s.dur)
unfolding pop_loop
use_up fuel s rest headtm dur h small le =
    let sub : (if slt s.dur dur then s.dur else dur) ≡ s.dur = ground arith in
    let gone : (sub64 s.dur s.dur == 0) ≡ true = ground arith in
    let left : sub64 dur s.dur ≡ dur - s.dur = omega arith in
    rw (positive dur h small, sub, gone, left)

take_part :
    (fuel : ℕ) (s : Seg) (rest : List Seg) (headtm dur : ℕ)
    → 0 < dur
    → s.tm + s.dur < 2 ^ 62
    → dur < s.dur
    → pop_loop (suc fuel) (s ∷ rest) headtm dur
      ≡ pop_loop fuel (record { tm = s.tm + dur; dur = s.dur - dur } ∷ rest) (add64 headtm dur) 0
unfolding pop_loop
take_part fuel s rest headtm dur h small lt =
    let sub : (if slt s.dur dur then s.dur else dur) ≡ dur = ground arith in
    let stays : (sub64 s.dur dur == 0) ≡ false = ground arith in
    let left : sub64 s.dur dur ≡ s.dur - dur = omega arith in
    let later : add64 s.tm dur ≡ s.tm + dur = omega arith in
    let none_left : sub64 dur dur ≡ 0 = omega arith in
    rw (positive dur h (omega arith), sub, stays, left, later, none_left)

Ordered-weaken : (from to : ℕ) (segs : List Seg) → from ≤ to → Ordered to segs → Ordered from segs
Ordered-weaken from to [] le h = omega arith
Ordered-weaken from to (s ∷ rest) le h = (omega arith, h.1)

Popped-nothing :
    (fuel from : ℕ) (segs : List Seg) (headtm : ℕ)
    → Ordered from segs
    → headtm < 2 ^ 64
    → Popped from segs headtm 0 (pop_loop fuel segs headtm 0)
Popped-nothing fuel from segs headtm h hw = record {
  out = record { segs = segs; headtm = headtm };
  returns = pop_loop_stop fuel segs headtm;
  ordered = h;
  left = omega arith;
  behind = refl;
  moved = omega arith;
}

pop_loop-Popped :
    (fuel from : ℕ) (segs : List Seg) (headtm dur : ℕ)
    → Ordered from segs
    → dur < 2 ^ 62
    → headtm < 2 ^ 64
    → length segs < fuel
    → Popped from segs headtm dur (pop_loop fuel segs headtm dur)
unfolding total all_ticks
pop_loop-Popped fuel from segs headtm zero h small hw enough =
    Popped-nothing fuel from segs headtm h hw
pop_loop-Popped fuel from [] headtm (suc dur) h small hw enough = record {
  out = record { segs = []; headtm = headtm };
  returns = unfold pop_loop in refl;
  ordered = h;
  left = omega arith;
  behind = refl;
  moved = omega arith;
}
pop_loop-Popped zero from (s ∷ rest) headtm (suc dur) h small hw enough = absurd (omega arith)
pop_loop-Popped (suc fuel) from (s ∷ rest) headtm (suc dur) h small hw enough =
    elim (dec_lt (suc dur) s.dur) [
      | yes part ↦ record {
        out = record {
          segs = record { tm = s.tm + suc dur; dur = s.dur - suc dur } ∷ rest;
          headtm = add64 headtm (suc dur);
        };
        returns =
            take_part fuel s rest headtm (suc dur) (omega arith)
              (omega (arith, Ordered-bound _ rest h.1)) part
            ∙ pop_loop_stop fuel _ _;
        ordered = (omega (arith, h.0), Ordered-weaken _ (s.tm + s.dur) rest (omega arith) h.1);
        left = omega arith;
        behind = sym (drop-ticks (suc dur) s.tm s.dur (all_ticks rest) (omega arith));
        moved = omega arith;
      }
      | no whole ↦
          let later =
            pop_loop-Popped fuel (s.tm + s.dur) rest (add64 headtm s.dur) (suc dur - s.dur) h.1
              (omega arith) (omega arith) (omega arith) in
          record {
            out = later.out;
            returns =
                use_up fuel s rest headtm (suc dur) (omega arith) small (omega arith)
                ∙ later.returns;
            ordered =
                Ordered-weaken from (s.tm + s.dur) later.out.segs (omega (arith, h.0))
                  later.ordered;
            left = omega (arith, later.left);
            behind =
                later.behind ∙ sym (drop_past (suc dur) s.tm s.dur (all_ticks rest) (omega arith));
            moved = omega (arith, later.moved, Ordered-bound _ rest h.1);
          }
    ]

-- What `pop` returns.
pub record Taken (t : Timeline) (dur : ℕ) : Type 0 where
  pub start : ℕ
  pub out : Timeline
  pub returns : pop t dur ≡ some (start, out)
  pub first :
      ((t.segs ≡ []) × (start ≡ t.headtm))
      ⊎ ((s : Seg) × (rest : List Seg) × (t.segs ≡ s ∷ rest) × (start ≡ s.tm))
  pub ordered : Ordered 0 out.segs
  pub left : total out.segs + min dur (total t.segs) ≡ total t.segs
  pub behind : all_ticks out.segs ≡ drop dur (all_ticks t.segs)
  pub moved : out.headtm ≡ add64 t.headtm (min dur (total t.segs))

pop_by_segs :
    (segs : List Seg) (headtm dur : ℕ)
    → Ordered 0 segs
    → dur < 2 ^ 62
    → headtm < 2 ^ 64
    → Taken (record { segs = segs; headtm = headtm }) dur
unfolding pop total all_ticks
pop_by_segs [] headtm dur h small hw = record {
  start = headtm;
  out = record { segs = []; headtm = headtm };
  returns = refl;
  first = inl (refl, refl);
  ordered = h;
  left = omega arith;
  behind = sym (drop_nothing dur);
  moved = omega arith;
}
pop_by_segs (s ∷ rest) headtm dur h small hw =
    let p =
      pop_loop-Popped (suc (length (s ∷ rest))) 0 (s ∷ rest) headtm dur h small hw (omega arith) in
    record {
      start = s.tm;
      out = p.out;
      returns = rw (p.returns, pop);
      first = inr (s, rest, refl, refl);
      ordered = p.ordered;
      left = p.left;
      behind = p.behind;
      moved = p.moved;
    }

-- `pop` of a timeline in order always returns: the start of its first stretch, or the head time if it
-- is empty, and a timeline in order whose units of time are those from the duration asked for on; the
-- head time moves on by the duration, or by all there is if that is less.
pub pop-Taken :
    (t : Timeline) (dur : ℕ) → Ordered 0 t.segs → dur < 2 ^ 62 → t.headtm < 2 ^ 64 → Taken t dur
pop-Taken t dur h small hw = pop_by_segs t.segs t.headtm dur h small hw
