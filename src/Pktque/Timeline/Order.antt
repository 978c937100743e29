-- ===== src/Pktque/Timeline/Order.antt =====
-- av/pktque/timeline.go keeps its stretches apart and in order, and takes time off their front.
use mse.Common.{ℕ, ◌+◌, ◌^◌, ◌≤◌, ◌<◌, ◌≡◌, refl, arith, ◌⊎◌}
use Prim.Native.Nat.{max}
use mse.Common.{List, [], ◌∷◌, ◌++◌, some}
use mse.Pktque.Timeline.{Seg, Timeline, last_seg, push_time, push}

-- The stretches from time `from` on: each starts no earlier than the one before ends, none wraps.
abbrev pub Ordered : ℕ → List Seg → Type 0
Ordered from [] = from < 2 ^ 62
Ordered from (s ∷ rest) = (from ≤ s.tm) × Ordered (s.tm + s.dur) rest

-- the whole duration
unfoldable pub total : List Seg → ℕ
total [] = 0
total (s ∷ rest) = s.dur + total rest

pub Ordered-bound : (from : ℕ) (segs : List Seg) → Ordered from segs → from + total segs < 2 ^ 62
unfolding total
Ordered-bound from [] h = omega arith
Ordered-bound from (s ∷ rest) h = omega (arith, Ordered-bound (s.tm + s.dur) rest h.1)

-- where the last stretch ends
unfoldable pub finish : ℕ → List Seg → ℕ
finish from [] = from
finish from (s ∷ rest) = finish (s.tm + s.dur) rest

Ordered-append :
    (from : ℕ) (segs : List Seg) (s : Seg)
    → Ordered from segs
    → finish from segs ≤ s.tm
    → s.tm + s.dur < 2 ^ 62
    → Ordered from (segs ++ s ∷ [])
unfolding finish
Ordered-append from [] s h le small = (le, small)
Ordered-append from (t ∷ rest) s h le small =
    (h.0, Ordered-append (t.tm + t.dur) rest s h.1 le small)

finish-bound : (from : ℕ) (segs : List Seg) → Ordered from segs → finish from segs < 2 ^ 62
unfolding finish
finish-bound from [] h = h
finish-bound from (s ∷ rest) h = finish-bound (s.tm + s.dur) rest h.1

last_finish :
    (from : ℕ) (s : Seg) (rest : List Seg)
    → (t : Seg) × (last_seg (s ∷ rest) ≡ some t) × (t.tm + t.dur ≡ finish from (s ∷ rest))
unfolding finish
last_finish from s [] = (s, refl, refl)
last_finish from s (r ∷ rest) = let (t, e, f) = last_finish (s.tm + s.dur) r rest in (t, rw e, f)

push_time_later :
    (t : Seg) (tm : ℕ)
    → t.tm + t.dur < 2 ^ 62
    → tm < 2 ^ 62
    → (t.tm + t.dur ≤ push_time (some t) tm)
      × (tm ≤ push_time (some t) tm)
      × ((push_time (some t) tm ≡ tm) ⊎ (push_time (some t) tm ≡ t.tm + t.dur))
unfolding push_time
push_time_later t tm ht hm = ground arith

-- A push appends one stretch of the duration, which starts at its time, or at the end of the last
-- stretch if that is later, and keeps the others, the head time, and the order of the timeline.
pub push-Ordered :
    (t : Timeline) (tm dur : ℕ)
    → Ordered 0 t.segs
    → tm + dur < 2 ^ 62
    → finish 0 t.segs + dur < 2 ^ 62
    → (push t tm dur
        ≡ record t { segs = t.segs ++ record { tm = max tm (finish 0 t.segs); dur = dur } ∷ [] })
      × Ordered 0 (push t tm dur).segs
unfolding push
push-Ordered t tm dur h small room =
    let start : push_time (last_seg t.segs) tm ≡ max tm (finish 0 t.segs) =
      push_time-max t.segs tm h (omega arith) in
    rw start (
      refl,
      Ordered-append 0 t.segs (record { tm = max tm (finish 0 t.segs); dur = dur }) h (omega arith)
          (omega arith),
    )
  where
    push_time-max :
        (segs : List Seg) (tm : ℕ)
        → Ordered 0 segs
        → tm < 2 ^ 62
        → push_time (last_seg segs) tm ≡ max tm (finish 0 segs)
    push_time-max [] tm h fits = unfold push_time in unfold finish in omega arith
    push_time-max (s ∷ rest) tm h fits =
        let (l, e, f) = last_finish 0 s rest in
        let (after, later, exact) =
          push_time_later l tm (omega (arith, finish-bound 0 (s ∷ rest) h, f)) fits in
        rw e (omega (arith, after, later, exact, f))
