-- ===== src/Pktque/Timeline.antt =====
-- av/pktque/timeline.go: stretches of time behind one another. Times are 64-bit words.
pub mod Order
pub mod Pop
use mse.Common.{
  ℕ, zero, suc, Bool, List, [], ◌∷◌, ◌++◌, Option, none, some, length, ◌==◌, if◌then◌else◌,
}
use mse.Common.Word.{add64, sub64, is_neg, slt}

pub record Seg : Type 0 where
  pub tm : ℕ
  pub dur : ℕ

pub record Timeline : Type 0 where
  pub segs : List Seg
  pub headtm : ℕ

-- `self.segs[len(self.segs)-1]`
abbrev pub last_seg : List Seg → Option Seg
last_seg [] = none
last_seg (s ∷ rest) = elim (last_seg rest) [ none ↦ some s | some t ↦ some t ]

-- the start of a new stretch: not before the end of the last one
unfoldable pub push_time : Option Seg → ℕ → ℕ
push_time none tm = tm
push_time (some tail) tm =
    let diff = sub64 tm (add64 tail.tm tail.dur) in if is_neg diff then sub64 tm diff else tm

unfoldable pub push : Timeline → ℕ → ℕ → Timeline
unfolding push_time
push t tm dur = record t {
  segs = t.segs ++ record { tm = push_time (last_seg t.segs) tm; dur = dur } ∷ [];
}

-- The loop of `Pop` over the stretches, the head time and the duration that is left to take; the
-- fuel bounds its rounds. A round takes from the first stretch, and drops it when it is used up.
unfoldable pub pop_loop : ℕ → List Seg → ℕ → ℕ → Option Timeline
pop_loop fuel [] headtm dur = some (record { segs = []; headtm = headtm })
pop_loop zero (seg ∷ rest) headtm dur =
    if slt 0 dur then none else some (record { segs = seg ∷ rest; headtm = headtm })
pop_loop (suc fuel) (seg ∷ rest) headtm dur =
    let sub = if slt seg.dur dur then seg.dur else dur in
    let seg' : Seg = record { tm = add64 seg.tm sub; dur = sub64 seg.dur sub } in
    let more =
      pop_loop fuel (if seg'.dur == 0 then rest else seg' ∷ rest) (add64 headtm sub)
        (sub64 dur sub) in
    if slt 0 dur then more else some (record { segs = seg ∷ rest; headtm = headtm })

-- A round uses up a stretch or all that is left to take, so one more than the stretches is enough.
unfoldable pub pop : Timeline → ℕ → Option (ℕ × Timeline)
pop t dur = elim t.segs [
  | [] ↦ some (t.headtm, t)
  | seg ∷ rest ↦ elim (pop_loop (suc (length t.segs)) t.segs t.headtm dur) [
    | none ↦ none
    | some t' ↦ some (seg.tm, t')
  ]
]
