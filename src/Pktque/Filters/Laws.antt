-- ===== src/Pktque/Filters/Laws.antt =====
-- What the filters of av/pktque/filters.go promise of the packets that they let through.
use mse.Common.{ℕ, ◌*◌, ◌%◌, ◌^◌, ◌≡◌, ◌≢◌, refl, ap, ◌∙◌, arith}
use mse.Common.{Bool, true, false, ◌&&◌, List, [], ◌∷◌, ◌==◌, if◌then◌else◌}
use mse.Common.Word.{add64, slt}
use mse.Av.{Packet}
use mse.Pktque.Filters.{wait_key_frame, FixTime, from_zero, increment, fix_time, millisecond}

-- The packets that `WaitKeyFrame` lets through, in a run over a stream of packets.
pub wait_run : Bool → List Packet → ℕ → List Packet
wait_run ok [] v = []
wait_run ok (p ∷ ps) v =
    let (drop, p', ok') = wait_key_frame ok p v in
    let rest = wait_run ok' ps v in if drop then rest else p' ∷ rest

-- The packets from the first key frame of the video stream on.
pub from_key_frame : List Packet → ℕ → List Packet
from_key_frame [] v = []
from_key_frame (p ∷ ps) v =
    let rest = from_key_frame ps v in
    if (p.idx == v % 2 ^ 8) && p.is_key_frame then p ∷ ps else rest

wait_run_open : (ps : List Packet) (v : ℕ) → wait_run true ps v ≡ ps
unfolding wait_run wait_key_frame
wait_run_open [] v = refl
wait_run_open (p ∷ ps) v = ap (λ (qs : List Packet). p ∷ qs) (wait_run_open ps v)

-- `WaitKeyFrame` lets exactly the packets from the first key frame of the video stream on through,
-- unchanged.
pub wait_run-from_key_frame : (ps : List Packet) (v : ℕ) → wait_run false ps v ≡ from_key_frame ps v
unfolding wait_run wait_key_frame from_key_frame
wait_run-from_key_frame [] v = refl
wait_run-from_key_frame (p ∷ ps) v =
    ground (arith, wait_run_open ps v, wait_run-from_key_frame ps v)

-- signed `a ≤ b`
abbrev pub AtMost : ℕ → ℕ → Type 0
AtMost a b = slt b a ≡ false

from_zero_keeps :
    (f : FixTime) (p : Packet)
    → ((from_zero f p).1.lasttime ≡ f.lasttime)
      × ((from_zero f p).1.make_increment ≡ f.make_increment)
unfolding from_zero
from_zero_keeps f p = ground arith

-- A time in the step that follows `last`, which may be half a second long.
abbrev pub Steps : ℕ → Packet → Type 0
Steps last p = AtMost last p.time × AtMost p.time (add64 last (millisecond * 500))

increment-Steps :
    (f : FixTime) (p : Packet) (last : ℕ)
    → f.make_increment ≡ true
    → f.lasttime ≡ last
    → last ≢ 0
    → AtMost last (add64 last (millisecond * 500))
    → Steps last (increment f p).0 × ((increment f p).1.lasttime ≡ (increment f p).0.time)
unfolding increment
increment-Steps f p last inc e some_last room = ground arith

-- With `MakeIncrement` and a last time known, a packet's time neither steps back nor leaps: it lies
-- from the last time to 500 ms after it, if that does not overflow, is the new last time, and the
-- packet is not dropped.
pub fix_time-Steps :
    (f : FixTime) (p : Packet)
    → f.make_increment ≡ true
    → f.lasttime ≢ 0
    → AtMost f.lasttime (add64 f.lasttime (millisecond * 500))
    → let (drop, p', f') = fix_time f p in
      Steps f.lasttime p' × (f'.lasttime ≡ p'.time) × (drop ≡ false)
unfolding fix_time
fix_time-Steps f p inc last room =
    let (same_last, same_inc) = from_zero_keeps f p in
    let (steps, kept) =
      increment-Steps (from_zero f p).1 (from_zero f p).0 f.lasttime (same_inc ∙ inc) same_last last
        room in
    (steps, kept, refl)
