-- ===== src/Pktque/Filters.antt =====
-- av/pktque/filters.go: filters that change a packet's time or drop the packet. A filter with its
-- state is a value; `none` is a panic. `Walltime`, which sleeps, changes no packet and is left out.
pub mod First
pub mod Laws
pub mod Sync
use mse.Common.{
  ℕ, zero, suc, ◌+◌, ◌*◌, ◌%◌, ◌^◌, Bool, true, false, not, ◌&&◌, ◌||◌, List, [], ◌∷◌, Option, none,
  some,
}
use mse.Common.{◌==◌, ltb, if◌then◌else◌, length, get_elem?, set?, replicate, get_or}
use mse.Common.Maybe.{◌>>=◌}
use mse.Common.Word.{add64, sub64, slt}
use mse.Av.{Packet, is_audio, is_video}

-- `time.Millisecond`
abbrev pub millisecond : ℕ
millisecond = 1_000_000

-- A filter's answer: whether to drop, the packet as it is now, and the filter's new state.
abbrev pub Answer : Type 0 → Type 0
Answer F = Bool × Packet × F

-- `WaitKeyFrame`: its `ok`
unfoldable pub wait_key_frame : Bool → Packet → ℕ → Answer Bool
wait_key_frame ok pkt videoidx =
    let ok' = if not ok && (pkt.idx == videoidx % 2 ^ 8) && pkt.is_key_frame then true else ok in
    (not ok', pkt, ok')

pub record FixTime : Type 0 where
  pub zerobase : ℕ
  pub incrbase : ℕ
  pub lasttime : ℕ
  pub start_from_zero : Bool
  pub make_increment : Bool

-- the part under `StartFromZero`
unfoldable pub from_zero : FixTime → Packet → Packet × FixTime
from_zero f pkt =
    let base = if f.zerobase == 0 then pkt.time else f.zerobase in
    if f.start_from_zero
    then (record pkt { time = sub64 pkt.time base }, record f { zerobase = base })
    else (pkt, f)

-- the part under `MakeIncrement`
unfoldable pub increment : FixTime → Packet → Packet × FixTime
increment f pkt =
    let time = sub64 pkt.time f.incrbase in
    let last = if f.lasttime == 0 then time else f.lasttime in
    let far = slt time last || slt (add64 last (millisecond * 500)) time in
    let incrbase = if far then add64 f.incrbase (sub64 time last) else f.incrbase in
    let time' = if far then last else time in
    if f.make_increment
    then (record pkt { time = time' }, record f { incrbase = incrbase; lasttime = time' })
    else (pkt, f)

unfoldable pub fix_time : FixTime → Packet → Answer FixTime
fix_time f pkt =
    let (pkt1, f1) = from_zero f pkt in let (pkt2, f2) = increment f1 pkt1 in (false, pkt2, f2)

-- `time` is nil until the first packet.
pub record AvSync : Type 0 where
  pub max_time_diff : ℕ
  pub time : Option (List ℕ)

-- an index with the time that stands there; `none` is the index -1
abbrev pub Found : Type 0
Found = Option (ℕ × ℕ)

unfoldable pub lower : Found → ℕ → ℕ → Found
lower none j t = some (j, t)
lower (some (i, s)) j t = if slt t s then some (j, t) else some (i, s)

unfoldable pub upper : Found → ℕ → ℕ → Found
upper none j t = some (j, t)
upper (some (i, s)) j t = if slt s t then some (j, t) else some (i, s)

-- The loop of `check`: the first of the smallest times, and the first of the largest.
unfoldable pub min_max : List ℕ → ℕ → Found → Found → Found × Found
min_max [] j lo hi = (lo, hi)
min_max (t ∷ ts) j lo hi = min_max ts (suc j) (lower lo j t) (upper hi j t)

pub record Window : Type 0 where
  pub start : ℕ
  pub end : ℕ
  pub correctable : Bool
  pub correcttime : ℕ

-- what `check` answers from the two indices, for the stream `i`; the index -1 panics
unfoldable pub window_of : ℕ → ℕ → Found → Found → Option Window
window_of diff i none hi = none
window_of diff i (some lo) none = none
window_of diff i (some (mi, mt)) (some (xi, xt)) = some (record {
  start = mt;
  end = add64 mt diff;
  correctable = if ltb i 128 && (i == xi) then mt == xt else true;
  correcttime = add64 mt (millisecond * 40);
})

-- `check`; the index of an `int8` below 0 has a pattern of 128 or more, and is no stream's
unfoldable pub check : ℕ → List ℕ → ℕ → Option Window
check diff times i = let (lo, hi) = min_max times 0 none none in window_of diff i lo hi

-- `AVSync` at its first packet
unfoldable pub av_sync_init : AvSync → ℕ → AvSync
av_sync_init f streams = elim f.time [
  | some times ↦ f
  | none ↦ record {
    max_time_diff = if f.max_time_diff == 0 then millisecond * 500 else f.max_time_diff;
    time = some (replicate streams 0);
  }
]

-- `self.time[pkt.Idx] = pkt.Time`
unfoldable pub set_time : List ℕ → Packet → Option (List ℕ)
set_time times pkt = if ltb pkt.idx 128 then set? times pkt.idx pkt.time else none

-- In its window the packet passes; else it is corrected with all times, or dropped.
unfoldable pub judge : Window → List ℕ → Packet → Option (Bool × Packet × List ℕ)
judge w times pkt =
    let passed : Option (Bool × Packet × List ℕ) = elim (set_time times pkt) [
      | none ↦ none
      | some times' ↦ some (false, pkt, times')
    ] in
    let corrected : Bool × Packet × List ℕ =
      (false, record pkt { time = w.correcttime }, replicate (length times) w.correcttime) in
    if not (slt pkt.time w.start) && slt pkt.time w.end
    then passed
    else some (if w.correctable then corrected else (true, pkt, times))

unfoldable pub av_sync_times : ℕ → List ℕ → Packet → Option (Bool × Packet × List ℕ)
av_sync_times diff times pkt = do w ← check diff times pkt.idx; judge w times pkt

unfoldable pub av_sync : AvSync → Packet → ℕ → Option (Answer AvSync)
av_sync f pkt streams =
    let f' = av_sync_init f streams in
    elim f'.time [
      | none ↦ none
      | some times ↦ do
        (drop, pkt', times') ← av_sync_times f'.max_time_diff times pkt
        some (drop, pkt', record f' { time = some times' })
    ]

pub data Filter : Type 0 where
  waits : Bool → Filter
  fixes : FixTime → Filter
  syncs : AvSync → Filter

-- `ModifyPacket` of one filter, for `streams` streams
unfoldable pub modify_packet : Filter → Packet → ℕ → ℕ → Option (Answer Filter)
unfolding wait_key_frame fix_time from_zero increment av_sync
modify_packet (waits ok) pkt streams videoidx =
    let (drop, pkt', ok') = wait_key_frame ok pkt videoidx in some (drop, pkt', waits ok')
modify_packet (fixes f) pkt streams videoidx =
    let (drop, pkt', f') = fix_time f pkt in some (drop, pkt', fixes f')
modify_packet (syncs f) pkt streams videoidx = do
  (drop, pkt', f') ← av_sync f pkt streams
  some (drop, pkt', syncs f')

-- `Filters.ModifyPacket`: in order, up to the first that drops the packet.
unfoldable pub modify_all : List Filter → Packet → ℕ → ℕ → Option (Answer (List Filter))
unfolding modify_packet
modify_all [] pkt streams videoidx = some (false, pkt, [])
modify_all (f ∷ fs) pkt streams videoidx = elim (modify_packet f pkt streams videoidx) [
  | none ↦ none
  | some (drop, pkt', f') ↦
      let stop : Option (Answer (List Filter)) = some (true, pkt', f' ∷ fs) in
      let more : Option (Answer (List Filter)) = do
        (drop', pkt'', fs') ← modify_all fs pkt' streams videoidx
        some (drop', pkt'', f' ∷ fs')
      in if drop then stop else more
]

-- The loop of `FilterDemuxer.ReadPacket`: packets of the demuxer are dropped until one passes.
-- The list is what the demuxer still gives before its error; `none` inside is that error.
unfoldable pub read_filtered :
    List Filter → List Packet → ℕ → ℕ → Option (Option Packet × List Filter × List Packet)
unfolding modify_all
read_filtered fs [] streams videoidx = some (none, fs, [])
read_filtered fs (pkt ∷ rest) streams videoidx = elim (modify_all fs pkt streams videoidx) [
  | none ↦ none
  | some (drop, pkt', fs') ↦
      let more = read_filtered fs' rest streams videoidx in
      if drop then more else some (some pkt', fs', rest)
]

-- The stream loop of `FilterDemuxer.ReadPacket`: the last video and the last audio stream.
unfoldable pub stream_indices : List ℕ → ℕ → ℕ → ℕ → ℕ × ℕ
stream_indices [] i video audio = (video, audio)
stream_indices (t ∷ ts) i video audio =
    stream_indices ts (suc i) (if is_video t then i else video)
      (if is_video t then audio else (if is_audio t then i else audio))
