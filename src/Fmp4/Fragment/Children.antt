-- ===== src/Fmp4/Fragment/Children.antt =====
-- The loop over the children of the box of a track, a child at a time.
use mse.Common.{
  ℕ, suc, ◌+◌, ◌^◌, ◌<◌, ◌≡◌, refl, sym, ap, ◌∙◌, arith, true, List, [], ◌++◌, Option, none, some,
}
use mse.Common.{ltb, length, take, drop, take-append_length, drop-append_length, length-append}
use mse.Common.Outcome.{ok}
use mse.Pio.Layout.{be32}
use mse.Pio.Cursor.{bytes_of}
use mse.Pio.Fetch.{Cursor, Trace, need-ok, fetch-bytes_of, wrap}
use mse.Fmp4.Box.{Message, in_tag_size, box_bytes}
use mse.Fmp4.Fragment.{
  TrackFragHeader, track_frag_header_len, TrackFragDecodeTime, track_frag_decode_time_len,
}
use mse.Fmp4.Fragment.Run.{TrackFragRun, track_frag_run_len}
use mse.Fmp4.Fragment.RunBytes.{run_bytes, RunFits, len-run_bytes}
use mse.Fmp4.Fragment.RunReading.{unmarshal-run_bytes}
use mse.Fmp4.Fragment.HeaderBytes.{tfdt_bytes, TfdtFits, len-tfdt_bytes, unmarshal-tfdt_bytes}
use mse.Fmp4.Fragment.TrackHeaderBytes.{tfhd_bytes, TfhdFits, len-tfhd_bytes, unmarshal-tfhd_bytes}
use mse.Fmp4.Fragment.Track.{
  TrackFrag, tag_tfhd, tag_tfdt, tag_trun, len_child, track_frag_switch, track_frag_round,
  track_frag_loop,
}

round_lem :
    (a a1 : TrackFrag) (tag : ℕ) (body rest : List ℕ) (pos : ℕ) (behind : Cursor)
    → tag < 2 ^ 32
    → 8 + length body < 2 ^ 32
    → track_frag_switch a tag (record { rest = box_bytes tag body; pos = pos }) ≡ ok (a1, behind)
    → track_frag_round a (record { rest = box_bytes tag body ++ rest; pos = pos })
      ≡ ok (a1, record { rest = rest; pos = pos + (8 + length body) })
unfolding track_frag_round
round_lem a a1 tag body rest pos behind fits small chosen =
    let box : List ℕ = box_bytes tag body in
    let long : 8 + length body ≡ length box = omega arith in
    let cut : take (8 + length body) (box ++ rest) ≡ box =
      ap (λ (n : ℕ). take n (box ++ rest)) long ∙ take-append_length box rest in
    let left : drop (8 + length body) (box ++ rest) ≡ rest =
      ap (λ (n : ℕ). drop n (box ++ rest)) long ∙ drop-append_length box rest in
    rw
      (
        fetch-bytes_of {E = Trace Message} be32 tag (body ++ rest) (pos + 4) fits,
        fetch-bytes_of {E = Trace Message} be32 (8 + length body)
            (bytes_of be32 tag ++ (body ++ rest)) pos small,
        need-ok (8 + length body) in_tag_size (record { rest = box ++ rest; pos = pos })
            (omega (arith, length-append body rest)),
        cut,
        chosen,
        left,
      )
      refl

-- A child that is there takes one round.
step_lem :
    (a a1 : TrackFrag) (tag : ℕ) (body rest : List ℕ) (pos fuel : ℕ) (behind : Cursor)
    → tag < 2 ^ 32
    → 8 + length body < 2 ^ 32
    → 0 < length body
    → track_frag_switch a tag (record { rest = box_bytes tag body; pos = pos }) ≡ ok (a1, behind)
    → track_frag_loop (suc fuel) a (record { rest = box_bytes tag body ++ rest; pos = pos })
      ≡ track_frag_loop fuel a1 (record { rest = rest; pos = pos + (8 + length body) })
unfolding track_frag_loop
step_lem a a1 tag body rest pos fuel behind fits small some_body chosen =
    let test : ltb 8 (length (box_bytes tag body ++ rest)) ≡ true =
      ground (arith, length-append body rest, some_body) in
    rw (test, round_lem a a1 tag body rest pos behind fits small chosen) refl

abbrev pub child_bytes : {A : Type 0} → ℕ → (A → List ℕ) → Option A → List ℕ
child_bytes tag body none = []
child_bytes tag body (some x) = box_bytes tag (body x)

abbrev pub rounds : {A : Type 0} → Option A → ℕ
rounds none = 0
rounds (some x) = 1

abbrev pub header_at : ℕ → Option TrackFragHeader → Option TrackFragHeader
header_at pos none = none
header_at pos (some x) =
    some (record x { pos = record { offset = pos; size = track_frag_header_len x } })

abbrev pub HeaderFits : Option TrackFragHeader → Type 0
HeaderFits none = Unit
HeaderFits (some x) = TfhdFits x × (track_frag_header_len x < 2 ^ 32)

pub header_step :
    (a : TrackFrag) (o : Option TrackFragHeader) (rest : List ℕ) (pos fuel : ℕ)
    → a.header ≡ none
    → HeaderFits o
    → track_frag_loop
        (rounds o + fuel)
        a
        (record { rest = child_bytes tag_tfhd tfhd_bytes o ++ rest; pos = pos })
      ≡ track_frag_loop fuel
          (record a { header = header_at pos o })
          (record { rest = rest; pos = pos + len_child track_frag_header_len o })
unfolding len_child track_frag_switch wrap
header_step a none rest pos fuel first fits =
    let no_rounds : 0 + fuel ≡ fuel = omega arith in
    let no_bytes : pos + 0 ≡ pos = omega arith in rw (no_rounds, no_bytes, sym first) refl
header_step a (some x) rest pos fuel first (fits, small) =
    let box : List ℕ = box_bytes tag_tfhd (tfhd_bytes x) in
    let one : 1 + fuel ≡ suc fuel = omega arith in
    let long : 8 + length (tfhd_bytes x) ≡ track_frag_header_len x = len-tfhd_bytes x in
    let size : length box ≡ track_frag_header_len x = omega (arith, long) in
    let chosen : track_frag_switch a tag_tfhd (record { rest = box; pos = pos })
        ≡ ok (
          record a { header = header_at pos (some x) },
          record { rest = []; pos = pos + track_frag_header_len x },
        ) =
      rw (unmarshal-tfhd_bytes x (record { rest = box; pos = pos }) fits refl) (
        ap
          (λ (n : ℕ). ok (
            record a { header = some (record x { pos = record { offset = pos; size = n } }) },
            record { rest = []; pos = pos + track_frag_header_len x },
          ))
          size) in
    rw one (
      step_lem a (record a { header = header_at pos (some x) }) tag_tfhd (tfhd_bytes x) rest pos
        fuel _ (omega arith) (omega (arith, long, small)) (omega arith) chosen
      ∙ ap
          (λ (n : ℕ).
            track_frag_loop fuel (record a { header = header_at pos (some x) })
              (record { rest = rest; pos = pos + n }))
          long)

abbrev pub decode_time_at : ℕ → Option TrackFragDecodeTime → Option TrackFragDecodeTime
decode_time_at pos none = none
decode_time_at pos (some x) =
    some (record x { pos = record { offset = pos; size = track_frag_decode_time_len x } })

abbrev pub DecodeTimeFits : Option TrackFragDecodeTime → Type 0
DecodeTimeFits none = Unit
DecodeTimeFits (some x) = TfdtFits x × (track_frag_decode_time_len x < 2 ^ 32)

pub decode_time_step :
    (a : TrackFrag) (o : Option TrackFragDecodeTime) (rest : List ℕ) (pos fuel : ℕ)
    → a.decode_time ≡ none
    → DecodeTimeFits o
    → track_frag_loop
        (rounds o + fuel)
        a
        (record { rest = child_bytes tag_tfdt tfdt_bytes o ++ rest; pos = pos })
      ≡ track_frag_loop fuel
          (record a { decode_time = decode_time_at pos o })
          (record { rest = rest; pos = pos + len_child track_frag_decode_time_len o })
unfolding len_child track_frag_switch wrap
decode_time_step a none rest pos fuel first fits =
    let no_rounds : 0 + fuel ≡ fuel = omega arith in
    let no_bytes : pos + 0 ≡ pos = omega arith in rw (no_rounds, no_bytes, sym first) refl
decode_time_step a (some x) rest pos fuel first (fits, small) =
    let box : List ℕ = box_bytes tag_tfdt (tfdt_bytes x) in
    let one : 1 + fuel ≡ suc fuel = omega arith in
    let long : 8 + length (tfdt_bytes x) ≡ track_frag_decode_time_len x = len-tfdt_bytes x in
    let size : length box ≡ track_frag_decode_time_len x = omega (arith, long) in
    let chosen : track_frag_switch a tag_tfdt (record { rest = box; pos = pos })
        ≡ ok (
          record a { decode_time = decode_time_at pos (some x) },
          record { rest = []; pos = pos + track_frag_decode_time_len x },
        ) =
      rw (unmarshal-tfdt_bytes x (record { rest = box; pos = pos }) fits refl) (
        ap
          (λ (n : ℕ). ok (
            record a { decode_time = some (record x { pos = record { offset = pos; size = n } }) },
            record { rest = []; pos = pos + track_frag_decode_time_len x },
          ))
          size) in
    rw one (
      step_lem a (record a { decode_time = decode_time_at pos (some x) }) tag_tfdt (tfdt_bytes x)
        rest pos fuel _ (omega arith) (omega (arith, long, small)) (omega arith) chosen
      ∙ ap
          (λ (n : ℕ).
            track_frag_loop fuel (record a { decode_time = decode_time_at pos (some x) })
              (record { rest = rest; pos = pos + n }))
          long)

abbrev pub run_at : ℕ → Option TrackFragRun → Option TrackFragRun
run_at pos none = none
run_at pos (some x) = some (record x { pos = record { offset = pos; size = track_frag_run_len x } })

abbrev pub RunChildFits : Option TrackFragRun → Type 0
RunChildFits none = Unit
RunChildFits (some x) = RunFits x × (track_frag_run_len x < 2 ^ 32)

pub run_step :
    (a : TrackFrag) (o : Option TrackFragRun) (rest : List ℕ) (pos fuel : ℕ)
    → a.run ≡ none
    → RunChildFits o
    → track_frag_loop
        (rounds o + fuel)
        a
        (record { rest = child_bytes tag_trun run_bytes o ++ rest; pos = pos })
      ≡ track_frag_loop fuel
          (record a { run = run_at pos o })
          (record { rest = rest; pos = pos + len_child track_frag_run_len o })
unfolding len_child track_frag_switch wrap
run_step a none rest pos fuel first fits =
    let no_rounds : 0 + fuel ≡ fuel = omega arith in
    let no_bytes : pos + 0 ≡ pos = omega arith in rw (no_rounds, no_bytes, sym first) refl
run_step a (some x) rest pos fuel first (fits, small) =
    let box : List ℕ = box_bytes tag_trun (run_bytes x) in
    let one : 1 + fuel ≡ suc fuel = omega arith in
    let long : 8 + length (run_bytes x) ≡ track_frag_run_len x = len-run_bytes x in
    let size : length box ≡ track_frag_run_len x = omega (arith, long) in
    let chosen : track_frag_switch a tag_trun (record { rest = box; pos = pos })
        ≡ ok (
          record a { run = run_at pos (some x) },
          record { rest = []; pos = pos + track_frag_run_len x },
        ) =
      rw (unmarshal-run_bytes x (record { rest = box; pos = pos }) fits refl) (
        ap
          (λ (n : ℕ). ok (
            record a { run = some (record x { pos = record { offset = pos; size = n } }) },
            record { rest = []; pos = pos + track_frag_run_len x },
          ))
          size) in
    rw one (
      step_lem a (record a { run = run_at pos (some x) }) tag_trun (run_bytes x) rest pos fuel _
        (omega arith) (omega (arith, long, small)) (omega arith) chosen
      ∙ ap
          (λ (n : ℕ).
            track_frag_loop fuel (record a { run = run_at pos (some x) })
              (record { rest = rest; pos = pos + n }))
          long)
