-- ===== src/Fmp4/Fragment/TrackBytes.antt =====
-- The bytes of the box of a track in a fragment.
use mathlib.Core.List.{append-nil}
use mse.Common.{ℕ, ◌+◌, ◌≡◌, refl, sym, arith, List, [], ◌++◌, Option, none, some}
use mse.Common.{length, length-append}
use mse.Pio.Cursor.{Write, Writes, nothing-Writes, then-Writes}
use mse.Fmp4.Box.{box-Writes}
use mse.Fmp4.Fragment.{
  TrackFragHeader, track_frag_header_len, track_frag_header_marshal, TrackFragDecodeTime,
  track_frag_decode_time_len, track_frag_decode_time_marshal,
}
use mse.Fmp4.Fragment.Run.{TrackFragRun, track_frag_run_len, track_frag_run_marshal}
use mse.Fmp4.Fragment.RunBytes.{run_bytes, run-Writes, len-run_bytes}
use mse.Fmp4.Fragment.HeaderBytes.{tfdt_bytes, tfdt-Writes, len-tfdt_bytes}
use mse.Fmp4.Fragment.TrackHeaderBytes.{tfhd_bytes, tfhd-Writes, len-tfhd_bytes}
use mse.Fmp4.Fragment.Track.{
  TrackFrag, tag_tfhd, tag_tfdt, tag_trun, put_child, put_unknowns, track_frag_marshal, len_child,
  len_unknowns, track_frag_len,
}
use mse.Fmp4.Fragment.Children.{
  child_bytes, header_at, HeaderFits, decode_time_at, DecodeTimeFits, run_at, RunChildFits,
}

module _ (a : TrackFrag) where
  abbrev pub header_part : List ℕ
  header_part = child_bytes tag_tfhd tfhd_bytes a.header

  abbrev pub time_part : List ℕ
  time_part = child_bytes tag_tfdt tfdt_bytes a.decode_time

  abbrev pub run_part : List ℕ
  run_part = child_bytes tag_trun run_bytes a.run

  abbrev pub children_bytes : List ℕ
  children_bytes = header_part ++ (time_part ++ run_part)

  -- the position of the decode time and of the run, for a box at `offset`
  abbrev pub time_pos : ℕ → ℕ
  time_pos offset = offset + 8 + len_child track_frag_header_len a.header

  abbrev pub run_pos : ℕ → ℕ
  run_pos offset = time_pos offset + len_child track_frag_decode_time_len a.decode_time

  -- the track as it is read from a box at `offset`
  abbrev pub track_read : ℕ → TrackFrag
  track_read offset = record {
    header = header_at (offset + 8) a.header;
    decode_time = decode_time_at (time_pos offset) a.decode_time;
    run = run_at (run_pos offset) a.run;
    unknowns = [];
    pos = record { offset = offset; size = track_frag_len a };
  }

-- The children fit, and there are none of an unknown tag.
abbrev pub TrackFits : TrackFrag → Type 0
TrackFits a =
    HeaderFits a.header × DecodeTimeFits a.decode_time × RunChildFits a.run × (a.unknowns ≡ [])

pub header_length :
    (o : Option TrackFragHeader)
    → length (child_bytes tag_tfhd tfhd_bytes o) ≡ len_child track_frag_header_len o
unfolding len_child
header_length none = refl
header_length (some x) = omega (arith, len-tfhd_bytes x)

pub time_length :
    (o : Option TrackFragDecodeTime)
    → length (child_bytes tag_tfdt tfdt_bytes o) ≡ len_child track_frag_decode_time_len o
unfolding len_child
time_length none = refl
time_length (some x) = omega (arith, len-tfdt_bytes x)

pub run_length :
    (o : Option TrackFragRun)
    → length (child_bytes tag_trun run_bytes o) ≡ len_child track_frag_run_len o
unfolding len_child
run_length none = refl
run_length (some x) = omega (arith, len-run_bytes x)

header_Writes :
    (o : Option TrackFragHeader)
    → HeaderFits o
    → Writes (put_child tag_tfhd track_frag_header_marshal o) (child_bytes tag_tfhd tfhd_bytes o)
unfolding put_child
header_Writes none fits = nothing-Writes
header_Writes (some x) (fits, small) =
    box-Writes tag_tfhd _ _ (omega (arith, len-tfhd_bytes x, small)) (tfhd-Writes x)

time_Writes :
    (o : Option TrackFragDecodeTime)
    → DecodeTimeFits o
    → Writes
        (put_child tag_tfdt track_frag_decode_time_marshal o)
        (child_bytes tag_tfdt tfdt_bytes o)
unfolding put_child
time_Writes none fits = nothing-Writes
time_Writes (some x) (fits, small) =
    box-Writes tag_tfdt _ _ (omega (arith, len-tfdt_bytes x, small)) (tfdt-Writes x fits)

run_Writes :
    (o : Option TrackFragRun)
    → RunChildFits o
    → Writes (put_child tag_trun track_frag_run_marshal o) (child_bytes tag_trun run_bytes o)
unfolding put_child
run_Writes none fits = nothing-Writes
run_Writes (some x) (fits, small) =
    box-Writes tag_trun _ _ (omega (arith, len-run_bytes x, small)) (run-Writes x fits)

pub length-children_bytes :
    (a : TrackFrag) → a.unknowns ≡ [] → 8 + length (children_bytes a) ≡ track_frag_len a
unfolding track_frag_len len_unknowns
length-children_bytes a only = rw only (
    omega (
      arith,
      length-append (header_part a) (time_part a ++ run_part a),
      length-append (time_part a) (run_part a),
      header_length a.header,
      time_length a.decode_time,
      run_length a.run,
    ))

pub children-Writes :
    (a : TrackFrag) → TrackFits a → Writes (track_frag_marshal a) (children_bytes a)
unfolding track_frag_marshal put_unknowns
children-Writes a (hh, ht, hr, only) =
    let behind : Writes (put_unknowns a.unknowns) [] = rw only nothing-Writes in
    let whole : run_part a ++ [] ≡ run_part a = append-nil (run_part a) in
    ap_to whole (
      then-Writes (header_Writes a.header hh)
        (then-Writes (time_Writes a.decode_time ht) (then-Writes (run_Writes a.run hr) behind)))
  where
    ap_to :
        {m : Write}
        → run_part a ++ [] ≡ run_part a
        → Writes m (header_part a ++ (time_part a ++ (run_part a ++ [])))
        → Writes m (children_bytes a)
    ap_to whole written = rw (sym whole) written
