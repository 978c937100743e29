-- ===== src/Fmp4/Fragment/RoundTrip.antt =====
-- The boxes of a fragment, written and read.
use mse.Common.{ℕ, ◌+◌, ◌^◌, ◌<◌, ◌≡◌, refl, sym, ◌∙◌, arith, List, [], ◌++◌, some}
use mse.Common.{length}
use mse.Common.Outcome.{ok}
use mse.Pio.Cursor.{Write, Writes-room}
use mse.Fmp4.Box.{write_box, box_bytes, box-Writes}
use mse.Fmp4.Fragment.{
  MovieFragHeader, movie_frag_header_marshal, movie_frag_header_len, movie_frag_header_unmarshal,
  TrackFragDecodeTime, track_frag_decode_time_marshal, track_frag_decode_time_len,
  track_frag_decode_time_unmarshal, TrackFragHeader, track_frag_header_marshal,
  track_frag_header_len, track_frag_header_unmarshal,
}
use mse.Fmp4.Fragment.Run.{
  TrackFragRun, track_frag_run_marshal, track_frag_run_len, track_frag_run_unmarshal,
}
use mse.Fmp4.Fragment.RunReading.{unmarshal-run_bytes}
use mse.Fmp4.Fragment.RunBytes.{run_bytes, RunFits, run-Writes, len-run_bytes}
use mse.Fmp4.Fragment.TrackHeaderBytes.{
  tfhd_bytes, TfhdFits, tfhd-Writes, len-tfhd_bytes, unmarshal-tfhd_bytes,
}
use mse.Fmp4.Fragment.HeaderBytes.{
  mfhd_bytes, MfhdFits, mfhd-Writes, unmarshal-mfhd_bytes, tfdt_bytes, TfdtFits, tfdt-Writes,
  len-tfdt_bytes, unmarshal-tfdt_bytes,
}
use mse.Fmp4.Fragment.Track.{tag_tfhd, tag_tfdt, tag_trun}

-- `MFHD`
abbrev pub tag_mfhd : ℕ
tag_mfhd = 0x6d666864

-- A box without children in a fragment, as a value of the interface `Atom`.
pub data Leaf : Type 0 where
  mfhd : MovieFragHeader → Leaf
  tfhd : TrackFragHeader → Leaf
  tfdt : TrackFragDecodeTime → Leaf
  trun : TrackFragRun → Leaf

unfoldable pub leaf_marshal : Leaf → Write
leaf_marshal (mfhd a) = write_box tag_mfhd (movie_frag_header_marshal a)
leaf_marshal (tfhd a) = write_box tag_tfhd (track_frag_header_marshal a)
leaf_marshal (tfdt a) = write_box tag_tfdt (track_frag_decode_time_marshal a)
leaf_marshal (trun a) = write_box tag_trun (track_frag_run_marshal a)

unfoldable pub leaf_len : Leaf → ℕ
leaf_len (mfhd a) = movie_frag_header_len a
leaf_len (tfhd a) = track_frag_header_len a
leaf_len (tfdt a) = track_frag_decode_time_len a
leaf_len (trun a) = track_frag_run_len a

-- The fields fit; a run has no composition times, or is of version 0.
abbrev pub LeafFits : Leaf → Type 0
LeafFits (mfhd a) = MfhdFits a
LeafFits (tfhd a) = TfhdFits a
LeafFits (tfdt a) = TfdtFits a
LeafFits (trun a) = RunFits a

-- The parser of the box's type reads it from `box`, at `offset`.
abbrev pub IsReadFrom : Leaf → List ℕ → ℕ → Type 0
IsReadFrom (mfhd a) box offset =
    movie_frag_header_unmarshal (record { rest = box; pos = offset })
    ≡ ok (
      record a { pos = record { offset = offset; size = length box } },
      record { rest = []; pos = offset + movie_frag_header_len a },
    )
IsReadFrom (tfhd a) box offset =
    track_frag_header_unmarshal (record { rest = box; pos = offset })
    ≡ ok (
      record a { pos = record { offset = offset; size = length box } },
      record { rest = []; pos = offset + track_frag_header_len a },
    )
IsReadFrom (tfdt a) box offset =
    track_frag_decode_time_unmarshal (record { rest = box; pos = offset })
    ≡ ok (
      record a { pos = record { offset = offset; size = length box } },
      record { rest = []; pos = offset + track_frag_decode_time_len a },
    )
IsReadFrom (trun a) box offset =
    track_frag_run_unmarshal (record { rest = box; pos = offset })
    ≡ ok (
      record a { pos = record { offset = offset; size = length box } },
      record { rest = []; pos = offset + track_frag_run_len a },
    )

-- A box of a fragment whose fields fit, in a buffer with room for `Len` bytes, is marshalled into
-- these and no other, and the parser of its type reads the same from them, with its place.
pub leaf_marshal-IsReadFrom :
    (a : Leaf) (pre room rest : List ℕ) (offset : ℕ)
    → LeafFits a
    → leaf_len a < 2 ^ 32
    → length room ≡ leaf_len a
    → (box : List ℕ) × (leaf_marshal a (pre ++ (room ++ rest)) (length pre)
        ≡ some (pre ++ (box ++ rest), length pre + length box))
      × (length box ≡ leaf_len a)
      × IsReadFrom a box offset
unfolding leaf_marshal leaf_len movie_frag_header_len
leaf_marshal-IsReadFrom (mfhd a) pre room rest offset fits small size = (
  box_bytes tag_mfhd (mfhd_bytes a),
  Writes-room (box-Writes tag_mfhd _ _ (omega arith) (mfhd-Writes a)) pre room rest size,
  refl,
  unmarshal-mfhd_bytes a (record { rest = box_bytes tag_mfhd (mfhd_bytes a); pos = offset }) fits
      refl,
)
leaf_marshal-IsReadFrom (tfhd a) pre room rest offset fits small size =
    let long : length (box_bytes tag_tfhd (tfhd_bytes a)) ≡ track_frag_header_len a =
      omega (arith, len-tfhd_bytes a) in
    (
      box_bytes tag_tfhd (tfhd_bytes a),
      Writes-room (box-Writes tag_tfhd _ _ (omega (arith, len-tfhd_bytes a, small)) (tfhd-Writes a))
          pre room rest (size ∙ sym long),
      long,
      unmarshal-tfhd_bytes a (record { rest = box_bytes tag_tfhd (tfhd_bytes a); pos = offset })
          fits refl,
    )
leaf_marshal-IsReadFrom (tfdt a) pre room rest offset fits small size =
    let long : length (box_bytes tag_tfdt (tfdt_bytes a)) ≡ track_frag_decode_time_len a =
      omega (arith, len-tfdt_bytes a) in
    (
      box_bytes tag_tfdt (tfdt_bytes a),
      Writes-room
          (box-Writes tag_tfdt _ _ (omega (arith, len-tfdt_bytes a, small)) (tfdt-Writes a fits))
          pre room rest (size ∙ sym long),
      long,
      unmarshal-tfdt_bytes a (record { rest = box_bytes tag_tfdt (tfdt_bytes a); pos = offset })
          fits refl,
    )
leaf_marshal-IsReadFrom (trun a) pre room rest offset fits small size =
    let long : length (box_bytes tag_trun (run_bytes a)) ≡ track_frag_run_len a =
      omega (arith, len-run_bytes a) in
    (
      box_bytes tag_trun (run_bytes a),
      Writes-room
          (box-Writes tag_trun _ _ (omega (arith, len-run_bytes a, small)) (run-Writes a fits)) pre
          room rest (size ∙ sym long),
      long,
      unmarshal-run_bytes a (record { rest = box_bytes tag_trun (run_bytes a); pos = offset }) fits
          refl,
    )
