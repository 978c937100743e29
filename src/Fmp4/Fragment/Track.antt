-- ===== src/Fmp4/Fragment/Track.antt =====
-- format/fmp4/fmp4io/fragment.go: the box of a track in a fragment, which holds the others, and the
-- loop over its children.
use mse.Common.{ℕ, zero, suc, ◌+◌, List, [], ◌∷◌, ◌++◌, Option, none, some}
use mse.Common.{◌==◌, if◌then◌else◌, ltb, length, take}
use mse.Common.Outcome.{ok, err, panic, ◌>>=◌, ◌>>◌}
use mse.Pio.Layout.{be32}
use mse.Pio.Cursor.{Write, ◌then_write◌, write_nothing, write_copy}
use mse.Pio.Fetch.{Cursor, advance, need, fetch, wrap}
use mse.Fmp4.Box.{in_tfhd, in_tfdt, in_trun, in_tag_size, Result, AtomPos, set_pos, write_box}
use mse.Fmp4.Fragment.{
  TrackFragDecodeTime, track_frag_decode_time_marshal, track_frag_decode_time_len,
  track_frag_decode_time_unmarshal, TrackFragHeader, track_frag_header_marshal,
  track_frag_header_len, track_frag_header_unmarshal,
}
use mse.Fmp4.Fragment.Run.{
  TrackFragRun, track_frag_run_marshal, track_frag_run_len, track_frag_run_unmarshal,
}

abbrev pub tag_traf : ℕ
tag_traf = 0x74726166

abbrev pub tag_tfhd : ℕ
tag_tfhd = 0x74666864

abbrev pub tag_tfdt : ℕ
tag_tfdt = 0x74666474

abbrev pub tag_trun : ℕ
tag_trun = 0x7472756e

-- `Dummy`, a box of a tag that the parser does not know; its bytes are the whole box
pub record Dummy : Type 0 where
  pub tag : ℕ
  pub bytes : List ℕ
  pub pos : AtomPos

pub record TrackFrag : Type 0 where
  pub header : Option TrackFragHeader
  pub decode_time : Option TrackFragDecodeTime
  pub run : Option TrackFragRun
  pub unknowns : List Dummy
  pub pos : AtomPos

-- `if child != nil { n += child.Marshal(b[n:]) }`
unfoldable pub put_child : {A : Type 0} → ℕ → (A → Write) → Option A → Write
put_child tag marshal none = write_nothing
put_child tag marshal (some a) = write_box tag (marshal a)

unfoldable pub put_unknowns : List Dummy → Write
put_unknowns [] = write_nothing
put_unknowns (d ∷ ds) = write_copy d.bytes then_write put_unknowns ds

unfoldable pub track_frag_marshal : TrackFrag → Write
track_frag_marshal a =
    put_child tag_tfhd track_frag_header_marshal a.header
    then_write put_child tag_tfdt track_frag_decode_time_marshal a.decode_time
    then_write put_child tag_trun track_frag_run_marshal a.run
    then_write put_unknowns a.unknowns

unfoldable pub len_child : {A : Type 0} → (A → ℕ) → Option A → ℕ
len_child len none = 0
len_child len (some a) = len a

unfoldable pub len_unknowns : List Dummy → ℕ
len_unknowns [] = 0
len_unknowns (d ∷ ds) = length d.bytes + len_unknowns ds

unfoldable pub track_frag_len : TrackFrag → ℕ
track_frag_len a =
    8
    + len_child track_frag_header_len a.header
    + len_child track_frag_decode_time_len a.decode_time
    + len_child track_frag_run_len a.run
    + len_unknowns a.unknowns

-- the `switch` over the tag, on the bytes of the child
unfoldable pub track_frag_switch : TrackFrag → ℕ → Cursor → Result TrackFrag
track_frag_switch a tag box =
    let header : Result TrackFrag = (do
      (h, c) ← wrap in_tfhd box.pos (track_frag_header_unmarshal box)
      ok (record a { header = some h }, c)) in
    let decode_time : Result TrackFrag = (do
      (t, c) ← wrap in_tfdt box.pos (track_frag_decode_time_unmarshal box)
      ok (record a { decode_time = some t }, c)) in
    let run : Result TrackFrag = (do
      (r, c) ← wrap in_trun box.pos (track_frag_run_unmarshal box)
      ok (record a { run = some r }, c)) in
    let unknown : Dummy = record { tag = tag; bytes = box.rest; pos = set_pos box } in
    if tag == tag_tfhd
    then header
    else if tag == tag_tfdt
    then decode_time
    else if tag == tag_trun
    then run
    else ok (record a { unknowns = a.unknowns ++ unknown ∷ [] }, box)

-- a round of the loop, which goes on behind the length that the child announces
unfoldable pub track_frag_round : TrackFrag → Cursor → Result TrackFrag
track_frag_round a c = do
  (tag, _) ← fetch be32 (advance 4 c)
  (size, _) ← fetch be32 c
  need size in_tag_size c
  (a1, _) ← track_frag_switch a tag (record { rest = take size c.rest; pos = c.pos })
  ok (a1, advance size c)

-- The loop, for as many rounds as there is fuel: `none` if it has not ended by then.
unfoldable pub track_frag_loop : ℕ → TrackFrag → Cursor → Option (Result TrackFrag)
track_frag_loop zero a c = none
track_frag_loop (suc fuel) a c =
    if ltb 8 (length c.rest)
    then elim (track_frag_round a c) [
      | ok (a1, c1) ↦ track_frag_loop fuel a1 c1
      | err e ↦ some (err e)
      | panic ↦ some panic
    ]
    else some (ok (a, c))

unfoldable pub track_frag_unmarshal : ℕ → Cursor → Option (Result TrackFrag)
track_frag_unmarshal fuel c =
    track_frag_loop fuel
      (record { header = none; decode_time = none; run = none; unknowns = []; pos = set_pos c })
      (advance 8 c)
