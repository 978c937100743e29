-- ===== src/Fmp4/Index.antt =====
-- format/fmp4/fmp4io/segindex.go: the index of a segment.
pub mod Bytes
pub mod References
pub mod RoundTrip
use mse.Common.{ℕ, zero, suc, ◌+◌, ◌-◌, ◌*◌, ◌/◌, ◌%◌, ◌^◌, Bool, true, false, not, List, [], ◌∷◌}
use mse.Common.{◌==◌, if◌then◌else◌, length, bit_and, bit_or}
use mse.Common.Outcome.{Outcome, ok, err, panic, ◌>>=◌, ◌>>◌}
use mse.Pio.Layout.{byte, be16, be32, be64}
use mse.Pio.Cursor.{Write, ◌then_write◌, write, write_nothing}
use mse.Pio.Fetch.{Cursor, advance, need, fetch}
use mse.Pio.Over.{skip}
use mse.Fmp4.Box.{
  Message, in_reference_id, in_earliest_pts, in_reference_count, in_segment_reference, Result,
  write_box,
}
use mse.Fmp4.FullAtom.{FullAtom, marshal_full_atom, unmarshal_full_atom}

pub record SegmentReference : Type 0 where
  pub references_box : Bool
  pub referenced_size : ℕ
  pub subsegment_duration : ℕ
  pub starts_with_sap : Bool
  pub sap_type : ℕ
  pub sap_delta_time : ℕ

pub record SegmentIndex : Type 0 where
  pub full_atom : FullAtom
  pub reference_id : ℕ
  pub time_scale : ℕ
  pub earliest_pts : ℕ
  pub first_offset : ℕ
  pub references : List SegmentReference

-- `SIDX`
abbrev pub tag_sidx : ℕ
tag_sidx = 0x73696478

-- `Len`
unfoldable pub segment_index_len : SegmentIndex → ℕ
segment_index_len s =
    12
    + 4
    + 4
    + (if s.full_atom.version == 0 then 4 + 4 else 8 + 8)
    + 2
    + 2
    + 12 * length s.references

-- the first and the last word of a reference
unfoldable pub size_word : SegmentReference → ℕ
size_word r = if r.references_box then bit_or r.referenced_size (2 ^ 31) else r.referenced_size

unfoldable pub sap_word : SegmentReference → ℕ
sap_word r =
    let v = bit_or (r.sap_type * 2 ^ 28 % 2 ^ 32) r.sap_delta_time in
    if r.starts_with_sap then bit_or v (2 ^ 31) else v

-- the loop of `Marshal`
unfoldable pub put_references : List SegmentReference → Write
put_references [] = write_nothing
put_references (r ∷ rs) =
    write be32 (size_word r)
    then_write write be32 r.subsegment_duration
    then_write write be32 (sap_word r)
    then_write put_references rs

-- `Marshal`, which leaves the two bytes before the count as they are
unfoldable pub segment_index_marshal : SegmentIndex → Write
segment_index_marshal s = write_box tag_sidx (
    marshal_full_atom s.full_atom
    then_write write be32 s.reference_id
    then_write write be32 s.time_scale
    then_write (if s.full_atom.version == 0
        then write be32 (s.earliest_pts % 2 ^ 32) then_write write be32 (s.first_offset % 2 ^ 32)
        else write be64 s.earliest_pts then_write write be64 s.first_offset)
    then_write skip 2
    then_write write be16 (length s.references % 2 ^ 16)
    then_write put_references s.references)

-- `x &^ m`
unfoldable pub bit_clear : ℕ → ℕ → ℕ
bit_clear x m = x - bit_and x m

-- A round of the loop of `Unmarshal`, in the box that begins at `whole`: `sapDelta` is read from
-- `b[:n]`, that is, from the front of the box.
unfoldable pub take_reference : Cursor → Cursor → Result SegmentReference
take_reference whole c = do
  (size, c1) ← fetch be32 c
  (duration, c2) ← fetch be32 c1
  (sap_delta, _) ← fetch be32 whole
  ok (
    record {
      references_box = not (bit_and size (2 ^ 31) == 0);
      referenced_size = bit_clear size (2 ^ 31 - 1);
      subsegment_duration = duration;
      starts_with_sap = not (bit_and sap_delta (2 ^ 31) == 0);
      sap_type = bit_and 0x7 (sap_delta / 2 ^ 28);
      sap_delta_time = bit_clear sap_delta (2 ^ 28 - 1);
    },
    advance 4 c2,
  )

unfoldable pub take_references : Cursor → ℕ → Cursor → Result (List SegmentReference)
take_references whole zero c = ok ([], c)
take_references whole (suc count) c = do
  (r, c1) ← take_reference whole c
  (rs, c2) ← take_references whole count c1
  ok (r ∷ rs, c2)

-- `EarliestPTS` and `FirstOffset`, in the width of the version
unfoldable pub take_times : ℕ → Cursor → Result (ℕ × ℕ)
take_times version c =
    let short : Result (ℕ × ℕ) = (do
      need 8 in_earliest_pts c
      (pts, c1) ← fetch be32 c
      (first, c2) ← fetch be32 c1
      ok ((pts, first), c2)) in
    let long : Result (ℕ × ℕ) = (do
      need 16 in_earliest_pts c
      (pts, c1) ← fetch be64 c
      (first, c2) ← fetch be64 c1
      ok ((pts, first), c2)) in
    if version == 0 then short else long

-- `Unmarshal`
unfoldable pub segment_index_unmarshal : Cursor → Result SegmentIndex
segment_index_unmarshal c = do
  (full_atom, c1) ← unmarshal_full_atom c
  need 8 in_reference_id c1
  (reference_id, c2) ← fetch be32 c1
  (time_scale, c3) ← fetch be32 c2
  ((earliest_pts, first_offset), c4) ← take_times full_atom.version c3
  need 4 in_reference_count c4
  (count, c5) ← fetch be16 (advance 2 c4)
  need (12 * count) in_segment_reference c5
  (references, c6) ← take_references c count c5
  ok (
    record {
      full_atom = full_atom;
      reference_id = reference_id;
      time_scale = time_scale;
      earliest_pts = earliest_pts;
      first_offset = first_offset;
      references = references;
    },
    c6,
  )
