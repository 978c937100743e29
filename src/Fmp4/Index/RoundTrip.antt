-- ===== src/Fmp4/Index/RoundTrip.antt =====
-- Reading the index of a segment back from its bytes.
use mathlib.Core.List.{append-nil}
use mse.Common.{
  ℕ, ◌+◌, ◌*◌, ◌^◌, ◌<◌, ◌≡◌, refl, sym, ap, ap₂, ◌∙◌, arith, List, [], ◌∷◌, ◌++◌, some, inl, inr,
}
use mse.Common.{◌==◌, length, length-append, Bool-cases}
use mse.Common.Outcome.{ok}
use mse.Pio.Layout.{be16, be32, be64}
use mse.Pio.Cursor.{bytes_of}
use mse.Pio.Over.{zeros}
use mse.Pio.Fetch.{Trace, need-ok, fetch-bytes_of}
use mse.Fmp4.Box.{
  Message, in_reference_id, in_earliest_pts, in_reference_count, in_segment_reference, box_bytes,
}
use mse.Fmp4.FullAtom.{unmarshal-full_atom_bytes}
use mse.Fmp4.Index.{
  SegmentIndex, tag_sidx, segment_index_len, segment_index_marshal, take_references, take_times,
  segment_index_unmarshal,
}
use mse.Fmp4.Index.Bytes.{
  references_bytes, times_bytes, index_bytes, IndexFits, length-references_bytes,
  length-index_bytes, len-small, marshal-index_bytes,
}
use mse.Fmp4.Index.References.{references_read, references-eq}

times-eq :
    (s : SegmentIndex) (rest : List ℕ) (pos : ℕ)
    → IndexFits s
    → take_times s.full_atom.version (record { rest = times_bytes s ++ rest; pos = pos })
      ≡ ok (
        (s.earliest_pts, s.first_offset),
        record { rest = rest; pos = pos + length (times_bytes s) },
      )
unfolding take_times
times-eq s rest pos (_, _, _, _, hp, ho, _, _) = elim (Bool-cases (s.full_atom.version == 0)) [
  | inl e ↦
      let hp0 : s.earliest_pts < 2 ^ 32 = ground (arith, e, hp) in
      let ho0 : s.first_offset < 2 ^ 32 = ground (arith, e, ho) in
      rw
        (
          e,
          need-ok 8 in_earliest_pts
              (record {
                rest = bytes_of be32 s.earliest_pts ++ (bytes_of be32 s.first_offset ++ rest);
                pos = pos;
              })
              (omega arith),
          fetch-bytes_of {E = Trace Message} be32 s.earliest_pts
              (bytes_of be32 s.first_offset ++ rest) pos hp0,
          fetch-bytes_of {E = Trace Message} be32 s.first_offset rest (pos + 4) ho0,
        )
        (ap (λ (p : ℕ). ok ((s.earliest_pts, s.first_offset), record { rest = rest; pos = p }))
          (omega arith))
  | inr e ↦
      let hp1 : s.earliest_pts < 2 ^ 64 = ground (arith, e, hp) in
      let ho1 : s.first_offset < 2 ^ 64 = ground (arith, e, ho) in
      rw
        (
          e,
          need-ok 16 in_earliest_pts
              (record {
                rest = bytes_of be64 s.earliest_pts ++ (bytes_of be64 s.first_offset ++ rest);
                pos = pos;
              })
              (omega arith),
          fetch-bytes_of {E = Trace Message} be64 s.earliest_pts
              (bytes_of be64 s.first_offset ++ rest) pos hp1,
          fetch-bytes_of {E = Trace Message} be64 s.first_offset rest (pos + 8) ho1,
        )
        (ap (λ (p : ℕ). ok ((s.earliest_pts, s.first_offset), record { rest = rest; pos = p }))
          (omega arith))
]

-- the index as it is read, in a box at `offset`
abbrev pub index_read : SegmentIndex → ℕ → SegmentIndex
index_read s offset = record s {
  full_atom = record s.full_atom { pos = record { offset = offset; size = segment_index_len s } };
  references = references_read s.references;
}

unmarshal-index_bytes :
    (s : SegmentIndex) (offset : ℕ)
    → IndexFits s
    → segment_index_unmarshal (record { rest = box_bytes tag_sidx (index_bytes s); pos = offset })
      ≡ ok (index_read s offset, record { rest = []; pos = offset + segment_index_len s })
unfolding segment_index_unmarshal
unmarshal-index_bytes s offset fits =
    let box : List ℕ = box_bytes tag_sidx (index_bytes s) in
    let refs : List ℕ = references_bytes s.references in
    let counted : List ℕ = bytes_of be16 (length s.references) ++ refs in
    let timed : List ℕ = times_bytes s ++ ((0 ∷ 0 ∷ []) ++ counted) in
    let p : ℕ = offset + 8 + 1 + 3 in
    let q : ℕ = p + 4 + 4 + length (times_bytes s) in
    let long : length box ≡ segment_index_len s = omega (arith, length-index_bytes s) in
    let read : take_references (record { rest = box; pos = offset }) (length s.references)
          (record { rest = refs; pos = q + 2 + 2 })
        ≡ ok (
          references_read s.references,
          record { rest = []; pos = q + 2 + 2 + 12 * length s.references },
        ) =
      ap
        (λ (b : List ℕ).
          take_references (record { rest = box; pos = offset }) (length s.references)
            (record { rest = b; pos = q + 2 + 2 }))
        (sym (append-nil refs))
      ∙ references-eq (8 + length (index_bytes s)) (bytes_of be32 tag_sidx ++ index_bytes s) offset
          (omega (arith, length-index_bytes s, len-small s fits.6)) s.references [] (q + 2 + 2)
          fits.7 in
    rw
      (
        unmarshal-full_atom_bytes s.full_atom (record { rest = box; pos = offset })
            (bytes_of be32 s.reference_id ++ (bytes_of be32 s.time_scale ++ timed)) fits.0 fits.1
            refl,
        need-ok 8 in_reference_id
            (record {
              rest = bytes_of be32 s.reference_id ++ (bytes_of be32 s.time_scale ++ timed);
              pos = p;
            })
            (omega arith),
        fetch-bytes_of {E = Trace Message} be32 s.reference_id (bytes_of be32 s.time_scale ++ timed)
            p fits.2,
        fetch-bytes_of {E = Trace Message} be32 s.time_scale timed (p + 4) fits.3,
        times-eq s ((0 ∷ 0 ∷ []) ++ counted) (p + 4 + 4) fits,
        need-ok 4 in_reference_count (record { rest = (0 ∷ 0 ∷ []) ++ counted; pos = q })
            (omega arith),
        fetch-bytes_of {E = Trace Message} be16 (length s.references) refs (q + 2) fits.6,
        need-ok (12 * length s.references) in_segment_reference
            (record { rest = refs; pos = q + 2 + 2 })
            (omega (arith, length-references_bytes s.references)),
        read,
      )
      (ap₂
        (λ (n : ℕ) (k : ℕ). ok (
          record (index_read s offset) {
            full_atom = record s.full_atom { pos = record { offset = offset; size = n } };
          },
          record { rest = []; pos = k },
        ))
        long
        (omega (
          arith,
          length-index_bytes s,
          length-append (times_bytes s) ((0 ∷ 0 ∷ []) ++ counted),
          length-references_bytes s.references,
        )))

-- An index whose fields fit, with sizes below 2 ^ 31 and fewer than 2 ^ 16 references, is marshalled
-- into all of a fresh buffer of `Len` bytes, and what `Unmarshal` reads from them is the same but for
-- its place and its references: each has the size 2 ^ 31 or 0, by the bit of the box, and no access
-- point.
pub segment_index_unmarshal-segment_index_marshal :
    (s : SegmentIndex) (offset : ℕ)
    → IndexFits s
    → (box : List ℕ) × (segment_index_marshal s (zeros (segment_index_len s)) 0
        ≡ some (box, segment_index_len s))
      × (segment_index_unmarshal (record { rest = box; pos = offset })
          ≡ ok (index_read s offset, record { rest = []; pos = offset + segment_index_len s }))
segment_index_unmarshal-segment_index_marshal s offset fits = (
  box_bytes tag_sidx (index_bytes s),
  marshal-index_bytes s fits,
  unmarshal-index_bytes s offset fits,
)
