-- ===== src/Fmp4/Index/Bytes.antt =====
-- The bytes of the index of a segment.
use mathlib.Core.List.{append-nil}
use mse.Common.{
  ℕ, ◌+◌, ◌*◌, ◌%◌, ◌^◌, ◌<◌, ◌≡◌, refl, sym, ap, ap₂, ◌∙◌, arith, List, [], ◌∷◌, ◌++◌, some, inl,
  inr,
}
use mse.Common.{◌==◌, if◌then◌else◌, length, length-append, Bool-cases}
use mse.Pio.Layout.{be16, be32, be64}
use mse.Pio.Cursor.{
  ◌then_write◌, write, bytes_of, Writes, write-Writes, nothing-Writes, then-Writes,
}
use mse.Pio.Over.{
  WritesOver, skip, skip-WritesOver, then-WritesOver, zeros, length-zeros, zeros_append,
  Writes-zeros,
}
use mse.Fmp4.Box.{box_bytes, box-WritesOver}
use mse.Fmp4.FullAtom.{full_atom_bytes, full_atom-Writes}
use mse.Fmp4.Index.{
  SegmentReference, SegmentIndex, tag_sidx, segment_index_len, size_word, sap_word, put_references,
  segment_index_marshal,
}

abbrev pub references_bytes : List SegmentReference → List ℕ
references_bytes [] = []
references_bytes (r ∷ rs) =
    bytes_of be32 (size_word r)
    ++ (bytes_of be32 r.subsegment_duration ++ (bytes_of be32 (sap_word r) ++ references_bytes rs))

abbrev pub times_bytes : SegmentIndex → List ℕ
times_bytes s =
    if s.full_atom.version == 0
    then bytes_of be32 s.earliest_pts ++ bytes_of be32 s.first_offset
    else bytes_of be64 s.earliest_pts ++ bytes_of be64 s.first_offset

abbrev pub index_bytes : SegmentIndex → List ℕ
index_bytes s =
    full_atom_bytes s.full_atom
    ++ (bytes_of be32 s.reference_id
        ++ (bytes_of be32 s.time_scale
            ++ (times_bytes s
                ++ ((0 ∷ 0 ∷ [])
                    ++ (bytes_of be16 (length s.references) ++ references_bytes s.references)))))

abbrev pub ReferencesFit : List SegmentReference → Type 0
ReferencesFit [] = Unit
ReferencesFit (r ∷ rs) =
    (r.referenced_size < 2 ^ 31) × (r.subsegment_duration < 2 ^ 32) × ReferencesFit rs

-- The fields fit their bytes; those of version 0 have 4 bytes for a time.
abbrev pub IndexFits : SegmentIndex → Type 0
IndexFits s =
    (s.full_atom.version < 256)
    × (s.full_atom.flags < 2 ^ 24)
    × (s.reference_id < 2 ^ 32)
    × (s.time_scale < 2 ^ 32)
    × (s.earliest_pts < (if s.full_atom.version == 0 then 2 ^ 32 else 2 ^ 64))
    × (s.first_offset < (if s.full_atom.version == 0 then 2 ^ 32 else 2 ^ 64))
    × (length s.references < 2 ^ 16)
    × ReferencesFit s.references

pub length-references_bytes :
    (rs : List SegmentReference) → length (references_bytes rs) ≡ 12 * length rs
length-references_bytes [] = refl
length-references_bytes (r ∷ rs) = omega (arith, length-references_bytes rs)

references-Writes : (rs : List SegmentReference) → Writes (put_references rs) (references_bytes rs)
unfolding put_references
references-Writes [] = nothing-Writes
references-Writes (r ∷ rs) = then-Writes (write-Writes be32 (size_word r)) (
    then-Writes (write-Writes be32 r.subsegment_duration)
      (then-Writes (write-Writes be32 (sap_word r)) (references-Writes rs)))

times_length :
    (s : SegmentIndex)
    → length (times_bytes s) ≡ (if s.full_atom.version == 0 then 4 + 4 else 8 + 8)
times_length s = elim (Bool-cases (s.full_atom.version == 0)) [
  | inl e ↦ rw e refl
  | inr e ↦ rw e refl
]

pub length-index_bytes : (s : SegmentIndex) → 8 + length (index_bytes s) ≡ segment_index_len s
unfolding segment_index_len
length-index_bytes s = omega (
  arith,
  times_length s,
  length-append (times_bytes s)
      ((0 ∷ 0 ∷ []) ++ (bytes_of be16 (length s.references) ++ references_bytes s.references)),
  length-references_bytes s.references,
)

times-Writes :
    (s : SegmentIndex)
    → IndexFits s
    → Writes
        (if s.full_atom.version == 0
          then write be32 (s.earliest_pts % 2 ^ 32) then_write write be32 (s.first_offset % 2 ^ 32)
          else write be64 s.earliest_pts then_write write be64 s.first_offset)
        (times_bytes s)
times-Writes s (_, _, _, _, hp, ho, _, _) = elim (Bool-cases (s.full_atom.version == 0)) [
  | inl e ↦
      let pts : s.earliest_pts % 2 ^ 32 ≡ s.earliest_pts = ground (arith, e, hp) in
      let first : s.first_offset % 2 ^ 32 ≡ s.first_offset = ground (arith, e, ho) in
      rw (e, pts, first)
        (then-Writes (write-Writes be32 s.earliest_pts) (write-Writes be32 s.first_offset))
  | inr e ↦ rw e (then-Writes (write-Writes be64 s.earliest_pts) (write-Writes be64 s.first_offset))
]

-- the fresh bytes of each part of the body
abbrev room : SegmentIndex → List ℕ
room s =
    zeros 4
    ++ (zeros 4
        ++ (zeros 4
            ++ (zeros (length (times_bytes s))
                ++ (zeros 2 ++ (zeros 2 ++ zeros (12 * length s.references))))))

room_zeros : (s : SegmentIndex) → zeros 4 ++ (zeros 4 ++ room s) ≡ zeros (segment_index_len s)
room_zeros s = simp zeros_append (
    ap zeros
      {x = 4
        + (4 + (4 + (4 + (4 + (length (times_bytes s) + (2 + (2 + 12 * length s.references)))))))}
      {y = segment_index_len s} (unfold segment_index_len in omega (arith, times_length s)))

skip_two : WritesOver (skip 2) (zeros 2) (0 ∷ 0 ∷ [])
unfolding zeros
skip_two = skip-WritesOver (0 ∷ 0 ∷ [])

pub len-small : (s : SegmentIndex) → length s.references < 2 ^ 16 → segment_index_len s < 2 ^ 20
unfolding segment_index_len
len-small s h = ground (arith, h)

index-WritesOver :
    (s : SegmentIndex)
    → IndexFits s
    → WritesOver
        (segment_index_marshal s)
        (zeros 4 ++ (zeros 4 ++ room s))
        (box_bytes tag_sidx (index_bytes s))
unfolding segment_index_marshal
index-WritesOver s fits =
    let count : length s.references % 2 ^ 16 ≡ length s.references = omega (arith, fits.6) in
    let counted : Writes (write be16 (length s.references % 2 ^ 16))
        (bytes_of be16 (length s.references)) =
      rw count (write-Writes be16 (length s.references)) in
    box-WritesOver tag_sidx _ _ (omega (arith, length-index_bytes s, len-small s fits.6)) (zeros 4)
      (zeros 4) (length-zeros 4) (length-zeros 4)
      (then-WritesOver (Writes-zeros 4 (full_atom-Writes s.full_atom) refl) (
        then-WritesOver (Writes-zeros 4 (write-Writes be32 s.reference_id) refl) (
          then-WritesOver (Writes-zeros 4 (write-Writes be32 s.time_scale) refl) (
            then-WritesOver (Writes-zeros (length (times_bytes s)) (times-Writes s fits) refl) (
              then-WritesOver skip_two (
                then-WritesOver (Writes-zeros 2 counted refl) (
                  Writes-zeros (12 * length s.references) (references-Writes s.references)
                    (length-references_bytes s.references))))))))

pub marshal-index_bytes :
    (s : SegmentIndex)
    → IndexFits s
    → segment_index_marshal s (zeros (segment_index_len s)) 0
      ≡ some (box_bytes tag_sidx (index_bytes s), segment_index_len s)
marshal-index_bytes s fits =
    let fresh : List ℕ = zeros 4 ++ (zeros 4 ++ room s) in
    ap (λ (b : List ℕ). segment_index_marshal s b 0) (sym (append-nil fresh ∙ room_zeros s))
    ∙ (index-WritesOver s fits).over [] []
    ∙ ap₂ (λ (b : List ℕ) (n : ℕ). some (b, n)) (append-nil (box_bytes tag_sidx (index_bytes s)))
        (omega (arith, length-index_bytes s))
