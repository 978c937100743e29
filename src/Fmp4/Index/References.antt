-- ===== src/Fmp4/Index/References.antt =====
-- Reading the references of an index.
use mse.Common.{
  ℕ, ◌+◌, ◌-◌, ◌*◌, ◌/◌, ◌^◌, ◌<◌, ◌≡◌, refl, sym, ap, ◌∙◌, arith, false, not, List, [], ◌∷◌, ◌++◌,
  inl, inr,
}
use mse.Common.{◌==◌, if◌then◌else◌, length, bit_and, bit_or, Bool-cases}
use mse.Common.Bits.{bit_and-high, bit_and-ones, bit_or-shifted_last}
use mse.Common.Outcome.{ok}
use mse.Pio.Layout.{be32}
use mse.Pio.Cursor.{bytes_of}
use mse.Pio.Fetch.{Cursor, Trace, fetch-bytes_of}
use mse.Fmp4.Box.{Message}
use mse.Fmp4.Index.{
  SegmentReference, size_word, sap_word, bit_clear, take_reference, take_references,
}
use mse.Fmp4.Index.Bytes.{references_bytes, ReferencesFit}

-- What `Unmarshal` makes of a reference: of the size it keeps only the bit of the box, and the
-- access point, read from the length of the whole box, is lost.
abbrev pub as_read : SegmentReference → SegmentReference
as_read r = record r {
  referenced_size = if r.references_box then 2 ^ 31 else 0;
  starts_with_sap = false;
  sap_type = 0;
  sap_delta_time = 0;
}

abbrev pub references_read : List SegmentReference → List SegmentReference
references_read [] = []
references_read (r ∷ rs) = as_read r ∷ references_read rs

no_bit : (x : ℕ) → x < 2 ^ 31 → bit_and x (2 ^ 31) ≡ 0
no_bit x h =
    let low : 0 * 2 ^ 31 + x ≡ x = omega arith in
    ap (λ (y : ℕ). bit_and y (2 ^ 31)) (sym low) ∙ bit_and-high 31 0 x 1 h

box_bit :
    (r : SegmentReference)
    → r.referenced_size < 2 ^ 31
    → not (bit_and (size_word r) (2 ^ 31) == 0) ≡ r.references_box
unfolding size_word
box_bit r h = elim (Bool-cases r.references_box) [
  | inl e ↦
      let word : bit_or r.referenced_size (2 ^ 31) ≡ 1 * 2 ^ 31 + r.referenced_size =
        bit_or-shifted_last 31 1 r.referenced_size h in
      let bit : bit_and (1 * 2 ^ 31 + r.referenced_size) (2 ^ 31) ≡ 2 ^ 31 =
        bit_and-high 31 1 r.referenced_size 1 h in
      rw (e, word, bit) refl
  | inr e ↦ rw (e, no_bit r.referenced_size h) refl
]

size_left :
    (r : SegmentReference)
    → r.referenced_size < 2 ^ 31
    → bit_clear (size_word r) (2 ^ 31 - 1) ≡ (if r.references_box then 2 ^ 31 else 0)
unfolding size_word bit_clear
size_left r h = elim (Bool-cases r.references_box) [
  | inl e ↦
      let word : bit_or r.referenced_size (2 ^ 31) ≡ 1 * 2 ^ 31 + r.referenced_size =
        bit_or-shifted_last 31 1 r.referenced_size h in
      rw (e, word) (omega (arith, bit_and-ones 31 (1 * 2 ^ 31 + r.referenced_size), h))
  | inr e ↦ rw e (omega (arith, bit_and-ones 31 r.referenced_size, h))
]

size_fits : (r : SegmentReference) → r.referenced_size < 2 ^ 31 → size_word r < 2 ^ 32
unfolding size_word
size_fits r h = elim (Bool-cases r.references_box) [
  | inl e ↦ rw e (omega (arith, h, bit_or-shifted_last 31 1 r.referenced_size h))
  | inr e ↦ rw e (omega (arith, h))
]

module _ (len : ℕ) (behind : List ℕ) (offset : ℕ) (small : len < 2 ^ 20) where
  -- the front of the box
  abbrev whole : Cursor
  whole = record { rest = bytes_of be32 len ++ behind; pos = offset }

  reference-eq :
      (r : SegmentReference) (rest : List ℕ) (pos : ℕ)
      → r.referenced_size < 2 ^ 31
      → r.subsegment_duration < 2 ^ 32
      → take_reference whole (record {
        rest =
            bytes_of be32 (size_word r)
            ++ (bytes_of be32 r.subsegment_duration ++ (bytes_of be32 (sap_word r) ++ rest));
        pos = pos;
      })
        ≡ ok (as_read r, record { rest = rest; pos = pos + 4 + 4 + 4 })
  unfolding take_reference
  reference-eq r rest pos hs hd =
      rw
        (
          fetch-bytes_of {E = Trace Message} be32 (size_word r)
              (bytes_of be32 r.subsegment_duration ++ (bytes_of be32 (sap_word r) ++ rest)) pos
              (size_fits r hs),
          fetch-bytes_of {E = Trace Message} be32 r.subsegment_duration
              (bytes_of be32 (sap_word r) ++ rest) (pos + 4) hd,
          fetch-bytes_of {E = Trace Message} be32 len behind offset (omega arith),
          box_bit r hs,
          size_left r hs,
          top,
          kind,
          delta,
        )
        refl
    where
      top : bit_and len (2 ^ 31) ≡ 0
      top = no_bit len (omega arith)

      kind : bit_and 0x7 (len / 2 ^ 28) ≡ 0
      kind = let none_left : len / 2 ^ 28 ≡ 0 = omega arith in ap (bit_and 0x7) none_left

      delta : bit_clear len (2 ^ 28 - 1) ≡ 0
      delta = unfold bit_clear in omega (arith, bit_and-ones 28 len)

  pub references-eq :
      (rs : List SegmentReference) (rest : List ℕ) (pos : ℕ)
      → ReferencesFit rs
      → take_references whole (length rs) (record { rest = references_bytes rs ++ rest; pos = pos })
        ≡ ok (references_read rs, record { rest = rest; pos = pos + 12 * length rs })
  unfolding take_references
  references-eq [] rest pos h =
      ap (λ (p : ℕ). ok ([], record { rest = rest; pos = p })) (omega arith)
  references-eq (r ∷ rs) rest pos h =
      rw
        (
          reference-eq r (references_bytes rs ++ rest) pos h.0 h.1,
          references-eq rs rest (pos + 4 + 4 + 4) h.2,
        )
        (ap (λ (p : ℕ). ok (as_read r ∷ references_read rs, record { rest = rest; pos = p }))
          (omega arith))
