-- ===== src/Fmp4/Box.antt =====
-- format/fmp4/fmp4io: what all boxes share. A box is its length, its tag and its body; the errors
-- are those of error.go, where `parseErr` puts a message and a position in front of an error.
use mathlib.Core.List.{append_assoc}
use mse.Common.{
  ℕ, ◌+◌, ◌-◌, ◌%◌, ◌^◌, ◌≤◌, ◌<◌, ◌≡◌, refl, sym, ap, ap₂, ◌∙◌, arith, List, [], ◌∷◌, ◌++◌, some,
}
use mse.Common.{length, drop, length-append}
use mse.Common.Maybe.{◌>>=◌}
use mse.Common.Outcome.{Outcome}
use mse.Pio.Layout.{be32, by_cells}
use mse.Pio.Cursor.{Write, write, bytes_of, Writes, write-Writes}
use mse.Common.{drop-append_length}
use mse.Pio.Over.{WritesOver}
use mse.Pio.Fetch.{Cursor, Trace, advance}

-- the messages of `parseErr`
pub data Message : Type 0 where
  in_version in_flags in_time_to_sample_entry in_sample_to_chunk_entry : Message
  in_composition_offset_entry in_uint32 in_sample_size : Message
  in_full_atom in_reference_id in_earliest_pts in_reference_count in_segment_reference : Message
  in_stts in_ctts in_stsc in_stss in_stco in_stsz : Message
  in_seqnum in_track_id in_base_data_offset in_stsd_id in_default_duration in_default_size : Message
  in_default_flags in_data_offset in_first_sample_flags in_tfhd in_tfdt in_trun in_tag_size :
      Message

abbrev pub Result : Type 0 → Type 0
Result A = Outcome (Trace Message) (A × Cursor)

-- `AtomPos`
pub record AtomPos : Type 0 where
  pub offset : ℕ
  pub size : ℕ

-- `setPos(offset, len(b))`, of a parser that begins at a cursor
abbrev pub set_pos : Cursor → AtomPos
set_pos c = record { offset = c.pos; size = length c.rest }

-- `PutU32BE(b[4:], tag); n += marshal(b[8:]) + 8; PutU32BE(b[0:], uint32(n))`
unfoldable pub write_box : ℕ → Write → Write
write_box tag body b n = do
  (b1, n1) ← write be32 tag b (n + 4)
  (b2, n2) ← body b1 n1
  (b3, n3) ← write be32 ((n2 - n) % 2 ^ 32) b2 n
  some (b3, n2)

abbrev pub box_bytes : ℕ → List ℕ → List ℕ
box_bytes tag body = bytes_of be32 (8 + length body) ++ (bytes_of be32 tag ++ body)

-- A write at a position that is given by an equation.
pub Writes-at :
    {m : Write} {xs : List ℕ} (written : Writes m xs) (b pre rest : List ℕ) (n : ℕ)
    → b ≡ pre ++ rest
    → n ≡ length pre
    → length xs ≤ length rest
    → m b n ≡ some (pre ++ (xs ++ drop (length xs) rest), n + length xs)
Writes-at {m} {xs} written b pre rest n e place room =
    ap₂ m e place
    ∙ written.at pre rest room
    ∙ ap (λ (k : ℕ). some (pre ++ (xs ++ drop (length xs) rest), k + length xs)) (sym place)

module _ (tag : ℕ) (m : Write) (body : List ℕ) (small : 8 + length body < 2 ^ 32) where
  -- A box over its length and tag, from a write of the body behind them.
  box_core :
      (pre front next behind after : List ℕ)
      → length front ≡ 4
      → length next ≡ 4
      → m ((pre ++ front) ++ (bytes_of be32 tag ++ behind)) (length pre + 4 + 4)
        ≡ some (
          ((pre ++ front) ++ bytes_of be32 tag) ++ (body ++ after),
          length pre + 4 + 4 + length body,
        )
      → write_box tag m (pre ++ (front ++ (next ++ behind))) (length pre)
        ≡ some (pre ++ (box_bytes tag body ++ after), length pre + length (box_bytes tag body))
  unfolding write_box
  box_core pre front next behind after four four' second =
      let tagged : List ℕ = bytes_of be32 tag in
      let size : List ℕ = bytes_of be32 (8 + length body) in
      let place : length (pre ++ front) ≡ length pre + 4 = omega (arith, length-append pre front) in
      let first : write be32 tag (pre ++ (front ++ (next ++ behind))) (length pre + 4)
          ≡ some ((pre ++ front) ++ (tagged ++ behind), length pre + 4 + 4) =
        Writes-at (write-Writes be32 tag) _ (pre ++ front) (next ++ behind) (length pre + 4)
          (sym (append_assoc pre front (next ++ behind))) (sym place)
          (omega (arith, length-append next behind))
        ∙ ap (λ (b : List ℕ). some ((pre ++ front) ++ (tagged ++ b), length pre + 4 + 4))
            (ap (λ (n : ℕ). drop n (next ++ behind)) (sym four')
              ∙ drop-append_length next behind) in
      let total : (length pre + 4 + 4 + length body - length pre) % 2 ^ 32 ≡ 8 + length body =
        omega arith in
      let third : write be32 (8 + length body) (((pre ++ front) ++ tagged) ++ (body ++ after))
            (length pre)
          ≡ some (pre ++ (size ++ (tagged ++ (body ++ after))), length pre + 4) =
        Writes-at (write-Writes be32 (8 + length body)) _ pre (front ++ (tagged ++ (body ++ after)))
          (length pre) (simp append_assoc) refl
          (omega (arith, length-append front (tagged ++ (body ++ after))))
        ∙ ap (λ (b : List ℕ). some (pre ++ (size ++ b), length pre + 4))
            (ap (λ (n : ℕ). drop n (front ++ (tagged ++ (body ++ after)))) (sym four)
              ∙ drop-append_length front (tagged ++ (body ++ after))) in
      rw (first, second, total, third)
        (ap (λ (k : ℕ). some (pre ++ (box_bytes tag body ++ after), k)) (omega arith))

  abbrev Boxed : List ℕ → List ℕ → Type 0
  Boxed pre rest =
      length body ≤ length rest - 8
      → write_box tag m (pre ++ rest) (length pre)
        ≡ some (
          pre ++ (box_bytes tag body ++ drop (length (box_bytes tag body)) rest),
          length pre + length (box_bytes tag body),
        )

  box_at :
      (written : Writes m body) (pre rest : List ℕ)
      → length (box_bytes tag body) ≤ length rest
      → write_box tag m (pre ++ rest) (length pre)
        ≡ some (
          pre ++ (box_bytes tag body ++ drop (length (box_bytes tag body)) rest),
          length pre + length (box_bytes tag body),
        )
  box_at written pre rest room =
      by_cells 8 (Boxed pre) rest (omega arith)
        (λ x1 x2 x3 x4 x5 x6 x7 x8 behind enough.
          let front : List ℕ = x1 ∷ x2 ∷ x3 ∷ x4 ∷ [] in
          let tagged : List ℕ = bytes_of be32 tag in
          box_core pre front (x5 ∷ x6 ∷ x7 ∷ x8 ∷ []) behind (drop (length body) behind) refl refl (
            Writes-at written _ ((pre ++ front) ++ tagged) behind (length pre + 4 + 4)
              (sym (append_assoc (pre ++ front) tagged behind))
              (omega (arith, length-append pre front, length-append (pre ++ front) tagged))
              (omega arith)))
        (omega arith)

  pub box-Writes : Writes m body → Writes (write_box tag m) (box_bytes tag body)
  box-Writes written = record { at = box_at written }

  pub box-WritesOver :
      (front next : List ℕ) {room : List ℕ}
      → length front ≡ 4
      → length next ≡ 4
      → WritesOver m room body
      → WritesOver (write_box tag m) (front ++ (next ++ room)) (box_bytes tag body)
  box-WritesOver front next {room} four four' written = record {
    as_long =
        omega (arith, length-append front (next ++ room), length-append next room, written.as_long);
    over = λ pre rest.
        let tagged : List ℕ = bytes_of be32 tag in
        ap (λ (b : List ℕ). write_box tag m (pre ++ b) (length pre)) (simp append_assoc)
        ∙ box_core pre front next (room ++ rest) rest four four' (
            ap₂ m (sym (append_assoc (pre ++ front) tagged (room ++ rest)))
              (omega (arith, length-append pre front, length-append (pre ++ front) tagged))
            ∙ written.over ((pre ++ front) ++ tagged) rest
            ∙ ap (λ (k : ℕ). some (((pre ++ front) ++ tagged) ++ (body ++ rest), k))
                (omega (arith, length-append pre front, length-append (pre ++ front) tagged)));
  }

-- Behind the length and the tag of a box stands its body.
pub advance-box_bytes :
    (tag : ℕ) (body rest : List ℕ) (pos : ℕ)
    → advance 8 (record { rest = box_bytes tag body ++ rest; pos = pos })
      ≡ record { rest = body ++ rest; pos = pos + 8 }
advance-box_bytes tag body rest pos = refl
