-- ===== src/Fmp4/Tables/Bytes.antt =====
-- The bytes of the tables of samples.
use mathlib.Core.List.{append_assoc}
use mse.Common.{ℕ, ◌+◌, ◌*◌, ◌%◌, ◌^◌, ◌<◌, ◌≡◌, ap, arith, List, [], ◌∷◌, ◌++◌}
use mse.Common.{length, length-append}
use mse.Common.Outcome.{ok}
use mse.Pio.Layout.{byte, be24, be32}
use mse.Pio.Cursor.{bytes_of, Writes, write-Writes, nothing-Writes, then-Writes}
use mse.Pio.Fetch.{Cursor, advance, Trace, need-ok, fetch-bytes_of}
use mse.Fmp4.Box.{Message, in_version, in_flags, set_pos}
use mse.Fmp4.Tables.{
  EntryFormat, Table, put_entries, marshal_table, len_table, take_entries, unmarshal_table,
}

-- The bytes of an entry, which entries they can hold, and that they are written and read.
pub record EntryLaws {A : Type 0} (f : EntryFormat A) : Type 1 where
  pub bytes_of_entry : A → List ℕ
  pub EntryFits : A → Type 0
  pub length_is : (e : A) → length (bytes_of_entry e) ≡ f.width
  pub put_Writes : (e : A) → Writes (f.put e) (bytes_of_entry e)
  pub taken :
      (e : A) (rest : List ℕ) (pos : ℕ)
      → EntryFits e
      → f.take_off (record { rest = bytes_of_entry e ++ rest; pos = pos })
        ≡ ok (e, record { rest = rest; pos = pos + f.width })

module _ {A : Type 0} (f : EntryFormat A) (laws : EntryLaws f) where
  abbrev pub entries_bytes : List A → List ℕ
  entries_bytes [] = []
  entries_bytes (e ∷ es) = laws.bytes_of_entry e ++ entries_bytes es

  abbrev pub EntriesFit : List A → Type 0
  EntriesFit [] = Unit
  EntriesFit (e ∷ es) = laws.EntryFits e × EntriesFit es

  pub length-entries_bytes : (es : List A) → length (entries_bytes es) ≡ f.width * length es
  length-entries_bytes [] = omega arith
  length-entries_bytes (e ∷ es) = grind (
    arith,
    length-append (laws.bytes_of_entry e) (entries_bytes es),
    laws.length_is e,
    length-entries_bytes es,
  )

  pub put_entries-Writes : (es : List A) → Writes (put_entries f es) (entries_bytes es)
  unfolding put_entries
  put_entries-Writes [] = nothing-Writes
  put_entries-Writes (e ∷ es) = then-Writes (laws.put_Writes e) (put_entries-Writes es)

  pub take-entries_bytes :
      (es : List A) (rest : List ℕ) (pos : ℕ)
      → EntriesFit es
      → take_entries f (length es) (record { rest = entries_bytes es ++ rest; pos = pos })
        ≡ ok (es, record { rest = rest; pos = pos + f.width * length es })
  unfolding take_entries
  take-entries_bytes [] rest pos h =
      ap (λ (p : ℕ). ok ([], record { rest = rest; pos = p })) (omega arith)
  take-entries_bytes (e ∷ es) rest pos h =
      rw
        (
          append_assoc (laws.bytes_of_entry e) (entries_bytes es) rest,
          laws.taken e (entries_bytes es ++ rest) pos h.0,
          take-entries_bytes es rest (pos + f.width) h.1,
        )
        (ap (λ (p : ℕ). ok (e ∷ es, record { rest = rest; pos = p })) (grind arith))

  abbrev pub table_bytes : Table A → List ℕ
  table_bytes t =
      bytes_of byte t.version
      ++ (bytes_of be24 t.flags ++ (bytes_of be32 (length t.entries) ++ entries_bytes t.entries))

  abbrev pub TableFits : Table A → Type 0
  TableFits t =
      (t.version < 256) × (t.flags < 2 ^ 24) × (length t.entries < 2 ^ 32) × EntriesFit t.entries

  pub marshal_table-Writes :
      (t : Table A) → TableFits t → Writes (marshal_table f t) (table_bytes t)
  unfolding marshal_table
  marshal_table-Writes t (hv, hf, hn, h) =
      let cut : length t.entries % 2 ^ 32 ≡ length t.entries = omega (arith, hn) in
      rw cut (
        then-Writes (write-Writes byte t.version) (
          then-Writes (write-Writes be24 t.flags)
            (then-Writes (write-Writes be32 (length t.entries)) (put_entries-Writes t.entries))))

  pub len-table_bytes : (t : Table A) → 8 + length (table_bytes t) ≡ len_table f t
  unfolding len_table
  len-table_bytes t = omega (arith, length-entries_bytes t.entries)

  -- `rest` is what stands behind the table, `box` the eight bytes in front of it.
  pub unmarshal-table_bytes :
      (short : Message) (t : Table A) (c : Cursor) (rest : List ℕ)
      → TableFits t
      → (advance 8 c).rest ≡ table_bytes t ++ rest
      → unmarshal_table f short c
        ≡ ok (record t { pos = set_pos c }, record { rest = rest; pos = c.pos + len_table f t })
  unfolding unmarshal_table len_table
  unmarshal-table_bytes short t c rest (hv, hf, hn, h) behind =
      let tail : List ℕ = entries_bytes t.entries ++ rest in
      rw
        (
          behind,
          need-ok 1 in_version (record { rest = table_bytes t ++ rest; pos = c.pos + 8 })
              (omega arith),
          fetch-bytes_of {E = Trace Message} byte t.version
              (bytes_of be24 t.flags ++ (bytes_of be32 (length t.entries) ++ tail)) (c.pos + 8) hv,
          need-ok 3 in_flags
              (record {
                rest = bytes_of be24 t.flags ++ (bytes_of be32 (length t.entries) ++ tail);
                pos = c.pos + 8 + 1;
              })
              (omega arith),
          fetch-bytes_of {E = Trace Message} be24 t.flags (bytes_of be32 (length t.entries) ++ tail)
              (c.pos + 8 + 1) hf,
          fetch-bytes_of {E = Trace Message} be32 (length t.entries) tail (c.pos + 8 + 1 + 3) hn,
          need-ok (f.width * length t.entries) short
              (record { rest = tail; pos = c.pos + 8 + 1 + 3 + 4 })
              (omega (
                arith,
                length-append (entries_bytes t.entries) rest,
                length-entries_bytes t.entries,
              )),
          take-entries_bytes t.entries rest (c.pos + 8 + 1 + 3 + 4) h,
        )
        (ap (λ (p : ℕ). ok (record t { pos = set_pos c }, record { rest = rest; pos = p }))
          (omega arith))
