-- ===== src/Fmp4/Tables/RoundTrip.antt =====
-- Reading the tables of samples back from their bytes.
use mathlib.Core.List.{append-nil}
use mse.Common.{ℕ, ◌+◌, ◌^◌, ◌<◌, ◌≡◌, refl, sym, ap, ◌∙◌, arith, List, [], ◌++◌, some}
use mse.Common.{length, take}
use mse.Common.Outcome.{ok}
use mse.Pio.Layout.{be32}
use mse.Pio.Cursor.{bytes_of, Writes, Writes-room}
use mse.Pio.Fetch.{Cursor, advance, wrap}
use mse.Fmp4.Box.{
  in_time_to_sample_entry, in_sample_to_chunk_entry, in_composition_offset_entry, in_uint32,
  AtomPos, set_pos, box_bytes, box-Writes,
}
use mse.Fmp4.Tables.{
  time_to_sample_format, sample_to_chunk_format, composition_offset_format, uint32_format,
}
use mse.Fmp4.Tables.Bytes.{
  table_bytes, TableFits, marshal_table-Writes, len-table_bytes, unmarshal-table_bytes,
}
use mse.Fmp4.Tables.Sizes.{
  sample_size_bytes, SampleSizeFits, sample_size-Writes, len-sample_size_bytes,
  unmarshal-sample_size_bytes,
}
use mse.Fmp4.Tables.Formats.{
  time_to_sample_laws, sample_to_chunk_laws, composition_offset_laws, uint32_laws,
}
use mse.Fmp4.Tables.Atoms.{
  Atom, stts, ctts, stsc, stss, stco, stsz, atom_tag, atom_marshal, atom_len, unmarshal_atom,
  tag_stts, tag_ctts, tag_stsc, tag_stss, tag_stco, tag_stsz, time_to_sample_marshal,
  time_to_sample_len, time_to_sample_unmarshal, composition_offset_marshal, composition_offset_len,
  composition_offset_unmarshal, sample_to_chunk_marshal, sample_to_chunk_len,
  sample_to_chunk_unmarshal, sync_sample_marshal, sync_sample_len, sync_sample_unmarshal,
  chunk_offset_marshal, chunk_offset_len, chunk_offset_unmarshal,
}

-- the bytes behind the length and the tag
abbrev pub body_bytes : Atom → List ℕ
body_bytes (stts t) = table_bytes time_to_sample_format time_to_sample_laws t
body_bytes (ctts t) = table_bytes composition_offset_format composition_offset_laws t
body_bytes (stsc t) = table_bytes sample_to_chunk_format sample_to_chunk_laws t
body_bytes (stss t) = table_bytes uint32_format uint32_laws t
body_bytes (stco t) = table_bytes uint32_format uint32_laws t
body_bytes (stsz t) = sample_size_bytes t

-- The fields and the number of entries fit their bytes.
abbrev pub AtomFits : Atom → Type 0
AtomFits (stts t) = TableFits time_to_sample_format time_to_sample_laws t
AtomFits (ctts t) = TableFits composition_offset_format composition_offset_laws t
AtomFits (stsc t) = TableFits sample_to_chunk_format sample_to_chunk_laws t
AtomFits (stss t) = TableFits uint32_format uint32_laws t
AtomFits (stco t) = TableFits uint32_format uint32_laws t
AtomFits (stsz t) = SampleSizeFits t

-- the same table at another place
abbrev pub placed : AtomPos → Atom → Atom
placed p (stts t) = stts (record t { pos = p })
placed p (ctts t) = ctts (record t { pos = p })
placed p (stsc t) = stsc (record t { pos = p })
placed p (stss t) = stss (record t { pos = p })
placed p (stco t) = stco (record t { pos = p })
placed p (stsz t) = stsz (record t { pos = p })

len-body_bytes : (a : Atom) → 8 + length (body_bytes a) ≡ atom_len a
unfolding atom_len time_to_sample_len composition_offset_len sample_to_chunk_len sync_sample_len
    chunk_offset_len
len-body_bytes (stts t) = len-table_bytes time_to_sample_format time_to_sample_laws t
len-body_bytes (ctts t) = len-table_bytes composition_offset_format composition_offset_laws t
len-body_bytes (stsc t) = len-table_bytes sample_to_chunk_format sample_to_chunk_laws t
len-body_bytes (stss t) = len-table_bytes uint32_format uint32_laws t
len-body_bytes (stco t) = len-table_bytes uint32_format uint32_laws t
len-body_bytes (stsz t) = len-sample_size_bytes t

atom_marshal-Writes :
    (a : Atom)
    → AtomFits a
    → 8 + length (body_bytes a) < 2 ^ 32
    → Writes (atom_marshal a) (box_bytes (atom_tag a) (body_bytes a))
unfolding atom_marshal atom_tag time_to_sample_marshal composition_offset_marshal
    sample_to_chunk_marshal sync_sample_marshal chunk_offset_marshal
atom_marshal-Writes (stts t) fits small =
    box-Writes tag_stts _ _ small
      (marshal_table-Writes time_to_sample_format time_to_sample_laws t fits)
atom_marshal-Writes (ctts t) fits small =
    box-Writes tag_ctts _ _ small
      (marshal_table-Writes composition_offset_format composition_offset_laws t fits)
atom_marshal-Writes (stsc t) fits small =
    box-Writes tag_stsc _ _ small
      (marshal_table-Writes sample_to_chunk_format sample_to_chunk_laws t fits)
atom_marshal-Writes (stss t) fits small =
    box-Writes tag_stss _ _ small (marshal_table-Writes uint32_format uint32_laws t fits)
atom_marshal-Writes (stco t) fits small =
    box-Writes tag_stco _ _ small (marshal_table-Writes uint32_format uint32_laws t fits)
atom_marshal-Writes (stsz t) fits small = box-Writes tag_stsz _ _ small (sample_size-Writes t fits)

unmarshal-body_bytes :
    (a : Atom) (c : Cursor) (rest : List ℕ)
    → AtomFits a
    → (advance 8 c).rest ≡ body_bytes a ++ rest
    → unmarshal_atom (atom_tag a) c
      ≡ ok (some (placed (set_pos c) a), record { rest = rest; pos = c.pos + atom_len a })
unfolding unmarshal_atom atom_tag atom_len wrap time_to_sample_len time_to_sample_unmarshal
    composition_offset_len composition_offset_unmarshal sample_to_chunk_len
    sample_to_chunk_unmarshal sync_sample_len sync_sample_unmarshal chunk_offset_len
    chunk_offset_unmarshal
unmarshal-body_bytes (stts t) c rest fits behind =
    rw
      (unmarshal-table_bytes time_to_sample_format time_to_sample_laws in_time_to_sample_entry t c
        rest fits behind)
      refl
unmarshal-body_bytes (ctts t) c rest fits behind =
    rw
      (unmarshal-table_bytes composition_offset_format composition_offset_laws
        in_composition_offset_entry t c rest fits behind)
      refl
unmarshal-body_bytes (stsc t) c rest fits behind =
    rw
      (unmarshal-table_bytes sample_to_chunk_format sample_to_chunk_laws in_sample_to_chunk_entry t
        c rest fits behind)
      refl
unmarshal-body_bytes (stss t) c rest fits behind =
    rw (unmarshal-table_bytes uint32_format uint32_laws in_uint32 t c rest fits behind) refl
unmarshal-body_bytes (stco t) c rest fits behind =
    rw (unmarshal-table_bytes uint32_format uint32_laws in_uint32 t c rest fits behind) refl
unmarshal-body_bytes (stsz t) c rest fits behind =
    rw (unmarshal-sample_size_bytes t c rest fits behind) refl

-- A table of samples whose fields fit, in a buffer with room for `Len` bytes, is marshalled into these
-- bytes and no other; they begin with their number and the tag, and the parser that
-- `SampleTable.Unmarshal` chooses by the tag reads the same table from them, with its place.
pub unmarshal_atom-atom_marshal :
    (a : Atom) (pre room rest : List ℕ) (offset : ℕ)
    → AtomFits a
    → atom_len a < 2 ^ 32
    → length room ≡ atom_len a
    → (box : List ℕ) × (atom_marshal a (pre ++ (room ++ rest)) (length pre)
        ≡ some (pre ++ (box ++ rest), length pre + atom_len a))
      × (length box ≡ atom_len a)
      × (take 8 box ≡ bytes_of be32 (atom_len a) ++ bytes_of be32 (atom_tag a))
      × (unmarshal_atom (atom_tag a) (record { rest = box; pos = offset })
          ≡ ok (
            some (placed (record { offset = offset; size = atom_len a }) a),
            record { rest = []; pos = offset + atom_len a },
          ))
unmarshal_atom-atom_marshal a pre room rest offset fits small size =
    let body : List ℕ = body_bytes a in
    let box : List ℕ = box_bytes (atom_tag a) body in
    let long : length box ≡ atom_len a = omega (arith, len-body_bytes a) in
    (
      box,
      Writes-room (atom_marshal-Writes a fits (omega (arith, len-body_bytes a))) pre room rest
            (size ∙ sym long)
          ∙ ap (λ (n : ℕ). some (pre ++ (box ++ rest), length pre + n)) long,
      long,
      ap (λ (n : ℕ). bytes_of be32 n ++ bytes_of be32 (atom_tag a)) (len-body_bytes a),
      unmarshal-body_bytes a (record { rest = box; pos = offset }) [] fits (sym (append-nil body))
          ∙ ap
              (λ (n : ℕ). ok (
                some (placed (record { offset = offset; size = n }) a),
                record { rest = []; pos = offset + atom_len a },
              ))
              long,
    )
