-- ===== src/Fmp4/Tables.antt =====
-- format/fmp4/fmp4io/sampletable.go: the tables of samples. Five of them are a version, flags and a
-- list of entries, of which each has its own format; the sixth is that of the sample sizes.
pub mod Atoms
pub mod Bytes
pub mod Formats
pub mod Sizes
pub mod RoundTrip
use mse.Common.{
  ℕ, zero, suc, ◌+◌, ◌*◌, ◌%◌, ◌^◌, Bool, true, false, List, [], ◌∷◌, Option, none, some,
}
use mse.Common.{◌==◌, if◌then◌else◌, length}
use mse.Common.Outcome.{Outcome, ok, err, panic, ◌>>=◌, ◌>>◌}
use mse.Pio.Layout.{byte, be24, be32}
use mse.Pio.Cursor.{Write, ◌then_write◌, write, write_nothing}
use mse.Pio.Fetch.{Cursor, advance, need, fetch, wrap}
use mse.Fmp4.Box.{
  Message, in_version, in_flags, in_time_to_sample_entry, in_sample_to_chunk_entry,
  in_composition_offset_entry, in_uint32, in_sample_size, in_stts, in_ctts, in_stsc, in_stss,
  in_stco, in_stsz, Result, AtomPos, set_pos, write_box,
}

-- How the entries of a table are written and read, and the bytes that each takes.
pub record EntryFormat (A : Type 0) : Type 0 where
  pub width : ℕ
  pub put : A → Write
  pub take_off : Cursor → Result A

-- A table of five: `TimeToSample`, `SampleToChunk`, `CompositionOffset`, `SyncSample`, `ChunkOffset`
pub record Table (A : Type 0) : Type 0 where
  pub version : ℕ
  pub flags : ℕ
  pub entries : List A
  pub pos : AtomPos

module _ {A : Type 0} (f : EntryFormat A) where
  -- the loop of `marshal`
  unfoldable pub put_entries : List A → Write
  put_entries [] = write_nothing
  put_entries (e ∷ es) = f.put e then_write put_entries es

  -- `marshal`
  unfoldable pub marshal_table : Table A → Write
  marshal_table t =
      write byte t.version
      then_write write be24 t.flags
      then_write write be32 (length t.entries % 2 ^ 32)
      then_write put_entries t.entries

  -- `Len`
  unfoldable pub len_table : Table A → ℕ
  len_table t = 8 + 1 + 3 + 4 + f.width * length t.entries

  -- the loop of `Unmarshal`
  unfoldable pub take_entries : ℕ → Cursor → Result (List A)
  take_entries zero c = ok ([], c)
  take_entries (suc count) c = do
    (e, c1) ← f.take_off c
    (es, c2) ← take_entries count c1
    ok (e ∷ es, c2)

  -- `Unmarshal`, with the message of its last check
  unfoldable pub unmarshal_table : Message → Cursor → Result (Table A)
  unmarshal_table short c = do
    let c0 = advance 8 c
    need 1 in_version c0
    (version, c1) ← fetch byte c0
    need 3 in_flags c1
    (flags, c2) ← fetch be24 c1
    (count, c3) ← fetch be32 c2
    need (f.width * count) short c3
    (entries, c4) ← take_entries count c3
    ok (record { version = version; flags = flags; entries = entries; pos = set_pos c }, c4)

pub record TimeToSampleEntry : Type 0 where
  pub count : ℕ
  pub duration : ℕ

pub record SampleToChunkEntry : Type 0 where
  pub first_chunk : ℕ
  pub samples_per_chunk : ℕ
  pub sample_desc_id : ℕ

-- `offset` is that of `AtomPos`, too.
pub record CompositionOffsetEntry : Type 0 where
  pub count : ℕ
  pub offset : ℕ

-- `putTimeToSampleEntry`, `getTimeToSampleEntry` and the like
unfoldable pub put_time_to_sample_entry : TimeToSampleEntry → Write
put_time_to_sample_entry e = write be32 e.count then_write write be32 e.duration

unfoldable pub get_time_to_sample_entry : Cursor → Result TimeToSampleEntry
get_time_to_sample_entry c = do
  (count, c1) ← fetch be32 c
  (duration, c2) ← fetch be32 c1
  ok (record { count = count; duration = duration }, c2)

unfoldable pub put_sample_to_chunk_entry : SampleToChunkEntry → Write
put_sample_to_chunk_entry e =
    write be32 e.first_chunk
    then_write write be32 e.samples_per_chunk
    then_write write be32 e.sample_desc_id

unfoldable pub get_sample_to_chunk_entry : Cursor → Result SampleToChunkEntry
get_sample_to_chunk_entry c = do
  (chunk, c1) ← fetch be32 c
  (samples, c2) ← fetch be32 c1
  (desc, c3) ← fetch be32 c2
  ok (record { first_chunk = chunk; samples_per_chunk = samples; sample_desc_id = desc }, c3)

unfoldable pub put_composition_offset_entry : CompositionOffsetEntry → Write
put_composition_offset_entry e = write be32 e.count then_write write be32 e.offset

unfoldable pub get_composition_offset_entry : Cursor → Result CompositionOffsetEntry
get_composition_offset_entry c = do
  (count, c1) ← fetch be32 c
  (offset, c2) ← fetch be32 c1
  ok (record { count = count; offset = offset }, c2)

abbrev pub time_to_sample_format : EntryFormat TimeToSampleEntry
time_to_sample_format = record {
  width = 8;
  put = put_time_to_sample_entry;
  take_off = get_time_to_sample_entry;
}

abbrev pub sample_to_chunk_format : EntryFormat SampleToChunkEntry
sample_to_chunk_format = record {
  width = 12;
  put = put_sample_to_chunk_entry;
  take_off = get_sample_to_chunk_entry;
}

abbrev pub composition_offset_format : EntryFormat CompositionOffsetEntry
composition_offset_format = record {
  width = 8;
  put = put_composition_offset_entry;
  take_off = get_composition_offset_entry;
}

-- the entries of `SyncSample`, `ChunkOffset` and `SampleSize`
abbrev pub uint32_format : EntryFormat ℕ
uint32_format = record { width = 4; put = write be32; take_off = fetch be32 }

pub record SampleSize : Type 0 where
  pub version : ℕ
  pub flags : ℕ
  pub sample_size : ℕ
  pub entries : List ℕ
  pub pos : AtomPos

unfoldable pub sample_size_marshal : SampleSize → Write
sample_size_marshal t =
    write byte t.version
    then_write write be24 t.flags
    then_write write be32 t.sample_size
    then_write (if t.sample_size == 0
        then write be32 (length t.entries % 2 ^ 32) then_write put_entries uint32_format t.entries
        else write_nothing)

unfoldable pub sample_size_len : SampleSize → ℕ
sample_size_len t = 8 + 1 + 3 + 4 + (if t.sample_size == 0 then 4 + 4 * length t.entries else 0)

unfoldable pub sample_size_unmarshal : Cursor → Result SampleSize
sample_size_unmarshal c = do
  let c0 = advance 8 c
  need 1 in_version c0
  (version, c1) ← fetch byte c0
  need 3 in_flags c1
  (flags, c2) ← fetch be24 c1
  need 4 in_sample_size c2
  (size, c3) ← fetch be32 c2
  let made : List ℕ → SampleSize = λ es. record {
    version = version;
    flags = flags;
    sample_size = size;
    entries = es;
    pos = set_pos c;
  }
  let table : Result SampleSize = (do
    (count, c4) ← fetch be32 c3
    need (4 * count) in_uint32 c4
    (entries, c5) ← take_entries uint32_format count c4
    ok (made entries, c5))
  if size == 0 then table else ok (made [], c3)
