-- ===== src/Fmp4/Tables/Atoms.antt =====
-- format/fmp4/fmp4io/sampletable.go: the tables as boxes, and the `switch` over them.
use mse.Common.{ℕ, Option, none, some}
use mse.Common.{◌==◌, if◌then◌else◌}
use mse.Common.Outcome.{ok, ◌>>=◌}
use mse.Pio.Cursor.{Write}
use mse.Pio.Fetch.{Cursor, wrap}
use mse.Fmp4.Box.{
  Message, in_time_to_sample_entry, in_sample_to_chunk_entry, in_composition_offset_entry,
  in_uint32, in_stts, in_ctts, in_stsc, in_stss, in_stco, in_stsz, Result, write_box,
}
use mse.Fmp4.Tables.{
  Table, marshal_table, len_table, unmarshal_table, TimeToSampleEntry, SampleToChunkEntry,
  CompositionOffsetEntry, time_to_sample_format, sample_to_chunk_format, composition_offset_format,
  uint32_format, SampleSize, sample_size_marshal, sample_size_len, sample_size_unmarshal,
}

-- the tags
abbrev pub tag_stts : ℕ
tag_stts = 0x73747473

abbrev pub tag_ctts : ℕ
tag_ctts = 0x63747473

abbrev pub tag_stsc : ℕ
tag_stsc = 0x73747363

abbrev pub tag_stss : ℕ
tag_stss = 0x73747373

abbrev pub tag_stco : ℕ
tag_stco = 0x7374636f

abbrev pub tag_stsz : ℕ
tag_stsz = 0x7374737a

abbrev pub TimeToSample : Type 0
TimeToSample = Table TimeToSampleEntry

-- `TimeToSample.Marshal`, `Len` and `Unmarshal`
unfoldable pub time_to_sample_marshal : TimeToSample → Write
time_to_sample_marshal t = write_box tag_stts (marshal_table time_to_sample_format t)

unfoldable pub time_to_sample_len : TimeToSample → ℕ
time_to_sample_len t = len_table time_to_sample_format t

unfoldable pub time_to_sample_unmarshal : Cursor → Result TimeToSample
time_to_sample_unmarshal c = unmarshal_table time_to_sample_format in_time_to_sample_entry c

abbrev pub CompositionOffset : Type 0
CompositionOffset = Table CompositionOffsetEntry

-- `CompositionOffset.Marshal`, `Len` and `Unmarshal`
unfoldable pub composition_offset_marshal : CompositionOffset → Write
composition_offset_marshal t = write_box tag_ctts (marshal_table composition_offset_format t)

unfoldable pub composition_offset_len : CompositionOffset → ℕ
composition_offset_len t = len_table composition_offset_format t

unfoldable pub composition_offset_unmarshal : Cursor → Result CompositionOffset
composition_offset_unmarshal c =
    unmarshal_table composition_offset_format in_composition_offset_entry c

abbrev pub SampleToChunk : Type 0
SampleToChunk = Table SampleToChunkEntry

-- `SampleToChunk.Marshal`, `Len` and `Unmarshal`
unfoldable pub sample_to_chunk_marshal : SampleToChunk → Write
sample_to_chunk_marshal t = write_box tag_stsc (marshal_table sample_to_chunk_format t)

unfoldable pub sample_to_chunk_len : SampleToChunk → ℕ
sample_to_chunk_len t = len_table sample_to_chunk_format t

unfoldable pub sample_to_chunk_unmarshal : Cursor → Result SampleToChunk
sample_to_chunk_unmarshal c = unmarshal_table sample_to_chunk_format in_sample_to_chunk_entry c

abbrev pub SyncSample : Type 0
SyncSample = Table ℕ

-- `SyncSample.Marshal`, `Len` and `Unmarshal`
unfoldable pub sync_sample_marshal : SyncSample → Write
sync_sample_marshal t = write_box tag_stss (marshal_table uint32_format t)

unfoldable pub sync_sample_len : SyncSample → ℕ
sync_sample_len t = len_table uint32_format t

unfoldable pub sync_sample_unmarshal : Cursor → Result SyncSample
sync_sample_unmarshal c = unmarshal_table uint32_format in_uint32 c

abbrev pub ChunkOffset : Type 0
ChunkOffset = Table ℕ

-- `ChunkOffset.Marshal`, `Len` and `Unmarshal`
unfoldable pub chunk_offset_marshal : ChunkOffset → Write
chunk_offset_marshal t = write_box tag_stco (marshal_table uint32_format t)

unfoldable pub chunk_offset_len : ChunkOffset → ℕ
chunk_offset_len t = len_table uint32_format t

unfoldable pub chunk_offset_unmarshal : Cursor → Result ChunkOffset
chunk_offset_unmarshal c = unmarshal_table uint32_format in_uint32 c

-- A table as a value of the interface `Atom`, whose methods are those of its type.
pub data Atom : Type 0 where
  stts : TimeToSample → Atom
  ctts : CompositionOffset → Atom
  stsc : SampleToChunk → Atom
  stss : SyncSample → Atom
  stco : ChunkOffset → Atom
  stsz : SampleSize → Atom

unfoldable pub atom_tag : Atom → ℕ
atom_tag (stts t) = tag_stts
atom_tag (ctts t) = tag_ctts
atom_tag (stsc t) = tag_stsc
atom_tag (stss t) = tag_stss
atom_tag (stco t) = tag_stco
atom_tag (stsz t) = tag_stsz

unfoldable pub atom_marshal : Atom → Write
atom_marshal (stts t) = time_to_sample_marshal t
atom_marshal (ctts t) = composition_offset_marshal t
atom_marshal (stsc t) = sample_to_chunk_marshal t
atom_marshal (stss t) = sync_sample_marshal t
atom_marshal (stco t) = chunk_offset_marshal t
atom_marshal (stsz t) = write_box tag_stsz (sample_size_marshal t)

unfoldable pub atom_len : Atom → ℕ
atom_len (stts t) = time_to_sample_len t
atom_len (ctts t) = composition_offset_len t
atom_len (stsc t) = sample_to_chunk_len t
atom_len (stss t) = sync_sample_len t
atom_len (stco t) = chunk_offset_len t
atom_len (stsz t) = sample_size_len t

-- an arm of the `switch`, which puts its message in front of an error
abbrev arm : {A : Type 0} → Message → (A → Atom) → ℕ → Result A → Result (Option Atom)
arm message made start read = do (a, c) ← wrap message start read; ok (some (made a), c)

-- The `switch` of `SampleTable.Unmarshal`, without its arm for the descriptions; the parsers get the
-- bytes of the box.
unfoldable pub unmarshal_atom : ℕ → Cursor → Result (Option Atom)
unmarshal_atom tag c =
    if tag == tag_stts
    then arm in_stts stts c.pos (time_to_sample_unmarshal c)
    else if tag == tag_ctts
    then arm in_ctts ctts c.pos (composition_offset_unmarshal c)
    else if tag == tag_stsc
    then arm in_stsc stsc c.pos (sample_to_chunk_unmarshal c)
    else if tag == tag_stss
    then arm in_stss stss c.pos (sync_sample_unmarshal c)
    else if tag == tag_stco
    then arm in_stco stco c.pos (chunk_offset_unmarshal c)
    else if tag == tag_stsz
    then arm in_stsz stsz c.pos (sample_size_unmarshal c)
    else ok (none, c)
