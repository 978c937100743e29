-- ===== src/Fmp4/Fragment.antt =====
-- format/fmp4/fmp4io/fragment.go: the boxes of a fragment. `flags&X != 0` is `has flags x`.
pub mod Run
pub mod RunBytes
pub mod RunReading
pub mod Track
pub mod Children
pub mod TrackBytes
pub mod TrackRoundTrip
pub mod Endless
pub mod HeaderBytes
pub mod TrackHeaderBytes
pub mod RoundTrip
use mse.Common.{
  ℕ, zero, suc, ◌+◌, ◌*◌, ◌%◌, ◌^◌, Bool, true, false, not, ◌&&◌, List, [], ◌∷◌, Option, none, some,
}
use mse.Common.{◌==◌, if◌then◌else◌, ltb, length, bit_and}
use mse.Common.Outcome.{Outcome, ok, err, panic, ◌>>=◌, ◌>>◌}
use mse.Pio.Layout.{byte, be24, be32, be32_signed, be64}
use mse.Pio.Cursor.{Write, ◌then_write◌, write, write_nothing}
use mse.Pio.Fetch.{Cursor, advance, need, fetch}
use mse.Fmp4.Box.{
  Message, in_version, in_flags, in_seqnum, in_track_id, in_base_data_offset, in_stsd_id,
  in_default_duration, in_default_size, in_default_flags, in_data_offset, in_first_sample_flags,
  Result, AtomPos, set_pos, write_box,
}
use mse.Fmp4.Optional.{write_optional, take_optional, need_optional}

abbrev pub has : ℕ → ℕ → Bool
has flags bit = not (bit_and flags bit == 0)

-- the version and the flags, with which these parsers begin
unfoldable pub take_version_flags : Cursor → Result (ℕ × ℕ)
take_version_flags c = do
  need 1 in_version (advance 8 c)
  (version, c1) ← fetch byte (advance 8 c)
  need 3 in_flags c1
  (flags, c2) ← fetch be24 c1
  ok ((version, flags), c2)

pub record MovieFragHeader : Type 0 where
  pub version : ℕ
  pub flags : ℕ
  pub seqnum : ℕ
  pub pos : AtomPos

unfoldable pub movie_frag_header_marshal : MovieFragHeader → Write
movie_frag_header_marshal a =
    write byte a.version then_write write be24 a.flags then_write write be32 a.seqnum

unfoldable pub movie_frag_header_len : MovieFragHeader → ℕ
movie_frag_header_len a = 8 + 1 + 3 + 4

unfoldable pub movie_frag_header_unmarshal : Cursor → Result MovieFragHeader
movie_frag_header_unmarshal c = do
  ((version, flags), c1) ← take_version_flags c
  need 4 in_seqnum c1
  (seqnum, c2) ← fetch be32 c1
  ok (record { version = version; flags = flags; seqnum = seqnum; pos = set_pos c }, c2)

pub record TrackFragDecodeTime : Type 0 where
  pub version : ℕ
  pub flags : ℕ
  pub time : ℕ
  pub pos : AtomPos

unfoldable pub track_frag_decode_time_marshal : TrackFragDecodeTime → Write
track_frag_decode_time_marshal a =
    write byte a.version
    then_write write be24 a.flags
    then_write (if a.version == 0 then write be32 (a.time % 2 ^ 32) else write be64 a.time)

unfoldable pub track_frag_decode_time_len : TrackFragDecodeTime → ℕ
track_frag_decode_time_len a = 8 + 1 + 3 + (if a.version == 0 then 4 else 8)

-- The time is read without a check of the length.
unfoldable pub track_frag_decode_time_unmarshal : Cursor → Result TrackFragDecodeTime
track_frag_decode_time_unmarshal c = do
  ((version, flags), c1) ← take_version_flags c
  (time, c2) ← if version == 0 then fetch be32 c1 else fetch be64 c1
  ok (record { version = version; flags = flags; time = time; pos = set_pos c }, c2)

pub record TrackFragHeader : Type 0 where
  pub version : ℕ
  pub flags : ℕ
  pub track_id : ℕ
  pub base_data_offset : ℕ
  pub stsd_id : ℕ
  pub default_duration : ℕ
  pub default_size : ℕ
  pub default_flags : ℕ
  pub pos : AtomPos

unfoldable pub track_frag_header_marshal : TrackFragHeader → Write
track_frag_header_marshal a =
    write byte a.version
    then_write write be24 a.flags
    then_write write be32 a.track_id
    then_write write_optional (has a.flags 0x01) be64 a.base_data_offset
    then_write write_optional (has a.flags 0x02) be32 a.stsd_id
    then_write write_optional (has a.flags 0x08) be32 a.default_duration
    then_write write_optional (has a.flags 0x10) be32 a.default_size
    then_write write_optional (has a.flags 0x20) be32 a.default_flags

unfoldable pub track_frag_header_len : TrackFragHeader → ℕ
track_frag_header_len a =
    8
    + 1
    + 3
    + 4
    + (if has a.flags 0x01 then 8 else 0)
    + (if has a.flags 0x02 then 4 else 0)
    + (if has a.flags 0x08 then 4 else 0)
    + (if has a.flags 0x10 then 4 else 0)
    + (if has a.flags 0x20 then 4 else 0)

unfoldable pub track_frag_header_unmarshal : Cursor → Result TrackFragHeader
track_frag_header_unmarshal c = do
  ((version, flags), c1) ← take_version_flags c
  need 4 in_track_id c1
  (track_id, c2) ← fetch be32 c1
  (base_data_offset, c3) ← need_optional (has flags 0x01) be64 in_base_data_offset c2
  (stsd_id, c4) ← need_optional (has flags 0x02) be32 in_stsd_id c3
  (default_duration, c5) ← need_optional (has flags 0x08) be32 in_default_duration c4
  (default_size, c6) ← need_optional (has flags 0x10) be32 in_default_size c5
  (default_flags, c7) ← need_optional (has flags 0x20) be32 in_default_flags c6
  ok (
    record {
      version = version;
      flags = flags;
      track_id = track_id;
      base_data_offset = base_data_offset;
      stsd_id = stsd_id;
      default_duration = default_duration;
      default_size = default_size;
      default_flags = default_flags;
      pos = set_pos c;
    },
    c7,
  )
