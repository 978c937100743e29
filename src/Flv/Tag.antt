-- ===== src/Flv/Tag.antt =====
-- format/flv/flvio/flvio.go: the tags of an FLV file, the file's header, and the times of tags. A
-- time in milliseconds is the pattern of an `int32`. The reader underneath is the list of the bytes
-- to come, and what is written is the list of its bytes.
pub mod Content
pub mod File
pub mod Headers
pub mod RoundTrip
pub mod Writer
pub mod Written
use mse.Common.{
  ℕ, zero, suc, ◌+◌, ◌-◌, ◌*◌, ◌/◌, ◌%◌, ◌^◌, ◌||◌, Bool, true, false, List, [], ◌∷◌, ◌++◌, Option,
  none, some,
}
use mse.Common.{ltb, ◌==◌, if◌then◌else◌, length, take, drop, bit_and, bit_or, get_elem?}
use mse.Common.Outcome.{Outcome, ok, err, panic, ◌>>=◌, ◌>>◌}
use mse.Common.Word.{signed_div}
use mse.Pio.Layout.{byte, be24, be24_signed, be32}
use mse.Pio.Cursor.{Write, ◌then_write◌, write, write_nothing}
use mse.Pio.Fetch.{Cursor, require, fetch, fetch_bytes}

-- `Tag`; its `Data` is `body`
pub record Tag : Type 0 where
  pub kind : ℕ
  pub sound_format : ℕ
  pub sound_rate : ℕ
  pub sound_size : ℕ
  pub sound_type : ℕ
  pub aac_packet_type : ℕ
  pub frame_type : ℕ
  pub codec_id : ℕ
  pub avc_packet_type : ℕ
  pub composition_time : ℕ
  pub body : List ℕ

-- `Tag{Type: kind}`
abbrev pub empty_tag : ℕ → Tag
empty_tag kind = record {
  kind = kind;
  sound_format = 0;
  sound_rate = 0;
  sound_size = 0;
  sound_type = 0;
  aac_packet_type = 0;
  frame_type = 0;
  codec_id = 0;
  avc_packet_type = 0;
  composition_time = 0;
  body = [];
}

-- the errors, with that of the reader underneath at the end of its bytes
pub data FlvError : Type 0 where
  audio_invalid video_invalid tag_type_invalid cc3_invalid size_invalid eof : FlvError

abbrev pub Result : Type 0 → Type 0
Result A = Outcome FlvError (A × Cursor)

-- `audioParseHeader`
unfoldable pub audio_parse_header : Tag → Cursor → Result Tag
audio_parse_header t c = do
  require 1 audio_invalid c
  (flags, c1) ← fetch byte c
  let t1 : Tag = record t {
    sound_format = flags / 2 ^ 4;
    sound_rate = bit_and (flags / 2 ^ 2) 0x3;
    sound_size = bit_and (flags / 2) 0x1;
    sound_type = bit_and flags 0x1;
  }
  let aac : Result Tag = do
    require 1 audio_invalid c1
    (packet_type, c2) ← fetch byte c1
    ok (record t1 { aac_packet_type = packet_type }, c2)
  if flags / 2 ^ 4 == 10 then aac else ok (t1, c1)

unfoldable pub audio_flags : Tag → ℕ
audio_flags t =
    bit_or
      (bit_or (bit_or (bit_or 0 (t.sound_format * 2 ^ 4 % 2 ^ 8)) (t.sound_rate * 2 ^ 2 % 2 ^ 8))
        (t.sound_size * 2 % 2 ^ 8))
      t.sound_type

-- `audioFillHeader`
unfoldable pub audio_fill_header : Tag → Write
audio_fill_header t =
    write byte (audio_flags t)
    then_write (if t.sound_format == 10 then write byte t.aac_packet_type else write_nothing)

-- `videoParseHeader`
unfoldable pub video_parse_header : Tag → Cursor → Result Tag
video_parse_header t c = do
  require 1 video_invalid c
  (flags, c1) ← fetch byte c
  let t1 : Tag = record t { frame_type = flags / 2 ^ 4; codec_id = bit_and flags 0xf }
  let avc : Result Tag = do
    require 4 video_invalid c1
    (packet_type, c2) ← fetch byte c1
    (time, c3) ← fetch be24_signed c2
    ok (record t1 { avc_packet_type = packet_type; composition_time = time }, c3)
  if (flags / 2 ^ 4 == 2) || (flags / 2 ^ 4 == 1) then avc else ok (t1, c1)

-- `videoFillHeader`
unfoldable pub video_fill_header : Tag → Write
video_fill_header t =
    write byte (bit_or (t.frame_type * 2 ^ 4 % 2 ^ 8) t.codec_id)
    then_write write byte t.avc_packet_type
    then_write write be24_signed t.composition_time

-- `FillHeader`
unfoldable pub fill_header : Tag → Write
fill_header t =
    if t.kind == 8
    then audio_fill_header t
    else if t.kind == 9
    then video_fill_header t
    else write_nothing

-- `ParseHeader`
unfoldable pub parse_header : Tag → Cursor → Result Tag
parse_header t c =
    if t.kind == 8
    then audio_parse_header t c
    else if t.kind == 9
    then video_parse_header t c
    else ok (t, c)

-- `ParseTagHeader`: the tag, its time and the length of its data
unfoldable pub parse_tag_header : Cursor → Result (Tag × ℕ × ℕ)
parse_tag_header c = do
  (kind, c1) ← fetch byte c
  let header : Result (Tag × ℕ × ℕ) = do
    (datalen, c2) ← fetch be24 c1
    (tslo, c3) ← fetch be24 c2
    (tshi, c4) ← fetch byte c3
    ok ((empty_tag kind, bit_or tslo (tshi * 2 ^ 24 % 2 ^ 32), datalen), c4)
  if (kind == 8) || (kind == 9) || (kind == 18) then header else err tag_type_invalid

-- `io.ReadFull` of `k` bytes: an error if there are not as many
unfoldable pub read_full : ℕ → Cursor → Result (List ℕ)
read_full k c = do require k eof c; fetch_bytes k c

-- `b[:k]`, of a buffer of `n` bytes: too short a buffer is a panic
unfoldable pub slice_of : ℕ → ℕ → Outcome FlvError (Unit {0})
slice_of n k = if ltb n k then panic else ok tt

-- `ReadTag`, from the reader underneath, with a scratch buffer of `room` bytes
unfoldable pub read_tag : ℕ → Cursor → Result (Tag × ℕ)
read_tag room c = do
  slice_of room 11
  (header, c1) ← read_full 11 c
  ((tag, ts, datalen), _) ← parse_tag_header (record { rest = header; pos = 0 })
  (body, c2) ← read_full datalen c1
  (tag1, behind) ← parse_header tag (record { rest = body; pos = 0 })
  (trailer, c3) ← read_full 4 c2
  ok ((record tag1 { body = behind.rest }, ts), c3)

-- `FillTagHeader`
unfoldable pub fill_tag_header : ℕ → ℕ → ℕ → Write
fill_tag_header kind datalen ts =
    write byte kind
    then_write write be24 (datalen % 2 ^ 32)
    then_write write be24 (bit_and ts 0xffffff)
    then_write write byte (ts / 2 ^ 24 % 2 ^ 8)
    then_write write be24_signed 0

-- `FillTagTrailer`
unfoldable pub fill_tag_trailer : ℕ → Write
fill_tag_trailer datalen = write be32 ((datalen + 11) % 2 ^ 32)

-- `FillFileHeader`
unfoldable pub fill_file_header : ℕ → Write
fill_file_header flags =
    write be32 0x464c5601
    then_write write byte flags
    then_write write be32 9
    then_write write be32 0

-- `ParseFileHeader`: the flags, and how many bytes to skip
unfoldable pub parse_file_header : Cursor → Result (ℕ × ℕ)
parse_file_header c = do
  (flv, c1) ← fetch be24 c
  let header : Result (ℕ × ℕ) = do
    (version, c2) ← fetch byte c1
    (flags, c3) ← fetch byte c2
    (size, c4) ← fetch be32 c3
    if ltb (size + 4) 9 then err size_invalid else ok ((flags, size + 4 - 9), c4)
  if flv == 0x464c56 then header else err cc3_invalid

-- `TsToTime`, of an `int32`, and `TimeToTs`; a `time.Duration` is a 64-bit pattern of nanoseconds.
unfoldable pub ts_to_time : ℕ → ℕ
ts_to_time ts = 1_000_000 * (if ltb ts (2 ^ 31) then ts else ts + (2 ^ 64 - 2 ^ 32)) % 2 ^ 64

unfoldable pub time_to_ts : ℕ → ℕ
time_to_ts tm = signed_div tm 1_000_000 % 2 ^ 32

-- `Tag.ChannelLayout`: mono or stereo
unfoldable pub channel_layout : Tag → ℕ
channel_layout t = if t.sound_type == 0 then 0b1 else 0b110
