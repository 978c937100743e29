-- ===== src/Codec/Aac.antt =====
-- codec/aacparser/parser.go: the configuration of an AAC stream, and the ADTS header before a frame.
-- A header is a list of bytes; `panic` is an index out of range.
pub mod Adts
use mse.Common.{
  ℕ, ◌+◌, ◌*◌, ◌/◌, ◌%◌, ◌^◌, not, List, [], ◌∷◌, ◌++◌, Option, none, some, ◌==◌, ltb,
  if◌then◌else◌,
}
use mse.Common.{length, get_elem?, get_or, drop, bit_and, bit_or}
use mse.Common.Outcome.{Outcome, ok, err, panic, ◌>>=◌}
use mse.Common.Word.{add64, sub64, signed_div}

-- `MPEG4AudioConfig`
pub record AudioConfig : Type 0 where
  pub sample_rate : ℕ
  pub channel_layout : ℕ
  pub object_type : ℕ
  pub sample_rate_index : ℕ
  pub channel_config : ℕ

abbrev pub zero_config : AudioConfig
zero_config = record {
  sample_rate = 0;
  channel_layout = 0;
  object_type = 0;
  sample_rate_index = 0;
  channel_config = 0;
}

abbrev pub sample_rate_table : List ℕ
sample_rate_table =
    96000 ∷ 88200 ∷ 64000 ∷ 48000 ∷ 44100 ∷ 32000 ∷ 24000 ∷ 22050 ∷ 16000 ∷ 12000 ∷ 11025 ∷ 8000
    ∷ 7350 ∷ []

-- `chanConfigTable`: one bit for each speaker
abbrev pub chan_config_table : List ℕ
chan_config_table = 0 ∷ 0b1 ∷ 0b110 ∷ 0b111 ∷ 0b1111 ∷ 0b110111 ∷ 0b100110111 ∷ 0b111110111 ∷ []

unfoldable pub complete : AudioConfig → AudioConfig
complete c = record c {
  sample_rate = get_or sample_rate_table c.sample_rate_index c.sample_rate;
  channel_layout = get_or chan_config_table c.channel_config c.channel_layout;
}

pub data AdtsError : Type 0 where
  not_adts no_channels short_frame : AdtsError

-- What `ParseADTSHeader` returns without an error.
pub record AdtsHeader : Type 0 where
  pub config : AudioConfig
  pub hdrlen : ℕ
  pub framelen : ℕ
  pub samples : ℕ

-- `frame[i]`
unfoldable pub byte_at : List ℕ → ℕ → Outcome AdtsError ℕ
byte_at frame i = elim (get_elem? frame i) [ none ↦ panic | some b ↦ ok b ]

-- `self.ChannelConfig`, from two bytes
unfoldable pub adts_channels : ℕ → ℕ → ℕ
adts_channels b2 b3 = bit_or (bit_and (b2 * 2 ^ 2 % 2 ^ 8) 0x4) (bit_and (b3 / 2 ^ 6) 0x3)

unfoldable pub adts_framelen : ℕ → ℕ → ℕ → ℕ
adts_framelen b3 b4 b5 = bit_or (bit_or (bit_and b3 0x3 * 2 ^ 11) (b4 * 2 ^ 3)) (b5 / 2 ^ 5)

-- The part behind the check of the channels.
unfoldable pub parse_adts_rest : ℕ → ℕ → ℕ → List ℕ → Outcome AdtsError AdtsHeader
parse_adts_rest b1 b2 b3 frame = do
  b4 ← byte_at frame 4
  b5 ← byte_at frame 5
  b6 ← byte_at frame 6
  let hdrlen = if bit_and b1 0x1 == 0 then 9 else 7
  let framelen = adts_framelen b3 b4 b5
  let config : AudioConfig = record zero_config {
    object_type = b2 / 2 ^ 6 + 1;
    sample_rate_index = bit_and (b2 / 2 ^ 2) 0xf;
    channel_config = adts_channels b2 b3;
  }
  let header : AdtsHeader = record {
    config = complete config;
    hdrlen = hdrlen;
    framelen = framelen;
    samples = (bit_and b6 0x3 + 1) * 1024;
  }
  if ltb framelen hdrlen then err short_frame else ok header

unfoldable pub parse_adts_header : List ℕ → Outcome AdtsError AdtsHeader
parse_adts_header frame = do
  b0 ← byte_at frame 0
  b1 ← if b0 == 0xff then byte_at frame 1 else err not_adts
  b2 ← if bit_and b1 0xf6 == 0xf0 then byte_at frame 2 else err not_adts
  b3 ← byte_at frame 3
  if adts_channels b2 b3 == 0 then err no_channels else parse_adts_rest b1 b2 b3 frame

unfoldable pub adts_byte2 : AudioConfig → ℕ
adts_byte2 c =
    bit_or
      (bit_or (bit_and (sub64 c.object_type 1 % 2 ^ 8) 0x3 * 2 ^ 6 % 2 ^ 8)
        (bit_and (c.sample_rate_index % 2 ^ 8) 0xf * 2 ^ 2 % 2 ^ 8))
      (bit_and (c.channel_config / 2 ^ 2 % 2 ^ 8) 0x1)

unfoldable pub adts_byte3 : AudioConfig → ℕ → ℕ
adts_byte3 c n =
    bit_or
      (bit_and (bit_or (bit_and 0x80 0x3f) (bit_and c.channel_config 0x3 % 2 ^ 8 * 2 ^ 6 % 2 ^ 8))
        0xfc)
      (bit_and (n / 2 ^ 11 % 2 ^ 8) 0x3)

-- `FillADTSHeader`; a header of less than 7 bytes panics.
unfoldable pub fill_adts_header : List ℕ → AudioConfig → ℕ → ℕ → Option (List ℕ)
fill_adts_header header c samples payload_length =
    let n = add64 payload_length 7 in
    let filled : List ℕ =
      0xff
      ∷ 0xf1
      ∷ adts_byte2 c
      ∷ adts_byte3 c n
      ∷ n / 2 ^ 3 % 2 ^ 8
      ∷ bit_or (bit_and 0xff 0x1f) (bit_and (n % 2 ^ 8) 0x7 * 2 ^ 5 % 2 ^ 8)
      ∷ bit_or (bit_and 0xcd 0xfc) (sub64 (signed_div samples 1024) 1 % 2 ^ 8)
      ∷ drop 7 header in
    if ltb (length header) 7 then none else some filled
