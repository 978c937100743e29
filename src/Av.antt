-- ===== src/Av.antt =====
-- av/av.go: packets and the kinds of codecs. An `int8` is its bit pattern below 256, and a
-- `time.Duration` or an `int` one below 2 ^ 64.
pub mod Channels
mod Tests
use mse.Common.{ℕ, ◌*◌, ◌%◌, ◌^◌, Bool, false, not, List, [], ◌==◌, bit_and, bit_or}

pub record Packet : Type 0 where
  pub is_key_frame : Bool
  pub idx : ℕ
  pub composition_time : ℕ
  pub time : ℕ
  pub duration : ℕ
  pub bytes : List ℕ

-- `Packet{}`
abbrev pub zero_packet : Packet
zero_packet = record {
  is_key_frame = false;
  idx = 0;
  composition_time = 0;
  time = 0;
  duration = 0;
  bytes = [];
}

-- `CodecType.IsAudio` and `IsVideo`: the lowest bit of the type tells.
unfoldable pub is_audio : ℕ → Bool
is_audio t = not (bit_and t 1 == 0)

unfoldable pub is_video : ℕ → Bool
is_video t = bit_and t 1 == 0

-- `MakeAudioCodecType` and `MakeVideoCodecType`, in 32 bits
unfoldable pub make_audio_codec_type : ℕ → ℕ
make_audio_codec_type base = bit_or (base * 2 ^ 1 % 2 ^ 32) 1

unfoldable pub make_video_codec_type : ℕ → ℕ
make_video_codec_type base = base * 2 ^ 1 % 2 ^ 32
