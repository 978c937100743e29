-- ===== src/Flv/Tag/Content.antt =====
-- The contents of the headers of an FLV tag, their bytes, and the tag that is read from them.
use mse.Common.{ℕ, ◌+◌, ◌*◌, ◌<◌, ◌≡◌, ◌≢◌, ◌⊎◌, ◌||◌, List, [], ◌++◌}
use mse.Common.{Bool, ◌==◌, if◌then◌else◌, length}
use mse.Pio.Layout.{byte, be24_signed, Fits}
use mse.Pio.Cursor.{bytes_of}
use mse.Flv.Tag.{Tag, empty_tag}

-- What stands in the header of a tag's data.
pub data Content : Type 0 where
  audio : (format rate size stereo aac_packet_type : ℕ) → Content
  video : (frame_type codec_id avc_packet_type composition_time : ℕ) → Content
  script : Content

-- A packet type stands only in the headers of AAC.
abbrev pub ContentFits : Content → Type 0
ContentFits (audio f r s t p) =
    (f < 16) × (r < 4) × (s < 2) × (t < 2) × (((f ≡ 10) × (p < 256)) ⊎ ((f ≢ 10) × (p ≡ 0)))
ContentFits (video f c p time) = (f < 16) × (c < 16) × (p < 256) × Fits be24_signed time
ContentFits script = Unit

abbrev pub tag_of : Content → List ℕ → Tag
tag_of (audio f r s t p) body = record (empty_tag 8) {
  sound_format = f;
  sound_rate = r;
  sound_size = s;
  sound_type = t;
  aac_packet_type = p;
  body = body;
}
tag_of (video f c p time) body = record (empty_tag 9) {
  frame_type = f;
  codec_id = c;
  avc_packet_type = p;
  composition_time = time;
  body = body;
}
tag_of script body = record (empty_tag 18) { body = body }

-- the bytes of the header of the data
abbrev pub header_bytes : Content → List ℕ
header_bytes (audio f r s t p) =
    bytes_of byte (f * 16 + r * 4 + s * 2 + t) ++ (if f == 10 then bytes_of byte p else [])
header_bytes (video f c p time) =
    bytes_of byte (f * 16 + c) ++ (bytes_of byte p ++ bytes_of be24_signed time)
header_bytes script = []

-- The fields behind the first byte of a video header are written for every frame type, but parsed
-- only for the key frames and the inter frames.
abbrev pub has_avc : ℕ → Bool
has_avc f = (f == 2) || (f == 1)

-- what `ParseHeader` finds of the header,
abbrev pub parsed : Content → Content
parsed (audio f r s t p) = audio f r s t p
parsed (video f c p time) = if has_avc f then video f c p time else video f c 0 0
parsed script = script

-- which bytes of it stay in front of the data,
abbrev pub left_over : Content → List ℕ
left_over (audio f r s t p) = []
left_over (video f c p time) =
    if has_avc f then [] else bytes_of byte p ++ bytes_of be24_signed time
left_over script = []

-- and how many it takes
abbrev pub parsed_length : Content → ℕ
parsed_length (audio f r s t p) = length (header_bytes (audio f r s t p))
parsed_length (video f c p time) = if has_avc f then 5 else 1
parsed_length script = 0

-- The tag that is read: the fields that are parsed, and the data behind them.
abbrev pub tag_read : Content → List ℕ → Tag
tag_read c body = tag_of (parsed c) (left_over c ++ body)
