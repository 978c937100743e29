-- ===== src/Flv/Tests.antt =====
-- Runs of format/flv/flvio, and its theorems at concrete values.
use mse.Common.{
  ℕ, ◌+◌, ◌-◌, ◌^◌, ◌≡◌, ◌⊎◌, inl, refl, arith, true, List, [], ◌∷◌, ◌++◌, some, length,
}
use mse.Common.Outcome.{ok, err}
use mse.Pio.Fetch.{Cursor}
use mse.Flv.Amf0.{
  Amf, number, text, ecma, array, boolean, null, end, field, nil, item, len_amf0_val, fill_amf0_val,
}
use mse.Flv.Amf0.{date}
use mse.Common.Word.{signed_div}
use mse.Flv.Amf0.Date.{
  top_bit, float_of_nat, float_of_int, exponent, mantissa, int_of_float, nearest_even, div_1000,
  seconds, time_of_float, float_of_time,
}
use mse.Flv.Amf0.Parse.{Message, parse_amf0_val, same_key}
use mse.Flv.Amf0.Encode.{encode, fill_amf0_val-encode}
use mse.Flv.Amf0.Wire.{Fits, as_read, IsNewKey}
use mse.Flv.Amf0.RoundTrip.{parse_amf0_val-fill_amf0_val}
use mse.Flv.Amf0.Total.{parse_amf0_val_total}
use mse.Common.{replicate}
use mse.Flv.Tag.{read_tag, fill_file_header, parse_file_header, ts_to_time, time_to_ts}
use mse.Flv.Tag.Writer.{write_tag}
use mse.Flv.Tag.Content.{Content, audio, ContentFits, tag_of}
use mse.Flv.Tag.RoundTrip.{read_tag-write_tag}
use mse.Flv.Tag.File.{file_header_bytes, parse_file_header-fill_file_header, time_to_ts-ts_to_time}

-- { "a": 1.5, "b": [true, null, a date of November 2023] } as an ECMA array
abbrev script_value : Amf
script_value = ecma (
    field (97 ∷ []) (number 0x3ff8000000000000) (
      field (98 ∷ [])
        (array (item (boolean true) (item null (item (date 1_700_000_000 123_000_000) nil)))) end))

script_value-Fits : Fits script_value
unfolding Fits IsNewKey same_key
script_value-Fits = (
  omega arith,
  omega arith,
  (refl, tt),
  omega arith,
  (
    omega arith,
    omega arith,
    tt,
    (omega arith, (tt, (tt, ((omega arith, refl, omega arith, omega arith), tt)))),
    tt,
  ),
)

parse_amf0_val-fill_amf0_val_example :
    (b : List ℕ) × (fill_amf0_val script_value (replicate (len_amf0_val script_value) 0 ++ 7 ∷ []) 0
      ≡ some (b, len_amf0_val script_value))
    × (parse_amf0_val b
        ≡ ok (as_read script_value, record { rest = 7 ∷ []; pos = len_amf0_val script_value }))
unfolding len_amf0_val
parse_amf0_val-fill_amf0_val_example =
    parse_amf0_val-fill_amf0_val script_value (replicate (len_amf0_val script_value) 0) (7 ∷ [])
      script_value-Fits refl

fill_amf0_val-encode_example :
    fill_amf0_val (text (104 ∷ 105 ∷ [])) (1 ∷ 0 ∷ 0 ∷ 0 ∷ 0 ∷ 0 ∷ 9 ∷ []) 1
    ≡ some (1 ∷ 2 ∷ 0 ∷ 2 ∷ 104 ∷ 105 ∷ 9 ∷ [], 6)
unfolding len_amf0_val encode
fill_amf0_val-encode_example =
    fill_amf0_val-encode (text (104 ∷ 105 ∷ [])) (1 ∷ []) (0 ∷ 0 ∷ 0 ∷ 0 ∷ 0 ∷ []) (9 ∷ []) refl

parse_amf0_val_total_example :
    ((e : List (Message × ℕ)) × (parse_amf0_val (2 ∷ 0 ∷ 9 ∷ 1 ∷ []) ≡ err e))
    ⊎ ((v : Amf) × (c : Cursor) × (parse_amf0_val (2 ∷ 0 ∷ 9 ∷ 1 ∷ []) ≡ ok (v, c))
        × (c.pos + length c.rest ≡ 4))
parse_amf0_val_total_example = parse_amf0_val_total (2 ∷ 0 ∷ 9 ∷ 1 ∷ [])

-- The float of 1,700,000,000,123 milliseconds, and half a second before 1970 there and back.
date_float : float_of_time 1_700_000_000 123_000_000 ≡ 0x4278bcfe5687b000
unfolding float_of_time float_of_int signed_div float_of_nat top_bit
date_float = refl

early_date : time_of_float (float_of_time (2 ^ 64 - 1) 500_000_000) ≡ (2 ^ 64 - 1, 500_000_000)
unfolding float_of_time float_of_int signed_div float_of_nat top_bit time_of_float seconds
    int_of_float div_1000 exponent mantissa nearest_even
early_date = refl

-- An AAC frame in stereo.
abbrev aac_frame : Content
aac_frame = audio 10 3 1 1 1

aac_frame-ContentFits : ContentFits aac_frame
aac_frame-ContentFits =
    (omega arith, omega arith, omega arith, omega arith, inl (refl, omega arith))

read_tag-write_tag_example :
    (written : List ℕ) × (write_tag
        (tag_of aac_frame (33 ∷ 44 ∷ []))
        0x1000010
        (0 ∷ 0 ∷ 0 ∷ 0 ∷ 0 ∷ 0 ∷ 0 ∷ 0 ∷ 0 ∷ 0 ∷ 0 ∷ 0 ∷ 0 ∷ 0 ∷ 0 ∷ 0 ∷ [])
      ≡ some written)
    × (length written ≡ 19)
    × (read_tag 16 (record { rest = written ++ 5 ∷ []; pos = 0 })
        ≡ ok ((tag_of aac_frame (33 ∷ 44 ∷ []), 0x1000010), record { rest = 5 ∷ []; pos = 19 }))
read_tag-write_tag_example =
    read_tag-write_tag aac_frame (33 ∷ 44 ∷ []) (5 ∷ [])
      (0 ∷ 0 ∷ 0 ∷ 0 ∷ 0 ∷ 0 ∷ 0 ∷ 0 ∷ 0 ∷ 0 ∷ 0 ∷ 0 ∷ 0 ∷ 0 ∷ 0 ∷ 0 ∷ []) 0x1000010 0
      aac_frame-ContentFits (omega arith) (omega arith) (omega arith)

parse_file_header-fill_file_header_example :
    (fill_file_header 5 (0 ∷ 0 ∷ 0 ∷ 0 ∷ 0 ∷ 0 ∷ 0 ∷ 0 ∷ 0 ∷ 0 ∷ 0 ∷ 0 ∷ 0 ∷ 77 ∷ []) 0
      ≡ some (file_header_bytes 5 ++ 77 ∷ [], 13))
    × (parse_file_header (record { rest = file_header_bytes 5 ++ 77 ∷ []; pos = 0 })
        ≡ ok ((5, 4), record { rest = 0 ∷ 0 ∷ 0 ∷ 0 ∷ 77 ∷ []; pos = 9 }))
parse_file_header-fill_file_header_example =
    parse_file_header-fill_file_header 5 (0 ∷ 0 ∷ 0 ∷ 0 ∷ 0 ∷ 0 ∷ 0 ∷ 0 ∷ 0 ∷ 0 ∷ 0 ∷ 0 ∷ 0 ∷ [])
      (77 ∷ []) (omega arith) refl

-- minus one millisecond
time_to_ts-ts_to_time_example : time_to_ts (ts_to_time (2 ^ 32 - 1)) ≡ 2 ^ 32 - 1
time_to_ts-ts_to_time_example = time_to_ts-ts_to_time (2 ^ 32 - 1) (omega arith)
