-- ===== src/Codec/Tests.antt =====
-- Runs of the codecs and of the time scales, and their theorems at concrete values.
use mse.Common.{
  ℕ, ◌*◌, ◌/◌, ◌%◌, ◌^◌, ◌-◌, ◌≤◌, ◌≡◌, ◌⊎◌, List, [], ◌∷◌, ◌++◌, some, arith, get_elem?, replicate,
}
use mse.Common.Outcome.{ok, err}
use mse.Common.Word.{negate}
use mse.Codec.Opus.{
  empty_packet, invalid_packet, opus_frame_times, packet_duration, longest, packet_duration-cases,
}
use mse.Codec.Timescale.{to_scale, relative, IsNearest, to_scale-IsNearest, relative-to_scale}
use mse.Codec.Aac.{AudioConfig, zero_config, complete, parse_adts_header, fill_adts_header}
use mse.Codec.Aac.Adts.{parse_adts_header-fill_adts_header}

packet_duration-cases_example :
    (packet_duration [] ≡ err empty_packet)
    × (((packet_duration (0xfc ∷ 1 ∷ []) ≡ err invalid_packet)
          × (0xfc % 4 ≡ 3)
          × (◌≡◌ {A = List ℕ} (1 ∷ []) []))
        ⊎ ((n t : ℕ) × (packet_duration (0xfc ∷ 1 ∷ []) ≡ ok (n * t))
            × (n ≤ 63)
            × (get_elem? opus_frame_times (0xfc / 8) ≡ some t)
            × (t ≤ longest)))
packet_duration-cases_example = packet_duration-cases 0xfc (1 ∷ []) (omega arith)

to_scale-IsNearest_example :
    (r : ℕ) × (to_scale 40_000_000 90_000 ≡ some r) × IsNearest (40_000_000 * 90_000) r
to_scale-IsNearest_example = to_scale-IsNearest 40_000_000 90_000 (omega arith)

relative-to_scale_example :
    (to_scale 33_366_667 90_000 ≡ some (relative 33_366_667 90_000))
    × (relative (negate 33_366_667) 90_000 ≡ (2 ^ 32 - relative 33_366_667 90_000) % 2 ^ 32)
relative-to_scale_example =
    relative-to_scale 33_366_667 90_000 (omega arith) (omega arith) (omega arith)

abbrev low_complexity : AudioConfig
low_complexity = record zero_config { object_type = 2; sample_rate_index = 4; channel_config = 2 }

parse_adts_header-fill_adts_header_example :
    (frame : List ℕ) × (fill_adts_header (replicate 7 0) low_complexity 1024 300 ≡ some frame)
    × (parse_adts_header (frame ++ 9 ∷ [])
        ≡ ok (record {
          config = complete low_complexity;
          hdrlen = 7;
          framelen = 307;
          samples = 1024;
        }))
parse_adts_header-fill_adts_header_example =
    parse_adts_header-fill_adts_header (replicate 7 0) (9 ∷ []) low_complexity 0 300
      (omega arith, omega arith, omega arith, omega arith, omega arith) (omega arith) (omega arith)
      (omega arith)
