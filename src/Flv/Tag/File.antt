-- ===== src/Flv/Tag/File.antt =====
-- The header of an FLV file and the times of tags.
use mse.Common.{ℕ, ◌^◌, ◌<◌, ◌≡◌, refl, arith, List, [], ◌++◌, some}
use mse.Common.{length}
use mse.Common.Outcome.{ok}
use mse.Common.Word.{signed_div}
use mse.Pio.Layout.{byte, be24, be32}
use mse.Pio.Cursor.{bytes_of, write-Writes, then-Writes, Writes-room}
use mse.Pio.Fetch.{fetch-bytes_of}
use mse.Flv.Tag.{FlvError, fill_file_header, parse_file_header, ts_to_time, time_to_ts}

-- `TimeToTs` of the time that `TsToTime` makes of a number of milliseconds, negative ones included, is
-- that number.
pub time_to_ts-ts_to_time : (ts : ℕ) → ts < 2 ^ 32 → time_to_ts (ts_to_time ts) ≡ ts
unfolding time_to_ts ts_to_time signed_div
time_to_ts-ts_to_time ts h = ground arith

abbrev pub file_header_bytes : ℕ → List ℕ
file_header_bytes flags =
    bytes_of be32 0x464c5601 ++ (bytes_of byte flags ++ (bytes_of be32 9 ++ bytes_of be32 0))

-- `FillFileHeader` in a buffer of 13 bytes or more, with the flags in a byte, sets the first 13 and no
-- other, and `ParseFileHeader` on these gives back the flags after 9 bytes, with 4 more to skip.
pub parse_file_header-fill_file_header :
    (flags : ℕ) (b rest : List ℕ)
    → flags < 2 ^ 8
    → length b ≡ 13
    → (fill_file_header flags (b ++ rest) 0 ≡ some (file_header_bytes flags ++ rest, 13))
      × (parse_file_header (record { rest = file_header_bytes flags ++ rest; pos = 0 })
          ≡ ok ((flags, 4), record { rest = bytes_of be32 0 ++ rest; pos = 9 }))
unfolding parse_file_header fill_file_header
parse_file_header-fill_file_header flags b rest fits size = (
  Writes-room {xs = file_header_bytes flags}
      (then-Writes (write-Writes be32 0x464c5601) (
        then-Writes (write-Writes byte flags)
          (then-Writes (write-Writes be32 9) (write-Writes be32 0))))
      [] b rest size,
  rw
      (
        fetch-bytes_of {E = FlvError} be24 0x464c56
            (bytes_of byte 1
              ++ (bytes_of byte flags ++ (bytes_of be32 9 ++ (bytes_of be32 0 ++ rest))))
            0 (omega arith),
        fetch-bytes_of {E = FlvError} byte 1
            (bytes_of byte flags ++ (bytes_of be32 9 ++ (bytes_of be32 0 ++ rest))) 3 (omega arith),
        fetch-bytes_of {E = FlvError} byte flags (bytes_of be32 9 ++ (bytes_of be32 0 ++ rest)) 4
            fits,
        fetch-bytes_of {E = FlvError} be32 9 (bytes_of be32 0 ++ rest) 5 (omega arith),
      )
      refl,
)
