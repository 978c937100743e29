-- ===== src/Fmp4/Fragment/HeaderBytes.antt =====
-- The bytes of the header of a movie fragment and of the decode time, and reading them.
use mse.Common.{ℕ, ◌+◌, ◌%◌, ◌^◌, ◌<◌, ◌≡◌, refl, ap, arith, List, [], ◌++◌, inl, inr}
use mse.Common.{◌==◌, if◌then◌else◌, length, Bool-cases}
use mse.Common.Outcome.{ok}
use mse.Pio.Layout.{byte, be24, be32, be64}
use mse.Pio.Cursor.{write, bytes_of, Writes, write-Writes, then-Writes}
use mse.Pio.Fetch.{Cursor, Trace, advance, need-ok, fetch, fetch-bytes_of}
use mse.Fmp4.Box.{Message, in_seqnum, set_pos}
use mse.Fmp4.Fragment.{
  MovieFragHeader, movie_frag_header_marshal, movie_frag_header_len, movie_frag_header_unmarshal,
  TrackFragDecodeTime, track_frag_decode_time_marshal, track_frag_decode_time_len,
  track_frag_decode_time_unmarshal,
}
use mse.Fmp4.Fragment.RunBytes.{version_flags_bytes}

abbrev pub mfhd_bytes : MovieFragHeader → List ℕ
mfhd_bytes a = bytes_of byte a.version ++ (bytes_of be24 a.flags ++ bytes_of be32 a.seqnum)

abbrev pub MfhdFits : MovieFragHeader → Type 0
MfhdFits a = (a.version < 256) × (a.flags < 2 ^ 24) × (a.seqnum < 2 ^ 32)

pub mfhd-Writes : (a : MovieFragHeader) → Writes (movie_frag_header_marshal a) (mfhd_bytes a)
unfolding movie_frag_header_marshal
mfhd-Writes a =
    then-Writes (write-Writes byte a.version)
      (then-Writes (write-Writes be24 a.flags) (write-Writes be32 a.seqnum))

pub unmarshal-mfhd_bytes :
    (a : MovieFragHeader) (c : Cursor)
    → MfhdFits a
    → (advance 8 c).rest ≡ mfhd_bytes a
    → movie_frag_header_unmarshal c
      ≡ ok (
        record a { pos = set_pos c },
        record { rest = []; pos = c.pos + movie_frag_header_len a },
      )
unfolding movie_frag_header_unmarshal movie_frag_header_len
unmarshal-mfhd_bytes a c (hv, hf, hs) behind =
    let p : ℕ = c.pos + 8 + 1 + 3 in
    rw
      (
        version_flags_bytes a.version a.flags c (bytes_of be32 a.seqnum) hv hf behind,
        need-ok 4 in_seqnum (record { rest = bytes_of be32 a.seqnum; pos = p }) (omega arith),
        fetch-bytes_of {E = Trace Message} be32 a.seqnum [] p hs,
      )
      (ap (λ (k : ℕ). ok (record a { pos = set_pos c }, record { rest = []; pos = k }))
        (omega arith))

abbrev pub tfdt_bytes : TrackFragDecodeTime → List ℕ
tfdt_bytes a =
    bytes_of byte a.version
    ++ (bytes_of be24 a.flags
        ++ (if a.version == 0 then bytes_of be32 a.time else bytes_of be64 a.time))

abbrev pub TfdtFits : TrackFragDecodeTime → Type 0
TfdtFits a =
    (a.version < 256) × (a.flags < 2 ^ 24) × (a.time < (if a.version == 0 then 2 ^ 32 else 2 ^ 64))

time_Writes :
    (a : TrackFragDecodeTime)
    → TfdtFits a
    → Writes
        (if a.version == 0 then write be32 (a.time % 2 ^ 32) else write be64 a.time)
        (if a.version == 0 then bytes_of be32 a.time else bytes_of be64 a.time)
time_Writes a (_, _, h) = elim (Bool-cases (a.version == 0)) [
  | inl e ↦
      let low : a.time % 2 ^ 32 ≡ a.time = ground (arith, e, h) in
      rw (e, low) (write-Writes be32 a.time)
  | inr e ↦ rw e (write-Writes be64 a.time)
]

pub tfdt-Writes :
    (a : TrackFragDecodeTime)
    → TfdtFits a
    → Writes (track_frag_decode_time_marshal a) (tfdt_bytes a)
unfolding track_frag_decode_time_marshal
tfdt-Writes a fits =
    then-Writes (write-Writes byte a.version)
      (then-Writes (write-Writes be24 a.flags) (time_Writes a fits))

pub len-tfdt_bytes :
    (a : TrackFragDecodeTime) → 8 + length (tfdt_bytes a) ≡ track_frag_decode_time_len a
unfolding track_frag_decode_time_len
len-tfdt_bytes a = elim (Bool-cases (a.version == 0)) [ inl e ↦ rw e refl | inr e ↦ rw e refl ]

time_taken :
    (a : TrackFragDecodeTime) (p : ℕ)
    → TfdtFits a
    → (if a.version == 0
        then fetch {E = Trace Message} be32 (record {
          rest = if a.version == 0 then bytes_of be32 a.time else bytes_of be64 a.time;
          pos = p;
        })
        else fetch be64 (record {
          rest = if a.version == 0 then bytes_of be32 a.time else bytes_of be64 a.time;
          pos = p;
        }))
      ≡ ok (a.time, record { rest = []; pos = p + (if a.version == 0 then 4 else 8) })
time_taken a p (_, _, h) = elim (Bool-cases (a.version == 0)) [
  | inl e ↦
      let low : a.time < 2 ^ 32 = ground (arith, e, h) in
      rw e (fetch-bytes_of {E = Trace Message} be32 a.time [] p low)
  | inr e ↦
      let low : a.time < 2 ^ 64 = ground (arith, e, h) in
      rw e (fetch-bytes_of {E = Trace Message} be64 a.time [] p low)
]

pub unmarshal-tfdt_bytes :
    (a : TrackFragDecodeTime) (c : Cursor)
    → TfdtFits a
    → (advance 8 c).rest ≡ tfdt_bytes a
    → track_frag_decode_time_unmarshal c
      ≡ ok (
        record a { pos = set_pos c },
        record { rest = []; pos = c.pos + track_frag_decode_time_len a },
      )
unfolding track_frag_decode_time_unmarshal track_frag_decode_time_len
unmarshal-tfdt_bytes a c fits behind =
    let p : ℕ = c.pos + 8 + 1 + 3 in
    rw
      (
        version_flags_bytes a.version a.flags c
            (if a.version == 0 then bytes_of be32 a.time else bytes_of be64 a.time) fits.0 fits.1
            behind,
        time_taken a p fits,
      )
      (ap (λ (k : ℕ). ok (record a { pos = set_pos c }, record { rest = []; pos = k }))
        (omega arith))
