-- ===== src/Fmp4/Fragment/TrackHeaderBytes.antt =====
-- The bytes of the header of a track's fragment, and reading them.
use mathlib.Core.List.{append-nil}
use mse.Common.{ℕ, ◌+◌, ◌^◌, ◌<◌, ◌≡◌, sym, ap, ◌∙◌, arith, List, [], ◌++◌}
use mse.Common.{if◌then◌else◌, length, length-append}
use mse.Common.Outcome.{ok}
use mse.Pio.Layout.{byte, be24, be32, be64}
use mse.Pio.Cursor.{bytes_of, Writes, write-Writes, then-Writes}
use mse.Pio.Fetch.{Cursor, Trace, advance, need-ok, fetch-bytes_of}
use mse.Fmp4.Box.{
  Message, in_track_id, in_base_data_offset, in_stsd_id, in_default_duration, in_default_size,
  in_default_flags, set_pos,
}
use mse.Fmp4.Optional.{
  need_optional, optional_bytes, OptionalFits, optional-Writes, length-optional_bytes,
  need-optional_bytes,
}
use mse.Fmp4.Fragment.{
  has, TrackFragHeader, track_frag_header_marshal, track_frag_header_len,
  track_frag_header_unmarshal,
}
use mse.Fmp4.Fragment.RunBytes.{version_flags_bytes}

abbrev pub tfhd_bytes : TrackFragHeader → List ℕ
tfhd_bytes a =
    bytes_of byte a.version
    ++ (bytes_of be24 a.flags
        ++ (bytes_of be32 a.track_id
            ++ (optional_bytes (has a.flags 0x01) be64 a.base_data_offset
                ++ (optional_bytes (has a.flags 0x02) be32 a.stsd_id
                    ++ (optional_bytes (has a.flags 0x08) be32 a.default_duration
                        ++ (optional_bytes (has a.flags 0x10) be32 a.default_size
                            ++ optional_bytes (has a.flags 0x20) be32 a.default_flags))))))

abbrev pub TfhdFits : TrackFragHeader → Type 0
TfhdFits a =
    (a.version < 256)
    × (a.flags < 2 ^ 24)
    × (a.track_id < 2 ^ 32)
    × OptionalFits (has a.flags 0x01) be64 a.base_data_offset
    × OptionalFits (has a.flags 0x02) be32 a.stsd_id
    × OptionalFits (has a.flags 0x08) be32 a.default_duration
    × OptionalFits (has a.flags 0x10) be32 a.default_size
    × OptionalFits (has a.flags 0x20) be32 a.default_flags

pub tfhd-Writes : (a : TrackFragHeader) → Writes (track_frag_header_marshal a) (tfhd_bytes a)
unfolding track_frag_header_marshal
tfhd-Writes a = then-Writes (write-Writes byte a.version) (
    then-Writes (write-Writes be24 a.flags) (
      then-Writes (write-Writes be32 a.track_id) (
        then-Writes (optional-Writes (has a.flags 0x01) be64 a.base_data_offset) (
          then-Writes (optional-Writes (has a.flags 0x02) be32 a.stsd_id) (
            then-Writes (optional-Writes (has a.flags 0x08) be32 a.default_duration) (
              then-Writes (optional-Writes (has a.flags 0x10) be32 a.default_size)
                (optional-Writes (has a.flags 0x20) be32 a.default_flags)))))))

module _ (a : TrackFragHeader) where
  abbrev default_flags : List ℕ
  default_flags = optional_bytes (has a.flags 0x20) be32 a.default_flags

  abbrev from_size : List ℕ
  from_size = optional_bytes (has a.flags 0x10) be32 a.default_size ++ default_flags

  abbrev from_duration : List ℕ
  from_duration = optional_bytes (has a.flags 0x08) be32 a.default_duration ++ from_size

  abbrev from_stsd_id : List ℕ
  from_stsd_id = optional_bytes (has a.flags 0x02) be32 a.stsd_id ++ from_duration

  abbrev from_offset : List ℕ
  from_offset = optional_bytes (has a.flags 0x01) be64 a.base_data_offset ++ from_stsd_id

  pub len-tfhd_bytes : 8 + length (tfhd_bytes a) ≡ track_frag_header_len a
  unfolding track_frag_header_len
  len-tfhd_bytes = omega (
    arith,
    length-append (optional_bytes (has a.flags 0x01) be64 a.base_data_offset) from_stsd_id,
    length-append (optional_bytes (has a.flags 0x02) be32 a.stsd_id) from_duration,
    length-append (optional_bytes (has a.flags 0x08) be32 a.default_duration) from_size,
    length-append (optional_bytes (has a.flags 0x10) be32 a.default_size) default_flags,
    length-optional_bytes (has a.flags 0x01) be64 a.base_data_offset,
    length-optional_bytes (has a.flags 0x02) be32 a.stsd_id,
    length-optional_bytes (has a.flags 0x08) be32 a.default_duration,
    length-optional_bytes (has a.flags 0x10) be32 a.default_size,
    length-optional_bytes (has a.flags 0x20) be32 a.default_flags,
  )

  last_taken :
      (p : ℕ)
      → OptionalFits (has a.flags 0x20) be32 a.default_flags
      → need_optional
          (has a.flags 0x20)
          be32
          in_default_flags
          (record { rest = default_flags; pos = p })
        ≡ ok (a.default_flags, record { rest = []; pos = p + (if has a.flags 0x20 then 4 else 0) })
  last_taken p h =
      ap
        (λ (b : List ℕ).
          need_optional (has a.flags 0x20) be32 in_default_flags (record { rest = b; pos = p }))
        (sym (append-nil default_flags))
      ∙ need-optional_bytes (has a.flags 0x20) be32 in_default_flags a.default_flags [] p h

  pub unmarshal-tfhd_bytes :
      (c : Cursor)
      → TfhdFits a
      → (advance 8 c).rest ≡ tfhd_bytes a
      → track_frag_header_unmarshal c
        ≡ ok (
          record a { pos = set_pos c },
          record { rest = []; pos = c.pos + track_frag_header_len a },
        )
  unfolding track_frag_header_unmarshal track_frag_header_len
  unmarshal-tfhd_bytes c (hv, hf, hi, h0, h1, h2, h3, h4) behind =
      let p0 : ℕ = c.pos + 8 + 1 + 3 in
      let p1 : ℕ = p0 + 4 + (if has a.flags 0x01 then 8 else 0) in
      let p2 : ℕ = p1 + (if has a.flags 0x02 then 4 else 0) in
      let p3 : ℕ = p2 + (if has a.flags 0x08 then 4 else 0) in
      let p4 : ℕ = p3 + (if has a.flags 0x10 then 4 else 0) in
      rw
        (
          version_flags_bytes a.version a.flags c (bytes_of be32 a.track_id ++ from_offset) hv hf
              behind,
          need-ok 4 in_track_id
              (record { rest = bytes_of be32 a.track_id ++ from_offset; pos = p0 }) (omega arith),
          fetch-bytes_of {E = Trace Message} be32 a.track_id from_offset p0 hi,
          need-optional_bytes (has a.flags 0x01) be64 in_base_data_offset a.base_data_offset
              from_stsd_id (p0 + 4) h0,
          need-optional_bytes (has a.flags 0x02) be32 in_stsd_id a.stsd_id from_duration p1 h1,
          need-optional_bytes (has a.flags 0x08) be32 in_default_duration a.default_duration
              from_size p2 h2,
          need-optional_bytes (has a.flags 0x10) be32 in_default_size a.default_size default_flags
              p3 h3,
          last_taken p4 h4,
        )
        (ap (λ (k : ℕ). ok (record a { pos = set_pos c }, record { rest = []; pos = k }))
          (omega arith))
