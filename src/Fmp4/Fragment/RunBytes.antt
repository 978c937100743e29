-- ===== src/Fmp4/Fragment/RunBytes.antt =====
-- The bytes of a run of samples.
use mse.Common.{
  ℕ, ◌+◌, ◌*◌, ◌%◌, ◌^◌, ◌<◌, ◌≡◌, ◌⊎◌, inl, inr, refl, arith, false, List, [], ◌∷◌, ◌++◌,
}
use mse.Common.{if◌then◌else◌, ltb, length, length-append}
use mse.Common.Outcome.{ok}
use mse.Pio.Layout.{byte, be24, be32}
use mse.Pio.Cursor.{
  ◌then_write◌, write, write_nothing, bytes_of, Writes, write-Writes, nothing-Writes, then-Writes,
  if-Writes,
}
use mse.Pio.Fetch.{Cursor, Trace, advance, need-ok, fetch-bytes_of}
use mse.Fmp4.Box.{Message, in_version, in_flags}
use mse.Fmp4.Optional.{
  write_optional, optional_bytes, OptionalFits, optional-Writes, length-optional_bytes,
}
use mse.Fmp4.Fragment.{has, take_version_flags}
use mse.Fmp4.Fragment.Run.{
  TrackFragRunEntry, TrackFragRun, write_front, put_run_entry, put_run_entries,
  track_frag_run_marshal, run_entry_len, track_frag_run_len,
}

pub version_flags_bytes :
    (version flags : ℕ) (c : Cursor) (rest : List ℕ)
    → version < 256
    → flags < 2 ^ 24
    → (advance 8 c).rest ≡ bytes_of byte version ++ (bytes_of be24 flags ++ rest)
    → take_version_flags c ≡ ok ((version, flags), record { rest = rest; pos = c.pos + 8 + 1 + 3 })
unfolding take_version_flags
version_flags_bytes version flags c rest hv hf behind =
    rw
      (
        behind,
        need-ok 1 in_version
            (record {
              rest = bytes_of byte version ++ (bytes_of be24 flags ++ rest);
              pos = c.pos + 8;
            })
            (omega arith),
        fetch-bytes_of {E = Trace Message} byte version (bytes_of be24 flags ++ rest) (c.pos + 8)
            hv,
        need-ok 3 in_flags (record { rest = bytes_of be24 flags ++ rest; pos = c.pos + 8 + 1 })
            (omega arith),
        fetch-bytes_of {E = Trace Message} be24 flags rest (c.pos + 8 + 1) hf,
      )
      refl

-- A run without composition times of version 1 or later, which `marshal` writes to the wrong place.
abbrev pub InPlace : TrackFragRun → Type 0
InPlace a = (a.version ≡ 0) ⊎ (has a.flags 0x800 ≡ false)

abbrev pub entry_bytes : ℕ → TrackFragRunEntry → List ℕ
entry_bytes flags e =
    optional_bytes (has flags 0x100) be32 e.duration
    ++ (optional_bytes (has flags 0x200) be32 e.size
        ++ (optional_bytes (has flags 0x400) be32 e.flags
            ++ optional_bytes (has flags 0x800) be32 e.cts))

abbrev pub entries_bytes : ℕ → List TrackFragRunEntry → List ℕ
entries_bytes flags [] = []
entries_bytes flags (e ∷ es) = entry_bytes flags e ++ entries_bytes flags es

abbrev pub EntriesFit : ℕ → List TrackFragRunEntry → Type 0
EntriesFit flags [] = Unit
EntriesFit flags (e ∷ es) =
    OptionalFits (has flags 0x100) be32 e.duration
    × OptionalFits (has flags 0x200) be32 e.size
    × OptionalFits (has flags 0x400) be32 e.flags
    × OptionalFits (has flags 0x800) be32 e.cts
    × EntriesFit flags es

cts-Writes :
    (front : ℕ) (a : TrackFragRun) (v : ℕ)
    → InPlace a
    → Writes
        (if has a.flags 0x800
          then (if ltb 0 a.version then write_front front v else write be32 v)
          else write_nothing)
        (optional_bytes (has a.flags 0x800) be32 v)
cts-Writes front a v (inl e) =
    rw e (if-Writes (has a.flags 0x800) (write-Writes be32 v) nothing-Writes)
cts-Writes front a v (inr e) = rw e nothing-Writes

put_entry-Writes :
    (front : ℕ) (a : TrackFragRun) (e : TrackFragRunEntry)
    → InPlace a
    → Writes (put_run_entry front a e) (entry_bytes a.flags e)
unfolding put_run_entry
put_entry-Writes front a e place =
    then-Writes (optional-Writes (has a.flags 0x100) be32 e.duration) (
      then-Writes (optional-Writes (has a.flags 0x200) be32 e.size) (
        then-Writes (optional-Writes (has a.flags 0x400) be32 e.flags)
          (cts-Writes front a e.cts place)))

put_entries-Writes :
    (front : ℕ) (a : TrackFragRun) (es : List TrackFragRunEntry)
    → InPlace a
    → Writes (put_run_entries front a es) (entries_bytes a.flags es)
unfolding put_run_entries
put_entries-Writes front a [] place = nothing-Writes
put_entries-Writes front a (e ∷ es) place =
    then-Writes (put_entry-Writes front a e place) (put_entries-Writes front a es place)

length-entry_bytes :
    (flags : ℕ) (e : TrackFragRunEntry) → length (entry_bytes flags e) ≡ run_entry_len flags
unfolding run_entry_len
length-entry_bytes flags e =
    let duration : List ℕ = optional_bytes (has flags 0x100) be32 e.duration in
    let size : List ℕ = optional_bytes (has flags 0x200) be32 e.size in
    let own_flags : List ℕ = optional_bytes (has flags 0x400) be32 e.flags in
    let cts : List ℕ = optional_bytes (has flags 0x800) be32 e.cts in
    omega (
      arith,
      length-append duration (size ++ (own_flags ++ cts)),
      length-append size (own_flags ++ cts),
      length-append own_flags cts,
      length-optional_bytes (has flags 0x100) be32 e.duration,
      length-optional_bytes (has flags 0x200) be32 e.size,
      length-optional_bytes (has flags 0x400) be32 e.flags,
      length-optional_bytes (has flags 0x800) be32 e.cts,
    )

length-entries_bytes :
    (flags : ℕ) (es : List TrackFragRunEntry)
    → length (entries_bytes flags es) ≡ run_entry_len flags * length es
length-entries_bytes flags [] = omega arith
length-entries_bytes flags (e ∷ es) = grind (
  arith,
  length-append (entry_bytes flags e) (entries_bytes flags es),
  length-entry_bytes flags e,
  length-entries_bytes flags es,
)

abbrev pub run_bytes : TrackFragRun → List ℕ
run_bytes a =
    bytes_of byte a.version
    ++ (bytes_of be24 a.flags
        ++ (bytes_of be32 (length a.entries)
            ++ (optional_bytes (has a.flags 0x01) be32 a.data_offset
                ++ (optional_bytes (has a.flags 0x04) be32 a.first_sample_flags
                    ++ entries_bytes a.flags a.entries))))

abbrev pub RunFits : TrackFragRun → Type 0
RunFits a =
    (a.version < 256)
    × (a.flags < 2 ^ 24)
    × (length a.entries < 2 ^ 32)
    × OptionalFits (has a.flags 0x01) be32 a.data_offset
    × OptionalFits (has a.flags 0x04) be32 a.first_sample_flags
    × EntriesFit a.flags a.entries
    × InPlace a

run_Writes :
    (front : ℕ) (a : TrackFragRun)
    → RunFits a
    → Writes
        (write byte a.version
          then_write write be24 a.flags
          then_write write be32 (length a.entries % 2 ^ 32)
          then_write write_optional (has a.flags 0x01) be32 a.data_offset
          then_write write_optional (has a.flags 0x04) be32 a.first_sample_flags
          then_write put_run_entries front a a.entries)
        (run_bytes a)
run_Writes front a (_, _, hn, _, _, _, place) =
    let count : length a.entries % 2 ^ 32 ≡ length a.entries = omega (arith, hn) in
    rw count (
      then-Writes (write-Writes byte a.version) (
        then-Writes (write-Writes be24 a.flags) (
          then-Writes (write-Writes be32 (length a.entries)) (
            then-Writes (optional-Writes (has a.flags 0x01) be32 a.data_offset) (
              then-Writes (optional-Writes (has a.flags 0x04) be32 a.first_sample_flags)
                (put_entries-Writes front a a.entries place))))))

pub run-Writes : (a : TrackFragRun) → RunFits a → Writes (track_frag_run_marshal a) (run_bytes a)
unfolding track_frag_run_marshal
run-Writes a fits = record { at = λ pre rest h. (run_Writes (length pre) a fits).at pre rest h }

pub len-run_bytes : (a : TrackFragRun) → 8 + length (run_bytes a) ≡ track_frag_run_len a
unfolding track_frag_run_len
len-run_bytes a =
    let offset : List ℕ = optional_bytes (has a.flags 0x01) be32 a.data_offset in
    let first : List ℕ = optional_bytes (has a.flags 0x04) be32 a.first_sample_flags in
    let entries : List ℕ = entries_bytes a.flags a.entries in
    omega (
      arith,
      length-append offset (first ++ entries),
      length-append first entries,
      length-entries_bytes a.flags a.entries,
      length-optional_bytes (has a.flags 0x01) be32 a.data_offset,
      length-optional_bytes (has a.flags 0x04) be32 a.first_sample_flags,
    )
