-- ===== src/Fmp4/Fragment/Run.antt =====
-- format/fmp4/fmp4io/fragment.go: the run of samples of a fragment.
use mse.Common.{ℕ, zero, suc, ◌+◌, ◌*◌, ◌%◌, ◌^◌, List, [], ◌∷◌, none, some}
use mse.Common.{if◌then◌else◌, ltb, length}
use mse.Common.Outcome.{ok, ◌>>=◌}
use mse.Pio.Layout.{byte, be24, be32, be32_signed}
use mse.Pio.Cursor.{Write, ◌then_write◌, write, write_nothing}
use mse.Pio.Fetch.{Cursor, fetch}
use mse.Fmp4.Box.{in_data_offset, in_first_sample_flags, Result, AtomPos, set_pos}
use mse.Fmp4.Optional.{write_optional, take_optional, need_optional}
use mse.Fmp4.Fragment.{has, take_version_flags}

pub record TrackFragRunEntry : Type 0 where
  pub duration : ℕ
  pub size : ℕ
  pub flags : ℕ
  pub cts : ℕ

pub record TrackFragRun : Type 0 where
  pub version : ℕ
  pub flags : ℕ
  pub data_offset : ℕ
  pub first_sample_flags : ℕ
  pub entries : List TrackFragRunEntry
  pub pos : AtomPos

-- `PutI32BE(b[:n], v); n += 4`, which writes to the front of `b`
unfoldable pub write_front : ℕ → ℕ → Write
write_front front v b n = elim (write be32_signed v b front) [
  | none ↦ none
  | some s ↦ some (s.0, n + 4)
]

-- a round of the loop of `marshal`, for a `b` that begins at `front`
unfoldable pub put_run_entry : ℕ → TrackFragRun → TrackFragRunEntry → Write
put_run_entry front a e =
    write_optional (has a.flags 0x100) be32 e.duration
    then_write write_optional (has a.flags 0x200) be32 e.size
    then_write write_optional (has a.flags 0x400) be32 e.flags
    then_write (if has a.flags 0x800
        then if ltb 0 a.version then write_front front e.cts else write be32 e.cts
        else write_nothing)

unfoldable pub put_run_entries : ℕ → TrackFragRun → List TrackFragRunEntry → Write
put_run_entries front a [] = write_nothing
put_run_entries front a (e ∷ es) = put_run_entry front a e then_write put_run_entries front a es

unfoldable pub track_frag_run_marshal : TrackFragRun → Write
track_frag_run_marshal a b n =
    (write byte a.version
        then_write write be24 a.flags
        then_write write be32 (length a.entries % 2 ^ 32)
        then_write write_optional (has a.flags 0x01) be32 a.data_offset
        then_write write_optional (has a.flags 0x04) be32 a.first_sample_flags
        then_write put_run_entries n a a.entries)
      b n

-- the bytes of an entry
unfoldable pub run_entry_len : ℕ → ℕ
run_entry_len flags =
    (if has flags 0x100 then 4 else 0)
    + (if has flags 0x200 then 4 else 0)
    + (if has flags 0x400 then 4 else 0)
    + (if has flags 0x800 then 4 else 0)

unfoldable pub track_frag_run_len : TrackFragRun → ℕ
track_frag_run_len a =
    8
    + 1
    + 3
    + 4
    + (if has a.flags 0x01 then 4 else 0)
    + (if has a.flags 0x04 then 4 else 0)
    + run_entry_len a.flags * length a.entries

-- a round of the loop of `Unmarshal`; the pattern of `int32(U32BE(b))` is that of `I32BE(b)`
unfoldable pub take_run_entry : ℕ → ℕ → Cursor → Result TrackFragRunEntry
take_run_entry version flags c = do
  (duration, c1) ← take_optional (has flags 0x100) be32 c
  (size, c2) ← take_optional (has flags 0x200) be32 c1
  (sample_flags, c3) ← take_optional (has flags 0x400) be32 c2
  (cts, c4) ← take_optional (has flags 0x800) (if ltb 0 version then be32_signed else be32) c3
  ok (record { duration = duration; size = size; flags = sample_flags; cts = cts }, c4)

unfoldable pub take_run_entries : ℕ → ℕ → ℕ → Cursor → Result (List TrackFragRunEntry)
take_run_entries version flags zero c = ok ([], c)
take_run_entries version flags (suc count) c = do
  (e, c1) ← take_run_entry version flags c
  (es, c2) ← take_run_entries version flags count c1
  ok (e ∷ es, c2)

-- The count and the entries are read without a check of the length.
unfoldable pub track_frag_run_unmarshal : Cursor → Result TrackFragRun
track_frag_run_unmarshal c = do
  ((version, flags), c1) ← take_version_flags c
  (count, c2) ← fetch be32 c1
  (data_offset, c3) ← need_optional (has flags 0x01) be32 in_data_offset c2
  (first_sample_flags, c4) ← need_optional (has flags 0x04) be32 in_first_sample_flags c3
  (entries, c5) ← take_run_entries version flags count c4
  ok (
    record {
      version = version;
      flags = flags;
      data_offset = data_offset;
      first_sample_flags = first_sample_flags;
      entries = entries;
      pos = set_pos c;
    },
    c5,
  )
