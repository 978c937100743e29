-- ===== src/Fmp4/Tables/Formats.antt =====
-- The formats of the entries of sampletable.go.
use mse.Common.{ℕ, ◌+◌, ◌^◌, ◌<◌, ◌≡◌, refl, ap, arith, List, ◌++◌}
use mse.Common.Outcome.{ok}
use mse.Pio.Layout.{be32}
use mse.Pio.Cursor.{bytes_of, Writes, write-Writes, then-Writes}
use mse.Pio.Fetch.{Trace, fetch-bytes_of}
use mse.Fmp4.Box.{Message}
use mse.Fmp4.Tables.{
  TimeToSampleEntry, SampleToChunkEntry, CompositionOffsetEntry, put_time_to_sample_entry,
  get_time_to_sample_entry, put_sample_to_chunk_entry, get_sample_to_chunk_entry,
  put_composition_offset_entry, get_composition_offset_entry, time_to_sample_format,
  sample_to_chunk_format, composition_offset_format, uint32_format,
}
use mse.Fmp4.Tables.Bytes.{EntryLaws}

abbrev pub uint32_laws : EntryLaws uint32_format
uint32_laws = record {
  bytes_of_entry = bytes_of be32;
  EntryFits = λ v. v < 2 ^ 32;
  length_is = λ v. refl;
  put_Writes = write-Writes be32;
  taken = λ v rest pos h. fetch-bytes_of be32 v rest pos h;
}

abbrev pub time_to_sample_bytes : TimeToSampleEntry → List ℕ
time_to_sample_bytes e = bytes_of be32 e.count ++ (bytes_of be32 e.duration)

pub time_to_sample_taken :
    (e : TimeToSampleEntry) (rest : List ℕ) (pos : ℕ)
    → (e.count < 2 ^ 32) × (e.duration < 2 ^ 32)
    → get_time_to_sample_entry (record { rest = time_to_sample_bytes e ++ rest; pos = pos })
      ≡ ok (e, record { rest = rest; pos = pos + 8 })
unfolding get_time_to_sample_entry
time_to_sample_taken e rest pos (h0, h1) =
    rw
      (
        fetch-bytes_of {E = Trace Message} be32 e.count (bytes_of be32 e.duration ++ (rest)) (pos)
            h0,
        fetch-bytes_of {E = Trace Message} be32 e.duration (rest) (pos + 4) h1,
      )
      (ap (λ (p : ℕ). ok (e, record { rest = rest; pos = p })) (omega arith))

pub time_to_sample_put :
    (e : TimeToSampleEntry) → Writes (put_time_to_sample_entry e) (time_to_sample_bytes e)
unfolding put_time_to_sample_entry
time_to_sample_put e = then-Writes (write-Writes be32 e.count) (write-Writes be32 e.duration)

abbrev pub time_to_sample_laws : EntryLaws time_to_sample_format
time_to_sample_laws = record {
  bytes_of_entry = time_to_sample_bytes;
  EntryFits = λ e. (e.count < 2 ^ 32) × (e.duration < 2 ^ 32);
  length_is = λ e. refl;
  put_Writes = time_to_sample_put;
  taken = time_to_sample_taken;
}

abbrev pub sample_to_chunk_bytes : SampleToChunkEntry → List ℕ
sample_to_chunk_bytes e =
    bytes_of be32 e.first_chunk
    ++ (bytes_of be32 e.samples_per_chunk ++ (bytes_of be32 e.sample_desc_id))

pub sample_to_chunk_taken :
    (e : SampleToChunkEntry) (rest : List ℕ) (pos : ℕ)
    → (e.first_chunk < 2 ^ 32) × (e.samples_per_chunk < 2 ^ 32) × (e.sample_desc_id < 2 ^ 32)
    → get_sample_to_chunk_entry (record { rest = sample_to_chunk_bytes e ++ rest; pos = pos })
      ≡ ok (e, record { rest = rest; pos = pos + 12 })
unfolding get_sample_to_chunk_entry
sample_to_chunk_taken e rest pos (h0, h1, h2) =
    rw
      (
        fetch-bytes_of {E = Trace Message} be32 e.first_chunk
            (bytes_of be32 e.samples_per_chunk ++ (bytes_of be32 e.sample_desc_id ++ (rest))) (pos)
            h0,
        fetch-bytes_of {E = Trace Message} be32 e.samples_per_chunk
            (bytes_of be32 e.sample_desc_id ++ (rest)) (pos + 4) h1,
        fetch-bytes_of {E = Trace Message} be32 e.sample_desc_id (rest) (pos + 4 + 4) h2,
      )
      (ap (λ (p : ℕ). ok (e, record { rest = rest; pos = p })) (omega arith))

pub sample_to_chunk_put :
    (e : SampleToChunkEntry) → Writes (put_sample_to_chunk_entry e) (sample_to_chunk_bytes e)
unfolding put_sample_to_chunk_entry
sample_to_chunk_put e =
    then-Writes (write-Writes be32 e.first_chunk)
      (then-Writes (write-Writes be32 e.samples_per_chunk) (write-Writes be32 e.sample_desc_id))

abbrev pub sample_to_chunk_laws : EntryLaws sample_to_chunk_format
sample_to_chunk_laws = record {
  bytes_of_entry = sample_to_chunk_bytes;
  EntryFits =
      λ e. (e.first_chunk < 2 ^ 32) × (e.samples_per_chunk < 2 ^ 32) × (e.sample_desc_id < 2 ^ 32);
  length_is = λ e. refl;
  put_Writes = sample_to_chunk_put;
  taken = sample_to_chunk_taken;
}

abbrev pub composition_offset_bytes : CompositionOffsetEntry → List ℕ
composition_offset_bytes e = bytes_of be32 e.count ++ (bytes_of be32 e.offset)

pub composition_offset_taken :
    (e : CompositionOffsetEntry) (rest : List ℕ) (pos : ℕ)
    → (e.count < 2 ^ 32) × (e.offset < 2 ^ 32)
    → get_composition_offset_entry (record { rest = composition_offset_bytes e ++ rest; pos = pos })
      ≡ ok (e, record { rest = rest; pos = pos + 8 })
unfolding get_composition_offset_entry
composition_offset_taken e rest pos (h0, h1) =
    rw
      (
        fetch-bytes_of {E = Trace Message} be32 e.count (bytes_of be32 e.offset ++ (rest)) (pos) h0,
        fetch-bytes_of {E = Trace Message} be32 e.offset (rest) (pos + 4) h1,
      )
      (ap (λ (p : ℕ). ok (e, record { rest = rest; pos = p })) (omega arith))

pub composition_offset_put :
    (e : CompositionOffsetEntry)
    → Writes (put_composition_offset_entry e) (composition_offset_bytes e)
unfolding put_composition_offset_entry
composition_offset_put e = then-Writes (write-Writes be32 e.count) (write-Writes be32 e.offset)

abbrev pub composition_offset_laws : EntryLaws composition_offset_format
composition_offset_laws = record {
  bytes_of_entry = composition_offset_bytes;
  EntryFits = λ e. (e.count < 2 ^ 32) × (e.offset < 2 ^ 32);
  length_is = λ e. refl;
  put_Writes = composition_offset_put;
  taken = composition_offset_taken;
}
