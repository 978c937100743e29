-- ===== src/Fmp4/Tables/Sizes.antt =====
-- The table of the sample sizes.
use mse.Common.{
  ℕ, ◌+◌, ◌*◌, ◌%◌, ◌^◌, ◌<◌, ◌≡◌, ◌≢◌, ◌⊎◌, inl, inr, refl, ap, ◌∙◌, arith, true, false, List, [],
  ◌++◌,
}
use mse.Common.{◌==◌, if◌then◌else◌, length, length-append}
use mse.Common.Outcome.{ok, ◌>>=◌, ◌>>◌}
use mse.Pio.Layout.{byte, be24, be32}
use mse.Pio.Cursor.{bytes_of, Writes, write-Writes, nothing-Writes, then-Writes, if-Writes}
use mse.Pio.Fetch.{Cursor, advance, Trace, need, need-ok, fetch, fetch-bytes_of}
use mse.Fmp4.Box.{
  Message, in_version, in_flags, in_sample_size, in_uint32, Result, AtomPos, set_pos,
}
use mse.Fmp4.Tables.{
  uint32_format, take_entries, SampleSize, sample_size_marshal, sample_size_len,
  sample_size_unmarshal,
}
use mse.Fmp4.Tables.Bytes.{
  entries_bytes, EntriesFit, put_entries-Writes, length-entries_bytes, take-entries_bytes,
}
use mse.Fmp4.Tables.Formats.{uint32_laws}

-- a table of sizes, which has entries only if the size is 0
abbrev pub sample_size_bytes : SampleSize → List ℕ
sample_size_bytes t =
    bytes_of byte t.version
    ++ (bytes_of be24 t.flags
        ++ (bytes_of be32 t.sample_size
            ++ (if t.sample_size == 0
                then bytes_of be32 (length t.entries)
                  ++ entries_bytes uint32_format uint32_laws t.entries
                else [])))

abbrev pub SampleSizeFits : SampleSize → Type 0
SampleSizeFits t =
    (t.version < 256)
    × (t.flags < 2 ^ 24)
    × (t.sample_size < 2 ^ 32)
    × (((t.sample_size ≡ 0)
          × (length t.entries < 2 ^ 32)
          × EntriesFit uint32_format uint32_laws t.entries)
        ⊎ ((t.sample_size ≢ 0) × (t.entries ≡ [])))

sizes_Writes :
    (t : SampleSize)
    → length t.entries % 2 ^ 32 ≡ length t.entries
    → Writes (sample_size_marshal t) (sample_size_bytes t)
unfolding sample_size_marshal
sizes_Writes t cut = rw cut (
    then-Writes (write-Writes byte t.version) (
      then-Writes (write-Writes be24 t.flags) (
        then-Writes (write-Writes be32 t.sample_size) (
          if-Writes (t.sample_size == 0)
            (then-Writes (write-Writes be32 (length t.entries))
              (put_entries-Writes uint32_format uint32_laws t.entries))
            nothing-Writes))))

pub sample_size-Writes :
    (t : SampleSize) → SampleSizeFits t → Writes (sample_size_marshal t) (sample_size_bytes t)
sample_size-Writes t (hv, hf, hs, inl (some_zero, hn, h)) = sizes_Writes t (omega (arith, hn))
sample_size-Writes t (hv, hf, hs, inr (one_size, none_there)) =
    sizes_Writes t (rw none_there (omega arith))

pub len-sample_size_bytes : (t : SampleSize) → 8 + length (sample_size_bytes t) ≡ sample_size_len t
unfolding sample_size_len
len-sample_size_bytes t = ground (arith, length-entries_bytes uint32_format uint32_laws t.entries)

-- what follows the size in the code, on the bytes behind it
unfoldable unmarshal_sizes : SampleSize → AtomPos → Cursor → Result SampleSize
unmarshal_sizes t at c = do
  (count, c4) ← fetch be32 c
  need (4 * count) in_uint32 c4
  (entries, c5) ← take_entries uint32_format count c4
  ok (record t { entries = entries; pos = at }, c5)

sizes_head :
    (t : SampleSize) (c : Cursor) (tail : List ℕ)
    → t.version < 256
    → t.flags < 2 ^ 24
    → t.sample_size < 2 ^ 32
    → (advance 8 c).rest
      ≡ bytes_of byte t.version ++ (bytes_of be24 t.flags ++ (bytes_of be32 t.sample_size ++ tail))
    → sample_size_unmarshal c ≡ (
        if t.sample_size == 0
        then unmarshal_sizes t (set_pos c) (record { rest = tail; pos = c.pos + 16 })
        else ok
            (record t { entries = []; pos = set_pos c }, record { rest = tail; pos = c.pos + 16 }))
unfolding sample_size_unmarshal unmarshal_sizes
sizes_head t c tail hv hf hs behind =
    let here : c.pos + 16 ≡ c.pos + 8 + 1 + 3 + 4 = omega arith in
    rw
      (
        behind,
        here,
        need-ok 1 in_version
            (record {
              rest =
                  bytes_of byte t.version
                  ++ (bytes_of be24 t.flags ++ (bytes_of be32 t.sample_size ++ tail));
              pos = c.pos + 8;
            })
            (omega arith),
        fetch-bytes_of {E = Trace Message} byte t.version
            (bytes_of be24 t.flags ++ (bytes_of be32 t.sample_size ++ tail)) (c.pos + 8) hv,
        need-ok 3 in_flags
            (record {
              rest = bytes_of be24 t.flags ++ (bytes_of be32 t.sample_size ++ tail);
              pos = c.pos + 8 + 1;
            })
            (omega arith),
        fetch-bytes_of {E = Trace Message} be24 t.flags (bytes_of be32 t.sample_size ++ tail)
            (c.pos + 8 + 1) hf,
        need-ok 4 in_sample_size
            (record { rest = bytes_of be32 t.sample_size ++ tail; pos = c.pos + 8 + 1 + 3 })
            (omega arith),
        fetch-bytes_of {E = Trace Message} be32 t.sample_size tail (c.pos + 8 + 1 + 3) hs,
      )
      refl

pub unmarshal-sample_size_bytes :
    (t : SampleSize) (c : Cursor) (rest : List ℕ)
    → SampleSizeFits t
    → (advance 8 c).rest ≡ sample_size_bytes t ++ rest
    → sample_size_unmarshal c
      ≡ ok (record t { pos = set_pos c }, record { rest = rest; pos = c.pos + sample_size_len t })
unfolding sample_size_len unmarshal_sizes
unmarshal-sample_size_bytes t c rest (hv, hf, hs, inl (some_zero, hn, h)) behind =
    let test : (t.sample_size == 0) ≡ true = ground arith in
    let tail : List ℕ =
      bytes_of be32 (length t.entries)
      ++ (entries_bytes uint32_format uint32_laws t.entries ++ rest) in
    sizes_head t c tail hv hf hs (behind ∙ rw test refl)
    ∙ rw
        (
          test,
          fetch-bytes_of {E = Trace Message} be32 (length t.entries)
              (entries_bytes uint32_format uint32_laws t.entries ++ rest) (c.pos + 16) hn,
          need-ok (4 * length t.entries) in_uint32
              (record {
                rest = entries_bytes uint32_format uint32_laws t.entries ++ rest;
                pos = c.pos + 16 + 4;
              })
              (omega (
                arith,
                length-append (entries_bytes uint32_format uint32_laws t.entries) rest,
                length-entries_bytes uint32_format uint32_laws t.entries,
              )),
          take-entries_bytes uint32_format uint32_laws t.entries rest (c.pos + 16 + 4) h,
        )
        (ap (λ (p : ℕ). ok (record t { pos = set_pos c }, record { rest = rest; pos = p }))
          (omega arith))
unmarshal-sample_size_bytes t c rest (hv, hf, hs, inr (one_size, none_there)) behind =
    let test : (t.sample_size == 0) ≡ false = ground arith in
    sizes_head t c rest hv hf hs (behind ∙ rw test refl) ∙ rw (test, none_there) refl
