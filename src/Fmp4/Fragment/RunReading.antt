-- ===== src/Fmp4/Fragment/RunReading.antt =====
-- Reading a run of samples back from its bytes.
use mathlib.Core.List.{append_assoc, append-nil}
use mse.Common.{
  ℕ, ◌+◌, ◌*◌, ◌≡◌, inl, inr, sym, ap, ◌∙◌, arith, Bool, true, false, List, [], ◌∷◌, ◌++◌,
}
use mse.Common.{if◌then◌else◌, ltb, length, Bool-cases}
use mse.Common.Outcome.{ok}
use mse.Pio.Layout.{be32, be32_signed}
use mse.Pio.Cursor.{bytes_of}
use mse.Pio.Fetch.{Cursor, Trace, advance, fetch-bytes_of}
use mse.Fmp4.Box.{Message, in_data_offset, in_first_sample_flags, set_pos}
use mse.Fmp4.Optional.{
  take_optional, optional_bytes, OptionalFits, take-optional_bytes, need-optional_bytes,
}
use mse.Fmp4.Fragment.{has}
use mse.Fmp4.Fragment.Run.{
  TrackFragRunEntry, TrackFragRun, run_entry_len, track_frag_run_len, take_run_entry,
  take_run_entries, track_frag_run_unmarshal,
}
use mse.Fmp4.Fragment.RunBytes.{
  version_flags_bytes, entry_bytes, entries_bytes, EntriesFit, run_bytes, RunFits,
}

cts_taken :
    (version : ℕ) (on : Bool) (v : ℕ) (rest : List ℕ) (pos : ℕ)
    → OptionalFits on be32 v
    → take_optional on
        (if ltb 0 version then be32_signed else be32)
        (record { rest = optional_bytes on be32 v ++ rest; pos = pos })
      ≡ ok (v, record { rest = rest; pos = pos + (if on then 4 else 0) })
cts_taken version true v rest pos h = elim (Bool-cases (ltb 0 version)) [
  | inl e ↦ rw e (take-optional_bytes true be32_signed v rest pos h)
  | inr e ↦ rw e (take-optional_bytes true be32 v rest pos h)
]
cts_taken version false v rest pos h =
    take-optional_bytes false (if ltb 0 version then be32_signed else be32) v rest pos h

entry_taken :
    (version flags : ℕ) (e : TrackFragRunEntry) (rest : List ℕ) (pos : ℕ)
    → OptionalFits (has flags 0x100) be32 e.duration
    → OptionalFits (has flags 0x200) be32 e.size
    → OptionalFits (has flags 0x400) be32 e.flags
    → OptionalFits (has flags 0x800) be32 e.cts
    → take_run_entry version flags (record { rest = entry_bytes flags e ++ rest; pos = pos })
      ≡ ok (e, record { rest = rest; pos = pos + run_entry_len flags })
unfolding take_run_entry run_entry_len
entry_taken version flags e rest pos h0 h1 h2 h3 =
    let size : List ℕ = optional_bytes (has flags 0x200) be32 e.size in
    let own_flags : List ℕ = optional_bytes (has flags 0x400) be32 e.flags in
    let cts : List ℕ = optional_bytes (has flags 0x800) be32 e.cts in
    let whole : entry_bytes flags e ++ rest
        ≡ optional_bytes (has flags 0x100) be32 e.duration
          ++ (size ++ (own_flags ++ (cts ++ rest))) =
      simp append_assoc in
    rw
      (
        whole,
        take-optional_bytes (has flags 0x100) be32 e.duration (size ++ (own_flags ++ (cts ++ rest)))
            pos h0,
        take-optional_bytes (has flags 0x200) be32 e.size (own_flags ++ (cts ++ rest))
            (pos + (if has flags 0x100 then 4 else 0)) h1,
        take-optional_bytes (has flags 0x400) be32 e.flags (cts ++ rest)
            (pos + (if has flags 0x100 then 4 else 0) + (if has flags 0x200 then 4 else 0)) h2,
        cts_taken version (has flags 0x800) e.cts rest
            (pos
              + (if has flags 0x100 then 4 else 0)
              + (if has flags 0x200 then 4 else 0)
              + (if has flags 0x400 then 4 else 0))
            h3,
      )
      (ap (λ (p : ℕ). ok (e, record { rest = rest; pos = p })) (omega arith))

entries_taken :
    (version flags : ℕ) (es : List TrackFragRunEntry) (rest : List ℕ) (pos : ℕ)
    → EntriesFit flags es
    → take_run_entries version flags
        (length es)
        (record { rest = entries_bytes flags es ++ rest; pos = pos })
      ≡ ok (es, record { rest = rest; pos = pos + run_entry_len flags * length es })
unfolding take_run_entries
entries_taken version flags [] rest pos h =
    ap (λ (p : ℕ). ok ([], record { rest = rest; pos = p })) (omega arith)
entries_taken version flags (e ∷ es) rest pos (h0, h1, h2, h3, h) =
    rw
      (
        append_assoc (entry_bytes flags e) (entries_bytes flags es) rest,
        entry_taken version flags e (entries_bytes flags es ++ rest) pos h0 h1 h2 h3,
        entries_taken version flags es rest (pos + run_entry_len flags) h,
      )
      (ap (λ (p : ℕ). ok (e ∷ es, record { rest = rest; pos = p })) (grind arith))

pub unmarshal-run_bytes :
    (a : TrackFragRun) (c : Cursor)
    → RunFits a
    → (advance 8 c).rest ≡ run_bytes a
    → track_frag_run_unmarshal c
      ≡ ok (record a { pos = set_pos c }, record { rest = []; pos = c.pos + track_frag_run_len a })
unfolding track_frag_run_unmarshal track_frag_run_len
unmarshal-run_bytes a c (hv, hf, hn, ho, hs, h, place) behind =
    let entries : List ℕ = entries_bytes a.flags a.entries in
    let first : List ℕ = optional_bytes (has a.flags 0x04) be32 a.first_sample_flags ++ entries in
    let offset : List ℕ = optional_bytes (has a.flags 0x01) be32 a.data_offset ++ first in
    let p : ℕ = c.pos + 8 + 1 + 3 in
    let q : ℕ = p + 4 + (if has a.flags 0x01 then 4 else 0) in
    let r : ℕ = q + (if has a.flags 0x04 then 4 else 0) in
    let read : take_run_entries a.version a.flags (length a.entries)
          (record { rest = entries; pos = r })
        ≡ ok (a.entries, record { rest = []; pos = r + run_entry_len a.flags * length a.entries }) =
      ap
        (λ (b : List ℕ).
          take_run_entries a.version a.flags (length a.entries) (record { rest = b; pos = r }))
        (sym (append-nil entries))
      ∙ entries_taken a.version a.flags a.entries [] r h in
    rw
      (
        version_flags_bytes a.version a.flags c (bytes_of be32 (length a.entries) ++ offset) hv hf
            behind,
        fetch-bytes_of {E = Trace Message} be32 (length a.entries) offset p hn,
        need-optional_bytes (has a.flags 0x01) be32 in_data_offset a.data_offset first (p + 4) ho,
        need-optional_bytes (has a.flags 0x04) be32 in_first_sample_flags a.first_sample_flags
            entries q hs,
        read,
      )
      (ap (λ (k : ℕ). ok (record a { pos = set_pos c }, record { rest = []; pos = k }))
        (omega arith))
