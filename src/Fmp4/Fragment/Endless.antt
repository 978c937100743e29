-- ===== src/Fmp4/Fragment/Endless.antt =====
-- A child of length 0 in the box of a track.
use mse.Common.{
  ℕ, zero, suc, ◌+◌, ◌^◌, ◌<◌, ◌≡◌, ◌≢◌, refl, sym, ap, ◌∙◌, arith, true, false, List, [], ◌∷◌,
  ◌++◌, none,
}
use mse.Common.{◌==◌, ltb, length, drop, drop-append_length}
use mse.Common.Outcome.{ok}
use mse.Pio.Layout.{be32}
use mse.Pio.Cursor.{bytes_of}
use mse.Pio.Fetch.{Cursor, Trace, need-ok, fetch-bytes_of}
use mse.Fmp4.Box.{Message, in_tag_size, set_pos}
use mse.Fmp4.Fragment.Track.{
  TrackFrag, tag_tfhd, tag_tfdt, tag_trun, track_frag_switch, track_frag_round, track_frag_loop,
  track_frag_unmarshal,
}

abbrev pub IsUnknown : ℕ → Type 0
IsUnknown tag = (tag ≢ tag_tfhd) × (tag ≢ tag_tfdt) × (tag ≢ tag_trun)

module _ (tag : ℕ) (rest : List ℕ) (fits : tag < 2 ^ 32) (unknown : IsUnknown tag) where
  abbrev at_child : ℕ → Cursor
  at_child pos = record { rest = bytes_of be32 0 ++ (bytes_of be32 tag ++ rest); pos = pos }

  abbrev kept : TrackFrag → ℕ → TrackFrag
  kept a pos = record a {
    unknowns =
        a.unknowns
        ++ record { tag = tag; bytes = []; pos = record { offset = pos; size = 0 } } ∷ [];
  }

  switch-eq :
      (a : TrackFrag) (pos : ℕ)
      → track_frag_switch a tag (record { rest = []; pos = pos })
        ≡ ok (kept a pos, record { rest = []; pos = pos })
  unfolding track_frag_switch
  switch-eq a pos =
      let t0 : (tag == tag_tfhd) ≡ false = ground (arith, unknown.0) in
      let t1 : (tag == tag_tfdt) ≡ false = ground (arith, unknown.1) in
      let t2 : (tag == tag_trun) ≡ false = ground (arith, unknown.2) in rw (t0, t1, t2) refl

  round-eq :
      (a : TrackFrag) (pos : ℕ) → track_frag_round a (at_child pos) ≡ ok (kept a pos, at_child pos)
  unfolding track_frag_round
  round-eq a pos =
      rw
        (
          fetch-bytes_of {E = Trace Message} be32 tag rest (pos + 4) fits,
          fetch-bytes_of {E = Trace Message} be32 0 (bytes_of be32 tag ++ rest) pos (omega arith),
          need-ok 0 in_tag_size (at_child pos) (omega arith),
          switch-eq a pos,
        )
        (ap (λ (p : ℕ). ok (kept a pos, at_child p)) (omega arith))

  loop-eq :
      0 < length rest
      → (fuel : ℕ) (a : TrackFrag) (pos : ℕ) → track_frag_loop fuel a (at_child pos) ≡ none
  unfolding track_frag_loop
  loop-eq more zero a pos = refl
  loop-eq more (suc fuel) a pos =
      let test : ltb 8 (length (bytes_of be32 0 ++ (bytes_of be32 tag ++ rest))) ≡ true =
        ground (arith, more) in
      rw (test, round-eq a pos) (loop-eq more fuel (kept a pos) pos)

-- A box of a track whose first child has a tag that the parser does not know, announces the length
-- 0, and is followed by any byte: `Unmarshal` has not ended after any number of rounds.
pub track_frag_unmarshal_endless :
    (tag : ℕ) (front rest : List ℕ) (offset fuel : ℕ)
    → length front ≡ 8
    → tag < 2 ^ 32
    → IsUnknown tag
    → 0 < length rest
    → track_frag_unmarshal fuel
        (record { rest = front ++ (bytes_of be32 0 ++ (bytes_of be32 tag ++ rest)); pos = offset })
      ≡ none
unfolding track_frag_unmarshal
track_frag_unmarshal_endless tag front rest offset fuel eight fits unknown more =
    let behind : List ℕ = bytes_of be32 0 ++ (bytes_of be32 tag ++ rest) in
    let cut : drop 8 (front ++ behind) ≡ behind =
      ap (λ (n : ℕ). drop n (front ++ behind)) (sym eight) ∙ drop-append_length front behind in
    rw cut (
      loop-eq tag rest fits unknown more fuel
        (record {
          header = none;
          decode_time = none;
          run = none;
          unknowns = [];
          pos = set_pos (record { rest = front ++ behind; pos = offset });
        })
        (offset + 8))
