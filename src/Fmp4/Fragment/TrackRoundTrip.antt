-- ===== src/Fmp4/Fragment/TrackRoundTrip.antt =====
-- The box of a track in a fragment, written and read.
use mathlib.Core.List.{append-nil}
use mse.Common.{
  ℕ, suc, ◌+◌, ◌-◌, ◌^◌, ◌≤◌, ◌<◌, ◌≡◌, refl, sym, ap, ap₂, ◌∙◌, arith, List, [], ◌++◌, Option,
  none, some,
}
use mse.Common.{length, length-append}
use mse.Common.Outcome.{ok}
use mse.Pio.Cursor.{Writes-room}
use mse.Fmp4.Box.{AtomPos, write_box, box_bytes, box-Writes}
use mse.Fmp4.Fragment.Run.{track_frag_run_len}
use mse.Fmp4.Fragment.Track.{
  TrackFrag, tag_traf, track_frag_marshal, len_child, track_frag_len, track_frag_loop,
  track_frag_unmarshal,
}
use mse.Fmp4.Fragment.Children.{
  rounds, header_at, HeaderFits, header_step, decode_time_at, DecodeTimeFits, decode_time_step,
  run_at, RunChildFits, run_step,
}
use mse.Fmp4.Fragment.TrackBytes.{
  header_part, time_part, run_part, children_bytes, time_pos, run_pos, track_read, TrackFits,
  header_length, time_length, run_length, length-children_bytes, children-Writes,
}

rounds_le : {A : Type 0} (o : Option A) → rounds o ≤ 1
rounds_le none = omega arith
rounds_le (some x) = omega arith

few_rounds :
    (a : TrackFrag) (fuel : ℕ)
    → 3 < fuel
    → fuel
      ≡ rounds a.header
        + (rounds a.decode_time
            + (rounds a.run
                + suc (fuel - rounds a.header - rounds a.decode_time - rounds a.run - 1)))
few_rounds a fuel h = omega (arith, rounds_le a.header, rounds_le a.decode_time, rounds_le a.run)

loop_end :
    (a : TrackFrag) (pos extra : ℕ)
    → track_frag_loop (suc extra) a (record { rest = []; pos = pos })
      ≡ some (ok (a, record { rest = []; pos = pos }))
unfolding track_frag_loop
loop_end a pos extra = refl

loop_lem :
    (a : TrackFrag) (at : AtomPos) (offset extra : ℕ)
    → HeaderFits a.header
    → DecodeTimeFits a.decode_time
    → RunChildFits a.run
    → track_frag_loop
        (rounds a.header + (rounds a.decode_time + (rounds a.run + suc extra)))
        (record { header = none; decode_time = none; run = none; unknowns = []; pos = at })
        (record { rest = children_bytes a; pos = offset + 8 })
      ≡ some (
          ok (
            record (track_read a offset) { pos = at },
            record { rest = []; pos = run_pos a offset + len_child track_frag_run_len a.run },
          ))
loop_lem a at offset extra hh ht hr =
    let start : TrackFrag = record {
      header = none;
      decode_time = none;
      run = none;
      unknowns = [];
      pos = at;
    } in
    let with_header : TrackFrag = record start { header = header_at (offset + 8) a.header } in
    let with_time : TrackFrag = record with_header {
      decode_time = decode_time_at (time_pos a offset) a.decode_time;
    } in
    ap
      (λ (b : List ℕ).
        track_frag_loop (rounds a.header + (rounds a.decode_time + (rounds a.run + suc extra)))
          start (record { rest = header_part a ++ (time_part a ++ b); pos = offset + 8 }))
      (sym (append-nil (run_part a)))
    ∙ header_step start a.header (time_part a ++ (run_part a ++ [])) (offset + 8)
        (rounds a.decode_time + (rounds a.run + suc extra)) refl hh
    ∙ decode_time_step with_header a.decode_time (run_part a ++ []) (time_pos a offset)
        (rounds a.run + suc extra) refl ht
    ∙ run_step with_time a.run [] (run_pos a offset) (suc extra) refl hr
    ∙ loop_end (record with_time { run = run_at (run_pos a offset) a.run })
        (run_pos a offset + len_child track_frag_run_len a.run) extra

unmarshal-children_bytes :
    (a : TrackFrag) (offset fuel : ℕ)
    → TrackFits a
    → 3 < fuel
    → track_frag_unmarshal fuel
        (record { rest = box_bytes tag_traf (children_bytes a); pos = offset })
      ≡ some (ok (track_read a offset, record { rest = []; pos = offset + track_frag_len a }))
unfolding track_frag_unmarshal
unmarshal-children_bytes a offset fuel (hh, ht, hr, only) enough =
    let box : List ℕ = box_bytes tag_traf (children_bytes a) in
    let extra : ℕ = fuel - rounds a.header - rounds a.decode_time - rounds a.run - 1 in
    let at : AtomPos = record { offset = offset; size = length box } in
    let long : length box ≡ track_frag_len a = omega (arith, length-children_bytes a only) in
    let last : run_pos a offset + len_child track_frag_run_len a.run ≡ offset + track_frag_len a =
      omega (
        arith,
        length-children_bytes a only,
        length-append (header_part a) (time_part a ++ run_part a),
        length-append (time_part a) (run_part a),
        header_length a.header,
        time_length a.decode_time,
        run_length a.run,
      ) in
    ap
      (λ (n : ℕ).
        track_frag_loop n
          (record { header = none; decode_time = none; run = none; unknowns = []; pos = at })
          (record { rest = children_bytes a; pos = offset + 8 }))
      (few_rounds a fuel enough)
    ∙ loop_lem a at offset extra hh ht hr
    ∙ ap₂
        (λ (n k : ℕ). some (
          ok (
            record (track_read a offset) { pos = record { offset = offset; size = n } },
            record { rest = []; pos = k },
          )))
        long last

-- The box of a track's fragment whose children fit, with none of an unknown tag, and with a run that
-- has no composition times or is of version 0, in a buffer with room for `Len` bytes, is marshalled
-- into these and no other, and `Unmarshal` ends within four rounds and reads the same children, with
-- their places and that of the box.
pub track_frag_unmarshal-track_frag_marshal :
    (a : TrackFrag) (pre room rest : List ℕ) (offset fuel : ℕ)
    → TrackFits a
    → track_frag_len a < 2 ^ 32
    → length room ≡ track_frag_len a
    → 3 < fuel
    → (box : List ℕ) × (write_box tag_traf
          (track_frag_marshal a)
          (pre ++ (room ++ rest))
          (length pre)
        ≡ some (pre ++ (box ++ rest), length pre + length box))
      × (length box ≡ track_frag_len a)
      × (track_frag_unmarshal fuel (record { rest = box; pos = offset })
          ≡ some (ok (track_read a offset, record { rest = []; pos = offset + track_frag_len a })))
track_frag_unmarshal-track_frag_marshal a pre room rest offset fuel fits small size enough =
    let long : length (box_bytes tag_traf (children_bytes a)) ≡ track_frag_len a =
      omega (arith, length-children_bytes a fits.3) in
    (
      box_bytes tag_traf (children_bytes a),
      Writes-room
          (box-Writes tag_traf _ _ (omega (arith, length-children_bytes a fits.3, small))
            (children-Writes a fits))
          pre room rest (size ∙ sym long),
      long,
      unmarshal-children_bytes a offset fuel fits enough,
    )
