-- ===== src/Fmp4/Tests.antt =====
-- Runs of format/fmp4/fmp4io, and its theorems at concrete values.
use mse.Common.{
  ℕ, ◌+◌, ◌≡◌, refl, arith, List, [], ◌∷◌, ◌++◌, some, none, inr, length, take, true, false,
}
use mse.Common.Outcome.{ok}
use mse.Pio.Over.{zeros}
use mse.Pio.Cursor.{bytes_of}
use mse.Pio.Layout.{be32}
use mse.Fmp4.Fragment.Run.{track_frag_run_len, run_entry_len}
use mse.Fmp4.Box.{write_box}
use mse.Fmp4.Fragment.{track_frag_header_len}
use mse.Fmp4.Fragment.Track.{
  TrackFrag, tag_traf, len_child, len_unknowns, track_frag_len, track_frag_marshal,
  track_frag_unmarshal,
}
use mse.Fmp4.Fragment.TrackBytes.{TrackFits, track_read}
use mse.Fmp4.Fragment.TrackRoundTrip.{track_frag_unmarshal-track_frag_marshal}
use mse.Fmp4.Fragment.Endless.{track_frag_unmarshal_endless}
use mse.Fmp4.Fragment.RoundTrip.{
  Leaf, trun, LeafFits, leaf_len, leaf_marshal, IsReadFrom, leaf_marshal-IsReadFrom,
}
use mse.Fmp4.Index.{SegmentIndex, segment_index_len, segment_index_marshal, segment_index_unmarshal}
use mse.Fmp4.Index.Bytes.{IndexFits}
use mse.Fmp4.Index.RoundTrip.{index_read, segment_index_unmarshal-segment_index_marshal}
use mse.Fmp4.Tables.Atoms.{stts, atom_len, atom_marshal, atom_tag, unmarshal_atom}
use mse.Fmp4.Tables.Atoms.{Atom, time_to_sample_len}
use mse.Fmp4.Tables.{len_table}
use mse.Fmp4.Tables.RoundTrip.{AtomFits, placed, unmarshal_atom-atom_marshal}

-- 30 samples of 1001 units, one of 500.
abbrev durations : Atom
durations = stts (record {
  version = 0;
  flags = 0;
  entries = record { count = 30; duration = 1001 } ∷ record { count = 1; duration = 500 } ∷ [];
  pos = record { offset = 40; size = 32 };
})

durations-AtomFits : AtomFits durations
durations-AtomFits = (
  omega arith,
  omega arith,
  omega arith,
  ((omega arith, omega arith), ((omega arith, omega arith), tt)),
)

abbrev thirty_two : List ℕ
thirty_two =
    1 ∷ 1 ∷ 1 ∷ 1 ∷ 1 ∷ 1 ∷ 1 ∷ 1 ∷ 1 ∷ 1 ∷ 1 ∷ 1 ∷ 1 ∷ 1 ∷ 1 ∷ 1 ∷ 1 ∷ 1 ∷ 1 ∷ 1 ∷ 1 ∷ 1 ∷ 1 ∷ 1
    ∷ 1 ∷ 1 ∷ 1 ∷ 1 ∷ 1 ∷ 1 ∷ 1 ∷ 1 ∷ []

unmarshal_atom-atom_marshal_example :
    (box : List ℕ) × (atom_marshal durations (9 ∷ (thirty_two ++ 8 ∷ [])) 1
      ≡ some (9 ∷ (box ++ 8 ∷ []), 1 + atom_len durations))
    × (length box ≡ atom_len durations)
    × (take 8 box ≡ 0 ∷ 0 ∷ 0 ∷ 32 ∷ 115 ∷ 116 ∷ 116 ∷ 115 ∷ [])
    × (unmarshal_atom (atom_tag durations) (record { rest = box; pos = 200 })
        ≡ ok (
          some (placed (record { offset = 200; size = atom_len durations }) durations),
          record { rest = []; pos = 200 + atom_len durations },
        ))
unfolding atom_len atom_tag time_to_sample_len len_table
unmarshal_atom-atom_marshal_example =
    unmarshal_atom-atom_marshal durations (9 ∷ []) thirty_two (8 ∷ []) 200 durations-AtomFits
      (omega arith) refl

-- One reference of 5,000 bytes that starts with an access point.
abbrev one_segment : SegmentIndex
one_segment = record {
  full_atom = record { version = 0; flags = 0; pos = record { offset = 0; size = 0 } };
  reference_id = 1;
  time_scale = 90_000;
  earliest_pts = 180_000;
  first_offset = 0;
  references =
      record {
        references_box = false;
        referenced_size = 5_000;
        subsegment_duration = 90_000;
        starts_with_sap = true;
        sap_type = 1;
        sap_delta_time = 0;
      }
      ∷ [];
}

one_segment-IndexFits : IndexFits one_segment
one_segment-IndexFits = (
  omega arith,
  omega arith,
  omega arith,
  omega arith,
  omega arith,
  omega arith,
  omega arith,
  (omega arith, omega arith, tt),
)

segment_index_unmarshal-segment_index_marshal_example :
    (box : List ℕ) × (segment_index_marshal one_segment (zeros (segment_index_len one_segment)) 0
      ≡ some (box, segment_index_len one_segment))
    × (segment_index_unmarshal (record { rest = box; pos = 100 })
        ≡ ok (
          index_read one_segment 100,
          record { rest = []; pos = 100 + segment_index_len one_segment },
        ))
segment_index_unmarshal-segment_index_marshal_example =
    segment_index_unmarshal-segment_index_marshal one_segment 100 one_segment-IndexFits

-- A run with an offset and one sample of 90 units and 5 bytes.
abbrev one_sample : Leaf
one_sample = trun (record {
  version = 1;
  flags = 0x301;
  data_offset = 100;
  first_sample_flags = 0;
  entries = record { duration = 90; size = 5; flags = 0; cts = 0 } ∷ [];
  pos = record { offset = 0; size = 0 };
})

one_sample-LeafFits : LeafFits one_sample
one_sample-LeafFits = (
  omega arith,
  omega arith,
  omega arith,
  omega arith,
  refl,
  (omega arith, omega arith, refl, refl, tt),
  inr refl,
)

leaf_marshal-IsReadFrom_example :
    (box : List ℕ) × (leaf_marshal one_sample (9 ∷ (take 28 thirty_two ++ 8 ∷ [])) 1
      ≡ some (9 ∷ (box ++ 8 ∷ []), 1 + length box))
    × (length box ≡ leaf_len one_sample)
    × IsReadFrom one_sample box 70
unfolding leaf_len track_frag_run_len run_entry_len
leaf_marshal-IsReadFrom_example =
    leaf_marshal-IsReadFrom one_sample (9 ∷ []) (take 28 thirty_two) (8 ∷ []) 70 one_sample-LeafFits
      (omega arith) refl

track_frag_unmarshal_endless_example :
    track_frag_unmarshal 1_000_000 (record {
      rest = take 8 thirty_two ++ (bytes_of be32 0 ++ (bytes_of be32 7 ++ 1 ∷ []));
      pos = 0;
    })
    ≡ none
track_frag_unmarshal_endless_example =
    track_frag_unmarshal_endless 7 (take 8 thirty_two) (1 ∷ []) 0 1_000_000 refl (omega arith)
      (omega arith, omega arith, omega arith) (omega arith)

-- A track with a header that has only the track's number.
abbrev one_track : TrackFrag
one_track = record {
  header = some (record {
    version = 0;
    flags = 0;
    track_id = 1;
    base_data_offset = 0;
    stsd_id = 0;
    default_duration = 0;
    default_size = 0;
    default_flags = 0;
    pos = record { offset = 0; size = 0 };
  });
  decode_time = none;
  run = none;
  unknowns = [];
  pos = record { offset = 0; size = 0 };
}

one_track-TrackFits : TrackFits one_track
unfolding track_frag_header_len
one_track-TrackFits = (
  ((omega arith, omega arith, omega arith, refl, refl, refl, refl, refl), omega arith),
  tt,
  tt,
  refl,
)

track_frag_unmarshal-track_frag_marshal_example :
    (box : List ℕ) × (write_box tag_traf
        (track_frag_marshal one_track)
        (9 ∷ (take 24 thirty_two ++ 8 ∷ []))
        1
      ≡ some (9 ∷ (box ++ 8 ∷ []), 1 + length box))
    × (length box ≡ track_frag_len one_track)
    × (track_frag_unmarshal 4 (record { rest = box; pos = 50 })
        ≡ some (
            ok
              (track_read one_track 50, record { rest = []; pos = 50 + track_frag_len one_track })))
unfolding track_frag_len len_child len_unknowns track_frag_header_len
track_frag_unmarshal-track_frag_marshal_example =
    track_frag_unmarshal-track_frag_marshal one_track (9 ∷ []) (take 24 thirty_two) (8 ∷ []) 50 4
      one_track-TrackFits (omega arith) refl (omega arith)
