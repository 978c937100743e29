-- ===== src/Pubsub/Tests.antt =====
-- Runs of av/pubsub/queue.go, and its theorems at a concrete queue.
use mse.Common.{ℕ, ◌≡◌, ◌<◌, ◌≤◌, ◌⊎◌, refl, [], ◌∷◌, ◌++◌, some, true, false, arith, get_or, drop}
use mse.Av.{Packet, zero_packet}
use mse.Pktque.Buf.{Buf}
use mse.Pktque.Buf.Refine.{IsValid, contents, byte_count}
use mse.Pubsub.{Queue, write_packet, is_gop_start}
use mse.Pubsub.Cursor.{QueueCursor, packet, wait, read_packet, start_pos, delayed_gop_count, oldest}
use mse.Pubsub.Trim.{IsSound, trim, gop_starts}
use mse.Pubsub.Write.{write_packet-trim, write_packet-IsKept, IsKept}
use mse.Pubsub.Read.{read_packet_at, read_packet_behind, drain, drain-contents}
use mse.Pubsub.DelayedGop.{just_before, delayed_gop_count_stops}

abbrev key : ℕ → Packet
key t = record zero_packet { time = t; is_key_frame = true }

abbrev other : ℕ → Packet
other t = record zero_packet { time = t; idx = 1 }

-- Three packets from position 3 on; the group of pictures starts with the first.
abbrev ring : Buf
ring = record {
  head = 3;
  tail = 6;
  pkts = other 20 ∷ other 30 ∷ zero_packet ∷ key 10 ∷ [];
  size = 0;
  count = 3;
}

abbrev playing : Queue
playing = record {
  buf = ring;
  curgopcount = 1;
  maxgopcount = 2;
  streams = some (466668 ∷ []);
  videoidx = 0;
  closed = false;
}

ring-IsValid : IsValid ring
unfolding byte_count
ring-IsValid = record {
  exponent = 2;
  slots = refl;
  small = omega arith;
  head_word = omega arith;
  count_in = omega arith;
  tail_at = refl;
  size_is = refl;
}

playing-IsSound : IsSound playing
unfolding gop_starts
playing-IsSound = record {
  valid = ring-IsValid;
  roomy = omega arith;
  limit = omega arith;
  counted = refl;
}

abbrev at : ℕ → QueueCursor
at pos = record { pos = pos; gotpos = true; init = oldest }

write_packet-trim_example :
    (q' : Queue) × (write_packet playing (key 40) ≡ some q')
    × (contents q'.buf ≡ trim 0 2 (contents ring ++ key 40 ∷ []))
    × IsSound q'
    × (q'.maxgopcount ≡ 2)
    × (q'.videoidx ≡ 0)
write_packet-trim_example = write_packet-trim playing playing-IsSound (key 40) (omega arith)

trimmed : trim 0 2 (contents ring ++ key 40 ∷ []) ≡ other 20 ∷ other 30 ∷ key 40 ∷ []
unfolding trim
trimmed = refl

write_packet-IsKept_example :
    (q' : Queue) × (write_packet playing (key 40) ≡ some q')
    × IsKept 0 2 (contents ring ++ key 40 ∷ []) (contents q'.buf)
write_packet-IsKept_example = write_packet-IsKept playing playing-IsSound (key 40) (omega arith)

read_packet_at_example : read_packet playing (at 4) ≡ some (packet (other 20) (at 5))
read_packet_at_example = read_packet_at playing ring-IsValid (at 4) 1 refl refl (omega arith)

read_packet_behind_example : read_packet playing (at 1) ≡ some (packet (key 10) (at 4))
read_packet_behind_example = read_packet_behind playing ring-IsValid (at 1) refl refl (omega arith)

drain-contents_example : drain 3 playing (at 4) ≡ some (other 20 ∷ other 30 ∷ [], wait (at 6))
drain-contents_example = drain-contents playing ring-IsValid 2 1 (at 4) refl refl refl

delayed_gop_count_stops_example :
    (k : ℕ) × (start_pos (delayed_gop_count 1) ring 0 ≡ some (just_before ring k))
    × (((k ≡ 0) × (gop_starts 0 (contents ring) ≤ 1))
        ⊎ ((k < 3)
            × (is_gop_start 0 (get_or (contents ring) k zero_packet) ≡ true)
            × (gop_starts 0 (drop k (contents ring)) ≡ 1)))
delayed_gop_count_stops_example =
    delayed_gop_count_stops playing ring-IsValid 1 (omega arith) (omega arith) (λ e. omega arith)
