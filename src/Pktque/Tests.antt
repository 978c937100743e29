-- ===== src/Pktque/Tests.antt =====
-- Runs of av/pktque, and its theorems at concrete values.
use mse.Common.{ℕ, ◌≡◌, ◌↔◌, ◌<◌, refl, [], ◌∷◌, ◌++◌, some, true, false, arith}
use mse.Common.Word.{add64, sub64}
use mse.Av.{Packet, zero_packet}
use mse.Pktque.Buf.{Buf, push, pop, get, is_valid_pos}
use mse.Pktque.Buf.Refine.{IsValid, contents, byte_count, pop-contents}
use mse.Pktque.Buf.Push.{push-contents}
use mse.Pktque.Buf.Get.{is_valid_pos_iff, get-contents}
use mse.Pktque.Timeline
use mse.Pktque.Timeline.{push_time, last_seg}
use mse.Pktque.Timeline.Order.{Ordered, finish, push-Ordered}
use mse.Pktque.Timeline.Pop.{Taken, pop-Taken}
use mse.Pktque.Filters.{
  FixTime, fix_time, Window, av_sync_times, check, judge, min_max, lower, upper, window_of,
  set_time,
}
use mse.Pktque.Filters.Laws.{
  wait_run, from_key_frame, wait_run-from_key_frame, Steps, fix_time-Steps,
}
use mse.Pktque.Filters.Sync.{Opens, Verdict, av_sync_times-Verdict}

abbrev frame : ℕ → Packet
frame t = record zero_packet { time = t; bytes = 7 ∷ 7 ∷ [] }

-- A full ring of four slots whose oldest packet stands in the last one.
abbrev full_buf : Buf
full_buf = record {
  head = 3;
  tail = 7;
  pkts = frame 20 ∷ frame 30 ∷ frame 40 ∷ frame 10 ∷ [];
  size = 8;
  count = 4;
}

full_buf-IsValid : IsValid full_buf
unfolding byte_count
full_buf-IsValid = record {
  exponent = 2;
  slots = refl;
  small = omega arith;
  head_word = omega arith;
  count_in = omega arith;
  tail_at = refl;
  size_is = refl;
}

contents-full_buf : contents full_buf ≡ frame 10 ∷ frame 20 ∷ frame 30 ∷ frame 40 ∷ []
contents-full_buf = refl

push-contents_example :
    (b : Buf) × (push full_buf (frame 50) ≡ some b)
    × (contents b ≡ contents full_buf ++ frame 50 ∷ [])
    × IsValid b
push-contents_example = push-contents full_buf full_buf-IsValid (frame 50) (omega arith)

pop-contents_example :
    (b : Buf) × (pop full_buf ≡ some (frame 10, b))
    × (contents b ≡ frame 20 ∷ frame 30 ∷ frame 40 ∷ [])
    × IsValid b
pop-contents_example =
    pop-contents full_buf full_buf-IsValid (frame 10) (frame 20 ∷ frame 30 ∷ frame 40 ∷ []) refl

is_valid_pos_iff_example : (is_valid_pos full_buf 9 ≡ true) ↔ (sub64 9 3 < 4)
is_valid_pos_iff_example = is_valid_pos_iff full_buf full_buf-IsValid 9 (omega arith)

get-contents_example :
    (is_valid_pos full_buf (add64 3 2) ≡ true) × (get full_buf (add64 3 2) ≡ some (frame 30))
get-contents_example = get-contents full_buf full_buf-IsValid 2 (omega arith)

abbrev two_segs : Timeline.Timeline
two_segs = record {
  segs = record { tm = 10; dur = 5 } ∷ record { tm = 20; dur = 5 } ∷ [];
  headtm = 3;
}

push-Ordered_example :
    (Timeline.push two_segs 22 4
      ≡ record two_segs { segs = two_segs.segs ++ record { tm = 25; dur = 4 } ∷ [] })
    × Ordered 0 (Timeline.push two_segs 22 4).segs
unfolding finish
push-Ordered_example = push-Ordered two_segs 22 4 (omega arith) (omega arith) (omega arith)

pop-Taken_example : Taken two_segs 7
pop-Taken_example = pop-Taken two_segs 7 (omega arith) (omega arith) (omega arith)

abbrev key_frame : ℕ → Packet
key_frame t = record zero_packet { is_key_frame = true; time = t }

wait_run-from_key_frame_example :
    wait_run false (frame 1 ∷ key_frame 2 ∷ frame 3 ∷ []) 0
    ≡ from_key_frame (frame 1 ∷ key_frame 2 ∷ frame 3 ∷ []) 0
wait_run-from_key_frame_example = wait_run-from_key_frame (frame 1 ∷ key_frame 2 ∷ frame 3 ∷ []) 0

abbrev incremental : FixTime
incremental = record {
  zerobase = 0;
  incrbase = 0;
  lasttime = 100;
  start_from_zero = false;
  make_increment = true;
}

fix_time-Steps_example :
    let (drop, p', f') = fix_time incremental (frame 900_000_000) in
    Steps 100 p' × (f'.lasttime ≡ p'.time) × (drop ≡ false)
fix_time-Steps_example = fix_time-Steps incremental (frame 900_000_000) refl (omega arith) refl

late_frame : av_sync_times 50 (7 ∷ 9 ∷ []) (frame 30) ≡ some (false, frame 30, 30 ∷ 9 ∷ [])
unfolding av_sync_times check judge min_max lower upper window_of set_time
late_frame = refl

av_sync_times-Verdict_example :
    (w : Window) × Opens 50 (7 ∷ 9 ∷ []) 0 w
    × Verdict 50 (7 ∷ 9 ∷ []) (frame 30) w (false, frame 30, 30 ∷ 9 ∷ [])
av_sync_times-Verdict_example = av_sync_times-Verdict 50 (7 ∷ 9 ∷ []) (frame 30) late_frame
