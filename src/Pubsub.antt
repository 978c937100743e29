-- ===== src/Pubsub.antt =====
-- av/pubsub/queue.go: one publisher and many readers over a packet buffer. A codec is its type, the
-- one part of it that the queue reads. The lock makes every function here one step; a `Broadcast`
-- changes no state of the queue. `none` is a panic of the buffer.
pub mod Cursor
pub mod Trim
pub mod Write
pub mod Read
pub mod DelayedGop
mod Tests
use mse.Common.{ℕ, zero, suc, ◌+◌, ◌-◌, ◌%◌, ◌^◌, Bool, true, false, not, ◌&&◌, List, [], ◌∷◌}
use mse.Common.{Option, none, some, ◌==◌, if◌then◌else◌}
use mse.Common.Maybe.{◌>>=◌}
use mse.Common.Word.{word, add64, sub64, slt}
use mse.Av.{Packet, is_video}
use mse.Pktque.Buf.{Buf, new_buf, push, pop}

pub record Queue : Type 0 where
  pub buf : Buf
  pub curgopcount : ℕ
  pub maxgopcount : ℕ
  pub streams : Option (List ℕ)
  pub videoidx : ℕ
  pub closed : Bool

-- `videoidx` is -1 until a header names a video stream.
unfoldable pub new_queue : Queue
unfolding new_buf
new_queue = record {
  buf = new_buf;
  curgopcount = 0;
  maxgopcount = 2;
  streams = none;
  videoidx = word - 1;
  closed = false;
}

unfoldable pub set_max_gop_count : Queue → ℕ → Queue
set_max_gop_count q n = record q { maxgopcount = n }

-- the loop of `WriteHeader`: the last video stream counts
unfoldable pub last_video : List ℕ → ℕ → ℕ → ℕ
last_video [] i found = found
last_video (t ∷ ts) i found = last_video ts (add64 i 1) (if is_video t then i else found)

abbrev listed : Option (List ℕ) → List ℕ
listed none = []
listed (some ts) = ts

unfoldable pub write_header : Queue → Option (List ℕ) → Queue
unfolding last_video
write_header q streams = record q {
  streams = streams;
  videoidx = last_video (listed streams) 0 q.videoidx;
}

unfoldable pub close : Queue → Queue
close q = record q { closed = true }

-- `pkt.Idx == int8(self.videoidx) && pkt.IsKeyFrame`
abbrev pub is_gop_start : ℕ → Packet → Bool
is_gop_start videoidx pkt = pkt.idx == videoidx % 2 ^ 8 && pkt.is_key_frame

-- The loop of `WritePacket`, which drops old packets; the fuel bounds its rounds.
unfoldable pub shrink : ℕ → Queue → Option Queue
shrink zero q = if not (slt q.curgopcount q.maxgopcount) && slt 1 q.buf.count then none else some q
shrink (suc fuel) q =
    let dropped : Option Queue = do
      (pkt, buf) ← pop q.buf
      let gops = if is_gop_start q.videoidx pkt then sub64 q.curgopcount 1 else q.curgopcount
      let q' = record q { buf = buf; curgopcount = gops }
      let more = shrink fuel q'
      if slt gops q.maxgopcount then some q' else more
    in if not (slt q.curgopcount q.maxgopcount) && slt 1 q.buf.count then dropped else some q

-- Each round drops a packet, so as many rounds as there are packets are enough.
unfoldable pub write_packet : Queue → Packet → Option Queue
unfolding shrink
write_packet q pkt = do
  buf ← push q.buf pkt
  let gops = if is_gop_start q.videoidx pkt then add64 q.curgopcount 1 else q.curgopcount
  shrink buf.count (record q { buf = buf; curgopcount = gops })
