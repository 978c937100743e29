-- ===== src/Pubsub/Cursor.antt =====
-- The readers of av/pubsub/queue.go. A read that has to wait gives its cursor back: the read goes
-- on with it, under the lock, after another step of the queue.
use mse.Common.{ℕ, zero, suc, ◌-◌, Bool, true, false, ◌&&◌, List}
use mse.Common.{Option, none, some, ◌==◌, if◌then◌else◌}
use mse.Common.Maybe.{◌>>=◌}
use mse.Common.Word.{word, add64, sub64, slt}
use mse.Av.{Packet}
use mse.Pktque.Buf.{Buf, pos_lt, pos_gt, get, is_valid_pos}
use mse.Pubsub.{Queue, is_gop_start}

-- The closures that `Latest`, `Oldest`, `DelayedTime` and `DelayedGopCount` put into `init`.
pub data Init : Type 0 where
  latest oldest : Init
  delayed_time : ℕ → Init
  delayed_gop_count : ℕ → Init

pub record QueueCursor : Type 0 where
  pub pos : ℕ
  pub gotpos : Bool
  pub init : Init

unfoldable pub new_cursor : Init → QueueCursor
new_cursor init = record { pos = 0; gotpos = false; init = init }

-- The loop of `DelayedTime`: back to the first packet more than `dur` before the time `end`.
unfoldable pub back_time : ℕ → Buf → ℕ → ℕ → ℕ → Option ℕ
back_time zero buf end dur i = if is_valid_pos buf i then none else some i
back_time (suc fuel) buf end dur i =
    let stepped : Option ℕ = do
      pkt ← get buf i
      let more = back_time fuel buf end dur (sub64 i 1)
      if slt dur (sub64 end pkt.time) then some i else more
    in if is_valid_pos buf i then stepped else some i

-- The loop of `DelayedGopCount`: back over `n - gop` key frames of the video stream.
unfoldable pub back_gops : ℕ → Buf → ℕ → ℕ → ℕ → ℕ → Option ℕ
back_gops zero buf videoidx n gop i = if is_valid_pos buf i && slt gop n then none else some i
back_gops (suc fuel) buf videoidx n gop i =
    let stepped : Option ℕ = do
      pkt ← get buf i
      back_gops fuel buf videoidx n (if is_gop_start videoidx pkt then add64 gop 1 else gop)
          (sub64 i 1)
    in if is_valid_pos buf i && slt gop n then stepped else some i

-- `cursor.init(buf, videoidx)`. Both loops end after a round for each packet.
unfoldable pub start_pos : Init → Buf → ℕ → Option ℕ
start_pos latest buf videoidx = some buf.tail
start_pos oldest buf videoidx = some buf.head
start_pos (delayed_time dur) buf videoidx =
    let i = sub64 buf.tail 1 in
    let walked : Option ℕ = (do last ← get buf i; back_time buf.count buf last.time dur i) in
    if is_valid_pos buf i then walked else some i
start_pos (delayed_gop_count n) buf videoidx =
    let i = sub64 buf.tail 1 in
    let walked = back_gops buf.count buf videoidx n 0 i in
    if videoidx == word - 1 then some i else walked

pub data Reading : Type 0 where
  packet : Packet → QueueCursor → Reading
  eof : QueueCursor → Reading
  wait : QueueCursor → Reading

-- the position moved into the buffer: packets that were dropped are skipped
unfoldable pub clamp_pos : Buf → ℕ → ℕ
clamp_pos buf pos =
    if pos_lt pos buf.head then buf.head else if pos_gt pos buf.tail then buf.tail else pos

-- One round of the loop of `ReadPacket`.
unfoldable pub read_round : Queue → QueueCursor → Option Reading
read_round q c =
    let pos = clamp_pos q.buf c.pos in
    let c' = record c { pos = pos } in
    let found : Option Reading = do
      pkt ← get q.buf pos
      some (packet pkt (record c { pos = add64 pos 1 }))
    in if is_valid_pos q.buf pos
      then found
      else (if q.closed then some (eof c') else some (wait c'))

-- `ReadPacket`, up to the first `Wait`; a cursor that waited has its position, and only loops.
unfoldable pub read_packet : Queue → QueueCursor → Option Reading
read_packet q c =
    let first : Option Reading = do
      pos ← start_pos c.init q.buf q.videoidx
      read_round q (record c { pos = pos; gotpos = true })
    in if c.gotpos then read_round q c else first

pub data StreamsResult : Type 0 where
  streams_are : List ℕ → StreamsResult
  streams_eof streams_wait : StreamsResult

-- `Streams`, up to the first `Wait`
unfoldable pub streams : Queue → StreamsResult
streams q = elim q.streams [
  | some ts ↦ streams_are ts
  | none ↦ if q.closed then streams_eof else streams_wait
]
