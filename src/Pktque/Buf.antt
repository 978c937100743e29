-- ===== src/Pktque/Buf.antt =====
-- av/pktque/buf.go: a ring of packets that doubles when it is full. Positions count packets from
-- the start of the stream and are 64-bit words; `none` is a panic.
pub mod Window
pub mod Positions
pub mod Grow
pub mod Refine
pub mod Push
pub mod Get
use mse.Common.{ℕ, zero, suc, ◌+◌, ◌-◌, ◌*◌, ◌%◌, ◌^◌, Bool, true, false, not, ◌&&◌}
use mse.Common.{List, [], ◌∷◌, Option, none, some, ltb, ◌==◌, if◌then◌else◌}
use mse.Common.{length, get_elem?, set?, replicate, bit_and}
use mse.Common.Maybe.{◌>>=◌}
use mse.Common.Word.{add64, sub64, is_neg}
use mse.Av.{Packet, zero_packet}

pub record Buf : Type 0 where
  pub head : ℕ
  pub tail : ℕ
  pub pkts : List Packet
  pub size : ℕ
  pub count : ℕ

unfoldable pub new_buf : Buf
new_buf = record { head = 0; tail = 0; pkts = replicate 64 zero_packet; size = 0; count = 0 }

-- `BufPos.LT`, `GE` and `GT`: the sign of the difference
abbrev pub pos_lt : ℕ → ℕ → Bool
pos_lt p q = is_neg (sub64 p q)

abbrev pub pos_ge : ℕ → ℕ → Bool
pos_ge p q = not (is_neg (sub64 p q))

abbrev pub pos_gt : ℕ → ℕ → Bool
pos_gt p q = not (is_neg (sub64 p q)) && not (sub64 p q == 0)

-- `int(pos) & (len(pkts) - 1)`
unfoldable pub slot : ℕ → List Packet → ℕ
slot pos pkts = bit_and pos (length pkts - 1)

-- `pop` panics on an empty buffer.
unfoldable pub pop : Buf → Option (Packet × Buf)
pop b =
    let i = slot b.head b.pkts in
    let taken : Option (Packet × Buf) = do
      pkt ← get_elem? b.pkts i
      pkts ← set? b.pkts i zero_packet
      some (
        pkt,
        record b {
          pkts = pkts;
          size = sub64 b.size (length pkt.bytes);
          head = add64 b.head 1;
          count = sub64 b.count 1;
        },
      )
    in if b.count == 0 then none else taken

-- The loop of `grow` from position `i` on; the fuel bounds its rounds.
unfoldable pub grow_loop : ℕ → ℕ → ℕ → List Packet → List Packet → Option (List Packet)
grow_loop zero i tail old new = if pos_lt i tail then none else some new
grow_loop (suc fuel) i tail old new =
    let copied : Option (List Packet) = do
      pkt ← get_elem? old (slot i old)
      new' ← set? new (slot i new) pkt
      grow_loop fuel (add64 i 1) tail old new'
    in if pos_lt i tail then copied else some new

-- A round for each packet is enough.
unfoldable pub grow : Buf → Option Buf
unfolding grow_loop
grow b = do
  pkts ← grow_loop b.count b.head b.tail b.pkts (replicate (length b.pkts * 2) zero_packet)
  some (record b { pkts = pkts })

unfoldable pub push : Buf → Packet → Option Buf
unfolding grow
push b pkt = do
  b' ← if b.count == length b.pkts then grow b else some b
  pkts ← set? b'.pkts (slot b'.tail b'.pkts) pkt
  some (record b' {
    pkts = pkts;
    tail = add64 b'.tail 1;
    count = add64 b'.count 1;
    size = add64 b'.size (length pkt.bytes);
  })

-- Any position has a slot; whether a packet stands there is `is_valid_pos`.
unfoldable pub get : Buf → ℕ → Option Packet
get b pos = get_elem? b.pkts (slot pos b.pkts)

unfoldable pub is_valid_pos : Buf → ℕ → Bool
is_valid_pos b pos = pos_ge pos b.head && pos_lt pos b.tail
