-- ===== src/Pio.antt =====
-- utils/bits/pio: reader.go and writer.go. A byte slice is a list of numbers below 256, and `none`
-- is the panic of an index out of range. A signed result is its bit pattern.
pub mod Join
pub mod Layout
pub mod RoundTrip
pub mod Vec
pub mod Cursor
pub mod Fetch
pub mod Over
pub mod Bounds
mod Tests
use mse.Common.{ℕ, ◌+◌, ◌-◌, ◌*◌, ◌/◌, ◌%◌, ◌^◌, List, [], ◌∷◌, Option, none, some, bit_or}
use mse.Common.{ltb, if◌then◌else◌, get_elem?, set?}
use mse.Common.Maybe.{◌>>=◌}

-- `i <<= 8; i |= x` in a type of `w` bits
unfoldable pub join : ℕ → ℕ → ℕ → ℕ
join w i x = bit_or (i * 2 ^ 8 % 2 ^ w) x

-- `byte(v >> k)`
abbrev pub byte_of : ℕ → ℕ → ℕ
byte_of v k = v / 2 ^ k % 2 ^ 8

-- `intw(int8(x))`: the sign is spread over `w` bits.
abbrev pub sign_extend : ℕ → ℕ → ℕ
sign_extend w x = if ltb x (2 ^ 7) then x else x + (2 ^ w - 2 ^ 8)

unfoldable pub u8 : List ℕ → Option ℕ
u8 b = get_elem? b 0

unfoldable pub u16_be : List ℕ → Option ℕ
u16_be b = do x ← get_elem? b 0; y ← get_elem? b 1; some (join 16 x y)

unfoldable pub i16_be : List ℕ → Option ℕ
i16_be b = do x ← get_elem? b 0; y ← get_elem? b 1; some (join 16 x y)

unfoldable pub i24_be : List ℕ → Option ℕ
i24_be b = do
  x ← get_elem? b 0
  y ← get_elem? b 1
  z ← get_elem? b 2
  some (join 32 (join 32 (sign_extend 32 x) y) z)

unfoldable pub u24_be : List ℕ → Option ℕ
u24_be b = do
  x ← get_elem? b 0
  y ← get_elem? b 1
  z ← get_elem? b 2
  some (join 32 (join 32 x y) z)

unfoldable pub i32_be : List ℕ → Option ℕ
i32_be b = do
  x ← get_elem? b 0
  y ← get_elem? b 1
  z ← get_elem? b 2
  w ← get_elem? b 3
  some (join 32 (join 32 (join 32 (sign_extend 32 x) y) z) w)

unfoldable pub u32_le : List ℕ → Option ℕ
u32_le b = do
  x ← get_elem? b 3
  y ← get_elem? b 2
  z ← get_elem? b 1
  w ← get_elem? b 0
  some (join 32 (join 32 (join 32 x y) z) w)

unfoldable pub u32_be : List ℕ → Option ℕ
u32_be b = do
  x ← get_elem? b 0
  y ← get_elem? b 1
  z ← get_elem? b 2
  w ← get_elem? b 3
  some (join 32 (join 32 (join 32 x y) z) w)

unfoldable pub u40_be : List ℕ → Option ℕ
u40_be b = do
  x ← get_elem? b 0
  y ← get_elem? b 1
  z ← get_elem? b 2
  w ← get_elem? b 3
  v ← get_elem? b 4
  some (join 64 (join 64 (join 64 (join 64 x y) z) w) v)

-- the eight bytes behind the first, which `u64_be` and `i64_be` read in the same way
join_seven : List ℕ → ℕ → Option ℕ
join_seven b i = do
  b1 ← get_elem? b 1
  b2 ← get_elem? b 2
  b3 ← get_elem? b 3
  b4 ← get_elem? b 4
  b5 ← get_elem? b 5
  b6 ← get_elem? b 6
  b7 ← get_elem? b 7
  some (join 64 (join 64 (join 64 (join 64 (join 64 (join 64 (join 64 i b1) b2) b3) b4) b5) b6) b7)

unfoldable pub u64_be : List ℕ → Option ℕ
unfolding join_seven
u64_be b = do x ← get_elem? b 0; join_seven b x

unfoldable pub i64_be : List ℕ → Option ℕ
unfolding join_seven
i64_be b = do x ← get_elem? b 0; join_seven b (sign_extend 64 x)

-- `b[i] = byte(v >> k)` for each pair of an index and a shift, in order
put_bytes : List ℕ → ℕ → List (ℕ × ℕ) → Option (List ℕ)
put_bytes b v [] = some b
put_bytes b v ((i, k) ∷ rest) = elim (set? b i (byte_of v k)) [
  | none ↦ none
  | some b' ↦ put_bytes b' v rest
]

unfoldable pub put_u8 : List ℕ → ℕ → Option (List ℕ)
unfolding put_bytes
put_u8 b v = put_bytes b v ((0, 0) ∷ [])

unfoldable pub put_i16_be : List ℕ → ℕ → Option (List ℕ)
unfolding put_bytes
put_i16_be b v = put_bytes b v ((0, 8) ∷ (1, 0) ∷ [])

unfoldable pub put_u16_be : List ℕ → ℕ → Option (List ℕ)
unfolding put_bytes
put_u16_be b v = put_bytes b v ((0, 8) ∷ (1, 0) ∷ [])

unfoldable pub put_i24_be : List ℕ → ℕ → Option (List ℕ)
unfolding put_bytes
put_i24_be b v = put_bytes b v ((0, 16) ∷ (1, 8) ∷ (2, 0) ∷ [])

unfoldable pub put_u24_be : List ℕ → ℕ → Option (List ℕ)
unfolding put_bytes
put_u24_be b v = put_bytes b v ((0, 16) ∷ (1, 8) ∷ (2, 0) ∷ [])

unfoldable pub put_i32_be : List ℕ → ℕ → Option (List ℕ)
unfolding put_bytes
put_i32_be b v = put_bytes b v ((0, 24) ∷ (1, 16) ∷ (2, 8) ∷ (3, 0) ∷ [])

unfoldable pub put_u32_be : List ℕ → ℕ → Option (List ℕ)
unfolding put_bytes
put_u32_be b v = put_bytes b v ((0, 24) ∷ (1, 16) ∷ (2, 8) ∷ (3, 0) ∷ [])

unfoldable pub put_u40_be : List ℕ → ℕ → Option (List ℕ)
unfolding put_bytes
put_u40_be b v = put_bytes b v ((0, 32) ∷ (1, 24) ∷ (2, 16) ∷ (3, 8) ∷ (4, 0) ∷ [])

unfoldable pub put_u48_be : List ℕ → ℕ → Option (List ℕ)
unfolding put_bytes
put_u48_be b v = put_bytes b v ((0, 40) ∷ (1, 32) ∷ (2, 24) ∷ (3, 16) ∷ (4, 8) ∷ (5, 0) ∷ [])

unfoldable pub put_u64_be : List ℕ → ℕ → Option (List ℕ)
unfolding put_bytes
put_u64_be b v =
    put_bytes b v ((0, 56) ∷ (1, 48) ∷ (2, 40) ∷ (3, 32) ∷ (4, 24) ∷ (5, 16) ∷ (6, 8) ∷ (7, 0) ∷ [])

unfoldable pub put_i64_be : List ℕ → ℕ → Option (List ℕ)
unfolding put_bytes
put_i64_be b v =
    put_bytes b v ((0, 56) ∷ (1, 48) ∷ (2, 40) ∷ (3, 32) ∷ (4, 24) ∷ (5, 16) ∷ (6, 8) ∷ (7, 0) ∷ [])

unfoldable pub put_u32_le : List ℕ → ℕ → Option (List ℕ)
unfolding put_bytes
put_u32_le b v = put_bytes b v ((3, 24) ∷ (2, 16) ∷ (1, 8) ∷ (0, 0) ∷ [])
