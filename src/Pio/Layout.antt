-- ===== src/Pio/Layout.antt =====
-- What a writer of utils/bits/pio puts into a buffer, its reader takes out again.
use mse.Common.{ℕ, zero, suc, ◌-◌, ◌^◌, ◌≤◌, ◌<◌, ◌⊎◌, arith}
use mse.Common.{List, [], ◌∷◌, Option, length}
use mse.Pio.{
  u8, u16_be, i16_be, u24_be, i24_be, u32_be, u32_le, i32_be, u40_be, u64_be, i64_be, put_u8,
  put_u16_be, put_i16_be, put_u24_be, put_i24_be, put_u32_be, put_u32_le, put_i32_be, put_u40_be,
  put_u64_be, put_i64_be,
}

-- A statement about a buffer holds if it holds of every buffer that shows its first `n` cells.
abbrev Cells : ℕ → (List ℕ → Type 0) → Type 0
Cells zero P = (rest : List ℕ) → P rest
Cells (suc n) P = (x : ℕ) → Cells n (λ rest. P (x ∷ rest))

pub by_cells : (n : ℕ) (P : List ℕ → Type 0) (b : List ℕ) → n ≤ length b → Cells n P → P b
by_cells zero P b h k = k b
by_cells (suc n) P [] h k = absurd (omega arith)
by_cells (suc n) P (x ∷ rest) h k = by_cells n (λ r. P (x ∷ r)) rest (omega arith) (k x)

-- The integer formats that have both a reader and a writer.
pub data Layout : Type 0 where
  byte be16 be16_signed be24 be24_signed be32 be32_signed le32 be40 be64 be64_signed : Layout

abbrev pub width : Layout → ℕ
width byte = 1
width be16 = 2
width be16_signed = 2
width be24 = 3
width be24_signed = 3
width be32 = 4
width be32_signed = 4
width le32 = 4
width be40 = 5
width be64 = 8
width be64_signed = 8

-- The patterns that the format can hold; a 24-bit signed one stands in 32 bits.
abbrev pub Fits : Layout → ℕ → Type 0
Fits byte v = v < 2 ^ 8
Fits be16 v = v < 2 ^ 16
Fits be16_signed v = v < 2 ^ 16
Fits be24 v = v < 2 ^ 24
Fits be24_signed v = (v < 2 ^ 23) ⊎ ((2 ^ 32 - 2 ^ 23 ≤ v) × (v < 2 ^ 32))
Fits be32 v = v < 2 ^ 32
Fits be32_signed v = v < 2 ^ 32
Fits le32 v = v < 2 ^ 32
Fits be40 v = v < 2 ^ 40
Fits be64 v = v < 2 ^ 64
Fits be64_signed v = v < 2 ^ 64

abbrev pub get : Layout → List ℕ → Option ℕ
get byte = u8
get be16 = u16_be
get be16_signed = i16_be
get be24 = u24_be
get be24_signed = i24_be
get be32 = u32_be
get be32_signed = i32_be
get le32 = u32_le
get be40 = u40_be
get be64 = u64_be
get be64_signed = i64_be

abbrev pub put : Layout → List ℕ → ℕ → Option (List ℕ)
put byte = put_u8
put be16 = put_u16_be
put be16_signed = put_i16_be
put be24 = put_u24_be
put be24_signed = put_i24_be
put be32 = put_u32_be
put be32_signed = put_i32_be
put le32 = put_u32_le
put be40 = put_u40_be
put be64 = put_u64_be
put be64_signed = put_i64_be
