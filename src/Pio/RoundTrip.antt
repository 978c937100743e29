-- ===== src/Pio/RoundTrip.antt =====
-- What a writer of utils/bits/pio puts into a buffer, its reader takes out again.
use mse.Common.{ℕ, ◌+◌, ◌-◌, ◌/◌, ◌%◌, ◌^◌, ◌≤◌, ◌<◌, ◌≡◌, refl, ap, arith}
use mse.Common.{List, some, length, drop, inl, inr}
use mse.Pio.{
  join, byte_of, sign_extend, u8, u16_be, i16_be, u24_be, i24_be, u32_be, u32_le, i32_be, u40_be,
  u64_be, i64_be, put_u8, put_u16_be, put_i16_be, put_u24_be, put_i24_be, put_u32_be, put_u32_le,
  put_i32_be, put_u40_be, put_u64_be, put_i64_be,
}
use mse.Pio.Join.{join_laws}
use mse.Pio.Layout.{
  Layout, byte, be16, be16_signed, be24, be24_signed, be32, be32_signed, le32, be40, be64,
  be64_signed, width, Fits, get, put, by_cells,
}

-- The buffer after a write: the reader gives the value back, and the rest is as it was.
abbrev pub Keeps : Layout → ℕ → List ℕ → Type 0
Keeps l v b =
    (b' : List ℕ) × (put l b v ≡ some b')
    × (get l b' ≡ some v)
    × (length b' ≡ length b)
    × (drop (width l) b' ≡ drop (width l) b)

joined16 : (v : ℕ) → v < 2 ^ 16 → join 16 (byte_of v 8) (byte_of v 0) ≡ v
joined16 v h = omega join_laws

joined24 : (v : ℕ) → v < 2 ^ 24 → join 32 (join 32 (byte_of v 16) (byte_of v 8)) (byte_of v 0) ≡ v
joined24 v h = omega join_laws

sign_extend-low : (w x : ℕ) → x < 2 ^ 7 → sign_extend w x ≡ x
sign_extend-low w x h = ground arith

sign_extend-high : (w x : ℕ) → 2 ^ 7 ≤ x → sign_extend w x ≡ x + (2 ^ w - 2 ^ 8)
sign_extend-high w x h = ground arith

joined24_signed :
    (v : ℕ)
    → Fits be24_signed v
    → join 32 (join 32 (sign_extend 32 (byte_of v 16)) (byte_of v 8)) (byte_of v 0) ≡ v
joined24_signed v (inl h) = rw (sign_extend-low 32 (byte_of v 16) (omega arith)) (omega join_laws)
joined24_signed v (inr h) = rw (sign_extend-high 32 (byte_of v 16) (omega arith)) (omega join_laws)

-- The widening of the first byte does not matter where the shifts drop what it adds.
sign_extend32-mod : (x : ℕ) → x < 2 ^ 8 → sign_extend 32 x % 2 ^ 8 ≡ x
sign_extend32-mod x h = ground arith

sign_extend64-mod : (x : ℕ) → x < 2 ^ 8 → sign_extend 64 x % 2 ^ 8 ≡ x
sign_extend64-mod x h = ground arith

joined32 :
    (v i : ℕ)
    → v < 2 ^ 32
    → i % 2 ^ 8 ≡ byte_of v 24
    → join 32 (join 32 (join 32 i (byte_of v 16)) (byte_of v 8)) (byte_of v 0) ≡ v
joined32 v i h e = omega join_laws

joined40 :
    (v : ℕ)
    → v < 2 ^ 40
    → join 64
        (join 64 (join 64 (join 64 (byte_of v 32) (byte_of v 24)) (byte_of v 16)) (byte_of v 8))
        (byte_of v 0)
      ≡ v
joined40 v h = omega join_laws

-- The upper half of a 64-bit word, as the shifts still keep it, and the whole word from it.
joined_upper :
    (v i : ℕ)
    → i % 2 ^ 8 ≡ byte_of v 56
    → join 64 (join 64 (join 64 i (byte_of v 48)) (byte_of v 40)) (byte_of v 32) % 2 ^ 32
      ≡ v / 2 ^ 32 % 2 ^ 32
joined_upper v i e = omega join_laws

joined_lower :
    (v u : ℕ)
    → v < 2 ^ 64
    → u % 2 ^ 32 ≡ v / 2 ^ 32 % 2 ^ 32
    → join 64
        (join 64 (join 64 (join 64 u (byte_of v 24)) (byte_of v 16)) (byte_of v 8))
        (byte_of v 0)
      ≡ v
joined_lower v u h e = omega join_laws

-- A value that fits its format is read back from where it was written, for every format that
-- has a reader and a writer and every buffer with room; the bytes behind it and the length stay.
pub get-put : (l : Layout) (b : List ℕ) (v : ℕ) → width l ≤ length b → Fits l v → Keeps l v b
unfolding u8 u16_be i16_be u24_be i24_be u32_be u32_le i32_be u40_be u64_be i64_be put_u8 put_u16_be
    put_i16_be put_u24_be put_i24_be put_u32_be put_u32_le put_i32_be put_u40_be put_u64_be
    put_i64_be
get-put byte b v h f =
    by_cells 1 (Keeps byte v) b h λ x r. (_, refl, ap some (omega arith), refl, refl)
get-put be16 b v h f =
    by_cells 2 (Keeps be16 v) b h λ x y r. (_, refl, ap some (joined16 v f), refl, refl)
get-put be16_signed b v h f =
    by_cells 2 (Keeps be16_signed v) b h λ x y r. (_, refl, ap some (joined16 v f), refl, refl)
get-put be24 b v h f =
    by_cells 3 (Keeps be24 v) b h λ x y z r. (_, refl, ap some (joined24 v f), refl, refl)
get-put be24_signed b v h f =
    by_cells 3 (Keeps be24_signed v) b h
      λ x y z r. (_, refl, ap some (joined24_signed v f), refl, refl)
get-put be32 b v h f =
    by_cells 4 (Keeps be32 v) b h
      λ x y z w r. (_, refl, ap some (joined32 v (byte_of v 24) f (omega arith)), refl, refl)
get-put be32_signed b v h f =
    let e = sign_extend32-mod (byte_of v 24) (omega arith) in
    by_cells 4 (Keeps be32_signed v) b h
      λ x y z w r. (_, refl, ap some (joined32 v _ f e), refl, refl)
get-put le32 b v h f =
    by_cells 4 (Keeps le32 v) b h
      λ x y z w r. (_, refl, ap some (joined32 v (byte_of v 24) f (omega arith)), refl, refl)
get-put be40 b v h f =
    by_cells 5 (Keeps be40 v) b h λ x y z w u r. (_, refl, ap some (joined40 v f), refl, refl)
get-put be64 b v h f = by_cells 8 (Keeps be64 v) b h λ x1 x2 x3 x4 x5 x6 x7 x8 r.
    (_, refl, ap some (joined_lower v _ f (joined_upper v _ (omega arith))), refl, refl)
get-put be64_signed b v h f =
    let e = sign_extend64-mod (byte_of v 56) (omega arith) in
    by_cells 8 (Keeps be64_signed v) b h λ x1 x2 x3 x4 x5 x6 x7 x8 r.
      (_, refl, ap some (joined_lower v _ f (joined_upper v _ e)), refl, refl)
