-- ===== src/Pio/Cursor.antt =====
-- Filling a buffer from a position on, as the writers of the formats do: `PutX(b[n:], v); n += k`.
-- The state is the buffer and the position; `none` is a panic, also of the slice `b[n:]` behind the
-- end of `b`.
use mathlib.Core.List.{append_assoc}
use mse.Common.{
  ℕ, ◌+◌, ◌≤◌, ◌≡◌, refl, sym, ap, ap₂, ◌∙◌, Bool, true, false, arith, List, [], ◌∷◌, ◌++◌, Option,
  none, some,
}
use mse.Common.{
  ltb, if◌then◌else◌, length, take, drop, length-append, take-append_length, drop-append_length,
  length-drop,
}
use mse.Common.Maybe.{◌>>=◌}
use mse.Pio.{
  byte_of, put_u8, put_u16_be, put_i16_be, put_u24_be, put_i24_be, put_u32_be, put_u32_le,
  put_i32_be, put_u40_be, put_u64_be, put_i64_be,
}
use mse.Pio.Layout.{
  Layout, byte, be16, be16_signed, be24, be24_signed, be32, be32_signed, le32, be40, be64,
  be64_signed, width, put, by_cells,
}

abbrev pub Write : Type 0
Write = List ℕ → ℕ → Option (List ℕ × ℕ)

infixr 6 ◌then_write◌
abbrev pub ◌then_write◌ : Write → Write → Write
◌then_write◌ m k b n = do s ← m b n; k s.0 s.1

abbrev pub write_nothing : Write
write_nothing b n = some (b, n)

-- `PutX(b[n:], v); n += width`
unfoldable pub write : Layout → ℕ → Write
write l v b n =
    let filled : Option (List ℕ × ℕ) = (do
      rest ← put l (drop n b) v
      some (take n b ++ rest, n + width l)) in
    if ltb (length b) n then none else filled

-- the builtin `copy`, which stops at the end of the shorter slice
unfoldable pub overlay : List ℕ → List ℕ → List ℕ
overlay [] ys = ys
overlay (x ∷ xs) [] = []
overlay (x ∷ xs) (y ∷ ys) = x ∷ overlay xs ys

-- `copy(b[n:], src); n += len(src)`
unfoldable pub write_copy : List ℕ → Write
write_copy src b n =
    if ltb (length b) n then none else some (take n b ++ overlay src (drop n b), n + length src)

-- the bytes that a value has in a format
abbrev pub bytes_of : Layout → ℕ → List ℕ
bytes_of byte v = byte_of v 0 ∷ []
bytes_of be16 v = byte_of v 8 ∷ byte_of v 0 ∷ []
bytes_of be16_signed v = byte_of v 8 ∷ byte_of v 0 ∷ []
bytes_of be24 v = byte_of v 16 ∷ byte_of v 8 ∷ byte_of v 0 ∷ []
bytes_of be24_signed v = byte_of v 16 ∷ byte_of v 8 ∷ byte_of v 0 ∷ []
bytes_of be32 v = byte_of v 24 ∷ byte_of v 16 ∷ byte_of v 8 ∷ byte_of v 0 ∷ []
bytes_of be32_signed v = byte_of v 24 ∷ byte_of v 16 ∷ byte_of v 8 ∷ byte_of v 0 ∷ []
bytes_of le32 v = byte_of v 0 ∷ byte_of v 8 ∷ byte_of v 16 ∷ byte_of v 24 ∷ []
bytes_of be40 v = byte_of v 32 ∷ byte_of v 24 ∷ byte_of v 16 ∷ byte_of v 8 ∷ byte_of v 0 ∷ []
bytes_of be64 v =
    byte_of v 56
    ∷ byte_of v 48
    ∷ byte_of v 40
    ∷ byte_of v 32
    ∷ byte_of v 24
    ∷ byte_of v 16
    ∷ byte_of v 8
    ∷ byte_of v 0
    ∷ []
bytes_of be64_signed v =
    byte_of v 56
    ∷ byte_of v 48
    ∷ byte_of v 40
    ∷ byte_of v 32
    ∷ byte_of v 24
    ∷ byte_of v 16
    ∷ byte_of v 8
    ∷ byte_of v 0
    ∷ []

pub length-bytes_of : (l : Layout) (v : ℕ) → length (bytes_of l v) ≡ width l
length-bytes_of byte v = refl
length-bytes_of be16 v = refl
length-bytes_of be16_signed v = refl
length-bytes_of be24 v = refl
length-bytes_of be24_signed v = refl
length-bytes_of be32 v = refl
length-bytes_of be32_signed v = refl
length-bytes_of le32 v = refl
length-bytes_of be40 v = refl
length-bytes_of be64 v = refl
length-bytes_of be64_signed v = refl

abbrev Puts : Layout → ℕ → List ℕ → Type 0
Puts l v b = put l b v ≡ some (bytes_of l v ++ drop (width l) b)

pub put-bytes_of : (l : Layout) (b : List ℕ) (v : ℕ) → width l ≤ length b → Puts l v b
unfolding put_u8 put_u16_be put_i16_be put_u24_be put_i24_be put_u32_be put_u32_le put_i32_be
    put_u40_be put_u64_be put_i64_be
put-bytes_of byte b v h = by_cells 1 (Puts byte v) b h λ x r. refl
put-bytes_of be16 b v h = by_cells 2 (Puts be16 v) b h λ x y r. refl
put-bytes_of be16_signed b v h = by_cells 2 (Puts be16_signed v) b h λ x y r. refl
put-bytes_of be24 b v h = by_cells 3 (Puts be24 v) b h λ x y z r. refl
put-bytes_of be24_signed b v h = by_cells 3 (Puts be24_signed v) b h λ x y z r. refl
put-bytes_of be32 b v h = by_cells 4 (Puts be32 v) b h λ x y z w r. refl
put-bytes_of be32_signed b v h = by_cells 4 (Puts be32_signed v) b h λ x y z w r. refl
put-bytes_of le32 b v h = by_cells 4 (Puts le32 v) b h λ x y z w r. refl
put-bytes_of be40 b v h = by_cells 5 (Puts be40 v) b h λ x y z w u r. refl
put-bytes_of be64 b v h = by_cells 8 (Puts be64 v) b h λ x1 x2 x3 x4 x5 x6 x7 x8 r. refl
put-bytes_of be64_signed b v h =
    by_cells 8 (Puts be64_signed v) b h λ x1 x2 x3 x4 x5 x6 x7 x8 r. refl

-- A write of the bytes `xs`: in a buffer with room it fills them in at the position, and no other.
pub record Writes (m : Write) (xs : List ℕ) : Type 0 where
  pub at :
      (pre rest : List ℕ)
      → length xs ≤ length rest
      → m (pre ++ rest) (length pre)
        ≡ some (pre ++ (xs ++ drop (length xs) rest), length pre + length xs)

in_range : (pre rest : List ℕ) → ltb (length (pre ++ rest)) (length pre) ≡ false
in_range pre rest = ground (arith, length-append pre rest)

pub nothing-Writes : Writes write_nothing []
nothing-Writes = record { at = λ pre rest h. ap (λ (n : ℕ). some (pre ++ rest, n)) (omega arith) }

write_at :
    (l : Layout) (v : ℕ) (pre rest : List ℕ)
    → length (bytes_of l v) ≤ length rest
    → write l v (pre ++ rest) (length pre)
      ≡ some (
        pre ++ (bytes_of l v ++ drop (length (bytes_of l v)) rest),
        length pre + length (bytes_of l v),
      )
unfolding write
write_at l v pre rest h =
    rw
      (
        in_range pre rest,
        drop-append_length pre rest,
        take-append_length pre rest,
        length-bytes_of l v,
        put-bytes_of l rest v (omega (arith, h, length-bytes_of l v)),
      )
      refl

pub write-Writes : (l : Layout) (v : ℕ) → Writes (write l v) (bytes_of l v)
write-Writes l v = record { at = write_at l v }

overlay_within :
    (xs ys : List ℕ) → length xs ≤ length ys → overlay xs ys ≡ xs ++ drop (length xs) ys
unfolding overlay
overlay_within [] ys h = refl
overlay_within (x ∷ xs) [] h = absurd (omega arith)
overlay_within (x ∷ xs) (y ∷ ys) h = rw (overlay_within xs ys (omega arith))

copy_at :
    (src pre rest : List ℕ)
    → length src ≤ length rest
    → write_copy src (pre ++ rest) (length pre)
      ≡ some (pre ++ (src ++ drop (length src) rest), length pre + length src)
unfolding write_copy
copy_at src pre rest h =
    rw
      (
        in_range pre rest,
        drop-append_length pre rest,
        take-append_length pre rest,
        overlay_within src rest h,
      )
      refl

pub copy-Writes : (src : List ℕ) → Writes (write_copy src) src
copy-Writes src = record { at = copy_at src }

drop_twice :
    (xs ys rest : List ℕ) → drop (length (xs ++ ys)) rest ≡ drop (length ys) (drop (length xs) rest)
drop_twice [] ys rest = refl
drop_twice (x ∷ xs) [] [] = refl
drop_twice (x ∷ xs) (y ∷ ys) [] = refl
drop_twice (x ∷ xs) ys (z ∷ rest) = drop_twice xs ys rest

then_at :
    {m k : Write} {xs ys : List ℕ} (first : Writes m xs) (second : Writes k ys) (pre rest : List ℕ)
    → length (xs ++ ys) ≤ length rest
    → (m then_write k) (pre ++ rest) (length pre)
      ≡ some (pre ++ ((xs ++ ys) ++ drop (length (xs ++ ys)) rest), length pre + length (xs ++ ys))
then_at {k} {xs} {ys} first second pre rest h =
    rw (first.at pre rest (omega (arith, length-append xs ys))) (
      ap₂ k (sym (append_assoc pre xs (drop (length xs) rest))) (sym (length-append pre xs))
      ∙ second.at (pre ++ xs) (drop (length xs) rest)
          (omega (arith, length-append xs ys, length-drop (length xs) rest))
      ∙ ap₂ (λ (b : List ℕ) (n : ℕ). some (b, n)) whole
          (omega (arith, length-append pre xs, length-append xs ys)))
  where
    whole :
        (pre ++ xs) ++ (ys ++ drop (length ys) (drop (length xs) rest))
        ≡ pre ++ ((xs ++ ys) ++ drop (length (xs ++ ys)) rest)
    whole = rw (drop_twice xs ys rest) (simp append_assoc)

pub then-Writes :
    {m k : Write} {xs ys : List ℕ} → Writes m xs → Writes k ys → Writes (m then_write k) (xs ++ ys)
then-Writes first second = record { at = then_at first second }

-- A write into exactly the room that it needs.
pub Writes-room :
    {m : Write} {xs : List ℕ} (written : Writes m xs) (pre room rest : List ℕ)
    → length room ≡ length xs
    → m (pre ++ (room ++ rest)) (length pre) ≡ some (pre ++ (xs ++ rest), length pre + length xs)
Writes-room {xs} written pre room rest e =
    written.at pre (room ++ rest) (omega (arith, length-append room rest))
    ∙ ap (λ (r : List ℕ). some (pre ++ (xs ++ r), length pre + length xs))
        (ap (λ (n : ℕ). drop n (room ++ rest)) (sym e) ∙ drop-append_length room rest)

pub if-Writes :
    (b : Bool) {m k : Write} {xs ys : List ℕ}
    → Writes m xs
    → Writes k ys
    → Writes (if b then m else k) (if b then xs else ys)
if-Writes true first second = first
if-Writes false first second = second
