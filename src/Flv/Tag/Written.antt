-- ===== src/Flv/Tag/Written.antt =====
-- The bytes that `WriteTag` writes.
use mathlib.Core.List.{append_assoc}
use mse.Common.{
  ℕ, ◌+◌, ◌-◌, ◌/◌, ◌%◌, ◌^◌, ◌≤◌, ◌<◌, ◌≡◌, refl, sym, ap, ap₂, ◌∙◌, arith, List, [], ◌∷◌, ◌++◌,
  some,
}
use mse.Common.{length, take, drop, bit_and, length-append, take-append_length}
use mse.Common.Bits.{bit_and-ones}
use mse.Pio.Layout.{byte, be24, be24_signed, be32, by_cells}
use mse.Pio.Cursor.{bytes_of, Writes, write-Writes, then-Writes}
use mse.Flv.Tag.Writer.{write_tag}
use mse.Flv.Tag.{Tag, fill_header, fill_tag_header, fill_tag_trailer}
use mse.Flv.Tag.Content.{Content, audio, video, script, ContentFits, tag_of, header_bytes}
use mse.Flv.Tag.Headers.{fill_header-Writes}

-- the kind of a tag, the length of its data, and its time, whose high byte comes last
abbrev pub tag_header_bytes : ℕ → ℕ → ℕ → List ℕ
tag_header_bytes kind datalen ts =
    bytes_of byte kind
    ++ (bytes_of be24 datalen
        ++ (bytes_of be24 (ts % 2 ^ 24) ++ (bytes_of byte (ts / 2 ^ 24) ++ bytes_of be24_signed 0)))

abbrev pub data_length : Content → List ℕ → ℕ
data_length c body = length body + length (header_bytes c)

abbrev pub tag_bytes : Content → List ℕ → ℕ → List ℕ
tag_bytes c body ts =
    tag_header_bytes (tag_of c body).kind (data_length c body) ts
    ++ (header_bytes c ++ (body ++ bytes_of be32 (data_length c body + 11)))

header_short : (c : Content) → length (header_bytes c) ≤ 5
header_short (audio f r s t p) = ground arith
header_short (video f c p time) = omega arith
header_short script = omega arith

tag_header-Writes :
    (kind datalen ts : ℕ)
    → datalen < 2 ^ 24
    → ts < 2 ^ 32
    → Writes (fill_tag_header kind datalen ts) (tag_header_bytes kind datalen ts)
unfolding fill_tag_header
tag_header-Writes kind datalen ts small fits =
    let cut : datalen % 2 ^ 32 ≡ datalen = omega arith in
    let low : bit_and ts 0xffffff ≡ ts % 2 ^ 24 = bit_and-ones 24 ts in
    let high : ts / 2 ^ 24 % 2 ^ 8 ≡ ts / 2 ^ 24 = omega arith in
    rw (cut, low, high)
      (then-Writes (write-Writes byte kind) (
        then-Writes (write-Writes be24 datalen) (
          then-Writes (write-Writes be24 (ts % 2 ^ 24))
            (then-Writes (write-Writes byte (ts / 2 ^ 24)) (write-Writes be24_signed 0)))))

trailer-Writes :
    (datalen : ℕ)
    → datalen < 2 ^ 24
    → Writes (fill_tag_trailer datalen) (bytes_of be32 (datalen + 11))
unfolding fill_tag_trailer
trailer-Writes datalen small =
    let cut : (datalen + 11) % 2 ^ 32 ≡ datalen + 11 = omega arith in
    rw cut (write-Writes be32 (datalen + 11))

cut_front :
    (n : ℕ) (xs ys rest : List ℕ)
    → n ≡ length ys + length xs
    → take n (xs ++ (ys ++ rest)) ≡ xs ++ ys
cut_front n xs ys rest e =
    ap₂ take (e ∙ omega (arith, length-append xs ys)) (sym (append_assoc xs ys rest))
    ∙ take-append_length (xs ++ ys) rest

module _ (t : Tag) (front : List ℕ) (ts : ℕ) (filled : Writes (fill_header t) front)
    (short : length front ≤ 5) where
  abbrev datalen : ℕ
  datalen = length t.body + length front

  abbrev written : List ℕ
  written =
      tag_header_bytes t.kind datalen ts ++ (front ++ (t.body ++ bytes_of be32 (datalen + 11)))

  abbrev Wrote : List ℕ → Type 0
  Wrote b = 5 ≤ length b - 11 → write_tag t ts b ≡ some written

  write_tag_lem :
      datalen < 2 ^ 24
      → ts < 2 ^ 32
      → (b : List ℕ) → 16 ≤ length b
      → write_tag t ts b ≡ some written
  unfolding write_tag
  write_tag_lem small fits b room =
      by_cells 11 Wrote b (omega arith)
        (λ x1 x2 x3 x4 x5 x6 x7 x8 x9 x10 x11 rest enough.
          let pre : List ℕ = x1 ∷ x2 ∷ x3 ∷ x4 ∷ x5 ∷ x6 ∷ x7 ∷ x8 ∷ x9 ∷ x10 ∷ x11 ∷ [] in
          let behind : List ℕ = front ++ drop (length front) rest in
          let first : fill_header t (pre ++ rest) 11 ≡ some (pre ++ behind, 11 + length front) =
            filled.at pre rest (omega arith) in
          let same : length t.body + (11 + length front - 11) ≡ datalen = omega arith in
          let header : List ℕ = tag_header_bytes t.kind datalen ts in
          let second : fill_tag_header t.kind datalen ts (pre ++ behind) 0
              ≡ some (header ++ behind, 11) =
            (tag_header-Writes t.kind datalen ts small fits).at [] (pre ++ behind) (omega arith) in
          let third : fill_tag_trailer datalen (header ++ behind) 0
              ≡ some (bytes_of be32 (datalen + 11) ++ drop 4 (header ++ behind), 4) =
            (trailer-Writes datalen small).at [] (header ++ behind) (omega arith) in
          let front_cut : take (11 + length front - 11 + 11) (header ++ behind) ≡ header ++ front =
            cut_front (11 + length front - 11 + 11) header front (drop (length front) rest)
              (omega arith) in
          rw (first, same, second, third, front_cut)
            (ap some (append_assoc header front (t.body ++ bytes_of be32 (datalen + 11)))))
        (omega arith)

pub body-tag_of : (c : Content) (body : List ℕ) → (tag_of c body).body ≡ body
body-tag_of (audio f r s t p) body = refl
body-tag_of (video f c p time) body = refl
body-tag_of script body = refl

pub write_tag-bytes :
    (c : Content) (body : List ℕ) (ts : ℕ) (b : List ℕ)
    → ContentFits c
    → data_length c body < 2 ^ 24
    → ts < 2 ^ 32
    → 16 ≤ length b
    → write_tag (tag_of c body) ts b ≡ some (tag_bytes c body ts)
write_tag-bytes (audio f r s t p) body ts b is small fits room =
    write_tag_lem (tag_of (audio f r s t p) body) (header_bytes (audio f r s t p)) ts
      (fill_header-Writes (audio f r s t p) body is) (header_short (audio f r s t p)) small fits b
      room
write_tag-bytes (video f c p time) body ts b is small fits room =
    write_tag_lem (tag_of (video f c p time) body) (header_bytes (video f c p time)) ts
      (fill_header-Writes (video f c p time) body is) (header_short (video f c p time)) small fits b
      room
write_tag-bytes script body ts b is small fits room =
    write_tag_lem (tag_of script body) [] ts (fill_header-Writes script body is) (omega arith) small
      fits b room
