-- ===== src/Flv/Tag/RoundTrip.antt =====
-- Reading a tag with `ReadTag`.
use mathlib.Core.List.{append_assoc}
use mse.Common.{
  ℕ, ◌+◌, ◌*◌, ◌/◌, ◌%◌, ◌^◌, ◌≤◌, ◌<◌, ◌≡◌, refl, ap, ap₂, ◌∙◌, arith, true, false, ◌||◌, List, [],
  ◌++◌, some,
}
use mse.Common.{◌==◌, ltb, le→ltb_false, length, bit_or, length-append}
use mse.Common.Bits.{bit_or-shifted_last}
use mse.Common.Outcome.{ok}
use mse.Pio.Layout.{byte, be24, be24_signed, be32}
use mse.Pio.Cursor.{bytes_of}
use mse.Pio.Fetch.{require-ok, fetch-bytes_of, fetch_bytes-append}
use mse.Flv.Tag.Writer.{write_tag}
use mse.Flv.Tag.{Tag, empty_tag, FlvError, eof, parse_tag_header, read_tag, read_full, slice_of}
use mse.Flv.Tag.Content.{
  Content, audio, video, script, ContentFits, tag_of, header_bytes, parsed, left_over, tag_read,
}
use mse.Flv.Tag.Headers.{parse_header-bytes}
use mse.Flv.Tag.Written.{tag_header_bytes, data_length, tag_bytes, write_tag-bytes}

-- A tag begins with a kind that `ParseTagHeader` knows.
abbrev IsKind : ℕ → Type 0
IsKind kind = ((kind == 8) || (kind == 9) || (kind == 18)) ≡ true

parse_tag_header_lem :
    (kind datalen ts : ℕ)
    → IsKind kind
    → kind < 256
    → datalen < 2 ^ 24
    → ts < 2 ^ 32
    → parse_tag_header (record { rest = tag_header_bytes kind datalen ts; pos = 0 })
      ≡ ok ((empty_tag kind, ts, datalen), record { rest = bytes_of be24_signed 0; pos = 8 })
unfolding parse_tag_header
parse_tag_header_lem kind datalen ts known fits small in_time =
    rw
      (
        fetch-bytes_of {E = FlvError} byte kind
            (bytes_of be24 datalen
              ++ (bytes_of be24 (ts % 2 ^ 24)
                  ++ (bytes_of byte (ts / 2 ^ 24) ++ bytes_of be24_signed 0)))
            0 fits,
        known,
        fetch-bytes_of {E = FlvError} be24 datalen
            (bytes_of be24 (ts % 2 ^ 24) ++ (bytes_of byte (ts / 2 ^ 24) ++ bytes_of be24_signed 0))
            1 small,
        fetch-bytes_of {E = FlvError} be24 (ts % 2 ^ 24)
            (bytes_of byte (ts / 2 ^ 24) ++ bytes_of be24_signed 0) 4 (omega arith),
        fetch-bytes_of {E = FlvError} byte (ts / 2 ^ 24) (bytes_of be24_signed 0) 7 (omega arith),
        whole,
      )
      refl
  where
    whole : bit_or (ts % 2 ^ 24) (ts / 2 ^ 24 * 2 ^ 24 % 2 ^ 32) ≡ ts
    whole =
        ap (bit_or (ts % 2 ^ 24)) (omega arith)
        ∙ bit_or-shifted_last 24 (ts / 2 ^ 24) (ts % 2 ^ 24) (omega arith)
        ∙ omega arith

read_full-append :
    (xs rest : List ℕ) (k pos : ℕ)
    → k ≡ length xs
    → read_full k (record { rest = xs ++ rest; pos = pos })
      ≡ ok (xs, record { rest = rest; pos = pos + length xs })
unfolding read_full
read_full-append xs rest k pos e =
    rw
      (
        e,
        require-ok (length xs) eof (record { rest = xs ++ rest; pos = pos })
            (omega (arith, length-append xs rest)),
        fetch_bytes-append {E = FlvError} xs rest pos,
      )
      refl

whole_tag : (c : Content) (body : List ℕ) → (record (tag_of c []) { body = body }) ≡ tag_of c body
whole_tag (audio f r s t p) body = refl
whole_tag (video f c p time) body = refl
whole_tag script body = refl

slice_of-ok : (n k : ℕ) → k ≤ n → slice_of n k ≡ ok tt
unfolding slice_of
slice_of-ok n k h = let e : ltb n k ≡ false = le→ltb_false n k h in rw e refl

known_kind :
    (c : Content) (body : List ℕ)
    → IsKind (tag_of c body).kind
      × ((tag_of c body).kind ≡ (tag_of c []).kind)
      × ((tag_of c body).kind < 256)
known_kind (audio f r s t p) body = (refl, refl, omega arith)
known_kind (video f c p time) body = (refl, refl, omega arith)
known_kind script body = (refl, refl, omega arith)

pub read_tag-bytes :
    (c : Content) (body rest : List ℕ) (room ts pos : ℕ)
    → ContentFits c
    → data_length c body < 2 ^ 24
    → ts < 2 ^ 32
    → 11 ≤ room
    → read_tag room (record { rest = tag_bytes c body ts ++ rest; pos = pos })
      ≡ ok ((tag_read c body, ts), record { rest = rest; pos = pos + 11 + data_length c body + 4 })
unfolding read_tag
read_tag-bytes c body rest room ts pos is small fits enough =
    let (known, same, in_byte) = known_kind c body in
    let kind : ℕ = (tag_of c body).kind in
    let datalen : ℕ = data_length c body in
    let header : List ℕ = tag_header_bytes kind datalen ts in
    let trailer : List ℕ = bytes_of be32 (datalen + 11) in
    let front : List ℕ = header_bytes c in
    let whole : (header ++ (front ++ (body ++ trailer))) ++ rest
        ≡ header ++ ((front ++ body) ++ (trailer ++ rest)) =
      simp append_assoc in
    rw
      (
        slice_of-ok room 11 enough,
        whole,
        read_full-append header ((front ++ body) ++ (trailer ++ rest)) 11 pos refl,
        parse_tag_header_lem kind datalen ts known in_byte small fits,
        read_full-append (front ++ body) (trailer ++ rest) datalen (pos + 11)
            (omega (arith, length-append front body)),
        same,
        parse_header-bytes c body is,
        read_full-append trailer rest 4 (pos + 11 + length (front ++ body)) refl,
      )
      (ap₂ (λ (t : Tag) (n : ℕ). ok ((t, ts), record { rest = rest; pos = n }))
        (whole_tag (parsed c) (left_over c ++ body)) (omega (arith, length-append front body)))

length-tag_bytes :
    (c : Content) (body : List ℕ) (ts : ℕ) → length (tag_bytes c body ts) ≡ 15 + data_length c body
length-tag_bytes c body ts = omega (
  arith,
  length-append (header_bytes c) (body ++ bytes_of be32 (data_length c body + 11)),
  length-append body (bytes_of be32 (data_length c body + 11)),
)

-- A tag whose fields fit their bits, with a body that keeps the length of its data below 2 ^ 24, is
-- written by `WriteTag` into 15 bytes more than its data, whatever stands behind in the stream:
-- `ReadTag`, with the same scratch buffer of at least 16 bytes, takes exactly these bytes and returns
-- the time and, of an audio tag, a script tag, and a video tag of frame type 1 or 2, the same tag. Of
-- the other frame types it returns no packet type and no composition time: their four bytes stand
-- in front of the data.
pub read_tag-write_tag :
    (c : Content) (body rest b : List ℕ) (ts pos : ℕ)
    → ContentFits c
    → data_length c body < 2 ^ 24
    → ts < 2 ^ 32
    → 16 ≤ length b
    → (written : List ℕ) × (write_tag (tag_of c body) ts b ≡ some written)
      × (length written ≡ 15 + data_length c body)
      × (read_tag (length b) (record { rest = written ++ rest; pos = pos })
          ≡ ok (
            (tag_read c body, ts),
            record { rest = rest; pos = pos + 11 + data_length c body + 4 },
          ))
read_tag-write_tag c body rest b ts pos is small fits room = (
  tag_bytes c body ts,
  write_tag-bytes c body ts b is small fits room,
  length-tag_bytes c body ts,
  read_tag-bytes c body rest (length b) ts pos is small fits (omega (arith, room)),
)
