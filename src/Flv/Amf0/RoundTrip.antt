-- ===== src/Flv/Amf0/RoundTrip.antt =====
-- Reading, with `ParseAMF0Val`, what `FillAMF0Val` writes.
use mathlib.Core.List.{append_assoc}
use mse.Common.{
  ℕ, zero, suc, ◌+◌, ◌^◌, ◌%◌, ◌≤◌, ◌<◌, ◌≡◌, ◌⊎◌, inl, inr, sym, ap, ap₂, ◌∙◌, arith, true, false,
  List, [], ◌∷◌, ◌++◌,
}
use mse.Common.{some, leb, length, length-append}
use mse.Common.Outcome.{ok}
use mse.Pio.Layout.{byte, be16, be32, be64}
use mse.Pio.Cursor.{bytes_of}
use mse.Pio.Fetch.{Cursor, wrap, need-ok}
use mse.Flv.Amf0.Date.{float_of_time}
use mse.Flv.Amf0.{
  Amf, number, text, ecma, object, array, date, boolean, null, Fields, end, field, Items, nil, item,
  field_count, item_count, len_amf0_val, fill_amf0_val,
}
use mse.Flv.Amf0.Encode.{
  object_end, text_head, encode, encode_entries, encode_items, length-encode, fill_amf0_val-encode,
}
use mse.Flv.Amf0.Parse.{
  Result, EntryMessages, object_messages, array_messages, parse_entries, parse_object, parse_items,
  parse_marked, parse_val, parse_amf0_val,
}
use mse.Flv.Amf0.Wire.{
  as_read, fields_read, items_read, IsNewKey, Fits, FieldsFit, ItemsFit, depth, depth_fields,
  depth_items, append_fields, IsApart, put_field-new, IsApart-next, append_fields_assoc,
  append_fields-end, named-entries, count-le, depth-lt,
}
use mse.Flv.Amf0.Steps.{
  at, moved, parse_val-marker, number-eq, date-eq, boolean-eq, string-eq, long_string-eq, entry-eq,
  last-eq, ecma-eq, strict-eq,
}

-- The rest of a position: behind the bytes `xs`, `p` further.
abbrev Reads : {A : Type 0} → (Cursor → Result A) → List ℕ → A → Type 0
Reads parse xs x =
    (rest : List ℕ) (pos : ℕ) → parse (at (xs ++ rest) pos) ≡ ok (x, at rest (pos + length xs))

-- One more byte in front, the marker.
marked-Reads :
    (fuel m : ℕ) (xs : List ℕ) (v : Amf)
    → m < 2 ^ 8
    → ((rest : List ℕ) (pos : ℕ)
        → parse_marked (parse_val fuel) m (at (xs ++ rest) pos) ≡ ok (v, at rest (pos + length xs)))
    → Reads (parse_val (suc fuel)) (bytes_of byte m ++ xs) v
marked-Reads fuel m xs v small body rest pos =
    parse_val-marker fuel m (xs ++ rest) pos small
    ∙ body rest (pos + 1)
    ∙ moved v rest (pos + 1 + length xs) (pos + suc (length xs)) (omega arith)

text-Reads :
    (fuel : ℕ) (s : List ℕ)
    → (length s < 65536) ⊎ ((65536 < length s) × (length s < 2 ^ 32))
    → Reads (parse_val (suc fuel)) (text_head (length s) ++ s) (text s)
unfolding parse_marked
text-Reads fuel s (inl short) =
    let test : leb (length s) 65536 ≡ true = ground arith in
    let cut : length s % 2 ^ 16 ≡ length s = omega arith in
    rw (test, cut)
      (marked-Reads fuel 2 (bytes_of be16 (length s) ++ s) (text s) (omega arith)
        (λ rest pos. string-eq s rest pos short ∙ moved (text s) rest _ _ (omega arith)))
text-Reads fuel s (inr (long, fits)) =
    let test : leb (length s) 65536 ≡ false = ground arith in
    let cut : length s % 2 ^ 32 ≡ length s = omega arith in
    rw (test, cut)
      (marked-Reads fuel 12 (bytes_of be32 (length s) ++ s) (text s) (omega arith)
        (λ rest pos. long_string-eq s rest pos fits ∙ moved (text s) rest _ _ (omega arith)))

-- The end of an object behind its entries.
object-Reads :
    (fuel : ℕ) (ms : EntryMessages) (fs : Fields) (xs : List ℕ)
    → ((loop : ℕ) (rest : List ℕ) (pos : ℕ)
        → field_count fs < loop
        → parse_entries (parse_val fuel) ms loop end (at (xs ++ (object_end ++ rest)) pos)
          ≡ ok (fields_read fs, at (9 ∷ rest) (pos + length xs + 2)))
    → field_count fs ≤ length xs
    → (rest : List ℕ) (pos : ℕ)
    → parse_object (parse_val fuel) ms (at ((xs ++ object_end) ++ rest) pos)
      ≡ ok (object (fields_read fs), at rest (pos + length (xs ++ object_end)))
unfolding parse_object
object-Reads fuel ms fs xs loop few rest pos =
    rw
      (
        append_assoc xs object_end rest,
        loop (suc (length (xs ++ (object_end ++ rest)))) rest pos
            (omega (arith, few, length-append xs (object_end ++ rest))),
        need-ok 1 ms.last (at (9 ∷ rest) (pos + length xs + 2)) (omega arith),
      )
      (moved _ rest _ _ (omega (arith, length-append xs object_end)))

entry_body : (k xs ys rest : List ℕ) → (k ++ (xs ++ ys)) ++ rest ≡ k ++ (xs ++ (ys ++ rest))
entry_body k xs ys rest = simp append_assoc

-- A value is read where its bytes stand, on fuel beyond its depth; so are the entries of a map,
-- behind those already read, and the values of an array.
mutual
  unfolding encode Fits as_read depth IsNewKey IsApart append_fields parse_marked parse_items wrap

  encode-Reads :
      (v : Amf) (fuel : ℕ) → Fits v → depth v < fuel → Reads (parse_val fuel) (encode v) (as_read v)
  encode-Reads v zero fits deep = absurd (omega arith)
  encode-Reads (number f) (suc fuel) fits deep =
      marked-Reads fuel 0 (bytes_of be64 f) (number f) (omega arith)
        (λ rest pos. number-eq f rest pos fits)
  encode-Reads (text s) (suc fuel) fits deep = text-Reads fuel s fits
  encode-Reads (ecma fs) (suc fuel) fits deep =
      marked-Reads fuel 8
        (bytes_of be32 (field_count fs % 2 ^ 32) ++ (encode_entries fs ++ object_end))
        (object (fields_read fs)) (omega arith)
        (λ rest pos.
          ecma-eq (parse_val fuel) (field_count fs % 2 ^ 32)
            ((encode_entries fs ++ object_end) ++ rest) pos
          ∙ object-Reads fuel array_messages fs (encode_entries fs)
              (λ loop rest pos few.
                entries-eq fs fuel array_messages loop end rest pos fits (omega arith) tt few)
              (count-le fs) rest (pos + 4)
          ∙ moved _ rest _ _ (omega arith))
  encode-Reads (object fs) (suc fuel) fits deep = rw (named-entries fs fits) (
      marked-Reads fuel 3 (encode_entries fs ++ object_end) (object (fields_read fs)) (omega arith)
        (object-Reads fuel object_messages fs (encode_entries fs)
          (λ loop rest pos few.
            entries-eq fs fuel object_messages loop end rest pos fits (omega arith) tt few)
          (count-le fs)))
  encode-Reads (array vs) (suc fuel) (few, fits) deep =
      let cut : item_count vs % 2 ^ 32 ≡ item_count vs = omega arith in
      rw cut (
        marked-Reads fuel 10 (bytes_of be32 (item_count vs) ++ encode_items vs)
          (array (items_read vs)) (omega arith)
          (λ rest pos.
            strict-eq (parse_val fuel) (items_read vs) (item_count vs) (encode_items vs ++ rest)
              rest pos (pos + 4 + length (encode_items vs)) few
              (items-eq vs fuel rest (pos + 4) fits (omega arith))
            ∙ moved _ rest _ _ (omega arith)))
  encode-Reads (date sec nsec) (suc fuel) fits deep =
      marked-Reads fuel 11 (bytes_of be64 (float_of_time sec nsec) ++ (0 ∷ 0 ∷ [])) (date sec nsec)
        (omega arith)
        (λ rest pos. date-eq sec nsec rest pos fits ∙ moved (date sec nsec) rest _ _ (omega arith))
  encode-Reads (boolean true) (suc fuel) fits deep =
      marked-Reads fuel 1 (1 ∷ []) (boolean true) (omega arith) (boolean-eq true)
  encode-Reads (boolean false) (suc fuel) fits deep =
      marked-Reads fuel 1 (0 ∷ []) (boolean false) (omega arith) (boolean-eq false)
  encode-Reads null (suc fuel) fits deep =
      marked-Reads fuel 5 [] null (omega arith)
        (λ rest pos. moved null rest pos (pos + 0) (omega arith))

  entries-eq :
      (fs : Fields) (fuel : ℕ) (ms : EntryMessages) (loop : ℕ) (acc : Fields) (rest : List ℕ)
      (pos : ℕ)
      → FieldsFit fs
      → depth_fields fs < fuel
      → IsApart acc fs
      → field_count fs < loop
      → parse_entries
          (parse_val fuel)
          ms
          loop
          acc
          (at (encode_entries fs ++ (object_end ++ rest)) pos)
        ≡ ok (
          append_fields acc (fields_read fs),
          at (9 ∷ rest) (pos + length (encode_entries fs) + 2),
        )
  entries-eq fs fuel ms zero acc rest pos fits deep apart few = absurd (omega arith)
  entries-eq end fuel ms (suc loop) acc rest pos fits deep apart few =
      last-eq (parse_val fuel) ms loop acc rest pos
      ∙ ap₂ (λ (o : Fields) (n : ℕ). ok (o, at (9 ∷ rest) n)) (sym (append_fields-end acc))
          (omega arith)
  entries-eq (field k v fs) fuel ms (suc loop) acc rest pos (some_key, short, new, fit, fits) deep
        apart few =
      let cut : length k % 2 ^ 16 ≡ length k = omega arith in
      let tail : List ℕ = encode_entries fs ++ (object_end ++ rest) in
      ap₂
        (λ (n : ℕ) (body : List ℕ).
          parse_entries (parse_val fuel) ms (suc loop) acc (at (bytes_of be16 n ++ body) pos))
        cut (entry_body k (encode v) (encode_entries fs) (object_end ++ rest))
      ∙ entry-eq (parse_val fuel) ms loop acc k (encode v ++ tail) tail (as_read v) pos
          (pos + 2 + length k + length (encode v)) some_key short
          (encode-Reads v fuel fit (omega arith) tail (pos + 2 + length k))
      ∙ ap
          (λ (o : Fields).
            parse_entries (parse_val fuel) ms loop o
              (at tail (pos + 2 + length k + length (encode v))))
          (put_field-new acc k v (as_read v) fs apart)
      ∙ entries-eq fs fuel ms loop (append_fields acc (field k (as_read v) end)) rest
          (pos + 2 + length k + length (encode v)) fits (omega arith)
          (IsApart-next acc k v (as_read v) fs apart new) (omega arith)
      ∙ ap₂ (λ (o : Fields) (n : ℕ). ok (o, at (9 ∷ rest) n))
          (append_fields_assoc acc k (as_read v) (fields_read fs))
          (omega (
            arith,
            length-append k (encode v ++ encode_entries fs),
            length-append (encode v) (encode_entries fs),
          ))

  items-eq :
      (vs : Items) (fuel : ℕ) (rest : List ℕ) (pos : ℕ)
      → ItemsFit vs
      → depth_items vs < fuel
      → parse_items (parse_val fuel) (item_count vs) (at (encode_items vs ++ rest) pos)
        ≡ ok (items_read vs, at rest (pos + length (encode_items vs)))
  items-eq nil fuel rest pos fits deep = moved nil rest pos (pos + 0) (omega arith)
  items-eq (item v vs) fuel rest pos (fit, fits) deep =
      rw
        (
          append_assoc (encode v) (encode_items vs) rest,
          encode-Reads v fuel fit (omega arith) (encode_items vs ++ rest) pos,
          items-eq vs fuel rest (pos + length (encode v)) fits (omega arith),
        )
        (moved _ rest _ _ (omega (arith, length-append (encode v) (encode_items vs))))

pub parse_amf0_val-encode :
    (v : Amf) (rest : List ℕ)
    → Fits v
    → parse_amf0_val (encode v ++ rest)
      ≡ ok (as_read v, record { rest = rest; pos = len_amf0_val v })
unfolding parse_amf0_val
parse_amf0_val-encode v rest fits =
    encode-Reads v (suc (length (encode v ++ rest))) fits
      (omega (arith, depth-lt v fits, length-append (encode v) rest)) rest 0
    ∙ moved (as_read v) rest _ _ (omega (arith, length-encode v))

-- `FillAMF0Val` writes any value that fits the format at the start of a buffer, into as many bytes
-- as `LenAMF0Val` says; `ParseAMF0Val` reads the value back from that buffer, up to the same
-- position, whatever follows. An ECMA array comes back as an object. That a value
-- fits says of a date that it is of whole milliseconds, from 2 ^ 40 up to 2 ^ 41 of them; a number is
-- the pattern of its float.
pub parse_amf0_val-fill_amf0_val :
    (v : Amf) (room rest : List ℕ)
    → Fits v
    → length room ≡ len_amf0_val v
    → (b : List ℕ) × (fill_amf0_val v (room ++ rest) 0 ≡ some (b, len_amf0_val v))
      × (parse_amf0_val b ≡ ok (as_read v, record { rest = rest; pos = len_amf0_val v }))
parse_amf0_val-fill_amf0_val v room rest fits e = (
  encode v ++ rest,
  fill_amf0_val-encode v [] room rest e ∙ ap (λ (n : ℕ). some (encode v ++ rest, n)) (omega arith),
  parse_amf0_val-encode v rest fits,
)
