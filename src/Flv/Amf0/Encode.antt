-- ===== src/Flv/Amf0/Encode.antt =====
-- The bytes of an AMF0 value, for `FillAMF0Val` and `LenAMF0Val`.
use mse.Common.{
  ℕ, ◌+◌, ◌^◌, ◌%◌, ◌≡◌, refl, sym, ap, ◌∙◌, arith, Bool, true, false, List, [], ◌++◌, some,
}
use mse.Common.{ltb, leb, if◌then◌else◌, length, length-append}
use mse.Pio.Layout.{byte, be16, be24, be32, be64}
use mse.Pio.Cursor.{
  bytes_of, Writes, nothing-Writes, write-Writes, copy-Writes, then-Writes, if-Writes, Writes-room,
}
use mse.Flv.Amf0.Date.{float_of_time}
use mse.Flv.Amf0.{
  Amf, number, text, ecma, object, array, date, boolean, null, Fields, end, field, Items, nil, item,
  field_count, item_count, len_amf0_val, len_entries, len_named, len_items, fill_amf0_val,
  fill_entries, fill_named, fill_items,
}

-- two bytes 0 and the marker 9
abbrev pub object_end : List ℕ
object_end = bytes_of be24 9

-- the length of a key and the key
abbrev pub key_bytes : List ℕ → List ℕ
key_bytes k = bytes_of be16 (length k % 2 ^ 16) ++ k

abbrev pub text_head : ℕ → List ℕ
text_head n =
    if leb n 65536
    then bytes_of byte 2 ++ bytes_of be16 (n % 2 ^ 16)
    else bytes_of byte 12 ++ bytes_of be32 (n % 2 ^ 32)

unfoldable mutual
  pub encode : Amf → List ℕ
  encode (number f) = bytes_of byte 0 ++ bytes_of be64 f
  encode (text s) = text_head (length s) ++ s
  encode (ecma fs) =
      bytes_of byte 8
      ++ (bytes_of be32 (field_count fs % 2 ^ 32) ++ (encode_entries fs ++ object_end))
  encode (object fs) = bytes_of byte 3 ++ (encode_named fs ++ object_end)
  encode (array vs) =
      bytes_of byte 10 ++ (bytes_of be32 (item_count vs % 2 ^ 32) ++ encode_items vs)
  encode (date sec nsec) =
      bytes_of byte 11 ++ (bytes_of be64 (float_of_time sec nsec) ++ bytes_of be16 0)
  encode (boolean b) = bytes_of byte 1 ++ bytes_of byte (if b then 1 else 0)
  encode null = bytes_of byte 5

  pub encode_entries : Fields → List ℕ
  encode_entries end = []
  encode_entries (field k v fs) =
      bytes_of be16 (length k % 2 ^ 16) ++ (k ++ (encode v ++ encode_entries fs))

  pub encode_named : Fields → List ℕ
  encode_named end = []
  encode_named (field k v fs) =
      (if ltb 0 (length k) then bytes_of be16 (length k % 2 ^ 16) ++ (k ++ encode v) else [])
      ++ encode_named fs

  pub encode_items : Items → List ℕ
  encode_items nil = []
  encode_items (item v vs) = encode v ++ encode_items vs

mutual
  unfolding encode fill_amf0_val

  pub fill-Writes : (v : Amf) → Writes (fill_amf0_val v) (encode v)
  fill-Writes (number f) = then-Writes (write-Writes byte 0) (write-Writes be64 f)
  fill-Writes (text s) =
      then-Writes
        (if-Writes (leb (length s) 65536)
          (then-Writes (write-Writes byte 2) (write-Writes be16 (length s % 2 ^ 16)))
          (then-Writes (write-Writes byte 12) (write-Writes be32 (length s % 2 ^ 32))))
        (copy-Writes s)
  fill-Writes (ecma fs) = then-Writes (write-Writes byte 8) (
      then-Writes (write-Writes be32 (field_count fs % 2 ^ 32))
        (then-Writes (fill_entries-Writes fs) (write-Writes be24 9)))
  fill-Writes (object fs) =
      then-Writes (write-Writes byte 3) (then-Writes (fill_named-Writes fs) (write-Writes be24 9))
  fill-Writes (array vs) =
      then-Writes (write-Writes byte 10)
        (then-Writes (write-Writes be32 (item_count vs % 2 ^ 32)) (fill_items-Writes vs))
  fill-Writes (date sec nsec) =
      then-Writes (write-Writes byte 11)
        (then-Writes (write-Writes be64 (float_of_time sec nsec)) (write-Writes be16 0))
  fill-Writes (boolean b) =
      then-Writes (write-Writes byte 1) (write-Writes byte (if b then 1 else 0))
  fill-Writes null = write-Writes byte 5

  fill_entries-Writes : (fs : Fields) → Writes (fill_entries fs) (encode_entries fs)
  fill_entries-Writes end = nothing-Writes
  fill_entries-Writes (field k v fs) =
      then-Writes (write-Writes be16 (length k % 2 ^ 16))
        (then-Writes (copy-Writes k) (then-Writes (fill-Writes v) (fill_entries-Writes fs)))

  fill_named-Writes : (fs : Fields) → Writes (fill_named fs) (encode_named fs)
  fill_named-Writes end = nothing-Writes
  fill_named-Writes (field k v fs) =
      then-Writes
        (if-Writes (ltb 0 (length k))
          (then-Writes (write-Writes be16 (length k % 2 ^ 16))
            (then-Writes (copy-Writes k) (fill-Writes v)))
          nothing-Writes)
        (fill_named-Writes fs)

  fill_items-Writes : (vs : Items) → Writes (fill_items vs) (encode_items vs)
  fill_items-Writes nil = nothing-Writes
  fill_items-Writes (item v vs) = then-Writes (fill-Writes v) (fill_items-Writes vs)

length_if :
    (b : Bool) (xs ys : List ℕ)
    → length (if b then xs else ys) ≡ (if b then length xs else length ys)
length_if true xs ys = refl
length_if false xs ys = refl

named_length :
    (b : Bool) (k xs : List ℕ) (n : ℕ)
    → length xs ≡ n
    → length (if b then bytes_of be16 (length k % 2 ^ 16) ++ (k ++ xs) else [])
      ≡ (if b then 2 + length k + n else 0)
named_length true k xs n e = omega (arith, length-append k xs, e)
named_length false k xs n e = refl

mutual
  unfolding encode len_amf0_val

  pub length-encode : (v : Amf) → length (encode v) ≡ len_amf0_val v
  length-encode (number f) = refl
  length-encode (text s) = ground (arith, length-append (text_head (length s)) s)
  length-encode (ecma fs) =
      omega (arith, length_entries fs, length-append (encode_entries fs) object_end)
  length-encode (object fs) =
      omega (arith, length_named fs, length-append (encode_named fs) object_end)
  length-encode (array vs) = omega (arith, length_items vs)
  length-encode (date sec nsec) = refl
  length-encode (boolean b) = refl
  length-encode null = refl

  length_entries : (fs : Fields) → length (encode_entries fs) ≡ len_entries fs
  length_entries end = refl
  length_entries (field k v fs) = omega (
    arith,
    length-encode v,
    length_entries fs,
    length-append k (encode v ++ encode_entries fs),
    length-append (encode v) (encode_entries fs),
  )

  length_named : (fs : Fields) → length (encode_named fs) ≡ len_named fs
  length_named end = refl
  length_named (field k v fs) =
      let named : List ℕ = bytes_of be16 (length k % 2 ^ 16) ++ (k ++ encode v) in
      let entry = if ltb 0 (length k) then named else [] in
      omega (
        arith,
        length-append entry (encode_named fs),
        length_named fs,
        named_length (ltb 0 (length k)) k (encode v) (len_amf0_val v) (length-encode v),
      )

  length_items : (vs : Items) → length (encode_items vs) ≡ len_items vs
  length_items nil = refl
  length_items (item v vs) =
      omega (arith, length-append (encode v) (encode_items vs), length-encode v, length_items vs)

-- `FillAMF0Val` on a buffer with room for `LenAMF0Val` bytes behind the position fills in the bytes
-- of the value there and no other, and gives the position behind them.
pub fill_amf0_val-encode :
    (v : Amf) (pre room rest : List ℕ)
    → length room ≡ len_amf0_val v
    → fill_amf0_val v (pre ++ (room ++ rest)) (length pre)
      ≡ some (pre ++ (encode v ++ rest), length pre + len_amf0_val v)
fill_amf0_val-encode v pre room rest e =
    Writes-room (fill-Writes v) pre room rest (e ∙ sym (length-encode v))
    ∙ ap (λ (n : ℕ). some (pre ++ (encode v ++ rest), length pre + n)) (length-encode v)
