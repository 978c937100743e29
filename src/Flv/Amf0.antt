-- ===== src/Flv/Amf0.antt =====
-- format/flv/flvio/amf0.go: the values of AMF0 and their bytes. A Go number is the bit pattern of
-- the `float64` that it converts to; a date is the pattern of its seconds and its nanoseconds within
-- the second; a text is the list of its bytes. A Go map is the list of its entries in the order in
-- which `range` gives them.
pub mod Date
pub mod Parse
pub mod Encode
pub mod Wire
pub mod Steps
pub mod RoundTrip
pub mod Total
use mse.Common.{ℕ, zero, suc, ◌+◌, ◌^◌, ◌%◌, Bool, true, false, List, [], ◌∷◌, Option, none, some}
use mse.Common.{ltb, leb, ◌==◌, if◌then◌else◌, length}
use mse.Flv.Amf0.Date.{float_of_time}
use mse.Pio.Layout.{byte, be16, be24, be32, be64}
use mse.Pio.Cursor.{Write, ◌then_write◌, write, write_copy, write_nothing}

-- The dynamic types of the `switch`: `ecma` is `AMFECMAArray`, `object` is `AMFMap`, `array` is
-- `AMFArray`, `null` is nil.
mutual
  pub data Amf : Type 0 where
    number : ℕ → Amf
    text : List ℕ → Amf
    ecma : Fields → Amf
    object : Fields → Amf
    array : Items → Amf
    date : (seconds nanoseconds : ℕ) → Amf
    boolean : Bool → Amf
    null : Amf

  pub data Fields : Type 0 where
    end : Fields
    field : List ℕ → Amf → Fields → Fields

  pub data Items : Type 0 where
    nil : Items
    item : Amf → Items → Items

-- `len(val)`
abbrev pub field_count : Fields → ℕ
field_count end = 0
field_count (field k v fs) = suc (field_count fs)

abbrev pub item_count : Items → ℕ
item_count nil = 0
item_count (item v vs) = suc (item_count vs)

-- `LenAMF0Val`, and its loops over the entries of an `AMFECMAArray`, of an `AMFMap`, which leaves
-- out empty keys, and of an `AMFArray`
unfoldable mutual
  pub len_amf0_val : Amf → ℕ
  len_amf0_val (number f) = 9
  len_amf0_val (text s) = (if leb (length s) 65536 then 3 else 5) + length s
  len_amf0_val (ecma fs) = 5 + len_entries fs + 3
  len_amf0_val (object fs) = 1 + len_named fs + 3
  len_amf0_val (array vs) = 5 + len_items vs
  len_amf0_val (date sec nsec) = 1 + 8 + 2
  len_amf0_val (boolean b) = 2
  len_amf0_val null = 1

  pub len_entries : Fields → ℕ
  len_entries end = 0
  len_entries (field k v fs) = 2 + length k + len_amf0_val v + len_entries fs

  pub len_named : Fields → ℕ
  len_named end = 0
  len_named (field k v fs) =
      (if ltb 0 (length k) then 2 + length k + len_amf0_val v else 0) + len_named fs

  pub len_items : Items → ℕ
  len_items nil = 0
  len_items (item v vs) = len_amf0_val v + len_items vs

-- `b[n] = marker; n++`
abbrev pub write_byte : ℕ → Write
write_byte = write byte

-- `FillAMF0Val` and its loops
unfoldable mutual
  pub fill_amf0_val : Amf → Write
  fill_amf0_val (number f) = write_byte 0 then_write write be64 f
  fill_amf0_val (text s) =
      (if leb (length s) 65536
        then write_byte 2 then_write write be16 (length s % 2 ^ 16)
        else (write_byte 12 then_write write be32 (length s % 2 ^ 32)))
      then_write write_copy s
  fill_amf0_val (ecma fs) =
      write_byte 8
      then_write write be32 (field_count fs % 2 ^ 32)
      then_write fill_entries fs
      then_write write be24 9
  fill_amf0_val (object fs) = write_byte 3 then_write fill_named fs then_write write be24 9
  fill_amf0_val (array vs) =
      write_byte 10 then_write write be32 (item_count vs % 2 ^ 32) then_write fill_items vs
  fill_amf0_val (date sec nsec) =
      write_byte 11 then_write write be64 (float_of_time sec nsec) then_write write be16 0
  fill_amf0_val (boolean b) = write_byte 1 then_write write_byte (if b then 1 else 0)
  fill_amf0_val null = write_byte 5

  pub fill_entries : Fields → Write
  fill_entries end = write_nothing
  fill_entries (field k v fs) =
      write be16 (length k % 2 ^ 16)
      then_write write_copy k
      then_write fill_amf0_val v
      then_write fill_entries fs

  pub fill_named : Fields → Write
  fill_named end = write_nothing
  fill_named (field k v fs) =
      (if ltb 0 (length k)
        then write be16 (length k % 2 ^ 16) then_write write_copy k then_write fill_amf0_val v
        else write_nothing)
      then_write fill_named fs

  pub fill_items : Items → Write
  fill_items nil = write_nothing
  fill_items (item v vs) = fill_amf0_val v then_write fill_items vs
