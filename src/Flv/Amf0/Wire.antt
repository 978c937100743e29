-- ===== src/Flv/Amf0/Wire.antt =====
-- Which values of AMF0 the bytes can hold, and what they come back as.
use mathlib.Core.List.{append_assoc}
use mse.Common.{
  ℕ, suc, ◌+◌, ◌^◌, ◌≤◌, ◌<◌, ◌≡◌, ◌⊎◌, inl, inr, refl, ap, arith, true, false, List, ◌++◌,
}
use mse.Common.{ltb, leb, length, length-append, Bool-cases}
use mse.Flv.Amf0.Date.RoundTrip.{DateFits}
use mse.Flv.Amf0.{
  Amf, number, text, ecma, object, array, date, boolean, null, Fields, end, field, Items, nil, item,
  field_count, item_count,
}
use mse.Flv.Amf0.Encode.{object_end, text_head, encode, encode_entries, encode_named, encode_items}
use mse.Flv.Amf0.Parse.{same_key, put_field}

-- An ECMA array comes back as an object.
unfoldable mutual
  pub as_read : Amf → Amf
  as_read (number f) = number f
  as_read (text s) = text s
  as_read (ecma fs) = object (fields_read fs)
  as_read (object fs) = object (fields_read fs)
  as_read (array vs) = array (items_read vs)
  as_read (date sec nsec) = date sec nsec
  as_read (boolean b) = boolean b
  as_read null = null

  pub fields_read : Fields → Fields
  fields_read end = end
  fields_read (field k v fs) = field k (as_read v) (fields_read fs)

  pub items_read : Items → Items
  items_read nil = nil
  items_read (item v vs) = item (as_read v) (items_read vs)

-- no entry of the key `k`
unfoldable pub IsNewKey : List ℕ → Fields → Type 0
IsNewKey k end = Unit
IsNewKey k (field j v fs) = (same_key k j ≡ false) × IsNewKey k fs

-- The values that the bytes can hold: a text is not of 65,536 bytes, which `FillAMF0Val` takes for
-- a short one, and the keys of a map are different, not empty, and shorter than that;
-- a date is of whole milliseconds and in the years whose floats are shown to come back.
unfoldable mutual
  pub Fits : Amf → Type 0
  Fits (number f) = f < 2 ^ 64
  Fits (text s) = (length s < 65536) ⊎ ((65536 < length s) × (length s < 2 ^ 32))
  Fits (ecma fs) = FieldsFit fs
  Fits (object fs) = FieldsFit fs
  Fits (array vs) = (item_count vs < 2 ^ 32) × ItemsFit vs
  Fits (date sec nsec) = DateFits sec nsec
  Fits (boolean b) = Unit
  Fits null = Unit

  pub FieldsFit : Fields → Type 0
  FieldsFit end = Unit
  FieldsFit (field k v fs) =
      (0 < length k) × (length k < 65536) × IsNewKey k fs × Fits v × FieldsFit fs

  pub ItemsFit : Items → Type 0
  ItemsFit nil = Unit
  ItemsFit (item v vs) = Fits v × ItemsFit vs

unfoldable mutual
  pub depth : Amf → ℕ
  depth (number f) = 0
  depth (text s) = 0
  depth (ecma fs) = suc (depth_fields fs)
  depth (object fs) = suc (depth_fields fs)
  depth (array vs) = suc (depth_items vs)
  depth (date sec nsec) = 0
  depth (boolean b) = 0
  depth null = 0

  pub depth_fields : Fields → ℕ
  depth_fields end = 0
  depth_fields (field k v fs) = depth v + depth_fields fs

  pub depth_items : Items → ℕ
  depth_items nil = 0
  depth_items (item v vs) = depth v + depth_items vs

unfoldable pub append_fields : Fields → Fields → Fields
append_fields end gs = gs
append_fields (field k v fs) gs = field k v (append_fields fs gs)

-- no key of the first among those of the second
unfoldable pub IsApart : Fields → Fields → Type 0
IsApart end gs = Unit
IsApart (field k v fs) gs = IsNewKey k gs × IsApart fs gs

pub put_field-new :
    (acc : Fields) (k : List ℕ) (v w : Amf) (fs : Fields)
    → IsApart acc (field k v fs)
    → put_field k w acc ≡ append_fields acc (field k w end)
unfolding put_field append_fields IsApart IsNewKey
put_field-new end k v w fs h = refl
put_field-new (field j u acc) k v w fs h =
    rw h.0.0 (ap (field j u) (put_field-new acc k v w fs h.1))

pub IsApart-next :
    (acc : Fields) (k : List ℕ) (v w : Amf) (fs : Fields)
    → IsApart acc (field k v fs)
    → IsNewKey k fs
    → IsApart (append_fields acc (field k w end)) fs
unfolding append_fields IsApart IsNewKey
IsApart-next end k v w fs h new = (new, tt)
IsApart-next (field j u acc) k v w fs h new = (h.0.1, IsApart-next acc k v w fs h.1 new)

pub append_fields_assoc :
    (acc : Fields) (k : List ℕ) (v : Amf) (gs : Fields)
    → append_fields (append_fields acc (field k v end)) gs ≡ append_fields acc (field k v gs)
unfolding append_fields
append_fields_assoc end k v gs = refl
append_fields_assoc (field j u acc) k v gs = ap (field j u) (append_fields_assoc acc k v gs)

pub append_fields-end : (fs : Fields) → append_fields fs end ≡ fs
unfolding append_fields
append_fields-end end = refl
append_fields-end (field k v fs) = ap (field k v) (append_fields-end fs)

pub named-entries : (fs : Fields) → FieldsFit fs → encode_named fs ≡ encode_entries fs
unfolding encode FieldsFit
named-entries end h = refl
named-entries (field k v fs) (some_key, h0, h1, h2, h) =
    let not_empty : ltb 0 (length k) ≡ true = ground arith in
    rw (not_empty, named-entries fs h) (simp append_assoc)

pub count-le : (fs : Fields) → field_count fs ≤ length (encode_entries fs)
unfolding encode
count-le end = omega arith
count-le (field k v fs) = omega (
  arith,
  count-le fs,
  length-append k (encode v ++ encode_entries fs),
  length-append (encode v) (encode_entries fs),
)

text_head_pos : (n : ℕ) → 0 < length (text_head n)
text_head_pos n = elim (Bool-cases (leb n 65536)) [
  | inl e ↦ rw e (omega arith)
  | inr e ↦ rw e (omega arith)
]

-- Each level of a value takes a byte.
mutual
  unfolding depth encode Fits

  pub depth-lt : (v : Amf) → Fits v → depth v < length (encode v)
  depth-lt (number f) h = omega arith
  depth-lt (text s) h =
      omega (arith, text_head_pos (length s), length-append (text_head (length s)) s)
  depth-lt (ecma fs) h =
      omega (arith, depth_entries fs h, length-append (encode_entries fs) object_end)
  depth-lt (object fs) h =
      rw (named-entries fs h)
        (omega (arith, depth_entries fs h, length-append (encode_entries fs) object_end))
  depth-lt (array vs) h = omega (arith, depth_list vs h.1)
  depth-lt (date sec nsec) h = omega arith
  depth-lt (boolean b) h = omega arith
  depth-lt null h = omega arith

  depth_entries : (fs : Fields) → FieldsFit fs → depth_fields fs ≤ length (encode_entries fs)
  depth_entries end h = omega arith
  depth_entries (field k v fs) (some_key, short, new, fit, fits) = omega (
    arith,
    depth-lt v fit,
    depth_entries fs fits,
    length-append k (encode v ++ encode_entries fs),
    length-append (encode v) (encode_entries fs),
  )

  depth_list : (vs : Items) → ItemsFit vs → depth_items vs ≤ length (encode_items vs)
  depth_list nil h = omega arith
  depth_list (item v vs) (fit, fits) =
      omega (arith, depth-lt v fit, depth_list vs fits, length-append (encode v) (encode_items vs))
