-- ===== src/Flv/Amf0/Steps.antt =====
-- One step of `parseAMF0Val` on the bytes that `FillAMF0Val` writes.
use mse.Common.{
  ℕ, suc, ◌+◌, ◌^◌, ◌<◌, ◌≡◌, refl, ap, arith, Bool, true, false, List, ◌∷◌, ◌++◌, ◌==◌,
}
use mse.Common.{if◌then◌else◌, length, length-append}
use mse.Common.Outcome.{Outcome, ok}
use mse.Pio.Layout.{byte, be16, be32, be64}
use mse.Pio.Cursor.{bytes_of}
use mse.Pio.Fetch.{Cursor, Trace, wrap, need-ok, fetch-bytes_of, fetch_bytes-append}
use mse.Flv.Amf0.Date.{float_of_time}
use mse.Flv.Amf0.Date.RoundTrip.{DateFits, float_of_time-bound, time_of_float-float_of_time}
use mse.Flv.Amf0.{Amf, number, text, array, date, boolean, Fields, Items}
use mse.Flv.Amf0.Encode.{object_end}
use mse.Flv.Amf0.Parse.{
  Message, Result, put_field, EntryMessages, array_messages, parse_entries, parse_object,
  parse_items, parse_number, parse_boolean, parse_string, parse_long_string, parse_ecma_array,
  parse_strict_array, parse_date, parse_marked, parse_val, marker, number_bytes, date_bytes,
  boolean_byte, string_length, string_body, long_string_length, long_string_body, array_count,
  strict_array_count,
}

abbrev pub at : List ℕ → ℕ → Cursor
at rest pos = record { rest = rest; pos = pos }

pub moved :
    {A : Type 0} (x : A) (rest : List ℕ) (p q : ℕ)
    → p ≡ q
    → ◌≡◌ {A = Outcome (List (Message × ℕ)) (A × Cursor)} (ok (x, at rest p)) (ok (x, at rest q))
moved x rest p q e = ap (λ (n : ℕ). ok (x, at rest n)) e

pub parse_val-marker :
    (fuel m : ℕ) (body : List ℕ) (pos : ℕ)
    → m < 2 ^ 8
    → parse_val (suc fuel) (at (bytes_of byte m ++ body) pos)
      ≡ parse_marked (parse_val fuel) m (at body (pos + 1))
unfolding parse_val
parse_val-marker fuel m body pos small =
    rw
      (
        need-ok 1 marker (at (bytes_of byte m ++ body) pos) (omega arith),
        fetch-bytes_of {E = Trace Message} byte m body pos small,
      )
      refl

pub number-eq :
    (f : ℕ) (rest : List ℕ) (pos : ℕ)
    → f < 2 ^ 64
    → parse_number (at (bytes_of be64 f ++ rest) pos) ≡ ok (number f, at rest (pos + 8))
unfolding parse_number
number-eq f rest pos fits =
    rw
      (
        need-ok 8 number_bytes (at (bytes_of be64 f ++ rest) pos) (omega arith),
        fetch-bytes_of {E = Trace Message} be64 f rest pos fits,
      )
      refl

pub date-eq :
    (sec nsec : ℕ) (rest : List ℕ) (pos : ℕ)
    → DateFits sec nsec
    → parse_date (at (bytes_of be64 (float_of_time sec nsec) ++ (0 ∷ 0 ∷ rest)) pos)
      ≡ ok (date sec nsec, at rest (pos + 8 + 2))
unfolding parse_date
date-eq sec nsec rest pos fits =
    let f : ℕ = float_of_time sec nsec in
    rw
      (
        need-ok 10 date_bytes (at (bytes_of be64 f ++ (0 ∷ 0 ∷ rest)) pos) (omega arith),
        fetch-bytes_of {E = Trace Message} be64 f (0 ∷ 0 ∷ rest) pos
            (float_of_time-bound sec nsec fits),
        time_of_float-float_of_time sec nsec fits,
      )
      refl

pub boolean-eq :
    (b : Bool) (rest : List ℕ) (pos : ℕ)
    → parse_boolean (at ((if b then 1 else 0) ∷ rest) pos) ≡ ok (boolean b, at rest (pos + 1))
unfolding parse_boolean
boolean-eq true rest pos =
    rw
      (
        need-ok 1 boolean_byte (at (1 ∷ rest) pos) (omega arith),
        fetch-bytes_of {E = Trace Message} byte 1 rest pos (omega arith),
      )
      refl
boolean-eq false rest pos =
    rw
      (
        need-ok 1 boolean_byte (at (0 ∷ rest) pos) (omega arith),
        fetch-bytes_of {E = Trace Message} byte 0 rest pos (omega arith),
      )
      refl

pub string-eq :
    (s rest : List ℕ) (pos : ℕ)
    → length s < 65536
    → parse_string (at (bytes_of be16 (length s) ++ (s ++ rest)) pos)
      ≡ ok (text s, at rest (pos + 2 + length s))
unfolding parse_string
string-eq s rest pos small =
    rw
      (
        need-ok 2 string_length (at (bytes_of be16 (length s) ++ (s ++ rest)) pos) (omega arith),
        fetch-bytes_of {E = Trace Message} be16 (length s) (s ++ rest) pos small,
        need-ok (length s) string_body (at (s ++ rest) (pos + 2))
            (omega (arith, length-append s rest)),
        fetch_bytes-append {E = Trace Message} s rest (pos + 2),
      )
      refl

pub long_string-eq :
    (s rest : List ℕ) (pos : ℕ)
    → length s < 2 ^ 32
    → parse_long_string (at (bytes_of be32 (length s) ++ (s ++ rest)) pos)
      ≡ ok (text s, at rest (pos + 4 + length s))
unfolding parse_long_string
long_string-eq s rest pos small =
    rw
      (
        need-ok 4 long_string_length (at (bytes_of be32 (length s) ++ (s ++ rest)) pos)
            (omega arith),
        fetch-bytes_of {E = Trace Message} be32 (length s) (s ++ rest) pos small,
        need-ok (length s) long_string_body (at (s ++ rest) (pos + 4))
            (omega (arith, length-append s rest)),
        fetch_bytes-append {E = Trace Message} s rest (pos + 4),
      )
      refl

-- One round of the loop over entries.
pub entry-eq :
    (val : Cursor → Result Amf) (ms : EntryMessages) (fuel : ℕ) (obj : Fields)
    (k body rest : List ℕ) (v : Amf) (pos q : ℕ)
    → 0 < length k
    → length k < 65536
    → val (at body (pos + 2 + length k)) ≡ ok (v, at rest q)
    → parse_entries val ms (suc fuel) obj (at (bytes_of be16 (length k) ++ (k ++ body)) pos)
      ≡ parse_entries val ms fuel (put_field k v obj) (at rest q)
unfolding parse_entries wrap
entry-eq val ms fuel obj k body rest v pos q some_key short e =
    rw
      (
        need-ok 2 ms.key_length (at (bytes_of be16 (length k) ++ (k ++ body)) pos) (omega arith),
        fetch-bytes_of {E = Trace Message} be16 (length k) (k ++ body) pos short,
        not_empty,
        need-ok (length k) ms.key_body (at (k ++ body) (pos + 2))
            (omega (arith, length-append k body)),
        fetch_bytes-append {E = Trace Message} k body (pos + 2),
        e,
      )
      refl
  where
    not_empty : (length k == 0) ≡ false
    not_empty = ground arith

pub last-eq :
    (val : Cursor → Result Amf) (ms : EntryMessages) (fuel : ℕ) (obj : Fields) (rest : List ℕ)
    (pos : ℕ)
    → parse_entries val ms (suc fuel) obj (at (object_end ++ rest) pos)
      ≡ ok (obj, at (9 ∷ rest) (pos + 2))
unfolding parse_entries
last-eq val ms fuel obj rest pos =
    rw
      (
        need-ok 2 ms.key_length (at (object_end ++ rest) pos) (omega arith),
        fetch-bytes_of {E = Trace Message} be16 0 (9 ∷ rest) pos (omega arith),
      )
      refl

pub ecma-eq :
    (val : Cursor → Result Amf) (n : ℕ) (body : List ℕ) (pos : ℕ)
    → parse_ecma_array val (at (bytes_of be32 n ++ body) pos)
      ≡ parse_object val array_messages (at body (pos + 4))
unfolding parse_ecma_array
ecma-eq val n body pos =
    rw (need-ok 4 array_count (at (bytes_of be32 n ++ body) pos) (omega arith)) refl

pub strict-eq :
    (val : Cursor → Result Amf) (vs : Items) (n : ℕ) (body rest : List ℕ) (pos q : ℕ)
    → n < 2 ^ 32
    → parse_items val n (at body (pos + 4)) ≡ ok (vs, at rest q)
    → parse_strict_array val (at (bytes_of be32 n ++ body) pos) ≡ ok (array vs, at rest q)
unfolding parse_strict_array
strict-eq val vs n body rest pos q small e =
    rw
      (
        need-ok 4 strict_array_count (at (bytes_of be32 n ++ body) pos) (omega arith),
        fetch-bytes_of {E = Trace Message} be32 n body pos small,
        e,
      )
      refl
