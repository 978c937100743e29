-- ===== src/Flv/Amf0/Parse.antt =====
-- `parseAMF0Val` of format/flv/flvio/amf0.go. The cursor holds `b[n:]` and `offset+n`. The error is
-- the chain of `AMF0ParseError`s. `panic` is also what too little fuel gives.
use mse.Common.{
  ℕ, zero, suc, not, ◌&&◌, Bool, true, false, List, [], ◌∷◌, ◌==◌, if◌then◌else◌, length,
}
use mse.Common.Outcome.{Outcome, ok, err, panic, ◌>>=◌, ◌>>◌}
use mse.Pio.Layout.{byte, be16, be32, be64}
use mse.Pio.Fetch.{Cursor, advance, Trace, need, fetch, fetch_bytes, wrap}
use mse.Flv.Amf0.Date.{time_of_float}
use mse.Flv.Amf0.{
  Amf, number, text, object, array, date, boolean, null, Fields, end, field, Items, nil, item,
}

-- the message of an `AMF0ParseError`
pub data Message : Type 0 where
  marker number_bytes boolean_byte string_length string_body object_key_length : Message
  object_key_body object_val object_last array_count array_key_length array_key_body : Message
  array_val array_last object_end_bytes strict_array_count strict_array_val date_bytes : Message
  long_string_length long_string_body : Message
  invalid_marker : ℕ → Message

abbrev pub Result : Type 0 → Type 0
Result A = Outcome (Trace Message) (A × Cursor)

unfoldable pub same_key : List ℕ → List ℕ → Bool
same_key [] [] = true
same_key [] (y ∷ ys) = false
same_key (x ∷ xs) [] = false
same_key (x ∷ xs) (y ∷ ys) = x == y && same_key xs ys

-- `obj[key] = val`
unfoldable pub put_field : List ℕ → Amf → Fields → Fields
put_field k v end = field k v end
put_field k v (field j w fs) =
    let others = field j w (put_field k v fs) in if same_key j k then field k v fs else others

-- the messages of the two loops over entries
pub record EntryMessages : Type 0 where
  pub key_length : Message
  pub key_body : Message
  pub val : Message
  pub last : Message

abbrev pub object_messages : EntryMessages
object_messages = record {
  key_length = object_key_length;
  key_body = object_key_body;
  val = object_val;
  last = object_last;
}

abbrev pub array_messages : EntryMessages
array_messages = record {
  key_length = array_key_length;
  key_body = array_key_body;
  val = array_val;
  last = array_last;
}

-- The loop over the entries of an object or of an ECMA array, with the entries so far.
unfoldable pub parse_entries :
    (Cursor → Result Amf) → EntryMessages → ℕ → Fields → Cursor → Result Fields
parse_entries val ms zero obj c = panic
parse_entries val ms (suc fuel) obj c = do
  need 2 ms.key_length c
  (length, c1) ← fetch be16 c
  let entry : Result Fields = do
    need length ms.key_body c1
    (key, c2) ← fetch_bytes length c1
    (oval, c3) ← wrap ms.val c2.pos (val c2)
    parse_entries val ms fuel (put_field key oval obj) c3
  if length == 0 then ok (obj, c1) else entry

-- The loop and the last byte behind it. A round takes two bytes or more.
unfoldable pub parse_object : (Cursor → Result Amf) → EntryMessages → Cursor → Result Amf
parse_object val ms c = do
  (obj, c1) ← parse_entries val ms (suc (length c.rest)) end c
  need 1 ms.last c1
  ok (object obj, advance 1 c1)

-- the loop over a strict array
unfoldable pub parse_items : (Cursor → Result Amf) → ℕ → Cursor → Result Items
parse_items val zero c = ok (nil, c)
parse_items val (suc count) c = do
  (v, c1) ← wrap strict_array_val c.pos (val c)
  (vs, c2) ← parse_items val count c1
  ok (item v vs, c2)

unfoldable pub parse_number : Cursor → Result Amf
parse_number c = do need 8 number_bytes c; (f, c1) ← fetch be64 c; ok (number f, c1)

unfoldable pub parse_boolean : Cursor → Result Amf
parse_boolean c = do need 1 boolean_byte c; (x, c1) ← fetch byte c; ok (boolean (not (x == 0)), c1)

unfoldable pub parse_string : Cursor → Result Amf
parse_string c = do
  need 2 string_length c
  (length, c1) ← fetch be16 c
  need length string_body c1
  (s, c2) ← fetch_bytes length c1
  ok (text s, c2)

unfoldable pub parse_long_string : Cursor → Result Amf
parse_long_string c = do
  need 4 long_string_length c
  (length, c1) ← fetch be32 c
  need length long_string_body c1
  (s, c2) ← fetch_bytes length c1
  ok (text s, c2)

unfoldable pub parse_ecma_array : (Cursor → Result Amf) → Cursor → Result Amf
parse_ecma_array val c = do need 4 array_count c; parse_object val array_messages (advance 4 c)

unfoldable pub parse_strict_array : (Cursor → Result Amf) → Cursor → Result Amf
parse_strict_array val c = do
  need 4 strict_array_count c
  (count, c1) ← fetch be32 c
  (vs, c2) ← parse_items val count c1
  ok (array vs, c2)

unfoldable pub parse_date : Cursor → Result Amf
parse_date c = do
  need 10 date_bytes c
  (ts, c1) ← fetch be64 c
  ok (date (time_of_float ts).0 (time_of_float ts).1, advance 2 c1)

unfoldable pub parse_object_end : Cursor → Result Amf
parse_object_end c = do need 3 object_end_bytes c; ok (null, advance 3 c)

-- the `switch`
unfoldable pub parse_marked : (Cursor → Result Amf) → ℕ → Cursor → Result Amf
parse_marked val m c =
    if m == 0
    then parse_number c
    else if m == 1
    then parse_boolean c
    else if m == 2
    then parse_string c
    else if m == 3
    then parse_object val object_messages c
    else if m == 5
    then ok (null, c)
    else if m == 6
    then ok (null, c)
    else if m == 8
    then parse_ecma_array val c
    else if m == 9
    then parse_object_end c
    else if m == 10
    then parse_strict_array val c
    else if m == 11
    then parse_date c
    else if m == 12
    then parse_long_string c
    else err ((invalid_marker m, c.pos) ∷ [])

-- The fuel bounds the depth of the value, each level of which takes a byte or more.
unfoldable pub parse_val : ℕ → Cursor → Result Amf
parse_val zero c = panic
parse_val (suc fuel) c = do
  need 1 marker c
  (m, c1) ← fetch byte c
  parse_marked (parse_val fuel) m c1

-- `ParseAMF0Val`: the number of bytes that it read is the position behind them.
unfoldable pub parse_amf0_val : List ℕ → Result Amf
parse_amf0_val b = parse_val (suc (length b)) (record { rest = b; pos = 0 })
