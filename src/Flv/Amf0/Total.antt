-- ===== src/Flv/Amf0/Total.antt =====
-- How `ParseAMF0Val` stays inside its buffer, on any bytes, and the fuel that it needs.
use mse.Common.{ℕ, zero, suc, ◌+◌, ◌-◌, ◌<◌, ◌≡◌, ◌⊎◌, refl, arith, List, ◌==◌}
use mse.Common.{length, drop, length-drop, Bool-cases, inl, inr}
use mse.Common.Outcome.{ok, err, panic, ◌>>=◌, ◌>>◌}
use mse.Pio.Layout.{byte, be16, be32, be64}
use mse.Pio.Fetch.{Cursor, advance, need, fetch, fetch_bytes, wrap, get-Found}
use mse.Pio.Bounds.{
  Inside, Within, advance-Inside, bind-Within, require-Within, fetch-Within, fetch_bytes-Within,
  if-Within,
}
use mse.Flv.Amf0.{Amf, text, Fields, end}
use mse.Flv.Amf0.Parse.{
  Message, Result, put_field, EntryMessages, object_messages, array_messages, parse_entries,
  parse_object, parse_items, parse_number, parse_boolean, parse_string, parse_long_string,
  parse_ecma_array, parse_strict_array, parse_date, parse_object_end, parse_marked, parse_val,
  parse_amf0_val,
}

wrap-Within :
    {A : Type 0} (e room : ℕ) (m : Message) (p : ℕ) (r : Result A)
    → Within e room r
    → Within e room (wrap m p r)
unfolding wrap
wrap-Within e room m p (ok x) h = h
wrap-Within e room m p (err x) h = tt
wrap-Within e room m p panic h = h

number-Within : (e room : ℕ) (c : Cursor) → Inside e room c → Within e room (parse_number c)
unfolding parse_number
number-Within e room c h = require-Within e room 8 _ c _ (λ enough.
    bind-Within e (room - 8) room (fetch be64 c) _ (fetch-Within _ e room be64 c h enough)
      (λ f c1 h1. omega arith))

boolean-Within : (e room : ℕ) (c : Cursor) → Inside e room c → Within e room (parse_boolean c)
unfolding parse_boolean
boolean-Within e room c h = require-Within e room 1 _ c _ (λ enough.
    bind-Within e (room - 1) room (fetch byte c) _ (fetch-Within _ e room byte c h enough)
      (λ x c1 h1. omega arith))

date-Within : (e room : ℕ) (c : Cursor) → Inside e room c → Within e room (parse_date c)
unfolding parse_date fetch
date-Within e room c h = require-Within e room 10 _ c _ (λ enough.
    let (f, found) = get-Found be64 c.rest (omega arith) in
    rw (found, fetch) (omega (arith, length-drop 8 c.rest, length-drop 2 (drop 8 c.rest))))

body-Within :
    (e room : ℕ) (m : Message) (k : ℕ) (c : Cursor)
    → Inside e room c
    → Within e room (need k m c >> (fetch_bytes k c >>= λ x. ok (text x.0, x.1)))
body-Within e room m k c h = require-Within e room k _ c _ (λ enough.
    bind-Within e room room (fetch_bytes k c) _ (fetch_bytes-Within _ e room k c h enough)
      (λ s c1 h1. omega arith))

string-Within : (e room : ℕ) (c : Cursor) → Inside e room c → Within e room (parse_string c)
unfolding parse_string
string-Within e room c h = require-Within e room 2 _ c _ (λ enough.
    bind-Within e (room - 2) room (fetch be16 c) _ (fetch-Within _ e room be16 c h enough)
      (λ k c1 h1. body-Within e room _ k c1 (omega arith)))

long_string-Within :
    (e room : ℕ) (c : Cursor) → Inside e room c → Within e room (parse_long_string c)
unfolding parse_long_string
long_string-Within e room c h = require-Within e room 4 _ c _ (λ enough.
    bind-Within e (room - 4) room (fetch be32 c) _ (fetch-Within _ e room be32 c h enough)
      (λ k c1 h1. body-Within e room _ k c1 (omega arith)))

object_end-Within : (e room : ℕ) (c : Cursor) → Inside e room c → Within e room (parse_object_end c)
unfolding parse_object_end
object_end-Within e room c h =
    require-Within e room 3 _ c _ (λ enough. omega (arith, advance-Inside e room 3 c h enough))

-- A parser of the values inside another: good on fewer than `n` bytes.
abbrev Parses : ℕ → ℕ → (Cursor → Result Amf) → Type 0
Parses e n val =
    (room : ℕ) (c : Cursor) → length c.rest < n → Inside e room c → Within e room (val c)

entries-Within :
    (e n : ℕ) (val : Cursor → Result Amf) (ms : EntryMessages) (loop room : ℕ) (obj : Fields)
    (c : Cursor)
    → Parses e n val
    → length c.rest < n
    → length c.rest < loop
    → Inside e room c
    → Within e room (parse_entries val ms loop obj c)
unfolding parse_entries
entries-Within e n val ms zero room obj c good small enough h = absurd (omega arith)
entries-Within e n val ms (suc loop) room obj c good small enough h =
    require-Within e room 2 _ c _ (λ two.
      bind-Within e (length c.rest - 2) room (fetch be16 c) _
        (fetch-Within _ e (length c.rest) be16 c (omega arith) two)
        (λ k c1 h1. elim (Bool-cases (k == 0)) [
          | inl e0 ↦ rw e0 (omega arith)
          | inr e1 ↦ rw e1 (
              require-Within e room k _ c1 _ (λ body.
                bind-Within e (length c1.rest) room (fetch_bytes k c1) _
                  (fetch_bytes-Within _ e (length c1.rest) k c1 (omega arith) body)
                  (λ key c2 h2.
                    bind-Within e (length c2.rest) room (wrap ms.val c2.pos (val c2)) _
                      (wrap-Within e (length c2.rest) _ _ (val c2)
                        (good (length c2.rest) c2 (omega arith) (omega arith)))
                      (λ v c3 h3.
                        entries-Within e n val ms loop room (put_field key v obj) c3 good
                          (omega arith) (omega arith) (omega arith)))))
        ]))

object-Within :
    (e n : ℕ) (val : Cursor → Result Amf) (ms : EntryMessages) (room : ℕ) (c : Cursor)
    → Parses e n val
    → length c.rest < n
    → Inside e room c
    → Within e room (parse_object val ms c)
unfolding parse_object
object-Within e n val ms room c good small h =
    bind-Within e room room (parse_entries val ms (suc (length c.rest)) end c) _
      (entries-Within e n val ms (suc (length c.rest)) room end c good small (omega arith) h)
      (λ obj c1 h1.
        require-Within e room 1 _ c1 _ (λ one. omega (arith, advance-Inside e room 1 c1 h1 one)))

items-Within :
    (e n : ℕ) (val : Cursor → Result Amf) (count room : ℕ) (c : Cursor)
    → Parses e n val
    → length c.rest < n
    → Inside e room c
    → Within e room (parse_items val count c)
unfolding parse_items
items-Within e n val zero room c good small h = h
items-Within e n val (suc count) room c good small h =
    bind-Within e (length c.rest) room (wrap _ c.pos (val c)) _
      (wrap-Within e (length c.rest) _ _ (val c) (good (length c.rest) c small (omega arith)))
      (λ v c1 h1.
        bind-Within e room room (parse_items val count c1) _
          (items-Within e n val count room c1 good (omega arith) (omega arith)) (λ vs c2 h2. h2))

ecma-Within :
    (e n : ℕ) (val : Cursor → Result Amf) (room : ℕ) (c : Cursor)
    → Parses e n val
    → length c.rest < n
    → Inside e room c
    → Within e room (parse_ecma_array val c)
unfolding parse_ecma_array
ecma-Within e n val room c good small h = require-Within e room 4 _ c _ (λ four.
    let ahead = advance-Inside e room 4 c h four in
    object-Within e n val array_messages room (advance 4 c) good
      (omega (arith, length-drop 4 c.rest)) (omega (arith, ahead)))

strict-Within :
    (e n : ℕ) (val : Cursor → Result Amf) (room : ℕ) (c : Cursor)
    → Parses e n val
    → length c.rest < n
    → Inside e room c
    → Within e room (parse_strict_array val c)
unfolding parse_strict_array
strict-Within e n val room c good small h = require-Within e room 4 _ c _ (λ four.
    bind-Within e (length c.rest - 4) room (fetch be32 c) _
      (fetch-Within _ e (length c.rest) be32 c (omega arith) four)
      (λ count c1 h1.
        bind-Within e room room (parse_items val count c1) _
          (items-Within e n val count room c1 good (omega arith) (omega arith)) (λ vs c2 h2. h2)))

marked-Within :
    (e n : ℕ) (val : Cursor → Result Amf) (m room : ℕ) (c : Cursor)
    → Parses e n val
    → length c.rest < n
    → Inside e room c
    → Within e room (parse_marked val m c)
unfolding parse_marked
marked-Within e n val m room c good small h =
    if-Within e room (m == 0) _ _ (number-Within e room c h) (
      if-Within e room (m == 1) _ _ (boolean-Within e room c h) (
        if-Within e room (m == 2) _ _ (string-Within e room c h) (
          if-Within e room (m == 3) _ _ (object-Within e n val object_messages room c good small h)
            (if-Within e room (m == 5) _ _ h (
              if-Within e room (m == 6) _ _ h (
                if-Within e room (m == 8) _ _ (ecma-Within e n val room c good small h) (
                  if-Within e room (m == 9) _ _ (object_end-Within e room c h) (
                    if-Within e room (m == 10) _ _ (strict-Within e n val room c good small h) (
                      if-Within e room (m == 11) _ _ (date-Within e room c h)
                        (if-Within e room (m == 12) _ _ (long_string-Within e room c h) tt))))))))))

val-Within : (e fuel : ℕ) → Parses e fuel (parse_val fuel)
unfolding parse_val
val-Within e zero room c small h = absurd (omega arith)
val-Within e (suc fuel) room c small h = require-Within e room 1 _ c _ (λ one.
    bind-Within e (length c.rest - 1) room (fetch byte c) _
      (fetch-Within _ e (length c.rest) byte c (omega arith) one)
      (λ m c1 h1.
        marked-Within e fuel (parse_val fuel) m room c1 (val-Within e fuel) (omega arith)
          (omega arith)))

-- `ParseAMF0Val` on any bytes neither panics nor runs out of fuel: it gives an error, or a value and
-- a number of bytes that it has read, not more than there are.
pub parse_amf0_val_total :
    (b : List ℕ)
    → ((e : List (Message × ℕ)) × (parse_amf0_val b ≡ err e))
      ⊎ ((v : Amf) × (c : Cursor) × (parse_amf0_val b ≡ ok (v, c))
          × (c.pos + length c.rest ≡ length b))
parse_amf0_val_total b = answer (parse_amf0_val b) (
    unfold parse_amf0_val in
    val-Within (length b) (suc (length b)) (length b) (record { rest = b; pos = 0 }) (omega arith)
      (omega arith))
  where
    answer :
        (r : Result Amf)
        → Within (length b) (length b) r
        → ((e : List (Message × ℕ)) × (r ≡ err e))
          ⊎ ((v : Amf) × (c : Cursor) × (r ≡ ok (v, c)) × (c.pos + length c.rest ≡ length b))
    answer (ok (v, c)) h = inr (v, c, refl, h.0)
    answer (err e) h = inl (e, refl)
    answer panic h = absurd h
