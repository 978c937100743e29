-- ===== src/Pio/Bounds.antt =====
-- Parsers over a cursor that stay in the buffer and never panic, and the rules for their parts.
use mse.Common.{ℕ, ◌+◌, ◌-◌, ◌≤◌, ◌≡◌, arith, Bool, true, false}
use mse.Common.{ltb, if◌then◌else◌, length, length-drop, Bool-cases, inl, inr}
use mse.Common.Outcome.{Outcome, ok, err, panic, ◌>>=◌, ◌>>◌}
use mse.Pio.Layout.{Layout, width}
use mse.Pio.Fetch.{Cursor, advance, require, fetch, fetch_bytes, get-Found}

-- What is left of a cursor after a read that went well, `e` being where the buffer ends.
abbrev pub Inside : ℕ → ℕ → Cursor → Type 0
Inside e room c = (c.pos + length c.rest ≡ e) × (length c.rest ≤ room)

pub advance-Inside :
    (e room k : ℕ) (c : Cursor)
    → Inside e room c
    → k ≤ length c.rest
    → Inside e (room - k) (advance k c)
advance-Inside e room k c h enough = omega (arith, length-drop k c.rest)

module _ {E : Type 0} where
  -- Of a parser: it does not panic, and a result leaves at most `room` bytes of the buffer that ends
  -- at `e`.
  abbrev pub Within : {A : Type 0} → ℕ → ℕ → Outcome E (A × Cursor) → Type 0
  Within e room (ok (a, c)) = Inside e room c
  Within e room (err x) = Unit
  Within e room panic = ⊥

  pub bind-Within :
      {A B : Type 0} (e room room' : ℕ) (m : Outcome E (A × Cursor))
      (f : A × Cursor → Outcome E (B × Cursor))
      → Within e room m
      → ((a : A) (c : Cursor) → Inside e room c → Within e room' (f (a, c)))
      → Within e room' (m >>= f)
  bind-Within e room room' (ok (a, c)) f h k = k a c h
  bind-Within e room room' (err x) f h k = tt
  bind-Within e room room' panic f h k = absurd h

  pub require-Within :
      {B : Type 0} (e room k : ℕ) (x : E) (c : Cursor) (r : Outcome E (B × Cursor))
      → (k ≤ length c.rest → Within e room r)
      → Within e room (require k x c >> r)
  unfolding require
  require-Within e room k x c r h = elim (Bool-cases (ltb (length c.rest) k)) [
    | inl short ↦ rw short tt
    | inr enough ↦ rw enough (h (ground (arith, enough)))
  ]

  pub if-Within :
      {A : Type 0} (e room : ℕ) (b : Bool) (x y : Outcome E (A × Cursor))
      → Within e room x
      → Within e room y
      → Within e room (if b then x else y)
  if-Within e room true x y h k = h
  if-Within e room false x y h k = k

module _ (E : Type 0) where
  pub fetch-Within :
      (e room : ℕ) (l : Layout) (c : Cursor)
      → Inside e room c
      → width l ≤ length c.rest
      → Within {E = E} e (room - width l) (fetch l c)
  unfolding fetch
  fetch-Within e room l c h enough =
      let (v, found) = get-Found l c.rest enough in
      rw (found, fetch) (advance-Inside e room (width l) c h enough)

  pub fetch_bytes-Within :
      (e room k : ℕ) (c : Cursor)
      → Inside e room c
      → k ≤ length c.rest
      → Within {E = E} e room (fetch_bytes k c)
  unfolding fetch_bytes
  fetch_bytes-Within e room k c h enough =
      let long : ltb (length c.rest) k ≡ false = ground arith in
      rw long (omega (arith, advance-Inside e room k c h enough))
