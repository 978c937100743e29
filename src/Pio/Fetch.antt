-- ===== src/Pio/Fetch.antt =====
-- Taking values off the front of a buffer, as the parsers of the formats do: a check
-- `len(b) < n+k`, then `X(b[n:])` and `n += k`. The state is `b[n:]` with the position `n`, counted
-- from where the outermost parser began, which the errors name; `panic` is an index out of range.
use mse.Common.{ℕ, ◌+◌, ◌≤◌, ◌≡◌, refl, sym, ap, ◌∙◌, arith, false, List, [], ◌∷◌, ◌++◌, none, some}
use mse.Common.{
  ltb, if◌then◌else◌, length, take, drop, length-append, take-append_length, drop-append_length,
}
use mse.Common.Outcome.{Outcome, ok, err, panic}
use mse.Pio.{u8, u16_be, i16_be, u24_be, i24_be, u32_be, u32_le, i32_be, u40_be, u64_be, i64_be}
use mse.Pio.Layout.{
  Layout, byte, be16, be16_signed, be24, be24_signed, be32, be32_signed, le32, be40, be64,
  be64_signed, width, Fits, get, put, by_cells,
}
use mse.Pio.Cursor.{bytes_of, length-bytes_of, put-bytes_of}
use mse.Pio.RoundTrip.{get-put}

pub record Cursor : Type 0 where
  pub rest : List ℕ
  pub pos : ℕ

abbrev pub advance : ℕ → Cursor → Cursor
advance k c = record { rest = drop k c.rest; pos = c.pos + k }

-- the messages of an error and the positions at which they arose, the outermost first
abbrev pub Trace : Type 0 → Type 0
Trace M = List (M × ℕ)

drop_bytes : (l : Layout) (v : ℕ) (rest : List ℕ) → drop (width l) (bytes_of l v ++ rest) ≡ rest
drop_bytes l v rest =
    ap (λ (n : ℕ). drop n (bytes_of l v ++ rest)) (sym (length-bytes_of l v))
    ∙ drop-append_length (bytes_of l v) rest

get-bytes_of :
    (l : Layout) (v : ℕ) (rest : List ℕ) → Fits l v → get l (bytes_of l v ++ rest) ≡ some v
get-bytes_of l v rest fits =
    let room : width l ≤ length (bytes_of l v ++ rest) =
      omega (arith, length-append (bytes_of l v) rest, length-bytes_of l v) in
    let (b, filled, got, _, _) = get-put l (bytes_of l v ++ rest) v room fits in
    let same : put l (bytes_of l v ++ rest) v ≡ some (bytes_of l v ++ rest) =
      put-bytes_of l (bytes_of l v ++ rest) v room
      ∙ ap (λ (r : List ℕ). some (bytes_of l v ++ r)) (drop_bytes l v rest) in
    let whole : b ≡ bytes_of l v ++ rest = cc (sym filled ∙ same) in ap (get l) (sym whole) ∙ got

-- A reader finds a value in any bytes that are enough.
abbrev Found : Layout → List ℕ → Type 0
Found l b = (v : ℕ) × (get l b ≡ some v)

pub get-Found : (l : Layout) (b : List ℕ) → width l ≤ length b → (v : ℕ) × (get l b ≡ some v)
unfolding u8 u16_be i16_be u24_be i24_be u32_be u32_le i32_be u40_be u64_be i64_be
get-Found byte b h = by_cells 1 (Found byte) b h λ x r. (_, refl)
get-Found be16 b h = by_cells 2 (Found be16) b h λ x y r. (_, refl)
get-Found be16_signed b h = by_cells 2 (Found be16_signed) b h λ x y r. (_, refl)
get-Found be24 b h = by_cells 3 (Found be24) b h λ x y z r. (_, refl)
get-Found be24_signed b h = by_cells 3 (Found be24_signed) b h λ x y z r. (_, refl)
get-Found be32 b h = by_cells 4 (Found be32) b h λ x y z w r. (_, refl)
get-Found be32_signed b h = by_cells 4 (Found be32_signed) b h λ x y z w r. (_, refl)
get-Found le32 b h = by_cells 4 (Found le32) b h λ x y z w r. (_, refl)
get-Found be40 b h = by_cells 5 (Found be40) b h λ x y z w u r. (_, refl)
get-Found be64 b h = by_cells 8 (Found be64) b h λ x1 x2 x3 x4 x5 x6 x7 x8 r. (_, refl)
get-Found be64_signed b h =
    by_cells 8 (Found be64_signed) b h λ x1 x2 x3 x4 x5 x6 x7 x8 r. (_, refl)

module _ {E : Type 0} where
  -- `if len(b) < n+k { return e }`
  unfoldable pub require : ℕ → E → Cursor → Outcome E (Unit {0})
  require k e c = if ltb (length c.rest) k then err e else ok tt

  -- `X(b[n:]); n += width`
  unfoldable pub fetch : Layout → Cursor → Outcome E (ℕ × Cursor)
  fetch l c = elim (get l c.rest) [ none ↦ panic | some v ↦ ok (v, advance (width l) c) ]

  -- `b[n : n+k]; n += k`
  unfoldable pub fetch_bytes : ℕ → Cursor → Outcome E (List ℕ × Cursor)
  fetch_bytes k c = if ltb (length c.rest) k then panic else ok (take k c.rest, advance k c)

  pub require-ok : (k : ℕ) (e : E) (c : Cursor) → k ≤ length c.rest → require k e c ≡ ok tt
  unfolding require
  require-ok k e c h = ground arith

  -- What a writer of the format put there is read.
  pub fetch-bytes_of :
      (l : Layout) (v : ℕ) (rest : List ℕ) (pos : ℕ)
      → Fits l v
      → fetch l (record { rest = bytes_of l v ++ rest; pos = pos })
        ≡ ok (v, record { rest = rest; pos = pos + width l })
  unfolding fetch
  fetch-bytes_of l v rest pos fits =
      rw (get-bytes_of l v rest fits, fetch) (rw (drop_bytes l v rest) refl)

  pub fetch_bytes-append :
      (xs rest : List ℕ) (pos : ℕ)
      → fetch_bytes (length xs) (record { rest = xs ++ rest; pos = pos })
        ≡ ok (xs, record { rest = rest; pos = pos + length xs })
  unfolding fetch_bytes
  fetch_bytes-append xs rest pos =
      rw (long, take-append_length xs rest, drop-append_length xs rest) refl
    where
      long : ltb (length (xs ++ rest)) (length xs) ≡ false
      long = ground (arith, length-append xs rest)

module _ {M : Type 0} where
  -- the check with an error that names the position
  abbrev pub need : ℕ → M → Cursor → Outcome (Trace M) (Unit {0})
  need k m c = require k ((m, c.pos) ∷ []) c

  -- the errors of an inner parser get a message of the outer one
  unfoldable pub wrap {ℓ} : {A : Type ℓ} → M → ℕ → Outcome (Trace M) A → Outcome (Trace M) A
  wrap m p (ok a) = ok a
  wrap m p (err e) = err ((m, p) ∷ e)
  wrap m p panic = panic

  pub need-ok : (k : ℕ) (m : M) (c : Cursor) → k ≤ length c.rest → need k m c ≡ ok tt
  need-ok k m c h = require-ok k ((m, c.pos) ∷ []) c h
