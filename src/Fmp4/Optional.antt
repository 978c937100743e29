-- ===== src/Fmp4/Optional.antt =====
-- format/fmp4/fmp4io: the fields of a box that a flag announces.
use mse.Common.{
  ℕ, ◌+◌, ◌≡◌, refl, ap, arith, Bool, true, false, List, [], ◌++◌, length, if◌then◌else◌,
}
use mse.Common.Outcome.{ok, ◌>>◌}
use mse.Pio.Layout.{Layout, width, Fits}
use mse.Pio.Cursor.{
  Write, write, write_nothing, bytes_of, length-bytes_of, Writes, write-Writes, nothing-Writes,
  if-Writes,
}
use mse.Pio.Fetch.{Cursor, Trace, need, need-ok, fetch, fetch-bytes_of}
use mse.Common.{length-append}
use mse.Fmp4.Box.{Message, Result}

-- `if flags&bit != 0 { PutX(b[n:], v); n += width }`
unfoldable pub write_optional : Bool → Layout → ℕ → Write
write_optional on l v = if on then write l v else write_nothing

-- `if flags&bit != 0 { v = X(b[n:]); n += width }`, of a field that is 0 before
unfoldable pub take_optional : Bool → Layout → Cursor → Result ℕ
take_optional true l c = fetch l c
take_optional false l c = ok (0, c)

-- the same behind a check of the length
unfoldable pub need_optional : Bool → Layout → Message → Cursor → Result ℕ
need_optional true l m c = do need (width l) m c; fetch l c
need_optional false l m c = ok (0, c)

abbrev pub optional_bytes : Bool → Layout → ℕ → List ℕ
optional_bytes on l v = if on then bytes_of l v else []

abbrev pub OptionalFits : Bool → Layout → ℕ → Type 0
OptionalFits true l v = Fits l v
OptionalFits false l v = v ≡ 0

pub optional-Writes :
    (on : Bool) (l : Layout) (v : ℕ) → Writes (write_optional on l v) (optional_bytes on l v)
unfolding write_optional
optional-Writes on l v = if-Writes on (write-Writes l v) nothing-Writes

pub length-optional_bytes :
    (on : Bool) (l : Layout) (v : ℕ) → length (optional_bytes on l v) ≡ (if on then width l else 0)
length-optional_bytes true l v = length-bytes_of l v
length-optional_bytes false l v = refl

pub take-optional_bytes :
    (on : Bool) (l : Layout) (v : ℕ) (rest : List ℕ) (pos : ℕ)
    → OptionalFits on l v
    → take_optional on l (record { rest = optional_bytes on l v ++ rest; pos = pos })
      ≡ ok (v, record { rest = rest; pos = pos + (if on then width l else 0) })
unfolding take_optional
take-optional_bytes true l v rest pos h = fetch-bytes_of {E = Trace Message} l v rest pos h
take-optional_bytes false l v rest pos h =
    rw h (ap (λ (p : ℕ). ok (0, record { rest = rest; pos = p })) (omega arith))

pub need-optional_bytes :
    (on : Bool) (l : Layout) (m : Message) (v : ℕ) (rest : List ℕ) (pos : ℕ)
    → OptionalFits on l v
    → need_optional on l m (record { rest = optional_bytes on l v ++ rest; pos = pos })
      ≡ ok (v, record { rest = rest; pos = pos + (if on then width l else 0) })
unfolding need_optional
need-optional_bytes true l m v rest pos h =
    rw
      (
        need-ok (width l) m (record { rest = bytes_of l v ++ rest; pos = pos })
            (omega (arith, length-append (bytes_of l v) rest, length-bytes_of l v)),
        fetch-bytes_of {E = Trace Message} l v rest pos h,
      )
      refl
need-optional_bytes false l m v rest pos h =
    rw h (ap (λ (p : ℕ). ok (0, record { rest = rest; pos = p })) (omega arith))
