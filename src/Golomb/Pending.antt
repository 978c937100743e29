-- ===== src/Golomb/Pending.antt =====
-- The bits that a reader of golomb_reader.go has still to give, first to last.
use mse.Common.{ℕ, zero, suc, ◌/◌, ◌%◌, ◌^◌, ◌≡◌, ap, ◌∙◌, List, [], ◌∷◌, ◌++◌, some}
use mse.Common.Bits.{bit_and-ones}
use mse.Golomb.{GolombReader, Reading, next_bit, read_bit}

unfoldable pub bits_of : ℕ → ℕ → List ℕ
bits_of b zero = []
bits_of b (suc l) = b / 2 ^ l % 2 ∷ bits_of b l

unfoldable pub stream_bits : List ℕ → List ℕ
stream_bits [] = []
stream_bits (b ∷ bs) = bits_of b 8 ++ stream_bits bs

unfoldable pub pending : GolombReader → List ℕ
pending r = bits_of r.buf r.left ++ stream_bits r.src

-- A read gives a number and leaves the bits of `rest`.
abbrev pub Gives : Reading → ℕ → List ℕ → Type 0
Gives reading x rest = (r' : GolombReader) × (reading ≡ (r', some x)) × (pending r' ≡ rest)

next_bit-Gives :
    (src : List ℕ) (buf left bit : ℕ) (rest : List ℕ)
    → bits_of buf (suc left) ++ stream_bits src ≡ bit ∷ rest
    → Gives (next_bit src buf left) bit rest
unfolding next_bit bits_of pending
next_bit-Gives src buf left bit rest e =
    let first : buf / 2 ^ left % 2 ≡ bit = cc e in
    let others : bits_of buf left ++ stream_bits src ≡ rest = cc e in
    let r' : GolombReader = record { src = src; buf = buf; left = left } in
    (r', ap (λ (x : ℕ). (r', some x)) (bit_and-ones 1 (buf / 2 ^ left) ∙ first), others)

pub read_bit-Gives :
    (r : GolombReader) (bit : ℕ) (rest : List ℕ)
    → pending r ≡ bit ∷ rest
    → Gives (read_bit r) bit rest
unfolding read_bit pending
read_bit-Gives r bit rest e = go r.src r.buf r.left e
  where
    go :
        (src : List ℕ) (buf left : ℕ)
        → bits_of buf left ++ stream_bits src ≡ bit ∷ rest
        → Gives (read_bit (record { src = src; buf = buf; left = left })) bit rest
    go [] buf zero e = unfold bits_of stream_bits in cc e
    go (b ∷ bs) buf zero e = next_bit-Gives bs b 7 bit rest (unfold bits_of stream_bits in e)
    go src buf (suc left) e = next_bit-Gives src buf left bit rest e
