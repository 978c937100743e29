-- ===== src/Pio/Over.antt =====
-- Filling bytes some of which a writer leaves as they were.
use mathlib.Core.List.{append_assoc}
use mse.Common.{
  ℕ, zero, suc, [], ◌∷◌, ◌+◌, ◌≡◌, refl, sym, ap, ap₂, ◌∙◌, arith, List, ◌++◌, some, length,
  length-append,
}
use mse.Pio.Cursor.{Write, ◌then_write◌, Writes, Writes-room}

-- A write over exactly the bytes `room`, after which they are `xs`. Unlike for `Writes`, some of them
-- may stay as they were.
pub record WritesOver (m : Write) (room xs : List ℕ) : Type 0 where
  pub as_long : length room ≡ length xs
  pub over :
      (pre rest : List ℕ)
      → m (pre ++ (room ++ rest)) (length pre) ≡ some (pre ++ (xs ++ rest), length pre + length xs)

pub Writes-over :
    {m : Write} {xs : List ℕ} (written : Writes m xs) (room : List ℕ)
    → length room ≡ length xs
    → WritesOver m room xs
Writes-over written room e = record {
  as_long = e;
  over = λ pre rest. Writes-room written pre room rest e;
}

-- `n += k` leaves the bytes as they are.
abbrev pub skip : ℕ → Write
skip k b n = some (b, n + k)

pub skip-WritesOver : (room : List ℕ) → WritesOver (skip (length room)) room room
skip-WritesOver room = record { as_long = refl; over = λ pre rest. refl }

pub then-WritesOver :
    {m k : Write} {room room' xs ys : List ℕ}
    → WritesOver m room xs
    → WritesOver k room' ys
    → WritesOver (m then_write k) (room ++ room') (xs ++ ys)
then-WritesOver {m} {k} {room} {room'} {xs} {ys} first second = record {
  as_long =
      omega (arith, length-append room room', length-append xs ys, first.as_long, second.as_long);
  over = λ pre rest.
      ap (λ (b : List ℕ). (m then_write k) (pre ++ b) (length pre)) (append_assoc room room' rest)
      ∙ rw (first.over pre (room' ++ rest)) (
          ap₂ k (sym (append_assoc pre xs (room' ++ rest))) (sym (length-append pre xs))
          ∙ second.over (pre ++ xs) rest
          ∙ ap₂ (λ (b : List ℕ) (n : ℕ). some (b, n)) (simp append_assoc)
              (omega (arith, length-append pre xs, length-append xs ys)));
}

-- `make([]byte, n)`
unfoldable pub zeros : ℕ → List ℕ
zeros zero = []
zeros (suc n) = 0 ∷ zeros n

pub length-zeros : (n : ℕ) → length (zeros n) ≡ n
unfolding zeros
length-zeros zero = refl
length-zeros (suc n) = rw (length-zeros n)

pub zeros_append : (m n : ℕ) → zeros m ++ zeros n ≡ zeros (m + n)
unfolding zeros
zeros_append zero n = let e : zero + n ≡ n = omega arith in rw e refl
zeros_append (suc m) n =
    let e : suc m + n ≡ suc (m + n) = omega arith in rw (zeros_append m n, e) refl

-- A write into a fresh buffer.
pub Writes-zeros :
    {m : Write} {xs : List ℕ} (n : ℕ) → Writes m xs → length xs ≡ n → WritesOver m (zeros n) xs
Writes-zeros n written e = Writes-over written (zeros n) (length-zeros n ∙ sym e)
