-- ===== src/Pio/Vec.antt =====
-- utils/bits/pio/vec.go: a sequence of bytes in pieces. An `int` is a 64-bit pattern; `none` is a
-- panic.
use mse.Common.{
  ℕ, zero, suc, ◌+◌, ◌-◌, ◌^◌, ◌≤◌, ◌<◌, ◌≡◌, refl, sym, ap, ◌∙◌, arith, true, false, not, ◌&&◌,
  List, [], ◌∷◌, ◌++◌, Option, none, some,
}
use mse.Common.{
  ◌==◌, ltb, leb, if◌then◌else◌, length, take, drop, length-append, length-drop, Bool-cases, inl,
  inr,
}
use mathlib.Core.List.{append-nil}
use mse.Common.Maybe.{◌>>=◌}
use mse.Common.Word.{is_neg, slt, sub64}

unfoldable pub vec_len : List (List ℕ) → ℕ
vec_len [] = 0
vec_len (b ∷ bs) = length b + vec_len bs

-- The first loop of `VecSliceTo`: the pieces behind `s` bytes, the first from `off` on.
unfoldable pub skip : ℕ → List (List ℕ) → Option (List (List ℕ))
skip s [] = if s == 0 then some [] else none
skip s (b ∷ bs) =
    let later = skip (s - length b) bs in
    let inside : Option (List (List ℕ)) = some (drop s b ∷ bs) in
    if s == 0 then some (b ∷ bs) else (if leb (length b) s then later else inside)

-- The second loop, of an end that is an `int`: the pieces of the first `e` bytes, or all of them where
-- `e` stays negative. It takes a whole piece or `e` bytes of it, and `e -= read` may wrap around.
unfoldable pub pick : ℕ → List (List ℕ) → Option (List (List ℕ))
pick e [] = if slt 0 e then none else some []
pick e (b ∷ bs) =
    let later : Option (List (List ℕ)) = (do out ← pick (sub64 e (length b)) bs; some (b ∷ out)) in
    let inside : Option (List (List ℕ)) = some (take e b ∷ []) in
    if e == 0 then some [] else (if slt 0 e && slt e (length b) then inside else later)

-- `VecSlice`: a negative start is 0; what the first loop reads is taken off the end, too.
unfoldable pub vec_slice : List (List ℕ) → ℕ → ℕ → Option (List (List ℕ))
vec_slice vec s e =
    let start = if is_neg s then 0 else s in
    let sliced : Option (List (List ℕ)) = (do out ← skip start vec; pick (sub64 e start) out) in
    if not (is_neg e) && slt e start then none else sliced

-- the bytes of all pieces
unfoldable pub joined : List (List ℕ) → List ℕ
joined [] = []
joined (b ∷ bs) = b ++ joined bs

length-joined : (vec : List (List ℕ)) → length (joined vec) ≡ vec_len vec
unfolding joined vec_len
length-joined [] = refl
length-joined (b ∷ bs) = omega (arith, length-append b (joined bs), length-joined bs)

drop-append_past :
    (xs ys : List ℕ) (n : ℕ) → length xs ≤ n → drop n (xs ++ ys) ≡ drop (n - length xs) ys
drop-append_past [] ys n h = ap (λ (m : ℕ). drop m ys) (omega arith)
drop-append_past (x ∷ xs) ys zero h = absurd (omega arith)
drop-append_past (x ∷ xs) ys (suc n) h =
    drop-append_past xs ys n (omega arith) ∙ ap (λ (m : ℕ). drop m ys) (omega arith)

drop-append_within : (xs ys : List ℕ) (n : ℕ) → n ≤ length xs → drop n (xs ++ ys) ≡ drop n xs ++ ys
drop-append_within xs ys zero h = refl
drop-append_within [] ys (suc n) h = absurd (omega arith)
drop-append_within (x ∷ xs) ys (suc n) h = drop-append_within xs ys n (omega arith)

take-append_past :
    (xs ys : List ℕ) (n : ℕ) → length xs ≤ n → take n (xs ++ ys) ≡ xs ++ take (n - length xs) ys
take-append_past [] ys n h = ap (λ (m : ℕ). take m ys) (omega arith)
take-append_past (x ∷ xs) ys zero h = absurd (omega arith)
take-append_past (x ∷ xs) ys (suc n) h =
    ap (λ (l : List ℕ). x ∷ l)
      (take-append_past xs ys n (omega arith) ∙ ap (λ (m : ℕ). xs ++ take m ys) (omega arith))

take-append_within : (xs ys : List ℕ) (n : ℕ) → n ≤ length xs → take n (xs ++ ys) ≡ take n xs
take-append_within xs ys zero h = refl
take-append_within [] ys (suc n) h = absurd (omega arith)
take-append_within (x ∷ xs) ys (suc n) h =
    ap (λ (l : List ℕ). x ∷ l) (take-append_within xs ys n (omega arith))

not_zero : (n : ℕ) → (suc n == 0) ≡ false
not_zero n = ground arith

-- The pieces behind `s` bytes: their bytes, and how many pieces at most.
abbrev pub Skipped : ℕ → List (List ℕ) → Option (List (List ℕ)) → Type 0
Skipped s vec result =
    (out : List (List ℕ)) × (result ≡ some out)
    × (joined out ≡ drop s (joined vec))
    × (length out ≤ length vec)

skip-Skipped : (s : ℕ) (vec : List (List ℕ)) → s ≤ vec_len vec → Skipped s vec (skip s vec)
unfolding skip joined vec_len
skip-Skipped zero [] h = ([], refl, refl, omega arith)
skip-Skipped (suc s) [] h = absurd (omega arith)
skip-Skipped zero (b ∷ bs) h = (b ∷ bs, refl, refl, omega arith)
skip-Skipped (suc s) (b ∷ bs) h = elim (Bool-cases (leb (length b) (suc s))) [
  | inl past ↦
      let (out, e, j, few) = skip-Skipped (suc s - length b) bs (omega arith) in
      (
        out,
        rw (not_zero s, past) e,
        j ∙ sym (drop-append_past b (joined bs) (suc s) (ground (arith, past))),
        omega (arith, few),
      )
  | inr within ↦ (
    drop (suc s) b ∷ bs,
    rw (not_zero s, within),
    sym (drop-append_within b (joined bs) (suc s) (ground (arith, within))),
    omega arith,
  )
]

abbrev pub Picked : ℕ → List (List ℕ) → Option (List (List ℕ)) → Type 0
Picked e vec result =
    (out : List (List ℕ)) × (result ≡ some out)
    × (joined out ≡ take e (joined vec))
    × (length out ≤ length vec)

pick-Picked :
    (e : ℕ) (vec : List (List ℕ))
    → e ≤ vec_len vec
    → vec_len vec < 2 ^ 63
    → Picked e vec (pick e vec)
unfolding pick joined vec_len
pick-Picked zero [] h small = ([], refl, refl, omega arith)
pick-Picked (suc e) [] h small = absurd (omega arith)
pick-Picked zero (b ∷ bs) h small = ([], refl, refl, omega arith)
pick-Picked (suc e) (b ∷ bs) h small = elim (Bool-cases (ltb (suc e) (length b))) [
  | inl within ↦
      let test : (slt 0 (suc e) && slt (suc e) (length b)) ≡ true =
        ground (arith, within, h, small) in
      (
        take (suc e) b ∷ [],
        rw (not_zero e, test),
        append-nil (take (suc e) b)
            ∙ sym (take-append_within b (joined bs) (suc e) (ground (arith, within))),
        omega arith,
      )
  | inr past ↦
      let within_rest : suc e - length b ≤ vec_len bs = omega arith in
      let rest_small : vec_len bs < 2 ^ 63 = omega arith in
      let (out, found, j, few) = pick-Picked (suc e - length b) bs within_rest rest_small in
      let test : (slt 0 (suc e) && slt (suc e) (length b)) ≡ false =
        ground (arith, past, h, small) in
      let left : sub64 (suc e) (length b) ≡ suc e - length b = ground (arith, past, h, small) in
      (
        b ∷ out,
        rw (not_zero e, test, left) (rw found refl),
        ap (λ (l : List ℕ). b ++ l) j
            ∙ sym (take-append_past b (joined bs) (suc e) (ground (arith, past))),
        omega (arith, few),
      )
]

-- An end that stays negative is that of all pieces.
pick_all :
    (e : ℕ) (vec : List (List ℕ)) → 2 ^ 63 + vec_len vec ≤ e → e < 2 ^ 64 → pick e vec ≡ some vec
unfolding pick vec_len
pick_all e [] h word = let test : slt 0 e ≡ false = ground arith in rw test refl
pick_all e (b ∷ bs) h word =
    let some_end : (e == 0) ≡ false = ground arith in
    let test : (slt 0 e && slt e (length b)) ≡ false = ground arith in
    let left : sub64 e (length b) ≡ e - length b = omega arith in
    rw (some_end, test, left, pick_all (e - length b) bs (omega arith) (omega arith)) refl

-- `VecSlice` from `s` to `e`, in range, gives the bytes between, in no more pieces than there were.
-- With a negative end, not so near to the smallest integer that taking off the length of all pieces
-- wraps around, it gives those from `s` on.
pub vec_slice-joined :
    (vec : List (List ℕ)) (s e neg : ℕ)
    → s ≤ e
    → e ≤ vec_len vec
    → vec_len vec < 2 ^ 63
    → 2 ^ 63 + vec_len vec ≤ neg
    → neg < 2 ^ 64
    → ((out : List (List ℕ)) × (vec_slice vec s e ≡ some out)
        × (joined out ≡ take (e - s) (drop s (joined vec)))
        × (length out ≤ length vec))
      × Skipped s vec (vec_slice vec s neg)
unfolding vec_slice
vec_slice-joined vec s e neg le in_range small low word =
    let (rest, found, behind, few) = skip-Skipped s vec (omega arith) in
    let left : vec_len rest + s ≡ vec_len vec = omega (
      arith,
      length-joined rest,
      ap length behind,
      length-drop s (joined vec),
      length-joined vec,
    ) in
    let (out, picked, between, fewer) =
      pick-Picked (e - s) rest (omega (arith, left)) (omega (arith, left)) in
    let all : pick (neg - s) rest ≡ some rest =
      pick_all (neg - s) rest (omega (arith, left)) (omega arith) in
    let start : is_neg s ≡ false = ground arith in
    let order : (not (is_neg e) && slt e s) ≡ false = ground arith in
    let no_order : (not (is_neg neg) && slt neg s) ≡ false = ground arith in
    let end_left : sub64 e s ≡ e - s = omega arith in
    let neg_left : sub64 neg s ≡ neg - s = omega arith in
    (
      (
        out,
        rw (start, order, found, end_left) picked,
        between ∙ ap (take (e - s)) behind,
        omega (arith, few, fewer),
      ),
      (rest, rw (start, no_order, found, neg_left) all, behind, few),
    )
