-- ===== src/Pio/Tests.antt =====
-- Runs of utils/bits/pio, and its theorems at concrete buffers.
use mse.Common.{ℕ, ◌-◌, ◌^◌, ◌≤◌, ◌≡◌, refl, List, [], ◌∷◌, some, none, arith, length}
use mse.Pio.{u32_be, u24_be, i24_be, put_u32_be, put_u48_be, join}
use mse.Pio.Layout.{be32}
use mse.Pio.RoundTrip.{Keeps, get-put}
use mse.Pio.Vec.{vec_len, vec_slice, joined, Skipped, vec_slice-joined}

reads :
    (u32_be (0 ∷ 1 ∷ 2 ∷ 3 ∷ 4 ∷ []) ≡ some 0x010203)
    × (i24_be (0xff ∷ 0xff ∷ 0xfe ∷ []) ≡ some 0xffff_fffe)
    × (u24_be (1 ∷ 2 ∷ []) ≡ none)
unfolding u32_be i24_be u24_be join
reads = (refl, refl, refl)

writes :
    (put_u48_be (9 ∷ 9 ∷ 9 ∷ 9 ∷ 9 ∷ 9 ∷ 9 ∷ []) 0x0102_0304_0506
      ≡ some (1 ∷ 2 ∷ 3 ∷ 4 ∷ 5 ∷ 6 ∷ 9 ∷ []))
    × (put_u32_be (0 ∷ 0 ∷ 0 ∷ []) 7 ≡ none)
unfolding put_u48_be put_u32_be
writes = (refl, refl)

get-put_example : Keeps be32 0xfedc_ba98 (0 ∷ 0 ∷ 0 ∷ 0 ∷ 5 ∷ [])
get-put_example = get-put be32 (0 ∷ 0 ∷ 0 ∷ 0 ∷ 5 ∷ []) 0xfedc_ba98 (omega arith) (omega arith)

abbrev three_pieces : List (List ℕ)
three_pieces = (1 ∷ 2 ∷ []) ∷ [] ∷ (3 ∷ 4 ∷ 5 ∷ []) ∷ []

vec_slice-joined_example :
    ((out : List (List ℕ)) × (vec_slice three_pieces 1 4 ≡ some out)
      × (joined out ≡ 2 ∷ 3 ∷ 4 ∷ [])
      × (length out ≤ 3))
    × Skipped 1 three_pieces (vec_slice three_pieces 1 (2 ^ 64 - 7))
unfolding joined
vec_slice-joined_example =
    vec_slice-joined three_pieces 1 4 (2 ^ 64 - 7) (omega arith) (unfold vec_len in omega arith)
      (unfold vec_len in omega arith) (unfold vec_len in omega arith) (omega arith)
