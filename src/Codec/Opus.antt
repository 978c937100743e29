-- ===== src/Codec/Opus.antt =====
-- codec/opusparser/opusparser.go: the channels and the duration of an Opus packet. A packet is the
-- list of its bytes; durations are in nanoseconds.
use mse.Common.{
  ℕ, zero, suc, ◌*◌, ◌/◌, ◌%◌, ◌^◌, ◌≤◌, ◌<◌, ◌≡◌, ◌⊎◌, inl, inr, refl, ap, arith, List, [], ◌∷◌,
  ◌++◌,
}
use mse.Common.{
  none, some, ◌==◌, ltb, if◌then◌else◌, length, get_elem?, All, bit_and, Bool, true, false,
}
use native.Mathlib.Nat.{mul-le-mul_right}
use mse.Common.Outcome.{Outcome, ok, err, panic}
use mse.Common.Bits.{bit_and-ones}
use mse.Common.Word.{word}

pub data PacketError : Type 0 where
  empty_packet invalid_packet : PacketError

-- SILK, hybrid and CELT frames
abbrev silk_times : List ℕ
silk_times = 10_000_000 ∷ 20_000_000 ∷ 40_000_000 ∷ 60_000_000 ∷ []

abbrev hybrid_times : List ℕ
hybrid_times = 10_000_000 ∷ 20_000_000 ∷ []

abbrev celt_times : List ℕ
celt_times = 2_500_000 ∷ 5_000_000 ∷ 10_000_000 ∷ 20_000_000 ∷ []

-- `opusFrameTimes`: three bands of SILK, two of the hybrid, and four of CELT
abbrev pub opus_frame_times : List ℕ
opus_frame_times =
    silk_times ++ silk_times ++ silk_times ++ hybrid_times ++ hybrid_times ++ celt_times
    ++ celt_times ++ celt_times ++ celt_times

unfoldable pub channels : List ℕ → ℕ
channels [] = 2
channels (toc ∷ rest) = if bit_and toc 4 == 0 then 1 else 2

-- `numFr`, from the code and the packet behind its first byte
unfoldable pub frame_count : ℕ → List ℕ → Outcome PacketError ℕ
frame_count code rest =
    let many : Outcome PacketError ℕ = elim rest [
      | [] ↦ err invalid_packet
      | n ∷ _ ↦ ok (bit_and n 0x3f)
    ] in
    if code == 0
    then ok (if ltb 0 (length rest) then 1 else 0)
    else (if code == 3 then many else ok (if ltb 1 (length rest) then 2 else 0))

unfoldable pub packet_duration : List ℕ → Outcome PacketError ℕ
packet_duration [] = err empty_packet
packet_duration (toc ∷ rest) = elim (frame_count (bit_and toc 0x3) rest) [
  | ok frames ↦ elim (get_elem? opus_frame_times (toc / 2 ^ 3)) [
    | some time ↦ ok (frames * time % word)
    | none ↦ panic
  ]
  | err e ↦ err e
  | panic ↦ panic
]

All-get_elem? :
    {P : ℕ → Type 0} (xs : List ℕ) (i : ℕ)
    → All P xs
    → i < length xs
    → (t : ℕ) × (get_elem? xs i ≡ some t) × P t
All-get_elem? [] i h small = absurd (omega arith)
All-get_elem? (x ∷ xs) zero h small = (x, refl, h.0)
All-get_elem? (x ∷ xs) (suc i) h small = All-get_elem? xs i h.1 (omega arith)

abbrev pub longest : ℕ
longest = 60_000_000

times_bounded : All (λ t. t ≤ longest) opus_frame_times
times_bounded = ground arith

-- A byte that announces a count and is not followed by one is refused; else there are 63 frames at
-- most.
abbrev pub Counted : ℕ → List ℕ → Outcome PacketError ℕ → Type 0
Counted code rest result =
    ((result ≡ err invalid_packet) × (code ≡ 3) × (rest ≡ []))
    ⊎ ((n : ℕ) × (result ≡ ok n) × (n ≤ 63))

small_count :
    (code : ℕ) (rest : List ℕ) (b : Bool) (n : ℕ)
    → n ≤ 63
    → Counted code rest (ok (if b then n else 0))
small_count code rest true n h = inr (n, refl, h)
small_count code rest false n h = inr (0, refl, omega arith)

frame_count-Counted :
    (code : ℕ) (rest : List ℕ) → code < 4 → Counted code rest (frame_count code rest)
unfolding frame_count
frame_count-Counted zero rest small = small_count 0 rest (ltb 0 (length rest)) 1 (omega arith)
frame_count-Counted (suc zero) rest small = small_count 1 rest (ltb 1 (length rest)) 2 (omega arith)
frame_count-Counted (suc (suc zero)) rest small =
    small_count 2 rest (ltb 1 (length rest)) 2 (omega arith)
frame_count-Counted (suc (suc (suc zero))) [] small = inl (refl, refl, refl)
frame_count-Counted (suc (suc (suc zero))) (m ∷ rest) small =
    inr (bit_and m 0x3f, refl, omega (arith, bit_and-ones 6 m))
frame_count-Counted (suc (suc (suc (suc n)))) rest small = absurd (omega arith)

-- A packet of bytes is refused only if it is empty, or if its code announces a count that is not
-- there; else its duration is at most 63 frames of 60 ms, and no look-up panics.
pub packet_duration-cases :
    (toc : ℕ) (rest : List ℕ)
    → toc < 2 ^ 8
    → (packet_duration [] ≡ err empty_packet)
      × (((packet_duration (toc ∷ rest) ≡ err invalid_packet) × (toc % 4 ≡ 3) × (rest ≡ []))
          ⊎ ((n t : ℕ) × (packet_duration (toc ∷ rest) ≡ ok (n * t))
              × (n ≤ 63)
              × (get_elem? opus_frame_times (toc / 8) ≡ some t)
              × (t ≤ longest)))
unfolding packet_duration
packet_duration-cases toc rest byte = (
  refl,
  elim (frame_count-Counted (bit_and toc 0x3) rest (omega (arith, low))) [
    | inl (e, code, none_left) ↦ inl (rw (e, packet_duration), omega (arith, low, code), none_left)
    | inr (n, e, few) ↦
        let (t, found, short) =
          All-get_elem? {P = λ (t : ℕ). t ≤ longest} opus_frame_times (toc / 8) times_bounded
            (omega (arith, byte)) in
        inr (
          n,
          t,
          rw (e, packet_duration) (rw (found, packet_duration) (ap ok (product n t few short))),
          few,
          found,
          short,
        )
  ],
)
  where
    low : bit_and toc 0x3 ≡ toc % 4
    low = bit_and-ones 2 toc

    product : (n t : ℕ) → n ≤ 63 → t ≤ longest → n * t % word ≡ n * t
    product n t few short = omega (arith, mul-le-mul_right t few, short)
