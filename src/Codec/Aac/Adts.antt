-- ===== src/Codec/Aac/Adts.antt =====
-- The ADTS header that `FillADTSHeader` writes is read back by `ParseADTSHeader`.
use mse.Common.{
  ℕ, zero, suc, ◌+◌, ◌-◌, ◌*◌, ◌/◌, ◌%◌, ◌^◌, ◌≤◌, ◌<◌, ◌≡◌, refl, ap, ◌∙◌, arith, false, List, ◌∷◌,
  ◌++◌, some, ◌==◌, ltb, length, drop, bit_and, bit_or,
}
use native.Mathlib.Nat.{zero-add}
use mse.Common.Outcome.{ok}
use mse.Common.Bits.{and_step, bit_and-ones, bit_or-shifted, bit_or-eq-add}
use mse.Common.Word.{add64, sub64, signed_div}
use mse.Codec.Aac.{
  AudioConfig, complete, byte_at, adts_channels, adts_framelen, parse_adts_rest, parse_adts_header,
  adts_byte2, adts_byte3, fill_adts_header,
}

and_four : (y : ℕ) → bit_and y 4 ≡ y / 4 % 2 * 4
and_four y = omega (arith, and_step y 4, and_step (y / 2) 2, bit_and-ones 1 (y / 2 / 2))

and_fc : (c : ℕ) → c < 4 → bit_and (c * 2 ^ 6) 0xfc ≡ c * 2 ^ 6
and_fc zero h = refl
and_fc (suc zero) h = refl
and_fc (suc (suc zero)) h = refl
and_fc (suc (suc (suc zero))) h = refl
and_fc (suc (suc (suc (suc c)))) h = absurd (omega arith)

or_31 : (p : ℕ) → p < 8 → bit_or 31 (p * 2 ^ 5) ≡ p * 2 ^ 5 + 31
or_31 zero h = refl
or_31 (suc zero) h = refl
or_31 (suc (suc zero)) h = refl
or_31 (suc (suc (suc zero))) h = refl
or_31 (suc (suc (suc (suc zero)))) h = refl
or_31 (suc (suc (suc (suc (suc zero))))) h = refl
or_31 (suc (suc (suc (suc (suc (suc zero)))))) h = refl
or_31 (suc (suc (suc (suc (suc (suc (suc zero))))))) h = refl
or_31 (suc (suc (suc (suc (suc (suc (suc (suc p)))))))) h = absurd (omega arith)

-- the fields that fit their bits
abbrev pub IsAdts : AudioConfig → Type 0
IsAdts c =
    (1 ≤ c.object_type)
    × (c.object_type ≤ 4)
    × (c.sample_rate_index < 16)
    × (1 ≤ c.channel_config)
    × (c.channel_config < 8)

byte2-eq :
    (c : AudioConfig)
    → IsAdts c
    → adts_byte2 c
      ≡ (c.object_type - 1) * 2 ^ 6 + c.sample_rate_index * 2 ^ 2 + c.channel_config / 4
unfolding adts_byte2
byte2-eq c (o1, o4, s, c1, c8) =
    rw
      (
        object,
        rate,
        channel,
        bit_or-shifted 6 (c.object_type - 1) (c.sample_rate_index * 2 ^ 2) (omega (arith, s)),
      )
      (bit_or-eq-add 2 ((c.object_type - 1) * 2 ^ 4 + c.sample_rate_index) _ (c.channel_config / 4)
        (omega arith) (omega (arith, c8)))
  where
    object :
        bit_and (sub64 c.object_type 1 % 2 ^ 8) 0x3 * 2 ^ 6 % 2 ^ 8 ≡ (c.object_type - 1) * 2 ^ 6
    object = omega (arith, bit_and-ones 2 (sub64 c.object_type 1 % 2 ^ 8), o1, o4)

    rate : bit_and (c.sample_rate_index % 2 ^ 8) 0xf * 2 ^ 2 % 2 ^ 8 ≡ c.sample_rate_index * 2 ^ 2
    rate = omega (arith, bit_and-ones 4 (c.sample_rate_index % 2 ^ 8), s)

    channel : bit_and (c.channel_config / 2 ^ 2 % 2 ^ 8) 0x1 ≡ c.channel_config / 4
    channel = omega (arith, bit_and-ones 1 (c.channel_config / 2 ^ 2 % 2 ^ 8), c8)

byte3-eq :
    (c : AudioConfig) (n : ℕ)
    → IsAdts c
    → n < 2 ^ 13
    → adts_byte3 c n ≡ c.channel_config % 4 * 2 ^ 6 + n / 2 ^ 11
unfolding adts_byte3
byte3-eq c n (o1, o4, s, c1, c8) small =
    rw (low, masked, high)
      (bit_or-eq-add 2 (c.channel_config % 4 * 2 ^ 4) _ (n / 2 ^ 11) (omega arith) (omega arith))
  where
    low : bit_and c.channel_config 0x3 % 2 ^ 8 * 2 ^ 6 % 2 ^ 8 ≡ c.channel_config % 4 * 2 ^ 6
    low = omega (arith, bit_and-ones 2 c.channel_config)

    high : bit_and (n / 2 ^ 11 % 2 ^ 8) 0x3 ≡ n / 2 ^ 11
    high = omega (arith, bit_and-ones 2 (n / 2 ^ 11 % 2 ^ 8))

    masked :
        bit_and (bit_or (bit_and 0x80 0x3f) (c.channel_config % 4 * 2 ^ 6)) 0xfc
        ≡ c.channel_config % 4 * 2 ^ 6
    masked =
        ap (λ (x : ℕ). bit_and x 0xfc)
          (bit_or-eq-add 8 0 0 (c.channel_config % 4 * 2 ^ 6) refl (omega arith))
        ∙ ap (λ (x : ℕ). bit_and x 0xfc) (zero-add (c.channel_config % 4 * 2 ^ 6))
        ∙ and_fc (c.channel_config % 4) (omega arith)

adts_channels-eq : (b2 b3 : ℕ) → b3 < 2 ^ 8 → adts_channels b2 b3 ≡ b2 % 2 * 2 ^ 2 + b3 / 2 ^ 6
unfolding adts_channels
adts_channels-eq b2 b3 h =
    rw (and_four (b2 * 2 ^ 2 % 2 ^ 8), bit_and-ones 2 (b3 / 2 ^ 6))
      (omega
        (arith, bit_or-shifted 2 (b2 * 2 ^ 2 % 2 ^ 8 / 4 % 2) (b3 / 2 ^ 6 % 2 ^ 2) (omega arith)))

adts_framelen-eq :
    (b3 b4 b5 : ℕ)
    → b4 < 2 ^ 8
    → b5 < 2 ^ 8
    → adts_framelen b3 b4 b5 ≡ b3 % 4 * 2 ^ 11 + b4 * 2 ^ 3 + b5 / 2 ^ 5
unfolding adts_framelen
adts_framelen-eq b3 b4 b5 h4 h5 =
    rw (bit_and-ones 2 b3, bit_or-shifted 11 (b3 % 2 ^ 2) (b4 * 2 ^ 3) (omega arith))
      (bit_or-eq-add 3 (b3 % 2 ^ 2 * 2 ^ 8 + b4) _ (b5 / 2 ^ 5) (omega arith) (omega arith))

-- The six bytes behind the first.
abbrev filled : AudioConfig → ℕ → ℕ → List ℕ → List ℕ
filled c n k tail =
    0xff
    ∷ 0xf1
    ∷ ((c.object_type - 1) * 2 ^ 6 + c.sample_rate_index * 2 ^ 2 + c.channel_config / 4)
    ∷ (c.channel_config % 4 * 2 ^ 6 + n / 2 ^ 11)
    ∷ (n / 2 ^ 3 % 2 ^ 8)
    ∷ (n % 8 * 2 ^ 5 + 31)
    ∷ (204 + k)
    ∷ tail

fill-filled :
    (header : List ℕ) (c : AudioConfig) (k payload : ℕ)
    → IsAdts c
    → 7 ≤ length header
    → k < 4
    → payload + 7 < 2 ^ 13
    → fill_adts_header header c ((k + 1) * 1024) payload
      ≡ some (filled c (payload + 7) k (drop 7 header))
unfolding fill_adts_header
fill-filled header c k payload is room few small =
    rw (long, whole, byte2-eq c is, byte3-eq c (payload + 7) is small, end, last) refl
  where
    long : ltb (length header) 7 ≡ false
    long = ground arith

    whole : add64 payload 7 ≡ payload + 7
    whole = omega arith

    end :
        bit_or (bit_and 0xff 0x1f) (bit_and ((payload + 7) % 2 ^ 8) 0x7 * 2 ^ 5 % 2 ^ 8)
        ≡ (payload + 7) % 8 * 2 ^ 5 + 31
    end =
        ap (λ (x : ℕ). bit_or 31 x) (omega (arith, bit_and-ones 3 ((payload + 7) % 2 ^ 8)))
        ∙ or_31 ((payload + 7) % 8) (omega arith)

    exact : (k : ℕ) → k < 4 → sub64 (signed_div ((k + 1) * 1024) 1024) 1 % 2 ^ 8 ≡ k
    exact k few = unfold signed_div in ground arith

    last : bit_or (bit_and 0xcd 0xfc) (sub64 (signed_div ((k + 1) * 1024) 1024) 1 % 2 ^ 8) ≡ 204 + k
    last = ap (λ (x : ℕ). bit_or 204 x) (exact k few) ∙ bit_or-eq-add 2 51 204 k refl (omega arith)

parse_bytes :
    (b2 b3 b4 b5 b6 : ℕ) (rest : List ℕ) (c : AudioConfig) (n k : ℕ)
    → (adts_channels b2 b3 ≡ c.channel_config) × (1 ≤ c.channel_config)
    → b2 / 2 ^ 6 + 1 ≡ c.object_type
    → bit_and (b2 / 2 ^ 2) 0xf ≡ c.sample_rate_index
    → (adts_framelen b3 b4 b5 ≡ n) × (7 ≤ n)
    → bit_and b6 0x3 ≡ k
    → parse_adts_header (0xff ∷ 0xf1 ∷ b2 ∷ b3 ∷ b4 ∷ b5 ∷ b6 ∷ rest)
      ≡ ok (record {
        config = complete (record c { sample_rate = 0; channel_layout = 0 });
        hdrlen = 7;
        framelen = n;
        samples = (k + 1) * 1024;
      })
unfolding parse_adts_header parse_adts_rest byte_at
parse_bytes b2 b3 b4 b5 b6 rest c n k (channels, some_channel) object rate (len, long) count =
    rw (channels, no_zero, object, rate, len, not_short, count) refl
  where
    no_zero : (c.channel_config == 0) ≡ false
    no_zero = ground arith

    not_short : ltb n 7 ≡ false
    not_short = ground arith

-- `ParseADTSHeader` gives back what `FillADTSHeader` was given: the fields of the configuration,
-- completed by the tables, the header's 7 bytes, the length of the frame with them, and the samples,
-- whatever stood in the header before and follows it.
pub parse_adts_header-fill_adts_header :
    (header rest : List ℕ) (c : AudioConfig) (k payload : ℕ)
    → IsAdts c
    → 7 ≤ length header
    → k < 4
    → payload + 7 < 2 ^ 13
    → (frame : List ℕ) × (fill_adts_header header c ((k + 1) * 1024) payload ≡ some frame)
      × (parse_adts_header (frame ++ rest)
          ≡ ok (record {
            config = complete (record c { sample_rate = 0; channel_layout = 0 });
            hdrlen = 7;
            framelen = payload + 7;
            samples = (k + 1) * 1024;
          }))
parse_adts_header-fill_adts_header header rest c k payload is room few small = (
  filled c (payload + 7) k (drop 7 header),
  fill-filled header c k payload is room few small,
  read is,
)
  where
    read :
        IsAdts c
        → parse_adts_header (filled c (payload + 7) k (drop 7 header) ++ rest)
          ≡ ok (record {
            config = complete (record c { sample_rate = 0; channel_layout = 0 });
            hdrlen = 7;
            framelen = payload + 7;
            samples = (k + 1) * 1024;
          })
    read (o1, o4, s, c1, c8) =
        parse_bytes _ _ _ _ _ (drop 7 header ++ rest) c (payload + 7) k
          (adts_channels-eq _ _ (omega (arith, c8)) ∙ omega (arith, c8), c1)
          (omega (arith, o1, s, c8)) (bit_and-ones 4 _ ∙ omega (arith, s, c8))
          (adts_framelen-eq _ _ _ (omega arith) (omega arith) ∙ omega (arith, small), omega arith)
          (bit_and-ones 2 (204 + k) ∙ omega arith)
