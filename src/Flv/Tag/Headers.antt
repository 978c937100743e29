-- ===== src/Flv/Tag/Headers.antt =====
-- The bytes of the headers of an FLV tag: what is filled in, and that it is parsed back.
use mse.Common.{
  ℕ, ◌+◌, ◌*◌, ◌/◌, ◌%◌, ◌^◌, ◌<◌, ◌≡◌, inl, inr, refl, ◌∙◌, arith, true, false, List, [], ◌++◌,
}
use mse.Common.{Bool-cases, ◌==◌, if◌then◌else◌, bit_and, bit_or}
use mse.Common.Bits.{bit_and-ones, bit_or-eq-add}
use mse.Common.Outcome.{ok, ◌>>=◌, ◌>>◌}
use mse.Pio.Layout.{byte, be24_signed, Fits}
use mse.Pio.Cursor.{bytes_of, Writes, write-Writes, nothing-Writes, then-Writes, if-Writes}
use mse.Pio.Fetch.{require, fetch, require-ok, fetch-bytes_of}
use mse.Flv.Tag.{
  empty_tag, FlvError, audio_invalid, video_invalid, audio_parse_header, audio_flags,
  audio_fill_header, video_parse_header, video_fill_header, fill_header, parse_header,
}
use mse.Flv.Tag.Content.{
  Content, audio, video, script, ContentFits, tag_of, header_bytes, has_avc, parsed, left_over,
  parsed_length,
}

flags-eq :
    (f r s t p : ℕ) (body : List ℕ)
    → (f < 16) × (r < 4) × (s < 2) × (t < 2)
    → audio_flags (tag_of (audio f r s t p) body) ≡ f * 16 + r * 4 + s * 2 + t
unfolding audio_flags
flags-eq f r s t p body (hf, hr, hs, ht) =
    rw
      (
        first,
        second,
        third,
        bit_or-eq-add 1 (f * 8 + r * 2 + s) (f * 16 + r * 4 + s * 2) t (omega arith) (omega arith),
      )
      refl
  where
    first : bit_or 0 (f * 2 ^ 4 % 2 ^ 8) ≡ f * 16
    first = bit_or-eq-add 8 0 0 (f * 2 ^ 4 % 2 ^ 8) refl (omega arith) ∙ omega arith

    second : bit_or (f * 16) (r * 2 ^ 2 % 2 ^ 8) ≡ f * 16 + r * 4
    second = bit_or-eq-add 4 f (f * 16) (r * 2 ^ 2 % 2 ^ 8) refl (omega arith) ∙ omega arith

    third : bit_or (f * 16 + r * 4) (s * 2 % 2 ^ 8) ≡ f * 16 + r * 4 + s * 2
    third =
        bit_or-eq-add 2 (f * 4 + r) (f * 16 + r * 4) (s * 2 % 2 ^ 8) (omega arith) (omega arith)
        ∙ omega arith

video_flags : (f c : ℕ) → f < 16 → c < 16 → bit_or (f * 2 ^ 4 % 2 ^ 8) c ≡ f * 16 + c
video_flags f c hf hc = bit_or-eq-add 4 f (f * 2 ^ 4 % 2 ^ 8) c (omega arith) hc ∙ omega arith

pub fill_header-Writes :
    (c : Content) (body : List ℕ)
    → ContentFits c
    → Writes (fill_header (tag_of c body)) (header_bytes c)
unfolding fill_header audio_fill_header video_fill_header
fill_header-Writes (audio f r s t p) body (hf, hr, hs, ht, hp) =
    rw (flags-eq f r s t p body (hf, hr, hs, ht))
      (then-Writes (write-Writes byte _) (if-Writes (f == 10) (write-Writes byte p) nothing-Writes))
fill_header-Writes (video f c p time) body (hf, hc, hp, ht) = rw (video_flags f c hf hc) (
    then-Writes (write-Writes byte (f * 16 + c))
      (then-Writes (write-Writes byte p) (write-Writes be24_signed time)))
fill_header-Writes script body h = nothing-Writes

module _ (f r s t : ℕ) (hf : f < 16) (hr : r < 4) (hs : s < 2) (ht : t < 2) where
  abbrev flags : ℕ
  flags = f * 16 + r * 4 + s * 2 + t

  rate-eq : bit_and (flags / 2 ^ 2) 0x3 ≡ r
  rate-eq = bit_and-ones 2 (flags / 2 ^ 2) ∙ omega arith

  size-eq : bit_and (flags / 2) 0x1 ≡ s
  size-eq = bit_and-ones 1 (flags / 2) ∙ omega arith

  type-eq : bit_and flags 0x1 ≡ t
  type-eq = bit_and-ones 1 flags ∙ omega arith

  format-eq : flags / 2 ^ 4 ≡ f
  format-eq = omega arith

  -- The first byte is parsed into the fields.
  audio-eq :
      (rest : List ℕ)
      → audio_parse_header (empty_tag 8) (record { rest = bytes_of byte flags ++ rest; pos = 0 })
        ≡ (if f == 10
            then (require 1 audio_invalid (record { rest = rest; pos = 1 })
                >> (fetch byte (record { rest = rest; pos = 1 }) >>= λ x.
                    ok (record (tag_of (audio f r s t 0) []) { aac_packet_type = x.0 }, x.1)))
            else ok (tag_of (audio f r s t 0) [], record { rest = rest; pos = 1 }))
  unfolding audio_parse_header
  audio-eq rest =
      rw
        (
          require-ok 1 audio_invalid (record { rest = bytes_of byte flags ++ rest; pos = 0 })
              (omega arith),
          fetch-bytes_of {E = FlvError} byte flags rest 0 (omega arith),
          format-eq,
          rate-eq,
          size-eq,
          type-eq,
        )
        refl

module _ (f c p time : ℕ) (body : List ℕ) (hf : f < 16) (hc : c < 16) (hp : p < 256)
    (ht : Fits be24_signed time) where
  abbrev behind : List ℕ
  behind = bytes_of byte p ++ (bytes_of be24_signed time ++ body)

  frame-eq : (f * 16 + c) / 2 ^ 4 ≡ f
  frame-eq = omega (arith, hc)

  codec-eq : bit_and (f * 16 + c) 0xf ≡ c
  codec-eq = bit_and-ones 4 (f * 16 + c) ∙ omega (arith, hc)

  -- The first byte is parsed into the frame type and the codec.
  video-eq :
      video_parse_header
        (empty_tag 9)
        (record { rest = bytes_of byte (f * 16 + c) ++ behind; pos = 0 })
      ≡ (if has_avc f
          then (require 4 video_invalid (record { rest = behind; pos = 1 })
              >> (fetch byte (record { rest = behind; pos = 1 }) >>= λ x.
                  fetch be24_signed x.1 >>= λ y. ok (
                    record (tag_of (video f c 0 0) []) {
                      avc_packet_type = x.0;
                      composition_time = y.0;
                    },
                    y.1,
                  )))
          else ok (tag_of (video f c 0 0) [], record { rest = behind; pos = 1 }))
  unfolding video_parse_header
  video-eq =
      rw
        (
          require-ok 1 video_invalid
              (record { rest = bytes_of byte (f * 16 + c) ++ behind; pos = 0 }) (omega arith),
          fetch-bytes_of {E = FlvError} byte (f * 16 + c) behind 0 (omega arith),
          frame-eq,
          codec-eq,
        )
        refl

  avc-eq :
      has_avc f ≡ true
      → video_parse_header
          (empty_tag 9)
          (record { rest = bytes_of byte (f * 16 + c) ++ behind; pos = 0 })
        ≡ ok (tag_of (video f c p time) [], record { rest = body; pos = 5 })
  avc-eq test =
      video-eq
      ∙ rw
          (
            test,
            require-ok 4 video_invalid (record { rest = behind; pos = 1 }) (omega arith),
            fetch-bytes_of {E = FlvError} byte p (bytes_of be24_signed time ++ body) 1 hp,
            fetch-bytes_of {E = FlvError} be24_signed time body 2 ht,
          )
          refl

pub parse_header-bytes :
    (c : Content) (body : List ℕ)
    → ContentFits c
    → parse_header
        (empty_tag (tag_of c []).kind)
        (record { rest = header_bytes c ++ body; pos = 0 })
      ≡ ok (tag_of (parsed c) [], record { rest = left_over c ++ body; pos = parsed_length c })
unfolding parse_header
parse_header-bytes (audio f r s t p) body (hf, hr, hs, ht, inl (aac, hp)) =
    let test : (f == 10) ≡ true = ground arith in
    rw test (
      audio-eq f r s t hf hr hs ht (bytes_of byte p ++ body)
      ∙ rw
          (
            test,
            require-ok 1 audio_invalid (record { rest = bytes_of byte p ++ body; pos = 1 })
                (omega arith),
            fetch-bytes_of {E = FlvError} byte p body 1 hp,
          )
          refl)
parse_header-bytes (audio f r s t p) body (hf, hr, hs, ht, inr (other, none_there)) =
    let test : (f == 10) ≡ false = ground arith in
    rw (test, none_there) (audio-eq f r s t hf hr hs ht body ∙ rw test)
parse_header-bytes (video f c p time) body (hf, hc, hp, ht) = elim (Bool-cases (has_avc f)) [
  | inl test ↦ rw test (avc-eq f c p time body hf hc hp ht test)
  | inr test ↦ rw test (video-eq f c p time body hf hc hp ht ∙ rw test)
]
parse_header-bytes script body h = refl
