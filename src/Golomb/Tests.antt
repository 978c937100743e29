-- ===== src/Golomb/Tests.antt =====
-- Runs of the reader of golomb_reader.go, and its theorems at concrete values.
use mse.Common.{◌≡◌, refl, [], ◌∷◌, arith}
use mse.Golomb.{GolombReader, read_bits, read_exponential_golomb_code, read_se}
use mse.Golomb.Pending.{bits_of, stream_bits, pending, Gives}
use mse.Golomb.Codes.{value, read_bits-value, read_exponential_golomb_code-value, read_se-value}

-- The code 00101, of 4, and three more bits.
abbrev fourth : GolombReader
fourth = record { src = 0b00101_110 ∷ []; buf = 0; left = 0 }

pending-fourth : pending fourth ≡ 0 ∷ 0 ∷ 1 ∷ 0 ∷ 1 ∷ 1 ∷ 1 ∷ 0 ∷ []
unfolding pending bits_of stream_bits
pending-fourth = refl

read_bits-value_example : Gives (read_bits fourth 3) 1 (0 ∷ 1 ∷ 1 ∷ 1 ∷ 0 ∷ [])
unfolding value
read_bits-value_example =
    read_bits-value fourth (0 ∷ 0 ∷ 1 ∷ []) (0 ∷ 1 ∷ 1 ∷ 1 ∷ 0 ∷ [])
      (omega arith, (omega arith, (omega arith, tt))) (omega arith) pending-fourth

read_exponential_golomb_code-value_example :
    Gives (read_exponential_golomb_code fourth) 4 (1 ∷ 1 ∷ 0 ∷ [])
unfolding value
read_exponential_golomb_code-value_example =
    read_exponential_golomb_code-value fourth (0 ∷ 1 ∷ []) (1 ∷ 1 ∷ 0 ∷ [])
      (omega arith, (omega arith, tt)) (omega arith) pending-fourth

read_se-value_example : Gives (read_se fourth) 9223372036854775806 (1 ∷ 1 ∷ 0 ∷ [])
unfolding value
read_se-value_example =
    read_se-value fourth (0 ∷ 1 ∷ []) (1 ∷ 1 ∷ 0 ∷ []) 2 1 (omega arith, (omega arith, tt))
      (omega arith) pending-fourth (omega arith) refl (omega arith)
