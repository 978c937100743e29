-- ===== src/Flv/Amf0/Date.antt =====
-- format/flv/flvio/amf0.go: the dates of AMF0, a `float64` of milliseconds. A `time.Time` is the
-- pattern of its `int64` of seconds since 1970 and its nanoseconds within the second. Go's floats
-- are their IEEE 754 patterns, with the operations that the conversions of a date use; an `int64` of
-- a float out of its range is -2 ^ 63, as on amd64.
pub mod RoundTrip
use mse.Common.{ℕ, zero, suc, ◌+◌, ◌-◌, ◌*◌, ◌/◌, ◌%◌, ◌^◌}
use mse.Common.{ltb, leb, ◌==◌, ◌&&◌, ◌||◌, if◌then◌else◌}
use mse.Common.Word.{signed_div, is_neg, negate}

-- the place of the highest bit of a number below 2 ^ (k + 1)
unfoldable pub top_bit : ℕ → ℕ → ℕ
top_bit zero n = 0
top_bit (suc k) n = let rest = top_bit k n in if leb (2 ^ suc k) n then suc k else rest

-- `float64(n)`, of a number below 2 ^ 44, which is exact
unfoldable pub float_of_nat : ℕ → ℕ
float_of_nat n =
    let k = top_bit 43 n in if n == 0 then 0 else (1023 + k) * 2 ^ 52 + (n * 2 ^ (52 - k) - 2 ^ 52)

-- `float64(x)`, of an `int64` between -2 ^ 44 and 2 ^ 44, as 10 ^ 6 leaves of any
unfoldable pub float_of_int : ℕ → ℕ
float_of_int x = if is_neg x then 2 ^ 63 + float_of_nat (negate x) else float_of_nat x

unfoldable pub exponent : ℕ → ℕ
exponent f = f / 2 ^ 52 % 2 ^ 11

-- with the bit that a normal float leaves out
unfoldable pub mantissa : ℕ → ℕ
mantissa f = 2 ^ 52 + f % 2 ^ 52

-- `int64(f)`, which rounds towards zero
unfoldable pub int_of_float : ℕ → ℕ
int_of_float f =
    if ltb (exponent f) 1023
    then 0
    else if leb 1086 (exponent f)
    then 2 ^ 63
    else (let size =
          if leb (exponent f) 1075
          then mantissa f / 2 ^ (1075 - exponent f)
          else mantissa f * 2 ^ (exponent f - 1075) in
        if leb (2 ^ 63) f then negate size else size)

-- n / d to the nearest number, of two as near to the even one
unfoldable pub nearest_even : ℕ → ℕ → ℕ
nearest_even n d =
    if ltb d (2 * (n % d)) || ((2 * (n % d) == d) && (n / d % 2 == 1)) then suc (n / d) else n / d

-- `f / 1000`, of a finite float of one or more or minus one or less
unfoldable pub div_1000 : ℕ → ℕ
div_1000 f =
    let shift = if leb (2 ^ 53 * 1000) (mantissa f * 2 ^ 10) then 9 else 10 in
    f / 2 ^ 63 * 2 ^ 63
    + ((exponent f - shift) * 2 ^ 52 + (nearest_even (mantissa f * 2 ^ shift) 1000 - 2 ^ 52))

-- `int64(ts/1000)`: infinities and what is no number stay so, and a smaller float becomes zero
unfoldable pub seconds : ℕ → ℕ
seconds f =
    if ltb (exponent f) 1023
    then 0
    else if exponent f == 2047
    then int_of_float f
    else int_of_float (div_1000 f)

-- `time.Unix(int64(ts/1000), (int64(ts)%1000)*1000000)`, where negative nanoseconds count back from
-- the second
unfoldable pub time_of_float : ℕ → ℕ × ℕ
time_of_float f =
    let ms = int_of_float f in
    if is_neg ms && ltb 0 (negate ms % 1000)
    then ((seconds f + (2 ^ 64 - 1)) % 2 ^ 64, 1_000_000_000 - negate ms % 1000 * 1_000_000)
    else if is_neg ms
    then (seconds f, 0)
    else (seconds f, ms % 1000 * 1_000_000)

-- `float64(val.UnixNano() / 1000000)`
unfoldable pub float_of_time : ℕ → ℕ → ℕ
float_of_time sec nsec = float_of_int (signed_div ((sec * 1_000_000_000 + nsec) % 2 ^ 64) 1_000_000)
