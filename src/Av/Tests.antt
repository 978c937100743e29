-- ===== src/Av/Tests.antt =====
-- The channel counts of av/av.go at concrete layouts.
use mse.Common.{◌≡◌, refl, some, arith}
use mse.Av.Channels.{channel_count, ones, channel_count-ones}

ones-stereo : ones 16 0b110 ≡ 2
unfolding ones
ones-stereo = refl

channel_count-ones_example : channel_count 0b100110111 ≡ some (ones 16 0b100110111)
channel_count-ones_example = channel_count-ones 0b100110111 (omega arith)
