-- ===== src/Flv/Tag/Writer.antt =====
-- format/flv/flvio/flvio.go: writing a whole tag.
use mse.Common.{ℕ, ◌+◌, ◌-◌, List, ◌++◌, Option, some, length, take}
use mse.Common.Maybe.{◌>>=◌}
use mse.Flv.Tag.{Tag, fill_header, fill_tag_header, fill_tag_trailer}

-- `WriteTag`: the bytes that it writes, with the scratch buffer `b`
unfoldable pub write_tag : Tag → ℕ → List ℕ → Option (List ℕ)
write_tag t ts b = do
  (b1, n) ← fill_header t b 11
  let datalen = length t.body + (n - 11)
  (b2, k) ← fill_tag_header t.kind datalen ts b1 0
  (b3, m) ← fill_tag_trailer datalen b2 0
  some (take (n - 11 + k) b2 ++ (t.body ++ take m b3))
