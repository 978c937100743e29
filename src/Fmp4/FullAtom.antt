-- ===== src/Fmp4/FullAtom.antt =====
-- format/fmp4/fmp4io/atom.go: the version and the flags with which many boxes begin.
use mse.Common.{ℕ, ◌+◌, ◌<◌, ◌^◌, ◌≡◌, refl, arith, List, [], ◌∷◌, ◌++◌}
use mse.Common.Outcome.{ok, ◌>>=◌, ◌>>◌}
use mse.Pio.Layout.{byte, be24}
use mse.Pio.Cursor.{Write, ◌then_write◌, write, bytes_of, Writes, write-Writes, then-Writes}
use mse.Pio.Fetch.{Cursor, Trace, advance, require, require-ok, fetch, fetch-bytes_of}
use mse.Fmp4.Box.{Message, in_full_atom, Result, AtomPos, set_pos}

-- `FullAtom`
pub record FullAtom : Type 0 where
  pub version : ℕ
  pub flags : ℕ
  pub pos : AtomPos

-- `marshalAtom`, behind the tag
unfoldable pub marshal_full_atom : FullAtom → Write
marshal_full_atom a = write byte a.version then_write write be24 a.flags

-- `unmarshalAtom`; its error names the position of the box
unfoldable pub unmarshal_full_atom : Cursor → Result FullAtom
unmarshal_full_atom c = do
  require 4 ((in_full_atom, c.pos) ∷ []) (advance 8 c)
  (version, c1) ← fetch byte (advance 8 c)
  (flags, c2) ← fetch be24 c1
  ok (record { version = version; flags = flags; pos = set_pos c }, c2)

abbrev pub full_atom_bytes : FullAtom → List ℕ
full_atom_bytes a = bytes_of byte a.version ++ bytes_of be24 a.flags

pub full_atom-Writes : (a : FullAtom) → Writes (marshal_full_atom a) (full_atom_bytes a)
unfolding marshal_full_atom
full_atom-Writes a = then-Writes (write-Writes byte a.version) (write-Writes be24 a.flags)

pub unmarshal-full_atom_bytes :
    (a : FullAtom) (c : Cursor) (rest : List ℕ)
    → a.version < 256
    → a.flags < 2 ^ 24
    → (advance 8 c).rest ≡ full_atom_bytes a ++ rest
    → unmarshal_full_atom c
      ≡ ok (record a { pos = set_pos c }, record { rest = rest; pos = c.pos + 8 + 1 + 3 })
unfolding unmarshal_full_atom
unmarshal-full_atom_bytes a c rest hv hf behind =
    rw
      (
        behind,
        require-ok {E = Trace Message} 4 ((in_full_atom, c.pos) ∷ [])
            (record { rest = full_atom_bytes a ++ rest; pos = c.pos + 8 }) (omega arith),
        fetch-bytes_of {E = Trace Message} byte a.version (bytes_of be24 a.flags ++ rest)
            (c.pos + 8) hv,
        fetch-bytes_of {E = Trace Message} be24 a.flags rest (c.pos + 8 + 1) hf,
      )
      refl
