-- ===== src/Pktque/Buf/Grow.antt =====
-- `grow` of av/pktque/buf.go copies every packet to the slot that its position has in the new ring.
use mse.Common.{ℕ, zero, suc, ◌+◌, ◌%◌, ◌^◌, ◌≤◌, ◌<◌, ◌≡◌, ◌≢◌, refl, sym, ap, ap₂, ◌∙◌, arith}
use mse.Common.{List, ◌∷◌, Option, some, length, get_or, set, true, false, le→ltb_false}
use mse.Common.{length-set, get_or-set_self, get_or-set_ne, get_elem?-eq-get_or, set?-eq-set}
use mse.Common.Word.{add64, IsWord}
use mse.Av.{Packet, zero_packet}
use mse.Pktque.Buf.{pos_lt, grow_loop}
use mse.Pktque.Buf.Positions.{word-mod, slot-eq-mod, pos_lt-add, mod_in_range, pow_small}
use mse.Pktque.Buf.Window.{window, window-congr, add-mod-ne, mod_add_congr}
use native.Mathlib.Nat.{add-zero, pow-suc}

abbrev pub cell : List Packet → ℕ → Packet
cell pkts i = get_or pkts i zero_packet

abbrev pub cells_from : ℕ → List Packet → ℕ → ℕ → List Packet
cells_from k = window zero_packet (2 ^ k)

-- What the loop leaves in the new ring, from position `i` with `n` packets to copy.
pub record Copied (k i n : ℕ) (old new : List Packet) (result : Option (List Packet)) : Type 0 where
  pub out : List Packet
  pub returns : result ≡ some out
  pub same_length : length out ≡ length new
  pub inside : cells_from (suc k) out i n ≡ cells_from k old i n
  pub outside : (c : ℕ) → ((j : ℕ) → j < n → (i + j) % 2 ^ suc k ≢ c) → cell out c ≡ cell new c

module _ (k : ℕ) (old : List Packet) (small : suc k ≤ 62) (len_old : length old ≡ 2 ^ k) where
  -- One round reads the old slot, writes the new one and goes on.
  grow_loop-suc :
      (fuel i tail : ℕ) (new : List Packet)
      → length new ≡ 2 ^ suc k
      → pos_lt i tail ≡ true
      → grow_loop (suc fuel) i tail old new
        ≡ grow_loop fuel (add64 i 1) tail old (set new (i % 2 ^ suc k) (cell old (i % 2 ^ k)))
  unfolding grow_loop
  grow_loop-suc fuel i tail new len_new lt = rw (
    lt,
    slot-eq-mod k i old len_old,
    slot-eq-mod (suc k) i new len_new,
    get_elem?-eq-get_or old (i % 2 ^ k) zero_packet (mod_in_range k i old len_old),
    set?-eq-set new (i % 2 ^ suc k) (cell old (i % 2 ^ k)) (mod_in_range (suc k) i new len_new),
  )

  abbrev copied_first : ℕ → List Packet → List Packet
  copied_first i new = set new (i % 2 ^ suc k) (cell old (i % 2 ^ k))

  -- The position after `i`, which may wrap, has the slot behind that of `i`.
  next_slot : (j i m : ℕ) → j ≤ 64 → (add64 i 1 + m) % 2 ^ j ≡ (i + suc m) % 2 ^ j
  next_slot j i m h =
      let z : i + 1 + m ≡ i + suc m = omega arith in
      mod_add_congr (add64 i 1) (i + 1) m (2 ^ j) (word-mod j (i + 1) h)
      ∙ ap (λ (t : ℕ). t % 2 ^ j) z

  window_next :
      (j i m : ℕ) (pkts : List Packet)
      → j ≤ 64
      → cells_from j pkts (add64 i 1) m ≡ cells_from j pkts (i + 1) m
  window_next j i m pkts h =
      window-congr zero_packet (2 ^ j) pkts (add64 i 1) (i + 1) m (word-mod j (i + 1) h)

  -- The first packet's copy survives the later rounds.
  first_stays :
      (n i : ℕ) (new : List Packet) {r : Option (List Packet)}
      → suc n ≤ 2 ^ k
      → length new ≡ 2 ^ suc k
      → (rest : Copied k (add64 i 1) n old (copied_first i new) r)
      → cell rest.out (i % 2 ^ suc k) ≡ cell old (i % 2 ^ k)
  first_stays n i new hn len_new rest =
      rest.outside (i % 2 ^ suc k) (λ j hj e.
        add-mod-ne (2 ^ suc k) i (suc j) (omega (arith, pow-suc 2 k)) (omega arith)
          (sym (next_slot (suc k) i j (omega arith)) ∙ e))
      ∙ get_or-set_self new (i % 2 ^ suc k) (cell old (i % 2 ^ k)) zero_packet
          (mod_in_range (suc k) i new len_new)

  Copied-suc :
      (n i : ℕ) (new : List Packet) {r s : Option (List Packet)}
      → suc n ≤ 2 ^ k
      → length new ≡ 2 ^ suc k
      → s ≡ r
      → Copied k (add64 i 1) n old (copied_first i new) r
      → Copied k i (suc n) old new s
  Copied-suc n i new hn len_new e rest = record {
    out = rest.out;
    returns = e ∙ rest.returns;
    same_length = rest.same_length ∙ length-set new _ _;
    inside = ap₂ ◌∷◌ (first_stays n i new hn len_new rest) (
        sym (window_next (suc k) i n rest.out (omega arith))
        ∙ rest.inside
        ∙ window_next k i n old (omega arith));
    outside = λ c h.
        rest.outside c
          (λ j hj d. h (suc j) (omega arith) (sym (next_slot (suc k) i j (omega arith)) ∙ d))
        ∙ get_or-set_ne new (i % 2 ^ suc k) c _ zero_packet
            (λ d. h 0 (omega arith) (ap (λ (t : ℕ). t % 2 ^ suc k) (add-zero i) ∙ d));
  }

  grow_loop_done :
      (fuel i tail : ℕ) (new : List Packet)
      → pos_lt i tail ≡ false
      → grow_loop fuel i tail old new ≡ some new
  unfolding grow_loop
  grow_loop_done zero i tail new e = rw e
  grow_loop_done (suc fuel) i tail new e = rw e

  pub grow_loop-Copied :
      (fuel n i tail : ℕ) (new : List Packet)
      → IsWord i
      → n ≤ fuel
      → n ≤ 2 ^ k
      → tail ≡ (i + n) % 2 ^ 64
      → length new ≡ 2 ^ suc k
      → Copied k i n old new (grow_loop fuel i tail old new)
  grow_loop-Copied fuel zero i tail new wi hf hn ht len_new = record {
    out = new;
    returns = grow_loop_done fuel i tail new (le→ltb_false _ _ (omega arith));
    same_length = refl;
    inside = refl;
    outside = λ c h. refl;
  }
  grow_loop-Copied zero (suc n) i tail new wi hf hn ht len_new = absurd (omega arith)
  grow_loop-Copied (suc fuel) (suc n) i tail new wi hf hn ht len_new =
      Copied-suc n i new hn len_new
        (grow_loop-suc fuel i tail new len_new (
          rw ht (pos_lt-add i (suc n) wi (omega arith) (omega (arith, pow_small k (omega arith))))))
        (grow_loop-Copied fuel n (add64 i 1) tail (copied_first i new) (omega arith) (omega arith)
          (omega arith) (omega arith) (length-set new _ _ ∙ len_new))
