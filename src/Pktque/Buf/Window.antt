-- ===== src/Pktque/Buf/Window.antt =====
-- What a ring of `cap` cells shows from a position on, going round at the end.
use mse.Common.{
  ℕ, zero, suc, ◌+◌, ◌-◌, ◌*◌, ◌/◌, ◌%◌, ◌^◌, ◌≤◌, ◌<◌, ◌≡◌, refl, sym, ap, ap₂, ◌∙◌, ◌≢◌,
}
use mse.Common.{List, [], ◌∷◌, ◌++◌, length, get_or, set, get_or-set_self, get_or-set_ne, arith}
use native.Mathlib.Nat.{pow-suc, mod-eq_of_lt, mul-add-mod_self_left, div-add-mod, mod-add-mod}
use native.Mathlib.Nat.{add-zero, le_trans, mod-lt, mod-eq-sub-mod}
use native.Mathlib.Decide.{dec_lt}

pow_add : (k j : ℕ) → 2 ^ (k + j) ≡ 2 ^ k * 2 ^ j
pow_add zero j = rw Prim.Native.Nat.add.zero (omega arith)
pow_add (suc k) j = rw Prim.Native.Nat.add.suc (
    omega
      (arith, pow_add k j, pow-suc 2 (k + j), pow-suc 2 k, ap (λ (t : ℕ). t * 2 ^ j) (pow-suc 2 k)))

-- A power of two divides 2 ^ 64, so a position may wrap.
pub mod_pow-mod : (k j x : ℕ) → x % 2 ^ (k + j) % 2 ^ k ≡ x % 2 ^ k
mod_pow-mod k j x =
    let q = x / 2 ^ (k + j) in
    let e : 2 ^ k * (2 ^ j * q) + x % 2 ^ (k + j) ≡ x =
      omega (arith, div-add-mod x (2 ^ (k + j)), ap (λ (t : ℕ). t * q) (pow_add k j)) in
    sym (mul-add-mod_self_left (2 ^ k) (2 ^ j * q) (x % 2 ^ (k + j))) ∙ ap (λ (t : ℕ). t % 2 ^ k) e

pub mod_add_congr : (a b c m : ℕ) → a % m ≡ b % m → (a + c) % m ≡ (b + c) % m
mod_add_congr a b c m e =
    sym (mod-add-mod a m c) ∙ ap (λ (t : ℕ). (t + c) % m) e ∙ mod-add-mod b m c

-- Fewer than `cap` steps round the ring do not come back to the start.
pub add-mod-ne : (cap h n : ℕ) → n < cap → 0 < n → (h + n) % cap ≢ h % cap
add-mod-ne cap h n hn hz = elim (dec_lt (h % cap + n) cap) [
  | yes p ↦ omega (arith, mod-add-mod h cap n, mod-eq_of_lt p)
  | no p ↦
      let small = mod-lt h {m = cap} (omega arith) in
      omega (
        arith,
        mod-add-mod h cap n,
        mod-eq-sub-mod {n = h % cap + n} {m = cap} (omega arith),
        mod-eq_of_lt {n = h % cap + n - cap} {m = cap} (omega arith),
      )
]

module _ {ℓ} {A : Type ℓ} (d : A) (cap : ℕ) where
  abbrev pub window : List A → ℕ → ℕ → List A
  window buf h zero = []
  window buf h (suc n) = get_or buf (h % cap) d ∷ window buf (h + 1) n

  pub length-window : (buf : List A) (h n : ℕ) → length (window buf h n) ≡ n
  length-window buf h zero = refl
  length-window buf h (suc n) = ap suc (length-window buf (h + 1) n)

  -- `window` matches on `suc`, the code tests `count == 0`.
  pub window_of_pos :
      (buf : List A) (h n : ℕ)
      → 0 < n
      → window buf h n ≡ get_or buf (h % cap) d ∷ window buf (h + 1) (n - 1)
  window_of_pos buf h zero p = absurd (omega arith)
  window_of_pos buf h (suc n) p =
      let e : n ≡ suc n - 1 = omega arith in ap (λ k. window buf h (suc k)) e

  pub window-congr :
      (buf : List A) (h k n : ℕ) → h % cap ≡ k % cap → window buf h n ≡ window buf k n
  window-congr buf h k zero e = refl
  window-congr buf h k (suc n) e =
      ap₂ ◌∷◌ (ap (λ (i : ℕ). get_or buf i d) e)
        (window-congr buf (h + 1) (k + 1) n (mod_add_congr h k 1 cap e))

  -- The cells of a window are its ring's.
  pub get_or-window :
      (buf : List A) (h n j : ℕ)
      → j < n
      → get_or (window buf h n) j d ≡ get_or buf ((h + j) % cap) d
  get_or-window buf h zero j p = absurd (omega arith)
  get_or-window buf h (suc n) zero p =
      let e : h ≡ h + 0 = omega arith in ap (λ (i : ℕ). get_or buf (i % cap) d) e
  get_or-window buf h (suc n) (suc j) p =
      let e : h + 1 + j ≡ h + suc j = omega arith in
      get_or-window buf (h + 1) n j (omega arith) ∙ ap (λ (i : ℕ). get_or buf (i % cap) d) e

  -- A write to a cell that the window does not show.
  pub window-set_ne :
      (buf : List A) (i : ℕ) (x : A) (h n : ℕ)
      → ((j : ℕ) → j < n → (h + j) % cap ≢ i)
      → window (set buf i x) h n ≡ window buf h n
  window-set_ne buf i x h zero p = refl
  window-set_ne buf i x h (suc n) p =
      ap₂ ◌∷◌ (get_or-set_ne buf i (h % cap) x d (λ e. p 0 (omega arith) (shift (sym e))))
        (window-set_ne buf i x (h + 1) n (λ j q e. p (suc j) (omega arith) (next j e)))
    where
      shift : h % cap ≡ i → (h + 0) % cap ≡ i
      shift e = let z : h + 0 ≡ h = omega arith in ap (λ (t : ℕ). t % cap) z ∙ e

      next : (j : ℕ) → (h + 1 + j) % cap ≡ i → (h + suc j) % cap ≡ i
      next j e = let z : h + suc j ≡ h + 1 + j = omega arith in ap (λ (t : ℕ). t % cap) z ∙ e

  -- The first cell, and the cell behind the last, are not shown by the rest.
  pub window-set_first :
      (buf : List A) (x : A) (h n : ℕ)
      → n < cap
      → window (set buf (h % cap) x) (h + 1) n ≡ window buf (h + 1) n
  window-set_first buf x h n p = window-set_ne buf (h % cap) x (h + 1) n λ j q e.
      let z : h + suc j ≡ h + 1 + j = omega arith in
      add-mod-ne cap h (suc j) (omega arith) (omega arith) (ap (λ (t : ℕ). t % cap) z ∙ e)

  -- Writing just behind a window with room extends it.
  pub window-set_last :
      (buf : List A) (x : A) (h n i : ℕ)
      → cap ≤ length buf
      → n < cap
      → i ≡ (h + n) % cap
      → window (set buf i x) h (suc n) ≡ window buf h n ++ x ∷ []
  window-set_last buf x h zero i room p e =
      let z : i ≡ h % cap = e ∙ ap (λ (t : ℕ). t % cap) (add-zero h) in
      rw z (
        ap (λ (y : A). y ∷ [])
          (get_or-set_self buf (h % cap) x d (le_trans (mod-lt h {m = cap} p) room)))
  window-set_last buf x h (suc n) i room p e =
      let z : h + suc n ≡ h + 1 + n = omega arith in
      ap₂ ◌∷◌
        (get_or-set_ne buf i (h % cap) x d
          (λ q. add-mod-ne cap h (suc n) p (omega arith) (sym e ∙ q)))
        (window-set_last buf x (h + 1) n i room (omega arith) (e ∙ ap (λ (t : ℕ). t % cap) z))
