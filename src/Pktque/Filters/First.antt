-- ===== src/Pktque/Filters/First.antt =====
-- The search of the filter `AVSync` of av/pktque/filters.go for the smallest and the largest time.
use mse.Common.{ℕ, suc, ◌≡◌, inl, inr, refl, sym, ap, ◌∙◌, arith}
use mse.Common.{
  Bool, true, false, List, [], ◌∷◌, ◌++◌, some, if◌then◌else◌, Bool-cases, length, length-append,
  All,
}
use mathlib.Core.List.{append_assoc, append-nil}
use mathlib.Core.Path.{subst}
use mse.Common.Word.{slt}
use mse.Pktque.Filters.{lower, upper, min_max}

-- `i` is the index of the first of the best times, `m`: all before it are worse, and none behind it is
-- better.
pub record First (better : ℕ → ℕ → Bool) (times : List ℕ) (i m : ℕ) : Type 0 where
  pub before : List ℕ
  pub after : List ℕ
  pub split : times ≡ before ++ m ∷ after
  pub index : length before ≡ i
  pub worse : All (λ x. better m x ≡ true) before
  pub no_better : All (λ x. better x m ≡ false) after

All-append : (P : ℕ → Type 0) (xs ys : List ℕ) → All P xs → All P ys → All P (xs ++ ys)
All-append P [] ys h k = k
All-append P (x ∷ xs) ys (first, h) k = (first, All-append P xs ys h k)

All-map : (P Q : ℕ → Type 0) (xs : List ℕ) → ((x : ℕ) → P x → Q x) → All P xs → All Q xs
All-map P Q [] f h = tt
All-map P Q (x ∷ xs) f (first, h) = (f x first, All-map P Q xs f h)

-- a step of the search for the best
keep : (ℕ → ℕ → Bool) → ℕ × ℕ → ℕ → ℕ → ℕ × ℕ
keep better (i, s) j t = if better t s then (j, t) else (i, s)

pub scan : (ℕ → ℕ → Bool) → List ℕ → ℕ → ℕ × ℕ → ℕ × ℕ
scan better [] j found = found
scan better (t ∷ ts) j found = scan better ts (suc j) (keep better found j t)

module _ (better : ℕ → ℕ → Bool)
    (trans : (a b c : ℕ) → better a b ≡ true → better b c ≡ true → better a c ≡ true)
    (over : (a b c : ℕ) → better a b ≡ true → better c b ≡ false → better a c ≡ true) where
  keep-First :
      (pre : List ℕ) (i s t : ℕ)
      → First better pre i s
      → First better
          (pre ++ t ∷ [])
          (keep better (i, s) (length pre) t).0
          (keep better (i, s) (length pre) t).1
  unfolding keep
  keep-First pre i s t f = elim (Bool-cases (better t s)) [
    | inl e ↦ rw e (record {
      before = pre;
      after = [];
      split = refl;
      index = refl;
      worse =
          subst (λ (l : List ℕ). All (λ x. better t x ≡ true) l) (sym f.split)
            (All-append _ f.before (s ∷ f.after)
              (All-map (λ x. better s x ≡ true) _ f.before (λ x h. trans t s x e h) f.worse)
              (e, All-map (λ x. better x s ≡ false) _ f.after (λ x h. over t s x e h) f.no_better));
      no_better = tt;
    })
    | inr e ↦ rw e (record {
      before = f.before;
      after = f.after ++ t ∷ [];
      split =
          ap (λ (l : List ℕ). l ++ t ∷ []) f.split ∙ append_assoc f.before (s ∷ f.after) (t ∷ []);
      index = f.index;
      worse = f.worse;
      no_better = All-append _ f.after (t ∷ []) f.no_better (e, tt);
    })
  ]

  scan-First :
      (pre ts : List ℕ) (i s : ℕ)
      → First better pre i s
      → First better
          (pre ++ ts)
          (scan better ts (length pre) (i, s)).0
          (scan better ts (length pre) (i, s)).1
  unfolding scan
  scan-First pre [] i s f = rw (append-nil pre) f
  scan-First pre (t ∷ ts) i s f =
      let next : ℕ × ℕ = keep better (i, s) (length pre) t in
      let one_more : length (pre ++ t ∷ []) ≡ suc (length pre) =
        omega (arith, length-append pre (t ∷ [])) in
      let rest = scan-First (pre ++ t ∷ []) ts next.0 next.1 (keep-First pre i s t f) in
      rw one_more at (rw (append_assoc pre (t ∷ []) ts) at rest)

abbrev pub earlier : ℕ → ℕ → Bool
earlier t s = slt t s

abbrev pub later : ℕ → ℕ → Bool
later t s = slt s t

pub min_max-scan :
    (ts : List ℕ) (j : ℕ) (lo hi : ℕ × ℕ)
    → min_max ts j (some lo) (some hi) ≡ (some (scan earlier ts j lo), some (scan later ts j hi))
unfolding min_max scan keep lower upper
min_max-scan [] j lo hi = refl
min_max-scan (t ∷ ts) j lo hi =
    let low : lower (some lo) j t ≡ some (keep earlier lo j t) = ground arith in
    let high : upper (some hi) j t ≡ some (keep later hi j t) = ground arith in
    rw (low, high) (min_max-scan ts (suc j) (keep earlier lo j t) (keep later hi j t))

pub earliest :
    (t : ℕ) (ts : List ℕ)
    → First earlier (t ∷ ts) (scan earlier ts 1 (0, t)).0 (scan earlier ts 1 (0, t)).1
earliest t ts =
    scan-First earlier (λ a b c h k. ground arith) (λ a b c h k. ground arith) (t ∷ []) ts 0 t
      (record { before = []; after = []; split = refl; index = refl; worse = tt; no_better = tt })

pub latest :
    (t : ℕ) (ts : List ℕ)
    → First later (t ∷ ts) (scan later ts 1 (0, t)).0 (scan later ts 1 (0, t)).1
latest t ts =
    scan-First later (λ a b c h k. ground arith) (λ a b c h k. ground arith) (t ∷ []) ts 0 t
      (record { before = []; after = []; split = refl; index = refl; worse = tt; no_better = tt })
