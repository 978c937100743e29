-- ===== src/Pktque/Filters/Sync.antt =====
-- The window that the filter `AVSync` of av/pktque/filters.go lets packets through, and its verdict.
use mse.Common.{ℕ, ◌*◌, ◌≡◌, ◌⊎◌, inl, inr, refl, sym, ◌∙◌, arith}
use mse.Common.{
  Bool, true, false, not, ◌&&◌, List, [], ◌∷◌, Option, none, some, ◌==◌, ltb, if◌then◌else◌,
  Bool-cases, length, replicate, Option-cases,
}
use mse.Common.Maybe.{>>=-eq-some}
use mathlib.Core.Path.{subst}
use mse.Common.Word.{add64, slt}
use mse.Av.{Packet}
use mse.Pktque.Filters.{
  millisecond, lower, upper, min_max, Window, window_of, check, judge, set_time, av_sync_times,
}
use mse.Pktque.Filters.Laws.{AtMost}
use mse.Pktque.Filters.First.{First, scan, earlier, later, min_max-scan, earliest, latest}

-- The window for a packet of the stream `i`: it opens at the smallest stream time, and may be
-- corrected unless `i` is the first stream with the largest time, and that is not the smallest.
pub record Opens (diff : ℕ) (times : List ℕ) (i : ℕ) (w : Window) : Type 0 where
  pub first_index : ℕ
  pub last_index : ℕ
  pub largest : ℕ
  pub is_smallest : First earlier times first_index w.start
  pub is_largest : First later times last_index largest
  pub end_is : w.end ≡ add64 w.start diff
  pub time_is : w.correcttime ≡ add64 w.start (millisecond * 40)
  pub correctable_is :
      w.correctable ≡ (if ltb i 128 && (i == last_index) then w.start == largest else true)

check-Opens :
    (diff : ℕ) (times : List ℕ) (i : ℕ) {w : Window}
    → check diff times i ≡ some w
    → Opens diff times i w
unfolding check min_max lower upper window_of
check-Opens diff [] i e = unfold window_of in cc
check-Opens diff (t ∷ ts) i {w} e = subst (λ (v : Window). Opens diff (t ∷ ts) i v) same made
  where
    lo : ℕ × ℕ
    lo = scan earlier ts 1 (0, t)

    hi : ℕ × ℕ
    hi = scan later ts 1 (0, t)

    window : Window
    window = record {
      start = lo.1;
      end = add64 lo.1 diff;
      correctable = if ltb i 128 && (i == hi.0) then lo.1 == hi.1 else true;
      correcttime = add64 lo.1 (millisecond * 40);
    }

    same : window ≡ w
    same =
        let is : check diff (t ∷ ts) i ≡ some window =
          rw (min_max-scan ts 1 (0, t) (0, t), window_of) refl in
        cc (sym is ∙ e)

    made : Opens diff (t ∷ ts) i window
    made = record {
      first_index = lo.0;
      last_index = hi.0;
      largest = hi.1;
      is_smallest = earliest t ts;
      is_largest = latest t ts;
      end_is = refl;
      time_is = refl;
      correctable_is = refl;
    }

-- a time before the window, or not before its end
abbrev pub IsOutside : Window → Packet → Type 0
IsOutside w p = (slt p.time w.start ≡ true) ⊎ (slt p.time w.end ≡ false)

-- What `AVSync` does with a packet, by its window.
pub data Verdict (diff : ℕ) (times : List ℕ) (p : Packet) (w : Window)
    : Bool × Packet × List ℕ → Type 0 where
  passes :
      (times' : List ℕ)
      → AtMost w.start p.time
      → slt p.time w.end ≡ true
      → set_time times p ≡ some times'
      → Verdict diff times p w (false, p, times')
  corrected :
      IsOutside w p
      → w.correctable ≡ true
      → Verdict diff times p w
          (false, record p { time = w.correcttime }, replicate (length times) w.correcttime)
  dropped : IsOutside w p → w.correctable ≡ false → Verdict diff times p w (true, p, times)

judge-Verdict :
    (diff : ℕ) (w : Window) (times : List ℕ) (p : Packet) {r : Bool × Packet × List ℕ}
    → judge w times p ≡ some r
    → Verdict diff times p w r
unfolding judge
judge-Verdict diff w times p {r} e =
    elim (Bool-cases (not (slt p.time w.start) && slt p.time w.end)) [
      | inl inside ↦ elim (Option-cases (set_time times p)) [
        | inl none_set ↦ absurd (no_answer (rw (inside, none_set) at e))
        | inr (times', is_set) ↦
            to (rw (inside, is_set) at e)
              (passes times' (ground (arith, inside)) (ground (arith, inside)) is_set)
      ]
      | inr outside ↦ elim (Bool-cases w.correctable) [
        | inl may ↦ to (rw (outside, may) at e) (corrected (ground (arith, outside)) may)
        | inr may_not ↦ to (rw (outside, may_not) at e) (dropped (ground (arith, outside)) may_not)
      ]
    ]
  where
    no_answer : ◌≡◌ {A = Option (Bool × Packet × List ℕ)} none (some r) → ⊥
    no_answer h = cc

    to :
        {s : Bool × Packet × List ℕ}
        → some s ≡ some r
        → Verdict diff times p w s
        → Verdict diff times p w r
    to {s} h v = let same : s ≡ r = cc h in subst (Verdict diff times p w) same v

-- `AVSync`, where it answers, lets a packet pass whose time lies in the window of `diff` from the
-- smallest stream time on, and keeps its time for its stream. Outside it sets all times to 40 ms after
-- that smallest time, unless the packet is of the first stream with the largest time, and that is
-- not the smallest: it drops such a packet and keeps the times.
pub av_sync_times-Verdict :
    (diff : ℕ) (times : List ℕ) (p : Packet) {r : Bool × Packet × List ℕ}
    → av_sync_times diff times p ≡ some r
    → (w : Window) × Opens diff times p.idx w × Verdict diff times p w r
unfolding av_sync_times
av_sync_times-Verdict diff times p e =
    let (w, found, judged) = >>=-eq-some (check diff times p.idx) _ e in
    (w, check-Opens diff times p.idx found, judge-Verdict diff w times p judged)
