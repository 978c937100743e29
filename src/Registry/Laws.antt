-- ===== src/Registry/Laws.antt =====
-- Lookups in the registry of config.go after a change through a pointer.
use Prim.Native.String.{String}
use text.Mathlib.Text.{◌==◌}
use text.Mathlib.TextEquality.{eq_iff}
use mse.Common.{ℕ, ◌≡◌, ◌≢◌, sym, ap, ◌∙◌, List, [], ◌∷◌, none, some}
use mse.Common.{Bool-cases, Option-cases, inl, inr, All, get_elem?, set}
use mse.Common.{get_elem?-set_found, get_elem?-set_ne}
use mathlib.Core.Path.{subst}
use native.Mathlib.Decide.{ℕ_discrete}
use mse.Common.Maybe.{>>=-eq-some}
use mse.Registry.Lookup.{lookup}
use mse.Registry.{Stream, Registry, stream_at, change}

-- An entry points to a stream with the entry's key.
abbrev pub Entry : List Stream → String × ℕ → Type 0
Entry heap e = (s : Stream) × (get_elem? heap e.1 ≡ some s) × (s.uuid ≡ e.0)

abbrev pub IsConsistent : Registry → Type 0
IsConsistent c = All (Entry c.heap) c.streams

lookup-Entry :
    (heap : List Stream) (m : List (String × ℕ)) (k : String) {r : ℕ}
    → All (Entry heap) m
    → lookup k m ≡ some r
    → Entry heap (k, r)
unfolding lookup
lookup-Entry heap [] k h e = cc
lookup-Entry heap ((j, v) ∷ m) k {r} (first, rest) e = elim (Bool-cases (j == k)) [
  | inl hit ↦
      let here : v ≡ r = cc (rw hit at e) in
      let (s, at, id) = first in (s, ap (get_elem? heap) (sym here) ∙ at, id ∙ (eq_iff j k).0 hit)
  | inr miss ↦ lookup-Entry heap m k rest (rw miss at e)
]

pub stream_at_inv :
    (c : Registry) (u : String) {s : Stream}
    → stream_at c u ≡ some s
    → (r : ℕ) × (lookup u c.streams ≡ some r) × (get_elem? c.heap r ≡ some s)
unfolding stream_at
stream_at_inv c u e = >>=-eq-some (lookup u c.streams) _ e

pub change-eq :
    (c : Registry) (u : String) (f : Stream → Stream) (r : ℕ) (s : Stream)
    → lookup u c.streams ≡ some r
    → get_elem? c.heap r ≡ some s
    → change c u f ≡ record c { heap = set c.heap r (f s) }
unfolding change
change-eq c u f r s e h = rw (e, h, change)

-- The stream behind the key is changed,
pub stream_at-change_self :
    (c : Registry) (u : String) (f : Stream → Stream) {s : Stream}
    → stream_at c u ≡ some s
    → stream_at (change c u f) u ≡ some (f s)
stream_at-change_self c u f {s} e =
    let (r, key, at) = stream_at_inv c u e in
    rw (change-eq c u f r s key at)
      (unfold stream_at in rw (key, get_elem?-set_found c.heap r (f s) at))

-- and no stream behind another key: no two keys point to one stream.
pub stream_at-change_ne :
    (c : Registry) (u v : String) (f : Stream → Stream)
    → IsConsistent c
    → u ≢ v
    → stream_at (change c u f) v ≡ stream_at c v
stream_at-change_ne c u v f ok ne = elim (Option-cases (lookup u c.streams)) [
  | inl none_u ↦ unfold change in rw (none_u, change)
  | inr (r, key_u) ↦
      let (s, at, id) = lookup-Entry c.heap c.streams u ok key_u in
      rw (change-eq c u f r s key_u at) (elim (Option-cases (lookup v c.streams)) [
        | inl none_v ↦ unfold stream_at in rw (none_v, stream_at)
        | inr (q, key_v) ↦
            let (t, at_v, id_v) = lookup-Entry c.heap c.streams v ok key_v in
            unfold stream_at in
            rw (key_v, get_elem?-set_ne c.heap r q (f s) (apart r q s t at id at_v id_v))
      ])
]
  where
    apart :
        (r q : ℕ) (s t : Stream)
        → get_elem? c.heap r ≡ some s
        → s.uuid ≡ u
        → get_elem? c.heap q ≡ some t
        → t.uuid ≡ v
        → r ≢ q
    apart r q s t at id at_v id_v e =
        let same : some s ≡ some t = sym at ∙ ap (get_elem? c.heap) e ∙ at_v in
        let equal : s ≡ t = cc same in ne (sym id ∙ ap (λ (x : Stream). x.uuid) equal ∙ id_v)

IsConsistent_set :
    (heap : List Stream) (r : ℕ) (s t : Stream) (m : List (String × ℕ))
    → get_elem? heap r ≡ some s
    → t.uuid ≡ s.uuid
    → All (Entry heap) m
    → All (Entry (set heap r t)) m
IsConsistent_set heap r s t [] at id h = tt
IsConsistent_set heap r s t ((k, q) ∷ m) at id (first, rest) =
    (moved first, IsConsistent_set heap r s t m at id rest)
  where
    moved : Entry heap (k, q) → Entry (set heap r t) (k, q)
    moved (x, at_q, id_q) = elim (ℕ_discrete r q) [
      | yes e ↦
          let same : some s ≡ some x = sym at ∙ ap (get_elem? heap) e ∙ at_q in
          let equal : s ≡ x = cc same in
          (
            t,
            ap (get_elem? (set heap r t)) (sym e) ∙ get_elem?-set_found heap r t at,
            id ∙ ap (λ (y : Stream). y.uuid) equal ∙ id_q,
          )
      | no ne ↦ (x, get_elem?-set_ne heap r q t ne ∙ at_q, id_q)
    ]

-- A change that keeps the identifier keeps the registry consistent.
pub change-IsConsistent :
    (c : Registry) (u : String) (f : Stream → Stream)
    → ((s : Stream) → (f s).uuid ≡ s.uuid)
    → IsConsistent c
    → IsConsistent (change c u f)
change-IsConsistent c u f keeps ok = elim (Option-cases (lookup u c.streams)) [
  | inl none_u ↦ subst IsConsistent (sym (unchanged none_u)) ok
  | inr (r, key) ↦
      let (s, at, id) = lookup-Entry c.heap c.streams u ok key in
      subst IsConsistent (sym (change-eq c u f r s key at))
        (IsConsistent_set c.heap r s (f s) c.streams at (keeps s) ok)
]
  where
    unchanged : lookup u c.streams ≡ none → change c u f ≡ c
    unchanged e = unfold change in rw (e, change)
