-- ===== src/Registry/Life.antt =====
-- The life of a stream in config.go: pushed, run by one worker, watched, and removed.
use Prim.Native.String.{String}
use text.Mathlib.Text.{◌==◌}
use text.Mathlib.TextPositions.{eq_refl}
use mse.Common.{
  ℕ, ◌^◌, ◌≤◌, ◌<◌, ◌≡◌, ◌≢◌, refl, sym, ap, ◌∙◌, arith, List, [], ◌∷◌, ◌++◌, Option, none, some,
}
use mse.Common.{
  Bool, true, false, not, ◌&&◌, if◌then◌else◌, Bool-cases, inl, inr, All, length, get_elem?, set,
  ltb, length-append,
}
use mse.Common.{get_elem?-set_found, get_elem?-append_found, get_elem?-append_last}
use mathlib.Core.Path.{subst}
use mathlib.Core.List.{append-nil}
use mse.Common.Word.{add64, sub64}
use mse.Av.{Packet}
use mse.Registry.Lookup.{lookup, insert, erase, lookup-insert, lookup-erase}
use mse.Registry.{
  Stream, Registry, Worker, rtmp_worker, rtsp_worker, stream_at, change, locked, unlocked, run,
  run_unlock, find_url, stream_exists, fresh_stream, push_stream_archive, push_stream,
  remove_stream, connect_increase, connect_decrease, connect_get, offer, cast, channel_size,
}
use mse.Registry.Laws.{
  IsConsistent, change-eq, stream_at-change_self, stream_at-change_ne, change-IsConsistent,
}

abbrev pub worker_of : Stream → Worker
worker_of s = if s.kind == "rtmp" then rtmp_worker else rtsp_worker

run_idle :
    (c : Registry) (u : String) (s : Stream)
    → stream_at c u ≡ some s
    → s.run_lock ≡ false
    → run c u ≡ (change c u locked, some (worker_of s))
unfolding run
run_idle c u s e idle = rw (e, run) (rw idle)

run_busy :
    (c : Registry) (u : String) (s : Stream)
    → stream_at c u ≡ some s
    → s.run_lock ≡ true
    → run c u ≡ (c, none)
unfolding run
run_busy c u s e busy = rw (e, run) (rw busy)

-- `Run` on an idle stream starts its worker, of the kind that the stream names, and locks it: no
-- further `Run` starts a second one or changes anything, until `RunUnlock`, after which one does.
pub run_one_worker :
    (c : Registry) (u : String) (s : Stream)
    → stream_at c u ≡ some s
    → s.run_lock ≡ false
    → let (c', w) = run c u in
      (w ≡ some (worker_of s))
      × (stream_at c' u ≡ some (locked s))
      × (run c' u ≡ (c', none))
      × ((run (run_unlock c' u) u).1 ≡ some (worker_of s))
run_one_worker c u s e idle = rw (run_idle c u s e idle) (
  refl,
  held,
  run_busy (change c u locked) u (locked s) held refl,
  ap (λ (x : Registry × Option Worker). x.1) (run_idle _ u _ freed refl),
)
  where
    held : stream_at (change c u locked) u ≡ some (locked s)
    held = stream_at-change_self c u locked e

    freed : stream_at (run_unlock (change c u locked) u) u ≡ some (unlocked (locked s))
    freed = unfold run_unlock in stream_at-change_self (change c u locked) u _ held

-- In a registry whose entries point to streams with their keys, `connectIncrease` counts one more for
-- a stream, and `connectDecrease` after it gives the stream back as it was. Neither changes another
-- stream, and the entries still point to streams with their keys.
pub connect_decrease-increase :
    (c : Registry) (u v : String) (s : Stream)
    → IsConsistent c
    → stream_at c u ≡ some s
    → s.count_connect < 2 ^ 64
    → u ≢ v
    → let c' = connect_increase c u in
      (connect_get c' u ≡ add64 s.count_connect 1)
      × (stream_at (connect_decrease c' u) u ≡ some s)
      × (stream_at c' v ≡ stream_at c v)
      × (stream_at (connect_decrease c' u) v ≡ stream_at c v)
      × IsConsistent (connect_decrease c' u)
connect_decrease-increase c u v s ok e small ne = (
  unfold connect_get in rw (up, connect_get),
  down ∙ ap (λ (n : ℕ). some (record s { count_connect = n })) back,
  same,
  after ∙ same,
  unfold connect_decrease in change-IsConsistent (connect_increase c u) u _ (λ t. refl) still,
)
  where
    same : stream_at (connect_increase c u) v ≡ stream_at c v
    same = unfold connect_increase in stream_at-change_ne c u v _ ok ne

    still : IsConsistent (connect_increase c u)
    still = unfold connect_increase in change-IsConsistent c u _ (λ t. refl) ok

    after :
        stream_at (connect_decrease (connect_increase c u) u) v ≡ stream_at (connect_increase c u) v
    after = unfold connect_decrease in stream_at-change_ne (connect_increase c u) u v _ still ne

    up :
        stream_at (connect_increase c u) u
        ≡ some (record s { count_connect = add64 s.count_connect 1 })
    up = unfold connect_increase in stream_at-change_self c u _ e

    down :
        stream_at (connect_decrease (connect_increase c u) u) u
        ≡ some (record s { count_connect = sub64 (add64 s.count_connect 1) 1 })
    down = unfold connect_decrease in stream_at-change_self (connect_increase c u) u _ up

    back : sub64 (add64 s.count_connect 1) 1 ≡ s.count_connect
    back = omega arith

-- No channel holds more than it can.
abbrev pub IsBounded : List (String × List Packet) → Type 0
IsBounded vs = All (λ v. length v.1 ≤ channel_size) vs

offer-IsBounded :
    (p : Packet) (vs : List (String × List Packet)) → IsBounded vs → IsBounded (offer p vs)
unfolding offer
offer-IsBounded p [] h = tt
offer-IsBounded p ((k, ch) ∷ vs) (first, rest) =
    (ground (arith, length-append ch (p ∷ [])), offer-IsBounded p vs rest)

lookup-offer :
    (p : Packet) (vs : List (String × List Packet)) (k : String) {ch : List Packet}
    → lookup k vs ≡ some ch
    → lookup k (offer p vs) ≡ some (if ltb (length ch) channel_size then ch ++ p ∷ [] else ch)
unfolding lookup offer
lookup-offer p [] k e = cc
lookup-offer p ((j, x) ∷ vs) k {ch} e = elim (Bool-cases (j == k)) [
  | inl hit ↦
      let here : x ≡ ch = cc (rw hit at e) in
      rw hit (
        ap (λ (y : List Packet). some (if ltb (length y) channel_size then y ++ p ∷ [] else y))
          here)
  | inr miss ↦ rw miss (lookup-offer p vs k (rw miss at e))
]

-- `cast` reaches each viewer whose channel has room, skips the others, and never overfills a
-- channel; the packet goes behind those that wait there.
pub cast-viewers :
    (c : Registry) (u : String) (p : Packet) (s : Stream) (k : String) (ch : List Packet)
    → stream_at c u ≡ some s
    → IsBounded s.viewers
    → lookup k s.viewers ≡ some ch
    → (c' : Registry) × (t : Stream) × (cast c u p ≡ some c')
      × (stream_at c' u ≡ some t)
      × IsBounded t.viewers
      × (lookup k t.viewers ≡ some (if ltb (length ch) channel_size then ch ++ p ∷ [] else ch))
unfolding cast
cast-viewers c u p s k ch e bounded watching = (
  change c u (λ t. record t { viewers = offer p t.viewers }),
  record s { viewers = offer p s.viewers },
  rw (e, cast),
  stream_at-change_self c u _ e,
  offer-IsBounded p s.viewers bounded,
  lookup-offer p s.viewers k watching,
)

-- Where no registered stream has the URL
abbrev pub OtherUrl : List Stream → String → String × ℕ → Type 0
OtherUrl heap url e = (s : Stream) × (get_elem? heap e.1 ≡ some s) × ((s.url == url) ≡ false)

insert_new :
    (k : String) (r : ℕ) (m : List (String × ℕ))
    → lookup k m ≡ none
    → insert k r m ≡ m ++ (k, r) ∷ []
unfolding lookup insert
insert_new k r [] e = refl
insert_new k r ((j, v) ∷ m) e = elim (Bool-cases (j == k)) [
  | inl hit ↦ absurd (missing (rw hit at e))
  | inr miss ↦
      rw miss (ap (λ (x : List (String × ℕ)). (j, v) ∷ x) (insert_new k r m (rw miss at e)))
]
  where
    missing : some v ≡ none → ⊥
    missing h = cc

and_false : (b : Bool) → (b && false) ≡ false
and_false true = refl
and_false false = refl

find_url_skip :
    (c : Registry) (url : String) (m rest : List (String × ℕ))
    → All (OtherUrl c.heap url) m
    → find_url c url (m ++ rest) ≡ find_url c url rest
unfolding find_url
find_url_skip c url [] rest h = refl
find_url_skip c url ((k, r) ∷ m) rest ((s, at, other), h) =
    rw (at, find_url) (rw (other, and_false (not (url == ""))) (find_url_skip c url m rest h))

OtherUrl-append :
    (heap : List Stream) (new : Stream) (url : String) (m : List (String × ℕ))
    → All (OtherUrl heap url) m
    → All (OtherUrl (heap ++ new ∷ []) url) m
OtherUrl-append heap new url [] h = tt
OtherUrl-append heap new url ((k, r) ∷ m) ((s, at, other), h) =
    ((s, get_elem?-append_found heap (new ∷ []) r at, other), OtherUrl-append heap new url m h)

module _ (c : Registry) (url uuid : String) (named : (url == "") ≡ false)
    (new_url : All (OtherUrl c.heap url) c.streams) (new_uuid : lookup uuid c.streams ≡ none) where
  abbrev with_new : String → Registry
  with_new kind = push_stream_archive c (fresh_stream uuid url kind)

  with_new-eq :
      (kind : String)
      → with_new kind ≡ record {
        heap = c.heap ++ fresh_stream uuid url kind ∷ [];
        streams = c.streams ++ (uuid, length c.heap) ∷ [];
      }
  unfolding push_stream_archive
  with_new-eq kind = rw (insert_new uuid (length c.heap) c.streams new_uuid)

  absent : stream_exists c url ≡ none
  unfolding stream_exists find_url
  absent =
      ap (find_url c url) (sym (append-nil c.streams)) ∙ find_url_skip c url c.streams [] new_url

  stream_at-with_new :
      (kind : String) → stream_at (with_new kind) uuid ≡ some (fresh_stream uuid url kind)
  unfolding stream_at push_stream_archive
  stream_at-with_new kind =
      rw (lookup-insert, eq_refl uuid) (get_elem?-append_last c.heap (fresh_stream uuid url kind))

  at_end :
      (kind : String) (d : Registry)
      → stream_at d uuid ≡ some (fresh_stream uuid url kind)
      → get_elem? d.heap (length c.heap) ≡ some (fresh_stream uuid url kind)
      → find_url d url ((uuid, length c.heap) ∷ []) ≡ some (fresh_stream uuid url kind)
  unfolding find_url
  at_end kind d found last = rw (last, find_url) (rw (named, eq_refl url) found)

  present : (kind : String) → stream_exists (with_new kind) url ≡ some (fresh_stream uuid url kind)
  unfolding stream_exists
  present kind =
      let new = fresh_stream uuid url kind in
      let d : Registry = record {
        heap = c.heap ++ new ∷ [];
        streams = c.streams ++ (uuid, length c.heap) ∷ [];
      } in
      rw (with_new-eq kind) (
        find_url_skip d url c.streams ((uuid, length c.heap) ∷ [])
          (OtherUrl-append c.heap new url c.streams new_url)
        ∙ at_end kind d
            (subst (λ (x : Registry). stream_at x uuid ≡ some new) (with_new-eq kind)
              (stream_at-with_new kind))
            (get_elem?-append_last c.heap new))

  push_new : (kind : String) → push_stream c url kind uuid ≡ (with_new kind, uuid)
  unfolding push_stream
  push_new kind = rw (absent, push_stream) (rw named)

  push_again :
      (kind other_kind other_uuid : String)
      → push_stream (with_new kind) url other_kind other_uuid ≡ (with_new kind, uuid)
  unfolding push_stream
  push_again kind other_kind other_uuid = rw (present kind, push_stream) (rw named)

  -- A URL that no stream has, pushed with a new identifier, is registered as an idle stream of that
  -- identifier; pushing the URL again gives the same identifier and changes nothing.
  pub push_stream_twice :
      (kind other_kind other_uuid : String)
      → let (c', id) = push_stream c url kind uuid in
        (id ≡ uuid)
        × (stream_exists c' url ≡ some (fresh_stream uuid url kind))
        × (push_stream c' url other_kind other_uuid ≡ (c', uuid))
  push_stream_twice kind other_kind other_uuid =
      rw (push_new kind) (refl, present kind, push_again kind other_kind other_uuid)

module _ (c : Registry) (url : String) (s : Stream) (r : ℕ) (found : stream_exists c url ≡ some s)
    (key : lookup s.uuid c.streams ≡ some r) (at : get_elem? c.heap r ≡ some s)
    (running : s.run_lock ≡ true) where
  abbrev pub ended : Stream
  ended = record s { run_lock = false; count_connect = sub64 s.count_connect 1 }

  here : stream_at c s.uuid ≡ some s
  unfolding stream_at
  here = rw (key, at)

  unlock-eq : run_unlock c s.uuid ≡ record c { heap = set c.heap r (unlocked s) }
  unfolding run_unlock
  unlock-eq = rw (change-eq c s.uuid _ r s key at, running)

  stopped-eq :
      connect_decrease (run_unlock c s.uuid) s.uuid
      ≡ record c { heap = set (set c.heap r (unlocked s)) r ended }
  unfolding connect_decrease
  stopped-eq = rw unlock-eq (
      change-eq (record c { heap = set c.heap r (unlocked s) }) s.uuid _ r (unlocked s) key
        (get_elem?-set_found c.heap r (unlocked s) at))

  remove-eq : remove_stream c url ≡ (
    record { heap = set (set c.heap r (unlocked s)) r ended; streams = erase s.uuid c.streams },
    true,
  )
  unfolding remove_stream
  remove-eq = rw (found, remove_stream) (rw (here, remove_stream) (rw (running, stopped-eq)))

  -- Removing a running stream makes its identifier unknown, and unlocks the stream object that its
  -- worker still holds, which is what ends the worker.
  pub remove_stream_stops :
      let (c', done) = remove_stream c url in
      (done ≡ true) × (stream_at c' s.uuid ≡ none) × (get_elem? c'.heap r ≡ some ended)
  unfolding stream_at
  remove_stream_stops = rw remove-eq (
    refl,
    rw (lookup-erase, eq_refl s.uuid),
    get_elem?-set_found (set c.heap r (unlocked s)) r ended
        (get_elem?-set_found c.heap r (unlocked s) at),
  )
