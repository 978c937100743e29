-- ===== src/Registry.antt =====
-- config.go: the registry of streams, which the handlers and the workers share. The map holds
-- pointers: `heap` is the streams that were ever made, and an entry holds an index into it. Each
-- function is one step: most of them hold the lock, but `PushStream`, `PushStreamArchive`,
-- `StreamExists`, `RemoveStream` and `ext` do not take it. Go's order of the map's entries is any
-- order; here it is that of the list. New identifiers are arguments. `none` is a nil dereference or
-- the close of a nil channel.
pub mod Lookup
pub mod Laws
pub mod Life
mod Tests
use Prim.Native.String.{String}
use text.Mathlib.Text.{◌==◌}
use mse.Common.{
  ℕ, zero, suc, ◌+◌, ◌^◌, Bool, true, false, not, ◌&&◌, List, [], ◌∷◌, ◌++◌, Option, none, some,
}
use mse.Common.{ltb, if◌then◌else◌, length, get_elem?, set, map}
use mse.Common.Maybe.{◌>>=◌}
use mse.Common.Word.{add64, sub64}
use mse.Av.{Packet}
use Lookup.{lookup, insert, erase}

-- `Stream`. A viewer is the packets in its channel, which holds 100 at most.
pub record Stream : Type 0 where
  pub uuid : String
  pub url : String
  pub kind : String
  pub run_lock : Bool
  pub codecs : Option (List ℕ)
  pub viewers : List (String × List Packet)
  pub count_connect : ℕ

-- `ConfigST`
pub record Registry : Type 0 where
  pub heap : List Stream
  pub streams : List (String × ℕ)

abbrev pub channel_size : ℕ
channel_size = 100

-- `tmp, ok := element.Streams[uuid]`
unfoldable pub stream_at : Registry → String → Option Stream
stream_at c uuid = do r ← lookup uuid c.streams; get_elem? c.heap r

-- A change to the stream through its pointer; nothing if the key is missing.
unfoldable pub change : Registry → String → (Stream → Stream) → Registry
change c uuid f = elim (lookup uuid c.streams) [
  | none ↦ c
  | some r ↦ elim (get_elem? c.heap r) [
    | none ↦ c
    | some s ↦ record c { heap = set c.heap r (f s) }
  ]
]

abbrev pub locked : Stream → Stream
locked s = record s { run_lock = true }

abbrev pub unlocked : Stream → Stream
unlocked s = record s { run_lock = false }

-- The workers that `Run` can start.
pub data Worker : Type 0 where
  rtmp_worker rtsp_worker : Worker

-- `Run`: the worker that it starts, if any
unfoldable pub run : Registry → String → Registry × Option Worker
run c uuid = elim (stream_at c uuid) [
  | none ↦ (c, none)
  | some s ↦
      if s.run_lock
      then (c, none)
      else (change c uuid locked, some (if s.kind == "rtmp" then rtmp_worker else rtsp_worker))
]

-- the loop of `StreamExists`
unfoldable pub find_url : Registry → String → List (String × ℕ) → Option Stream
find_url c url [] = none
find_url c url ((k, r) ∷ rest) =
    let later = find_url c url rest in
    elim (get_elem? c.heap r) [
      | none ↦ none
      | some s ↦ if not (url == "") && s.url == url then stream_at c s.uuid else later
    ]

unfoldable pub stream_exists : Registry → String → Option Stream
stream_exists c url = find_url c url c.streams

abbrev pub fresh_stream : String → String → String → Stream
fresh_stream uuid url kind = record {
  uuid = uuid;
  url = url;
  kind = kind;
  run_lock = false;
  codecs = none;
  viewers = [];
  count_connect = 0;
}

-- `element.Streams[stream.Uuid] = &stream`, with a new stream; also `PushStreamArchive`
unfoldable pub push_stream_archive : Registry → Stream → Registry
push_stream_archive c s = record {
  heap = c.heap ++ s ∷ [];
  streams = insert s.uuid (length c.heap) c.streams;
}

-- `PushStream`, with the identifier that a new stream would get
unfoldable pub push_stream : Registry → String → String → String → Registry × String
push_stream c url kind uuid =
    let pushed : Registry × String = elim (stream_exists c url) [
      | some s ↦ (c, s.uuid)
      | none ↦ (push_stream_archive c (fresh_stream uuid url kind), uuid)
    ] in
    if url == "" then (c, "") else pushed

unfoldable pub run_unlock : Registry → String → Registry
run_unlock c uuid = change c uuid (λ s. if s.run_lock then unlocked s else s)

unfoldable pub connect_increase : Registry → String → Registry
connect_increase c uuid = change c uuid (λ s. record s { count_connect = add64 s.count_connect 1 })

unfoldable pub connect_decrease : Registry → String → Registry
connect_decrease c uuid = change c uuid (λ s. record s { count_connect = sub64 s.count_connect 1 })

unfoldable pub connect_get : Registry → String → ℕ
connect_get c uuid = elim (stream_at c uuid) [ none ↦ 0 | some s ↦ s.count_connect ]

-- `RemoveStream`: a running stream is unlocked first, which ends its worker.
unfoldable pub remove_stream : Registry → String → Registry × Bool
remove_stream c url = elim (stream_exists c url) [
  | none ↦ (c, false)
  | some s ↦
      let stopped : Registry = elim (stream_at c s.uuid) [
        | none ↦ c
        | some t ↦ if t.run_lock then connect_decrease (run_unlock c s.uuid) s.uuid else c
      ] in
      (record stopped { streams = erase s.uuid stopped.streams }, true)
]

unfoldable pub has_viewer : Registry → String → Bool
has_viewer c uuid = elim (stream_at c uuid) [ none ↦ false | some s ↦ ltb 0 (length s.viewers) ]

-- `if len(v.c) < cap(v.c) { v.c <- pck }` for each viewer
unfoldable pub offer : Packet → List (String × List Packet) → List (String × List Packet)
offer p [] = []
offer p ((k, ch) ∷ vs) = (k, if ltb (length ch) channel_size then ch ++ p ∷ [] else ch) ∷ offer p vs

unfoldable pub cast : Registry → String → Packet → Option Registry
cast c uuid p = elim (stream_at c uuid) [
  | none ↦ none
  | some s ↦ some (change c uuid (λ t. record t { viewers = offer p t.viewers }))
]

unfoldable pub ext : Registry → String → Bool
ext c uuid = elim (lookup uuid c.streams) [ none ↦ false | some r ↦ true ]

-- `coAd`
unfoldable pub set_codecs : Registry → String → Option (List ℕ) → Option Registry
set_codecs c uuid codecs = elim (stream_at c uuid) [
  | none ↦ none
  | some s ↦ some (change c uuid (λ t. record t { codecs = codecs }))
]

-- `coGe`: 100 looks, 50 ms apart. The list is the registry as each look finds it.
unfoldable pub wait_codecs : ℕ → List Registry → String → Option (List ℕ)
wait_codecs zero looks uuid = none
wait_codecs (suc n) [] uuid = none
wait_codecs (suc n) (c ∷ looks) uuid =
    let later = wait_codecs n looks uuid in
    elim (stream_at c uuid) [
      | none ↦ none
      | some s ↦ elim s.codecs [ some codecs ↦ some codecs | none ↦ later ]
    ]

-- `clAd`, with the new viewer's identifier
unfoldable pub add_viewer : Registry → String → String → Option Registry
add_viewer c uuid viewer = elim (stream_at c uuid) [
  | none ↦ none
  | some s ↦ some (change c uuid (λ t. record t { viewers = insert viewer [] t.viewers }))
]

-- `clDe`
unfoldable pub delete_viewer : Registry → String → String → Option Registry
delete_viewer c uuid viewer =
    let gone : Option Registry = elim (stream_at c uuid) [
      | none ↦ none
      | some s ↦ elim (lookup viewer s.viewers) [
        | none ↦ none
        | some ch ↦ some (change c uuid (λ t. record t { viewers = erase viewer t.viewers }))
      ]
    ] in
    if ext c uuid then gone else some c
