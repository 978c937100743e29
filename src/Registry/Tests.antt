-- ===== src/Registry/Tests.antt =====
-- Runs of the registry of config.go, and its theorems at concrete values.
use Prim.Native.String.{String}
use text.Mathlib.TextEquality.{eq_iff}
use mse.Common.{◌≡◌, ◌≢◌, refl, [], ◌∷◌, none, some, true, false, arith, get_elem?}
use mse.Common.Word.{add64}
use mse.Av.{zero_packet}
use mse.Registry.Lookup.{lookup}
use mse.Registry.{
  Stream, Registry, stream_at, run, run_unlock, find_url, stream_exists, fresh_stream, push_stream,
  remove_stream, connect_increase, connect_decrease, connect_get, cast, locked,
}
use mse.Registry.Laws.{IsConsistent}
use mse.Registry.Life.{
  worker_of, run_one_worker, connect_decrease-increase, IsBounded, cast-viewers, push_stream_twice,
  remove_stream_stops,
}

abbrev camera : Stream
camera = record (fresh_stream "a" "rtmp://x" "rtmp") { viewers = ("v", zero_packet ∷ []) ∷ [] }

abbrev gate : Stream
gate = record (fresh_stream "b" "rtsp://y" "rtsp") { run_lock = true; count_connect = 1 }

abbrev two_streams : Registry
two_streams = record { heap = camera ∷ gate ∷ []; streams = ("a", 0) ∷ ("b", 1) ∷ [] }

camera_at : stream_at two_streams "a" ≡ some camera
unfolding stream_at lookup
camera_at = refl

two_streams-IsConsistent : IsConsistent two_streams
two_streams-IsConsistent = ((camera, refl, refl), ((gate, refl, refl), tt))

run_one_worker_example :
    let (c', w) = run two_streams "a" in
    (w ≡ some (worker_of camera))
    × (stream_at c' "a" ≡ some (locked camera))
    × (run c' "a" ≡ (c', none))
    × ((run (run_unlock c' "a") "a").1 ≡ some (worker_of camera))
run_one_worker_example = run_one_worker two_streams "a" camera camera_at refl

abbrev key_a : String
key_a = "a"

abbrev key_b : String
key_b = "b"

other_key : key_a ≢ key_b
other_key e = let same : false ≡ true = (eq_iff key_a key_b).1 e in cc

connect_decrease-increase_example :
    let c' = connect_increase two_streams "a" in
    (connect_get c' "a" ≡ add64 0 1)
    × (stream_at (connect_decrease c' "a") "a" ≡ some camera)
    × (stream_at c' "b" ≡ stream_at two_streams "b")
    × (stream_at (connect_decrease c' "a") "b" ≡ stream_at two_streams "b")
    × IsConsistent (connect_decrease c' "a")
connect_decrease-increase_example =
    connect_decrease-increase two_streams "a" "b" camera two_streams-IsConsistent camera_at
      (omega arith) other_key

camera-IsBounded : IsBounded camera.viewers
camera-IsBounded = (omega arith, tt)

watched : lookup "v" camera.viewers ≡ some (zero_packet ∷ [])
unfolding lookup
watched = refl

cast-viewers_example :
    (c' : Registry) × (t : Stream) × (cast two_streams "a" zero_packet ≡ some c')
    × (stream_at c' "a" ≡ some t)
    × IsBounded t.viewers
    × (lookup "v" t.viewers ≡ some (zero_packet ∷ zero_packet ∷ []))
cast-viewers_example =
    cast-viewers two_streams "a" zero_packet camera "v" (zero_packet ∷ []) camera_at
      camera-IsBounded watched

unknown : lookup "c" two_streams.streams ≡ none
unfolding lookup
unknown = refl

push_stream_twice_example :
    let (c', id) = push_stream two_streams "rtmp://z" "rtmp" "c" in
    (id ≡ "c")
    × (stream_exists c' "rtmp://z" ≡ some (fresh_stream "c" "rtmp://z" "rtmp"))
    × (push_stream c' "rtmp://z" "rtsp" "d" ≡ (c', "c"))
push_stream_twice_example =
    push_stream_twice two_streams "rtmp://z" "c" refl
      ((camera, refl, refl), ((gate, refl, refl), tt)) unknown "rtmp" "rtsp" "d"

found_gate : stream_exists two_streams "rtsp://y" ≡ some gate
unfolding stream_exists find_url stream_at lookup
found_gate = refl

gate_key : lookup "b" two_streams.streams ≡ some 1
unfolding lookup
gate_key = refl

remove_stream_stops_example :
    let (c', done) = remove_stream two_streams "rtsp://y" in
    (done ≡ true)
    × (stream_at c' "b" ≡ none)
    × (get_elem? c'.heap 1 ≡ some (record gate { run_lock = false; count_connect = 0 }))
remove_stream_stops_example =
    remove_stream_stops two_streams "rtsp://y" gate 1 found_gate gate_key refl refl
