-- ===== src/Wire/Tests.antt =====
-- The theorems on reading, serving and replaying, at small inputs.
use Prim.Native.Nat.{min}
use bug_museum.Base.{ℕ, ◌≡◌, refl, true, Option, some, List, [], ◌∷◌, arith}
use bug_museum.Memory.Fault.{ok, ◌>>=◌}
use bug_museum.Memory.Heap.{unmapped}
use bug_museum.Text.{codes}
use bug_museum.Wire.Read.{IsRecv, read_full, read_rounds}
use bug_museum.Wire.Request.{Call, encode}
use bug_museum.Wire.Serve.{run_calls, serve, serve-encode}
use bug_museum.Wire.Replay.{recorded, replay, replay-recorded}
use bug_museum.Spool.Filters.{Filter, raster}
use bug_museum.Spool.Types.{Store}
use bug_museum.Spool.Store.{new}
use bug_museum.Spool.Server.{answer}
use bug_museum.Spool.Replay.{replay_record}

-- A connection that hands over one byte at a time.
abbrev bytewise : ℕ → ℕ → ℕ
bytewise want avail = min 1 (min want avail)

bytewise-IsRecv : IsRecv bytewise
bytewise-IsRecv = record {
  some_bytes = λ want avail some_wanted some_there. omega arith;
  wanted = λ want avail. omega arith;
  there = λ want avail. omega arith;
}

read_test : read_full bytewise 2 (7 ∷ 8 ∷ 9 ∷ []) ≡ some (7 ∷ 8 ∷ [], 9 ∷ [])
unfolding read_full read_rounds
read_test = refl

abbrev empty_store : Store
empty_store = new (record {
  cell = λ _. unmapped;
  requests = 0;
  grants = λ _. true;
  moves = λ _. true;
  junk = λ _ _. 0;
})

abbrev rasters : ℕ → Option Filter
rasters id = some raster

-- SUBMIT of a document of two bytes, and STATUS.
abbrev calls : List Call
calls =
    record { op = 0; flags = 0; target = 0; arg = 1 ∷ 2 ∷ [] }
    ∷ record { op = 4; flags = 0; target = 0; arg = [] }
    ∷ []

serve-encode_example :
    serve (answer true rasters) 9 (λ _. true) bytewise empty_store (encode calls)
    ≡ run_calls (answer true rasters) 9 empty_store calls
serve-encode_example =
    serve-encode (answer true rasters) 9 (λ _. true) bytewise (λ _. refl) bytewise-IsRecv
      empty_store calls (omega arith, (omega arith, tt))

replay-recorded_example :
    replay
      (replay_record rasters)
      9
      (λ _. true)
      (codes "ENC1")
      empty_store
      (recorded (codes "ENC1") calls)
    ≡ (run_calls (replay_record rasters) 9 empty_store calls >>= λ (s, out). ok (0, out))
replay-recorded_example =
    replay-recorded (replay_record rasters) 9 (λ _. true) (λ _. refl) (codes "ENC1") empty_store
      calls refl (omega arith) (omega arith, (omega arith, tt))
