-- ===== src/Spool/Replay.antt =====
-- double-free/capstone/src/spoolc/spoolc.c: the replay of a recorded batch against a fresh store. The
-- file is the list of its bytes; `filters` is the table that is filled at startup.
use bug_museum.Base.{ℕ, Bool, Option, none, some, [], ◌++◌, take}
use bug_museum.Memory.Fault.{Result, ok, ◌>>=◌}
use bug_museum.Memory.Bytes.{Bytes}
use bug_museum.Memory.Heap.{Heap}
use bug_museum.Text.{codes, decimal}
use bug_museum.Wire.Request.{Header}
use bug_museum.Wire.Replay
use bug_museum.Spool.Filters.{Filter, Preview}
use bug_museum.Spool.Types.{Object, Store}
use bug_museum.Spool.Store.{new, submit}
use bug_museum.Spool.Jobs.{render, append, cancel, status}
use bug_museum.Spool.Server.{
  Op, op_submit, op_render, op_append, op_cancel, op_status, op_of, filter_id, filter_for,
  wants_verbose,
}

-- `printf("%d", id)`, where a failure is -1
abbrev number : Option ℕ → Bytes
number none = codes "-1"
number (some id) = decimal id

-- What is printed after a rendering.
abbrev printed_preview : Option Preview → Bytes
printed_preview none = []
printed_preview (some p) = take p.returned p.written ++ codes "\n"

-- The switch; the other operations are ignored.
unfoldable pub replay_op :
    (ℕ → Option Filter) → Store → Op → Header → Bytes → Result (Store × Bytes)
replay_op filters s op_submit h arg = do
  (s, id) ← submit s (filter_id h) (filter_for filters (filter_id h)) arg
  ok (s, codes "SUBMIT -> " ++ (number id ++ codes "\n"))
replay_op filters s op_render h arg = do
  (s, preview) ← render s h.target 256
  ok (s, printed_preview preview)
replay_op filters s op_append h arg = do (s, done) ← append s h.target arg; ok (s, [])
replay_op filters s op_cancel h arg = do (s, done) ← cancel s h.target; ok (s, [])
replay_op filters s op_status h arg = do
  text ← status s (wants_verbose h)
  ok (s, text ++ codes "\n")
replay_op filters s _ h arg = ok (s, [])

unfoldable pub replay_record : (ℕ → Option Filter) → Store → Header → Bytes → Result (Store × Bytes)
replay_record filters s h arg = elim (op_of h.op) [
  | none ↦ ok (s, [])
  | some which ↦ replay_op filters s which h arg
]

abbrev pub batch_max_arg : ℕ
batch_max_arg = 0x10_0000

abbrev pub batch_magic : Bytes
batch_magic = codes "ENC1"

-- wmain, from the opened file on: the exit code and what is printed
unfoldable pub spoolc : (ℕ → Option Filter) → (ℕ → Bool) → Heap Object → Bytes → Result (ℕ × Bytes)
spoolc filters buffers heap file =
    Replay.replay (replay_record filters) batch_max_arg buffers batch_magic (new heap) file
