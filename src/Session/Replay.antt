-- ===== src/Session/Replay.antt =====
-- use-after-free/capstone/src/sessreplay/sessreplay.c: the replay of a recorded op-log against a fresh
-- store. The file is the list of its bytes; `plugins` is the table that is filled at startup.
use bug_museum.Base.{ℕ, ◌%◌, Bool, Option, none, some, [], ◌++◌, take}
use bug_museum.Memory.Fault.{Result, ok, ◌>>=◌}
use bug_museum.Memory.Bytes.{Bytes}
use bug_museum.Memory.Heap.{Heap}
use bug_museum.Text.{codes, decimal}
use bug_museum.Wire.Request.{Header}
use bug_museum.Wire.Replay
use bug_museum.Session.Types.{Handler, Object, Store}
use bug_museum.Session.Handlers.{Output}
use bug_museum.Session.Store.{new, sess_open, use_run, use_set, use_append, close, stat, flush}
use bug_museum.Session.Server.{
  Op, op_open, op_use_run, op_use_set, op_use_append, op_close, op_stat, op_flush, op_of,
  wants_defer, wants_verbose, defer_if,
}
use bug_museum.Session.Connection.{request_of}

-- `printf("%d", id)`, where a failure is -1
abbrev number : Option ℕ → Bytes
number none = codes "-1"
number (some id) = decimal id

-- What is printed after a run.
abbrev printed_output : Option Output → Bytes
printed_output none = []
printed_output (some out) = take out.returned out.written ++ codes "\n"

-- The switch: the deferred calls do not depend on the result of the use before.
unfoldable pub replay_op :
    (ℕ → Option Handler) → Store → Op → Header → Bytes → Result (Store × Bytes)
replay_op plugins s op_open h arg = do
  (s, id) ← sess_open s (h.flags % 16) (plugins (h.flags % 16)) arg
  ok (s, codes "OPEN -> " ++ (number id ++ codes "\n"))
replay_op plugins s op_use_run h arg = do
  (s, out) ← use_run s h.target arg 256
  s ← defer_if (wants_defer (request_of h)) s h.target
  ok (s, printed_output out)
replay_op plugins s op_use_set h arg = do
  (s, done) ← use_set s h.target arg
  s ← defer_if (wants_defer (request_of h)) s h.target
  ok (s, [])
replay_op plugins s op_use_append h arg = do (s, done) ← use_append s h.target arg; ok (s, [])
replay_op plugins s op_close h arg = do (s, done) ← close s h.target; ok (s, [])
replay_op plugins s op_stat h arg = do
  text ← stat s (wants_verbose (request_of h))
  ok (s, text ++ codes "\n")
replay_op plugins s op_flush h arg = do s ← flush s arg; ok (s, [])

unfoldable pub replay_record :
    (ℕ → Option Handler) → Store → Header → Bytes → Result (Store × Bytes)
replay_record plugins s h arg = elim (op_of h.op) [
  | none ↦ ok (s, [])
  | some which ↦ replay_op plugins s which h arg
]

abbrev pub oplog_max_arg : ℕ
oplog_max_arg = 0x10_0000

abbrev pub oplog_magic : Bytes
oplog_magic = codes "RVN1"

-- wmain, from the opened file on: the exit code and what is printed
unfoldable pub sessreplay :
    (ℕ → Option Handler) → (ℕ → Bool) → Heap Object → Bytes → Result (ℕ × Bytes)
sessreplay plugins buffers heap file =
    Replay.replay (replay_record plugins) oplog_max_arg buffers oplog_magic (new heap) file
