-- ===== src/Session/Connection.antt =====
-- use-after-free/capstone/src/sessiond/sessiond.c: the loop over the requests of a connection. Its
-- state is the store and the session that the connection has cached.
use bug_museum.Base.{ℕ, Bool, Option}
use bug_museum.Memory.Fault.{Result, ok, ◌>>=◌}
use bug_museum.Memory.Bytes.{Bytes}
use bug_museum.Memory.Heap.{Ptr, null}
use bug_museum.Wire.Request.{Header}
use bug_museum.Wire.Serve
use bug_museum.Session.Types.{Handler, Store}
use bug_museum.Session.Server.{Request, handle_request}

abbrev pub sess_max_arg : ℕ
sess_max_arg = 0x10_0000

abbrev pub request_of : Header → Request
request_of h = record { flags = h.flags; handle = h.target }

module _ (is_tcp : Bool) (plugins : ℕ → Option Handler) where
  unfoldable pub answer : Store × Ptr → Header → Bytes → Result ((Store × Ptr) × Bytes)
  answer (s, cur) h arg = do
    (s, cur, text) ← handle_request is_tcp plugins s cur h.op (request_of h) arg
    ok ((s, cur), text)

  -- serve: the connection starts without a cached session
  unfoldable pub serve : (ℕ → Bool) → (ℕ → ℕ → ℕ) → Store → Bytes → Result ((Store × Ptr) × Bytes)
  serve buffers recv s stream = Serve.serve answer sess_max_arg buffers recv (s, null) stream
