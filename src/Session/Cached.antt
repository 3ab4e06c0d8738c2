-- ===== src/Session/Cached.antt =====
-- use-after-free/capstone/src/sessiond/sessiond.c: the session that a pipe connection has cached, after
-- a close.
use bug_museum.Base.{ℕ, ◌<◌, ◌≡◌, false, Option, arith, ne→==}
use bug_museum.Memory.Fault.{fault, use_after_free, ◌>>=◌}
use bug_museum.Memory.Bytes.{Bytes}
use bug_museum.Memory.Heap.{Ptr, deref}
use bug_museum.Session.Types.{Handler, Store, sess_recent, sess_max, session_at}
use bug_museum.Session.Store.{overwrite}
use bug_museum.Session.Invariant.{Owns, IsSound}
use bug_museum.Session.Closes.{closed, close-closed}
use bug_museum.Session.Server.{
  Op, op_close, op_use_run, op_use_set, Request, Reply, h_use_run, h_use_set, h_close, dispatch,
}

-- Two requests of one pipe connection, the second on what the first left.
unfoldable pub two_requests :
    (ℕ → Option Handler) → Store → Ptr → Op → Request → Bytes → Op → Request → Bytes → Reply
two_requests plugins s cur op r arg op' r' arg' = do
  (s, cur, text) ← dispatch false plugins s cur op r arg
  dispatch false plugins s cur op' r' arg'

module _ {s : Store} (v : IsSound s) (id : ℕ) (lt : id < sess_max)
    (o : Owns s.heap v.owner id (s.slots id)) where
  gone : session_at (closed s id o.content).heap (s.slots id) ≡ fault use_after_free
  unfolding session_at deref
  gone = ground (arith, o.ne_null)

  module _ (plugins : ℕ → Option Handler) (r r' : Request) (arg arg' : Bytes) (at : r.handle ≡ id)
      (cached : r'.handle ≡ sess_recent) where
    -- On a pipe connection whose cached session is the one in a slot of a sound store, a close of that
    -- slot's handle and then a run or a set on the handle 0xFFFF is a use after free.
    pub two_requests-stale :
        (two_requests plugins s (s.slots id) op_close r arg op_use_run r' arg'
          ≡ fault use_after_free)
        × (two_requests plugins s (s.slots id) op_close r arg op_use_set r' arg'
            ≡ fault use_after_free)
    unfolding two_requests dispatch h_close h_use_run h_use_set overwrite
    two_requests-stale = (
      rw (at, close-closed s id o lt, cached, ne→== _ _ o.ne_null, gone),
      rw (at, close-closed s id o lt, cached, ne→== _ _ o.ne_null, gone),
    )
