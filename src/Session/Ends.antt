-- ===== src/Session/Ends.antt =====
-- use-after-free/capstone/src/sesscore/sesscore.c and sessiond/sessiond.c: the ends of the operations of
-- the store, of the handlers and of the loop over the requests of a connection.
use bug_museum.Base.{Option-cases, arith, Option-cases}
use bug_museum.Memory.Fault.{Ends, ends_rules}
use bug_museum.Memory.Bytes.{Bytes, blit-Ends}
use bug_museum.Memory.Heap.{Ptr, Heap, assign-Ends, free-Ends, realloc-Ends}
use bug_museum.Session.Types.{Session, Object, Store, session_at, bytes_at}

session_at-Ends : (h : Heap Object) (p : Ptr) → Ends (session_at h p)
unfolding session_at
session_at-Ends h p = record { in_time = λ e. ground arith }

bytes_at-Ends : (h : Heap Object) (p : Ptr) → Ends (bytes_at h p)
unfolding bytes_at
bytes_at-Ends h p = record { in_time = λ e. ground arith }

ruleset heap_rules =
    (ends_rules, session_at-Ends, bytes_at-Ends, blit-Ends, assign-Ends, free-Ends, realloc-Ends)
