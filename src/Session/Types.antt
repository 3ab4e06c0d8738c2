-- ===== src/Session/Types.antt =====
-- use-after-free/capstone/src/sesscore/sesscore.h: the session, the handle table with the store's
-- globals, and the heap that they point into.
use bug_museum.Base.{ℕ, List}
use bug_museum.Memory.Fault.{Result, ok, fault, wild_pointer, ◌>>=◌}
use bug_museum.Memory.Bytes.{Bytes}
use bug_museum.Memory.Heap.{Ptr, Heap, deref}

-- The plugins that a `handler` field can hold.
pub data Handler : Type 0 where
  echo calc : Handler

pub record Session : Type 0 where
  pub id : ℕ
  pub kind : ℕ
  pub handler : Handler
  pub bytes : Ptr
  pub len : ℕ
  pub cap : ℕ

-- What a block of the heap holds.
pub data Object : Type 0 where
  session : Session → Object
  bytes : Bytes → Object

abbrev pub sess_max : ℕ
sess_max = 256

-- The handle sentinel 0xFFFF.
abbrev pub sess_recent : ℕ
sess_recent = 0xFFFF

abbrev pub sess_max_data : ℕ
sess_max_data = 0x10_0000

abbrev pub defer_max : ℕ
defer_max = 64

-- The table `slots`, `count`, the globals `g_recent` and `g_batch` (oldest entry first).
pub record Store : Type 0 where
  pub heap : Heap Object
  pub slots : ℕ → Ptr
  pub count : ℕ
  pub recent : Ptr
  pub batch : List (Ptr × ℕ)

as_session : Object → Result Session
as_session (session x) = ok x
as_session (bytes b) = fault wild_pointer

as_bytes : Object → Result Bytes
as_bytes (session x) = fault wild_pointer
as_bytes (bytes b) = ok b

-- `*s` for a `Session *`
unfoldable pub session_at : Heap Object → Ptr → Result Session
unfolding deref as_session
session_at h p = deref h p >>= as_session

-- The bytes of a data block.
unfoldable pub bytes_at : Heap Object → Ptr → Result Bytes
unfolding deref as_bytes
bytes_at h p = deref h p >>= as_bytes
