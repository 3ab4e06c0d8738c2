-- ===== src/Spool/Types.antt =====
-- double-free/capstone/src/spoolcore/spoolcore.h: the job, the job table with the store's globals, and
-- the heap that they point into.
use bug_museum.Base.{ℕ}
use bug_museum.Memory.Fault.{Result, ok, fault, wild_pointer, ◌>>=◌}
use bug_museum.Memory.Bytes.{Bytes}
use bug_museum.Memory.Heap.{Ptr, Heap, deref, assign}
use bug_museum.Spool.Filters.{Filter}

pub data JobState : Type 0 where
  queued rendering done cancelled : JobState

pub record Job : Type 0 where
  pub id : ℕ
  pub fmt : ℕ
  pub state : JobState
  pub filter : Filter
  pub document : Ptr
  pub len : ℕ
  pub cap : ℕ
  pub meta : Ptr
  pub meta_len : ℕ
  pub qnext : Ptr

-- What a block of the heap holds.
pub data Object : Type 0 where
  job : Job → Object
  bytes : Bytes → Object

abbrev pub spool_max : ℕ
spool_max = 256

-- The job sentinel 0xFFFF.
abbrev pub spool_recent : ℕ
spool_recent = 0xFFFF

abbrev pub enc_max_doc : ℕ
enc_max_doc = 0x10_0000

-- The table `slots`, `qhead`, `qtail` and `count`, and the globals `g_active` and `g_scratch`.
pub record Store : Type 0 where
  pub heap : Heap Object
  pub slots : ℕ → Ptr
  pub qhead : Ptr
  pub qtail : Ptr
  pub count : ℕ
  pub active : Ptr
  pub scratch : Ptr

as_job : Object → Result Job
as_job (job x) = ok x
as_job (bytes b) = fault wild_pointer

as_bytes : Object → Result Bytes
as_bytes (job x) = fault wild_pointer
as_bytes (bytes b) = ok b

-- `*j` for a `Job *`
unfoldable pub job_at : Heap Object → Ptr → Result Job
unfolding deref as_job
job_at h p = deref h p >>= as_job

-- The bytes of a document or a metadata block.
unfoldable pub bytes_at : Heap Object → Ptr → Result Bytes
unfolding deref as_bytes
bytes_at h p = deref h p >>= as_bytes

-- An assignment to fields of the job that a pointer leads to.
unfoldable pub update_job : Store → Ptr → (Job → Job) → Result Store
update_job s p f = do
  x ← job_at s.heap p
  h ← assign s.heap p (job (f x))
  ok (record s { heap = h })
