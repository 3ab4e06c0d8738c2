-- ===== src/Spool/Calls.antt =====
-- double-free/capstone/src/spoolcore/spoolcore.c: sequences of calls of the job store, as the three programs
-- above it make them: and which calls keep
-- the blocks of the jobs apart.
use bug_museum.Base.{ℕ, ◌+◌, ◌≤◌, ◌<◌, ◌≡◌, ◌⊎◌, Bool, Option, some, List, [], ◌∷◌, length}
use bug_museum.Memory.Fault.{Result, ok, ◌>>=◌}
use bug_museum.Memory.Bytes.{Bytes}
use bug_museum.Memory.Heap.{null}
use bug_museum.Spool.Filters.{Filter}
use bug_museum.Spool.Types.{Job, queued, Store, spool_max, job_at}
use bug_museum.Spool.Store.{submit, get, retire}
use bug_museum.Spool.Jobs.{render, append, cancel, recycle, dup, status, flush}
use bug_museum.Spool.Pump.{Borrows}
use bug_museum.Spool.Appends.{Stays}

pub data Call : Type 0 where
  submits : ℕ → Option Filter → Bytes → Call
  renders : ℕ → ℕ → Call
  appends : ℕ → Bytes → Call
  retires cancels dups recycles : ℕ → Call
  stats : Bool → Call
  flushes : Call

-- The store after a call; what it returns and prints is dropped.
unfoldable pub step : Store → Call → Result Store
step s (submits fmt f init) = submit s fmt f init >>= λ r. ok r.0
step s (renders id out_cap) = render s id out_cap >>= λ r. ok r.0
step s (appends id arg) = append s id arg >>= λ r. ok r.0
step s (retires id) = retire s id >>= λ r. ok r.0
step s (cancels id) = cancel s id >>= λ r. ok r.0
step s (dups id) = dup s id >>= λ r. ok r.0
step s (recycles id) = recycle s id >>= λ r. ok r.0
step s (stats verbose) = status s verbose >>= λ _. ok s
step s flushes = flush s

-- The job that a number resolves to.
abbrev pub Resolves : Store → ℕ → Job → Type 0
Resolves s id x = job_at s.heap (get s id).1 ≡ ok x

-- A job may be submitted with a filter that borrows the document. A document may be extended within its
-- capacity, or if realloc does not move it. A job may be copied if it has no metadata, and recycled if
-- nothing has been recycled yet. The queue may be flushed if every job is waiting. All other calls are
-- allowed.
abbrev pub Allowed : Store → Call → Type 0
Allowed s (submits fmt f init) = (g : Filter) → f ≡ some g → Borrows g
Allowed s (appends id arg) =
    (x : Job) → Resolves s id x → (x.len + length arg ≤ x.cap) ⊎ Stays s.heap
Allowed s (dups id) = (x : Job) → Resolves s id x → x.meta ≡ null
Allowed s (recycles id) = s.scratch ≡ null
Allowed s flushes =
    (id : ℕ) → id < spool_max → (x : Job) → job_at s.heap (s.slots id) ≡ ok x → x.state ≡ queued
Allowed s _ = Unit {0}

-- A sequence of calls, which ends at the first fault.
unfoldable pub run : Store → List Call → Result Store
run s [] = ok s
run s (c ∷ cs) = step s c >>= λ t. run t cs

-- Each call is allowed in the store that the calls before it have left.
abbrev pub AllAllowed : Store → List Call → Type 0
AllAllowed s [] = Unit {0}
AllAllowed s (c ∷ cs) = Allowed s c × ((t : Store) → step s c ≡ ok t → AllAllowed t cs)
