-- ===== src/Spool/View.antt =====
-- What the job store of double-free/capstone/src/spoolcore/spoolcore.c stands for: a finite map from job
-- numbers to the state, the filter and the document of a job.
use bug_museum.Base.{
  ℕ, ◌≤◌, ◌≡◌, ◌≢◌, refl, ◌⊎◌, Option, none, some, ◌==◌, if◌then◌else◌, eq→==, ne→==, take,
}
use bug_museum.Memory.Bytes.{Bytes}
use bug_museum.Spool.Filters.{Filter}
use bug_museum.Spool.Types.{Job, JobState, spool_max, spool_recent}

pub record Entry : Type 0 where
  pub state : JobState
  pub filter : Filter
  pub document : Bytes

abbrev pub View : Type 0
View = ℕ → Option Entry

-- The entry of a job with the block `space`.
abbrev pub entry : Job → Bytes → Entry
entry x space = record { state = x.state; filter = x.filter; document = take x.len space }

abbrev pub with_entry : View → ℕ → Option Entry → View
with_entry m id o i = if i == id then o else m i

pub with_entry-same : (m : View) (id : ℕ) (o : Option Entry) → with_entry m id o id ≡ o
with_entry-same m id o = rw (eq→== id id refl)

pub with_entry-other : (m : View) (id i : ℕ) (o : Option Entry) → i ≢ id → with_entry m id o i ≡ m i
with_entry-other m id i o ne = rw (ne→== i id ne)

-- A number that leads to no job; the sentinel may lead to none at any time.
abbrev pub Missing : View → ℕ → Type 0
Missing m id = id ≢ spool_recent → (spool_max ≤ id) ⊎ (m id ≡ none)

-- The job that a number is for: its own, but for the sentinel, which is for the active job.
abbrev pub Names : View → ℕ → ℕ → Entry → Type 0
Names m id i e = (id ≢ spool_recent → i ≡ id) × (m i ≡ some e)
