-- ===== src/Spool/Store.antt =====
-- double-free/capstone/src/spoolcore/spoolcore.c: the operations of the job store. The table is a
-- value, so `t` is never NULL; a job number is the `int` of a `uint16_t`, so it is not negative; a data
-- argument and its length are one list. `none` and `false` stand for SPOOL_ERR.
use bug_museum.Base.{
  ℕ, ◌+◌, ◌-◌, ◌%◌, Bool, true, false, Option, none, some, ◌∷◌, ltb, ◌==◌, if◌then◌else◌, length,
  take, replicate,
}
use bug_museum.Memory.Fault.{Result, ok, ◌>>=◌}
use bug_museum.Memory.Bytes.{Bytes, blit}
use bug_museum.Memory.Heap.{Ptr, null, Heap, fresh_bytes, assign, free, malloc}
use bug_museum.Memory.Slots.{free_slot, set_slot}
use bug_museum.Spool.Filters.{Filter}
use bug_museum.Spool.Types.{
  queued, Job, Object, job, bytes, Store, spool_max, spool_recent, enc_max_doc, job_at,
}
use bug_museum.Spool.Queue.{enqueue, unlink_queue}

-- SpoolNew, over the heap that the process starts with
unfoldable pub new : Heap Object → Store
new h = record {
  heap = h;
  slots = λ _. null;
  qhead = null;
  qtail = null;
  count = 0;
  active = null;
  scratch = null;
}

-- alloc_slot
unfoldable pub alloc_slot : Store → Option ℕ
alloc_slot s = free_slot spool_max 0 s.slots

-- free_job
unfoldable pub free_job : Store → Ptr → Result Store
free_job s j = if j == null then ok s else (do
  x ← job_at s.heap j
  h ← free s.heap x.meta
  x ← job_at h j
  h ← free h x.document
  h ← free h j
  ok (record s { heap = h; active = if s.active == j then null else s.active }))

-- JobRetire
unfoldable pub retire : Store → ℕ → Result (Store × Bool)
retire s id =
    if ltb id spool_max
    then if s.slots id == null then ok (s, false) else (do
      let j = s.slots id
      s ← unlink_queue s j
      s ← free_job s j
      ok (record s { slots = set_slot s.slots id null; count = s.count - 1 }, true))
    else ok (s, false)

abbrev pub capacity : ℕ → ℕ
capacity len = if ltb len 32 then 32 else len

-- The end of JobSubmit and of JobDup: the job `j` is linked under the number `id`.
unfoldable pub link_job : Store → ℕ → Ptr → Result (Store × Option ℕ)
link_job s id j = do
  s ← enqueue (record s { slots = set_slot s.slots id j; count = s.count + 1 }) j
  ok (record s { active = j }, some id)

-- The metadata header of a new job.
abbrev pub header : ℕ → Bytes
header fmt = fmt % 256 ∷ replicate 15 0

-- Both blocks of a new job are there.
unfoldable pub submit_filled :
    Store → Heap Object → ℕ → ℕ → Filter → Bytes → Ptr → Ptr → Bytes → Result (Store × Option ℕ)
submit_filled s h id fmt f init j d space = do
  filled ← blit space 0 init
  h ← assign h d (bytes filled)
  let (h', m) = malloc h (bytes (header fmt))
  h ← assign h' j (
      job (record {
        id = id;
        fmt = fmt;
        state = queued;
        filter = f;
        document = d;
        len = length init;
        cap = capacity (length init);
        meta = m;
        meta_len = 16;
        qnext = null;
      }))
  link_job (record s { heap = h }) id j

-- `calloc` leaves every field zero.
abbrev pub blank : Filter → Job
blank f = record {
  id = 0;
  fmt = 0;
  state = queued;
  filter = f;
  document = null;
  len = 0;
  cap = 0;
  meta = null;
  meta_len = 0;
  qnext = null;
}

unfoldable pub submit_at : Store → ℕ → ℕ → Filter → Bytes → Result (Store × Option ℕ)
submit_at s id fmt f init =
    let (h, j) = malloc s.heap (job (blank f)) in
    let space = fresh_bytes h (capacity (length init)) in
    let (h', d) = malloc h (bytes space) in
    if j == null
    then ok (record s { heap = h }, none)
    else if d == null
    then (do h'' ← free h' j; ok (record s { heap = h'' }, none))
    else submit_filled s h' id fmt f init j d space

-- JobSubmit
unfoldable pub submit : Store → ℕ → Option Filter → Bytes → Result (Store × Option ℕ)
unfolding alloc_slot
submit s fmt none init = ok (s, none)
submit s fmt (some f) init = elim (alloc_slot s) [
  | none ↦ ok (s, none)
  | some id ↦ submit_at s id fmt f (take enc_max_doc init)
]

-- JobGet: the job that a number resolves to, or NULL
unfoldable pub get : Store → ℕ → Store × Ptr
get s id =
    if id == spool_recent
    then (s, s.active)
    else if ltb id spool_max
    then if s.slots id == null then (s, null) else (record s { active = s.slots id }, s.slots id)
    else (s, null)
