-- ===== src/Spool/Jobs.antt =====
-- double-free/capstone/src/spoolcore/spoolcore.c: the operations on one job, and the render pump. As in
-- Spool/Store, `none` and `false` stand for SPOOL_ERR.
use bug_museum.Base.{
  ℕ, zero, suc, ◌+◌, ◌%◌, ◌^◌, Bool, true, false, ◌&&◌, ◌||◌, Option, none, some, [], ◌++◌, ltb,
  leb, ◌==◌, if◌then◌else◌, length, take,
}
use bug_museum.Memory.Fault.{Result, ok, fault, over_read, no_end, ◌>>=◌}
use bug_museum.Memory.Bytes.{Bytes, blit}
use bug_museum.Memory.Heap.{Ptr, null, Heap, fresh_bytes, regrown, assign, free, malloc, realloc}
use bug_museum.Text.{codes, decimal}
use bug_museum.Spool.Filters.{Preview, run_filter}
use bug_museum.Spool.Types.{
  JobState, queued, rendering, done, cancelled, Job, Object, job, bytes, Store, enc_max_doc, job_at,
  bytes_at, update_job,
}
use bug_museum.Spool.Queue.{dequeue}
use bug_museum.Spool.Store.{alloc_slot, free_job, retire, capacity, link_job, blank, get}

-- The document that a filter is handed.
unfoldable pub document_of : Heap Object → Job → Result Bytes
document_of h x = if x.len == 0 then ok [] else (do
  b ← bytes_at h x.document
  if leb x.len (length b) then ok (take x.len b) else fault over_read)

-- `j->filter(j->data, j->len, out, out_cap)`
unfoldable pub call_filter : Heap Object → Job → ℕ → Result (Heap Object × Preview)
call_filter h x out_cap = do
  b ← document_of h x
  let preview = run_filter x.filter b out_cap
  h ← (if preview.freed then free h x.document else ok h)
  ok (h, preview)

-- JobRender
unfoldable pub render : Store → ℕ → ℕ → Result (Store × Option Preview)
render s id out_cap =
    let (s', j) = get s id in
    if j == null then ok (s', none) else (do
      x ← job_at s'.heap j
      (h, preview) ← call_filter s'.heap x out_cap
      x ← job_at h j
      (s'', _) ← retire (record s' { heap = h }) x.id
      ok (s'', some preview))

-- What JobAppend does when the document has to grow; `old` is freed if realloc has moved it.
unfoldable pub append_grow : Store → Ptr → Job → Bytes → ℕ → Result (Store × Bool)
append_grow s j x arg need = do
  b ← bytes_at s.heap x.document
  (h, grown) ← realloc s.heap x.document (bytes (regrown s.heap b need))
  if grown == null then ok (record s { heap = h }, false) else (do
    let x' = record x { document = grown; cap = need }
    h ← assign h j (job x')
    b ← bytes_at h grown
    b' ← blit b x.len arg
    h ← assign h grown (bytes b')
    h ← assign h j (job (record x' { len = need }))
    h ← (if grown == x.document then ok h else free h x.document)
    ok (record s { heap = h }, true))

unfoldable pub append_fits : Store → Ptr → Job → Bytes → ℕ → Result (Store × Bool)
append_fits s j x arg need = do
  b ← bytes_at s.heap x.document
  b' ← blit b x.len arg
  h ← assign s.heap x.document (bytes b')
  h ← assign h j (job (record x { len = need }))
  ok (record s { heap = h }, true)

-- JobAppend through a resolved job; the sum of two `uint32_t` wraps
unfoldable pub append_to : Store → Ptr → Job → Bytes → ℕ → Result (Store × Bool)
append_to s j x arg need =
    if ltb enc_max_doc (length arg) || ltb enc_max_doc need
    then ok (s, false)
    else if ltb x.cap need
    then append_grow s j x arg need
    else append_fits s j x arg need

-- JobAppend
unfoldable pub append : Store → ℕ → Bytes → Result (Store × Bool)
append s id arg =
    let (s', j) = get s id in
    if j == null
    then ok (s', false)
    else (do x ← job_at s'.heap j; append_to s' j x arg ((x.len + length arg) % 2 ^ 32))

abbrev pub in_state : JobState → Job → Job
in_state st x = record x { state = st }

-- JobCancel
unfoldable pub cancel : Store → ℕ → Result (Store × Bool)
cancel s id =
    let (s', j) = get s id in
    if j == null
    then ok (s', false)
    else (do s' ← update_job s' j (in_state cancelled); ok (s', true))

-- JobRecycle
unfoldable pub recycle : Store → ℕ → Result (Store × Bool)
recycle s id =
    let (s', j) = get s id in
    if j == null then ok (s', false) else (do
      h ← free s'.heap s'.scratch
      x ← job_at h j
      ok (record s' { heap = h; scratch = x.document }, true))

-- `memcpy(nj->data, j->data, j->len)` if the length is not zero
unfoldable pub copy_document : Heap Object → Job → Bytes → Result Bytes
unfolding document_of
copy_document h x space = do b ← document_of h x; blit space 0 b

-- Both blocks of the copy are there: fill them, share the metadata, and link the job.
unfoldable pub dup_filled :
    Store → Heap Object → ℕ → Job → Ptr → Ptr → Bytes → Result (Store × Option ℕ)
dup_filled s h id x j d space = do
  filled ← copy_document h x space
  h ← assign h d (bytes filled)
  h ←
      assign h j (
        job
          (record x { id = id; state = queued; document = d; cap = capacity x.len; qnext = null }))
  link_job (record s { heap = h }) id j

unfoldable pub dup_at : Store → ℕ → Job → Result (Store × Option ℕ)
dup_at s id x =
    let (h, j) = malloc s.heap (job (blank x.filter)) in
    let space = fresh_bytes h (capacity x.len) in
    let (h', d) = malloc h (bytes space) in
    if j == null
    then ok (record s { heap = h }, none)
    else if d == null
    then (do h'' ← free h' j; ok (record s { heap = h'' }, none))
    else dup_filled s h' id x j d space

-- JobDup
unfoldable pub dup : Store → ℕ → Result (Store × Option ℕ)
unfolding alloc_slot
dup s id =
    let (s', j) = get s id in
    if j == null then ok (s', none) else elim (alloc_slot s') [
      | none ↦ ok (s', none)
      | some nid ↦ (do x ← job_at s'.heap j; dup_at s' nid x)
    ]

abbrev pub state_number : JobState → ℕ
state_number queued = 0
state_number rendering = 1
state_number done = 2
state_number cancelled = 3

-- JobStatus: the text left in `out`, which is large enough for it in every caller
unfoldable pub status : Store → Bool → Result Bytes
status s verbose =
    let summary = codes "jobs=" ++ decimal s.count in
    if verbose && (if s.active == null then false else true)
    then (do
      x ← job_at s.heap s.active
      ok (
          summary
          ++ (codes " active=#"
              ++ (decimal x.id
                  ++ (codes " len="
                      ++ (decimal x.len ++ (codes " state=" ++ decimal (state_number x.state))))))))
    else ok summary

-- The first half of JobWork: what is done with a job that was taken from the queue.
unfoldable pub work_on : Store → Ptr → Job → Result Store
work_on s j x = elim x.state [
  | cancelled ↦ free_job s j
  | _ ↦ (do
    s ← update_job s j (in_state rendering)
    x ← job_at s.heap j
    (h, _) ← call_filter s.heap x 256
    update_job (record s { heap = h }) j (in_state done))
]

-- JobWork
unfoldable pub work : Store → Ptr → Result (Store × Bool)
work s j =
    if j == null
    then ok (s, false)
    else (do x ← job_at s.heap j; s ← work_on s j x; (s, _) ← retire s x.id; ok (s, true))

-- The loop of JobFlush, with its rounds bounded.
unfoldable pub flush_rounds : ℕ → Store → Result Store
flush_rounds zero s = fault no_end
flush_rounds (suc rounds) s = do
  (s, j) ← dequeue s
  if j == null then ok s else (do (s, _) ← work s j; flush_rounds rounds s)

-- JobFlush: the rounds are more than the blocks that there are
unfoldable pub flush : Store → Result Store
flush s = flush_rounds (suc s.heap.requests) s
