-- ===== src/Spool/Consumed.antt =====
-- double-free/capstone/src/spoolcore/spoolcore.c: the kept buffer of JobRecycle, which its job owns too.
use bug_museum.Base.{true, ℕ, ◌<◌, ◌≡◌, ◌≢◌, arith, ne→==}
use bug_museum.Memory.Fault.{ok, fault, double_free, ◌>>=◌}
use bug_museum.Memory.Heap.{
  Ptr, null, Heap, live, released, put, free, free-eq_null, free-live, free-released,
}
use bug_museum.Spool.Types.{bytes, Object, Job, job, Store, spool_max}
use bug_museum.Spool.Jobs.{recycle}
use bug_museum.Spool.Linked.{job_at-live}
use bug_museum.Spool.Owned.{Owned}
use bug_museum.Spool.Doubles.{get-slot}

-- JobRecycle frees the kept document, and keeps the job's own.
recycle-kept :
    (s : Store) (id : ℕ) (j : Ptr) (x : Job) (h : Heap Object)
    → id < spool_max
    → s.slots id ≡ j
    → j ≢ null
    → free s.heap s.scratch ≡ ok h
    → h.cell j ≡ live (job x)
    → recycle s id ≡ ok (record s { heap = h; active = j; scratch = x.document }, true)
unfolding recycle
recycle-kept s id j x h lt at ne freed_ok here =
    rw (get-slot s id j lt ne at, ne→== j null ne, freed_ok, job_at-live h j x ne here)

recycle-faults :
    (s : Store) (id : ℕ) (j : Ptr)
    → id < spool_max
    → s.slots id ≡ j
    → j ≢ null
    → free s.heap s.scratch ≡ fault double_free
    → recycle s id ≡ fault double_free
unfolding recycle
recycle-faults s id j lt at ne twice = rw (get-slot s id j lt ne at, ne→== j null ne, twice)

-- A job that is recycled three times in a row has its document freed twice, while it still owns it.
pub recycle-thrice :
    (s : Store) (owner : Ptr → Ptr) (j : Ptr) (x : Job)
    → Owned s.heap owner j x
    → x.id < spool_max
    → s.slots x.id ≡ j
    → s.scratch ≡ null
    → (recycle s x.id >>= λ r. recycle r.0 x.id >>= λ t. recycle t.0 x.id) ≡ fault double_free
recycle-thrice s owner j x o lt at idle =
    let d = x.document in
    let s₁ : Store = record s { active = j; scratch = d } in
    let h₂ : Heap Object = record s.heap { cell = put s.heap.cell d released } in
    let s₂ : Store = record s₁ { heap = h₂ } in
    let kept : h₂.cell j ≡ live (job x) = ground (arith, o.here, o.document_here) in
    rw
      (
        recycle-kept s x.id j x s.heap lt at o.ne_null (free-eq_null s.heap s.scratch idle) o.here,
        recycle-kept s₁ x.id j x h₂ lt at o.ne_null
            (free-live s.heap d o.document_ne_null {a = bytes o.space} o.document_here) kept,
      )
      (recycle-faults s₂ x.id j lt at o.ne_null
        (free-released h₂ d o.document_ne_null (ground arith)))
