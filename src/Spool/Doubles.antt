-- ===== src/Spool/Doubles.antt =====
-- double-free/capstone/src/spoolcore/spoolcore.c: the calls that free a block twice, or use a job that
-- has been freed.
use mathlib.Core.Path.{subst}
use bug_museum.Base.{
  ℕ, suc, ◌+◌, ◌%◌, ◌^◌, ◌≤◌, ◌<◌, ◌≡◌, ◌≢◌, refl, sym, true, List, [], ◌∷◌, arith, length, ne→==,
  lt→ltb, ge→ltb,
}
use bug_museum.Base.Distinct.{Avoids}
use bug_museum.Memory.Fault.{fault, use_after_free, double_free}
use bug_museum.Memory.Bytes.{Bytes, blit-ok, splice}
use bug_museum.Memory.Heap.{
  realloc-moved, length-regrown, Ptr, null, Heap, live, unmapped, released, put, regrown, deref,
  assign-live, free-released,
}
use bug_museum.Spool.Types.{
  Job, cancelled, Object, job, bytes, Store, job_at, spool_max, spool_recent, enc_max_doc,
}
use bug_museum.Spool.Queue.{linked_to, unlink_queue}
use bug_museum.Spool.Store.{get, free_job, retire}
use bug_museum.Spool.Jobs.{append, append_to, append_grow, work, work_on, flush, flush_rounds}
use bug_museum.Spool.Linked.{
  Linked, IsQueue, job_at-live, bytes_at-live, length-queue, unlink_from-absent,
}
use bug_museum.Spool.Order.{dequeued, dequeue-first, dequeued-IsQueue}
use bug_museum.Spool.Owned.{Owned, freed, free_job-freed, Owned-assigned}

pub job_at-released :
    (h : Heap Object) (p : Ptr) → p ≢ null → h.cell p ≡ released → job_at h p ≡ fault use_after_free
unfolding job_at deref
job_at-released h p ne e = rw (ne→== p null ne, e)

free_job-released :
    (s : Store) (p : Ptr)
    → p ≢ null
    → s.heap.cell p ≡ released
    → free_job s p ≡ fault use_after_free
unfolding free_job
free_job-released s p ne e = rw (ne→== p null ne, job_at-released s.heap p ne e)

-- Jobs other than the freed one stay where they are.
pub freed-Linked :
    (s : Store) {owner : Ptr → Ptr} {p : Ptr} {x : Job} (o : Owned s.heap owner p x) (c : Ptr)
    (js : List Ptr)
    → Avoids p js
    → Linked s.heap c js
    → Linked (freed s p x).heap c js
freed-Linked s o c [] a l = l
freed-Linked s {owner} {p} {x} o c (k ∷ js) a l =
    let (e, ne, (y, here, rest)) = l in
    let apart : k ≢ p = λ e'. a.0 (sym e') in
    let here' : (freed s p x).heap.cell k ≡ live (job y) =
      ground (arith, here, o.document_here, o.meta_ok) in
    (e, ne, (y, here', freed-Linked s o y.qnext js a.1 rest))

module _ (s : Store) {owner : Ptr → Ptr} {j : Ptr} {x : Job} (o : Owned s.heap owner j x)
    (in_table : x.id < spool_max) (slot : s.slots x.id ≡ j) (js : List Ptr) (q : IsQueue s js)
    (a : Avoids j js) (few : length js ≤ s.heap.requests) where
  retire-freed : retire (freed s j x) x.id ≡ fault use_after_free
  unfolding retire unlink_queue
  retire-freed = rw (
    lt→ltb x.id spool_max in_table,
    slot,
    ne→== j null o.ne_null,
    unlink_from-absent (suc s.heap.requests) (freed s j x) null s.qhead j js
        (freed-Linked s o s.qhead js a q.linked) a (omega arith),
    free_job-released (freed s j x) j o.ne_null (ground arith),
  )

  -- JobWork frees a cancelled job, and then retires its number, which is still in the table.
  work-cancelled : x.state ≡ cancelled → work s j ≡ fault use_after_free
  unfolding work work_on
  work-cancelled dropped = rw (
    ne→== j null o.ne_null,
    job_at-live s.heap j x o.ne_null o.here,
    dropped,
    free_job-freed s o,
    retire-freed,
  )

-- JobFlush on a queue whose first job is cancelled, has blocks of its own and is in the table, uses
-- that job after it has freed it.
pub flush-cancelled :
    (s : Store) (owner : Ptr → Ptr) (j : Ptr) (js : List Ptr) (x : Job)
    → ((q : Ptr) → s.heap.requests < q → s.heap.cell q ≡ unmapped)
    → IsQueue s (j ∷ js)
    → Owned s.heap owner j x
    → x.state ≡ cancelled
    → x.id < spool_max
    → s.slots x.id ≡ j
    → flush s ≡ fault use_after_free
unfolding flush flush_rounds
flush-cancelled s owner j js x unissued q o dropped in_table slot =
    let (_, _, (y, here, rest)) = q.linked in
    let same : y ≡ x = ground (arith, here, o.here) in
    let linked : Linked s.heap x.qnext js =
      subst (λ (z : Job). Linked s.heap z.qnext js) same rest in
    let few = length-queue s.heap s.qhead (j ∷ js) unissued q.linked q.distinct in
    rw (
      dequeue-first s q x o.here,
      ne→== j null o.ne_null,
      work-cancelled (dequeued s j x) (Owned-assigned o (linked_to null x) refl refl refl) in_table
          slot js (dequeued-IsQueue s q x o.here linked) q.distinct.0 (omega arith) dropped,
    )

-- A number in the table resolves to its job, and marks it as the active one.
pub get-slot :
    (s : Store) (id : ℕ) (j : Ptr)
    → id < spool_max
    → j ≢ null
    → s.slots id ≡ j
    → get s id ≡ (record s { active = j }, j)
unfolding get
get-slot s id j lt ne at =
    rw (ne→== id spool_recent (omega arith), lt→ltb id spool_max lt, at, ne→== j null ne)

module _ (s : Store) {owner : Ptr → Ptr} {j : Ptr} {x : Job} (o : Owned s.heap owner j x)
    (arg : Bytes) (unissued : (q : Ptr) → s.heap.requests < q → s.heap.cell q ≡ unmapped)
    (granted : s.heap.grants s.heap.requests ≡ true)
    (moved : s.heap.moves s.heap.requests ≡ true) where
  append_grow-moved : append_grow s j x arg (x.len + length arg) ≡ fault double_free
  unfolding append_grow
  append_grow-moved =
      let need = x.len + length arg in
      let p = suc s.heap.requests in
      let d = x.document in
      let new = regrown s.heap o.space need in
      let size : length new ≡ need = length-regrown s.heap o.space need in
      let unused = unissued p (omega arith) in
      let p_j : p ≢ j = λ e. ground (arith, unused, o.here, e) in
      let p_d : p ≢ d = λ e. ground (arith, unused, o.document_here, e) in
      let j_d : j ≢ d = λ e. ground (arith, o.here, o.document_here, e) in
      let h₁ : Heap Object = record s.heap {
        cell = put (put s.heap.cell d released) p (live (bytes new));
        requests = p;
      } in
      let x' = record x { document = p; cap = need } in
      let h₂ : Heap Object = record h₁ { cell = put h₁.cell j (live (job x')) } in
      let filled = splice new x.len arg in
      let h₃ : Heap Object = record h₂ { cell = put h₂.cell p (live (bytes filled)) } in
      let h₄ : Heap Object = record h₃ {
        cell = put h₃.cell j (live (job (record x' { len = need })));
      } in
      rw (
        bytes_at-live s.heap d o.space o.document_ne_null o.document_here,
        realloc-moved s.heap d o.document_ne_null {a = bytes o.space} (bytes new) o.document_here
            granted moved,
        ne→== p null (omega arith),
        assign-live h₁ j o.ne_null {a = job x} (job x') (ground (arith, o.here)),
        bytes_at-live h₂ p new (omega arith) (ground arith),
        blit-ok new x.len arg (omega (arith, size)),
        assign-live h₂ p (omega arith) {a = bytes new} (bytes filled) (ground arith),
        assign-live h₃ j o.ne_null {a = job x'} (job (record x' { len = need })) (ground arith),
        ne→== p d p_d,
        free-released h₄ d o.document_ne_null (ground arith),
      )

-- JobAppend on a job with blocks of its own, within the limits and above the capacity, is a double
-- free whenever realloc moves the document: realloc has already freed the old block.
pub append-moved :
    (s : Store) (owner : Ptr → Ptr) (j : Ptr) (x : Job) (id : ℕ) (arg : Bytes)
    → ((q : Ptr) → s.heap.requests < q → s.heap.cell q ≡ unmapped)
    → Owned s.heap owner j x
    → id < spool_max
    → s.slots id ≡ j
    → x.len + length arg ≤ enc_max_doc
    → x.cap < x.len + length arg
    → s.heap.grants s.heap.requests ≡ true
    → s.heap.moves s.heap.requests ≡ true
    → append s id arg ≡ fault double_free
unfolding append append_to
append-moved s owner j x id arg unissued o lt at small grows granted moved =
    let need : (x.len + length arg) % 2 ^ 32 ≡ x.len + length arg = omega arith in
    rw
      (
        get-slot s id j lt o.ne_null at,
        ne→== j null o.ne_null,
        job_at-live s.heap j x o.ne_null o.here,
        need,
        ge→ltb enc_max_doc (length arg) (omega arith),
        ge→ltb enc_max_doc (x.len + length arg) small,
        lt→ltb x.cap (x.len + length arg) grows,
      )
      (append_grow-moved (record s { active = j }) o arg unissued granted moved)
