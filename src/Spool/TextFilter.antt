-- ===== src/Spool/TextFilter.antt =====
-- double-free/capstone/src/spoolcore/spoolcore.c with the filter of filters/filter_text.c, which frees the
-- document of the job that it is given.
use mathlib.Core.Path.{subst}
use bug_museum.Base.{ℕ, zero, suc, ◌<◌, ◌≡◌, refl, inl, inr, true, List, arith, take, ne→==, lt→ltb}
use bug_museum.Base.Distinct.{find_split}
use bug_museum.Memory.Fault.{ok, fault, double_free, Returns}
use bug_museum.Memory.Bytes.{Bytes}
use bug_museum.Memory.Heap.{
  Ptr, null, Heap, live, unmapped, released, put, free-live, free-released, free-eq_null,
}
use bug_museum.Spool.Filters.{text, run_filter}
use bug_museum.Spool.Types.{Job, Object, job, bytes, Store, spool_max}
use bug_museum.Spool.Queue.{linked_to, unlink_queue}
use bug_museum.Spool.Store.{free_job, retire}
use bug_museum.Spool.Jobs.{render, call_filter}
use bug_museum.Spool.Linked.{
  Linked-frame, Linked-Avoids_bytes, IsQueue, job_at-live, length-queue, unlink_from-absent,
}
use bug_museum.Spool.Order.{unlink_queue-Relinked}
use bug_museum.Spool.Relinked.{Relinked, Relinked-ends, job_kept, bytes_kept, released_kept}
use bug_museum.Spool.Owned.{Owned, MetaOk}
use bug_museum.Spool.Pump.{document_of-Owned}
use bug_museum.Spool.Doubles.{get-slot}

run_filter-freed : (b : Bytes) (out_cap : ℕ) → (run_filter text b out_cap).freed ≡ true
unfolding run_filter
run_filter-freed b zero = refl
run_filter-freed b (suc room) = refl

-- A job is taken out of the queue if it is there; only links change.
unlink_queue-Returns :
    (s : Store) (js : List Ptr) (j : Ptr)
    → ((p : Ptr) → s.heap.requests < p → s.heap.cell p ≡ unmapped)
    → IsQueue s js
    → Returns (Relinked s) (unlink_queue s j)
unfolding unlink_queue
unlink_queue-Returns s js j unissued q = elim (find_split j js) [
  | inl (front, rest, e) ↦
      let (t, run, (_, r)) =
        unlink_queue-Relinked s front j rest unissued (subst (IsQueue s) e q) in
      (t, run, r)
  | inr a ↦ (
    s,
    unlink_from-absent (suc s.heap.requests) s null s.qhead j js q.linked a
        (omega (arith, length-queue s.heap s.qhead js unissued q.linked q.distinct)),
    Relinked-ends s s.qhead s.qtail,
  )
]

module _ (s : Store) {owner : Ptr → Ptr} {j : Ptr} {x : Job} (o : Owned s.heap owner j x) where
  -- The store after the filter.
  abbrev consumed : Store
  consumed = record s { heap = record s.heap { cell = put s.heap.cell x.document released } }

  call_filter-text :
      (out_cap : ℕ)
      → x.filter ≡ text
      → call_filter s.heap x out_cap
        ≡ ok (consumed.heap, run_filter text (take x.len o.space) out_cap)
  unfolding call_filter
  call_filter-text out_cap reads = rw (
    document_of-Owned o,
    reads,
    run_filter-freed (take x.len o.space) out_cap,
    free-live s.heap x.document o.document_ne_null {a = bytes o.space} o.document_here,
  )

  consumed_here : consumed.heap.cell j ≡ live (job x)
  consumed_here = ground (arith, o.here, o.document_here)

  consumed-MetaOk : MetaOk consumed.heap owner j x.meta
  consumed-MetaOk = elim o.meta_ok [
    | inl none_there ↦ inl none_there
    | inr (ne, (b, here, owned)) ↦ inr (ne, (b, ground (arith, here, o.apart), owned))
  ]

  consumed-IsQueue : (js : List Ptr) → IsQueue s js → IsQueue consumed js
  consumed-IsQueue js q = record {
    linked =
        Linked-frame s.heap consumed.heap x.document s.qhead js (λ p ne. ground arith)
          (Linked-Avoids_bytes s.heap x.document o.space s.qhead js o.document_here q.linked)
          q.linked;
    tail = q.tail;
    distinct = q.distinct;
  }

  -- free_job frees the document that the filter has freed.
  free_job-consumed : {t : Store} → Relinked consumed t → free_job t j ≡ fault double_free
  unfolding free_job
  free_job-consumed {t} r =
      let (after, here) = job_kept r j x consumed_here in
      let y = linked_to after x in
      let gone = released_kept r x.document (ground arith) in
      elim consumed-MetaOk [
        | inl none_there ↦ rw (
          ne→== j null o.ne_null,
          job_at-live t.heap j y o.ne_null here,
          free-eq_null t.heap x.meta none_there,
          job_at-live t.heap j y o.ne_null here,
          free-released t.heap x.document o.document_ne_null gone,
        )
        | inr (ne, (b, meta_here, _)) ↦
            let there = bytes_kept r x.meta b meta_here in
            let h : Heap Object = record t.heap { cell = put t.heap.cell x.meta released } in
            rw (
              ne→== j null o.ne_null,
              job_at-live t.heap j y o.ne_null here,
              free-live t.heap x.meta ne {a = bytes b} there,
              job_at-live h j y o.ne_null (ground (arith, here, there)),
              free-released h x.document o.document_ne_null (ground (arith, gone)),
            )
      ]

  retire-consumed :
      (js : List Ptr)
      → ((p : Ptr) → s.heap.requests < p → s.heap.cell p ≡ unmapped)
      → IsQueue s js
      → x.id < spool_max
      → s.slots x.id ≡ j
      → retire consumed x.id ≡ fault double_free
  unfolding retire
  retire-consumed js unissued q lt at =
      let fresh : (p : Ptr) → s.heap.requests < p → consumed.heap.cell p ≡ unmapped =
        λ p above. ground (arith, unissued p above, o.document_here) in
      let (t, run, r) = unlink_queue-Returns consumed js j fresh (consumed-IsQueue js q) in
      rw (lt→ltb x.id spool_max lt, at, ne→== j null o.ne_null, run, free_job-consumed r)

-- JobRender of a job with blocks of its own and the text filter, in a table whose queue is a list of
-- live jobs, is a double free: the filter frees the document, and JobRetire frees it again.
pub render-text :
    (s : Store) (owner : Ptr → Ptr) (j : Ptr) (x : Job) (js : List Ptr) (out_cap : ℕ)
    → ((p : Ptr) → s.heap.requests < p → s.heap.cell p ≡ unmapped)
    → IsQueue s js
    → Owned s.heap owner j x
    → x.filter ≡ text
    → x.id < spool_max
    → s.slots x.id ≡ j
    → render s x.id out_cap ≡ fault double_free
unfolding render
render-text s owner j x js out_cap unissued q o reads lt at =
    let t : Store = record s { active = j } in
    let q' : IsQueue t js = record { linked = q.linked; tail = q.tail; distinct = q.distinct } in
    rw (
      get-slot s x.id j lt o.ne_null at,
      ne→== j null o.ne_null,
      job_at-live s.heap j x o.ne_null o.here,
      call_filter-text t o out_cap reads,
      job_at-live (consumed t o).heap j x o.ne_null (consumed_here t o),
      retire-consumed t o js unissued q' lt at,
    )
