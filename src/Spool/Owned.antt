-- ===== src/Spool/Owned.antt =====
-- The blocks of a job of double-free/capstone/src/spoolcore/spoolcore.c, and what free_job and
-- JobRetire do to a job that owns them.
use bug_museum.Base.{
  ℕ, suc, ◌-◌, ◌≤◌, ◌<◌, ◌≡◌, ◌≢◌, sym, ap, ◌∙◌, ◌⊎◌, inl, inr, true, List, arith, ◌==◌,
  if◌then◌else◌, length, ne→==, eq→==, lt→ltb,
}
use bug_museum.Base.Distinct.{Avoids}
use bug_museum.Memory.Fault.{ok}
use bug_museum.Memory.Bytes.{Bytes}
use bug_museum.Memory.Heap.{
  Ptr, null, Heap, Cell, live, unmapped, released, put, free, free-live, free-eq_null,
}
use bug_museum.Memory.Slots.{set_slot}
use bug_museum.Spool.Types.{Job, Object, job, bytes, Store, spool_max}
use bug_museum.Spool.Queue.{unlink_queue}
use bug_museum.Spool.Store.{free_job, retire}
use bug_museum.Spool.Linked.{IsQueue, job_at-live, length-queue, unlink_from-absent}

-- No metadata, or a live block that only this job points to.
abbrev pub MetaOk : Heap Object → (Ptr → Ptr) → Ptr → Ptr → Type 0
MetaOk h owner p m =
    (m ≡ null) ⊎ ((m ≢ null) × ((b : Bytes) × (h.cell m ≡ live (bytes b)) × (owner m ≡ p)))

-- The live job `p` has blocks of its own.
pub record Owned (h : Heap Object) (owner : Ptr → Ptr) (p : Ptr) (x : Job) : Type 0 where
  pub space : Bytes
  pub ne_null : p ≢ null
  pub here : h.cell p ≡ live (job x)
  pub document_ne_null : x.document ≢ null
  pub document_here : h.cell x.document ≡ live (bytes space)
  pub fits : x.len ≤ length space
  pub document_owned : owner x.document ≡ p
  pub meta_ok : MetaOk h owner p x.meta
  pub apart : x.document ≢ x.meta

abbrev pub meta_freed : Heap Object → Ptr → Ptr → Cell Object
meta_freed h m = if m == null then h.cell else put h.cell m released

-- The store after free_job of the job `p` with the content `x`.
abbrev pub freed : Store → Ptr → Job → Store
freed s p x = record s {
  heap = record s.heap {
    cell = put (put (meta_freed s.heap x.meta) x.document released) p released;
  };
  active = if s.active == p then null else s.active;
}

module _ (s : Store) {owner : Ptr → Ptr} {p : Ptr} {x : Job} (o : Owned s.heap owner p x) where
  abbrev pub without_meta : Heap Object
  without_meta = record s.heap { cell = meta_freed s.heap x.meta }

  pub free-meta : free s.heap x.meta ≡ ok without_meta
  free-meta = elim o.meta_ok [
    | inl none_there ↦ rw (eq→== x.meta null none_there) (free-eq_null s.heap x.meta none_there)
    | inr (ne, (b, here, _)) ↦
        rw (ne→== x.meta null ne) (free-live s.heap x.meta ne {a = bytes b} here)
  ]

  pub still_here : without_meta.cell p ≡ live (job x)
  still_here = elim o.meta_ok [
    | inl none_there ↦ rw (eq→== x.meta null none_there) o.here
    | inr (ne, (b, here, _)) ↦ ground (arith, o.here, here)
  ]

  document_still_here : without_meta.cell x.document ≡ live (bytes o.space)
  document_still_here = ground (arith, o.document_here, o.apart)

  -- A job with blocks of its own is freed without a fault.
  pub free_job-freed : free_job s p ≡ ok (freed s p x)
  unfolding free_job
  free_job-freed =
      let h = without_meta in
      let h' : Heap Object = record h { cell = put h.cell x.document released } in
      let here' : h'.cell p ≡ live (job x) = ground (arith, still_here, o.here, o.document_here) in
      rw (
        ne→== p null o.ne_null,
        job_at-live s.heap p x o.ne_null o.here,
        free-meta,
        job_at-live h p x o.ne_null still_here,
        free-live h x.document o.document_ne_null {a = bytes o.space} document_still_here,
        free-live h' p o.ne_null {a = job x} here',
      )

  -- The store after JobRetire of that job, in the slot `id`.
  abbrev pub retired : ℕ → Store
  retired id = record (freed s p x) { slots = set_slot s.slots id null; count = s.count - 1 }

  -- A job that owns its blocks and has left the queue is retired without a fault.
  pub retire-retired :
      (id : ℕ) (js : List Ptr)
      → id < spool_max
      → s.slots id ≡ p
      → ((q : Ptr) → s.heap.requests < q → s.heap.cell q ≡ unmapped)
      → IsQueue s js
      → Avoids p js
      → retire s id ≡ ok (retired id, true)
  unfolding retire unlink_queue
  retire-retired id js lt at unissued q a = rw (
    lt→ltb id spool_max lt,
    at,
    ne→== p null o.ne_null,
    unlink_from-absent (suc s.heap.requests) s null s.qhead p js q.linked a
        (omega (arith, length-queue s.heap s.qhead js unissued q.linked q.distinct)),
    free_job-freed,
  )

-- An assignment to fields that do not concern the blocks leaves them owned.
pub Owned-assigned :
    {h : Heap Object} {owner : Ptr → Ptr} {p : Ptr} {x : Job} (o : Owned h owner p x) (y : Job)
    → y.document ≡ x.document
    → y.len ≡ x.len
    → y.meta ≡ x.meta
    → Owned (record h { cell = put h.cell p (live (job y)) }) owner p y
Owned-assigned {h} {owner} {p} {x} o y same_document same_len same_meta =
    let h' : Heap Object = record h { cell = put h.cell p (live (job y)) } in
    let kept : MetaOk h' owner p y.meta = elim o.meta_ok [
      | inl none_there ↦ inl (same_meta ∙ none_there)
      | inr (ne, (b, here, owned)) ↦ inr (
        (λ e. ne (sym same_meta ∙ e)),
        (b, ground (arith, o.here, here), ap owner same_meta ∙ owned),
      )
    ] in
    record {
      space = o.space;
      ne_null = o.ne_null;
      here = ground arith;
      document_ne_null = λ e. o.document_ne_null (sym same_document ∙ e);
      document_here = ground (arith, o.here, o.document_here);
      fits = omega (arith, o.fits);
      document_owned = ap owner same_document ∙ o.document_owned;
      meta_ok = kept;
      apart = λ e. o.apart (sym same_document ∙ e ∙ same_meta);
    }
