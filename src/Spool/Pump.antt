-- ===== src/Spool/Pump.antt =====
-- double-free/capstone/src/spoolcore/spoolcore.c: JobFlush drains the queue.
use bug_museum.Base.{
  ℕ, ◌<◌, ◌≡◌, ◌≢◌, refl, sym, ap, ◌∙◌, inl, inr, true, false, List, [], ◌∷◌, arith, length, take,
  ne→==, eq→==, le→leb,
}
use native.Mathlib.Decide.{ℕ_discrete}
use bug_museum.Base.Distinct.{Avoids}
use bug_museum.Memory.Fault.{ok}
use bug_museum.Memory.Bytes.{Bytes}
use bug_museum.Memory.Heap.{Ptr, null, Heap, live, unmapped, released, put, deref}
use bug_museum.Spool.Filters.{Filter, text, pdfish, raster, run_filter}
use bug_museum.Spool.Types.{
  Job, queued, rendering, done, Object, job, bytes, Store, bytes_at, spool_max,
}
use bug_museum.Spool.Jobs.{document_of, call_filter, in_state, work_on, work}
use bug_museum.Spool.Linked.{Linked-frame, Linked, IsQueue, job_at-live, update_job-live}
use bug_museum.Spool.Owned.{Owned, MetaOk, retired, retire-retired, Owned-assigned}

-- The two filters that leave the document to the store.
abbrev pub Borrows : Filter → Type 0
Borrows f = f ≢ text

run_filter-Borrows : (f : Filter) (b : Bytes) (n : ℕ) → Borrows f → (run_filter f b n).freed ≡ false
unfolding run_filter
run_filter-Borrows pdfish b n borrows = refl
run_filter-Borrows raster b n borrows = refl
run_filter-Borrows text b n borrows = absurd (borrows refl)

pub document_of-Owned :
    {h : Heap Object} {owner : Ptr → Ptr} {p : Ptr} {x : Job} (o : Owned h owner p x)
    → document_of h x ≡ ok (take x.len o.space)
unfolding document_of bytes_at deref
document_of-Owned {x} o = elim (ℕ_discrete x.len 0) [
  | yes nothing ↦ rw (eq→== x.len 0 nothing, nothing) refl
  | no some_bytes ↦ rw (
    ne→== x.len 0 some_bytes,
    ne→== x.document null o.document_ne_null,
    o.document_here,
    le→leb x.len (length o.space) o.fits,
  )
]

-- A filter that borrows the document leaves the heap as it is.
pub call_filter-Borrows :
    {h : Heap Object} {owner : Ptr → Ptr} {p : Ptr} {x : Job} (o : Owned h owner p x) (out_cap : ℕ)
    → Borrows x.filter
    → call_filter h x out_cap ≡ ok (h, run_filter x.filter (take x.len o.space) out_cap)
unfolding call_filter
call_filter-Borrows {x} o out_cap borrows =
    rw (document_of-Owned o, run_filter-Borrows x.filter (take x.len o.space) out_cap borrows)

-- The job `j` is waiting: it has blocks of its own, stands in its slot, and will be rendered by a
-- filter that borrows the document.
pub record Ready (s : Store) (owner : Ptr → Ptr) (j : Ptr) : Type 0 where
  pub content : Job
  pub blocks : Owned s.heap owner j content
  pub waits : content.state ≡ queued
  pub borrows : Borrows content.filter
  pub in_table : content.id < spool_max
  pub slot : s.slots content.id ≡ j

abbrev pub AllReady : Store → (Ptr → Ptr) → List Ptr → Type 0
AllReady s owner [] = Unit {0}
AllReady s owner (j ∷ js) = Ready s owner j × AllReady s owner js

-- The store with another content of the job `j`.
abbrev pub assigned : Store → Ptr → Job → Store
assigned s j y = record s { heap = record s.heap { cell = put s.heap.cell j (live (job y)) } }

module _ (s : Store) {owner : Ptr → Ptr} {j : Ptr} (r : Ready s owner j) where
  abbrev pub rendered : Job
  rendered = in_state done (in_state rendering r.content)

  abbrev pub worked : Store
  worked = assigned (assigned s j (in_state rendering r.content)) j rendered

  during :
      Owned
        (assigned s j (in_state rendering r.content)).heap
        owner
        j
        (in_state rendering r.content)
  during = Owned-assigned r.blocks (in_state rendering r.content) refl refl refl

  pub worked-Owned : Owned worked.heap owner j rendered
  worked-Owned = Owned-assigned during rendered refl refl refl

  work_on-ready : work_on s j r.content ≡ ok worked
  unfolding work_on
  work_on-ready =
      let o = r.blocks in
      let s' = assigned s j (in_state rendering r.content) in
      let e = call_filter-Borrows during 256 r.borrows in
      rw (
        r.waits,
        update_job-live s j (in_state rendering) r.content o.ne_null o.here,
        job_at-live s'.heap j (in_state rendering r.content) o.ne_null during.here,
        e,
        update_job-live s' j (in_state done) (in_state rendering r.content) o.ne_null during.here,
      )

  abbrev pub finished : Store
  finished = retired worked worked-Owned r.content.id

  module _ (js : List Ptr) (unissued : (q : Ptr) → s.heap.requests < q → s.heap.cell q ≡ unmapped)
      (q : IsQueue s js) (a : Avoids j js) where
    worked-IsQueue : IsQueue worked js
    worked-IsQueue = record {
      linked = Linked-frame s.heap worked.heap j s.qhead js (λ p ne. ground arith) a q.linked;
      tail = q.tail;
      distinct = q.distinct;
    }

    worked-unissued : (p : Ptr) → worked.heap.requests < p → worked.heap.cell p ≡ unmapped
    worked-unissued p lt = ground (arith, unissued p lt, r.blocks.here)

    pub work-finished : work s j ≡ ok (finished, true)
    unfolding work
    work-finished =
        let o = r.blocks in
        rw (
          ne→== j null o.ne_null,
          job_at-live s.heap j r.content o.ne_null o.here,
          work_on-ready,
          retire-retired worked worked-Owned r.content.id js r.in_table r.slot worked-unissued
              worked-IsQueue a,
        )

    -- Other jobs' blocks, and what is not in use, are as they were.
    pub finished-same :
        (p : Ptr)
        → p ≢ j
        → p ≢ r.content.document
        → p ≢ r.content.meta
        → finished.heap.cell p ≡ s.heap.cell p
    finished-same p ne ne' ne'' = ground arith

    pub finished-released : (p : Ptr) → s.heap.cell p ≡ released → finished.heap.cell p ≡ released
    finished-released p e = ground (arith, e, r.blocks.meta_ok)

    pub finished-unissued : (p : Ptr) → finished.heap.requests < p → finished.heap.cell p ≡ unmapped
    finished-unissued p lt =
        ground (arith, unissued p lt, r.blocks.here, r.blocks.document_here, r.blocks.meta_ok)

    pub job_survives :
        (k : Ptr) {x : Job}
        → k ≢ j
        → s.heap.cell k ≡ live (job x)
        → finished.heap.cell k ≡ live (job x)
    job_survives k ne e = ground (arith, e, r.blocks.document_here, r.blocks.meta_ok)

    pub finished-Linked :
        (c : Ptr) (ks : List Ptr) → Avoids j ks → Linked s.heap c ks → Linked finished.heap c ks
    finished-Linked c [] b l = l
    finished-Linked c (k ∷ ks) b l =
        let (e, ne, (x, here, rest)) = l in
        let apart : k ≢ j = λ e'. b.0 (sym e') in
        (e, ne, (x, job_survives k apart here, finished-Linked x.qnext ks b.1 rest))

    pub finished-IsQueue : IsQueue finished js
    finished-IsQueue = record {
      linked = finished-Linked s.qhead js a q.linked;
      tail = q.tail;
      distinct = q.distinct;
    }

    bytes_survive :
        (k p : Ptr) {b : Bytes}
        → k ≢ j
        → s.heap.cell p ≡ live (bytes b)
        → owner p ≡ k
        → p ≢ null
        → finished.heap.cell p ≡ live (bytes b)
    bytes_survive k p ne e owned some_p =
        ground (arith, e, owned, r.blocks.here, r.blocks.document_owned, r.blocks.meta_ok)

    pub finished-Ready : (k : Ptr) → k ≢ j → Ready s owner k → Ready finished owner k
    finished-Ready k ne t =
        let o = t.blocks in
        let other : t.content.id ≢ r.content.id = λ e. ne (sym t.slot ∙ ap s.slots e ∙ r.slot) in
        let kept : MetaOk finished.heap owner k t.content.meta = elim o.meta_ok [
          | inl none_there ↦ inl none_there
          | inr (ne', (b, here, owned)) ↦
              inr (ne', (b, bytes_survive k t.content.meta ne here owned ne', owned))
        ] in
        record {
          content = t.content;
          blocks = record {
            space = o.space;
            ne_null = o.ne_null;
            here = job_survives k ne o.here;
            document_ne_null = o.document_ne_null;
            document_here =
                bytes_survive k t.content.document ne o.document_here o.document_owned
                  o.document_ne_null;
            fits = o.fits;
            document_owned = o.document_owned;
            meta_ok = kept;
            apart = o.apart;
          };
          waits = t.waits;
          borrows = t.borrows;
          in_table = t.in_table;
          slot = ground (arith, t.slot, other);
        }

    pub finished-AllReady :
        (ks : List Ptr) → Avoids j ks → AllReady s owner ks → AllReady finished owner ks
    finished-AllReady [] b all = tt
    finished-AllReady (k ∷ ks) b all =
        let apart : k ≢ j = λ e. b.0 (sym e) in
        (finished-Ready k apart all.0, finished-AllReady ks b.1 all.1)
