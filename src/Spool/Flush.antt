-- ===== src/Spool/Flush.antt =====
-- double-free/capstone/src/spoolcore/spoolcore.c: JobFlush on a queue of jobs that are ready ends, and
-- retires each of them.
use mathlib.Core.Path.{subst}
use bug_museum.Base.{
  ℕ, zero, suc, ◌-◌, ◌<◌, ◌≡◌, ◌≢◌, refl, sym, inl, inr, List, [], ◌∷◌, arith, length, ne→==,
}
use bug_museum.Base.Distinct.{Avoids}
use bug_museum.Memory.Fault.{Returns}
use bug_museum.Memory.Heap.{Ptr, null, live, unmapped, released}
use bug_museum.Spool.Types.{Job, job, Store}
use bug_museum.Spool.Queue.{linked_to}
use bug_museum.Spool.Jobs.{flush_rounds, flush}
use bug_museum.Spool.Linked.{Linked, IsQueue, length-queue}
use bug_museum.Spool.Order.{dequeued, dequeue-empty, dequeue-first, dequeued-IsQueue}
use bug_museum.Spool.Owned.{MetaOk, Owned-assigned}
use bug_museum.Spool.Pump.{
  Ready, AllReady, finished, work-finished, finished-IsQueue, finished-unissued, finished-released,
  finished-AllReady, job_survives,
}

-- The job `j` of the first store is gone in the second: its block is released and its slot is empty.
abbrev pub Gone : Store → Store → Ptr → Type 0
Gone s s' j =
    (s'.heap.cell j ≡ released) × ((x : Job) → s.heap.cell j ≡ live (job x) → s'.slots x.id ≡ null)

abbrev pub AllGone : Store → Store → List Ptr → Type 0
AllGone s s' [] = Unit {0}
AllGone s s' (j ∷ js) = Gone s s' j × AllGone s s' js

-- What the pump leaves: an empty queue, the jobs gone, and nothing that was free in use.
pub record Drained (s : Store) (js : List Ptr) (s' : Store) : Type 0 where
  pub idle : s'.qhead ≡ null
  pub gone : AllGone s s' js
  pub counted : s'.count ≡ s.count - length js
  pub still_released : (p : Ptr) → s.heap.cell p ≡ released → s'.heap.cell p ≡ released
  pub still_empty : (i : ℕ) → s.slots i ≡ null → s'.slots i ≡ null

module _ (s : Store) {owner : Ptr → Ptr} {j : Ptr} (r : Ready s owner j) where
  abbrev taken : Store
  taken = dequeued s j r.content

  taken-Ready : Ready taken owner j
  taken-Ready = record {
    content = linked_to null r.content;
    blocks = Owned-assigned r.blocks (linked_to null r.content) refl refl refl;
    waits = r.waits;
    borrows = r.borrows;
    in_table = r.in_table;
    slot = r.slot;
  }

  taken-Ready_other : (k : Ptr) → k ≢ j → Ready s owner k → Ready taken owner k
  taken-Ready_other k ne t =
      let o = t.blocks in
      let kept : MetaOk taken.heap owner k t.content.meta = elim o.meta_ok [
        | inl none_there ↦ inl none_there
        | inr (ne', (b, here, owned)) ↦ inr (ne', (b, ground (arith, here, r.blocks.here), owned))
      ] in
      record {
        content = t.content;
        blocks = record {
          space = o.space;
          ne_null = o.ne_null;
          here = ground (arith, o.here);
          document_ne_null = o.document_ne_null;
          document_here = ground (arith, o.document_here, r.blocks.here);
          fits = o.fits;
          document_owned = o.document_owned;
          meta_ok = kept;
          apart = o.apart;
        };
        waits = t.waits;
        borrows = t.borrows;
        in_table = t.in_table;
        slot = t.slot;
      }

  taken-AllReady : (ks : List Ptr) → Avoids j ks → AllReady s owner ks → AllReady taken owner ks
  taken-AllReady [] a all = tt
  taken-AllReady (k ∷ ks) a all =
      let apart : k ≢ j = λ e. a.0 (sym e) in
      (taken-Ready_other k apart all.0, taken-AllReady ks a.1 all.1)

-- Jobs that survive a step are gone later for the store before it, too.
AllGone-before :
    (s t s' : Store) (ks : List Ptr) (j : Ptr)
    → ((k : Ptr) (x : Job) → k ≢ j → s.heap.cell k ≡ live (job x) → t.heap.cell k ≡ live (job x))
    → Avoids j ks
    → AllGone t s' ks
    → AllGone s s' ks
AllGone-before s t s' [] j survive a all = tt
AllGone-before s t s' (k ∷ ks) j survive a all =
    let apart : k ≢ j = λ e. a.0 (sym e) in
    (
      (all.0.0, λ x here. all.0.1 x (survive k x apart here)),
      AllGone-before s t s' ks j survive a.1 all.1,
    )

flush_rounds-drains :
    (rounds : ℕ) (s : Store) (owner : Ptr → Ptr) (js : List Ptr)
    → ((q : Ptr) → s.heap.requests < q → s.heap.cell q ≡ unmapped)
    → IsQueue s js
    → AllReady s owner js
    → length js < rounds
    → Returns (Drained s js) (flush_rounds rounds s)
unfolding flush_rounds
flush_rounds-drains zero s owner js unissued q all few = absurd (omega arith)
flush_rounds-drains (suc rounds) s owner [] unissued q all few = rw (dequeue-empty s q) (
  s,
  refl,
  record {
    idle = q.linked;
    gone = tt;
    counted = omega arith;
    still_released = λ p e. e;
    still_empty = λ i e. e;
  },
)
flush_rounds-drains (suc rounds) s owner (j ∷ js) unissued q (r, others) few =
    let (e, ne, (x, here, rest)) = q.linked in
    let a = q.distinct.0 in
    let same : x ≡ r.content = ground (arith, here, r.blocks.here) in
    let linked : Linked s.heap r.content.qnext js =
      subst (λ (y : Job). Linked s.heap y.qnext js) same rest in
    let t = taken s r in
    let r' = taken-Ready s r in
    let q' = dequeued-IsQueue s q r.content r.blocks.here linked in
    let unissued' : (p : Ptr) → t.heap.requests < p → t.heap.cell p ≡ unmapped =
      λ p lt. ground (arith, unissued p lt, r.blocks.here) in
    let u = finished t r' in
    let (s', run, d) =
      flush_rounds-drains rounds u owner js (finished-unissued t r' js unissued' q' a)
        (finished-IsQueue t r' js unissued' q' a)
        (finished-AllReady t r' js unissued' q' a js a (taken-AllReady s r js a others))
        (omega arith) in
    rw
      (
        dequeue-first s q r.content r.blocks.here,
        ne→== j null ne,
        work-finished t r' js unissued' q' a,
      )
      (
        s',
        run,
        record {
          idle = d.idle;
          gone = (
            (
              d.still_released j (ground arith),
              λ y at. d.still_empty y.id (ground (arith, at, r.blocks.here)),
            ),
            AllGone-before s u s' js j
                (λ k y ne' at. job_survives t r' js unissued' q' a k ne' (ground (arith, at))) a
                d.gone,
          );
          counted = omega (arith, d.counted);
          still_released = λ p gone.
              d.still_released p
                (finished-released t r' js unissued' q' a p (ground (arith, gone, r.blocks.here)));
          still_empty = λ i empty. d.still_empty i (ground (arith, empty));
        },
      )

-- On a store whose queued jobs are waiting, have blocks of their own and are to be rendered by a
-- filter that borrows, JobFlush ends without a fault; then the queue is empty, every such job is
-- released and its slot is empty, and the count has gone down by their number.
pub flush-Drained :
    (s : Store) (owner : Ptr → Ptr) (js : List Ptr)
    → ((q : Ptr) → s.heap.requests < q → s.heap.cell q ≡ unmapped)
    → IsQueue s js
    → AllReady s owner js
    → Returns (Drained s js) (flush s)
unfolding flush
flush-Drained s owner js unissued q all =
    flush_rounds-drains (suc s.heap.requests) s owner js unissued q all
      (omega (arith, length-queue s.heap s.qhead js unissued q.linked q.distinct))
