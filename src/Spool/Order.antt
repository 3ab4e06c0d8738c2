-- ===== src/Spool/Order.antt =====
-- The queue operations of double-free/capstone/src/spoolcore/spoolcore.c against the list of jobs that
-- the queue stands for: the first is taken, new ones go last, and any can be taken out.
use mathlib.Core.Path.{subst}
use mathlib.Core.List.{append-nil}
use bug_museum.Base.{
  suc, ◌<◌, ◌≡◌, ◌≢◌, refl, sym, ap, ◌∙◌, List, [], ◌∷◌, ◌++◌, arith, ◌==◌, if◌then◌else◌, ne→==,
  eq→==, length-append,
}
use bug_museum.Base.Distinct.{Avoids, IsDistinct, IsDistinct-snoc, IsDistinct-remove}
use bug_museum.Memory.Fault.{ok, Returns}
use bug_museum.Memory.Heap.{Ptr, null, Heap, live, unmapped, put}
use bug_museum.Spool.Types.{Job, Object, job, Store, update_job}
use bug_museum.Spool.Queue.{linked_to, enqueue, take_head, dequeue, unlink_at, unlink_queue}
use bug_museum.Spool.Relinked.{Relinked, Relinked-trans, Relinked-put, Relinked-ends}
use bug_museum.Spool.Linked.{
  Linked, last_or, IsQueue, job_at-live, update_job-live, Linked-frame, last_or-ne, Linked-last,
  Linked-relink, length-queue, unlink_from-found,
}

last_or-snoc : (d j : Ptr) (js : List Ptr) → j ≡ last_or d (js ++ j ∷ [])
last_or-snoc d j [] = refl
last_or-snoc d j (k ∷ js) = last_or-snoc k j js

last_or-append :
    (d : Ptr) (xs : List Ptr) (y : Ptr) (ys : List Ptr) → last_or d (xs ++ y ∷ ys) ≡ last_or y ys
last_or-append d [] y ys = refl
last_or-append d (x ∷ xs) y ys = last_or-append x xs y ys

last_or-Avoids :
    (k : Ptr) (ks rest : List Ptr) → IsDistinct ((k ∷ ks) ++ rest) → Avoids (last_or k ks) rest
last_or-Avoids k [] rest d = d.0
last_or-Avoids k (k' ∷ ks) rest d = last_or-Avoids k' ks rest d.1

-- What JobDequeue makes of the queue `js` of the store `s`: the store and the job that it returns.
abbrev pub IsTaken : Store → List Ptr → Store → Ptr → Type 0
IsTaken s [] s' p = (p ≡ null) × (s' ≡ s)
IsTaken s (j ∷ js) s' p = (p ≡ j) × IsQueue s' js × Relinked s s' × (s'.scratch ≡ s.scratch)

-- The store after the head `j`, with the content `x`, has been taken off its queue.
abbrev pub dequeued : Store → Ptr → Job → Store
dequeued s j x = record s {
  heap = record s.heap { cell = put s.heap.cell j (live (job (linked_to null x))) };
  qhead = x.qnext;
  qtail = if x.qnext == null then null else s.qtail;
}

module _ (s : Store) where
  pub dequeue-empty : IsQueue s [] → dequeue s ≡ ok (s, null)
  unfolding dequeue
  dequeue-empty q = rw (eq→== s.qhead null q.linked)

  pub dequeue-first :
      {j : Ptr} {js : List Ptr} (q : IsQueue s (j ∷ js)) (x : Job)
      → s.heap.cell j ≡ live (job x)
      → dequeue s ≡ ok (dequeued s j x, j)
  unfolding dequeue take_head
  dequeue-first {j} q x here =
      let (e, ne, _) = q.linked in
      let tail : Ptr = if x.qnext == null then null else s.qtail in
      rw (
        e,
        ne→== j null ne,
        job_at-live s.heap j x ne here,
        update_job-live (record s { qhead = x.qnext; qtail = tail }) j (linked_to null) x ne here,
      )

  tail_of :
      (j c : Ptr) (js : List Ptr)
      → Linked s.heap c js
      → s.qtail ≡ last_or j js
      → (if c == null then null else s.qtail) ≡ last_or null js
  tail_of j c [] l t = rw (eq→== c null l)
  tail_of j c (k ∷ ks) l t = let (e, ne, _) = l in rw (ne→== c null (λ e'. ne (sym e ∙ e'))) t

  pub dequeued-IsQueue :
      {j : Ptr} {js : List Ptr} (q : IsQueue s (j ∷ js)) (x : Job)
      → s.heap.cell j ≡ live (job x)
      → Linked s.heap x.qnext js
      → IsQueue (dequeued s j x) js
  dequeued-IsQueue {j} {js} q x here rest = record {
    linked =
        Linked-frame s.heap (dequeued s j x).heap j x.qnext js (λ p ne. ground arith) q.distinct.0
          rest;
    tail = tail_of j x.qnext js rest q.tail;
    distinct = q.distinct.1;
  }

  pub dequeued-Relinked :
      (j : Ptr) (x : Job) → s.heap.cell j ≡ live (job x) → Relinked s (dequeued s j x)
  dequeued-Relinked j x here =
      Relinked-put s j null x x.qnext (if x.qnext == null then null else s.qtail) here

  -- JobDequeue returns NULL and leaves the store as it was on an empty queue. Else it returns the first
  -- job and leaves the others in order; the table, the count, the active job and the kept buffer stay,
  -- and the blocks change in the links of jobs only.
  pub dequeue-IsQueue :
      (js : List Ptr) → IsQueue s js → Returns (λ r. IsTaken s js r.0 r.1) (dequeue s)
  dequeue-IsQueue [] q = ((s, null), dequeue-empty q, (refl, refl))
  dequeue-IsQueue (j ∷ js) q =
      let (_, _, (x, here, rest)) = q.linked in
      (
        (dequeued s j x, j),
        dequeue-first q x here,
        (refl, dequeued-IsQueue q x here rest, dequeued-Relinked j x here, refl),
      )

  module _ {j : Ptr} {x : Job} (ne : j ≢ null) (here : s.heap.cell j ≡ live (job x)) where
    abbrev ended : Store
    ended = record s {
      heap = record s.heap { cell = put s.heap.cell j (live (job (linked_to null x))) };
    }

    ended-run : update_job s j (linked_to null) ≡ ok ended
    ended-run = update_job-live s j (linked_to null) x ne here

    pub enqueue-Relinked :
        (js : List Ptr)
        → IsQueue s js
        → Avoids j js
        → Returns (λ s'. IsQueue s' (js ++ j ∷ []) × Relinked s s') (enqueue s j)
    unfolding enqueue
    enqueue-Relinked [] q a =
        rw (ended-run, eq→== s.qtail null q.tail)
          (
            record ended { qhead = j; qtail = j },
            refl,
            (
              record {
                linked = (refl, ne, (linked_to null x, ground arith, refl));
                tail = refl;
                distinct = (tt, tt);
              },
              Relinked-put s j null x j j here,
            ),
          )
    enqueue-Relinked (k ∷ ks) q a =
        let t = s.qtail in
        let old : Linked ended.heap s.qhead ((k ∷ ks) ++ []) =
          subst (Linked ended.heap s.qhead) (sym (append-nil (k ∷ ks))) (
            Linked-frame s.heap ended.heap j s.qhead (k ∷ ks) (λ p ne'. ground arith) a q.linked) in
        let (t_ne, (y, at_t, _)) = Linked-last ended.heap s.qhead k ks [] old in
        let t_ne' : t ≢ null = λ e. t_ne (sym q.tail ∙ e) in
        let apart : j ≢ last_or k ks = last_or-ne j k ks a in
        let heap : Heap Object = record ended.heap {
          cell = put ended.heap.cell t (live (job (linked_to j y)));
        } in
        rw
          (
            ended-run,
            ne→== t null t_ne',
            update_job-live ended t (linked_to j) y t_ne' (ap ended.heap.cell q.tail ∙ at_t),
          )
          (
            record s { heap = heap; qtail = j },
            refl,
            (
              record {
                linked =
                    Linked-relink ended.heap heap s.qhead k ks [] (j ∷ []) j y old q.distinct
                      (λ p ne'. ground (arith, q.tail)) (ground (arith, q.tail))
                      (refl, ne, (linked_to null x, ground (arith, q.tail), refl));
                tail = last_or-snoc null j (k ∷ ks);
                distinct = IsDistinct-snoc j (k ∷ ks) a q.distinct;
              },
              Relinked-trans (Relinked-put s j null x s.qhead s.qtail here)
                  (Relinked-put ended t j y s.qhead j (ap ended.heap.cell q.tail ∙ at_t)),
            ),
          )

    -- enqueue puts a live job that is not in the queue behind all others.
    pub enqueue-IsQueue :
        (js : List Ptr)
        → IsQueue s js
        → Avoids j js
        → Returns (λ s'. IsQueue s' (js ++ j ∷ [])) (enqueue s j)
    enqueue-IsQueue js q a = let (s', run, (q', _)) = enqueue-Relinked js q a in (s', run, q')

  unlink_at-first :
      (j : Ptr) (rest : List Ptr) (x : Job)
      → IsQueue s (j ∷ rest)
      → Linked s.heap x.qnext rest
      → Returns (λ s'. IsQueue s' rest × Relinked s s') (unlink_at s null j x.qnext)
  unfolding unlink_at
  unlink_at-first j [] x q l =
      rw (eq→== s.qtail j q.tail)
        (_, refl, (record { linked = l; tail = refl; distinct = tt }, Relinked-ends s x.qnext null))
  unlink_at-first j (k ∷ ks) x q l =
      let other : s.qtail ≢ j = λ e. last_or-ne j k ks q.distinct.0 (sym e ∙ q.tail) in
      rw (ne→== s.qtail j other) (
        _,
        refl,
        (
          record { linked = l; tail = q.tail; distinct = q.distinct.1 },
          Relinked-ends s x.qnext s.qtail,
        ),
      )

  -- The tail pointer after the removal of `j` behind `t`.
  tail_removed :
      (j t : Ptr) (front rest : List Ptr)
      → s.qtail ≡ last_or null (front ++ j ∷ rest)
      → Avoids j rest
      → last_or null front ≡ t
      → (if s.qtail == j then t else s.qtail) ≡ last_or null (front ++ rest)
  tail_removed j t front [] e a last =
      rw (eq→== s.qtail j (e ∙ last_or-append null front j []))
        (sym last ∙ ap (last_or null) (sym (append-nil front)))
  tail_removed j t front (k ∷ ks) e a last =
      let e' : s.qtail ≡ last_or k ks = e ∙ last_or-append null front j (k ∷ ks) in
      let other : s.qtail ≢ j = λ e''. last_or-ne j k ks a (sym e'' ∙ e') in
      rw (ne→== s.qtail j other) (e' ∙ sym (last_or-append null front k ks))

  unlink_at-behind :
      (j k : Ptr) (ks rest : List Ptr) (x : Job)
      → IsQueue s ((k ∷ ks) ++ j ∷ rest)
      → Linked s.heap x.qnext rest
      → Returns
          (λ s'. IsQueue s' ((k ∷ ks) ++ rest) × Relinked s s')
          (unlink_at s (last_or k ks) j x.qnext)
  unfolding unlink_at
  unlink_at-behind j k ks rest x q l =
      let t = last_or k ks in
      let (d, a, df, af, ar) = IsDistinct-remove (k ∷ ks) j rest q.distinct in
      let (t_ne, (y, at_t, _)) = Linked-last s.heap s.qhead k ks (j ∷ rest) q.linked in
      let heap : Heap Object = record s.heap {
        cell = put s.heap.cell t (live (job (linked_to x.qnext y)));
      } in
      let off : Avoids t rest = last_or-Avoids k ks rest d in
      let tail : Ptr = if s.qtail == j then t else s.qtail in
      let ended : (if s.qtail == j
            then record s { heap = heap; qtail = t }
            else record s { heap = heap })
          ≡ record s { heap = heap; qtail = tail } =
        ground arith in
      rw (ne→== t null t_ne, update_job-live s t (linked_to x.qnext) y t_ne at_t, ended)
        (
          record s { heap = heap; qtail = tail },
          refl,
          (
            record {
              linked =
                  Linked-relink s.heap heap s.qhead k ks (j ∷ rest) rest x.qnext y q.linked df
                    (λ p ne. ground arith) (ground arith)
                    (Linked-frame s.heap heap t x.qnext rest (λ p ne. ground arith) off l);
              tail = tail_removed j t (k ∷ ks) rest q.tail ar refl;
              distinct = d;
            },
            Relinked-put s t x.qnext y s.qhead tail at_t,
          ),
        )

  unlink_at-removes :
      (front : List Ptr) (j : Ptr) (rest : List Ptr) (x : Job)
      → IsQueue s (front ++ j ∷ rest)
      → Linked s.heap x.qnext rest
      → Returns
          (λ s'. IsQueue s' (front ++ rest) × Relinked s s')
          (unlink_at s (last_or null front) j x.qnext)
  unlink_at-removes [] j rest x q l = unlink_at-first j rest x q l
  unlink_at-removes (k ∷ ks) j rest x q l = unlink_at-behind j k ks rest x q l

  pub unlink_queue-Relinked :
      (front : List Ptr) (j : Ptr) (rest : List Ptr)
      → ((q : Ptr) → s.heap.requests < q → s.heap.cell q ≡ unmapped)
      → IsQueue s (front ++ j ∷ rest)
      → Returns (λ s'. IsQueue s' (front ++ rest) × Relinked s s') (unlink_queue s j)
  unfolding unlink_queue
  unlink_queue-Relinked front j rest unissued q =
      let (_, _, _, af, _) = IsDistinct-remove front j rest q.distinct in
      let short = length-queue s.heap s.qhead (front ++ j ∷ rest) unissued q.linked q.distinct in
      let (x, here, l, run) =
        unlink_from-found (suc s.heap.requests) s null s.qhead j front rest q.linked af
          (omega (arith, length-append front (j ∷ rest))) in
      rw run (unlink_at-removes front j rest x q l)

  -- unlink_queue takes a job out of the queue, and leaves the others in order.
  pub unlink_queue-IsQueue :
      (front : List Ptr) (j : Ptr) (rest : List Ptr)
      → ((q : Ptr) → s.heap.requests < q → s.heap.cell q ≡ unmapped)
      → IsQueue s (front ++ j ∷ rest)
      → Returns (λ s'. IsQueue s' (front ++ rest)) (unlink_queue s j)
  unlink_queue-IsQueue front j rest unissued q =
      let (s', run, (q', _)) = unlink_queue-Relinked front j rest unissued q in (s', run, q')
