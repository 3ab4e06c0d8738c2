-- ===== src/Spool/Tests.antt =====
-- Runs of the filters and of the job store on small inputs, and the theorems at them.
use bug_museum.Base.{
  take, ◌++◌, sym, ◌⊎◌, inl, false, some, List, none, ℕ, ◌<◌, ◌≡◌, refl, inr, true, [], ◌∷◌, arith,
  ltb, ◌==◌, if◌then◌else◌,
}
use bug_museum.Text.{codes, decimal}
use bug_museum.Memory.Fault.{Result, ok, fault, use_after_free, double_free, ◌>>=◌, Returns}
use bug_museum.Memory.Heap.{
  Ptr, null, Heap, Cell, live, unmapped, deref, assign, free, malloc, resized, realloc,
}
use bug_museum.Spool.TextFilter.{render-text}
use bug_museum.Spool.Filters.{text, pdfish, raster, run_filter}
use bug_museum.Spool.Types.{
  Job, JobState, queued, cancelled, Object, job, bytes, Store, spool_recent, enc_max_doc, job_at,
  bytes_at, update_job,
}
use bug_museum.Spool.Queue.{enqueue, dequeue, unlink_queue, unlink_from, unlink_at}
use bug_museum.Spool.Store.{
  free_job, retire, new, submit, submit_at, submit_filled, link_job, alloc_slot, get,
}
use bug_museum.Spool.Jobs.{
  dup, dup_at, dup_filled, copy_document, document_of, append, append_to, append_fits, render,
  flush,
}
use bug_museum.Spool.Linked.{IsQueue}
use bug_museum.Spool.Order.{IsTaken, dequeue-IsQueue, enqueue-IsQueue, unlink_queue-IsQueue}
use bug_museum.Spool.Owned.{Owned}
use bug_museum.Spool.Pump.{Borrows, AllReady}
use bug_museum.Spool.Flush.{Drained, flush-Drained}
use bug_museum.Spool.Doubles.{flush-cancelled, append-moved}
use bug_museum.Spool.Shared.{Copied, dup-retire_twice}
use bug_museum.Spool.Resolves.{Rendered, render-IsSound}
use bug_museum.Spool.Fresh.{SoundFor}
use bug_museum.Spool.Calls.{Call, submits, cancels, stats, renders, retires, run}
use bug_museum.Spool.Refines.{Refines, run-Refines, new-SoundFor}
use bug_museum.Spool.Printed.{submit-render, append-render}
use bug_museum.Spool.View.{View}
use bug_museum.Spool.Invariant.{Kept, IsSound}
use bug_museum.Spool.Retires.{Removed, retire-IsSound}
use bug_museum.Spool.Fresh.{Added}
use bug_museum.Spool.Submits.{submit-IsSound}
use bug_museum.Spool.Appends.{Stays}
use bug_museum.Memory.Slots.{used, free_slot}
use bug_museum.Memory.Bytes.{blit}
use native.Mathlib.Decide.{ℕ_discrete}
use mathlib.Core.Path.{subst}
use bug_museum.Wire.Read.{IsRecv}
use bug_museum.Wire.Request.{encode}
use bug_museum.Wire.Request
use bug_museum.Spool.Server.{serve, op_of, load_filters}
use bug_museum.Spool.Clients.{calls_of, serve-Refines}
use bug_museum.Spool.Remote.{cancel_and_flush, serve-cancel_and_flush}
use Prim.Native.Nat.{min}

head_test :
    (run_filter pdfish (0x5a ∷ []) 99).written ≡ codes "%PDF-1.4 preview: 1 bytes, head=0x5a"
unfolding run_filter decimal
head_test = refl

-- A job of two bytes, of the plain format, with its blocks behind it.
abbrev job_of : ℕ → JobState → Ptr → Ptr → Ptr → Job
job_of id st d m next = record {
  id = id;
  fmt = 0;
  state = st;
  filter = raster;
  document = d;
  len = 2;
  cap = 2;
  meta = m;
  meta_len = 16;
  qnext = next;
}

abbrev two_cells : Job → Job → Ptr → Cell Object
two_cells x y p =
    if p == 1
    then live (job x)
    else if p == 2
    then live (bytes (7 ∷ 8 ∷ []))
    else if p == 3
    then live (bytes (0 ∷ []))
    else if p == 4
    then live (job y)
    else if p == 5
    then live (bytes (9 ∷ 9 ∷ []))
    else if p == 6
    then live (bytes (0 ∷ []))
    else unmapped

-- Two jobs, at 1 and 4, in the slots 0 and 1; the queue is from `head` to `tail`.
abbrev two_jobs : Job → Job → Ptr → Ptr → Store
two_jobs x y head tail = record {
  heap = record {
    cell = two_cells x y;
    requests = 6;
    grants = λ _. true;
    moves = λ _. true;
    junk = λ _ _. 0;
  };
  slots = λ i. if i == 0 then 1 else if i == 1 then 4 else null;
  qhead = head;
  qtail = tail;
  count = 2;
  active = null;
  scratch = null;
}

two_jobs-unissued :
    (x y : Job) (head tail q : Ptr) → 6 < q → (two_jobs x y head tail).heap.cell q ≡ unmapped
two_jobs-unissued x y head tail q lt = ground arith

abbrev two_owners : Ptr → Ptr
two_owners p = if ltb p 4 then 1 else 4

abbrev first : Job
first = job_of 0 queued 2 3 4

abbrev second : Job
second = job_of 1 queued 5 6 null

-- Both jobs in the queue.
abbrev both : Store
both = two_jobs first second 1 4

both-IsQueue : IsQueue both (1 ∷ 4 ∷ [])
both-IsQueue = record {
  linked = (refl, omega arith, (first, refl, (refl, omega arith, (second, refl, refl))));
  tail = refl;
  distinct = ((omega arith, tt), (tt, tt));
}

-- Only the first is in the queue.
abbrev alone : Store
alone = two_jobs (job_of 0 queued 2 3 null) second 1 1

alone-IsQueue : IsQueue alone (1 ∷ [])
alone-IsQueue = record {
  linked = (refl, omega arith, (job_of 0 queued 2 3 null, refl, refl));
  tail = refl;
  distinct = (tt, tt);
}

first-Owned :
    (st : JobState) (next : Ptr) (y : Job) (head tail : Ptr)
    → Owned (two_jobs (job_of 0 st 2 3 next) y head tail).heap two_owners 1 (job_of 0 st 2 3 next)
first-Owned st next y head tail = record {
  space = 7 ∷ 8 ∷ [];
  ne_null = omega arith;
  here = refl;
  document_ne_null = omega arith;
  document_here = refl;
  fits = omega arith;
  document_owned = refl;
  meta_ok = inr (omega arith, (0 ∷ [], refl, refl));
  apart = omega arith;
}

second-Owned : Owned both.heap two_owners 4 second
second-Owned = record {
  space = 9 ∷ 9 ∷ [];
  ne_null = omega arith;
  here = refl;
  document_ne_null = omega arith;
  document_here = refl;
  fits = omega arith;
  document_owned = refl;
  meta_ok = inr (omega arith, (0 ∷ [], refl, refl));
  apart = omega arith;
}

raster-Borrows : Borrows raster
raster-Borrows e = ground (arith, e)

both-AllReady : AllReady both two_owners (1 ∷ 4 ∷ [])
both-AllReady = (
  record {
    content = first;
    blocks = first-Owned queued 4 second 1 4;
    waits = refl;
    borrows = raster-Borrows;
    in_table = omega arith;
    slot = refl;
  },
  (
    record {
      content = second;
      blocks = second-Owned;
      waits = refl;
      borrows = raster-Borrows;
      in_table = omega arith;
      slot = refl;
    },
    tt,
  ),
)

dequeue-IsQueue_example : Returns (λ r. IsTaken both (1 ∷ 4 ∷ []) r.0 r.1) (dequeue both)
dequeue-IsQueue_example = dequeue-IsQueue both (1 ∷ 4 ∷ []) both-IsQueue

enqueue-IsQueue_example : Returns (λ s'. IsQueue s' (1 ∷ 4 ∷ [])) (enqueue alone 4)
enqueue-IsQueue_example =
    enqueue-IsQueue alone {j = 4} {x = second} (omega arith) refl (1 ∷ []) alone-IsQueue
      (omega arith, tt)

unlink_queue-IsQueue_example : Returns (λ s'. IsQueue s' (1 ∷ [])) (unlink_queue both 4)
unlink_queue-IsQueue_example =
    unlink_queue-IsQueue both (1 ∷ []) 4 [] (two_jobs-unissued first second 1 4) both-IsQueue

flush-Drained_example : Returns (Drained both (1 ∷ 4 ∷ [])) (flush both)
flush-Drained_example =
    flush-Drained both two_owners (1 ∷ 4 ∷ []) (two_jobs-unissued first second 1 4) both-IsQueue
      both-AllReady

-- The first job has been cancelled.
abbrev dropped : Store
dropped = two_jobs (job_of 0 cancelled 2 3 4) second 1 4

dropped-IsQueue : IsQueue dropped (1 ∷ 4 ∷ [])
dropped-IsQueue = record {
  linked = (
    refl,
    omega arith,
    (job_of 0 cancelled 2 3 4, refl, (refl, omega arith, (second, refl, refl))),
  );
  tail = refl;
  distinct = ((omega arith, tt), (tt, tt));
}

flush-cancelled_example : flush dropped ≡ fault use_after_free
flush-cancelled_example =
    flush-cancelled dropped two_owners 1 (4 ∷ []) (job_of 0 cancelled 2 3 4)
      (two_jobs-unissued (job_of 0 cancelled 2 3 4) second 1 4) dropped-IsQueue
      (first-Owned cancelled 4 second 1 4) refl (omega arith) refl

append-moved_example : append both 0 (1 ∷ 2 ∷ []) ≡ fault double_free
append-moved_example =
    append-moved both two_owners 1 first 0 (1 ∷ 2 ∷ []) (two_jobs-unissued first second 1 4)
      (first-Owned queued 4 second 1 4) (omega arith) refl (omega arith) (omega arith) refl refl

-- A connection that hands over one byte at a time.
abbrev bytewise : ℕ → ℕ → ℕ
bytewise want avail = min 1 (min want avail)

bytewise-IsRecv : IsRecv bytewise
bytewise-IsRecv = record {
  some_bytes = λ want avail some_wanted some_there. omega arith;
  wanted = λ want avail. omega arith;
  there = λ want avail. omega arith;
}

serve-cancel_and_flush_example :
    serve true (λ _. none) (λ _. true) bytewise both (encode (cancel_and_flush 0))
    ≡ fault use_after_free
serve-cancel_and_flush_example =
    serve-cancel_and_flush both two_owners 1 (4 ∷ []) first (λ _. none) (λ _. true) bytewise
      (λ _. refl) bytewise-IsRecv (two_jobs-unissued first second 1 4) both-IsQueue
      (first-Owned queued 4 second 1 4) (omega arith) refl

-- What the store `both` stands for.
abbrev both_view : View
both_view i =
    if i == 0
    then some (record { state = queued; filter = raster; document = 7 ∷ 8 ∷ [] })
    else if i == 1
    then some (record { state = queued; filter = raster; document = 9 ∷ 9 ∷ [] })
    else none

first-Kept : Kept both_view both two_owners 0
unfolding first-Owned
first-Kept = record {
  content = first;
  blocks = first-Owned queued 4 second 1 4;
  numbered = refl;
  sized = refl;
  within = omega arith;
  borrows = raster-Borrows;
  known = refl;
}

second-Kept : Kept both_view both two_owners 1
unfolding second-Owned
second-Kept = record {
  content = second;
  blocks = second-Owned;
  numbered = refl;
  sized = refl;
  within = omega arith;
  borrows = raster-Borrows;
  known = refl;
}

both-IsSound : IsSound both_view both two_owners (1 ∷ 4 ∷ [])
unfolding used
both-IsSound = record {
  unissued = two_jobs-unissued first second 1 4;
  queue = both-IsQueue;
  listed = ((0, omega arith, refl), ((1, omega arith, refl), tt));
  slot_ok = λ id lt. elim (ℕ_discrete id 0) [
    | yes e ↦
        subst (λ i. (both.slots i ≡ null) ⊎ Kept both_view both two_owners i) (sym e)
          (inr first-Kept)
    | no other ↦ elim (ℕ_discrete id 1) [
      | yes e ↦
          subst (λ i. (both.slots i ≡ null) ⊎ Kept both_view both two_owners i) (sym e)
            (inr second-Kept)
      | no neither ↦ inl (ground arith)
    ]
  ];
  absent = λ id lt e. ground arith;
  waiting = λ id lt some_job other a. ground (arith, a.0, a.1.0, some_job);
  counted = refl;
  current = inl refl;
}

abbrev calls : List Call
calls =
    cancels 0
    ∷ stats true
    ∷ renders spool_recent 64
    ∷ submits 2 (some pdfish) (4 ∷ [])
    ∷ retires 1
    ∷ []

run-Refines_example : Returns (Refines both_view calls) (run both calls)
run-Refines_example =
    run-Refines calls (two_owners, (1 ∷ 4 ∷ [], both-IsSound))
      (tt, λ t _. (tt, λ t _. (tt, λ t _. ((λ g e. ground (arith, e)), λ t _. (tt, λ t _. tt)))))

retire-IsSound_example : Returns (λ r. Removed both_view two_owners 1 r.0 r.1) (retire both 1)
retire-IsSound_example = retire-IsSound both-IsSound 1

submit-IsSound_example :
    Returns
      (Added both_view both.heap raster (take enc_max_doc (1 ∷ 2 ∷ [])))
      (submit both 3 (some raster) (1 ∷ 2 ∷ []))
submit-IsSound_example = submit-IsSound both-IsSound 3 raster (1 ∷ 2 ∷ []) raster-Borrows

-- A process that starts with an empty heap, and realloc never moves a block.
abbrev fresh_heap : Heap Object
fresh_heap = record {
  cell = λ _. unmapped;
  requests = 0;
  grants = λ _. true;
  moves = λ _. false;
  junk = λ _ _. 7;
}

-- To unfold it is to unfold what JobSubmit and JobAppend call.
computing : Unit {0}
unfolding new submit submit_at submit_filled link_job alloc_slot free_slot enqueue update_job job_at
    bytes_at deref assign free malloc resized realloc blit get append append_to append_fits
computing = tt

abbrev result_or {ℓ} : {A : Type ℓ} → A → Result A → A
result_or a (ok b) = b
result_or a (fault e) = a

start : Store
unfolding new
start = new fresh_heap

submitted : Store
unfolding computing
submitted = (result_or (start, none) (submit start 0 (some raster) (1 ∷ 2 ∷ 3 ∷ []))).0

submitted_run : submit start 0 (some raster) (1 ∷ 2 ∷ 3 ∷ []) ≡ ok (submitted, some 0)
unfolding computing start submitted
submitted_run = refl

start-SoundFor : SoundFor (λ _. none) start
unfolding start
start-SoundFor = new-SoundFor fresh_heap (λ q lt. refl)

submit-render_example :
    Returns
      (λ r. r.1 ≡ some (run_filter raster (take enc_max_doc (1 ∷ 2 ∷ 3 ∷ [])) 64))
      (render submitted 0 64)
submit-render_example =
    submit-render start-SoundFor 0 raster (1 ∷ 2 ∷ 3 ∷ []) 64 raster-Borrows submitted_run

extended : Store
unfolding computing start submitted
extended = (result_or (start, false) (append submitted 0 (9 ∷ []))).0

extended_run : append submitted 0 (9 ∷ []) ≡ ok (extended, true)
unfolding computing start submitted extended
extended_run = refl

submitted-Stays : Stays submitted.heap
unfolding computing start submitted
submitted-Stays = inr refl

append-render_example :
    Returns
      (λ r. r.1 ≡ some (run_filter raster (take enc_max_doc (1 ∷ 2 ∷ 3 ∷ []) ++ 9 ∷ []) 64))
      (render extended 0 64)
append-render_example =
    append-render start-SoundFor 0 raster (1 ∷ 2 ∷ 3 ∷ []) (9 ∷ []) 64 raster-Borrows submitted_run
      (λ x at. inr submitted-Stays) extended_run

-- SUBMIT of two bytes for the raster filter, RENDER of the job 0, CANCEL of the job 1, and STATUS.
abbrev requests : List Request.Call
requests =
    record { op = 0; flags = 0; target = 0; arg = 1 ∷ 2 ∷ [] }
    ∷ record { op = 1; flags = 0; target = 0; arg = [] }
    ∷ record { op = 3; flags = 0; target = 1; arg = [] }
    ∷ record { op = 4; flags = 64; target = 0; arg = [] }
    ∷ []

serve-Refines_example :
    Returns
      (λ r. Refines both_view (calls_of true (load_filters (λ _. true)) requests) r.0)
      (serve true (load_filters (λ _. true)) (λ _. true) bytewise both (encode requests))
unfolding op_of
serve-Refines_example =
    serve-Refines (λ _. true) true (λ _. true) bytewise requests (λ _. refl) bytewise-IsRecv
      (two_owners, (1 ∷ 4 ∷ [], both-IsSound))
      (omega arith, (omega arith, (omega arith, (omega arith, tt))))
      (tt, λ t _. (tt, λ t _. (tt, λ t _. (tt, λ t _. tt))))

-- The first job has the text filter.
abbrev text_job : Job
text_job = record first { filter = text }

abbrev text_jobs : Store
text_jobs = two_jobs text_job second 1 4

text_jobs-IsQueue : IsQueue text_jobs (1 ∷ 4 ∷ [])
text_jobs-IsQueue = record {
  linked = (refl, omega arith, (text_job, refl, (refl, omega arith, (second, refl, refl))));
  tail = refl;
  distinct = ((omega arith, tt), (tt, tt));
}

text_job-Owned : Owned text_jobs.heap two_owners 1 text_job
text_job-Owned = record {
  space = 7 ∷ 8 ∷ [];
  ne_null = omega arith;
  here = refl;
  document_ne_null = omega arith;
  document_here = refl;
  fits = omega arith;
  document_owned = refl;
  meta_ok = inr (omega arith, (0 ∷ [], refl, refl));
  apart = omega arith;
}

render-text_example : render text_jobs 0 99 ≡ fault double_free
render-text_example =
    render-text text_jobs two_owners 1 text_job (1 ∷ 4 ∷ []) 99
      (two_jobs-unissued text_job second 1 4) text_jobs-IsQueue text_job-Owned refl (omega arith)
      refl

render-IsSound_example :
    Returns (λ r. Rendered both_view two_owners 0 64 r.0 r.1) (render both 0 64)
render-IsSound_example = render-IsSound both-IsSound 0 64

both_first : job_at both.heap (both.slots 0) ≡ ok first
unfolding computing
both_first = refl

dup-retire_twice_example : Returns (Copied both_view both.heap 0) (dup both 0)
dup-retire_twice_example =
    dup-retire_twice both-IsSound 0 first (omega arith) both_first (omega arith)

-- The copy has the number 2.
dup_test : (dup both 0 >>= λ r. retire r.0 0 >>= λ t. retire t.0 2) ≡ fault double_free
unfolding computing dup dup_at dup_filled copy_document document_of retire unlink_queue unlink_from
    unlink_at free_job
dup_test = refl
