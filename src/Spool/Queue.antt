-- ===== src/Spool/Queue.antt =====
-- double-free/capstone/src/spoolcore/spoolcore.c: the ready queue, a list of jobs linked by `qnext`.
use bug_museum.Base.{ℕ, zero, suc, ◌==◌, if◌then◌else◌}
use bug_museum.Memory.Fault.{Result, ok, fault, no_end, ◌>>=◌}
use bug_museum.Memory.Heap.{Ptr, null}
use bug_museum.Spool.Types.{Job, Store, job_at, update_job}

abbrev pub linked_to : Ptr → Job → Job
linked_to q x = record x { qnext = q }

-- enqueue
unfoldable pub enqueue : Store → Ptr → Result Store
enqueue s j = do
  s ← update_job s j (linked_to null)
  s ← (if s.qtail == null then ok (record s { qhead = j }) else update_job s s.qtail (linked_to j))
  ok (record s { qtail = j })

-- The body of JobDequeue on a queue that is not empty.
unfoldable pub take_head : Store → Ptr → Result (Store × Ptr)
take_head s j = do
  x ← job_at s.heap j
  let tail = if x.qnext == null then null else s.qtail
  s ← update_job (record s { qhead = x.qnext; qtail = tail }) j (linked_to null)
  ok (s, j)

-- JobDequeue
unfoldable pub dequeue : Store → Result (Store × Ptr)
dequeue s = if s.qhead == null then ok (s, null) else take_head s s.qhead

-- The body of the loop of unlink_queue that removes `c`.
unfoldable pub unlink_at : Store → Ptr → Ptr → Ptr → Result Store
unlink_at s prev c after = do
  s ←
      (if prev == null
        then ok (record s { qhead = after })
        else update_job s prev (linked_to after))
  ok (if s.qtail == c then record s { qtail = prev } else s)

-- The loop of unlink_queue from `c` on, with its rounds bounded.
unfoldable pub unlink_from : ℕ → Store → Ptr → Ptr → Ptr → Result Store
unlink_from zero s prev c j = fault no_end
unlink_from (suc rounds) s prev c j = if c == null then ok s else (do
  x ← job_at s.heap c
  let further = unlink_from rounds s c x.qnext j
  if c == j then unlink_at s prev c x.qnext else further)

-- unlink_queue: the rounds are more than the blocks that there are
unfoldable pub unlink_queue : Store → Ptr → Result Store
unlink_queue s j = unlink_from (suc s.heap.requests) s null s.qhead j
