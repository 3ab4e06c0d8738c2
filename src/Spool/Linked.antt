-- ===== src/Spool/Linked.antt =====
-- The ready queue of double-free/capstone/src/spoolcore/spoolcore.c as a list of pointers: what the
-- chain of `qnext` fields says, and how it changes with the heap.
use bug_museum.Base.{
  ℕ, zero, suc, ◌≤◌, ◌<◌, ◌≡◌, ◌≢◌, refl, sym, ap, ◌∙◌, List, [], ◌∷◌, ◌++◌, arith, length, ne→==,
  eq→==,
}
use bug_museum.Base.Distinct.{Avoids, IsDistinct, InRange, length-le_of_IsDistinct}
use bug_museum.Memory.Fault.{ok}
use bug_museum.Memory.Bytes.{Bytes}
use bug_museum.Memory.Heap.{assign-live, Ptr, null, Heap, live, unmapped, put, deref}
use bug_museum.Spool.Types.{Job, Object, job, bytes, Store, job_at, bytes_at, update_job}
use bug_museum.Spool.Queue.{linked_to, unlink_at, unlink_from}

-- From `c`, the `qnext` fields lead through the live jobs `js` to NULL.
abbrev pub Linked : Heap Object → Ptr → List Ptr → Type 0
Linked h c [] = c ≡ null
Linked h c (j ∷ js) =
    (c ≡ j) × (j ≢ null) × ((x : Job) × (h.cell j ≡ live (job x)) × Linked h x.qnext js)

-- The last element, or `d` of an empty list.
abbrev pub last_or : Ptr → List Ptr → Ptr
last_or d [] = d
last_or d (j ∷ js) = last_or j js

pub record IsQueue (s : Store) (js : List Ptr) : Type 0 where
  pub linked : Linked s.heap s.qhead js
  pub tail : s.qtail ≡ last_or null js
  pub distinct : IsDistinct js

pub job_at-live :
    (h : Heap Object) (p : Ptr) (x : Job) → p ≢ null → h.cell p ≡ live (job x) → job_at h p ≡ ok x
unfolding job_at deref
job_at-live h p x ne e = ground (arith, e, ne)

pub bytes_at-live :
    (h : Heap Object) (p : Ptr) (b : Bytes)
    → p ≢ null
    → h.cell p ≡ live (bytes b)
    → bytes_at h p ≡ ok b
unfolding bytes_at deref
bytes_at-live h p b ne e = rw (ne→== p null ne, e)

pub update_job-live :
    (s : Store) (p : Ptr) (f : Job → Job) (x : Job)
    → p ≢ null
    → s.heap.cell p ≡ live (job x)
    → update_job s p f
      ≡ ok (record s { heap = record s.heap { cell = put s.heap.cell p (live (job (f x))) } })
unfolding update_job
update_job-live s p f x ne e =
    rw (job_at-live s.heap p x ne e, assign-live s.heap p ne (job (f x)) e)

-- A change at one address off the list leaves the list.
pub Linked-frame :
    (h h' : Heap Object) (p : Ptr) (c : Ptr) (js : List Ptr)
    → ((q : Ptr) → q ≢ p → h'.cell q ≡ h.cell q)
    → Avoids p js
    → Linked h c js
    → Linked h' c js
Linked-frame h h' p c [] same a l = l
Linked-frame h h' p c (j ∷ js) same a l =
    let (e, ne, (x, here, rest)) = l in
    let apart : j ≢ p = λ e'. a.0 (sym e') in
    (e, ne, (x, same j apart ∙ here, Linked-frame h h' p x.qnext js same a.1 rest))

-- An address that holds something else than a job is off the list.
pub Linked-Avoids_bytes :
    (h : Heap Object) (p : Ptr) (b : Bytes) (c : Ptr) (js : List Ptr)
    → h.cell p ≡ live (bytes b)
    → Linked h c js
    → Avoids p js
Linked-Avoids_bytes h p b c [] e l = tt
Linked-Avoids_bytes h p b c (j ∷ js) e l =
    let (_, _, (x, here, rest)) = l in
    ((λ e'. ground (arith, e, here, e')), Linked-Avoids_bytes h p b x.qnext js e rest)

pub Linked-Avoids-null :
    (h : Heap Object) (c : Ptr) (js : List Ptr) → Linked h c js → Avoids null js
Linked-Avoids-null h c [] l = tt
Linked-Avoids-null h c (j ∷ js) l =
    let (_, ne, (x, here, rest)) = l in ((λ e. ne (sym e)), Linked-Avoids-null h x.qnext js rest)

pub last_or-ne : (p k : Ptr) (ks : List Ptr) → Avoids p (k ∷ ks) → p ≢ last_or k ks
last_or-ne p k [] a = a.0
last_or-ne p k (k' ∷ ks) a = last_or-ne p k' ks a.1

-- The last element of a list that starts a chain is a live job.
pub Linked-last :
    (h : Heap Object) (c k : Ptr) (ks more : List Ptr)
    → Linked h c ((k ∷ ks) ++ more)
    → (last_or k ks ≢ null)
      × ((x : Job) × (h.cell (last_or k ks) ≡ live (job x)) × Linked h x.qnext more)
Linked-last h c k [] more l = let (_, ne, rest) = l in (ne, rest)
Linked-last h c k (k' ∷ ks) more l =
    let (_, _, (x, here, rest)) = l in Linked-last h x.qnext k' ks more rest

-- To link the last element of a list to another chain is to replace what follows the list.
pub Linked-relink :
    (h h' : Heap Object) (c k : Ptr) (ks old new : List Ptr) (after : Ptr) (x : Job)
    → Linked h c ((k ∷ ks) ++ old)
    → IsDistinct (k ∷ ks)
    → ((q : Ptr) → q ≢ last_or k ks → h'.cell q ≡ h.cell q)
    → h'.cell (last_or k ks) ≡ live (job (linked_to after x))
    → Linked h' after new
    → Linked h' c ((k ∷ ks) ++ new)
Linked-relink h h' c k [] old new after x l d same here rest =
    let (e, ne, _) = l in (e, ne, (linked_to after x, here, rest))
Linked-relink h h' c k (k' ∷ ks) old new after x l d same here rest =
    let (e, ne, (y, at_k, l')) = l in
    (
      e,
      ne,
      (
        y,
        same k (last_or-ne k k' ks d.0) ∙ at_k,
        Linked-relink h h' y.qnext k' ks old new after x l' d.1 same here rest,
      ),
    )

-- A queue is no longer than the number of blocks that there have been.
pub length-queue :
    (h : Heap Object) (c : Ptr) (js : List Ptr)
    → ((q : Ptr) → h.requests < q → h.cell q ≡ unmapped)
    → Linked h c js
    → IsDistinct js
    → length js ≤ h.requests
length-queue h c js unissued l d = length-le_of_IsDistinct h.requests js d (in_range c js l)
  where
    in_range : (c : Ptr) (js : List Ptr) → Linked h c js → InRange h.requests js
    in_range c [] l = tt
    in_range c (j ∷ js) l =
        let (_, ne, (x, here, rest)) = l in
        ((omega arith, ground (arith, here, unissued j)), in_range x.qnext js rest)

-- unlink_queue walks a queue without its job to the end, and changes nothing.
pub unlink_from-absent :
    (rounds : ℕ) (s : Store) (prev c j : Ptr) (js : List Ptr)
    → Linked s.heap c js
    → Avoids j js
    → length js < rounds
    → unlink_from rounds s prev c j ≡ ok s
unfolding unlink_from
unlink_from-absent zero s prev c j js l a few = absurd (omega arith)
unlink_from-absent (suc rounds) s prev c j [] l a few = rw (eq→== c null l)
unlink_from-absent (suc rounds) s prev c j (k ∷ js) l a few =
    let (e, ne, (x, here, rest)) = l in
    let other : c ≢ j = λ e'. a.0 (sym e' ∙ e) in
    let here' : s.heap.cell c ≡ live (job x) = ap s.heap.cell e ∙ here in
    let ne' : c ≢ null = λ e'. ne (sym e ∙ e') in
    rw (ne→== c null ne', job_at-live s.heap c x ne' here', ne→== c j other)
      (unlink_from-absent rounds s c x.qnext j js rest a.1 (omega arith))

-- On a queue that has the job, it comes to the removal of that job, with the element before it.
pub unlink_from-found :
    (rounds : ℕ) (s : Store) (prev c j : Ptr) (front rest : List Ptr)
    → Linked s.heap c (front ++ j ∷ rest)
    → Avoids j front
    → length front < rounds
    → (x : Job) × (s.heap.cell j ≡ live (job x))
      × Linked s.heap x.qnext rest
      × (unlink_from rounds s prev c j ≡ unlink_at s (last_or prev front) j x.qnext)
unfolding unlink_from
unlink_from-found zero s prev c j front rest l a few = absurd (omega arith)
unlink_from-found (suc rounds) s prev c j [] rest l a few =
    let (e, ne, (x, here, l')) = l in
    (x, here, l', rw (e, ne→== j null ne, job_at-live s.heap j x ne here, eq→== j j refl))
unlink_from-found (suc rounds) s prev c j (k ∷ front) rest l a few =
    let (e, ne, (y, here, l')) = l in
    let other : k ≢ j = λ e'. a.0 (sym e') in
    let (x, at_j, linked, run) =
      unlink_from-found rounds s k y.qnext j front rest l' a.1 (omega arith) in
    (x, at_j, linked, rw (e, ne→== k null ne, job_at-live s.heap k y ne here, ne→== k j other) run)
