-- ===== src/Spool/Shared.antt =====
-- double-free/capstone/src/spoolcore/spoolcore.c: JobDup of a job with metadata. Both jobs then own the
-- metadata block, and JobRetire of both frees it twice.
use mathlib.Core.Path.{subst}
use bug_museum.Base.{
  true, ℕ, suc, ◌≤◌, ◌<◌, ◌≡◌, ◌≢◌, refl, sym, ap, ◌∙◌, ◌⊎◌, inl, inr, List, [], ◌∷◌, ◌++◌, arith,
  Option, none, some, length, ne→==, eq→==, lt→ltb, Option-cases,
}
use bug_museum.Base.Distinct.{Avoids, IsDistinct-remove, find_split}
use bug_museum.Memory.Fault.{ok, fault, null_deref, double_free, ◌>>=◌, Returns}
use bug_museum.Memory.Bytes.{Bytes}
use bug_museum.Memory.Heap.{Ptr, null, Heap, live, unmapped, released, free-released}
use bug_museum.Memory.Slots.{free_slot, free_slot-some, free_slot-none}
use bug_museum.Spool.Types.{Job, Object, job, bytes, Store, spool_max, job_at}
use bug_museum.Spool.Queue.{linked_to, unlink_queue}
use bug_museum.Spool.Store.{blank, alloc_slot, capacity, free_job, link_job, retire}
use bug_museum.Spool.Jobs.{dup, dup_at, dup_filled}
use bug_museum.Spool.Linked.{IsQueue, job_at-live, length-queue, unlink_from-absent}
use bug_museum.Spool.Order.{unlink_queue-Relinked, enqueue-Relinked}
use bug_museum.Spool.Owned.{Owned, retired, free_job-freed}
use bug_museum.Spool.Doubles.{freed-Linked, get-slot}
use bug_museum.Spool.Relinked.{
  Relinked, Relinked-ends, bytes_kept, released_kept, job_kept, unmapped_kept,
}
use bug_museum.Spool.View.{View}
use bug_museum.Spool.Invariant.{Kept, IsSound, Owned-frame}
use bug_museum.Spool.Grows.{grown-IsSound, Owned-grown, Linked-Avoids_above, issued}
use bug_museum.Spool.Links.{placed}
use bug_museum.Spool.Resolves.{aimed-IsSound}
use bug_museum.Spool.Fresh.{NoRoom, entry-taken, with_blocks-Returns}
use bug_museum.Spool.Submits.{capacity_le}
use bug_museum.Spool.Dups.{
  dup_of, document, size, made_job, copied_heap, copied-old, copied-fresh, dup_filled-copied,
}

-- unlink_queue leaves a queue without the job, whether it was in the queue or not.
unlink_queue-Apart :
    (s : Store) (js : List Ptr) (j : Ptr)
    → ((p : Ptr) → s.heap.requests < p → s.heap.cell p ≡ unmapped)
    → IsQueue s js
    → Returns
        (λ s'. (js' : List Ptr) × IsQueue s' js' × Avoids j js' × Relinked s s')
        (unlink_queue s j)
unfolding unlink_queue
unlink_queue-Apart s js j unissued q = elim (find_split j js) [
  | inl (front, rest, e) ↦
      let q' : IsQueue s (front ++ j ∷ rest) = subst (IsQueue s) e q in
      let (_, a, _, _, _) = IsDistinct-remove front j rest q'.distinct in
      let (s', run, (q'', r)) = unlink_queue-Relinked s front j rest unissued q' in
      (s', run, (front ++ rest, q'', a, r))
  | inr a ↦ (
    s,
    unlink_from-absent (suc s.heap.requests) s null s.qhead j js q.linked a
        (omega (arith, length-queue s.heap s.qhead js unissued q.linked q.distinct)),
    (js, q, a, Relinked-ends s s.qhead s.qtail),
  )
]

-- A job whose metadata is released cannot be retired.
retire-meta_gone :
    (t : Store) (k : Ptr) (y : Job) (js : List Ptr) (n : ℕ)
    → ((p : Ptr) → t.heap.requests < p → t.heap.cell p ≡ unmapped)
    → IsQueue t js
    → k ≢ null
    → t.heap.cell k ≡ live (job y)
    → n < spool_max
    → t.slots n ≡ k
    → y.meta ≢ null
    → t.heap.cell y.meta ≡ released
    → retire t n ≡ fault double_free
unfolding retire free_job
retire-meta_gone t k y js n unissued q ne here lt at some_meta gone =
    let (t', run, (_, _, _, r)) = unlink_queue-Apart t js k unissued q in
    let (next, here') = job_kept r k y here in
    rw (
      lt→ltb n spool_max lt,
      at,
      ne→== k null ne,
      run,
      job_at-live t'.heap k (linked_to next y) ne here',
      free-released t'.heap y.meta some_meta (released_kept r y.meta gone),
    )

-- Two jobs of the table with one metadata block; the other blocks of the first are its own.
record SharesMeta (t : Store) (id n : ℕ) : Type 0 where
  owner : Ptr → Ptr
  js : List Ptr
  unissued : (p : Ptr) → t.heap.requests < p → t.heap.cell p ≡ unmapped
  queue : IsQueue t js
  x : Job
  y : Job
  blocks : Owned t.heap owner (t.slots id) x
  other_ne_null : t.slots n ≢ null
  other : t.slots n ≢ t.slots id
  other_here : t.heap.cell (t.slots n) ≡ live (job y)
  some_meta : x.meta ≢ null
  shared : y.meta ≡ x.meta

retire-SharesMeta :
    (t : Store) (id n : ℕ)
    → id < spool_max
    → n < spool_max
    → SharesMeta t id n
    → (retire t id >>= λ r. retire r.0 n) ≡ fault double_free
unfolding retire
retire-SharesMeta t id n lt n_lt v =
    let j = t.slots id in
    let k = t.slots n in
    let o = v.blocks in
    let (t₁, run, (js₁, q₁, a₁, r₁)) = unlink_queue-Apart t v.js j v.unissued v.queue in
    let (next, here₁) = job_kept r₁ j v.x o.here in
    let (o₁, _) =
      Owned-frame o t₁.heap v.owner next refl here₁
        (λ p b ne owned e. (bytes_kept r₁ p b e, owned)) in
    let t₂ = retired t₁ o₁ id in
    let (next', here') = job_kept r₁ k v.y v.other_here in
    let y' = linked_to next' v.y in
    let kept : t₂.heap.cell k ≡ live (job y') =
      ground (arith, here', v.other, o₁.document_here, o₁.meta_ok) in
    let apart : n ≢ id = λ e. v.other (ap t.slots e) in
    let at : t₂.slots n ≡ k = rw (ne→== n id apart) (ap (λ (f : ℕ → Ptr). f n) r₁.same_slots) in
    let gone : t₂.heap.cell v.x.meta ≡ released = ground (arith, v.some_meta) in
    let q₂ : IsQueue t₂ js₁ = record {
      linked = freed-Linked t₁ o₁ t₁.qhead js₁ a₁ q₁.linked;
      tail = q₁.tail;
      distinct = q₁.distinct;
    } in
    let unissued₁ : (p : Ptr) → t₁.heap.requests < p → t₁.heap.cell p ≡ unmapped =
      λ p above. unmapped_kept r₁ p (v.unissued p (omega (arith, r₁.same_requests))) in
    let first : retire t id ≡ ok (t₂, true) =
      rw (lt→ltb id spool_max lt, ne→== j null o.ne_null, run, free_job-freed t₁ o₁) in
    rw first (
      retire-meta_gone t₂ k y' js₁ n
        (λ p above. ground (arith, unissued₁ p above, o₁.here, o₁.document_here, o₁.meta_ok)) q₂
        v.other_ne_null kept n_lt at (λ e. v.some_meta (sym v.shared ∙ e))
        (ap t₂.heap.cell v.shared ∙ gone))

-- What JobDup makes of a job with metadata, on the heap `h`: SPOOL_ERR, for a reason, or a second job
-- with the same metadata.
abbrev pub Copied : View → Heap Object → ℕ → Store × Option ℕ → Type 0
Copied m h id r =
    ((r.1 ≡ none) × NoRoom m h)
    ⊎ ((n : ℕ) × (r.1 ≡ some n) × ((retire r.0 id >>= λ t. retire t.0 n) ≡ fault double_free))

module _ {m : View} {s : Store} {owner : Ptr → Ptr} {js : List Ptr} (v : IsSound m s owner js)
    {id : ℕ} (k : Kept m s owner id) (some_meta : k.content.meta ≢ null) (n : ℕ)
    (n_lt : n < spool_max) (empty : s.slots n ≡ null) where
  abbrev heap_of : Heap Object → Ptr → Ptr → Bytes → Heap Object
  heap_of = copied_heap v k.blocks k.borrows k.within n n_lt empty

  dup_filled-SharesMeta :
      (h : Heap Object) (j d : Ptr) (space : Bytes)
      → j ≡ suc s.heap.requests
      → d ≡ suc (suc s.heap.requests)
      → h.requests ≡ suc (suc s.heap.requests)
      → length space ≡ size v k.blocks k.borrows k.within n n_lt empty
      → ((p : Ptr) → p ≤ s.heap.requests → h.cell p ≡ s.heap.cell p)
      → ((p : Ptr) → h.requests < p → h.cell p ≡ unmapped)
      → h.cell j ≡ live (job (blank k.content.filter))
      → h.cell d ≡ live (bytes space)
      → Returns (λ r. (r.1 ≡ some n) × SharesMeta r.0 id n) (dup_filled s h n k.content j d space)
  unfolding link_job
  dup_filled-SharesMeta h j d space e_j e_d requests full old fresh here document_here =
      let x = k.content in
      let o = k.blocks in
      let h' = heap_of h j d space in
      let y = made_job v o k.borrows k.within n n_lt empty d in
      let old' : (p : Ptr) → p ≤ s.heap.requests → h'.cell p ≡ s.heap.cell p =
        copied-old v o k.borrows k.within n n_lt empty h j d space e_j e_d requests full old fresh
          here document_here in
      let fresh' : (p : Ptr) → h.requests < p → h'.cell p ≡ unmapped =
        copied-fresh v o k.borrows k.within n n_lt empty h j d space e_j e_d requests full old fresh
          here document_here in
      let g = grown-IsSound v h' owner old' (λ p le. refl) fresh' in
      let (o', _) = Owned-grown v h' owner old' (λ p le. refl) o in
      let u = placed g n j in
      let le = issued s.heap v.unissued (s.slots id) o.here in
      let apart : id ≢ n = λ e. o.ne_null (ap s.slots e ∙ empty) in
      let y_here : h'.cell j ≡ live (job y) = ground arith in
      let avoids =
        Linked-Avoids_above s.heap v.unissued j s.qhead js (omega arith) v.queue.linked in
      let q : IsQueue u js = record {
        linked = g.queue.linked;
        tail = g.queue.tail;
        distinct = g.queue.distinct;
      } in
      let (t, run, (q', r)) = enqueue-Relinked u (omega arith) y_here js q avoids in
      let slot : t.slots id ≡ s.slots id =
        ap (λ (f : ℕ → Ptr). f id) r.same_slots ∙ rw (ne→== id n apart) in
      let slot_n : t.slots n ≡ j = ap (λ (f : ℕ → Ptr). f n) r.same_slots ∙ rw (eq→== n n refl) in
      let (next, x_here) = job_kept r (s.slots id) x o'.here in
      let (next', y_here') = job_kept r j y y_here in
      let (o'', _) =
        Owned-frame o' t.heap owner next slot x_here
          (λ p b ne owned e. (bytes_kept r p b e, owned)) in
      rw
        (
          dup_filled-copied v o k.borrows k.within n n_lt empty h j d space e_j e_d requests full
              old fresh here document_here,
          run,
        )
        (
          (record t { active = j }, some n),
          refl,
          (
            refl,
            record {
              owner = owner;
              js = js ++ j ∷ [];
              unissued =
                  λ p above. unmapped_kept r p (fresh' p (omega (arith, above, r.same_requests)));
              queue = record { linked = q'.linked; tail = q'.tail; distinct = q'.distinct };
              x = linked_to next x;
              y = linked_to next' y;
              blocks = o'';
              other_ne_null = omega (arith, slot_n);
              other = λ e. absurd (omega (arith, e, slot, slot_n, le));
              other_here = ap t.heap.cell slot_n ∙ y_here';
              some_meta = some_meta;
              shared = refl;
            },
          ),
        )

  dup_at-Copied : id < spool_max → Returns (Copied m s.heap id) (dup_at s n k.content)
  unfolding dup_at
  dup_at-Copied lt =
      let x = k.content in
      with_blocks-Returns v x.filter k.borrows (document v k.blocks k.borrows k.within n n_lt empty)
        k.within (capacity x.len) (capacity_le x.len) x.fmt x.meta_len n n_lt empty
        (Copied m s.heap id) (λ r why. inl (why.0, why.1))
        (λ h j d space. dup_filled s h n x j d space)
        (λ h j d space e_j e_d requests full old fresh here document_here.
          let (r, run, (given, both)) =
            dup_filled-SharesMeta h j d space e_j e_d requests full old fresh here document_here in
          (r, run, inr (n, given, retire-SharesMeta r.0 id n lt n_lt both)))

job_at-null : (h : Heap Object) → job_at h null ≡ fault null_deref
unfolding job_at
job_at-null h = refl

-- JobDup on the store in which its job is the active one.
dup_aimed-Copied :
    {m : View} {s : Store} {owner : Ptr → Ptr} {js : List Ptr} (v : IsSound m s owner js) (id : ℕ)
    (x : Job)
    → id < spool_max
    → job_at s.heap (s.slots id) ≡ ok x
    → s.slots id ≢ null
    → x.meta ≢ null
    → Returns (Copied m s.heap id) (dup_of (s, s.slots id))
dup_aimed-Copied {m} {s} v id x lt at ne some_meta = elim (v.slot_ok id lt) [
  | inl empty ↦ absurd (ne empty)
  | inr k ↦
      let at' : job_at s.heap (s.slots id) ≡ ok k.content =
        job_at-live s.heap (s.slots id) k.content ne k.blocks.here in
      let same : x ≡ k.content = cc (at, at') in
      let some_meta' : k.content.meta ≢ null = λ e. some_meta (ap (λ (z : Job). z.meta) same ∙ e) in
      rw (ne→== (s.slots id) null ne) (elim (Option-cases (free_slot spool_max 0 s.slots)) [
        | inl full ↦
            let no_room : (i : ℕ) → i < spool_max → m i ≢ none = λ i i_lt.
              entry-taken v i i_lt
                (free_slot-none spool_max 0 s.slots full i (omega arith) (omega (arith, i_lt))) in
            rw full ((s, none), refl, inl (refl, inl no_room))
        | inr (n, free_n) ↦
            let (_, n_lt, empty, _) = free_slot-some spool_max 0 s.slots free_n in
            rw (free_n, at') (dup_at-Copied v k some_meta' n n_lt empty lt)
      ])
]

-- JobDup of a job that has metadata, on a store that stands for a finite map, returns SPOOL_ERR, since
-- every number has an entry or one of its two requests for memory is refused; or it returns a number,
-- and to retire the job and then that number frees the metadata block twice.
pub dup-retire_twice :
    {m : View} {s : Store} {owner : Ptr → Ptr} {js : List Ptr} (v : IsSound m s owner js) (id : ℕ)
    (x : Job)
    → id < spool_max
    → job_at s.heap (s.slots id) ≡ ok x
    → x.meta ≢ null
    → Returns (Copied m s.heap id) (dup s id)
unfolding dup alloc_slot
dup-retire_twice {m} {s} v id x lt at some_meta = elim (v.slot_ok id lt) [
  | inl empty ↦
      let nothing : ok x ≡ fault null_deref =
        sym at ∙ ap (job_at s.heap) empty ∙ job_at-null s.heap in
      cc (nothing)
  | inr k ↦
      let e = get-slot s id (s.slots id) lt k.blocks.ne_null refl in
      subst (λ (r : Store × Ptr). Returns (Copied m s.heap id) (dup_of r)) (sym e)
        (dup_aimed-Copied (aimed-IsSound v lt k) id x lt at k.blocks.ne_null some_meta)
]
