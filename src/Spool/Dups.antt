-- ===== src/Spool/Dups.antt =====
-- double-free/capstone/src/spoolcore/spoolcore.c: JobDup of a job without metadata, on a store in which the
-- invariant holds.
use mathlib.Core.Path.{subst}
use bug_museum.Base.{
  ◌≢◌, take, drop, length-take, take-length-append, ℕ, suc, ◌+◌, ◌≤◌, ◌<◌, ◌≡◌, refl, sym, ap, ◌∙◌,
  ◌⊎◌, inl, inr, List, [], arith, Option, none, some, ◌==◌, if◌then◌else◌, ne→==, length,
  Option-cases,
}
use bug_museum.Memory.Fault.{Result, ok, Returns, ◌>>=◌}
use bug_museum.Memory.Bytes.{Bytes, blit-ok, splice, length-splice}
use bug_museum.Memory.Heap.{Ptr, null, Heap, live, unmapped, put, assign-live}
use bug_museum.Memory.Slots.{free_slot, free_slot-some, free_slot-none}
use bug_museum.Spool.Types.{Job, Object, job, bytes, Store, spool_max, enc_max_doc, job_at}
use bug_museum.Spool.Store.{link_job, alloc_slot, capacity, blank, get}
use bug_museum.Spool.Jobs.{dup, dup_at, dup_filled, copy_document}
use bug_museum.Spool.Linked.{job_at-live}
use bug_museum.Spool.Pump.{Borrows, document_of-Owned}
use bug_museum.Spool.Owned.{Owned}
use bug_museum.Spool.View.{View, Entry, entry, Missing, Names}
use bug_museum.Spool.Invariant.{IsSound}
use bug_museum.Spool.Grows.{Owned-grown}
use bug_museum.Spool.Resolves.{resolve, nothing, found, aimed, aimed-IsSound}
use bug_museum.Spool.Fresh.{entry-taken, SoundFor, Added, made, linked-IsSound, with_blocks-Returns}
use bug_museum.Spool.Submits.{capacity_le}

module _ {m : View} {s : Store} {owner : Ptr → Ptr} {js : List Ptr} (v : IsSound m s owner js)
    {i : Ptr} {x : Job} (o : Owned s.heap owner i x) (borrows : Borrows x.filter)
    (within : x.len ≤ enc_max_doc) (id : ℕ) (lt : id < spool_max) (empty : s.slots id ≡ null) where
  abbrev pub document : Bytes
  document = take x.len o.space

  abbrev pub size : ℕ
  size = capacity x.len

  abbrev pub made_job : Ptr → Job
  made_job d =
      made v x.filter borrows document within size (capacity_le x.len) x.fmt x.meta_len id lt empty
        d x.meta

  length-document : length document ≡ x.len
  length-document = omega (arith, length-take x.len o.space, o.fits)

  room : (space : Bytes) → length space ≡ size → 0 + length document ≤ length space
  room space full = omega (arith, length-document, full, capacity_le x.len)

  copy_document-splice :
      (h : Heap Object)
      → ((p : Ptr) → p ≤ s.heap.requests → h.cell p ≡ s.heap.cell p)
      → (space : Bytes) → length space ≡ size
      → copy_document h x space ≡ ok (splice space 0 document)
  unfolding copy_document
  copy_document-splice h old space full =
      let (o', same) = Owned-grown v h owner old (λ p le. refl) o in
      rw (document_of-Owned o', same, blit-ok space 0 document (room space full))

  take-splice : (space : Bytes) → take x.len (splice space 0 document) ≡ document
  take-splice space =
      subst (λ n. take n (splice space 0 document) ≡ document) length-document
        (take-length-append document (drop (0 + length document) space))

  -- The blocks after the copy of the document and the assignment of the new job.
  abbrev pub copied_heap : Heap Object → Ptr → Ptr → Bytes → Heap Object
  copied_heap h j d space = record h {
    cell = put (put h.cell d (live (bytes (splice space 0 document)))) j (live (job (made_job d)));
  }

  module _ (h : Heap Object) (j d : Ptr) (space : Bytes) (e_j : j ≡ suc s.heap.requests)
      (e_d : d ≡ suc (suc s.heap.requests)) (requests : h.requests ≡ suc (suc s.heap.requests))
      (full : length space ≡ size)
      (old : (p : Ptr) → p ≤ s.heap.requests → h.cell p ≡ s.heap.cell p)
      (fresh : (p : Ptr) → h.requests < p → h.cell p ≡ unmapped)
      (here : h.cell j ≡ live (job (blank x.filter)))
      (document_here : h.cell d ≡ live (bytes space)) where
    pub dup_filled-copied :
        dup_filled s h id x j d space ≡ link_job (record s { heap = copied_heap h j d space }) id j
    unfolding dup_filled
    dup_filled-copied =
        let filled = splice space 0 document in
        let h₁ : Heap Object = record h { cell = put h.cell d (live (bytes filled)) } in
        rw (
          copy_document-splice h old space full,
          assign-live h d (omega arith) {a = bytes space} (bytes filled) document_here,
          assign-live h₁ j (omega arith) {a = job (blank x.filter)} (job (made_job d))
              (ground (arith, here, e_j, e_d)),
        )

    pub copied-old :
        (p : Ptr) → p ≤ s.heap.requests → (copied_heap h j d space).cell p ≡ s.heap.cell p
    copied-old p le = ground (arith, old p le, e_j, e_d)

    pub copied-fresh : (p : Ptr) → h.requests < p → (copied_heap h j d space).cell p ≡ unmapped
    copied-fresh p above = ground (arith, fresh p (omega (arith, above)), e_j, e_d, requests, above)

    dup_filled-IsSound :
        x.meta ≡ null → Returns (Added m s.heap x.filter document) (dup_filled s h id x j d space)
    dup_filled-IsSound bare = rw dup_filled-copied (
        linked-IsSound v x.filter borrows document within size (capacity_le x.len) x.fmt x.meta_len
          id lt empty (copied_heap h j d space) j d x.meta (splice space 0 document) [] e_j e_d
          (length-splice space 0 document (room space full) ∙ full) (take-splice space) copied-old
          copied-fresh (ground arith) (ground (arith, e_j, e_d)) (inl bare))

  pub dup_at-IsSound : x.meta ≡ null → Returns (Added m s.heap x.filter document) (dup_at s id x)
  unfolding dup_at
  dup_at-IsSound bare =
      with_blocks-Returns v x.filter borrows document within size (capacity_le x.len) x.fmt
        x.meta_len id lt empty (Added m s.heap x.filter document) (λ r why. inl why)
        (λ h j d space. dup_filled s h id x j d space)
        (λ h j d space e_j e_d requests full old fresh here document_here.
          dup_filled-IsSound h j d space e_j e_d requests full old fresh here document_here bare)

-- JobDup through a resolved job.
abbrev pub dup_of : Store × Ptr → Result (Store × Option ℕ)
dup_of (s, j) = if j == null then ok (s, none) else elim (free_slot spool_max 0 s.slots) [
  | none ↦ ok (s, none)
  | some id ↦ (do x ← job_at s.heap j; dup_at s id x)
]

-- What JobDup makes of the map.
abbrev pub Duplicated : View → Heap Object → ℕ → Store × Option ℕ → Type 0
Duplicated m h id r =
    (Missing m id × (r.1 ≡ none) × SoundFor m r.0)
    ⊎ ((i : ℕ) × (e : Entry) × Names m id i e × Added m h e.filter e.document r)

-- JobDup copies the document of a job; the copy has blocks of its own if there is no metadata to share.
pub dup-IsSound :
    {m : View} {s : Store} {owner : Ptr → Ptr} {js : List Ptr} (v : IsSound m s owner js) (id : ℕ)
    → ((x : Job) → job_at s.heap (get s id).1 ≡ ok x → x.meta ≡ null)
    → Returns (Duplicated m s.heap id) (dup s id)
unfolding dup alloc_slot
dup-IsSound {m} {s} {owner} {js} v id bare = elim (resolve v id) [
  | nothing gone e ↦
      subst (λ (r : Store × Ptr). Returns (Duplicated m s.heap id) (dup_of r)) (sym e)
        ((s, none), refl, inl (gone, refl, (owner, (js, v))))
  | found i i_lt k names e ↦
      let w = aimed-IsSound v i_lt k in
      let at : job_at s.heap (s.slots i) ≡ ok k.content =
        job_at-live s.heap (s.slots i) k.content k.blocks.ne_null k.blocks.here in
      let alone = bare k.content (ap (λ (r : Store × Ptr). job_at s.heap r.1) e ∙ at) in
      let here = entry k.content k.blocks.space in
      subst (λ (r : Store × Ptr). Returns (Duplicated m s.heap id) (dup_of r)) (sym e)
        (rw (ne→== (s.slots i) null k.blocks.ne_null)
          (elim (Option-cases (free_slot spool_max 0 s.slots)) [
            | inl full ↦
                let no_room : (i : ℕ) → i < spool_max → m i ≢ none = λ i lt.
                  entry-taken v i lt
                    (free_slot-none spool_max 0 s.slots full i (omega arith) (omega (arith, lt))) in
                rw full (
                  (aimed s i, none),
                  refl,
                  inr (i, here, names, inl (refl, inl no_room, (owner, (js, w)))),
                )
            | inr (n, free_n) ↦
                let (_, lt, empty, _) = free_slot-some spool_max 0 s.slots free_n in
                let (r, run, added) =
                  dup_at-IsSound w k.blocks k.borrows k.within n lt empty alone in
                rw (free_n, at, run) (r, refl, inr (i, here, names, added))
          ]))
]
