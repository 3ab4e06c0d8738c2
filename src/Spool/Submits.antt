-- ===== src/Spool/Submits.antt =====
-- double-free/capstone/src/spoolcore/spoolcore.c: JobSubmit on a store in which the invariant holds,
-- whichever of its three requests for memory are granted.
use bug_museum.Base.{
  ◌≢◌, take-length-append, drop, ℕ, suc, ◌+◌, ◌≤◌, ◌<◌, ◌≡◌, refl, ap, ◌∙◌, inl, inr, List, arith,
  none, some, length, take, length-take, Option-cases,
}
use bug_museum.Memory.Fault.{ok, Returns}
use bug_museum.Memory.Bytes.{Bytes, blit-ok, splice, length-splice}
use bug_museum.Memory.Heap.{
  Ptr, null, Heap, live, unmapped, put, malloc, malloc-Allocated, assign-live,
}
use bug_museum.Memory.Slots.{free_slot, free_slot-some, free_slot-none}
use bug_museum.Spool.Filters.{Filter}
use bug_museum.Spool.Types.{Job, Object, job, bytes, Store, spool_max, enc_max_doc}
use bug_museum.Spool.Store.{submit, submit_at, submit_filled, alloc_slot, capacity, header, blank}
use bug_museum.Spool.Pump.{Borrows}
use bug_museum.Spool.View.{View}
use bug_museum.Spool.Invariant.{IsSound}
use bug_museum.Spool.Fresh.{Added, entry-taken, made, linked-IsSound, with_blocks-Returns}

pub capacity_le : (n : ℕ) → n ≤ capacity n
capacity_le n = ground arith

module _ {m : View} {s : Store} {owner : Ptr → Ptr} {js : List Ptr} (v : IsSound m s owner js)
    (f : Filter) (borrows : Borrows f) (init : Bytes) (short : length init ≤ enc_max_doc)
    (fmt id : ℕ) (lt : id < spool_max) (empty : s.slots id ≡ null) where
  abbrev size : ℕ
  size = capacity (length init)

  abbrev r : ℕ
  r = s.heap.requests

  abbrev room : length init ≤ size
  room = capacity_le (length init)

  abbrev made_job : Ptr → Ptr → Job
  made_job d m = made v f borrows init short size room fmt 16 id lt empty d m

  submit_filled-IsSound :
      (h : Heap Object) (j d : Ptr) (space : Bytes)
      → j ≡ suc r
      → d ≡ suc (suc r)
      → h.requests ≡ suc (suc r)
      → length space ≡ size
      → ((p : Ptr) → p ≤ r → h.cell p ≡ s.heap.cell p)
      → ((p : Ptr) → h.requests < p → h.cell p ≡ unmapped)
      → h.cell j ≡ live (job (blank f))
      → h.cell d ≡ live (bytes space)
      → Returns (Added m s.heap f init) (submit_filled s h id fmt f init j d space)
  unfolding submit_filled
  submit_filled-IsSound h j d space e_j e_d requests full old fresh here document_here =
      let filled = splice space 0 init in
      let h₁ : Heap Object = record h { cell = put h.cell d (live (bytes filled)) } in
      let a = malloc-Allocated h₁ (bytes (header fmt)) in
      let h₂ = (malloc h₁ (bytes (header fmt))).0 in
      let meta = (malloc h₁ (bytes (header fmt))).1 in
      let j_here : h₂.cell j ≡ live (job (blank f)) =
        a.old j (omega arith) ∙ ground (arith, here, e_j, e_d) in
      let h₃ : Heap Object = record h₂ { cell = put h₂.cell j (live (job (made_job d meta))) } in
      rw
        (
          blit-ok space 0 init (omega (arith, full, capacity_le (length init))),
          assign-live h d (omega arith) {a = bytes space} (bytes filled) document_here,
          assign-live h₂ j (omega arith) {a = job (blank f)} (job (made_job d meta)) j_here,
        )
        (linked-IsSound v f borrows init short size room fmt 16 id lt empty h₃ j d meta filled
          (header fmt) e_j e_d
          (length-splice space 0 init (omega (arith, full, capacity_le (length init))) ∙ full)
          (take-length-append init (drop (0 + length init) space))
          (λ p le. ground (arith, old p le, a.old p (omega (arith, requests)), e_j, e_d))
          (λ p above. ground (
            arith,
            fresh p (omega (arith, above, a.same_requests)),
            a.old p (omega (arith, above, a.same_requests)),
            e_j,
            e_d,
            requests,
            above,
            a.same_requests,
          ))
          (ground arith) (ground (arith, a.old d (omega (arith, requests, e_d)), e_j, e_d))
          (elim a.there [
            | inl (none_there, _) ↦ inl none_there
            | inr (e_m, m_here) ↦
                inr (e_m ∙ ap suc requests, ground (arith, m_here, e_m, requests, e_j))
          ]))

  submit_at-IsSound : Returns (Added m s.heap f init) (submit_at s id fmt f init)
  unfolding submit_at
  submit_at-IsSound =
      with_blocks-Returns v f borrows init short size room fmt 16 id lt empty
        (Added m s.heap f init) (λ r why. inl why)
        (λ h j d space. submit_filled s h id fmt f init j d space) submit_filled-IsSound

-- JobSubmit with a filter that borrows the document, on a store that stands for a finite map, never
-- faults: it returns SPOOL_ERR, since every number has an entry or one of its first two requests for
-- memory is refused, and the store stands for the same map; or it returns a number that had
-- no entry, and the store stands for the map with a waiting job under it, that filter and the document
-- cut to ENC_MAX_DOC bytes.
pub submit-IsSound :
    {m : View} {s : Store} {owner : Ptr → Ptr} {js : List Ptr} (v : IsSound m s owner js) (fmt : ℕ)
    (f : Filter) (init : Bytes)
    → Borrows f
    → Returns (Added m s.heap f (take enc_max_doc init)) (submit s fmt (some f) init)
unfolding submit alloc_slot
submit-IsSound {m} {s} {owner} {js} v fmt f init borrows =
    elim (Option-cases (free_slot spool_max 0 s.slots)) [
      | inl full ↦
          let no_room : (i : ℕ) → i < spool_max → m i ≢ none = λ i lt.
            entry-taken v i lt
              (free_slot-none spool_max 0 s.slots full i (omega arith) (omega (arith, lt))) in
          rw (full, submit) ((s, none), refl, inl (refl, inl no_room, (owner, (js, v))))
      | inr (id, e) ↦
          let (_, lt, empty, _) = free_slot-some spool_max 0 s.slots e in
          rw (e, submit)
            (submit_at-IsSound v f borrows (take enc_max_doc init)
              (omega (arith, length-take enc_max_doc init)) fmt id lt empty)
    ]

pub submit-none : (s : Store) (fmt : ℕ) (init : Bytes) → submit s fmt none init ≡ ok (s, none)
unfolding submit
submit-none s fmt init = refl
