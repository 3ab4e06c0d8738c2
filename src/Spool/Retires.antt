-- ===== src/Spool/Retires.antt =====
-- double-free/capstone/src/spoolcore/spoolcore.c: JobRetire, JobRender and the render pump on a sound
-- store.
use mathlib.Core.Path.{subst}
use bug_museum.Base.{
  some, none, ℕ, suc, ◌≤◌, ◌<◌, ◌≡◌, ◌≢◌, refl, sym, ap, ◌∙◌, ◌⊎◌, inl, inr, Bool, true, false,
  List, [], ◌∷◌, ◌++◌, arith, eq→==, ne→==, lt→ltb, ge→ltb, le_or_lt,
}
use bug_museum.Base.Distinct.{Avoids-insert, Avoids, IsDistinct-remove, find_split}
use bug_museum.Memory.Fault.{ok, Returns}
use bug_museum.Memory.Heap.{Ptr, null}
use bug_museum.Spool.Types.{Store, spool_max}
use bug_museum.Spool.Queue.{unlink_queue}
use bug_museum.Spool.Store.{retire}
use bug_museum.Spool.Linked.{IsQueue, length-queue, unlink_from-absent}
use bug_museum.Spool.Order.{unlink_queue-Relinked}
use bug_museum.Spool.Owned.{free_job-freed, retired}
use bug_museum.Spool.Doubles.{freed-Linked}
use bug_museum.Spool.Relinked.{Relinked, Relinked-ends}
use bug_museum.Spool.View.{View, Entry, entry, with_entry}
use bug_museum.Spool.Invariant.{Kept, Listed, IsSound, IsSoundBut, AllWaiting, Relinked-IsSound}
use bug_museum.Spool.Removes.{removed-IsSound}

Listed-remove :
    (s : Store) (front : List Ptr) (j : Ptr) (rest : List Ptr)
    → Listed s (front ++ j ∷ rest)
    → Listed s (front ++ rest)
Listed-remove s [] j rest l = l.1
Listed-remove s (p ∷ front) j rest (at, l) = (at, Listed-remove s front j rest l)

-- What unlink_queue leaves: a queue without the job, of jobs of the table.
abbrev Unlinked : Store → List Ptr → Ptr → Store → Type 0
Unlinked s js j s' =
    (js' : List Ptr) × IsQueue s' js'
    × Listed s js'
    × Avoids j js'
    × ((p : Ptr) → p ≢ j → Avoids p js' → Avoids p js)
    × Relinked s s'

module _ {m : View} {s : Store} {owner : Ptr → Ptr} {js : List Ptr} (v : IsSound m s owner js) where
  unlink_queue-absent : (j : Ptr) → Avoids j js → unlink_queue s j ≡ ok s
  unfolding unlink_queue
  unlink_queue-absent j a =
      unlink_from-absent (suc s.heap.requests) s null s.qhead j js v.queue.linked a
        (omega (arith, length-queue s.heap s.qhead js v.unissued v.queue.linked v.queue.distinct))

  unlink_queue-Unlinked : (j : Ptr) → Returns (Unlinked s js j) (unlink_queue s j)
  unlink_queue-Unlinked j = elim (find_split j js) [
    | inl (front, rest, e) ↦
        let q : IsQueue s (front ++ j ∷ rest) = subst (IsQueue s) e v.queue in
        let l : Listed s (front ++ j ∷ rest) = subst (Listed s) e v.listed in
        let (_, a, _, _, _) = IsDistinct-remove front j rest q.distinct in
        let kept : (p : Ptr) → p ≢ j → Avoids p (front ++ rest) → Avoids p js =
          λ p ne b. subst (Avoids p) (sym e) (Avoids-insert p front j rest ne b) in
        let (s', run, (q', r)) = unlink_queue-Relinked s front j rest v.unissued q in
        (s', run, (front ++ rest, q', Listed-remove s front j rest l, a, kept, r))
    | inr a ↦ (
      s,
      unlink_queue-absent j a,
      (js, v.queue, v.listed, a, (λ p ne b. b), Relinked-ends s s.qhead s.qtail),
    )
  ]

module _ {m : View} {s : Store} {owner : Ptr → Ptr} {js : List Ptr} {id : ℕ}
    (v : IsSoundBut m s owner js (s.slots id)) (lt : id < spool_max) (k : Kept m s owner id) where
  -- The job of the slot `id`, which has left the queue, is freed and taken out of the table.
  abbrev pub emptied : Store
  emptied = retired s k.blocks id

  pub emptied-IsSound : Avoids (s.slots id) js → IsSound (with_entry m id none) emptied owner js
  emptied-IsSound a =
      let o = k.blocks in
      removed-IsSound v lt k emptied refl (λ p ne ne' ne''. ground arith) refl refl
        (λ p above. ground (arith, v.unissued p above, o.here, o.document_here, o.meta_ok))
        (record {
          linked = freed-Linked s o s.qhead js a v.queue.linked;
          tail = v.queue.tail;
          distinct = v.queue.distinct;
        })
        v.listed a

-- A store in which the invariant holds, for some queue.
abbrev pub Sound : View → (Ptr → Ptr) → Store → Type 0
Sound m owner s = (js : List Ptr) × IsSound m s owner js

-- JobRetire removes the job of a number from the map, if there is one.
abbrev pub Removed : View → (Ptr → Ptr) → ℕ → Store → Bool → Type 0
Removed m owner id s removed =
    (((spool_max ≤ id) ⊎ (m id ≡ none)) × (removed ≡ false) × Sound m owner s)
    ⊎ ((e : Entry) × (m id ≡ some e) × (removed ≡ true) × Sound (with_entry m id none) owner s)

module _ {m : View} {s : Store} {owner : Ptr → Ptr} {js : List Ptr} (v : IsSound m s owner js) where
  retire-Unlinked :
      {id : ℕ}
      → id < spool_max
      → Kept m s owner id
      → {s₁ : Store} → unlink_queue s (s.slots id) ≡ ok s₁
      → Unlinked s js (s.slots id) s₁
      → Returns (λ r. (r.1 ≡ true) × Sound (with_entry m id none) owner r.0) (retire s id)
  unfolding retire
  retire-Unlinked {id} lt k {s₁} run (js', q, l, a, kept, r) =
      let late : AllWaiting s js' (s.slots id) =
        λ i i_lt some_job other b. v.waiting i i_lt some_job some_job (kept (s.slots i) other b) in
      let at : s₁.slots id ≡ s.slots id = ap (λ (f : ℕ → Ptr). f id) r.same_slots in
      let v₁ =
        Relinked-IsSound v r js' q l (s₁.slots id) (subst (AllWaiting s js') (sym at) late) in
      elim (v₁.slot_ok id lt) [
        | inl empty ↦ absurd (k.blocks.ne_null (sym at ∙ empty))
        | inr k₁ ↦
            rw
              (
                lt→ltb id spool_max lt,
                ne→== (s.slots id) null k.blocks.ne_null,
                run,
                ← at,
                free_job-freed s₁ k₁.blocks,
              )
              (
                (emptied v₁ lt k₁, true),
                refl,
                (refl, (js', emptied-IsSound v₁ lt k₁ (subst (λ p. Avoids p js') (sym at) a))),
              )
      ]

  -- A job of the table is retired.
  pub retire_job-IsSound :
      {id : ℕ}
      → id < spool_max
      → s.slots id ≢ null
      → Returns (λ r. (r.1 ≡ true) × Sound (with_entry m id none) owner r.0) (retire s id)
  retire_job-IsSound {id} lt ne = elim (v.slot_ok id lt) [
    | inl empty ↦ absurd (ne empty)
    | inr k ↦
        (let (s₁, run, u) = unlink_queue-Unlinked v (s.slots id) in retire-Unlinked lt k run u)
  ]

  -- JobRetire on a store that stands for a finite map never faults: for a number outside the table or
  -- without an entry it returns SPOOL_ERR, and the store stands for the same map; else the store stands
  -- for the map without the entry.
  pub retire-IsSound : (id : ℕ) → Returns (λ r. Removed m owner id r.0 r.1) (retire s id)
  unfolding retire
  retire-IsSound id = elim (le_or_lt spool_max id) [
    | inl outside ↦
        rw (ge→ltb id spool_max outside) ((s, false), refl, inl (inl outside, refl, (js, v)))
    | inr lt ↦ elim (v.slot_ok id lt) [
      | inl empty ↦
          rw (lt→ltb id spool_max lt, eq→== (s.slots id) null empty)
            ((s, false), refl, inl (inr (v.absent id lt empty), refl, (js, v)))
      | inr k ↦
          let (r, run, (removed, sound)) = retire_job-IsSound lt k.blocks.ne_null in
          (r, run, inr (entry k.content k.blocks.space, k.known, removed, sound))
    ]
  ]
