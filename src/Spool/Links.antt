-- ===== src/Spool/Links.antt =====
-- double-free/capstone/src/spoolcore/spoolcore.c: the end of JobSubmit, which puts a new job in the table
-- and behind the queue, keeps the invariant of the store.
use native.Mathlib.Decide.{ℕ_discrete}
use mathlib.Core.Path.{subst}
use bug_museum.Base.{
  ℕ, ◌+◌, ◌<◌, ◌≡◌, ◌≢◌, refl, sym, ap, ◌∙◌, inl, inr, List, [], ◌∷◌, ◌++◌, arith, some, eq→==,
  ne→==,
}
use bug_museum.Base.Distinct.{Avoids, Avoids-of_append}
use bug_museum.Memory.Fault.{Returns}
use bug_museum.Memory.Heap.{Ptr, null, live}
use bug_museum.Memory.Slots.{used-fill, set_slot}
use bug_museum.Spool.Types.{job, Store, spool_max}
use bug_museum.Spool.Store.{link_job}
use bug_museum.Spool.Linked.{Linked-Avoids-null}
use bug_museum.Spool.Order.{enqueue-Relinked}
use bug_museum.Spool.View.{View, Entry, with_entry, with_entry-other}
use bug_museum.Spool.Invariant.{
  Kept, Listed, IsSound, IsSoundBut, AllWaiting, Kept-frame, Kept-view, Relinked-IsSound,
}
use bug_museum.Spool.Resolves.{aimed-IsSound}
use bug_museum.Spool.Retires.{Sound}

Listed-append :
    (s : Store) (js : List Ptr) (j : Ptr) (id : ℕ)
    → id < spool_max
    → s.slots id ≡ j
    → Listed s js
    → Listed s (js ++ j ∷ [])
Listed-append s [] j id lt at l = ((id, lt, at), tt)
Listed-append s (p ∷ js) j id lt at (here, l) = (here, Listed-append s js j id lt at l)

module _ {m : View} {s : Store} {owner : Ptr → Ptr} {js : List Ptr} (v : IsSound m s owner js)
    (id : ℕ) (j : Ptr) where
  -- The store with the job `j` in the slot `id`.
  abbrev pub placed : Store
  placed = record s { slots = set_slot s.slots id j; count = s.count + 1 }

  module _ (lt : id < spool_max) (empty : s.slots id ≡ null) (new : Entry)
      (k : Kept (with_entry m id (some new)) placed owner id) where
    abbrev placed_view : View
    placed_view = with_entry m id (some new)

    placed_other : (i : ℕ) → i ≢ id → placed.slots i ≡ s.slots i
    placed_other i ne = rw (ne→== i id ne)

    placed_at : placed.slots id ≡ j
    placed_at = rw (eq→== id id refl)

    some_job : j ≢ null
    some_job e = k.blocks.ne_null (placed_at ∙ e)

    Listed-placed : (ks : List Ptr) → Avoids null ks → Listed s ks → Listed placed ks
    Listed-placed [] a l = tt
    Listed-placed (p ∷ ks) a ((i, i_lt, at), l) =
        let ne : i ≢ id = λ e. a.0 (sym empty ∙ ap s.slots (sym e) ∙ at) in
        ((i, i_lt, placed_other i ne ∙ at), Listed-placed ks a.1 l)

    placed-IsSound : IsSoundBut placed_view placed owner js j
    placed-IsSound = record {
      unissued = v.unissued;
      queue = record { linked = v.queue.linked; tail = v.queue.tail; distinct = v.queue.distinct };
      listed = Listed-placed js (Linked-Avoids-null s.heap s.qhead js v.queue.linked) v.listed;
      slot_ok = λ i i_lt. elim (ℕ_discrete i id) [
        | yes e ↦ inr (subst (Kept placed_view placed owner) (sym e) k)
        | no ne ↦ elim (v.slot_ok i i_lt) [
          | inl nothing ↦ inl (placed_other i ne ∙ nothing)
          | inr k' ↦
              let k'' : Kept m placed owner i =
                Kept-frame k' placed owner k'.content.qnext (placed_other i ne) k'.blocks.here
                  (λ p b some_p owned at. (at, owned)) in
              inr (Kept-view k'' (with_entry-other m id i (some new) ne))
        ]
      ];
      absent = λ i i_lt nothing. elim (ℕ_discrete i id) [
        | yes it ↦ absurd (some_job (sym placed_at ∙ ap placed.slots (sym it) ∙ nothing))
        | no ne ↦
            with_entry-other m id i (some new) ne
            ∙ v.absent i i_lt (sym (placed_other i ne) ∙ nothing)
      ];
      waiting = λ i i_lt some other b. elim (ℕ_discrete i id) [
        | yes e ↦ other (ap placed.slots e ∙ placed_at)
        | no ne ↦
            let same = placed_other i ne in
            let some' : s.slots i ≢ null = λ e. some (same ∙ e) in
            v.waiting i i_lt some' some' (subst (λ p. Avoids p js) same b)
      ];
      counted = omega (arith, v.counted, used-fill spool_max id s.slots j lt empty some_job);
      current = elim v.current [
        | inl idle ↦ inl idle
        | inr (i, i_lt, at, ne) ↦
            inr (i, i_lt, placed_other i (λ e. ne (sym at ∙ ap s.slots e ∙ empty)) ∙ at, ne)
      ];
    }

    pub link_job-IsSound :
        Avoids j js → Returns (λ r. (r.1 ≡ some id) × Sound placed_view owner r.0) (link_job s id j)
    unfolding link_job
    link_job-IsSound a =
        let w = placed-IsSound in
        let here : s.heap.cell j ≡ live (job k.content) =
          ap s.heap.cell (sym placed_at) ∙ k.blocks.here in
        let (t, run, (q, r)) = enqueue-Relinked placed some_job here js w.queue a in
        let all : AllWaiting placed (js ++ j ∷ []) null = λ i i_lt some _ b.
          let (b', (ne, _)) = Avoids-of_append (placed.slots i) js (j ∷ []) b in
          w.waiting i i_lt some ne b' in
        let u =
          Relinked-IsSound w r (js ++ j ∷ []) q (Listed-append placed js j id lt placed_at w.listed)
            null all in
        let at : t.slots id ≡ j = ap (λ (f : ℕ → Ptr). f id) r.same_slots ∙ placed_at in
        elim (u.slot_ok id lt) [
          | inl nothing ↦ absurd (some_job (sym at ∙ nothing))
          | inr k' ↦ rw run (
            (record t { active = j }, some id),
            refl,
            (
              refl,
              (
                js ++ j ∷ [],
                subst (λ p. IsSound placed_view (record t { active = p }) owner (js ++ j ∷ [])) at
                    (aimed-IsSound u lt k'),
              ),
            ),
          )
        ]
