-- ===== src/Spool/Removes.antt =====
-- double-free/capstone/src/spoolcore/spoolcore.c: JobRetire and what ends with it, JobRender and the render
-- pump, keep the invariant of the store.
use native.Mathlib.Decide.{ℕ_discrete}
use mathlib.Core.Path.{subst}
use bug_museum.Base.{
  none, ℕ, ◌-◌, ◌<◌, ◌≡◌, ◌≢◌, refl, sym, ap, ◌∙◌, inl, inr, List, [], ◌∷◌, arith, ◌==◌,
  if◌then◌else◌, eq→==, ne→==,
}
use bug_museum.Base.Distinct.{Avoids}
use bug_museum.Memory.Heap.{Ptr, null, live, unmapped}
use bug_museum.Memory.Slots.{used, set_slot, used-clear}
use bug_museum.Spool.Types.{job, Store, spool_max}
use bug_museum.Spool.Linked.{IsQueue}
use bug_museum.Spool.View.{View, with_entry, with_entry-same, with_entry-other}
use bug_museum.Spool.Invariant.{
  Kept, Listed, IsSound, IsSoundBut, Kept-frame, Kept-view, slots_apart,
}

module _ {m : View} {s : Store} {owner : Ptr → Ptr} {js : List Ptr} {id : ℕ}
    (v : IsSoundBut m s owner js (s.slots id)) (lt : id < spool_max) (k : Kept m s owner id)
    (s' : Store) (slots : s'.slots ≡ set_slot s.slots id null) where
  slot_other : (i : ℕ) → i ≢ id → s'.slots i ≡ s.slots i
  slot_other i ne = ap (λ (f : ℕ → Ptr). f i) slots ∙ rw (ne→== i id ne)

  slot_cleared : s'.slots id ≡ null
  slot_cleared = ap (λ (f : ℕ → Ptr). f id) slots ∙ rw (eq→== id id refl)

  Listed-removed : (ks : List Ptr) → Avoids (s.slots id) ks → Listed s ks → Listed s' ks
  Listed-removed [] a l = tt
  Listed-removed (p ∷ ks) a ((i, i_lt, at), l) =
      let ne : i ≢ id = λ e. a.0 (sym (ap s.slots e) ∙ at) in
      ((i, i_lt, slot_other i ne ∙ at), Listed-removed ks a.1 l)

  module _
      (same : (p : Ptr)
        → p ≢ s.slots id
        → p ≢ k.content.document
        → p ≢ k.content.meta
        → s'.heap.cell p ≡ s.heap.cell p) where
    Kept-removed : (i : ℕ) → i ≢ id → Kept m s owner i → Kept m s' owner i
    Kept-removed i ne k' =
        let o = k.blocks in
        let apart : s.slots i ≢ s.slots id = slots_apart k' k ne in
        let job_here : s'.heap.cell (s.slots i) ≡ live (job k'.content) =
          same (s.slots i) apart (λ e. ground (arith, e, k'.blocks.here, o.document_here))
            (λ e. ground (arith, e, k'.blocks.here, o.meta_ok, k'.blocks.ne_null))
          ∙ k'.blocks.here in
        Kept-frame k' s' owner k'.content.qnext (slot_other i ne) job_here (λ p b some_p owned e. (
          same p (λ e'. ground (arith, e, e', o.here))
                (λ e'. apart (sym owned ∙ ap owner e' ∙ o.document_owned))
                (λ e'. elim o.meta_ok [
                  | inl none_there ↦ some_p (e' ∙ none_there)
                  | inr (_, (_, _, meta_owned)) ↦ apart (sym owned ∙ ap owner e' ∙ meta_owned)
                ])
              ∙ e,
          owned,
        ))

    -- A job is gone with its blocks, from the table and from the queue.
    pub removed-IsSound :
        s'.count ≡ s.count - 1
        → s'.active ≡ (if s.active == s.slots id then null else s.active)
        → ((p : Ptr) → s'.heap.requests < p → s'.heap.cell p ≡ unmapped)
        → IsQueue s' js
        → Listed s js
        → Avoids (s.slots id) js
        → IsSound (with_entry m id none) s' owner js
    removed-IsSound count active fresh q l a = record {
      unissued = fresh;
      queue = q;
      listed = Listed-removed js a l;
      slot_ok = λ i i_lt. elim (ℕ_discrete i id) [
        | yes e ↦ inl (ap s'.slots e ∙ slot_cleared)
        | no ne ↦ elim (v.slot_ok i i_lt) [
          | inl empty ↦ inl (slot_other i ne ∙ empty)
          | inr k' ↦ inr (Kept-view (Kept-removed i ne k') (with_entry-other m id i none ne))
        ]
      ];
      absent = λ i i_lt e. elim (ℕ_discrete i id) [
        | yes it ↦ ap (with_entry m id none) it ∙ with_entry-same m id none
        | no ne ↦ with_entry-other m id i none ne ∙ v.absent i i_lt (sym (slot_other i ne) ∙ e)
      ];
      waiting = λ i i_lt some_job other b. elim (ℕ_discrete i id) [
        | yes e ↦ some_job (ap s'.slots e ∙ slot_cleared)
        | no ne ↦ elim (v.slot_ok i i_lt) [
          | inl empty ↦ some_job (slot_other i ne ∙ empty)
          | inr k' ↦
              v.waiting i i_lt k'.blocks.ne_null (slots_apart k' k ne)
                (subst (λ p. Avoids p js) (slot_other i ne) b)
        ]
      ];
      counted = omega (
        arith,
        count,
        v.counted,
        used-clear spool_max id s.slots lt k.blocks.ne_null,
        ap (used spool_max) slots,
      );
      current = elim (ℕ_discrete s.active (s.slots id)) [
        | yes e ↦ inl (active ∙ rw (eq→== s.active (s.slots id) e))
        | no ne ↦
            let still : s'.active ≡ s.active = active ∙ rw (ne→== s.active (s.slots id) ne) in
            elim v.current [
              | inl idle ↦ inl (still ∙ idle)
              | inr (i, i_lt, at, some_job) ↦ inr (
                i,
                i_lt,
                slot_other i (λ e. ne (sym at ∙ ap s.slots e)) ∙ at ∙ sym still,
                λ e. some_job (sym still ∙ e),
              )
            ]
      ];
    }
