-- ===== src/Spool/Drains.antt =====
-- double-free/capstone/src/spoolcore/spoolcore.c: JobFlush on a store in which the invariant holds and no
-- job has been cancelled.
use mathlib.Core.Path.{subst}
use native.Mathlib.Decide.{ℕ_discrete}
use bug_museum.Base.{
  some, none, ℕ, zero, suc, ◌<◌, ◌≡◌, refl, sym, ap, ◌∙◌, inl, inr, true, List, [], ◌∷◌, arith,
  length, ne→==,
}
use bug_museum.Base.Distinct.{Avoids}
use bug_museum.Memory.Fault.{ok, Returns}
use bug_museum.Memory.Heap.{Ptr, null}
use bug_museum.Memory.Slots.{set_slot}
use bug_museum.Spool.Types.{queued, Store, spool_max}
use bug_museum.Spool.Jobs.{work, flush, flush_rounds}
use bug_museum.Spool.Linked.{length-queue}
use bug_museum.Spool.Order.{
  dequeued, dequeue-empty, dequeue-first, dequeued-IsQueue, dequeued-Relinked,
}
use bug_museum.Spool.Pump.{
  Ready, finished, work-finished, finished-same, finished-unissued, finished-IsQueue,
}
use bug_museum.Spool.View.{View, Entry, entry, with_entry, with_entry-same, with_entry-other}
use bug_museum.Spool.Invariant.{Kept, IsSound, IsSoundBut, AllWaiting, Relinked-IsSound}
use bug_museum.Spool.Removes.{removed-IsSound}

-- Every job of the map is waiting.
abbrev pub AllQueued : View → Type 0
AllQueued m = (id : ℕ) → id < spool_max → (e : Entry) → m id ≡ some e → e.state ≡ queued

-- A map without an entry in the table.
abbrev pub Empty : View → Type 0
Empty m = (id : ℕ) → id < spool_max → m id ≡ none

-- A store with an empty queue that stands for an empty map.
abbrev pub Idle : (Ptr → Ptr) → Store → Type 0
Idle owner s = (m : View) × Empty m × IsSound m s owner []

AllQueued-removed : (m : View) (id : ℕ) → AllQueued m → AllQueued (with_entry m id none)
AllQueued-removed m id all i lt e at = elim (ℕ_discrete i id) [
  | yes it ↦ cc (sym (with_entry-same m id none), ap (with_entry m id none) it, at)
  | no ne ↦ all i lt e (sym (with_entry-other m id i none ne) ∙ at)
]

module _ {m : View} {s : Store} {owner : Ptr → Ptr} {js : List Ptr} {id : ℕ}
    (v : IsSoundBut m s owner js (s.slots id)) (all : AllQueued m) (lt : id < spool_max)
    (k : Kept m s owner id) where
  abbrev ready : Ready s owner (s.slots id)
  ready = record {
    content = k.content;
    blocks = k.blocks;
    waits = all id lt (entry k.content k.blocks.space) k.known;
    borrows = k.borrows;
    in_table = omega (arith, k.numbered);
    slot = ap s.slots k.numbered;
  }

  work-IsSound :
      Avoids (s.slots id) js
      → Returns (λ r. IsSound (with_entry m id none) r.0 owner js) (work s (s.slots id))
  work-IsSound a =
      let r = ready in
      let t = finished s r in
      (
        (t, true),
        work-finished s r js v.unissued v.queue a,
        removed-IsSound v lt k t (ap (λ i. set_slot s.slots i null) k.numbered)
            (finished-same s r js v.unissued v.queue a) refl refl
            (finished-unissued s r js v.unissued v.queue a)
            (finished-IsQueue s r js v.unissued v.queue a) v.listed a,
      )

IsSound-Empty : {m : View} {s : Store} {owner : Ptr → Ptr} → IsSound m s owner [] → Empty m
IsSound-Empty {s = s} v id lt = elim (ℕ_discrete (s.slots id) null) [
  | yes empty ↦ v.absent id lt empty
  | no some_job ↦ absurd (v.waiting id lt some_job some_job tt)
]

flush_rounds-Idle :
    (rounds : ℕ) {m : View} {s : Store} {owner : Ptr → Ptr} (js : List Ptr)
    → IsSound m s owner js
    → AllQueued m
    → length js < rounds
    → Returns (Idle owner) (flush_rounds rounds s)
unfolding flush_rounds
flush_rounds-Idle zero js v all few = absurd (omega arith)
flush_rounds-Idle (suc rounds) {m} {s} [] v all few =
    rw (dequeue-empty s v.queue) (s, refl, (m, IsSound-Empty v, v))
flush_rounds-Idle (suc rounds) {m} {s} {owner} (j ∷ js) v all few =
    let (_, ne, (x, here, rest)) = v.queue.linked in
    let ((id, lt, at), l) = v.listed in
    let t = dequeued s j x in
    let late : AllWaiting s js (s.slots id) = λ i i_lt some_job other b.
      v.waiting i i_lt some_job some_job ((λ e. other (e ∙ sym at)), b) in
    let w =
      Relinked-IsSound v (dequeued-Relinked s j x here) js (dequeued-IsQueue s v.queue x here rest)
        l (s.slots id) late in
    elim (w.slot_ok id lt) [
      | inl empty ↦ absurd (ne (sym at ∙ empty))
      | inr k ↦
          let (r, run, u) =
            work-IsSound w all lt k (subst (λ p. Avoids p js) (sym at) v.queue.distinct.0) in
          let run' : work t j ≡ ok r = subst (λ p. work t p ≡ ok r) at run in
          rw (dequeue-first s v.queue x here, ne→== j null ne, run')
            (flush_rounds-Idle rounds js u (AllQueued-removed m id all) (omega arith))
    ]

-- Where every job is waiting, JobFlush ends without a fault, and the queue and the table are empty.
pub flush-Idle :
    {m : View} {s : Store} {owner : Ptr → Ptr} {js : List Ptr}
    → IsSound m s owner js
    → AllQueued m
    → Returns (Idle owner) (flush s)
unfolding flush
flush-Idle {s = s} {js = js} v all =
    flush_rounds-Idle (suc s.heap.requests) js v all
      (omega (arith, length-queue s.heap s.qhead js v.unissued v.queue.linked v.queue.distinct))
