-- ===== src/Spool/Grows.antt =====
-- double-free/capstone/src/spoolcore/spoolcore.c: requests for new blocks leave the invariant of the store,
-- whatever the new blocks hold and whoever owns them.
use bug_museum.Base.{ℕ, ◌≤◌, ◌<◌, ◌≡◌, refl, ◌∙◌, inl, inr, List, [], ◌∷◌, arith, le_or_lt}
use bug_museum.Base.Distinct.{Avoids}
use bug_museum.Memory.Heap.{Ptr, Heap, live, unmapped}
use bug_museum.Spool.Types.{Job, Object, Store}
use bug_museum.Spool.Linked.{Linked}
use bug_museum.Spool.Owned.{Owned}
use bug_museum.Spool.View.{View}
use bug_museum.Spool.Invariant.{Kept, Listed-slots, IsSound, Owned-frame, Kept-frame}

module _ (h : Heap Object) (unissued : (p : Ptr) → h.requests < p → h.cell p ≡ unmapped) where
  pub issued : (p : Ptr) {a : Object} → h.cell p ≡ live a → p ≤ h.requests
  issued p at = elim (le_or_lt p h.requests) [
    | inl le ↦ le
    | inr above ↦ ground (arith, at, unissued p above)
  ]

  -- Queued jobs have addresses that have been given out.
  pub Linked-Avoids_above :
      (p c : Ptr) (js : List Ptr) → h.requests < p → Linked h c js → Avoids p js
  Linked-Avoids_above p c [] above l = tt
  Linked-Avoids_above p c (j ∷ js) above (_, _, (x, here, rest)) =
      (λ e. ground (arith, e, issued j here), Linked-Avoids_above p x.qnext js above rest)

module _ {m : View} {s : Store} {owner : Ptr → Ptr} {js : List Ptr} (v : IsSound m s owner js)
    (h : Heap Object) (owner' : Ptr → Ptr)
    (old : (p : Ptr) → p ≤ s.heap.requests → h.cell p ≡ s.heap.cell p)
    (owned_as : (p : Ptr) → p ≤ s.heap.requests → owner' p ≡ owner p) where
  abbrev pub grown : Store
  grown = record s { heap = h }

  Linked-grown : (c : Ptr) (ks : List Ptr) → Linked s.heap c ks → Linked h c ks
  Linked-grown c [] l = l
  Linked-grown c (p ∷ ks) (at, ne, (x, here, rest)) =
      (at, ne, (x, old p (issued s.heap v.unissued p here) ∙ here, Linked-grown x.qnext ks rest))

  pub Owned-grown :
      {j : Ptr} {x : Job} (o : Owned s.heap owner j x)
      → (o' : Owned h owner' j x) × (o'.space ≡ o.space)
  Owned-grown {j} {x} o =
      Owned-frame o h owner' x.qnext refl (old j (issued s.heap v.unissued j o.here) ∙ o.here)
        (λ p b ne owned at. (
          old p (issued s.heap v.unissued p at) ∙ at,
          owned_as p (issued s.heap v.unissued p at) ∙ owned,
        ))

  pub Kept-grown : (i : ℕ) → Kept m s owner i → Kept m grown owner' i
  Kept-grown i k =
      let here = k.blocks.here in
      Kept-frame k grown owner' k.content.qnext refl
        (old (s.slots i) (issued s.heap v.unissued (s.slots i) here) ∙ here)
        (λ p b ne owned at. (
          old p (issued s.heap v.unissued p at) ∙ at,
          owned_as p (issued s.heap v.unissued p at) ∙ owned,
        ))

  pub grown-IsSound : ((p : Ptr) → h.requests < p → h.cell p ≡ unmapped) → IsSound m grown owner' js
  grown-IsSound fresh = record {
    unissued = fresh;
    queue = record {
      linked = Linked-grown s.qhead js v.queue.linked;
      tail = v.queue.tail;
      distinct = v.queue.distinct;
    };
    listed = Listed-slots s grown js refl v.listed;
    slot_ok =
        λ i lt. elim (v.slot_ok i lt) [ inl empty ↦ inl empty | inr k ↦ inr (Kept-grown i k) ];
    absent = v.absent;
    waiting = v.waiting;
    counted = v.counted;
    current = v.current;
  }
