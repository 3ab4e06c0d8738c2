-- ===== src/Spool/Edits.antt =====
-- double-free/capstone/src/spoolcore/spoolcore.c: what JobCancel and JobAppend do to a job that stays where
-- it is, on a store in which the invariant holds.
use native.Mathlib.Decide.{ℕ_discrete}
use mathlib.Core.Path.{subst}
use bug_museum.Base.{
  some, ◌⊎◌, ℕ, ◌≤◌, ◌<◌, ◌≡◌, ◌≢◌, refl, sym, ap, ◌∙◌, inl, inr, Bool, true, false, List, [], ◌∷◌,
  arith, length, ne→==,
}
use bug_museum.Memory.Fault.{Returns}
use bug_museum.Memory.Bytes.{Bytes}
use bug_museum.Memory.Heap.{Ptr, null, Heap, live, put}
use bug_museum.Spool.Types.{Job, cancelled, Object, job, bytes, Store, spool_max, enc_max_doc}
use bug_museum.Spool.Jobs.{cancel, in_state}
use bug_museum.Spool.Linked.{Linked, update_job-live}
use bug_museum.Spool.Owned.{MetaOk}
use bug_museum.Spool.View.{
  View, Entry, entry, with_entry, with_entry-same, with_entry-other, Missing, Names,
}
use bug_museum.Spool.Invariant.{Kept, Listed-slots, IsSound, Kept-frame, Kept-view, slots_apart}
use bug_museum.Spool.Retires.{Sound}
use bug_museum.Spool.Resolves.{resolve, nothing, found, aimed, aimed-IsSound}

-- The job `x` may become `y`, with the document `space`, where it stands: only its state and the length
-- and capacity of its document change.
pub record Edited (x y : Job) (space : Bytes) : Type 0 where
  pub same_id : y.id ≡ x.id
  pub same_filter : y.filter ≡ x.filter
  pub same_document : y.document ≡ x.document
  pub same_meta : y.meta ≡ x.meta
  pub same_qnext : y.qnext ≡ x.qnext
  pub sized : length space ≡ y.cap
  pub fits : y.len ≤ y.cap
  pub within : y.len ≤ enc_max_doc

module _ {m : View} {s : Store} {owner : Ptr → Ptr} {js : List Ptr} (v : IsSound m s owner js)
    {id : ℕ} (lt : id < spool_max) (k : Kept m s owner id) (h : Heap Object) (y : Job)
    (space : Bytes) (e : Edited k.content y space) (here : h.cell (s.slots id) ≡ live (job y))
    (document_here : h.cell k.content.document ≡ live (bytes space))
    (same : (p : Ptr) → p ≢ s.slots id → p ≢ k.content.document → h.cell p ≡ s.heap.cell p)
    (later : s.heap.requests ≤ h.requests) where
  abbrev edited : Store
  edited = record s { heap = h }

  abbrev edited_view : View
  edited_view = with_entry m id (some (entry y space))

  Kept-edited : Kept edited_view edited owner id
  Kept-edited =
      let o = k.blocks in
      let meta_there : MetaOk h owner (s.slots id) y.meta = elim o.meta_ok [
        | inl none_there ↦ inl (e.same_meta ∙ none_there)
        | inr (ne, (b, meta_here, owned)) ↦ inr (
          λ at. ne (sym e.same_meta ∙ at),
          (
            b,
            ap h.cell e.same_meta
                ∙ same k.content.meta (λ at. ground (arith, at, meta_here, o.here))
                    (λ at. o.apart (sym at))
                ∙ meta_here,
            ap owner e.same_meta ∙ owned,
          ),
        )
      ] in
      record {
        content = y;
        blocks = record {
          space = space;
          ne_null = o.ne_null;
          here = here;
          document_ne_null = λ at. o.document_ne_null (sym e.same_document ∙ at);
          document_here = ap h.cell e.same_document ∙ document_here;
          fits = omega (arith, e.fits, e.sized);
          document_owned = ap owner e.same_document ∙ o.document_owned;
          meta_ok = meta_there;
          apart = λ at. o.apart (sym e.same_document ∙ at ∙ e.same_meta);
        };
        numbered = e.same_id ∙ k.numbered;
        sized = e.sized;
        within = e.within;
        borrows = λ at. k.borrows (sym e.same_filter ∙ at);
        known = with_entry-same m id (some (entry y space));
      }

  Kept-other : (i : ℕ) → i ≢ id → Kept m s owner i → Kept edited_view edited owner i
  Kept-other i ne k' =
      let o = k.blocks in
      let apart : s.slots i ≢ s.slots id = slots_apart k' k ne in
      let k'' =
        Kept-frame k' edited owner k'.content.qnext refl
          (same (s.slots i) apart (λ at. ground (arith, at, k'.blocks.here, o.document_here))
            ∙ k'.blocks.here)
          (λ p b some_p owned at. (
            same p (λ at'. ground (arith, at, at', o.here))
                  (λ at'. apart (sym owned ∙ ap owner at' ∙ o.document_owned))
                ∙ at,
            owned,
          )) in
      Kept-view k'' (with_entry-other m id i (some (entry y space)) ne)

  Linked-edited : (c : Ptr) (ks : List Ptr) → Linked s.heap c ks → Linked h c ks
  Linked-edited c [] l = l
  Linked-edited c (p ∷ ks) (at, ne, (x, p_here, rest)) = elim (ℕ_discrete p (s.slots id)) [
    | yes it ↦
        let it' : x ≡ k.content = ground (arith, it, p_here, k.blocks.here) in
        let after : x.qnext ≡ y.qnext = ap (λ (z : Job). z.qnext) it' ∙ sym e.same_qnext in
        (
          at,
          ne,
          (
            y,
            ap h.cell it ∙ here,
            subst (λ q. Linked h q ks) after (Linked-edited x.qnext ks rest),
          ),
        )
    | no other ↦ (
      at,
      ne,
      (
        x,
        same p other (λ at'. ground (arith, at', p_here, k.blocks.document_here)) ∙ p_here,
        Linked-edited x.qnext ks rest,
      ),
    )
  ]

  unaimed-IsSound : IsSound edited_view edited owner js
  unaimed-IsSound = record {
    unissued = λ p above.
        same p (λ at. ground (arith, at, v.unissued p (omega arith), k.blocks.here))
          (λ at. ground (arith, at, v.unissued p (omega arith), k.blocks.document_here))
        ∙ v.unissued p (omega arith);
    queue = record {
      linked = Linked-edited s.qhead js v.queue.linked;
      tail = v.queue.tail;
      distinct = v.queue.distinct;
    };
    listed = Listed-slots s edited js refl v.listed;
    slot_ok = λ i i_lt. elim (ℕ_discrete i id) [
      | yes it ↦ inr (subst (Kept edited_view edited owner) (sym it) Kept-edited)
      | no ne ↦ elim (v.slot_ok i i_lt) [
        | inl empty ↦ inl empty
        | inr k' ↦ inr (Kept-other i ne k')
      ]
    ];
    absent = λ i i_lt empty. elim (ℕ_discrete i id) [
      | yes it ↦ absurd (k.blocks.ne_null (ap s.slots (sym it) ∙ empty))
      | no ne ↦ with_entry-other m id i (some (entry y space)) ne ∙ v.absent i i_lt empty
    ];
    waiting = v.waiting;
    counted = v.counted;
    current = v.current;
  }

  pub edited-IsSound : IsSound edited_view (aimed edited id) owner js
  edited-IsSound = aimed-IsSound unaimed-IsSound lt Kept-edited

-- What JobCancel makes of the map.
abbrev pub Cancelled : View → (Ptr → Ptr) → ℕ → Store → Bool → Type 0
Cancelled m owner id s marked =
    (Missing m id × (marked ≡ false) × Sound m owner s)
    ⊎ ((i : ℕ) × (e : Entry) × Names m id i e
        × (marked ≡ true)
        × Sound (with_entry m i (some (record e { state = cancelled }))) owner s)

-- JobCancel marks a job, and leaves the rest as it is.
pub cancel-IsSound :
    {m : View} {s : Store} {owner : Ptr → Ptr} {js : List Ptr} (v : IsSound m s owner js) (id : ℕ)
    → Returns (λ r. Cancelled m owner id r.0 r.1) (cancel s id)
unfolding cancel
cancel-IsSound {m} {s} {owner} {js} v id = elim (resolve v id) [
  | nothing gone at ↦ rw at ((s, false), refl, inl (gone, refl, (js, v)))
  | found i lt k names at ↦
      let o = k.blocks in
      let x = k.content in
      let t = aimed s i in
      let y = in_state cancelled x in
      let h : Heap Object = record s.heap { cell = put s.heap.cell (s.slots i) (live (job y)) } in
      let edit : Edited x y o.space = record {
        same_id = refl;
        same_filter = refl;
        same_document = refl;
        same_meta = refl;
        same_qnext = refl;
        sized = k.sized;
        fits = omega (arith, o.fits, k.sized);
        within = k.within;
      } in
      rw
        (
          at,
          ne→== (s.slots i) null o.ne_null,
          update_job-live t (s.slots i) (in_state cancelled) x o.ne_null o.here,
        )
        (
          (record t { heap = h }, true),
          refl,
          inr (
            i,
            entry x o.space,
            names,
            refl,
            (
              js,
              edited-IsSound v lt k h y o.space edit (ground arith)
                  (ground (arith, o.document_here, o.here)) (λ p ne ne'. ground arith)
                  (omega arith),
            ),
          ),
        )
]
