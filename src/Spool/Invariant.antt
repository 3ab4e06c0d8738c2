-- ===== src/Spool/Invariant.antt =====
-- What holds of the job store of double-free/capstone/src/spoolcore/spoolcore.c between calls, as long as
-- no block has two owners: the table, the queue, the count and the active job agree, and each job is in
-- the queue and has its blocks to itself. `m` is the map that the store stands for.
use mathlib.Core.Path.{subst}
use bug_museum.Base.Distinct.{Avoids}
use bug_museum.Base.{
  some, none, ℕ, ◌≤◌, ◌<◌, ◌≡◌, ◌≢◌, refl, sym, ap, ◌∙◌, ◌⊎◌, inl, inr, List, [], ◌∷◌, arith,
  length,
}
use bug_museum.Memory.Bytes.{Bytes}
use bug_museum.Memory.Heap.{Ptr, null, Heap, live, unmapped}
use bug_museum.Memory.Slots.{used}
use bug_museum.Spool.Types.{Job, Object, job, bytes, Store, spool_max, enc_max_doc}
use bug_museum.Spool.Queue.{linked_to}
use bug_museum.Spool.Linked.{IsQueue}
use bug_museum.Spool.Owned.{Owned, MetaOk}
use bug_museum.Spool.Pump.{Borrows}
use bug_museum.Spool.View.{View, entry}
use bug_museum.Spool.Relinked.{Relinked, bytes_kept, unmapped_kept, job_kept}

-- The slot `id` holds a job with blocks of its own.
pub record Kept (m : View) (s : Store) (owner : Ptr → Ptr) (id : ℕ) : Type 0 where
  pub content : Job
  pub blocks : Owned s.heap owner (s.slots id) content
  pub numbered : content.id ≡ id
  pub sized : length blocks.space ≡ content.cap
  pub within : content.len ≤ enc_max_doc
  pub borrows : Borrows content.filter
  pub known : m id ≡ some (entry content blocks.space)

-- Every queued job stands in the table.
abbrev pub Listed : Store → List Ptr → Type 0
Listed s [] = Unit {0}
Listed s (j ∷ js) = ((id : ℕ) × (id < spool_max) × (s.slots id ≡ j)) × Listed s js

-- The fast path leads nowhere, or to a job of the table.
abbrev pub Current : Store → Ptr → Type 0
Current s p = (p ≡ null) ⊎ ((id : ℕ) × (id < spool_max) × (s.slots id ≡ p) × (p ≢ null))

-- Every job of the table, but one at `late`, is in the queue.
abbrev pub AllWaiting : Store → List Ptr → Ptr → Type 0
AllWaiting s js late =
    (id : ℕ) → id < spool_max → s.slots id ≢ null → s.slots id ≢ late → ¬ (Avoids (s.slots id) js)

pub record IsSoundBut (m : View) (s : Store) (owner : Ptr → Ptr) (js : List Ptr) (late : Ptr)
    : Type 0 where
  pub unissued : (p : Ptr) → s.heap.requests < p → s.heap.cell p ≡ unmapped
  pub queue : IsQueue s js
  pub listed : Listed s js
  pub slot_ok : (id : ℕ) → id < spool_max → (s.slots id ≡ null) ⊎ Kept m s owner id
  pub absent : (id : ℕ) → id < spool_max → s.slots id ≡ null → m id ≡ none
  pub waiting : AllWaiting s js late
  pub counted : s.count ≡ used spool_max s.slots
  pub current : Current s s.active

abbrev pub IsSound : View → Store → (Ptr → Ptr) → List Ptr → Type 0
IsSound m s owner js = IsSoundBut m s owner js null

-- A job has its blocks to itself where they and their owner are kept, and only its link may change.
pub Owned-frame :
    {h : Heap Object} {owner : Ptr → Ptr} {j : Ptr} {x : Job} (o : Owned h owner j x)
    (h' : Heap Object) (owner' : Ptr → Ptr) (q : Ptr) {j' : Ptr}
    → j' ≡ j
    → h'.cell j ≡ live (job (linked_to q x))
    → ((p : Ptr) (b : Bytes)
        → p ≢ null
        → owner p ≡ j
        → h.cell p ≡ live (bytes b)
        → (h'.cell p ≡ live (bytes b)) × (owner' p ≡ j))
    → (o' : Owned h' owner' j' (linked_to q x)) × (o'.space ≡ o.space)
Owned-frame {x = x} o h' owner' q {j'} slot here same =
    let (d_here, d_owned) =
      same x.document o.space o.document_ne_null o.document_owned o.document_here in
    let m : MetaOk h' owner' j' x.meta = elim o.meta_ok [
      | inl none_there ↦ inl none_there
      | inr (ne, (b, m_here, owned)) ↦
          let (m_here', owned') = same x.meta b ne owned m_here in
          inr (ne, (b, m_here', owned' ∙ sym slot))
    ] in
    (
      record {
        space = o.space;
        ne_null = λ e. o.ne_null (sym slot ∙ e);
        here = ap h'.cell slot ∙ here;
        document_ne_null = o.document_ne_null;
        document_here = d_here;
        fits = o.fits;
        document_owned = d_owned ∙ sym slot;
        meta_ok = m;
        apart = o.apart;
      },
      refl,
    )

-- A job is kept where its slot is kept, too.
pub Kept-frame :
    {m : View} {s : Store} {owner : Ptr → Ptr} {id : ℕ} (k : Kept m s owner id) (s' : Store)
    (owner' : Ptr → Ptr) (q : Ptr)
    → s'.slots id ≡ s.slots id
    → s'.heap.cell (s.slots id) ≡ live (job (linked_to q k.content))
    → ((p : Ptr) (b : Bytes)
        → p ≢ null
        → owner p ≡ s.slots id
        → s.heap.cell p ≡ live (bytes b)
        → (s'.heap.cell p ≡ live (bytes b)) × (owner' p ≡ s.slots id))
    → Kept m s' owner' id
Kept-frame k s' owner' q slot here same =
    let (o, space) = Owned-frame k.blocks s'.heap owner' q slot here same in
    record {
      content = linked_to q k.content;
      blocks = o;
      numbered = k.numbered;
      sized = ap length space ∙ k.sized;
      within = k.within;
      borrows = k.borrows;
      known = k.known ∙ ap (λ b. some (entry k.content b)) (sym space);
    }

-- What the map says of other numbers does not matter to a job.
pub Kept-view :
    {m m' : View} {s : Store} {owner : Ptr → Ptr} {id : ℕ}
    → Kept m s owner id
    → m' id ≡ m id
    → Kept m' s owner id
Kept-view k same = record {
  content = k.content;
  blocks = k.blocks;
  numbered = k.numbered;
  sized = k.sized;
  within = k.within;
  borrows = k.borrows;
  known = same ∙ k.known;
}

-- Two slots hold different jobs.
pub slots_apart :
    {m : View} {s : Store} {owner : Ptr → Ptr} {id id' : ℕ} (k : Kept m s owner id)
    (k' : Kept m s owner id')
    → id ≢ id'
    → s.slots id ≢ s.slots id'
slots_apart {s} k k' ne e =
    let same : k.content ≡ k'.content = ground (arith, k.blocks.here, k'.blocks.here, e) in
    ne (sym k.numbered ∙ ap (λ (x : Job). x.id) same ∙ k'.numbered)

pub Listed-slots : (s s' : Store) (js : List Ptr) → s'.slots ≡ s.slots → Listed s js → Listed s' js
Listed-slots s s' [] e l = tt
Listed-slots s s' (j ∷ js) e ((id, lt, at), l) =
    ((id, lt, ap (λ (f : ℕ → Ptr). f id) e ∙ at), Listed-slots s s' js e l)

pub AllWaiting-slots :
    (s s' : Store) (js : List Ptr) (late : Ptr)
    → s'.slots ≡ s.slots
    → AllWaiting s js late
    → AllWaiting s' js late
AllWaiting-slots s s' js late e w id lt some_job other a =
    let same : s'.slots id ≡ s.slots id = ap (λ (f : ℕ → Ptr). f id) e in
    w id lt (λ e'. some_job (same ∙ e')) (λ e'. other (same ∙ e')) (subst (λ p. Avoids p js) same a)

-- The queue may change, as long as its jobs stand in the table.
pub Relinked-IsSound :
    {m : View} {s : Store} {owner : Ptr → Ptr} {js : List Ptr} {early : Ptr}
    (v : IsSoundBut m s owner js early) {s' : Store} (r : Relinked s s') (js' : List Ptr)
    → IsQueue s' js'
    → Listed s js'
    → (late : Ptr) → AllWaiting s js' late
    → IsSoundBut m s' owner js' late
Relinked-IsSound {m} {s} {owner} v {s'} r js' q l late waiting = record {
  unissued = λ p lt. unmapped_kept r p (v.unissued p (omega (arith, r.same_requests)));
  queue = q;
  listed = Listed-slots s s' js' r.same_slots l;
  slot_ok = λ id lt. elim (v.slot_ok id lt) [
    | inl empty ↦ inl (ap (λ (f : ℕ → Ptr). f id) r.same_slots ∙ empty)
    | inr k ↦
        let (q', here) = job_kept r (s.slots id) k.content k.blocks.here in
        inr (
          Kept-frame k s' owner q' (ap (λ (f : ℕ → Ptr). f id) r.same_slots) here
            (λ p b some_p owned e. (bytes_kept r p b e, owned)))
  ];
  absent = λ id lt e. v.absent id lt (sym (ap (λ (f : ℕ → Ptr). f id) r.same_slots) ∙ e);
  waiting = AllWaiting-slots s s' js' late r.same_slots waiting;
  counted = r.same_count ∙ v.counted ∙ sym (ap (used spool_max) r.same_slots);
  current = elim v.current [
    | inl idle ↦ inl (r.same_active ∙ idle)
    | inr (id, lt, at, ne) ↦ inr (
      id,
      lt,
      ap (λ (f : ℕ → Ptr). f id) r.same_slots ∙ at ∙ sym r.same_active,
      λ e. ne (sym r.same_active ∙ e),
    )
  ];
}
