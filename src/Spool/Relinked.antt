-- ===== src/Spool/Relinked.antt =====
-- double-free/capstone/src/spoolcore/spoolcore.c: what the queue operations may change besides the ends
-- of the queue, which are the `qnext` fields of jobs.
use native.Mathlib.Decide.{ℕ_discrete}
use bug_museum.Base.{◌≡◌, refl, sym, ap, ◌∙◌, ◌⊎◌, inl, inr, arith, ne→==, eq→==}
use bug_museum.Memory.Bytes.{Bytes}
use bug_museum.Memory.Heap.{Ptr, Cell, live, unmapped, released, put}
use bug_museum.Spool.Types.{Job, Object, job, bytes, Store}
use bug_museum.Spool.Queue.{linked_to}

-- The same content, or a job with another link.
abbrev pub SameCell : Cell Object → Cell Object → Type 0
SameCell c c' =
    (c' ≡ c) ⊎ ((x : Job) × (q : Ptr) × (c ≡ live (job x)) × (c' ≡ live (job (linked_to q x))))

pub record Relinked (s s' : Store) : Type 0 where
  pub same_slots : s'.slots ≡ s.slots
  pub same_count : s'.count ≡ s.count
  pub same_active : s'.active ≡ s.active
  pub same_requests : s'.heap.requests ≡ s.heap.requests
  pub same_cells : (p : Ptr) → SameCell (s.heap.cell p) (s'.heap.cell p)

SameCell-trans : (a b c : Cell Object) → SameCell a b → SameCell b c → SameCell a c
SameCell-trans a b c (inl e) (inl e') = inl (e' ∙ e)
SameCell-trans a b c (inl e) (inr (x, q, at, to)) = inr (x, q, sym e ∙ at, to)
SameCell-trans a b c (inr (x, q, at, to)) (inl e) = inr (x, q, at, e ∙ to)
SameCell-trans a b c (inr (x, q, at, to)) (inr (y, q', at', to')) =
    let same : linked_to q x ≡ y = ground (arith, to, at') in
    inr (x, q', at, to' ∙ ap (λ (z : Job). live (job (linked_to q' z))) (sym same))

pub Relinked-trans : {s t u : Store} → Relinked s t → Relinked t u → Relinked s u
Relinked-trans {s} {t} {u} r r' = record {
  same_slots = r'.same_slots ∙ r.same_slots;
  same_count = r'.same_count ∙ r.same_count;
  same_active = r'.same_active ∙ r.same_active;
  same_requests = r'.same_requests ∙ r.same_requests;
  same_cells = λ p.
      SameCell-trans (s.heap.cell p) (t.heap.cell p) (u.heap.cell p) (r.same_cells p)
        (r'.same_cells p);
}

-- One job is linked to `q`.
pub SameCell-put :
    (f : Ptr → Cell Object) (t q p : Ptr) (x : Job)
    → f t ≡ live (job x)
    → SameCell (f p) (put f t (live (job (linked_to q x))) p)
SameCell-put f t q p x at = elim (ℕ_discrete p t) [
  | yes e ↦ inr (x, q, ap f e ∙ at, rw (eq→== p t e))
  | no e ↦ inl (rw (ne→== p t e))
]

module _ {s s' : Store} (r : Relinked s s') where
  pub bytes_kept :
      (p : Ptr) (b : Bytes) → s.heap.cell p ≡ live (bytes b) → s'.heap.cell p ≡ live (bytes b)
  bytes_kept p b e = elim (r.same_cells p) [
    | inl same ↦ same ∙ e
    | inr (x, q, at, to) ↦ ground (arith, e, at)
  ]

  pub unmapped_kept : (p : Ptr) → s.heap.cell p ≡ unmapped → s'.heap.cell p ≡ unmapped
  unmapped_kept p e = elim (r.same_cells p) [
    | inl same ↦ same ∙ e
    | inr (x, q, at, to) ↦ ground (arith, e, at)
  ]

  pub released_kept : (p : Ptr) → s.heap.cell p ≡ released → s'.heap.cell p ≡ released
  released_kept p e = elim (r.same_cells p) [
    | inl same ↦ same ∙ e
    | inr (x, q, at, to) ↦ ground (arith, e, at)
  ]

  pub job_kept :
      (p : Ptr) (x : Job)
      → s.heap.cell p ≡ live (job x)
      → (q : Ptr) × (s'.heap.cell p ≡ live (job (linked_to q x)))
  job_kept p x e = elim (r.same_cells p) [
    | inl same ↦ (x.qnext, same ∙ e)
    | inr (y, q, at, to) ↦
        let same : y ≡ x = ground (arith, e, at) in
        (q, to ∙ ap (λ (z : Job). live (job (linked_to q z))) same)
  ]

pub Relinked-put :
    (s : Store) (t q : Ptr) (x : Job) (head tail : Ptr)
    → s.heap.cell t ≡ live (job x)
    → Relinked s (record s {
      heap = record s.heap { cell = put s.heap.cell t (live (job (linked_to q x))) };
      qhead = head;
      qtail = tail;
    })
Relinked-put s t q x head tail at = record {
  same_slots = refl;
  same_count = refl;
  same_active = refl;
  same_requests = refl;
  same_cells = λ p. SameCell-put s.heap.cell t q p x at;
}

pub Relinked-ends :
    (s : Store) (head tail : Ptr) → Relinked s (record s { qhead = head; qtail = tail })
Relinked-ends s head tail = record {
  same_slots = refl;
  same_count = refl;
  same_active = refl;
  same_requests = refl;
  same_cells = λ p. inl refl;
}
