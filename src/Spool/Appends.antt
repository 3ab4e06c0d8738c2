-- ===== src/Spool/Appends.antt =====
-- double-free/capstone/src/spoolcore/spoolcore.c: JobAppend on a store in which the invariant holds, as
-- long as realloc does not move the document.
use mathlib.Core.Path.{subst}
use bug_museum.Base.{
  length-take, some, ◌++◌, take, drop, take-append_middle, take-append_prefix, Bool-cases, ◌||◌,
  ltb, ℕ, suc, ◌+◌, ◌%◌, ◌^◌, ◌≤◌, ◌<◌, ◌≡◌, ◌≢◌, refl, ap, ◌∙◌, ◌⊎◌, inl, inr, Bool, true, false,
  List, arith, length, ne→==, eq→==, le_or_lt, lt→ltb, ge→ltb,
}
use bug_museum.Memory.Fault.{ok, Returns}
use bug_museum.Memory.Bytes.{Bytes, blit-ok, splice, length-splice}
use bug_museum.Memory.Heap.{
  Ptr, null, Heap, live, put, regrown, length-regrown, assign-live, realloc-refused,
  realloc-in_place,
}
use bug_museum.Spool.Types.{Job, Object, job, bytes, Store, spool_max, enc_max_doc, job_at}
use bug_museum.Spool.Store.{get}
use bug_museum.Spool.Jobs.{append, append_to, append_grow, append_fits}
use bug_museum.Spool.Linked.{job_at-live, bytes_at-live}
use bug_museum.Spool.View.{View, Entry, entry, with_entry, Missing, Names}
use bug_museum.Spool.Grows.{grown-IsSound, Kept-grown}
use bug_museum.Spool.Invariant.{Kept, IsSound}
use bug_museum.Spool.Retires.{Sound}
use bug_museum.Spool.Resolves.{resolve, nothing, found, aimed, aimed-IsSound}
use bug_museum.Spool.Edits.{Edited, edited-IsSound}

-- realloc will not move the block it is asked for next.
abbrev pub Stays : Heap Object → Type 0
Stays h = (h.grants h.requests ≡ false) ⊎ (h.moves h.requests ≡ false)

-- Why a document is not extended: it would be longer than ENC_MAX_DOC, or realloc gives no memory.
abbrev pub NoMore : Heap Object → Entry → Bytes → Type 0
NoMore h e arg = (enc_max_doc < length e.document + length arg) ⊎ (h.grants h.requests ≡ false)

-- What JobAppend makes of the map on the heap `h`, when it finds the job `i` with the entry `e`: the
-- argument is behind the document, or it has been refused for a reason.
abbrev pub Extended : View → Heap Object → (Ptr → Ptr) → ℕ → Entry → Bytes → Store × Bool → Type 0
Extended m h owner i e arg r =
    ((r.1 ≡ true)
      × Sound (with_entry m i (some (record e { document = e.document ++ arg }))) owner r.0)
    ⊎ ((r.1 ≡ false) × NoMore h e arg × Sound m owner r.0)

-- The entry's document is as long as the job says.
length-document :
    {m : View} {s : Store} {owner : Ptr → Ptr} {i : ℕ} (k : Kept m s owner i)
    → length (take k.content.len k.blocks.space) ≡ k.content.len
length-document k = omega (arith, length-take k.content.len k.blocks.space, k.blocks.fits)

module _ {m : View} {s : Store} {owner : Ptr → Ptr} {js : List Ptr} (v : IsSound m s owner js)
    {i : ℕ} (lt : i < spool_max) (k : Kept m s owner i) (arg : Bytes)
    (small : k.content.len + length arg ≤ enc_max_doc) where
  abbrev need : ℕ
  need = k.content.len + length arg

  abbrev filled : Bytes → Bytes
  filled b = splice b k.content.len arg

  -- The job with the document extended in a block of `cap` bytes.
  abbrev extended : ℕ → Job
  extended cap = record k.content { cap = cap; len = need }

  extended-Edited :
      (cap : ℕ) (b : Bytes)
      → length b ≡ cap
      → need ≤ cap
      → Edited k.content (extended cap) (filled b)
  extended-Edited cap b size room = record {
    same_id = refl;
    same_filter = refl;
    same_document = refl;
    same_meta = refl;
    same_qnext = refl;
    sized = length-splice b k.content.len arg (omega (arith, size)) ∙ size;
    fits = room;
    within = small;
  }

  -- The entry of the extended document.
  abbrev longer : Entry
  longer = record {
    state = k.content.state;
    filter = k.content.filter;
    document = take k.content.len k.blocks.space ++ arg;
  }

  longer-entry :
      (cap : ℕ) (b : Bytes)
      → need ≤ length b
      → take k.content.len b ≡ take k.content.len k.blocks.space
      → entry (extended cap) (filled b) ≡ longer
  longer-entry cap b room kept =
      let x = k.content in
      let text : take need (filled b) ≡ take x.len k.blocks.space ++ arg =
        take-append_middle x.len b arg (drop need b) (omega arith)
        ∙ ap (λ (front : Bytes). front ++ arg) kept in
      ap (λ (d : Bytes). record { state = x.state; filter = x.filter; document = d }) text

  append_fits-IsSound :
      need ≤ k.content.cap
      → Returns
          (Extended m s.heap owner i (entry k.content k.blocks.space) arg)
          (append_fits (aimed s i) (s.slots i) k.content arg need)
  unfolding append_fits
  append_fits-IsSound room =
      let o = k.blocks in
      let x = k.content in
      let d = x.document in
      let b = filled o.space in
      let h₁ : Heap Object = record s.heap { cell = put s.heap.cell d (live (bytes b)) } in
      let y = extended x.cap in
      let h₂ : Heap Object = record h₁ { cell = put h₁.cell (s.slots i) (live (job y)) } in
      let j_here : h₁.cell (s.slots i) ≡ live (job x) = ground (arith, o.here, o.document_here) in
      rw
        (
          bytes_at-live s.heap d o.space o.document_ne_null o.document_here,
          blit-ok o.space x.len arg (omega (arith, k.sized)),
          assign-live s.heap d o.document_ne_null {a = bytes o.space} (bytes b) o.document_here,
          assign-live h₁ (s.slots i) o.ne_null {a = job x} (job y) j_here,
        )
        (
          (record (aimed s i) { heap = h₂ }, true),
          refl,
          inl (
            refl,
            (
              js,
              subst
                  (λ e.
                    IsSound (with_entry m i (some e)) (record (aimed s i) { heap = h₂ }) owner js)
                  (longer-entry x.cap o.space (omega (arith, k.sized)) refl)
                  (edited-IsSound v lt k h₂ y b (extended-Edited x.cap o.space k.sized room)
                    (ground arith) (ground (arith, o.document_here, o.here))
                    (λ p ne ne'. ground arith) (omega arith)),
            ),
          ),
        )

  append_grow-refused :
      s.heap.grants s.heap.requests ≡ false
      → Returns
          (Extended m s.heap owner i (entry k.content k.blocks.space) arg)
          (append_grow (aimed s i) (s.slots i) k.content arg need)
  unfolding append_grow
  append_grow-refused refused =
      let o = k.blocks in
      let x = k.content in
      let new = regrown s.heap o.space need in
      let h : Heap Object = record s.heap { requests = suc s.heap.requests } in
      let w =
        grown-IsSound v h owner (λ p le. refl) (λ p le. refl)
          (λ p above. v.unissued p (omega arith)) in
      let k' = Kept-grown v h owner (λ p le. refl) (λ p le. refl) i k in
      rw
        (
          bytes_at-live s.heap x.document o.space o.document_ne_null o.document_here,
          realloc-refused s.heap x.document o.document_ne_null {a = bytes o.space} (bytes new)
              o.document_here refused,
        )
        (
          (record (aimed s i) { heap = h }, false),
          refl,
          inr (refl, inr refused, (js, aimed-IsSound w lt k')),
        )

  append_grow-in_place :
      s.heap.grants s.heap.requests ≡ true
      → s.heap.moves s.heap.requests ≡ false
      → Returns
          (Extended m s.heap owner i (entry k.content k.blocks.space) arg)
          (append_grow (aimed s i) (s.slots i) k.content arg need)
  unfolding append_grow
  append_grow-in_place granted stays =
      let o = k.blocks in
      let x = k.content in
      let d = x.document in
      let j = s.slots i in
      let new = regrown s.heap o.space need in
      let size = length-regrown s.heap o.space need in
      let b = filled new in
      let x' = record x { cap = need } in
      let y = extended need in
      let h₁ : Heap Object = record s.heap {
        cell = put s.heap.cell d (live (bytes new));
        requests = suc s.heap.requests;
      } in
      let h₂ : Heap Object = record h₁ { cell = put h₁.cell j (live (job x')) } in
      let h₃ : Heap Object = record h₂ { cell = put h₂.cell d (live (bytes b)) } in
      let h₄ : Heap Object = record h₃ { cell = put h₃.cell j (live (job y)) } in
      let front : take x.len new ≡ take x.len o.space =
        take-append_prefix x.len need o.space _ (omega arith) o.fits in
      let apart : j ≢ d = λ e. ground (arith, o.here, o.document_here, e) in
      rw
        (
          bytes_at-live s.heap d o.space o.document_ne_null o.document_here,
          realloc-in_place s.heap d o.document_ne_null {a = bytes o.space} (bytes new)
              o.document_here granted stays,
          ne→== d null o.document_ne_null,
          assign-live h₁ j o.ne_null {a = job x} (job x') (ground (arith, o.here)),
          bytes_at-live h₂ d new o.document_ne_null (ground arith),
          blit-ok new x.len arg (omega (arith, size)),
          assign-live h₂ d o.document_ne_null {a = bytes new} (bytes b) (ground arith),
          assign-live h₃ j o.ne_null {a = job x'} (job y) (ground arith),
          eq→== d d refl,
        )
        (
          (record (aimed s i) { heap = h₄ }, true),
          refl,
          inl (
            refl,
            (
              js,
              subst
                  (λ e.
                    IsSound (with_entry m i (some e)) (record (aimed s i) { heap = h₄ }) owner js)
                  (longer-entry need new (omega (arith, size)) front)
                  (edited-IsSound v lt k h₄ y b (extended-Edited need new size (omega arith))
                    (ground arith) (ground arith) (λ p ne ne'. ground arith) (omega arith)),
            ),
          ),
        )

-- What JobAppend makes of the map.
abbrev pub Appended : View → Heap Object → (Ptr → Ptr) → ℕ → Bytes → Store → Bool → Type 0
Appended m h owner id arg s appended =
    (Missing m id × (appended ≡ false) × Sound m owner s)
    ⊎ ((i : ℕ) × (e : Entry) × Names m id i e × Extended m h owner i e arg (s, appended))

module _ {m : View} {s : Store} {owner : Ptr → Ptr} {js : List Ptr} (v : IsSound m s owner js) where
  append_to-IsSound :
      {i : ℕ} (lt : i < spool_max) (k : Kept m s owner i) (arg : Bytes)
      → (k.content.len + length arg ≤ k.content.cap) ⊎ Stays s.heap
      → Returns
          (Extended m s.heap owner i (entry k.content k.blocks.space) arg)
          (append_to (aimed s i) (s.slots i) k.content arg (k.content.len + length arg))
  unfolding append_to
  append_to-IsSound {i} lt k arg may =
      let n = k.content.len + length arg in
      let or : (ltb enc_max_doc (length arg) || true) ≡ true = ground arith in
      elim (le_or_lt n enc_max_doc) [
        | inr long ↦ rw (lt→ltb enc_max_doc n long) (
            rw or (
              (aimed s i, false),
              refl,
              inr (refl, inl (omega (arith, long, length-document k)), (js, aimed-IsSound v lt k)),
            ))
        | inl small ↦ elim (le_or_lt n k.content.cap) [
          | inl room ↦
              rw
                (
                  ge→ltb enc_max_doc (length arg) (omega arith),
                  ge→ltb enc_max_doc n small,
                  ge→ltb k.content.cap n room,
                )
                (append_fits-IsSound v lt k arg small room)
          | inr grows ↦
              rw
                (
                  ge→ltb enc_max_doc (length arg) (omega arith),
                  ge→ltb enc_max_doc n small,
                  lt→ltb k.content.cap n grows,
                )
                (elim may [
                  | inl room ↦ absurd (omega arith)
                  | inr (inl refused) ↦ append_grow-refused v lt k arg small refused
                  | inr (inr stays) ↦ elim (Bool-cases (s.heap.grants s.heap.requests)) [
                    | inl granted ↦ append_grow-in_place v lt k arg small granted stays
                    | inr refused ↦ append_grow-refused v lt k arg small refused
                  ]
                ])
        ]
      ]

  append_to-long :
      {i : ℕ}
      → i < spool_max
      → (k : Kept m s owner i) (arg : Bytes) (n : ℕ) → enc_max_doc < length arg
      → Returns
          (λ r. (r.1 ≡ false) × Sound m owner r.0)
          (append_to (aimed s i) (s.slots i) k.content arg n)
  unfolding append_to
  append_to-long {i} lt k arg n long =
      rw (lt→ltb enc_max_doc (length arg) long)
        ((aimed s i, false), refl, (refl, (js, aimed-IsSound v lt k)))

  -- JobAppend on a store that stands for a finite map, when realloc does not move the document: for a
  -- number without an entry it returns SPOOL_ERR; else the argument is behind the document, or it
  -- returns SPOOL_ERR since the document would be longer than ENC_MAX_DOC or realloc gives no memory,
  -- and the map is the same.
  pub append-IsSound :
      (id : ℕ) (arg : Bytes)
      → ((x : Job)
          → job_at s.heap (get s id).1 ≡ ok x
          → (x.len + length arg ≤ x.cap) ⊎ Stays s.heap)
      → Returns (λ r. Appended m s.heap owner id arg r.0 r.1) (append s id arg)
  unfolding append
  append-IsSound id arg may = elim (resolve v id) [
    | nothing gone e ↦ rw e ((s, false), refl, inl (gone, refl, (js, v)))
    | found i lt k names e ↦
        let x = k.content in
        let at : job_at s.heap (s.slots i) ≡ ok x =
          job_at-live s.heap (s.slots i) x k.blocks.ne_null k.blocks.here in
        let here = entry x k.blocks.space in
        rw (e, ne→== (s.slots i) null k.blocks.ne_null, at)
          (elim (le_or_lt (length arg) enc_max_doc) [
            | inl short ↦
                let no_wrap : (x.len + length arg) % 2 ^ 32 ≡ x.len + length arg =
                  omega (arith, k.within) in
                let (r, run, grown) =
                  append_to-IsSound lt k arg
                    (may x (ap (λ (r : Store × Ptr). job_at s.heap r.1) e ∙ at)) in
                rw (no_wrap, run) (r, refl, inr (i, here, names, grown))
            | inr long ↦
                let (r, run, refused) =
                  append_to-long lt k arg ((x.len + length arg) % 2 ^ 32) long in
                rw run (
                  r,
                  refl,
                  inr (i, here, names, inr (refused.0, inl (omega (arith, long)), refused.1)),
                )
          ])
  ]
