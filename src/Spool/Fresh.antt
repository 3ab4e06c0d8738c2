-- ===== src/Spool/Fresh.antt =====
-- double-free/capstone/src/spoolcore/spoolcore.c: the blocks of a new job, whichever of the requests for
-- them are granted, on a store in which the invariant holds.
use bug_museum.Base.{
  Bool, false, ◌≢◌, ℕ, suc, ◌≤◌, ◌<◌, ◌≡◌, refl, sym, ap, ◌∙◌, ◌⊎◌, inl, inr, List, arith, ltb,
  Option, none, some, ◌==◌, if◌then◌else◌, eq→==, ne→==, length, take, length-tabulate_from, lt→ltb,
}
use bug_museum.Memory.Fault.{Result, ok, Returns, ◌>>=◌}
use bug_museum.Memory.Bytes.{Bytes}
use bug_museum.Memory.Heap.{
  Ptr, null, Heap, live, unmapped, released, put, fresh_bytes, malloc, malloc-Allocated, free-live,
  free,
}
use bug_museum.Spool.Filters.{Filter}
use bug_museum.Spool.Types.{Job, queued, Object, job, bytes, Store, spool_max, enc_max_doc}
use bug_museum.Spool.Store.{header, blank, link_job}
use bug_museum.Spool.Pump.{Borrows}
use bug_museum.Spool.View.{View, Entry, with_entry, with_entry-same}
use bug_museum.Spool.Invariant.{Kept, IsSound}
use bug_museum.Spool.Grows.{grown-IsSound, Linked-Avoids_above}
use bug_museum.Spool.Links.{placed, link_job-IsSound}
use bug_museum.Spool.Retires.{Sound}

-- The owners after a request: what is not given out yet belongs to the job `j`.
abbrev pub owned_from : (Ptr → Ptr) → ℕ → Ptr → Ptr → Ptr
owned_from owner n j p = if ltb n p then j else owner p

-- A store in which the invariant holds, for some queue and some owners.
abbrev pub SoundFor : View → Store → Type 0
SoundFor m s = (owner : Ptr → Ptr) × Sound m owner s

-- Why there is no new job: every number has one, or one of the first two requests is not granted.
abbrev pub NoRoom : View → Heap Object → Type 0
NoRoom m h =
    ((id : ℕ) → id < spool_max → m id ≢ none)
    ⊎ ((h.grants h.requests ≡ false) ⊎ (h.grants (suc h.requests) ≡ false))

-- What JobSubmit and JobDup make of the map, on the heap `h`: there is a new job under a number that had
-- none, and that number is returned, or SPOOL_ERR is for one of these reasons.
abbrev pub Added : View → Heap Object → Filter → Bytes → Store × Option ℕ → Type 0
Added m h f doc r =
    ((r.1 ≡ none) × NoRoom m h × SoundFor m r.0)
    ⊎ ((id : ℕ) × (id < spool_max)
        × (m id ≡ none)
        × (r.1 ≡ some id)
        × SoundFor (with_entry m id (some (record { state = queued; filter = f; document = doc })))
            r.0)

module _ {m : View} {s : Store} {owner : Ptr → Ptr} {js : List Ptr} (v : IsSound m s owner js)
    (f : Filter) (borrows : Borrows f) (doc : Bytes) {n : ℕ} (short : n ≤ enc_max_doc) (cap : ℕ)
    (room : n ≤ cap) (fmt meta_len id : ℕ) (lt : id < spool_max) (empty : s.slots id ≡ null) where
  abbrev pub r : ℕ
  r = s.heap.requests

  abbrev pub made : Ptr → Ptr → Job
  made d meta = record {
    id = id;
    fmt = fmt;
    state = queued;
    filter = f;
    document = d;
    len = n;
    cap = cap;
    meta = meta;
    meta_len = meta_len;
    qnext = null;
  }

  -- Both blocks are there and filled; the metadata may be missing.
  pub linked-IsSound :
      (h : Heap Object) (j d meta : Ptr) (filled header : Bytes)
      → j ≡ suc r
      → d ≡ suc (suc r)
      → length filled ≡ cap
      → take n filled ≡ doc
      → ((p : Ptr) → p ≤ r → h.cell p ≡ s.heap.cell p)
      → ((p : Ptr) → h.requests < p → h.cell p ≡ unmapped)
      → h.cell j ≡ live (job (made d meta))
      → h.cell d ≡ live (bytes filled)
      → (meta ≡ null) ⊎ ((meta ≡ suc (suc (suc r))) × (h.cell meta ≡ live (bytes header)))
      → Returns (Added m s.heap f doc) (link_job (record s { heap = h }) id j)
  linked-IsSound h j d meta filled header e_j e_d full text old fresh here document_here meta_here =
      let owner' = owned_from owner r j in
      let v' = grown-IsSound v h owner' old (λ p le. ground arith) fresh in
      let at : (placed v' id j).slots id ≡ j = rw (eq→== id id refl) in
      let new : Entry = record { state = queued; filter = f; document = doc } in
      let k : Kept (with_entry m id (some new)) (placed v' id j) owner' id = record {
        content = made d meta;
        blocks = record {
          space = filled;
          ne_null = λ e. absurd (omega (arith, e, at, e_j));
          here = ap h.cell at ∙ here;
          document_ne_null = λ e. absurd (omega (arith, e, e_d));
          document_here = document_here;
          fits = omega (arith, full);
          document_owned = (rw (lt→ltb r d (omega arith))) ∙ sym at;
          meta_ok = elim meta_here [
            | inl none_there ↦ inl none_there
            | inr (e_m, m_here) ↦ inr (
              λ e. absurd (omega (arith, e, e_m)),
              (header, m_here, (rw (lt→ltb r meta (omega arith))) ∙ sym at),
            )
          ];
          apart = λ e. ground (arith, e, e_d, meta_here);
        };
        numbered = refl;
        sized = full;
        within = short;
        borrows = borrows;
        known =
            with_entry-same m id (some new)
            ∙ ap (λ (b : Bytes). some (record { state = queued; filter = f; document = b }))
                (sym text);
      } in
      let avoids =
        Linked-Avoids_above s.heap v.unissued j s.qhead js (omega arith) v.queue.linked in
      let (r, run, (given, sound)) = link_job-IsSound v' id j lt empty new k avoids in
      (r, run, inr (id, lt, v.absent id lt empty, given, (owner', sound)))

  -- What JobSubmit and JobDup start with: a job and a document, and what is done when both are there.
  abbrev pub with_blocks :
      (Heap Object → Ptr → Ptr → Bytes → Result (Store × Option ℕ)) → Result (Store × Option ℕ)
  with_blocks fill =
      let (h, j) = malloc s.heap (job (blank f)) in
      let space = fresh_bytes h cap in
      let (h', d) = malloc h (bytes space) in
      if j == null
      then ok (record s { heap = h }, none)
      else if d == null
      then (do h'' ← free h' j; ok (record s { heap = h'' }, none))
      else fill h' j d space

  pub with_blocks-Returns :
      (Q : Store × Option ℕ → Type 0)
      → ((r : Store × Option ℕ) → (r.1 ≡ none) × NoRoom m s.heap × SoundFor m r.0 → Q r)
      → (fill : Heap Object → Ptr → Ptr → Bytes → Result (Store × Option ℕ))
      → ((h : Heap Object) (j d : Ptr) (space : Bytes)
          → j ≡ suc r
          → d ≡ suc (suc r)
          → h.requests ≡ suc (suc r)
          → length space ≡ cap
          → ((p : Ptr) → p ≤ r → h.cell p ≡ s.heap.cell p)
          → ((p : Ptr) → h.requests < p → h.cell p ≡ unmapped)
          → h.cell j ≡ live (job (blank f))
          → h.cell d ≡ live (bytes space)
          → Returns Q (fill h j d space))
      → Returns Q (with_blocks fill)
  with_blocks-Returns Q refuse fill filled =
      let a₁ = malloc-Allocated s.heap (job (blank f)) in
      let h₁ = (malloc s.heap (job (blank f))).0 in
      let j = (malloc s.heap (job (blank f))).1 in
      let space = fresh_bytes h₁ cap in
      let a₂ = malloc-Allocated h₁ (bytes space) in
      let h₂ = (malloc h₁ (bytes space)).0 in
      let d = (malloc h₁ (bytes space)).1 in
      let old₁ : (p : Ptr) → p ≤ r → h₁.cell p ≡ s.heap.cell p = λ p le. a₁.old p (omega arith) in
      let old₂ : (p : Ptr) → p ≤ r → h₂.cell p ≡ s.heap.cell p =
        λ p le. a₂.old p (omega (arith, a₁.same_requests)) ∙ old₁ p le in
      let fresh₁ : (p : Ptr) → suc r < p → h₁.cell p ≡ unmapped =
        λ p above. a₁.old p (omega arith) ∙ v.unissued p (omega arith) in
      let fresh₂ : (p : Ptr) → suc (suc r) < p → h₂.cell p ≡ unmapped =
        λ p above. a₂.old p (omega (arith, a₁.same_requests)) ∙ fresh₁ p (omega arith) in
      let requests : h₂.requests ≡ suc (suc r) = a₂.same_requests ∙ ap suc a₁.same_requests in
      elim a₁.there [
        | inl (none_there, refused) ↦ rw (eq→== j null none_there) (
          (record s { heap = h₁ }, none),
          refl,
          refuse (record s { heap = h₁ }, none)
              (
                refl,
                inr (inl refused),
                (
                  owner,
                  (
                    js,
                    grown-IsSound v h₁ owner old₁ (λ p le. refl)
                        (λ p above. fresh₁ p (omega (arith, a₁.same_requests))),
                  ),
                ),
              ),
        )
        | inr (e_j, j_here) ↦
            let j_here₂ : h₂.cell j ≡ live (job (blank f)) =
              a₂.old j (omega (arith, a₁.same_requests, e_j)) ∙ j_here in
            elim a₂.there [
              | inl (none_there, refused) ↦
                  let refused' : s.heap.grants (suc r) ≡ false =
                    ap s.heap.grants (sym a₁.same_requests)
                    ∙ ap (λ (g : ℕ → Bool). g h₁.requests) (sym a₁.same_grants)
                    ∙ refused in
                  let h₃ : Heap Object = record h₂ { cell = put h₂.cell j released } in
                  rw
                    (
                      ne→== j null (omega arith),
                      eq→== d null none_there,
                      free-live h₂ j (omega arith) {a = job (blank f)} j_here₂,
                    )
                    (
                      (record s { heap = h₃ }, none),
                      refl,
                      refuse (record s { heap = h₃ }, none)
                          (
                            refl,
                            inr (inr refused'),
                            (
                              owner,
                              (
                                js,
                                grown-IsSound v h₃ owner (λ p le. ground (arith, old₂ p le, e_j))
                                    (λ p le. refl)
                                    (λ p above. ground (
                                      arith,
                                      fresh₂ p (omega (arith, above, requests)),
                                      e_j,
                                      above,
                                      requests,
                                    )),
                              ),
                            ),
                          ),
                    )
              | inr (e_d, d_here) ↦
                  rw (ne→== j null (omega arith), ne→== d null (omega arith))
                    (filled h₂ j d space e_j (e_d ∙ ap suc a₁.same_requests) requests
                      (length-tabulate_from 0 cap (h₁.junk h₁.requests)) old₂
                      (λ p above. fresh₂ p (omega (arith, above, requests))) j_here₂ d_here)
            ]
      ]

-- A slot that is taken has an entry.
pub entry-taken :
    {m : View} {s : Store} {owner : Ptr → Ptr} {js : List Ptr} (v : IsSound m s owner js) (i : ℕ)
    → i < spool_max
    → s.slots i ≢ null
    → m i ≢ none
entry-taken v i lt some_job e = elim (v.slot_ok i lt) [
  | inl nothing ↦ some_job nothing
  | inr k ↦ cc (k.known, e)
]
