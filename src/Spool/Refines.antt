-- ===== src/Spool/Refines.antt =====
-- Sequences of calls of the job store of double-free/capstone/src/spoolcore/spoolcore.c against the finite
-- map that it stands for.
use bug_museum.Base.{
  take, ◌++◌, ℕ, ◌≤◌, ◌<◌, ◌≡◌, refl, sym, ◌∙◌, ◌⊎◌, inl, inr, true, false, none, some, List, [],
  ◌∷◌, ne→==,
}
use bug_museum.Memory.Fault.{Returns}
use bug_museum.Memory.Heap.{Ptr, null, Heap, unmapped, free-eq_null}
use bug_museum.Memory.Slots.{used}
use bug_museum.Spool.Filters.{Filter}
use bug_museum.Spool.Types.{queued, cancelled, Object, Store, spool_max, enc_max_doc}
use bug_museum.Spool.Store.{new}
use bug_museum.Spool.Jobs.{recycle}
use bug_museum.Spool.Linked.{IsQueue, job_at-live}
use bug_museum.Spool.Relinked.{Relinked}
use bug_museum.Spool.Invariant.{IsSound, Relinked-IsSound}
use bug_museum.Spool.Retires.{Sound, retire-IsSound}
use bug_museum.Spool.Resolves.{resolve, nothing, found, aimed-IsSound, render-IsSound, status-ok}
use bug_museum.Spool.Drains.{Empty, AllQueued, flush-Idle}
use bug_museum.Spool.Edits.{cancel-IsSound}
use bug_museum.Spool.Appends.{append-IsSound}
use bug_museum.Spool.Fresh.{SoundFor}
use bug_museum.Spool.Submits.{submit-IsSound, submit-none}
use bug_museum.Spool.Dups.{dup-IsSound}
use bug_museum.Spool.Calls.{
  Call, submits, renders, appends, retires, cancels, dups, recycles, stats, flushes, step, Allowed,
  run, AllAllowed,
}
use bug_museum.Spool.View.{View, Entry, entry, with_entry, Missing, Names}

-- What a call may make of the map `m`.
abbrev pub Effect : View → Call → View → Type 0
Effect m (submits fmt f init) m' =
    (m' ≡ m)
    ⊎ ((g : Filter) × (id : ℕ) × (f ≡ some g)
        × (m id ≡ none)
        × (m'
            ≡ with_entry m id
                (some (record { state = queued; filter = g; document = take enc_max_doc init }))))
Effect m (renders id out_cap) m' =
    (Missing m id × (m' ≡ m))
    ⊎ ((i : ℕ) × (e : Entry) × Names m id i e × (m' ≡ with_entry m i none))
Effect m (appends id arg) m' =
    (Missing m id × (m' ≡ m))
    ⊎ ((i : ℕ) × (e : Entry) × Names m id i e
        × ((m' ≡ m) ⊎ (m' ≡ with_entry m i (some (record e { document = e.document ++ arg })))))
Effect m (retires id) m' =
    (((spool_max ≤ id) ⊎ (m id ≡ none)) × (m' ≡ m))
    ⊎ ((e : Entry) × (m id ≡ some e) × (m' ≡ with_entry m id none))
Effect m (cancels id) m' =
    (Missing m id × (m' ≡ m))
    ⊎ ((i : ℕ) × (e : Entry) × Names m id i e
        × (m' ≡ with_entry m i (some (record e { state = cancelled }))))
Effect m (dups id) m' =
    (m' ≡ m)
    ⊎ ((i : ℕ) × (e : Entry) × (copy : ℕ) × Names m id i e
        × (m copy ≡ none)
        × (m' ≡ with_entry m copy (some (record e { state = queued }))))
Effect m (recycles id) m' = m' ≡ m
Effect m (stats verbose) m' = m' ≡ m
Effect m flushes m' = Empty m'

abbrev pub Effects : View → List Call → View → Type 0
Effects m [] m' = m' ≡ m
Effects m (c ∷ cs) m' = (m₁ : View) × Effect m c m₁ × Effects m₁ cs m'

-- The store stands for a map to which a call, or a sequence of calls, may have led.
abbrev pub Follows : View → Call → Store → Type 0
Follows m c s = (m' : View) × Effect m c m' × SoundFor m' s

abbrev pub Refines : View → List Call → Store → Type 0
Refines m cs s = (m' : View) × Effects m cs m' × SoundFor m' s

module _ {m : View} {s : Store} {owner : Ptr → Ptr} {js : List Ptr} (v : IsSound m s owner js) where
  -- JobRecycle frees the block that was recycled before, of which there is none.
  recycle-IsSound : (id : ℕ) → s.scratch ≡ null → Returns (λ r. Sound m owner r.0) (recycle s id)
  unfolding recycle
  recycle-IsSound id first = elim (resolve v id) [
    | nothing gone e ↦ rw e ((s, false), refl, (js, v))
    | found i lt k names e ↦
        let w = aimed-IsSound v lt k in
        let t : Store = record s { active = s.slots i; scratch = k.content.document } in
        let r : Relinked (record s { active = s.slots i }) t = record {
          same_slots = refl;
          same_count = refl;
          same_active = refl;
          same_requests = refl;
          same_cells = λ p. inl refl;
        } in
        let q : IsQueue t js = record {
          linked = w.queue.linked;
          tail = w.queue.tail;
          distinct = w.queue.distinct;
        } in
        rw
          (
            e,
            ne→== (s.slots i) null k.blocks.ne_null,
            free-eq_null s.heap s.scratch first,
            job_at-live s.heap (s.slots i) k.content k.blocks.ne_null k.blocks.here,
          )
          ((t, true), refl, (js, Relinked-IsSound w r js q w.listed null w.waiting))
  ]

  AllQueued-table : Allowed s flushes → AllQueued m
  AllQueued-table may id lt e at = elim (v.slot_ok id lt) [
    | inl empty ↦ cc (v.absent id lt empty, at)
    | inr k ↦
        let waits =
          may id lt k.content
            (job_at-live s.heap (s.slots id) k.content k.blocks.ne_null k.blocks.here) in
        let same : some (entry k.content k.blocks.space) ≡ some e = sym k.known ∙ at in
        cc (same, waits)
  ]

  -- An allowed call runs to its end, and does to the map what it may do.
  pub step-Follows : (c : Call) → Allowed s c → Returns (Follows m c) (step s c)
  unfolding step
  step-Follows (submits fmt none init) may =
      rw (submit-none s fmt init) (s, refl, (m, inl refl, (owner, (js, v))))
  step-Follows (submits fmt (some g) init) may =
      let (r, run, w) = submit-IsSound v fmt g init (may g refl) in
      rw run (
        r.0,
        refl,
        elim w [
          | inl (_, _, u) ↦ (m, inl refl, u)
          | inr (id, _, free, _, u) ↦ (_, inr (g, id, refl, free, refl), u)
        ],
      )
  step-Follows (renders id out_cap) may =
      let (r, run, w) = render-IsSound v id out_cap in
      rw run (
        r.0,
        refl,
        elim w [
          | inl (gone, _, u) ↦ (m, inl (gone, refl), (owner, u))
          | inr (i, e, names, _, u) ↦ (_, inr (i, e, names, refl), (owner, u))
        ],
      )
  step-Follows (appends id arg) may =
      let (r, run, w) = append-IsSound v id arg may in
      rw run (
        r.0,
        refl,
        elim w [
          | inl (gone, _, u) ↦ (m, inl (gone, refl), (owner, u))
          | inr (i, e, names, inl (_, u)) ↦ (_, inr (i, e, names, inr refl), (owner, u))
          | inr (i, e, names, inr (_, _, u)) ↦ (m, inr (i, e, names, inl refl), (owner, u))
        ],
      )
  step-Follows (retires id) may =
      let (r, run, w) = retire-IsSound v id in
      rw run (
        r.0,
        refl,
        elim w [
          | inl (gone, _, u) ↦ (m, inl (gone, refl), (owner, u))
          | inr (e, at, _, u) ↦ (_, inr (e, at, refl), (owner, u))
        ],
      )
  step-Follows (cancels id) may =
      let (r, run, w) = cancel-IsSound v id in
      rw run (
        r.0,
        refl,
        elim w [
          | inl (gone, _, u) ↦ (m, inl (gone, refl), (owner, u))
          | inr (i, e, names, _, u) ↦ (_, inr (i, e, names, refl), (owner, u))
        ],
      )
  step-Follows (dups id) may =
      let (r, run, w) = dup-IsSound v id may in
      rw run (
        r.0,
        refl,
        elim w [
          | inl (_, _, u) ↦ (m, inl refl, u)
          | inr (i, e, names, inl (_, _, u)) ↦ (m, inl refl, u)
          | inr (i, e, names, inr (copy, _, free, _, u)) ↦
              (_, inr (i, e, copy, names, free, refl), u)
        ],
      )
  step-Follows (recycles id) may =
      let (r, run, w) = recycle-IsSound id may in rw run (r.0, refl, (m, refl, (owner, w)))
  step-Follows (stats verbose) may =
      let (out, run, _) = status-ok v verbose in rw run (s, refl, (m, refl, (owner, (js, v))))
  step-Follows flushes may =
      let (t, run, (m', none_left, w)) = flush-Idle v (AllQueued-table may) in
      (t, run, (m', none_left, (owner, ([], w))))

-- On a store that stands for a finite map from job numbers to a state, a filter and a document, a
-- sequence of calls never faults, and the store that it leaves stands for a map to which the calls may
-- lead: JobSubmit adds an entry with the document cut to ENC_MAX_DOC, JobRender and JobRetire remove
-- one, JobAppend extends a document, JobCancel marks an entry, JobDup copies one, JobFlush removes
-- every entry, and JobRecycle and JobStatus change none. That holds when each submitted filter borrows the
-- document, no append has its document moved by realloc, only jobs without metadata are copied,
-- nothing is recycled twice and the queue is flushed only while every job is waiting.
pub run-Refines :
    (cs : List Call) {m : View} {s : Store}
    → SoundFor m s
    → AllAllowed s cs
    → Returns (Refines m cs) (run s cs)
unfolding run
run-Refines [] {m} {s} v may = (s, refl, (m, refl, v))
run-Refines (c ∷ cs) (owner, (js, v)) may =
    let (t, stepped, (m₁, effect, w)) = step-Follows v c may.0 in
    let (s', rest, (m', effects, u)) = run-Refines cs w (may.1 t stepped) in
    rw stepped (s', rest, (m', (m₁, effect, effects), u))

-- An empty table stands for the empty map.
pub new-SoundFor :
    (h : Heap Object)
    → ((q : Ptr) → h.requests < q → h.cell q ≡ unmapped)
    → SoundFor (λ _. none) (new h)
unfolding new used
new-SoundFor h fresh = (
  (λ p. 0),
  (
    [],
    record {
      unissued = fresh;
      queue = record { linked = refl; tail = refl; distinct = tt };
      listed = tt;
      slot_ok = λ id lt. inl refl;
      absent = λ id lt empty. refl;
      waiting = λ id lt some_job. absurd (some_job refl);
      counted = refl;
      current = inl refl;
    },
  ),
)
