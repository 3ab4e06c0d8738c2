-- ===== src/Spool/Resolves.antt =====
-- double-free/capstone/src/spoolcore/spoolcore.c: JobGet, JobStatus and JobRender on a store in which
-- the invariant holds.
use native.Mathlib.Decide.{ℕ_discrete}
use mathlib.Core.Path.{subst}
use bug_museum.Base.{
  take, ◌⊎◌, ℕ, ◌<◌, ◌≡◌, refl, sym, ap, ◌∙◌, inl, inr, Bool, true, false, Option, none, some, List,
  eq→==, ne→==, lt→ltb, ge→ltb, le_or_lt,
}
use bug_museum.Memory.Fault.{ok, Returns}
use bug_museum.Memory.Heap.{Ptr, null}
use bug_museum.Spool.Types.{Store, spool_max, spool_recent}
use bug_museum.Spool.Store.{get, retire}
use bug_museum.Spool.Jobs.{render, status}
use bug_museum.Spool.Linked.{job_at-live}
use bug_museum.Spool.Pump.{call_filter-Borrows}
use bug_museum.Spool.Invariant.{Kept, Listed-slots, IsSound, Kept-frame}
use bug_museum.Spool.Retires.{Sound, retire_job-IsSound}
use bug_museum.Spool.View.{View, Entry, entry, with_entry, Missing, Names}
use bug_museum.Spool.Filters.{Preview, run_filter}

-- The store with the fast path on the slot `id`.
abbrev pub aimed : Store → ℕ → Store
aimed s id = record s { active = s.slots id }

-- What a number comes to: nothing, and the store stays as it is, or a job of the table, which is then
-- the active one.
pub data Resolved (m : View) (s : Store) (owner : Ptr → Ptr) (id : ℕ) : Type 0 where
  nothing : Missing m id → get s id ≡ (s, null) → Resolved m s owner id
  found :
      (i : ℕ)
      → i < spool_max
      → (k : Kept m s owner i) → Names m id i (entry k.content k.blocks.space)
      → get s id ≡ (aimed s i, s.slots i)
      → Resolved m s owner id

-- What JobRender makes of the map, and the preview that it returns.
abbrev pub Rendered : View → (Ptr → Ptr) → ℕ → ℕ → Store → Option Preview → Type 0
Rendered m owner id out_cap s preview =
    (Missing m id × (preview ≡ none) × Sound m owner s)
    ⊎ ((i : ℕ) × (e : Entry) × Names m id i e
        × (preview ≡ some (run_filter e.filter e.document out_cap))
        × Sound (with_entry m i none) owner s)

module _ {m : View} {s : Store} {owner : Ptr → Ptr} {js : List Ptr} (v : IsSound m s owner js) where
  resolve_active : get s spool_recent ≡ (s, s.active) → Resolved m s owner spool_recent
  resolve_active run = elim v.current [
    | inl idle ↦ nothing (λ ne. absurd (ne refl)) (run ∙ ap (λ (p : Ptr). (s, p)) idle)
    | inr (i, lt, at, some_job) ↦ elim (v.slot_ok i lt) [
      | inl empty ↦ absurd (some_job (sym at ∙ empty))
      | inr k ↦
          found i lt k (λ ne. absurd (ne refl), k.known)
            (run ∙ ap (λ (p : Ptr). (record s { active = p }, p)) (sym at))
    ]
  ]

  pub resolve : (id : ℕ) → Resolved m s owner id
  unfolding get
  resolve id = elim (ℕ_discrete id spool_recent) [
    | yes e ↦ rw e (resolve_active refl)
    | no other ↦ elim (le_or_lt spool_max id) [
      | inl outside ↦
          nothing (λ ne. inl outside)
            (rw (ne→== id spool_recent other, ge→ltb id spool_max outside))
      | inr lt ↦ elim (v.slot_ok id lt) [
        | inl empty ↦
            nothing (λ ne. inr (v.absent id lt empty))
              (rw (
                ne→== id spool_recent other,
                lt→ltb id spool_max lt,
                eq→== (s.slots id) null empty,
              ))
        | inr k ↦
            found id lt k (λ ne. refl, k.known)
              (rw (
                ne→== id spool_recent other,
                lt→ltb id spool_max lt,
                ne→== (s.slots id) null k.blocks.ne_null,
              ))
      ]
    ]
  ]

  pub aimed-IsSound : {i : ℕ} → i < spool_max → Kept m s owner i → IsSound m (aimed s i) owner js
  aimed-IsSound {i} lt k = record {
    unissued = v.unissued;
    queue = record { linked = v.queue.linked; tail = v.queue.tail; distinct = v.queue.distinct };
    listed = Listed-slots s (aimed s i) js refl v.listed;
    slot_ok = λ id id_lt. elim (v.slot_ok id id_lt) [
      | inl empty ↦ inl empty
      | inr k' ↦ inr (
          Kept-frame k' (aimed s i) owner k'.content.qnext refl k'.blocks.here
            (λ p b ne owned e. (e, owned)))
    ];
    absent = v.absent;
    waiting = v.waiting;
    counted = v.counted;
    current = inr (i, lt, refl, k.blocks.ne_null);
  }

  -- JobRender on a store that stands for a finite map never faults: for a number without an entry it
  -- returns SPOOL_ERR, and the map is the same; else it returns what the entry's filter makes of the
  -- entry's document, and the store stands for the map without the entry.
  pub render-IsSound :
      (id out_cap : ℕ) → Returns (λ r. Rendered m owner id out_cap r.0 r.1) (render s id out_cap)
  unfolding render
  render-IsSound id out_cap = elim (resolve id) [
    | nothing gone e ↦ rw e ((s, none), refl, inl (gone, refl, (js, v)))
    | found i lt k names e ↦
        let x = k.content in
        let o = k.blocks in
        let (r, run, (_, sound)) = retire_job-IsSound (aimed-IsSound lt k) lt o.ne_null in
        let run' : retire (aimed s i) x.id ≡ ok r =
          subst (λ n. retire (aimed s i) n ≡ ok r) (sym k.numbered) run in
        let preview = run_filter x.filter (take x.len o.space) out_cap in
        rw
          (
            e,
            ne→== (s.slots i) null o.ne_null,
            job_at-live s.heap (s.slots i) x o.ne_null o.here,
            call_filter-Borrows o out_cap k.borrows,
            job_at-live s.heap (s.slots i) x o.ne_null o.here,
            run',
          )
          ((r.0, some preview), refl, inr (i, entry x o.space, names, refl, sound))
  ]

  -- JobStatus reads no job but the active one.
  pub status-ok : (verbose : Bool) → Returns (λ out. Unit {0}) (status s verbose)
  unfolding status
  status-ok false = (_, refl, tt)
  status-ok true = elim v.current [
    | inl idle ↦ rw idle (_, refl, tt)
    | inr (i, lt, at, ne) ↦ elim (v.slot_ok i lt) [
      | inl empty ↦ absurd (ne (sym at ∙ empty))
      | inr k ↦
          rw
            (
              ← at,
              ne→== _ _ k.blocks.ne_null,
              job_at-live s.heap _ k.content k.blocks.ne_null k.blocks.here,
            )
            (_, refl, tt)
    ]
  ]
