-- ===== src/Session/Closes.antt =====
-- SessClose: what it frees and clears, when the store stays safe, and what the pointers that it does
-- not clear lead to.
use bug_museum.Base.{
  ℕ, ◌-◌, ◌≤◌, ◌<◌, ◌≡◌, ◌≢◌, refl, inl, inr, ◌∙◌, ap, sym, true, false, List, [], ◌∷◌, arith, ◌==◌,
  length, lt→ltb, ge→ltb, gt→leb, ne→==, le_or_lt,
}
use native.Mathlib.Decide.{ℕ_discrete}
use bug_museum.Memory.Fault.{ok, fault, use_after_free, Returns, ◌>>=◌}
use bug_museum.Memory.Bytes.{Bytes}
use bug_museum.Memory.Heap.{Ptr, null, released, put, free-live, deref}
use bug_museum.Session.Types.{
  Session, session, bytes, Store, sess_max, sess_recent, session_at, defer_max,
}
use bug_museum.Memory.Slots.{set_slot}
use bug_museum.Session.Store.{
  free_session, close, sess_get, use_run, use_set, use_append, stat, defer, overwrite, append_to,
}
use bug_museum.Memory.Slots.{used-clear}
use bug_museum.Session.Invariant.{Owns, SlotOk, IsSound, Owns-frame, Owns-apart, session_at-ok}
use bug_museum.Session.Safety.{AllCaptured, IsSafe}

module _ (s : Store) (id : ℕ) where
  -- The store after the session `x` of the slot `id` has been closed.
  abbrev pub closed : Session → Store
  closed x = record s {
    heap = record s.heap { cell = put (put s.heap.cell x.bytes released) (s.slots id) released };
    slots = set_slot s.slots id null;
    count = s.count - 1;
  }

  pub close-closed :
      {owner : Ptr → ℕ} (o : Owns s.heap owner id (s.slots id))
      → id < sess_max
      → close s id ≡ ok (closed o.content, true)
  unfolding close free_session
  close-closed o lt =
      let d = o.content.bytes in
      let h = record s.heap { cell = put s.heap.cell d released } in
      rw (
        lt→ltb id sess_max lt,
        ne→== _ _ o.ne_null,
        session_at-ok o,
        free-live s.heap d o.bytes_ne_null {a = bytes o.space} o.bytes_here,
        free-live h (s.slots id) o.ne_null {a = session o.content}
            (ground (arith, o.here, o.bytes_here)),
      )

pub close-outside : (s : Store) (id : ℕ) → sess_max ≤ id → close s id ≡ ok (s, false)
unfolding close
close-outside s id big = rw (ge→ltb id sess_max big)

pub close-empty : (s : Store) (id : ℕ) → s.slots id ≡ null → close s id ≡ ok (s, false)
unfolding close
close-empty s id e = ground arith

module _ {s : Store} (v : IsSound s) (id : ℕ) (lt : id < sess_max)
    (o : Owns s.heap v.owner id (s.slots id)) where
  slot-closed :
      (j : ℕ)
      → j < sess_max
      → SlotOk (closed s id o.content).heap v.owner j ((closed s id o.content).slots j)
  slot-closed j jlt = elim (ℕ_discrete j id) [
    | yes same ↦ inl (ground arith)
    | no other ↦ elim (v.slot_ok j jlt) [
      | inl empty ↦ inl (ground arith)
      | inr o' ↦
          let (pp, bb, pb, bp) = Owns-apart o' o other in
          rw (ne→== j id other)
            (inr (Owns-frame o' (ground (arith, pp, pb)) (ground (arith, bb, bp)) refl))
    ]
  ]

  -- SessClose keeps the table sound, whatever the other pointers of the store lead to.
  pub closed-IsSound : IsSound (closed s id o.content)
  closed-IsSound = record {
    owner = v.owner;
    unissued = λ q big. ground (arith, v.unissued q, o.here, o.bytes_here);
    slot_ok = slot-closed;
    counted = omega (arith, v.counted, used-clear sess_max id s.slots lt o.ne_null);
  }

-- SessClose on a sound store ends on every handle without a fault, leaves a sound table with the
-- handle's slot empty, and changes no other slot.
pub close-IsSound :
    {s : Store} (v : IsSound s) (id : ℕ)
    → Returns
        (λ (s', done).
          IsSound s'
          × (id < sess_max → s'.slots id ≡ null)
          × ((j : ℕ) → j ≢ id → s'.slots j ≡ s.slots j))
        (close s id)
close-IsSound {s} v id = elim (le_or_lt sess_max id) [
  | inl big ↦ (_, close-outside s id big, (v, (λ lt. absurd (omega arith)), λ j ne. refl))
  | inr lt ↦ elim (v.slot_ok id lt) [
    | inl empty ↦ (_, close-empty s id empty, (v, (λ _. empty), λ j ne. refl))
    | inr o ↦ (
      _,
      close-closed s id o lt,
      (closed-IsSound v id lt o, (λ _. ground arith), λ j ne. ground arith),
    )
  ]
]

-- No captured pointer leads to the block `d`.
abbrev pub NotAimed : Ptr → List (Ptr × ℕ) → Type 0
NotAimed d [] = Unit {0}
NotAimed d ((p, len) ∷ rest) = (p ≢ d) × NotAimed d rest

module _ {s : Store} (v : IsSafe s) (id : ℕ) (lt : id < sess_max)
    (o : Owns s.heap v.sound.owner id (s.slots id)) where
  AllCaptured-closed :
      (batch : List (Ptr × ℕ))
      → NotAimed o.content.bytes batch
      → AllCaptured s.heap s.slots batch
      → AllCaptured (closed s id o.content).heap (closed s id o.content).slots batch
  AllCaptured-closed [] apart c = tt
  AllCaptured-closed ((d, len) ∷ rest) apart c =
      let other : s.slots c.0.slot ≢ s.slots id =
        ground (arith, c.0.here, o.here, c.0.aims, apart.0) in
      let slot' : c.0.slot ≢ id = λ e. other (ap s.slots e) in
      (
        record {
          slot = c.0.slot;
          in_table = c.0.in_table;
          present = rw (ne→== _ _ slot') c.0.present;
          content = c.0.content;
          here = rw (ne→== _ _ slot') (ground (arith, c.0.here, o.bytes_here));
          aims = c.0.aims;
          within = c.0.within;
        },
        AllCaptured-closed rest apart.1 c.1,
      )

  -- Where neither the fast path nor the batch leads to the session, closing it is safe.
  pub closed-IsSafe :
      s.recent ≢ s.slots id → NotAimed o.content.bytes s.batch → IsSafe (closed s id o.content)
  unfolding closed-IsSound
  closed-IsSafe not_recent apart = record {
    sound = closed-IsSound v.sound id lt o;
    current = elim v.current [
      | inl idle ↦ inl idle
      | inr (i, ilt, e, ne) ↦
          let other : i ≢ id = λ same. not_recent (sym e ∙ ap s.slots same) in
          inr (i, ilt, rw (ne→== i id other) e, ne)
    ];
    captured = AllCaptured-closed s.batch apart v.captured;
  }

  module _ (was_recent : s.recent ≡ s.slots id) where
    dangling : session_at (closed s id o.content).heap s.recent ≡ fault use_after_free
    unfolding session_at deref
    dangling = rw was_recent (ground (arith, o.ne_null))

    -- When the recent session of a safe store is closed, the fast path then leads to a released block:
    -- a run, a set and an append on the handle 0xFFFF, the verbose summary, and a deferred write on
    -- that handle while the batch has room, all use the block after its release.
    pub close_recent-faults :
        (arg : Bytes) (out_cap : ℕ)
        → ((close s id >>= λ r. use_run r.0 sess_recent arg out_cap) ≡ fault use_after_free)
          × ((close s id >>= λ r. use_set r.0 sess_recent arg) ≡ fault use_after_free)
          × ((close s id >>= λ r. use_append r.0 sess_recent arg) ≡ fault use_after_free)
          × ((close s id >>= λ r. stat r.0 true) ≡ fault use_after_free)
          × (length s.batch < defer_max
              → (close s id >>= λ r. defer r.0 sess_recent) ≡ fault use_after_free)
    unfolding use_run use_set use_append stat defer sess_get overwrite append_to
    close_recent-faults arg out_cap =
        let e = dangling in
        let e' : (s.recent == null) ≡ false = rw was_recent (ne→== _ _ o.ne_null) in
        let run = close-closed s id o lt in
        (
          rw (run, e', e),
          rw (run, e', e),
          rw (run, e', e),
          rw (run, e', e),
          λ room. rw (run, e', gt→leb _ _ room, e),
        )
