-- ===== src/Session/Opens.antt =====
-- SessOpen: the slot that it takes, and the two blocks of a new session.
use bug_museum.Base.{
  ℕ, suc, ◌+◌, ◌≤◌, ◌<◌, ◌≡◌, ◌≢◌, refl, inl, inr, ◌∙◌, ap, sym, true, false, Option, none, some,
  arith, ◌==◌, if◌then◌else◌, length, take, length-tabulate_from, take-length-append, ne→==, eq→==,
  Bool-cases, Option-cases,
}
use native.Mathlib.Decide.{ℕ_discrete}
use bug_museum.Memory.Fault.{ok, Returns}
use bug_museum.Memory.Bytes.{Bytes, blit-ok, splice, length-splice}
use bug_museum.Memory.Slots.{free_slot, set_slot, free_slot-some}
use bug_museum.Memory.Heap.{
  deref, Ptr, null, released, live, Heap, malloc, fresh_bytes, put, malloc-granted, malloc-refused,
  assign-live, free-live,
}
use bug_museum.Session.Types.{
  Handler, Session, Object, session, bytes, Store, sess_max, sess_max_data, session_at, bytes_at,
}
use bug_museum.Session.Store.{capacity, blank, publish, open_data, open_at, sess_open}
use bug_museum.Memory.Slots.{used-fill}
use bug_museum.Session.Invariant.{Owns, SlotOk, Owns-frame, le_of_live}
use bug_museum.Session.Safety.{AllCaptured, AllCaptured-frame, IsSafe, asked-IsSafe}

module _ (s : Store) (id kind : ℕ) (f : Handler) (init : Bytes) where
  -- The addresses of the two blocks, if they are granted.
  abbrev pub first : Ptr
  first = suc s.heap.requests

  abbrev pub second : Ptr
  second = suc (suc s.heap.requests)

  abbrev pub opened_session : Session
  opened_session = record {
    id = id;
    kind = kind;
    handler = f;
    bytes = second;
    len = length init;
    cap = capacity (length init);
  }

  abbrev pub space : Bytes
  space = fresh_bytes (record s.heap { requests = first }) (capacity (length init))

  abbrev pub opened_bytes : Bytes
  opened_bytes = splice space 0 init

  -- The store after a SessOpen that got both blocks.
  abbrev pub opened : Store
  opened = record s {
    heap = record s.heap {
      cell =
          put
            (put
              (put (put s.heap.cell first (live (session (blank f)))) second (live (bytes space)))
              second (live (bytes opened_bytes)))
            first (live (session opened_session));
      requests = second;
    };
    slots = set_slot s.slots id first;
    count = s.count + 1;
    recent = first;
  }

  -- The store after one that got the session block alone.
  abbrev pub given_back : Store
  given_back = record s {
    heap = record s.heap {
      cell = put (put s.heap.cell first (live (session (blank f)))) first released;
      requests = second;
    };
  }

  pub length-space : length space ≡ capacity (length init)
  length-space = length-tabulate_from 0 (capacity (length init)) (s.heap.junk first)

  pub capacity-ge : length init ≤ capacity (length init)
  capacity-ge = ground arith

  pub open_at-opened :
      s.heap.grants s.heap.requests ≡ true
      → s.heap.grants first ≡ true
      → open_at s id kind f init ≡ ok (opened, some id)
  unfolding open_at open_data publish
  open_at-opened g g' =
      let h = record s.heap {
        cell = put s.heap.cell first (live (session (blank f)));
        requests = first;
      } in
      let h' = record h { cell = put h.cell second (live (bytes space)); requests = second } in
      let h'' = record h' { cell = put h'.cell second (live (bytes opened_bytes)) } in
      rw (
        malloc-granted s.heap (session (blank f)) g,
        malloc-granted h (bytes space) g',
        blit-ok space 0 init (omega (arith, length-space, capacity-ge)),
        assign-live h' second (omega arith) {a = bytes space} (bytes opened_bytes) (ground arith),
        assign-live h'' first (omega arith) {a = session (blank f)} (session opened_session)
            (ground arith),
        ne→== first null (omega arith),
        ne→== second null (omega arith),
      )

  pub open_at-first_refused :
      s.heap.grants s.heap.requests ≡ false
      → open_at s id kind f init ≡ ok (record s { heap = record s.heap { requests = first } }, none)
  unfolding open_at malloc
  open_at-first_refused g = rw g

  -- The session block is given back when the data block cannot be had.
  pub open_at-second_refused :
      s.heap.grants s.heap.requests ≡ true
      → s.heap.grants first ≡ false
      → open_at s id kind f init ≡ ok (given_back, none)
  unfolding open_at open_data
  open_at-second_refused g g' =
      let h = record s.heap {
        cell = put s.heap.cell first (live (session (blank f)));
        requests = first;
      } in
      let h' = record h { requests = second } in
      rw (
        malloc-granted s.heap (session (blank f)) g,
        malloc-refused h (bytes space) g',
        free-live h' first (omega arith) {a = session (blank f)} (ground arith),
        ne→== first null (omega arith),
      )

-- A new session takes an empty slot of a safe store, which stays safe.
module _ {s : Store} (v : IsSafe s) (id kind : ℕ) (f : Handler) (init : Bytes) (lt : id < sess_max)
    (empty : s.slots id ≡ null) where
  abbrev pub owner' : Ptr → ℕ
  owner' q = if q == second s id kind f init then id else v.sound.owner q

  module _ (h' : Heap Object)
      (same : (q : Ptr) → q ≤ s.heap.requests → h'.cell q ≡ s.heap.cell q) where
    pub Owns-new : (j : ℕ) (p : Ptr) → Owns s.heap v.sound.owner j p → Owns h' owner' j p
    Owns-new j p o =
        let in_heap = le_of_live v.sound o.content.bytes o.bytes_here in
        Owns-frame o (same p (le_of_live v.sound p o.here)) (same o.content.bytes in_heap)
          (ground (arith, in_heap))

    pub slot-new : (j : ℕ) → j < sess_max → SlotOk h' owner' j (s.slots j)
    slot-new j jlt = elim (v.sound.slot_ok j jlt) [
      | inl empty' ↦ inl empty'
      | inr o ↦ inr (Owns-new j (s.slots j) o)
    ]

    pub AllCaptured-new :
        (slots : ℕ → Ptr)
        → ((j : ℕ) → s.slots j ≢ null → slots j ≡ s.slots j)
        → AllCaptured h' slots s.batch
    AllCaptured-new slots keep =
        AllCaptured-frame s.heap h' slots keep (λ q x e. same q (le_of_live v.sound q e) ∙ e)
          s.batch v.captured

  unfoldable pub opened-Owns :
      Owns (opened s id kind f init).heap owner' id (first s id kind f init)
  opened-Owns = record {
    content = opened_session s id kind f init;
    space = opened_bytes s id kind f init;
    ne_null = omega arith;
    here = ground arith;
    numbered = refl;
    bytes_ne_null = omega arith;
    bytes_here = ground arith;
    sized =
        let room : length init ≤ length (space s id kind f init) =
          omega (arith, length-space s id kind f init, capacity-ge s id kind f init) in
        length-splice (space s id kind f init) 0 init (omega arith) ∙ length-space s id kind f init;
    fits = capacity-ge s id kind f init;
    owned = ground arith;
  }

  pub slot-opened :
      (j : ℕ)
      → j < sess_max
      → SlotOk (opened s id kind f init).heap owner' j ((opened s id kind f init).slots j)
  slot-opened j jlt = elim (ℕ_discrete j id) [
    | yes same ↦ rw (same, eq→== id id refl) (inr opened-Owns)
    | no other ↦
        rw (ne→== j id other) (slot-new (opened s id kind f init).heap (λ q le. ground arith) j jlt)
  ]

  unfoldable pub opened-IsSafe : IsSafe (opened s id kind f init)
  unfolding slot-opened AllCaptured-new
  opened-IsSafe = record {
    sound = record {
      owner = owner';
      unissued = λ q big. ground (arith, v.sound.unissued q);
      slot_ok = slot-opened;
      counted =
          ap (λ n. n + 1) v.sound.counted
          ∙ sym (used-fill sess_max id s.slots (first s id kind f init) lt empty (omega arith));
    };
    current = inr (id, lt, ground arith, omega arith);
    captured = AllCaptured-new _ (λ q le. ground arith) _ (λ j used. ground arith);
  }

  pub given_back-IsSafe : IsSafe (given_back s id kind f init)
  given_back-IsSafe = record {
    sound = record {
      owner = owner';
      unissued = λ q big. ground (arith, v.sound.unissued q);
      slot_ok = slot-new _ (λ q le. ground arith);
      counted = v.sound.counted;
    };
    current = v.current;
    captured = AllCaptured-new _ (λ q le. ground arith) _ (λ j used. refl);
  }

-- The slot `id` holds a session of this kind and handler whose bytes in use are `init`.
pub record Holds (s : Store) (id kind : ℕ) (f : Handler) (init : Bytes) : Type 0 where
  pub content : Session
  pub space : Bytes
  pub here : session_at s.heap (s.slots id) ≡ ok content
  pub numbered : content.id ≡ id
  pub of_kind : content.kind ≡ kind
  pub handled : content.handler ≡ f
  pub bytes_here : bytes_at s.heap content.bytes ≡ ok space
  pub in_use : take content.len space ≡ init

-- What SessOpen promises: the slot was empty and now holds the session, or no slot has changed.
abbrev pub OpenResult : Store → ℕ → Handler → Bytes → Store → Option ℕ → Type 0
OpenResult s kind f init s' none = (j : ℕ) → s'.slots j ≡ s.slots j
OpenResult s kind f init s' (some id) =
    (s.slots id ≡ null) × Holds s' id kind f init × ((j : ℕ) → j ≢ id → s'.slots j ≡ s.slots j)

opened-Holds :
    (s : Store) (id kind : ℕ) (f : Handler) (init : Bytes)
    → Holds (opened s id kind f init) id kind f init
unfolding session_at bytes_at deref
opened-Holds s id kind f init = record {
  content = opened_session s id kind f init;
  space = opened_bytes s id kind f init;
  here = ground arith;
  numbered = refl;
  of_kind = refl;
  handled = refl;
  bytes_here = ground arith;
  in_use = take-length-append init _;
}

pub open_at-IsSafe :
    {s : Store} (v : IsSafe s) (id kind : ℕ) (f : Handler) (init : Bytes)
    → id < sess_max
    → s.slots id ≡ null
    → Returns (λ (s', r). IsSafe s' × OpenResult s kind f init s' r) (open_at s id kind f init)
open_at-IsSafe {s} v id kind f init lt empty = elim (Bool-cases (s.heap.grants s.heap.requests)) [
  | inr g ↦
      (_, open_at-first_refused s id kind f init g, (asked-IsSafe v s.recent v.current, λ j. refl))
  | inl g ↦ elim (Bool-cases (s.heap.grants (suc s.heap.requests))) [
    | inr g' ↦ (
      _,
      open_at-second_refused s id kind f init g g',
      (given_back-IsSafe v id kind f init lt empty, λ j. refl),
    )
    | inl g' ↦ (
      _,
      open_at-opened s id kind f init g g',
      (
        opened-IsSafe v id kind f init lt empty,
        (empty, opened-Holds s id kind f init, λ j ne. ground arith),
      ),
    )
  ]
]

-- SessOpen on a safe store never faults, and leaves a safe store in which either nothing is linked,
-- or a slot that was empty holds the new session with the initial bytes, cut at SESS_MAX_DATA.
pub sess_open-IsSafe :
    {s : Store} (v : IsSafe s) (kind : ℕ) (f : Handler) (init : Bytes)
    → Returns
        (λ (s', r). IsSafe s' × OpenResult s kind f (take sess_max_data init) s' r)
        (sess_open s kind (some f) init)
unfolding sess_open
sess_open-IsSafe {s} v kind f init = elim (Option-cases (free_slot sess_max 0 s.slots)) [
  | inl full ↦ rw (full, sess_open) ((s, none), refl, (v, λ j. refl))
  | inr (id, e) ↦
      let (lo, hi, empty, below) = free_slot-some sess_max 0 s.slots {k = id} e in
      rw (e, sess_open) (open_at-IsSafe v id kind f (take sess_max_data init) (omega arith) empty)
]
