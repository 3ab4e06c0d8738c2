-- ===== src/Session/Safety.antt =====
-- The states in which no operation of the session store can go wrong by itself: the table is sound,
-- the cached recent session is in the table, and each captured pointer is a data block of a session
-- in the table. Here: what a handle resolves to, and the operations that write through it.
use bug_museum.Base.{
  ℕ, suc, ◌≤◌, ◌<◌, ◌≡◌, ◌≢◌, refl, ◌⊎◌, inl, inr, ◌∙◌, ap, sym, List, [], ◌∷◌, arith, length,
  eq→==, le_or_lt,
}
use native.Mathlib.Decide.{ℕ_discrete}
use bug_museum.Memory.Bytes.{Bytes}
use bug_museum.Memory.Heap.{Ptr, null, live, Heap}
use bug_museum.Session.Types.{Session, Object, session, Store, sess_max, sess_recent}
use bug_museum.Session.Store.{sess_get}
use bug_museum.Session.Invariant.{Owns, SlotOk, IsSound, Owns-apart, Owns-frame}
use bug_museum.Session.Writes.{Rewritten, Rewritten-Owns}

-- The session that the fast path keeps is one of the table, if there is one.
abbrev pub IsCurrent : (ℕ → Ptr) → Ptr → Type 0
IsCurrent slots recent =
    (recent ≡ null) ⊎ ((i : ℕ) × (i < sess_max) × (slots i ≡ recent) × (recent ≢ null))

-- A captured pointer leads to the data block of a session in the table, and the captured length
-- fits in it.
pub record Captured (h : Heap Object) (slots : ℕ → Ptr) (d len : ℕ) : Type 0 where
  pub slot : ℕ
  pub in_table : slot < sess_max
  pub present : slots slot ≢ null
  pub content : Session
  pub here : h.cell (slots slot) ≡ live (session content)
  pub aims : content.bytes ≡ d
  pub within : len ≤ content.cap

abbrev pub AllCaptured : Heap Object → (ℕ → Ptr) → List (Ptr × ℕ) → Type 0
AllCaptured h slots [] = Unit {0}
AllCaptured h slots ((d, len) ∷ rest) = Captured h slots d len × AllCaptured h slots rest

pub record IsSafe (s : Store) : Type 0 where
  pub sound : IsSound s
  pub current : IsCurrent s.slots s.recent
  pub captured : AllCaptured s.heap s.slots s.batch

-- Captured entries stay valid where the sessions and their slots stay.
module _ (h : Heap Object) {slots : ℕ → Ptr} (h' : Heap Object) (slots' : ℕ → Ptr)
    (keep : (j : ℕ) → slots j ≢ null → slots' j ≡ slots j)
    (same : (q : Ptr) (x : Session)
      → h.cell q ≡ live (session x)
      → h'.cell q ≡ live (session x)) where
  pub AllCaptured-frame :
      (batch : List (Ptr × ℕ)) → AllCaptured h slots batch → AllCaptured h' slots' batch
  AllCaptured-frame [] c = tt
  AllCaptured-frame ((d, len) ∷ rest) c = (
    record {
      slot = c.0.slot;
      in_table = c.0.in_table;
      present = ground (arith, keep c.0.slot c.0.present, c.0.present);
      content = c.0.content;
      here = rw (keep c.0.slot c.0.present) (same _ c.0.content c.0.here);
      aims = c.0.aims;
      within = c.0.within;
    },
    AllCaptured-frame rest c.1,
  )

-- What a handle resolves to: nothing, or a session in the table, which becomes the recent one.
pub data Resolved (s : Store) (v : IsSafe s) (id : ℕ) : Type 0 where
  nothing : sess_get s id ≡ (s, null) → Resolved s v id
  found :
      (i : ℕ)
      → i < sess_max
      → (o : Owns s.heap v.sound.owner i (s.slots i))
      → sess_get s id ≡ (record s { recent = s.slots i }, s.slots i)
      → Resolved s v id

pub resolve : (s : Store) (v : IsSafe s) (id : ℕ) → Resolved s v id
unfolding sess_get
resolve s v id = elim (ℕ_discrete id sess_recent) [
  | yes e ↦ elim v.current [
    | inl none ↦ nothing (ground arith)
    | inr (i, lt, same, ne) ↦ elim (v.sound.slot_ok i lt) [
      | inl e' ↦ absurd (ne (sym same ∙ e'))
      | inr o ↦ found i lt o (
          rw (eq→== id sess_recent e)
            (ap {B = Store × Ptr} (λ r. (record s { recent = r }, r)) (sym same)))
    ]
  ]
  | no ne ↦ elim (le_or_lt sess_max id) [
    | inl big ↦ nothing (ground arith)
    | inr lt ↦ elim (v.sound.slot_ok id lt) [
      | inl e ↦ nothing (ground arith)
      | inr o ↦ found id lt o (ground (arith, o.ne_null))
    ]
  ]
]

module _ {s : Store} (v : IsSound s) {i : ℕ} (lt : i < sess_max)
    (o : Owns s.heap v.owner i (s.slots i)) {h' : Heap Object} {x : Session} {b : Bytes}
    (r : Rewritten s.heap h' (s.slots i) x b) (e : x.id ≡ i) (d : x.bytes ≡ o.content.bytes)
    (size : length b ≡ x.cap) (fit : x.len ≤ x.cap) where
  slot-Rewritten : (j : ℕ) → j < sess_max → SlotOk h' v.owner j (s.slots j)
  slot-Rewritten j jlt = elim (ℕ_discrete j i) [
    | yes same ↦ rw same (inr (Rewritten-Owns o r e d size fit))
    | no ne ↦ elim (v.slot_ok j jlt) [
      | inl none ↦ inl none
      | inr o' ↦
          let (pp, bb, pb, bp) = Owns-apart o' o ne in
          inr (Owns-frame o' (r.same _ pp (ground arith)) (r.same _ bp (ground arith)) refl)
    ]
  ]

  pub Rewritten-IsSound :
      (recent : Ptr) (batch : List (Ptr × ℕ))
      → IsSound (record s { heap = h'; recent = recent; batch = batch })
  Rewritten-IsSound recent batch = record {
    owner = v.owner;
    unissued = λ q big. ground (arith, r.same q, r.issued, v.unissued q, o.here, o.bytes_here);
    slot_ok = slot-Rewritten;
    counted = v.counted;
  }

-- A captured entry stays valid when one slot is rewritten and its block does not shrink.
module _ {s : Store} (v : IsSound s) {i : ℕ} (lt : i < sess_max)
    (o : Owns s.heap v.owner i (s.slots i)) {h' : Heap Object} {x : Session} {b : Bytes}
    (r : Rewritten s.heap h' (s.slots i) x b) (e : x.id ≡ i) (d : x.bytes ≡ o.content.bytes)
    (size : length b ≡ x.cap) (fit : x.len ≤ x.cap) (grown : o.content.cap ≤ x.cap) where
  Captured-Rewritten : (p len : ℕ) → Captured s.heap s.slots p len → Captured h' s.slots p len
  Captured-Rewritten p len c = elim (ℕ_discrete (s.slots c.slot) (s.slots i)) [
    | yes same ↦ record {
      slot = i;
      in_table = lt;
      present = o.ne_null;
      content = x;
      here = r.session_here;
      aims = ground (arith, o.here, c.here, c.aims);
      within = ground (arith, o.here, c.here, c.within);
    }
    | no ne ↦ record {
      slot = c.slot;
      in_table = c.in_table;
      present = c.present;
      content = c.content;
      here = r.same _ ne (ground (arith, o.bytes_here, c.here)) ∙ c.here;
      aims = c.aims;
      within = c.within;
    }
  ]

  pub AllCaptured-Rewritten :
      (batch : List (Ptr × ℕ)) → AllCaptured s.heap s.slots batch → AllCaptured h' s.slots batch
  AllCaptured-Rewritten [] c = tt
  AllCaptured-Rewritten ((p, len) ∷ rest) c =
      (Captured-Rewritten p len c.0, AllCaptured-Rewritten rest c.1)

  -- A safe store stays safe, with the rewritten session as the recent one.
  pub Rewritten-IsSafe :
      AllCaptured s.heap s.slots s.batch → IsSafe (record s { heap = h'; recent = s.slots i })
  Rewritten-IsSafe c = record {
    sound = Rewritten-IsSound v lt o r e d size fit (s.slots i) s.batch;
    current = inr (i, lt, refl, o.ne_null);
    captured = AllCaptured-Rewritten s.batch c;
  }

-- The recent session may be set to any one of the table.
pub recent-IsSafe :
    {s : Store} (v : IsSafe s) (i : ℕ)
    → i < sess_max
    → s.slots i ≢ null
    → IsSafe (record s { recent = s.slots i })
recent-IsSafe v i lt ne = record {
  sound = record {
    owner = v.sound.owner;
    unissued = v.sound.unissued;
    slot_ok = v.sound.slot_ok;
    counted = v.sound.counted;
  };
  current = inr (i, lt, refl, ne);
  captured = v.captured;
}

abbrev asked : Heap Object → Heap Object
asked h = record h { requests = suc h.requests }

slot-asked :
    (h : Heap Object) (owner : Ptr → ℕ) (i : ℕ) (p : Ptr)
    → SlotOk h owner i p
    → SlotOk (asked h) owner i p
slot-asked h owner i p (inl empty) = inl empty
slot-asked h owner i p (inr o) = inr (Owns-frame o refl refl refl)

-- A request that the allocator refused changes nothing.
pub asked-IsSafe :
    {s : Store} (v : IsSafe s) (recent : Ptr)
    → IsCurrent s.slots recent
    → IsSafe (record s { heap = record s.heap { requests = suc s.heap.requests }; recent = recent })
asked-IsSafe {s} v recent now = record {
  sound = record {
    owner = v.sound.owner;
    unissued = λ q big. v.sound.unissued q (omega arith);
    slot_ok = λ i lt. slot-asked s.heap v.sound.owner i (s.slots i) (v.sound.slot_ok i lt);
    counted = v.sound.counted;
  };
  current = now;
  captured =
      AllCaptured-frame s.heap (asked s.heap) s.slots (λ j ne. refl) (λ q x e. e) s.batch
        v.captured;
}
