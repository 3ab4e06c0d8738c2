-- ===== src/Session/Invariant.antt =====
-- What holds of the session store between calls: each used slot owns its session block and its data
-- block, and nothing else points to them.
use bug_museum.Base.{ℕ, ◌≤◌, ◌<◌, ◌≡◌, ◌≢◌, ◌∙◌, ◌⊎◌, arith, length}
use bug_museum.Memory.Fault.{ok}
use bug_museum.Memory.Bytes.{Bytes}
use bug_museum.Memory.Heap.{Ptr, null, unmapped, live, Heap}
use bug_museum.Memory.Slots.{used}
use bug_museum.Session.Types.{
  Session, Object, session, bytes, Store, sess_max, session_at, bytes_at,
}

-- The slot `i` holds `p`, a live session with a live data block of its own.
pub record Owns (h : Heap Object) (owner : Ptr → ℕ) (i : ℕ) (p : Ptr) : Type 0 where
  pub content : Session
  pub space : Bytes
  pub ne_null : p ≢ null
  pub here : h.cell p ≡ live (session content)
  pub numbered : content.id ≡ i
  pub bytes_ne_null : content.bytes ≢ null
  pub bytes_here : h.cell content.bytes ≡ live (bytes space)
  pub sized : length space ≡ content.cap
  pub fits : content.len ≤ content.cap
  pub owned : owner content.bytes ≡ i

abbrev pub SlotOk : Heap Object → (Ptr → ℕ) → ℕ → Ptr → Type 0
SlotOk h owner i p = (p ≡ null) ⊎ Owns h owner i p

pub record IsSound (s : Store) : Type 0 where
  pub owner : Ptr → ℕ
  pub unissued : (q : Ptr) → s.heap.requests < q → s.heap.cell q ≡ unmapped
  pub slot_ok : (i : ℕ) → i < sess_max → SlotOk s.heap owner i (s.slots i)
  pub counted : s.count ≡ used sess_max s.slots

pub session_at-ok :
    {h : Heap Object} {owner : Ptr → ℕ} {i : ℕ} {p : Ptr} (o : Owns h owner i p)
    → session_at h p ≡ ok o.content
unfolding session_at
session_at-ok o = ground (arith, o.here, o.ne_null)

pub bytes_at-ok :
    {h : Heap Object} {owner : Ptr → ℕ} {i : ℕ} {p : Ptr} (o : Owns h owner i p)
    → bytes_at h o.content.bytes ≡ ok o.space
unfolding bytes_at
bytes_at-ok o = ground (arith, o.bytes_here, o.bytes_ne_null)

-- A write to one slot's blocks leaves the others alone.
module _ {h : Heap Object} {owner : Ptr → ℕ} where
  -- Two slots share no block.
  pub Owns-apart :
      {i j : ℕ} {p q : Ptr} (o : Owns h owner i p) (o' : Owns h owner j q)
      → i ≢ j
      → (p ≢ q)
        × (o.content.bytes ≢ o'.content.bytes)
        × (p ≢ o'.content.bytes)
        × (o.content.bytes ≢ q)
  Owns-apart o o' ne = (
    ground (arith, o.here, o'.here, o.numbered, o'.numbered),
    ground (arith, o.owned, o'.owned),
    ground (arith, o.here, o'.bytes_here),
    ground (arith, o'.here, o.bytes_here),
  )

  -- Where the blocks of a slot are unchanged, so is the slot.
  unfoldable pub Owns-frame :
      {h' : Heap Object} {owner' : Ptr → ℕ} {i : ℕ} {p : Ptr} (o : Owns h owner i p)
      → h'.cell p ≡ h.cell p
      → h'.cell o.content.bytes ≡ h.cell o.content.bytes
      → owner' o.content.bytes ≡ owner o.content.bytes
      → Owns h' owner' i p
  Owns-frame o same same_bytes same_owner = record {
    content = o.content;
    space = o.space;
    ne_null = o.ne_null;
    here = same ∙ o.here;
    numbered = o.numbered;
    bytes_ne_null = o.bytes_ne_null;
    bytes_here = same_bytes ∙ o.bytes_here;
    sized = o.sized;
    fits = o.fits;
    owned = same_owner ∙ o.owned;
  }

-- A live block has an address that malloc has returned.
pub le_of_live :
    {s : Store} (v : IsSound s) (q : Ptr) {a : Object}
    → s.heap.cell q ≡ live a
    → q ≤ s.heap.requests
le_of_live v q e = ground (arith, v.unissued q)
