-- ===== src/Session/Moved.antt =====
-- The appends that go wrong: SessUseAppend writes through the pointer from before realloc, and adds
-- two 32-bit lengths.
use bug_museum.Base.{ℕ, ◌+◌, ◌%◌, ◌≤◌, ◌<◌, ◌^◌, ◌≡◌, true, arith, length, ne→==, ge→ltb}
use bug_museum.Memory.Fault.{fault, use_after_free, overflow}
use bug_museum.Memory.Bytes.{Bytes, blit-overflow}
use bug_museum.Session.Types.{Store, sess_max}
use bug_museum.Session.Store.{sess_get, use_append, append_to, append_need, append_at}
use bug_museum.Session.Invariant.{Owns, IsSound, session_at-ok, bytes_at-ok}
use bug_museum.Session.Writes.{append_to-moved}

module _ {s : Store} (v : IsSound s) (id : ℕ) (lt : id < sess_max)
    (o : Owns s.heap v.owner id (s.slots id)) (arg : Bytes) where
  get_slot : sess_get s id ≡ (record s { recent = s.slots id }, s.slots id)
  unfolding sess_get
  get_slot = ground (arith, o.ne_null)

  -- In a sound store, an append to a handle in use is a use after free whenever the sum of the two
  -- lengths fits 32 bits and exceeds the capacity, and realloc grants a block and moves it.
  pub use_append-moved :
      o.content.len + length arg < 2 ^ 32
      → o.content.cap < o.content.len + length arg
      → s.heap.grants s.heap.requests ≡ true
      → s.heap.moves s.heap.requests ≡ true
      → use_append s id arg ≡ fault use_after_free
  unfolding use_append
  use_append-moved small grows granted moved = rw (
    get_slot,
    ne→== _ _ o.ne_null,
    append_to-moved o arg small grows (v.unissued _ (omega arith)) granted moved,
  )

  -- One whose length wraps around to at most the capacity passes the test, and runs over the block.
  pub use_append-wrapped :
      2 ^ 32 ≤ o.content.len + length arg
      → (o.content.len + length arg) % 2 ^ 32 ≤ o.content.cap
      → o.content.cap < 2 ^ 32
      → use_append s id arg ≡ fault overflow
  unfolding use_append append_to append_need append_at
  use_append-wrapped wraps passes small = rw (
    get_slot,
    ne→== _ _ o.ne_null,
    session_at-ok o,
    ge→ltb _ _ passes,
    bytes_at-ok o,
    blit-overflow o.space o.content.len arg (omega (arith, o.sized)),
  )
