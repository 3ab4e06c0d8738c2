-- ===== src/Session/Uses.antt =====
-- Each operation of sesscore.c on a safe store: it runs to its end, and leaves a safe store.
use Prim.Native.Nat.{min}
use bug_museum.Base.{
  ℕ, ◌+◌, ◌≤◌, ◌<◌, ◌^◌, ◌≡◌, refl, ◌⊎◌, inl, inr, ◌∙◌, Bool, false, arith, length, take,
  length-take, ne→==, le_or_lt, Bool-cases,
}
use bug_museum.Memory.Fault.{ok, Returns}
use bug_museum.Memory.Bytes.{Bytes, length-splice}
use bug_museum.Memory.Heap.{regrown, Heap}
use bug_museum.Session.Types.{Session, Object, Store, sess_max, session_at}
use bug_museum.Session.Store.{sess_get, use_set, append_to, use_append}
use bug_museum.Session.Invariant.{Owns, session_at-ok}
use bug_museum.Session.Safety.{IsSafe, nothing, found, resolve, Rewritten-IsSafe, asked-IsSafe}
use bug_museum.Session.Writes.{
  overwrite-Rewritten, append_to-fits, append_to-refused, append_to-in_place, length-regrown,
}

module _ {s : Store} (v : IsSafe s) (id : ℕ) (arg : Bytes) where
  -- SessUseSet runs to its end on every handle, and leaves a safe store.
  pub use_set-IsSafe : Returns (λ (s', done). IsSafe s') (use_set s id arg)
  unfolding use_set
  use_set-IsSafe = elim (resolve s v id) [
    | nothing e ↦ rw e ((s, false), refl, v)
    | found i lt o e ↦
        let (h', run, r) = overwrite-Rewritten o arg in
        let n = min (length arg) o.content.cap in
        let size =
          length-splice o.space 0 (take n arg) (omega (arith, length-take n arg, o.sized)) in
        rw (e, ne→== _ _ o.ne_null, run)
          (
            _,
            refl,
            Rewritten-IsSafe v.sound lt o r o.numbered refl (size ∙ o.sized) (omega arith)
                (omega arith) v.captured,
          )
  ]

  -- What the allocator may do for an append through this handle: the length does not wrap, and the
  -- block has room, or cannot be had, or grows in place.
  abbrev pub MayAppend : Type 0
  MayAppend =
      (x : Session)
      → session_at (sess_get s id).0.heap (sess_get s id).1 ≡ ok x
      → (x.len + length arg < 2 ^ 32)
        × ((x.len + length arg ≤ x.cap)
            ⊎ ((s.heap.grants s.heap.requests ≡ false) ⊎ (s.heap.moves s.heap.requests ≡ false)))

  module _ (i : ℕ) (lt : i < sess_max) (o : Owns s.heap v.sound.owner i (s.slots i))
      (e : sess_get s id ≡ (record s { recent = s.slots i }, s.slots i)) where
    append_run :
        (h' : Heap Object) (done : Bool)
        → append_to s.heap (s.slots i) arg ≡ ok (h', done)
        → use_append s id arg ≡ ok (record s { recent = s.slots i; heap = h' }, done)
    unfolding use_append
    append_run h' done run = rw (e, ne→== _ _ o.ne_null, run)

    fits-IsSafe :
        o.content.len + length arg < 2 ^ 32
        → o.content.len + length arg ≤ o.content.cap
        → Returns (λ (s', done). IsSafe s') (use_append s id arg)
    fits-IsSafe small room =
        let ((h', done), run, (_, r)) = append_to-fits o arg small room in
        let size = length-splice o.space o.content.len arg (omega (arith, o.sized)) in
        (
          _,
          append_run h' done run,
          Rewritten-IsSafe v.sound lt o r o.numbered refl (size ∙ o.sized) room (omega arith)
              v.captured,
        )

    refused-IsSafe :
        o.content.len + length arg < 2 ^ 32
        → o.content.cap < o.content.len + length arg
        → s.heap.grants s.heap.requests ≡ false
        → Returns (λ (s', done). IsSafe s') (use_append s id arg)
    refused-IsSafe small grows refused = (
      _,
      append_run _ false (append_to-refused o arg small grows refused),
      asked-IsSafe v (s.slots i) (inr (i, lt, refl, o.ne_null)),
    )

    grows-IsSafe :
        o.content.len + length arg < 2 ^ 32
        → o.content.cap < o.content.len + length arg
        → (s.heap.grants s.heap.requests ≡ false) ⊎ (s.heap.moves s.heap.requests ≡ false)
        → Returns (λ (s', done). IsSafe s') (use_append s id arg)
    grows-IsSafe small grows (inl refused) = refused-IsSafe small grows refused
    grows-IsSafe small grows (inr stays) = elim (Bool-cases (s.heap.grants s.heap.requests)) [
      | inr refused ↦ refused-IsSafe small grows refused
      | inl granted ↦
          let ((h', done), run, (_, r)) = append_to-in_place o arg small grows granted stays in
          let size =
            length-splice (regrown s.heap o.space (o.content.len + length arg)) o.content.len arg
              (omega (arith, length-regrown o arg small grows)) in
          (
            _,
            append_run h' done run,
            Rewritten-IsSafe v.sound lt o r o.numbered refl
                (size ∙ length-regrown o arg small grows) (omega arith) (omega arith) v.captured,
          )
    ]

  pub use_append-IsSafe : MayAppend → Returns (λ (s', done). IsSafe s') (use_append s id arg)
  unfolding use_append
  use_append-IsSafe may = elim (resolve s v id) [
    | nothing e ↦ rw e ((s, false), refl, v)
    | found i lt o e ↦
        let (small, how) = may o.content (rw (e, session_at-ok o)) in
        elim (le_or_lt (o.content.len + length arg) o.content.cap) [
          | inl room ↦ fits-IsSafe i lt o e small room
          | inr grows ↦ elim how [
            | inl room ↦ fits-IsSafe i lt o e small room
            | inr how' ↦ grows-IsSafe i lt o e small grows how'
          ]
        ]
  ]
