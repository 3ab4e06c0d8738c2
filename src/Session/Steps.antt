-- ===== src/Session/Steps.antt =====
-- Sequences of operations on the session store: which are allowed in a safe store, and that no
-- sequence of allowed ones faults.
use bug_museum.Base.{
  ℕ, ◌+◌, ◌≤◌, ◌<◌, ◌^◌, ◌≡◌, ◌≢◌, refl, ◌⊎◌, inl, inr, ◌∙◌, sym, Bool, true, false, Option, none,
  some, List, [], ◌∷◌, length, ne→==, le_or_lt,
}
use bug_museum.Memory.Fault.{Result, ok, ◌>>=◌, Returns}
use bug_museum.Memory.Bytes.{Bytes}
use bug_museum.Memory.Heap.{Ptr, unmapped, Heap}
use bug_museum.Session.Types.{Handler, Session, Object, Store, sess_max, session_at}
use bug_museum.Session.Store.{
  new, sess_open, sess_get, use_run, use_set, use_append, close, stat, defer, flush,
}
use bug_museum.Memory.Slots.{used}
use bug_museum.Session.Invariant.{session_at-ok}
use bug_museum.Session.Safety.{IsSafe, nothing, found, resolve, recent-IsSafe}
use bug_museum.Session.Uses.{use_set-IsSafe, use_append-IsSafe}
use bug_museum.Session.Opens.{sess_open-IsSafe}
use bug_museum.Session.Closes.{close-closed, close-outside, close-empty, closed-IsSafe, NotAimed}
use bug_museum.Session.Batch.{defer-IsSafe, flush-IsSafe}

-- The calls that the frontends make.
pub data Call : Type 0 where
  opens : ℕ → Option Handler → Bytes → Call
  runs sets appends : ℕ → Bytes → Call
  closes defers : ℕ → Call
  stats : Bool → Call
  flushes : Bytes → Call

-- The store after a call; what it returns and prints is dropped.
unfoldable pub step : Store → Call → Result Store
step s (opens kind f init) = sess_open s kind f init >>= λ r. ok r.0
step s (runs id arg) = use_run s id arg 256 >>= λ r. ok r.0
step s (sets id arg) = use_set s id arg >>= λ r. ok r.0
step s (appends id arg) = use_append s id arg >>= λ r. ok r.0
step s (closes id) = close s id >>= λ r. ok r.0
step s (defers id) = defer s id
step s (stats verbose) = stat s verbose >>= λ _. ok s
step s (flushes arg) = flush s arg

-- A session may be closed when neither the fast path nor the batch leads to it, and an append must
-- not move its block or wrap its length. All other calls are allowed.
abbrev pub Allowed : Store → Call → Type 0
Allowed s (closes id) =
    (x : Session)
    → session_at s.heap (s.slots id) ≡ ok x
    → (s.recent ≢ s.slots id) × NotAimed x.bytes s.batch
Allowed s (appends id arg) =
    (x : Session)
    → session_at (sess_get s id).0.heap (sess_get s id).1 ≡ ok x
    → (x.len + length arg < 2 ^ 32)
      × ((x.len + length arg ≤ x.cap)
          ⊎ ((s.heap.grants s.heap.requests ≡ false) ⊎ (s.heap.moves s.heap.requests ≡ false)))
Allowed s _ = Unit {0}

sess_open-none : (s : Store) (kind : ℕ) (init : Bytes) → sess_open s kind none init ≡ ok (s, none)
unfolding sess_open
sess_open-none s kind init = refl

module _ {s : Store} (v : IsSafe s) where
  pub use_run-IsSafe :
      (id : ℕ) (arg : Bytes) (out_cap : ℕ)
      → Returns (λ (s', out). IsSafe s') (use_run s id arg out_cap)
  unfolding use_run
  use_run-IsSafe id arg out_cap = elim (resolve s v id) [
    | nothing e ↦ rw e ((s, none), refl, v)
    | found i lt o e ↦
        rw (e, ne→== _ _ o.ne_null, session_at-ok o) (_, refl, recent-IsSafe v i lt o.ne_null)
  ]

  close-IsSafe : (id : ℕ) → Allowed s (closes id) → Returns (λ (s', done). IsSafe s') (close s id)
  close-IsSafe id may = elim (le_or_lt sess_max id) [
    | inl big ↦ (_, close-outside s id big, v)
    | inr lt ↦ elim (v.sound.slot_ok id lt) [
      | inl empty ↦ (_, close-empty s id empty, v)
      | inr o ↦
          let (not_recent, apart) = may o.content (session_at-ok o) in
          (_, close-closed s id o lt, closed-IsSafe v id lt o not_recent apart)
    ]
  ]

  -- SessStat reads the recent session only, which is live in a safe store.
  stat-ok : (verbose : Bool) → Returns (λ out. Unit {0}) (stat s verbose)
  unfolding stat
  stat-ok false = (_, refl, tt)
  stat-ok true = elim v.current [
    | inl idle ↦ rw idle (_, refl, tt)
    | inr (i, lt, e, ne) ↦ elim (v.sound.slot_ok i lt) [
      | inl empty ↦ absurd (ne (sym e ∙ empty))
      | inr o ↦ rw (← e, ne→== _ _ o.ne_null, session_at-ok o) (_, refl, tt)
    ]
  ]

  -- An allowed call on a safe store runs to its end and leaves a safe store.
  pub step-IsSafe : (c : Call) → Allowed s c → Returns IsSafe (step s c)
  unfolding step
  step-IsSafe (opens kind none init) may = rw (sess_open-none s kind init) (s, refl, v)
  step-IsSafe (opens kind (some f) init) may =
      let (r, run, w) = sess_open-IsSafe v kind f init in rw run (_, refl, w.0)
  step-IsSafe (runs id arg) may = let (r, run, w) = use_run-IsSafe id arg 256 in rw run (_, refl, w)
  step-IsSafe (sets id arg) may = let (r, run, w) = use_set-IsSafe v id arg in rw run (_, refl, w)
  step-IsSafe (appends id arg) may =
      let (r, run, w) = use_append-IsSafe v id arg may in rw run (_, refl, w)
  step-IsSafe (closes id) may = let (r, run, w) = close-IsSafe id may in rw run (_, refl, w)
  step-IsSafe (defers id) may = defer-IsSafe v id
  step-IsSafe (stats verbose) may = let (out, run, _) = stat-ok verbose in rw run (s, refl, v)
  step-IsSafe (flushes arg) may = let (s', run, w) = flush-IsSafe v arg in (s', run, w.0)

-- A sequence of calls, which ends at the first fault.
unfoldable pub run : Store → List Call → Result Store
run s [] = ok s
run s (c ∷ cs) = step s c >>= λ t. run t cs

-- Each call is allowed in the store that the calls before it have left.
abbrev pub AllAllowed : Store → List Call → Type 0
AllAllowed s [] = Unit {0}
AllAllowed s (c ∷ cs) = Allowed s c × ((t : Store) → step s c ≡ ok t → AllAllowed t cs)

-- From a safe store, a sequence of calls never faults and leaves a safe store, when no close is of a
-- session that the fast path or the batch leads to, and no append wraps its length or has its block
-- moved by realloc.
pub run-IsSafe :
    (cs : List Call) {s : Store} → IsSafe s → AllAllowed s cs → Returns IsSafe (run s cs)
unfolding run
run-IsSafe [] {s} v may = (s, refl, v)
run-IsSafe (c ∷ cs) v may =
    let (t, done, w) = step-IsSafe v c may.0 in rw done (run-IsSafe cs w (may.1 t done))

pub new-IsSafe :
    (h : Heap Object) → ((q : Ptr) → h.requests < q → h.cell q ≡ unmapped) → IsSafe (new h)
unfolding new used
new-IsSafe h fresh = record {
  sound = record { owner = λ q. 0; unissued = fresh; slot_ok = λ i lt. inl refl; counted = refl };
  current = inl refl;
  captured = tt;
}
