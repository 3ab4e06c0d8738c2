-- ===== src/Session/Tests.antt =====
-- Runs of the session store on small inputs, and its theorems at them.
use bug_museum.Base.{
  ℕ, ◌<◌, ◌≡◌, ◌≢◌, refl, Bool, true, false, some, List, [], ◌∷◌, ◌++◌, arith, tabulate_from,
}
use bug_museum.Memory.Fault.{Result, ok, fault, use_after_free, ◌>>=◌, Returns}
use bug_museum.Memory.Bytes.{Bytes, blit}
use bug_museum.Memory.Heap.{
  live, null, unmapped, Heap, deref, assign, free, malloc, resized, realloc,
}
use bug_museum.Text.{codes, decimal}
use bug_museum.Session.Types.{
  bytes, echo, calc, Object, Store, sess_max, sess_recent, session_at, bytes_at,
}
use bug_museum.Session.Handlers.{run_handler}
use bug_museum.Memory.Slots.{free_slot}
use bug_museum.Session.Store.{
  new, publish, open_data, open_at, sess_open, sess_get, use_run, overwrite, use_set, append_at,
  append_grow, append_need, append_to, use_append, free_session, close, stat, defer, flush_batch,
  flush,
}
use bug_museum.Session.Invariant.{Owns, IsSound}
use bug_museum.Session.Safety.{IsSafe}
use bug_museum.Session.Opens.{
  opened, opened_session, opened-Owns, opened-IsSafe, OpenResult, sess_open-IsSafe,
}
use bug_museum.Session.Closes.{close-IsSound, close_recent-faults, NotAimed}
use Prim.Native.Nat.{min}
use bug_museum.Wire.Request.{encode}
use bug_museum.Session.Batch.{AllWithin, EndsLike, AllWritten, flush-IsSafe}
use mathlib.Core.Path.{subst}
use bug_museum.Session.Moved.{use_append-moved}
use bug_museum.Session.Server.{Request, op_close, op_use_run, op_use_set}
use bug_museum.Session.Cached.{two_requests, two_requests-stale}
use bug_museum.Session.Steps.{
  Call, opens, sets, appends, closes, stats, flushes, defers, Allowed, AllAllowed, step, run,
  run-IsSafe, new-IsSafe,
}

abbrev fresh_heap : (ℕ → Bool) → Heap Object
fresh_heap moves = record {
  cell = λ _. unmapped;
  requests = 0;
  grants = λ _. true;
  moves = moves;
  junk = λ _ _. 7;
}

-- To unfold it is to unfold the whole store.
computing : Unit {0}
unfolding new free_slot publish open_data open_at sess_open sess_get use_run overwrite use_set
    append_at append_grow append_need append_to use_append free_session close stat defer flush_batch
    flush session_at bytes_at deref assign free malloc resized realloc blit run_handler decimal
computing = tt

start : (ℕ → Bool) → Store
unfolding new
start moves = new (fresh_heap moves)

calls : List Call
calls =
    opens 0 (some echo) (1 ∷ 2 ∷ [])
    ∷ sets sess_recent (5 ∷ 6 ∷ 7 ∷ [])
    ∷ appends 0 (8 ∷ [])
    ∷ stats true
    ∷ closes 3
    ∷ []

-- The last call of a run, on the recent session, after its close.
close_then_use :
    run (start (λ _. false)) (opens 0 (some calc) [] ∷ closes 0 ∷ sets sess_recent (1 ∷ []) ∷ [])
    ≡ fault use_after_free
unfolding computing start run step
close_then_use = refl

summary_test :
    (run (start (λ _. false)) calls >>= λ s. stat s true) ≡ ok (codes "sessions=1 recent=#0 len=4")
unfolding computing start run step calls
summary_test = refl

start-IsSafe : (moves : ℕ → Bool) → IsSafe (start moves)
unfolding start
start-IsSafe moves = new-IsSafe (fresh_heap moves) (λ q _. refl)

-- A store with one session of three bytes, in a block of 32.
abbrev one : (ℕ → Bool) → Store
one moves = opened (start moves) 0 0 echo (1 ∷ 2 ∷ 3 ∷ [])

one-IsSafe : (moves : ℕ → Bool) → IsSafe (one moves)
unfolding start
one-IsSafe moves = opened-IsSafe (start-IsSafe moves) 0 0 echo (1 ∷ 2 ∷ 3 ∷ []) (omega arith) refl

one-Owns : (moves : ℕ → Bool) → Owns (one moves).heap (one-IsSafe moves).sound.owner 0 1
unfolding start one-IsSafe opened-IsSafe
one-Owns moves = opened-Owns (start-IsSafe moves) 0 0 echo (1 ∷ 2 ∷ 3 ∷ []) (omega arith) refl

-- Two sessions are opened, the second is captured, the first is closed, and the second is appended to
-- and flushed.
-- `store_k` is what the first k calls leave.
abbrev left_by : Result Store → Store
left_by (ok s) = s
left_by (fault e) = start (λ _. false)

abbrev store_1 : Store
store_1 = left_by (step (start (λ _. false)) (opens 0 (some echo) (1 ∷ 2 ∷ [])))

abbrev store_2 : Store
store_2 = left_by (step store_1 (opens 1 (some calc) (3 ∷ [])))

abbrev store_3 : Store
store_3 = left_by (step store_2 (defers sess_recent))

abbrev store_4 : Store
store_4 = left_by (step store_3 (closes 0))

abbrev store_5 : Store
store_5 = left_by (step store_4 (appends 1 (8 ∷ 9 ∷ [])))

session_calls : List Call
session_calls =
    opens 0 (some echo) (1 ∷ 2 ∷ [])
    ∷ opens 1 (some calc) (3 ∷ [])
    ∷ defers sess_recent
    ∷ closes 0
    ∷ appends 1 (8 ∷ 9 ∷ [])
    ∷ flushes (5 ∷ [])
    ∷ []

then_allowed :
    (s : Store) (c : Call) (cs : List Call) (t : Store)
    → step s c ≡ ok t
    → AllAllowed t cs
    → (t' : Store) → step s c ≡ ok t'
    → AllAllowed t' cs
then_allowed s c cs t run may t' run' =
    let same : t ≡ t' = cc (run, run') in subst (λ u. AllAllowed u cs) same may

close_0-Allowed : Allowed store_3 (closes 0)
unfolding computing start step
close_0-Allowed x e = ground (arith, e)

append_1-Allowed : Allowed store_4 (appends 1 (8 ∷ 9 ∷ []))
unfolding computing start step
append_1-Allowed x e = ground (arith, e)

session_calls-AllAllowed : AllAllowed (start (λ _. false)) session_calls
unfolding computing start step session_calls
session_calls-AllAllowed =
    let last_calls : List Call = flushes (5 ∷ []) ∷ [] in
    let calls_5 : List Call = appends 1 (8 ∷ 9 ∷ []) ∷ last_calls in
    let calls_4 : List Call = closes 0 ∷ calls_5 in
    let calls_3 : List Call = defers sess_recent ∷ calls_4 in
    (
      tt,
      then_allowed (start (λ _. false)) (opens 0 (some echo) (1 ∷ 2 ∷ []))
          (opens 1 (some calc) (3 ∷ []) ∷ calls_3) store_1 refl
          (
            tt,
            then_allowed store_1 (opens 1 (some calc) (3 ∷ [])) calls_3 store_2 refl (
              tt,
              then_allowed store_2 (defers sess_recent) calls_4 store_3 refl (
                close_0-Allowed,
                then_allowed store_3 (closes 0) calls_5 store_4 refl (
                  append_1-Allowed,
                  then_allowed store_4 (appends 1 (8 ∷ 9 ∷ [])) last_calls store_5 refl
                      (tt, λ t e. tt),
                ),
              ),
            ),
          ),
    )

run-IsSafe_example : Returns IsSafe (run (start (λ _. false)) session_calls)
unfolding session_calls
run-IsSafe_example = run-IsSafe session_calls (start-IsSafe (λ _. false)) session_calls-AllAllowed

sess_open-IsSafe_example :
    Returns
      (λ (s', r). IsSafe s' × OpenResult (one (λ _. false)) 1 calc (9 ∷ []) s' r)
      (sess_open (one (λ _. false)) 1 (some calc) (9 ∷ []))
sess_open-IsSafe_example = sess_open-IsSafe (one-IsSafe (λ _. false)) 1 calc (9 ∷ [])

close-IsSound_example :
    Returns
      (λ (s', done).
        IsSound s'
        × (0 < sess_max → s'.slots 0 ≡ null)
        × ((j : ℕ) → j ≢ 0 → s'.slots j ≡ (one (λ _. true)).slots j))
      (close (one (λ _. true)) 0)
close-IsSound_example = close-IsSound (one-IsSafe (λ _. true)).sound 0

close_recent-faults_example :
    (close (one (λ _. false)) 0 >>= λ r. use_set r.0 sess_recent (4 ∷ [])) ≡ fault use_after_free
unfolding one-Owns opened-Owns
close_recent-faults_example =
    (close_recent-faults (one-IsSafe (λ _. false)) 0 (omega arith) (one-Owns (λ _. false)) refl
      (4 ∷ []) 256).1

-- The store with its session captured for a deferred write.
abbrev captured_one : Store
captured_one = record (one (λ _. true)) { batch = (2, 3) ∷ [] }

captured_one-IsSafe : IsSafe captured_one
unfolding start
captured_one-IsSafe =
    let v = one-IsSafe (λ _. true) in
    record {
      sound = record {
        owner = v.sound.owner;
        unissued = v.sound.unissued;
        slot_ok = v.sound.slot_ok;
        counted = v.sound.counted;
      };
      current = v.current;
      captured = (
        record {
          slot = 0;
          in_table = omega arith;
          present = omega arith;
          content = opened_session (start (λ _. true)) 0 0 echo (1 ∷ 2 ∷ 3 ∷ []);
          here = refl;
          aims = refl;
          within = omega arith;
        },
        tt,
      );
    }

flush-IsSafe_example :
    Returns
      (λ s'.
        IsSafe s'
        × (s'.batch ≡ [])
        × AllWritten s'.heap (9 ∷ []) ((2, 3) ∷ [])
        × ((q m : ℕ) (b : Bytes)
            → AllWithin m q ((2, 3) ∷ [])
            → captured_one.heap.cell q ≡ live (bytes b)
            → EndsLike s'.heap q m b)
        × ((q : ℕ) → NotAimed q ((2, 3) ∷ []) → s'.heap.cell q ≡ captured_one.heap.cell q)
        × (s'.slots ≡ captured_one.slots)
        × (s'.count ≡ captured_one.count)
        × (s'.recent ≡ captured_one.recent))
      (flush captured_one (9 ∷ []))
flush-IsSafe_example = flush-IsSafe captured_one-IsSafe (9 ∷ [])

use_append-moved_example :
    use_append (one (λ _. true)) 0 (tabulate_from 0 40 (λ i. i)) ≡ fault use_after_free
unfolding one-Owns opened-Owns
use_append-moved_example =
    use_append-moved (one-IsSafe (λ _. true)).sound 0 (omega arith) (one-Owns (λ _. true))
      (tabulate_from 0 40 (λ i. i)) (omega arith) (omega arith) refl refl

abbrev close_it : Request
close_it = record { flags = 0; handle = 0 }

abbrev use_recent : Request
use_recent = record { flags = 0; handle = sess_recent }

two_requests-stale_example :
    (two_requests
        (λ _. some echo)
        (one (λ _. true))
        ((one (λ _. true)).slots 0)
        op_close
        close_it
        []
        op_use_run
        use_recent
        (4 ∷ [])
      ≡ fault use_after_free)
    × (two_requests
          (λ _. some echo)
          (one (λ _. true))
          ((one (λ _. true)).slots 0)
          op_close
          close_it
          []
          op_use_set
          use_recent
          (4 ∷ [])
        ≡ fault use_after_free)
unfolding one-Owns opened-Owns
two_requests-stale_example =
    two_requests-stale (one-IsSafe (λ _. true)).sound 0 (omega arith) (one-Owns (λ _. true))
      (λ _. some echo) close_it use_recent [] (4 ∷ []) refl refl

-- A connection that hands over one byte at a time.
abbrev bytewise : ℕ → ℕ → ℕ
bytewise want avail = min 1 (min want avail)

-- CLOSE of the session 0 and a run on the handle 0xFFFF, and the start of another request.
abbrev close_and_run : Bytes
close_and_run =
    encode (
      record { op = 4; flags = 0; target = 0; arg = [] }
      ∷ record { op = 1; flags = 0; target = sess_recent; arg = 4 ∷ [] }
      ∷ [])
    ++ 2 ∷ 0 ∷ []
