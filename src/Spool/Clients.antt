-- ===== src/Spool/Clients.antt =====
-- double-free/capstone/src/spoold/spoold.c: all requests of a connection to the spool server, against the
-- finite map that its job store stands for.
use bug_museum.Base.{
  ℕ, ◌≡◌, refl, Bool, true, false, Option, none, some, List, [], ◌∷◌, ◌++◌, arith,
}
use bug_museum.Memory.Fault.{Result, ok, Returns}
use bug_museum.Memory.Bytes.{Bytes}
use bug_museum.Wire.Read.{IsRecv}
use bug_museum.Wire.Request.{Header, header, encode}
use bug_museum.Wire.Request
use bug_museum.Wire.Serve.{run_calls, Admitted, serve-encode}
use bug_museum.Spool.Filters.{Filter, text, pdfish, raster}
use bug_museum.Spool.Types.{Store}
use bug_museum.Spool.Pump.{Borrows}
use bug_museum.Spool.Server.{
  Op, op_submit, op_render, op_append, op_cancel, op_status, op_recycle, op_dup, op_flush, op_of,
  filter_id, load_filters, filter_for, answer, serve, enc_max_arg,
}
use bug_museum.Spool.Calls.{
  Call, submits, renders, appends, retires, cancels, dups, recycles, stats, flushes, Allowed,
}
use bug_museum.Spool.View.{View}
use bug_museum.Spool.Fresh.{SoundFor}
use bug_museum.Spool.Refines.{Refines, Follows, step-Follows}
use bug_museum.Spool.Served.{call_for, call_of, maybe_step, answer-Replies}

-- The filters of the server borrow the document.
filter_for-Borrows :
    (loaded : ℕ → Bool) (id : ℕ) (g : Filter)
    → filter_for (load_filters loaded) id ≡ some g
    → Borrows g
unfolding filter_for load_filters
filter_for-Borrows loaded id pdfish e same = cc same
filter_for-Borrows loaded id raster e same = cc same
filter_for-Borrows loaded id text e same = ground (arith, e)

abbrev Borrowing : Option Call → Type 0
Borrowing (some (submits fmt f init)) = (g : Filter) → f ≡ some g → Borrows g
Borrowing _ = Unit {0}

-- What a request has to meet: the conditions on the calls of the store, but for the filter.
abbrev pub Careful : Store → Option Call → Type 0
Careful s none = Unit {0}
Careful s (some (submits fmt f init)) = Unit {0}
Careful s (some c) = Allowed s c

abbrev pub AllCareful : Bool → (ℕ → Option Filter) → Store → List Request.Call → Type 0
AllCareful is_tcp filters s [] = Unit {0}
AllCareful is_tcp filters s (c ∷ cs) =
    Careful s (call_of is_tcp filters (header c) c.arg)
    × ((t : Store)
        → maybe_step s (call_of is_tcp filters (header c) c.arg) ≡ ok t
        → AllCareful is_tcp filters t cs)

abbrev pub cons_some : Option Call → List Call → List Call
cons_some none cs = cs
cons_some (some c) cs = c ∷ cs

-- The calls of the store that the requests come to.
abbrev pub calls_of : Bool → (ℕ → Option Filter) → List Request.Call → List Call
calls_of is_tcp filters [] = []
calls_of is_tcp filters (c ∷ cs) =
    cons_some (call_of is_tcp filters (header c) c.arg) (calls_of is_tcp filters cs)

module _ (loaded : ℕ → Bool) where
  call_for-Borrowing :
      (is_tcp : Bool) (op : Op) (r : Header) (arg : Bytes)
      → Borrowing (call_for is_tcp (load_filters loaded) op r arg)
  call_for-Borrowing is_tcp op_submit r arg = filter_for-Borrows loaded (filter_id r)
  call_for-Borrowing is_tcp op_render r arg = tt
  call_for-Borrowing is_tcp op_append r arg = tt
  call_for-Borrowing is_tcp op_cancel r arg = tt
  call_for-Borrowing is_tcp op_status r arg = tt
  call_for-Borrowing true op_recycle r arg = tt
  call_for-Borrowing false op_recycle r arg = tt
  call_for-Borrowing true op_dup r arg = tt
  call_for-Borrowing false op_dup r arg = tt
  call_for-Borrowing true op_flush r arg = tt
  call_for-Borrowing false op_flush r arg = tt

  call_with-Borrowing :
      (is_tcp : Bool) (o : Option Op) (r : Header) (arg : Bytes)
      → Borrowing
          (elim o [ none ↦ none | some op ↦ call_for is_tcp (load_filters loaded) op r arg ])
  call_with-Borrowing is_tcp none r arg = tt
  call_with-Borrowing is_tcp (some op) r arg = call_for-Borrowing is_tcp op r arg

-- What a request does to the map, if it comes to a call.
abbrev MaybeFollows : View → Option Call → Store → Type 0
MaybeFollows m none s = SoundFor m s
MaybeFollows m (some c) s = Follows m c s

maybe_step-MaybeFollows :
    {m : View} {s : Store}
    → SoundFor m s
    → (o : Option Call) → Borrowing o
    → Careful s o
    → Returns (MaybeFollows m o) (maybe_step s o)
maybe_step-MaybeFollows {s = s} v none b may = (s, refl, v)
maybe_step-MaybeFollows (owner, (js, v)) (some (submits fmt f init)) b may =
    step-Follows v (submits fmt f init) b
maybe_step-MaybeFollows (owner, (js, v)) (some (renders id out_cap)) b may =
    step-Follows v (renders id out_cap) may
maybe_step-MaybeFollows (owner, (js, v)) (some (appends id arg)) b may =
    step-Follows v (appends id arg) may
maybe_step-MaybeFollows (owner, (js, v)) (some (retires id)) b may = step-Follows v (retires id) may
maybe_step-MaybeFollows (owner, (js, v)) (some (cancels id)) b may = step-Follows v (cancels id) may
maybe_step-MaybeFollows (owner, (js, v)) (some (dups id)) b may = step-Follows v (dups id) may
maybe_step-MaybeFollows (owner, (js, v)) (some (recycles id)) b may =
    step-Follows v (recycles id) may
maybe_step-MaybeFollows (owner, (js, v)) (some (stats verbose)) b may =
    step-Follows v (stats verbose) may
maybe_step-MaybeFollows (owner, (js, v)) (some flushes) b may = step-Follows v flushes may

-- The rest of the requests starts from what the first has left.
Refines-cons_some :
    (m : View) {t : Store} (o : Option Call) (cs : List Call)
    → MaybeFollows m o t
    → {A : Type 0} {r : Result A} {store : A → Store}
    → ((m₁ : View) → SoundFor m₁ t → Returns (λ a. Refines m₁ cs (store a)) r)
    → Returns (λ a. Refines m (cons_some o cs) (store a)) r
Refines-cons_some m none cs v rest = rest m v
Refines-cons_some m (some c) cs (m₁, effect, v) rest =
    let (a, run, (m', effects, u)) = rest m₁ v in (a, run, (m', (m₁, effect, effects), u))

run_calls-Refines :
    (loaded : ℕ → Bool) (is_tcp : Bool) (cs : List Request.Call) {m : View} {s : Store}
    → SoundFor m s
    → AllCareful is_tcp (load_filters loaded) s cs
    → Returns
        (λ r. Refines m (calls_of is_tcp (load_filters loaded) cs) r.0)
        (run_calls (answer is_tcp (load_filters loaded)) enc_max_arg s cs)
unfolding run_calls
run_calls-Refines loaded is_tcp [] {m} {s} v may = ((s, []), refl, (m, refl, v))
run_calls-Refines loaded is_tcp (c ∷ cs) {m} {s} v may =
    let filters = load_filters loaded in
    let o = call_of is_tcp filters (header c) c.arg in
    let (t, run, follows) =
      maybe_step-MaybeFollows v o (call_with-Borrowing loaded is_tcp (op_of c.op) (header c) c.arg)
        may.0 in
    let (out, answered) = answer-Replies is_tcp filters s (header c) c.arg run in
    let (r, rest, refines) =
      Refines-cons_some m o (calls_of is_tcp filters cs) follows
        {store = λ (r : Store × Bytes). r.0}
        (λ m₁ w. run_calls-Refines loaded is_tcp cs w (may.1 t run)) in
    rw (answered, rest) ((r.0, out ++ r.1), refl, refines)

-- A connection to the spool server on a store that stands for a finite map: requests within the limit
-- never make it fault, and the store that they leave stands for a map to which their calls may lead, whichever filters have been
-- loaded and however the bytes arrive, provided that the argument buffers are granted. That holds when no append
-- has its document moved by realloc, only jobs without metadata are copied, nothing is recycled
-- twice and the queue is flushed only while every job is waiting. The filter of a job is no condition:
-- the server does not offer the one that consumes the document.
pub serve-Refines :
    (loaded : ℕ → Bool) (is_tcp : Bool) (buffers : ℕ → Bool) (recv : ℕ → ℕ → ℕ) {m : View}
    {s : Store} (cs : List Request.Call)
    → ((k : ℕ) → buffers k ≡ true)
    → IsRecv recv
    → SoundFor m s
    → Admitted (answer is_tcp (load_filters loaded)) enc_max_arg cs
    → AllCareful is_tcp (load_filters loaded) s cs
    → Returns
        (λ r. Refines m (calls_of is_tcp (load_filters loaded) cs) r.0)
        (serve is_tcp (load_filters loaded) buffers recv s (encode cs))
unfolding serve
serve-Refines loaded is_tcp buffers recv {m} {s} cs granted r v admitted may =
    rw
      (serve-encode (answer is_tcp (load_filters loaded)) enc_max_arg buffers recv granted r s cs
        admitted)
      (run_calls-Refines loaded is_tcp cs v may)
