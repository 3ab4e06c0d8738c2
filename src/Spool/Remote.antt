-- ===== src/Spool/Remote.antt =====
-- double-free/capstone/src/spoold/spoold.c: what a network client can make the server do.
use mathlib.Core.Path.{subst}
use bug_museum.Base.{ℕ, ◌<◌, ◌≡◌, refl, ◌∙◌, Bool, true, Option, List, [], ◌∷◌, arith, ne→==}
use bug_museum.Memory.Fault.{ok, fault, use_after_free}
use bug_museum.Memory.Heap.{Ptr, null, live, unmapped, put}
use bug_museum.Wire.Read.{IsRecv}
use bug_museum.Wire.Request.{Call, encode}
use bug_museum.Wire.Serve.{run_calls, serve-encode}
use bug_museum.Spool.Filters.{Filter}
use bug_museum.Spool.Types.{Job, cancelled, job, Store, spool_max}
use bug_museum.Spool.Jobs.{in_state, cancel}
use bug_museum.Spool.Linked.{Linked, IsQueue, update_job-live, Linked-frame}
use bug_museum.Spool.Owned.{Owned, Owned-assigned}
use bug_museum.Spool.Doubles.{get-slot, flush-cancelled}
use bug_museum.Spool.Server.{op_of, h_cancel, h_flush, dispatch, answer, serve, enc_max_arg}

module _ (s : Store) {owner : Ptr → Ptr} {j : Ptr} {js : List Ptr} {x : Job}
    (q : IsQueue s (j ∷ js)) (o : Owned s.heap owner j x) where
  -- The store after JobCancel of the first job in the queue.
  abbrev pub cancelled_first : Store
  cancelled_first = record s {
    heap = record s.heap { cell = put s.heap.cell j (live (job (in_state cancelled x))) };
    active = j;
  }

  cancel-first : x.id < spool_max → s.slots x.id ≡ j → cancel s x.id ≡ ok (cancelled_first, true)
  unfolding cancel
  cancel-first lt at =
      let s' : Store = record s { active = j } in
      rw (
        get-slot s x.id j lt o.ne_null at,
        ne→== j null o.ne_null,
        update_job-live s' j (in_state cancelled) x o.ne_null o.here,
      )

  cancelled_first-IsQueue : IsQueue cancelled_first (j ∷ js)
  cancelled_first-IsQueue =
      let (e, ne, (y, here, rest)) = q.linked in
      let same : y ≡ x = ground (arith, here, o.here) in
      let linked : Linked s.heap x.qnext js =
        subst (λ (z : Job). Linked s.heap z.qnext js) same rest in
      record {
        linked = (
          e,
          ne,
          (
            in_state cancelled x,
            ground arith,
            Linked-frame s.heap cancelled_first.heap j x.qnext js (λ p ne. ground arith)
                q.distinct.0 linked,
          ),
        );
        tail = q.tail;
        distinct = q.distinct;
      }

-- CANCEL of the job `id`, and FLUSH.
abbrev pub cancel_and_flush : ℕ → List Call
cancel_and_flush id =
    record { op = 3; flags = 0; target = id; arg = [] }
    ∷ record { op = 7; flags = 0; target = 0; arg = [] }
    ∷ []

run-cancel_and_flush :
    (s : Store) {owner : Ptr → Ptr} {j : Ptr} {js : List Ptr} {x : Job} (q : IsQueue s (j ∷ js))
    (o : Owned s.heap owner j x) (filters : ℕ → Option Filter)
    → ((p : Ptr) → s.heap.requests < p → s.heap.cell p ≡ unmapped)
    → x.id < spool_max
    → s.slots x.id ≡ j
    → run_calls (answer true filters) enc_max_arg s (cancel_and_flush x.id) ≡ fault use_after_free
unfolding run_calls answer dispatch h_cancel h_flush op_of
run-cancel_and_flush s {owner} {j} {js} {x} q o filters unissued lt at =
    let s' = cancelled_first s q o in
    let o' = Owned-assigned o (in_state cancelled x) refl refl refl in
    let unissued' : (p : Ptr) → s'.heap.requests < p → s'.heap.cell p ≡ unmapped =
      λ p gt. ground (arith, unissued p gt, o.here) in
    rw (
      cancel-first s q o lt at,
      flush-cancelled s' owner j js (in_state cancelled x) unissued' (cancelled_first-IsQueue s q o)
          o' refl lt at,
    )

-- A network client that sends two requests, CANCEL of the first job in the queue and FLUSH, makes the
-- server use a freed job, if that job has blocks of its own and is in the table: however the sixteen
-- bytes arrive, and whatever filters there are.
pub serve-cancel_and_flush :
    (s : Store) (owner : Ptr → Ptr) (j : Ptr) (js : List Ptr) (x : Job)
    (filters : ℕ → Option Filter) (buffers : ℕ → Bool) (recv : ℕ → ℕ → ℕ)
    → ((k : ℕ) → buffers k ≡ true)
    → IsRecv recv
    → ((p : Ptr) → s.heap.requests < p → s.heap.cell p ≡ unmapped)
    → IsQueue s (j ∷ js)
    → Owned s.heap owner j x
    → x.id < spool_max
    → s.slots x.id ≡ j
    → serve true filters buffers recv s (encode (cancel_and_flush x.id)) ≡ fault use_after_free
unfolding serve
serve-cancel_and_flush s owner j js x filters buffers recv granted r unissued q o lt at =
    serve-encode (answer true filters) enc_max_arg buffers recv granted r s (cancel_and_flush x.id)
      (omega arith, (omega arith, tt))
    ∙ run-cancel_and_flush s q o filters unissued lt at
