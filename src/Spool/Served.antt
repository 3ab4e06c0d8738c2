-- ===== src/Spool/Served.antt =====
-- double-free/capstone/src/spoold/spoold.c: a connection to the spool server, against the finite map that
-- its job store stands for.
use bug_museum.Base.{ℕ, ◌≡◌, refl, ap, ◌∙◌, Bool, true, false, not, ◌&&◌, Option, none, some, ◌++◌}
use bug_museum.Memory.Fault.{Result, ok, fault, ◌>>=◌}
use bug_museum.Memory.Bytes.{Bytes}
use bug_museum.Text.{codes}
use bug_museum.Wire.Request.{Header}
use bug_museum.Spool.Filters.{Filter, Preview}
use bug_museum.Spool.Types.{Store}
use bug_museum.Spool.Jobs.{status}
use bug_museum.Spool.Server.{
  Op, op_submit, op_render, op_append, op_cancel, op_status, op_recycle, op_dup, op_flush, op_of,
  filter_id, wants_verbose, filter_for, numbered, rendered_reply, h_submit, h_render, h_append,
  h_cancel, h_status, h_recycle, h_dup, h_flush, dispatch, answer,
}
use bug_museum.Spool.Calls.{
  Call, submits, renders, appends, cancels, dups, recycles, stats, flushes, step,
}

-- The call of the store that an operation comes to; some are refused on one of the two transports.
abbrev pub call_for : Bool → (ℕ → Option Filter) → Op → Header → Bytes → Option Call
call_for is_tcp filters op_submit r arg =
    some (submits (filter_id r) (filter_for filters (filter_id r)) arg)
call_for is_tcp filters op_render r arg = some (renders r.target 256)
call_for is_tcp filters op_append r arg = some (appends r.target arg)
call_for is_tcp filters op_cancel r arg = some (cancels r.target)
call_for is_tcp filters op_status r arg = some (stats (wants_verbose r && not is_tcp))
call_for true filters op_recycle r arg = none
call_for false filters op_recycle r arg = some (recycles r.target)
call_for true filters op_dup r arg = some (dups r.target)
call_for false filters op_dup r arg = none
call_for true filters op_flush r arg = some flushes
call_for false filters op_flush r arg = none

-- A result whose store is `t`.
abbrev pub Replies : Result (Store × Bytes) → Store → Type 0
Replies r t = (out : Bytes) × (r ≡ ok (t, out))

-- What is made of a call's result keeps its store.
bind-Replies :
    {B : Type 0} (r : Result (Store × B)) (reply : Store × B → Result (Store × Bytes)) {t : Store}
    → ((q : Store × B) → Replies (reply q) q.0)
    → (r >>= λ q. ok q.0) ≡ ok t
    → Replies (r >>= reply) t
bind-Replies (ok q) reply {t} keeps e =
    let (out, run) = keeps q in
    let same : q.0 ≡ t = cc e in (out, run ∙ ap (λ (u : Store). ok (u, out)) same)
bind-Replies (fault f) reply keeps e = cc e

numbered-Replies : (refusal : Bytes) (q : Store × Option ℕ) → Replies (numbered refusal q) q.0
unfolding numbered
numbered-Replies refusal (s, none) = (_, refl)
numbered-Replies refusal (s, some id) = (_, refl)

rendered-Replies : (q : Store × Option Preview) → Replies (rendered_reply q) q.0
unfolding rendered_reply
rendered-Replies (s, none) = (_, refl)
rendered-Replies (s, some p) = (_, refl)

refused-Replies : (s : Store) {t : Store} (out : Bytes) → ok s ≡ ok t → Replies (ok (s, out)) t
refused-Replies s {t} out e = let same : s ≡ t = cc e in (out, ap (λ (u : Store). ok (u, out)) same)

status-Replies :
    (s : Store) {t : Store} (r : Result Bytes)
    → (r >>= λ out. ok s) ≡ ok t
    → Replies (r >>= λ out. ok (s, out ++ codes "\n")) t
status-Replies s (ok out) e = refused-Replies s (out ++ codes "\n") e
status-Replies s (fault f) e = cc e

-- A call, if there is one.
abbrev pub maybe_step : Store → Option Call → Result Store
maybe_step s none = ok s
maybe_step s (some c) = step s c

module _ (filters : ℕ → Option Filter) (s : Store) (r : Header) (arg : Bytes) {t : Store} where
  -- A handler leaves the store that its call leaves.
  dispatch-Replies :
      (is_tcp : Bool) (op : Op)
      → maybe_step s (call_for is_tcp filters op r arg) ≡ ok t
      → Replies (dispatch is_tcp filters s op r arg) t
  unfolding dispatch step h_submit h_render h_append h_cancel h_status h_recycle h_dup h_flush
  dispatch-Replies is_tcp op_submit run =
      bind-Replies _ (numbered (codes "ERR submit\n")) (numbered-Replies (codes "ERR submit\n")) run
  dispatch-Replies is_tcp op_render run = bind-Replies _ rendered_reply rendered-Replies run
  dispatch-Replies is_tcp op_append run = bind-Replies _ _ (λ q. (_, refl)) run
  dispatch-Replies is_tcp op_cancel run = bind-Replies _ _ (λ q. (_, refl)) run
  dispatch-Replies is_tcp op_status run =
      status-Replies s (status s (wants_verbose r && not is_tcp)) run
  dispatch-Replies true op_recycle run = refused-Replies s _ run
  dispatch-Replies false op_recycle run = bind-Replies _ _ (λ q. (_, refl)) run
  dispatch-Replies true op_dup run =
      bind-Replies _ (numbered (codes "ERR dup\n")) (numbered-Replies (codes "ERR dup\n")) run
  dispatch-Replies false op_dup run = refused-Replies s _ run
  dispatch-Replies true op_flush run = rw run (_, refl)
  dispatch-Replies false op_flush run = refused-Replies s _ run

  -- The operation may be unknown.
  answer_with-Replies :
      (is_tcp : Bool) (o : Option Op)
      → maybe_step s (elim o [ none ↦ none | some op ↦ call_for is_tcp filters op r arg ]) ≡ ok t
      → Replies
          (elim o [
            | none ↦ ok (s, codes "ERR op\n")
            | some op ↦ dispatch is_tcp filters s op r arg
          ])
          t
  answer_with-Replies is_tcp none run = refused-Replies s _ run
  answer_with-Replies is_tcp (some op) run = dispatch-Replies is_tcp op run

-- The call that a request comes to, if there is one.
abbrev pub call_of : Bool → (ℕ → Option Filter) → Header → Bytes → Option Call
call_of is_tcp filters r arg = elim (op_of r.op) [
  | none ↦ none
  | some op ↦ call_for is_tcp filters op r arg
]

pub answer-Replies :
    (is_tcp : Bool) (filters : ℕ → Option Filter) (s : Store) (r : Header) (arg : Bytes) {t : Store}
    → maybe_step s (call_of is_tcp filters r arg) ≡ ok t
    → Replies (answer is_tcp filters s r arg) t
unfolding answer
answer-Replies is_tcp filters s r arg run =
    answer_with-Replies filters s r arg is_tcp (op_of r.op) run
