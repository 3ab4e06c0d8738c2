-- ===== src/Spool/Server.antt =====
-- double-free/capstone/src/spoold/spoold.c: the handlers of the spool server, and the loop over the
-- requests of a connection. A handler's result is the store and the reply; the lock around it makes
-- requests sequential. `filters` is the table that is filled at startup.
use bug_museum.Base.{
  ℕ, ◌/◌, ◌%◌, Bool, not, ◌&&◌, Option, none, some, [], ◌∷◌, ◌++◌, ltb, ◌==◌, if◌then◌else◌,
  get_elem?, take,
}
use bug_museum.Memory.Fault.{Result, ok, ◌>>=◌}
use bug_museum.Memory.Bytes.{Bytes}
use bug_museum.Text.{codes, decimal}
use bug_museum.Wire.Request.{Header}
use bug_museum.Wire.Serve
use bug_museum.Spool.Filters.{Filter, raster, pdfish, Preview}
use bug_museum.Spool.Types.{Store}
use bug_museum.Spool.Store.{submit}
use bug_museum.Spool.Jobs.{render, append, cancel, recycle, dup, status, flush}

-- The operations, in the order of their numbers.
pub data Op : Type 0 where
  op_submit op_render op_append op_cancel op_status op_recycle op_dup op_flush : Op

unfoldable pub op_of : ℕ → Option Op
op_of n =
    get_elem?
      (op_submit ∷ op_render ∷ op_append ∷ op_cancel ∷ op_status ∷ op_recycle ∷ op_dup ∷ op_flush
        ∷ [])
      n

abbrev pub enc_max_arg : ℕ
enc_max_arg = 0x10_0000

abbrev pub Reply : Type 0
Reply = Result (Store × Bytes)

-- `r->fmt & FILTER_ID_MASK` and `r->fmt & FLAG_VERBOSE`
abbrev pub filter_id : Header → ℕ
filter_id r = r.flags % 16

abbrev pub wants_verbose : Header → Bool
wants_verbose r = r.flags / 64 % 2 == 1

-- The names in load_filters, for the filters of those names: no client is offered the text filter.
abbrev pub filter_named : ℕ → Option Filter
filter_named id = if id == 0 then some raster else if id == 2 then some pdfish else none

-- load_filters: `loaded` says for which names the library and its entry are found
unfoldable pub load_filters : (ℕ → Bool) → ℕ → Option Filter
load_filters loaded id = if loaded id then filter_named id else none

-- filter_for
unfoldable pub filter_for : (ℕ → Option Filter) → ℕ → Option Filter
filter_for filters id = if ltb id 3 then filters id else none

-- The reply of h_submit and of h_dup.
unfoldable pub numbered : Bytes → Store × Option ℕ → Reply
numbered refusal (s, none) = ok (s, refusal)
numbered refusal (s, some id) = ok (s, codes "OK job=" ++ (decimal id ++ codes "\n"))

unfoldable pub h_submit : (ℕ → Option Filter) → Store → Header → Bytes → Reply
unfolding filter_for
h_submit filters s r arg =
    submit s (filter_id r) (filter_for filters (filter_id r)) arg
    >>= numbered (codes "ERR submit\n")

unfoldable pub rendered_reply : Store × Option Preview → Reply
rendered_reply (s, none) = ok (s, codes "ERR\n")
rendered_reply (s, some p) = ok (s, take p.returned p.written ++ codes "\n")

unfoldable pub h_render : Store → Header → Reply
h_render s r = render s r.target 256 >>= rendered_reply

unfoldable pub h_append : Store → Header → Bytes → Reply
h_append s r arg = do
  (s, done) ← append s r.target arg
  ok (s, if done then codes "OK\n" else codes "ERR\n")

unfoldable pub h_cancel : Store → Header → Reply
h_cancel s r = do (s, done) ← cancel s r.target; ok (s, codes "OK\n")

module _ (is_tcp : Bool) where
  unfoldable pub h_status : Store → Header → Reply
  h_status s r = do text ← status s (wants_verbose r && not is_tcp); ok (s, text ++ codes "\n")

  unfoldable pub h_recycle : Store → Header → Reply
  h_recycle s r =
      if is_tcp
      then ok (s, codes "ERR local-only\n")
      else (do (s, done) ← recycle s r.target; ok (s, codes "OK\n"))

  unfoldable pub h_dup : Store → Header → Reply
  h_dup s r =
      if is_tcp
      then (dup s r.target >>= numbered (codes "ERR dup\n"))
      else ok (s, codes "ERR net-only\n")

  unfoldable pub h_flush : Store → Reply
  h_flush s =
      if is_tcp then (do s ← flush s; ok (s, codes "OK\n")) else ok (s, codes "ERR net-only\n")

  -- `g_ops`
  unfoldable pub dispatch : (ℕ → Option Filter) → Store → Op → Header → Bytes → Reply
  dispatch filters s op_submit r arg = h_submit filters s r arg
  dispatch filters s op_render r arg = h_render s r
  dispatch filters s op_append r arg = h_append s r arg
  dispatch filters s op_cancel r arg = h_cancel s r
  dispatch filters s op_status r arg = h_status s r
  dispatch filters s op_recycle r arg = h_recycle s r
  dispatch filters s op_dup r arg = h_dup s r
  dispatch filters s op_flush r arg = h_flush s

  -- The test on the operation that a request names, and the call.
  unfoldable pub answer : (ℕ → Option Filter) → Store → Header → Bytes → Reply
  answer filters s r arg = elim (op_of r.op) [
    | none ↦ ok (s, codes "ERR op\n")
    | some which ↦ dispatch filters s which r arg
  ]

  -- serve
  unfoldable pub serve :
      (ℕ → Option Filter) → (ℕ → Bool) → (ℕ → ℕ → ℕ) → Store → Bytes → Result (Store × Bytes)
  serve filters buffers recv s stream =
      Serve.serve (answer filters) enc_max_arg buffers recv s stream
