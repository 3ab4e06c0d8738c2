-- ===== src/Session/Server.antt =====
-- use-after-free/capstone/src/sessiond/sessiond.c: the handlers of the session server. `cur` is the
-- connection's cached session; a handler's result is the store, that cache and the reply. The lock
-- around a handler makes requests sequential. `plugins` is the table that is filled at startup.
use bug_museum.Base.{
  ℕ, ◌/◌, ◌%◌, Bool, true, false, not, ◌&&◌, Option, none, some, [], ◌∷◌, ◌++◌, ◌==◌, if◌then◌else◌,
  get_elem?, take,
}
use bug_museum.Memory.Fault.{Result, ok, ◌>>=◌}
use bug_museum.Memory.Bytes.{Bytes}
use bug_museum.Memory.Heap.{Ptr, null}
use bug_museum.Text.{codes, decimal}
use bug_museum.Session.Types.{Handler, Store, sess_recent, session_at}
use bug_museum.Session.Handlers.{Output, run_handler}
use bug_museum.Session.Store.{
  sess_open, sess_get, use_run, overwrite, use_set, use_append, close, stat, defer, flush,
}

-- The operations, in the order of their numbers.
pub data Op : Type 0 where
  op_open op_use_run op_use_set op_use_append op_close op_stat op_flush : Op

unfoldable pub op_of : ℕ → Option Op
op_of n =
    get_elem?
      (op_open ∷ op_use_run ∷ op_use_set ∷ op_use_append ∷ op_close ∷ op_stat ∷ op_flush ∷ []) n

-- `r->type` and `r->handle`; the operation and the argument are passed apart.
pub record Request : Type 0 where
  pub flags : ℕ
  pub handle : ℕ

abbrev pub Reply : Type 0
Reply = Result (Store × Ptr × Bytes)

-- `r->type & FLAG_DEFER` and `r->type & FLAG_VERBOSE`
abbrev pub wants_defer : Request → Bool
wants_defer r = r.flags / 128 % 2 == 1

abbrev pub wants_verbose : Request → Bool
wants_verbose r = r.flags / 64 % 2 == 1

-- The deferred write at the end of the two use handlers.
unfoldable pub defer_if : Bool → Store → ℕ → Result Store
defer_if false s handle = ok s
defer_if true s handle = defer s handle

module _ (is_tcp : Bool) where
  abbrev cached : Request → Bool
  cached r = not is_tcp && (r.handle == sess_recent)

  unfoldable pub opened_reply : Ptr → Store × Option ℕ → Reply
  opened_reply cur (s, none) = ok (s, cur, codes "ERR open\n")
  opened_reply cur (s, some id) =
      let text = codes "OK handle=" ++ (decimal id ++ codes "\n") in
      let (s', p) = sess_get s id in if is_tcp then ok (s, cur, text) else ok (s', p, text)

  -- plugin_for and h_open
  unfoldable pub h_open : (ℕ → Option Handler) → Store → Ptr → Request → Bytes → Reply
  h_open plugins s cur r arg = do
    opened ← sess_open s (r.flags % 16) (plugins (r.flags % 16)) arg
    opened_reply cur opened

  unfoldable pub run_reply : Ptr → Request → Store × Option Output → Reply
  run_reply cur r (s, none) = ok (s, cur, codes "ERR\n")
  run_reply cur r (s, some out) = do
    s ← defer_if (wants_defer r) s r.handle
    ok (s, cur, take out.returned out.written ++ codes "\n")

  unfoldable pub h_use_run : Store → Ptr → Request → Bytes → Reply
  h_use_run s cur r arg =
      if cached r
      then if cur == null then ok (s, cur, codes "ERR no current\n") else (do
        x ← session_at s.heap cur
        run_reply cur r (s, some (run_handler x.handler arg 256)))
      else (do out ← use_run s r.handle arg 256; run_reply cur r out)

  unfoldable pub set_reply : Ptr → Request → Store × Bool → Reply
  set_reply cur r (s, false) = ok (s, cur, codes "ERR\n")
  set_reply cur r (s, true) = do s ← defer_if (wants_defer r) s r.handle; ok (s, cur, codes "OK\n")

  unfoldable pub h_use_set : Store → Ptr → Request → Bytes → Reply
  h_use_set s cur r arg =
      if cached r
      then if cur == null
        then ok (s, cur, codes "ERR no current\n")
        else (do h ← overwrite s.heap cur arg; set_reply cur r (record s { heap = h }, true))
      else (do done ← use_set s r.handle arg; set_reply cur r done)

  unfoldable pub h_use_append : Store → Ptr → Request → Bytes → Reply
  h_use_append s cur r arg = do
    (s, done) ← use_append s r.handle arg
    ok (s, cur, if done then codes "OK\n" else codes "ERR\n")

  -- h_close: `cur` is not updated
  unfoldable pub h_close : Store → Ptr → Request → Reply
  h_close s cur r = do (s, done) ← close s r.handle; ok (s, cur, codes "OK\n")

  unfoldable pub h_stat : Store → Ptr → Request → Reply
  h_stat s cur r = do text ← stat s (wants_verbose r && not is_tcp); ok (s, cur, text ++ codes "\n")

  unfoldable pub h_flush : Store → Ptr → Request → Bytes → Reply
  h_flush s cur r arg = do s ← flush s arg; ok (s, cur, codes "OK\n")

  -- `g_ops`
  unfoldable pub dispatch : (ℕ → Option Handler) → Store → Ptr → Op → Request → Bytes → Reply
  dispatch plugins s cur op_open r arg = h_open plugins s cur r arg
  dispatch plugins s cur op_use_run r arg = h_use_run s cur r arg
  dispatch plugins s cur op_use_set r arg = h_use_set s cur r arg
  dispatch plugins s cur op_use_append r arg = h_use_append s cur r arg
  dispatch plugins s cur op_close r arg = h_close s cur r
  dispatch plugins s cur op_stat r arg = h_stat s cur r
  dispatch plugins s cur op_flush r arg = h_flush s cur r arg

  -- The test on the operation that a request names, and the call.
  unfoldable pub handle_request : (ℕ → Option Handler) → Store → Ptr → ℕ → Request → Bytes → Reply
  handle_request plugins s cur op r arg = elim (op_of op) [
    | none ↦ ok (s, cur, codes "ERR op\n")
    | some which ↦ dispatch plugins s cur which r arg
  ]
