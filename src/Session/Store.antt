-- ===== src/Session/Store.antt =====
-- use-after-free/capstone/src/sesscore/sesscore.c: the operations of the session store. The table is
-- a value, so `t` is never NULL; a handle is the `int` of a `uint16_t`, so it is not negative; a data
-- argument and its length are one list. `none` stands for SESS_ERR.
use Prim.Native.Nat.{min}
use bug_museum.Base.{
  ℕ, ◌+◌, ◌-◌, ◌%◌, ◌^◌, Bool, true, false, ◌&&◌, Option, none, some, List, [], ◌∷◌, ◌++◌, ltb, leb,
  ◌==◌, if◌then◌else◌, length, take,
}
use bug_museum.Memory.Fault.{Result, ok, ◌>>=◌}
use bug_museum.Memory.Bytes.{Bytes, blit}
use bug_museum.Memory.Heap.{regrown, Ptr, null, Heap, fresh_bytes, assign, free, malloc, realloc}
use bug_museum.Memory.Slots.{free_slot, set_slot}
use bug_museum.Text.{codes, decimal}
use bug_museum.Session.Types.{
  Handler, Session, Object, session, bytes, Store, sess_max, sess_recent, sess_max_data, defer_max,
  session_at, bytes_at,
}
use bug_museum.Session.Handlers.{Output, run_handler}

-- SessNew, over the heap that the process starts with
unfoldable pub new : Heap Object → Store
new h = record { heap = h; slots = λ _. null; count = 0; recent = null; batch = [] }

abbrev pub capacity : ℕ → ℕ
capacity len = if ltb len 32 then 32 else len

-- `calloc` leaves every field zero; the fields are all set before anybody reads them.
abbrev pub blank : Handler → Session
blank f = record { id = 0; kind = 0; handler = f; bytes = null; len = 0; cap = 0 }

-- Both blocks are there: fill them and link the session.
unfoldable pub publish :
    Store → Heap Object → ℕ → ℕ → Handler → Bytes → Ptr → Ptr → Bytes → Result (Store × Option ℕ)
publish s h id kind f init p d space = do
  filled ← blit space 0 init
  h ← assign h d (bytes filled)
  h ← assign h p (
      session (record {
        id = id;
        kind = kind;
        handler = f;
        bytes = d;
        len = length init;
        cap = capacity (length init);
      }))
  ok (
    record s { heap = h; slots = set_slot s.slots id p; count = s.count + 1; recent = p },
    some id,
  )

-- The session block is there: allocate the data block.
unfoldable pub open_data :
    Store → Heap Object → ℕ → ℕ → Handler → Bytes → Ptr → Result (Store × Option ℕ)
open_data s h id kind f init p =
    let space = fresh_bytes h (capacity (length init)) in
    let (h', d) = malloc h (bytes space) in
    if d == null
    then (do h'' ← free h' p; ok (record s { heap = h'' }, none))
    else publish s h' id kind f init p d space

unfoldable pub open_at : Store → ℕ → ℕ → Handler → Bytes → Result (Store × Option ℕ)
open_at s id kind f init =
    let (h, p) = malloc s.heap (session (blank f)) in
    if p == null then ok (record s { heap = h }, none) else open_data s h id kind f init p

-- SessOpen
unfoldable pub sess_open : Store → ℕ → Option Handler → Bytes → Result (Store × Option ℕ)
sess_open s kind none init = ok (s, none)
sess_open s kind (some f) init = elim (free_slot sess_max 0 s.slots) [
  | none ↦ ok (s, none)
  | some id ↦ open_at s id kind f (take sess_max_data init)
]

-- SessGet: the session that a handle resolves to, or NULL
unfoldable pub sess_get : Store → ℕ → Store × Ptr
sess_get s id =
    if id == sess_recent
    then (s, s.recent)
    else if ltb id sess_max
    then if s.slots id == null then (s, null) else (record s { recent = s.slots id }, s.slots id)
    else (s, null)

-- SessUseRun
unfoldable pub use_run : Store → ℕ → Bytes → ℕ → Result (Store × Option Output)
use_run s id arg out_cap =
    let (s', p) = sess_get s id in
    if p == null
    then ok (s', none)
    else (do x ← session_at s'.heap p; ok (s', some (run_handler x.handler arg out_cap)))

-- The write of SessUseSet through a resolved session; the server's pipe path is the same code.
unfoldable pub overwrite : Heap Object → Ptr → Bytes → Result (Heap Object)
overwrite h p arg = do
  x ← session_at h p
  let n = min (length arg) x.cap
  b ← bytes_at h x.bytes
  b' ← blit b 0 (take n arg)
  h ← assign h x.bytes (bytes b')
  assign h p (session (record x { len = n }))

-- SessUseSet; the Bool says whether it returned SESS_OK
unfoldable pub use_set : Store → ℕ → Bytes → Result (Store × Bool)
use_set s id arg =
    let (s', p) = sess_get s id in
    if p == null
    then ok (s', false)
    else (do h ← overwrite s'.heap p arg; ok (record s' { heap = h }, true))

-- The last two lines of SessUseAppend: the write goes through `old`.
unfoldable pub append_at : Heap Object → Ptr → Session → Ptr → Bytes → ℕ → Result (Heap Object)
append_at h p x old arg need = do
  b ← bytes_at h old
  b' ← blit b x.len arg
  h ← assign h old (bytes b')
  assign h p (session (record x { len = need }))

unfoldable pub append_grow : Heap Object → Ptr → Session → Bytes → ℕ → Result (Heap Object × Bool)
append_grow h p x arg need = do
  b ← bytes_at h x.bytes
  (h', grown) ← realloc h x.bytes (bytes (regrown h b need))
  if grown == null then ok (h', false) else (do
    let x' = record x { bytes = grown; cap = need }
    h' ← assign h' p (session x')
    h' ← append_at h' p x' x.bytes arg need
    ok (h', true))

-- The test on `need` in SessUseAppend.
unfoldable pub append_need : Heap Object → Ptr → Session → Bytes → ℕ → Result (Heap Object × Bool)
append_need h p x arg need =
    if ltb x.cap need
    then append_grow h p x arg need
    else (do h' ← append_at h p x x.bytes arg need; ok (h', true))

-- SessUseAppend through a resolved session; the sum of two `uint32_t` wraps
unfoldable pub append_to : Heap Object → Ptr → Bytes → Result (Heap Object × Bool)
append_to h p arg = do x ← session_at h p; append_need h p x arg ((x.len + length arg) % 2 ^ 32)

-- SessUseAppend
unfoldable pub use_append : Store → ℕ → Bytes → Result (Store × Bool)
use_append s id arg =
    let (s', p) = sess_get s id in
    if p == null
    then ok (s', false)
    else (do (h, done) ← append_to s'.heap p arg; ok (record s' { heap = h }, done))

-- free_session
unfoldable pub free_session : Heap Object → Ptr → Result (Heap Object)
free_session h p = do x ← session_at h p; h ← free h x.bytes; free h p

-- SessClose; `recent` and `batch` are not touched
unfoldable pub close : Store → ℕ → Result (Store × Bool)
close s id =
    if ltb id sess_max
    then if s.slots id == null then ok (s, false) else (do
      h ← free_session s.heap (s.slots id)
      ok (record s { heap = h; slots = set_slot s.slots id null; count = s.count - 1 }, true))
    else ok (s, false)

-- SessStat: the text left in `out`, which is large enough for it in every caller
unfoldable pub stat : Store → Bool → Result Bytes
stat s verbose =
    let summary = codes "sessions=" ++ decimal s.count in
    if verbose && (if s.recent == null then false else true)
    then (do
      x ← session_at s.heap s.recent
      ok (summary ++ (codes " recent=#" ++ (decimal x.id ++ (codes " len=" ++ decimal x.len)))))
    else ok summary

-- SessDefer
unfoldable pub defer : Store → ℕ → Result Store
defer s id =
    let (s', p) = sess_get s id in
    if p == null then ok s' else if leb defer_max (length s'.batch) then ok s' else (do
      x ← session_at s'.heap p
      ok (record s' { batch = s'.batch ++ ((x.bytes, x.len) ∷ []) }))

-- The loop of SessFlush over the captured pointers.
unfoldable pub flush_batch : Heap Object → List (Ptr × ℕ) → Bytes → Result (Heap Object)
flush_batch h [] arg = ok h
flush_batch h ((d, len) ∷ rest) arg = do
  let n = min (length arg) len
  b ← bytes_at h d
  b' ← blit b 0 (take n arg)
  h ← assign h d (bytes b')
  flush_batch h rest arg

-- SessFlush
unfoldable pub flush : Store → Bytes → Result Store
flush s arg = do h ← flush_batch s.heap s.batch arg; ok (record s { heap = h; batch = [] })
