-- ===== src/Session/Batch.antt =====
-- The deferred-write batch: SessDefer and SessFlush on a safe store.
use Prim.Native.Nat.{min}
use native.Mathlib.Nat.{zero-add}
use bug_museum.Base.{
  ℕ, ◌≤◌, ◌<◌, ◌≡◌, refl, inl, inr, ◌∙◌, sym, List, [], ◌∷◌, ◌++◌, arith, length, take, length-take,
  drop, ◌+◌, ap, take-append_prefix, take-written, drop-written, ne→==, le→leb, gt→leb, le_or_lt,
}
use native.Mathlib.Decide.{ℕ_discrete}
use bug_museum.Memory.Fault.{ok, Returns}
use bug_museum.Memory.Bytes.{Bytes, splice, length-splice, blit, blit-ok}
use bug_museum.Memory.Heap.{Ptr, live, Heap, put, assign, assign-live}
use bug_museum.Session.Types.{Object, bytes, Store, sess_max, defer_max}
use bug_museum.Session.Store.{defer, flush, flush_batch}
use bug_museum.Session.Invariant.{Owns, session_at-ok, bytes_at-ok}
use bug_museum.Session.Writes.{Rewritten}
use bug_museum.Session.Safety.{
  Captured, AllCaptured, AllCaptured-Rewritten, Rewritten-IsSound, IsSafe, nothing, found, resolve,
  recent-IsSafe,
}
use bug_museum.Session.Closes.{NotAimed}

module _ {s : Store} (v : IsSafe s) where
  AllCaptured-append :
      (batch : List (Ptr × ℕ)) (d len : ℕ)
      → AllCaptured s.heap s.slots batch
      → Captured s.heap s.slots d len
      → AllCaptured s.heap s.slots (batch ++ ((d, len) ∷ []))
  AllCaptured-append [] d len c new = (new, tt)
  AllCaptured-append ((d', len') ∷ rest) d len c new = (c.0, AllCaptured-append rest d len c.1 new)

  -- SessDefer captures the block of a session in the table.
  pub defer-IsSafe : (id : ℕ) → Returns IsSafe (defer s id)
  unfolding defer
  defer-IsSafe id = elim (resolve s v id) [
    | nothing e ↦ rw e (s, refl, v)
    | found i lt o e ↦
        let w = recent-IsSafe v i lt o.ne_null in
        elim (le_or_lt defer_max (length s.batch)) [
          | inl full ↦ rw (e, ne→== _ _ o.ne_null, le→leb _ _ full) (_, refl, w)
          | inr room ↦
              rw (e, ne→== _ _ o.ne_null, gt→leb _ _ room, session_at-ok o)
                (
                  _,
                  refl,
                  record {
                    sound = record {
                      owner = v.sound.owner;
                      unissued = v.sound.unissued;
                      slot_ok = v.sound.slot_ok;
                      counted = v.sound.counted;
                    };
                    current = w.current;
                    captured =
                        AllCaptured-append s.batch o.content.bytes o.content.len v.captured
                          (record {
                            slot = i;
                            in_table = lt;
                            present = o.ne_null;
                            content = o.content;
                            here = o.here;
                            aims = refl;
                            within = o.fits;
                          });
                  },
                )
        ]
  ]

-- One round of the flush on a captured block.
module _ {s : Store} (v : IsSafe s) {i : ℕ} (lt : i < sess_max)
    (o : Owns s.heap v.sound.owner i (s.slots i)) (arg : Bytes) (len : ℕ)
    (within : len ≤ o.content.cap) where
  abbrev written : Bytes
  written = splice o.space 0 (take (min (length arg) len) arg)

  abbrev flushed : Heap Object
  flushed = record s.heap { cell = put s.heap.cell o.content.bytes (live (bytes written)) }

  room : length (take (min (length arg) len) arg) ≤ length o.space
  room = omega (arith, length-take (min (length arg) len) arg, o.sized)

  blit-written : blit o.space 0 (take (min (length arg) len) arg) ≡ ok written
  blit-written = let r = room in blit-ok o.space 0 (take (min (length arg) len) arg) (omega arith)

  assign-flushed : assign s.heap o.content.bytes (bytes written) ≡ ok flushed
  assign-flushed =
      assign-live s.heap o.content.bytes o.bytes_ne_null {a = bytes o.space} (bytes written)
        o.bytes_here

  length-written : length written ≡ o.content.cap
  length-written =
      let r = room in
      length-splice o.space 0 (take (min (length arg) len) arg) (omega arith) ∙ o.sized

  flushed-Rewritten : Rewritten s.heap flushed (s.slots i) o.content written
  flushed-Rewritten = record {
    session_here = ground (arith, o.here, o.bytes_here);
    bytes_here = ground arith;
    same = λ q ne ne'. ground arith;
    issued = omega arith;
  }

  flushed-IsSafe :
      (batch : List (Ptr × ℕ))
      → AllCaptured s.heap s.slots batch
      → IsSafe (record s { heap = flushed; batch = batch })
  flushed-IsSafe batch c = record {
    sound =
        Rewritten-IsSound v.sound lt o flushed-Rewritten o.numbered refl length-written o.fits
          s.recent batch;
    current = v.current;
    captured =
        AllCaptured-Rewritten v.sound lt o flushed-Rewritten o.numbered refl length-written o.fits
          (omega arith) batch c;
  }

-- The session in the table that a captured entry leads to.
pub holder :
    {s : Store} (v : IsSafe s) (d len : ℕ)
    → Captured s.heap s.slots d len
    → (i : ℕ) × (i < sess_max)
      × (o : Owns s.heap v.sound.owner i (s.slots i)) × (o.content.bytes ≡ d)
      × (len ≤ o.content.cap)
holder v d len c = elim (v.sound.slot_ok c.slot c.in_table) [
  | inl empty ↦ absurd (c.present empty)
  | inr o ↦ (
    c.slot,
    c.in_table,
    o,
    ground (arith, o.here, c.here, c.aims),
    ground (arith, o.here, c.here, c.within),
  )
]

-- The block `d` starts with the first `n` bytes of `arg`.
abbrev pub Begins : Heap Object → Bytes → Ptr → ℕ → Type 0
Begins h arg d n = (b : Bytes) × (h.cell d ≡ live (bytes b)) × (take n b ≡ take n arg)

-- Each captured block starts with the argument, as much of it as the captured length admits.
abbrev pub AllWritten : Heap Object → Bytes → List (Ptr × ℕ) → Type 0
AllWritten h arg [] = Unit {0}
AllWritten h arg ((d, len) ∷ rest) = Begins h arg d (min (length arg) len) × AllWritten h arg rest

-- No captured length of the block `q` is more than `m`.
abbrev pub AllWithin : ℕ → Ptr → List (Ptr × ℕ) → Type 0
AllWithin m q [] = Unit {0}
AllWithin m q ((d, len) ∷ rest) = (d ≡ q → len ≤ m) × AllWithin m q rest

-- The block `q` goes on behind its first `m` bytes like `b`.
abbrev pub EndsLike : Heap Object → Ptr → ℕ → Bytes → Type 0
EndsLike h q m b = (b' : Bytes) × (h.cell q ≡ live (bytes b')) × (drop m b' ≡ drop m b)

-- What the flush of a batch makes of the heap.
record Flushed (h : Heap Object) (batch : List (Ptr × ℕ)) (arg : Bytes) (h' : Heap Object)
    : Type 0 where
  written_all : AllWritten h' arg batch
  keeps : (q : Ptr) (n : ℕ) → n ≤ length arg → Begins h arg q n → Begins h' arg q n
  others : (q : Ptr) → NotAimed q batch → h'.cell q ≡ h.cell q
  behind :
      (q : Ptr) (m : ℕ) (b : Bytes) → AllWithin m q batch → EndsLike h q m b → EndsLike h' q m b

-- One round, and the flush of the rest.
module _ {s : Store} (v : IsSafe s) {i : ℕ} (lt : i < sess_max)
    (o : Owns s.heap v.sound.owner i (s.slots i)) (arg : Bytes) (len : ℕ)
    (within : len ≤ o.content.cap) where
  Begins-first : Begins (flushed v lt o arg len within) arg o.content.bytes (min (length arg) len)
  Begins-first =
      let n = min (length arg) len in
      (
        written v lt o arg len within,
        ground arith,
        take-append_prefix n n arg (drop (0 + length (take n arg)) o.space) (omega arith)
            (omega arith),
      )

  Begins-next :
      (q : Ptr) (n : ℕ)
      → n ≤ length arg
      → Begins s.heap arg q n
      → Begins (flushed v lt o arg len within) arg q n
  Begins-next q n short (b, here, same) = elim (ℕ_discrete q o.content.bytes) [
    | yes e ↦
        let same' : o.space ≡ b = ground (arith, o.bytes_here, here, e) in
        (
          written v lt o arg len within,
          ground arith,
          rw zero-add
              (take-written n (min (length arg) len) arg o.space short (ap (take n) same' ∙ same)),
        )
    | no ne ↦ (b, ground (arith, here, ne), same)
  ]

  EndsLike-next :
      (q : Ptr) (m : ℕ) (b : Bytes)
      → (o.content.bytes ≡ q → len ≤ m)
      → EndsLike s.heap q m b
      → EndsLike (flushed v lt o arg len within) q m b
  EndsLike-next q m b short (b', here, same) = elim (ℕ_discrete q o.content.bytes) [
    | yes e ↦
        let w = take (min (length arg) len) arg in
        let fits : length w ≤ m =
          let le = short (sym e) in omega (arith, length-take (min (length arg) len) arg) in
        let same' : o.space ≡ b' = ground (arith, o.bytes_here, here, e) in
        (
          written v lt o arg len within,
          ground arith,
          rw zero-add (drop-written m w o.space fits ∙ ap (drop m) same' ∙ same),
        )
    | no ne ↦ (b', ground (arith, here, ne), same)
  ]

  Flushed-next :
      (rest : List (Ptr × ℕ)) {h' : Heap Object}
      → Flushed (flushed v lt o arg len within) rest arg h'
      → Flushed s.heap ((o.content.bytes, len) ∷ rest) arg h'
  Flushed-next rest f = record {
    written_all =
        (f.keeps o.content.bytes (min (length arg) len) (omega arith) Begins-first, f.written_all);
    keeps = λ q n short begins. f.keeps q n short (Begins-next q n short begins);
    others = λ q apart. f.others q apart.1 ∙ ground (arith, apart.0);
    behind = λ q m b short ends. f.behind q m b short.1 (EndsLike-next q m b short.0 ends);
  }

flush_batch-IsSafe :
    (batch : List (Ptr × ℕ)) {s : Store} (v : IsSafe s) (arg : Bytes)
    → AllCaptured s.heap s.slots batch
    → Returns
        (λ h'. IsSafe (record s { heap = h'; batch = [] }) × Flushed s.heap batch arg h')
        (flush_batch s.heap batch arg)
unfolding flush_batch
flush_batch-IsSafe [] {s} v arg c = (
  s.heap,
  refl,
  (
    record {
      sound = record {
        owner = v.sound.owner;
        unissued = v.sound.unissued;
        slot_ok = v.sound.slot_ok;
        counted = v.sound.counted;
      };
      current = v.current;
      captured = tt;
    },
    record {
      written_all = tt;
      keeps = λ q n short begins. begins;
      others = λ q apart. refl;
      behind = λ q m b short ends. ends;
    },
  ),
)
flush_batch-IsSafe ((d, len) ∷ rest) {s} v arg c =
    let (i, lt, o, aim, within) = holder v d len c.0 in
    let w = flushed-IsSafe v lt o arg len within rest c.1 in
    rw
      (
        ← aim,
        bytes_at-ok o,
        blit-written v lt o arg len within,
        assign-flushed v lt o arg len within,
      )
      (let (h', run, (safe, f)) = flush_batch-IsSafe rest w arg w.captured in
        (h', run, (safe, Flushed-next v lt o arg len within rest f)))

-- SessFlush on a safe store ends without a fault, empties the batch, and leaves a safe store. Each
-- captured block then starts with the argument, cut at the captured length, and is as before behind
-- the longest length captured for it; no block that is not captured is changed, nor are the handle
-- table, the count and the recent session.
pub flush-IsSafe :
    {s : Store} (v : IsSafe s) (arg : Bytes)
    → Returns
        (λ s'.
          IsSafe s'
          × (s'.batch ≡ [])
          × AllWritten s'.heap arg s.batch
          × ((q : Ptr) (m : ℕ) (b : Bytes)
              → AllWithin m q s.batch
              → s.heap.cell q ≡ live (bytes b)
              → EndsLike s'.heap q m b)
          × ((q : Ptr) → NotAimed q s.batch → s'.heap.cell q ≡ s.heap.cell q)
          × (s'.slots ≡ s.slots)
          × (s'.count ≡ s.count)
          × (s'.recent ≡ s.recent))
        (flush s arg)
unfolding flush
flush-IsSafe {s} v arg =
    let (h', run, (w, f)) = flush_batch-IsSafe s.batch v arg v.captured in
    rw run (
      _,
      refl,
      (
        w,
        refl,
        f.written_all,
        (λ q m b short here. f.behind q m b short (b, here, refl)),
        f.others,
        refl,
        refl,
        refl,
      ),
    )
