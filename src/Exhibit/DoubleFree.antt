-- ===== src/Exhibit/DoubleFree.antt =====
-- double-free/variant-01 to variant-08, src.c: the `vuln` of each variant, over a heap of byte
-- blocks. A result is what the function returns.
use bug_museum.Base.{
  ℕ, suc, ◌≡◌, ◌≢◌, refl, Bool, true, false, arith, ne→==, eq→==, if◌then◌else◌, ◌==◌,
}
use bug_museum.Memory.Fault.{Result, ok, fault, double_free, ◌>>=◌, Returns}
use bug_museum.Memory.Bytes.{load-ok, Bytes}
use bug_museum.Memory.Heap.{
  regrown, free-null, Ptr, null, Heap, live, released, put, fresh_bytes, malloc, deref, free,
  realloc, malloc-granted, deref-live, free-live, free-released,
}
use bug_museum.Exhibit.UseAfterFree.{
  length-string_block, new_string, string_block, with_string, new_string-granted, first_byte,
}

-- variant-01
unfoldable pub baseline_vuln : Heap Bytes → Bytes → Result ℕ
baseline_vuln h input = do
  (h, buf) ← new_string h 31 input
  r ← first_byte h buf
  h ← free h buf
  _ ← free h buf
  ok r

-- `if (p) free(p);`
guarded_free : Heap Bytes → Ptr → Result (Heap Bytes)
guarded_free h p = if p == null then ok h else free h p

-- variant-02
unfoldable pub guarded_vuln : Heap Bytes → Bytes → Result ℕ
unfolding guarded_free
guarded_vuln h input = do
  (h, buf) ← new_string h 31 input
  r ← first_byte h buf
  h ← guarded_free h buf
  _ ← guarded_free h buf
  ok r

-- variant-03: the global `g_last` is an argument and a result
unfoldable pub alias_vuln : Heap Bytes → Ptr → Bytes → Result (Heap Bytes × Ptr × ℕ)
alias_vuln h g_last input = do
  (h, buf) ← new_string h 31 input
  r ← first_byte h buf
  h ← free h g_last
  let g_last = buf
  h ← free h buf
  ok (h, g_last, r)

-- variant-04
unfoldable pub cleanup_vuln : Heap Bytes → Bytes → Result (Heap Bytes)
cleanup_vuln h input = do
  (h, buf) ← new_string h 31 input
  c ← first_byte h buf
  h ← (if c == b'!' then free h buf else ok h)
  free h buf

-- variant-05
consume : Heap Bytes → Ptr → Result (Heap Bytes × ℕ)
consume h p = do r ← first_byte h p; h ← free h p; ok (h, r)

unfoldable pub transfer_vuln : Heap Bytes → Bytes → Result ℕ
unfolding consume
transfer_vuln h input = do
  (h, buf) ← new_string h 31 input
  (h, r) ← consume h buf
  _ ← free h buf
  ok r

-- variant-06: blob_destroy frees the field that it is given, and clears that field alone
blob_destroy : Heap Bytes → Ptr → Result (Heap Bytes × Ptr)
blob_destroy h field = do h ← free h field; ok (h, null)

unfoldable pub shared_vuln : Heap Bytes → Bytes → Result ℕ
unfolding blob_destroy
shared_vuln h input = do
  (h, a) ← new_string h 31 input
  let b = a
  r ← first_byte h a
  (h, a) ← blob_destroy h a
  (h, b) ← blob_destroy h b
  ok r

-- variant-07; the negative result is `none` of the code's -1, written 0 here and told apart by the
-- second component
unfoldable pub realloc_vuln : Heap Bytes → Bytes → Result (Bool × ℕ)
realloc_vuln h input = do
  (h, buf) ← new_string h 15 input
  b ← deref h buf
  (h, larger) ← realloc h buf (regrown h b 64)
  if larger == null
      then (do _ ← free h buf; ok (false, 0))
      else (do r ← first_byte h larger; h ← free h buf; _ ← free h larger; ok (true, r))

-- variant-08, up to the second free
unfoldable pub bridge_vuln : Heap Bytes → Result (Heap Bytes)
bridge_vuln h = let (h', p) = malloc h (fresh_bytes h 32) in do h' ← free h' p; free h' p

module _ (h : Heap Bytes) (g : h.grants h.requests ≡ true) (input : Bytes) where
  abbrev p : Ptr
  p = suc h.requests

  abbrev filled : Heap Bytes
  filled = with_string h 31 input

  abbrev freed : Heap Bytes
  freed = record filled { cell = put filled.cell p released }

  free-filled : free filled p ≡ ok freed
  free-filled = free-live filled p (omega arith) {a = string_block h 31 input} (ground arith)

  free-freed : free freed p ≡ fault double_free
  free-freed = free-released freed p (omega arith) (ground arith)

  byte : (r : ℕ) × (first_byte filled p ≡ ok r)
  unfolding first_byte
  byte =
      let b = string_block h 31 input in
      let (r, e) = load-ok b 0 (omega (arith, length-string_block h 31 input)) in
      (r, rw (deref-live filled p (omega arith) {a = b} (ground arith), e))

  not_null : (p == null) ≡ false
  not_null = ne→== p null (omega arith)

  -- Where the block is granted, freeing twice (variant-01), behind a guard that is never reset
  -- (variant-02), after a callee has taken the block (variant-05), and through two owners of it
  -- (variant-06), all end in the fault of a double free, for every input.
  pub double_free-always :
      (baseline_vuln h input ≡ fault double_free)
      × (guarded_vuln h input ≡ fault double_free)
      × (transfer_vuln h input ≡ fault double_free)
      × (shared_vuln h input ≡ fault double_free)
  unfolding baseline_vuln guarded_vuln transfer_vuln shared_vuln
  double_free-always =
      let made = new_string-granted h 31 input g in
      let (r, e) = byte in
      (
        rw (made, e, free-filled, free-freed),
        rw (made, e, not_null, free-filled, free-freed),
        rw (made, e, free-filled, free-freed),
        rw (made, e, free-filled, free-freed),
      )

  -- The error path frees before the shared cleanup does; it is taken exactly when the first byte of
  -- the block is '!'. Otherwise the block is freed once.
  pub cleanup_vuln-exact :
      (c : ℕ)
      → first_byte filled p ≡ ok c
      → (c ≡ b'!' → cleanup_vuln h input ≡ fault double_free)
        × (c ≢ b'!' → cleanup_vuln h input ≡ ok freed)
  unfolding cleanup_vuln
  cleanup_vuln-exact c e = (
    λ bad. rw (new_string-granted h 31 input g, e, eq→== c b'!' bad, free-filled, free-freed),
    λ good. rw (new_string-granted h 31 input g, e, ne→== c b'!' good, free-filled),
  )

  alias-first : (r : ℕ) → first_byte filled p ≡ ok r → alias_vuln h null input ≡ ok (freed, p, r)
  unfolding alias_vuln
  alias-first r e = rw (new_string-granted h 31 input g, e, free-null filled, free-filled)

  alias-again :
      (q : Ptr) → q ≢ null → filled.cell q ≡ released → alias_vuln h q input ≡ fault double_free
  unfolding alias_vuln
  alias-again q ne gone =
      let (r, e) = byte in rw (new_string-granted h 31 input g, e, free-released filled q ne gone)

-- A first call of variant-03 that gets its block returns, and leaves the freed block in `g_last`;
-- any second call that gets its block frees the first one again.
pub alias_vuln-twice :
    (h : Heap Bytes) (input second : Bytes)
    → h.grants h.requests ≡ true
    → h.grants (suc h.requests) ≡ true
    → Returns
        (λ (h', g_last, r).
          (g_last ≡ suc h.requests) × (alias_vuln h' g_last second ≡ fault double_free))
        (alias_vuln h null input)
alias_vuln-twice h input second g g' =
    let (r, e) = byte h g input in
    (
      (freed h g input, suc h.requests, r),
      alias-first h g input r e,
      (refl, alias-again (freed h g input) g' second (suc h.requests) (omega arith) (ground arith)),
    )

-- variant-08 frees its block twice whenever the allocator gives it one.
bridge_vuln-twice :
    (h : Heap Bytes) → h.grants h.requests ≡ true → bridge_vuln h ≡ fault double_free
unfolding bridge_vuln
bridge_vuln-twice h g =
    let space = fresh_bytes h 32 in
    let p = suc h.requests in
    let h' = record h { cell = put h.cell p (live space); requests = p } in
    let h'' = record h' { cell = put h'.cell p released } in
    rw (
      malloc-granted h space g,
      free-live h' p (omega arith) {a = space} (ground arith),
      free-released h'' p (omega arith) (ground arith),
    )
