-- ===== src/Exhibit/HeapOverflow.antt =====
-- heap-overflow/variant-01 to variant-06, src.c: the `vuln` of each variant, over a heap of byte
-- blocks. The result is the heap when the function returns.
use bug_museum.Base.{
  ℕ, suc, ◌≤◌, ◌<◌, ◌≡◌, ◌≢◌, refl, true, false, [], ◌∷◌, ◌++◌, arith, length, length-tabulate_from,
  length-append,
}
use bug_museum.Exhibit.StackOverflow
use bug_museum.Memory.Fault.{Fault, Result, ok, fault, overflow, null_deref, ◌>>=◌, Returns}
use bug_museum.Memory.Loop.{copy_loop, copy_loop-overflow}
use bug_museum.Memory.Bytes.{Bytes, memcpy, strcpy, strncpy, blit-overflow}
use bug_museum.Memory.Heap.{
  Ptr, Heap, live, released, put, fresh_bytes, malloc, deref, assign, free, malloc-granted,
  malloc-refused, deref-live, assign-live, free-live,
}
use bug_museum.Exhibit.StackOverflow.{local_buffer, strcpy_vuln-exact}

-- `char *buf = malloc(size)`, one write that fills the block, and `free(buf)`
unfoldable pub with_block : Heap Bytes → ℕ → (Bytes → Result Bytes) → Result (Heap Bytes)
with_block h size write =
    let (h', p) = malloc h (fresh_bytes h size) in
    do b ← deref h' p; b' ← write b; h' ← assign h' p b'; free h' p

-- variant-01
unfoldable pub strcpy_vuln : Heap Bytes → Bytes → Result (Heap Bytes)
strcpy_vuln h input = with_block h 16 (λ b. strcpy b input)

-- variant-02
unfoldable pub sprintf_vuln : Heap Bytes → Bytes → Result (Heap Bytes)
sprintf_vuln h input = with_block h 16 (λ b. strcpy b input)

-- variant-03
unfoldable pub memcpy_vuln : Heap Bytes → Bytes → ℕ → Result (Heap Bytes)
memcpy_vuln h mem len = with_block h 16 (λ b. memcpy b 0 mem len)

-- variant-04
unfoldable pub strncpy_vuln : Heap Bytes → Bytes → Result (Heap Bytes)
strncpy_vuln h input = with_block h 16 (λ b. strncpy b input (length input))

-- variant-05
unfoldable pub sized_vuln : Heap Bytes → Bytes → Result (Heap Bytes)
sized_vuln h input = with_block h (length input) (λ b. strcpy b input)

-- variant-06
unfoldable pub loop_vuln : Heap Bytes → Bytes → Result (Heap Bytes)
loop_vuln h mem = with_block h 16 (λ b. copy_loop 17 0 b mem)

-- The heap after the block has been allocated, written and freed.
abbrev pub UsedOnce : Heap Bytes → ℕ → Heap Bytes → Type 0
UsedOnce h size h' =
    (h'.requests ≡ suc h.requests)
    × (h'.cell (suc h.requests) ≡ released)
    × ((q : Ptr) → q ≢ suc h.requests → h'.cell q ≡ h.cell q)

module _ (h : Heap Bytes) (size : ℕ) (write : Bytes → Result Bytes) where
  -- What decides the outcome of a variant: the write into the fresh block.
  pub with_block-ok :
      {b : Bytes}
      → h.grants h.requests ≡ true
      → write (fresh_bytes h size) ≡ ok b
      → Returns (UsedOnce h size) (with_block h size write)
  unfolding with_block
  with_block-ok {b} g e =
      let p = suc h.requests in
      let space = fresh_bytes h size in
      let h' = record h { cell = put h.cell p (live space); requests = p } in
      let h'' = record h' { cell = put h'.cell p (live b) } in
      rw
        (
          malloc-granted h space g,
          deref-live h' p (omega arith) {a = space} (ground arith),
          e,
          assign-live h' p (omega arith) {a = space} b (ground arith),
          free-live h'' p (omega arith) {a = b} (ground arith),
        )
        (_, refl, (refl, ground arith, λ q ne. ground arith))

  pub with_block-fault :
      {f : Fault}
      → h.grants h.requests ≡ true
      → write (fresh_bytes h size) ≡ fault f
      → with_block h size write ≡ fault f
  unfolding with_block
  with_block-fault g e =
      let p = suc h.requests in
      let space = fresh_bytes h size in
      let h' = record h { cell = put h.cell p (live space); requests = p } in
      rw (malloc-granted h space g, deref-live h' p (omega arith) {a = space} (ground arith), e)

  pub with_block-refused : h.grants h.requests ≡ false → with_block h size write ≡ fault null_deref
  unfolding with_block deref
  with_block-refused g = rw (malloc-refused h (fresh_bytes h size) g)

module _ (h : Heap Bytes) (g : h.grants h.requests ≡ true) where
  -- The strings that are safe to copy are those of the stack exhibit: at most 15 characters. The
  -- block is then freed and the rest of the heap is as before.
  pub heap_strcpy-exact :
      (input : Bytes)
      → (length input < 16
          → Returns (UsedOnce h 16) (strcpy_vuln h input)
            × Returns (UsedOnce h 16) (sprintf_vuln h input))
        × (16 ≤ length input
            → (strcpy_vuln h input ≡ fault overflow) × (sprintf_vuln h input ≡ fault overflow))
  unfolding strcpy_vuln sprintf_vuln StackOverflow.strcpy_vuln
  heap_strcpy-exact input =
      let (small, big) = strcpy_vuln-exact (h.junk h.requests) input in
      (
        (λ lt.
            let ((b, run, _), _) = small lt in
            let r = with_block-ok h 16 (λ b. strcpy b input) g run in (r, r)),
        (λ le.
            let (e, _) = big le in
            let r = with_block-fault h 16 (λ b. strcpy b input) g e in (r, r)),
      )

  -- A block of exactly the string's length is one byte short for the NUL, whatever the string.
  pub sized_vuln-overflow : (input : Bytes) → sized_vuln h input ≡ fault overflow
  unfolding sized_vuln strcpy
  sized_vuln-overflow input =
      let space = fresh_bytes h (length input) in
      with_block-fault h (length input) (λ b. strcpy b input) g
        (blit-overflow space 0 (input ++ 0 ∷ []) (
          omega (
            arith,
            length-append input (0 ∷ []),
            length-tabulate_from 0 (length input) (h.junk h.requests),
          )))

  -- The loop runs one byte over the block for every source of at least seventeen bytes.
  pub heap_loop-overflow : (mem : Bytes) → 17 ≤ length mem → loop_vuln h mem ≡ fault overflow
  unfolding loop_vuln
  heap_loop-overflow mem enough =
      let n = length-tabulate_from 0 16 (h.junk h.requests) in
      with_block-fault h 16 (λ b. copy_loop 17 0 b mem) g
        (copy_loop-overflow 17 0 (fresh_bytes h 16) mem (omega arith) (omega arith) (omega arith))
