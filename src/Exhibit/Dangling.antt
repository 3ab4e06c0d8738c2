-- ===== src/Exhibit/Dangling.antt =====
-- use-after-free/variant-04-*/src.c and variant-07-*/src.c: the `vuln` of the two variants that allocate
-- again before they use the stale pointer, over a heap of byte blocks.
use bug_museum.Base.{
  suc, ◌+◌, ◌≡◌, ◌≢◌, refl, true, Option, none, some, [], ◌∷◌, ◌++◌, arith, ne→==, ◌==◌,
  if◌then◌else◌, length, take, length-take, length-tabulate_from, length-set,
}
use bug_museum.Memory.Fault.{Result, ok, fault, use_after_free, ◌>>=◌, Returns}
use bug_museum.Memory.Bytes.{
  Bytes, blit, store, strcpy, splice, padded, blit-ok, store-ok, c_string, length-padded,
  length-splice,
}
use bug_museum.Memory.Heap.{
  Ptr, null, Heap, live, released, put, fresh_bytes, regrown, malloc, realloc, realloc-moved, deref,
  assign, free, malloc-granted, deref-live, deref-released, assign-live, free-live,
}
use bug_museum.Text.{codes}
use bug_museum.Exhibit.UseAfterFree.{print_string}

-- `strcat(p, s)`
unfoldable pub append_string : Heap Bytes → Ptr → Bytes → Result (Heap Bytes)
append_string h p s = do
  b ← deref h p
  text ← c_string b
  b ← blit b (length text) (s ++ 0 ∷ [])
  assign h p b

-- variant-04: none where realloc is refused
unfoldable pub grown_vuln : Heap Bytes → Bytes → Result (Option Bytes)
grown_vuln h more =
    let (h', buf) = malloc h (fresh_bytes h 16) in
    do
      b ← deref h' buf
      b ← strcpy b (codes "id=")
      h₁ ← assign h' buf b
      (h₂, grown) ← realloc h₁ buf (regrown h₁ b (16 + length more + 1))
      if grown == null
          then (do h₃ ← free h₂ buf; ok none)
          else (do h₃ ← append_string h₂ buf more; text ← print_string h₃ grown; ok (some text))

-- `struct Handler` before it is freed: the address of `greet`, and the name.
unfoldable pub new_handler : Bytes → Bytes → Result Bytes
new_handler greet b = do b ← blit b 0 greet; b ← blit b 8 (padded (codes "guest") 23); store b 31 0

-- variant-07: the eight bytes that are called
unfoldable pub hijack_vuln : Bytes → Heap Bytes → Bytes → Result Bytes
hijack_vuln greet h input =
    let (h', p) = malloc h (fresh_bytes h 32) in
    do
      b ← deref h' p
      b ← new_handler greet b
      h₁ ← assign h' p b
      h₂ ← free h₁ p
      let (h₃, reuse) = malloc h₂ (fresh_bytes h₂ 32)
      b ← deref h₃ reuse
      b ← blit b 0 (take 32 input)
      h₄ ← assign h₃ reuse b
      b ← deref h₄ p
      ok (take 8 b)

new_handler-Returns :
    (greet b : Bytes)
    → length greet ≡ 8
    → length b ≡ 32
    → Returns (λ b'. length b' ≡ 32) (new_handler greet b)
unfolding new_handler
new_handler-Returns greet b eight size =
    let b₁ = splice b 0 greet in
    let n₁ = length-splice b 0 greet (omega (arith, eight, size)) in
    let name = padded (codes "guest") 23 in
    let m = length-padded (codes "guest") 23 in
    let b₂ = splice b₁ 8 name in
    let n₂ = length-splice b₁ 8 name (omega (arith, m, n₁, size)) in
    rw
      (
        blit-ok b 0 greet (omega (arith, eight, size)),
        blit-ok b₁ 8 name (omega (arith, m, n₁, size)),
        store-ok b₂ 31 0 (omega (arith, n₂, n₁, size)),
      )
      (_, refl, omega (arith, length-set b₂ 31 0, n₂, n₁, size))

-- The second allocation does not revive the first: reading the handler is a use after free, for every
-- input, if both requests are granted.
pub hijack_vuln-faults :
    (greet : Bytes) (h : Heap Bytes) (input : Bytes)
    → length greet ≡ 8
    → h.grants h.requests ≡ true
    → h.grants (suc h.requests) ≡ true
    → hijack_vuln greet h input ≡ fault use_after_free
unfolding hijack_vuln
hijack_vuln-faults greet h input eight g g' =
    let p = suc h.requests in
    let space = fresh_bytes h 32 in
    let h' : Heap Bytes = record h { cell = put h.cell p (live space); requests = p } in
    let (b, run, size) =
      new_handler-Returns greet space eight (length-tabulate_from 0 32 (h.junk h.requests)) in
    let h₁ : Heap Bytes = record h' { cell = put h'.cell p (live b) } in
    let h₂ : Heap Bytes = record h₁ { cell = put h₁.cell p released } in
    let space' = fresh_bytes h₂ 32 in
    let p' = suc p in
    let h₃ : Heap Bytes = record h₂ { cell = put h₂.cell p' (live space'); requests = p' } in
    let b' = splice space' 0 (take 32 input) in
    let h₄ : Heap Bytes = record h₃ { cell = put h₃.cell p' (live b') } in
    rw (
      malloc-granted h space g,
      deref-live h' p (omega arith) {a = space} (ground arith),
      run,
      assign-live h' p (omega arith) {a = space} b (ground arith),
      free-live h₁ p (omega arith) {a = b} (ground arith),
      malloc-granted h₂ space' g',
      deref-live h₃ p' (omega arith) {a = space'} (ground arith),
      blit-ok space' 0 (take 32 input)
          (omega (arith, length-take 32 input, length-tabulate_from 0 32 (h₂.junk h₂.requests))),
      assign-live h₃ p' (omega arith) {a = space'} b' (ground arith),
      deref-released h₄ p (omega arith) (ground arith),
    )

append_string-released :
    (h : Heap Bytes) (p : Ptr) (s : Bytes)
    → p ≢ null
    → h.cell p ≡ released
    → append_string h p s ≡ fault use_after_free
unfolding append_string
append_string-released h p s ne gone = rw (deref-released h p ne gone)

id_written :
    (space : Bytes)
    → length space ≡ 16
    → strcpy space (codes "id=") ≡ ok (splice space 0 (codes "id=" ++ 0 ∷ []))
unfolding strcpy
id_written space size = blit-ok space 0 (codes "id=" ++ 0 ∷ []) (omega (arith, size))

-- Where realloc moves the block, the append through the old pointer is a use after free, whatever is
-- appended.
pub grown_vuln-moved :
    (h : Heap Bytes) (more : Bytes)
    → h.grants h.requests ≡ true
    → h.grants (suc h.requests) ≡ true
    → h.moves (suc h.requests) ≡ true
    → grown_vuln h more ≡ fault use_after_free
unfolding grown_vuln
grown_vuln-moved h more g g' moved =
    let p = suc h.requests in
    let space = fresh_bytes h 16 in
    let h' : Heap Bytes = record h { cell = put h.cell p (live space); requests = p } in
    let b = splice space 0 (codes "id=" ++ 0 ∷ []) in
    let h₁ : Heap Bytes = record h' { cell = put h'.cell p (live b) } in
    let big = regrown h₁ b (16 + length more + 1) in
    let p' = suc p in
    let h₂ : Heap Bytes = record h₁ {
      cell = put (put h₁.cell p released) p' (live big);
      requests = p';
    } in
    rw (
      malloc-granted h space g,
      deref-live h' p (omega arith) {a = space} (ground arith),
      id_written space (length-tabulate_from 0 16 (h.junk h.requests)),
      assign-live h' p (omega arith) {a = space} b (ground arith),
      realloc-moved h₁ p (omega arith) {a = b} big (ground arith) g' moved,
      ne→== p' null (omega arith),
      append_string-released h₂ p more (omega arith) (ground arith),
    )
