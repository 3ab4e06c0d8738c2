-- ===== src/Exhibit/UseAfterFree.antt =====
-- use-after-free/variant-01, 02, 03, 05 and 06, src.c: the `vuln` of each variant, over a heap of byte
-- blocks.
use bug_museum.Base.{
  get_elem?-set_self, length-drop, ℕ, suc, ◌+◌, ◌≤◌, ◌<◌, ◌≡◌, ◌≢◌, refl, ap, ◌∙◌, true, false, [],
  ◌∷◌, ◌++◌, arith, ne→==, if◌then◌else◌, length, drop, set, length-tabulate_from, length-append,
  length-set, ◌==◌,
}
use bug_museum.Memory.Fault.{Result, ok, fault, null_deref, use_after_free, ◌>>=◌, Returns}
use bug_museum.Memory.Bytes.{
  c_string-cons, c_string-ok, Bytes, load, store, splice, strncpy, padded, blit-ok, store-ok,
  length-padded, length-splice, c_string,
}
use bug_museum.Memory.Heap.{
  Ptr, Heap, live, released, put, fresh_bytes, malloc, deref, assign, free, malloc-granted,
  malloc-refused, deref-live, deref-released, assign-live, free-live,
}

-- `buf = malloc(32); strncpy(buf, input, 31); buf[31] = '\0'`, with 32 replaced by `suc n`
unfoldable pub new_string : Heap Bytes → ℕ → Bytes → Result (Heap Bytes × Ptr)
new_string h n input =
    let (h', p) = malloc h (fresh_bytes h (suc n)) in
    do b ← deref h' p; b ← strncpy b input n; b ← store b n 0; h' ← assign h' p b; ok (h', p)

-- The bytes that it leaves.
abbrev pub string_block : Heap Bytes → ℕ → Bytes → Bytes
string_block h n input = set (splice (fresh_bytes h (suc n)) 0 (padded input n)) n 0

abbrev pub with_string : Heap Bytes → ℕ → Bytes → Heap Bytes
with_string h n input =
    let p = suc h.requests in
    record h {
      cell = put (put h.cell p (live (fresh_bytes h (suc n)))) p (live (string_block h n input));
      requests = p;
    }

module _ (h : Heap Bytes) (n : ℕ) (input : Bytes) where
  pub new_string-granted :
      h.grants h.requests ≡ true → new_string h n input ≡ ok (with_string h n input, suc h.requests)
  unfolding new_string strncpy
  new_string-granted g =
      let p = suc h.requests in
      let space = fresh_bytes h (suc n) in
      let h' = record h { cell = put h.cell p (live space); requests = p } in
      let size : length space ≡ suc n = length-tabulate_from 0 (suc n) (h.junk h.requests) in
      let src = padded input n in
      let room : 0 + length src ≤ length space = omega (arith, length-padded input n) in
      let full = length-splice space 0 src room in
      rw (
        malloc-granted h space g,
        deref-live h' p (omega arith) {a = space} (ground arith),
        blit-ok space 0 src room,
        store-ok (splice space 0 src) n 0 (omega arith),
        assign-live h' p (omega arith) {a = space} (string_block h n input) (ground arith),
      )

  pub new_string-refused : h.grants h.requests ≡ false → new_string h n input ≡ fault null_deref
  unfolding new_string deref
  new_string-refused g = rw (malloc-refused h (fresh_bytes h (suc n)) g)

-- `buf[0]`, `*p`
unfoldable pub first_byte : Heap Bytes → Ptr → Result ℕ
first_byte h p = do b ← deref h p; load b 0

-- `printf("%s\n", p)`
unfoldable pub print_string : Heap Bytes → Ptr → Result Bytes
print_string h p = do b ← deref h p; c_string b

-- variant-01
unfoldable pub read_vuln : Heap Bytes → Bytes → Result ℕ
read_vuln h input = do (h, buf) ← new_string h 31 input; h ← free h buf; first_byte h buf

-- variant-02
unfoldable pub write_vuln : Heap Bytes → Bytes → Result (Heap Bytes)
write_vuln h input =
    let (h', buf) = malloc h (fresh_bytes h 32) in
    do h' ← free h' buf; b ← deref h' buf; b ← strncpy b input 31; b ← store b 31 0; assign h' buf b

-- variant-03: `g_last` is the second component of the state
unfoldable pub alias_vuln : Heap Bytes → Bytes → Result Bytes
alias_vuln h input = do
  (h, buf) ← new_string h 31 input
  let g_last = buf
  h ← free h buf
  print_string h g_last

-- variant-05: the struct is the block that holds the address of its data
unfoldable pub member_vuln : Heap Bytes → Bytes → Result Bytes
member_vuln h input =
    let (h', b) = malloc h (fresh_bytes h 16) in
    do
      _ ← deref h' b
      (h', bytes) ← new_string h' 31 input
      let p = bytes
      h' ← free h' bytes
      h' ← free h' b
      print_string h' p

-- variant-06: the rest of the function after the block is filled
unfoldable pub reject_tail : Heap Bytes → Ptr → Bytes → Result ℕ
reject_tail h buf text =
    if length text == 0
    then (do h ← free h buf; _ ← print_string h buf; ok 0)
    else (do h ← free h buf; ok (length text))

unfoldable pub reject_vuln : Heap Bytes → Bytes → Result ℕ
reject_vuln h input = do
  (h, buf) ← new_string h 31 input
  text ← print_string h buf
  reject_tail h buf text

module _ (h : Heap Bytes) (g : h.grants h.requests ≡ true) (input : Bytes) where
  abbrev p : Ptr
  p = suc h.requests

  abbrev freed : Heap Bytes
  freed = record (with_string h 31 input) { cell = put (with_string h 31 input).cell p released }

  free-string : free (with_string h 31 input) p ≡ ok freed
  free-string =
      free-live (with_string h 31 input) p (omega arith) {a = string_block h 31 input}
        (ground arith)

  deref-freed : deref freed p ≡ fault use_after_free
  deref-freed = deref-released freed p (omega arith) (ground arith)

  -- Where the block is granted, the read (variant-01), the write (variant-02) and the printed alias
  -- (variant-03) all reach the block after its release, for every input.
  pub use_after_free-always :
      (read_vuln h input ≡ fault use_after_free)
      × (write_vuln h input ≡ fault use_after_free)
      × (alias_vuln h input ≡ fault use_after_free)
  unfolding read_vuln write_vuln alias_vuln first_byte print_string
  use_after_free-always =
      let space = fresh_bytes h 32 in
      let h' = record h { cell = put h.cell p (live space); requests = p } in
      let h'' = record h' { cell = put h'.cell p released } in
      (
        rw (new_string-granted h 31 input g, free-string, deref-freed),
        rw (
          malloc-granted h space g,
          free-live h' p (omega arith) {a = space} (ground arith),
          deref-released h'' p (omega arith) (ground arith),
        ),
        rw (new_string-granted h 31 input g, free-string, deref-freed),
      )

  -- So does the pointer saved from a struct that is then destroyed, where the struct is granted too.
  pub member_vuln-always :
      h.grants (suc h.requests) ≡ true → member_vuln h input ≡ fault use_after_free
  unfolding member_vuln print_string
  member_vuln-always g' =
      let space = fresh_bytes h 16 in
      let h₁ = record h { cell = put h.cell p (live space); requests = p } in
      let q = suc p in
      let h₂ = with_string h₁ 31 input in
      let h₃ = record h₂ { cell = put h₂.cell q released } in
      let h₄ = record h₃ { cell = put h₃.cell p released } in
      rw (
        malloc-granted h space g,
        deref-live h₁ p (omega arith) {a = space} (ground arith),
        new_string-granted h₁ 31 input g',
        free-live h₂ q (omega arith) {a = string_block h₁ 31 input} (ground arith),
        free-live h₃ p (omega arith) {a = space} (ground arith),
        deref-released h₄ q (omega arith) (ground arith),
      )

  -- The reject path prints the block after its release; it is taken for the empty input alone.
  reject-run :
      (text : Bytes)
      → c_string (string_block h 31 input) ≡ ok text
      → reject_vuln h input ≡ (if length text == 0 then fault use_after_free else ok (length text))
  unfolding reject_vuln reject_tail print_string
  reject-run text e = rw (
    new_string-granted h 31 input g,
    deref-live (with_string h 31 input) p (omega arith) {a = string_block h 31 input}
        (ground arith),
    e,
    free-string,
    deref-freed,
  )

-- variant-06 on a block whose text is not empty and ends within its first 31 bytes.
reject-ok :
    (h : Heap Bytes) (g : h.grants h.requests ≡ true) (input text : Bytes)
    → c_string (string_block h 31 input) ≡ ok text
    → 0 < length text
    → length text ≤ 31
    → Returns (λ n. (1 ≤ n) × (n ≤ 31)) (reject_vuln h input)
reject-ok h g input text run some_text short =
    let ne : length text ≢ 0 = omega arith in
    (
      length text,
      reject-run h g input text run
          ∙ ap (λ b. if b then fault use_after_free else ok (length text))
              (ne→== (length text) 0 ne),
      (some_text, short),
    )

-- variant-06, where the block is granted: the empty string ends in a use after free; for a string
-- whose first character is not NUL, the function returns a length between 1 and 31.
pub reject_vuln-exact :
    (h : Heap Bytes) (g : h.grants h.requests ≡ true)
    → (reject_vuln h [] ≡ fault use_after_free)
      × ((c : ℕ) (rest : Bytes)
          → c ≢ 0
          → Returns (λ n. (1 ≤ n) × (n ≤ 31)) (reject_vuln h (c ∷ rest)))
unfolding c_string
reject_vuln-exact h g = (
  reject-run h g [] [] refl,
  λ c rest ne.
      let space = fresh_bytes h 32 in
      let src = padded rest 30 in
      let bs = src ++ drop (0 + suc (length src)) space in
      let n : length bs ≡ 31 = omega (
        arith,
        length-append src (drop (0 + suc (length src)) space),
        length-drop (0 + suc (length src)) space,
        length-padded rest 30,
        length-tabulate_from 0 32 (h.junk h.requests),
      ) in
      let (s, run, le) = c_string-ok (set bs 30 0) 30 (get_elem?-set_self bs 30 0 (omega arith)) in
      reject-ok h g (c ∷ rest) (c ∷ s) (c_string-cons c (set bs 30 0) ne run) (omega arith)
        (omega arith),
)

pub length-string_block :
    (h : Heap Bytes) (n : ℕ) (input : Bytes) → length (string_block h n input) ≡ suc n
length-string_block h n input =
    let space = fresh_bytes h (suc n) in
    let size : length space ≡ suc n = length-tabulate_from 0 (suc n) (h.junk h.requests) in
    let room : 0 + length (padded input n) ≤ length space = omega (arith, length-padded input n) in
    length-set (splice space 0 (padded input n)) n 0
    ∙ length-splice space 0 (padded input n) room
    ∙ size
