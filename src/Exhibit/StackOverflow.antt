-- ===== src/Exhibit/StackOverflow.antt =====
-- stack-overflow/variant-01 to variant-06, src.c: the `vuln` of each variant. A result is the local
-- buffer when the function returns; `junk` is what the frame held before.
use bug_museum.Base.{
  ℕ, ◌+◌, ◌≤◌, ◌<◌, ◌≡◌, refl, sym, ap, ◌∙◌, [], ◌∷◌, ◌++◌, arith, length-take, le→leb, length,
  take, drop, tabulate_from, length-tabulate_from, length-append, take-length-append,
}
use native.Mathlib.Nat.{zero-add}
use bug_museum.Memory.Fault.{Result, fault, overflow, over_read, Returns}
use bug_museum.Memory.Loop.{copy_loop, copy_loop-overflow, copy_loop-over_read}
use bug_museum.Memory.Bytes.{
  Bytes, blit, splice, memcpy, strcpy, strncpy, padded, blit-ok, blit-overflow, length-padded,
  padded-length,
}

-- `char buf[16]`, and `wchar_t buf[16]` counted in units
abbrev pub local_buffer : (ℕ → ℕ) → Bytes
local_buffer junk = tabulate_from 0 16 junk

-- variant-01
unfoldable pub strcpy_vuln : (ℕ → ℕ) → Bytes → Result Bytes
strcpy_vuln junk input = strcpy (local_buffer junk) input

-- variant-02: the text that "%s" expands to is the string itself
unfoldable pub sprintf_vuln : (ℕ → ℕ) → Bytes → Result Bytes
sprintf_vuln junk input = strcpy (local_buffer junk) input

-- variant-03: `mem` is the object that `input` points to
unfoldable pub memcpy_vuln : (ℕ → ℕ) → Bytes → ℕ → Result Bytes
memcpy_vuln junk mem len = memcpy (local_buffer junk) 0 mem len

-- variant-04
unfoldable pub strncpy_vuln : (ℕ → ℕ) → Bytes → Result Bytes
strncpy_vuln junk input = strncpy (local_buffer junk) input (length input)

-- variant-05: `sizeof(buf)` is 32, and wcsncpy counts units
unfoldable pub wcsncpy_vuln : (ℕ → ℕ) → Bytes → Result Bytes
wcsncpy_vuln junk input = strncpy (local_buffer junk) input 32

-- variant-06
unfoldable pub loop_vuln : (ℕ → ℕ) → Bytes → Result Bytes
loop_vuln junk mem = copy_loop 17 0 (local_buffer junk) mem

module _ (junk : ℕ → ℕ) where
  length-local : length (local_buffer junk) ≡ 16
  length-local = length-tabulate_from 0 16 junk

  -- strcpy and sprintf of a string of at most 15 characters put it and its NUL at the front of the
  -- buffer; of any longer string they overflow.
  pub strcpy_vuln-exact :
      (input : Bytes)
      → (length input < 16
          → Returns (λ b. take (length input + 1) b ≡ input ++ 0 ∷ []) (strcpy_vuln junk input)
            × Returns (λ b. take (length input + 1) b ≡ input ++ 0 ∷ []) (sprintf_vuln junk input))
        × (16 ≤ length input
            → (strcpy_vuln junk input ≡ fault overflow)
              × (sprintf_vuln junk input ≡ fault overflow))
  unfolding strcpy_vuln sprintf_vuln strcpy
  strcpy_vuln-exact input =
      let src = input ++ 0 ∷ [] in
      let n : length src ≡ length input + 1 = omega (arith, length-append input (0 ∷ [])) in
      (
        (λ small.
            let run = blit-ok (local_buffer junk) 0 src (omega (arith, length-local)) in
            let r : Returns (λ b. take (length input + 1) b ≡ input ++ 0 ∷ [])
                (blit (local_buffer junk) 0 src) =
              (splice (local_buffer junk) 0 src, run, rw (← n) (take-length-append src _)) in
            (r, r)),
        (λ big.
            let e = blit-overflow (local_buffer junk) 0 src (omega (arith, length-local)) in
            (e, e)),
      )

  -- memcpy with the caller's length overflows exactly when the length is above 16, for a source that
  -- has that many bytes; otherwise the bytes arrive.
  pub memcpy_vuln-exact :
      (mem : Bytes) (len : ℕ)
      → len ≤ length mem
      → (len ≤ 16 → Returns (λ b. take len b ≡ take len mem) (memcpy_vuln junk mem len))
        × (16 < len → memcpy_vuln junk mem len ≡ fault overflow)
  unfolding memcpy_vuln memcpy
  memcpy_vuln-exact mem len there =
      let b = local_buffer junk in
      let src = take len mem in
      let n : length src ≡ len = omega (arith, length-take len mem) in
      (
        (λ small.
            rw (le→leb _ _ there, blit-ok b 0 src (omega (arith, length-local)))
              (_, refl, ap (λ k. take k (splice b 0 src)) (sym n) ∙ take-length-append src _)),
        (λ big. rw (le→leb _ _ there) (blit-overflow b 0 src (omega (arith, length-local)))),
      )

  -- strncpy with the source's length as its count is in bounds up to 16 characters, where it writes
  -- the characters and no NUL, and overflows above 16.
  pub strncpy_vuln-exact :
      (input : Bytes)
      → (length input ≤ 16
          → Returns
              (λ b. b ≡ input ++ drop (length input) (local_buffer junk))
              (strncpy_vuln junk input))
        × (16 < length input → strncpy_vuln junk input ≡ fault overflow)
  unfolding strncpy_vuln strncpy
  strncpy_vuln-exact input =
      let b = local_buffer junk in
      let e = padded-length input in
      (
        (λ small.
            rw (e, blit-ok b 0 input (omega (arith, length-local)))
              (_, refl, ap (λ n. input ++ drop n b) (zero-add (length input)))),
        (λ big. rw e (blit-overflow b 0 input (omega (arith, length-local)))),
      )

  -- The wide copy overflows for every input, since it pads short ones to its count.
  pub wcsncpy_vuln-overflow : (input : Bytes) → wcsncpy_vuln junk input ≡ fault overflow
  unfolding wcsncpy_vuln strncpy
  wcsncpy_vuln-overflow input =
      blit-overflow (local_buffer junk) 0 (padded input 32)
        (omega (arith, length-local, length-padded input 32))

-- The loop takes seventeen rounds, so it overflows for every source of at least seventeen bytes.
pub loop_vuln-overflow :
    (junk : ℕ → ℕ) (mem : Bytes) → 17 ≤ length mem → loop_vuln junk mem ≡ fault overflow
unfolding loop_vuln
loop_vuln-overflow junk mem enough =
    copy_loop-overflow 17 0 (local_buffer junk) mem (omega (arith, length-local junk))
      (omega (arith, length-local junk)) (omega (arith, length-local junk))

-- For a shorter source it reads behind the source's end: the loop is never in bounds.
pub loop_vuln-over_read :
    (junk : ℕ → ℕ) (mem : Bytes) → length mem ≤ 16 → loop_vuln junk mem ≡ fault over_read
unfolding loop_vuln
loop_vuln-over_read junk mem short =
    copy_loop-over_read 17 0 (local_buffer junk) mem (omega arith) (omega arith)
      (omega (arith, length-local junk))
