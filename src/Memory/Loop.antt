-- ===== src/Memory/Loop.antt =====
-- The byte-by-byte copy `for (...; i++) buf[i] = mem[i]` that several functions write out.
use bug_museum.Base.{
  ℕ, zero, suc, ◌+◌, ◌≤◌, ◌<◌, ◌≡◌, arith, le_or_lt, inl, inr, length, set, length-set,
}
use bug_museum.Memory.Fault.{Result, ok, fault, overflow, over_read, ◌>>=◌}
use bug_museum.Memory.Bytes.{Bytes, load, load-ok, load-over_read, store-ok, store-overflow, store}

-- The loop from `i` on, with its rounds left.
unfoldable pub copy_loop : ℕ → ℕ → Bytes → Bytes → Result Bytes
copy_loop zero i buf mem = ok buf
copy_loop (suc rounds) i buf mem = do
  c ← load mem i
  buf ← store buf i c
  copy_loop rounds (suc i) buf mem

-- A loop with a round behind the end of the buffer overflows, if the source is longer.
pub copy_loop-overflow :
    (rounds i : ℕ) (buf mem : Bytes)
    → i ≤ length buf
    → length buf < i + rounds
    → length buf < length mem
    → copy_loop rounds i buf mem ≡ fault overflow
unfolding copy_loop
copy_loop-overflow zero i buf mem a b c = absurd (omega arith)
copy_loop-overflow (suc rounds) i buf mem a b c =
    let (x, e) = load-ok mem i (omega arith) in
    elim (le_or_lt (length buf) i) [
      | inl past ↦ rw (e, store-overflow buf i x past)
      | inr inside ↦
          let n : length (set buf i x) ≡ length buf = length-set buf i x in
          rw (e, store-ok buf i x inside)
            (copy_loop-overflow rounds (suc i) (set buf i x) mem (omega arith) (omega arith)
              (omega arith))
    ]

-- One with a round behind the end of the source reads there, if the buffer is long enough.
pub copy_loop-over_read :
    (rounds i : ℕ) (buf mem : Bytes)
    → i ≤ length mem
    → length mem < i + rounds
    → length mem ≤ length buf
    → copy_loop rounds i buf mem ≡ fault over_read
unfolding copy_loop
copy_loop-over_read zero i buf mem a b c = absurd (omega arith)
copy_loop-over_read (suc rounds) i buf mem a b c = elim (le_or_lt (length mem) i) [
  | inl past ↦ rw (load-over_read mem i past)
  | inr inside ↦
      let (x, e) = load-ok mem i inside in
      let n : length (set buf i x) ≡ length buf = length-set buf i x in
      rw (e, store-ok buf i x (omega arith))
        (copy_loop-over_read rounds (suc i) (set buf i x) mem (omega arith) (omega arith)
          (omega arith))
]
