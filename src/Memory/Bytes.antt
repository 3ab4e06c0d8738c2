-- ===== src/Memory/Bytes.antt =====
-- Byte buffers of a fixed size, and the routines of <string.h> that the code calls on them. A buffer
-- is the list of its bytes, so its length is its size; a write or a read outside it is a fault.
-- A C string argument is the list of its characters, the closing NUL left out.
use bug_museum.Base.{
  inr, inl, ne→==, ◌≢◌, Bool-cases, lt→ltb, get_elem?_of_lt, get_elem?_of_ge, ge→ltb, ℕ, zero, suc,
  ◌+◌, ◌≤◌, ◌<◌, ◌≡◌, refl, ap, Bool, true, false, none, some, List, [], ◌∷◌, ◌++◌, arith, leb, ltb,
  ◌==◌, if◌then◌else◌, le→leb, gt→leb, length, get_elem?, set, take, drop, length-append,
  length-take, length-drop,
}
use bug_museum.Memory.Fault.{Result, ok, fault, overflow, over_read, Ends}

abbrev pub Bytes : Type 0
Bytes = List ℕ

-- `buf[i]`
unfoldable pub load : Bytes → ℕ → Result ℕ
load buf i = elim (get_elem? buf i) [ none ↦ fault over_read | some b ↦ ok b ]

-- `buf[i] = b`
unfoldable pub store : Bytes → ℕ → ℕ → Result Bytes
store buf i b = if ltb i (length buf) then ok (set buf i b) else fault overflow

abbrev pub splice : Bytes → ℕ → Bytes → Bytes
splice buf off src = take off buf ++ (src ++ drop (off + length src) buf)

-- `memcpy(buf + off, src, length src)`
unfoldable pub blit : Bytes → ℕ → Bytes → Result Bytes
blit buf off src =
    if leb (off + length src) (length buf) then ok (splice buf off src) else fault overflow

-- `memcpy(buf + off, mem, n)` where the source object `mem` has its own bounds
unfoldable pub memcpy : Bytes → ℕ → Bytes → ℕ → Result Bytes
unfolding blit
memcpy buf off mem n = if leb n (length mem) then blit buf off (take n mem) else fault over_read

-- `strcpy(buf, s)`, and `sprintf(buf, "%s", s)`: the characters and the NUL
unfoldable pub strcpy : Bytes → Bytes → Result Bytes
unfolding blit
strcpy buf s = blit buf 0 (s ++ 0 ∷ [])

-- What `strncpy` writes: `n` characters, cut from `s` or padded with NULs.
abbrev pub padded : Bytes → ℕ → Bytes
padded s zero = []
padded [] (suc n) = 0 ∷ padded [] n
padded (c ∷ s) (suc n) = c ∷ padded s n

-- `strncpy(buf, s, n)`
unfoldable pub strncpy : Bytes → Bytes → ℕ → Result Bytes
unfolding blit
strncpy buf s n = blit buf 0 (padded s n)

-- The C string that starts a buffer: its bytes up to the first NUL, a fault if it holds none.
unfoldable pub c_string : Bytes → Result Bytes
c_string [] = fault over_read
c_string (b ∷ bs) =
    let rest = c_string bs in
    if b == 0 then ok [] else elim rest [ ok s ↦ ok (b ∷ s) | fault e ↦ fault e ]

-- Equality of strings, as `strcmp(s, t) == 0` and `memcmp` of equal lengths decide it.
unfoldable pub same : Bytes → Bytes → Bool
same [] [] = true
same [] (y ∷ ys) = false
same (x ∷ xs) [] = false
same (x ∷ xs) (y ∷ ys) = if x == y then same xs ys else false

pub same_refl : (s : Bytes) → same s s ≡ true
unfolding same
same_refl [] = refl
same_refl (x ∷ xs) = ground (arith, same_refl xs)

pub eq_of_same : (s t : Bytes) → same s t ≡ true → s ≡ t
unfolding same
eq_of_same [] [] h = refl
eq_of_same [] (y ∷ ys) h = cc
eq_of_same (x ∷ xs) [] h = cc
eq_of_same (x ∷ xs) (y ∷ ys) h = ground (arith, eq_of_same xs ys)

pub length-padded : (s : Bytes) (n : ℕ) → length (padded s n) ≡ n
length-padded s zero = refl
length-padded [] (suc n) = ap suc (length-padded [] n)
length-padded (c ∷ s) (suc n) = ap suc (length-padded s n)

-- A string copied with its own length as the count: the characters, and no NUL.
pub padded-length : (s : Bytes) → padded s (length s) ≡ s
padded-length [] = refl
padded-length (c ∷ s) = ap (◌∷◌ c) (padded-length s)

pub length-splice :
    (buf : Bytes) (off : ℕ) (src : Bytes)
    → off + length src ≤ length buf
    → length (splice buf off src) ≡ length buf
length-splice buf off src h = omega (
  arith,
  length-append (take off buf) (src ++ drop (off + length src) buf),
  length-append src (drop (off + length src) buf),
  length-take off buf,
  length-drop (off + length src) buf,
)

pub blit-ok :
    (buf : Bytes) (off : ℕ) (src : Bytes)
    → off + length src ≤ length buf
    → blit buf off src ≡ ok (splice buf off src)
unfolding blit
blit-ok buf off src h = rw (le→leb _ _ h)

pub blit-overflow :
    (buf : Bytes) (off : ℕ) (src : Bytes)
    → length buf < off + length src
    → blit buf off src ≡ fault overflow
unfolding blit
blit-overflow buf off src h = rw (gt→leb _ _ h)

pub load-ok : (buf : Bytes) (i : ℕ) → i < length buf → (b : ℕ) × (load buf i ≡ ok b)
unfolding load
load-ok buf i h = let (b, e) = get_elem?_of_lt buf i h in (b, rw (e, load))

pub load-over_read : (buf : Bytes) (i : ℕ) → length buf ≤ i → load buf i ≡ fault over_read
unfolding load
load-over_read buf i h = rw (get_elem?_of_ge buf i h, load)

pub store-ok : (buf : Bytes) (i b : ℕ) → i < length buf → store buf i b ≡ ok (set buf i b)
unfolding store
store-ok buf i b h = rw (lt→ltb _ _ h)

pub store-overflow : (buf : Bytes) (i b : ℕ) → length buf ≤ i → store buf i b ≡ fault overflow
unfolding store
store-overflow buf i b h = rw (ge→ltb _ _ h)

-- A buffer with a NUL at `i` holds a C string of at most `i` characters.
pub c_string-ok :
    (buf : Bytes) (i : ℕ)
    → get_elem? buf i ≡ some 0
    → (s : Bytes) × (c_string buf ≡ ok s) × (length s ≤ i)
unfolding c_string
c_string-ok [] i e = cc
c_string-ok (b ∷ bs) zero e = ([], ground arith, omega arith)
c_string-ok (b ∷ bs) (suc i) e =
    let (s, run, le) = c_string-ok bs i e in
    elim (Bool-cases (b == 0)) [
      | inl nul ↦ ([], rw nul, omega arith)
      | inr more ↦ (b ∷ s, rw (more, run), omega arith)
    ]

pub c_string-cons :
    (b : ℕ) (bs : Bytes) {s : Bytes} → b ≢ 0 → c_string bs ≡ ok s → c_string (b ∷ bs) ≡ ok (b ∷ s)
unfolding c_string
c_string-cons b bs ne e = rw (ne→== b 0 ne, e)

pub blit-Ends : (buf : Bytes) (off : ℕ) (src : Bytes) → Ends (blit buf off src)
unfolding blit
blit-Ends buf off src = record { in_time = λ e. ground arith }
