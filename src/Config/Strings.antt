-- ===== src/Config/Strings.antt =====
-- Strings of stack-overflow/capstone/src/cfgcore/cfgcore.c: bytes with no NUL among them, in a buffer
-- that goes on behind the NUL that ends them.
use bug_museum.Base.{
  ℕ, zero, suc, ◌≤◌, ◌<◌, ◌≡◌, ◌≢◌, refl, ap, [], ◌∷◌, ◌++◌, arith, ne→==, length, set,
}
use bug_museum.Memory.Fault.{ok}
use bug_museum.Memory.Bytes.{Bytes, padded, c_string, c_string-cons}
use bug_museum.Config.Query.{text_of}

-- The byte `b` is not among them.
abbrev pub Lacks : ℕ → Bytes → Type 0
Lacks b [] = Unit {0}
Lacks b (c ∷ cs) = (c ≢ b) × Lacks b cs

pub text_of-plain : (s : Bytes) → Lacks 0 s → text_of s ≡ s
unfolding text_of
text_of-plain [] plain = refl
text_of-plain (c ∷ s) (ne, plain) = rw (ne→== c 0 ne, text_of-plain s plain)

pub c_string-append : (s rest : Bytes) → Lacks 0 s → c_string (s ++ 0 ∷ rest) ≡ ok s
unfolding c_string
c_string-append [] rest plain = refl
c_string-append (c ∷ s) rest (ne, plain) =
    c_string-cons c (s ++ 0 ∷ rest) ne (c_string-append s rest plain)

pub c_string-closed : (s rest : Bytes) → Lacks 0 s → c_string ((s ++ 0 ∷ []) ++ rest) ≡ ok s
unfolding c_string
c_string-closed [] rest plain = refl
c_string-closed (c ∷ s) rest (ne, plain) =
    c_string-cons c ((s ++ 0 ∷ []) ++ rest) ne (c_string-closed s rest plain)

pub set-append :
    (s : Bytes) (b v : ℕ) (rest : Bytes) → set (s ++ b ∷ rest) (length s) v ≡ s ++ v ∷ rest
set-append [] b v rest = refl
set-append (c ∷ s) b v rest = ap (λ t. c ∷ t) (set-append s b v rest)

-- A string copied by strncpy with room for its NUL is what the buffer holds, also when a NUL is stored
-- behind what strncpy writes.
pub c_string-padded :
    (s : Bytes) (n i : ℕ) (rest : Bytes)
    → Lacks 0 s
    → length s < n
    → n ≤ i
    → c_string (set (padded s n ++ rest) i 0) ≡ ok s
unfolding c_string
c_string-padded s zero i rest plain lt le = absurd (omega arith)
c_string-padded s (suc n) zero rest plain lt le = absurd (omega arith)
c_string-padded [] (suc n) (suc i) rest plain lt le = refl
c_string-padded (c ∷ s) (suc n) (suc i) rest (ne, plain) lt le =
    c_string-cons c (set (padded s n ++ rest) i 0) ne
      (c_string-padded s n i rest plain (omega arith) (omega arith))
