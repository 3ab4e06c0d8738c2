-- ===== src/Wire/Read.antt =====
-- conn_read_full of double-free/capstone/src/spoold/spoold.c; the other servers have the same text. A
-- connection is what its peer sends before it closes. `recv want avail` is the number of bytes that a
-- call of recv or ReadFile for `want` bytes returns when `avail` bytes are still to come.
use native.Mathlib.Decide.{ℕ_discrete}
use bug_museum.Base.{
  ℕ, zero, suc, ◌+◌, ◌-◌, ◌≤◌, ◌<◌, ◌≡◌, refl, sym, ap, ◌∙◌, true, false, Option, none, some, [],
  ◌∷◌, ◌++◌, arith, leb, ◌==◌, if◌then◌else◌, length, take, drop, ne→==, eq→==, le→leb, gt→leb,
  le_or_lt, inl, inr, length-drop,
}
use bug_museum.Memory.Bytes.{Bytes}

-- What is documented of recv on a blocking stream: it returns some of the bytes that are there, at
-- least one unless the peer has closed, and never more than asked for.
pub record IsRecv (recv : ℕ → ℕ → ℕ) : Type 0 where
  pub some_bytes : (want avail : ℕ) → 0 < want → 0 < avail → 0 < recv want avail
  pub wanted : (want avail : ℕ) → recv want avail ≤ want
  pub there : (want avail : ℕ) → recv want avail ≤ avail

abbrev after : Bytes → Option (Bytes × Bytes) → Option (Bytes × Bytes)
after first none = none
after first (some (got, rest)) = some (first ++ got, rest)

module _ (recv : ℕ → ℕ → ℕ) where
  -- The loop, with its rounds bounded: the bytes that are gathered and what remains.
  unfoldable pub read_rounds : ℕ → ℕ → Bytes → Option (Bytes × Bytes)
  read_rounds zero want stream = if want == 0 then some ([], stream) else none
  read_rounds (suc rounds) want stream = elim (want == 0) [
    | true ↦ some ([], stream)
    | false ↦
        let n = recv want (length stream) in
        elim (n == 0) [
          | true ↦ none
          | false ↦ after (take n stream) (read_rounds rounds (want - n) (drop n stream))
        ]
  ]

  -- conn_read_full: a round gathers a byte at least, so `want` rounds are enough
  unfoldable pub read_full : ℕ → Bytes → Option (Bytes × Bytes)
  read_full want stream = read_rounds want want stream

take-nil : (k : ℕ) → take {A = ℕ} k [] ≡ []
take-nil zero = refl
take-nil (suc k) = refl

drop-nil : (k : ℕ) → drop {A = ℕ} k [] ≡ []
drop-nil zero = refl
drop-nil (suc k) = refl

take-split : (n k w : ℕ) (xs : Bytes) → w ≡ n + k → take n xs ++ take k (drop n xs) ≡ take w xs
take-split zero k w xs e = let same : k ≡ w = omega (arith, e) in rw same refl
take-split (suc n) k w [] e = take-nil k ∙ sym (take-nil w)
take-split (suc n) k zero (x ∷ xs) e = absurd (omega (arith, e))
take-split (suc n) k (suc w) (x ∷ xs) e = ap (◌∷◌ x) (take-split n k w xs (omega (arith, e)))

drop-split : (n k w : ℕ) (xs : Bytes) → w ≡ n + k → drop k (drop n xs) ≡ drop w xs
drop-split zero k w xs e = let same : k ≡ w = omega (arith, e) in rw same refl
drop-split (suc n) k w [] e = drop-nil k ∙ sym (drop-nil w)
drop-split (suc n) k zero (x ∷ xs) e = absurd (omega (arith, e))
drop-split (suc n) k (suc w) (x ∷ xs) e = drop-split n k w xs (omega (arith, e))

-- What a whole read gives, however the bytes arrive.
abbrev pub cut : ℕ → Bytes → Option (Bytes × Bytes)
cut want stream =
    if leb want (length stream) then some (take want stream, drop want stream) else none

pub cut-zero : (stream : Bytes) → cut 0 stream ≡ some ([], stream)
cut-zero stream = rw (le→leb 0 (length stream) (omega arith))

after-cut :
    (n w : ℕ) (stream : Bytes)
    → n ≤ w
    → n ≤ length stream
    → after (take n stream) (cut (w - n) (drop n stream)) ≡ cut w stream
after-cut n w stream le le' = elim (le_or_lt w (length stream)) [
  | inl enough ↦
      let left : (w - n) ≤ length (drop n stream) = omega (arith, length-drop n stream) in
      let whole : w ≡ n + (w - n) = omega arith in
      rw (
        le→leb (w - n) (length (drop n stream)) left,
        le→leb w (length stream) enough,
        take-split n (w - n) w stream whole,
        drop-split n (w - n) w stream whole,
      )
  | inr short ↦
      let left : length (drop n stream) < w - n = omega (arith, length-drop n stream) in
      rw (gt→leb (w - n) (length (drop n stream)) left, gt→leb w (length stream) short)
]

read_rounds-cut :
    {recv : ℕ → ℕ → ℕ} (r : IsRecv recv) (rounds want : ℕ) (stream : Bytes)
    → want ≤ rounds
    → read_rounds recv rounds want stream ≡ cut want stream
unfolding read_rounds
read_rounds-cut {recv} r zero want stream le =
    let none_left : want ≡ 0 = omega arith in rw none_left (sym (cut-zero stream))
read_rounds-cut {recv} r (suc rounds) want stream le = elim (ℕ_discrete want 0) [
  | yes none_left ↦ rw none_left (sym (cut-zero stream))
  | no some_left ↦
      let n = recv want (length stream) in
      elim (ℕ_discrete n 0) [
        | yes closed ↦ elim (le_or_lt (length stream) 0) [
          | inl over ↦ rw (
            read_rounds,
            ne→== want 0 some_left,
            eq→== n 0 closed,
            gt→leb want (length stream) (omega arith),
          )
          | inr more ↦ absurd (omega (arith, r.some_bytes want (length stream) (omega arith) more))
        ]
        | no got ↦
            rw
              (
                read_rounds,
                ne→== want 0 some_left,
                ne→== n 0 got,
                read_rounds-cut r rounds (want - n) (drop n stream) (omega arith),
              )
              (after-cut n want stream (r.wanted want (length stream))
                (r.there want (length stream)))
      ]
]

-- However a connection hands over its bytes, conn_read_full gives the first `want` of them and leaves
-- the rest, and fails just when the peer closes before.
pub read_full-cut :
    (recv : ℕ → ℕ → ℕ)
    → IsRecv recv
    → (want : ℕ) (stream : Bytes) → read_full recv want stream ≡ cut want stream
unfolding read_full
read_full-cut recv r want stream = read_rounds-cut r want want stream (omega arith)
