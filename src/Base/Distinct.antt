-- ===== src/Base/Distinct.antt =====
-- Lists without repetition, of which there are no long ones over a small range.
use native.Mathlib.Decide.{ℕ_discrete}
use Prim.Native.Nat.{ℕ, zero, suc, ◌≤◌}
use mathlib.Core.Path.{ap, ◌≡◌, refl, sym}
use mathlib.Core.Logic.{inl, inr, ◌⊎◌, ◌≢◌}
use mathlib.Core.List.{List, [], ◌∷◌, ◌++◌}
use native.Mathlib.Omega.{arith}
use bug_museum.Base.Lists.{length}
use bug_museum.Base.Tests.{◌==◌, if◌then◌else◌, ne→==, eq→==}

abbrev pub Avoids : ℕ → List ℕ → Type 0
Avoids p [] = Unit {0}
Avoids p (k ∷ ks) = (p ≢ k) × Avoids p ks

abbrev pub IsDistinct : List ℕ → Type 0
IsDistinct [] = Unit {0}
IsDistinct (k ∷ ks) = Avoids k ks × IsDistinct ks

-- The list with the first `p` taken out.
unfoldable pub without : ℕ → List ℕ → List ℕ
without p [] = []
without p (k ∷ ks) = let rest = without p ks in if k == p then ks else k ∷ rest

pub without-Avoids : (p : ℕ) (ks : List ℕ) → Avoids p ks → without p ks ≡ ks
unfolding without
without-Avoids p [] a = refl
without-Avoids p (k ∷ ks) a = ground (arith, without-Avoids p ks a.1)

pub Avoids-without : (q p : ℕ) (ks : List ℕ) → Avoids q ks → Avoids q (without p ks)
unfolding without
Avoids-without q p [] a = tt
Avoids-without q p (k ∷ ks) a = elim (ℕ_discrete k p) [
  | yes e ↦ rw (eq→== k p e) a.1
  | no e ↦ rw (ne→== k p e) (a.0, Avoids-without q p ks a.1)
]

pub without-IsDistinct :
    (p : ℕ) (ks : List ℕ) → IsDistinct ks → IsDistinct (without p ks) × Avoids p (without p ks)
unfolding without
without-IsDistinct p [] d = (tt, tt)
without-IsDistinct p (k ∷ ks) d = elim (ℕ_discrete k p) [
  | yes e ↦ rw (eq→== k p e) (d.1, rw (← e) d.0)
  | no e ↦
      let (d', a) = without-IsDistinct p ks d.1 in
      rw (ne→== k p e) ((Avoids-without k p ks d.0, d'), ((λ e'. ground (arith, e')), a))
]

length-without : (p : ℕ) (ks : List ℕ) → length ks ≤ suc (length (without p ks))
unfolding without
length-without p [] = omega arith
length-without p (k ∷ ks) = ground (arith, length-without p ks)

-- Every element is between 1 and `n`.
abbrev pub InRange : ℕ → List ℕ → Type 0
InRange n [] = Unit {0}
InRange n (k ∷ ks) = ((1 ≤ k) × (k ≤ n)) × InRange n ks

InRange-lower : (n : ℕ) (ks : List ℕ) → InRange (suc n) ks → Avoids (suc n) ks → InRange n ks
InRange-lower n [] r a = tt
InRange-lower n (k ∷ ks) r a = let ne = a.0 in ((r.0.0, omega arith), InRange-lower n ks r.1 a.1)

InRange-without : (n p : ℕ) (ks : List ℕ) → InRange n ks → InRange n (without p ks)
unfolding without
InRange-without n p [] r = tt
InRange-without n p (k ∷ ks) r = elim (ℕ_discrete k p) [
  | yes e ↦ rw (eq→== k p e) r.1
  | no e ↦ rw (ne→== k p e) (r.0, InRange-without n p ks r.1)
]

-- A list without repetition over the numbers from 1 to `n` has at most `n` elements.
pub length-le_of_IsDistinct : (n : ℕ) (ks : List ℕ) → IsDistinct ks → InRange n ks → length ks ≤ n
length-le_of_IsDistinct zero [] d r = omega arith
length-le_of_IsDistinct zero (k ∷ ks) d r = absurd (omega arith)
length-le_of_IsDistinct (suc n) ks d r =
    let (d', a) = without-IsDistinct (suc n) ks d in
    omega (
      arith,
      length-without (suc n) ks,
      length-le_of_IsDistinct n (without (suc n) ks) d'
          (InRange-lower n (without (suc n) ks) (InRange-without (suc n) (suc n) ks r) a),
    )

pub Avoids-append : (p : ℕ) (xs ys : List ℕ) → Avoids p xs → Avoids p ys → Avoids p (xs ++ ys)
Avoids-append p [] ys a b = b
Avoids-append p (x ∷ xs) ys a b = (a.0, Avoids-append p xs ys a.1 b)

pub Avoids-of_append : (p : ℕ) (xs ys : List ℕ) → Avoids p (xs ++ ys) → Avoids p xs × Avoids p ys
Avoids-of_append p [] ys a = (tt, a)
Avoids-of_append p (x ∷ xs) ys a = let (b, c) = Avoids-of_append p xs ys a.1 in ((a.0, b), c)

pub IsDistinct-snoc :
    (p : ℕ) (xs : List ℕ) → Avoids p xs → IsDistinct xs → IsDistinct (xs ++ p ∷ [])
IsDistinct-snoc p [] a d = (tt, tt)
IsDistinct-snoc p (x ∷ xs) a d =
    (Avoids-append x xs (p ∷ []) d.0 ((λ e. a.0 (sym e)), tt), IsDistinct-snoc p xs a.1 d.1)

-- Where the middle element of a list without repetition is taken out, it occurs no more.
pub IsDistinct-remove :
    (xs : List ℕ) (p : ℕ) (ys : List ℕ)
    → IsDistinct (xs ++ p ∷ ys)
    → IsDistinct (xs ++ ys) × Avoids p (xs ++ ys) × IsDistinct xs × Avoids p xs × Avoids p ys
IsDistinct-remove [] p ys d = (d.1, d.0, tt, tt, d.0)
IsDistinct-remove (x ∷ xs) p ys d =
    let (a, b) = Avoids-of_append x xs (p ∷ ys) d.0 in
    let (d', a', d'', af, ar) = IsDistinct-remove xs p ys d.1 in
    let ne : p ≢ x = λ e. b.0 (sym e) in
    ((Avoids-append x xs ys a b.1, d'), (ne, a'), (a, d''), (ne, af), ar)

-- A number is in a list, between two parts, or it is not.
pub find_split :
    (p : ℕ) (ks : List ℕ) → ((xs : List ℕ) × (ys : List ℕ) × (ks ≡ xs ++ p ∷ ys)) ⊎ Avoids p ks
find_split p [] = inr tt
find_split p (k ∷ ks) = elim (ℕ_discrete p k) [
  | yes e ↦ inl ([], ks, ap (λ (j : ℕ). j ∷ ks) (sym e))
  | no ne ↦ elim (find_split p ks) [
    | inl (xs, ys, e) ↦ inl (k ∷ xs, ys, ap (◌∷◌ k) e)
    | inr a ↦ inr (ne, a)
  ]
]

pub Avoids-insert :
    (q : ℕ) (xs : List ℕ) (p : ℕ) (ys : List ℕ)
    → q ≢ p
    → Avoids q (xs ++ ys)
    → Avoids q (xs ++ p ∷ ys)
Avoids-insert q [] p ys ne a = (ne, a)
Avoids-insert q (x ∷ xs) p ys ne a = (a.0, Avoids-insert q xs p ys ne a.1)
