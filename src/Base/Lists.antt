-- ===== src/Base/Lists.antt =====
-- Lists measured and cut by native numbers, under the library's names.
use Prim.Native.Nat.{ℕ, zero, suc, ◌+◌, ◌-◌, ◌≤◌, ◌<◌, min}
use mathlib.Core.Path.{sym, ◌∙◌, ◌≡◌, refl, ap}
use mathlib.Core.List.{append_assoc, List, [], ◌∷◌, ◌++◌}
use mathlib.Core.Option.{Option, none, some}
use native.Mathlib.Omega.{arith}

module _ {ℓ} {A : Type ℓ} where
  abbrev pub length : List A → ℕ
  length [] = 0
  length (x ∷ xs) = suc (length xs)

  abbrev pub get_elem? : List A → ℕ → Option A
  get_elem? [] i = none
  get_elem? (x ∷ xs) zero = some x
  get_elem? (x ∷ xs) (suc i) = get_elem? xs i

  abbrev pub set : List A → ℕ → A → List A
  set [] i v = []
  set (x ∷ xs) zero v = v ∷ xs
  set (x ∷ xs) (suc i) v = x ∷ set xs i v

  abbrev pub take : ℕ → List A → List A
  take zero xs = []
  take (suc n) [] = []
  take (suc n) (x ∷ xs) = x ∷ take n xs

  abbrev pub drop : ℕ → List A → List A
  drop zero xs = xs
  drop (suc n) [] = []
  drop (suc n) (x ∷ xs) = drop n xs

  abbrev pub replicate : ℕ → A → List A
  replicate zero a = []
  replicate (suc n) a = a ∷ replicate n a

  -- The list of `f 0`, ..., `f (n - 1)`, from `i` on.
  abbrev pub tabulate_from : ℕ → ℕ → (ℕ → A) → List A
  tabulate_from i zero f = []
  tabulate_from i (suc n) f = f i ∷ tabulate_from (suc i) n f

  pub length-append : (xs ys : List A) → length (xs ++ ys) ≡ length xs + length ys
  length-append [] ys = omega arith
  length-append (x ∷ xs) ys = omega (arith, length-append xs ys)

  pub length-set : (xs : List A) (i : ℕ) (v : A) → length (set xs i v) ≡ length xs
  length-set [] i v = refl
  length-set (x ∷ xs) zero v = refl
  length-set (x ∷ xs) (suc i) v = ap suc (length-set xs i v)

  pub length-take : (n : ℕ) (xs : List A) → length (take n xs) ≡ min n (length xs)
  length-take zero xs = omega arith
  length-take (suc n) [] = omega arith
  length-take (suc n) (x ∷ xs) = omega (arith, length-take n xs)

  pub length-drop : (n : ℕ) (xs : List A) → length (drop n xs) ≡ length xs - n
  length-drop zero xs = omega arith
  length-drop (suc n) [] = omega arith
  length-drop (suc n) (x ∷ xs) = omega (arith, length-drop n xs)

  pub length-replicate : (n : ℕ) (a : A) → length (replicate n a) ≡ n
  length-replicate zero a = refl
  length-replicate (suc n) a = ap suc (length-replicate n a)

  pub length-tabulate_from : (i n : ℕ) (f : ℕ → A) → length (tabulate_from i n f) ≡ n
  length-tabulate_from i zero f = refl
  length-tabulate_from i (suc n) f = ap suc (length-tabulate_from (suc i) n f)

  pub take_all : (n : ℕ) (xs : List A) → length xs ≤ n → take n xs ≡ xs
  take_all zero [] h = refl
  take_all zero (x ∷ xs) h = absurd (omega arith)
  take_all (suc n) [] h = refl
  take_all (suc n) (x ∷ xs) h = ap (◌∷◌ x) (take_all n xs (omega arith))

  pub take-length-append : (xs ys : List A) → take (length xs) (xs ++ ys) ≡ xs
  take-length-append [] ys = refl
  take-length-append (x ∷ xs) ys = ap (◌∷◌ x) (take-length-append xs ys)

  pub drop-length-append : (xs ys : List A) → drop (length xs) (xs ++ ys) ≡ ys
  drop-length-append [] ys = refl
  drop-length-append (x ∷ xs) ys = drop-length-append xs ys

  pub get_elem?_of_lt : (xs : List A) (i : ℕ) → i < length xs → (a : A) × (get_elem? xs i ≡ some a)
  get_elem?_of_lt [] i h = elim h [ ]
  get_elem?_of_lt (x ∷ xs) zero h = (x, refl)
  get_elem?_of_lt (x ∷ xs) (suc i) h = get_elem?_of_lt xs i (omega arith)

  pub get_elem?_of_ge : (xs : List A) (i : ℕ) → length xs ≤ i → get_elem? xs i ≡ none
  get_elem?_of_ge [] i h = refl
  get_elem?_of_ge (x ∷ xs) zero h = absurd (omega arith)
  get_elem?_of_ge (x ∷ xs) (suc i) h = get_elem?_of_ge xs i (omega arith)

  pub get_elem?-set_self :
      (xs : List A) (i : ℕ) (v : A) → i < length xs → get_elem? (set xs i v) i ≡ some v
  get_elem?-set_self [] i v h = elim h [ ]
  get_elem?-set_self (x ∷ xs) zero v h = refl
  get_elem?-set_self (x ∷ xs) (suc i) v h = get_elem?-set_self xs i v (omega arith)

  pub take-append_prefix :
      (n m : ℕ) (xs ys : List A) → n ≤ m → n ≤ length xs → take n (take m xs ++ ys) ≡ take n xs
  take-append_prefix zero m xs ys le short = refl
  take-append_prefix (suc n) zero xs ys le short = absurd (omega arith)
  take-append_prefix (suc n) (suc m) [] ys le short = absurd (omega arith)
  take-append_prefix (suc n) (suc m) (x ∷ xs) ys le short =
      ap (◌∷◌ x) (take-append_prefix n m xs ys (omega arith) (omega arith))

  -- A list that starts like `xs` still does when a prefix of `xs` is written over it.
  pub take-written :
      (n m : ℕ) (xs b : List A)
      → n ≤ length xs
      → take n b ≡ take n xs
      → take n (take m xs ++ drop (length (take m xs)) b) ≡ take n xs
  take-written n zero xs b short same = same
  take-written zero (suc m) xs b short same = refl
  take-written (suc n) (suc m) [] b short same = absurd (omega arith)
  take-written (suc n) (suc m) (x ∷ xs) [] short same = cc
  take-written (suc n) (suc m) (x ∷ xs) (y ∷ b) short same =
      ap (◌∷◌ x) (take-written n m xs b (omega arith) (cc))

  drop_nil : (n : ℕ) → drop n [] ≡ []
  drop_nil zero = refl
  drop_nil (suc n) = refl

  -- What is behind a list that is written over the start of another one stays.
  pub drop-written :
      (m : ℕ) (xs b : List A) → length xs ≤ m → drop m (xs ++ drop (length xs) b) ≡ drop m b
  drop-written m [] b short = refl
  drop-written zero (x ∷ xs) b short = absurd (omega arith)
  drop-written (suc m) (x ∷ xs) [] short =
      ap (λ r. drop m (xs ++ r)) (sym (drop_nil (length xs)))
      ∙ drop-written m xs [] (omega arith)
      ∙ drop_nil m
  drop-written (suc m) (x ∷ xs) (y ∷ b) short = drop-written m xs b (omega arith)

  pub take-append_middle :
      (n : ℕ) (xs ys zs : List A)
      → n ≤ length xs
      → take (n + length ys) (take n xs ++ (ys ++ zs)) ≡ take n xs ++ ys
  take-append_middle n xs ys zs le =
      let front = take n xs ++ ys in
      let size : n + length ys ≡ length front =
        omega (arith, length-append (take n xs) ys, length-take n xs) in
      rw (size, ← append_assoc (take n xs) ys zs) (take-length-append front zs)
