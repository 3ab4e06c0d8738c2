-- ===== src/Memory/Slots.antt =====
-- A table of pointers under small numbers: the scan for an empty slot, and the update of one.
use native.Mathlib.Decide.{ℕ_discrete}
use bug_museum.Base.{
  refl, ℕ, zero, suc, ◌+◌, ◌≤◌, ◌<◌, ◌≡◌, ◌≢◌, Option, none, some, arith, ◌==◌, if◌then◌else◌,
}
use bug_museum.Memory.Heap.{Ptr, null}

-- The scan `for (; i < max; i++) if (!slots[i])` with its rounds left.
unfoldable pub free_slot : ℕ → ℕ → (ℕ → Ptr) → Option ℕ
free_slot zero i slots = none
free_slot (suc rounds) i slots =
    let rest = free_slot rounds (suc i) slots in if slots i == null then some i else rest

abbrev pub set_slot : (ℕ → Ptr) → ℕ → Ptr → ℕ → Ptr
set_slot slots i p j = if j == i then p else slots j

-- The scan returns an empty slot, and there is none below it.
pub free_slot-some :
    (rounds i : ℕ) (slots : ℕ → Ptr) {k : ℕ}
    → free_slot rounds i slots ≡ some k
    → (i ≤ k) × (k < i + rounds) × (slots k ≡ null) × ((j : ℕ) → i ≤ j → j < k → slots j ≢ null)
unfolding free_slot
free_slot-some zero i slots e = cc
free_slot-some (suc rounds) i slots {k} e = elim (ℕ_discrete (slots i) null) [
  | yes empty ↦
      let here : i ≡ k = ground arith in
      (omega arith, omega arith, ground arith, λ j lo hi. absurd (omega arith))
  | no taken ↦
      let (lo, hi, free, below) = free_slot-some rounds (suc i) slots {k = k} (ground arith) in
      (
        omega arith,
        omega arith,
        free,
        λ j lo' hi'. elim (ℕ_discrete j i) [
          | yes same ↦ rw same taken
          | no later ↦ below j (omega arith) hi'
        ],
      )
]

-- It returns none only when the table is full.
pub free_slot-none :
    (rounds i : ℕ) (slots : ℕ → Ptr)
    → free_slot rounds i slots ≡ none
    → (j : ℕ) → i ≤ j
    → j < i + rounds
    → slots j ≢ null
unfolding free_slot
free_slot-none zero i slots e j lo hi = absurd (omega arith)
free_slot-none (suc rounds) i slots e j lo hi = elim (ℕ_discrete j i) [
  | yes same ↦ rw same (ground arith)
  | no later ↦ free_slot-none rounds (suc i) slots (ground arith) j (omega arith) (omega arith)
]

-- The number of slots in use among the first `n`.
unfoldable pub used : ℕ → (ℕ → Ptr) → ℕ
used zero slots = 0
used (suc n) slots = used n slots + (if slots n == null then 0 else 1)

used-ext : (n : ℕ) (f g : ℕ → Ptr) → ((i : ℕ) → i < n → f i ≡ g i) → used n f ≡ used n g
unfolding used
used-ext zero f g same = refl
used-ext (suc n) f g same =
    ground (arith, used-ext n f g (λ i h. same i (omega arith)), same n (omega arith))

-- An update at or above `n` does not change the count of the first `n`.
used-above :
    (n i : ℕ) (f : ℕ → Ptr) (p : Ptr) → n ≤ i → used n (λ j. if j == i then p else f j) ≡ used n f
used-above n i f p h = used-ext n (λ j. if j == i then p else f j) f (λ j lt. ground arith)

-- Filling an empty slot adds one to the number in use, and clearing a used one takes one away.
pub used-fill :
    (n i : ℕ) (f : ℕ → Ptr) (p : Ptr)
    → i < n
    → f i ≡ null
    → p ≢ null
    → used n (λ j. if j == i then p else f j) ≡ used n f + 1
unfolding used
used-fill zero i f p h e ne = elim h [ ]
used-fill (suc n) i f p h e ne = ground (arith, used-fill n i f p, used-above n i f p)

pub used-clear :
    (n i : ℕ) (f : ℕ → Ptr)
    → i < n
    → f i ≢ null
    → used n (λ j. if j == i then null else f j) + 1 ≡ used n f
unfolding used
used-clear zero i f h ne = elim h [ ]
used-clear (suc n) i f h ne = ground (arith, used-clear n i f, used-above n i f null)
