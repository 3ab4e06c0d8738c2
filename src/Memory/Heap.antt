-- ===== src/Memory/Heap.antt =====
-- The heap: blocks at addresses, and what malloc, free and realloc do to them. Which requests are
-- granted, whether realloc moves a block, and what a fresh block holds are the allocator's choice:
-- they are functions of the number of the request, and every theorem is for all of them. An address
-- is given out once, so a released block stays released.
use bug_museum.Base.{
  ◌⊎◌, inl, inr, Bool-cases, ◌-◌, length, ◌++◌, take, refl, ℕ, suc, Bool, true, false, ◌≡◌, ◌≢◌,
  arith, ◌==◌, if◌then◌else◌, tabulate_from, length-append, length-take, length-tabulate_from,
}
use bug_museum.Memory.Fault.{
  Result, ok, fault, null_deref, use_after_free, double_free, wild_pointer, ◌>>=◌, Ends, ends_rules,
}
use bug_museum.Memory.Bytes.{Bytes}

abbrev pub Ptr : Type 0
Ptr = ℕ

abbrev pub null : Ptr
null = 0

pub data Cell {ℓ} (A : Type ℓ) : Type ℓ where
  unmapped released : Cell A
  live : A → Cell A

pub record Heap {ℓ} (A : Type ℓ) : Type ℓ where
  pub cell : Ptr → Cell A
  pub requests : ℕ
  pub grants : ℕ → Bool
  pub moves : ℕ → Bool
  pub junk : ℕ → ℕ → ℕ

module _ {ℓ} {A : Type ℓ} where
  abbrev pub put : (Ptr → Cell A) → Ptr → Cell A → Ptr → Cell A
  put f p c q = if q == p then c else f q

  -- The contents of a block of `n` bytes that malloc is about to return.
  abbrev pub fresh_bytes : Heap A → ℕ → Bytes
  fresh_bytes h n = tabulate_from 0 n (h.junk h.requests)

  -- What realloc copies from a block into one of `n` bytes.
  abbrev pub regrown : Heap A → Bytes → ℕ → Bytes
  regrown h b n = take n b ++ tabulate_from (length b) (n - length b) (h.junk h.requests)

  -- `*p`
  unfoldable pub deref : Heap A → Ptr → Result A
  deref h p = if p == null then fault null_deref else elim (h.cell p) [
    | unmapped ↦ fault wild_pointer
    | released ↦ fault use_after_free
    | live a ↦ ok a
  ]

  -- `*p = a`
  unfoldable pub assign : Heap A → Ptr → A → Result (Heap A)
  assign h p a = if p == null then fault null_deref else elim (h.cell p) [
    | unmapped ↦ fault wild_pointer
    | released ↦ fault use_after_free
    | live _ ↦ ok (record h { cell = put h.cell p (live a) })
  ]

  unfoldable pub free : Heap A → Ptr → Result (Heap A)
  free h p = if p == null then ok h else elim (h.cell p) [
    | unmapped ↦ fault wild_pointer
    | released ↦ fault double_free
    | live _ ↦ ok (record h { cell = put h.cell p released })
  ]

  -- A block that holds `a`, or NULL.
  unfoldable pub malloc : Heap A → A → Heap A × Ptr
  malloc h a =
      if h.grants h.requests
      then (
        record h { cell = put h.cell (suc h.requests) (live a); requests = suc h.requests },
        suc h.requests,
      )
      else (record h { requests = suc h.requests }, null)

  -- A live block resized to hold `a`, its release given: in place, or at a fresh address with the
  -- old block released; NULL and the old block kept if the request is refused.
  unfoldable pub resized : Heap A → Heap A → Ptr → A → Heap A × Ptr
  unfolding malloc
  resized h h' p a =
      if h.grants h.requests
      then if h.moves h.requests
        then malloc h' a
        else (record h { cell = put h.cell p (live a); requests = suc h.requests }, p)
      else (record h { requests = suc h.requests }, null)

  unfoldable pub realloc : Heap A → Ptr → A → Result (Heap A × Ptr)
  unfolding free resized
  realloc h p a = if p == null then ok (malloc h a) else (free h p >>= λ h'. ok (resized h h' p a))

module _ {ℓ} {A : Type ℓ} (h : Heap A) where
  pub length-regrown : (b : Bytes) (n : ℕ) → length (regrown h b n) ≡ n
  length-regrown b n = omega (
    arith,
    length-append (take n b) (tabulate_from (length b) (n - length b) (h.junk h.requests)),
    length-take n b,
    length-tabulate_from (length b) (n - length b) (h.junk h.requests),
  )

  pub malloc-granted :
      (a : A)
      → h.grants h.requests ≡ true
      → malloc h a ≡ (
        record h { cell = put h.cell (suc h.requests) (live a); requests = suc h.requests },
        suc h.requests,
      )
  unfolding malloc
  malloc-granted a g = rw g

  pub malloc-refused :
      (a : A)
      → h.grants h.requests ≡ false
      → malloc h a ≡ (record h { requests = suc h.requests }, null)
  unfolding malloc
  malloc-refused a g = rw g

  -- What malloc leaves, granted or not: every block but the new one is as it was.
  pub record Allocated (a : A) (h' : Heap A) (p : Ptr) : Type ℓ where
    pub same_requests : h'.requests ≡ suc h.requests
    pub old : (q : Ptr) → q ≢ suc h.requests → h'.cell q ≡ h.cell q
    pub same_grants : h'.grants ≡ h.grants
    pub there :
        ((p ≡ null) × (h.grants h.requests ≡ false)) ⊎ ((p ≡ suc h.requests) × (h'.cell p ≡ live a))

  pub malloc-Allocated : (a : A) → Allocated a (malloc h a).0 (malloc h a).1
  unfolding malloc
  malloc-Allocated a = elim (Bool-cases (h.grants h.requests)) [
    | inl granted ↦ rw granted (record {
      same_requests = refl;
      same_grants = refl;
      old = λ q ne. ground arith;
      there = inr (refl, ground arith);
    })
    | inr refused ↦ rw refused (record {
      same_requests = refl;
      same_grants = refl;
      old = λ q ne. refl;
      there = inl (refl, refused);
    })
  ]

  pub free-null : free h null ≡ ok h
  unfolding free
  free-null = refl

  pub free-eq_null : (p : Ptr) → p ≡ null → free h p ≡ ok h
  free-eq_null p e = rw e free-null

  module _ (p : Ptr) (ne : p ≢ null) where
    not_null : (p == null) ≡ false
    not_null = ground arith

    pub deref-live : {a : A} → h.cell p ≡ live a → deref h p ≡ ok a
    unfolding deref
    deref-live e = rw (not_null, e)

    pub deref-released : h.cell p ≡ released → deref h p ≡ fault use_after_free
    unfolding deref
    deref-released e = rw (not_null, e)

    pub assign-live :
        {a : A} (b : A)
        → h.cell p ≡ live a
        → assign h p b ≡ ok (record h { cell = put h.cell p (live b) })
    unfolding assign
    assign-live b e = rw (not_null, e)

    pub free-live :
        {a : A} → h.cell p ≡ live a → free h p ≡ ok (record h { cell = put h.cell p released })
    unfolding free
    free-live e = rw (not_null, e)

    pub free-released : h.cell p ≡ released → free h p ≡ fault double_free
    unfolding free
    free-released e = rw (not_null, e)

    pub realloc-moved :
        {a : A} (b : A)
        → h.cell p ≡ live a
        → h.grants h.requests ≡ true
        → h.moves h.requests ≡ true
        → realloc h p b
          ≡ ok (
            record h {
              cell = put (put h.cell p released) (suc h.requests) (live b);
              requests = suc h.requests;
            },
            suc h.requests,
          )
    unfolding realloc resized malloc
    realloc-moved b here granted moved = rw (not_null, here, granted, moved)

    pub realloc-refused :
        {a : A} (b : A)
        → h.cell p ≡ live a
        → h.grants h.requests ≡ false
        → realloc h p b ≡ ok (record h { requests = suc h.requests }, null)
    unfolding realloc resized
    realloc-refused b here refused = rw (not_null, here, refused)

    pub realloc-in_place :
        {a : A} (b : A)
        → h.cell p ≡ live a
        → h.grants h.requests ≡ true
        → h.moves h.requests ≡ false
        → realloc h p b
          ≡ ok (record h { cell = put h.cell p (live b); requests = suc h.requests }, p)
    unfolding realloc resized
    realloc-in_place b here granted stays = rw (not_null, here, granted, stays)

  -- No access to the heap is a loop.
  pub deref-Ends : (p : Ptr) → Ends (deref h p)
  unfolding deref
  deref-Ends p = record { in_time = λ e. ground arith }

  pub assign-Ends : (p : Ptr) (a : A) → Ends (assign h p a)
  unfolding assign
  assign-Ends p a = record { in_time = λ e. ground arith }

  pub free-Ends : (p : Ptr) → Ends (free h p)
  unfolding free
  free-Ends p = record { in_time = λ e. ground arith }

pub realloc-Ends {ℓ} : {A : Type ℓ} (h : Heap A) (p : Ptr) (a : A) → Ends (realloc h p a)
unfolding realloc
realloc-Ends h p a = search (ends_rules, free-Ends)
