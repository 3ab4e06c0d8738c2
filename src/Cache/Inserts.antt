-- ===== src/Cache/Inserts.antt =====
-- heap-overflow/capstone/src/cachecore/cachecore.c: what CacheSet leaves behind. The block of a key has
-- no room for the NUL.
use bug_museum.Base.{
  ℕ, suc, ◌≡◌, refl, ◌⊎◌, inl, inr, true, false, none, List, [], ◌∷◌, ◌++◌, arith, length,
  tabulate_from, Bool-cases, le_or_lt, eq→==, le→leb, gt→leb, length-append, length-tabulate_from,
}
use bug_museum.Memory.Fault.{Result, ok, fault, null_deref, overflow}
use bug_museum.Memory.Bytes.{Bytes, blit-ok, blit-overflow, strcpy, splice}
use bug_museum.Cache.Types.{inline, apart, Entry, Cache, Status, done, no_memory, asked}
use bug_museum.Cache.Store.{
  dup_key, set_bucket, empty_entry, bucket_of, linked_in, insert_empty, update_first, keep_inline,
  keep_apart, set_first, set, has_key, find_in, get_raw,
}

module _ (c : Cache) (key : Bytes) where
  dup_key-granted : c.grants c.requests ≡ true → dup_key c key ≡ fault overflow
  unfolding dup_key strcpy
  dup_key-granted g =
      let block = tabulate_from 0 (length key) (c.junk c.requests) in
      rw (
        dup_key,
        g,
        blit-overflow block 0 (key ++ 0 ∷ []) (
            omega (
              arith,
              length-append key (0 ∷ []),
              length-tabulate_from 0 (length key) (c.junk c.requests),
            )),
      )

  dup_key-refused : c.grants c.requests ≡ false → dup_key c key ≡ ok none
  unfolding dup_key
  dup_key-refused g = rw (dup_key, g)

  -- An entry without a key is the first of the key's bucket.
  abbrev Keyless : Type 0
  Keyless =
      (e : Entry) × (chain : List Entry) × (c.buckets (bucket_of c key) ≡ e ∷ chain)
      × (e.key ≡ none)

  get_raw-Keyless : Keyless → get_raw c key ≡ fault null_deref
  unfolding get_raw find_in has_key
  get_raw-Keyless (e, chain, at, no_key) = rw (find_in, at, no_key)

update_first-run :
    (c : Cache) (b : ℕ) (f : Entry → Result Entry) (e e' : Entry) (chain : List Entry)
    → c.buckets b ≡ e ∷ chain
    → f e ≡ ok e'
    → update_first c b f ≡ ok (record c { buckets = set_bucket c.buckets b (e' ∷ chain) })
unfolding update_first
update_first-run c b f e e' chain at run = rw (update_first, at, run)

-- What an insertion or a set did: it faulted, or an entry without a key is in front.
abbrev pub Unusable : Cache → Bytes → Result (Cache × Status) → Type 0
Unusable c key r =
    (r ≡ fault overflow)
    ⊎ ((c' : Cache) × (status : Status) × (r ≡ ok (c', status))
        × (get_raw c' key ≡ fault null_deref))

module _ (c : Cache) (key : Bytes) (val : Bytes) where
  -- The cache after CacheInsertEmpty without the block of the key.
  abbrev keyless : Cache
  keyless = linked_in (asked (asked c)) (bucket_of c key) none

  keyless-first : keyless.buckets (bucket_of c key) ≡ empty_entry none ∷ c.buckets (bucket_of c key)
  keyless-first = rw (eq→== (bucket_of c key) (bucket_of c key) refl)

  -- Any entry without a key in front of the bucket makes the next lookup fail.
  front-fails :
      (n : ℕ) (e : Entry)
      → e.key ≡ none
      → get_raw
          (record keyless {
            buckets =
                set_bucket keyless.buckets (bucket_of c key) (e ∷ c.buckets (bucket_of c key));
            requests = n;
          })
          key
        ≡ fault null_deref
  front-fails n e no_key =
      get_raw-Keyless
        (record keyless {
          buckets = set_bucket keyless.buckets (bucket_of c key) (e ∷ c.buckets (bucket_of c key));
          requests = n;
        })
        key
        (
          e,
          c.buckets (bucket_of c key),
          rw (eq→== (bucket_of c key) (bucket_of c key) refl),
          no_key,
        )

  set_first-keyless : Unusable c key (set_first keyless (bucket_of c key) val)
  unfolding set_first keep_inline
  set_first-keyless =
      let b = bucket_of c key in
      let e = empty_entry none in
      let chain = c.buckets b in
      elim (le_or_lt (length val) 64) [
        | inl small ↦
            let e' : Entry = record e {
              small = splice e.small 0 val;
              value = inline;
              value_len = length val;
            } in
            let wrote : keep_inline val e ≡ ok e' =
              rw (blit-ok e.small 0 val (omega (arith, small))) in
            rw
              (
                le→leb (length val) 64 small,
                update_first-run keyless b (keep_inline val) e e' chain keyless-first wrote,
              )
              (inr (_, done, refl, front-fails keyless.requests e' refl))
        | inr large ↦ elim (Bool-cases (c.grants (suc (suc c.requests)))) [
          | inl granted ↦
              let e' : Entry = record e { value = apart val; value_len = length val } in
              rw
                (
                  gt→leb (length val) 64 large,
                  granted,
                  update_first-run (asked keyless) b (keep_apart val) e e' chain keyless-first refl,
                )
                (inr (_, done, refl, front-fails (suc keyless.requests) e' refl))
          | inr refused ↦
              rw (gt→leb (length val) 64 large, refused)
                (inr (
                  asked keyless,
                  no_memory,
                  refl,
                  get_raw-Keyless (asked keyless) key (e, chain, keyless-first, refl),
                ))
        ]
      ]

-- CacheSet, once the memory of the entry is granted, never stores a value that can be looked up: it
-- overflows the block of the key, or, if that is refused, leaves an entry with a NULL key in front of
-- the chain, which the next CacheGetRaw of the key dereferences.
pub set-Unusable :
    (c : Cache) (key val : Bytes) → c.grants c.requests ≡ true → Unusable c key (set c key val)
unfolding set insert_empty
set-Unusable c key val g = elim (Bool-cases (c.grants (suc c.requests))) [
  | inl granted ↦ inl (rw (g, dup_key-granted (asked c) key granted))
  | inr refused ↦ rw (g, dup_key-refused (asked c) key refused) (set_first-keyless c key val)
]
