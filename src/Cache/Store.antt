-- ===== src/Cache/Store.antt =====
-- heap-overflow/capstone/src/cachecore/cachecore.c: the operations of the cache store. A key argument
-- is the list of its characters, not NULL; an argument value and its length are one list.
use Prim.Native.Nat.{bit_xor}
use bug_museum.Base.{
  ℕ, suc, ◌+◌, ◌-◌, ◌*◌, ◌%◌, ◌^◌, Bool, Option, none, some, List, [], ◌∷◌, ◌++◌, leb, ltb, ◌==◌,
  if◌then◌else◌, length, replicate,
}
use bug_museum.Memory.Fault.{Result, ok, fault, null_deref, ◌>>=◌}
use bug_museum.Memory.Bytes.{Bytes, blit, c_string, memcpy, same, store, strcpy, strncpy}
use bug_museum.Memory.Loop.{copy_loop}
use bug_museum.Text.{codes, decimal}
use bug_museum.Cache.Types.{
  unset, inline, apart, Entry, Cache, Status, done, no_memory, not_found, asked, alloc,
}

-- hash_str from a state on
unfoldable pub hash_from : ℕ → Bytes → ℕ
hash_from h [] = h
hash_from h (c ∷ key) = hash_from (bit_xor h c * 16777619 % 2 ^ 32) key

unfoldable pub hash_str : Bytes → ℕ
unfolding hash_from
hash_str key = hash_from 2166136261 key

-- dup_key: the block has no room for the NUL
unfoldable pub dup_key : Cache → Bytes → Result (Option Bytes)
dup_key c key = elim (alloc c (length key)) [
  | none ↦ ok none
  | some block ↦ (do block ← strcpy block key; ok (some block))
]

-- normalize_key: the buffer
unfoldable pub normalize_key : Cache → Bytes → Result (Option Bytes)
normalize_key c key = elim (alloc c 32) [
  | none ↦ ok none
  | some out ↦ (do
    out ← (if ltb (length key) 256 then strncpy out key (length key) else ok out)
    out ← store out 31 0
    ok (some out))
]

-- CacheNew, with the allocator of a cache that is not there yet
unfoldable pub new : (ℕ → Bool) → (ℕ → ℕ → ℕ) → ℕ → Option Cache
new grants junk nbuckets =
    if grants 0
    then if grants 1
      then some (record {
        buckets = λ _. [];
        nbuckets = if nbuckets == 0 then 256 else nbuckets;
        count = 0;
        requests = 2;
        grants = grants;
        junk = junk;
      })
      else none
    else none

abbrev pub set_bucket : (ℕ → List Entry) → ℕ → List Entry → ℕ → List Entry
set_bucket buckets b chain i = if i == b then chain else buckets i

-- What calloc makes of an entry, with its key.
abbrev pub empty_entry : Option Bytes → Entry
empty_entry key = record { key = key; value = unset; value_len = 0; small = replicate 64 0 }

abbrev pub bucket_of : Cache → Bytes → ℕ
bucket_of c key = hash_str key % c.nbuckets

-- The end of CacheInsertEmpty: the entry is linked in front of its bucket.
abbrev pub linked_in : Cache → ℕ → Option Bytes → Cache
linked_in c b key = record c {
  buckets = set_bucket c.buckets b (empty_entry key ∷ c.buckets b);
  count = (c.count + 1) % 2 ^ 32;
}

-- CacheInsertEmpty: the new entry is the first of the bucket that is returned
unfoldable pub insert_empty : Cache → Bytes → Result (Cache × Option ℕ)
insert_empty c key =
    if c.grants c.requests
    then (do
      key_block ← dup_key (asked c) key
      ok (linked_in (asked (asked c)) (bucket_of c key) key_block, some (bucket_of c key)))
    else ok (asked c, none)

-- A write to the first entry of a bucket.
unfoldable pub update_first : Cache → ℕ → (Entry → Result Entry) → Result Cache
update_first c b f = elim (c.buckets b) [
  | [] ↦ fault null_deref
  | e ∷ chain ↦ (do e ← f e; ok (record c { buckets = set_bucket c.buckets b (e ∷ chain) }))
]

-- The inline branch of CacheSet.
unfoldable pub keep_inline : Bytes → Entry → Result Entry
keep_inline val e = do
  small ← blit e.small 0 val
  ok (record e { small = small; value = inline; value_len = length val })

abbrev pub keep_apart : Bytes → Entry → Result Entry
keep_apart val e = ok (record e { value = apart val; value_len = length val })

-- What CacheSet does once the entry is there.
unfoldable pub set_first : Cache → ℕ → Bytes → Result (Cache × Status)
set_first c b val =
    if leb (length val) 64
    then (do c ← update_first c b (keep_inline val); ok (c, done))
    else if c.grants c.requests
    then (do c ← update_first (asked c) b (keep_apart val); ok (c, done))
    else ok (asked c, no_memory)

-- CacheSet
unfoldable pub set : Cache → Bytes → Bytes → Result (Cache × Status)
set c key val = do
  (c, at) ← insert_empty c key
  elim at [ none ↦ ok (c, no_memory) | some b ↦ set_first c b val ]

-- CacheStoreFast, where the source object `mem` has its own bounds
unfoldable pub store_fast : Bytes → ℕ → Entry → Result Entry
store_fast mem declared_len e = do
  small ← memcpy e.small 0 mem declared_len
  ok (record e { small = small; value = inline; value_len = declared_len })

-- `strcmp(e->key, key) == 0`
unfoldable pub has_key : Entry → Bytes → Result Bool
has_key e key = elim e.key [
  | none ↦ fault null_deref
  | some block ↦ (do text ← c_string block; ok (same text key))
]

-- The loop over a chain.
unfoldable pub find_in : List Entry → Bytes → Result (Option Entry)
find_in [] key = ok none
find_in (e ∷ chain) key = do hit ← has_key e key; if hit then ok (some e) else find_in chain key

-- CacheGetRaw
unfoldable pub get_raw : Cache → Bytes → Result (Option Entry)
get_raw c key = find_in (c.buckets (bucket_of c key)) key

-- CacheGet: the cache has answered one request more
unfoldable pub get : Cache → Bytes → Result (Cache × Option Entry)
get c key = normalize_key c key >>= λ norm. elim norm [
  | none ↦ ok (asked c, none)
  | some out ↦ (do
    text ← c_string out
    found ← find_in (c.buckets (bucket_of c text)) text
    ok (asked c, found))
]

abbrev pub behind : Entry → Option (List Entry) → Option (List Entry)
behind e none = none
behind e (some chain) = some (e ∷ chain)

-- The loop of CacheDel: the chain without the first entry of that key
unfoldable pub remove_in : List Entry → Bytes → Result (Option (List Entry))
remove_in [] key = ok none
remove_in (e ∷ chain) key = do
  hit ← has_key e key
  if hit then ok (some chain) else (remove_in chain key >>= λ rest. ok (behind e rest))

-- The end of CacheDel.
abbrev pub deleted : Cache → ℕ → Option (List Entry) → Cache × Status
deleted c b none = (c, not_found)
deleted c b (some chain) = (
  record c { buckets = set_bucket c.buckets b chain; count = (c.count + 2 ^ 32 - 1) % 2 ^ 32 },
  done,
)

-- CacheDel
unfoldable pub del : Cache → Bytes → Result (Cache × Status)
del c key = normalize_key c key >>= λ norm. elim norm [
  | none ↦ ok (asked c, no_memory)
  | some out ↦ (do
    text ← c_string out
    left ← remove_in (c.buckets (bucket_of c text)) text
    ok (deleted (asked c) (bucket_of c text) left))
]

-- CachePreviewKey
unfoldable pub preview_key : Cache → Bytes → Result (Option Bytes)
preview_key c key = elim (alloc c 32) [
  | none ↦ ok none
  | some p ↦ (do p ← strcpy p key; ok (some p))
]

-- CacheFormatLine
unfoldable pub format_line : Cache → Entry → Result (Option Bytes)
format_line c e = elim (alloc c 128) [
  | none ↦ ok none
  | some line ↦ elim e.key [
    | none ↦ fault null_deref
    | some block ↦ (do
      key ← c_string block
      line ← strcpy line (codes "key=" ++ (key ++ (codes " len=" ++ decimal e.value_len)))
      ok (some line))
  ]
]

-- CacheDecodeId, where the source object `src` has its own bounds
unfoldable pub decode_id : Cache → Bytes → ℕ → Result (Option Bytes)
decode_id c src id_len = elim (alloc c 16) [
  | none ↦ ok none
  | some id ↦ (do
    let n = if ltb id_len 16 then id_len else 16
    id ← copy_loop (suc n) 0 id src
    id ← store id 15 0
    ok (some id))
]
