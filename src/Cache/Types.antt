-- ===== src/Cache/Types.antt =====
-- heap-overflow/capstone/src/cachecore: the data of the cache store. Every block belongs to one entry,
-- so that blocks are values and a free only drops one. `requests` numbers the calls of malloc and
-- calloc: which are granted and what a fresh block holds are functions of that number.
use bug_museum.Base.{ℕ, suc, Bool, Option, none, some, List, if◌then◌else◌, tabulate_from}
use bug_museum.Memory.Bytes.{Bytes}

-- Where `value` points: nowhere yet, to `small`, or to a block of its own.
pub data Place : Type 0 where
  unset inline : Place
  apart : Bytes → Place

-- `key` is the block that it points to, or NULL.
pub record Entry : Type 0 where
  pub key : Option Bytes
  pub value : Place
  pub value_len : ℕ
  pub small : Bytes

-- The cache, each chain a list, and the allocator.
pub record Cache : Type 0 where
  pub buckets : ℕ → List Entry
  pub nbuckets : ℕ
  pub count : ℕ
  pub requests : ℕ
  pub grants : ℕ → Bool
  pub junk : ℕ → ℕ → ℕ

-- CACHE_OK, CACHE_ENOMEM and CACHE_ENOTFOUND; NULL arguments are left out.
pub data Status : Type 0 where
  done no_memory not_found : Status

abbrev pub asked : Cache → Cache
asked c = record c { requests = suc c.requests }

-- `malloc(n)`
abbrev pub alloc : Cache → ℕ → Option Bytes
alloc c n = if c.grants c.requests then some (tabulate_from 0 n (c.junk c.requests)) else none
