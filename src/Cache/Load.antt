-- ===== src/Cache/Load.antt =====
-- heap-overflow/capstone/src/cacheload/cacheload.c: a snapshot is loaded into a fresh cache. The file is
-- the list of its bytes.
use bug_museum.Base.{
  ℕ, zero, suc, Bool, Option, none, some, [], ◌++◌, ltb, ◌==◌, if◌then◌else◌, length, take, drop,
  tabulate_from,
}
use bug_museum.Memory.Fault.{Result, ok, ◌>>=◌}
use bug_museum.Memory.Bytes.{Bytes, same}
use bug_museum.Text.{codes, decimal}
use bug_museum.Config.Parse.{rd_u16, rd_u32, first_byte}
use bug_museum.Config.Query.{text_of}
use bug_museum.Wire.Read.{cut}
use bug_museum.Cache.Types.{Cache, asked}
use bug_museum.Cache.Store.{new, set, decode_id}

abbrev pub dump_max_entries : ℕ
dump_max_entries = 65536

abbrev pub dump_max_key : ℕ
dump_max_key = 4096

abbrev pub dump_max_value : ℕ
dump_max_value = 0x10_0000

abbrev pub dump_magic : Bytes
dump_magic = codes "AVL1"

-- The cache and the rest of the file after an entry, or none where the loop is left.
abbrev pub Loaded : Type 0
Loaded = Result (Option (Cache × Bytes))

-- The value of an entry, and CacheSet.
unfoldable pub load_value : Cache → Bytes → Bytes → Loaded
load_value c key file = elim (cut 4 file) [
  | none ↦ ok none
  | some (n, file) ↦
      if ltb dump_max_value (rd_u32 n)
      then ok none
      else if c.grants c.requests
      then elim (cut (rd_u32 n) file) [
        | none ↦ ok none
        | some (value, file) ↦ (do (c, status) ← set (asked c) key value; ok (some (c, file)))
      ]
      else ok none
]

-- The block that holds an identifier: one byte, if that is empty.
abbrev pub id_block : Cache → Bytes → Bytes
id_block c id = if length id == 0 then tabulate_from 0 1 (c.junk c.requests) else id

-- The identifier of an entry, which is decoded and dropped.
unfoldable pub load_id : Cache → Bytes → Bytes → Loaded
load_id c key file = elim (cut 1 file) [
  | none ↦ ok none
  | some (n, file) ↦
      if c.grants c.requests
      then elim (cut (first_byte n) file) [
        | none ↦ ok none
        | some (id, file) ↦ (do
          decoded ← decode_id (asked c) (id_block c id) (first_byte n)
          load_value (asked (asked c)) key file)
      ]
      else ok none
]

-- An entry; the key is what stands before the first NUL.
unfoldable pub load_entry : Cache → Bytes → Loaded
load_entry c file = elim (cut 2 file) [
  | none ↦ ok none
  | some (n, file) ↦
      if ltb dump_max_key (rd_u16 n)
      then ok none
      else if c.grants c.requests
      then elim (cut (rd_u16 n) file) [
        | none ↦ ok none
        | some (key, file) ↦ load_id (asked c) (text_of key) file
      ]
      else ok none
]

-- The loop over the entries: how many are loaded.
unfoldable pub load_entries : ℕ → ℕ → Cache → Bytes → Result ℕ
load_entries zero loaded c file = ok loaded
load_entries (suc rounds) loaded c file = load_entry c file >>= λ entry. elim entry [
  | none ↦ ok loaded
  | some (c, file) ↦ load_entries rounds (suc loaded) c file
]

-- The part behind the magic number: the exit code and what is printed.
unfoldable pub load_counted : (ℕ → Bool) → (ℕ → ℕ → ℕ) → ℕ → Bytes → Result (ℕ × Bytes)
load_counted grants junk count file =
    if ltb dump_max_entries count then ok (1, []) else elim (new grants junk 1024) [
      | none ↦ ok (1, [])
      | some c ↦ (do
        loaded ← load_entries count 0 c file
        ok (0, codes "loaded " ++ (decimal loaded ++ codes " entrie(s)\n")))
    ]

-- wmain, from the opened file on
unfoldable pub cacheload : (ℕ → Bool) → (ℕ → ℕ → ℕ) → Bytes → Result (ℕ × Bytes)
cacheload grants junk file = elim (cut 8 file) [
  | none ↦ ok (1, [])
  | some (head, file) ↦
      if same (take 4 head) dump_magic
      then load_counted grants junk (rd_u32 (drop 4 head)) file
      else ok (1, [])
]
