-- ===== src/Cache/Server.antt =====
-- heap-overflow/capstone/src/cached/cached.c: the handlers of the cache server and the one request of a
-- connection. The header's identifier field is the length of the key. The lock around a handler makes
-- requests sequential. `codecs` is the table that is filled at startup.
use bug_museum.Base.{
  ℕ, zero, suc, ◌/◌, ◌%◌, Bool, true, false, not, ◌&&◌, Option, none, some, List, [], ◌∷◌, ◌++◌,
  leb, ltb, ◌==◌, if◌then◌else◌, length, take,
}
use bug_museum.Memory.Fault.{Result, ok, fault, null_deref, over_read, ◌>>=◌}
use bug_museum.Memory.Bytes.{Bytes, blit, c_string}
use bug_museum.Text.{codes, decimal}
use bug_museum.Config.Query.{text_of}
use bug_museum.Wire.Read.{read_full}
use bug_museum.Wire.Request.{Header, header_of}
use bug_museum.Cache.Codecs.{decode_hex, copy_raw}
use bug_museum.Cache.Types.{unset, inline, apart, Entry, Cache, Status, done, asked, alloc}
use bug_museum.Cache.Store.{
  insert_empty, update_first, set, store_fast, get, get_raw, del, format_line, preview_key,
}

pub data Codec : Type 0 where
  raw hex : Codec

abbrev pub max_payload : ℕ
max_payload = 0x10_0000

abbrev pub Reply : Type 0
Reply = Result (Cache × Bytes)

-- What the selected codec, or memcpy, writes to the work buffer.
unfoldable pub transcoded : Option Codec → Bytes → Bytes
transcoded none value = value
transcoded (some raw) value = copy_raw (length value) value
transcoded (some hex) value = decode_hex (length value) value

-- The store at the end of the fast path of handle_set.
unfoldable pub stash : Cache → Option ℕ → Bytes → ℕ → Reply
stash c none work n = ok (c, codes "STORED\n")
stash c (some b) work n = do c ← update_first c b (store_fast work n); ok (c, codes "STORED\n")

-- The fast path of handle_set: `(r->flags & FLAG_CODEC_MASK) >> FLAG_CODEC_SHIFT` selects the codec.
unfoldable pub set_fast : (ℕ → Option Codec) → Cache → Header → Bytes → Bytes → Reply
set_fast codecs c r key value = elim (alloc c (if length value == 0 then 1 else length value)) [
  | none ↦ ok (asked c, codes "ERR mem\n")
  | some work ↦ (do
    let out = transcoded (codecs (r.flags / 16 % 16)) value
    work ← blit work 0 out
    (c, at) ← insert_empty (asked c) key
    stash c at work (length out))
]

-- What `conn_write(c, e->value, e->value_len)` sends.
unfoldable pub value_of : Entry → Result Bytes
value_of e = elim e.value [
  | unset ↦ if e.value_len == 0 then ok [] else fault null_deref
  | inline ↦
      if leb e.value_len (length e.small) then ok (take e.value_len e.small) else fault over_read
  | apart b ↦ if leb e.value_len (length b) then ok (take e.value_len b) else fault over_read
]

unfoldable pub value_reply : Option Entry → Result Bytes
value_reply none = ok (codes "NOT_FOUND\n")
value_reply (some e) = do value ← value_of e; ok (codes "VALUE " ++ (value ++ codes "\n"))

-- One string of handle_stats, if its buffer was granted.
unfoldable pub shown : Bytes → Option Bytes → Result Bytes
shown label none = ok []
shown label (some buffer) = do text ← c_string buffer; ok (label ++ (text ++ codes "\n"))

-- `CachePreviewKey(e->key)`
unfoldable pub preview_of : Cache → Entry → Result (Option Bytes)
preview_of c e = elim e.key [
  | none ↦ fault null_deref
  | some block ↦ (do key ← c_string block; preview_key c key)
]

unfoldable pub show_preview : Bool → Cache → Entry → Reply
show_preview false c e = ok (c, [])
show_preview true c e = do
  p ← preview_of c e
  text ← shown (codes "  preview=") p
  ok (asked c, text)

-- The inner loop of handle_stats.
unfoldable pub show_chain : Bool → Cache → List Entry → Reply
show_chain previews c [] = ok (c, [])
show_chain previews c (e ∷ chain) = do
  line ← format_line c e
  text ← shown [] line
  (c, preview) ← show_preview previews (asked c) e
  (c, rest) ← show_chain previews c chain
  ok (c, text ++ (preview ++ rest))

-- The outer loop, from the bucket `i` on.
unfoldable pub show_buckets : Bool → ℕ → ℕ → Cache → Reply
show_buckets previews zero i c = ok (c, [])
show_buckets previews (suc rounds) i c = do
  (c, text) ← show_chain previews c (c.buckets i)
  (c, rest) ← show_buckets previews rounds (suc i) c
  ok (c, text ++ rest)

module _ (is_tcp : Bool) where
  unfoldable pub handle_set : (ℕ → Option Codec) → Cache → Header → Bytes → Bytes → Reply
  handle_set codecs c r key value =
      if is_tcp && (r.flags % 2 == 1)
      then set_fast codecs c r key value
      else (do (c, status) ← set c key value; ok (c, codes "STORED\n"))

  unfoldable pub handle_get : Cache → Bytes → Reply
  handle_get c key =
      if is_tcp
      then (do found ← get_raw c key; text ← value_reply found; ok (c, text))
      else (do (c, found) ← get c key; text ← value_reply found; ok (c, text))

  abbrev deleted_reply : Status → Bytes
  deleted_reply done = codes "DELETED\n"
  deleted_reply _ = codes "NOT_FOUND\n"

  unfoldable pub handle_del : Cache → Bytes → Reply
  handle_del c key =
      if is_tcp
      then ok (c, codes "ERR unsupported\n")
      else (do (c, status) ← del c key; ok (c, deleted_reply status))

  unfoldable pub handle_stats : Cache → Header → Reply
  handle_stats c r = do
    (c', text) ← show_buckets (not is_tcp && (r.flags / 2 % 2 == 1)) c.nbuckets 0 c
    ok (c', codes "ENTRIES " ++ (decimal c.count ++ (codes "\n" ++ text)))

  -- `g_handlers`, behind the test on the operation
  unfoldable pub dispatch : (ℕ → Option Codec) → Cache → Header → Bytes → Bytes → Reply
  dispatch codecs c r key value =
      if r.op == 0
      then handle_set codecs c r key value
      else if r.op == 1
      then handle_get c key
      else if r.op == 2
      then handle_del c key
      else handle_stats c r

  module _ (codecs : ℕ → Option Codec) (recv : ℕ → ℕ → ℕ) where
    -- The value of a request and the call.
    unfoldable pub with_value : Cache → Header → Bytes → Bytes → Reply
    with_value c r key stream =
        if r.arg_len == 0
        then dispatch codecs c r key []
        else if c.grants c.requests
        then elim (read_full recv r.arg_len stream) [
          | none ↦ ok (asked c, [])
          | some (value, stream) ↦ dispatch codecs (asked c) r key value
        ]
        else ok (asked c, [])

    -- cstr, and what follows: the key is what stands before the first NUL.
    unfoldable pub with_key : Cache → Header → Bytes → Bytes → Reply
    with_key c r key stream =
        if c.grants c.requests
        then with_value (asked c) r (text_of key) stream
        else ok (asked c, [])

    -- The key of a request.
    unfoldable pub key_then : Cache → Header → Bytes → Reply
    key_then c r stream =
        if r.target == 0
        then with_key c r [] stream
        else if c.grants c.requests
        then elim (read_full recv r.target stream) [
          | none ↦ ok (asked c, [])
          | some (key, stream) ↦ with_key (asked c) r key stream
        ]
        else ok (asked c, [])

    -- serve
    unfoldable pub serve : Cache → Bytes → Reply
    serve c stream = elim (read_full recv 8 stream) [
      | none ↦ ok (c, [])
      | some (head, stream) ↦
          let r = header_of head in
          if ltb 3 r.op
          then ok (c, codes "ERR op\n")
          else if ltb max_payload r.arg_len
          then ok (c, codes "ERR too big\n")
          else key_then c r stream
    ]
