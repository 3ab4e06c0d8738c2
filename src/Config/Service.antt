-- ===== src/Config/Service.antt =====
-- stack-overflow/capstone/src/cfgsvcd/cfgsvcd.c: one request of the configuration service, and CfgMerge
-- of cfgcore.c. A connection is what its peer sends before it closes, and what the service answers; the
-- lock around a handler makes requests sequential. `junk` gives the content of a local buffer by the
-- number of its use; `grants` and `atoi64` are those of the reader. The copy of a name by _strdup is
-- taken to succeed, since the code does not test it.
use bug_museum.Base.{
  ℕ, zero, suc, ◌+◌, Bool, true, false, Option, none, some, List, [], ◌∷◌, ◌++◌, ltb, ◌==◌,
  if◌then◌else◌, length, take, drop, tabulate_from,
}
use bug_museum.Memory.Fault.{Result, ok, ◌>>=◌}
use bug_museum.Memory.Bytes.{Bytes, c_string}
use bug_museum.Text.{codes}
use bug_museum.Config.Types.{Entry, Outcome, refused, parsed}
use bug_museum.Config.Parse.{rd_u16, rd_u32, first_byte, parse_blob}
use bug_museum.Config.Query.{text_of, lookup, expand_template, read_blob_inline}

abbrev pub cfg_blob : ℕ
cfg_blob = 2

abbrev pub cfg_template : ℕ
cfg_template = 4

abbrev pub cascade_max_payload : ℕ
cascade_max_payload = 0x10_0000

-- The first two checks of a round of peek_first_blob: the cursor behind the name.
unfoldable pub skip_name : Bytes → Option Bytes
skip_name rest =
    let behind = drop 2 rest in
    if ltb (length rest) 2
    then none
    else if ltb (length behind) (rd_u16 rest)
    then none
    else some (drop (rd_u16 rest) behind)

-- The next three: the type, the length and the cursor at the value.
unfoldable pub peek_value : Bytes → Option (ℕ × ℕ × Bytes)
peek_value rest =
    let behind = drop 1 rest in
    let val_p = drop 4 behind in
    if ltb (length rest) 1
    then none
    else if ltb (length behind) 4
    then none
    else if ltb (length val_p) (rd_u32 behind)
    then none
    else some (first_byte rest, rd_u32 behind, val_p)

abbrev pub checked {ℓ κ} : {A : Type ℓ} {B : Type κ} → Option A → (A → Option B) → Option B
checked none f = none
checked (some a) f = f a

-- The loop of peek_first_blob with its rounds left.
unfoldable pub peek_entries : ℕ → Bytes → Option (Bytes × ℕ)
peek_entries zero rest = none
peek_entries (suc rounds) rest = checked (skip_name rest) (λ behind.
    checked (peek_value behind) (λ (kind, value_len, val_p).
      let others = peek_entries rounds (drop value_len val_p) in
      if kind == cfg_blob then some (val_p, value_len) else others))

-- peek_first_blob: the value pointer, with the bytes from there on, and the declared length
unfoldable pub peek_first_blob : Bytes → Option (Bytes × ℕ)
peek_first_blob blob =
    if ltb (length blob) 12 then none else peek_entries (rd_u32 (drop 8 blob)) (drop 12 blob)

-- CfgMerge, of which the service drops the status: it stops at an entry that it cannot allocate, and
-- leaves the value NULL where that cannot be allocated. What follows a NUL in a name is kept, which no
-- reader of the name sees. The requests are numbered from `k` on.
unfoldable pub merge : (ℕ → Bool) → ℕ → List Entry → List Entry → List Entry
merge grants k base [] = base
merge grants k base (s ∷ over) =
    let copy = if grants (k + 2) then s.value else none in
    let base' = base ++ (record s { value = copy } ∷ []) in
    let rest = merge grants (k + 3) base' over in if grants k then rest else base

module _ (junk : ℕ → ℕ → ℕ) where
  -- materialize_templates, from the entry number `k` on
  unfoldable pub materialize_templates : ℕ → List Entry → List Entry → Result (Unit {0})
  materialize_templates k p [] = ok tt
  materialize_templates k p (e ∷ rest) =
      if e.kind == cfg_template
      then (do
        _ ← expand_template (junk (k + 1)) p (some e) (tabulate_from 0 256 (junk k))
        materialize_templates (k + 2) p rest)
      else materialize_templates k p rest

  -- handle_get: the reply
  unfoldable pub handle_get : List Entry → Bytes → Result Bytes
  handle_get store payload = lookup (junk 0) store (text_of (take 255 payload)) >>= λ found.
      elim found [
        | none ↦ ok (codes "ERR not found\n")
        | some e ↦
            if e.kind == cfg_template
            then (do
              (out, error) ← expand_template (junk 2) store (some e) (tabulate_from 0 256 (junk 1))
              text ← c_string out
              ok (text ++ codes "\n"))
            else ok (codes "OK\n")
      ]

  -- The copy into `scratch`, when a blob has been found.
  unfoldable pub inline_copy : Option (Bytes × ℕ) → Result (Unit {0})
  inline_copy none = ok tt
  inline_copy (some (blob, declared)) =
      read_blob_inline (tabulate_from 0 64 (junk 0)) blob declared >>= λ _. ok tt

  -- The network fast path of handle_push.
  unfoldable pub check_inline : Bool → Bytes → Result (Unit {0})
  check_inline false payload = ok tt
  check_inline true payload = inline_copy (peek_first_blob payload)

  module _ (grants : ℕ → Bool) (atoi64 : Bytes → ℕ) where
    -- The second half of handle_push: `k` requests have been made before the merge.
    unfoldable pub ingest : ℕ → List Entry → Outcome (List Entry) → Result (List Entry × Bytes)
    ingest k store (refused e) = ok (store, codes "ERR parse\n")
    ingest k store (parsed p) = do
      _ ← materialize_templates 1 p p
      ok (merge grants k store p, codes "OK\n")

    -- handle_push: the store afterwards and the reply
    unfoldable pub handle_push : Bool → ℕ → List Entry → Bytes → Result (List Entry × Bytes)
    handle_push is_tcp k store payload = do
      _ ← check_inline is_tcp payload
      p ← parse_blob grants junk atoi64 payload
      ingest k store p

    -- The policy and the dispatch at the end of serve.
    unfoldable pub dispatch : Bool → ℕ → List Entry → ℕ → Bytes → Result (List Entry × Bytes)
    dispatch is_tcp k store op payload =
        if ltb 1 op
        then ok (store, codes "ERR op\n")
        else if op == 0
        then if is_tcp
          then ok (store, codes "ERR unsupported\n")
          else (do text ← handle_get store payload; ok (store, text))
        else handle_push is_tcp k store payload

    -- serve; `buffer` says whether the payload buffer is allocated
    unfoldable pub serve : Bool → Bool → ℕ → List Entry → Bytes → Result (List Entry × Bytes)
    serve is_tcp buffer k store incoming =
        let op = first_byte incoming in
        let payload_len = rd_u32 (drop 4 incoming) in
        let behind = drop 8 incoming in
        if ltb (length incoming) 8
        then ok (store, [])
        else if ltb cascade_max_payload payload_len
        then ok (store, codes "ERR too big\n")
        else if buffer
        then if ltb (length behind) payload_len
          then ok (store, [])
          else dispatch is_tcp k store op (take payload_len behind)
        else ok (store, [])
