-- ===== src/Config/Push.antt =====
-- stack-overflow/capstone/src/cfgsvcd/cfgsvcd.c: what a push of a well-formed bundle does.
use mathlib.Core.Path.{subst}
use mathlib.Core.List.{append-nil, append_assoc}
use bug_museum.Base.{
  ◌*◌, ℕ, suc, ◌+◌, ◌/◌, ◌%◌, ◌^◌, ◌≤◌, ◌<◌, ◌≡◌, ◌≢◌, refl, sym, ◌∙◌, inl, inr, Bool, true, false,
  Option, none, some, List, [], ◌∷◌, ◌++◌, arith, ◌==◌, if◌then◌else◌, ge→ltb, le→leb, ne→==,
  Bool-cases, length, take, drop, map, tabulate_from, length-append, length-take,
  drop-length-append,
}
use bug_museum.Memory.Fault.{ok, fault, overflow}
use bug_museum.Memory.Bytes.{Bytes, memcpy, blit-overflow}
use bug_museum.Text.{codes}
use bug_museum.Config.Types.{Entry, cprof_max_entries}
use bug_museum.Config.Parse.{rd_u16, rd_u32, first_byte}
use bug_museum.Config.Encode.{Item, encode_onto, encode, entry_of, AllPlain, parse_blob-encode}
use bug_museum.Config.Query.{read_blob_inline}
use bug_museum.Config.Service.{
  inline_copy, cfg_blob, cfg_template, skip_name, peek_value, peek_entries, peek_first_blob, merge,
  materialize_templates, check_inline, ingest, handle_push,
}

-- The lengths of the items are those that the format can express.
abbrev pub AllSized : List Item → Type 0
AllSized [] = Unit {0}
AllSized (i ∷ items) = (length i.name < 2 ^ 16) × (length i.value < 2 ^ 32) × AllSized items

unfoldable pub first_blob : List Item → Option Item
first_blob [] = none
first_blob (i ∷ items) = let rest = first_blob items in if i.kind == cfg_blob then some i else rest

skip_name-encoded :
    (name behind : Bytes)
    → length name < 2 ^ 16
    → skip_name (length name % 256 ∷ length name / 256 ∷ (name ++ behind)) ≡ some behind
unfolding skip_name rd_u16
skip_name-encoded name behind small =
    let n : length name % 256 + 256 * (length name / 256) ≡ length name = omega arith in
    rw (
      n,
      ge→ltb (suc (suc (length (name ++ behind)))) 2 (omega arith),
      ge→ltb (length (name ++ behind)) (length name) (omega (arith, length-append name behind)),
      drop-length-append name behind,
    )

peek_value-encoded :
    (kind : ℕ) (value behind : Bytes)
    → length value < 2 ^ 32
    → let v = length value in
      peek_value
        (kind ∷ v % 256 ∷ v / 256 % 256 ∷ v / 65536 % 256 ∷ v / 16777216 ∷ (value ++ behind))
      ≡ some (kind, v, value ++ behind)
unfolding peek_value rd_u32 first_byte
peek_value-encoded kind value behind small =
    let v = length value in
    let n : v % 256 + 256 * (v / 256 % 256 + 256 * (v / 65536 % 256 + 256 * (v / 16777216))) ≡ v =
      omega arith in
    rw (
      n,
      ge→ltb (suc (suc (suc (suc (suc (length (value ++ behind))))))) 1 (omega arith),
      ge→ltb (suc (suc (suc (suc (length (value ++ behind)))))) 4 (omega arith),
      ge→ltb (length (value ++ behind)) v (omega (arith, length-append value behind)),
    )

peek_entries-step :
    (rounds : ℕ) (rest : Bytes) {behind val_p : Bytes} {kind value_len : ℕ}
    → skip_name rest ≡ some behind
    → peek_value behind ≡ some (kind, value_len, val_p)
    → peek_entries (suc rounds) rest ≡ (
        if kind == cfg_blob
        then some (val_p, value_len)
        else peek_entries rounds (drop value_len val_p))
unfolding peek_entries
peek_entries-step rounds rest first second = rw (first, second)

-- Where the first blob stands: its bytes, with something behind them.
abbrev Peeked : Option Item → Option (Bytes × ℕ) → Type 0
Peeked none found = found ≡ none
Peeked (some i) found = (behind : Bytes) × (found ≡ some (i.value ++ behind, length i.value))

peek_entries-none : (rest : Bytes) → peek_entries 0 rest ≡ none
unfolding peek_entries
peek_entries-none rest = refl

peek_entries-encode_onto :
    (items : List Item) (tail : Bytes)
    → AllSized items
    → Peeked (first_blob items) (peek_entries (length items) (encode_onto items tail))
unfolding first_blob encode_onto
peek_entries-encode_onto [] tail sized = peek_entries-none tail
peek_entries-encode_onto (i ∷ items) tail (short, small, others) =
    let behind = encode_onto items tail in
    let v = length i.value in
    let step =
      peek_entries-step (length items) (encode_onto (i ∷ items) tail)
        (skip_name-encoded i.name
          (i.kind ∷ v % 256 ∷ v / 256 % 256 ∷ v / 65536 % 256 ∷ v / 16777216 ∷ (i.value ++ behind))
          short)
        (peek_value-encoded i.kind i.value behind small) in
    elim (Bool-cases (i.kind == cfg_blob)) [
      | inl blob ↦ rw (step, blob) (behind, refl)
      | inr other ↦
          rw (step, other, drop-length-append i.value behind)
            (peek_entries-encode_onto items tail others)
    ]

peek_first_blob-encode :
    (flags : ℕ) (items : List Item) (trailer : Bytes)
    → length items < 2 ^ 32
    → peek_first_blob (encode flags items trailer)
      ≡ peek_entries (length items) (encode_onto items trailer)
unfolding peek_first_blob encode rd_u32
peek_first_blob-encode flags items trailer few =
    let n = length items in
    let count : n % 256 + 256 * (n / 256 % 256 + 256 * (n / 65536 % 256 + 256 * (n / 16777216)))
        ≡ n =
      omega arith in
    rw (
      count,
      ge→ltb
          (suc (
            suc (
              suc (
                suc (
                  suc (
                    suc
                      (suc (suc (suc (suc (suc (suc (length (encode_onto items trailer))))))))))))))
          12 (omega arith),
    )

module _ (junk : ℕ → ℕ → ℕ) (grants : ℕ → Bool) (atoi64 : Bytes → ℕ) (k : ℕ)
    (store : List Entry) where
  inline_copy-overflow :
      (blob : Bytes) (declared : ℕ)
      → declared ≤ length blob
      → 64 < declared
      → inline_copy junk (some (blob, declared)) ≡ fault overflow
  unfolding inline_copy read_blob_inline memcpy
  inline_copy-overflow blob declared there long = rw (
    le→leb declared (length blob) there,
    blit-overflow (tabulate_from 0 64 (junk 0)) 0 (take declared blob)
        (omega (arith, length-take declared blob)),
  )

  handle_push-checked :
      (payload : Bytes) {found : Option (Bytes × ℕ)}
      → peek_first_blob payload ≡ found
      → inline_copy junk found ≡ fault overflow
      → handle_push junk grants atoi64 true k store payload ≡ fault overflow
  unfolding handle_push check_inline
  handle_push-checked payload peeked over = rw (peeked, over)

  -- A bundle pushed over TCP overflows the scratch buffer when its first blob has more than 64 bytes;
  -- the number and the lengths of its items need only be those that the format can express.
  pub handle_push-overflow :
      (flags : ℕ) (items : List Item) (trailer : Bytes) (i : Item)
      → length items < 2 ^ 32
      → AllSized items
      → first_blob items ≡ some i
      → 64 < length i.value
      → handle_push junk grants atoi64 true k store (encode flags items trailer) ≡ fault overflow
  handle_push-overflow flags items trailer i few sized first long =
      let (behind, found) : Peeked (some i)
          (peek_entries (length items) (encode_onto items trailer)) =
        subst (λ o. Peeked o (peek_entries (length items) (encode_onto items trailer))) first
          (peek_entries-encode_onto items trailer sized) in
      handle_push-checked (encode flags items trailer)
        (peek_first_blob-encode flags items trailer few ∙ found)
        (inline_copy-overflow (i.value ++ behind) (length i.value)
          (omega (arith, length-append i.value behind)) long)

abbrev pub NoTemplates : List Item → Type 0
NoTemplates [] = Unit {0}
NoTemplates (i ∷ items) = (i.kind ≢ cfg_template) × NoTemplates items

materialize_templates-none :
    (junk : ℕ → ℕ → ℕ) (n : ℕ) (p : List Entry) (items : List Item)
    → NoTemplates items
    → materialize_templates junk n p (map entry_of items) ≡ ok tt
unfolding materialize_templates
materialize_templates-none junk n p [] none_left = refl
materialize_templates-none junk n p (i ∷ items) (ne, others) =
    rw (ne→== i.kind cfg_template ne) (materialize_templates-none junk n p items others)

merge-granted :
    (grants : ℕ → Bool)
    → ((k : ℕ) → grants k ≡ true)
    → (k : ℕ) (base over : List Entry) → merge grants k base over ≡ base ++ over
unfolding merge
merge-granted grants g k base [] = sym (append-nil base)
merge-granted grants g k base (s ∷ over) =
    rw (g k, g (k + 2))
      (merge-granted grants g (k + 3) (base ++ (s ∷ [])) over ∙ append_assoc base (s ∷ []) over)

-- A push over the pipe, with every allocation granted, of a bundle within the reader's limits that
-- has no integer and no template, appends its items in order to the store and answers OK.
pub handle_push-plain :
    (junk : ℕ → ℕ → ℕ) (grants : ℕ → Bool) (atoi64 : Bytes → ℕ) (k : ℕ) (store : List Entry)
    (flags : ℕ) (items : List Item) (trailer : Bytes)
    → ((n : ℕ) → grants n ≡ true)
    → length items ≤ cprof_max_entries
    → AllPlain items
    → NoTemplates items
    → handle_push junk grants atoi64 false k store (encode flags items trailer)
      ≡ ok (store ++ map entry_of items, codes "OK\n")
unfolding handle_push check_inline ingest
handle_push-plain junk grants atoi64 k store flags items trailer g few plain literal = rw (
  parse_blob-encode grants junk atoi64 g flags items trailer few plain,
  materialize_templates-none junk 1 (map entry_of items) items literal,
  merge-granted grants g k store (map entry_of items),
)
