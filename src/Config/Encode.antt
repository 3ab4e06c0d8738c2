-- ===== src/Config/Encode.antt =====
-- The file format of stack-overflow/capstone/src/common/cprof.h as a printer, and what CfgParseBlob
-- makes of its output.
use bug_museum.Base.{
  ◌*◌, ℕ, suc, ◌+◌, ◌/◌, ◌%◌, ◌≤◌, ◌≡◌, ◌≢◌, refl, Bool, true, some, List, [], ◌∷◌, ◌++◌, arith,
  ge→ltb, ne→==, length, drop, length-append, take-length-append, drop-length-append, map,
}
use bug_museum.Memory.Fault.{ok}
use bug_museum.Memory.Bytes.{Bytes, same}
use bug_museum.Config.Types.{
  Entry, parsed, cfg_int, cprof_max_entries, cprof_max_name, cprof_max_value,
}
use bug_museum.Config.Parse.{
  rd_u16, rd_u32, read_name, read_value, make_entry, requests_of, parse_entries, parse_blob,
}

pub record Item : Type 0 where
  pub name : Bytes
  pub kind : ℕ
  pub value : Bytes

-- The items in the format, in front of `tail`.
unfoldable pub encode_onto : List Item → Bytes → Bytes
encode_onto [] tail = tail
encode_onto (i ∷ items) tail =
    let n = length i.name in
    let v = length i.value in
    n % 256
    ∷ n / 256
    ∷ (i.name
        ++ (i.kind
            ∷ v % 256
            ∷ v / 256 % 256
            ∷ v / 65536 % 256
            ∷ v / 16777216
            ∷ (i.value ++ encode_onto items tail)))

-- A bundle: the header, the items, and the trailer that the reader does not look at.
unfoldable pub encode : ℕ → List Item → Bytes → Bytes
encode flags items trailer =
    let n = length items in
    b'C'
    ∷ b'P'
    ∷ b'R'
    ∷ b'F'
    ∷ 1
    ∷ 0
    ∷ flags % 256
    ∷ flags / 256
    ∷ n % 256
    ∷ n / 256 % 256
    ∷ n / 65536 % 256
    ∷ n / 16777216
    ∷ encode_onto items trailer

abbrev pub entry_of : Item → Entry
entry_of i = record {
  name = i.name;
  kind = i.kind;
  value_len = length i.value;
  value = some i.value;
  ival = 0;
}

-- Within the reader's limits, and not of the integer type.
abbrev pub AllPlain : List Item → Type 0
AllPlain [] = Unit {0}
AllPlain (i ∷ items) =
    (length i.name ≤ cprof_max_name)
    × (length i.value ≤ cprof_max_value)
    × (i.kind ≢ cfg_int)
    × AllPlain items

read_name-encoded :
    (name behind : Bytes)
    → length name ≤ cprof_max_name
    → read_name (length name % 256 ∷ length name / 256 ∷ (name ++ behind)) ≡ parsed (name, behind)
unfolding read_name rd_u16
read_name-encoded name behind small =
    let n : length name % 256 + 256 * (length name / 256) ≡ length name = omega arith in
    rw (
      n,
      ge→ltb (suc (suc (length (name ++ behind)))) 2 (omega arith),
      ge→ltb cprof_max_name (length name) small,
      ge→ltb (length (name ++ behind)) (length name) (omega (arith, length-append name behind)),
      take-length-append name behind,
      drop-length-append name behind,
    )

read_value-encoded :
    (kind : ℕ) (value behind : Bytes)
    → length value ≤ cprof_max_value
    → let v = length value in
      read_value
        (kind ∷ v % 256 ∷ v / 256 % 256 ∷ v / 65536 % 256 ∷ v / 16777216 ∷ (value ++ behind))
      ≡ parsed (kind, v, value ++ behind)
unfolding read_value rd_u32
read_value-encoded kind value behind small =
    let v = length value in
    let n : v % 256 + 256 * (v / 256 % 256 + 256 * (v / 65536 % 256 + 256 * (v / 16777216))) ≡ v =
      omega arith in
    rw (
      n,
      ge→ltb (suc (suc (suc (suc (suc (length (value ++ behind))))))) 1 (omega arith),
      ge→ltb (suc (suc (suc (suc (length (value ++ behind)))))) 4 (omega arith),
      ge→ltb cprof_max_value v small,
      ge→ltb (length (value ++ behind)) v (omega (arith, length-append value behind)),
    )

module _ (grants : ℕ → Bool) (junk : ℕ → ℕ → ℕ) (atoi64 : Bytes → ℕ)
    (g : (k : ℕ) → grants k ≡ true) where
  make_entry-plain :
      (k : ℕ) (i : Item) (behind : Bytes)
      → i.kind ≢ cfg_int
      → make_entry grants junk atoi64 k i.name i.kind (length i.value) (i.value ++ behind)
        ≡ ok (parsed (entry_of i))
  unfolding make_entry
  make_entry-plain k i behind plain =
      rw (g k, g (k + 1), g (k + 2), ne→== i.kind cfg_int plain, take-length-append i.value behind)

  parse_entries-none :
      (k : ℕ) (rest : Bytes) → parse_entries grants junk atoi64 0 k rest ≡ ok (parsed [])
  unfolding parse_entries
  parse_entries-none k rest = refl

  parse_entries-step :
      (rounds k : ℕ) (rest : Bytes) {rest' val_p name : Bytes} {kind value_len : ℕ} {entry : Entry}
      {entries : List Entry}
      → read_name rest ≡ parsed (name, rest')
      → read_value rest' ≡ parsed (kind, value_len, val_p)
      → make_entry grants junk atoi64 k name kind value_len val_p ≡ ok (parsed entry)
      → parse_entries grants junk atoi64 rounds (k + requests_of kind) (drop value_len val_p)
        ≡ ok (parsed entries)
      → parse_entries grants junk atoi64 (suc rounds) k rest ≡ ok (parsed (entry ∷ entries))
  unfolding parse_entries
  parse_entries-step rounds k rest first second made others = rw (first, second, made, others)

  parse_entries-encode_onto :
      (items : List Item) (k : ℕ) (tail : Bytes)
      → AllPlain items
      → parse_entries grants junk atoi64 (length items) k (encode_onto items tail)
        ≡ ok (parsed (map entry_of items))
  unfolding encode_onto
  parse_entries-encode_onto [] k tail plain = parse_entries-none k tail
  parse_entries-encode_onto (i ∷ items) k tail (short, small, plain, others) =
      let behind = encode_onto items tail in
      let v = length i.value in
      parse_entries-step (length items) k (encode_onto (i ∷ items) tail)
        (read_name-encoded i.name
          (i.kind ∷ v % 256 ∷ v / 256 % 256 ∷ v / 65536 % 256 ∷ v / 16777216 ∷ (i.value ++ behind))
          short)
        (read_value-encoded i.kind i.value behind small) (make_entry-plain k i behind plain)
        (rw (drop-length-append i.value behind)
          (parse_entries-encode_onto items (k + requests_of i.kind) tail others))

  -- When every allocation is granted, the reader returns from a bundle in the format exactly its
  -- items, in order, provided that there are at most 4096, that names and values are within the
  -- limits, and that none is of the integer type; the flags and the trailer do not matter.
  pub parse_blob-encode :
      (flags : ℕ) (items : List Item) (trailer : Bytes)
      → length items ≤ cprof_max_entries
      → AllPlain items
      → parse_blob grants junk atoi64 (encode flags items trailer)
        ≡ ok (parsed (map entry_of items))
  unfolding parse_blob encode rd_u16 rd_u32 same
  parse_blob-encode flags items trailer few plain =
      let n = length items in
      let count : n % 256 + 256 * (n / 256 % 256 + 256 * (n / 65536 % 256 + 256 * (n / 16777216)))
          ≡ n =
        omega arith in
      rw (
        count,
        ge→ltb
            (suc (
              suc (
                suc (
                  suc (
                    suc (
                      suc (
                        suc
                          (suc (suc (suc (suc (suc (length (encode_onto items trailer))))))))))))))
            12 (omega arith),
        ge→ltb cprof_max_entries n few,
        g 0,
        parse_entries-encode_onto items 1 trailer plain,
      )
