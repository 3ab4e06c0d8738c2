-- ===== src/Config/Parse.antt =====
-- stack-overflow/capstone/src/cfgcore/cfgcore.c: CfgParseBlob. The cursor `data + off` is the list of
-- the bytes from there to the end of the blob. `grants` says which allocation requests succeed, by
-- their number; `junk` what the local array of decode_field holds; `atoi64` is the C library's
-- _atoi64, the bit pattern of its result.
use bug_museum.Base.{
  ℕ, zero, suc, ◌+◌, ◌*◌, Bool, none, some, List, [], ◌∷◌, ltb, ◌==◌, if◌then◌else◌, length, set,
  take, drop, tabulate_from,
}
use bug_museum.Memory.Fault.{Result, ok, ◌>>=◌}
use bug_museum.Memory.Bytes.{Bytes, same}
use bug_museum.Memory.Loop.{copy_loop}
use bug_museum.Text.{codes}
use bug_museum.Config.Types.{
  Entry, bad_magic, version, trunc, limit, nomem, Outcome, refused, parsed, cfg_int, cprof_version,
  cprof_max_entries, cprof_max_name, cprof_max_value,
}

-- rd_u16 and the first two bytes of a header field
unfoldable pub rd_u16 : Bytes → ℕ
rd_u16 (a ∷ b ∷ rest) = a + 256 * b
rd_u16 _ = 0

unfoldable pub rd_u32 : Bytes → ℕ
rd_u32 (a ∷ b ∷ c ∷ d ∷ rest) = a + 256 * (b + 256 * (c + 256 * d))
rd_u32 _ = 0

unfoldable pub decode_field : (ℕ → ℕ) → (Bytes → ℕ) → Bytes → ℕ → Result ℕ
decode_field junk atoi64 src value_len =
    let n = if ltb value_len 16 then value_len else 16 in
    do field ← copy_loop (suc n) 0 (tabulate_from 0 16 junk) src; ok (atoi64 (set field 15 0))

-- The first three checks of the loop: the name, and the cursor behind it.
unfoldable pub read_name : Bytes → Outcome (Bytes × Bytes)
read_name rest =
    let name_len = rd_u16 rest in
    let behind = drop 2 rest in
    if ltb (length rest) 2
    then refused trunc
    else if ltb cprof_max_name name_len
    then refused limit
    else if ltb (length behind) name_len
    then refused trunc
    else parsed (take name_len behind, drop name_len behind)

unfoldable pub first_byte : Bytes → ℕ
first_byte [] = 0
first_byte (b ∷ bs) = b

-- The next four: the type, `value_len`, and the cursor `val_p`.
unfoldable pub read_value : Bytes → Outcome (ℕ × ℕ × Bytes)
unfolding first_byte
read_value rest =
    let behind = drop 1 rest in
    let value_len = rd_u32 behind in
    let val_p = drop 4 behind in
    if ltb (length rest) 1
    then refused trunc
    else if ltb (length behind) 4
    then refused trunc
    else if ltb cprof_max_value value_len
    then refused limit
    else if ltb (length val_p) value_len
    then refused trunc
    else parsed (first_byte rest, value_len, val_p)

-- A check that returns its status at once when it fails.
abbrev pub checked {ℓ κ} :
    {A : Type ℓ} {B : Type κ} → Outcome A → (A → Result (Outcome B)) → Result (Outcome B)
checked (refused e) f = ok (refused e)
checked (parsed a) f = f a

-- How many requests make_entry makes.
unfoldable pub requests_of : ℕ → ℕ
requests_of kind = if kind == cfg_int then 2 else 3

module _ (grants : ℕ → Bool) (junk : ℕ → ℕ → ℕ) (atoi64 : Bytes → ℕ) where
  -- The body of the loop behind the checks: up to three requests, of which `k` is the first.
  unfoldable pub make_entry : ℕ → Bytes → ℕ → ℕ → Bytes → Result (Outcome Entry)
  make_entry k name kind value_len val_p =
      let blank : Entry = record {
        name = name;
        kind = kind;
        value_len = value_len;
        value = none;
        ival = 0;
      } in
      if grants k
      then if grants (k + 1)
        then if kind == cfg_int
          then (do
            v ← decode_field (junk k) atoi64 val_p value_len
            ok (parsed (record blank { ival = v })))
          else if grants (k + 2)
          then ok (parsed (record blank { value = some (take value_len val_p) }))
          else ok (refused nomem)
        else ok (refused nomem)
      else ok (refused nomem)

  -- The loop with its rounds left. On an error the profile so far is freed.
  unfoldable pub parse_entries : ℕ → ℕ → Bytes → Result (Outcome (List Entry))
  parse_entries zero k rest = ok (parsed [])
  parse_entries (suc rounds) k rest = checked (read_name rest) (λ (name, rest').
      checked (read_value rest') (λ (kind, value_len, val_p).
        make_entry k name kind value_len val_p >>= λ made. checked made (λ entry.
          parse_entries rounds (k + requests_of kind) (drop value_len val_p) >>= λ others.
          checked others (λ entries. ok (parsed (entry ∷ entries))))))

  -- CfgParseBlob
  unfoldable pub parse_blob : Bytes → Result (Outcome (List Entry))
  parse_blob blob =
      let entry_count = rd_u32 (drop 8 blob) in
      if ltb (length blob) 12
      then ok (refused trunc)
      else if same (take 4 blob) (codes "CPRF")
      then if rd_u16 (drop 4 blob) == cprof_version
        then if ltb cprof_max_entries entry_count
          then ok (refused limit)
          else if grants 0
          then parse_entries entry_count 1 (drop 12 blob)
          else ok (refused nomem)
        else ok (refused version)
      else ok (refused bad_magic)
