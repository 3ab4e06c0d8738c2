-- ===== src/Config/Query.antt =====
-- stack-overflow/capstone/src/cfgcore/cfgcore.c: construction, lookup, merging, and the serve-time
-- helpers. A buffer on the stack starts with the junk that is given for it.
use bug_museum.Base.{
  ℕ, zero, suc, Bool, ◌&&◌, Option, none, some, List, [], ◌∷◌, ◌++◌, ltb, leb, ◌==◌, if◌then◌else◌,
  length, take, tabulate_from,
}
use bug_museum.Memory.Fault.{Result, ok, ◌>>=◌}
use bug_museum.Memory.Bytes.{Bytes, store, strcpy, strncpy, memcpy, c_string, same}
use bug_museum.Text.{codes, decimal}
use bug_museum.Config.Types.{Entry, Status, io, nomem}

-- The C string in a block that ends with a NUL.
unfoldable pub text_of : Bytes → Bytes
text_of [] = []
text_of (b ∷ bs) = let rest = text_of bs in if b == 0 then [] else b ∷ rest

-- CfgAdd with a value; `grants` says which of its three requests succeed. The result is the profile
-- and the error, if there is one.
unfoldable pub add : (ℕ → Bool) → List Entry → Bytes → ℕ → Bytes → List Entry × Option Status
add grants p name kind value =
    if grants 0 && (grants 1 && grants 2)
    then (
      p
          ++ (record {
            name = name;
            kind = kind;
            value_len = length value;
            value = some value;
            ival = 0;
          }
              ∷ []),
      none,
    )
    else (p, some nomem)

-- find_entry
unfoldable pub find_entry : List Entry → Bytes → Option Entry
find_entry [] name = none
find_entry (e ∷ p) name =
    let rest = find_entry p name in if same (text_of e.name) name then some e else rest

-- normalize_key, on the caller's buffer
unfoldable pub normalize_key : Bytes → Bytes → Result Bytes
normalize_key raw out = do
  out ← (if ltb (length raw) 64 then strncpy out raw (length raw) else ok out)
  store out 31 0

-- CfgLookup
unfoldable pub lookup : (ℕ → ℕ) → List Entry → Bytes → Result (Option Entry)
lookup junk p key = do
  norm ← normalize_key key (tabulate_from 0 32 junk)
  text ← c_string norm
  ok (find_entry p text)

-- CfgFormatLabel: the text before `_snprintf` cuts it at the caller's size
unfoldable pub format_label : (ℕ → ℕ) → Entry → Result Bytes
format_label junk e = do
  label ← strcpy (tabulate_from 0 32 junk) (text_of e.name)
  text ← c_string label
  ok (
      codes "["
      ++ (text ++ (codes "] type=" ++ (decimal e.kind ++ (codes " len=" ++ decimal e.value_len)))))

-- The text up to the first '}' and what follows that, or none.
unfoldable pub closing : Bytes → Option (Bytes × Bytes)
closing [] = none
closing (c ∷ cs) =
    let rest = closing cs in
    if c == b'}'
    then some ([], cs)
    else elim rest [ none ↦ none | some (name, behind) ↦ some (c ∷ name, behind) ]

-- `resolved[w++] = c` for as long as there is room below 511
unfoldable pub emit : Bytes → Bytes → Bytes
emit resolved text = take 511 (resolved ++ text)

-- What a reference puts into the text.
unfoldable pub referenced : List Entry → Bytes → Bytes
referenced p name = elim (find_entry p name) [
  | none ↦ []
  | some e ↦ elim e.value [ none ↦ [] | some value ↦ value ]
]

-- The reference at the cursor: `${`, a name and `}`.
unfoldable pub reference : Bytes → Option (Bytes × Bytes)
reference (a ∷ b ∷ rest) =
    let found = closing rest in if (a == b'$') && (b == b'{') then found else none
reference _ = none

-- The loop of CfgExpandTemplate on the bytes from the cursor on, with fuel for its rounds.
unfoldable pub resolve_template : ℕ → List Entry → Bytes → Bytes → Bytes
resolve_template zero p s resolved = resolved
resolve_template (suc fuel) p [] resolved = resolved
resolve_template (suc fuel) p (c ∷ s) resolved =
    if leb 511 (length resolved) then resolved else elim (reference (c ∷ s)) [
      | some (name, behind) ↦ resolve_template fuel p behind (emit resolved (referenced p name))
      | none ↦ resolve_template fuel p s (resolved ++ c ∷ [])
    ]

-- The end of CfgExpandTemplate: `sprintf(line, "%s", resolved)`, and the caller's reply buffer of
-- 256 bytes.
unfoldable pub reply_line : (ℕ → ℕ) → Bytes → Bytes → Result Bytes
reply_line junk resolved out = do
  line ← strcpy (tabulate_from 0 128 junk) (text_of resolved)
  text ← c_string line
  out ← strncpy out text 255
  store out 255 0

-- CfgExpandTemplate: the reply buffer and the error, if there is one
unfoldable pub expand_template :
    (ℕ → ℕ) → List Entry → Option Entry → Bytes → Result (Bytes × Option Status)
expand_template junk p none out = do out ← store out 0 0; ok (out, some io)
expand_template junk p (some e) out = elim e.value [
  | none ↦ (do out ← store out 0 0; ok (out, some io))
  | some s ↦ (do out ← reply_line junk (resolve_template (length s) p s []) out; ok (out, none))
]

-- CfgReadBlobInline
unfoldable pub read_blob_inline : Bytes → Bytes → ℕ → Result Bytes
read_blob_inline dst src declared_len = memcpy dst 0 src declared_len
