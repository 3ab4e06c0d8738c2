-- ===== src/Config/Registry.antt =====
-- stack-overflow/capstone/src/providers/provider_reg.c: the values of a registry key become a profile.
-- The key is the list of what RegEnumValueW returns for it, up to ERROR_NO_MORE_ITEMS; a wide string is
-- the list of its units. `narrow` is WideCharToMultiByte into a buffer: none where it fails.
use bug_museum.Base.{
  ℕ, ◌+◌, ◌/◌, ◌%◌, ◌<◌, ◌≡◌, Bool, Option, none, some, List, [], ◌∷◌, arith, ◌==◌, if◌then◌else◌,
  take, tabulate_from, length-tabulate_from,
}
use bug_museum.Memory.Fault.{Result, ok, fault, overflow, ◌>>=◌}
use bug_museum.Memory.Bytes.{Bytes, strncpy, c_string, padded, length-padded, blit-overflow}
use bug_museum.Text.{codes}
use bug_museum.Config.Types.{Entry}
use bug_museum.Config.Query.{text_of, add}

abbrev pub cfg_wstr : ℕ
cfg_wstr = 1

-- One value: its name, its type, the units in the buffer and the size in bytes that is reported.
pub record Value : Type 0 where
  pub name : Bytes
  pub kind : ℕ
  pub units : Bytes
  pub cb : ℕ

-- `strcmp` of a prefix, and what stands behind it.
unfoldable pub behind_prefix : Bytes → Bytes → Option Bytes
behind_prefix [] spec = some spec
behind_prefix (c ∷ prefix) [] = none
behind_prefix (c ∷ prefix) (d ∷ spec) =
    let rest = behind_prefix prefix spec in if c == d then rest else none

-- strip_root
unfoldable pub strip_root : Bytes → Bytes
strip_root spec = elim (behind_prefix (codes "HKCU\\") spec) [
  | some rest ↦ rest
  | none ↦ elim (behind_prefix (codes "HKEY_CURRENT_USER\\") spec) [
    | some rest ↦ rest
    | none ↦ spec
  ]
]

-- The bytes of a wide string with its NUL, in memory.
unfoldable pub wide_bytes : Bytes → Bytes
wide_bytes [] = 0 ∷ 0 ∷ []
wide_bytes (u ∷ units) = u % 256 ∷ u / 256 ∷ wide_bytes units

module _ (narrow : Bytes → ℕ → Option Bytes) (grants : ℕ → Bool) (junk : ℕ → ℕ → ℕ) where
  -- narrow
  unfoldable pub narrow_name : Bytes → Bytes
  narrow_name name = elim (narrow name 256) [ none ↦ [] | some text ↦ take 255 (text_of text) ]

  -- The copy into `wbuf`, whose count is the size in bytes, and CfgAdd, the requests from `k` on.
  unfoldable pub import_text : ℕ → List Entry → Value → Result (List Entry)
  import_text k p v = do
    wbuf ← strncpy (tabulate_from 0 128 (junk k)) v.units v.cb
    text ← c_string wbuf
    let (p, error) = add (λ i. grants (k + i)) p (narrow_name v.name) cfg_wstr (wide_bytes text)
    ok p

  -- The loop; `none` is a value that could not be read, and REG_SZ is 1.
  unfoldable pub import_values : ℕ → List Entry → List (Option Value) → Result (List Entry)
  import_values k p [] = ok p
  import_values k p (none ∷ values) = import_values k p values
  import_values k p (some v ∷ values) =
      if v.kind == 1
      then (do p ← import_text k p v; import_values (k + 3) p values)
      else import_values k p values

  -- A value of more than 64 units with its NUL overflows `wbuf`: its size in bytes is the count.
  pub import_text-overflow :
      (k : ℕ) (p : List Entry) (v : Value) → 128 < v.cb → import_text k p v ≡ fault overflow
  unfolding import_text strncpy
  import_text-overflow k p v large = rw (
      blit-overflow (tabulate_from 0 128 (junk k)) 0 (padded v.units v.cb)
        (omega (arith, length-tabulate_from 0 128 (junk k), length-padded v.units v.cb)))
