-- ===== src/Config/Providers.antt =====
-- stack-overflow/capstone/src/providers/provider_env.c and provider_file.c, and CfgOpenFile and CfgNew of
-- cfgcore/cfgcore.c. What the system is asked for is a parameter: a file is what _wfopen, ftell and fread
-- return of it, a variable is what GetEnvironmentVariableA returns and leaves in the buffer, and `narrow`
-- is WideCharToMultiByte into a buffer: none where it fails. A wide string is the list of its units.
use bug_museum.Base.{
  ℕ, suc, ◌+◌, ◌≡◌, ◌≢◌, refl, ap, Bool, ◌&&◌, Option, none, some, List, [], ◌∷◌, ◌++◌, ltb, ◌==◌,
  if◌then◌else◌, take, ne→==,
}
use bug_museum.Memory.Fault.{Result, ok}
use bug_museum.Memory.Bytes.{Bytes}
use bug_museum.Text.{codes}
use bug_museum.Config.Types.{Entry, Outcome, refused, parsed, nomem, io}
use bug_museum.Config.Parse.{parse_blob}
use bug_museum.Config.Query.{text_of, add}

abbrev pub cfg_str : ℕ
cfg_str = 0

-- The separator `;`.
abbrev semicolon : ℕ
semicolon = b';'

-- A character in front of the tokens of the rest, of which the first may go on.
abbrev onto_first : ℕ → List Bytes → List Bytes
onto_first c [] = (c ∷ []) ∷ []
onto_first c (t ∷ ts) = (c ∷ t) ∷ ts

-- The parts of a list between its separators, some of them empty.
unfoldable pub parts : Bytes → List Bytes
parts [] = [] ∷ []
parts (c ∷ list) = let rest = parts list in if c == semicolon then [] ∷ rest else onto_first c rest

unfoldable pub without_empty : List Bytes → List Bytes
without_empty [] = []
without_empty ([] ∷ ts) = without_empty ts
without_empty ((c ∷ t) ∷ ts) = (c ∷ t) ∷ without_empty ts

-- What strtok_s returns one after the other.
unfoldable pub tokens : Bytes → List Bytes
tokens list = without_empty (parts list)

-- CfgNew
unfoldable pub new_profile : Bool → Option (List Entry)
new_profile granted = if granted then some [] else none

module _ (narrow : Bytes → ℕ → Option Bytes) (variable : Bytes → ℕ × Bytes)
    (grants : ℕ → Bool) where
  -- narrow, into the 1024 bytes of `wide_spec`
  unfoldable pub narrow_spec : Bytes → Bytes
  narrow_spec spec = elim (narrow spec 1024) [ none ↦ [] | some text ↦ take 1023 (text_of text) ]

  -- The list of names: the one that is given, or DEFAULTS.
  unfoldable pub names_of : Option Bytes → Bytes
  names_of none = codes "USERNAME;COMPUTERNAME;PROCESSOR_ARCHITECTURE"
  names_of (some []) = codes "USERNAME;COMPUTERNAME;PROCESSOR_ARCHITECTURE"
  names_of (some (u ∷ units)) = take 1023 (narrow_spec (u ∷ units))

  -- The loop over the names, the requests from `k` on; the result of CfgAdd is dropped.
  unfoldable pub import_variables : ℕ → List Entry → List Bytes → List Entry
  import_variables k p [] = p
  import_variables k p (name ∷ names) =
      let (n, val) = variable name in
      if ltb 0 n && ltb n 2048
      then import_variables (k + 3) (add (λ i. grants (k + i)) p name cfg_str (take n val)).0 names
      else import_variables k p names

  -- ProviderLoad of provider_env.c
  unfoldable pub load_environment : Option Bytes → Outcome (List Entry)
  load_environment spec = elim (new_profile (grants 0)) [
    | none ↦ refused nomem
    | some p ↦ parsed (import_variables 1 p (tokens (names_of spec)))
  ]

-- An open file: its size, if ftell knows it, and what fread returns.
pub record File : Type 0 where
  pub size : Option ℕ
  pub content : Bytes

module _ (grants : ℕ → Bool) (junk : ℕ → ℕ → ℕ) (atoi64 : Bytes → ℕ) where
  -- CfgOpenFile: the buffer is the first request, CfgParseBlob makes those behind it
  unfoldable pub open_file : Option File → Result (Outcome (List Entry))
  open_file none = ok (refused io)
  open_file (some f) = elim f.size [
    | none ↦ ok (refused io)
    | some size ↦
        if grants 0
        then parse_blob (λ i. grants (suc i)) junk atoi64 (take size f.content)
        else ok (refused nomem)
  ]

  -- ProviderLoad of provider_file.c, with what _wfopen makes of a path
  unfoldable pub load_file : (Bytes → Option File) → Option Bytes → Result (Outcome (List Entry))
  load_file wfopen none = ok (refused io)
  load_file wfopen (some path) = open_file (wfopen path)

-- A name that can be listed.
abbrev HasNone : Bytes → Type 0
HasNone [] = Unit {0}
HasNone (c ∷ name) = (c ≢ semicolon) × HasNone name

abbrev AllNames : List Bytes → Type 0
AllNames [] = Unit {0}
AllNames ([] ∷ names) = ⊥
AllNames ((c ∷ name) ∷ names) = HasNone (c ∷ name) × AllNames names

-- A list of names, a separator behind each.
abbrev listed : List Bytes → Bytes
listed [] = []
listed (name ∷ names) = name ++ (semicolon ∷ listed names)

parts-name :
    (name : Bytes) (rest : Bytes)
    → HasNone name
    → parts (name ++ (semicolon ∷ rest)) ≡ name ∷ parts rest
unfolding parts
parts-name [] rest h = refl
parts-name (c ∷ name) rest (ne, h) = rw (ne→== c semicolon ne, parts-name name rest h)

-- strtok_s returns the names of a list that are not empty and have no separator, in order.
tokens-listed : (names : List Bytes) → AllNames names → tokens (listed names) ≡ names
unfolding tokens parts without_empty
tokens-listed [] h = refl
tokens-listed ([] ∷ names) h = absurd h
tokens-listed ((c ∷ name) ∷ names) h =
    rw (parts-name (c ∷ name) (listed names) h.0)
      (ap (λ ts. (c ∷ name) ∷ ts) (tokens-listed names h.1))
