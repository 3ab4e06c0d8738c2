-- ===== src/Config/Lookups.antt =====
-- stack-overflow/capstone/src/cfgcore/cfgcore.c: what find_entry finds in a profile.
use bug_museum.Base.{
  true, ◌≡◌, ◌≢◌, refl, ap, sym, ◌∙◌, Option, none, some, List, [], ◌∷◌, ◌++◌, Bool-cases, inl, inr,
}
use bug_museum.Memory.Bytes.{Bytes, same, same_refl, eq_of_same}
use bug_museum.Config.Types.{Entry}
use bug_museum.Config.Query.{text_of, find_entry}

-- No entry has the name `key`.
abbrev pub NoneNamed : Bytes → List Entry → Type 0
NoneNamed key [] = Unit {0}
NoneNamed key (e ∷ p) = (text_of e.name ≢ key) × NoneNamed key p

-- The first entry with the name `key`, or none if no entry has it.
abbrev pub IsFirstNamed : Bytes → List Entry → Option Entry → Type 0
IsFirstNamed key p none = NoneNamed key p
IsFirstNamed key p (some e) =
    (front : List Entry) × (rest : List Entry) × (p ≡ front ++ e ∷ rest)
    × (text_of e.name ≡ key)
    × NoneNamed key front

-- One more entry of another name in front.
IsFirstNamed-cons :
    (key : Bytes) (e : Entry) (p : List Entry) (r : Option Entry)
    → text_of e.name ≢ key
    → IsFirstNamed key p r
    → IsFirstNamed key (e ∷ p) r
IsFirstNamed-cons key e p none ne f = (ne, f)
IsFirstNamed-cons key e p (some e') ne (front, rest, split, named, before) =
    (e ∷ front, rest, ap (λ q. e ∷ q) split, named, (ne, before))

pub find_entry-IsFirstNamed : (p : List Entry) (key : Bytes) → IsFirstNamed key p (find_entry p key)
unfolding find_entry
find_entry-IsFirstNamed [] key = tt
find_entry-IsFirstNamed (e ∷ p) key = elim (Bool-cases (same (text_of e.name) key)) [
  | inl here ↦ rw here ([], p, refl, eq_of_same (text_of e.name) key here, tt)
  | inr other ↦
      let ne : text_of e.name ≢ key = λ same_name.
        let found : same (text_of e.name) key ≡ true =
          ap (same (text_of e.name)) (sym same_name) ∙ same_refl (text_of e.name) in
        cc (found, other) in
      rw other (IsFirstNamed-cons key e p (find_entry p key) ne (find_entry-IsFirstNamed p key))
]
