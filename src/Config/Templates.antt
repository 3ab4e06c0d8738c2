-- ===== src/Config/Templates.antt =====
-- stack-overflow/capstone/src/cfgcore/cfgcore.c: the loop of CfgExpandTemplate on a template without
-- references.
use mathlib.Core.List.{append-nil, append_assoc}
use bug_museum.Base.{
  ℕ, zero, suc, ◌+◌, ◌≤◌, ◌≡◌, refl, sym, ◌∙◌, none, List, [], ◌∷◌, ◌++◌, arith, ne→==, gt→leb,
  length, length-append, Bool-cases, inl, inr, ◌==◌,
}
use bug_museum.Memory.Bytes.{Bytes}
use bug_museum.Config.Types.{Entry}
use bug_museum.Config.Query.{closing, reference, resolve_template}
use bug_museum.Config.Strings.{Lacks}

-- What follows a '$' does not make a reference of it: it is no '{', or no '}' follows that.
abbrev pub NotOpened : Bytes → Type 0
NotOpened [] = Unit {0}
NotOpened (d ∷ s) = d ≡ b'{' → Lacks b'}' s

-- No `${` has a `}` behind it.
abbrev pub Unreferenced : Bytes → Type 0
Unreferenced [] = Unit {0}
Unreferenced (c ∷ s) = (c ≡ b'$' → NotOpened s) × Unreferenced s

closing-none : (s : Bytes) → Lacks b'}' s → closing s ≡ none
unfolding closing
closing-none [] open_ended = refl
closing-none (c ∷ s) (ne, open_ended) = rw (ne→== c b'}' ne, closing-none s open_ended) refl

reference-none : (c : ℕ) (s : Bytes) → (c ≡ b'$' → NotOpened s) → reference (c ∷ s) ≡ none
unfolding reference
reference-none c [] plain = refl
reference-none c (d ∷ s) plain = elim (Bool-cases (c == b'$')) [
  | inr other ↦ rw other refl
  | inl dollar ↦ elim (Bool-cases (d == b'{')) [
    | inr other ↦ rw (dollar, other) refl
    | inl brace ↦ rw (dollar, brace) (closing-none s (plain (ground arith) (ground arith)))
  ]
]

-- The text of a template without references is the template.
pub resolve_template-literal :
    (fuel : ℕ) (p : List Entry) (s resolved : Bytes)
    → Unreferenced s
    → length s ≤ fuel
    → length resolved + length s ≤ 511
    → resolve_template fuel p s resolved ≡ resolved ++ s
unfolding resolve_template
resolve_template-literal zero p [] resolved plain enough small = sym (append-nil resolved)
resolve_template-literal zero p (c ∷ s) resolved plain enough small = absurd (omega arith)
resolve_template-literal (suc fuel) p [] resolved plain enough small = sym (append-nil resolved)
resolve_template-literal (suc fuel) p (c ∷ s) resolved (here, plain) enough small =
    let n : length (resolved ++ c ∷ []) ≡ suc (length resolved) =
      omega (arith, length-append resolved (c ∷ [])) in
    rw (gt→leb 511 (length resolved) (omega arith), reference-none c s here)
      (resolve_template-literal fuel p s (resolved ++ c ∷ []) plain (omega arith) (omega arith)
        ∙ append_assoc resolved (c ∷ []) s)
