-- ===== src/Memory/Fault.antt =====
-- Results of C code that may run into undefined behaviour. A fault ends the run: what the machine
-- does afterwards is not defined by the language.
use mathlib.Core.Path.{subst}
use bug_museum.Base.{Bool, true, false, if◌then◌else◌, ◌≢◌, ◌≡◌, refl, ◌⊎◌, inl, inr}

-- `no_end` is the end of a bounded loop that the code would not have left.
pub data Fault : Type 0 where
  null_deref use_after_free double_free wild_pointer overflow over_read no_end : Fault

pub data Result {ℓ} (A : Type ℓ) : Type ℓ where
  ok : A → Result A
  fault : Fault → Result A

infixl 5 ◌>>=◌
abbrev pub ◌>>=◌ {ℓ κ} : {A : Type ℓ} {B : Type κ} → Result A → (A → Result B) → Result B
ok a >>= f = f a
fault e >>= f = fault e

-- A run that ends, and a postcondition of its result.
abbrev pub Returns {ℓ κ} : {A : Type ℓ} → (A → Type κ) → Result A → Type (ℓ ⊔ κ)
Returns {A} P r = (a : A) × (r ≡ ok a) × P a

-- The postcondition holds of the result.
pub Returns-result {ℓ κ} :
    {A : Type ℓ} {P : A → Type κ} {r : Result A} {a : A} → Returns P r → r ≡ ok a → P a
Returns-result {P = P} {a = a} (b, e, p) e' = let same : b ≡ a = cc (e, e') in subst P same p

pub Result-cases {ℓ} :
    {A : Type ℓ} (r : Result A) → ((a : A) × (r ≡ ok a)) ⊎ ((e : Fault) × (r ≡ fault e))
Result-cases (ok a) = inl (a, refl)
Result-cases (fault e) = inr (e, refl)

-- Two continuations that agree give the same run.
pub bind_cong {ℓ κ} :
    {A : Type ℓ} {B : Type κ} (r : Result A) {f g : A → Result B}
    → ((a : A) → f a ≡ g a)
    → (r >>= f) ≡ (r >>= g)
bind_cong (ok a) h = h a
bind_cong (fault e) h = refl

-- A run that is not cut off at the bound of a loop: it has a result, or a fault of the code.
pub record Ends {ℓ} {A : Type ℓ} (r : Result A) : Type ℓ where
  pub in_time : r ≢ fault no_end

pub ok-Ends {ℓ} : {A : Type ℓ} (a : A) → Ends (ok a)
ok-Ends a = record { in_time = λ e. cc }

-- Rules for the shapes that a run can have.
pub bind-Ends {ℓ κ} :
    {A : Type ℓ} {B : Type κ} {r : Result A} {f : A → Result B}
    → Ends r
    → ((a : A) → Ends (f a))
    → Ends (r >>= f)
bind-Ends {r = ok a} ends next = next a
bind-Ends {r = fault e} ends next = record { in_time = λ same. ends.in_time (cc (same)) }

pub if-Ends {ℓ} :
    {A : Type ℓ} (b : Bool) {r r' : Result A} → Ends r → Ends r' → Ends (if b then r else r')
if-Ends true ends ends' = ends
if-Ends false ends ends' = ends'

pub ruleset ends_rules = (ok-Ends, bind-Ends, if-Ends)
