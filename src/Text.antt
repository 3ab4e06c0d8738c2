-- ===== src/Text.antt =====
-- Printing, as the format strings of the code use `_snprintf`: decimal numbers, and the text that a
-- call leaves in its buffer.
use bug_museum.Base.{
  ℕ, zero, suc, ◌+◌, ◌/◌, ◌%◌, ◌≤◌, ◌≡◌, refl, [], ◌∷◌, arith, leb, ltb, if◌then◌else◌, length,
}
use Prim.Native.Char.{code}
use Prim.Native.String.{String}
use bug_museum.Memory.Bytes.{Bytes}

abbrev pub codes : String → Bytes
codes String.[] = []
codes (String.◌∷◌ c s) = code c ∷ codes s

decimal_onto : ℕ → ℕ → Bytes → Bytes
decimal_onto zero n acc = acc
decimal_onto (suc fuel) n acc =
    let next = (n % 10 + b'0') ∷ acc in
    let rest = decimal_onto fuel (n / 10) next in if ltb n 10 then next else rest

-- `%d` and `%u` of a number that is not negative
unfoldable pub decimal : ℕ → Bytes
unfolding decimal_onto
decimal n = decimal_onto (suc n) n []

-- What a call of `_snprintf` with this text returns to the code, which puts 0 for a negative result:
-- the length of a text that fits, and 0 for one that is cut.
unfoldable pub snprintf_count : ℕ → Bytes → ℕ
snprintf_count cap text = if leb (length text) cap then length text else 0

pub snprintf_count-le : (cap : ℕ) (text : Bytes) → snprintf_count cap text ≤ cap
unfolding snprintf_count
snprintf_count-le cap text = ground arith

decimal_test : decimal 4070 ≡ b'4' ∷ b'0' ∷ b'7' ∷ b'0' ∷ []
unfolding decimal
decimal_test = refl
