-- ===== src/Exhibit/Tests.antt =====
-- Runs of the exhibits on small inputs, and their theorems at them.
use bug_museum.Base.{ℕ, ◌+◌, ◌<◌, ◌≤◌, ◌≡◌, ◌≢◌, refl, true, [], ◌∷◌, ◌++◌, length, take, drop}
use bug_museum.Exhibit.StackOverflow
use bug_museum.Exhibit.DoubleFree
use bug_museum.Exhibit.StackOverflow.{
  local_buffer, strcpy_vuln-exact, memcpy_vuln-exact, strncpy_vuln-exact, wcsncpy_vuln-overflow,
  loop_vuln-overflow,
}
use bug_museum.Exhibit.UseAfterFree.{reject_vuln-exact, reject_vuln}
use bug_museum.Exhibit.DoubleFree.{
  double_free-always, alias_vuln-twice, cleanup_vuln-exact, baseline_vuln, guarded_vuln,
  transfer_vuln, shared_vuln,
}
use bug_museum.Memory.Fault.{fault, overflow, use_after_free, double_free, Returns}
use bug_museum.Memory.Bytes.{Bytes}
use bug_museum.Memory.Heap.{Heap, unmapped, null}

abbrev fresh_heap : Heap Bytes
fresh_heap = record {
  cell = λ _. unmapped;
  requests = 0;
  grants = λ _. true;
  moves = λ _. true;
  junk = λ _ _. 7;
}

abbrev junk : ℕ → ℕ
junk _ = 9

abbrev word : Bytes
word = 1 ∷ 2 ∷ 3 ∷ []

strcpy_vuln-exact_example :
    (length word < 16
      → Returns
          (λ b. take (length word + 1) b ≡ word ++ 0 ∷ [])
          (StackOverflow.strcpy_vuln junk word)
        × Returns
            (λ b. take (length word + 1) b ≡ word ++ 0 ∷ [])
            (StackOverflow.sprintf_vuln junk word))
    × (16 ≤ length word
        → (StackOverflow.strcpy_vuln junk word ≡ fault overflow)
          × (StackOverflow.sprintf_vuln junk word ≡ fault overflow))
strcpy_vuln-exact_example = strcpy_vuln-exact junk word

strncpy_vuln-exact_example :
    (length word ≤ 16
      → Returns
          (λ b. b ≡ word ++ drop (length word) (local_buffer junk))
          (StackOverflow.strncpy_vuln junk word))
    × (16 < length word → StackOverflow.strncpy_vuln junk word ≡ fault overflow)
strncpy_vuln-exact_example = strncpy_vuln-exact junk word

reject_vuln-exact_example :
    (reject_vuln fresh_heap [] ≡ fault use_after_free)
    × ((c : ℕ) (rest : Bytes)
        → c ≢ 0
        → Returns (λ n. (1 ≤ n) × (n ≤ 31)) (reject_vuln fresh_heap (c ∷ rest)))
reject_vuln-exact_example = reject_vuln-exact fresh_heap refl

alias_vuln-twice_example :
    Returns
      (λ (h', g_last, r). (g_last ≡ 1) × (DoubleFree.alias_vuln h' g_last word ≡ fault double_free))
      (DoubleFree.alias_vuln fresh_heap null word)
alias_vuln-twice_example = alias_vuln-twice fresh_heap word word refl refl
