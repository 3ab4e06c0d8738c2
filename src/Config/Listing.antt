-- ===== src/Config/Listing.antt =====
-- stack-overflow/capstone/src/cfgapply/cfgapply.c and regimport/regimport.c: the listing of a profile,
-- which the two tools have in common. `junk` gives the content of a local buffer by its number.
use bug_museum.Base.{ℕ, suc, List, [], ◌∷◌, ◌++◌, length}
use bug_museum.Memory.Fault.{Result, ok, ◌>>=◌}
use bug_museum.Memory.Bytes.{Bytes}
use bug_museum.Text.{codes, decimal}
use bug_museum.Config.Types.{Entry, Outcome, refused, parsed}
use bug_museum.Config.Query.{format_label}

-- The loop over the entries, from the buffer `k` on. A label is shorter than its 256 bytes.
unfoldable pub list_entries : (ℕ → ℕ → ℕ) → ℕ → List Entry → Result Bytes
list_entries junk k [] = ok []
list_entries junk k (e ∷ p) = do
  label ← format_label (junk k) e
  rest ← list_entries junk (suc k) p
  ok (codes "  " ++ (label ++ (codes "\n" ++ rest)))

-- wmain of cfgapply.c on what CfgOpenFile returns: the exit code and what is printed.
unfoldable pub cfgapply : (ℕ → ℕ → ℕ) → Outcome (List Entry) → Result (ℕ × Bytes)
cfgapply junk (refused status) = ok (1, [])
cfgapply junk (parsed p) = do
  text ← list_entries junk 0 p
  ok (0, codes "loaded " ++ (decimal (length p) ++ (codes " entrie(s)\n" ++ text)))

-- wmain of regimport.c on what the provider returns.
unfoldable pub regimport : (ℕ → ℕ → ℕ) → Outcome (List Entry) → Result (ℕ × Bytes)
regimport junk (refused status) = ok (1, [])
regimport junk (parsed p) = do
  text ← list_entries junk 0 p
  ok (0, codes "imported " ++ (decimal (length p) ++ (codes " value(s)\n" ++ text)))
