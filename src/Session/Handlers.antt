-- ===== src/Session/Handlers.antt =====
-- use-after-free/capstone/src/handlers: the two session handlers. A handler fills `out` and returns
-- the number of bytes to send.
use Prim.Native.Nat.{min}
use bug_museum.Base.{ℕ, ◌+◌, ◌%◌, ◌^◌, ◌≤◌, ◌≡◌, [], ◌∷◌, ◌++◌, arith, length, take, length-take}
use bug_museum.Memory.Bytes.{Bytes}
use bug_museum.Text.{codes, decimal, snprintf_count}
use bug_museum.Session.Types.{Handler, echo, calc}

pub record Output : Type 0 where
  pub written : Bytes
  pub returned : ℕ

-- handler_echo.c
run_echo : Bytes → ℕ → Output
run_echo input out_cap =
    let n = min (length input) out_cap in record { written = take n input; returned = n }

-- The loop of handler_calc.c; an `unsigned long` has 32 bits on the platform.
sum_bytes : ℕ → Bytes → ℕ
sum_bytes sum [] = sum
sum_bytes sum (b ∷ bs) = sum_bytes ((sum + b) % 2 ^ 32) bs

-- handler_calc.c
run_calc : Bytes → ℕ → Output
unfolding sum_bytes decimal snprintf_count
run_calc input out_cap =
    let text = codes "sum=" ++ decimal (sum_bytes 0 input) in
    record { written = take out_cap text; returned = snprintf_count out_cap text }

unfoldable pub run_handler : Handler → Bytes → ℕ → Output
unfolding run_echo run_calc
run_handler echo input out_cap = run_echo input out_cap
run_handler calc input out_cap = run_calc input out_cap

total : Bytes → ℕ
total [] = 0
total (b ∷ bs) = b + total bs

sum_bytes-total : (sum : ℕ) (bs : Bytes) → sum_bytes sum bs % 2 ^ 32 ≡ (sum + total bs) % 2 ^ 32
unfolding sum_bytes total
sum_bytes-total sum [] = omega arith
sum_bytes-total sum (b ∷ bs) = omega (arith, sum_bytes-total ((sum + b) % 2 ^ 32) bs)

-- Both handlers stay within the output buffer, and send no byte that they did not write there.
pub run_handler_bounds :
    (f : Handler) (input : Bytes) (out_cap : ℕ)
    → (length (run_handler f input out_cap).written ≤ out_cap)
      × ((run_handler f input out_cap).returned ≤ length (run_handler f input out_cap).written)
unfolding run_handler snprintf_count
run_handler_bounds echo input out_cap =
    ground (arith, length-take (min (length input) out_cap) input)
run_handler_bounds calc input out_cap =
    let text = codes "sum=" ++ decimal (sum_bytes 0 input) in
    ground (arith, length-take out_cap text)
