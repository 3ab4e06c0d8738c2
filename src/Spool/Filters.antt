-- ===== src/Spool/Filters.antt =====
-- double-free/capstone/src/filters: the three filters. A document of `len` bytes is the list of them; a
-- preview is what is written to `out`, the number returned, and whether the document was freed.
use Prim.Native.Nat.{min}
use bug_museum.Base.{
  ℕ, zero, suc, ◌+◌, ◌-◌, ◌/◌, ◌%◌, ◌^◌, ◌≤◌, Bool, true, false, [], ◌∷◌, ◌++◌, arith, ltb,
  if◌then◌else◌, length, take, length-take, length-append,
}
use bug_museum.Memory.Bytes.{Bytes}
use bug_museum.Text.{codes, decimal, snprintf_count}

pub data Filter : Type 0 where
  pdfish raster text : Filter

pub record Preview : Type 0 where
  pub written : Bytes
  pub returned : ℕ
  pub freed : Bool

abbrev hex_digit : ℕ → ℕ
hex_digit d = if ltb d 10 then d + b'0' else d - 10 + b'a'

head_of : Bytes → ℕ
head_of [] = 0
head_of (b ∷ bs) = b

-- What `_snprintf(out, out_cap, ...)` leaves and the filter returns.
printed : Bytes → ℕ → Preview
printed line out_cap = record {
  written = take out_cap line;
  returned = snprintf_count out_cap line;
  freed = false;
}

-- filter_pdfish.c
run_pdfish : Bytes → ℕ → Preview
unfolding head_of printed
run_pdfish document out_cap =
    let head = head_of document in
    printed
      (codes "%PDF-1.4 preview: "
        ++ (decimal (length document)
            ++ (codes " bytes, head=0x" ++ (hex_digit (head / 16) ∷ hex_digit (head % 16) ∷ []))))
      out_cap

-- The loop of filter_raster.c; an `unsigned long` has 32 bits on the platform.
sum_ink : ℕ → Bytes → ℕ
sum_ink ink [] = ink
sum_ink ink (b ∷ bs) = sum_ink ((ink + b) % 2 ^ 32) bs

-- filter_raster.c
run_raster : Bytes → ℕ → Preview
unfolding sum_ink printed
run_raster document out_cap =
    printed
      (codes "raster: "
        ++ (decimal (length document) ++ (codes " cells, ink=" ++ decimal (sum_ink 0 document))))
      out_cap

-- filter_text.c
run_text : Bytes → ℕ → Preview
run_text document zero = record { written = []; returned = 0; freed = true }
run_text document (suc room) =
    let n = min (length document) room in
    record { written = take n document ++ 0 ∷ []; returned = n; freed = true }

unfoldable pub run_filter : Filter → Bytes → ℕ → Preview
unfolding run_pdfish run_raster run_text
run_filter pdfish document out_cap = run_pdfish document out_cap
run_filter raster document out_cap = run_raster document out_cap
run_filter text document out_cap = run_text document out_cap

printed_bounds :
    (line : Bytes) (out_cap : ℕ)
    → (length (printed line out_cap).written ≤ out_cap)
      × ((printed line out_cap).returned ≤ length (printed line out_cap).written)
unfolding printed snprintf_count
printed_bounds line out_cap = ground (arith, length-take out_cap line)

-- Every filter stays within the output buffer, and returns no more than it has written there.
pub run_filter_bounds :
    (f : Filter) (document : Bytes) (out_cap : ℕ)
    → (length (run_filter f document out_cap).written ≤ out_cap)
      × ((run_filter f document out_cap).returned ≤ length (run_filter f document out_cap).written)
unfolding run_filter
run_filter_bounds pdfish document out_cap = printed_bounds _ out_cap
run_filter_bounds raster document out_cap = printed_bounds _ out_cap
run_filter_bounds text document zero = (omega arith, omega arith)
run_filter_bounds text document (suc room) =
    let n = min (length document) room in
    let size = length-append (take n document) (0 ∷ []) in
    (omega (arith, size, length-take n document), omega (arith, size, length-take n document))
