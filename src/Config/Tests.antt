-- ===== src/Config/Tests.antt =====
-- Runs of the configuration engine on small inputs, and its theorems at them.
use bug_museum.Base.{
  false, ℕ, zero, suc, ◌≤◌, ◌<◌, ◌≡◌, refl, Bool, true, none, some, List, [], ◌∷◌, ◌++◌, arith,
  length, map, tabulate_from,
}
use bug_museum.Memory.Fault.{ok, fault, overflow, over_read, Returns}
use bug_museum.Memory.Bytes.{blit, same, c_string, store, strncpy, Bytes}
use bug_museum.Text.{codes, decimal}
use bug_museum.Config.Registry.{strip_root, behind_prefix}
use bug_museum.Config.Types.{Entry, parsed}
use bug_museum.Config.Parse.{decode_field, parse_blob}
use bug_museum.Config.Encode.{Item, encode, entry_of, parse_blob-encode}
use bug_museum.Config.Query.{
  text_of, normalize_key, find_entry, lookup, format_label, expand_template,
}
use bug_museum.Config.Service.{handle_push}
use bug_museum.Config.Push.{first_blob, handle_push-overflow, handle_push-plain}
use bug_museum.Config.Strings.{Lacks}
use bug_museum.Config.Lookups.{IsFirstNamed}
use bug_museum.Config.Bounds.{
  decode_field-faults, lookup-by_length, format_label-exact, expand_template-literal,
}

abbrev grants : ℕ → Bool
grants _ = true

abbrev junk : ℕ → ℕ
junk _ = 7

abbrev item : Item
item = record { name = b'h' ∷ b'i' ∷ []; kind = 0; value = 5 ∷ 6 ∷ [] }

abbrev digits : Bytes
digits = tabulate_from 0 17 (λ _. b'4')

abbrev long_key : Bytes
long_key = tabulate_from 0 31 (λ _. b'k')

parse_blob-encode_example :
    parse_blob grants (λ _. junk) length (encode 0 (item ∷ []) [])
    ≡ ok (parsed (map entry_of (item ∷ [])))
parse_blob-encode_example =
    parse_blob-encode grants (λ _. junk) length (λ _. refl) 0 (item ∷ []) [] (omega arith)
      (omega arith, omega arith, (λ e. omega (arith, e)), tt)

decode_field-faults_example :
    (16 ≤ 16 → 17 ≤ length digits → decode_field junk length digits 16 ≡ fault overflow)
    × (16 ≤ 15 → length digits ≡ 16 → decode_field junk length digits 16 ≡ fault over_read)
decode_field-faults_example = decode_field-faults junk length digits 16

repeated-Lacks : (i n : ℕ) → Lacks 0 (tabulate_from i n (λ _. b'k'))
repeated-Lacks i zero = tt
repeated-Lacks i (suc n) = (omega arith, repeated-Lacks (suc i) n)

-- A profile in which the second entry has the long name, and the third has it again.
abbrev long_item : ℕ → Item
long_item v = record { name = long_key; kind = 0; value = v ∷ [] }

abbrev profile : List Entry
profile = entry_of item ∷ entry_of (long_item 1) ∷ entry_of (long_item 2) ∷ []

lookup-by_length_example :
    (length long_key ≡ 31 → Returns (IsFirstNamed long_key profile) (lookup junk profile long_key))
    × (32 < length long_key → length long_key < 64 → lookup junk profile long_key ≡ fault overflow)
lookup-by_length_example = lookup-by_length junk profile long_key (repeated-Lacks 0 31)

long_key_test : lookup junk profile long_key ≡ ok (some (entry_of (long_item 1)))
unfolding lookup normalize_key strncpy store blit c_string find_entry text_of same
long_key_test = refl

-- A key that is shorter than 31 characters is followed by what the buffer held: it is not found.
short_key_test : lookup junk (entry_of item ∷ []) (codes "hi") ≡ ok none
unfolding lookup normalize_key strncpy store c_string find_entry text_of same
short_key_test = refl

format_label-exact_example :
    (2 < 32
      → format_label junk (entry_of item)
        ≡ ok (
            codes "["
            ++ ((b'h' ∷ b'i' ∷ [])
                ++ (codes "] type=" ++ (decimal 0 ++ (codes " len=" ++ decimal 2))))))
    × (32 ≤ 2 → format_label junk (entry_of item) ≡ fault overflow)
format_label-exact_example =
    format_label-exact junk (entry_of item) (omega arith, (omega arith, tt))

-- The template "${a$": it opens a reference and does not close it.
abbrev open_ended : Entry
open_ended = entry_of (record { name = b't' ∷ []; kind = 0; value = codes "${a$" })

expand_template-literal_example :
    (4 < 128
      → Returns
          (λ (reply, error).
            (length reply ≡ 256) × (c_string reply ≡ ok (codes "${a$")) × (error ≡ none))
          (expand_template junk [] (some open_ended) (tabulate_from 0 256 junk)))
    × (128 ≤ 4
        → 4 ≤ 511
        → expand_template junk [] (some open_ended) (tabulate_from 0 256 junk) ≡ fault overflow)
expand_template-literal_example =
    expand_template-literal junk [] open_ended (codes "${a$") (tabulate_from 0 256 junk) refl
      (omega arith) (omega arith) refl

abbrev scan : Item
scan = record { name = b's' ∷ []; kind = 2; value = tabulate_from 0 65 (λ i. i) }

handle_push-overflow_example :
    handle_push (λ _. junk) grants length true 0 [] (encode 0 (item ∷ scan ∷ []) [])
    ≡ fault overflow
unfolding first_blob
handle_push-overflow_example =
    handle_push-overflow (λ _. junk) grants length 0 [] 0 (item ∷ scan ∷ []) [] scan (omega arith)
      (omega arith, omega arith, (omega arith, omega arith, tt)) refl (omega arith)

handle_push-plain_example :
    handle_push (λ _. junk) grants length false 0 [] (encode 0 (item ∷ []) [])
    ≡ ok ([] ++ map entry_of (item ∷ []), codes "OK\n")
handle_push-plain_example =
    handle_push-plain (λ _. junk) grants length 0 [] 0 (item ∷ []) [] (λ _. refl) (omega arith)
      (omega arith, omega arith, (λ e. omega (arith, e)), tt) ((λ e. omega (arith, e)), tt)

strip_root_test : strip_root (codes "HKCU\\ab") ≡ codes "ab"
unfolding strip_root behind_prefix
strip_root_test = refl
