-- ===== src/Cache/Tests.antt =====
-- Runs of the codecs and of the cache on small inputs, and the theorems at them.
use bug_museum.Base.{
  true, false, ◌==◌, if◌then◌else◌, ◌*◌, ◌≤◌, ◌≡◌, refl, [], ◌∷◌, arith, length, take,
}
use Prim.Native.Nat.{min}
use bug_museum.Text.{codes}
use bug_museum.Memory.Fault.{fault, over_read}
use bug_museum.Cache.Types.{Cache}
use bug_museum.Cache.Store.{set, decode_id}
use bug_museum.Cache.Inserts.{Unusable, set-Unusable}
use bug_museum.Cache.Snapshots.{decode_id-faults}
use bug_museum.Cache.Codecs.{
  decode_hex, hex_of, copy_raw, hexval, join, decode_hex-hex_of, codec_bounds,
}

upper_test : decode_hex 9 (codes "4A6bx1") ≡ 0x4a ∷ 0x6b ∷ []
unfolding decode_hex hexval join
upper_test = refl

decode_hex-hex_of_example : decode_hex 3 (hex_of (200 ∷ 17 ∷ [])) ≡ take 3 (200 ∷ 17 ∷ [])
decode_hex-hex_of_example = decode_hex-hex_of 3 (200 ∷ 17 ∷ []) (omega arith, (omega arith, tt))

codec_bounds_example :
    (length (decode_hex 1 (codes "4A6b")) ≤ 1)
    × (2 * length (decode_hex 1 (codes "4A6b")) ≤ length (codes "4A6b"))
    × (length (copy_raw 1 (codes "4A6b")) ≡ min (length (codes "4A6b")) 1)
codec_bounds_example = codec_bounds 1 (codes "4A6b")

-- An empty cache; the second request, for the block of a key, is refused.
abbrev tight : Cache
tight = record {
  buckets = λ _. [];
  nbuckets = 4;
  count = 0;
  requests = 0;
  grants = λ k. if k == 1 then false else true;
  junk = λ _ _. 0;
}

set-Unusable_example : Unusable tight (codes "key") (set tight (codes "key") (7 ∷ []))
set-Unusable_example = set-Unusable tight (codes "key") (7 ∷ []) refl

decode_id_test : decode_id tight (1 ∷ []) 1 ≡ fault over_read
decode_id_test = decode_id-faults tight (1 ∷ []) refl
