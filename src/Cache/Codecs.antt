-- ===== src/Cache/Codecs.antt =====
-- heap-overflow/capstone/src/codecs: the two codecs. A codec's result is what it writes to `out`; it
-- returns the length of that.
use Prim.Native.Nat.{min}
use bug_museum.Base.{
  Option-cases, inl, inr, ℕ, zero, suc, ◌+◌, ◌-◌, ◌*◌, ◌/◌, ◌%◌, ◌≤◌, ◌<◌, ◌≡◌, refl, ap, ◌∙◌, Bool,
  ◌&&◌, Option, none, some, [], ◌∷◌, arith, ltb, leb, if◌then◌else◌, length, take, length-take,
}
use bug_museum.Memory.Bytes.{Bytes}

between : ℕ → ℕ → ℕ → Bool
between low high c = leb low c && leb c high

-- hexval, with `none` for -1
unfoldable pub hexval : ℕ → Option ℕ
unfolding between
hexval c =
    if between b'0' b'9' c
    then some (c - b'0')
    else if between b'a' b'f' c
    then some (c - b'a' + 10)
    else if between b'A' b'F' c
    then some (c - b'A' + 10)
    else none

-- `(hi << 4) | lo` in a byte, where both are a hexadecimal digit or -1
unfoldable pub join : Option ℕ → Option ℕ → Option ℕ
join none lo = none
join (some hi) none = none
join (some hi) (some lo) = some (hi * 16 + lo)

-- `out[o++] = byte` and what follows, or the break.
abbrev put_byte : Option ℕ → Bytes → Bytes
put_byte none others = []
put_byte (some byte) others = byte ∷ others

-- The loop of CodecApply in codec_hex.c: `room` is what `out` still takes.
unfoldable pub decode_hex : ℕ → Bytes → Bytes
decode_hex zero input = []
decode_hex (suc room) [] = []
decode_hex (suc room) (a ∷ []) = []
decode_hex (suc room) (a ∷ b ∷ rest) =
    let others = decode_hex room rest in put_byte (join (hexval a) (hexval b)) others

-- CodecApply in codec_raw.c
unfoldable pub copy_raw : ℕ → Bytes → Bytes
copy_raw out_cap input = take (min (length input) out_cap) input

abbrev pub digit : ℕ → ℕ
digit d = if ltb d 10 then d + b'0' else d - 10 + b'a'

-- Bytes in lower-case hexadecimal.
unfoldable pub hex_of : Bytes → Bytes
hex_of [] = []
hex_of (b ∷ bs) = digit (b / 16) ∷ digit (b % 16) ∷ hex_of bs

abbrev pub AllBytes : Bytes → Type 0
AllBytes [] = Unit {0}
AllBytes (b ∷ bs) = (b < 256) × AllBytes bs

hexval-digit : (d : ℕ) → d < 16 → hexval (digit d) ≡ some d
unfolding hexval between
hexval-digit d small = ground arith

join-digits : (b : ℕ) → b < 256 → join (hexval (digit (b / 16))) (hexval (digit (b % 16))) ≡ some b
unfolding join
join-digits b small =
    rw (hexval-digit (b / 16) (omega arith), hexval-digit (b % 16) (omega arith))
      (ap some (omega arith))

decode_hex-some :
    (room a b : ℕ) (rest : Bytes) {byte : ℕ}
    → join (hexval a) (hexval b) ≡ some byte
    → decode_hex (suc room) (a ∷ b ∷ rest) ≡ byte ∷ decode_hex room rest
unfolding decode_hex
decode_hex-some room a b rest e = rw e

decode_hex-none :
    (room a b : ℕ) (rest : Bytes)
    → join (hexval a) (hexval b) ≡ none
    → decode_hex (suc room) (a ∷ b ∷ rest) ≡ []
unfolding decode_hex
decode_hex-none room a b rest e = rw e

-- The hex codec reads back every list of bytes from its lower-case hexadecimal, up to the room in the
-- output buffer.
pub decode_hex-hex_of :
    (room : ℕ) (bs : Bytes) → AllBytes bs → decode_hex room (hex_of bs) ≡ take room bs
unfolding decode_hex hex_of
decode_hex-hex_of zero bs all = refl
decode_hex-hex_of (suc room) [] all = refl
decode_hex-hex_of (suc room) (b ∷ bs) (small, all) =
    decode_hex-some room (digit (b / 16)) (digit (b % 16)) (hex_of bs) (join-digits b small)
    ∙ ap (λ t. b ∷ t) (decode_hex-hex_of room bs all)

decode_hex_bounds :
    (room : ℕ) (input : Bytes)
    → (length (decode_hex room input) ≤ room) × (2 * length (decode_hex room input) ≤ length input)
unfolding decode_hex
decode_hex_bounds zero input = (omega arith, omega arith)
decode_hex_bounds (suc room) [] = (omega arith, omega arith)
decode_hex_bounds (suc room) (a ∷ []) = (omega arith, omega arith)
decode_hex_bounds (suc room) (a ∷ b ∷ rest) = elim (Option-cases (join (hexval a) (hexval b))) [
  | inl e ↦ rw (decode_hex-none room a b rest e) (omega arith, omega arith)
  | inr (byte, e) ↦
      let (fits, half) = decode_hex_bounds room rest in
      rw (decode_hex-some room a b rest e) (omega arith, omega arith)
]

-- Neither codec writes more than the output buffer takes; the hex codec writes at most one byte for
-- two of the input, and the raw one what the input has or the buffer takes.
pub codec_bounds :
    (out_cap : ℕ) (input : Bytes)
    → (length (decode_hex out_cap input) ≤ out_cap)
      × (2 * length (decode_hex out_cap input) ≤ length input)
      × (length (copy_raw out_cap input) ≡ min (length input) out_cap)
unfolding copy_raw
codec_bounds out_cap input =
    let (fits, half) = decode_hex_bounds out_cap input in
    (fits, half, omega (arith, length-take (min (length input) out_cap) input))
