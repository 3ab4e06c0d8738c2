-- ===== src/Wire/Request.antt =====
-- The request format of use-after-free and double-free, capstone/src/common/protocol.h: eight header
-- bytes, `op u8 | flags u8 | id u16 | arg_len u32`, and the argument. Numbers are little-endian.
use bug_museum.Base.{
  ◌*◌, ℕ, ◌+◌, ◌/◌, ◌%◌, ◌≡◌, refl, List, [], ◌∷◌, ◌++◌, arith, length, take, drop, length-append,
}
use bug_museum.Memory.Bytes.{Bytes}

-- The packed header as the code reads it from its eight bytes.
pub record Header : Type 0 where
  pub op : ℕ
  pub flags : ℕ
  pub target : ℕ
  pub arg_len : ℕ

unfoldable pub header_of : Bytes → Header
header_of (op ∷ flags ∷ i ∷ j ∷ a ∷ b ∷ c ∷ d ∷ rest) = record {
  op = op;
  flags = flags;
  target = i + 256 * j;
  arg_len = a + 256 * (b + 256 * (c + 256 * d));
}
header_of _ = record { op = 0; flags = 0; target = 0; arg_len = 0 }

-- A request as its sender means it.
pub record Call : Type 0 where
  pub op : ℕ
  pub flags : ℕ
  pub target : ℕ
  pub arg : Bytes

-- A request in front of what is sent after it.
unfoldable pub encode_onto : Call → Bytes → Bytes
encode_onto c tail =
    let n = length c.arg in
    c.op
    ∷ c.flags
    ∷ c.target % 256
    ∷ c.target / 256
    ∷ n % 256
    ∷ n / 256 % 256
    ∷ n / 65536 % 256
    ∷ n / 16777216
    ∷ (c.arg ++ tail)

unfoldable pub encode : List Call → Bytes
encode [] = []
encode (c ∷ cs) = encode_onto c (encode cs)

abbrev pub header : Call → Header
header c = record { op = c.op; flags = c.flags; target = c.target; arg_len = length c.arg }

pub header_of-encode_onto :
    (c : Call) (tail : Bytes) → header_of (take 8 (encode_onto c tail)) ≡ header c
unfolding header_of encode_onto
header_of-encode_onto c tail =
    let n = length c.arg in
    let id : c.target % 256 + 256 * (c.target / 256) ≡ c.target = omega arith in
    let size : n % 256 + 256 * (n / 256 % 256 + 256 * (n / 65536 % 256 + 256 * (n / 16777216)))
        ≡ n =
      omega arith in
    rw (id, size) refl

pub drop-encode_onto : (c : Call) (tail : Bytes) → drop 8 (encode_onto c tail) ≡ c.arg ++ tail
unfolding encode_onto
drop-encode_onto c tail = refl

pub length-encode_onto :
    (c : Call) (tail : Bytes) → length (encode_onto c tail) ≡ 8 + (length c.arg + length tail)
unfolding encode_onto
length-encode_onto c tail = omega (arith, length-append c.arg tail)
