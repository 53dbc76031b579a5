-- ===== src/Field.antt =====
-- Big-endian encodings (encoding/binary) and field elements as numbers below the modulus
-- (`fr.Element`), with the canonical encoding of types/keys.go.
pub mod Encoding
pub mod Canonical
use cosmos_nixpool.Prelude.{
  ℕ, zero, suc, ◌+◌, ◌-◌, ◌*◌, ◌/◌, ◌%◌, ◌^◌, List, [], ◌∷◌, Bool, Bytes, length, take, ◌==◌, ℤ,
  pos, negsuc, ltb, not,
}
use cosmos_nixpool.External.{External}

-- `new(big.Int).SetBytes(b)`
unfoldable pub be_value : Bytes → ℕ
be_value [] = 0
be_value (b ∷ bs) = b * 256 ^ length bs + be_value bs

-- The `w` low bytes of a number, the most significant first.
unfoldable pub be_bytes : ℕ → ℕ → Bytes
be_bytes zero n = []
be_bytes (suc w) n = ((n / 256 ^ w) % 256) ∷ be_bytes w n

-- `binary.BigEndian.PutUint64` into 8 fresh bytes, and `PutUint32` into 4
unfoldable pub put_uint64 : ℕ → Bytes
unfolding be_bytes
put_uint64 n = be_bytes 8 n

unfoldable pub put_uint32 : ℕ → Bytes
unfolding be_bytes
put_uint32 n = be_bytes 4 n

-- `binary.BigEndian.Uint64`
unfoldable pub uint64_of : Bytes → ℕ
unfolding be_value
uint64_of bs = be_value (take 8 bs)

module _ (ext : External) where
  -- `e.SetBytes(b)`, which reduces
  unfoldable pub set_bytes : Bytes → ℕ
  unfolding be_value
  set_bytes b = be_value b % ext.modulus

  -- `e.SetBigInt(v)`
  unfoldable pub set_big_int : ℤ → ℕ
  set_big_int (pos n) = n % ext.modulus
  set_big_int (negsuc n) = (ext.modulus - suc n % ext.modulus) % ext.modulus

-- `e.Bytes()`
unfoldable pub to_bytes : ℕ → Bytes
unfolding be_bytes
to_bytes e = be_bytes 32 e

module _ (ext : External) where
  -- CanonicalFieldBytes
  unfoldable pub canonical_field_bytes : Bytes → Bytes
  unfolding to_bytes set_bytes
  canonical_field_bytes b = to_bytes (set_bytes ext b)

  -- the test of `validateFieldBytes` and `ParsePublicInputs`: below the modulus
  unfoldable pub is_canonical : Bytes → Bool
  unfolding be_value
  is_canonical b = ltb (be_value b) ext.modulus
