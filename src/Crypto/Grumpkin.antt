-- ===== src/Crypto/Grumpkin.antt =====
-- crypto/grumpkin.go: public keys as the 64 bytes of both coordinates, private keys as a compressed
-- point and a scalar. `GenerateKey`, which reads randomness, is not modelled.
use cosmos_nixpool.Prelude.{
  ℕ, ◌==◌, not, Bool, Option, some, none, Bytes, ◌++◌, length, take, drop, pos, bytes_equal,
  if◌then◌else◌, [],
}
use cosmos_nixpool.External.{External}
use cosmos_nixpool.Field.{set_bytes, to_bytes, be_value}
use cosmos_nixpool.Types.Errors.{
  Result, ok, err, ◌>>◌, fail_if, bad_key_size, off_curve, zero_scalar, bad_private_key,
}
use cosmos_nixpool.Crypto.Curve.{Curve, Point}

-- GrumpkinPubKey
pub record GrumpkinPubKey : Type 0 where
  pub key : Bytes

-- GrumpkinPrivKey
pub record GrumpkinPrivKey : Type 0 where
  pub key : Bytes

abbrev pub pub_key_size : ℕ
pub_key_size = 64

-- RawXYFromPoint
unfoldable pub raw_xy_from_point : Point → Bytes
raw_xy_from_point p = to_bytes p.x ++ to_bytes p.y

-- Equals, of both kinds of key
unfoldable pub equals : Bytes → Bytes → Bool
equals a b = bytes_equal a b

-- ScalarBytes
unfoldable pub scalar_bytes : GrumpkinPrivKey → Bytes
scalar_bytes sk = drop 32 sk.key

module _ (ext : External) where
  -- Commitment, of a key with at least 32 bytes
  unfoldable pub commitment_of : GrumpkinPubKey → ℕ
  commitment_of pk = ext.hash2 (set_bytes ext (take 32 pk.key)) (set_bytes ext (drop 32 pk.key))

  -- Address; the empty slice is nil
  unfoldable pub address_of : GrumpkinPubKey → Bytes
  address_of pk =
      if not (length pk.key == pub_key_size) then [] else drop 12 (to_bytes (commitment_of pk))

  module _ (curve : Curve) where
    -- PointFromRawXY
    unfoldable pub point_from_raw_xy : Bytes → Result Point
    point_from_raw_xy key = do
      let p : Point = record { x = set_bytes ext (take 32 key); y = set_bytes ext (drop 32 key) }
      fail_if (not (curve.is_on_curve p)) off_curve
      ok p

    -- NewGrumpkinPubKey
    unfoldable pub new_grumpkin_pub_key : Bytes → Result GrumpkinPubKey
    new_grumpkin_pub_key key = do
      fail_if (not (length key == pub_key_size)) bad_key_size
      point_from_raw_xy key
      ok (record { key = key })

    -- PrivKeyFromScalar
    unfoldable pub priv_key_from_scalar : ℕ → Bytes
    priv_key_from_scalar scalar =
        curve.compress (curve.multiply (pos (be_value (to_bytes scalar))) curve.generator)
        ++ to_bytes scalar

    -- PrivKeyFromScalarBytes
    unfoldable pub priv_key_from_scalar_bytes : Bytes → Result GrumpkinPrivKey
    priv_key_from_scalar_bytes bytes = do
      fail_if (not (length bytes == 32)) bad_key_size
      fail_if (set_bytes ext bytes == 0) zero_scalar
      ok (record { key = priv_key_from_scalar (set_bytes ext bytes) })

    abbrev public_of : Option Point → Result GrumpkinPubKey
    public_of none = err bad_private_key
    public_of (some p) = ok (record { key = raw_xy_from_point p })

    -- GrumpkinPrivKey.PubKey
    unfoldable pub pub_key : GrumpkinPrivKey → Result GrumpkinPubKey
    pub_key sk = public_of (curve.private_point sk.key)
