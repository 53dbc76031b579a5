-- ===== src/Crypto/Curve.antt =====
-- gnark's Grumpkin group, as a parameter. The curve's base field is the scalar field of BN254
-- (`fr.Element`), so coordinates are field elements of the model's External.
use cosmos_nixpool.Prelude.{ℕ, ◌<◌, ◌≡◌, Bool, true, Option, some, Bytes, ◌++◌, length, ℤ}
use cosmos_nixpool.External.{External}
use cosmos_nixpool.Field.{to_bytes}

-- `grumpkin.G1Affine`
pub record Point : Type 0 where
  pub x : ℕ
  pub y : ℕ

pub record Curve : Type 0 where
  -- the generator that `ScalarMultiplicationBase` multiplies
  pub generator : Point
  -- `ScalarMultiplication`
  pub multiply : ℤ → Point → Point
  -- `IsOnCurve`
  pub is_on_curve : Point → Bool
  -- `p.Bytes()`, the compressed point
  pub compress : Point → Bytes
  -- `SetBytes` of an ECDSA private key: its public point; none is an error
  pub private_point : Bytes → Option Point

-- What the code relies on.
pub record IsGroup (ext : External) (curve : Curve) : Type 0 where
  -- Diffie-Hellman
  pub multiply_comm :
      (a b : ℤ)
      → curve.multiply a (curve.multiply b curve.generator)
        ≡ curve.multiply b (curve.multiply a curve.generator)
  -- coordinates are reduced
  pub x_bound : (n : ℤ) (p : Point) → (curve.multiply n p).x < ext.modulus
  pub y_bound : (n : ℤ) (p : Point) → (curve.multiply n p).y < ext.modulus
  pub multiply_on_curve : (n : ℤ) → curve.is_on_curve (curve.multiply n curve.generator) ≡ true
  pub compress_length : (p : Point) → length (curve.compress p) ≡ 32
  -- a private key that holds a point of the curve and a scalar gives the point back
  pub private_point-compress :
      (n : ℤ) (scalar : ℕ)
      → curve.private_point (curve.compress (curve.multiply n curve.generator) ++ to_bytes scalar)
        ≡ some (curve.multiply n curve.generator)
