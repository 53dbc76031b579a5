-- ===== src/Crypto/Ecies.antt =====
-- crypto/ecies.go: ECIES over Grumpkin with Poseidon2 as key derivation, for one field element and in
-- counter mode.
pub mod RoundTrip
use cosmos_nixpool.Prelude.{
  ℕ, zero, suc, ◌+◌, ◌-◌, ◌%◌, Bool, true, false, List, [], ◌∷◌, ℤ, pos, negsuc, if◌then◌else◌,
}
use cosmos_nixpool.External.{External}
use cosmos_nixpool.Types.Errors.{Result, ok, err, ◌>>=◌, ◌>>◌, fail_if, zero_randomness}
use cosmos_nixpool.Crypto.Curve.{Curve, Point}

-- ECIESCiphertext
pub record EciesCiphertext : Type 0 where
  pub auth_key_x : ℕ
  pub auth_key_y : ℕ
  pub encrypted : ℕ

-- `randomness.Sign() == 0`
abbrev pub is_zero : ℤ → Bool
is_zero (pos zero) = true
is_zero (pos (suc n)) = false
is_zero (negsuc n) = false

module _ (ext : External) where
  -- `z.Add(&a, &b)` and `z.Sub(&a, &b)` of field elements below the modulus
  unfoldable pub field_add : ℕ → ℕ → ℕ
  field_add a b = (a + b) % ext.modulus

  unfoldable pub field_sub : ℕ → ℕ → ℕ
  field_sub a b = (a + (ext.modulus - b)) % ext.modulus

  -- `e.SetBigInt(c.BigInt(...))` of a coordinate
  unfoldable pub coordinate : ℕ → ℕ
  coordinate c = c % ext.modulus

  -- the key of a shared point
  unfoldable pub shared_key : Point → ℕ
  shared_key shared = ext.hash2 (coordinate shared.x) (coordinate shared.y)

  -- the key of a shared point at a counter, which SetUint64 reduces
  unfoldable pub counter_key : Point → ℕ → ℕ
  counter_key shared i = ext.hash (coordinate shared.x ∷ coordinate shared.y ∷ i % ext.modulus ∷ [])

  -- the loops of the counter modes, from the counter `i`
  unfoldable pub encrypt_from : Point → ℕ → List ℕ → List ℕ
  encrypt_from shared i [] = []
  encrypt_from shared i (value ∷ values) =
      field_add value (counter_key shared i) ∷ encrypt_from shared (suc i) values

  unfoldable pub decrypt_from : Point → ℕ → List ℕ → List ℕ
  decrypt_from shared i [] = []
  decrypt_from shared i (ct ∷ cts) =
      field_sub ct (counter_key shared i) ∷ decrypt_from shared (suc i) cts

  module _ (curve : Curve) where
    -- Encrypt
    unfoldable pub encrypt : ℕ → ℤ → Point → Result EciesCiphertext
    encrypt value randomness receiver = do
      fail_if (is_zero randomness) zero_randomness
      let auth_key : Point = curve.multiply randomness curve.generator
      let shared : Point = curve.multiply randomness receiver
      ok (record {
        auth_key_x = coordinate auth_key.x;
        auth_key_y = coordinate auth_key.y;
        encrypted = field_add value (shared_key shared);
      })

    -- Decrypt
    unfoldable pub decrypt : ℤ → Point → ℕ → ℕ
    decrypt sk auth_key encrypted = field_sub encrypted (shared_key (curve.multiply sk auth_key))

    -- EncryptCounterMode
    unfoldable pub encrypt_counter_mode : List ℕ → ℤ → Point → Result (Point × List ℕ)
    encrypt_counter_mode values randomness receiver = do
      fail_if (is_zero randomness) zero_randomness
      ok (
        curve.multiply randomness curve.generator,
        encrypt_from (curve.multiply randomness receiver) 0 values,
      )

    -- DecryptCounterMode
    unfoldable pub decrypt_counter_mode : ℤ → Point → List ℕ → List ℕ
    decrypt_counter_mode sk ephemeral cts = decrypt_from (curve.multiply sk ephemeral) 0 cts
