-- ===== src/Crypto/Address.antt =====
-- crypto/nixaddress.go: nix addresses, `nix:<commitment>:<pk.x>:<pk.y>`.
pub mod RoundTrip
pub mod Private
use cosmos_nixpool.Prelude.{
  ℕ, zero, suc, ◌==◌, not, List, [], ◌∷◌, Bytes, codes, ◌++◌, length, take, drop, bytes_equal,
  if◌then◌else◌, Option, some, none,
}
use cosmos_nixpool.External.{External}
use cosmos_nixpool.Field.{set_bytes, to_bytes}
use cosmos_nixpool.Types.Errors.{
  Result, ok, err, ◌>>=◌, ◌>>◌, fail_if, bad_address, commitment_mismatch,
}
use cosmos_nixpool.Crypto.Curve.{Curve}
use cosmos_nixpool.Crypto.Grumpkin.{
  GrumpkinPubKey, GrumpkinPrivKey, commitment_of, new_grumpkin_pub_key, pub_key,
}
use cosmos_nixpool.Strings.{split}
use cosmos_nixpool.Crypto.Hex.{sprintf_064x, hex_to_bytes32}

-- The character ":".
abbrev pub colon : ℕ
colon = 58

abbrev pub nix_prefix : Bytes
nix_prefix = codes "nix:"

module _ (ext : External) where
  -- EncodeNixAddress, of a key with at least 32 bytes
  unfoldable pub encode_nix_address : GrumpkinPubKey → Bytes
  encode_nix_address pk =
      nix_prefix
      ++ (sprintf_064x (to_bytes (commitment_of ext pk))
          ++ (colon ∷ (sprintf_064x (take 32 pk.key) ++ (colon ∷ sprintf_064x (drop 32 pk.key)))))

  module _ (curve : Curve) where
    -- DecodeNixAddress, on the parts behind the prefix
    unfoldable pub decode_parts : List Bytes → Result GrumpkinPubKey
    decode_parts [] = err bad_address
    decode_parts (c ∷ []) = err bad_address
    decode_parts (c ∷ x ∷ []) = err bad_address
    decode_parts (c ∷ x ∷ y ∷ z ∷ more) = err bad_address
    decode_parts (c ∷ x ∷ y ∷ []) = do
      commitment_bytes ← hex_to_bytes32 c
      pkx_bytes ← hex_to_bytes32 x
      pky_bytes ← hex_to_bytes32 y
      pk ← new_grumpkin_pub_key ext curve (pkx_bytes ++ pky_bytes)
      fail_if (not (set_bytes ext commitment_bytes == commitment_of ext pk)) commitment_mismatch
      ok pk

    -- DecodeNixAddress
    unfoldable pub decode_nix_address : Bytes → Result GrumpkinPubKey
    decode_nix_address address = do
      fail_if (not (bytes_equal (take 4 address) nix_prefix)) bad_address
      decode_parts (split colon (drop 4 address))

    -- NixAddressFromPrivKey
    unfoldable pub nix_address_from_priv_key : GrumpkinPrivKey → Result Bytes
    nix_address_from_priv_key sk = do pk ← pub_key ext curve sk; ok (encode_nix_address pk)
