-- ===== src/Client/Keys.antt =====
-- client/cli/keys.go: the command that prints the nix address of a private key. Its two output formats
-- hold the same four values.
use cosmos_nixpool.Prelude.{
  ◌==◌, ◌≡◌, refl, ap, ◌∙◌, false, not, List, [], ◌∷◌, Bytes, length, take, drop,
}
use cosmos_nixpool.External.{External, IsLawful}
use cosmos_nixpool.Field.{set_bytes, to_bytes}
use cosmos_nixpool.Field.Encoding.{IsBytes}
use cosmos_nixpool.Field.Canonical.{length-to_bytes}
use cosmos_nixpool.Types.Errors.{Result, ok, ◌>>=◌, ◌>>◌, fail_if, wrong_arguments}
use cosmos_nixpool.Crypto.Curve.{Curve, IsGroup}
use cosmos_nixpool.Crypto.Grumpkin.{commitment_of, priv_key_from_scalar_bytes, pub_key}
use cosmos_nixpool.Crypto.Hex.{hex_of, sprintf_064x}
use cosmos_nixpool.Crypto.Hex.Digits.{hex_bytes-hex_of, sprintf_064x-full}
use cosmos_nixpool.Crypto.Address.{encode_nix_address, decode_nix_address}
use cosmos_nixpool.Crypto.Address.Private.{
  public_point, public_key, raw_xy-halves, public_key-IsPublicKey,
  nix_address_from_priv_key-decodes,
}
use cosmos_nixpool.Crypto.Address.RoundTrip.{decode_nix_address-encode_nix_address}
use cosmos_nixpool.Client.{arg, decode_string}

pub record NixAddressOutput : Type 0 where
  pub public_key_x : Bytes
  pub public_key_y : Bytes
  pub commitment : Bytes
  pub nix_address : Bytes

module _ (ext : External) (curve : Curve) where
  -- CmdNixAddress
  unfoldable pub cmd_nix_address : List Bytes → Result NixAddressOutput
  cmd_nix_address args = do
    fail_if (not (length args == 1)) wrong_arguments
    scalar_bytes ← decode_string (arg args 0)
    sk ← priv_key_from_scalar_bytes ext curve scalar_bytes
    pk ← pub_key ext curve sk
    ok (record {
      public_key_x = sprintf_064x (take 32 pk.key);
      public_key_y = sprintf_064x (drop 32 pk.key);
      commitment = sprintf_064x (to_bytes (commitment_of ext pk));
      nix_address = encode_nix_address ext pk;
    })

module _ (ext : External) (law : IsLawful ext) (curve : Curve) (group : IsGroup ext curve) where
  -- For the hex digits of 32 bytes that encode a scalar other than zero, the command succeeds, the
  -- coordinates that it prints are those of the scalar times the generator, and the address that it
  -- prints decodes to the key with these coordinates.
  pub cmd_nix_address-decodes :
      (bytes : Bytes)
      → IsBytes bytes
      → length bytes ≡ 32
      → (set_bytes ext bytes == 0) ≡ false
      → (out : NixAddressOutput) × (cmd_nix_address ext curve (hex_of bytes ∷ []) ≡ ok out)
        × (out.public_key_x ≡ hex_of (to_bytes (public_point ext law curve group bytes).x))
        × (out.public_key_y ≡ hex_of (to_bytes (public_point ext law curve group bytes).y))
        × (decode_nix_address ext curve out.nix_address ≡ ok (public_key ext law curve group bytes))
  unfolding cmd_nix_address
  cmd_nix_address-decodes bytes are len nonzero =
      let (sk, address, made, public, printed, decoded) =
        nix_address_from_priv_key-decodes ext law curve group bytes len nonzero in
      let p = public_point ext law curve group bytes in
      let pk = public_key ext law curve group bytes in
      let (x, y) = raw_xy-halves ext law curve group p in
      (
        record {
          public_key_x = sprintf_064x (take 32 pk.key);
          public_key_y = sprintf_064x (drop 32 pk.key);
          commitment = sprintf_064x (to_bytes (commitment_of ext pk));
          nix_address = encode_nix_address ext pk;
        },
        rw (hex_bytes-hex_of bytes are, made, public) refl,
        ap sprintf_064x x ∙ sprintf_064x-full (to_bytes p.x) (length-to_bytes p.x),
        ap sprintf_064x y ∙ sprintf_064x-full (to_bytes p.y) (length-to_bytes p.y),
        decode_nix_address-encode_nix_address ext law curve pk
            (public_key-IsPublicKey ext law curve group bytes),
      )
