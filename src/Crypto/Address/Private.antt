-- ===== src/Crypto/Address/Private.antt =====
-- From the scalar of a private key to the address, and back to the public point.
use cosmos_nixpool.Prelude.{
  ℕ, ◌<◌, ◌≡◌, refl, sym, ap, ◌∙◌, true, false, ◌==◌, [], ◌∷◌, Bytes, ◌++◌, length, take, drop, pos,
  arith, length-append,
}
use cosmos_nixpool.External.{External, IsLawful}
use cosmos_nixpool.Field.{set_bytes, to_bytes}
use cosmos_nixpool.Field.Canonical.{
  set_bytes-to_bytes, set_bytes-lt, be_value-to_bytes, length-to_bytes, to_bytes-IsBytes,
}
use cosmos_nixpool.Types.Errors.{ok}
use cosmos_nixpool.Crypto.Curve.{Curve, Point, IsGroup}
use cosmos_nixpool.Crypto.Grumpkin.{
  GrumpkinPubKey, GrumpkinPrivKey, raw_xy_from_point, point_from_raw_xy, new_grumpkin_pub_key,
  priv_key_from_scalar, priv_key_from_scalar_bytes, pub_key,
}
use cosmos_nixpool.Crypto.Address.{
  encode_nix_address, decode_nix_address, nix_address_from_priv_key,
}
use cosmos_nixpool.Crypto.Address.RoundTrip.{
  IsPublicKey, append-IsBytes, decode_nix_address-encode_nix_address,
}

take_prefix : (a b : Bytes) → take (length a) (a ++ b) ≡ a
take_prefix [] b = refl
take_prefix (x ∷ a) b = ap (λ (r : Bytes). x ∷ r) (take_prefix a b)

drop_prefix : (a b : Bytes) → drop (length a) (a ++ b) ≡ b
drop_prefix [] b = refl
drop_prefix (x ∷ a) b = drop_prefix a b

module _ (ext : External) (law : IsLawful ext) (curve : Curve) (group : IsGroup ext curve) where
  -- The public point of a private key with this scalar.
  abbrev pub public_point : Bytes → Point
  public_point bytes = curve.multiply (pos (set_bytes ext bytes)) curve.generator

  abbrev pub public_key : Bytes → GrumpkinPubKey
  public_key bytes = record { key = raw_xy_from_point (public_point bytes) }

  pub raw_xy-halves :
      (p : Point)
      → (take 32 (raw_xy_from_point p) ≡ to_bytes p.x)
        × (drop 32 (raw_xy_from_point p) ≡ to_bytes p.y)
  unfolding raw_xy_from_point
  raw_xy-halves p = (
    ap (λ (n : ℕ). take n (to_bytes p.x ++ to_bytes p.y)) (sym (length-to_bytes p.x))
        ∙ take_prefix (to_bytes p.x) (to_bytes p.y),
    ap (λ (n : ℕ). drop n (to_bytes p.x ++ to_bytes p.y)) (sym (length-to_bytes p.x))
        ∙ drop_prefix (to_bytes p.x) (to_bytes p.y),
  )

  -- A reduced point comes back from its raw bytes.
  pub point_from_raw_xy-raw_xy_from_point :
      (p : Point)
      → p.x < ext.modulus
      → p.y < ext.modulus
      → curve.is_on_curve p ≡ true
      → point_from_raw_xy ext curve (raw_xy_from_point p) ≡ ok p
  unfolding point_from_raw_xy
  point_from_raw_xy-raw_xy_from_point p hx hy on =
      let (x, y) = raw_xy-halves p in
      rw (x, y, set_bytes-to_bytes ext law p.x hx, set_bytes-to_bytes ext law p.y hy) (rw on refl)

  -- The public key of a private key that is made from a scalar.
  pub_key-priv_key_from_scalar :
      (bytes : Bytes)
      → pub_key ext curve (record { key = priv_key_from_scalar ext curve (set_bytes ext bytes) })
        ≡ ok (public_key bytes)
  unfolding pub_key priv_key_from_scalar
  pub_key-priv_key_from_scalar bytes =
      let scalar = set_bytes ext bytes in
      rw (be_value-to_bytes ext law scalar (set_bytes-lt ext law bytes))
        (rw (group.private_point-compress (pos scalar) scalar) refl)

  pub public_key-IsPublicKey : (bytes : Bytes) → IsPublicKey ext law curve (public_key bytes)
  unfolding new_grumpkin_pub_key raw_xy_from_point
  public_key-IsPublicKey bytes =
      let n = pos (set_bytes ext bytes) in
      let p = public_point bytes in
      let len : length (to_bytes p.x ++ to_bytes p.y) ≡ 64 = omega (
        arith,
        length-append (to_bytes p.x) (to_bytes p.y),
        length-to_bytes p.x,
        length-to_bytes p.y,
      ) in
      (
        append-IsBytes (to_bytes p.x) (to_bytes p.y) (to_bytes-IsBytes p.x) (to_bytes-IsBytes p.y),
        rw len (
            rw
              (point_from_raw_xy-raw_xy_from_point p (group.x_bound n curve.generator)
                (group.y_bound n curve.generator) (group.multiply_on_curve n))
              refl),
      )

  -- A private key made from 32 bytes that encode a scalar other than zero has as its public key the
  -- raw coordinates of the scalar times the generator, and its nix address decodes to that key.
  pub nix_address_from_priv_key-decodes :
      (bytes : Bytes)
      → length bytes ≡ 32
      → (set_bytes ext bytes == 0) ≡ false
      → (sk : GrumpkinPrivKey) × (address : Bytes) × (priv_key_from_scalar_bytes ext curve bytes
          ≡ ok sk)
        × (pub_key ext curve sk ≡ ok (public_key bytes))
        × (nix_address_from_priv_key ext curve sk ≡ ok address)
        × (decode_nix_address ext curve address ≡ ok (public_key bytes))
  unfolding priv_key_from_scalar_bytes nix_address_from_priv_key
  nix_address_from_priv_key-decodes bytes len nonzero = (
    record { key = priv_key_from_scalar ext curve (set_bytes ext bytes) },
    encode_nix_address ext (public_key bytes),
    rw (len, nonzero) refl,
    pub_key-priv_key_from_scalar bytes,
    rw (pub_key-priv_key_from_scalar bytes) refl,
    decode_nix_address-encode_nix_address ext law curve (public_key bytes)
        (public_key-IsPublicKey bytes),
  )
