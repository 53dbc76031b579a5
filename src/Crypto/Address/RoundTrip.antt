-- ===== src/Crypto/Address/RoundTrip.antt =====
-- A nix address decodes to the key that it was made from.
use cosmos_nixpool.Prelude.{
  inr, ◌<◌, ◌≡◌, refl, sym, ap, subst, ◌∙◌, true, not, ◌==◌, List, [], ◌∷◌, Bytes, ◌++◌, length,
  take, drop, arith, length-take, length-drop, take-append-drop, eqb_refl, bytes_equal,
}
use cosmos_nixpool.External.{External, IsLawful}
use cosmos_nixpool.Field.{set_bytes, to_bytes}
use cosmos_nixpool.Field.Encoding.{IsBytes, take-IsBytes, drop-IsBytes}
use cosmos_nixpool.Field.Canonical.{set_bytes-to_bytes, length-to_bytes, to_bytes-IsBytes}
use cosmos_nixpool.Types.Errors.{
  ok, fail_if, bind-eq-ok, last-eq-ok, guarded-eq-ok, ok_injective, bad_key_size,
  commitment_mismatch, bad_address,
}
use cosmos_nixpool.Crypto.Curve.{Curve}
use cosmos_nixpool.Crypto.Grumpkin.{
  GrumpkinPubKey, commitment_of, new_grumpkin_pub_key, point_from_raw_xy,
}
use cosmos_nixpool.Strings.{split, HasNo, split-append, split-last}
use cosmos_nixpool.Crypto.Hex.{hex_of, sprintf_064x, hex_to_bytes32}
use cosmos_nixpool.Crypto.Hex.Digits.{
  sprintf_064x-full, hex_to_bytes32-sprintf_064x, hex_to_bytes32-IsBytes, IsDigit-HasNo,
  hex_of-IsDigit,
}
use cosmos_nixpool.Crypto.Address.{
  colon, nix_prefix, encode_nix_address, decode_parts, decode_nix_address,
}

sprintf-HasNo : (b : Bytes) → IsBytes b → length b ≡ 32 → HasNo colon (sprintf_064x b)
sprintf-HasNo b h len =
    rw (sprintf_064x-full b len) (IsDigit-HasNo colon (hex_of b) (inr refl) (hex_of-IsDigit b h))

pub append-IsBytes : (a b : Bytes) → IsBytes a → IsBytes b → IsBytes (a ++ b)
append-IsBytes [] b ha hb = hb
append-IsBytes (x ∷ xs) b (hx, ha) hb = (hx, append-IsBytes xs b ha hb)

module _ (ext : External) (law : IsLawful ext) (curve : Curve) where
  -- A key that NewGrumpkinPubKey accepts.
  abbrev pub IsPublicKey : GrumpkinPubKey → Type 0
  IsPublicKey pk = IsBytes pk.key × (new_grumpkin_pub_key ext curve pk.key ≡ ok pk)

  new_grumpkin_pub_key-length :
      (key : Bytes) (pk : GrumpkinPubKey)
      → new_grumpkin_pub_key ext curve key ≡ ok pk
      → (length key ≡ 64) × (pk.key ≡ key)
  unfolding new_grumpkin_pub_key
  new_grumpkin_pub_key-length key pk h =
      let (u, checked, rest) = bind-eq-ok (fail_if (not (length key == 64)) bad_key_size) _ pk h in
      let (p, on, made) = bind-eq-ok (point_from_raw_xy ext curve key) _ pk rest in
      let right = last-eq-ok (not (length key == 64)) bad_key_size u checked in
      let fresh : GrumpkinPubKey = record { key = key } in
      let same : fresh ≡ pk = cc in
      (ground (arith, right), ap (λ (q : GrumpkinPubKey). q.key) (sym same))

  commitment_of-lt : (pk : GrumpkinPubKey) → commitment_of ext pk < ext.modulus
  unfolding commitment_of
  commitment_of-lt pk = law.hash2_bound _ _

  encoded_prefix :
      (pk : GrumpkinPubKey) → bytes_equal (take 4 (encode_nix_address ext pk)) nix_prefix ≡ true
  unfolding encode_nix_address
  encoded_prefix pk = refl

  -- The parts of an address.
  encoded_parts :
      (pk : GrumpkinPubKey)
      → IsBytes pk.key
      → length pk.key ≡ 64
      → split colon (drop 4 (encode_nix_address ext pk))
        ≡ sprintf_064x (to_bytes (commitment_of ext pk))
          ∷ sprintf_064x (take 32 pk.key)
          ∷ sprintf_064x (drop 32 pk.key)
          ∷ []
  unfolding encode_nix_address
  encoded_parts pk bytes len =
      let c = to_bytes (commitment_of ext pk) in
      let x = take 32 pk.key in
      let y = drop 32 pk.key in
      let no_c = sprintf-HasNo c (to_bytes-IsBytes _) (length-to_bytes _) in
      let no_x =
        sprintf-HasNo x (take-IsBytes 32 pk.key bytes)
          (omega (arith, length-take 32 pk.key, len)) in
      let no_y =
        sprintf-HasNo y (drop-IsBytes 32 pk.key bytes)
          (omega (arith, length-drop 32 pk.key, len)) in
      split-append colon (sprintf_064x c) _ refl no_c
      ∙ ap (λ (r : List Bytes). sprintf_064x c ∷ r)
          (split-append colon (sprintf_064x x) _ refl no_x
            ∙ ap (λ (r : List Bytes). sprintf_064x x ∷ r) (split-last colon (sprintf_064x y) no_y))

  -- The address of a public key that NewGrumpkinPubKey accepts decodes to the key.
  pub decode_nix_address-encode_nix_address :
      (pk : GrumpkinPubKey)
      → IsPublicKey pk
      → decode_nix_address ext curve (encode_nix_address ext pk) ≡ ok pk
  unfolding decode_nix_address decode_parts
  decode_nix_address-encode_nix_address pk (bytes, accepted) =
      let (len, same) = new_grumpkin_pub_key-length pk.key pk accepted in
      let c = to_bytes (commitment_of ext pk) in
      let x = take 32 pk.key in
      let y = drop 32 pk.key in
      let whole : x ++ y ≡ pk.key = take-append-drop 32 pk.key in
      let back : set_bytes ext c ≡ commitment_of ext pk =
        set_bytes-to_bytes ext law (commitment_of ext pk) (commitment_of-lt pk) in
      rw (encoded_prefix pk, encoded_parts pk bytes len)
        (rw
          (
            hex_to_bytes32-sprintf_064x c (to_bytes-IsBytes _) (length-to_bytes _),
            hex_to_bytes32-sprintf_064x x (take-IsBytes 32 pk.key bytes)
                (omega (arith, length-take 32 pk.key, len)),
            hex_to_bytes32-sprintf_064x y (drop-IsBytes 32 pk.key bytes)
                (omega (arith, length-drop 32 pk.key, len)),
          )
          (rw (whole, accepted) (rw (back, eqb_refl (commitment_of ext pk)) refl)))

  -- A key made of two 32-byte halves.
  halves-IsPublicKey :
      (x y : Bytes) (pk : GrumpkinPubKey)
      → IsBytes x
      → IsBytes y
      → new_grumpkin_pub_key ext curve (x ++ y) ≡ ok pk
      → IsPublicKey pk
  halves-IsPublicKey x y pk hx hy made =
      let (len, same) = new_grumpkin_pub_key-length (x ++ y) pk made in
      (
        subst IsBytes (sym same) (append-IsBytes x y hx hy),
        ap (new_grumpkin_pub_key ext curve) same ∙ made,
      )

  decode_parts-IsPublicKey :
      (parts : List Bytes) (pk : GrumpkinPubKey)
      → decode_parts ext curve parts ≡ ok pk
      → IsPublicKey pk
  unfolding decode_parts
  decode_parts-IsPublicKey [] pk h = cc
  decode_parts-IsPublicKey (c ∷ []) pk h = cc
  decode_parts-IsPublicKey (c ∷ x ∷ []) pk h = cc
  decode_parts-IsPublicKey (c ∷ x ∷ y ∷ z ∷ more) pk h = cc
  decode_parts-IsPublicKey (c ∷ x ∷ y ∷ []) pk h =
      let (cb, first, h1) = bind-eq-ok (hex_to_bytes32 c) _ pk h in
      let (xb, second, h2) = bind-eq-ok (hex_to_bytes32 x) _ pk h1 in
      let (yb, third, h3) = bind-eq-ok (hex_to_bytes32 y) _ pk h2 in
      let (key, made, h4) = bind-eq-ok (new_grumpkin_pub_key ext curve (xb ++ yb)) _ pk h3 in
      let (matches, last) =
        guarded-eq-ok (not (set_bytes ext cb == commitment_of ext key)) commitment_mismatch (ok key)
          pk h4 in
      let same : key ≡ pk = ok_injective key pk last in
      subst IsPublicKey same (
        halves-IsPublicKey xb yb key (hex_to_bytes32-IsBytes x xb second).0
          (hex_to_bytes32-IsBytes y yb third).0 made)

  -- Whatever string decodes, in upper case, with 0x or short, gives a key that NewGrumpkinPubKey
  -- accepts, and the address printed for the key decodes to it again.
  pub decode_nix_address-IsPublicKey :
      (address : Bytes) (pk : GrumpkinPubKey)
      → decode_nix_address ext curve address ≡ ok pk
      → IsPublicKey pk × (decode_nix_address ext curve (encode_nix_address ext pk) ≡ ok pk)
  unfolding decode_nix_address
  decode_nix_address-IsPublicKey address pk h =
      let (prefixed, parts) =
        guarded-eq-ok (not (bytes_equal (take 4 address) nix_prefix)) bad_address
          (decode_parts ext curve (split colon (drop 4 address))) pk h in
      let accepted = decode_parts-IsPublicKey (split colon (drop 4 address)) pk parts in
      (accepted, decode_nix_address-encode_nix_address pk accepted)
