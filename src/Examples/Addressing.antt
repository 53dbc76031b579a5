-- ===== src/Examples/Addressing.antt =====
-- A small group in place of the curve, and runs of the clients' cryptography over it.
use native.Mathlib.Nat.{add-mul-mod_self_right, div-add-mod'}
use cosmos_nixpool.Prelude.{
  ℕ, suc, ◌+◌, ◌*◌, ◌/◌, ◌%◌, codes, ◌<◌, ◌≡◌, refl, sym, ap, ◌∙◌, ◌==◌, false, some, List, [], ◌∷◌,
  Bytes, ◌++◌, length, take, ℤ, pos, negsuc, arith,
}
use cosmos_nixpool.Field.{set_bytes, to_bytes, be_value}
use cosmos_nixpool.Field.Canonical.{set_bytes-to_bytes, length-to_bytes}
use cosmos_nixpool.Types.Errors.{ok, err, zero_randomness}
use cosmos_nixpool.Crypto.Curve.{Curve, Point, IsGroup}
use cosmos_nixpool.Crypto.Grumpkin.{
  GrumpkinPubKey, commitment_of, point_from_raw_xy, new_grumpkin_pub_key,
}
use cosmos_nixpool.Crypto.Hex.{hex_nibble, hex_byte, hex_bytes, hex_to_bytes32}
use cosmos_nixpool.Strings.{split}
use cosmos_nixpool.Crypto.Hex.{hex_of}
use cosmos_nixpool.Field.Canonical.{to_bytes-IsBytes, length-to_bytes}
use cosmos_nixpool.Client.Keys.{NixAddressOutput, cmd_nix_address, cmd_nix_address-decodes}
use cosmos_nixpool.Crypto.Address.{encode_nix_address, decode_parts, decode_nix_address}
use cosmos_nixpool.Crypto.Address.RoundTrip.{IsPublicKey, decode_nix_address-IsPublicKey}
use cosmos_nixpool.Crypto.Address.Private.{public_key, public_point}
use cosmos_nixpool.Crypto.Ecies.{encrypt, encrypt_counter_mode, decrypt_counter_mode}
use cosmos_nixpool.Crypto.Ecies.RoundTrip.{decrypt_counter_mode-encrypt_counter_mode}
use cosmos_nixpool.Examples.Toy.{toy, toy-IsLawful, toy_hash2}

abbrev magnitude : ℤ → ℕ
magnitude (pos n) = n
magnitude (negsuc n) = suc n

abbrev toy_curve : Curve
toy_curve = record {
  generator = record { x = 3; y = 7 };
  multiply = λ n p. record { x = (magnitude n * p.x) % 101; y = p.y % 101 };
  is_on_curve = λ p. p.y == 7;
  compress = λ p. to_bytes p.x;
  private_point = λ b. some (record { x = set_bytes toy (take 32 b); y = 7 });
}

mul-mod : (m x : ℕ) → (m * (x % 101)) % 101 ≡ (m * x) % 101
mul-mod m x =
    sym (add-mul-mod_self_right (m * (x % 101)) (m * (x / 101)) 101)
    ∙ ap (λ (n : ℕ). n % 101) (regroup ∙ ap (λ (q : ℕ). m * q) (div-add-mod' x 101))
  where
    regroup : m * (x % 101) + m * (x / 101) * 101 ≡ m * (x / 101 * 101 + x % 101)
    regroup = grind arith

scale_comm : (m n g : ℕ) → (m * ((n * g) % 101)) % 101 ≡ (n * ((m * g) % 101)) % 101
scale_comm m n g =
    mul-mod m (n * g) ∙ ap (λ (x : ℕ). x % 101) (grind arith) ∙ sym (mul-mod n (m * g))

take_front : (a b : Bytes) → take (length a) (a ++ b) ≡ a
take_front [] b = refl
take_front (x ∷ a) b = ap (λ (r : Bytes). x ∷ r) (take_front a b)

toy_point : (x : ℕ) (b : Bytes) → x < 101 → set_bytes toy (take 32 (to_bytes x ++ b)) ≡ x
toy_point x b h =
    ap (λ (n : ℕ). set_bytes toy (take n (to_bytes x ++ b))) (sym (length-to_bytes x))
    ∙ ap (set_bytes toy) (take_front (to_bytes x) b)
    ∙ set_bytes-to_bytes toy toy-IsLawful x h

toy_curve-IsGroup : IsGroup toy toy_curve
toy_curve-IsGroup = record {
  multiply_comm = λ a b.
      ap (λ (x : ℕ). let p : Point = record { x = x; y = 7 } in p)
        (scale_comm (magnitude a) (magnitude b) 3);
  x_bound = λ n p. omega arith;
  y_bound = λ n p. omega arith;
  multiply_on_curve = λ n. refl;
  compress_length = λ p. length-to_bytes p.x;
  private_point-compress = λ n scalar.
      ap (λ (x : ℕ). let p : Point = record { x = x; y = 7 } in some p)
        (toy_point ((magnitude n * 3) % 101) (to_bytes scalar) (omega arith));
}

abbrev receiver : Point
receiver = toy_curve.multiply (pos 5) toy_curve.generator

-- Zero randomness is refused.
zero_refused : encrypt toy toy_curve 42 (pos 0) receiver ≡ err zero_randomness
unfolding encrypt
zero_refused = refl

decrypt_counter_mode-encrypt_counter_mode_example :
    (ephemeral : Point) × (cts : List ℕ) × (encrypt_counter_mode toy toy_curve
        (1 ∷ 2 ∷ 100 ∷ [])
        (pos 9)
        receiver
      ≡ ok (ephemeral, cts))
    × (decrypt_counter_mode toy toy_curve (pos 5) ephemeral cts ≡ 1 ∷ 2 ∷ 100 ∷ [])
decrypt_counter_mode-encrypt_counter_mode_example =
    decrypt_counter_mode-encrypt_counter_mode toy toy-IsLawful toy_curve toy_curve-IsGroup
      (1 ∷ 2 ∷ 100 ∷ []) (pos 9) (pos 5) (omega arith, (omega arith, (omega arith, tt))) refl

-- The scalar 4, whose public point is (12, 7).
scalar_nonzero : (set_bytes toy (to_bytes 4) == 0) ≡ false
unfolding set_bytes be_value to_bytes
scalar_nonzero = refl

cmd_nix_address-decodes_example :
    (out : NixAddressOutput) × (cmd_nix_address toy toy_curve (hex_of (to_bytes 4) ∷ []) ≡ ok out)
    × (out.public_key_x
        ≡ hex_of
            (to_bytes (public_point toy toy-IsLawful toy_curve toy_curve-IsGroup (to_bytes 4)).x))
    × (out.public_key_y
        ≡ hex_of
            (to_bytes (public_point toy toy-IsLawful toy_curve toy_curve-IsGroup (to_bytes 4)).y))
    × (decode_nix_address toy toy_curve out.nix_address
        ≡ ok (public_key toy toy-IsLawful toy_curve toy_curve-IsGroup (to_bytes 4)))
cmd_nix_address-decodes_example =
    cmd_nix_address-decodes toy toy-IsLawful toy_curve toy_curve-IsGroup (to_bytes 4)
      (to_bytes-IsBytes 4) (length-to_bytes 4) scalar_nonzero

-- A short address in mixed case: the commitment of (12, 7) is 72 = 0x48.
abbrev short_address : Bytes
short_address = codes "nix:48:0xC:7"

abbrev short_key : GrumpkinPubKey
short_key = record { key = to_bytes 12 ++ to_bytes 7 }

short_decodes : decode_nix_address toy toy_curve short_address ≡ ok short_key
unfolding decode_nix_address decode_parts split hex_to_bytes32 hex_bytes hex_byte hex_nibble
    new_grumpkin_pub_key point_from_raw_xy commitment_of set_bytes be_value to_bytes toy_hash2
short_decodes = refl

decode_nix_address-IsPublicKey_example :
    IsPublicKey toy toy-IsLawful toy_curve short_key
    × (decode_nix_address toy toy_curve (encode_nix_address toy short_key) ≡ ok short_key)
decode_nix_address-IsPublicKey_example =
    decode_nix_address-IsPublicKey toy toy-IsLawful toy_curve short_address short_key short_decodes
