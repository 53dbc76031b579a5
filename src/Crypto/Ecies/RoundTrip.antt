-- ===== src/Crypto/Ecies/RoundTrip.antt =====
-- What is encrypted to a key is decrypted by it.
use native.Mathlib.Nat.{mod-eq_of_lt, mod-add-mod, add-mod_right}
use cosmos_nixpool.Prelude.{
  ℕ, suc, ◌+◌, ◌-◌, ◌%◌, ◌<◌, ◌≡◌, refl, ap, ap₂, ◌∙◌, false, List, [], ◌∷◌, All, ℤ, arith,
}
use cosmos_nixpool.External.{External, IsLawful}
use cosmos_nixpool.Types.Errors.{ok}
use cosmos_nixpool.Crypto.Curve.{Curve, Point, IsGroup}
use cosmos_nixpool.Crypto.Ecies.{
  EciesCiphertext, is_zero, field_add, field_sub, coordinate, shared_key, counter_key, encrypt_from,
  decrypt_from, encrypt, decrypt, encrypt_counter_mode, decrypt_counter_mode,
}

-- Adding and taking away modulo m.
add_sub_mod : (m a k : ℕ) → a < m → k < m → ((a + k) % m + (m - k)) % m ≡ a
add_sub_mod m a k ha hk =
    mod-add-mod (a + k) m (m - k)
    ∙ ap (λ (n : ℕ). n % m) (omega arith)
    ∙ add-mod_right a m
    ∙ mod-eq_of_lt ha

module _ (ext : External) (law : IsLawful ext) where
  field_sub-field_add :
      (a k : ℕ) → a < ext.modulus → k < ext.modulus → field_sub ext (field_add ext a k) k ≡ a
  unfolding field_sub field_add
  field_sub-field_add a k ha hk = add_sub_mod ext.modulus a k ha hk

  counter_key-lt : (shared : Point) (i : ℕ) → counter_key ext shared i < ext.modulus
  unfolding counter_key
  counter_key-lt shared i = law.hash_bound _

  shared_key-lt : (shared : Point) → shared_key ext shared < ext.modulus
  unfolding shared_key
  shared_key-lt shared = law.hash2_bound _ _

  decrypt_from-encrypt_from :
      (shared : Point) (i : ℕ) (values : List ℕ)
      → All (λ v. v < ext.modulus) values
      → decrypt_from ext shared i (encrypt_from ext shared i values) ≡ values
  unfolding decrypt_from encrypt_from
  decrypt_from-encrypt_from shared i [] all = refl
  decrypt_from-encrypt_from shared i (v ∷ values) (hv, all) =
      ap₂ (λ (x : ℕ) (xs : List ℕ). x ∷ xs)
        (field_sub-field_add v (counter_key ext shared i) hv (counter_key-lt shared i))
        (decrypt_from-encrypt_from shared (suc i) values all)

  module _ (curve : Curve) (group : IsGroup ext curve) where
    -- A point from the field elements of its reduced coordinates.
    point_of_coordinates :
        (n : ℤ) (p : Point)
        → (record {
          x = coordinate ext (curve.multiply n p).x;
          y = coordinate ext (curve.multiply n p).y;
        })
          ≡ curve.multiply n p
    unfolding coordinate
    point_of_coordinates n p =
        ap₂ (λ (a b : ℕ). let q : Point = record { x = a; y = b } in q)
          (mod-eq_of_lt (group.x_bound n p)) (mod-eq_of_lt (group.y_bound n p))

    -- The ciphertext of a field element under the public key of a private key, with randomness that
    -- is not zero, decrypts to the element.
    pub decrypt-encrypt :
        (value : ℕ) (randomness sk : ℤ)
        → value < ext.modulus
        → is_zero randomness ≡ false
        → (c : EciesCiphertext) × (encrypt ext curve value randomness
              (curve.multiply sk curve.generator)
            ≡ ok c)
          × (decrypt ext curve sk (record { x = c.auth_key_x; y = c.auth_key_y }) c.encrypted
              ≡ value)
    unfolding encrypt decrypt
    decrypt-encrypt value randomness sk small nonzero =
        let shared = curve.multiply randomness (curve.multiply sk curve.generator) in
        (
          record {
            auth_key_x = coordinate ext (curve.multiply randomness curve.generator).x;
            auth_key_y = coordinate ext (curve.multiply randomness curve.generator).y;
            encrypted = field_add ext value (shared_key ext shared);
          },
          rw nonzero refl,
          ap
                (λ (p : Point).
                  field_sub ext (field_add ext value (shared_key ext shared))
                    (shared_key ext (curve.multiply sk p)))
                (point_of_coordinates randomness curve.generator)
              ∙ ap
                  (λ (p : Point).
                    field_sub ext (field_add ext value (shared_key ext shared)) (shared_key ext p))
                  (group.multiply_comm sk randomness)
              ∙ field_sub-field_add value (shared_key ext shared) small (shared_key-lt shared),
        )

    -- In counter mode, the ciphertexts of any number of field elements under the public key of a
    -- private key, with randomness that is not zero, decrypt to the elements in their order.
    pub decrypt_counter_mode-encrypt_counter_mode :
        (values : List ℕ) (randomness sk : ℤ)
        → All (λ v. v < ext.modulus) values
        → is_zero randomness ≡ false
        → (ephemeral : Point) × (cts : List ℕ) × (encrypt_counter_mode ext curve values randomness
              (curve.multiply sk curve.generator)
            ≡ ok (ephemeral, cts))
          × (decrypt_counter_mode ext curve sk ephemeral cts ≡ values)
    unfolding encrypt_counter_mode decrypt_counter_mode
    decrypt_counter_mode-encrypt_counter_mode values randomness sk small nonzero =
        let shared = curve.multiply randomness (curve.multiply sk curve.generator) in
        (
          curve.multiply randomness curve.generator,
          encrypt_from ext shared 0 values,
          rw nonzero refl,
          ap (λ (p : Point). decrypt_from ext p 0 (encrypt_from ext shared 0 values))
                (group.multiply_comm sk randomness)
              ∙ decrypt_from-encrypt_from shared 0 values small,
        )
