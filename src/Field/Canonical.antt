-- ===== src/Field/Canonical.antt =====
-- Field elements have one canonical encoding (types/keys.go), and two byte strings share it exactly
-- when they are congruent modulo the field's modulus.
use native.Mathlib.Nat.{mod-lt, mod-eq_of_lt}
use cosmos_nixpool.Prelude.{
  ℕ, ◌<◌, ◌≡◌, sym, ap, subst, ◌∙◌, ◌↔◌, true, arith, Bytes, length, ltb→lt,
}
use cosmos_nixpool.External.{External, IsLawful}
use cosmos_nixpool.Field.{
  be_value, be_bytes, set_bytes, to_bytes, canonical_field_bytes, is_canonical,
}
use cosmos_nixpool.Field.Encoding.{
  IsBytes, be_value-be_bytes, be_bytes-be_value, length-be_bytes, be_bytes-IsBytes,
}

module _ (ext : External) (law : IsLawful ext) where
  pub set_bytes-lt : (b : Bytes) → set_bytes ext b < ext.modulus
  unfolding set_bytes
  set_bytes-lt b = mod-lt (be_value b) (omega (arith, law.modulus_pos))

  pub be_value-to_bytes : (e : ℕ) → e < ext.modulus → be_value (to_bytes e) ≡ e
  unfolding to_bytes
  be_value-to_bytes e h = be_value-be_bytes 32 e ∙ mod-eq_of_lt (omega (arith, law.modulus_fits))

  -- A field element survives `Bytes` and `SetBytes`.
  pub set_bytes-to_bytes : (e : ℕ) → e < ext.modulus → set_bytes ext (to_bytes e) ≡ e
  unfolding set_bytes
  set_bytes-to_bytes e h = rw (be_value-to_bytes e h) (mod-eq_of_lt h)

  pub to_bytes_injective :
      (a b : ℕ) → a < ext.modulus → b < ext.modulus → to_bytes a ≡ to_bytes b → a ≡ b
  to_bytes_injective a b ha hb same =
      sym (be_value-to_bytes a ha) ∙ ap be_value same ∙ be_value-to_bytes b hb

  -- Two byte strings have one canonical encoding exactly when they stand for one field element.
  pub canonical_field_bytes_iff :
      (a b : Bytes)
      → (canonical_field_bytes ext a ≡ canonical_field_bytes ext b)
        ↔ (set_bytes ext a ≡ set_bytes ext b)
  unfolding canonical_field_bytes
  canonical_field_bytes_iff a b = (
    to_bytes_injective (set_bytes ext a) (set_bytes ext b) (set_bytes-lt a) (set_bytes-lt b),
    ap to_bytes,
  )

  -- Canonical encodings are fixed points, so canonicalising twice is canonicalising once.
  pub canonical_field_bytes-idempotent :
      (b : Bytes)
      → canonical_field_bytes ext (canonical_field_bytes ext b) ≡ canonical_field_bytes ext b
  unfolding canonical_field_bytes
  canonical_field_bytes-idempotent b =
      ap to_bytes (set_bytes-to_bytes (set_bytes ext b) (set_bytes-lt b))

  -- A 32-byte string below the modulus is its own canonical encoding.
  pub canonical_field_bytes-of_canonical :
      (b : Bytes)
      → IsBytes b
      → length b ≡ 32
      → is_canonical ext b ≡ true
      → canonical_field_bytes ext b ≡ b
  unfolding canonical_field_bytes is_canonical set_bytes to_bytes
  canonical_field_bytes-of_canonical b bytes len small =
      let below : be_value b < ext.modulus = ltb→lt (be_value b) ext.modulus small in
      ap (be_bytes 32) (mod-eq_of_lt below)
      ∙ subst (λ w. be_bytes w (be_value b) ≡ b) len (be_bytes-be_value b bytes)

pub length-to_bytes : (e : ℕ) → length (to_bytes e) ≡ 32
unfolding to_bytes
length-to_bytes e = length-be_bytes 32 e

pub to_bytes-IsBytes : (e : ℕ) → IsBytes (to_bytes e)
unfolding to_bytes
to_bytes-IsBytes e = be_bytes-IsBytes 32 e
