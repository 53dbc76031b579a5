-- ===== src/Keeper/Verify/Limbs.antt =====
-- stringToFieldElement: what it hashes tells the string.
use native.Mathlib.Nat.{mod-eq_of_lt, pow-le-pow_right}
use cosmos_nixpool.Prelude.{
  ℕ, zero, suc, ◌^◌, ◌≤◌, ◌<◌, ◌≡◌, refl, sym, ap, ap₂, ◌∙◌, List, [], ◌∷◌, ◌++◌, Bytes, length,
  length-take, length-drop, take, drop, take-append-drop, arith,
}
use cosmos_nixpool.External.{External}
use cosmos_nixpool.Field.{be_value, set_bytes}
use cosmos_nixpool.Field.Encoding.{
  IsBytes, take-IsBytes, drop-IsBytes, be_value-lt, be_value_injective,
}
use cosmos_nixpool.Keeper.Verify.{limbs_of, string_limbs}

cons_injective : (x y : ℕ) (xs ys : List ℕ) → x ∷ xs ≡ y ∷ ys → (x ≡ y) × (xs ≡ ys)
cons_injective x y xs ys h = (cc, cc)

module _ (ext : External) (wide : 256 ^ 31 ≤ ext.modulus) where
  -- A limb is not reduced.
  limb-lt : (a : Bytes) → IsBytes a → length a ≤ 31 → be_value a < ext.modulus
  limb-lt a h len =
      omega (arith, be_value-lt a h, pow-le-pow_right {n = 256} (omega arith) len, wide)

  limb_injective :
      (a b : Bytes)
      → IsBytes a
      → IsBytes b
      → length a ≡ length b
      → length a ≤ 31
      → set_bytes ext a ≡ set_bytes ext b
      → a ≡ b
  unfolding set_bytes
  limb_injective a b ha hb len short same = be_value_injective a b ha hb len (
      sym (mod-eq_of_lt (limb-lt a ha short))
      ∙ same
      ∙ mod-eq_of_lt (limb-lt b hb (omega (arith, len, short))))

  limbs_of_injective :
      (n : ℕ) (a b : Bytes)
      → IsBytes a
      → IsBytes b
      → length a ≡ length b
      → length a ≤ n
      → limbs_of ext n a ≡ limbs_of ext n b
      → a ≡ b
  unfolding limbs_of
  limbs_of_injective n [] [] ha hb len fuel same = refl
  limbs_of_injective n [] (y ∷ ys) ha hb len fuel same = ground arith
  limbs_of_injective n (x ∷ xs) [] ha hb len fuel same = ground arith
  limbs_of_injective zero (x ∷ xs) (y ∷ ys) ha hb len fuel same = ground arith
  limbs_of_injective (suc n) (x ∷ xs) (y ∷ ys) ha hb len fuel same =
      let a = x ∷ xs in
      let b = y ∷ ys in
      let (limb, rest) =
        cons_injective (set_bytes ext (take 31 a)) (set_bytes ext (take 31 b))
          (limbs_of ext n (drop 31 a)) (limbs_of ext n (drop 31 b)) same in
      let heads =
        limb_injective (take 31 a) (take 31 b) (take-IsBytes 31 a ha) (take-IsBytes 31 b hb)
          (omega (arith, length-take 31 a, length-take 31 b, len)) (omega (arith, length-take 31 a))
          limb in
      let tails =
        limbs_of_injective n (drop 31 a) (drop 31 b) (drop-IsBytes 31 a ha) (drop-IsBytes 31 b hb)
          (omega (arith, length-drop 31 a, length-drop 31 b, len))
          (omega (arith, length-drop 31 a, fuel)) rest in
      sym (take-append-drop 31 a)
      ∙ ap₂ (λ (u v : Bytes). u ++ v) heads tails
      ∙ take-append-drop 31 b

  -- Where every 31-byte number is below the modulus, two strings of bytes that are shorter than the
  -- modulus give the same limbs only if they are the same string: no byte is left out or reduced.
  pub string_limbs_injective :
      (a b : Bytes)
      → IsBytes a
      → IsBytes b
      → length a < ext.modulus
      → length b < ext.modulus
      → string_limbs ext a ≡ string_limbs ext b
      → a ≡ b
  unfolding string_limbs
  string_limbs_injective a b ha hb small_a small_b same =
      let (counts, limbs) = cons_injective _ _ _ _ same in
      let len : length a ≡ length b = sym (mod-eq_of_lt small_a) ∙ counts ∙ mod-eq_of_lt small_b in
      limbs_of_injective (length a) a b ha hb len (omega arith)
        (limbs ∙ ap (λ (n : ℕ). limbs_of ext n b) (sym len))
