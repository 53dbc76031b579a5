-- ===== src/Examples/Encoding.antt =====
-- Keys and field elements at concrete bytes.
use cosmos_nixpool.Prelude.{◌≡◌, ◌↔◌, refl, true, [], ◌∷◌, arith, bytes_equal, if◌then◌else◌}
use cosmos_nixpool.Field.{canonical_field_bytes}
use cosmos_nixpool.Types.Keys.{Key}
use cosmos_nixpool.Types.Keys.Injective.{key_bytes_injective}
use cosmos_nixpool.Keeper.Nullifiers.{
  is_nullifier_spent, mark_nullifier_spent, is_nullifier_spent-mark,
}
use cosmos_nixpool.Prelude.{All, ◌<◌}
use cosmos_nixpool.Field.{to_bytes}
use cosmos_nixpool.Field.Canonical.{to_bytes-IsBytes}
use cosmos_nixpool.Types.Errors.{ok}
use cosmos_nixpool.Keeper.Verify.{parse_public_inputs}
use cosmos_nixpool.Keeper.Verify.Parse.{encode_inputs, parse_public_inputs_iff}
use cosmos_nixpool.Examples.Toy.{toy, toy-IsLawful}

key_bytes_injective_example : Key.commitment 3 4 ≡ Key.commitment 3 4
key_bytes_injective_example =
    key_bytes_injective (Key.commitment 3 4) (Key.commitment 3 4) (omega arith, omega arith)
      (omega arith, omega arith) refl

is_nullifier_spent-mark_example :
    is_nullifier_spent toy (mark_nullifier_spent toy (5 ∷ []) []) (106 ∷ []) ≡ (
      if bytes_equal (canonical_field_bytes toy (5 ∷ [])) (canonical_field_bytes toy (106 ∷ []))
      then true
      else is_nullifier_spent toy [] (106 ∷ []))
is_nullifier_spent-mark_example = is_nullifier_spent-mark toy (5 ∷ []) (106 ∷ []) []

parse_public_inputs_iff_example :
    (parse_public_inputs toy (to_bytes 5) ≡ ok (5 ∷ []))
    ↔ ((encode_inputs (5 ∷ []) ≡ to_bytes 5) × All (λ x. x < 101) (5 ∷ []))
parse_public_inputs_iff_example =
    parse_public_inputs_iff toy toy-IsLawful (to_bytes 5) (5 ∷ []) (to_bytes-IsBytes 5)
