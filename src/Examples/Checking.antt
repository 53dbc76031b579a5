-- ===== src/Examples/Checking.antt =====
-- A message that passes its stateless checks, over a field wider than 64 bits.
use cosmos_nixpool.Prelude.{ℕ, List, ◌+◌, ◌^◌, ◌≡◌, refl, [], ◌∷◌, codes, arith}
use cosmos_nixpool.External.{External}
use cosmos_nixpool.Field.{to_bytes, is_canonical}
use cosmos_nixpool.Types.Errors.{Result, ok, err}
use cosmos_nixpool.Types.Msgs.{
  MsgTransact, bad_field_bytes, any_bad_field, any_bad_note, bad_amount, validate_withdrawal,
  validate_transact,
}
use cosmos_nixpool.Keeper.Verify.Amounts.{IsExactAmount, validate_transact-IsExactAmount}
use cosmos_nixpool.Examples.Toy.{toy, toy_zero_hash, non_empty}
use cosmos_nixpool.Examples.Spending.{spending, sample_params}
use cosmos_nixpool.Keeper.Verify.{input, amount_element, assemble_transact_public_inputs}

abbrev wide : External
wide = record toy { modulus = 2 ^ 64 + 13 }

abbrev checked : MsgTransact
checked = record (spending (to_bytes 5)) {
  withdraw_amount = 7 ∷ [];
  withdraw_address = codes "bob";
  denom = codes "anix";
  relayer_fee = 2 ∷ [];
}

checked_run : validate_transact wide checked ≡ ok tt
unfolding validate_transact non_empty any_bad_field bad_field_bytes is_canonical any_bad_note
    bad_amount validate_withdrawal to_bytes toy_zero_hash
checked_run = refl

-- Its public inputs, computed.
abbrev assembled : Result (List ℕ)
assembled = assemble_transact_public_inputs wide checked sample_params (codes "nixpool")

inputs_of : Result (List ℕ) → List ℕ
inputs_of (ok inputs) = inputs
inputs_of (err e) = []

abbrev checked_inputs : List ℕ
unfolding inputs_of
checked_inputs = inputs_of assembled

assembled_run : assembled ≡ ok checked_inputs
unfolding assemble_transact_public_inputs amount_element inputs_of
assembled_run = refl

validate_transact-IsExactAmount_example :
    IsExactAmount wide (7 ∷ []) (input checked_inputs 6)
    × IsExactAmount wide (2 ∷ []) (input checked_inputs 11)
validate_transact-IsExactAmount_example =
    validate_transact-IsExactAmount wide checked sample_params (codes "nixpool") checked_inputs
      (omega arith) checked_run assembled_run
