-- ===== src/Keeper/Verify/Amounts.antt =====
-- The amounts of a Transact: ValidateBasic keeps them in the range where the field element that the
-- proof binds is the amount that is paid.
use cosmos_nixpool.Prelude.{
  ℕ, ◌≤◌, ◌<◌, ◌^◌, ◌≡◌, refl, ap, ◌∙◌, List, false, not, ◌&&◌, Option, some, none, Bytes, length,
  ◌==◌, is_empty, ℤ, pos, negsuc, arith, ◌⊎◌, inl, inr,
}
use native.Mathlib.Nat.{mod-eq_of_lt}
use cosmos_nixpool.External.{External}
use cosmos_nixpool.Field.{set_big_int}
use cosmos_nixpool.Types.Errors.{
  ok, fail_if-eq-ok, then-eq-ok, invalid_address, invalid_nullifier, invalid_merkle_root,
  invalid_commitment, invalid_withdraw, invalid_denom,
}
use cosmos_nixpool.Types.Msgs.{
  MsgTransact, is_set_amount, bad_address, bad_field_bytes, out_of_range, bad_amount, any_bad_field,
  any_bad_note, validate_withdrawal, validate_transact,
}
use cosmos_nixpool.Types.Params.{Params}
use cosmos_nixpool.Keeper.Verify.{input, assemble_transact_public_inputs}
use cosmos_nixpool.Keeper.Verify.Assembled.{
  BindsAmount, assemble_transact_public_inputs-BindsTransact,
}

module _ (ext : External) where
  -- The public input of an optional amount is zero where it is not set, and otherwise exactly the
  -- number, which is below 2^64.
  abbrev pub IsExactAmount : Bytes → ℕ → Type 0
  IsExactAmount s x =
      ((is_set_amount s ≡ false) × (x ≡ 0))
      ⊎ ((m : ℕ) × (ext.new_int_from_string s ≡ some (pos m)) × (m < 2 ^ 64) × (x ≡ m))

  in_range-exact :
      (o : Option ℤ) (v : ℤ) (x : ℕ)
      → 2 ^ 64 ≤ ext.modulus
      → out_of_range ext o ≡ false
      → o ≡ some v
      → x ≡ set_big_int ext v
      → (m : ℕ) × (o ≡ some (pos m)) × (m < 2 ^ 64) × (x ≡ m)
  unfolding set_big_int
  in_range-exact none v x wide h parsed value = cc
  in_range-exact (some (negsuc n)) v x wide h parsed value = cc
  in_range-exact (some (pos n)) v x wide h parsed value =
      let below : n < 2 ^ 64 = ground arith in
      let same : v ≡ pos n = cc in
      (
        n,
        refl,
        below,
        value ∙ ap (λ (w : ℤ). set_big_int ext w) same ∙ mod-eq_of_lt (omega (arith, wide, below)),
      )

  checked-IsExactAmount :
      (s : Bytes) (x : ℕ)
      → 2 ^ 64 ≤ ext.modulus
      → (is_set_amount s && bad_amount ext s) ≡ false
      → BindsAmount ext s x
      → IsExactAmount s x
  unfolding bad_amount
  checked-IsExactAmount s x wide h bound = elim bound [
    | inl unset ↦ inl unset
    | inr (set, v, parsed, value) ↦
        inr (in_range-exact (ext.new_int_from_string s) v x wide (rw set at h) parsed value)
  ]

  -- Where the field is wider than 64 bits, a Transact that passes ValidateBasic has exact amounts in
  -- the public inputs that AssembleTransactPublicInputs gives for it: the inputs of the withdrawal
  -- and of the relayer fee are each zero for an amount that is not set, or the declared amount itself,
  -- a number below 2^64 that the field does not reduce.
  pub validate_transact-IsExactAmount :
      (msg : MsgTransact) (p : Params) (pool : Bytes) (inputs : List ℕ)
      → 2 ^ 64 ≤ ext.modulus
      → validate_transact ext msg ≡ ok tt
      → assemble_transact_public_inputs ext msg p pool ≡ ok inputs
      → IsExactAmount msg.withdraw_amount (input inputs 6)
        × IsExactAmount msg.relayer_fee (input inputs 11)
  unfolding validate_transact validate_withdrawal
  validate_transact-IsExactAmount msg p pool inputs wide h assembled =
      let bound = assemble_transact_public_inputs-BindsTransact ext msg p pool inputs assembled in
      let (_, h0) = fail_if-eq-ok (bad_address ext msg.sender) invalid_address _ tt h in
      let (_, h1) = fail_if-eq-ok (not (length msg.nullifiers == 2)) invalid_nullifier _ tt h0 in
      let (_, h2) = fail_if-eq-ok (any_bad_field ext msg.nullifiers) invalid_nullifier _ tt h1 in
      let (_, h3) =
        fail_if-eq-ok (not (length msg.merkle_roots == 2)) invalid_merkle_root _ tt h2 in
      let (_, h4) =
        fail_if-eq-ok (any_bad_field ext msg.merkle_roots) invalid_merkle_root _ tt h3 in
      let (_, h5) = fail_if-eq-ok (not (length msg.outputs == 2)) invalid_commitment _ tt h4 in
      let (_, h6) = fail_if-eq-ok (any_bad_note ext msg.outputs) invalid_commitment _ tt h5 in
      let (_, h7) =
        fail_if-eq-ok (bad_field_bytes ext msg.registration_root) invalid_merkle_root _ tt h6 in
      let (withdrawal, h8) = then-eq-ok (validate_withdrawal ext msg) _ tt h7 in
      let (in_range, _) =
        fail_if-eq-ok (is_set_amount msg.withdraw_amount && bad_amount ext msg.withdraw_amount)
          invalid_withdraw _ tt withdrawal in
      let (_, h9) =
        fail_if-eq-ok (not (is_empty msg.denom) && not (ext.is_valid_denom msg.denom)) invalid_denom
          _ tt h8 in
      let (fee_in_range, _) =
        fail_if-eq-ok (is_set_amount msg.relayer_fee && bad_amount ext msg.relayer_fee)
          invalid_withdraw _ tt h9 in
      (
        checked-IsExactAmount msg.withdraw_amount (input inputs 6) wide in_range bound.withdrawal,
        checked-IsExactAmount msg.relayer_fee (input inputs 11) wide fee_in_range bound.relayer_fee,
      )
