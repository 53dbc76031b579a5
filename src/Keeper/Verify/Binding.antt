-- ===== src/Keeper/Verify/Binding.antt =====
-- VerifyRegisterPublicInputs and VerifyDepositPublicInputs: what accepted public inputs are bound to.
use cosmos_nixpool.Prelude.{
  ℕ, ◌≤◌, ◌≡◌, Bool, true, false, not, ◌||◌, List, Bytes, length, take, drop, ltb, ◌==◌,
  bytes_equal, bytes_equal→eq, is_empty, if◌then◌else◌, ℤ, arith, ◌⊎◌, inl, inr, Bool-cases,
}
use cosmos_nixpool.External.{External}
use cosmos_nixpool.Field.{set_bytes, set_big_int, to_bytes}
use cosmos_nixpool.Types.Errors.{
  Result, ok, ◌>>◌, fail_if, fail_if-eq-ok, last-eq-ok, invalid_public_inputs,
}
use cosmos_nixpool.Types.Params.{Params}
use cosmos_nixpool.Keeper.Verify.{
  input, register_pi_count, deposit_pi_count, denom_to_field_element, verify_auditor_public_inputs,
  verify_register_public_inputs, verify_deposit_public_inputs,
}

else-eq-ok :
    (b : Bool) (rest : Result (Unit {0})) (u : Unit {0})
    → b ≡ false
    → (if b then ok tt else rest) ≡ ok u
    → rest ≡ ok u
else-eq-ok true rest u differs h = cc
else-eq-ok false rest u differs h = h

module _ (ext : External) where
  -- The two inputs are the coordinates of the configured auditor key, if there is one.
  abbrev pub BindsAuditor : ℕ → ℕ → Bytes → Type 0
  BindsAuditor x y auditor_pub_key =
      (is_empty auditor_pub_key ≡ true)
      ⊎ ((64 ≤ length auditor_pub_key)
          × (x ≡ set_bytes ext (take 32 auditor_pub_key))
          × (y ≡ set_bytes ext (take 32 (drop 32 auditor_pub_key))))

  verify_auditor-coordinates :
      (x y : ℕ) (key : Bytes) (u : Unit {0})
      → verify_auditor_public_inputs ext x y key ≡ ok u
      → is_empty key ≡ false
      → (64 ≤ length key)
        × (x ≡ set_bytes ext (take 32 key))
        × (y ≡ set_bytes ext (take 32 (drop 32 key)))
  unfolding verify_auditor_public_inputs
  verify_auditor-coordinates x y key u h given =
      let short = ltb (length key) 64 in
      let other =
        not (x == set_bytes ext (take 32 key))
        || not (y == set_bytes ext (take 32 (drop 32 key))) in
      let (c0, h0) =
        fail_if-eq-ok short invalid_public_inputs (fail_if other invalid_public_inputs) u (
          else-eq-ok (is_empty key)
            (fail_if short invalid_public_inputs >> fail_if other invalid_public_inputs) u given
            h) in
      let c1 = last-eq-ok other invalid_public_inputs u h0 in
      (ground (arith, c0), ground (arith, c1), ground (arith, c1))

  verify_auditor-BindsAuditor :
      (x y : ℕ) (key : Bytes) (u : Unit {0})
      → verify_auditor_public_inputs ext x y key ≡ ok u
      → BindsAuditor x y key
  verify_auditor-BindsAuditor x y key u h = elim (Bool-cases (is_empty key)) [
    | inl unset ↦ inl unset
    | inr given ↦ inr (verify_auditor-coordinates x y key u h given)
  ]

  -- What the accepted public inputs of a deposit say.
  pub record BindsDeposit (inputs : List ℕ) (note_commitment : Bytes) (amount : ℤ) (denom : Bytes)
      (p : Params) : Type 0 where
    pub count : length inputs ≡ deposit_pi_count
    pub commitment : to_bytes (input inputs 0) ≡ note_commitment
    pub amount_input : input inputs 1 ≡ set_big_int ext amount
    pub denom_input : input inputs 2 ≡ denom_to_field_element ext denom
    pub auditor : BindsAuditor (input inputs 3) (input inputs 4) p.auditor_pub_key

  -- Public inputs that VerifyDepositPublicInputs accepts are as many as the circuit has, and are bound
  -- to the commitment, the amount, the denomination and the auditor's key, if one is configured.
  pub verify_deposit_public_inputs-BindsDeposit :
      (inputs : List ℕ) (note_commitment : Bytes) (amount : ℤ) (denom : Bytes) (p : Params)
      → verify_deposit_public_inputs ext inputs note_commitment amount denom p ≡ ok tt
      → BindsDeposit inputs note_commitment amount denom p
  unfolding verify_deposit_public_inputs
  verify_deposit_public_inputs-BindsDeposit inputs note_commitment amount denom p h =
      let (c0, h0) =
        fail_if-eq-ok (not (length inputs == deposit_pi_count)) invalid_public_inputs _ tt h in
      let (c1, h1) =
        fail_if-eq-ok (not (bytes_equal (to_bytes (input inputs 0)) note_commitment))
          invalid_public_inputs _ tt h0 in
      let (c2, h2) =
        fail_if-eq-ok (not (input inputs 1 == set_big_int ext amount)) invalid_public_inputs _ tt
          h1 in
      let (c3, h3) =
        fail_if-eq-ok (not (input inputs 2 == denom_to_field_element ext denom))
          invalid_public_inputs _ tt h2 in
      record {
        count = ground (arith, c0);
        commitment =
            bytes_equal→eq (to_bytes (input inputs 0)) note_commitment (ground (arith, c1));
        amount_input = ground (arith, c2);
        denom_input = ground (arith, c3);
        auditor =
            verify_auditor-BindsAuditor (input inputs 3) (input inputs 4) p.auditor_pub_key tt h3;
      }

  -- What the accepted public inputs of a registration say.
  pub record BindsRegister (inputs : List ℕ) (identity_commitment : Bytes) (p : Params)
      : Type 0 where
    pub count : length inputs ≡ register_pi_count
    pub commitment : to_bytes (input inputs 0) ≡ identity_commitment
    pub configured : is_empty p.chain_binding ≡ false
    pub chain : input inputs 1 ≡ set_bytes ext p.chain_binding
    pub auditor : BindsAuditor (input inputs 2) (input inputs 3) p.auditor_pub_key

  -- Public inputs that VerifyRegisterPublicInputs accepts are as many as the circuit has, and are bound
  -- to the commitment, the chain, which is configured, and the auditor's key, if one is configured.
  pub verify_register_public_inputs-BindsRegister :
      (inputs : List ℕ) (identity_commitment : Bytes) (p : Params)
      → verify_register_public_inputs ext inputs identity_commitment p ≡ ok tt
      → BindsRegister inputs identity_commitment p
  unfolding verify_register_public_inputs
  verify_register_public_inputs-BindsRegister inputs identity_commitment p h =
      let (c0, h0) =
        fail_if-eq-ok (not (length inputs == register_pi_count)) invalid_public_inputs _ tt h in
      let (c1, h1) =
        fail_if-eq-ok (not (bytes_equal (to_bytes (input inputs 0)) identity_commitment))
          invalid_public_inputs _ tt h0 in
      let (c2, h2) = fail_if-eq-ok (is_empty p.chain_binding) invalid_public_inputs _ tt h1 in
      let (c3, h3) =
        fail_if-eq-ok (not (input inputs 1 == set_bytes ext p.chain_binding)) invalid_public_inputs
          _ tt h2 in
      record {
        count = ground (arith, c0);
        commitment =
            bytes_equal→eq (to_bytes (input inputs 0)) identity_commitment (ground (arith, c1));
        configured = c2;
        chain = ground (arith, c3);
        auditor =
            verify_auditor-BindsAuditor (input inputs 2) (input inputs 3) p.auditor_pub_key tt h3;
      }
