-- ===== src/Server/Authority.antt =====
-- keeper/msg_server.go: only the authority changes the parameters and the verification keys.
use cosmos_nixpool.Prelude.{
  ◌≡◌, ap, ◌∙◌, true, not, some, Bytes, bytes_equal, bytes_equal→eq, subst, arith,
}
use cosmos_nixpool.External.{External, IsLawful}
use cosmos_nixpool.Types.Errors.{
  Result, ok, unauthorized, invalid_address, nil_params, invalid_circuit_name,
}
use cosmos_nixpool.Types.Params.{Params, IsValidParams, validate, validate-IsValidParams}
use cosmos_nixpool.Types.Msgs.{MsgUpdateParams, MsgSetVerificationKey}
use cosmos_nixpool.Store.{get-set_self}
use cosmos_nixpool.Types.Keys.{Key}
use cosmos_nixpool.Keeper.Action.{
  modify, raise_if, bind-run, guard-eq-ok, lift-eq-ok, raise_if-eq-ok,
}
use cosmos_nixpool.Keeper.Params.{
  get_params, get_params-set_params, set_verification_key, get_verification_key_from_state,
}
use cosmos_nixpool.Keeper.Verify.{is_valid_circuit_name, normalize_vk_data}
use cosmos_nixpool.Server.State.{State, on_store}
use cosmos_nixpool.Server.Handlers.{
  or_err, or_err-eq-ok, check_authority, update_params, set_verification_key_msg,
}

module _ (ext : External) (keeper_authority : Bytes) where
  check_authority-eq-ok :
      (authority : Bytes) (s s' : State) (u : Unit {0})
      → check_authority ext keeper_authority authority s ≡ (ok u, s')
      → (ext.string_to_bytes authority ≡ some keeper_authority) × (s ≡ s')
  unfolding check_authority
  check_authority-eq-ok authority s s' u h =
      let (address, parsed, h1) =
        lift-eq-ok (or_err invalid_address (ext.string_to_bytes authority))
          (λ a. raise_if (not (bytes_equal a keeper_authority)) unauthorized) s s' u h in
      let (same, kept) =
        raise_if-eq-ok (not (bytes_equal address keeper_authority)) unauthorized s s' u h1 in
      (
        or_err-eq-ok invalid_address (ext.string_to_bytes authority) address parsed
            ∙ ap some (bytes_equal→eq address keeper_authority (ground arith)),
        kept,
      )

  -- An UpdateParams that succeeds comes from the authority, carries parameters within the bounds of
  -- Validate, and stores exactly those: they are what is read next. No coin moves.
  pub update_params-stores :
      (law : IsLawful ext) (msg : MsgUpdateParams) (s s' : State) (u : Unit {0})
      → update_params ext keeper_authority msg s ≡ (ok u, s')
      → (ext.string_to_bytes msg.authority ≡ some keeper_authority)
        × (p : Params) × (msg.params ≡ some p)
        × IsValidParams p
        × (get_params ext s'.kv ≡ ok p)
        × (s.transfers ≡ s'.transfers)
  unfolding update_params on_store modify
  update_params-stores law msg s s' u h =
      let (_, t, checked, h1) =
        bind-run (check_authority ext keeper_authority msg.authority) _ s s' u h in
      let (from, kept) = check_authority-eq-ok msg.authority s t _ checked in
      let (p, given, h2) = lift-eq-ok (or_err nil_params msg.params) _ t s' u h1 in
      let (_, valid, h3) = lift-eq-ok (validate p) _ t s' u h2 in
      (
        from,
        p,
        or_err-eq-ok nil_params msg.params p given,
        validate-IsValidParams p valid,
        subst (λ (x : State). get_params ext x.kv ≡ ok p)
            (ap (λ (x : Result (Unit {0}) × State). x.1) h3) (get_params-set_params ext law p t.kv),
        ap (λ (x : State). x.transfers) kept
            ∙ ap (λ (x : Result (Unit {0}) × State). x.1.transfers) h3,
      )

  -- A SetVerificationKey that succeeds comes from the authority, names one of the circuits, and
  -- stores the normalised key under that name.
  pub set_verification_key_msg-stores :
      (msg : MsgSetVerificationKey) (s s' : State) (u : Unit {0})
      → set_verification_key_msg ext keeper_authority msg s ≡ (ok u, s')
      → (ext.string_to_bytes msg.authority ≡ some keeper_authority)
        × (is_valid_circuit_name msg.circuit_name ≡ true)
        × (vk : Bytes) × (normalize_vk_data ext msg.vk_data ≡ ok vk)
        × (get_verification_key_from_state s'.kv msg.circuit_name ≡ some vk)
        × (s.transfers ≡ s'.transfers)
  unfolding set_verification_key_msg on_store modify set_verification_key
      get_verification_key_from_state
  set_verification_key_msg-stores msg s s' u h =
      let (_, t, checked, h1) =
        bind-run (check_authority ext keeper_authority msg.authority) _ s s' u h in
      let (from, kept) = check_authority-eq-ok msg.authority s t _ checked in
      let (known, h2) =
        guard-eq-ok (not (is_valid_circuit_name msg.circuit_name)) invalid_circuit_name _ t s' u
          h1 in
      let (vk, normal, h3) = lift-eq-ok (normalize_vk_data ext msg.vk_data) _ t s' u h2 in
      (
        from,
        ground arith,
        vk,
        normal,
        subst (λ (x : State). get_verification_key_from_state x.kv msg.circuit_name ≡ some vk)
            (ap (λ (x : Result (Unit {0}) × State). x.1) h3)
            (get-set_self t.kv (Key.vk msg.circuit_name) vk),
        ap (λ (x : State). x.transfers) kept
            ∙ ap (λ (x : Result (Unit {0}) × State). x.1.transfers) h3,
      )
