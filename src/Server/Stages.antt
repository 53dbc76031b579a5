-- ===== src/Server/Stages.antt =====
-- keeper/msg_server.go: the stages of Deposit, each with what its success tells.
use cosmos_nixpool.Prelude.{
  ℕ, ◌≡◌, ap, ap₂, ◌∙◌, true, false, ◌&&◌, not, some, ◌∷◌, Bytes, codes, List, is_empty, ℤ,
  is_negative,
}
use cosmos_nixpool.External.{External, Coin, account_to_module}
use cosmos_nixpool.Types.Errors.{
  Result, ok, insufficient_funds, invalid_address, invalid_public_inputs,
}
use cosmos_nixpool.Types.Params.{Params}
use cosmos_nixpool.Types.Msgs.{MsgDeposit}
use cosmos_nixpool.Store.{Store}
use cosmos_nixpool.Keeper.Action.{
  pure, lift, raise_if, ◌>>=◌, ◌>>◌, bind-run, guard-eq-ok, lift-eq-ok,
}
use cosmos_nixpool.Keeper.Params.{get_params, get_verification_key_from_state}
use cosmos_nixpool.Keeper.Forest.{insert_note}
use cosmos_nixpool.Keeper.Verify.{parse_public_inputs, verify_deposit_public_inputs}
use cosmos_nixpool.Server.State.{
  Event, State, Handler, on_store, emit, is_listed, bank_send, new_coin, params, enforce_auditor,
  check_denom, stored_key, verify_proof, keep_auditor_data,
}
use cosmos_nixpool.Server.State.Success.{
  on_store-eq-ok, params-eq-ok, enforce_auditor-eq-ok, check_denom-eq-ok, verify_proof-eq-ok,
  bank_send-eq-ok, new_coin-eq-ok, keep_auditor_data-eq-ok, with_auditor_data,
}
use cosmos_nixpool.Server.Handlers.{LeafResponse, or_err, or_err-eq-ok, deposit}

ok-injective : {A : Type 0} (a b : A) → ok a ≡ ok b → a ≡ b
ok-injective a b h = cc

pub end-eq-ok :
    {A : Type 0} (e : Event) (a : A) (s s' : State) (r : A)
    → (emit e >> pure a) s ≡ (ok r, s')
    → (a ≡ r) × (s.transfers ≡ s'.transfers) × (s.kv ≡ s'.kv)
unfolding emit pure ◌>>=◌
end-eq-ok e a s s' r h =
    let answer = ap (λ (x : Result _ × State). x.0) h in
    (
      ok-injective a r answer,
      ap (λ (x : Result _ × State). x.1.transfers) h,
      ap (λ (x : Result _ × State). x.1.kv) h,
    )

module _ (ext : External) where
  -- The end of Deposit: the insertion, the auditor's data, the event.
  abbrev pub insert_deposit : MsgDeposit → Handler LeafResponse
  insert_deposit msg = do
    leaf ← on_store (insert_note ext msg.note_commitment)
    keep_auditor_data ext msg.auditor_encrypted_data
    emit (Event.deposited msg.note_commitment leaf.0 leaf.1)
    pure (record { leaf_index = leaf.1; merkle_root = leaf.0 })

  pub insert_deposit-eq-ok :
      (msg : MsgDeposit) (s s' : State) (r : LeafResponse)
      → insert_deposit msg s ≡ (ok r, s')
      → (tree_id : ℕ) × (grown : Store) × (insert_note ext msg.note_commitment s.kv
          ≡ (ok (r.merkle_root, r.leaf_index, tree_id), grown))
        × (with_auditor_data ext s.tx_bytes msg.auditor_encrypted_data grown ≡ s'.kv)
        × (s.transfers ≡ s'.transfers)
  insert_deposit-eq-ok msg s s' r h =
      let payload = msg.auditor_encrypted_data in
      let (leaf, t, stored, h1) =
        bind-run (on_store (insert_note ext msg.note_commitment)) _ s s' r h in
      let (inserted, same, tx) =
        on_store-eq-ok (insert_note ext msg.note_commitment) s t leaf stored in
      let (_, u, noted, h2) = bind-run (keep_auditor_data ext payload) _ t s' r h1 in
      let kept = keep_auditor_data-eq-ok ext payload t u _ noted in
      let (answer, same2, kv) =
        end-eq-ok (Event.deposited msg.note_commitment leaf.0 leaf.1)
          (record { leaf_index = leaf.1; merkle_root = leaf.0 }) u s' r h2 in
      (
        leaf.2,
        t.kv,
        inserted
            ∙ ap (λ (x : LeafResponse). (ok (x.merkle_root, x.leaf_index, leaf.2), t.kv)) answer,
        ap (λ (b : Bytes). with_auditor_data ext b payload t.kv) tx
            ∙ ap (λ (x : State). x.kv) kept
            ∙ kv,
        same ∙ ap (λ (x : State). x.transfers) kept ∙ same2,
      )

  pub same_params :
      (kv kv' : Store) (p q : Params)
      → get_params ext kv ≡ ok p
      → get_params ext kv' ≡ ok q
      → kv ≡ kv'
      → p ≡ q
  same_params kv kv' p q at_p at_q same = cc

  -- Deposit past the check of its proof.
  abbrev pub settle_deposit : MsgDeposit → ℤ → Handler LeafResponse
  settle_deposit msg amount = do
    check_denom ext msg.denom
    sender ← lift (or_err invalid_address (ext.acc_address_from_bech32 msg.sender))
    coin ← lift (new_coin ext msg.denom amount)
    bank_send ext insufficient_funds (account_to_module sender coin)
    insert_deposit msg

  pub pay_deposit-eq-ok :
      (msg : MsgDeposit) (amount : ℤ) (s s' : State) (r : LeafResponse)
      → settle_deposit msg amount s ≡ (ok r, s')
      → (sender : Bytes) × (ext.acc_address_from_bech32 msg.sender ≡ some sender)
        × (is_negative amount ≡ false)
        × (t : State) × (insert_deposit msg t ≡ (ok r, s'))
        × (s.kv ≡ t.kv)
        × (account_to_module sender (record { denom = msg.denom; amount = amount }) ∷ s.transfers
            ≡ t.transfers)
        × (s.tx_bytes ≡ t.tx_bytes)
        × (p : Params) × (get_params ext s.kv ≡ ok p)
        × (is_listed msg.denom p.supported_denoms ≡ true)
  pay_deposit-eq-ok msg amount s s' r h =
      let (_, s1, checked, h1) = bind-run (check_denom ext msg.denom) _ s s' r h in
      let (p, at_p, listed, kept) = check_denom-eq-ok ext msg.denom s s1 _ checked in
      let (sender, from, h2) =
        lift-eq-ok (or_err invalid_address (ext.acc_address_from_bech32 msg.sender)) _ s1 s' r h1 in
      let (coin, made, h3) = lift-eq-ok (new_coin ext msg.denom amount) _ s1 s' r h2 in
      let (not_negative, _, same_coin) = new_coin-eq-ok ext msg.denom amount coin made in
      let (_, t, sent, h4) =
        bind-run (bank_send ext insufficient_funds (account_to_module sender coin)) _ s1 s' r h3 in
      let (_, paid) =
        bank_send-eq-ok ext insufficient_funds (account_to_module sender coin) s1 t _ sent in
      (
        sender,
        or_err-eq-ok invalid_address (ext.acc_address_from_bech32 msg.sender) sender from,
        not_negative,
        t,
        h4,
        ap (λ (x : State). x.kv) kept ∙ ap (λ (x : State). x.kv) paid,
        ap₂ (λ (x : State) (c : Coin). account_to_module sender c ∷ x.transfers) kept same_coin
            ∙ ap (λ (x : State). x.transfers) paid,
        ap (λ (x : State). x.tx_bytes) kept ∙ ap (λ (x : State). x.tx_bytes) paid,
        p,
        at_p,
        listed,
      )

  -- Deposit from the check of its public inputs on.
  abbrev pub prove_deposit : MsgDeposit → List ℕ → ℤ → Handler LeafResponse
  prove_deposit msg inputs amount = do
    p ← params ext
    raise_if (is_empty p.chain_binding) invalid_public_inputs
    lift (verify_deposit_public_inputs ext inputs msg.note_commitment amount msg.denom p)
    verify_proof ext (codes "deposit") msg.proof inputs
    settle_deposit msg amount

  pub prove_deposit-eq-ok :
      (msg : MsgDeposit) (inputs : List ℕ) (amount : ℤ) (s s' : State) (r : LeafResponse)
      → prove_deposit msg inputs amount s ≡ (ok r, s')
      → (p : Params) × (get_params ext s.kv ≡ ok p)
        × (is_empty p.chain_binding ≡ false)
        × (u : Unit {0}) × (verify_deposit_public_inputs ext inputs msg.note_commitment amount
              msg.denom p
            ≡ ok u)
        × (vk : Bytes) × (stored_key ext (get_verification_key_from_state s.kv (codes "deposit"))
            ≡ ok vk)
        × (ext.honk_verify vk msg.proof inputs ≡ some true)
        × (t : State) × (settle_deposit msg amount t ≡ (ok r, s'))
        × (s.kv ≡ t.kv)
        × (s.transfers ≡ t.transfers)
        × (s.tx_bytes ≡ t.tx_bytes)
  prove_deposit-eq-ok msg inputs amount s s' r h =
      let (p, at_p, h1) = params-eq-ok ext _ s s' r h in
      let (binding, h2) =
        guard-eq-ok (is_empty p.chain_binding) invalid_public_inputs _ s s' r h1 in
      let (u, bound, h3) =
        lift-eq-ok (verify_deposit_public_inputs ext inputs msg.note_commitment amount msg.denom p)
          _ s s' r h2 in
      let (_, t, verified, h4) =
        bind-run (verify_proof ext (codes "deposit") msg.proof inputs) _ s s' r h3 in
      let (vk, key, accepted, _, after_proof) =
        verify_proof-eq-ok ext (codes "deposit") msg.proof inputs s t _ verified in
      (
        p,
        at_p,
        binding,
        u,
        bound,
        vk,
        key,
        accepted,
        t,
        h4,
        ap (λ (x : State). x.kv) after_proof,
        ap (λ (x : State). x.transfers) after_proof,
        ap (λ (x : State). x.tx_bytes) after_proof,
      )

  pub deposit-start :
      (msg : MsgDeposit) (s s' : State) (r : LeafResponse)
      → deposit ext msg s ≡ (ok r, s')
      → (p : Params) × (get_params ext s.kv ≡ ok p)
        × ((not (is_empty p.auditor_pub_key) && not (not (is_empty msg.auditor_encrypted_data)))
            ≡ false)
        × (inputs : List ℕ) × (parse_public_inputs ext msg.public_inputs ≡ ok inputs)
        × (amount : ℤ) × (ext.new_int_from_string msg.amount ≡ some amount)
        × (t : State) × (prove_deposit msg inputs amount t ≡ (ok r, s'))
        × (s ≡ t)
  unfolding deposit
  deposit-start msg s s' r h =
      let (_, t, enforced, h1) =
        bind-run (enforce_auditor ext (not (is_empty msg.auditor_encrypted_data))) _ s s' r h in
      let (p, at_p, present, kept) =
        enforce_auditor-eq-ok ext (not (is_empty msg.auditor_encrypted_data)) s t _ enforced in
      let (inputs, parsed, h2) =
        lift-eq-ok (parse_public_inputs ext msg.public_inputs) _ t s' r h1 in
      let (amount, parsed_amount, h3) =
        lift-eq-ok (or_err insufficient_funds (ext.new_int_from_string msg.amount)) _ t s' r h2 in
      (
        p,
        at_p,
        present,
        inputs,
        parsed,
        amount,
        or_err-eq-ok insufficient_funds (ext.new_int_from_string msg.amount) amount parsed_amount,
        t,
        h3,
        kept,
      )
