-- ===== src/Server/Payments.antt =====
-- keeper/msg_server.go: what a Transact that succeeds has proved and paid.
use cosmos_nixpool.Prelude.{
  ℕ, arith, ◌≡◌, refl, ap, ap₂, ◌∙◌, subst, Bool, true, false, Option, some, none, List, [], ◌∷◌,
  Bytes, is_empty, if◌then◌else◌, ℤ, is_positive,
}
use cosmos_nixpool.External.{External, Coin, Transfer, module_to_account}
use cosmos_nixpool.Types.Errors.{
  Error, Result, ok, invalid_withdraw, invalid_denom, bank_refused, invalid_address,
}
use cosmos_nixpool.Types.Msgs.{MsgTransact, is_set_amount}
use cosmos_nixpool.Store.{Store}
use cosmos_nixpool.Keeper.Action.{
  Action, pure, lift, raise_if, ◌>>=◌, ◌>>◌, bind-run, guard-eq-ok, lift-eq-ok,
}
use cosmos_nixpool.Keeper.Action.Preserves.{Preserves, Preserves-after, preserving}
use cosmos_nixpool.Server.State.{
  Event, State, Handler, on_store, emit, consume_gas, bank_send, new_coin, check_denom,
  verify_proof,
}
use cosmos_nixpool.Server.State.Success.{check_denom-eq-ok, bank_send-eq-ok, new_coin-eq-ok}
use cosmos_nixpool.Server.DoubleSpend.{transact-rounds}
use cosmos_nixpool.Server.Handlers.{
  TransactResponse, or_err, or_err-eq-ok, positive_or_err, spend_nullifier, spend_input,
  check_transact_proof, insert_output, pay_withdrawal, pay_relayer, transact,
}

-- Actions that send nothing.
module _ (ts : List Transfer) where
  abbrev Sent : State → Type 0
  Sent s = s.transfers ≡ ts

  on_store-Sent : {A : Type 0} (m : Action Store A) → Preserves Sent (on_store m)
  unfolding on_store
  on_store-Sent m = record { through = λ s h. h }

  emit-Sent : (e : Event) → Preserves Sent (emit e)
  unfolding emit
  emit-Sent e = record { through = λ s h. h }

  consume_gas-Sent : (amount : ℕ) → Preserves Sent (consume_gas amount)
  unfolding consume_gas
  consume_gas-Sent amount = record { through = λ s h. h }

  module _ (ext : External) (msg : MsgTransact) where
    verify_proof-Sent :
        (name proof : Bytes) (inputs : List ℕ) → Preserves Sent (verify_proof ext name proof inputs)
    unfolding verify_proof
    verify_proof-Sent name proof inputs = search (preserving, consume_gas-Sent)

    spend_nullifier-Sent : (a root : Bytes) → Preserves Sent (spend_nullifier ext a root)
    unfolding spend_nullifier
    spend_nullifier-Sent a root = search (preserving, on_store-Sent, emit-Sent) depth 10

    spend_input-Sent : (i : ℕ) → Preserves Sent (spend_input ext msg i)
    unfolding spend_input
    spend_input-Sent i = search (preserving, spend_nullifier-Sent) depth 10

    check_transact_proof-Sent : Preserves Sent (check_transact_proof ext msg)
    unfolding check_transact_proof
    check_transact_proof-Sent = search (preserving, verify_proof-Sent) depth 8

    insert_output-Sent : (i : ℕ) (r : TransactResponse) → Preserves Sent (insert_output ext msg i r)
    unfolding insert_output
    insert_output-Sent i r = search (preserving, on_store-Sent, emit-Sent) depth 10

-- What an optional payment out of the module's account does to the transfers: none where the amount
-- is not set, and otherwise one, of the positive amount and to the account that the strings name.
pub data Payout (ext : External) (amount_string address denom : Bytes) (ts ts' : List Transfer)
    : Type 0 where
  nothing :
      is_set_amount amount_string ≡ false → ts ≡ ts' → Payout ext amount_string address denom ts ts'
  paid :
      (amount : ℤ) (account : Bytes)
      → is_set_amount amount_string ≡ true
      → ext.new_int_from_string amount_string ≡ some amount
      → is_positive amount ≡ true
      → ext.acc_address_from_bech32 address ≡ some account
      → module_to_account account (record { denom = denom; amount = amount }) ∷ ts ≡ ts'
      → Payout ext amount_string address denom ts ts'

module _ (ext : External) where
  positive_or_err-eq-ok :
      (o : Option ℤ) (v : ℤ) → positive_or_err ext o ≡ ok v → (o ≡ some v) × (is_positive v ≡ true)
  positive_or_err-eq-ok none v h = cc
  positive_or_err-eq-ok (some w) v h = ground arith

  -- The payment of an amount that is set, with the error for a bad address and the event.
  abbrev payment : Error → Event → Bytes → Bytes → Bytes → Handler (Unit {0})
  payment refusal event amount_string address denom = do
    amount ← lift (positive_or_err ext (ext.new_int_from_string amount_string))
    raise_if (is_empty denom) invalid_denom
    check_denom ext denom
    account ← lift (or_err refusal (ext.acc_address_from_bech32 address))
    coin ← lift (new_coin ext denom amount)
    bank_send ext bank_refused (module_to_account account coin)
    emit event

  payment-eq-ok :
      (refusal : Error) (event : Event) (amount_string address denom : Bytes) (s s' : State)
      (u : Unit {0})
      → is_set_amount amount_string ≡ true
      → payment refusal event amount_string address denom s ≡ (ok u, s')
      → Payout ext amount_string address denom s.transfers s'.transfers
  unfolding emit
  payment-eq-ok refusal event amount_string address denom s s' u is_set h =
      let (amount, parsed, h1) =
        lift-eq-ok (positive_or_err ext (ext.new_int_from_string amount_string)) _ s s' u h in
      let (is_amount, positive) =
        positive_or_err-eq-ok (ext.new_int_from_string amount_string) amount parsed in
      let (_, h2) = guard-eq-ok (is_empty denom) invalid_denom _ s s' u h1 in
      let (_, s1, checked, h3) = bind-run (check_denom ext denom) _ s s' u h2 in
      let (_, _, _, kept) = check_denom-eq-ok ext denom s s1 _ checked in
      let (account, to, h4) =
        lift-eq-ok (or_err refusal (ext.acc_address_from_bech32 address)) _ s1 s' u h3 in
      let (coin, made, h5) = lift-eq-ok (new_coin ext denom amount) _ s1 s' u h4 in
      let (_, _, same_coin) = new_coin-eq-ok ext denom amount coin made in
      let (_, s2, sent, h6) =
        bind-run (bank_send ext bank_refused (module_to_account account coin)) _ s1 s' u h5 in
      let (_, after_send) =
        bank_send-eq-ok ext bank_refused (module_to_account account coin) s1 s2 _ sent in
      Payout.paid amount account is_set is_amount positive
        (or_err-eq-ok refusal (ext.acc_address_from_bech32 address) account to)
        (ap₂ (λ (c : Coin) (x : State). module_to_account account c ∷ x.transfers) same_coin kept
          ∙ ap (λ (x : State). x.transfers) after_send
          ∙ ap (λ (x : Result (Unit {0}) × State). x.1.transfers) h6)

  -- An optional payment, behind the test of its amount.
  optional-eq-ok :
      (set : Bool) (refusal : Error) (event : Event) (amount_string address denom : Bytes)
      (s s' : State) (u : Unit {0})
      → is_set_amount amount_string ≡ set
      → (if set then payment refusal event amount_string address denom else pure tt) s ≡ (ok u, s')
      → Payout ext amount_string address denom s.transfers s'.transfers
  unfolding pure
  optional-eq-ok true refusal event amount_string address denom s s' u is_set h =
      payment-eq-ok refusal event amount_string address denom s s' u is_set h
  optional-eq-ok false refusal event amount_string address denom s s' u is_set h =
      Payout.nothing is_set (ap (λ (x : Result (Unit {0}) × State). x.1.transfers) h)

  pay_withdrawal-Payout :
      (msg : MsgTransact) (s s' : State) (u : Unit {0})
      → pay_withdrawal ext msg s ≡ (ok u, s')
      → Payout ext msg.withdraw_amount msg.withdraw_address msg.denom s.transfers s'.transfers
  unfolding pay_withdrawal
  pay_withdrawal-Payout msg s s' u h =
      optional-eq-ok (is_set_amount msg.withdraw_amount) invalid_withdraw
        (Event.withdrawn msg.withdraw_amount msg.withdraw_address) msg.withdraw_amount
        msg.withdraw_address msg.denom s s' u refl h

  pay_relayer-Payout :
      (msg : MsgTransact) (s s' : State) (u : Unit {0})
      → pay_relayer ext msg s ≡ (ok u, s')
      → Payout ext msg.relayer_fee msg.sender msg.denom s.transfers s'.transfers
  unfolding pay_relayer
  pay_relayer-Payout msg s s' u h =
      optional-eq-ok (is_set_amount msg.relayer_fee) invalid_address (Event.relayed msg.relayer_fee)
        msg.relayer_fee msg.sender msg.denom s s' u refl h

  pay-Payouts :
      (msg : MsgTransact) (second : TransactResponse) (s s' : State) (r : TransactResponse)
      → (pay_withdrawal ext msg >> (pay_relayer ext msg >> pure second)) s ≡ (ok r, s')
      → (between : List Transfer) × Payout ext msg.withdraw_amount msg.withdraw_address msg.denom
          s.transfers between
        × Payout ext msg.relayer_fee msg.sender msg.denom between s'.transfers
  unfolding pure
  pay-Payouts msg second s s' r h =
      let (_, s1, withdrawn, h1) = bind-run (pay_withdrawal ext msg) _ s s' r h in
      let (_, s2, relayed, h2) = bind-run (pay_relayer ext msg) _ s1 s' r h1 in
      (
        s1.transfers,
        pay_withdrawal-Payout msg s s1 _ withdrawn,
        subst (λ ts. Payout ext msg.relayer_fee msg.sender msg.denom s1.transfers ts)
            (ap (λ (x : Result TransactResponse × State). x.1.transfers) h2)
            (pay_relayer-Payout msg s1 s2 _ relayed),
      )

  -- A Transact that succeeds moves coins only by its withdrawal and its relayer fee, in that order:
  -- each is either not set and moves nothing, or one transfer out of the module's account, of
  -- exactly the declared amount, which is positive, and denomination, to the withdrawal address or to the sender.
  pub transact-Payouts :
      (msg : MsgTransact) (s s' : State) (r : TransactResponse)
      → transact ext msg s ≡ (ok r, s')
      → (between : List Transfer) × Payout ext msg.withdraw_amount msg.withdraw_address msg.denom
          s.transfers between
        × Payout ext msg.relayer_fee msg.sender msg.denom between s'.transfers
  transact-Payouts msg s s' r h =
      let (s1, s2, u, one, two, rest) = transact-rounds ext msg s s' r h in
      let (_, s3, proved, h3) = bind-run (check_transact_proof ext msg) _ s2 s' r rest in
      let (first, s4, out0, h4) =
        bind-run (insert_output ext msg 0 (record { leaf_indices = []; merkle_root = [] })) _ s3 s'
          r h3 in
      let (second, s5, out1, h5) = bind-run (insert_output ext msg 1 first) _ s4 s' r h4 in
      let same1 =
        Preserves-after (spend_input ext msg 0) s s1 _ (spend_input-Sent s.transfers ext msg 0) one
          refl in
      let same2 =
        Preserves-after (spend_input ext msg 1) s1 s2 _ (spend_input-Sent s.transfers ext msg 1) two
          same1 in
      let same3 =
        Preserves-after (check_transact_proof ext msg) s2 s3 _
          (check_transact_proof-Sent s.transfers ext msg) proved same2 in
      let same4 =
        Preserves-after (insert_output ext msg 0 (record { leaf_indices = []; merkle_root = [] }))
          s3 s4 _ (insert_output-Sent s.transfers ext msg 0 _) out0 same3 in
      let same5 =
        Preserves-after (insert_output ext msg 1 first) s4 s5 _
          (insert_output-Sent s.transfers ext msg 1 first) out1 same4 in
      subst
        (λ ts.
          (between : List Transfer) × Payout ext msg.withdraw_amount msg.withdraw_address msg.denom
            ts between
          × Payout ext msg.relayer_fee msg.sender msg.denom between s'.transfers)
        same5 (pay-Payouts msg second s5 s' r h5)
