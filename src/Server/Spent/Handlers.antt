-- ===== src/Server/Spent/Handlers.antt =====
-- keeper/msg_server.go: each handler keeps a nullifier's status, Transact that of the nullifiers that it
-- does not use.
use cosmos_nixpool.Prelude.{ℕ, ◌≡◌, Bool, true, false, Bytes}
use cosmos_nixpool.External.{External}
use cosmos_nixpool.Types.Msgs.{
  MsgRegister, MsgDeposit, MsgTransact, MsgUpdateParams, MsgSetVerificationKey,
}
use cosmos_nixpool.Keeper.Action.Preserves.{
  Preserves, Preserves-bind, Preserves-pure, Preserves-lift, Preserves-lift_eq, Preserves-if_eq,
  preserving,
}
use cosmos_nixpool.Types.Errors.{ok}
use cosmos_nixpool.Keeper.Verify.{at}
use cosmos_nixpool.Server.State.{is_zero_bytes}
use cosmos_nixpool.Server.Spent.{
  HasStatus, IsApart, emit-HasStatus, bank_send-HasStatus, insert_note-HasStatus,
  insert_reg-HasStatus, mark-HasStatus, set_params-HasStatus, set_vk-HasStatus,
  enforce_auditor-HasStatus, check_denom-HasStatus, verify_proof-HasStatus,
  keep_auditor_data-HasStatus,
}
use cosmos_nixpool.Server.Handlers.{
  TransactResponse, register, deposit, spend_nullifier, spend_input, insert_output, pay_withdrawal,
  pay_relayer, check_transact_proof, transact, check_authority, update_params,
  set_verification_key_msg,
}

module _ (ext : External) (n : Bytes) (v : Bool) where
  pub spend_nullifier-HasStatus :
      (a root : Bytes)
      → IsApart ext n v a
      → Preserves (HasStatus ext n v) (spend_nullifier ext a root)
  unfolding spend_nullifier
  spend_nullifier-HasStatus a root apart =
      search (preserving, mark-HasStatus, emit-HasStatus) depth 10

  -- Round i of the message marks nothing that would change the status.
  abbrev pub IsApartAt : MsgTransact → ℕ → Type 0
  IsApartAt msg i =
      (a : Bytes) → at msg.nullifiers i ≡ ok a → is_zero_bytes a ≡ false → IsApart ext n v a

  pub spend_input-HasStatus :
      (msg : MsgTransact) (i : ℕ)
      → IsApartAt msg i
      → Preserves (HasStatus ext n v) (spend_input ext msg i)
  unfolding spend_input
  spend_input-HasStatus msg i apart = Preserves-lift_eq _ _ (λ a here.
      Preserves-if_eq _ _ _ (λ zero. Preserves-pure tt)
        (λ nonzero.
          Preserves-bind _ _ (Preserves-lift _)
            (λ root. spend_nullifier-HasStatus a root (apart a here nonzero))))

  pub insert_output-HasStatus :
      (msg : MsgTransact) (i : ℕ) (r : TransactResponse)
      → Preserves (HasStatus ext n v) (insert_output ext msg i r)
  unfolding insert_output
  insert_output-HasStatus msg i r =
      search (preserving, insert_note-HasStatus, emit-HasStatus) depth 10

  pub pay_withdrawal-HasStatus :
      (msg : MsgTransact) → Preserves (HasStatus ext n v) (pay_withdrawal ext msg)
  unfolding pay_withdrawal
  pay_withdrawal-HasStatus msg =
      search (preserving, bank_send-HasStatus, check_denom-HasStatus, emit-HasStatus) depth 12

  pub pay_relayer-HasStatus :
      (msg : MsgTransact) → Preserves (HasStatus ext n v) (pay_relayer ext msg)
  unfolding pay_relayer
  pay_relayer-HasStatus msg =
      search (preserving, bank_send-HasStatus, check_denom-HasStatus, emit-HasStatus) depth 12

  pub check_transact_proof-HasStatus :
      (msg : MsgTransact) → Preserves (HasStatus ext n v) (check_transact_proof ext msg)
  unfolding check_transact_proof
  check_transact_proof-HasStatus msg = search (preserving, verify_proof-HasStatus) depth 8

  pub transact-HasStatus :
      (msg : MsgTransact)
      → IsApartAt msg 0
      → IsApartAt msg 1
      → Preserves (HasStatus ext n v) (transact ext msg)
  unfolding transact
  transact-HasStatus msg apart0 apart1 =
      search
        (
          preserving, spend_input-HasStatus, check_transact_proof-HasStatus,
          insert_output-HasStatus, pay_withdrawal-HasStatus, pay_relayer-HasStatus,
        )
        depth 14

  pub register-HasStatus : (msg : MsgRegister) → Preserves (HasStatus ext n v) (register ext msg)
  unfolding register
  register-HasStatus msg =
      search
        (
          preserving, enforce_auditor-HasStatus, verify_proof-HasStatus, insert_reg-HasStatus,
          keep_auditor_data-HasStatus, emit-HasStatus,
        )
        depth 14

  pub deposit-HasStatus : (msg : MsgDeposit) → Preserves (HasStatus ext n v) (deposit ext msg)
  unfolding deposit
  deposit-HasStatus msg =
      search
        (
          preserving, enforce_auditor-HasStatus, verify_proof-HasStatus, check_denom-HasStatus,
          bank_send-HasStatus, insert_note-HasStatus, keep_auditor_data-HasStatus, emit-HasStatus,
        )
        depth 20

  check_authority-HasStatus :
      (k a : Bytes) → Preserves (HasStatus ext n v) (check_authority ext k a)
  unfolding check_authority
  check_authority-HasStatus k a = search preserving

  pub update_params-HasStatus :
      (k : Bytes) (msg : MsgUpdateParams) → Preserves (HasStatus ext n v) (update_params ext k msg)
  unfolding update_params
  update_params-HasStatus k msg =
      search (preserving, check_authority-HasStatus, set_params-HasStatus) depth 10

  pub set_verification_key_msg-HasStatus :
      (k : Bytes) (msg : MsgSetVerificationKey)
      → Preserves (HasStatus ext n v) (set_verification_key_msg ext k msg)
  unfolding set_verification_key_msg
  set_verification_key_msg-HasStatus k msg =
      search (preserving, check_authority-HasStatus, set_vk-HasStatus) depth 10

  -- A nullifier that is spent stays so, whatever is marked.
  pub always_apart : (msg : MsgTransact) (i : ℕ) → v ≡ true → IsApartAt msg i
  always_apart msg i spent a here nonzero same = spent
