-- ===== src/Server/Chain.antt =====
-- The life of the module on a chain: the messages that succeed, in any order, from any senders. A
-- message that fails is rolled back by the SDK, so it is no step.
use cosmos_nixpool.Prelude.{ℕ, ◌≡◌, refl, true, subst, Bytes}
use cosmos_nixpool.External.{External}
use cosmos_nixpool.Types.Errors.{ok}
use cosmos_nixpool.Types.Msgs.{
  MsgRegister, MsgDeposit, MsgTransact, MsgUpdateParams, MsgSetVerificationKey,
}
use cosmos_nixpool.Keeper.Action.Preserves.{Preserves-after}
use cosmos_nixpool.Server.State.{State}
use cosmos_nixpool.Server.Handlers.{
  LeafResponse, TransactResponse, register, deposit, transact, update_params,
  set_verification_key_msg,
}
use cosmos_nixpool.Server.Spent.{Spent}
use cosmos_nixpool.Server.Spent.Handlers.{
  register-HasStatus, deposit-HasStatus, transact-HasStatus, update_params-HasStatus,
  set_verification_key_msg-HasStatus, always_apart,
}
use cosmos_nixpool.Server.DoubleSpend.{Spends, transact-Spends}

module _ (ext : External) (keeper_authority : Bytes) where
  -- One step of the chain.
  pub data Step (s s' : State) : Type 0 where
    -- a new transaction: its bytes, its gas meter
    begin_tx :
        (bytes : Bytes) (limit : ℕ)
        → record s { tx_bytes = bytes; gas_used = 0; gas_limit = limit } ≡ s'
        → Step s s'
    registers : (msg : MsgRegister) (r : LeafResponse) → register ext msg s ≡ (ok r, s') → Step s s'
    deposits : (msg : MsgDeposit) (r : LeafResponse) → deposit ext msg s ≡ (ok r, s') → Step s s'
    transacts :
        (msg : MsgTransact) (r : TransactResponse) → transact ext msg s ≡ (ok r, s') → Step s s'
    updates_params :
        (msg : MsgUpdateParams) (u : Unit {0})
        → update_params ext keeper_authority msg s ≡ (ok u, s')
        → Step s s'
    sets_verification_key :
        (msg : MsgSetVerificationKey) (u : Unit {0})
        → set_verification_key_msg ext keeper_authority msg s ≡ (ok u, s')
        → Step s s'

  -- The states that a state reaches.
  pub data Reach (s : State) : State → Type 0 where
    here : Reach s s
    next : {t u : State} → Reach s t → Step t u → Reach s u

  Step-Spent : (n : Bytes) (s s' : State) → Step s s' → Spent ext n s → Spent ext n s'
  Step-Spent n s s' (Step.begin_tx bytes limit h) spent = subst (Spent ext n) h spent
  Step-Spent n s s' (Step.registers msg r h) spent =
      Preserves-after (register ext msg) s s' (ok r) (register-HasStatus ext n true msg) h spent
  Step-Spent n s s' (Step.deposits msg r h) spent =
      Preserves-after (deposit ext msg) s s' (ok r) (deposit-HasStatus ext n true msg) h spent
  Step-Spent n s s' (Step.transacts msg r h) spent =
      Preserves-after (transact ext msg) s s' (ok r)
        (transact-HasStatus ext n true msg (always_apart ext n true msg 0 refl)
          (always_apart ext n true msg 1 refl))
        h spent
  Step-Spent n s s' (Step.updates_params msg u h) spent =
      Preserves-after (update_params ext keeper_authority msg) s s' (ok u)
        (update_params-HasStatus ext n true keeper_authority msg) h spent
  Step-Spent n s s' (Step.sets_verification_key msg u h) spent =
      Preserves-after (set_verification_key_msg ext keeper_authority msg) s s' (ok u)
        (set_verification_key_msg-HasStatus ext n true keeper_authority msg) h spent

  Reach-Spent : (n : Bytes) {s s' : State} → Reach s s' → Spent ext n s → Spent ext n s'
  Reach-Spent n here spent = spent
  Reach-Spent n (next {t} {u} run step) spent = Step-Spent n t u step (Reach-Spent n run spent)

  -- Once a Transact has spent a nonzero nullifier, no Transact that spends an encoding of the same
  -- field element succeeds, in any state that the chain reaches from there.
  pub no_double_spend :
      (msg msg' : MsgTransact) (n : Bytes) (s s1 s2 s3 : State) (r r' : TransactResponse)
      → Spends ext msg n
      → transact ext msg s ≡ (ok r, s1)
      → Reach s1 s2
      → Spends ext msg' n
      → ¬ (transact ext msg' s2 ≡ (ok r', s3))
  no_double_spend msg msg' n s s1 s2 s3 r r' spends done run again h =
      let (_, spent) = transact-Spends ext msg n s s1 r spends done in
      let (unspent, _) = transact-Spends ext msg' n s2 s3 r' again h in
      let still = Reach-Spent n run spent in cc
