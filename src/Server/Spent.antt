-- ===== src/Server/Spent.antt =====
-- A nullifier's status, spent or not, changes where it is marked only; so nullifiers stay spent.
pub mod Handlers
use cosmos_nixpool.Prelude.{
  ℕ, ◌≡◌, refl, sym, ap, ◌∙◌, Bool, true, false, not, Option, some, none, List, [], ◌∷◌, Bytes,
  bytes_equal, if◌then◌else◌, arith, is_empty, ◌==◌,
}
use cosmos_nixpool.External.{External, Transfer}
use cosmos_nixpool.Field.{canonical_field_bytes}
use cosmos_nixpool.Types.Errors.{Error, Result, ok, err}
use cosmos_nixpool.Types.Params.{Params}
use cosmos_nixpool.Types.Keys.{Key, nullifier_key}
use cosmos_nixpool.Types.Keys.Equality.{key_equal-family, family}
use cosmos_nixpool.Types.Msgs.{
  MsgRegister, MsgDeposit, MsgTransact, MsgUpdateParams, MsgSetVerificationKey,
}
use cosmos_nixpool.Store.{Store, get, set, has, is_some, get-set_ne}
use cosmos_nixpool.Keeper.Action.{Action, modify}
use cosmos_nixpool.Keeper.Action.Preserves.{Preserves, Preserves-modify, preserving}
use cosmos_nixpool.Keeper.Params.{set_params, set_verification_key}
use cosmos_nixpool.Keeper.Forest.{insert_note}
use cosmos_nixpool.Keeper.Forest.Frame.{insert_note-Holds, nullifier-IsForeign}
use cosmos_nixpool.Keeper.Registration.{insert_reg_commitment}
use cosmos_nixpool.Keeper.Registration.Frame.{insert_reg_commitment-Holds, IsOutside}
use cosmos_nixpool.Keeper.Nullifiers.{
  is_nullifier_spent, mark_nullifier_spent, store_auditor_data, is_nullifier_spent-mark,
}
use cosmos_nixpool.Server.State.{
  Event, State, Handler, on_store, emit, consume_gas, bank_send, enforce_auditor, check_denom,
  get_verification_key, verify_proof, keep_auditor_data,
}
use cosmos_nixpool.Server.Handlers.{
  register, deposit, spend_nullifier, spend_input, insert_output, pay_withdrawal, pay_relayer,
  check_transact_proof, transact, check_authority, update_params, set_verification_key_msg,
}

-- An action on the store keeps a predicate of the store, run on the whole state.
module _ (P : Store → Type 0) where
  pub Preserves-on_store :
      {A : Type 0} (m : Action Store A)
      → Preserves P m
      → Preserves (λ (s : State). P s.kv) (on_store m)
  unfolding on_store
  Preserves-on_store m km = record { through = λ s h. km.through s.kv h }

  send_if :
      (b : Bool) (e : Error) (t : Transfer) (s : State)
      → P s.kv
      → P
          (if b
            then (let r : Result (Unit {0}) × State =
                  (ok tt, record s { transfers = t ∷ s.transfers }) in
                r)
            else (err e, s)).1.kv
  send_if true e t s h = h
  send_if false e t s h = h

module _ (ext : External) (n : Bytes) (v : Bool) where
  -- The nullifier is marked, or it is not.
  abbrev pub HasStatus : State → Type 0
  HasStatus s = is_nullifier_spent ext s.kv n ≡ v

  abbrev Marked : Store → Type 0
  Marked kv = is_nullifier_spent ext kv n ≡ v

  -- Marking `m` does not change it.
  abbrev pub IsApart : Bytes → Type 0
  IsApart m =
      bytes_equal (canonical_field_bytes ext m) (canonical_field_bytes ext n) ≡ true → v ≡ true

  pub emit-HasStatus : (e : Event) → Preserves HasStatus (emit e)
  unfolding emit
  emit-HasStatus e = record { through = λ s h. h }

  consume_gas-HasStatus : (amount : ℕ) → Preserves HasStatus (consume_gas amount)
  unfolding consume_gas
  consume_gas-HasStatus amount = record { through = λ s h. h }

  pub bank_send-HasStatus : (e : Error) (t : Transfer) → Preserves HasStatus (bank_send ext e t)
  unfolding bank_send
  bank_send-HasStatus e t = record {
    through = λ s h. send_if Marked (ext.bank_accepts s.transfers t) e t s h;
  }

  -- A write to another family.
  set-Marked :
      (k : Key) (b : Bytes) (kv : Store)
      → (family k == 14) ≡ false
      → Marked kv
      → Marked (set k b kv)
  unfolding is_nullifier_spent nullifier_key
  set-Marked k b kv ne h =
      ap is_some
        (get-set_ne kv k (nullifier_key ext n) b (key_equal-family k (nullifier_key ext n) ne))
      ∙ h

  insert_note-Marked : (c : Bytes) → Preserves Marked (insert_note ext c)
  unfolding is_nullifier_spent nullifier_key
  insert_note-Marked c = record {
    through = λ kv h.
        ap is_some (
          (insert_note-Holds ext (nullifier_key ext n)
              (nullifier-IsForeign (canonical_field_bytes ext n)) (get kv (nullifier_key ext n))
              c).through
            kv refl)
        ∙ h;
  }

  insert_reg-Marked : (c : Bytes) → Preserves Marked (insert_reg_commitment ext c)
  unfolding is_nullifier_spent nullifier_key
  insert_reg-Marked c = record {
    through = λ kv h.
        ap is_some (
          (insert_reg_commitment-Holds ext (nullifier_key ext n)
              (record {
                reg_commitment = refl;
                reg_frontier = refl;
                reg_root = refl;
                reg_next_index = refl;
                reg_commitment_used = refl;
              })
              (get kv (nullifier_key ext n)) c).through
            kv refl)
        ∙ h;
  }

  mark-Marked : (m : Bytes) → IsApart m → Preserves Marked (modify (mark_nullifier_spent ext m))
  mark-Marked m apart =
      Preserves-modify (mark_nullifier_spent ext m)
        (λ kv h. rw (is_nullifier_spent-mark ext m n kv) (ground (arith, apart)))

  set_params-Marked : (p : Params) → Preserves Marked (modify (set_params ext p))
  unfolding set_params
  set_params-Marked p =
      Preserves-modify (set_params ext p)
        (λ kv. set-Marked Key.params (ext.marshal_params p) kv refl)

  set_vk-Marked : (name vk : Bytes) → Preserves Marked (modify (set_verification_key name vk))
  unfolding set_verification_key
  set_vk-Marked name vk =
      Preserves-modify (set_verification_key name vk) (λ kv. set-Marked (Key.vk name) vk kv refl)

  pub insert_note-HasStatus : (c : Bytes) → Preserves HasStatus (on_store (insert_note ext c))
  insert_note-HasStatus c = Preserves-on_store Marked (insert_note ext c) (insert_note-Marked c)

  pub insert_reg-HasStatus :
      (c : Bytes) → Preserves HasStatus (on_store (insert_reg_commitment ext c))
  insert_reg-HasStatus c =
      Preserves-on_store Marked (insert_reg_commitment ext c) (insert_reg-Marked c)

  pub mark-HasStatus :
      (m : Bytes) → IsApart m → Preserves HasStatus (on_store (modify (mark_nullifier_spent ext m)))
  mark-HasStatus m apart =
      Preserves-on_store Marked (modify (mark_nullifier_spent ext m)) (mark-Marked m apart)

  pub set_params-HasStatus :
      (p : Params) → Preserves HasStatus (on_store (modify (set_params ext p)))
  set_params-HasStatus p =
      Preserves-on_store Marked (modify (set_params ext p)) (set_params-Marked p)

  pub set_vk-HasStatus :
      (name vk : Bytes) → Preserves HasStatus (on_store (modify (set_verification_key name vk)))
  set_vk-HasStatus name vk =
      Preserves-on_store Marked (modify (set_verification_key name vk)) (set_vk-Marked name vk)

  store_payload-HasStatus :
      (payload : Bytes)
      → Preserves HasStatus (
          modify (λ (s : State). record s {
            kv = store_auditor_data (ext.sha256 s.tx_bytes) payload s.kv;
          }))
  unfolding store_auditor_data
  store_payload-HasStatus payload =
      Preserves-modify _
        (λ s. set-Marked (Key.auditor_data (ext.sha256 s.tx_bytes)) payload s.kv refl)

  pub enforce_auditor-HasStatus : (b : Bool) → Preserves HasStatus (enforce_auditor ext b)
  unfolding enforce_auditor
  enforce_auditor-HasStatus b = search preserving

  pub check_denom-HasStatus : (denom : Bytes) → Preserves HasStatus (check_denom ext denom)
  unfolding check_denom
  check_denom-HasStatus denom = search preserving

  pub verify_proof-HasStatus :
      (name proof : Bytes) (inputs : List ℕ)
      → Preserves HasStatus (verify_proof ext name proof inputs)
  unfolding verify_proof
  verify_proof-HasStatus name proof inputs = search (preserving, consume_gas-HasStatus)

  pub keep_auditor_data-HasStatus :
      (payload : Bytes) → Preserves HasStatus (keep_auditor_data ext payload)
  unfolding keep_auditor_data
  keep_auditor_data-HasStatus payload = search (preserving, store_payload-HasStatus)

-- The nullifier is spent.
abbrev pub Spent : External → Bytes → State → Type 0
Spent ext n s = HasStatus ext n true s
