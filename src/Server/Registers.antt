-- ===== src/Server/Registers.antt =====
-- keeper/msg_server.go: what a Register that succeeds has checked and inserted.
use cosmos_nixpool.Prelude.{
  ℕ, ◌≡◌, refl, sym, ap, ◌∙◌, subst, true, false, ◌&&◌, not, some, [], ◌∷◌, ◌+◌, List, Bytes, codes,
  is_empty,
}
use cosmos_nixpool.External.{External}
use cosmos_nixpool.Types.Errors.{ok}
use cosmos_nixpool.Types.Params.{Params}
use cosmos_nixpool.Types.Msgs.{MsgRegister}
use cosmos_nixpool.Store.{Store, get}
use cosmos_nixpool.Types.Keys.{Key, reg_commitment_used_key}
use cosmos_nixpool.Types.Keys.Equality.{key_equal}
use cosmos_nixpool.Keeper.RootIndex.{uint64_or_zero}
use cosmos_nixpool.Keeper.Verify.Binding.{
  BindsRegister, verify_register_public_inputs-BindsRegister,
}
use cosmos_nixpool.Keeper.Registration.Stored.{
  insert_reg_commitment-Stored, Stored-leaf, Stored-root, Stored-next, Stored-used,
}
use cosmos_nixpool.Keeper.Action.{pure, ◌>>=◌, ◌>>◌, bind-run, lift-eq-ok}
use cosmos_nixpool.Keeper.Params.{get_params, get_verification_key_from_state}
use cosmos_nixpool.Keeper.Registration.{
  reg_root_or_zero, get_reg_merkle_root, insert_reg_commitment,
}
use cosmos_nixpool.Keeper.Verify.{parse_public_inputs, verify_register_public_inputs}
use cosmos_nixpool.Server.State.{
  Event, State, Handler, on_store, emit, enforce_auditor, stored_key, verify_proof,
  keep_auditor_data,
}
use cosmos_nixpool.Server.State.Success.{
  on_store-eq-ok, params-eq-ok, enforce_auditor-eq-ok, verify_proof-eq-ok, keep_auditor_data-eq-ok,
  with_auditor_data, with_auditor_data-get,
}
use cosmos_nixpool.Server.Stages.{same_params, end-eq-ok}
use cosmos_nixpool.Server.Handlers.{LeafResponse, register}

module _ (ext : External) where
  -- What a Register has done from `s` to `s'`: the stored parameters fit the auditor data; the
  -- proof is accepted on public inputs that are the commitment and the field elements of the
  -- configured chain and the auditor's key; no coin moves; the store is what InsertRegCommitment
  -- made of it with the auditor's data added; and in it the commitment is the leaf at the returned
  -- index, the returned root is the registration root, the tree's next index is the one after it,
  -- and the commitment is marked as used.
  pub record Registered (msg : MsgRegister) (s s' : State) (r : LeafResponse) : Type 0 where
    pub params : Params
    pub inputs : List ℕ
    pub vk : Bytes
    pub stored_params : get_params ext s.kv ≡ ok params
    pub auditor_data :
        (not (is_empty params.auditor_pub_key) && not (not (is_empty msg.auditor_encrypted_data)))
        ≡ false
    pub parsed : parse_public_inputs ext msg.public_inputs ≡ ok inputs
    pub bound : BindsRegister ext inputs msg.identity_commitment params
    pub key : stored_key ext (get_verification_key_from_state s.kv (codes "registration")) ≡ ok vk
    pub accepted : ext.honk_verify vk msg.proof inputs ≡ some true
    pub grown : Store
    pub inserted :
        insert_reg_commitment ext msg.identity_commitment s.kv
        ≡ (ok (r.merkle_root, r.leaf_index), grown)
    pub store_is : with_auditor_data ext s.tx_bytes msg.auditor_encrypted_data grown ≡ s'.kv
    pub leaf : get s'.kv (Key.reg_commitment r.leaf_index) ≡ some msg.identity_commitment
    pub root : get_reg_merkle_root ext s'.kv ≡ r.merkle_root
    pub next : uint64_or_zero (get s'.kv Key.reg_next_index) ≡ r.leaf_index + 1
    pub used : get s'.kv (reg_commitment_used_key ext msg.identity_commitment) ≡ some (1 ∷ [])
    pub transfers : s.transfers ≡ s'.transfers

  -- The end of Register: the insertion, the auditor's data, the event.
  abbrev insert_registration : MsgRegister → Handler LeafResponse
  insert_registration msg = do
    leaf ← on_store (insert_reg_commitment ext msg.identity_commitment)
    keep_auditor_data ext msg.auditor_encrypted_data
    emit (Event.registered msg.identity_commitment leaf.0 leaf.1)
    pure (record { leaf_index = leaf.1; merkle_root = leaf.0 })

  insert_registration-eq-ok :
      (msg : MsgRegister) (s s' : State) (r : LeafResponse)
      → insert_registration msg s ≡ (ok r, s')
      → (grown : Store) × (insert_reg_commitment ext msg.identity_commitment s.kv
          ≡ (ok (r.merkle_root, r.leaf_index), grown))
        × (with_auditor_data ext s.tx_bytes msg.auditor_encrypted_data grown ≡ s'.kv)
        × (s.transfers ≡ s'.transfers)
  insert_registration-eq-ok msg s s' r h =
      let payload = msg.auditor_encrypted_data in
      let (leaf, t, stored, h1) =
        bind-run (on_store (insert_reg_commitment ext msg.identity_commitment)) _ s s' r h in
      let (inserted, same, tx) =
        on_store-eq-ok (insert_reg_commitment ext msg.identity_commitment) s t leaf stored in
      let (_, u, noted, h2) = bind-run (keep_auditor_data ext payload) _ t s' r h1 in
      let kept = keep_auditor_data-eq-ok ext payload t u _ noted in
      let (answer, same2, kv) =
        end-eq-ok (Event.registered msg.identity_commitment leaf.0 leaf.1)
          (record { leaf_index = leaf.1; merkle_root = leaf.0 }) u s' r h2 in
      (
        t.kv,
        inserted ∙ ap (λ (x : LeafResponse). (ok (x.merkle_root, x.leaf_index), t.kv)) answer,
        ap (λ (b : Bytes). with_auditor_data ext b payload t.kv) tx
            ∙ ap (λ (x : State). x.kv) kept
            ∙ kv,
        same ∙ ap (λ (x : State). x.transfers) kept ∙ same2,
      )

  register-start :
      (msg : MsgRegister) (s s' : State) (r : LeafResponse)
      → register ext msg s ≡ (ok r, s')
      → (p : Params) × (get_params ext s.kv ≡ ok p)
        × ((not (is_empty p.auditor_pub_key) && not (not (is_empty msg.auditor_encrypted_data)))
            ≡ false)
        × (inputs : List ℕ) × (parse_public_inputs ext msg.public_inputs ≡ ok inputs)
        × (q : Params) × (get_params ext s.kv ≡ ok q)
        × (u : Unit {0}) × (verify_register_public_inputs ext inputs msg.identity_commitment q
            ≡ ok u)
        × ((verify_proof ext (codes "registration") msg.proof inputs >> insert_registration msg) s
            ≡ (ok r, s'))
  unfolding register
  register-start msg s s' r h =
      let (_, t, enforced, h1) =
        bind-run (enforce_auditor ext (not (is_empty msg.auditor_encrypted_data))) _ s s' r h in
      let (p, at_p, present, kept) =
        enforce_auditor-eq-ok ext (not (is_empty msg.auditor_encrypted_data)) s t _ enforced in
      let (inputs, parsed, h2) =
        lift-eq-ok (parse_public_inputs ext msg.public_inputs) _ t s' r h1 in
      let (q, at_q, h3) = params-eq-ok ext _ t s' r h2 in
      let (u, bound, h4) =
        lift-eq-ok (verify_register_public_inputs ext inputs msg.identity_commitment q) _ t s' r
          h3 in
      (
        p,
        at_p,
        present,
        inputs,
        parsed,
        q,
        subst (λ (x : State). get_params ext x.kv ≡ ok q) (sym kept) at_q,
        u,
        bound,
        subst
            (λ (x : State).
              (verify_proof ext (codes "registration") msg.proof inputs >> insert_registration msg)
                x
              ≡ (ok r, s'))
            (sym kept) h4,
      )

  -- A Register that succeeds had its proof accepted under the stored key on public inputs that are
  -- the commitment and the field elements of the chain binding, which is configured, and, if one
  -- is configured, the auditor's key; moves no coin; and left the store as InsertRegCommitment
  -- makes it with the auditor's data added: the commitment is the leaf at the returned index, the
  -- returned root is the registration root, the tree's next index is the one after it, and the
  -- commitment is marked as used.
  pub register-Registered :
      (msg : MsgRegister) (s s' : State) (r : LeafResponse)
      → register ext msg s ≡ (ok r, s')
      → Registered msg s s' r
  unfolding key_equal get_reg_merkle_root reg_commitment_used_key
  register-Registered msg s s' r h =
      let (p, at_p, present, inputs, parsed, q, at_q, u, bound, h1) = register-start msg s s' r h in
      let (_, t, verified, h2) =
        bind-run (verify_proof ext (codes "registration") msg.proof inputs) _ s s' r h1 in
      let (vk, key, accepted, _, after_proof) =
        verify_proof-eq-ok ext (codes "registration") msg.proof inputs s t _ verified in
      let (grown, run, filled, moved) = insert_registration-eq-ok msg t s' r h2 in
      let c = msg.identity_commitment in
      let kv01 = ap (λ (x : State). x.kv) after_proof in
      let store_is =
        ap (λ (x : State). with_auditor_data ext x.tx_bytes msg.auditor_encrypted_data grown)
          after_proof
        ∙ filled in
      let stored = insert_reg_commitment-Stored ext c t.kv grown r.merkle_root r.leaf_index run in
      let reads = λ (k : Key) (ne : key_equal (Key.auditor_data (ext.sha256 s.tx_bytes)) k ≡ false).
        ap (λ (kv : Store). get kv k) (sym store_is)
        ∙ with_auditor_data-get ext s.tx_bytes msg.auditor_encrypted_data grown k ne in
      record {
        params = p;
        inputs = inputs;
        vk = vk;
        stored_params = at_p;
        auditor_data = present;
        parsed = parsed;
        bound =
            subst (λ (x : Params). BindsRegister ext inputs msg.identity_commitment x)
              (sym (same_params ext s.kv s.kv p q at_p at_q refl))
              (verify_register_public_inputs-BindsRegister ext inputs msg.identity_commitment q
                bound);
        key = key;
        accepted = accepted;
        grown = grown;
        inserted =
            subst (λ kv. insert_reg_commitment ext c kv ≡ (ok (r.merkle_root, r.leaf_index), grown))
              (sym kv01) run;
        store_is = store_is;
        leaf =
            reads (Key.reg_commitment r.leaf_index) refl
            ∙ Stored-leaf ext c r.merkle_root r.leaf_index t.kv grown stored;
        root =
            ap (reg_root_or_zero ext) (reads Key.reg_root refl)
            ∙ Stored-root ext c r.merkle_root r.leaf_index t.kv grown stored;
        next =
            ap uint64_or_zero (reads Key.reg_next_index refl)
            ∙ Stored-next ext c r.merkle_root r.leaf_index t.kv grown stored;
        used =
            reads (reg_commitment_used_key ext c) refl
            ∙ Stored-used ext c r.merkle_root r.leaf_index t.kv grown stored;
        transfers = ap (λ (x : State). x.transfers) after_proof ∙ moved;
      }
