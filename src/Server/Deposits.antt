-- ===== src/Server/Deposits.antt =====
-- keeper/msg_server.go: what a Deposit that succeeds has checked, taken and inserted.
use cosmos_nixpool.Prelude.{
  ℕ, ◌≡◌, sym, ap, ◌∙◌, subst, true, false, ◌&&◌, not, some, ◌∷◌, ◌+◌, [], refl, Bytes, codes, List,
  is_empty, ℤ, is_negative,
}
use cosmos_nixpool.External.{External, Coin, Transfer, account_to_module}
use cosmos_nixpool.Types.Errors.{ok}
use cosmos_nixpool.Types.Params.{Params}
use cosmos_nixpool.Types.Msgs.{MsgDeposit}
use cosmos_nixpool.Keeper.Params.{get_params, get_verification_key_from_state}
use cosmos_nixpool.Keeper.Forest.{insert_note, root_or_zero, get_tree_root, get_tree_next_index}
use cosmos_nixpool.Keeper.RootIndex.{uint64_or_zero}
use cosmos_nixpool.Types.Keys.{Key, commitment_used_key}
use cosmos_nixpool.Types.Keys.Equality.{key_equal}
use cosmos_nixpool.Store.{Store, get}
use cosmos_nixpool.Keeper.Forest.Note.{insert_note-NoteStored}
use cosmos_nixpool.Keeper.Forest.Stored.{
  NoteStored-leaf, NoteStored-root, NoteStored-next, NoteStored-used,
}
use cosmos_nixpool.Keeper.Verify.Binding.{BindsDeposit, verify_deposit_public_inputs-BindsDeposit}
use cosmos_nixpool.Server.State.Success.{with_auditor_data, with_auditor_data-get}
use cosmos_nixpool.Keeper.Verify.{parse_public_inputs}
use cosmos_nixpool.Server.State.{State, is_listed, stored_key}
use cosmos_nixpool.Server.Handlers.{LeafResponse, deposit}
use cosmos_nixpool.Server.Stages.{
  same_params, insert_deposit-eq-ok, pay_deposit-eq-ok, prove_deposit-eq-ok, deposit-start,
}

module _ (ext : External) where
  -- What a Deposit has done from `s` to `s'`: the stored parameters have a chain binding, list the
  -- denomination and fit the auditor data; the proof is accepted on public inputs that are the
  -- commitment and the field elements of the amount, the denomination and the auditor's key; the
  -- sender's coin of exactly that amount is the one new transfer; the store is what InsertNote
  -- made of it with the auditor's data added; and in it the commitment is the leaf at the returned
  -- index, the returned root is its tree's, the tree's next index is the one after it, and the
  -- commitment is marked as used.
  pub record Deposited (msg : MsgDeposit) (s s' : State) (r : LeafResponse) : Type 0 where
    pub params : Params
    pub inputs : List ℕ
    pub amount : ℤ
    pub vk : Bytes
    pub sender : Bytes
    pub tree_id : ℕ
    pub stored_params : get_params ext s.kv ≡ ok params
    pub auditor_data :
        (not (is_empty params.auditor_pub_key) && not (not (is_empty msg.auditor_encrypted_data)))
        ≡ false
    pub chain_binding : is_empty params.chain_binding ≡ false
    pub listed : is_listed msg.denom params.supported_denoms ≡ true
    pub parsed : parse_public_inputs ext msg.public_inputs ≡ ok inputs
    pub parsed_amount : ext.new_int_from_string msg.amount ≡ some amount
    pub bound : BindsDeposit ext inputs msg.note_commitment amount msg.denom params
    pub key : stored_key ext (get_verification_key_from_state s.kv (codes "deposit")) ≡ ok vk
    pub accepted : ext.honk_verify vk msg.proof inputs ≡ some true
    pub from : ext.acc_address_from_bech32 msg.sender ≡ some sender
    pub not_negative : is_negative amount ≡ false
    pub transfer :
        account_to_module sender (record { denom = msg.denom; amount = amount }) ∷ s.transfers
        ≡ s'.transfers
    pub grown : Store
    pub inserted :
        insert_note ext msg.note_commitment s.kv
        ≡ (ok (r.merkle_root, r.leaf_index, tree_id), grown)
    pub store_is : with_auditor_data ext s.tx_bytes msg.auditor_encrypted_data grown ≡ s'.kv
    pub leaf : get s'.kv (Key.commitment tree_id r.leaf_index) ≡ some msg.note_commitment
    pub root : get_tree_root ext s'.kv tree_id ≡ r.merkle_root
    pub next : get_tree_next_index s'.kv tree_id ≡ r.leaf_index + 1
    pub used : get s'.kv (commitment_used_key ext msg.note_commitment) ≡ some (1 ∷ [])

  -- A Deposit that succeeds had its proof accepted under the stored key on public inputs that are
  -- the commitment and the field elements of the amount, the denomination and, if one is
  -- configured, the auditor's key; escrowed exactly the declared coin as its one new transfer; and
  -- left the store as InsertNote makes it with the auditor's data added: the commitment is the
  -- leaf at the returned index, the returned root is its tree's, the tree's next index is the one
  -- after it, and the commitment is marked as used.
  pub deposit-Deposited :
      (msg : MsgDeposit) (s s' : State) (r : LeafResponse)
      → deposit ext msg s ≡ (ok r, s')
      → Deposited msg s s' r
  unfolding key_equal get_tree_root get_tree_next_index commitment_used_key
  deposit-Deposited msg s s' r h =
      let (p, at_p, present, inputs, parsed, amount, parsed_amount, s1, h1, kept) =
        deposit-start ext msg s s' r h in
      let (p1, at_p1, binding, u, bound, vk, key, accepted, s2, h2, kv12, transfers12, tx12) =
        prove_deposit-eq-ok ext msg inputs amount s1 s' r h1 in
      let (sender, from, not_negative, s3, h3, kv23, paid, tx23, p2, at_p2, listed) =
        pay_deposit-eq-ok ext msg amount s2 s' r h2 in
      let (tree_id, grown, run, filled, transfers3) = insert_deposit-eq-ok ext msg s3 s' r h3 in
      let tx = ap (λ (x : State). x.tx_bytes) kept ∙ tx12 ∙ tx23 in
      let store_is =
        ap (λ (b : Bytes). with_auditor_data ext b msg.auditor_encrypted_data grown) tx ∙ filled in
      let note =
        insert_note-NoteStored ext msg.note_commitment s3.kv grown r.merkle_root r.leaf_index
          tree_id run in
      let reads = λ (k : Key) (ne : key_equal (Key.auditor_data (ext.sha256 s.tx_bytes)) k ≡ false).
        ap (λ (kv : Store). get kv k) (sym store_is)
        ∙ with_auditor_data-get ext s.tx_bytes msg.auditor_encrypted_data grown k ne in
      let kv01 = ap (λ (x : State). x.kv) kept in
      let coin : Coin = record { denom = msg.denom; amount = amount } in
      let same1 = same_params ext s.kv s1.kv p p1 at_p at_p1 kv01 in
      let same2 = same_params ext s.kv s2.kv p p2 at_p at_p2 (kv01 ∙ kv12) in
      record {
        params = p;
        inputs = inputs;
        amount = amount;
        vk = vk;
        sender = sender;
        tree_id = tree_id;
        stored_params = at_p;
        auditor_data = present;
        chain_binding =
            subst (λ (q : Params). is_empty q.chain_binding ≡ false) (sym same1) binding;
        listed =
            subst (λ (q : Params). is_listed msg.denom q.supported_denoms ≡ true) (sym same2)
              listed;
        parsed = parsed;
        parsed_amount = parsed_amount;
        bound =
            subst (λ (q : Params). BindsDeposit ext inputs msg.note_commitment amount msg.denom q)
              (sym same1)
              (verify_deposit_public_inputs-BindsDeposit ext inputs msg.note_commitment amount
                msg.denom p1 bound);
        key =
            subst
              (λ kv. stored_key ext (get_verification_key_from_state kv (codes "deposit")) ≡ ok vk)
              (sym kv01) key;
        accepted = accepted;
        from = from;
        not_negative = not_negative;
        transfer =
            ap (λ (x : List Transfer). account_to_module sender coin ∷ x)
              (ap (λ (x : State). x.transfers) kept ∙ transfers12)
            ∙ paid
            ∙ transfers3;
        grown = grown;
        inserted =
            subst
              (λ kv.
                insert_note ext msg.note_commitment kv
                ≡ (ok (r.merkle_root, r.leaf_index, tree_id), grown))
              (sym (kv01 ∙ kv12 ∙ kv23)) run;
        store_is = store_is;
        leaf =
            reads (Key.commitment tree_id r.leaf_index) refl
            ∙ NoteStored-leaf ext msg.note_commitment grown r.merkle_root r.leaf_index tree_id note;
        root =
            ap (root_or_zero ext) (reads (Key.tree_root tree_id) refl)
            ∙ NoteStored-root ext msg.note_commitment grown r.merkle_root r.leaf_index tree_id note;
        next =
            ap uint64_or_zero (reads (Key.tree_next_index tree_id) refl)
            ∙ NoteStored-next ext msg.note_commitment grown r.merkle_root r.leaf_index tree_id note;
        used =
            reads (commitment_used_key ext msg.note_commitment) refl
            ∙ NoteStored-used ext msg.note_commitment grown r.merkle_root r.leaf_index tree_id note;
      }
