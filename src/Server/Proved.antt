-- ===== src/Server/Proved.antt =====
-- keeper/msg_server.go: the proof that a Transact that succeeds has shown, and the roots it spent from.
use cosmos_nixpool.Prelude.{
  ℕ, ◌≡◌, refl, sym, ap, ◌∙◌, true, false, not, bytes_equal, bytes_equal→eq, ◌⊎◌, inl, inr,
  Bool-cases, Option, some, List, [], ◌∷◌, Bytes, codes, arith,
}
use cosmos_nixpool.External.{External}
use cosmos_nixpool.Types.Errors.{ok, invalid_merkle_root}
use cosmos_nixpool.Types.Params.{Params}
use cosmos_nixpool.Types.Keys.{Key, nullifier_key, root_index_key}
use cosmos_nixpool.Types.Keys.Equality.{key_equal}
use cosmos_nixpool.Types.Msgs.{MsgTransact}
use cosmos_nixpool.Store.{get, get-set_ne}
use cosmos_nixpool.Keeper.Action.{modify, lift, ◌>>=◌, ◌>>◌, bind-run, guard-eq-ok, lift-eq-ok}
use cosmos_nixpool.Keeper.Action.Preserves.{
  Preserves, Preserves-after, Preserves-modify, preserving,
}
use cosmos_nixpool.Keeper.Params.{params_of, get_params, get_verification_key_from_state}
use cosmos_nixpool.Keeper.Nullifiers.{mark_nullifier_spent}
use cosmos_nixpool.Keeper.Registration.{get_reg_merkle_root, is_valid_reg_root}
use cosmos_nixpool.Keeper.RootIndex.{root_ref_count, is_valid_root_any_tree}
use cosmos_nixpool.Keeper.Verify.Assembled.{
  BindsTransact, assemble_transact_public_inputs-BindsTransact,
}
use cosmos_nixpool.Keeper.Verify.{at, assemble_transact_public_inputs}
use cosmos_nixpool.Server.State.{is_zero_bytes, Event, State, on_store, emit, stored_key}
use cosmos_nixpool.Server.State.Success.{params-eq-ok, verify_proof-eq-ok}
use cosmos_nixpool.Server.Spent.{Preserves-on_store}
use cosmos_nixpool.Server.DoubleSpend.{
  settle, spend_nullifier-eq-ok, spend_input-nonzero, transact-rounds,
}
use cosmos_nixpool.Server.Handlers.{
  TransactResponse, spend_nullifier, spend_input, check_transact_proof, transact,
}

-- The rounds over the nullifiers write no other key.
module _ (ext : External) (k : Key) (o : Option Bytes)
    (apart : (b : Bytes) → key_equal (Key.nullifier b) k ≡ false) where
  abbrev Reads : State → Type 0
  Reads s = get s.kv k ≡ o

  mark-Reads : (a : Bytes) → Preserves Reads (on_store (modify (mark_nullifier_spent ext a)))
  unfolding mark_nullifier_spent nullifier_key
  mark-Reads a =
      Preserves-on_store (λ kv. get kv k ≡ o) (modify (mark_nullifier_spent ext a))
        (Preserves-modify (mark_nullifier_spent ext a)
          (λ kv h. get-set_ne kv (nullifier_key ext a) k (1 ∷ []) (apart _) ∙ h))

  emit-Reads : (e : Event) → Preserves Reads (emit e)
  unfolding emit
  emit-Reads e = record { through = λ s h. h }

  spend_nullifier-Reads : (a root : Bytes) → Preserves Reads (spend_nullifier ext a root)
  unfolding spend_nullifier
  spend_nullifier-Reads a root = search (preserving, mark-Reads, emit-Reads) depth 10

  spend_input-Reads : (msg : MsgTransact) (i : ℕ) → Preserves Reads (spend_input ext msg i)
  unfolding spend_input
  spend_input-Reads msg i = search (preserving, spend_nullifier-Reads) depth 10

module _ (ext : External) where
  check_transact_proof-eq-ok :
      (msg : MsgTransact) (s s' : State) (u : Unit {0})
      → check_transact_proof ext msg s ≡ (ok u, s')
      → (p : Params) × (get_params ext s.kv ≡ ok p)
        × (inputs : List ℕ) × (assemble_transact_public_inputs ext msg p ext.module_address
            ≡ ok inputs)
        × (vk : Bytes) × (stored_key ext (get_verification_key_from_state s.kv (codes "transact"))
            ≡ ok vk)
        × (ext.honk_verify vk msg.proof inputs ≡ some true)
  unfolding check_transact_proof
  check_transact_proof-eq-ok msg s s' u h =
      let (p, at_p, h1) = params-eq-ok ext _ s s' u h in
      let (inputs, assembled, h2) =
        lift-eq-ok (assemble_transact_public_inputs ext msg p ext.module_address) _ s s' u h1 in
      let (vk, key, accepted, _, _) =
        verify_proof-eq-ok ext (codes "transact") msg.proof inputs s s' u h2 in
      (p, at_p, inputs, assembled, vk, key, accepted)

  rounds-get :
      (msg : MsgTransact) (k : Key) (s s1 s2 : State) (u : Unit {0})
      → ((b : Bytes) → key_equal (Key.nullifier b) k ≡ false)
      → spend_input ext msg 0 s ≡ (ok u, s1)
      → spend_input ext msg 1 s1 ≡ (ok u, s2)
      → get s2.kv k ≡ get s.kv k
  rounds-get msg k s s1 s2 u apart one two =
      Preserves-after (spend_input ext msg 1) s1 s2 (ok u)
        (spend_input-Reads ext k (get s.kv k) apart msg 1) two
        (Preserves-after (spend_input ext msg 0) s s1 (ok u)
          (spend_input-Reads ext k (get s.kv k) apart msg 0) one refl)

  rounds-get_params :
      (msg : MsgTransact) (s s1 s2 : State) (u : Unit {0})
      → spend_input ext msg 0 s ≡ (ok u, s1)
      → spend_input ext msg 1 s1 ≡ (ok u, s2)
      → get_params ext s2.kv ≡ get_params ext s.kv
  unfolding get_params key_equal
  rounds-get_params msg s s1 s2 u one two =
      ap (params_of ext) (rounds-get msg Key.params s s1 s2 u (λ b. refl) one two)

  rounds-get_verification_key :
      (msg : MsgTransact) (s s1 s2 : State) (u : Unit {0}) (name : Bytes)
      → spend_input ext msg 0 s ≡ (ok u, s1)
      → spend_input ext msg 1 s1 ≡ (ok u, s2)
      → get_verification_key_from_state s2.kv name ≡ get_verification_key_from_state s.kv name
  unfolding get_verification_key_from_state key_equal
  rounds-get_verification_key msg s s1 s2 u name one two =
      rounds-get msg (Key.vk name) s s1 s2 u (λ b. refl) one two

  -- The registration root that a Transact names is the one that the store has.
  transact-reg_root :
      (msg : MsgTransact) (s s' : State) (r : TransactResponse)
      → transact ext msg s ≡ (ok r, s')
      → get_reg_merkle_root ext s.kv ≡ msg.registration_root
  unfolding transact ◌>>=◌ is_valid_reg_root
  transact-reg_root msg s s' r h =
      let (valid, _) =
        guard-eq-ok (not (bytes_equal (get_reg_merkle_root ext s.kv) msg.registration_root))
          invalid_merkle_root (spend_input ext msg 0 >> (spend_input ext msg 1 >> settle ext msg)) s
          s' r h in
      bytes_equal→eq (get_reg_merkle_root ext s.kv) msg.registration_root (ground arith)

  -- Whether a root is accepted is read from its count alone.
  is_valid_root_any_tree-reads :
      (s t : State) (root : Bytes)
      → get t.kv (root_index_key ext root) ≡ get s.kv (root_index_key ext root)
      → is_valid_root_any_tree ext t.kv root ≡ is_valid_root_any_tree ext s.kv root
  unfolding is_valid_root_any_tree root_ref_count
  is_valid_root_any_tree-reads s t root same = rw same refl

  -- The input is a dummy, or its root is accepted.
  abbrev pub IsRooted : State → Bytes → Bytes → Type 0
  IsRooted s nullifier root =
      (is_zero_bytes nullifier ≡ true) ⊎ (is_valid_root_any_tree ext s.kv root ≡ true)

  spend_input-IsRooted :
      (msg : MsgTransact) (i : ℕ) (a root : Bytes) (s s' : State) (u : Unit {0})
      → at msg.nullifiers i ≡ ok a
      → at msg.merkle_roots i ≡ ok root
      → spend_input ext msg i s ≡ (ok u, s')
      → IsRooted s a root
  unfolding ◌>>=◌ lift
  spend_input-IsRooted msg i a root s s' u at_a at_root h = elim (Bool-cases (is_zero_bytes a)) [
    | inl dummy ↦ inl dummy
    | inr nonzero ↦
        let run = sym (spend_input-nonzero ext msg i a s at_a nonzero) ∙ h in
        let (_, valid, _) = spend_nullifier-eq-ok ext a root s s' u (rw at_root at run) in
        inr (ground arith)
  ]

  -- What a Transact that succeeds has shown of the state before it.
  pub record Proven (msg : MsgTransact) (s : State) : Type 0 where
    pub params : Params
    pub inputs : List ℕ
    pub vk : Bytes
    pub stored_params : get_params ext s.kv ≡ ok params
    pub bound : BindsTransact ext msg params ext.module_address inputs
    pub key : stored_key ext (get_verification_key_from_state s.kv (codes "transact")) ≡ ok vk
    pub accepted : ext.honk_verify vk msg.proof inputs ≡ some true
    pub registration : get_reg_merkle_root ext s.kv ≡ msg.registration_root
    pub first_rooted : IsRooted s bound.first_nullifier bound.first_root
    pub second_rooted : IsRooted s bound.second_nullifier bound.second_root

  -- A Transact that succeeds names the current registration root; each of its inputs has a zero
  -- nullifier or a Merkle root that IsValidRootAnyTree accepts; and its proof was accepted under
  -- the stored transact key on 23 public inputs that are, position by position, the field elements
  -- of the message's nullifiers, roots, output notes, withdrawal, addresses, denomination, fee and
  -- registration root, the stored chain binding and auditor key, and the pool's address. All of
  -- that is as the state was before the message.
  pub transact-Proven :
      (msg : MsgTransact) (s s' : State) (r : TransactResponse)
      → transact ext msg s ≡ (ok r, s')
      → Proven msg s
  unfolding root_index_key key_equal
  transact-Proven msg s s' r h =
      let (s1, s2, u, one, two, rest) = transact-rounds ext msg s s' r h in
      let (_, s3, checked, _) = bind-run (check_transact_proof ext msg) _ s2 s' r rest in
      let (p, at_p, inputs, assembled, vk, key, accepted) =
        check_transact_proof-eq-ok msg s2 s3 _ checked in
      let binds =
        assemble_transact_public_inputs-BindsTransact ext msg p ext.module_address inputs
          assembled in
      let (at_n1, at_n2) = binds.nullifiers in
      let (at_r1, at_r2) = binds.merkle_roots in
      let k = root_index_key ext binds.second_root in
      let same_root =
        Preserves-after (spend_input ext msg 0) s s1 (ok u)
          (spend_input-Reads ext k (get s.kv k) (λ b. refl) msg 0) one refl in
      record {
        params = p;
        inputs = inputs;
        vk = vk;
        stored_params = sym (rounds-get_params msg s s1 s2 u one two) ∙ at_p;
        bound = binds;
        key =
            ap (stored_key ext)
              (sym (rounds-get_verification_key msg s s1 s2 u (codes "transact") one two))
            ∙ key;
        accepted = accepted;
        registration = transact-reg_root msg s s' r h;
        first_rooted =
            spend_input-IsRooted msg 0 binds.first_nullifier binds.first_root s s1 u at_n1 at_r1
              one;
        second_rooted =
            elim (spend_input-IsRooted msg 1 binds.second_nullifier binds.second_root s1 s2 u at_n2
              at_r2 two) [
                | inl dummy ↦ inl dummy
                | inr valid ↦
                    inr
                      (sym (is_valid_root_any_tree-reads s s1 binds.second_root same_root) ∙ valid)
              ];
      }
