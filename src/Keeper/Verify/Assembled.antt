-- ===== src/Keeper/Verify/Assembled.antt =====
-- AssembleTransactPublicInputs: what each of the 23 public inputs stands for, by its position.
use cosmos_nixpool.Prelude.{
  ℕ, ◌≤◌, ◌<◌, ◌≡◌, refl, sym, subst, true, false, List, [], ◌∷◌, Bytes, length, take, drop, leb,
  is_empty, Option, none, some, ℤ, arith, ◌⊎◌, inl, inr, Bool-cases,
}
use cosmos_nixpool.External.{External}
use cosmos_nixpool.Field.{set_bytes, set_big_int}
use cosmos_nixpool.Types.Errors.{ok, bind-eq-ok, guarded-eq-ok, ok_injective, invalid_public_inputs}
use cosmos_nixpool.Types.Params.{Params}
use cosmos_nixpool.Types.Msgs.{MsgTransact, OutputNote, is_set_amount}
use cosmos_nixpool.Keeper.Verify.{
  at, input, transact_pi_count, int_element, amount_element, string_element, auditor_element,
  string_to_field_element, assemble_transact_public_inputs,
}

module _ (ext : External) where
  -- An input for an optional amount: zero where it is not set, else the number's field element.
  abbrev pub BindsAmount : Bytes → ℕ → Type 0
  BindsAmount s x =
      ((is_set_amount s ≡ false) × (x ≡ 0))
      ⊎ ((is_set_amount s ≡ true)
          × (v : ℤ) × (ext.new_int_from_string s ≡ some v)
          × (x ≡ set_big_int ext v))

  -- An input for an optional string: zero where it is empty, else its hash.
  abbrev pub BindsString : Bytes → ℕ → Type 0
  BindsString s x =
      ((is_empty s ≡ true) × (x ≡ 0)) ⊎ ((is_empty s ≡ false) × (x ≡ string_to_field_element ext s))

  -- The inputs for the auditor's key: its coordinates, or zeros where the key is too short.
  abbrev pub BindsKey : Bytes → ℕ → ℕ → Type 0
  BindsKey key x y =
      ((length key < 64) × (x ≡ 0) × (y ≡ 0))
      ⊎ ((64 ≤ length key)
          × (x ≡ set_bytes ext (take 32 key))
          × (y ≡ set_bytes ext (take 32 (drop 32 key))))

  -- The inputs for one output note, given by its four positions.
  pub record BindsNote (inputs : List ℕ) (o : OutputNote) (hash enc x y recipient : ℕ)
      : Type 0 where
    pub note_hash : input inputs hash ≡ set_bytes ext o.note_hash
    pub auditor_enc : input inputs enc ≡ set_bytes ext o.auditor_enc
    pub auth_key_x : input inputs x ≡ set_bytes ext o.auditor_auth_key_x
    pub auth_key_y : input inputs y ≡ set_bytes ext o.auditor_auth_key_y
    pub enc_recipient : input inputs recipient ≡ set_bytes ext o.auditor_enc_recipient

  -- What the assembled public inputs of a Transact say.
  pub record BindsTransact (msg : MsgTransact) (p : Params) (pool : Bytes) (inputs : List ℕ)
      : Type 0 where
    pub first_nullifier : Bytes
    pub second_nullifier : Bytes
    pub first_root : Bytes
    pub second_root : Bytes
    pub first_output : OutputNote
    pub second_output : OutputNote
    pub nullifiers :
        (at msg.nullifiers 0 ≡ ok first_nullifier) × (at msg.nullifiers 1 ≡ ok second_nullifier)
    pub merkle_roots :
        (at msg.merkle_roots 0 ≡ ok first_root) × (at msg.merkle_roots 1 ≡ ok second_root)
    pub outputs : (at msg.outputs 0 ≡ ok first_output) × (at msg.outputs 1 ≡ ok second_output)
    pub count : length inputs ≡ transact_pi_count
    pub nullifier_inputs :
        (input inputs 0 ≡ set_bytes ext first_nullifier)
        × (input inputs 1 ≡ set_bytes ext second_nullifier)
    pub root_inputs :
        (input inputs 2 ≡ set_bytes ext first_root) × (input inputs 3 ≡ set_bytes ext second_root)
    pub first_note : BindsNote inputs first_output 4 12 13 14 21
    pub second_note : BindsNote inputs second_output 5 15 16 17 22
    pub withdrawal : BindsAmount msg.withdraw_amount (input inputs 6)
    pub withdraw_address : BindsString msg.withdraw_address (input inputs 7)
    pub denom : BindsString msg.denom (input inputs 8)
    pub configured : is_empty p.chain_binding ≡ false
    pub chain : input inputs 9 ≡ set_bytes ext p.chain_binding
    pub pool_address : input inputs 10 ≡ set_bytes ext pool
    pub relayer_fee : BindsAmount msg.relayer_fee (input inputs 11)
    pub auditor : BindsKey p.auditor_pub_key (input inputs 18) (input inputs 19)
    pub registration_root : input inputs 20 ≡ set_bytes ext msg.registration_root

  int_element-eq-ok :
      (o : Option ℤ) (x : ℕ)
      → int_element ext o ≡ ok x
      → (v : ℤ) × (o ≡ some v) × (x ≡ set_big_int ext v)
  int_element-eq-ok none x h = cc
  int_element-eq-ok (some v) x h = (v, refl, sym (ok_injective _ _ h))

  amount_element-BindsAmount : (s : Bytes) (x : ℕ) → amount_element ext s ≡ ok x → BindsAmount s x
  unfolding amount_element
  amount_element-BindsAmount s x h = elim (Bool-cases (is_set_amount s)) [
    | inl set ↦
        let (v, parsed, value) = int_element-eq-ok (ext.new_int_from_string s) x (rw set at h) in
        inr (set, v, parsed, value)
    | inr unset ↦ inl (unset, sym (ok_injective _ _ (rw unset at h)))
  ]

  string_element-BindsString : (s : Bytes) → BindsString s (string_element ext s)
  unfolding string_element
  string_element-BindsString s = elim (Bool-cases (is_empty s)) [
    | inl empty ↦ inl (empty, rw empty refl)
    | inr full ↦ inr (full, rw full refl)
  ]

  auditor_element-BindsKey :
      (key : Bytes)
      → BindsKey key
          (auditor_element ext key (take 32 key))
          (auditor_element ext key (take 32 (drop 32 key)))
  unfolding auditor_element
  auditor_element-BindsKey key = elim (Bool-cases (leb 64 (length key))) [
    | inl long ↦ inr (ground arith, rw long refl, rw long refl)
    | inr short ↦ inl (ground arith, rw short refl, rw short refl)
  ]

  -- The vector of the inputs, in the circuit's order.
  abbrev vector :
      MsgTransact
      → Params
      → Bytes
      → Bytes
      → Bytes
      → Bytes
      → Bytes
      → OutputNote
      → OutputNote
      → ℕ
      → ℕ
      → List ℕ
  vector msg p pool n1 n2 r1 r2 o1 o2 withdraw fee =
      set_bytes ext n1
      ∷ set_bytes ext n2
      ∷ set_bytes ext r1
      ∷ set_bytes ext r2
      ∷ set_bytes ext o1.note_hash
      ∷ set_bytes ext o2.note_hash
      ∷ withdraw
      ∷ string_element ext msg.withdraw_address
      ∷ string_element ext msg.denom
      ∷ set_bytes ext p.chain_binding
      ∷ set_bytes ext pool
      ∷ fee
      ∷ set_bytes ext o1.auditor_enc
      ∷ set_bytes ext o1.auditor_auth_key_x
      ∷ set_bytes ext o1.auditor_auth_key_y
      ∷ set_bytes ext o2.auditor_enc
      ∷ set_bytes ext o2.auditor_auth_key_x
      ∷ set_bytes ext o2.auditor_auth_key_y
      ∷ auditor_element ext p.auditor_pub_key (take 32 p.auditor_pub_key)
      ∷ auditor_element ext p.auditor_pub_key (take 32 (drop 32 p.auditor_pub_key))
      ∷ set_bytes ext msg.registration_root
      ∷ set_bytes ext o1.auditor_enc_recipient
      ∷ set_bytes ext o2.auditor_enc_recipient
      ∷ []

  -- What AssembleTransactPublicInputs gives is bound to every field of the message that the circuit
  -- reads, to the chain, to the pool's address and to the auditor's key, each at its position.
  pub assemble_transact_public_inputs-BindsTransact :
      (msg : MsgTransact) (p : Params) (pool : Bytes) (inputs : List ℕ)
      → assemble_transact_public_inputs ext msg p pool ≡ ok inputs
      → BindsTransact msg p pool inputs
  unfolding assemble_transact_public_inputs
  assemble_transact_public_inputs-BindsTransact msg p pool inputs h =
      let (n1, at_n1, h1) = bind-eq-ok (at msg.nullifiers 0) _ inputs h in
      let (n2, at_n2, h2) = bind-eq-ok (at msg.nullifiers 1) _ inputs h1 in
      let (r1, at_r1, h3) = bind-eq-ok (at msg.merkle_roots 0) _ inputs h2 in
      let (r2, at_r2, h4) = bind-eq-ok (at msg.merkle_roots 1) _ inputs h3 in
      let (o1, at_o1, h5) = bind-eq-ok (at msg.outputs 0) _ inputs h4 in
      let (o2, at_o2, h6) = bind-eq-ok (at msg.outputs 1) _ inputs h5 in
      let (w, at_w, h7) = bind-eq-ok (amount_element ext msg.withdraw_amount) _ inputs h6 in
      let (binding, h8) =
        guarded-eq-ok (is_empty p.chain_binding) invalid_public_inputs _ inputs h7 in
      let (f, at_f, h9) = bind-eq-ok (amount_element ext msg.relayer_fee) _ inputs h8 in
      subst (BindsTransact msg p pool)
        (ok_injective (vector msg p pool n1 n2 r1 r2 o1 o2 w f) inputs h9)
        (record {
          first_nullifier = n1;
          second_nullifier = n2;
          first_root = r1;
          second_root = r2;
          first_output = o1;
          second_output = o2;
          nullifiers = (at_n1, at_n2);
          merkle_roots = (at_r1, at_r2);
          outputs = (at_o1, at_o2);
          count = refl;
          nullifier_inputs = (refl, refl);
          root_inputs = (refl, refl);
          first_note = record {
            note_hash = refl;
            auditor_enc = refl;
            auth_key_x = refl;
            auth_key_y = refl;
            enc_recipient = refl;
          };
          second_note = record {
            note_hash = refl;
            auditor_enc = refl;
            auth_key_x = refl;
            auth_key_y = refl;
            enc_recipient = refl;
          };
          withdrawal = amount_element-BindsAmount msg.withdraw_amount w at_w;
          withdraw_address = string_element-BindsString msg.withdraw_address;
          denom = string_element-BindsString msg.denom;
          configured = binding;
          chain = refl;
          pool_address = refl;
          relayer_fee = amount_element-BindsAmount msg.relayer_fee f at_f;
          auditor = auditor_element-BindsKey p.auditor_pub_key;
          registration_root = refl;
        })
