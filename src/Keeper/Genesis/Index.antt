-- ===== src/Keeper/Genesis/Index.antt =====
-- InitGenesis populates the root index: the imported roots are counted exactly.
use cosmos_nixpool.Prelude.{
  ℕ, suc, ◌+◌, ◌*◌, ◌%◌, ◌^◌, ◌≤◌, ◌<◌, ◌≡◌, refl, Bool, true, some, none, List, [], ◌∷◌, Bytes,
  ◌==◌, not, ◌&&◌, length, All, arith,
}
use cosmos_nixpool.External.{External}
use cosmos_nixpool.Field.{put_uint64}
use cosmos_nixpool.Types.Keys.{
  Key, max_root_history, commitment_used_key, reg_commitment_used_key, nullifier_key,
}
use cosmos_nixpool.Types.Keys.Equality.{family}
use cosmos_nixpool.Types.Genesis.{
  Value, TreeState, AuditorDataEntry, VerificationKeyEntry, GenesisState,
}
use cosmos_nixpool.Store.{Store, set}
use cosmos_nixpool.Keeper.Action.{modify}
use cosmos_nixpool.Keeper.Action.Preserves.{
  Preserves, Preserves-modify, Preserves-bind, Preserves-if, Preserves-pure, Preserves-lift,
  preserving,
}
use cosmos_nixpool.Keeper.Params.{set_params}
use cosmos_nixpool.Keeper.RootIndex.{set_tree_root_indexed, set_root_history_indexed}
use cosmos_nixpool.Keeper.RootIndex.Invariant.{IsIndexed}
use cosmos_nixpool.Keeper.RootIndex.Invariant.Writes.{
  set_tree_root_indexed-IsIndexed, set_root_history_indexed-IsIndexed,
}
use cosmos_nixpool.Keeper.Forest.{set_active_tree_id, set_tree_count}
use cosmos_nixpool.Keeper.Forest.Index.{set-IsIndexed}
use cosmos_nixpool.Keeper.Genesis.{
  set_value, set_each, set_positive, import_slot, import_root_history, import_tree_root,
  import_tree, import_trees, import_reg_commitments, import_reg_root, mark_each,
  import_auditor_data, import_verification_keys, import_forest, import_registration, import_marks,
  import_entries, init_genesis,
}

-- No root slot and no entry of the index.
abbrev is_plain : Key → Bool
is_plain k = not (family k == 3) && (not (family k == 2) && not (family k == 4))

-- One of `n` trees, with a history that fits in the ring.
abbrev pub IsTreeOf : ℕ → TreeState → Type 0
IsTreeOf n tree = (tree.tree_id < n) × (length tree.root_history ≤ max_root_history)

module _ (ext : External) (n : ℕ) (room : n * 101 + 1 < 2 ^ 64) where
  abbrev Exact : Store → Type 0
  Exact = IsIndexed ext n

  modify-set-Exact : (k : Key) (b : Bytes) → is_plain k ≡ true → Preserves Exact (modify (set k b))
  modify-set-Exact k b plain =
      Preserves-modify (set k b) (λ s exact.
        set-IsIndexed ext n room k b s (ground arith) (ground arith) (ground arith) exact)

  set_value-Exact : (k : Key) (b : Value) → is_plain k ≡ true → Preserves Exact (set_value k b)
  unfolding set_value
  set_value-Exact k none plain = search preserving
  set_value-Exact k (some b) plain = modify-set-Exact k b plain

  set_each-Exact :
      (key : ℕ → Key) (i : ℕ) (values : List Value)
      → ((m : ℕ) → is_plain (key m) ≡ true)
      → Preserves Exact (set_each key i values)
  unfolding set_each
  set_each-Exact key i [] plain = Preserves-pure tt
  set_each-Exact key i (b ∷ bs) plain =
      Preserves-bind _ _ (set_value-Exact (key i) b (plain i))
        (λ u. set_each-Exact key (suc i) bs plain)

  set_positive-Exact : (k : Key) (m : ℕ) → is_plain k ≡ true → Preserves Exact (set_positive k m)
  unfolding set_positive
  set_positive-Exact k m plain =
      Preserves-if _ _ _ (modify-set-Exact k (put_uint64 m) plain) (Preserves-pure tt)

  mark_each-Exact :
      (key : Bytes → Key) (bs : List Bytes)
      → ((b : Bytes) → is_plain (key b) ≡ true)
      → Preserves Exact (mark_each ext key bs)
  unfolding mark_each
  mark_each-Exact key [] plain = Preserves-pure tt
  mark_each-Exact key (b ∷ bs) plain =
      Preserves-bind _ _ (modify-set-Exact (key b) (1 ∷ []) (plain b))
        (λ u. mark_each-Exact key bs plain)

  import_slot-Exact :
      (t i : ℕ) (b : Value) → t < n → i < max_root_history → Preserves Exact (import_slot ext t i b)
  unfolding import_slot
  import_slot-Exact t i none ht hi = search preserving depth 6
  import_slot-Exact t i (some root) ht hi =
      Preserves-modify (set_root_history_indexed ext t i root)
        (λ s exact. set_root_history_indexed-IsIndexed ext n t i root s ht hi room exact)

  import_root_history-Exact :
      (t i : ℕ) (bs : List Value)
      → t < n
      → i + length bs ≤ max_root_history
      → Preserves Exact (import_root_history ext t i bs)
  unfolding import_root_history
  import_root_history-Exact t i [] ht fits = Preserves-pure tt
  import_root_history-Exact t i (b ∷ bs) ht fits =
      Preserves-bind _ _ (import_slot-Exact t i b ht (omega (arith, fits)))
        (λ u. import_root_history-Exact t (suc i) bs ht (omega (arith, fits)))

  import_tree_root-Exact :
      (t : ℕ) (root : Bytes) → t < n → Preserves Exact (import_tree_root ext t root)
  unfolding import_tree_root
  import_tree_root-Exact t root ht =
      Preserves-if _ _ _
        (Preserves-modify (set_tree_root_indexed ext t root)
          (λ s exact. set_tree_root_indexed-IsIndexed ext n t root s ht room exact))
        (Preserves-pure tt)

  import_tree-Exact : (tree : TreeState) → IsTreeOf n tree → Preserves Exact (import_tree ext tree)
  unfolding import_tree
  import_tree-Exact tree (ht, fits) =
      let t = tree.tree_id in
      Preserves-bind _ _ (set_each-Exact (λ i. Key.commitment t i) 0 tree.commitments (λ m. refl))
        (λ u.
          Preserves-bind _ _
            (set_each-Exact (λ i. Key.frontier t (i % 2 ^ 32)) 0 tree.frontier (λ m. refl))
            (λ u.
              Preserves-bind _ _ (set_positive-Exact (Key.tree_next_index t) tree.next_index refl)
                (λ u.
                  Preserves-bind _ _ (import_tree_root-Exact t tree.merkle_root ht) (λ u.
                    import_root_history-Exact t 0 tree.root_history ht (omega (arith, fits))))))

  import_trees-Exact :
      (trees : List TreeState) → All (IsTreeOf n) trees → Preserves Exact (import_trees ext trees)
  unfolding import_trees
  import_trees-Exact [] all = Preserves-pure tt
  import_trees-Exact (tree ∷ trees) (first, rest) =
      Preserves-bind _ _ (import_tree-Exact tree first) (λ u. import_trees-Exact trees rest)

  import_forest-Exact :
      (gs : GenesisState) → All (IsTreeOf n) gs.trees → Preserves Exact (import_forest ext gs)
  unfolding import_forest set_params set_active_tree_id set_tree_count
  import_forest-Exact gs all = Preserves-bind _ _ (modify-set-Exact Key.params _ refl) (λ u.
      Preserves-bind _ _ (import_trees-Exact gs.trees all) (λ u.
        Preserves-bind _ _ (modify-set-Exact Key.active_tree_id _ refl)
          (λ u. modify-set-Exact Key.tree_count _ refl)))

  import_reg_commitments-Exact :
      (i : ℕ) (cs : List Value) → Preserves Exact (import_reg_commitments ext i cs)
  unfolding import_reg_commitments reg_commitment_used_key
  import_reg_commitments-Exact i [] = Preserves-pure tt
  import_reg_commitments-Exact i (c ∷ cs) =
      Preserves-bind _ _ (set_value-Exact (Key.reg_commitment i) c refl) (λ u.
        Preserves-bind _ _ (modify-set-Exact _ (1 ∷ []) refl)
          (λ u. import_reg_commitments-Exact (suc i) cs))

  import_registration-Exact : (gs : GenesisState) → Preserves Exact (import_registration ext gs)
  unfolding import_registration import_reg_root
  import_registration-Exact gs =
      Preserves-bind _ _ (import_reg_commitments-Exact 0 gs.reg_commitments) (λ u.
        Preserves-bind _ _
          (set_each-Exact (λ i. Key.reg_frontier (i % 2 ^ 32)) 0 gs.reg_frontier (λ m. refl))
          (λ u.
            Preserves-bind _ _ (set_positive-Exact Key.reg_next_index gs.reg_next_index refl) (λ u.
              Preserves-if _ _ _ (modify-set-Exact Key.reg_root gs.reg_merkle_root refl)
                (Preserves-pure tt))))

  import_marks-Exact : (gs : GenesisState) → Preserves Exact (import_marks ext gs)
  unfolding import_marks nullifier_key commitment_used_key
  import_marks-Exact gs =
      Preserves-bind _ _ (mark_each-Exact (nullifier_key ext) gs.nullifiers (λ b. refl))
        (λ u. mark_each-Exact (commitment_used_key ext) gs.commitments_used (λ b. refl))

  import_auditor_data-Exact :
      (entries : List AuditorDataEntry) → Preserves Exact (import_auditor_data ext entries)
  unfolding import_auditor_data
  import_auditor_data-Exact [] = Preserves-pure tt
  import_auditor_data-Exact (e ∷ entries) =
      Preserves-bind _ _ (set_value-Exact (Key.auditor_data e.tx_hash) e.payload refl)
        (λ u. import_auditor_data-Exact entries)

  import_verification_keys-Exact :
      (entries : List VerificationKeyEntry) → Preserves Exact (import_verification_keys ext entries)
  unfolding import_verification_keys
  import_verification_keys-Exact [] = Preserves-pure tt
  import_verification_keys-Exact (e ∷ entries) = Preserves-bind _ _ (Preserves-lift _) (λ canonical.
      Preserves-bind _ _ (modify-set-Exact (Key.vk e.circuit_name) canonical refl)
        (λ u. import_verification_keys-Exact entries))

  pub init_genesis-Exact :
      (gs : GenesisState) → All (IsTreeOf n) gs.trees → Preserves Exact (init_genesis ext gs)
  unfolding init_genesis import_entries
  init_genesis-Exact gs all = Preserves-bind _ _ (import_forest-Exact gs all) (λ u.
      Preserves-bind _ _ (import_registration-Exact gs) (λ u.
        Preserves-bind _ _ (import_marks-Exact gs) (λ u.
          Preserves-bind _ _ (import_auditor_data-Exact gs.auditor_data)
            (λ u. import_verification_keys-Exact gs.verification_keys))))
