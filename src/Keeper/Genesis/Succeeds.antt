-- ===== src/Keeper/Genesis/Succeeds.antt =====
-- InitGenesis succeeds on a complete genesis state, from any store.
use cosmos_nixpool.Prelude.{
  ℕ, suc, ◌≡◌, refl, Bool, true, false, some, none, List, [], ◌∷◌, Bytes, All, if◌then◌else◌,
}
use cosmos_nixpool.External.{External}
use cosmos_nixpool.Types.Errors.{Result, ok}
use cosmos_nixpool.Types.Keys.{Key, commitment_used_key, nullifier_key}
use cosmos_nixpool.Types.Genesis.{
  Value, TreeState, AuditorDataEntry, VerificationKeyEntry, GenesisState,
}
use cosmos_nixpool.Store.{Store, is_some}
use cosmos_nixpool.Keeper.Action.{Action, pure, lift, modify, ◌>>=◌}
use cosmos_nixpool.Keeper.Verify.{normalize_vk_data}
use cosmos_nixpool.Keeper.Genesis.{
  set_value, set_each, set_positive, import_slot, import_root_history, import_tree_root,
  import_tree, import_trees, import_reg_commitments, import_reg_root, mark_each,
  import_auditor_data, import_verification_keys, import_forest, import_registration, import_marks,
  import_entries, init_genesis,
}

-- No error, from any store.
pub record Succeeds (action : Action Store (Unit {0})) : Type 0 where
  pub run : (s : Store) → (action s).0 ≡ ok tt

Succeeds-modify : (f : Store → Store) → Succeeds (modify f)
unfolding modify
Succeeds-modify f = record { run = λ s. refl }

Succeeds-pure : Succeeds (pure tt)
unfolding pure
Succeeds-pure = record { run = λ s. refl }

Succeeds-if :
    (b : Bool) (one other : Action Store (Unit {0}))
    → Succeeds one
    → Succeeds other
    → Succeeds (if b then one else other)
Succeeds-if true one other h k = h
Succeeds-if false one other h k = k

Succeeds-bind :
    (m : Action Store (Unit {0})) (f : Unit {0} → Action Store (Unit {0}))
    → Succeeds m
    → Succeeds (f tt)
    → Succeeds (m >>= f)
unfolding ◌>>=◌
Succeeds-bind m f h k = record { run = λ s. rw (h.run s) (k.run (m s).1) }

Succeeds-lift :
    (r : Result Bytes) (b : Bytes) (f : Bytes → Action Store (Unit {0}))
    → r ≡ ok b
    → Succeeds (f b)
    → Succeeds (lift r >>= f)
unfolding ◌>>=◌
Succeeds-lift r b f h k = record { run = λ s. rw h (k.run s) }

abbrev pub IsPresent : Value → Type 0
IsPresent v = is_some v ≡ true

abbrev pub IsCompleteTree : TreeState → Type 0
IsCompleteTree tree =
    All IsPresent tree.commitments × All IsPresent tree.frontier × All IsPresent tree.root_history

abbrev pub HasPayload : AuditorDataEntry → Type 0
HasPayload entry = IsPresent entry.payload

module _ (ext : External) where
  abbrev pub Normalizes : VerificationKeyEntry → Type 0
  Normalizes entry = (canonical : Bytes) × (normalize_vk_data ext entry.vk_data ≡ ok canonical)

  -- Every value that goes to the store is there, and every verification key can be read.
  pub record IsComplete (gs : GenesisState) : Type 0 where
    pub trees : All IsCompleteTree gs.trees
    pub reg_commitments : All IsPresent gs.reg_commitments
    pub reg_frontier : All IsPresent gs.reg_frontier
    pub auditor_data : All HasPayload gs.auditor_data
    pub verification_keys : All Normalizes gs.verification_keys

  set_value-Succeeds : (k : Key) (v : Value) → IsPresent v → Succeeds (set_value k v)
  unfolding set_value
  set_value-Succeeds k none h = cc
  set_value-Succeeds k (some b) h = Succeeds-modify _

  set_each-Succeeds :
      (key : ℕ → Key) (i : ℕ) (vs : List Value) → All IsPresent vs → Succeeds (set_each key i vs)
  unfolding set_each
  set_each-Succeeds key i [] all = Succeeds-pure
  set_each-Succeeds key i (v ∷ vs) (h, all) =
      Succeeds-bind _ _ (set_value-Succeeds (key i) v h) (set_each-Succeeds key (suc i) vs all)

  set_positive-Succeeds : (k : Key) (n : ℕ) → Succeeds (set_positive k n)
  unfolding set_positive
  set_positive-Succeeds k n = Succeeds-if _ _ _ (Succeeds-modify _) Succeeds-pure

  mark_each-Succeeds : (key : Bytes → Key) (bs : List Bytes) → Succeeds (mark_each ext key bs)
  unfolding mark_each
  mark_each-Succeeds key [] = Succeeds-pure
  mark_each-Succeeds key (b ∷ bs) =
      Succeeds-bind _ _ (Succeeds-modify _) (mark_each-Succeeds key bs)

  import_root_history-Succeeds :
      (t i : ℕ) (vs : List Value) → All IsPresent vs → Succeeds (import_root_history ext t i vs)
  unfolding import_root_history import_slot
  import_root_history-Succeeds t i [] all = Succeeds-pure
  import_root_history-Succeeds t i (none ∷ vs) (h, all) = cc
  import_root_history-Succeeds t i (some r ∷ vs) (h, all) =
      Succeeds-bind _ _ (Succeeds-modify _) (import_root_history-Succeeds t (suc i) vs all)

  import_tree-Succeeds : (tree : TreeState) → IsCompleteTree tree → Succeeds (import_tree ext tree)
  unfolding import_tree import_tree_root
  import_tree-Succeeds tree (leaves, levels, history) =
      Succeeds-bind _ _ (set_each-Succeeds _ 0 tree.commitments leaves) (
        Succeeds-bind _ _ (set_each-Succeeds _ 0 tree.frontier levels) (
          Succeeds-bind _ _ (set_positive-Succeeds _ tree.next_index) (
            Succeeds-bind _ _ (Succeeds-if _ _ _ (Succeeds-modify _) Succeeds-pure)
              (import_root_history-Succeeds tree.tree_id 0 tree.root_history history))))

  import_trees-Succeeds :
      (trees : List TreeState) → All IsCompleteTree trees → Succeeds (import_trees ext trees)
  unfolding import_trees
  import_trees-Succeeds [] all = Succeeds-pure
  import_trees-Succeeds (tree ∷ trees) (h, all) =
      Succeeds-bind _ _ (import_tree-Succeeds tree h) (import_trees-Succeeds trees all)

  import_reg_commitments-Succeeds :
      (i : ℕ) (vs : List Value) → All IsPresent vs → Succeeds (import_reg_commitments ext i vs)
  unfolding import_reg_commitments
  import_reg_commitments-Succeeds i [] all = Succeeds-pure
  import_reg_commitments-Succeeds i (v ∷ vs) (h, all) =
      Succeeds-bind _ _ (set_value-Succeeds _ v h)
        (Succeeds-bind _ _ (Succeeds-modify _) (import_reg_commitments-Succeeds (suc i) vs all))

  import_auditor_data-Succeeds :
      (es : List AuditorDataEntry) → All HasPayload es → Succeeds (import_auditor_data ext es)
  unfolding import_auditor_data
  import_auditor_data-Succeeds [] all = Succeeds-pure
  import_auditor_data-Succeeds (e ∷ es) (h, all) =
      Succeeds-bind _ _ (set_value-Succeeds _ e.payload h) (import_auditor_data-Succeeds es all)

  import_verification_keys-Succeeds :
      (es : List VerificationKeyEntry)
      → All Normalizes es
      → Succeeds (import_verification_keys ext es)
  unfolding import_verification_keys
  import_verification_keys-Succeeds [] all = Succeeds-pure
  import_verification_keys-Succeeds (e ∷ es) ((canonical, h), all) =
      Succeeds-lift _ canonical _ h
        (Succeeds-bind _ _ (Succeeds-modify _) (import_verification_keys-Succeeds es all))

  pub init_genesis-Succeeds : (gs : GenesisState) → IsComplete gs → Succeeds (init_genesis ext gs)
  unfolding init_genesis import_forest import_registration import_reg_root import_marks
      import_entries
  init_genesis-Succeeds gs complete =
      Succeeds-bind _ _ forest (Succeeds-bind _ _ registration (Succeeds-bind _ _ marks entries))
    where
      forest : Succeeds (import_forest ext gs)
      forest = Succeeds-bind _ _ (Succeeds-modify _) (
          Succeeds-bind _ _ (import_trees-Succeeds gs.trees complete.trees)
            (Succeeds-bind _ _ (Succeeds-modify _) (Succeeds-modify _)))

      registration : Succeeds (import_registration ext gs)
      registration =
          Succeeds-bind _ _
            (import_reg_commitments-Succeeds 0 gs.reg_commitments complete.reg_commitments)
            (Succeeds-bind _ _ (set_each-Succeeds _ 0 gs.reg_frontier complete.reg_frontier) (
              Succeeds-bind _ _ (set_positive-Succeeds _ gs.reg_next_index)
                (Succeeds-if _ _ _ (Succeeds-modify _) Succeeds-pure)))

      marks : Succeeds (import_marks ext gs)
      marks =
          Succeeds-bind _ _ (mark_each-Succeeds (nullifier_key ext) gs.nullifiers)
            (mark_each-Succeeds (commitment_used_key ext) gs.commitments_used)

      entries : Succeeds (import_entries ext gs)
      entries =
          Succeeds-bind _ _ (import_auditor_data-Succeeds gs.auditor_data complete.auditor_data)
            (import_verification_keys-Succeeds gs.verification_keys complete.verification_keys)
