-- ===== src/Keeper/Genesis/Frame.antt =====
-- Which keys each part of InitGenesis writes.
use cosmos_nixpool.Prelude.{
  ℕ, suc, ◌%◌, ◌^◌, ◌≡◌, refl, ◌∙◌, true, false, Bool, Option, some, none, List, [], ◌∷◌, Bytes,
  leb, ◌==◌, ◌||◌, ◌&&◌, arith,
}
use cosmos_nixpool.External.{External}
use cosmos_nixpool.Field.{put_uint64}
use cosmos_nixpool.Types.Params.{Params}
use cosmos_nixpool.Types.Keys.{Key, reg_commitment_used_key}
use cosmos_nixpool.Types.Keys.Equality.{key_equal-family, family}
use cosmos_nixpool.Types.Genesis.{
  Value, TreeState, AuditorDataEntry, VerificationKeyEntry, GenesisState,
}
use cosmos_nixpool.Store.{Store, get, set, get-set_ne}
use cosmos_nixpool.Keeper.Action.{modify, ◌>>=◌}
use cosmos_nixpool.Keeper.Action.Preserves.{
  Preserves, Preserves-modify, Preserves-bind, Preserves-if, Preserves-pure, Preserves-lift,
  preserving,
}
use cosmos_nixpool.Keeper.Params.{set_params}
use cosmos_nixpool.Keeper.RootIndex.{slice_of, set_tree_root_indexed, set_root_history_indexed}
use cosmos_nixpool.Keeper.RootIndex.Invariant.Writes.{get-set_tree_root_ne, get-set_root_history_ne}
use cosmos_nixpool.Keeper.Forest.{set_active_tree_id, set_tree_count}
use cosmos_nixpool.Keeper.Genesis.{
  set_value, set_each, set_positive, import_slot, import_root_history, import_tree_root,
  import_tree, import_trees, import_reg_commitments, import_reg_root, mark_each,
  import_auditor_data, import_verification_keys, import_forest, import_registration, import_entries,
  params_or_default,
}

-- The families that a part writes: the forest (beside the parameters), the registration tree, the marks,
-- the auditor data and the verification keys.
abbrev pub in_forest : Key → Bool
in_forest k = leb (family k) 7

abbrev pub in_registration : Key → Bool
in_registration k = (leb 8 (family k) && leb (family k) 11) || family k == 13

abbrev pub in_marks : Key → Bool
in_marks k = family k == 12 || family k == 14

abbrev pub in_entries : Key → Bool
in_entries k = family k == 16 || family k == 17

module _ (ext : External) (k : Key) (v : Option Bytes) where
  abbrev pub Reads : Store → Type 0
  Reads s = get s k ≡ v

  pub modify-set-Reads :
      (j : Key) (b : Bytes) → (family j == family k) ≡ false → Preserves Reads (modify (set j b))
  modify-set-Reads j b ne =
      Preserves-modify (set j b) (λ s h. get-set_ne s j k b (key_equal-family j k ne) ∙ h)

  set_value-Reads :
      (j : Key) (b : Value) → (family j == family k) ≡ false → Preserves Reads (set_value j b)
  unfolding set_value
  set_value-Reads j none ne = search preserving
  set_value-Reads j (some b) ne = modify-set-Reads j b ne

  set_each-Reads :
      (key : ℕ → Key) (i : ℕ) (values : List Value)
      → ((n : ℕ) → (family (key n) == family k) ≡ false)
      → Preserves Reads (set_each key i values)
  unfolding set_each
  set_each-Reads key i [] ne = search preserving
  set_each-Reads key i (b ∷ bs) ne =
      let first = set_value-Reads (key i) b (ne i) in
      let rest = set_each-Reads key (suc i) bs ne in search (preserving, first, rest) depth 6

  set_positive-Reads :
      (j : Key) (n : ℕ) → (family j == family k) ≡ false → Preserves Reads (set_positive j n)
  unfolding set_positive
  set_positive-Reads j n ne = search (preserving, modify-set-Reads) depth 6

  pub mark_each-Reads :
      (key : Bytes → Key) (bs : List Bytes)
      → ((b : Bytes) → (family (key b) == family k) ≡ false)
      → Preserves Reads (mark_each ext key bs)
  unfolding mark_each
  mark_each-Reads key [] ne = search preserving
  mark_each-Reads key (b ∷ bs) ne =
      let first = modify-set-Reads (key b) (1 ∷ []) (ne b) in
      let rest = mark_each-Reads key bs ne in search (preserving, first, rest) depth 6

  module _ (elsewhere : in_forest k ≡ false) where
    other_family : (n : ℕ) → leb n 7 ≡ true → (n == family k) ≡ false
    other_family n h = ground arith

    import_slot-Reads : (t i : ℕ) (b : Value) → Preserves Reads (import_slot ext t i b)
    unfolding import_slot
    import_slot-Reads t i none = search preserving depth 6
    import_slot-Reads t i (some root) =
        Preserves-modify (set_root_history_indexed ext t i root) (λ s h.
          get-set_root_history_ne ext t i root s k (ground arith)
            (key_equal-family (Key.root_history t i) k (other_family 2 refl))
          ∙ h)

    import_root_history-Reads :
        (t i : ℕ) (bs : List Value) → Preserves Reads (import_root_history ext t i bs)
    unfolding import_root_history
    import_root_history-Reads t i [] = search preserving
    import_root_history-Reads t i (b ∷ bs) =
        Preserves-bind _ _ (import_slot-Reads t i b) (λ u. import_root_history-Reads t (suc i) bs)

    set_tree_root-Reads :
        (t : ℕ) (root : Bytes) → Preserves Reads (modify (set_tree_root_indexed ext t root))
    set_tree_root-Reads t root = Preserves-modify (set_tree_root_indexed ext t root) (λ s h.
        get-set_tree_root_ne ext t root s k (ground arith)
          (key_equal-family (Key.tree_root t) k (other_family 3 refl))
        ∙ h)

    import_tree_root-Reads : (t : ℕ) (root : Bytes) → Preserves Reads (import_tree_root ext t root)
    unfolding import_tree_root
    import_tree_root-Reads t root =
        Preserves-if _ _ _ (set_tree_root-Reads t root) (Preserves-pure tt)

    import_tree-Reads : (tree : TreeState) → Preserves Reads (import_tree ext tree)
    unfolding import_tree
    import_tree-Reads tree =
        let t = tree.tree_id in
        Preserves-bind _ _
          (set_each-Reads (λ i. Key.commitment t i) 0 tree.commitments (λ n. other_family 0 refl))
          (λ u.
            Preserves-bind _ _
              (set_each-Reads (λ i. Key.frontier t (i % 2 ^ 32)) 0 tree.frontier
                (λ n. other_family 1 refl))
              (λ u.
                Preserves-bind _ _
                  (set_positive-Reads (Key.tree_next_index t) tree.next_index (other_family 5 refl))
                  (λ u.
                    Preserves-bind _ _ (import_tree_root-Reads t tree.merkle_root)
                      (λ u. import_root_history-Reads t 0 tree.root_history))))

    import_trees-Reads : (trees : List TreeState) → Preserves Reads (import_trees ext trees)
    unfolding import_trees
    import_trees-Reads [] = search preserving
    import_trees-Reads (tree ∷ trees) =
        Preserves-bind _ _ (import_tree-Reads tree) (λ u. import_trees-Reads trees)

    set_params-Reads :
        (p : Params) → (15 == family k) ≡ false → Preserves Reads (modify (set_params ext p))
    unfolding set_params
    set_params-Reads p ne = modify-set-Reads Key.params (ext.marshal_params p) ne

    set_active_tree_id-Reads : (n : ℕ) → Preserves Reads (modify (set_active_tree_id n))
    unfolding set_active_tree_id
    set_active_tree_id-Reads n =
        modify-set-Reads Key.active_tree_id (put_uint64 n) (other_family 6 refl)

    set_tree_count-Reads : (n : ℕ) → Preserves Reads (modify (set_tree_count n))
    unfolding set_tree_count
    set_tree_count-Reads n = modify-set-Reads Key.tree_count (put_uint64 n) (other_family 7 refl)

    -- Behind the parameters.
    pub import_ids-Reads :
        (gs : GenesisState)
        → Preserves Reads (
            import_trees ext gs.trees >>= λ u.
            modify (set_active_tree_id gs.active_tree_id) >>= λ u.
            modify (set_tree_count gs.tree_count))
    import_ids-Reads gs = Preserves-bind _ _ (import_trees-Reads gs.trees) (λ u.
        Preserves-bind _ _ (set_active_tree_id-Reads gs.active_tree_id)
          (λ u. set_tree_count-Reads gs.tree_count))

    pub import_forest-Reads :
        (gs : GenesisState) → (15 == family k) ≡ false → Preserves Reads (import_forest ext gs)
    unfolding import_forest
    import_forest-Reads gs ne =
        Preserves-bind _ _ (set_params-Reads (params_or_default ext gs.params) ne)
          (λ u. import_ids-Reads gs)

  module _ (elsewhere : in_registration k ≡ false) where
    other_reg_family : (n : ℕ) → ((leb 8 n && leb n 11) || n == 13) ≡ true → (n == family k) ≡ false
    other_reg_family n h = ground arith

    reg_leaf-Reads : (i : ℕ) (c : Value) → Preserves Reads (set_value (Key.reg_commitment i) c)
    reg_leaf-Reads i c = set_value-Reads (Key.reg_commitment i) c (other_reg_family 8 refl)

    reg_used-Reads :
        (c : Bytes) → Preserves Reads (modify (set (reg_commitment_used_key ext c) (1 ∷ [])))
    unfolding reg_commitment_used_key
    reg_used-Reads c = modify-set-Reads _ (1 ∷ []) (other_reg_family 13 refl)

    import_reg_commitments-Reads :
        (i : ℕ) (cs : List Value) → Preserves Reads (import_reg_commitments ext i cs)
    unfolding import_reg_commitments
    import_reg_commitments-Reads i [] = search preserving
    import_reg_commitments-Reads i (c ∷ cs) = Preserves-bind _ _ (reg_leaf-Reads i c) (λ u.
        Preserves-bind _ _ (reg_used-Reads (slice_of c))
          (λ u. import_reg_commitments-Reads (suc i) cs))

    reg_frontier-Reads :
        (fs : List Value) → Preserves Reads (set_each (λ i. Key.reg_frontier (i % 2 ^ 32)) 0 fs)
    reg_frontier-Reads fs =
        set_each-Reads (λ i. Key.reg_frontier (i % 2 ^ 32)) 0 fs (λ n. other_reg_family 9 refl)

    reg_next_index-Reads : (n : ℕ) → Preserves Reads (set_positive Key.reg_next_index n)
    reg_next_index-Reads n = set_positive-Reads Key.reg_next_index n (other_reg_family 11 refl)

    import_reg_root-Reads : (root : Bytes) → Preserves Reads (import_reg_root ext root)
    unfolding import_reg_root
    import_reg_root-Reads root =
        Preserves-if _ _ _ (modify-set-Reads Key.reg_root root (other_reg_family 10 refl))
          (Preserves-pure tt)

    pub import_registration-Reads :
        (gs : GenesisState) → Preserves Reads (import_registration ext gs)
    unfolding import_registration
    import_registration-Reads gs =
        search
          (
            preserving, reg_frontier-Reads, reg_next_index-Reads, import_reg_root-Reads,
            import_reg_commitments-Reads,
          )
          depth 10

  module _ (elsewhere : in_entries k ≡ false) where
    auditor_payload-Reads :
        (e : AuditorDataEntry) → Preserves Reads (set_value (Key.auditor_data e.tx_hash) e.payload)
    auditor_payload-Reads e = set_value-Reads (Key.auditor_data e.tx_hash) e.payload (ground arith)

    vk-Reads : (name b : Bytes) → Preserves Reads (modify (set (Key.vk name) b))
    vk-Reads name b = modify-set-Reads (Key.vk name) b (ground arith)

    import_auditor_data-Reads :
        (entries : List AuditorDataEntry) → Preserves Reads (import_auditor_data ext entries)
    unfolding import_auditor_data
    import_auditor_data-Reads [] = search preserving
    import_auditor_data-Reads (e ∷ entries) =
        Preserves-bind _ _ (auditor_payload-Reads e) (λ u. import_auditor_data-Reads entries)

    import_verification_keys-Reads :
        (entries : List VerificationKeyEntry)
        → Preserves Reads (import_verification_keys ext entries)
    unfolding import_verification_keys
    import_verification_keys-Reads [] = search preserving
    import_verification_keys-Reads (e ∷ entries) =
        Preserves-bind _ _ (Preserves-lift _) (λ canonical.
          Preserves-bind _ _ (vk-Reads e.circuit_name canonical)
            (λ u. import_verification_keys-Reads entries))

    pub import_entries-Reads : (gs : GenesisState) → Preserves Reads (import_entries ext gs)
    unfolding import_entries
    import_entries-Reads gs =
        search (preserving, import_auditor_data-Reads, import_verification_keys-Reads) depth 6
