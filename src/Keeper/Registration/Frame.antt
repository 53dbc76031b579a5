-- ===== src/Keeper/Registration/Frame.antt =====
-- The registration tree's operations write its own keys only.
use cosmos_nixpool.Prelude.{ℕ, ◌+◌, ◌≡◌, ◌∙◌, false, Option, [], ◌∷◌, Bytes, ◌==◌}
use cosmos_nixpool.External.{External}
use cosmos_nixpool.Field.{put_uint64, to_bytes, set_bytes}
use cosmos_nixpool.Types.Keys.{Key, reg_commitment_used_key}
use cosmos_nixpool.Types.Keys.Equality.{key_equal-family, family}
use cosmos_nixpool.Store.{Store, get, set, get-set_ne}
use cosmos_nixpool.Keeper.Action.{modify, update}
use cosmos_nixpool.Keeper.Action.Preserves.{
  Preserves, Preserves-modify, Preserves-update, preserving,
}
use cosmos_nixpool.Keeper.Frontier.{climb}
use cosmos_nixpool.Keeper.Frontier.Climb.{climb_frame}
use cosmos_nixpool.Keeper.Registration.{
  append_leaf_single, insert_leaf_single_tree, insert_reg_commitment,
}

-- A key of none of the families that the registration tree writes.
pub record IsOutside (k : Key) : Type 0 where
  pub reg_commitment : (8 == family k) ≡ false
  pub reg_frontier : (9 == family k) ≡ false
  pub reg_root : (10 == family k) ≡ false
  pub reg_next_index : (11 == family k) ≡ false
  pub reg_commitment_used : (13 == family k) ≡ false

module _ (ext : External) (k : Key) (outside : IsOutside k) (v : Option Bytes) where
  abbrev pub Holds : Store → Type 0
  Holds s = get s k ≡ v

  set-Holds :
      (j : Key) (b : Bytes) (s : Store)
      → (family j == family k) ≡ false
      → Holds s
      → Holds (set j b s)
  set-Holds j b s ne h = get-set_ne s j k b (key_equal-family j k ne) ∙ h

  append_leaf-Holds :
      (c : Bytes) (depth index : ℕ) (s : Store)
      → Holds s
      → Holds
          (append_leaf_single ext c depth
            (λ i. Key.reg_commitment i)
            (λ l. Key.reg_frontier l)
            Key.reg_root
            Key.reg_next_index
            index
            s).1
  unfolding append_leaf_single
  append_leaf-Holds c depth index s h =
      let s1 = set (Key.reg_commitment index) c s in
      let w = climb ext (λ l. Key.reg_frontier l) depth 0 index (set_bytes ext c) s1 in
      set-Holds Key.reg_next_index (put_uint64 (index + 1)) (set Key.reg_root (to_bytes w.0) w.1)
        outside.reg_next_index
        (set-Holds Key.reg_root (to_bytes w.0) w.1 outside.reg_root (
          climb_frame ext (λ l. Key.reg_frontier l) depth 0 index (set_bytes ext c) s1 k
            (λ l _. key_equal-family (Key.reg_frontier l) k outside.reg_frontier)
          ∙ set-Holds (Key.reg_commitment index) c s outside.reg_commitment h))

  update_append-Holds :
      (c : Bytes) (depth index : ℕ)
      → Preserves Holds (
          update (
            append_leaf_single ext c depth
              (λ i. Key.reg_commitment i)
              (λ l. Key.reg_frontier l)
              Key.reg_root
              Key.reg_next_index
              index))
  update_append-Holds c depth index = Preserves-update _ (append_leaf-Holds c depth index)

  insert_leaf-Holds :
      (c : Bytes) (depth : ℕ)
      → Preserves Holds (
          insert_leaf_single_tree ext c depth
            (λ i. Key.reg_commitment i)
            (λ l. Key.reg_frontier l)
            Key.reg_root
            Key.reg_next_index)
  unfolding insert_leaf_single_tree
  insert_leaf-Holds c depth = search (preserving, update_append-Holds)

  mark_used-Holds :
      (c : Bytes) → Preserves Holds (modify (set (reg_commitment_used_key ext c) (1 ∷ [])))
  unfolding reg_commitment_used_key
  mark_used-Holds c =
      Preserves-modify (set (reg_commitment_used_key ext c) (1 ∷ []))
        (λ s. set-Holds (reg_commitment_used_key ext c) (1 ∷ []) s outside.reg_commitment_used)

  -- InsertRegCommitment leaves every key of another family alone, also where it fails.
  pub insert_reg_commitment-Holds : (c : Bytes) → Preserves Holds (insert_reg_commitment ext c)
  unfolding insert_reg_commitment
  insert_reg_commitment-Holds c = search (preserving, insert_leaf-Holds, mark_used-Holds) depth 8
