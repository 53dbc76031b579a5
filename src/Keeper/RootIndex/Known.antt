-- ===== src/Keeper/RootIndex/Known.antt =====
-- IsKnownRoot, which scans one tree's slots, against IsValidRootAnyTree, which looks the root up.
use cosmos_nixpool.Prelude.{
  ℕ, zero, suc, ◌+◌, ◌<◌, ◌≡◌, ◌⊎◌, inl, inr, refl, Bool, true, false, ◌||◌, Bytes, arith,
  bytes_equal, bytes_equal→eq, bytes_equal_self, is_empty,
}
use cosmos_nixpool.External.{External}
use cosmos_nixpool.Field.{canonical_field_bytes}
use cosmos_nixpool.Types.Keys.{Key, max_root_history}
use cosmos_nixpool.Types.Params.{default_tree_depth}
use cosmos_nixpool.Store.{Store, get}
use cosmos_nixpool.Keeper.RootIndex.{
  slice_of, zero_root_bytes, in_history, is_known_root, is_valid_root_any_tree,
}
use cosmos_nixpool.Keeper.RootIndex.Invariant.{IsIndexed}
use cosmos_nixpool.Keeper.RootIndex.Membership.{HoldsRoot, Held, is_valid_root_any_tree_iff}

or-eq-true : (a b : Bool) → (a || b) ≡ true → (a ≡ true) ⊎ (b ≡ true)
or-eq-true true b h = inl refl
or-eq-true false b h = inr h

module _ (ext : External) (s : Store) where
  -- A slot with these bytes holds the root.
  bytes-HoldsRoot :
      (key : Key) (root : Bytes)
      → is_empty root ≡ false
      → bytes_equal (slice_of (get s key)) root ≡ true
      → HoldsRoot ext s key root
  bytes-HoldsRoot key root non_empty same =
      let here : slice_of (get s key) ≡ root = bytes_equal→eq (slice_of (get s key)) root same in
      (rw here non_empty, rw here (bytes_equal_self (canonical_field_bytes ext root)))

  in_history-eq-true :
      (t : ℕ) (root : Bytes) (i m : ℕ)
      → in_history ext s t root i m ≡ true
      → (j : ℕ) × (j < i + m) × (bytes_equal (slice_of (get s (Key.root_history t j))) root ≡ true)
  unfolding in_history
  in_history-eq-true t root i zero h = cc
  in_history-eq-true t root i (suc m) h =
      elim (or-eq-true (bytes_equal (slice_of (get s (Key.root_history t i))) root)
        (in_history ext s t root (suc i) m) h) [
          | inl here ↦ (i, omega arith, here)
          | inr later ↦
              let (j, below, there) = in_history-eq-true t root (suc i) m later in
              (j, omega (arith, below), there)
        ]

  known-Held :
      (n t : ℕ) (root : Bytes)
      → t < n
      → is_empty root ≡ false
      → is_known_root ext s t root ≡ true
      → (bytes_equal (zero_root_bytes ext default_tree_depth) root ≡ true) ⊎ Held ext s n root
  unfolding is_known_root
  known-Held n t root ht non_empty h =
      elim (or-eq-true (bytes_equal (slice_of (get s (Key.tree_root t))) root) _ h) [
        | inl here ↦ inr (Held.current t ht (bytes-HoldsRoot (Key.tree_root t) root non_empty here))
        | inr rest ↦ elim (or-eq-true (in_history ext s t root 0 max_root_history) _ rest) [
          | inl old ↦
              let (j, below, there) = in_history-eq-true t root 0 max_root_history old in
              inr (
                Held.past t j ht below
                  (bytes-HoldsRoot (Key.root_history t j) root non_empty there))
          | inr zero_root ↦ inl zero_root
        ]
      ]

  -- Over an exact index of `n` trees, every nonempty root that IsKnownRoot finds in a scan of one of
  -- them is accepted by the lookup of IsValidRootAnyTree.
  pub is_known_root-is_valid_root_any_tree :
      (n t : ℕ) (root : Bytes)
      → IsIndexed ext n s
      → t < n
      → is_empty root ≡ false
      → is_known_root ext s t root ≡ true
      → is_valid_root_any_tree ext s root ≡ true
  is_known_root-is_valid_root_any_tree n t root exact ht non_empty known =
      (is_valid_root_any_tree_iff ext s n root exact non_empty).1
        (known-Held n t root ht non_empty known)
