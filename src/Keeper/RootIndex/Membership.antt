-- ===== src/Keeper/RootIndex/Membership.antt =====
-- IsValidRootAnyTree: over an exact index, the single lookup answers what a scan of all slots would.
use cosmos_nixpool.Prelude.{
  ℕ, zero, suc, ◌+◌, ◌<◌, ◌≤◌, ◌≡◌, ◌↔◌, ◌⊎◌, inl, inr, refl, subst, Bool, true, false, not, ◌&&◌,
  Bytes, arith, ltb, bytes_equal, is_empty, if◌then◌else◌,
}
use cosmos_nixpool.External.{External}
use cosmos_nixpool.Field.{canonical_field_bytes}
use cosmos_nixpool.Types.Keys.{Key, max_root_history, root_index_key}
use cosmos_nixpool.Types.Params.{default_tree_depth}
use cosmos_nixpool.Store.{Store, get}
use cosmos_nixpool.Keeper.RootIndex.{
  slice_of, zero_root_bytes, root_ref_count, is_valid_root_any_tree,
}
use cosmos_nixpool.Keeper.RootIndex.Slots.{slot_holds, history_count, forest_count}
use cosmos_nixpool.Keeper.RootIndex.Invariant.{IsIndexed}

lt_or_eq : (a b : ℕ) → a ≤ b → (a < b) ⊎ (a ≡ b)
lt_or_eq a b h = grind arith

module _ (ext : External) (s : Store) where
  -- The slot holds an encoding of the field element that `root` encodes.
  abbrev pub HoldsRoot : Key → Bytes → Type 0
  HoldsRoot key root =
      (is_empty (slice_of (get s key)) ≡ false)
      × (bytes_equal (canonical_field_bytes ext (slice_of (get s key)))
            (canonical_field_bytes ext root)
          ≡ true)

  -- Some tree of the first `n` holds the root: as its current one, or in its history.
  pub data Held (n : ℕ) (root : Bytes) : Type 0 where
    current : (t : ℕ) → t < n → HoldsRoot (Key.tree_root t) root → Held n root
    past :
        (t i : ℕ)
        → t < n
        → i < max_root_history
        → HoldsRoot (Key.root_history t i) root
        → Held n root

  both_or_zero : (e b : Bool) → ((if not e && b then 1 else 0) ≡ zero) ⊎ ((e ≡ false) × (b ≡ true))
  both_or_zero true b = inl refl
  both_or_zero false true = inr (refl, refl)
  both_or_zero false false = inl refl

  slot-HoldsRoot :
      (key : Key) (root : Bytes)
      → (slot_holds ext s key (canonical_field_bytes ext root) ≡ 0) ⊎ HoldsRoot key root
  slot-HoldsRoot key root = both_or_zero (is_empty (slice_of (get s key))) (
      bytes_equal (canonical_field_bytes ext (slice_of (get s key)))
        (canonical_field_bytes ext root))

  HoldsRoot-one :
      (key : Key) (root : Bytes)
      → HoldsRoot key root
      → slot_holds ext s key (canonical_field_bytes ext root) ≡ 1
  HoldsRoot-one key root (present, same) = rw (present, same) refl

  history-Held :
      (n t m : ℕ) (root : Bytes)
      → t < n
      → m ≤ max_root_history
      → (history_count ext s t m (canonical_field_bytes ext root) ≡ 0) ⊎ Held n root
  unfolding history_count
  history-Held n t zero root ht hm = inl refl
  history-Held n t (suc m) root ht hm = elim (slot-HoldsRoot (Key.root_history t m) root) [
    | inr found ↦ inr (past t m ht (omega arith) found)
    | inl none_here ↦ elim (history-Held n t m root ht (omega arith)) [
      | inr found ↦ inr found
      | inl none_below ↦ inl (omega (arith, none_here, none_below))
    ]
  ]

  forest-Held :
      (n m : ℕ) (root : Bytes)
      → m ≤ n
      → (forest_count ext s m (canonical_field_bytes ext root) ≡ 0) ⊎ Held n root
  unfolding forest_count
  forest-Held n zero root hm = inl refl
  forest-Held n (suc m) root hm = elim (slot-HoldsRoot (Key.tree_root m) root) [
    | inr found ↦ inr (current m (omega arith) found)
    | inl none_here ↦ elim (history-Held n m max_root_history root (omega arith) (omega arith)) [
      | inr found ↦ inr found
      | inl none_past ↦ elim (forest-Held n m root (omega arith)) [
        | inr found ↦ inr found
        | inl none_below ↦ inl (omega (arith, none_here, none_past, none_below))
      ]
    ]
  ]

  history_count-pos :
      (t m i : ℕ) (root : Bytes)
      → i < m
      → HoldsRoot (Key.root_history t i) root
      → 1 ≤ history_count ext s t m (canonical_field_bytes ext root)
  unfolding history_count
  history_count-pos t zero i root hi held = elim hi [ ]
  history_count-pos t (suc m) i root hi held = elim (lt_or_eq i m (omega arith)) [
    | inl below ↦ omega (arith, history_count-pos t m i root below held)
    | inr here ↦ omega (
      arith,
      HoldsRoot-one (Key.root_history t m) root
          (subst (λ (j : ℕ). HoldsRoot (Key.root_history t j) root) here held),
    )
  ]

  tree_count-pos :
      (n t : ℕ) (root : Bytes)
      → t < n
      → 1
        ≤ slot_holds ext s (Key.tree_root t) (canonical_field_bytes ext root)
          + history_count ext s t max_root_history (canonical_field_bytes ext root)
      → 1 ≤ forest_count ext s n (canonical_field_bytes ext root)
  unfolding forest_count
  tree_count-pos zero t root ht some_slot = elim ht [ ]
  tree_count-pos (suc n) t root ht some_slot = elim (lt_or_eq t n (omega arith)) [
    | inl below ↦ omega (arith, tree_count-pos n t root below some_slot)
    | inr here ↦
        let slot_here =
          subst
            (λ (u : ℕ).
              1
              ≤ slot_holds ext s (Key.tree_root u) (canonical_field_bytes ext root)
                + history_count ext s u max_root_history (canonical_field_bytes ext root))
            here some_slot in
        omega (arith, slot_here)
  ]

  forest_count-pos :
      (n : ℕ) (root : Bytes)
      → Held n root
      → 1 ≤ forest_count ext s n (canonical_field_bytes ext root)
  forest_count-pos n root (current t ht held) =
      tree_count-pos n t root ht (omega (arith, HoldsRoot-one (Key.tree_root t) root held))
  forest_count-pos n root (past t i ht hi held) =
      tree_count-pos n t root ht
        (omega (arith, history_count-pos t max_root_history i root hi held))

  is_valid_root_any_tree-forest_count :
      (n : ℕ) (root : Bytes)
      → IsIndexed ext n s
      → is_empty root ≡ false
      → is_valid_root_any_tree ext s root ≡ (
          if bytes_equal (zero_root_bytes ext default_tree_depth) root
          then true
          else ltb 0 (forest_count ext s n (canonical_field_bytes ext root)))
  unfolding is_valid_root_any_tree root_ref_count root_index_key
  is_valid_root_any_tree-forest_count n root exact non_empty =
      rw non_empty (rw (exact (canonical_field_bytes ext root)) refl)

  -- Over an exact index of `n` trees, a root that is not the empty slice is accepted exactly when it is the empty tree's
  -- root or one of the trees holds it, as its current root or in its history, in some encoding.
  pub is_valid_root_any_tree_iff :
      (n : ℕ) (root : Bytes)
      → IsIndexed ext n s
      → is_empty root ≡ false
      → (is_valid_root_any_tree ext s root ≡ true)
        ↔ ((bytes_equal (zero_root_bytes ext default_tree_depth) root ≡ true) ⊎ Held n root)
  is_valid_root_any_tree_iff n root exact non_empty = (
    λ valid. elim (forest-Held n n root (omega arith)) [
      | inr found ↦ inr found
      | inl none_held ↦
          inl (ground (arith, is_valid_root_any_tree-forest_count n root exact non_empty))
    ],
    λ h. elim h [
      | inl zero_root ↦ ground (arith, is_valid_root_any_tree-forest_count n root exact non_empty)
      | inr held ↦ ground (
        arith,
        is_valid_root_any_tree-forest_count n root exact non_empty,
        forest_count-pos n root held,
      )
    ],
  )
