-- ===== src/Keeper/RootIndex/Slots.antt =====
-- The slots that hold a root: every tree's current root, and its history ring. This is the count that
-- the index stands for.
use cosmos_nixpool.Prelude.{
  ℕ, zero, suc, ◌+◌, ◌*◌, ◌≤◌, ◌≡◌, refl, [], Bytes, arith, if◌then◌else◌, bytes_equal, is_empty,
  ◌&&◌, not,
}
use cosmos_nixpool.External.{External}
use cosmos_nixpool.Field.{canonical_field_bytes}
use cosmos_nixpool.Types.Keys.{Key, max_root_history}
use cosmos_nixpool.Store.{Store, get}
use cosmos_nixpool.Keeper.RootIndex.{slice_of}

module _ (ext : External) where
  -- One where `old`, the content of a slot, has the canonical encoding `root`.
  abbrev pub holds : Bytes → Bytes → ℕ
  holds old root =
      if not (is_empty old) && bytes_equal (canonical_field_bytes ext old) root then 1 else 0

  abbrev pub slot_holds : Store → Key → Bytes → ℕ
  slot_holds s key root = holds (slice_of (get s key)) root

  -- How many of the first `n` history slots of a tree hold the root.
  unfoldable pub history_count : Store → ℕ → ℕ → Bytes → ℕ
  history_count s t zero root = 0
  history_count s t (suc n) root =
      history_count s t n root + slot_holds s (Key.root_history t n) root

  -- How many slots of the first `n` trees hold the root.
  unfoldable pub forest_count : Store → ℕ → Bytes → ℕ
  forest_count s zero root = 0
  forest_count s (suc n) root =
      forest_count s n root
      + (slot_holds s (Key.tree_root n) root + history_count s n max_root_history root)

  history_count-le : (s : Store) (t n : ℕ) (root : Bytes) → history_count s t n root ≤ n
  unfolding history_count
  history_count-le s t zero root = omega arith
  history_count-le s t (suc n) root = ground (arith, history_count-le s t n root)

  pub forest_count-le : (s : Store) (n : ℕ) (root : Bytes) → forest_count s n root ≤ n * 101
  unfolding forest_count
  forest_count-le s zero root = omega arith
  forest_count-le s (suc n) root =
      ground (arith, forest_count-le s n root, history_count-le s n max_root_history root)

  -- An empty store has no slot.
  history_count-empty : (t n : ℕ) (root : Bytes) → history_count [] t n root ≡ 0
  unfolding history_count get
  history_count-empty t zero root = refl
  history_count-empty t (suc n) root = omega (arith, history_count-empty t n root)

  pub forest_count-empty : (n : ℕ) (root : Bytes) → forest_count [] n root ≡ 0
  unfolding forest_count get
  forest_count-empty zero root = refl
  forest_count-empty (suc n) root =
      omega (arith, forest_count-empty n root, history_count-empty n max_root_history root)
