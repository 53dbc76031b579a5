-- ===== src/Keeper/RootIndex.antt =====
-- keeper/merkle.go: the reverse index from a root to the number of slots that hold it, and the root
-- tests.
pub mod Slots
pub mod Counts
pub mod Invariant
pub mod Membership
pub mod Known
use cosmos_nixpool.Prelude.{
  ℕ, zero, suc, ◌+◌, ◌-◌, Bool, true, false, Option, some, none, List, [], ◌∷◌, Bytes, ltb, leb,
  ◌==◌, if◌then◌else◌, bytes_equal, is_empty, ◌||◌,
}
use cosmos_nixpool.External.{External}
use cosmos_nixpool.Field.{put_uint64, uint64_of, to_bytes}
use cosmos_nixpool.Types.Params.{default_tree_depth}
use cosmos_nixpool.Types.Keys.{Key, root_index_key, max_root_history}
use cosmos_nixpool.Store.{Store, get, set, delete}

-- What Go reads where `store.Get` returned nil: the empty slice.
abbrev pub slice_of : Option Bytes → Bytes
slice_of none = []
slice_of (some b) = b

abbrev pub uint64_or_zero : Option Bytes → ℕ
uint64_or_zero none = 0
uint64_or_zero (some b) = uint64_of b

module _ (ext : External) where
  -- zeroRootBytes
  unfoldable pub zero_root_bytes : ℕ → Bytes
  zero_root_bytes depth = to_bytes (ext.zero_hash depth)

  -- rootRefCount
  unfoldable pub root_ref_count : Store → Bytes → ℕ
  root_ref_count s root =
      if is_empty root then 0 else uint64_or_zero (get s (root_index_key ext root))

  -- rootIndexIncr
  unfoldable pub root_index_incr : Bytes → Store → Store
  root_index_incr root s =
      if is_empty root
      then s
      else set (root_index_key ext root) (put_uint64 (root_ref_count s root + 1)) s

  -- rootIndexDecr
  unfoldable pub root_index_decr : Bytes → Store → Store
  root_index_decr root s =
      if is_empty root
      then s
      else if leb (root_ref_count s root) 1
      then delete (root_index_key ext root) s
      else set (root_index_key ext root) (put_uint64 (root_ref_count s root - 1)) s

  -- the common body of setTreeRootIndexed and setRootHistoryIndexed
  unfoldable pub write_slot_indexed : Key → Bytes → Store → Store
  write_slot_indexed key new_root s =
      let old = slice_of (get s key) in
      if bytes_equal old new_root
      then s
      else root_index_decr old (root_index_incr new_root (set key new_root s))

  -- setTreeRootIndexed
  unfoldable pub set_tree_root_indexed : ℕ → Bytes → Store → Store
  set_tree_root_indexed tree_id new_root s = write_slot_indexed (Key.tree_root tree_id) new_root s

  -- setRootHistoryIndexed
  unfoldable pub set_root_history_indexed : ℕ → ℕ → Bytes → Store → Store
  set_root_history_indexed tree_id slot new_root s =
      write_slot_indexed (Key.root_history tree_id slot) new_root s

  -- the history loop of IsKnownRoot, with the number of slots left
  unfoldable pub in_history : Store → ℕ → Bytes → ℕ → ℕ → Bool
  in_history s tree_id root i zero = false
  in_history s tree_id root i (suc n) =
      bytes_equal (slice_of (get s (Key.root_history tree_id i))) root
      || in_history s tree_id root (suc i) n

  -- IsKnownRoot
  unfoldable pub is_known_root : Store → ℕ → Bytes → Bool
  unfolding in_history zero_root_bytes
  is_known_root s tree_id root =
      bytes_equal (slice_of (get s (Key.tree_root tree_id))) root
      || (in_history s tree_id root 0 max_root_history
          || bytes_equal (zero_root_bytes default_tree_depth) root)

  -- IsValidRootAnyTree
  unfoldable pub is_valid_root_any_tree : Store → Bytes → Bool
  unfolding zero_root_bytes root_ref_count
  is_valid_root_any_tree s root =
      if bytes_equal (zero_root_bytes default_tree_depth) root
      then true
      else ltb 0 (root_ref_count s root)
