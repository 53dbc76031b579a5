-- ===== src/Keeper/Forest/Index.antt =====
-- The root index stays exact under the operations of the forest.
use cosmos_nixpool.Prelude.{
  ℕ, zero, suc, ◌+◌, ◌*◌, ◌%◌, ◌^◌, ◌<◌, ◌≡◌, refl, sym, ap, ap₂, ◌∙◌, false, Option, Bytes, ◌==◌,
  arith,
}
use native.Mathlib.Nat.{mod-lt}
use cosmos_nixpool.External.{External}
use cosmos_nixpool.Field.{put_uint64, to_bytes, set_bytes}
use cosmos_nixpool.Types.Keys.{Key, max_root_history}
use cosmos_nixpool.Types.Keys.Equality.{key_equal, key_equal-family, family}
use cosmos_nixpool.Store.{Store, get, set, get-set_ne}
use cosmos_nixpool.Keeper.Action.{update}
use cosmos_nixpool.Keeper.Action.Preserves.{Preserves, Preserves-update, preserving}
use cosmos_nixpool.Keeper.RootIndex.{
  slice_of, uint64_or_zero, zero_root_bytes, set_tree_root_indexed, set_root_history_indexed,
}
use cosmos_nixpool.Keeper.RootIndex.Slots.{holds, history_count, forest_count}
use cosmos_nixpool.Keeper.RootIndex.Invariant.{IsIndexed}
use cosmos_nixpool.Keeper.RootIndex.Invariant.Writes.{
  set_tree_root_indexed-IsIndexed, set_root_history_indexed-IsIndexed,
}
use cosmos_nixpool.Keeper.Frontier.{climb}
use cosmos_nixpool.Keeper.Frontier.Climb.{climb_frame}
use cosmos_nixpool.Keeper.Forest.{
  get_tree_count, set_tree_count, set_active_tree_id, commitment_key, frontier_key, init_frontier,
  create_tree_at, append_leaf, insert_leaf_into_tree,
}

-- Two stores with the same root slots and the same index.
record HasSameRoots (s s' : Store) : Type 0 where
  tree_root : (t : ℕ) → get s' (Key.tree_root t) ≡ get s (Key.tree_root t)
  root_history : (t i : ℕ) → get s' (Key.root_history t i) ≡ get s (Key.root_history t i)
  root_index : (r : Bytes) → get s' (Key.root_index r) ≡ get s (Key.root_index r)

HasSameRoots-trans : (s t u : Store) → HasSameRoots s t → HasSameRoots t u → HasSameRoots s u
HasSameRoots-trans s t u st tu = record {
  tree_root = λ i. tu.tree_root i ∙ st.tree_root i;
  root_history = λ i j. tu.root_history i j ∙ st.root_history i j;
  root_index = λ r. tu.root_index r ∙ st.root_index r;
}

HasSameRoots-set :
    (k : Key) (b : Bytes) (s : Store)
    → (family k == 3) ≡ false
    → (family k == 2) ≡ false
    → (family k == 4) ≡ false
    → HasSameRoots s (set k b s)
HasSameRoots-set k b s root history index = record {
  tree_root = λ t. get-set_ne s k (Key.tree_root t) b (key_equal-family k (Key.tree_root t) root);
  root_history = λ t i.
      get-set_ne s k (Key.root_history t i) b (key_equal-family k (Key.root_history t i) history);
  root_index =
      λ r. get-set_ne s k (Key.root_index r) b (key_equal-family k (Key.root_index r) index);
}

module _ (ext : External) where
  history_count-HasSameRoots :
      (s s' : Store) (t n : ℕ) (root : Bytes)
      → HasSameRoots s s'
      → history_count ext s' t n root ≡ history_count ext s t n root
  unfolding history_count
  history_count-HasSameRoots s s' t zero root same = refl
  history_count-HasSameRoots s s' t (suc n) root same =
      ap₂ (λ (a b : ℕ). a + b) (history_count-HasSameRoots s s' t n root same)
        (ap (λ (o : Option Bytes). holds ext (slice_of o) root) (same.root_history t n))

  forest_count-HasSameRoots :
      (s s' : Store) (n : ℕ) (root : Bytes)
      → HasSameRoots s s'
      → forest_count ext s' n root ≡ forest_count ext s n root
  unfolding forest_count
  forest_count-HasSameRoots s s' zero root same = refl
  forest_count-HasSameRoots s s' (suc n) root same =
      ap₂ (λ (a b : ℕ). a + b) (forest_count-HasSameRoots s s' n root same)
        (ap₂ (λ (a b : ℕ). a + b)
          (ap (λ (o : Option Bytes). holds ext (slice_of o) root) (same.tree_root n))
          (history_count-HasSameRoots s s' n max_root_history root same))

  IsIndexed-HasSameRoots :
      (n : ℕ) (s s' : Store) → HasSameRoots s s' → IsIndexed ext n s → IsIndexed ext n s'
  IsIndexed-HasSameRoots n s s' same exact root =
      ap uint64_or_zero (same.root_index root)
      ∙ exact root
      ∙ sym (forest_count-HasSameRoots s s' n root same)

  climb-HasSameRoots :
      (t levels level idx current : ℕ) (s : Store)
      → HasSameRoots s (climb ext (frontier_key t) levels level idx current s).1
  unfolding key_equal
  climb-HasSameRoots t levels level idx current s = record {
    tree_root = λ u.
        climb_frame ext (frontier_key t) levels level idx current s (Key.tree_root u)
          (λ l hl. refl);
    root_history = λ u i.
        climb_frame ext (frontier_key t) levels level idx current s (Key.root_history u i)
          (λ l hl. refl);
    root_index = λ r.
        climb_frame ext (frontier_key t) levels level idx current s (Key.root_index r)
          (λ l hl. refl);
  }

  init_frontier-HasSameRoots :
      (t levels level : ℕ) (s : Store) → HasSameRoots s (init_frontier ext t levels level s)
  unfolding init_frontier
  init_frontier-HasSameRoots t zero level s = record {
    tree_root = λ t. refl;
    root_history = λ t i. refl;
    root_index = λ r. refl;
  }
  init_frontier-HasSameRoots t (suc levels) level s =
      let s1 = set (Key.frontier t level) (to_bytes (ext.zero_hash level)) s in
      HasSameRoots-trans s s1 _
        (HasSameRoots-set (Key.frontier t level) (to_bytes (ext.zero_hash level)) s refl refl refl)
        (init_frontier-HasSameRoots t levels (suc level) s1)

  module _ (n : ℕ) (room : n * 101 + 1 < 2 ^ 64) where
    pub set-IsIndexed :
        (k : Key) (b : Bytes) (s : Store)
        → (family k == 3) ≡ false
        → (family k == 2) ≡ false
        → (family k == 4) ≡ false
        → IsIndexed ext n s
        → IsIndexed ext n (set k b s)
    set-IsIndexed k b s root history index exact =
        IsIndexed-HasSameRoots n s (set k b s) (HasSameRoots-set k b s root history index) exact

    -- CreateTree keeps the reference counts exact, where the new tree's id is below the bound.
    pub create_tree_at-IsIndexed :
        (depth : ℕ) (s : Store)
        → get_tree_count s < n
        → IsIndexed ext n s
        → IsIndexed ext n (create_tree_at ext depth s)
    unfolding create_tree_at set_active_tree_id set_tree_count
    create_tree_at-IsIndexed depth s below exact =
        let t = get_tree_count s in
        let s1 = init_frontier ext t depth 0 s in
        let s2 = set_tree_root_indexed ext t (zero_root_bytes ext depth) s1 in
        let s3 = set (Key.tree_next_index t) (put_uint64 0) s2 in
        let s4 = set Key.tree_count (put_uint64 (t + 1)) s3 in
        set-IsIndexed Key.active_tree_id (put_uint64 t) s4 refl refl refl (
          set-IsIndexed Key.tree_count (put_uint64 (t + 1)) s3 refl refl refl (
            set-IsIndexed (Key.tree_next_index t) (put_uint64 0) s2 refl refl refl (
              set_tree_root_indexed-IsIndexed ext n t (zero_root_bytes ext depth) s1 below room
                (IsIndexed-HasSameRoots n s s1 (init_frontier-HasSameRoots t depth 0 s) exact))))

    append_leaf-IsIndexed :
        (t : ℕ) (c : Bytes) (depth index : ℕ) (s : Store)
        → t < n
        → IsIndexed ext n s
        → IsIndexed ext n (append_leaf ext t c depth index s).1
    unfolding append_leaf
    append_leaf-IsIndexed t c depth index s below exact =
        let s1 = set (commitment_key t index) c s in
        let walked = climb ext (frontier_key t) depth 0 index (set_bytes ext c) s1 in
        let root = to_bytes walked.0 in
        let s2 = set_tree_root_indexed ext t root walked.1 in
        let s3 = set_root_history_indexed ext t (index % max_root_history) root s2 in
        set-IsIndexed (Key.tree_next_index t) (put_uint64 (index + 1)) s3 refl refl refl (
          set_root_history_indexed-IsIndexed ext n t (index % max_root_history) root s2 below
            (mod-lt index (omega arith)) room
            (set_tree_root_indexed-IsIndexed ext n t root walked.1 below room (
              IsIndexed-HasSameRoots n s1 walked.1
                (climb-HasSameRoots t depth 0 index (set_bytes ext c) s1)
                (set-IsIndexed (commitment_key t index) c s refl refl refl exact))))

    update-Preserves :
        (t : ℕ) (c : Bytes) (depth index : ℕ)
        → t < n
        → Preserves (IsIndexed ext n) (update (append_leaf ext t c depth index))
    update-Preserves t c depth index below =
        Preserves-update (append_leaf ext t c depth index)
          (λ s exact. append_leaf-IsIndexed t c depth index s below exact)

    insert-Preserves :
        (t : ℕ) (c : Bytes) (depth : ℕ)
        → t < n
        → Preserves (IsIndexed ext n) (insert_leaf_into_tree ext t c depth)
    unfolding insert_leaf_into_tree
    insert-Preserves t c depth below = search (preserving, update-Preserves) depth 8

    -- insertLeafIntoTree keeps the reference counts exact, whether it inserts or refuses, for a tree
    -- id below the bound: the root that an insertion evicts from the history ring loses a count, and
    -- the new root gains one for each slot that takes it.
    pub insert_leaf_into_tree-IsIndexed :
        (t : ℕ) (c : Bytes) (depth : ℕ) (s : Store)
        → t < n
        → IsIndexed ext n s
        → IsIndexed ext n (insert_leaf_into_tree ext t c depth s).1
    insert_leaf_into_tree-IsIndexed t c depth s below exact =
        (insert-Preserves t c depth below).through s exact
