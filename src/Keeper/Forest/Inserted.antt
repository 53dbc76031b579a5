-- ===== src/Keeper/Forest/Inserted.antt =====
-- What an insertion that succeeds has done to the store: the leaf's position, its root, the slot that
-- takes it, and what stays as it was.
use cosmos_nixpool.Prelude.{
  ℕ, ◌+◌, ◌%◌, ◌^◌, ◌<◌, ◌≡◌, ◌≢◌, refl, sym, ap, subst, ◌∙◌, false, Bytes, arith, leb, leb→lt,
}
use cosmos_nixpool.External.{External}
use cosmos_nixpool.Field.{put_uint64, set_bytes, to_bytes}
use cosmos_nixpool.Types.Errors.{Result, ok, tree_full, ok_injective}
use cosmos_nixpool.Types.Keys.{Key, max_root_history}
use cosmos_nixpool.Types.Keys.Equality.{key_equal, key_equal-family, family}
use cosmos_nixpool.Store.{Store, get, set, get-set_ne}
use cosmos_nixpool.Keeper.Action.{pure, update, ◌>>=◌, guard-eq-ok}
use cosmos_nixpool.Keeper.RootIndex.{
  slice_of, uint64_or_zero, set_tree_root_indexed, set_root_history_indexed,
}
use cosmos_nixpool.Keeper.RootIndex.Invariant.Writes.{get-set_root_history_self, is_index}
use cosmos_nixpool.Keeper.Frontier.{max_leaves, climb}
use cosmos_nixpool.Keeper.Frontier.Climb.{climb_frame}
use cosmos_nixpool.Keeper.Forest.{
  commitment_key, frontier_key, get_tree_next_index, append_leaf, insert_leaf_into_tree,
}
use cosmos_nixpool.Keeper.Forest.Insert.{finish, finish_frame, finish_next}

module _ (ext : External) where
  -- The state past the walk of an insertion.
  abbrev pub climbed : ℕ → Bytes → ℕ → ℕ → Store → ℕ × Store
  climbed t c depth i s =
      climb ext (frontier_key t) depth 0 i (set_bytes ext c) (set (commitment_key t i) c s)

  append_leaf-finish :
      (t : ℕ) (c : Bytes) (depth i : ℕ) (s : Store)
      → (let w = climbed t c depth i s in
          append_leaf ext t c depth i s
          ≡ (to_bytes w.0, finish ext t i (i % max_root_history) (to_bytes w.0) w.1))
  unfolding append_leaf
  append_leaf-finish t c depth i s = refl

  -- An insertion that succeeds.
  pub record Inserted (t : ℕ) (c : Bytes) (depth : ℕ) (s : Store) (root : Bytes) (i : ℕ)
      (s' : Store) : Type 0 where
    pub next : get_tree_next_index s t ≡ i
    pub bound : i + 1 < 2 ^ 64
    pub root_is : to_bytes (climbed t c depth i s).0 ≡ root
    pub store_is :
        finish ext t i
          (i % max_root_history)
          (to_bytes (climbed t c depth i s).0)
          (climbed t c depth i s).1
        ≡ s'

  pub insert-Inserted :
      (t : ℕ) (c : Bytes) (depth : ℕ) (s s' : Store) (root : Bytes) (i : ℕ)
      → insert_leaf_into_tree ext t c depth s ≡ (ok (root, i), s')
      → Inserted t c depth s root i s'
  unfolding insert_leaf_into_tree ◌>>=◌ append_leaf max_leaves
  insert-Inserted t c depth s s' root i h =
      let here = get_tree_next_index s t in
      let (room, run) =
        guard-eq-ok (leb (max_leaves depth) here) tree_full
          (update (append_leaf ext t c depth here) >>= λ (r : Bytes). pure (r, here)) s s' (root, i)
          h in
      let given = ok_injective _ _ (ap (λ (r : Result (Bytes × ℕ) × Store). r.0) run) in
      let below : here < 2 ^ depth % 2 ^ 64 = leb→lt (max_leaves depth) here room in
      subst (λ (j : ℕ). Inserted t c depth s root j s') (ap (λ (r : Bytes × ℕ). r.1) given)
        (record {
          next = refl;
          bound = omega (arith, below);
          root_is = ap (λ (r : Bytes × ℕ). r.0) given;
          store_is = ap (λ (r : Result (Bytes × ℕ) × Store). r.1) run;
        })

  -- It counts the leaf, and its root is in the slot of its position.
  pub Inserted-next :
      (t : ℕ) (c : Bytes) (depth : ℕ) (s : Store) (root : Bytes) (i : ℕ) (s' : Store)
      → Inserted t c depth s root i s'
      → get_tree_next_index s' t ≡ i + 1
  Inserted-next t c depth s root i s' made =
      let w = climbed t c depth i s in
      subst (λ (x : Store). get_tree_next_index x t ≡ i + 1) made.store_is
        (finish_next ext t i (i % max_root_history) (to_bytes w.0) w.1 made.bound)

  pub Inserted-slot :
      (t : ℕ) (c : Bytes) (depth : ℕ) (s : Store) (root : Bytes) (i : ℕ) (s' : Store)
      → Inserted t c depth s root i s'
      → slice_of (get s' (Key.root_history t (i % max_root_history))) ≡ root
  unfolding key_equal
  Inserted-slot t c depth s root i s' made =
      let w = climbed t c depth i s in
      let k = Key.root_history t (i % max_root_history) in
      let s1 = set_tree_root_indexed ext t (to_bytes w.0) w.1 in
      let s2 = set_root_history_indexed ext t (i % max_root_history) (to_bytes w.0) s1 in
      ap (λ (x : Store). slice_of (get x k)) (sym made.store_is)
      ∙ ap slice_of (get-set_ne s2 (Key.tree_next_index t) k (put_uint64 (i + 1)) refl)
      ∙ get-set_root_history_self ext t (i % max_root_history) (to_bytes w.0) s1
      ∙ made.root_is

  -- Every key that an insertion does not write is as before.
  pub Inserted-frame :
      (t : ℕ) (c : Bytes) (depth : ℕ) (s : Store) (root : Bytes) (i : ℕ) (s' : Store) (k : Key)
      → Inserted t c depth s root i s'
      → leb (family k) 1 ≡ false
      → is_index k ≡ false
      → key_equal (Key.tree_root t) k ≡ false
      → key_equal (Key.root_history t (i % max_root_history)) k ≡ false
      → key_equal (Key.tree_next_index t) k ≡ false
      → get s' k ≡ get s k
  Inserted-frame t c depth s root i s' k made leaf hi hr hh hn =
      let w = climbed t c depth i s in
      ap (λ (x : Store). get x k) (sym made.store_is)
      ∙ finish_frame ext t i (i % max_root_history) (to_bytes w.0) w.1 k hi hr hh hn
      ∙ climb_frame ext (frontier_key t) depth 0 i (set_bytes ext c) (set (commitment_key t i) c s)
          k (λ l hl. key_equal-family (frontier_key t l) k (ground arith))
      ∙ get-set_ne s (commitment_key t i) k c
          (key_equal-family (commitment_key t i) k (ground arith))

  -- Every other history slot, of this tree or another, and every other tree's length.
  pub Inserted-other_slot :
      (t : ℕ) (c : Bytes) (depth : ℕ) (s : Store) (root : Bytes) (i : ℕ) (s' : Store) (u j : ℕ)
      → Inserted t c depth s root i s'
      → key_equal (Key.root_history t (i % max_root_history)) (Key.root_history u j) ≡ false
      → get s' (Key.root_history u j) ≡ get s (Key.root_history u j)
  unfolding key_equal
  Inserted-other_slot t c depth s root i s' u j made ne =
      Inserted-frame t c depth s root i s' (Key.root_history u j) made refl refl refl ne refl

  pub Inserted-other_next :
      (t : ℕ) (c : Bytes) (depth : ℕ) (s : Store) (root : Bytes) (i : ℕ) (s' : Store) (u : ℕ)
      → Inserted t c depth s root i s'
      → u ≢ t
      → get_tree_next_index s' u ≡ get_tree_next_index s u
  unfolding key_equal get_tree_next_index
  Inserted-other_next t c depth s root i s' u made ne = ap uint64_or_zero (
      Inserted-frame t c depth s root i s' (Key.tree_next_index u) made refl refl refl refl
        (ground arith))
