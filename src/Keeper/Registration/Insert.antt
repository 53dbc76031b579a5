-- ===== src/Keeper/Registration/Insert.antt =====
-- InsertRegCommitment: the stored root is that of the perfect tree over all registrations, and no
-- identity registers twice.
use cosmos_nixpool.Prelude.{
  ℕ, ◌+◌, ◌^◌, ◌<◌, ◌≡◌, refl, sym, ap, subst, ◌∙◌, true, false, Option, some, none, [], ◌∷◌, Bytes,
  arith, ltb, lt→leb, if◌then◌else◌,
}
use cosmos_nixpool.External.{External, IsLawful}
use cosmos_nixpool.Field.{put_uint64, set_bytes, to_bytes, canonical_field_bytes}
use cosmos_nixpool.Field.Encoding.{uint64_of-put_uint64_lt}
use cosmos_nixpool.Tree.{node, node_local}
use cosmos_nixpool.Types.Errors.{Result, ok, err, duplicate_commitment}
use cosmos_nixpool.Types.Params.{default_reg_tree_depth}
use cosmos_nixpool.Types.Keys.{Key, reg_commitment_used_key}
use cosmos_nixpool.Types.Keys.Equality.{key_equal}
use cosmos_nixpool.Store.{Store, get, set, has, is_some, get-set_self, get-set_ne}
use cosmos_nixpool.Keeper.Action.{◌>>=◌}
use cosmos_nixpool.Keeper.RootIndex.{slice_of, uint64_or_zero, zero_root_bytes}
use cosmos_nixpool.Keeper.Frontier.{max_leaves}
use cosmos_nixpool.Keeper.Frontier.Climb.{with_leaf}
use cosmos_nixpool.Keeper.Frontier.Walk.{
  HasTreeKeys, HasSiblings, HasSiblings-frame, leaf_of, walk, walk_leaf, walk_root,
  walk-HasSiblings,
}
use cosmos_nixpool.Keeper.Frontier.Empty.{HasSiblings-empty, node-leaf_of-empty}
use cosmos_nixpool.Keeper.Registration.{
  get_reg_merkle_root, append_leaf_single, insert_leaf_single_tree, insert_reg_commitment,
}

abbrev pub reg_commitment_key : ℕ → Key
reg_commitment_key i = Key.reg_commitment i

abbrev pub reg_frontier_key : ℕ → Key
reg_frontier_key l = Key.reg_frontier l

reg_keys : HasTreeKeys reg_commitment_key reg_frontier_key
unfolding key_equal
reg_keys = record {
  commitments = λ i j ne. ground arith;
  frontiers = λ l m ne. ground arith;
  apart = λ i l. refl;
}

module _ (ext : External) where
  abbrev pub reg_leaf : Store → ℕ → ℕ → ℕ
  reg_leaf s n = leaf_of ext reg_commitment_key s n

  -- The registration tree in the store: its length, its frontier and its root.
  pub record IsRegTree (n : ℕ) (s : Store) : Type 0 where
    pub next : uint64_or_zero (get s Key.reg_next_index) ≡ n
    pub siblings : HasSiblings ext reg_commitment_key reg_frontier_key default_reg_tree_depth n s
    pub root :
        get_reg_merkle_root ext s ≡ to_bytes (node ext (reg_leaf s n) default_reg_tree_depth 0)

  -- Before the first registration the tree is empty.
  pub IsRegTree-empty :
      (law : IsLawful ext) (s : Store)
      → uint64_or_zero (get s Key.reg_next_index) ≡ 0
      → get s Key.reg_root ≡ none
      → IsRegTree 0 s
  unfolding get_reg_merkle_root zero_root_bytes
  IsRegTree-empty law s next root = record {
    next = next;
    siblings = HasSiblings-empty ext reg_commitment_key reg_frontier_key default_reg_tree_depth s;
    root = rw root (
        ap to_bytes (
          sym (
            node-leaf_of-empty ext reg_commitment_key reg_frontier_key default_reg_tree_depth s
              law)));
  }

  -- What a registration of `c` into a tree of `n` leaves has done, by its result: it returns position
  -- `n` and the root of the perfect tree over all registrations, the new one at position `n`; it
  -- leaves such a tree, one leaf longer, and marks the commitment as used.
  abbrev pub Registers : Bytes → ℕ → Store → Result (Bytes × ℕ) × Store → Type 0
  Registers c n s r =
      (r.0 ≡ ok (to_bytes (node ext (reg_leaf r.1 (n + 1)) default_reg_tree_depth 0), n))
      × IsRegTree (n + 1) r.1
      × ((i : ℕ) → reg_leaf r.1 (n + 1) i ≡ with_leaf (reg_leaf s n) n (set_bytes ext c) i)
      × (has r.1 (reg_commitment_used_key ext c) ≡ true)

  module _ (law : IsLawful ext) (c : Bytes) (n : ℕ) (s : Store) (tree : IsRegTree n s)
      (room : n < 2 ^ 20) where
    abbrev walked : ℕ × Store
    walked =
        walk ext law reg_commitment_key reg_frontier_key reg_keys default_reg_tree_depth n room s
          tree.siblings c

    -- The store that a successful registration leaves.
    abbrev finished : Store
    finished = set (reg_commitment_used_key ext c) (1 ∷ []) (
        set Key.reg_next_index (put_uint64 (n + 1)) (set Key.reg_root (to_bytes walked.0) walked.1))

    insert_reg_commitment-finished :
        has s (reg_commitment_used_key ext c) ≡ false
        → insert_reg_commitment ext c s ≡ (ok (to_bytes walked.0, n), finished)
    unfolding insert_reg_commitment insert_leaf_single_tree append_leaf_single max_leaves ◌>>=◌
    insert_reg_commitment-finished fresh = rw (fresh, tree.next, lt→leb (2 ^ 20) n room)

    finished_frame :
        (k : Key)
        → key_equal (reg_commitment_used_key ext c) k ≡ false
        → key_equal Key.reg_next_index k ≡ false
        → key_equal Key.reg_root k ≡ false
        → get finished k ≡ get walked.1 k
    finished_frame k hu hn hr =
        let s1 = set Key.reg_root (to_bytes walked.0) walked.1 in
        let s2 = set Key.reg_next_index (put_uint64 (n + 1)) s1 in
        get-set_ne s2 (reg_commitment_used_key ext c) k (1 ∷ []) hu
        ∙ get-set_ne s1 Key.reg_next_index k (put_uint64 (n + 1)) hn
        ∙ get-set_ne walked.1 Key.reg_root k (to_bytes walked.0) hr

    finished_commitment :
        (i : ℕ) → get finished (reg_commitment_key i) ≡ get walked.1 (reg_commitment_key i)
    unfolding key_equal reg_commitment_used_key
    finished_commitment i = finished_frame (reg_commitment_key i) refl refl refl

    finished_frontier :
        (l : ℕ) → get finished (reg_frontier_key l) ≡ get walked.1 (reg_frontier_key l)
    unfolding key_equal reg_commitment_used_key
    finished_frontier l = finished_frame (reg_frontier_key l) refl refl refl

    finished_next : uint64_or_zero (get finished Key.reg_next_index) ≡ n + 1
    unfolding key_equal reg_commitment_used_key
    finished_next =
        let s1 = set Key.reg_root (to_bytes walked.0) walked.1 in
        let s2 = set Key.reg_next_index (put_uint64 (n + 1)) s1 in
        ap uint64_or_zero (
          get-set_ne s2 (reg_commitment_used_key ext c) Key.reg_next_index (1 ∷ []) refl
          ∙ get-set_self s1 Key.reg_next_index (put_uint64 (n + 1)))
        ∙ uint64_of-put_uint64_lt (n + 1) (omega arith)

    finished_root : get finished Key.reg_root ≡ some (to_bytes walked.0)
    unfolding key_equal reg_commitment_used_key
    finished_root =
        let s1 = set Key.reg_root (to_bytes walked.0) walked.1 in
        let s2 = set Key.reg_next_index (put_uint64 (n + 1)) s1 in
        get-set_ne s2 (reg_commitment_used_key ext c) Key.reg_root (1 ∷ []) refl
        ∙ get-set_ne s1 Key.reg_next_index Key.reg_root (put_uint64 (n + 1)) refl
        ∙ get-set_self walked.1 Key.reg_root (to_bytes walked.0)

    finished_leaf : (i : ℕ) → reg_leaf finished (n + 1) i ≡ reg_leaf walked.1 (n + 1) i
    finished_leaf i =
        ap
          (λ (o : Option Bytes).
            if ltb i (n + 1) then set_bytes ext (slice_of o) else ext.zero_hash 0)
          (finished_commitment i)

    root_is_node : walked.0 ≡ node ext (reg_leaf finished (n + 1)) default_reg_tree_depth 0
    root_is_node =
        walk_root ext law reg_commitment_key reg_frontier_key reg_keys default_reg_tree_depth n room
          s tree.siblings c
        ∙ node_local ext (reg_leaf walked.1 (n + 1)) (reg_leaf finished (n + 1))
            default_reg_tree_depth 0 (λ i _. sym (finished_leaf i))

    finished-IsRegTree : IsRegTree (n + 1) finished
    unfolding get_reg_merkle_root
    finished-IsRegTree = record {
      next = finished_next;
      siblings =
          HasSiblings-frame ext reg_commitment_key reg_frontier_key default_reg_tree_depth (n + 1)
            walked.1 finished finished_commitment finished_frontier
            (walk-HasSiblings ext law reg_commitment_key reg_frontier_key reg_keys
              default_reg_tree_depth n room s tree.siblings c);
      root = rw finished_root (ap to_bytes root_is_node);
    }

    -- A new identity commitment, in a registration tree with room (2^20 leaves), is registered: the
    -- call returns position `n` and the root of the perfect tree over all registrations, the new one
    -- at position `n`; it leaves such a tree, one leaf longer, and marks the commitment as used.
    pub insert_reg_commitment_root :
        has s (reg_commitment_used_key ext c) ≡ false
        → Registers c n s (insert_reg_commitment ext c s)
    insert_reg_commitment_root fresh =
        subst (Registers c n s) (sym (insert_reg_commitment-finished fresh)) (
          ap (λ (v : ℕ). ok (to_bytes v, n)) root_is_node,
          finished-IsRegTree,
          λ i.
              finished_leaf i
              ∙ walk_leaf ext law reg_commitment_key reg_frontier_key reg_keys
                  default_reg_tree_depth n room s tree.siblings c i,
          ap is_some (get-set_self _ (reg_commitment_used_key ext c) (1 ∷ [])),
        )

  -- A commitment that stands for an identity already registered, under any encoding of the same field
  -- element, is refused and nothing is written.
  pub insert_reg_commitment_duplicate :
      (c d : Bytes) (s : Store)
      → set_bytes ext c ≡ set_bytes ext d
      → has s (reg_commitment_used_key ext c) ≡ true
      → insert_reg_commitment ext d s ≡ (err duplicate_commitment, s)
  unfolding insert_reg_commitment reg_commitment_used_key canonical_field_bytes ◌>>=◌
  insert_reg_commitment_duplicate c d s same used = rw (sym same, used)
