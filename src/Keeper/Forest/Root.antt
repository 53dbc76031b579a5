-- ===== src/Keeper/Forest/Root.antt =====
-- insertLeafIntoTree as a whole: the returned root, the tree that it leaves, and the full tree.
use cosmos_nixpool.Prelude.{
  ℕ, ◌+◌, ◌%◌, ◌^◌, ◌≤◌, ◌<◌, ◌≡◌, refl, sym, ap, subst, ◌∙◌, Bytes, arith, le→leb, lt→leb,
}
use cosmos_nixpool.External.{External, IsLawful}
use cosmos_nixpool.Field.{set_bytes, to_bytes}
use cosmos_nixpool.Tree.{node, node_local}
use cosmos_nixpool.Types.Errors.{Result, ok, err, tree_full}
use cosmos_nixpool.Types.Keys.{max_root_history}
use cosmos_nixpool.Store.{Store}
use cosmos_nixpool.Keeper.Action.{◌>>=◌}
use cosmos_nixpool.Keeper.Frontier.{max_leaves}
use cosmos_nixpool.Keeper.Frontier.Climb.{with_leaf}
use cosmos_nixpool.Keeper.Frontier.Walk.{walk, walk_leaf, walk_root, walk-HasSiblings}
use cosmos_nixpool.Keeper.Forest.{
  commitment_key, frontier_key, get_tree_next_index, append_leaf, insert_leaf_into_tree,
}
use cosmos_nixpool.Keeper.Forest.Insert.{
  IsNoteTree, note_leaf, note_keys, max_leaves-eq-pow, two_pow_mono, finish, finish_leaf,
  finish-IsNoteTree,
}

module _ (ext : External) where
  -- A tree with room: the test passes and the leaf is appended.
  insert_leaf_room :
      (t : ℕ) (c : Bytes) (depth n : ℕ) (s : Store)
      → get_tree_next_index s t ≡ n
      → depth ≤ 40
      → n < 2 ^ depth
      → (let r = append_leaf ext t c depth n s in
          insert_leaf_into_tree ext t c depth s ≡ (ok (r.0, n), r.1))
  unfolding insert_leaf_into_tree ◌>>=◌
  insert_leaf_room t c depth n s next small room =
      rw (next, lt→leb (max_leaves depth) n (rw (max_leaves-eq-pow depth small) room))

  -- An insertion into a full tree of depth at most 40 is refused and writes nothing.
  pub insert_leaf_into_tree_full :
      (t : ℕ) (c : Bytes) (depth : ℕ) (s : Store)
      → depth ≤ 40
      → 2 ^ depth ≤ get_tree_next_index s t
      → insert_leaf_into_tree ext t c depth s ≡ (err tree_full, s)
  unfolding insert_leaf_into_tree ◌>>=◌
  insert_leaf_into_tree_full t c depth s small full = rw (
      le→leb (max_leaves depth) (get_tree_next_index s t) (rw (max_leaves-eq-pow depth small) full))

  -- What an insertion of `c` into tree `t` of `n` leaves has done, by its result: it returns position
  -- `n` and the root of the perfect tree over all commitments, the new one at position `n`, and
  -- what it leaves is such a tree, one leaf longer.
  abbrev pub Appends : ℕ → Bytes → ℕ → ℕ → Store → Result (Bytes × ℕ) × Store → Type 0
  Appends t c depth n s r =
      (r.0 ≡ ok (to_bytes (node ext (note_leaf ext r.1 t (n + 1)) depth 0), n))
      × IsNoteTree ext depth t (n + 1) r.1
      × ((i : ℕ)
          → note_leaf ext r.1 t (n + 1) i ≡ with_leaf (note_leaf ext s t n) n (set_bytes ext c) i)

  module _ (law : IsLawful ext) (t : ℕ) (c : Bytes) (depth n : ℕ) (s : Store)
      (tree : IsNoteTree ext depth t n s) (small : depth ≤ 40) (room : n < 2 ^ depth) where
    abbrev walked : ℕ × Store
    walked =
        walk ext law (commitment_key t) (frontier_key t) (note_keys t) depth n room s tree.siblings
          c

    append_leaf-finish :
        append_leaf ext t c depth n s
        ≡ (to_bytes walked.0, finish ext t n (n % max_root_history) (to_bytes walked.0) walked.1)
    unfolding append_leaf
    append_leaf-finish = refl

    abbrev finished : Store
    finished = finish ext t n (n % max_root_history) (to_bytes walked.0) walked.1

    walked_root : walked.0 ≡ node ext (note_leaf ext walked.1 t (n + 1)) depth 0
    walked_root =
        walk_root ext law (commitment_key t) (frontier_key t) (note_keys t) depth n room s
          tree.siblings c

    finished_leaf :
        (i : ℕ) → note_leaf ext finished t (n + 1) i ≡ note_leaf ext walked.1 t (n + 1) i
    finished_leaf = finish_leaf ext t n (n % max_root_history) (to_bytes walked.0) walked.1

    small_count : n + 1 < 2 ^ 64
    small_count = omega (arith, two_pow_mono depth 40 small)

    finished-Appends : Appends t c depth n s (ok (to_bytes walked.0, n), finished)
    finished-Appends = (
      ap (λ (v : ℕ). ok (to_bytes v, n))
          (walked_root
            ∙ node_local ext (note_leaf ext walked.1 t (n + 1)) (note_leaf ext finished t (n + 1))
                depth 0 (λ i _. sym (finished_leaf i))),
      finish-IsNoteTree ext t n (n % max_root_history) (to_bytes walked.0) walked.1 depth
          small_count
          (walk-HasSiblings ext law (commitment_key t) (frontier_key t) (note_keys t) depth n room s
            tree.siblings c)
          (ap to_bytes walked_root),
      λ i.
          finished_leaf i
          ∙ walk_leaf ext law (commitment_key t) (frontier_key t) (note_keys t) depth n room s
              tree.siblings c i,
    )

    -- Into a tree of depth at most 40 with room, insertLeafIntoTree succeeds: it returns position `n`
    -- and the root of the perfect tree over all stored commitments, the new one at position `n`, and
    -- what it leaves is such a tree again, one leaf longer.
    pub insert_leaf_into_tree_root : Appends t c depth n s (insert_leaf_into_tree ext t c depth s)
    insert_leaf_into_tree_root =
        subst (Appends t c depth n s)
          (sym (
            insert_leaf_room t c depth n s tree.next small room
            ∙ ap (λ (r : Bytes × Store). (ok (r.0, n), r.1)) append_leaf-finish))
          finished-Appends
