-- ===== src/Keeper/Forest/Note.antt =====
-- InsertNote as a whole: the leaf goes into the active tree, a new one where that is full.
use cosmos_nixpool.Prelude.{
  ℕ, ◌+◌, ◌^◌, ◌<◌, ◌≡◌, refl, sym, ap, subst, ◌∙◌, Bool, true, false, ◌==◌, Bytes, [], ◌∷◌, leb,
  arith, if◌then◌else◌, ==_iff,
}
use cosmos_nixpool.External.{External}
use cosmos_nixpool.Field.{put_uint64}
use cosmos_nixpool.Field.Encoding.{uint64_of-put_uint64_lt}
use cosmos_nixpool.Types.Errors.{Result, ok, duplicate_commitment, ok_injective}
use cosmos_nixpool.Types.Params.{Params}
use cosmos_nixpool.Types.Keys.{Key, commitment_used_key}
use cosmos_nixpool.Types.Keys.Equality.{key_equal}
use cosmos_nixpool.Store.{Store, get, set, has, get-set_self, get-set_ne}
use cosmos_nixpool.Keeper.Action.{
  Action, pure, reads, modify, ◌>>=◌, ◌>>◌, bind-run, guard-eq-ok, lift-eq-ok,
}
use cosmos_nixpool.Keeper.Params.{get_params, effective_depth}
use cosmos_nixpool.Keeper.RootIndex.{uint64_or_zero}
use cosmos_nixpool.Keeper.Frontier.{max_leaves}
use cosmos_nixpool.Keeper.Forest.{
  get_active_tree_id, set_active_tree_id, get_tree_count, set_tree_count, get_tree_next_index,
  create_tree_at, create_tree, ensure_tree_exists, choose_tree, insert_leaf_into_tree, insert_note,
}
use cosmos_nixpool.Keeper.Forest.Inserted.{Inserted, insert-Inserted}

module _ (ext : External) where
  create_tree-run :
      (s s' : Store) (t : ℕ)
      → create_tree ext s ≡ (ok t, s')
      → (depth : ℕ) × (get_tree_count s ≡ t) × (create_tree_at ext depth s ≡ s')
  unfolding create_tree ◌>>=◌ reads
  create_tree-run s s' t h =
      let (p, stored, rest) =
        lift-eq-ok (get_params ext s)
          (λ (p : Params).
            modify (create_tree_at ext (effective_depth p)) >> pure (get_tree_count s))
          s s' t h in
      (
        effective_depth p,
        ok_injective _ _ (ap (λ (r : Result ℕ × Store). r.0) rest),
        ap (λ (r : Result ℕ × Store). r.1) rest,
      )

  -- A new tree is the active one.
  create_tree-active :
      (s s' : Store) (t : ℕ)
      → get_tree_count s < 2 ^ 64
      → create_tree ext s ≡ (ok t, s')
      → get_active_tree_id s' ≡ t
  unfolding create_tree_at set_active_tree_id get_active_tree_id
  create_tree-active s s' t small h =
      let (depth, count, made) = create_tree-run s s' t h in
      ap (λ (x : Store). uint64_or_zero (get x Key.active_tree_id)) (sym made)
      ∙ ap uint64_or_zero (get-set_self _ Key.active_tree_id (put_uint64 (get_tree_count s)))
      ∙ uint64_of-put_uint64_lt (get_tree_count s) small
      ∙ count

  create_tree-count :
      (s s' : Store) (t : ℕ)
      → get_tree_count s + 1 < 2 ^ 64
      → create_tree ext s ≡ (ok t, s')
      → get_tree_count s' ≡ get_tree_count s + 1
  unfolding create_tree_at set_active_tree_id set_tree_count get_tree_count key_equal
  create_tree-count s s' t small h =
      let (depth, count, made) = create_tree-run s s' t h in
      ap (λ (x : Store). uint64_or_zero (get x Key.tree_count)) (sym made)
      ∙ ap uint64_or_zero (
          get-set_ne _ Key.active_tree_id Key.tree_count (put_uint64 (get_tree_count s)) refl
          ∙ get-set_self _ Key.tree_count (put_uint64 (get_tree_count s + 1)))
      ∙ uint64_of-put_uint64_lt (get_tree_count s + 1) small

  ensure_run :
      (s s' : Store) (b : Bool) (u : Unit {0})
      → (if b then (create_tree ext >> pure tt) else pure tt) s ≡ (ok u, s')
      → (b ≡ get_tree_count s == 0)
      → get_tree_count s < 2 ^ 64
      → get_tree_count s' < 2 ^ 64
  unfolding pure
  ensure_run s s' false u h e small =
      subst (λ (x : Store). get_tree_count x < 2 ^ 64)
        (ap (λ (r : Result (Unit {0}) × Store). r.1) h) small
  ensure_run s s' true u h e small =
      let zero_count : get_tree_count s ≡ 0 = (==_iff (get_tree_count s) 0).0 (sym e) in
      let (t, s1, made, rest) = bind-run (create_tree ext) (λ t. pure tt) s s' u h in
      let counted = create_tree-count s s1 t (omega (arith, zero_count)) made in
      let same : s1 ≡ s' = ap (λ (r : Result (Unit {0}) × Store). r.1) rest in
      subst (λ (x : Store). get_tree_count x < 2 ^ 64) same (omega (arith, counted, zero_count))

  -- The tree that is chosen is the active one.
  choose_run :
      (s s' : Store) (b : Bool) (t : ℕ)
      → (if b then create_tree ext else pure (get_active_tree_id s)) s ≡ (ok t, s')
      → get_tree_count s < 2 ^ 64
      → get_active_tree_id s' ≡ t
  unfolding pure
  choose_run s s' true t h small = create_tree-active s s' t small h
  choose_run s s' false t h small =
      ap (λ (r : Result ℕ × Store). get_active_tree_id r.1) (sym h)
      ∙ ok_injective _ _ (ap (λ (r : Result ℕ × Store). r.0) h)

  choose_tree-active :
      (depth : ℕ) (s s' : Store) (t : ℕ)
      → get_tree_count s < 2 ^ 64
      → choose_tree ext depth s ≡ (ok t, s')
      → get_active_tree_id s' ≡ t
  unfolding choose_tree ◌>>=◌
  choose_tree-active depth s s' t small h =
      let full = leb (max_leaves depth) (get_tree_next_index s (get_active_tree_id s)) in
      choose_run s s' full t h small

  ensure_tree_exists-count :
      (s s' : Store) (u : Unit {0})
      → get_tree_count s < 2 ^ 64
      → ensure_tree_exists ext s ≡ (ok u, s')
      → get_tree_count s' < 2 ^ 64
  unfolding ensure_tree_exists ◌>>=◌
  ensure_tree_exists-count s s' u small h = ensure_run s s' (get_tree_count s == 0) u h refl small

  -- A note that is inserted into tree `t`: the leaf, and behind it the mark of the commitment.
  pub record NoteStored (c : Bytes) (root : Bytes) (i t : ℕ) (s' : Store) : Type 0 where
    pub depth : ℕ
    pub chosen : Store
    pub grown : Store
    pub leaf : Inserted ext t c depth chosen root i grown
    pub marked : set (commitment_used_key ext c) (1 ∷ []) grown ≡ s'

  -- InsertNote once the tree is there.
  abbrev store_leaf : Bytes → ℕ → ℕ → Action Store (Bytes × ℕ × ℕ)
  store_leaf c depth t = insert_leaf_into_tree ext t c depth >>= λ (leaf : Bytes × ℕ).
      modify (set (commitment_used_key ext c) (1 ∷ [])) >> pure (leaf.0, leaf.1, t)

  store_leaf-NoteStored :
      (c : Bytes) (depth : ℕ) (s s' : Store) (root : Bytes) (i t u : ℕ)
      → store_leaf c depth u s ≡ (ok (root, i, t), s')
      → (u ≡ t) × (stored : NoteStored c root i t s') × (stored.chosen ≡ s)
  unfolding ◌>>=◌ modify pure
  store_leaf-NoteStored c depth s s' root i t u h =
      let (leaf, grown, made, rest) =
        bind-run (insert_leaf_into_tree ext u c depth)
          (λ (l : Bytes × ℕ).
            modify (set (commitment_used_key ext c) (1 ∷ [])) >> pure (l.0, l.1, u))
          s s' (root, i, t) h in
      let given : (leaf.0, leaf.1, u) ≡ (root, i, t) =
        ok_injective _ _ (ap (λ (r : Result (Bytes × ℕ × ℕ) × Store). r.0) rest) in
      let leaf_is : leaf ≡ (root, i) = ap (λ (r : Bytes × ℕ × ℕ). (r.0, r.1)) given in
      let tree_is : u ≡ t = ap (λ (r : Bytes × ℕ × ℕ). r.2) given in
      (
        tree_is,
        record {
          depth = depth;
          chosen = s;
          grown = grown;
          leaf =
              subst (λ (v : ℕ). Inserted ext v c depth s root i grown) tree_is
                (insert-Inserted ext u c depth s grown root i
                  (made ∙ ap (λ (l : Bytes × ℕ). (ok l, grown)) leaf_is));
          marked = ap (λ (r : Result (Bytes × ℕ × ℕ) × Store). r.1) rest;
        },
        refl,
      )

  -- The steps of an InsertNote that succeeds, up to its tree.
  insert_note-chosen :
      (c : Bytes) (s s' : Store) (r : Bytes × ℕ × ℕ)
      → insert_note ext c s ≡ (ok r, s')
      → (depth : ℕ) × (u0 : Unit {0}) × (s0 : Store) × (ensure_tree_exists ext s ≡ (ok u0, s0))
        × (u : ℕ) × (s1 : Store) × (choose_tree ext depth s0 ≡ (ok u, s1))
        × (store_leaf c depth u s1 ≡ (ok r, s'))
  unfolding insert_note ◌>>=◌
  insert_note-chosen c s s' r h =
      let (u0, s0, ensured, h0) = bind-run (ensure_tree_exists ext) _ s s' r h in
      let (unused, h1) =
        guard-eq-ok (has s0 (commitment_used_key ext c)) duplicate_commitment _ s0 s' r h0 in
      let (p, read, h2) = lift-eq-ok (get_params ext s0) _ s0 s' r h1 in
      let (u, s1, chose, h3) = bind-run (choose_tree ext (effective_depth p)) _ s0 s' r h2 in
      (effective_depth p, u0, s0, ensured, u, s1, chose, h3)

  pub insert_note-NoteStored :
      (c : Bytes) (s s' : Store) (root : Bytes) (i t : ℕ)
      → insert_note ext c s ≡ (ok (root, i, t), s')
      → NoteStored c root i t s'
  insert_note-NoteStored c s s' root i t h =
      let (depth, _, _, _, u, s1, _, rest) = insert_note-chosen c s s' (root, i, t) h in
      (store_leaf-NoteStored c depth s1 s' root i t u rest).1

  -- Below 2^64 trees, the tree that takes the note was the active one.
  pub record NoteInserted (c : Bytes) (root : Bytes) (i t : ℕ) (s' : Store) : Type 0 where
    pub stored : NoteStored c root i t s'
    pub active : get_active_tree_id stored.chosen ≡ t

  pub insert_note-NoteInserted :
      (c : Bytes) (s s' : Store) (root : Bytes) (i t : ℕ)
      → get_tree_count s < 2 ^ 64
      → insert_note ext c s ≡ (ok (root, i, t), s')
      → NoteInserted c root i t s'
  insert_note-NoteInserted c s s' root i t small h =
      let (depth, u0, s0, ensured, u, s1, chose, rest) = insert_note-chosen c s s' (root, i, t) h in
      let (tree_is, stored, before) = store_leaf-NoteStored c depth s1 s' root i t u rest in
      record {
        stored = stored;
        active =
            ap get_active_tree_id before
            ∙ choose_tree-active depth s0 s1 u (ensure_tree_exists-count s s0 u0 small ensured)
                chose
            ∙ tree_is;
      }
