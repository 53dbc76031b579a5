-- ===== src/Keeper/Registration/Stored.antt =====
-- What an InsertRegCommitment that succeeds has stored: the leaf at its position, the root, the length
-- and the mark.
use cosmos_nixpool.Prelude.{
  ℕ, ◌+◌, ◌^◌, ◌%◌, ◌<◌, ◌≡◌, refl, sym, ap, subst, ◌∙◌, false, some, [], ◌∷◌, Bytes, arith, leb,
  leb→lt,
}
use cosmos_nixpool.External.{External}
use cosmos_nixpool.Field.{put_uint64, set_bytes, to_bytes}
use cosmos_nixpool.Field.Encoding.{uint64_of-put_uint64_lt}
use cosmos_nixpool.Types.Errors.{Result, ok, ok_injective, duplicate_commitment, tree_full}
use cosmos_nixpool.Types.Params.{default_reg_tree_depth}
use cosmos_nixpool.Types.Keys.{Key, reg_commitment_used_key}
use cosmos_nixpool.Types.Keys.Equality.{key_equal}
use cosmos_nixpool.Store.{Store, get, set, has, get-set_self, get-set_ne}
use cosmos_nixpool.Keeper.Action.{pure, modify, ◌>>=◌, bind-run, guard-eq-ok}
use cosmos_nixpool.Keeper.RootIndex.{uint64_or_zero}
use cosmos_nixpool.Keeper.Frontier.{max_leaves, climb}
use cosmos_nixpool.Keeper.Frontier.Climb.{climb_frame}
use cosmos_nixpool.Keeper.Registration.{
  get_reg_merkle_root, append_leaf_single, insert_leaf_single_tree, insert_reg_commitment,
}

module _ (ext : External) where
  -- The state past the walk of a registration.
  abbrev climbed : Bytes → ℕ → Store → ℕ × Store
  climbed c i s =
      climb ext (λ l. Key.reg_frontier l) default_reg_tree_depth 0 i (set_bytes ext c)
        (set (Key.reg_commitment i) c s)

  abbrev grown : Bytes → ℕ → Store → Store
  grown c i s =
      set Key.reg_next_index (put_uint64 (i + 1))
        (set Key.reg_root (to_bytes (climbed c i s).0) (climbed c i s).1)

  single-eq-ok :
      (c : Bytes) (s s' : Store) (r : Bytes × ℕ)
      → insert_leaf_single_tree ext c default_reg_tree_depth
          (λ i. Key.reg_commitment i)
          (λ l. Key.reg_frontier l)
          Key.reg_root
          Key.reg_next_index
          s
        ≡ (ok r, s')
      → (r.1 + 1 < 2 ^ 64) × (to_bytes (climbed c r.1 s).0 ≡ r.0) × (grown c r.1 s ≡ s')
  unfolding insert_leaf_single_tree ◌>>=◌ append_leaf_single max_leaves
  single-eq-ok c s s' r h =
      let here = uint64_or_zero (get s Key.reg_next_index) in
      let (room, run) =
        guard-eq-ok (leb (max_leaves default_reg_tree_depth) here) tree_full _ s s' r h in
      let given : (to_bytes (climbed c here s).0, here) ≡ r =
        ok_injective _ _ (ap (λ (x : Result (Bytes × ℕ) × Store). x.0) run) in
      let below : here < 2 ^ 20 % 2 ^ 64 = leb→lt (max_leaves default_reg_tree_depth) here room in
      let small : here + 1 < 2 ^ 64 = omega (arith, below) in
      subst
        (λ (x : Bytes × ℕ).
          (x.1 + 1 < 2 ^ 64) × (to_bytes (climbed c x.1 s).0 ≡ x.0) × (grown c x.1 s ≡ s'))
        given (small, refl, ap (λ (x : Result (Bytes × ℕ) × Store). x.1) run)

  -- A registration that succeeds: the leaf's position and root, and the store.
  pub record Stored (c : Bytes) (root : Bytes) (i : ℕ) (s s' : Store) : Type 0 where
    pub bound : i + 1 < 2 ^ 64
    pub root_is : to_bytes (climbed c i s).0 ≡ root
    pub store_is : set (reg_commitment_used_key ext c) (1 ∷ []) (grown c i s) ≡ s'

  pub insert_reg_commitment-Stored :
      (c : Bytes) (s s' : Store) (root : Bytes) (i : ℕ)
      → insert_reg_commitment ext c s ≡ (ok (root, i), s')
      → Stored c root i s s'
  unfolding insert_reg_commitment ◌>>=◌ modify pure
  insert_reg_commitment-Stored c s s' root i h =
      let (_, h1) =
        guard-eq-ok (has s (reg_commitment_used_key ext c)) duplicate_commitment _ s s' (root, i)
          h in
      let (leaf, t, made, rest) =
        bind-run
          (insert_leaf_single_tree ext c default_reg_tree_depth (λ i. Key.reg_commitment i)
            (λ l. Key.reg_frontier l) Key.reg_root Key.reg_next_index)
          _ s s' (root, i) h1 in
      let (small, root_is, store_is) = single-eq-ok c s t leaf made in
      let given : leaf ≡ (root, i) =
        ok_injective _ _ (ap (λ (x : Result (Bytes × ℕ) × Store). x.0) rest) in
      let stored =
        ap (λ (x : Store). set (reg_commitment_used_key ext c) (1 ∷ []) x) store_is
        ∙ ap (λ (x : Result (Bytes × ℕ) × Store). x.1) rest in
      subst (λ (x : Bytes × ℕ). Stored c x.0 x.1 s s') given
        (record { bound = small; root_is = root_is; store_is = stored })

  -- What a key reads that is written neither by the mark nor as the root or the length.
  Stored-get :
      (c : Bytes) (root : Bytes) (i : ℕ) (s s' : Store) (k : Key)
      → Stored c root i s s'
      → key_equal (reg_commitment_used_key ext c) k ≡ false
      → get s' k ≡ get (grown c i s) k
  Stored-get c root i s s' k made ne =
      ap (λ (x : Store). get x k) (sym made.store_is)
      ∙ get-set_ne (grown c i s) (reg_commitment_used_key ext c) k (1 ∷ []) ne

  pub Stored-root :
      (c : Bytes) (root : Bytes) (i : ℕ) (s s' : Store)
      → Stored c root i s s'
      → get_reg_merkle_root ext s' ≡ root
  unfolding key_equal reg_commitment_used_key get_reg_merkle_root
  Stored-root c root i s s' made =
      let w = climbed c i s in
      let at_root =
        Stored-get c root i s s' Key.reg_root made refl
        ∙ get-set_ne (set Key.reg_root (to_bytes w.0) w.1) Key.reg_next_index Key.reg_root
            (put_uint64 (i + 1)) refl
        ∙ get-set_self w.1 Key.reg_root (to_bytes w.0) in
      rw at_root made.root_is

  pub Stored-next :
      (c : Bytes) (root : Bytes) (i : ℕ) (s s' : Store)
      → Stored c root i s s'
      → uint64_or_zero (get s' Key.reg_next_index) ≡ i + 1
  unfolding key_equal reg_commitment_used_key
  Stored-next c root i s s' made =
      let w = climbed c i s in
      ap uint64_or_zero (
        Stored-get c root i s s' Key.reg_next_index made refl
        ∙ get-set_self (set Key.reg_root (to_bytes w.0) w.1) Key.reg_next_index
            (put_uint64 (i + 1)))
      ∙ uint64_of-put_uint64_lt (i + 1) made.bound

  pub Stored-leaf :
      (c : Bytes) (root : Bytes) (i : ℕ) (s s' : Store)
      → Stored c root i s s'
      → get s' (Key.reg_commitment i) ≡ some c
  unfolding key_equal reg_commitment_used_key
  Stored-leaf c root i s s' made =
      let w = climbed c i s in
      let k = Key.reg_commitment i in
      Stored-get c root i s s' k made refl
      ∙ get-set_ne (set Key.reg_root (to_bytes w.0) w.1) Key.reg_next_index k (put_uint64 (i + 1))
          refl
      ∙ get-set_ne w.1 Key.reg_root k (to_bytes w.0) refl
      ∙ climb_frame ext (λ l. Key.reg_frontier l) default_reg_tree_depth 0 i (set_bytes ext c)
          (set k c s) k (λ l hl. refl)
      ∙ get-set_self s k c

  pub Stored-used :
      (c : Bytes) (root : Bytes) (i : ℕ) (s s' : Store)
      → Stored c root i s s'
      → get s' (reg_commitment_used_key ext c) ≡ some (1 ∷ [])
  Stored-used c root i s s' made =
      ap (λ (x : Store). get x (reg_commitment_used_key ext c)) (sym made.store_is)
      ∙ get-set_self (grown c i s) (reg_commitment_used_key ext c) (1 ∷ [])
