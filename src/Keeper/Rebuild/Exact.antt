-- ===== src/Keeper/Rebuild/Exact.antt =====
-- A rebuilt index counts exactly the slots, whatever index was there before.
use cosmos_nixpool.Prelude.{
  ℕ, zero, suc, ◌+◌, ◌*◌, ◌^◌, ◌≤◌, ◌<◌, ◌≡◌, refl, sym, ap, ◌∙◌, Bool, true, false, none, [], ◌∷◌,
  Bytes, arith, ◌==◌, if◌then◌else◌, bytes_equal, bytes_equal→eq, subst, Bool-cases, inl, inr,
  bytes_equal_self, eqb_comm,
}
use cosmos_nixpool.External.{External, IsLawful}
use cosmos_nixpool.Field.{canonical_field_bytes}
use cosmos_nixpool.Field.Canonical.{canonical_field_bytes-idempotent}
use cosmos_nixpool.Types.Keys.{Key, root_index_key, max_root_history}
use cosmos_nixpool.Types.Keys.Equality.{family}
use cosmos_nixpool.Store.{Store, get, keys_of_family, delete_all, get-delete_family, get-set_ne}
use cosmos_nixpool.Keeper.RootIndex.{slice_of, uint64_or_zero}
use cosmos_nixpool.Keeper.RootIndex.Slots.{holds, history_count, forest_count}
use cosmos_nixpool.Keeper.RootIndex.Counts.{forest_count_frame}
use cosmos_nixpool.Keeper.RootIndex.Invariant.{index_at, IsIndexed, index_at-set}
use cosmos_nixpool.Keeper.RootIndex.Invariant.Writes.{is_index, not_index_key}
use cosmos_nixpool.Keeper.Forest.{get_tree_count}
use cosmos_nixpool.Keeper.Rebuild.{
  Counts, tally, record_slot, record_history, record_trees, write_counts, rebuild_root_index,
  root_index_family,
}

-- `counts[d]`
abbrev count_for : Counts → Bytes → ℕ
count_for [] d = 0
count_for ((c, n) ∷ counts) d = if bytes_equal c d then n else count_for counts d

-- Both strings are equal to a third, or neither is.
same_bytes : (c d e : Bytes) → bytes_equal c d ≡ true → bytes_equal c e ≡ bytes_equal d e
same_bytes c d e h = ap (λ (x : Bytes). bytes_equal x e) (bytes_equal→eq c d h)

count_for-tally :
    (c : Bytes) (counts : Counts) (d : Bytes)
    → count_for (tally c counts) d ≡ count_for counts d + (if bytes_equal c d then 1 else 0)
unfolding tally
count_for-tally c [] d = ground arith
count_for-tally c ((e, n) ∷ counts) d = elim (Bool-cases (bytes_equal e c)) [
  | inl here ↦ rw here (ground (arith, same_bytes e c d here))
  | inr elsewhere ↦ rw elsewhere (
      ground
        (arith, count_for-tally c counts d, same_bytes e d c, same_bytes c d c, bytes_equal_self c))
]

module _ (ext : External) where
  count_for-record_slot :
      (b : Bytes) (counts : Counts) (d : Bytes)
      → count_for (record_slot ext b counts) d ≡ count_for counts d + holds ext b d
  unfolding record_slot
  count_for-record_slot [] counts d = omega arith
  count_for-record_slot (x ∷ xs) counts d =
      count_for-tally (canonical_field_bytes ext (x ∷ xs)) counts d

  count_for-record_history :
      (s : Store) (t n : ℕ) (counts : Counts) (d : Bytes)
      → count_for (record_history ext s t n counts) d
        ≡ count_for counts d + history_count ext s t n d
  unfolding record_history history_count
  count_for-record_history s t zero counts d = omega arith
  count_for-record_history s t (suc n) counts d =
      let b = slice_of (get s (Key.root_history t n)) in
      omega (
        arith,
        count_for-record_slot b (record_history ext s t n counts) d,
        count_for-record_history s t n counts d,
      )

  count_for-record_trees :
      (s : Store) (n : ℕ) (d : Bytes) → count_for (record_trees ext s n) d ≡ forest_count ext s n d
  unfolding record_trees forest_count
  count_for-record_trees s zero d = refl
  count_for-record_trees s (suc n) d =
      let b = slice_of (get s (Key.tree_root n)) in
      omega (
        arith,
        count_for-record_history s n max_root_history (record_slot ext b (record_trees ext s n)) d,
        count_for-record_slot b (record_trees ext s n) d,
        count_for-record_trees s n d,
      )

  get-write_counts :
      (counts : Counts) (s : Store) (j : Key)
      → is_index j ≡ false
      → get (write_counts ext counts s) j ≡ get s j
  unfolding write_counts root_index_key
  get-write_counts [] s j h = refl
  get-write_counts ((c, n) ∷ counts) s j h =
      get-set_ne (write_counts ext counts s) _ j _ (not_index_key _ j h)
      ∙ get-write_counts counts s j h

  -- Every key is canonical, and no count is above the bound.
  abbrev Fits : ℕ → Counts → Type 0
  Fits bound [] = Unit
  Fits bound ((c, n) ∷ counts) = (canonical_field_bytes ext c ≡ c) × (n ≤ bound) × Fits bound counts

  Fits-suc : (bound : ℕ) (counts : Counts) → Fits bound counts → Fits (suc bound) counts
  Fits-suc bound [] h = tt
  Fits-suc bound ((c, n) ∷ counts) (canon, le, h) = (canon, omega arith, Fits-suc bound counts h)

  Fits-if :
      (b : Bool) (bound : ℕ) (xs ys : Counts)
      → Fits bound xs
      → Fits bound ys
      → Fits bound (if b then xs else ys)
  Fits-if true bound xs ys hx hy = hx
  Fits-if false bound xs ys hx hy = hy

  tally-Fits :
      (bound : ℕ) (c : Bytes) (counts : Counts)
      → canonical_field_bytes ext c ≡ c
      → Fits bound counts
      → Fits (suc bound) (tally c counts)
  unfolding tally
  tally-Fits bound c [] canon h = (canon, omega arith, tt)
  tally-Fits bound c ((d, n) ∷ counts) canon (other, le, h) =
      Fits-if (bytes_equal d c) (suc bound) _ _ (other, omega arith, Fits-suc bound counts h)
        (other, omega arith, tally-Fits bound c counts canon h)

  module _ (law : IsLawful ext) where
    record_slot-Fits :
        (bound : ℕ) (b : Bytes) (counts : Counts)
        → Fits bound counts
        → Fits (suc bound) (record_slot ext b counts)
    unfolding record_slot
    record_slot-Fits bound [] counts h = Fits-suc bound counts h
    record_slot-Fits bound (x ∷ xs) counts h =
        tally-Fits bound _ counts (canonical_field_bytes-idempotent ext law (x ∷ xs)) h

    record_history-Fits :
        (s : Store) (t n bound : ℕ) (counts : Counts)
        → Fits bound counts
        → Fits (n + bound) (record_history ext s t n counts)
    unfolding record_history
    record_history-Fits s t zero bound counts h = subst (λ (k : ℕ). Fits k counts) (omega arith) h
    record_history-Fits s t (suc n) bound counts h =
        subst (λ (k : ℕ). Fits k (record_history ext s t (suc n) counts)) (omega arith)
          (record_slot-Fits (n + bound) _ _ (record_history-Fits s t n bound counts h))

    record_trees-Fits : (s : Store) (n : ℕ) → Fits (n * 101) (record_trees ext s n)
    unfolding record_trees
    record_trees-Fits s zero = tt
    record_trees-Fits s (suc n) =
        subst (λ (k : ℕ). Fits k (record_trees ext s (suc n))) (omega arith)
          (record_history-Fits s n max_root_history (suc (n * 101)) _
            (record_slot-Fits (n * 101) _ _ (record_trees-Fits s n)))

  index_at-write_counts :
      (counts : Counts) (s : Store) (bound : ℕ) (d : Bytes)
      → bound < 2 ^ 64
      → Fits bound counts
      → index_at s d ≡ 0
      → index_at (write_counts ext counts s) d ≡ count_for counts d
  unfolding write_counts root_index_key
  index_at-write_counts [] s bound d room h empty = empty
  index_at-write_counts ((c, n) ∷ counts) s bound d room (canon, le, h) empty = rw canon (
      index_at-set (write_counts ext counts s) c d n (omega arith)
      ∙ ap (λ (k : ℕ). if bytes_equal c d then n else k)
          (index_at-write_counts counts s bound d room h empty))

module _ (ext : External) (s : Store) where
  abbrev cleared : Store
  cleared = delete_all (keys_of_family root_index_family s) s

  get-cleared :
      (j : Key) → get cleared j ≡ (if family j == root_index_family then none else get s j)
  get-cleared j = get-delete_family root_index_family s j

  get-rebuild_root_index :
      (j : Key) → is_index j ≡ false → get (rebuild_root_index ext s) j ≡ get s j
  unfolding rebuild_root_index
  get-rebuild_root_index j h =
      get-write_counts ext (record_trees ext cleared (get_tree_count s)) cleared j h
      ∙ get-cleared j
      ∙ ap (λ (b : Bool). if b then none else get s j) (eqb_comm (family j) 4 ∙ h)

  index_at-rebuild_root_index :
      (law : IsLawful ext)
      → get_tree_count s * 101 < 2 ^ 64
      → IsIndexed ext (get_tree_count s) (rebuild_root_index ext s)
  unfolding rebuild_root_index
  index_at-rebuild_root_index law room d =
      let n = get_tree_count s in
      index_at-write_counts ext (record_trees ext cleared n) cleared (n * 101) d room
        (record_trees-Fits ext law cleared n) (ap uint64_or_zero (get-cleared (Key.root_index d)))
      ∙ count_for-record_trees ext cleared n d
      ∙ forest_count_frame ext s cleared d n (λ t ht. get-cleared (Key.tree_root t))
          (λ t i ht. get-cleared (Key.root_history t i))
      ∙ sym (
          forest_count_frame ext s (rebuild_root_index ext s) d n
            (λ t ht. get-rebuild_root_index (Key.tree_root t) refl)
            (λ t i ht. get-rebuild_root_index (Key.root_history t i) refl))

  -- Where the trees have fewer than 2 ^ 64 - 1 slots, RebuildRootIndex leaves an index that counts,
  -- for every root, exactly the slots of the trees that hold it, whatever the index was before; and
  -- it changes no key outside the index.
  pub rebuild_root_index-IsIndexed :
      (law : IsLawful ext)
      → get_tree_count s * 101 < 2 ^ 64
      → IsIndexed ext (get_tree_count s) (rebuild_root_index ext s)
        × ((j : Key) → is_index j ≡ false → get (rebuild_root_index ext s) j ≡ get s j)
  rebuild_root_index-IsIndexed law room =
      (index_at-rebuild_root_index law room, get-rebuild_root_index)
