-- ===== src/Keeper/Forest/Lasting.antt =====
-- A root stays valid while fewer than MaxRootHistory leaves follow it in its tree.
use native.Mathlib.Nat.{mod-lt}
use cosmos_nixpool.Prelude.{
  ℕ, suc, ◌+◌, ◌*◌, ◌%◌, ◌^◌, ◌<◌, ◌≡◌, ◌≢◌, refl, sym, ap, subst, ◌∙◌, true, false, Bytes, arith,
  ◌==◌, inr, bytes_equal_self, is_empty,
}
use cosmos_nixpool.External.{External}
use cosmos_nixpool.Field.{be_bytes, to_bytes, canonical_field_bytes}
use cosmos_nixpool.Types.Errors.{Result, ok}
use cosmos_nixpool.Types.Keys.{Key, max_root_history}
use cosmos_nixpool.Types.Keys.Equality.{key_equal}
use cosmos_nixpool.Store.{Store, get}
use cosmos_nixpool.Keeper.RootIndex.{slice_of, is_valid_root_any_tree}
use cosmos_nixpool.Keeper.RootIndex.Invariant.{IsIndexed}
use cosmos_nixpool.Keeper.RootIndex.Membership.{HoldsRoot, past, is_valid_root_any_tree_iff}
use cosmos_nixpool.Keeper.Forest.{get_tree_next_index, insert_leaf_into_tree}
use cosmos_nixpool.Keeper.Forest.Index.{insert_leaf_into_tree-IsIndexed}
use cosmos_nixpool.Keeper.Forest.Inserted.{
  climbed, insert-Inserted, Inserted-next, Inserted-slot, Inserted-other_slot, Inserted-other_next,
}

-- Insertions one after another into trees below `n`, `k` of them into tree `t`.
pub data Grows (ext : External) (n t : ℕ) (s : Store) : ℕ → Store → Type 0 where
  unchanged : Grows ext n t s 0 s
  inserts :
      {k : ℕ} {s1 s2 : Store} (i depth : ℕ) (c root : Bytes)
      → Grows ext n t s k s1
      → insert_leaf_into_tree ext t c depth s1 ≡ (ok (root, i), s2)
      → Grows ext n t s (suc k) s2
  elsewhere :
      {k : ℕ} {s1 s2 : Store} (i depth u : ℕ) (c root : Bytes)
      → Grows ext n t s k s1
      → u < n
      → t ≢ u
      → insert_leaf_into_tree ext u c depth s1 ≡ (ok (root, i), s2)
      → Grows ext n t s k s2

to_bytes-full : (e : ℕ) → is_empty (to_bytes e) ≡ false
unfolding to_bytes be_bytes
to_bytes-full e = refl

other_slot : (i k : ℕ) → suc k < 100 → ((i + 1 + k) % 100 == i % 100) ≡ false
other_slot i k h = ground arith

module _ (ext : External) (n t : ℕ) (below : t < n) (room : n * 101 + 1 < 2 ^ 64) where
  -- What holds between a root's insertion at position `i` and the insertion of the k-th after it.
  record Lasts (i k : ℕ) (root : Bytes) (s : Store) : Type 0 where
    indexed : IsIndexed ext n s
    next : get_tree_next_index s t ≡ i + 1 + k
    slot : slice_of (get s (Key.root_history t (i % max_root_history))) ≡ root

  insert-exact :
      (u : ℕ) (c : Bytes) (depth : ℕ) (s s' : Store) (r : Bytes × ℕ)
      → u < n
      → insert_leaf_into_tree ext u c depth s ≡ (ok r, s')
      → IsIndexed ext n s
      → IsIndexed ext n s'
  insert-exact u c depth s s' r hu h exact =
      subst (λ (x : Result (Bytes × ℕ) × Store). IsIndexed ext n x.1) h
        (insert_leaf_into_tree-IsIndexed ext n room u c depth s hu exact)

  Grows-Lasts :
      (i : ℕ) (root : Bytes) (s : Store) {k : ℕ} {s' : Store}
      → Lasts i 0 root s
      → k < max_root_history
      → Grows ext n t s k s'
      → Lasts i k root s'
  unfolding key_equal
  Grows-Lasts i root s start few unchanged = start
  Grows-Lasts i root s start few (inserts {k} {s1} {s2} j depth c r grown h) =
      let so_far = Grows-Lasts i root s start (omega (arith, few)) grown in
      let made = insert-Inserted ext t c depth s1 s2 r j h in
      let position : j ≡ i + 1 + k = sym made.next ∙ so_far.next in
      let slots : (j % 100 == i % 100) ≡ false = rw position (other_slot i k few) in
      record {
        indexed = insert-exact t c depth s1 s2 (r, j) below h so_far.indexed;
        next = Inserted-next ext t c depth s1 r j s2 made ∙ omega (arith, position);
        slot =
            ap slice_of (
              Inserted-other_slot ext t c depth s1 r j s2 t (i % max_root_history) made
                (ground (arith, slots)))
            ∙ so_far.slot;
      }
  Grows-Lasts i root s start few (elsewhere {k} {s1} {s2} j depth u c r grown hu ne h) =
      let so_far = Grows-Lasts i root s start few grown in
      let made = insert-Inserted ext u c depth s1 s2 r j h in
      record {
        indexed = insert-exact u c depth s1 s2 (r, j) hu h so_far.indexed;
        next = Inserted-other_next ext u c depth s1 r j s2 t made ne ∙ so_far.next;
        slot =
            ap slice_of (
              Inserted-other_slot ext u c depth s1 r j s2 t (i % max_root_history) made
                (ground (arith, ne)))
            ∙ so_far.slot;
      }

  -- In a forest of n trees with 101 * n + 1 below 2^64 whose root index is exact, the root that an
  -- insertion into tree t below n returns is accepted by IsValidRootAnyTree in every state that is
  -- reached by insertions, of which fewer than MaxRootHistory go into tree t and any number into the
  -- others.
  pub insert_leaf_into_tree-lasting :
      (c : Bytes) (depth i k : ℕ) (root : Bytes) (s s1 s2 : Store)
      → IsIndexed ext n s
      → insert_leaf_into_tree ext t c depth s ≡ (ok (root, i), s1)
      → k < max_root_history
      → Grows ext n t s1 k s2
      → is_valid_root_any_tree ext s2 root ≡ true
  insert_leaf_into_tree-lasting c depth i k root s s1 s2 exact h few grown =
      let made = insert-Inserted ext t c depth s s1 root i h in
      let w = climbed ext t c depth i s in
      let full : is_empty root ≡ false =
        subst (λ (b : Bytes). is_empty b ≡ false) made.root_is (to_bytes-full w.0) in
      let lasts =
        Grows-Lasts i root s1
          (record {
            indexed = insert-exact t c depth s s1 (root, i) below h exact;
            next = Inserted-next ext t c depth s root i s1 made ∙ omega arith;
            slot = Inserted-slot ext t c depth s root i s1 made;
          })
          few grown in
      let held : HoldsRoot ext s2 (Key.root_history t (i % max_root_history)) root = (
        ap is_empty lasts.slot ∙ full,
        rw lasts.slot (bytes_equal_self (canonical_field_bytes ext root)),
      ) in
      (is_valid_root_any_tree_iff ext s2 n root lasts.indexed full).1
        (inr (past t (i % max_root_history) below (mod-lt i (omega arith)) held))
