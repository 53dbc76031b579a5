-- ===== src/Keeper/RootIndex/Counts.antt =====
-- How the slot counts change where one slot is rewritten.
use cosmos_nixpool.Prelude.{
  ℕ, zero, suc, ◌+◌, ◌<◌, ◌≡◌, ◌≢◌, refl, sym, ap, Option, Bytes, arith, inl, inr, ◌⊎◌,
}
use cosmos_nixpool.External.{External}
use cosmos_nixpool.Types.Keys.{Key, max_root_history}
use cosmos_nixpool.Store.{Store, get}
use cosmos_nixpool.Keeper.RootIndex.{slice_of}
use cosmos_nixpool.Keeper.RootIndex.Slots.{holds, slot_holds, history_count, forest_count}

lt-or-eq : (i n : ℕ) → i < suc n → (i < n) ⊎ (i ≡ n)
lt-or-eq i n h = grind arith

module _ (ext : External) (s s' : Store) (root : Bytes) where
  slot_same : (k : Key) → get s' k ≡ get s k → slot_holds ext s' k root ≡ slot_holds ext s k root
  slot_same k h = ap (λ (o : Option Bytes). holds ext (slice_of o) root) h

  history_count_frame :
      (t n : ℕ)
      → ((i : ℕ) → i < n → get s' (Key.root_history t i) ≡ get s (Key.root_history t i))
      → history_count ext s' t n root ≡ history_count ext s t n root
  unfolding history_count
  history_count_frame t zero h = refl
  history_count_frame t (suc n) h = omega (
    arith,
    history_count_frame t n (λ i hi. h i (omega arith)),
    slot_same (Key.root_history t n) (h n (omega arith)),
  )

  -- One history slot is rewritten.
  history_count_update :
      (t k n : ℕ)
      → k < n
      → ((i : ℕ) → i ≢ k → get s' (Key.root_history t i) ≡ get s (Key.root_history t i))
      → history_count ext s' t n root + slot_holds ext s (Key.root_history t k) root
        ≡ history_count ext s t n root + slot_holds ext s' (Key.root_history t k) root
  unfolding history_count
  history_count_update t k zero hk h = elim hk [ ]
  history_count_update t k (suc n) hk h = elim (lt-or-eq k n hk) [
    | inl lower ↦ omega (
      arith,
      history_count_update t k n lower h,
      slot_same (Key.root_history t n) (h n (omega arith)),
    )
    | inr here ↦ rw here (omega (arith, history_count_frame t n (λ i hi. h i (omega arith))))
  ]

  pub forest_count_frame :
      (n : ℕ)
      → ((t : ℕ) → t < n → get s' (Key.tree_root t) ≡ get s (Key.tree_root t))
      → ((t i : ℕ) → t < n → get s' (Key.root_history t i) ≡ get s (Key.root_history t i))
      → forest_count ext s' n root ≡ forest_count ext s n root
  unfolding forest_count
  forest_count_frame zero hr hh = refl
  forest_count_frame (suc n) hr hh = omega (
    arith,
    forest_count_frame n (λ t ht. hr t (omega arith)) (λ t i ht. hh t i (omega arith)),
    slot_same (Key.tree_root n) (hr n (omega arith)),
    history_count_frame n max_root_history (λ i hi. hh n i (omega arith)),
  )

  -- One tree's current root is rewritten.
  pub forest_count-tree_root :
      (k n : ℕ)
      → k < n
      → ((t : ℕ) → t ≢ k → get s' (Key.tree_root t) ≡ get s (Key.tree_root t))
      → ((t i : ℕ) → get s' (Key.root_history t i) ≡ get s (Key.root_history t i))
      → forest_count ext s' n root + slot_holds ext s (Key.tree_root k) root
        ≡ forest_count ext s n root + slot_holds ext s' (Key.tree_root k) root
  unfolding forest_count
  forest_count-tree_root k zero hk hr hh = elim hk [ ]
  forest_count-tree_root k (suc n) hk hr hh = elim (lt-or-eq k n hk) [
    | inl lower ↦ omega (
      arith,
      forest_count-tree_root k n lower hr hh,
      slot_same (Key.tree_root n) (hr n (omega arith)),
      history_count_frame n max_root_history (λ i hi. hh n i),
    )
    | inr here ↦ rw here (
        omega (
          arith,
          forest_count_frame n (λ t ht. hr t (omega arith)) (λ t i ht. hh t i),
          history_count_frame n max_root_history (λ i hi. hh n i),
        ))
  ]

  -- One history slot of one tree is rewritten.
  pub forest_count-root_history :
      (k j n : ℕ)
      → k < n
      → j < max_root_history
      → ((t : ℕ) → get s' (Key.tree_root t) ≡ get s (Key.tree_root t))
      → ((t i : ℕ) → t ≢ k → get s' (Key.root_history t i) ≡ get s (Key.root_history t i))
      → ((i : ℕ) → i ≢ j → get s' (Key.root_history k i) ≡ get s (Key.root_history k i))
      → forest_count ext s' n root + slot_holds ext s (Key.root_history k j) root
        ≡ forest_count ext s n root + slot_holds ext s' (Key.root_history k j) root
  unfolding forest_count
  forest_count-root_history k j zero hk hj hr hh hs = elim hk [ ]
  forest_count-root_history k j (suc n) hk hj hr hh hs = elim (lt-or-eq k n hk) [
    | inl lower ↦ omega (
      arith,
      forest_count-root_history k j n lower hj hr hh hs,
      slot_same (Key.tree_root n) (hr n),
      history_count_frame n max_root_history (λ i hi. hh n i (omega arith)),
    )
    | inr here ↦ rw (sym here) (
        omega (
          arith,
          forest_count_frame k (λ t ht. hr t) (λ t i ht. hh t i (omega arith)),
          slot_same (Key.tree_root k) (hr k),
          history_count_update k j max_root_history hj hs,
        ))
  ]
