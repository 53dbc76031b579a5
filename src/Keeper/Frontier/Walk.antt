-- ===== src/Keeper/Frontier/Walk.antt =====
-- A tree in the store, by its commitment and frontier keys, and what the walk for a new leaf does to
-- it.
use cosmos_nixpool.Prelude.{
  ℕ, ◌+◌, ◌-◌, ◌%◌, ◌^◌, ◌≤◌, ◌<◌, ◌≡◌, ◌≢◌, sym, ap, ◌∙◌, false, Option, some, Bytes, ltb,
  if◌then◌else◌, arith, inl, inr, ◌⊎◌,
}
use cosmos_nixpool.External.{External, IsLawful}
use cosmos_nixpool.Field.{set_bytes}
use cosmos_nixpool.Field.Canonical.{set_bytes-lt}
use cosmos_nixpool.Tree.{shift, shift_above, shift-eq-zero, node, node_local}
use cosmos_nixpool.Types.Keys.{Key}
use cosmos_nixpool.Types.Keys.Equality.{key_equal, key_equal_comm}
use cosmos_nixpool.Store.{Store, get, set, get-set_self, get-set_ne}
use cosmos_nixpool.Keeper.RootIndex.{slice_of}
use cosmos_nixpool.Keeper.Frontier.{left_sibling, climb}
use cosmos_nixpool.Keeper.Frontier.Climb.{with_leaf, climb_frame, climb-eq-node, climb-Siblings}

lt_or_le : (a b : ℕ) → (a < b) ⊎ (b ≤ a)
lt_or_le a b = grind arith

eq_or_ne : (a b : ℕ) → (a ≡ b) ⊎ (a ≢ b)
eq_or_ne a b = grind arith

-- The commitments and the frontier of one tree have keys of their own.
pub record HasTreeKeys (commitment_key frontier_key : ℕ → Key) : Type 0 where
  pub commitments : (i j : ℕ) → i ≢ j → key_equal (commitment_key i) (commitment_key j) ≡ false
  pub frontiers : (l m : ℕ) → l ≢ m → key_equal (frontier_key l) (frontier_key m) ≡ false
  pub apart : (i l : ℕ) → key_equal (commitment_key i) (frontier_key l) ≡ false

module _ (ext : External) where
  -- The leaf at a position of a tree with `n` stored commitments: the rest is empty.
  abbrev pub leaf_of : (ℕ → Key) → Store → ℕ → ℕ → ℕ
  leaf_of commitment_key s n i =
      if ltb i n then set_bytes ext (slice_of (get s (commitment_key i))) else ext.zero_hash 0

  -- The frontier holds every left sibling that later insertions read.
  abbrev pub HasSiblings : (ℕ → Key) → (ℕ → Key) → ℕ → ℕ → Store → Type 0
  HasSiblings commitment_key frontier_key depth n s =
      (l : ℕ)
      → l < depth
      → shift l n % 2 ≡ 1
      → left_sibling ext (get s (frontier_key l))
        ≡ node ext (leaf_of commitment_key s n) l (shift l n - 1)

  -- Writes elsewhere keep it.
  pub HasSiblings-frame :
      (commitment_key frontier_key : ℕ → Key) (depth n : ℕ) (s s' : Store)
      → ((i : ℕ) → get s' (commitment_key i) ≡ get s (commitment_key i))
      → ((l : ℕ) → get s' (frontier_key l) ≡ get s (frontier_key l))
      → HasSiblings commitment_key frontier_key depth n s
      → HasSiblings commitment_key frontier_key depth n s'
  HasSiblings-frame ck fk depth n s s' same_c same_f h l hl bit = rw (same_f l) (
      h l hl bit
      ∙ node_local ext (leaf_of ck s n) (leaf_of ck s' n) l (shift l n - 1) (λ i _.
        ap (λ (o : Option Bytes). if ltb i n then set_bytes ext (slice_of o) else ext.zero_hash 0)
          (sym (same_c i))))

module _ (ext : External) (law : IsLawful ext) (commitment_key frontier_key : ℕ → Key)
    (keys : HasTreeKeys commitment_key frontier_key) (depth n : ℕ) (room : n < 2 ^ depth)
    (s : Store) (siblings : HasSiblings ext commitment_key frontier_key depth n s) (c : Bytes) where
  abbrev pub walk : ℕ × Store
  walk = climb ext frontier_key depth 0 n (set_bytes ext c) (set (commitment_key n) c s)

  abbrev stored : Store
  stored = set (commitment_key n) c s

  abbrev old_leaf : ℕ → ℕ
  old_leaf = leaf_of ext commitment_key s n

  abbrev new_leaf : ℕ → ℕ
  new_leaf = with_leaf old_leaf n (set_bytes ext c)

  old_leaf-lt : (i : ℕ) → old_leaf i < ext.modulus
  old_leaf-lt i =
      ground
        (arith, set_bytes-lt ext law (slice_of (get s (commitment_key i))), law.zero_hash_bound 0)

  old_leaf-empty : (i : ℕ) → n ≤ i → old_leaf i ≡ ext.zero_hash 0
  old_leaf-empty i h = ground arith

  -- Above the depth the path is at position 0, so nothing is read there.
  path_above : (l : ℕ) → depth ≤ l → shift l n ≡ 0
  path_above l h = shift_above depth l n h (shift-eq-zero depth n room)

  walk_siblings :
      (l : ℕ)
      → 0 ≤ l
      → shift l n % 2 ≡ 1
      → left_sibling ext (get stored (frontier_key l)) ≡ node ext old_leaf l (shift l n - 1)
  walk_siblings l _ bit = elim (lt_or_le l depth) [
    | inl below ↦
        rw (get-set_ne s (commitment_key n) (frontier_key l) c (keys.apart n l))
          (siblings l below bit)
    | inr above ↦ absurd (omega (arith, path_above l above))
  ]

  -- The walk changes the new commitment and the frontier only.
  pub walk_frame :
      (k : Key)
      → key_equal (commitment_key n) k ≡ false
      → ((l : ℕ) → key_equal (frontier_key l) k ≡ false)
      → get walk.1 k ≡ get s k
  walk_frame k hc hf =
      climb_frame ext frontier_key depth 0 n (set_bytes ext c) stored k (λ l _. hf l)
      ∙ get-set_ne s (commitment_key n) k c hc

  pub walk_commitment : get walk.1 (commitment_key n) ≡ some c
  walk_commitment =
      climb_frame ext frontier_key depth 0 n (set_bytes ext c) stored (commitment_key n)
        (λ l _. key_equal_comm (frontier_key l) (commitment_key n) ∙ keys.apart n l)
      ∙ get-set_self s (commitment_key n) c

  -- The leaves after the walk.
  pub walk_leaf : (i : ℕ) → leaf_of ext commitment_key walk.1 (n + 1) i ≡ new_leaf i
  walk_leaf i = elim (eq_or_ne i n) [
    | inl here ↦ rw here (ground (arith, walk_commitment))
    | inr other ↦ ground (
      arith,
      walk_frame (commitment_key i) (keys.commitments n i (λ e. other (sym e)))
          (λ l. key_equal_comm (frontier_key l) (commitment_key i) ∙ keys.apart i l),
    )
  ]

  walk_start :
      walk ≡ climb ext frontier_key depth 0 (shift 0 n) (node ext new_leaf 0 (shift 0 n)) stored
  unfolding shift node
  walk_start = ap (λ (v : ℕ). climb ext frontier_key depth 0 n v stored) (ground arith)

  -- The walk returns the root of the tree over all commitments, the new one included.
  pub walk_root : walk.0 ≡ node ext (leaf_of ext commitment_key walk.1 (n + 1)) depth 0
  walk_root =
      ap (λ (r : ℕ × Store). r.0) walk_start
      ∙ climb-eq-node ext law frontier_key keys.frontiers old_leaf old_leaf-lt n old_leaf-empty
          (set_bytes ext c) (set_bytes-lt ext law c) depth 0 depth stored (omega arith)
          walk_siblings
      ∙ ap (node ext new_leaf depth) (shift-eq-zero depth n room)
      ∙ node_local ext new_leaf (leaf_of ext commitment_key walk.1 (n + 1)) depth 0
          (λ i _. sym (walk_leaf i))

  pub walk-HasSiblings : HasSiblings ext commitment_key frontier_key depth (n + 1) walk.1
  walk-HasSiblings l hl bit =
      ap (λ (r : ℕ × Store). left_sibling ext (get r.1 (frontier_key l))) walk_start
      ∙ climb-Siblings ext law frontier_key keys.frontiers old_leaf old_leaf-lt n old_leaf-empty
          (set_bytes ext c) (set_bytes-lt ext law c) depth stored walk_siblings l hl bit
      ∙ node_local ext new_leaf (leaf_of ext commitment_key walk.1 (n + 1)) l (shift l (n + 1) - 1)
          (λ i _. sym (walk_leaf i))
