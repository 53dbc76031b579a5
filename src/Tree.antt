-- ===== src/Tree.antt =====
-- The reference for the incremental trees of keeper/merkle.go: the root of a perfect binary tree over
-- a function that gives every leaf, and what one leaf contributes to it.
use cosmos_nixpool.Prelude.{
  ℕ, zero, suc, ◌+◌, ◌*◌, ◌/◌, ◌^◌, ◌≤◌, ◌<◌, ◌≡◌, refl, sym, subst, ap, ap₂, ◌∙◌, arith, inl, inr,
}
use native.Mathlib.Nat.{pow-suc, eq-or-lt_of_le}
use cosmos_nixpool.External.{External, IsLawful}

-- The position, at level `l`, of the node above leaf `i`.
unfoldable pub shift : ℕ → ℕ → ℕ
shift zero i = i
shift (suc l) i = shift l i / 2

pub shift_mono : (l i j : ℕ) → i ≤ j → shift l i ≤ shift l j
unfolding shift
shift_mono zero i j h = h
shift_mono (suc l) i j h = omega (arith, shift_mono l i j h)

shift-half : (l i : ℕ) → shift l (i / 2) ≡ shift l i / 2
unfolding shift
shift-half zero i = refl
shift-half (suc l) i = ap (λ k. k / 2) (shift-half l i)

-- Every leaf of a tree of depth `d` lies under its root.
pub shift-eq-zero : (d i : ℕ) → i < 2 ^ d → shift d i ≡ 0
unfolding shift
shift-eq-zero zero i h = omega arith
shift-eq-zero (suc d) i h =
    let bound : i < 2 ^ d * 2 = rw (← pow-suc 2 d) h in
    sym (shift-half d i) ∙ shift-eq-zero d (i / 2) (omega arith)

-- Above a level at which the path is at position 0 it stays there.
pub shift_above : (d l i : ℕ) → d ≤ l → shift d i ≡ 0 → shift l i ≡ 0
unfolding shift
shift_above d zero i h z = let here : d ≡ 0 = omega arith in subst (λ k. shift k i ≡ 0) here z
shift_above d (suc l) i h z = elim (eq-or-lt_of_le h) [
  | inl here ↦ subst (λ k. shift k i ≡ 0) here z
  | inr below ↦ let up = shift_above d l i (omega arith) z in omega (arith, up)
]

module _ (ext : External) where
  -- The node at a level and a position of the tree over a leaf function.
  unfoldable pub node : (ℕ → ℕ) → ℕ → ℕ → ℕ
  node leaf zero j = leaf j
  node leaf (suc l) j = ext.hash2 (node leaf l (2 * j)) (node leaf l (2 * j + 1))

  -- The root of the tree of a depth.
  abbrev pub root_of : (ℕ → ℕ) → ℕ → ℕ
  root_of leaf d = node leaf d 0

  -- A node depends only on the leaves under it.
  pub node_local :
      (f g : ℕ → ℕ) (l j : ℕ) → ((i : ℕ) → shift l i ≡ j → f i ≡ g i) → node f l j ≡ node g l j
  unfolding node shift
  node_local f g zero j h = h j refl
  node_local f g (suc l) j h =
      ap₂ ext.hash2 (node_local f g l (2 * j) (λ i e. h i (omega arith)))
        (node_local f g l (2 * j + 1) (λ i e. h i (omega arith)))

  -- A node over empty leaves only is the zero hash of its level.
  pub node-empty :
      (law : IsLawful ext) (f : ℕ → ℕ) (l j : ℕ)
      → ((i : ℕ) → shift l i ≡ j → f i ≡ ext.zero_hash 0)
      → node f l j ≡ ext.zero_hash l
  unfolding node shift
  node-empty law f zero j h = h j refl
  node-empty law f (suc l) j h =
      ap₂ ext.hash2 (node-empty law f l (2 * j) (λ i e. h i (omega arith)))
        (node-empty law f l (2 * j + 1) (λ i e. h i (omega arith)))
      ∙ sym (law.zero_hash-suc l)

  -- Nodes are field elements if the leaves are.
  pub node-lt :
      (law : IsLawful ext) (f : ℕ → ℕ)
      → ((i : ℕ) → f i < ext.modulus)
      → (l j : ℕ) → node f l j < ext.modulus
  unfolding node
  node-lt law f h zero j = h j
  node-lt law f h (suc l) j = law.hash2_bound (node f l (2 * j)) (node f l (2 * j + 1))
