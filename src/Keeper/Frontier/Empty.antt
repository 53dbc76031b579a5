-- ===== src/Keeper/Frontier/Empty.antt =====
-- A tree without leaves: no frontier level is read, and its root is the zero hash of its depth.
use native.Mathlib.Nat.{one-le-pow}
use cosmos_nixpool.Prelude.{ℕ, ◌≡◌, refl, le→ltb, arith}
use cosmos_nixpool.External.{External, IsLawful}
use cosmos_nixpool.Tree.{shift-eq-zero, node, node-empty}
use cosmos_nixpool.Types.Keys.{Key}
use cosmos_nixpool.Store.{Store}
use cosmos_nixpool.Keeper.Frontier.Walk.{HasSiblings, leaf_of}

module _ (ext : External) (ck fk : ℕ → Key) (depth : ℕ) (s : Store) where
  pub HasSiblings-empty : HasSiblings ext ck fk depth 0 s
  HasSiblings-empty l hl odd = omega (arith, shift-eq-zero l 0 (one-le-pow l 2 (omega arith)))

  leaf_of-empty : (i : ℕ) → leaf_of ext ck s 0 i ≡ ext.zero_hash 0
  leaf_of-empty i = rw (le→ltb i 0 (omega arith)) refl

  pub node-leaf_of-empty :
      (law : IsLawful ext) → node ext (leaf_of ext ck s 0) depth 0 ≡ ext.zero_hash depth
  node-leaf_of-empty law = node-empty ext law (leaf_of ext ck s 0) depth 0 (λ i _. leaf_of-empty i)
