-- ===== src/Keeper/Forest/Insert.antt =====
-- insertLeafIntoTree: the root that it stores is that of the perfect tree over all the commitments.
use native.Mathlib.Nat.{pow-suc, eq-or-lt_of_le, mod-eq_of_lt}
use cosmos_nixpool.Prelude.{
  ℕ, zero, suc, ◌+◌, ◌^◌, ◌≤◌, ◌<◌, ◌≡◌, refl, sym, ap, ◌∙◌, false, Option, Bytes, ltb,
  if◌then◌else◌, arith, inl, inr,
}
use cosmos_nixpool.External.{External}
use cosmos_nixpool.Field.{put_uint64, set_bytes, to_bytes}
use cosmos_nixpool.Field.Encoding.{uint64_of-put_uint64_lt}
use cosmos_nixpool.Tree.{node, node_local}
use cosmos_nixpool.Types.Keys.{Key}
use cosmos_nixpool.Types.Keys.Equality.{key_equal}
use cosmos_nixpool.Store.{Store, get, set, get-set_self, get-set_ne}
use cosmos_nixpool.Keeper.RootIndex.{
  slice_of, uint64_or_zero, set_tree_root_indexed, set_root_history_indexed,
}
use cosmos_nixpool.Keeper.RootIndex.Invariant.Writes.{
  get-set_tree_root_ne, get-set_root_history_ne, get-set_tree_root_self, is_index,
}
use cosmos_nixpool.Keeper.Frontier.{max_leaves}
use cosmos_nixpool.Keeper.Frontier.Walk.{HasTreeKeys, HasSiblings, HasSiblings-frame, leaf_of}
use cosmos_nixpool.Keeper.Forest.{commitment_key, frontier_key, get_tree_next_index}

pub two_pow_mono : (d e : ℕ) → d ≤ e → 2 ^ d ≤ 2 ^ e
two_pow_mono d zero h = let base : d ≡ 0 = omega arith in rw base (omega arith)
two_pow_mono d (suc e) h = elim (eq-or-lt_of_le h) [
  | inl here ↦ rw here (omega arith)
  | inr below ↦ omega (arith, two_pow_mono d e (omega arith), pow-suc 2 e)
]

-- The shift of `maxLeaves` does not overflow at the depths that the parameters allow.
pub max_leaves-eq-pow : (depth : ℕ) → depth ≤ 40 → max_leaves depth ≡ 2 ^ depth
unfolding max_leaves
max_leaves-eq-pow depth h =
    let bound : 2 ^ depth ≤ 2 ^ 40 = two_pow_mono depth 40 h in mod-eq_of_lt (omega arith)

pub note_keys : (t : ℕ) → HasTreeKeys (commitment_key t) (frontier_key t)
unfolding key_equal
note_keys t = record {
  commitments = λ i j ne. ground arith;
  frontiers = λ l m ne. ground arith;
  apart = λ i l. refl;
}

module _ (ext : External) where
  -- The leaves of a note tree that holds `n` commitments.
  abbrev pub note_leaf : Store → ℕ → ℕ → ℕ → ℕ
  note_leaf s t n = leaf_of ext (commitment_key t) s n

  -- A note tree in the store: its length, its frontier and its root.
  pub record IsNoteTree (depth t n : ℕ) (s : Store) : Type 0 where
    pub next : get_tree_next_index s t ≡ n
    pub siblings : HasSiblings ext (commitment_key t) (frontier_key t) depth n s
    pub root : slice_of (get s (Key.tree_root t)) ≡ to_bytes (node ext (note_leaf s t n) depth 0)

module _ (ext : External) (t n slot : ℕ) (root : Bytes) (s : Store) where
  -- The writes of an insertion behind its walk.
  abbrev pub finish : Store
  finish =
      set (Key.tree_next_index t) (put_uint64 (n + 1))
        (set_root_history_indexed ext t slot root (set_tree_root_indexed ext t root s))

  -- They leave every other key alone.
  pub finish_frame :
      (k : Key)
      → is_index k ≡ false
      → key_equal (Key.tree_root t) k ≡ false
      → key_equal (Key.root_history t slot) k ≡ false
      → key_equal (Key.tree_next_index t) k ≡ false
      → get finish k ≡ get s k
  finish_frame k hi hr hh hn =
      let s1 = set_tree_root_indexed ext t root s in
      let s2 = set_root_history_indexed ext t slot root s1 in
      get-set_ne s2 (Key.tree_next_index t) k (put_uint64 (n + 1)) hn
      ∙ get-set_root_history_ne ext t slot root s1 k hi hh
      ∙ get-set_tree_root_ne ext t root s k hi hr

  pub finish_root : slice_of (get finish (Key.tree_root t)) ≡ root
  unfolding key_equal
  finish_root =
      let s1 = set_tree_root_indexed ext t root s in
      let s2 = set_root_history_indexed ext t slot root s1 in
      ap slice_of (
        get-set_ne s2 (Key.tree_next_index t) (Key.tree_root t) (put_uint64 (n + 1)) refl
        ∙ get-set_root_history_ne ext t slot root s1 (Key.tree_root t) refl refl)
      ∙ get-set_tree_root_self ext t root s

  pub finish_next : n + 1 < 2 ^ 64 → get_tree_next_index finish t ≡ n + 1
  unfolding get_tree_next_index
  finish_next h =
      let s2 = set_root_history_indexed ext t slot root (set_tree_root_indexed ext t root s) in
      ap uint64_or_zero (get-set_self s2 (Key.tree_next_index t) (put_uint64 (n + 1)))
      ∙ uint64_of-put_uint64_lt (n + 1) h

  finish_commitment : (u i : ℕ) → get finish (commitment_key u i) ≡ get s (commitment_key u i)
  unfolding key_equal
  finish_commitment u i = finish_frame (commitment_key u i) refl refl refl refl

  finish_frontier : (u l : ℕ) → get finish (frontier_key u l) ≡ get s (frontier_key u l)
  unfolding key_equal
  finish_frontier u l = finish_frame (frontier_key u l) refl refl refl refl

  pub finish_leaf : (i : ℕ) → note_leaf ext finish t (n + 1) i ≡ note_leaf ext s t (n + 1) i
  finish_leaf i =
      ap
        (λ (o : Option Bytes).
          if ltb i (n + 1) then set_bytes ext (slice_of o) else ext.zero_hash 0)
        (finish_commitment t i)

  -- A tree whose walk is done becomes a tree with one more leaf.
  pub finish-IsNoteTree :
      (depth : ℕ)
      → n + 1 < 2 ^ 64
      → HasSiblings ext (commitment_key t) (frontier_key t) depth (n + 1) s
      → root ≡ to_bytes (node ext (note_leaf ext s t (n + 1)) depth 0)
      → IsNoteTree ext depth t (n + 1) finish
  finish-IsNoteTree depth small sib is_root = record {
    next = finish_next small;
    siblings =
        HasSiblings-frame ext (commitment_key t) (frontier_key t) depth (n + 1) s finish
          (finish_commitment t) (finish_frontier t) sib;
    root =
        finish_root
        ∙ is_root
        ∙ ap to_bytes (
            node_local ext (note_leaf ext s t (n + 1)) (note_leaf ext finish t (n + 1)) depth 0
              (λ i _. sym (finish_leaf i)));
  }
