-- ===== src/Keeper/Forest/Stored.antt =====
-- What InsertNote has stored: the leaf at its position, the root, the length and the mark.
use cosmos_nixpool.Prelude.{
  ℕ, ◌+◌, ◌%◌, ◌≡◌, refl, sym, ap, ◌∙◌, false, Option, none, some, ◌∷◌, [], Bytes,
}
use cosmos_nixpool.External.{External}
use cosmos_nixpool.Field.{set_bytes, be_bytes, to_bytes}
use cosmos_nixpool.Types.Keys.{Key, commitment_used_key, max_root_history}
use cosmos_nixpool.Types.Keys.Equality.{key_equal}
use cosmos_nixpool.Store.{Store, get, set, get-set_ne, get-set_self}
use cosmos_nixpool.Keeper.RootIndex.{slice_of, uint64_or_zero}
use cosmos_nixpool.Keeper.Forest.{frontier_key, root_or_zero, get_tree_next_index, get_tree_root}
use cosmos_nixpool.Keeper.Forest.Insert.{finish, finish_root, finish_frame}
use cosmos_nixpool.Keeper.Forest.Inserted.{Inserted, climbed, Inserted-next}
use cosmos_nixpool.Keeper.Frontier.Climb.{climb_frame}
use cosmos_nixpool.Keeper.Forest.Note.{NoteStored}

module _ (ext : External) where
  -- A root that was stored is read back, since no field element encodes as the empty slice.
  root_or_zero-stored :
      (o : Option Bytes) (e : ℕ) → slice_of o ≡ to_bytes e → root_or_zero ext o ≡ to_bytes e
  unfolding to_bytes be_bytes
  root_or_zero-stored none e h = cc
  root_or_zero-stored (some b) e h = h

  Inserted-root :
      (t : ℕ) (c : Bytes) (depth : ℕ) (s : Store) (root : Bytes) (i : ℕ) (s' : Store)
      → Inserted ext t c depth s root i s'
      → get_tree_root ext s' t ≡ root
  unfolding get_tree_root
  Inserted-root t c depth s root i s' made =
      let w = climbed ext t c depth i s in
      ap (λ (x : Store). root_or_zero ext (get x (Key.tree_root t))) (sym made.store_is)
      ∙ root_or_zero-stored
          (get (finish ext t i (i % max_root_history) (to_bytes w.0) w.1) (Key.tree_root t)) w.0
          (finish_root ext t i (i % max_root_history) (to_bytes w.0) w.1)
      ∙ made.root_is

  -- The mark of the commitment is beside all of that.
  pub marked_ne :
      (c : Bytes) (s : Store) (k : Key)
      → key_equal (commitment_used_key ext c) k ≡ false
      → get (set (commitment_used_key ext c) (1 ∷ []) s) k ≡ get s k
  marked_ne c s k h = get-set_ne s (commitment_used_key ext c) k (1 ∷ []) h

  -- The leaf is at its position: nothing behind its write touches it.
  Inserted-leaf :
      (t : ℕ) (c : Bytes) (depth : ℕ) (s : Store) (root : Bytes) (i : ℕ) (s' : Store)
      → Inserted ext t c depth s root i s'
      → get s' (Key.commitment t i) ≡ some c
  unfolding key_equal
  Inserted-leaf t c depth s root i s' made =
      let w = climbed ext t c depth i s in
      let k = Key.commitment t i in
      ap (λ (x : Store). get x k) (sym made.store_is)
      ∙ finish_frame ext t i (i % max_root_history) (to_bytes w.0) w.1 k refl refl refl refl
      ∙ climb_frame ext (frontier_key t) depth 0 i (set_bytes ext c) (set k c s) k (λ l hl. refl)
      ∙ get-set_self s k c

  -- What a key that is not the mark of the commitment reads.
  NoteStored-get :
      (c : Bytes) (s' : Store) (root : Bytes) (i t : ℕ) (k : Key)
      → (made : NoteStored ext c root i t s') → key_equal (commitment_used_key ext c) k ≡ false
      → get s' k ≡ get made.grown k
  NoteStored-get c s' root i t k made ne =
      ap (λ (x : Store). get x k) (sym made.marked) ∙ marked_ne c made.grown k ne

  pub NoteStored-root :
      (c : Bytes) (s' : Store) (root : Bytes) (i t : ℕ)
      → NoteStored ext c root i t s'
      → get_tree_root ext s' t ≡ root
  unfolding key_equal commitment_used_key get_tree_root
  NoteStored-root c s' root i t made =
      ap (root_or_zero ext) (NoteStored-get c s' root i t (Key.tree_root t) made refl)
      ∙ Inserted-root t c made.depth made.chosen root i made.grown made.leaf

  pub NoteStored-next :
      (c : Bytes) (s' : Store) (root : Bytes) (i t : ℕ)
      → NoteStored ext c root i t s'
      → get_tree_next_index s' t ≡ i + 1
  unfolding key_equal commitment_used_key get_tree_next_index
  NoteStored-next c s' root i t made =
      ap uint64_or_zero (NoteStored-get c s' root i t (Key.tree_next_index t) made refl)
      ∙ Inserted-next ext t c made.depth made.chosen root i made.grown made.leaf

  pub NoteStored-leaf :
      (c : Bytes) (s' : Store) (root : Bytes) (i t : ℕ)
      → NoteStored ext c root i t s'
      → get s' (Key.commitment t i) ≡ some c
  unfolding key_equal commitment_used_key
  NoteStored-leaf c s' root i t made =
      NoteStored-get c s' root i t (Key.commitment t i) made refl
      ∙ Inserted-leaf t c made.depth made.chosen root i made.grown made.leaf

  pub NoteStored-used :
      (c : Bytes) (s' : Store) (root : Bytes) (i t : ℕ)
      → NoteStored ext c root i t s'
      → get s' (commitment_used_key ext c) ≡ some (1 ∷ [])
  NoteStored-used c s' root i t made =
      ap (λ (x : Store). get x (commitment_used_key ext c)) (sym made.marked)
      ∙ get-set_self made.grown (commitment_used_key ext c) (1 ∷ [])
