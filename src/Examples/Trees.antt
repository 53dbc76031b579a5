-- ===== src/Examples/Trees.antt =====
-- Trees in small stores: created, filled, full, and the index of their roots.
use cosmos_nixpool.Prelude.{◌≡◌, refl, [], ◌∷◌, arith}
use cosmos_nixpool.Field.{set_bytes, to_bytes, canonical_field_bytes}
use cosmos_nixpool.Types.Errors.{err, duplicate_commitment}
use cosmos_nixpool.Types.Keys.{reg_commitment_used_key}
use cosmos_nixpool.Types.Keys.Equality.{key_equal}
use cosmos_nixpool.Store.{Store, get, set}
use cosmos_nixpool.Prelude.{◌↔◌, ◌⊎◌, bytes_equal, true}
use cosmos_nixpool.Types.Params.{default_tree_depth}
use cosmos_nixpool.Keeper.RootIndex.Membership.{Held, is_valid_root_any_tree_iff}
use cosmos_nixpool.Keeper.RootIndex.{
  zero_root_bytes, is_valid_root_any_tree, set_tree_root_indexed, set_root_history_indexed,
}
use cosmos_nixpool.Keeper.RootIndex.Slots.{forest_count-empty}
use cosmos_nixpool.Keeper.RootIndex.Invariant.{IsIndexed}
use cosmos_nixpool.Keeper.RootIndex.Invariant.Writes.{
  set_tree_root_indexed-IsIndexed, set_root_history_indexed-IsIndexed,
}
use cosmos_nixpool.Keeper.Forest.{
  get_active_tree_id, get_tree_count, create_tree_at, insert_leaf_into_tree,
}
use cosmos_nixpool.Keeper.Forest.Create.{create_tree_at-IsNoteTree}
use cosmos_nixpool.Keeper.Forest.Index.{create_tree_at-IsIndexed, insert_leaf_into_tree-IsIndexed}
use cosmos_nixpool.Types.Keys.{root_index_key}
use cosmos_nixpool.Store.{delete}
use cosmos_nixpool.Keeper.RootIndex.{
  root_ref_count, root_index_incr, root_index_decr, write_slot_indexed, is_known_root,
}
use cosmos_nixpool.Keeper.RootIndex.Known.{is_known_root-is_valid_root_any_tree}
use cosmos_nixpool.Keeper.Forest.Insert.{IsNoteTree}
use cosmos_nixpool.Keeper.Forest.Root.{Appends, insert_leaf_into_tree_root}
use cosmos_nixpool.Keeper.Registration.{insert_reg_commitment}
use cosmos_nixpool.Keeper.Registration.Insert.{
  IsRegTree, IsRegTree-empty, Registers, insert_reg_commitment_root,
  insert_reg_commitment_duplicate,
}
use cosmos_nixpool.Examples.Toy.{toy, toy-IsLawful}

-- The empty tree 0 of depth 2, created in an empty store.
abbrev grown : Store
grown = create_tree_at toy 2 []

grown-IsNoteTree : IsNoteTree toy 2 0 0 grown
unfolding get_tree_count get
grown-IsNoteTree = (create_tree_at-IsNoteTree toy toy-IsLawful 2 [] (omega arith)).0

create_tree_at-IsNoteTree_example :
    IsNoteTree toy 2 0 0 grown × (get_active_tree_id grown ≡ 0) × (get_tree_count grown ≡ 1)
unfolding get_tree_count get
create_tree_at-IsNoteTree_example = create_tree_at-IsNoteTree toy toy-IsLawful 2 [] (omega arith)

insert_leaf_into_tree_root_example :
    Appends toy 0 (5 ∷ []) 2 0 grown (insert_leaf_into_tree toy 0 (5 ∷ []) 2 grown)
insert_leaf_into_tree_root_example =
    insert_leaf_into_tree_root toy toy-IsLawful 0 (5 ∷ []) 2 0 grown grown-IsNoteTree (omega arith)
      (omega arith)

no_registrations : IsRegTree toy 0 []
unfolding get
no_registrations = IsRegTree-empty toy toy-IsLawful [] refl refl

insert_reg_commitment_root_example :
    Registers toy (5 ∷ []) 0 [] (insert_reg_commitment toy (5 ∷ []) [])
unfolding get reg_commitment_used_key
insert_reg_commitment_root_example =
    insert_reg_commitment_root toy toy-IsLawful (5 ∷ []) 0 [] no_registrations (omega arith) refl

abbrev registered_store : Store
registered_store = (reg_commitment_used_key toy (5 ∷ []), 1 ∷ []) ∷ []

insert_reg_commitment_duplicate_example :
    insert_reg_commitment toy (106 ∷ []) registered_store
    ≡ (err duplicate_commitment, registered_store)
unfolding get set_bytes reg_commitment_used_key canonical_field_bytes to_bytes key_equal
insert_reg_commitment_duplicate_example =
    insert_reg_commitment_duplicate toy (5 ∷ []) (106 ∷ []) registered_store refl refl

no_slots : IsIndexed toy 1 []
unfolding get
no_slots root = omega (arith, forest_count-empty toy 1 root)

set_root_history_indexed-IsIndexed_example :
    IsIndexed toy 1 (set_root_history_indexed toy 0 99 (5 ∷ []) [])
set_root_history_indexed-IsIndexed_example =
    set_root_history_indexed-IsIndexed toy 1 0 99 (5 ∷ []) [] (omega arith) (omega arith)
      (omega arith) no_slots

-- The index of a store in which tree 0 has the root 5.
abbrev rooted_store : Store
rooted_store = set_tree_root_indexed toy 0 (5 ∷ []) []

rooted-IsIndexed : IsIndexed toy 1 rooted_store
rooted-IsIndexed =
    set_tree_root_indexed-IsIndexed toy 1 0 (5 ∷ []) [] (omega arith) (omega arith) no_slots

is_valid_root_any_tree_iff_example : (is_valid_root_any_tree toy rooted_store (106 ∷ []) ≡ true) ↔ (
    (bytes_equal (zero_root_bytes toy default_tree_depth) (106 ∷ []) ≡ true)
    ⊎ Held toy rooted_store 1 (106 ∷ []))
is_valid_root_any_tree_iff_example =
    is_valid_root_any_tree_iff toy rooted_store 1 (106 ∷ []) rooted-IsIndexed refl

create_tree_at-IsIndexed_example : IsIndexed toy 1 (create_tree_at toy 2 [])
unfolding get_tree_count get
create_tree_at-IsIndexed_example =
    create_tree_at-IsIndexed toy 1 (omega arith) 2 [] (omega arith) no_slots

insert_leaf_into_tree-IsIndexed_example :
    IsIndexed toy 1 (insert_leaf_into_tree toy 0 (5 ∷ []) 2 rooted_store).1
insert_leaf_into_tree-IsIndexed_example =
    insert_leaf_into_tree-IsIndexed toy 1 (omega arith) 0 (5 ∷ []) 2 rooted_store (omega arith)
      rooted-IsIndexed

is_known_root-is_valid_root_any_tree_example :
    is_valid_root_any_tree toy rooted_store (5 ∷ []) ≡ true
unfolding set_tree_root_indexed write_slot_indexed root_index_incr root_index_decr root_ref_count
    root_index_key get set delete key_equal is_known_root
is_known_root-is_valid_root_any_tree_example =
    is_known_root-is_valid_root_any_tree toy rooted_store 1 0 (5 ∷ []) rooted-IsIndexed
      (omega arith) refl refl
