-- ===== src/Keeper/Genesis/Import.antt =====
-- InitGenesis as a whole, on an empty store.
use cosmos_nixpool.Prelude.{
  ◌+◌, ◌*◌, ◌^◌, ◌<◌, ◌≡◌, refl, sym, ap, ◌∙◌, Bool, false, ◌||◌, [], Bytes, All, arith,
}
use cosmos_nixpool.External.{External, IsLawful}
use cosmos_nixpool.Field.Encoding.{uint64_of-put_uint64_lt}
use cosmos_nixpool.Types.Errors.{Result, ok}
use cosmos_nixpool.Types.Keys.{commitment_used_key}
use cosmos_nixpool.Types.Genesis.{GenesisState}
use cosmos_nixpool.Store.{Store, get, has}
use cosmos_nixpool.Keeper.Params.{get_params, params_of}
use cosmos_nixpool.Keeper.RootIndex.{uint64_or_zero}
use cosmos_nixpool.Keeper.RootIndex.Slots.{forest_count-empty}
use cosmos_nixpool.Keeper.RootIndex.Invariant.{IsIndexed}
use cosmos_nixpool.Keeper.Forest.{get_tree_count}
use cosmos_nixpool.Keeper.Nullifiers.{is_nullifier_spent}
use cosmos_nixpool.Keeper.Genesis.{init_genesis, params_or_default}
use cosmos_nixpool.Keeper.Genesis.Index.{IsTreeOf, init_genesis-Exact}
use cosmos_nixpool.Keeper.Genesis.Succeeds.{IsComplete, Succeeds, init_genesis-Succeeds}
use cosmos_nixpool.Keeper.Genesis.Restores.{
  listed, init_genesis-nullifiers, init_genesis-commitments_used, init_genesis-params,
  init_genesis-tree_count,
}

or-false : (a b : Bool) → b ≡ false → (a || b) ≡ a
or-false a b h = ground arith

module _ (ext : External) (gs : GenesisState) (complete : IsComplete ext gs) where
  -- The store after the import into an empty one.
  abbrev pub imported : Store
  imported = (init_genesis ext gs []).1

  import_succeeds : (init_genesis ext gs []).0 ≡ ok tt
  import_succeeds = let all : Succeeds _ = init_genesis-Succeeds ext gs complete in all.run []

  import_run : init_genesis ext gs [] ≡ (ok tt, imported)
  import_run = ap (λ (r : Result (Unit {0})). (r, imported)) import_succeeds

  -- Importing a genesis state whose values are all present and whose verification keys all
  -- normalise into an empty store succeeds. Where its trees have ids below the tree count and
  -- histories of at most MaxRootHistory roots, the tree count is restored and the root index counts
  -- exactly the slots that hold each root.
  pub init_genesis-IsIndexed :
      (room : gs.tree_count * 101 + 1 < 2 ^ 64)
      → All (IsTreeOf gs.tree_count) gs.trees
      → ((init_genesis ext gs []).0 ≡ ok tt)
        × (get_tree_count imported ≡ gs.tree_count)
        × IsIndexed ext gs.tree_count imported
  unfolding get_tree_count get
  init_genesis-IsIndexed room trees = (
    import_succeeds,
    ap uint64_or_zero (init_genesis-tree_count ext gs [] imported import_run)
        ∙ uint64_of-put_uint64_lt gs.tree_count (omega (arith, room)),
    (init_genesis-Exact ext gs.tree_count room gs trees).through []
        (λ root. sym (forest_count-empty ext gs.tree_count root)),
  )

  -- Importing a genesis state whose values are all present and whose verification keys all
  -- normalise into an empty store succeeds, and afterwards exactly the nullifiers that encode a
  -- listed one are spent, exactly the commitments that encode a listed one are used, and the
  -- parameters are the given ones or the default.
  pub init_genesis-Marks :
      (law : IsLawful ext)
      → ((init_genesis ext gs []).0 ≡ ok tt)
        × ((b : Bytes) → is_nullifier_spent ext imported b ≡ listed ext gs.nullifiers b)
        × ((b : Bytes)
            → has imported (commitment_used_key ext b) ≡ listed ext gs.commitments_used b)
        × (get_params ext imported ≡ ok (params_or_default ext gs.params))
  unfolding get_params is_nullifier_spent get
  init_genesis-Marks law = (
    import_succeeds,
    λ b.
        init_genesis-nullifiers ext gs [] imported import_run b
        ∙ or-false (listed ext gs.nullifiers b) false refl,
    λ b.
        init_genesis-commitments_used ext gs [] imported import_run b
        ∙ or-false (listed ext gs.commitments_used b) false refl,
    ap (params_of ext) (init_genesis-params ext gs [] imported import_run)
        ∙ rw (law.unmarshal-marshal (params_or_default ext gs.params)) refl,
  )
