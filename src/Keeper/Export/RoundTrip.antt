-- ===== src/Keeper/Export/RoundTrip.antt =====
-- A chain's state goes out by ExportGenesis and comes in by InitGenesis.
use cosmos_nixpool.Prelude.{◌≡◌, refl, sym, ap, ◌∙◌, [], Bytes}
use cosmos_nixpool.External.{External, IsLawful}
use cosmos_nixpool.Types.Errors.{Result, ok, err, ◌>>=◌}
use cosmos_nixpool.Types.Params.{Params}
use cosmos_nixpool.Types.Keys.{Key, commitment_used_key, nullifier_key}
use cosmos_nixpool.Types.Genesis.{GenesisState}
use cosmos_nixpool.Store.{Store, has}
use cosmos_nixpool.Keeper.Params.{get_params}
use cosmos_nixpool.Keeper.Nullifiers.{is_nullifier_spent}
use cosmos_nixpool.Keeper.Genesis.{init_genesis, params_or_default}
use cosmos_nixpool.Keeper.Genesis.Succeeds.{IsComplete}
use cosmos_nixpool.Keeper.Genesis.Restores.{listed}
use cosmos_nixpool.Keeper.Genesis.Import.{imported, init_genesis-Marks}
use cosmos_nixpool.Keeper.Export.{export_state, export_genesis}
use cosmos_nixpool.Keeper.Export.Marks.{IsMarkedCanonically, listed-suffixes}

ok-eq-ok :
    {A B : Type 0} (r : Result A) (f : A → B) (b : B)
    → (r >>= λ a. ok (f a)) ≡ ok b
    → (a : A) × (r ≡ ok a) × (f a ≡ b)
ok-eq-ok (ok a) f b h = (a, refl, cc)
ok-eq-ok (err e) f b h = cc

module _ (ext : External) (s : Store) where
  -- An export that succeeds has the stored parameters.
  pub export_genesis-params :
      (gs : GenesisState)
      → export_genesis ext s ≡ ok gs
      → (p : Params) × (get_params ext s ≡ ok p) × (export_state ext s p ≡ gs)
  unfolding export_genesis
  export_genesis-params gs h = ok-eq-ok (get_params ext s) (export_state ext s) gs h

  -- A store whose marks stand under canonical encodings is exported, and the export, when all its
  -- values are present and its verification keys normalise, is imported into an empty store without
  -- an error: the new store has the same nullifiers spent, the same commitments used and the same
  -- parameters.
  pub init_genesis-export_genesis :
      (law : IsLawful ext)
      → IsMarkedCanonically ext s
      → (gs : GenesisState) → export_genesis ext s ≡ ok gs
      → (complete : IsComplete ext gs)
      → ((init_genesis ext gs []).0 ≡ ok tt)
        × ((b : Bytes)
            → is_nullifier_spent ext (imported ext gs complete) b ≡ is_nullifier_spent ext s b)
        × ((b : Bytes)
            → has (imported ext gs complete) (commitment_used_key ext b)
              ≡ has s (commitment_used_key ext b))
        × (get_params ext (imported ext gs complete) ≡ get_params ext s)
  unfolding export_state is_nullifier_spent nullifier_key commitment_used_key
  init_genesis-export_genesis law canonical gs h complete =
      let (p, stored, filled) = export_genesis-params gs h in
      let (run, spent, used, given) = init_genesis-Marks ext gs complete law in
      (
        run,
        λ b.
            spent b
            ∙ ap (λ (g : GenesisState). listed ext g.nullifiers b) (sym filled)
            ∙ listed-suffixes ext 14 (λ c. Key.nullifier c) (λ c. refl) (λ c. refl) refl s b
                canonical,
        λ b.
            used b
            ∙ ap (λ (g : GenesisState). listed ext g.commitments_used b) (sym filled)
            ∙ listed-suffixes ext 12 (λ c. Key.commitment_used c) (λ c. refl) (λ c. refl) refl s b
                canonical,
        given
            ∙ ap (λ (g : GenesisState). ok (params_or_default ext g.params)) (sym filled)
            ∙ sym stored,
      )
