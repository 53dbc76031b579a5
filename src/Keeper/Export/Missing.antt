-- ===== src/Keeper/Export/Missing.antt =====
-- An export with a level of the registration tree's frontier missing cannot be imported: the missing
-- entry is exported as nil, and the store takes no nil.
use cosmos_nixpool.Prelude.{
  ℕ, zero, suc, ◌+◌, ◌%◌, ◌^◌, ◌<◌, ◌≡◌, ◌≢◌, refl, sym, ap, subst, true, false, some, none, List,
  [], ◌∷◌, All, arith,
}
use cosmos_nixpool.External.{External}
use cosmos_nixpool.Types.Errors.{Result, ok}
use cosmos_nixpool.Types.Params.{default_reg_tree_depth}
use cosmos_nixpool.Types.Keys.{Key}
use cosmos_nixpool.Types.Genesis.{Value, GenesisState}
use cosmos_nixpool.Store.{Store, get, is_some}
use cosmos_nixpool.Keeper.Action.{bind-run, raise_if-eq-ok}
use cosmos_nixpool.Keeper.Genesis.{
  set_value, set_each, import_registration, import_reg_commitments, init_genesis,
}
use cosmos_nixpool.Keeper.Genesis.Succeeds.{IsPresent}
use cosmos_nixpool.Keeper.Genesis.Restores.{Stages, init_genesis-Stages}
use cosmos_nixpool.Keeper.Export.{values_at, export_state, export_genesis}
use cosmos_nixpool.Keeper.Export.RoundTrip.{export_genesis-params}

set_value-eq-ok :
    (k : Key) (v : Value) (s s' : Store) (u : Unit {0}) → set_value k v s ≡ (ok u, s') → IsPresent v
unfolding set_value
set_value-eq-ok k (some b) s s' u h = refl
set_value-eq-ok k none s s' u h = let (never, same) = raise_if-eq-ok true _ s s' u h in cc

set_each-eq-ok :
    (key : ℕ → Key) (i : ℕ) (vs : List Value) (s s' : Store) (u : Unit {0})
    → set_each key i vs s ≡ (ok u, s')
    → All IsPresent vs
unfolding set_each
set_each-eq-ok key i [] s s' u h = tt
set_each-eq-ok key i (v ∷ vs) s s' u h =
    let (u1, s1, first, rest) = bind-run (set_value (key i) v) _ s s' u h in
    (set_value-eq-ok (key i) v s s1 u1 first, set_each-eq-ok key (suc i) vs s1 s' u rest)

values_at-IsPresent :
    (key : ℕ → Key) (s : Store) (i n l : ℕ)
    → All IsPresent (values_at key s i n)
    → l < n
    → IsPresent (get s (key (i + l)))
unfolding values_at
values_at-IsPresent key s i zero l all hl = elim hl [ ]
values_at-IsPresent key s i (suc n) zero (first, all) hl =
    subst (λ (j : ℕ). IsPresent (get s (key j))) (omega arith) first
values_at-IsPresent key s i (suc n) (suc l) (first, all) hl =
    subst (λ (j : ℕ). IsPresent (get s (key j))) (omega arith)
      (values_at-IsPresent key s (suc i) n l all (omega arith))

module _ (ext : External) where
  frontier-IsPresent :
      (gs : GenesisState) (d : Store)
      → (init_genesis ext gs d).0 ≡ ok tt
      → All IsPresent gs.reg_frontier
  unfolding import_registration
  frontier-IsPresent gs d h =
      let d' = (init_genesis ext gs d).1 in
      let stages : Stages ext gs d d' =
        init_genesis-Stages ext gs d d' tt (ap (λ (r : Result (Unit {0})). (r, d')) h) in
      let (u1, s1, leaves, rest) =
        bind-run (import_reg_commitments ext 0 gs.reg_commitments) _ stages.forest
          stages.registration tt stages.registration_run in
      let (u2, s2, levels, rest2) =
        bind-run (set_each (λ i. Key.reg_frontier (i % 2 ^ 32)) 0 gs.reg_frontier) _ s1
          stages.registration tt rest in
      set_each-eq-ok _ 0 gs.reg_frontier s1 s2 u2 levels

  -- The export of a store that lacks a level of the registration tree's frontier is not imported
  -- successfully into any store.
  pub init_genesis-missing_frontier :
      (s d : Store) (gs : GenesisState) (level : ℕ)
      → level < default_reg_tree_depth
      → get s (Key.reg_frontier level) ≡ none
      → export_genesis ext s ≡ ok gs
      → (init_genesis ext gs d).0 ≢ ok tt
  unfolding export_state
  init_genesis-missing_frontier s d gs level below missing h succeeds =
      let (p, stored, filled) = export_genesis-params ext s gs h in
      let all : All IsPresent (values_at (λ l. Key.reg_frontier l) s 0 default_reg_tree_depth) =
        subst (λ (g : GenesisState). All IsPresent g.reg_frontier) (sym filled)
          (frontier-IsPresent gs d succeeds) in
      let here : is_some (get s (Key.reg_frontier level)) ≡ true =
        subst (λ (j : ℕ). IsPresent (get s (Key.reg_frontier j))) (omega arith)
          (values_at-IsPresent (λ l. Key.reg_frontier l) s 0 default_reg_tree_depth level all
            below) in
      let absent : is_some (get s (Key.reg_frontier level)) ≡ false = rw missing refl in cc
