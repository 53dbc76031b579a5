-- ===== src/Keeper/Genesis/Restores.antt =====
-- What InitGenesis restores of a complete genesis state in an empty store.
use cosmos_nixpool.Prelude.{
  ◌≡◌, refl, sym, ap, ◌∙◌, Bool, false, ◌||◌, ◌==◌, Option, some, List, [], ◌∷◌, Bytes, bytes_equal,
  arith,
}
use cosmos_nixpool.External.{External}
use cosmos_nixpool.Field.{put_uint64, canonical_field_bytes}
use cosmos_nixpool.Types.Errors.{Result, ok}
use cosmos_nixpool.Types.Keys.{Key, commitment_used_key, nullifier_key}
use cosmos_nixpool.Types.Keys.Equality.{key_equal, family}
use cosmos_nixpool.Types.Genesis.{GenesisState}
use cosmos_nixpool.Store.{Store, get, set, has, is_some, get-set, get-set_self}
use cosmos_nixpool.Keeper.Action.{Action, modify, bind-run, ◌>>=◌}
use cosmos_nixpool.Keeper.Action.Preserves.{Preserves, Preserves-after}
use cosmos_nixpool.Keeper.Params.{set_params}
use cosmos_nixpool.Keeper.Forest.{set_tree_count}
use cosmos_nixpool.Keeper.Nullifiers.{is_nullifier_spent}
use cosmos_nixpool.Keeper.Genesis.{
  mark_each, import_forest, import_registration, import_marks, import_entries, init_genesis,
  params_or_default,
}
use cosmos_nixpool.Keeper.Genesis.Frame.{
  Reads, import_forest-Reads, import_ids-Reads, import_registration-Reads, import_entries-Reads,
  mark_each-Reads, in_forest, in_registration, in_marks, in_entries,
}

-- Some entry has the same canonical field encoding.
abbrev pub listed : External → List Bytes → Bytes → Bool
listed ext [] b = false
listed ext (a ∷ rest) b =
    bytes_equal (canonical_field_bytes ext a) (canonical_field_bytes ext b) || listed ext rest b

-- A part of the import that leaves a key as it was.
same-after :
    (ext : External) (k : Key) (m : Action Store (Unit {0})) (s s' : Store) (r : Result (Unit {0}))
    → Preserves (Reads ext k (get s k)) m
    → m s ≡ (r, s')
    → get s' k ≡ get s k
same-after ext k m s s' r kept run = Preserves-after m s s' r kept run refl

module _ (ext : External) (key : Bytes → Key)
    (key_equal-key : (a b : Bytes)
      → key_equal (key a) (key b)
        ≡ bytes_equal (canonical_field_bytes ext a) (canonical_field_bytes ext b)) where
  mark-has :
      (a b : Bytes) (s : Store)
      → has (set (key a) (1 ∷ []) s) (key b)
        ≡ (bytes_equal (canonical_field_bytes ext a) (canonical_field_bytes ext b) || has s (key b))
  mark-has a b s = rw (get-set s (key a) (key b) (1 ∷ []), key_equal-key a b) (ground arith)

  -- The loops that mark: an entry of the list, or what was marked before.
  mark_each-has :
      (marks : List Bytes) (s : Store) (b : Bytes)
      → has (mark_each ext key marks s).1 (key b) ≡ (listed ext marks b || has s (key b))
  unfolding mark_each ◌>>=◌
  mark_each-has [] s b = refl
  mark_each-has (a ∷ rest) s b =
      ground (arith, mark_each-has rest (set (key a) (1 ∷ []) s) b, mark-has a b s)

module _ (ext : External) (gs : GenesisState) where
  -- The stores between the parts of an import that succeeds.
  pub record Stages (s s' : Store) : Type 0 where
    pub forest : Store
    pub registration : Store
    pub spent : Store
    pub marked : Store
    pub forest_run : import_forest ext gs s ≡ (ok tt, forest)
    pub registration_run : import_registration ext gs forest ≡ (ok tt, registration)
    pub spent_run : mark_each ext (nullifier_key ext) gs.nullifiers registration ≡ (ok tt, spent)
    pub used_run :
        mark_each ext (commitment_used_key ext) gs.commitments_used spent ≡ (ok tt, marked)
    pub entries_run : import_entries ext gs marked ≡ (ok tt, s')

  pub init_genesis-Stages :
      (s s' : Store) (u : Unit {0}) → init_genesis ext gs s ≡ (ok u, s') → Stages s s'
  unfolding init_genesis import_marks
  init_genesis-Stages s s' u h =
      let (u1, s1, h1, rest1) = bind-run (import_forest ext gs) _ s s' u h in
      let (u2, s2, h2, rest2) = bind-run (import_registration ext gs) _ s1 s' u rest1 in
      let (u3, s3, h3, rest3) = bind-run (import_marks ext gs) _ s2 s' u rest2 in
      let (u4, s4, h4, rest4) =
        bind-run (mark_each ext (nullifier_key ext) gs.nullifiers) _ s2 s3 u3 h3 in
      record {
        spent = s4;
        forest = s1;
        registration = s2;
        marked = s3;
        forest_run = h1;
        registration_run = h2;
        spent_run = h4;
        used_run = rest4;
        entries_run = rest3;
      }

  module _ (s s' : Store) (run : init_genesis ext gs s ≡ (ok tt, s')) where
    abbrev stages : Stages s s'
    stages = init_genesis-Stages s s' tt run

    -- A key outside the forest, the registration tree and the entries changes with the marks only.
    before_marks :
        (k : Key)
        → in_forest k ≡ false
        → (15 == family k) ≡ false
        → in_registration k ≡ false
        → get stages.registration k ≡ get s k
    before_marks k h h' h'' =
        same-after ext k (import_registration ext gs) stages.forest stages.registration (ok tt)
          (import_registration-Reads ext k _ h'' gs) stages.registration_run
        ∙ same-after ext k (import_forest ext gs) s stages.forest (ok tt)
            (import_forest-Reads ext k _ h gs h') stages.forest_run

    after_marks : (k : Key) → in_entries k ≡ false → get s' k ≡ get stages.marked k
    after_marks k h =
        same-after ext k (import_entries ext gs) stages.marked s' (ok tt)
          (import_entries-Reads ext k _ h gs) stages.entries_run

    unmarked :
        (k : Key) → in_marks k ≡ false → in_entries k ≡ false → get s' k ≡ get stages.registration k
    unfolding nullifier_key commitment_used_key
    unmarked k h h' =
        after_marks k h'
        ∙ same-after ext k (mark_each ext (commitment_used_key ext) gs.commitments_used)
            stages.spent stages.marked (ok tt)
            (mark_each-Reads ext k _ (commitment_used_key ext) gs.commitments_used
              (λ c. ground arith))
            stages.used_run
        ∙ same-after ext k (mark_each ext (nullifier_key ext) gs.nullifiers) stages.registration
            stages.spent (ok tt)
            (mark_each-Reads ext k _ (nullifier_key ext) gs.nullifiers (λ c. ground arith))
            stages.spent_run

    -- A nullifier is spent exactly if the list has an encoding of it, or it was spent before.
    pub init_genesis-nullifiers :
        (b : Bytes)
        → is_nullifier_spent ext s' b ≡ (listed ext gs.nullifiers b || is_nullifier_spent ext s b)
    unfolding is_nullifier_spent nullifier_key commitment_used_key key_equal
    init_genesis-nullifiers b =
        let k = nullifier_key ext b in
        ap is_some (
          after_marks k refl
          ∙ same-after ext k (mark_each ext (commitment_used_key ext) gs.commitments_used)
              stages.spent stages.marked (ok tt)
              (mark_each-Reads ext k _ (commitment_used_key ext) gs.commitments_used (λ c. refl))
              stages.used_run
          ∙ ap (λ (r : Result (Unit {0}) × Store). get r.1 k) (sym stages.spent_run))
        ∙ mark_each-has ext (nullifier_key ext) (λ a c. refl) gs.nullifiers stages.registration b
        ∙ ap (λ (o : Option Bytes). listed ext gs.nullifiers b || is_some o)
            (before_marks k refl refl refl)

    -- The same for the commitments that are used.
    pub init_genesis-commitments_used :
        (b : Bytes)
        → has s' (commitment_used_key ext b)
          ≡ (listed ext gs.commitments_used b || has s (commitment_used_key ext b))
    unfolding nullifier_key commitment_used_key key_equal
    init_genesis-commitments_used b =
        let k = commitment_used_key ext b in
        ap is_some (
          after_marks k refl
          ∙ ap (λ (r : Result (Unit {0}) × Store). get r.1 k) (sym stages.used_run))
        ∙ mark_each-has ext (commitment_used_key ext) (λ a c. refl) gs.commitments_used stages.spent
            b
        ∙ ap (λ (o : Option Bytes). listed ext gs.commitments_used b || is_some o)
            (same-after ext k (mark_each ext (nullifier_key ext) gs.nullifiers) stages.registration
                stages.spent (ok tt)
                (mark_each-Reads ext k _ (nullifier_key ext) gs.nullifiers (λ c. refl))
                stages.spent_run
              ∙ before_marks k refl refl refl)

    -- The parameters and the number of trees.
    pub init_genesis-params :
        get s' Key.params ≡ some (ext.marshal_params (params_or_default ext gs.params))
    unfolding import_forest set_params modify
    init_genesis-params =
        let p = params_or_default ext gs.params in
        let k = Key.params in
        let (u, t, first, rest) =
          bind-run (modify (set_params ext p)) _ s stages.forest tt stages.forest_run in
        unmarked k refl refl
        ∙ same-after ext k (import_registration ext gs) stages.forest stages.registration (ok tt)
            (import_registration-Reads ext k _ refl gs) stages.registration_run
        ∙ same-after ext k _ t stages.forest (ok tt) (import_ids-Reads ext k _ refl gs) rest
        ∙ ap (λ (r : Result (Unit {0}) × Store). get r.1 k) (sym first)
        ∙ get-set_self s k (ext.marshal_params p)

    pub init_genesis-tree_count : get s' Key.tree_count ≡ some (put_uint64 gs.tree_count)
    unfolding import_forest set_tree_count modify
    init_genesis-tree_count =
        let k = Key.tree_count in
        let (u, t, first, rest) = bind-run _ _ s stages.forest tt stages.forest_run in
        let (u2, t2, first2, rest2) = bind-run _ _ t stages.forest tt rest in
        let (u3, t3, first3, rest3) = bind-run _ _ t2 stages.forest tt rest2 in
        unmarked k refl refl
        ∙ same-after ext k (import_registration ext gs) stages.forest stages.registration (ok tt)
            (import_registration-Reads ext k _ refl gs) stages.registration_run
        ∙ ap (λ (r : Result (Unit {0}) × Store). get r.1 k) (sym rest3)
        ∙ get-set_self t3 k (put_uint64 gs.tree_count)
