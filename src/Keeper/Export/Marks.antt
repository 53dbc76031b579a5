-- ===== src/Keeper/Export/Marks.antt =====
-- The lists of marks that ExportGenesis makes from the keys of a store.
use cosmos_nixpool.Prelude.{
  ℕ, ◌≡◌, refl, ap, ◌∙◌, Bool, true, ◌||◌, ◌==◌, [], ◌∷◌, Bytes, bytes_equal, arith, inl, inr,
  Bool-cases, ==_iff, sym,
}
use cosmos_nixpool.External.{External}
use cosmos_nixpool.Field.{canonical_field_bytes}
use cosmos_nixpool.Types.Keys.{Key, key_suffix}
use cosmos_nixpool.Types.Keys.Equality.{key_equal, family, arguments, key_equal-family}
use cosmos_nixpool.Store.{Store, get, has}
use cosmos_nixpool.Keeper.Export.{iterate_prefix, suffixes}
use cosmos_nixpool.Keeper.Genesis.Restores.{listed}

-- The families whose keys end in a field element's bytes: the commitments used and the nullifiers.
abbrev pub is_mark : ℕ → Bool
is_mark f = f == 12 || f == 14

suffix-mark : (k : Key) → is_mark (family k) ≡ true → key_suffix k ≡ arguments k
unfolding key_suffix
suffix-mark k = elim k as (λ k. is_mark (family k) ≡ true → key_suffix k ≡ arguments k) [
  | Key.nullifier n ↦ λ h. refl
  | Key.commitment_used n ↦ λ h. refl
  | _ ↦ λ h. cc
]

module _ (ext : External) where
  -- The marks of a store stand under canonical encodings.
  abbrev pub IsMarkedCanonically : Store → Type 0
  IsMarkedCanonically [] = Unit
  IsMarkedCanonically ((k, v) ∷ s) =
      (is_mark (family k) ≡ true → canonical_field_bytes ext (key_suffix k) ≡ key_suffix k)
      × IsMarkedCanonically s

  module _ (f : ℕ) (key : Bytes → Key) (family-key : (c : Bytes) → family (key c) ≡ f)
      (arguments-key : (c : Bytes) → arguments (key c) ≡ c) (mark : is_mark f ≡ true) where
    -- The entry's key is the one sought exactly if it is of the family and its suffix is the one sought.
    key_equal-suffix :
        (k : Key) (c : Bytes)
        → (family k == f) ≡ true
        → key_equal k (key c) ≡ bytes_equal (key_suffix k) c
    unfolding key_equal
    key_equal-suffix k c h =
        let same : family k ≡ f = (==_iff (family k) f).0 h in
        rw (suffix-mark k (rw same mark), family-key c, arguments-key c, h) refl

    has-cons : (k j : Key) (v : Bytes) (s : Store) → has ((k, v) ∷ s) j ≡ (key_equal k j || has s j)
    unfolding get
    has-cons k j v s = ground arith

    -- The exported list has an encoding of an element exactly if the store has its mark.
    pub listed-suffixes :
        (s : Store) (b : Bytes)
        → IsMarkedCanonically s
        → listed ext (suffixes (iterate_prefix f s)) b ≡ has s (key (canonical_field_bytes ext b))
    unfolding suffixes iterate_prefix get
    listed-suffixes [] b canonical = refl
    listed-suffixes ((k, v) ∷ s) b (here, below) =
        let c = canonical_field_bytes ext b in
        elim (Bool-cases (family k == f)) [
          | inl found ↦
              let same : family k ≡ f = (==_iff (family k) f).0 found in
              rw found (
                rw (has-cons k (key c) v s, key_equal-suffix k c found, here (rw same mark))
                  (ap (λ (r : Bool). bytes_equal (key_suffix k) c || r)
                    (listed-suffixes s b below)))
          | inr other ↦ rw other (
              listed-suffixes s b below
              ∙ sym (
                  has-cons k (key c) v s
                  ∙ ap (λ (r : Bool). r || has s (key c))
                      (key_equal-family k (key c) (rw (family-key c) other))))
        ]
