-- ===== src/Keeper/Nullifiers.antt =====
-- keeper/merkle.go: the spent nullifiers and the auditor data.
use cosmos_nixpool.Prelude.{
  ℕ, ◌≡◌, ap, Bool, true, [], ◌∷◌, Bytes, bytes_equal, if◌then◌else◌, arith,
}
use cosmos_nixpool.External.{External}
use cosmos_nixpool.Field.{set_bytes, to_bytes, canonical_field_bytes}
use cosmos_nixpool.Types.Keys.{Key, nullifier_key}
use cosmos_nixpool.Types.Keys.Equality.{key_equal}
use cosmos_nixpool.Store.{Store, set, has, get-set}

module _ (ext : External) where
  -- IsNullifierSpent
  unfoldable pub is_nullifier_spent : Store → Bytes → Bool
  is_nullifier_spent s nullifier = has s (nullifier_key ext nullifier)

  -- MarkNullifierSpent
  unfoldable pub mark_nullifier_spent : Bytes → Store → Store
  mark_nullifier_spent nullifier s = set (nullifier_key ext nullifier) (1 ∷ []) s

-- StoreAuditorData
unfoldable pub store_auditor_data : Bytes → Bytes → Store → Store
store_auditor_data tx_hash payload s = set (Key.auditor_data tx_hash) payload s

module _ (ext : External) where
  -- Marking one nullifier marks every encoding of the same field element, and no other.
  pub is_nullifier_spent-mark :
      (a b : Bytes) (s : Store)
      → is_nullifier_spent ext (mark_nullifier_spent ext a s) b ≡ (
          if bytes_equal (canonical_field_bytes ext a) (canonical_field_bytes ext b)
          then true
          else is_nullifier_spent ext s b)
  unfolding is_nullifier_spent mark_nullifier_spent nullifier_key key_equal
  is_nullifier_spent-mark a b s =
      rw (get-set s (nullifier_key ext a) (nullifier_key ext b) (1 ∷ [])) (ground arith)

  -- Encodings of one field element are spent together.
  pub is_nullifier_spent-congruent :
      (a b : Bytes) (s : Store)
      → set_bytes ext a ≡ set_bytes ext b
      → is_nullifier_spent ext s a ≡ is_nullifier_spent ext s b
  unfolding is_nullifier_spent nullifier_key canonical_field_bytes
  is_nullifier_spent-congruent a b s h = ap (λ (e : ℕ). has s (Key.nullifier (to_bytes e))) h
