-- ===== src/Keeper/RootIndex/Invariant.antt =====
-- The reference counts are exactly the slot counts, and every indexed write keeps them so.
pub mod Writes
use cosmos_nixpool.Prelude.{
  ℕ, ◌+◌, ◌-◌, ◌*◌, ◌^◌, ◌%◌, ◌≤◌, ◌<◌, ◌≡◌, refl, sym, ap, ◌∙◌, Bool, true, false, Option, [], ◌∷◌,
  Bytes, arith, ltb, leb, ◌==◌, if◌then◌else◌, bytes_equal, bytes_equal→eq, bytes_equal_self,
  is_empty, ◌&&◌, not, inl, inr, Bool-cases,
}
use cosmos_nixpool.External.{External}
use cosmos_nixpool.Field.{put_uint64, canonical_field_bytes}
use cosmos_nixpool.Field.Encoding.{uint64_of-put_uint64_lt}
use cosmos_nixpool.Types.Keys.{Key, root_index_key}
use cosmos_nixpool.Types.Keys.Equality.{key_equal, family}
use cosmos_nixpool.Store.{Store, get, set, delete, get-set, get-delete}
use cosmos_nixpool.Keeper.RootIndex.{
  slice_of, uint64_or_zero, root_ref_count, root_index_incr, root_index_decr, write_slot_indexed,
}
use cosmos_nixpool.Keeper.RootIndex.Slots.{holds, forest_count}

-- The count that the index has for a canonical encoding.
abbrev pub index_at : Store → Bytes → ℕ
index_at s root = uint64_or_zero (get s (Key.root_index root))

-- The index counts the slots of the first `n` trees.
abbrev pub IsIndexed : External → ℕ → Store → Type 0
IsIndexed ext n s = (root : Bytes) → index_at s root ≡ forest_count ext s n root

pub index_at-set :
    (s : Store) (c d : Bytes) (n : ℕ)
    → n < 2 ^ 64
    → index_at (set (Key.root_index c) (put_uint64 n) s) d
      ≡ (if bytes_equal c d then n else index_at s d)
unfolding key_equal
index_at-set s c d n h =
    rw (get-set s (Key.root_index c) (Key.root_index d) (put_uint64 n))
      (ground (arith, uint64_of-put_uint64_lt n h))

index_at-delete :
    (s : Store) (c d : Bytes)
    → index_at (delete (Key.root_index c) s) d ≡ (if bytes_equal c d then 0 else index_at s d)
unfolding key_equal
index_at-delete s c d = rw (get-delete s (Key.root_index c) (Key.root_index d)) (ground arith)

same_index : (s : Store) (c d : Bytes) → bytes_equal c d ≡ true → index_at s c ≡ index_at s d
same_index s c d h = ap (index_at s) (bytes_equal→eq c d h)

module _ (ext : External) where
  pub index_at-incr :
      (s : Store) (root d : Bytes)
      → index_at s (canonical_field_bytes ext root) + 1 < 2 ^ 64
      → index_at (root_index_incr ext root s) d ≡ index_at s d + holds ext root d
  unfolding root_index_incr root_ref_count root_index_key
  index_at-incr s [] d room = omega arith
  index_at-incr s (b ∷ bs) d room =
      let c = canonical_field_bytes ext (b ∷ bs) in
      ground (arith, index_at-set s c d (index_at s c + 1) room, same_index s c d)

  pub index_at-decr :
      (s : Store) (root d : Bytes)
      → index_at s (canonical_field_bytes ext root) < 2 ^ 64
      → holds ext root d ≤ index_at s d
      → index_at (root_index_decr ext root s) d + holds ext root d ≡ index_at s d
  unfolding root_index_decr root_ref_count root_index_key
  index_at-decr s [] d fits held = omega arith
  index_at-decr s (b ∷ bs) d fits held =
      let c = canonical_field_bytes ext (b ∷ bs) in
      ground (arith, index_at-set s c d (index_at s c - 1), index_at-delete s c d, same_index s c d)
