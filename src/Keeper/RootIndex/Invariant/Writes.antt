-- ===== src/Keeper/RootIndex/Invariant/Writes.antt =====
-- The indexed writes (setTreeRootIndexed, setRootHistoryIndexed) keep the index exact.
use cosmos_nixpool.Prelude.{
  ℕ, ◌+◌, ◌-◌, ◌*◌, ◌^◌, ◌≤◌, ◌<◌, ◌≡◌, ◌≢◌, refl, ap, ◌∙◌, Bool, true, false, Bytes, arith, ◌==◌,
  bytes_equal, bytes_equal→eq, inl, inr, Bool-cases, [], ◌∷◌,
}
use cosmos_nixpool.External.{External}
use cosmos_nixpool.Field.{canonical_field_bytes, put_uint64}
use cosmos_nixpool.Types.Keys.{Key, root_index_key, max_root_history}
use cosmos_nixpool.Types.Keys.Equality.{key_equal, key_equal_comm, family}
use cosmos_nixpool.Store.{Store, get, set, get-set, get-set_self, get-set_ne, get-delete}
use cosmos_nixpool.Keeper.RootIndex.{
  slice_of, uint64_or_zero, root_ref_count, root_index_incr, root_index_decr, write_slot_indexed,
  set_tree_root_indexed, set_root_history_indexed,
}
use cosmos_nixpool.Keeper.RootIndex.Slots.{holds, forest_count, forest_count-le}
use cosmos_nixpool.Keeper.RootIndex.Counts.{forest_count-tree_root, forest_count-root_history}
use cosmos_nixpool.Keeper.RootIndex.Invariant.{IsIndexed, index_at, index_at-incr, index_at-decr}

-- Keys outside the index.
abbrev pub is_index : Key → Bool
is_index k = 4 == family k

pub not_index_key :
    (c : Bytes) (j : Key) → is_index j ≡ false → key_equal (Key.root_index c) j ≡ false
unfolding key_equal
not_index_key c j h = rw h

ne_tree_root : (t u : ℕ) → u ≢ t → key_equal (Key.tree_root t) (Key.tree_root u) ≡ false
unfolding key_equal
ne_tree_root t u h = ground arith

root_ne_history : (t u i : ℕ) → key_equal (Key.tree_root t) (Key.root_history u i) ≡ false
unfolding key_equal
root_ne_history t u i = refl

history_ne_root : (t i u : ℕ) → key_equal (Key.root_history t i) (Key.tree_root u) ≡ false
unfolding key_equal
history_ne_root t i u = refl

ne_history_tree :
    (t i u j : ℕ) → u ≢ t → key_equal (Key.root_history t i) (Key.root_history u j) ≡ false
unfolding key_equal
ne_history_tree t i u j h = ground arith

ne_history_slot :
    (t i j : ℕ) → j ≢ i → key_equal (Key.root_history t i) (Key.root_history t j) ≡ false
unfolding key_equal
ne_history_slot t i j h = ground arith

module _ (ext : External) where
  get-root_index_incr :
      (root : Bytes) (s : Store) (j : Key)
      → is_index j ≡ false
      → get (root_index_incr ext root s) j ≡ get s j
  unfolding root_index_incr root_index_key
  get-root_index_incr [] s j h = refl
  get-root_index_incr (b ∷ bs) s j h = get-set_ne s _ j _ (not_index_key _ j h)

  get-root_index_decr :
      (root : Bytes) (s : Store) (j : Key)
      → is_index j ≡ false
      → get (root_index_decr ext root s) j ≡ get s j
  unfolding root_index_decr root_index_key
  get-root_index_decr [] s j h = refl
  get-root_index_decr (b ∷ bs) s j h =
      let c = canonical_field_bytes ext (b ∷ bs) in
      ground (
        arith,
        not_index_key c j h,
        get-delete s (Key.root_index c) j,
        get-set s (Key.root_index c) j (put_uint64 (root_ref_count ext s (b ∷ bs) - 1)),
      )

  -- An indexed write changes its slot and the index only.
  pub get-write_slot_ne :
      (key : Key) (root : Bytes) (s : Store) (j : Key)
      → is_index j ≡ false
      → key_equal key j ≡ false
      → get (write_slot_indexed ext key root s) j ≡ get s j
  unfolding write_slot_indexed
  get-write_slot_ne key root s j h ne =
      let old = slice_of (get s key) in
      let s1 = set key root s in
      ground (
        arith,
        get-set_ne s key j root ne,
        get-root_index_incr root s1 j h,
        get-root_index_decr old (root_index_incr ext root s1) j h,
      )

  -- The slot holds the root that was written.
  pub get-write_slot_self :
      (key : Key) (root : Bytes) (s : Store)
      → is_index key ≡ false
      → slice_of (get (write_slot_indexed ext key root s) key) ≡ root
  unfolding write_slot_indexed
  get-write_slot_self key root s h =
      let old = slice_of (get s key) in
      let s1 = set key root s in
      ground (
        arith,
        get-set_self s key root,
        get-root_index_incr root s1 key h,
        get-root_index_decr old (root_index_incr ext root s1) key h,
        bytes_equal→eq old root,
      )

  holds-le_one : (b c : Bytes) → holds ext b c ≤ 1
  holds-le_one b c = ground arith

  write_slot_same :
      (key : Key) (root : Bytes) (s : Store)
      → bytes_equal (slice_of (get s key)) root ≡ true
      → write_slot_indexed ext key root s ≡ s
  unfolding write_slot_indexed
  write_slot_same key root s h = rw h

  write_slot_differs :
      (key : Key) (root : Bytes) (s : Store)
      → bytes_equal (slice_of (get s key)) root ≡ false
      → write_slot_indexed ext key root s
        ≡ root_index_decr ext (slice_of (get s key)) (root_index_incr ext root (set key root s))
  unfolding write_slot_indexed
  write_slot_differs key root s h = rw h

  index_at-set_slot :
      (key : Key) (root : Bytes) (s : Store) (d : Bytes)
      → is_index key ≡ false
      → index_at (set key root s) d ≡ index_at s d
  index_at-set_slot key root s d h = ap uint64_or_zero (
      get-set_ne s key (Key.root_index d) root
        (key_equal_comm key (Key.root_index d) ∙ not_index_key d key h))

  -- What a write that is not a repetition does to the count of a canonical encoding.
  index_at-write_slot :
      (key : Key) (root : Bytes) (s : Store) (bound : ℕ)
      → is_index key ≡ false
      → bytes_equal (slice_of (get s key)) root ≡ false
      → bound + 1 < 2 ^ 64
      → ((d : Bytes) → index_at s d ≤ bound)
      → ((d : Bytes) → holds ext (slice_of (get s key)) d ≤ index_at s d + holds ext root d)
      → (d : Bytes)
      → index_at (write_slot_indexed ext key root s) d + holds ext (slice_of (get s key)) d
        ≡ index_at s d + holds ext root d
  index_at-write_slot key root s bound h differs room small held d =
      let old = slice_of (get s key) in
      let s1 = set key root s in
      let c = canonical_field_bytes ext root in
      let o = canonical_field_bytes ext old in
      let room1 : index_at s1 c + 1 < 2 ^ 64 =
        omega (arith, index_at-set_slot key root s c h, small c) in
      let grown = λ (e : Bytes). index_at-incr ext s1 root e room1 in
      let fits : index_at (root_index_incr ext root s1) o < 2 ^ 64 =
        omega (arith, grown o, index_at-set_slot key root s o h, small o, holds-le_one root o) in
      let enough : holds ext old d ≤ index_at (root_index_incr ext root s1) d =
        omega (arith, grown d, index_at-set_slot key root s d h, held d) in
      rw (write_slot_differs key root s differs) (
        omega (
          arith,
          index_at-decr ext (root_index_incr ext root s1) old d fits enough,
          grown d,
          index_at-set_slot key root s d h,
        ))

  -- If the write moves the slot counts as it should, the index follows.
  write_slot-IsIndexed :
      (n : ℕ) (key : Key) (root : Bytes) (s : Store)
      → is_index key ≡ false
      → n * 101 + 1 < 2 ^ 64
      → IsIndexed ext n s
      → ((d : Bytes)
          → forest_count ext (write_slot_indexed ext key root s) n d
              + holds ext (slice_of (get s key)) d
            ≡ forest_count ext s n d + holds ext root d)
      → IsIndexed ext n (write_slot_indexed ext key root s)
  write_slot-IsIndexed n key root s h room inv count d =
      elim (Bool-cases (bytes_equal (slice_of (get s key)) root)) [
        | inl same ↦ rw (write_slot_same key root s same) (inv d)
        | inr differs ↦ omega (
          arith,
          index_at-write_slot key root s (n * 101) h differs room
              (λ e. omega (arith, inv e, forest_count-le ext s n e))
              (λ e. omega (arith, inv e, count e)) d,
          inv d,
          count d,
        )
      ]

  -- Writing the current root of one of the first `n` trees keeps every reference count equal to the
  -- number of slots of those trees that hold the root.
  pub set_tree_root_indexed-IsIndexed :
      (n t : ℕ) (root : Bytes) (s : Store)
      → t < n
      → n * 101 + 1 < 2 ^ 64
      → IsIndexed ext n s
      → IsIndexed ext n (set_tree_root_indexed ext t root s)
  unfolding set_tree_root_indexed
  set_tree_root_indexed-IsIndexed n t root s ht room inv =
      let key = Key.tree_root t in
      let s' = write_slot_indexed ext key root s in
      write_slot-IsIndexed n key root s refl room inv (λ d.
        rw (get-write_slot_self key root s refl) at (
          forest_count-tree_root ext s s' d t n ht
            (λ u ne. get-write_slot_ne key root s (Key.tree_root u) refl (ne_tree_root t u ne))
            (λ u i.
              get-write_slot_ne key root s (Key.root_history u i) refl (root_ne_history t u i))))

  -- Writing a slot in range of the root history of one of the first `n` trees keeps every reference
  -- count equal to the number of slots of those trees that hold the root.
  pub set_root_history_indexed-IsIndexed :
      (n t i : ℕ) (root : Bytes) (s : Store)
      → t < n
      → i < max_root_history
      → n * 101 + 1 < 2 ^ 64
      → IsIndexed ext n s
      → IsIndexed ext n (set_root_history_indexed ext t i root s)
  unfolding set_root_history_indexed
  set_root_history_indexed-IsIndexed n t i root s ht hi room inv =
      let key = Key.root_history t i in
      let s' = write_slot_indexed ext key root s in
      write_slot-IsIndexed n key root s refl room inv (λ d.
        rw (get-write_slot_self key root s refl) at (
          forest_count-root_history ext s s' d t i n ht hi
            (λ u. get-write_slot_ne key root s (Key.tree_root u) refl (history_ne_root t i u))
            (λ u j ne.
              get-write_slot_ne key root s (Key.root_history u j) refl (ne_history_tree t i u j ne))
            (λ j ne.
              get-write_slot_ne key root s (Key.root_history t j) refl (ne_history_slot t i j ne))))

  pub get-set_tree_root_ne :
      (t : ℕ) (root : Bytes) (s : Store) (j : Key)
      → is_index j ≡ false
      → key_equal (Key.tree_root t) j ≡ false
      → get (set_tree_root_indexed ext t root s) j ≡ get s j
  unfolding set_tree_root_indexed
  get-set_tree_root_ne t root s j h ne = get-write_slot_ne (Key.tree_root t) root s j h ne

  pub get-set_root_history_ne :
      (t i : ℕ) (root : Bytes) (s : Store) (j : Key)
      → is_index j ≡ false
      → key_equal (Key.root_history t i) j ≡ false
      → get (set_root_history_indexed ext t i root s) j ≡ get s j
  unfolding set_root_history_indexed
  get-set_root_history_ne t i root s j h ne = get-write_slot_ne (Key.root_history t i) root s j h ne

  pub get-set_tree_root_self :
      (t : ℕ) (root : Bytes) (s : Store)
      → slice_of (get (set_tree_root_indexed ext t root s) (Key.tree_root t)) ≡ root
  unfolding set_tree_root_indexed
  get-set_tree_root_self t root s = get-write_slot_self (Key.tree_root t) root s refl

  pub get-set_root_history_self :
      (t i : ℕ) (root : Bytes) (s : Store)
      → slice_of (get (set_root_history_indexed ext t i root s) (Key.root_history t i)) ≡ root
  unfolding set_root_history_indexed
  get-set_root_history_self t i root s = get-write_slot_self (Key.root_history t i) root s refl
