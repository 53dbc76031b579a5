-- ===== src/Store.antt =====
-- The module's key-value store (`store.KVStore`): get, has, set, delete and the iteration over one
-- family of keys. The order of an iteration is not modelled.
use cosmos_nixpool.Prelude.{
  ℕ, ◌≡◌, ap, ◌∙◌, Bool, true, false, Option, some, none, List, [], ◌∷◌, Bytes, arith,
  if◌then◌else◌, ◌==◌, ◌||◌, ◌&&◌, refl,
}
use cosmos_nixpool.Types.Keys.{Key}
use cosmos_nixpool.Types.Keys.Equality.{
  key_equal, key_equal→eq, key_equal_self, key_equal_comm, family,
}

abbrev pub Store : Type 0
Store = List (Key × Bytes)

-- `store.Get`; none is a nil slice
unfoldable pub get : Store → Key → Option Bytes
get [] k = none
get ((j, v) ∷ s) k = if key_equal j k then some v else get s k

-- `store.Delete`
unfoldable pub delete : Key → Store → Store
delete k [] = []
delete k ((j, v) ∷ s) = let rest = delete k s in if key_equal j k then rest else (j, v) ∷ rest

-- `store.Set`
unfoldable pub set : Key → Bytes → Store → Store
unfolding delete
set k v s = (k, v) ∷ delete k s

abbrev pub is_some : Option Bytes → Bool
is_some none = false
is_some (some v) = true

-- `store.Has`
abbrev pub has : Store → Key → Bool
has s k = is_some (get s k)

-- The keys under one prefix, and the deletion of a list of keys.
unfoldable pub keys_of_family : ℕ → Store → List Key
keys_of_family f [] = []
keys_of_family f ((j, v) ∷ s) =
    let rest = keys_of_family f s in if family j == f then j ∷ rest else rest

unfoldable pub delete_all : List Key → Store → Store
delete_all [] s = s
delete_all (k ∷ ks) s = delete_all ks (delete k s)

key_equal_replace : (i j k : Key) → key_equal i j ≡ true → key_equal i k ≡ key_equal j k
key_equal_replace i j k h = rw (key_equal→eq i j h)

-- A read after a deletion.
pub get-delete :
    (s : Store) (k j : Key) → get (delete k s) j ≡ (if key_equal k j then none else get s j)
unfolding get delete
get-delete [] k j = ground arith
get-delete ((i, v) ∷ s) k j =
    ground (
      arith,
      get-delete s k j,
      key_equal_replace i k j,
      key_equal_replace i j k,
      key_equal_comm k j,
    )

-- A read after a write.
pub get-set :
    (s : Store) (k j : Key) (v : Bytes)
    → get (set k v s) j ≡ (if key_equal k j then some v else get s j)
unfolding set get
get-set s k j v = ground (arith, get-delete s k j)

pub get-set_self : (s : Store) (k : Key) (v : Bytes) → get (set k v s) k ≡ some v
get-set_self s k v = rw (get-set s k k v, key_equal_self k)

pub get-set_ne :
    (s : Store) (k j : Key) (v : Bytes) → key_equal k j ≡ false → get (set k v s) j ≡ get s j
get-set_ne s k j v h = rw (get-set s k j v, h)

pub get-delete_self : (s : Store) (k : Key) → get (delete k s) k ≡ none
get-delete_self s k = rw (get-delete s k k, key_equal_self k)

pub get-delete_ne : (s : Store) (k j : Key) → key_equal k j ≡ false → get (delete k s) j ≡ get s j
get-delete_ne s k j h = rw (get-delete s k j, h)

abbrev pub mem_key : Key → List Key → Bool
mem_key j [] = false
mem_key j (k ∷ ks) = key_equal k j || mem_key j ks

-- A read after the deletion of a list of keys.
pub get-delete_all :
    (ks : List Key) (s : Store) (j : Key)
    → get (delete_all ks s) j ≡ (if mem_key j ks then none else get s j)
unfolding delete_all
get-delete_all [] s j = refl
get-delete_all (k ∷ ks) s j = ground (arith, get-delete_all ks (delete k s) j, get-delete s k j)

-- The entry under `i` counts where the key sought is `i`, whose family is `g`.
found_or_rest :
    (e : Bool) (g h f : ℕ) (o : Option Bytes) (v : Bytes) (rest : Bool)
    → (e ≡ true → g ≡ h)
    → rest ≡ (is_some o && (h == f))
    → (if g == f then (e || rest) else rest) ≡ (is_some (if e then some v else o) && (h == f))
found_or_rest true g h f o v rest same ih = rw (same refl) (ground (arith, ih))
found_or_rest false g h f o v rest same ih = rw ih (ground arith)

mem_key-if :
    (b : Bool) (j i : Key) (ks : List Key)
    → mem_key j (if b then i ∷ ks else ks)
      ≡ (if b then (key_equal i j || mem_key j ks) else mem_key j ks)
mem_key-if true j i ks = refl
mem_key-if false j i ks = refl

mem_key-keys_of_family :
    (f : ℕ) (s : Store) (j : Key)
    → mem_key j (keys_of_family f s) ≡ (is_some (get s j) && (family j == f))
unfolding keys_of_family get
mem_key-keys_of_family f [] j = refl
mem_key-keys_of_family f ((i, v) ∷ s) j =
    mem_key-if (family i == f) j i (keys_of_family f s)
    ∙ found_or_rest (key_equal i j) (family i) (family j) f (get s j) v
        (mem_key j (keys_of_family f s)) (λ h. ap family (key_equal→eq i j h))
        (mem_key-keys_of_family f s j)

gone_or_kept :
    (b : Bool) (o : Option Bytes) → (if (is_some o && b) then none else o) ≡ (if b then none else o)
gone_or_kept b none = ground arith
gone_or_kept b (some v) = refl

-- The deletion of every key under a prefix leaves the others as they are.
pub get-delete_family :
    (f : ℕ) (s : Store) (j : Key)
    → get (delete_all (keys_of_family f s) s) j ≡ (if family j == f then none else get s j)
get-delete_family f s j =
    get-delete_all (keys_of_family f s) s j
    ∙ ap (λ (b : Bool). if b then none else get s j) (mem_key-keys_of_family f s j)
    ∙ gone_or_kept (family j == f) (get s j)

pub ruleset store_laws = (get-set, get-delete)
