-- ===== src/Types/Keys/Equality.antt =====
-- Boolean equality of keys, by family and arguments.
use cosmos_nixpool.Prelude.{
  ℕ, ◌≡◌, refl, ap₂, Bool, true, false, ◌&&◌, Option, some, none, List, [], ◌∷◌, ◌==◌,
  if◌then◌else◌, ==_iff, eqb_refl, bytes_equal, bytes_equal→eq, bytes_equal_self, and-true,
  eqb_of_iff,
}
use cosmos_nixpool.Types.Keys.{Key}

abbrev pub family : Key → ℕ
family (Key.commitment t i) = 0
family (Key.frontier t l) = 1
family (Key.root_history t i) = 2
family (Key.tree_root t) = 3
family (Key.root_index r) = 4
family (Key.tree_next_index t) = 5
family Key.active_tree_id = 6
family Key.tree_count = 7
family (Key.reg_commitment i) = 8
family (Key.reg_frontier l) = 9
family Key.reg_root = 10
family Key.reg_next_index = 11
family (Key.commitment_used c) = 12
family (Key.reg_commitment_used c) = 13
family (Key.nullifier n) = 14
family Key.params = 15
family (Key.vk name) = 16
family (Key.auditor_data h) = 17

abbrev pub arguments : Key → List ℕ
arguments (Key.commitment t i) = t ∷ i ∷ []
arguments (Key.frontier t l) = t ∷ l ∷ []
arguments (Key.root_history t i) = t ∷ i ∷ []
arguments (Key.tree_root t) = t ∷ []
arguments (Key.root_index r) = r
arguments (Key.tree_next_index t) = t ∷ []
arguments Key.active_tree_id = []
arguments Key.tree_count = []
arguments (Key.reg_commitment i) = i ∷ []
arguments (Key.reg_frontier l) = l ∷ []
arguments Key.reg_root = []
arguments Key.reg_next_index = []
arguments (Key.commitment_used c) = c
arguments (Key.reg_commitment_used c) = c
arguments (Key.nullifier n) = n
arguments Key.params = []
arguments (Key.vk name) = name
arguments (Key.auditor_data h) = h

unfoldable pub key_equal : Key → Key → Bool
key_equal a b = (family a == family b) && bytes_equal (arguments a) (arguments b)

-- A key from its family and arguments.
with_pair : (ℕ → ℕ → Key) → List ℕ → Option Key
with_pair k (t ∷ i ∷ r) = some (k t i)
with_pair k (t ∷ []) = none
with_pair k [] = none

with_one : (ℕ → Key) → List ℕ → Option Key
with_one k (t ∷ r) = some (k t)
with_one k [] = none

rebuild : ℕ → List ℕ → Option Key
unfolding with_pair with_one
rebuild f xs =
    if f == 0
    then with_pair Key.commitment xs
    else if f == 1
    then with_pair Key.frontier xs
    else if f == 2
    then with_pair Key.root_history xs
    else if f == 3
    then with_one Key.tree_root xs
    else if f == 4
    then some (Key.root_index xs)
    else if f == 5
    then with_one Key.tree_next_index xs
    else if f == 6
    then some Key.active_tree_id
    else if f == 7
    then some Key.tree_count
    else if f == 8
    then with_one Key.reg_commitment xs
    else if f == 9
    then with_one Key.reg_frontier xs
    else if f == 10
    then some Key.reg_root
    else if f == 11
    then some Key.reg_next_index
    else if f == 12
    then some (Key.commitment_used xs)
    else if f == 13
    then some (Key.reg_commitment_used xs)
    else if f == 14
    then some (Key.nullifier xs)
    else if f == 15
    then some Key.params
    else if f == 16
    then some (Key.vk xs)
    else if f == 17
    then some (Key.auditor_data xs)
    else none

rebuild_lem : (k : Key) → rebuild (family k) (arguments k) ≡ some k
unfolding rebuild
rebuild_lem (Key.commitment t i) = refl
rebuild_lem (Key.frontier t i) = refl
rebuild_lem (Key.root_history t i) = refl
rebuild_lem (Key.tree_root t) = refl
rebuild_lem (Key.root_index b) = refl
rebuild_lem (Key.tree_next_index t) = refl
rebuild_lem Key.active_tree_id = refl
rebuild_lem Key.tree_count = refl
rebuild_lem (Key.reg_commitment t) = refl
rebuild_lem (Key.reg_frontier t) = refl
rebuild_lem Key.reg_root = refl
rebuild_lem Key.reg_next_index = refl
rebuild_lem (Key.commitment_used b) = refl
rebuild_lem (Key.reg_commitment_used b) = refl
rebuild_lem (Key.nullifier b) = refl
rebuild_lem Key.params = refl
rebuild_lem (Key.vk b) = refl
rebuild_lem (Key.auditor_data b) = refl

pub key_equal→eq : (a b : Key) → key_equal a b ≡ true → a ≡ b
unfolding key_equal
key_equal→eq a b h =
    let (same_family, same_args) = and-true (family a == family b) _ h in
    let codes_agree : rebuild (family a) (arguments a) ≡ rebuild (family b) (arguments b) =
      ap₂ rebuild ((==_iff _ _).0 same_family) (bytes_equal→eq _ _ same_args) in
    cc (rebuild_lem a, rebuild_lem b, codes_agree)

pub key_equal_self : (k : Key) → key_equal k k ≡ true
unfolding key_equal
key_equal_self k = rw (eqb_refl (family k)) (bytes_equal_self (arguments k))

pub key_equal_comm : (a b : Key) → key_equal a b ≡ key_equal b a
key_equal_comm a b =
    eqb_of_iff (key_equal a b) (key_equal b a) (λ h. rw (key_equal→eq a b h) (key_equal_self b))
      (λ h. rw (key_equal→eq b a h) (key_equal_self a))

-- Keys of different families differ.
pub key_equal-family : (a b : Key) → (family a == family b) ≡ false → key_equal a b ≡ false
unfolding key_equal
key_equal-family a b h = rw h
