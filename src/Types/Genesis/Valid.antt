-- ===== src/Types/Genesis/Valid.antt =====
-- What GenesisState.Validate accepts.
use cosmos_nixpool.Prelude.{
  ℕ, ◌≡◌, ◌↔◌, refl, false, not, List, [], ◌∷◌, Bytes, length, All, ◌==◌, is_empty, arith,
}
use cosmos_nixpool.Types.Errors.{Result, ok, err, ◌>>◌, fail_if, fail_if-eq-ok, invalid_genesis}
use cosmos_nixpool.Types.Genesis.{
  Value, value_length, TreeState, VerificationKeyEntry, GenesisState, check_values, check_bytes,
  check_trees, check_keys, validate_given, validate_genesis,
}

-- The conditions, in words of the data.
abbrev pub HasValueSize : Value → Type 0
HasValueSize v = value_length v ≡ 32

abbrev pub HasFieldSize : Bytes → Type 0
HasFieldSize b = length b ≡ 32

abbrev pub IsWellFormedTree : TreeState → Type 0
IsWellFormedTree tree =
    (length tree.commitments ≡ tree.next_index) × All HasValueSize tree.commitments

abbrev pub IsWellFormedKey : VerificationKeyEntry → Type 0
IsWellFormedKey entry = (is_empty entry.circuit_name ≡ false) × (is_empty entry.vk_data ≡ false)

pub record IsValidGenesis (gs : GenesisState) : Type 0 where
  pub params : validate_given gs.params ≡ ok tt
  pub trees : All IsWellFormedTree gs.trees
  pub reg_count : length gs.reg_commitments ≡ gs.reg_next_index
  pub reg_commitments : All HasValueSize gs.reg_commitments
  pub nullifiers : All HasFieldSize gs.nullifiers
  pub commitments_used : All HasFieldSize gs.commitments_used
  pub verification_keys : All IsWellFormedKey gs.verification_keys

-- A block of two checks passes exactly if both do.
then_iff : (r rest : Result (Unit {0})) → ((r >> rest) ≡ ok tt) ↔ ((r ≡ ok tt) × (rest ≡ ok tt))
then_iff (ok tt) rest = (λ h. (refl, h), λ h. h.1)
then_iff (err e) rest = (λ h. cc, λ h. cc)

unless_iff :
    (a b : ℕ) (rest : Result (Unit {0}))
    → ((fail_if (not (a == b)) invalid_genesis >> rest) ≡ ok tt) ↔ ((a ≡ b) × (rest ≡ ok tt))
unless_iff a b rest = (
  λ h. (
    ground (arith, fail_if-eq-ok (not (a == b)) invalid_genesis rest tt h),
    (fail_if-eq-ok (not (a == b)) invalid_genesis rest tt h).1,
  ),
  λ h. ground arith,
)

check_values_iff : (vs : List Value) → (check_values vs ≡ ok tt) ↔ All HasValueSize vs
unfolding check_values
check_values_iff [] = (λ h. tt, λ h. refl)
check_values_iff (v ∷ vs) =
    let head = unless_iff (value_length v) 32 (check_values vs) in
    let tail = check_values_iff vs in
    (λ h. let (one, rest) = head.0 h in (one, tail.0 rest), λ h. head.1 (h.0, tail.1 h.1))

check_bytes_iff : (bs : List Bytes) → (check_bytes bs ≡ ok tt) ↔ All HasFieldSize bs
unfolding check_bytes
check_bytes_iff [] = (λ h. tt, λ h. refl)
check_bytes_iff (b ∷ bs) =
    let head = unless_iff (length b) 32 (check_bytes bs) in
    let tail = check_bytes_iff bs in
    (λ h. let (one, rest) = head.0 h in (one, tail.0 rest), λ h. head.1 (h.0, tail.1 h.1))

check_trees_iff : (ts : List TreeState) → (check_trees ts ≡ ok tt) ↔ All IsWellFormedTree ts
unfolding check_trees
check_trees_iff [] = (λ h. tt, λ h. refl)
check_trees_iff (t ∷ ts) =
    let count =
      unless_iff (length t.commitments) t.next_index
        (check_values t.commitments >> check_trees ts) in
    let both = then_iff (check_values t.commitments) (check_trees ts) in
    let sizes = check_values_iff t.commitments in
    let tail = check_trees_iff ts in
    (
      λ h.
          let (one, more) = count.0 h in
          let (two, rest) = both.0 more in ((one, sizes.0 two), tail.0 rest),
      λ h. count.1 (h.0.0, both.1 (sizes.1 h.0.1, tail.1 h.1)),
    )

check_key_iff :
    (name data_bytes : Bytes) (rest : Result (Unit {0}))
    → ((fail_if (is_empty name) invalid_genesis
          >> (fail_if (length data_bytes == 0) invalid_genesis >> rest))
        ≡ ok tt)
      ↔ (((is_empty name ≡ false) × (is_empty data_bytes ≡ false)) × (rest ≡ ok tt))
check_key_iff [] data_bytes rest = (λ h. cc, λ h. cc)
check_key_iff (c ∷ cs) [] rest = (λ h. cc, λ h. cc)
check_key_iff (c ∷ cs) (b ∷ bs) rest = (λ h. ((refl, refl), ground arith), λ h. ground arith)

check_keys_iff : (es : List VerificationKeyEntry) → (check_keys es ≡ ok tt) ↔ All IsWellFormedKey es
unfolding check_keys
check_keys_iff [] = (λ h. tt, λ h. refl)
check_keys_iff (e ∷ es) =
    let head = check_key_iff e.circuit_name e.vk_data (check_keys es) in
    let tail = check_keys_iff es in
    (λ h. let (one, rest) = head.0 h in (one, tail.0 rest), λ h. head.1 (h.0, tail.1 h.1))

-- GenesisState.Validate accepts exactly the genesis states whose parameters, if given, are valid,
-- whose commitments, nullifiers and used commitments have 32 bytes each, whose trees and registration
-- tree have as many commitments as their next index says, and whose verification keys have a
-- name and data. It says nothing about frontiers, roots, histories and auditor data.
pub validate_genesis_iff : (gs : GenesisState) → (validate_genesis gs ≡ ok tt) ↔ IsValidGenesis gs
unfolding validate_genesis
validate_genesis_iff gs =
    let tail3 = then_iff (check_bytes gs.commitments_used) (check_keys gs.verification_keys) in
    let tail2 =
      then_iff (check_bytes gs.nullifiers)
        (check_bytes gs.commitments_used >> check_keys gs.verification_keys) in
    let tail1 = then_iff (check_values gs.reg_commitments) _ in
    let count = unless_iff (length gs.reg_commitments) gs.reg_next_index _ in
    let forest = then_iff (check_trees gs.trees) _ in
    let given = then_iff (validate_given gs.params) _ in
    (
      λ h.
          let (a, h1) = given.0 h in
          let (b, h2) = forest.0 h1 in
          let (c, h3) = count.0 h2 in
          let (d, h4) = tail1.0 h3 in
          let (e, h5) = tail2.0 h4 in
          let (f, g) = tail3.0 h5 in
          record {
            params = a;
            trees = (check_trees_iff gs.trees).0 b;
            reg_count = c;
            reg_commitments = (check_values_iff gs.reg_commitments).0 d;
            nullifiers = (check_bytes_iff gs.nullifiers).0 e;
            commitments_used = (check_bytes_iff gs.commitments_used).0 f;
            verification_keys = (check_keys_iff gs.verification_keys).0 g;
          },
      λ v. given.1 (
        v.params,
        forest.1 (
          (check_trees_iff gs.trees).1 v.trees,
          count.1 (
            v.reg_count,
            tail1.1 (
              (check_values_iff gs.reg_commitments).1 v.reg_commitments,
              tail2.1 (
                (check_bytes_iff gs.nullifiers).1 v.nullifiers,
                tail3.1 (
                  (check_bytes_iff gs.commitments_used).1 v.commitments_used,
                  (check_keys_iff gs.verification_keys).1 v.verification_keys,
                ),
              ),
            ),
          ),
        ),
      ),
    )
