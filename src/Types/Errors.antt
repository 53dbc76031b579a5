-- ===== src/Types/Errors.antt =====
-- The errors of types/errors.go, the result type that carries them, and its `do` notation.
use cosmos_nixpool.Prelude.{◌≡◌, refl, Bool, true, false}

-- The registered errors, and the unregistered ones that the code makes (`fmt.Errorf`) or passes on.
pub data Error : Type 0 where
  invalid_proof nullifier_spent invalid_merkle_root tree_full invalid_commitment : Error
  insufficient_funds invalid_denom invalid_auditor_key auditor_data_missing vk_not_found : Error
  invalid_public_inputs not_registered auditor_data_too_large duplicate_commitment : Error
  invalid_nullifier invalid_withdraw : Error
  -- `AccAddressFromBech32`, `StringToBytes`
  invalid_address : Error
  -- `fmt.Errorf("unauthorized: ...")`, "params cannot be nil", "invalid circuit name"
  unauthorized nil_params invalid_circuit_name : Error
  -- "invalid VK data", "unsupported VK size"
  invalid_vk_data unsupported_vk_size : Error
  -- `json.Unmarshal`, the bank, the gas meter's panic, a nil value handed to `store.Set`
  corrupt_params bank_refused out_of_gas nil_value : Error
  -- the panic of an index past the end
  index_out_of_range : Error
  -- the panic of `sdk.NewCoin`
  invalid_coin : Error
  -- the `fmt.Errorf` of `GenesisState.Validate`
  invalid_genesis : Error
  -- the `fmt.Errorf` of crypto/: addresses, hex digits, keys, curve points, randomness
  bad_address bad_hex bad_key_size off_curve commitment_mismatch zero_scalar : Error
  bad_private_key zero_randomness : Error
  -- cobra's refusal of the arguments, and the `fmt.Errorf` of client/cli/tx.go
  wrong_arguments unreadable_file bad_outputs wrong_number : Error

pub data Result (A : Type 0) : Type 0 where
  ok : A → Result A
  err : Error → Result A

infixl 5 ◌>>=◌ ◌>>◌
abbrev pub ◌>>=◌ : {A B : Type 0} → Result A → (A → Result B) → Result B
ok a >>= f = f a
err e >>= f = err e

abbrev pub ◌>>◌ : {A B : Type 0} → Result A → Result B → Result B
m >> k = m >>= λ _. k

-- `if c { return err }`
abbrev pub fail_if : Bool → Error → Result (Unit {0})
fail_if true e = err e
fail_if false e = ok tt

-- A block of checks that passes: the first one passes, and so does the rest.
pub fail_if-eq-ok :
    (b : Bool) (e : Error) (rest : Result (Unit {0})) (u : Unit {0})
    → (fail_if b e >> rest) ≡ ok u
    → (b ≡ false) × (rest ≡ ok u)
fail_if-eq-ok true e rest u h = cc
fail_if-eq-ok false e rest u h = (refl, h)

pub last-eq-ok : (b : Bool) (e : Error) (u : Unit {0}) → fail_if b e ≡ ok u → b ≡ false
last-eq-ok true e u h = cc
last-eq-ok false e u h = refl

pub then-eq-ok :
    (r rest : Result (Unit {0})) (u : Unit {0}) → (r >> rest) ≡ ok u → (r ≡ ok tt) × (rest ≡ ok u)
then-eq-ok (ok tt) rest u h = (refl, h)
then-eq-ok (err e) rest u h = cc

-- A block that succeeds: its first part succeeds, and so does the rest with what it gave.
pub bind-eq-ok :
    {A B : Type 0} (r : Result A) (f : A → Result B) (b : B)
    → (r >>= f) ≡ ok b
    → (a : A) × (r ≡ ok a) × (f a ≡ ok b)
bind-eq-ok (ok a) f b h = (a, refl, h)
bind-eq-ok (err e) f b h = cc

-- A result behind a check is given only past it.
pub guarded-eq-ok :
    {A : Type 0} (b : Bool) (e : Error) (r : Result A) (a : A)
    → (fail_if b e >> r) ≡ ok a
    → (b ≡ false) × (r ≡ ok a)
guarded-eq-ok true e r a h = cc
guarded-eq-ok false e r a h = (refl, h)

pub ok_injective : {A : Type 0} (a b : A) → ok a ≡ ok b → a ≡ b
ok_injective a b h = cc
