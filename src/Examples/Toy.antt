-- ===== src/Examples/Toy.antt =====
-- Small functions for what the program takes from third parties.
use cosmos_nixpool.Prelude.{
  ℕ, zero, suc, ◌+◌, ◌*◌, ◌%◌, refl, true, Option, some, none, List, [], ◌∷◌, Bytes, codes,
  bytes_equal, is_empty, not, if◌then◌else◌, pos, arith, ◌<◌,
}
use cosmos_nixpool.External.{External, IsLawful}
use cosmos_nixpool.Field.{be_value}
use cosmos_nixpool.Examples.Codec.{marshal, unmarshal, unmarshal-marshal}

unfoldable pub toy_hash2 : ℕ → ℕ → ℕ
toy_hash2 a b = (a * 3 + b * 5 + 1) % 101

unfoldable pub toy_zero_hash : ℕ → ℕ
unfolding toy_hash2
toy_zero_hash zero = 0
toy_zero_hash (suc l) = let h = toy_zero_hash l in toy_hash2 h h

unfoldable pub toy_hash : List ℕ → ℕ
unfolding toy_hash2
toy_hash [] = 7
toy_hash (x ∷ xs) = toy_hash2 x (toy_hash xs)

-- A string with at least one byte, as its own meaning.
unfoldable pub non_empty : Bytes → Option Bytes
non_empty b = if is_empty b then none else some b

abbrev pub toy : External
toy = record {
  modulus = 101;
  hash2 = toy_hash2;
  hash = toy_hash;
  zero_hash = toy_zero_hash;
  deserialize_vk = non_empty;
  deserialize_vk_bb = non_empty;
  serialize_vk = non_empty;
  vk_serialized_size = 2;
  bb_vk_size = 3;
  honk_verify = λ vk proof inputs. some (bytes_equal vk proof);
  new_int_from_string = λ s. if is_empty s then none else some (pos (be_value s));
  acc_address_from_bech32 = non_empty;
  string_to_bytes = non_empty;
  is_valid_denom = λ d. not (is_empty d);
  sha256 = λ b. b;
  module_address = codes "nixpool";
  marshal_params = marshal;
  unmarshal_params = unmarshal;
  bank_accepts = λ transfers t. true;
}

toy_hash-lt : (xs : List ℕ) → toy_hash xs < 101
unfolding toy_hash toy_hash2
toy_hash-lt [] = omega arith
toy_hash-lt (x ∷ xs) = omega arith

toy_zero_hash-lt : (l : ℕ) → toy_zero_hash l < 101
unfolding toy_zero_hash toy_hash2
toy_zero_hash-lt zero = omega arith
toy_zero_hash-lt (suc l) = omega arith

pub toy-IsLawful : IsLawful toy
unfolding toy_hash2 toy_zero_hash
toy-IsLawful = record {
  modulus_pos = omega arith;
  modulus_fits = omega arith;
  hash2_bound = λ a b. omega arith;
  hash_bound = toy_hash-lt;
  zero_hash_bound = toy_zero_hash-lt;
  zero_hash-suc = λ l. refl;
  unmarshal-marshal = unmarshal-marshal;
}
