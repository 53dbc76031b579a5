-- ===== src/Examples/Codec.antt =====
-- A codec for the parameters, in place of the JSON one: each list behind its length.
use cosmos_nixpool.Prelude.{
  ℕ, zero, suc, ◌≡◌, refl, ap, Option, some, none, List, [], ◌∷◌, ◌++◌, Bytes, length,
}
use cosmos_nixpool.Types.Params.{Params}

-- The first `n` bytes, and the rest.
unfoldable pub split : ℕ → Bytes → Bytes × Bytes
split zero bytes = ([], bytes)
split (suc n) [] = ([], [])
split (suc n) (b ∷ bs) = let (front, rest) = split n bs in (b ∷ front, rest)

pub split-append : (a b : Bytes) → split (length a) (a ++ b) ≡ (a, b)
unfolding split
split-append [] b = refl
split-append (x ∷ a) b = ap (λ (r : Bytes × Bytes). (x ∷ r.0, r.1)) (split-append a b)

unfoldable pub encode_bytes : Bytes → Bytes → Bytes
encode_bytes b rest = length b ∷ b ++ rest

unfoldable pub decode_bytes : Bytes → Bytes × Bytes
unfolding split
decode_bytes [] = ([], [])
decode_bytes (n ∷ bytes) = split n bytes

pub decode_bytes-encode_bytes : (b rest : Bytes) → decode_bytes (encode_bytes b rest) ≡ (b, rest)
unfolding decode_bytes encode_bytes
decode_bytes-encode_bytes b rest = split-append b rest

unfoldable pub encode_all : List Bytes → Bytes
unfolding encode_bytes
encode_all [] = []
encode_all (b ∷ bs) = encode_bytes b (encode_all bs)

-- Fuel: the number of byte strings.
unfoldable pub decode_all : ℕ → Bytes → List Bytes
unfolding decode_bytes
decode_all zero bytes = []
decode_all (suc n) bytes = let (b, rest) = decode_bytes bytes in b ∷ decode_all n rest

unfoldable pub count : List Bytes → ℕ
count [] = 0
count (b ∷ bs) = suc (count bs)

pub decode_all-encode_all : (bs : List Bytes) → decode_all (count bs) (encode_all bs) ≡ bs
unfolding decode_all encode_all count
decode_all-encode_all [] = refl
decode_all-encode_all (b ∷ bs) =
    rw (decode_bytes-encode_bytes b (encode_all bs)) (ap (λ ds. b ∷ ds) (decode_all-encode_all bs))

unfoldable pub marshal : Params → Bytes
unfolding encode_bytes encode_all count
marshal p =
    p.tree_depth
    ∷ p.reg_tree_depth
    ∷ count p.supported_denoms
    ∷ encode_bytes p.auditor_pub_key (encode_bytes p.chain_binding (encode_all p.supported_denoms))

unfoldable pub unmarshal : Bytes → Option Params
unfolding decode_bytes decode_all
unmarshal [] = none
unmarshal (d ∷ []) = none
unmarshal (d ∷ r ∷ []) = none
unmarshal (d ∷ r ∷ n ∷ bytes) =
    let (auditor, rest) = decode_bytes bytes in
    let (binding, denoms) = decode_bytes rest in
    some (record {
      tree_depth = d;
      reg_tree_depth = r;
      auditor_pub_key = auditor;
      supported_denoms = decode_all n denoms;
      chain_binding = binding;
    })

pub unmarshal-marshal : (p : Params) → unmarshal (marshal p) ≡ some p
unfolding unmarshal marshal
unmarshal-marshal p =
    rw
      (decode_bytes-encode_bytes p.auditor_pub_key
        (encode_bytes p.chain_binding (encode_all p.supported_denoms)))
      (rw (decode_bytes-encode_bytes p.chain_binding (encode_all p.supported_denoms))
        (rw (decode_all-encode_all p.supported_denoms) refl))
