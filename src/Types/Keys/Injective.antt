-- ===== src/Types/Keys/Injective.antt =====
-- Different keys have different bytes: a decoder of the key bytes, which the program does not need,
-- gives every key with machine-width arguments back.
use cosmos_nixpool.Prelude.{
  ◌^◌, ◌<◌, ◌≡◌, refl, sym, ap, ap₂, ◌∙◌, Option, some, none, [], ◌∷◌, Bytes, codes, drop, ◌==◌,
  if◌then◌else◌,
}
use cosmos_nixpool.Field.{be_value, put_uint64, uint64_of}
use cosmos_nixpool.Field.Encoding.{uint64_of-put_uint64_lt, uint32_of-put_uint32_lt}
use cosmos_nixpool.Types.Keys.{Key, key_bytes}

-- The rest of a byte string behind a prefix.
strip : Bytes → Bytes → Option Bytes
strip [] bs = some bs
strip (p ∷ ps) [] = none
strip (p ∷ ps) (b ∷ bs) = if p == b then strip ps bs else none

-- The machine width of the arguments.
abbrev pub InRange : Key → Type 0
InRange (Key.commitment t i) = (t < 2 ^ 64) × (i < 2 ^ 64)
InRange (Key.frontier t l) = (t < 2 ^ 64) × (l < 2 ^ 32)
InRange (Key.root_history t i) = (t < 2 ^ 64) × (i < 2 ^ 64)
InRange (Key.tree_root t) = t < 2 ^ 64
InRange (Key.root_index b) = Unit
InRange (Key.tree_next_index t) = t < 2 ^ 64
InRange Key.active_tree_id = Unit
InRange Key.tree_count = Unit
InRange (Key.reg_commitment t) = t < 2 ^ 64
InRange (Key.reg_frontier l) = l < 2 ^ 32
InRange Key.reg_root = Unit
InRange Key.reg_next_index = Unit
InRange (Key.commitment_used b) = Unit
InRange (Key.reg_commitment_used b) = Unit
InRange (Key.nullifier b) = Unit
InRange Key.params = Unit
InRange (Key.vk b) = Unit
InRange (Key.auditor_data b) = Unit

or_else : Option Key → Option Key → Option Key
or_else (some k) o = some k
or_else none o = o

on_rest : (Bytes → Key) → Option Bytes → Option Key
on_rest f none = none
on_rest f (some r) = some (f r)

-- The key that a byte string is the encoding of.
decode_key : Bytes → Option Key
unfolding strip or_else on_rest uint64_of be_value
decode_key bs =
    or_else
      (on_rest (λ r. Key.commitment (uint64_of r) (uint64_of (drop 8 r)))
        (strip (codes "nixpool/c/") bs))
      (or_else
        (on_rest (λ r. Key.frontier (uint64_of r) (be_value (drop 8 r)))
          (strip (codes "nixpool/f/") bs))
        (or_else
          (on_rest (λ r. Key.root_history (uint64_of r) (uint64_of (drop 8 r)))
            (strip (codes "nixpool/rh/") bs))
          (or_else (on_rest (λ r. Key.tree_root (uint64_of r)) (strip (codes "nixpool/tr/") bs)) (
            or_else (on_rest (λ r. Key.root_index r) (strip (codes "nixpool/ri/") bs)) (
              or_else
                (on_rest (λ r. Key.tree_next_index (uint64_of r)) (strip (codes "nixpool/ti/") bs))
                (or_else (on_rest (λ _. Key.active_tree_id) (strip (codes "nixpool/atid") bs)) (
                  or_else (on_rest (λ _. Key.tree_count) (strip (codes "nixpool/tc") bs)) (
                    or_else
                      (on_rest (λ r. Key.reg_commitment (uint64_of r))
                        (strip (codes "nixpool/reg/c/") bs))
                      (or_else
                        (on_rest (λ r. Key.reg_frontier (be_value r))
                          (strip (codes "nixpool/reg/f/") bs))
                        (or_else (on_rest (λ _. Key.reg_root) (strip (codes "nixpool/reg/root") bs))
                          (or_else
                            (on_rest (λ _. Key.reg_next_index) (strip (codes "nixpool/reg/ni") bs))
                            (or_else
                              (on_rest (λ r. Key.commitment_used r)
                                (strip (codes "nixpool/used/") bs))
                              (or_else
                                (on_rest (λ r. Key.reg_commitment_used r)
                                  (strip (codes "nixpool/reg/used/") bs))
                                (or_else
                                  (on_rest (λ r. Key.nullifier r) (strip (codes "nixpool/n/") bs))
                                  (or_else
                                    (on_rest (λ _. Key.params) (strip (codes "nixpool/params") bs))
                                    (or_else
                                      (on_rest (λ r. Key.vk r) (strip (codes "nixpool/vk/") bs))
                                      (or_else
                                        (on_rest (λ r. Key.auditor_data r)
                                          (strip (codes "nixpool/ad/") bs))
                                        (none))))))))))))))))))

decode_key-key_bytes : (k : Key) → InRange k → decode_key (key_bytes k) ≡ some k
unfolding decode_key key_bytes put_uint64
decode_key-key_bytes (Key.commitment t i) (ht, hi) =
    ap₂ (λ a b. some (Key.commitment a b)) (uint64_of-put_uint64_lt t ht)
      (uint64_of-put_uint64_lt i hi)
decode_key-key_bytes (Key.frontier t l) (ht, hl) =
    ap₂ (λ a b. some (Key.frontier a b)) (uint64_of-put_uint64_lt t ht)
      (uint32_of-put_uint32_lt l hl)
decode_key-key_bytes (Key.root_history t i) (ht, hi) =
    ap₂ (λ a b. some (Key.root_history a b)) (uint64_of-put_uint64_lt t ht)
      (uint64_of-put_uint64_lt i hi)
decode_key-key_bytes (Key.tree_root t) h =
    ap (λ a. some (Key.tree_root a)) (uint64_of-put_uint64_lt t h)
decode_key-key_bytes (Key.root_index b) h = refl
decode_key-key_bytes (Key.tree_next_index t) h =
    ap (λ a. some (Key.tree_next_index a)) (uint64_of-put_uint64_lt t h)
decode_key-key_bytes Key.active_tree_id h = refl
decode_key-key_bytes Key.tree_count h = refl
decode_key-key_bytes (Key.reg_commitment t) h =
    ap (λ a. some (Key.reg_commitment a)) (uint64_of-put_uint64_lt t h)
decode_key-key_bytes (Key.reg_frontier l) h =
    ap (λ a. some (Key.reg_frontier a)) (uint32_of-put_uint32_lt l h)
decode_key-key_bytes Key.reg_root h = refl
decode_key-key_bytes Key.reg_next_index h = refl
decode_key-key_bytes (Key.commitment_used b) h = refl
decode_key-key_bytes (Key.reg_commitment_used b) h = refl
decode_key-key_bytes (Key.nullifier b) h = refl
decode_key-key_bytes Key.params h = refl
decode_key-key_bytes (Key.vk b) h = refl
decode_key-key_bytes (Key.auditor_data b) h = refl

-- Two keys whose arguments fit their machine widths and whose byte strings are the same are the
-- same key: no two entries of the store, of one family or of different families, share a slot.
pub key_bytes_injective : (a b : Key) → InRange a → InRange b → key_bytes a ≡ key_bytes b → a ≡ b
key_bytes_injective a b ha hb same =
    cc (sym (decode_key-key_bytes a ha) ∙ ap decode_key same ∙ decode_key-key_bytes b hb)
