-- ===== src/Keeper/Verify/Parse.antt =====
-- ParsePublicInputs: every list of field elements has exactly one accepted wire form.
use cosmos_nixpool.Prelude.{
  ℕ, zero, suc, ◌*◌, ◌/◌, ◌%◌, ◌<◌, ◌≡◌, ◌↔◌, refl, ap, ap₂, ◌∙◌, subst, Bool, true, false, List,
  [], ◌∷◌, ◌++◌, Bytes, All, length, length-append, length-take, length-drop, take, drop,
  take-append-drop, arith, if◌then◌else◌, ◌==◌, lt→ltb,
}
use cosmos_nixpool.External.{External, IsLawful}
use cosmos_nixpool.Types.Errors.{Result, ok, err, ◌>>=◌, invalid_public_inputs}
use cosmos_nixpool.Field.{set_bytes, to_bytes, is_canonical, canonical_field_bytes}
use cosmos_nixpool.Field.Encoding.{IsBytes, take-IsBytes, drop-IsBytes}
use cosmos_nixpool.Field.Canonical.{
  set_bytes-lt, set_bytes-to_bytes, be_value-to_bytes, canonical_field_bytes-of_canonical,
  length-to_bytes,
}
use cosmos_nixpool.Keeper.Verify.{parse_chunks, parse_public_inputs}

-- The wire form: 32 bytes for each element.
unfoldable pub encode_inputs : List ℕ → Bytes
encode_inputs [] = []
encode_inputs (x ∷ xs) = to_bytes x ++ encode_inputs xs

length-eq-zero : (bs : Bytes) → length bs ≡ 0 → [] ≡ bs
length-eq-zero [] h = refl
length-eq-zero (b ∷ bs) h = elim (nothing_below (length bs) h) [ ]
  where
    nothing_below : (n : ℕ) → suc n ≡ 0 → n < 0
    nothing_below n e = omega arith

ok_injective : (xs ys : List ℕ) → ok xs ≡ ok ys → xs ≡ ys
ok_injective xs ys h = cc

test-eq-ok :
    (b : Bool) (r : Result (List ℕ)) (xs : List ℕ)
    → (if b then r else err invalid_public_inputs) ≡ ok xs
    → (b ≡ true) × (r ≡ ok xs)
test-eq-ok true r xs h = (refl, h)
test-eq-ok false r xs h = cc

take-append : (xs ys : Bytes) → take (length xs) (xs ++ ys) ≡ xs
take-append [] ys = refl
take-append (x ∷ xs) ys = ap (λ r. x ∷ r) (take-append xs ys)

drop-append : (xs ys : Bytes) → drop (length xs) (xs ++ ys) ≡ ys
drop-append [] ys = refl
drop-append (x ∷ xs) ys = drop-append xs ys

-- One round that succeeds.
chunk-eq-ok :
    (canonical : Bool) (rest : Result (List ℕ)) (x : ℕ) (inputs : List ℕ)
    → (if canonical then (rest >>= λ xs. ok (x ∷ xs)) else err invalid_public_inputs) ≡ ok inputs
    → (canonical ≡ true) × (xs : List ℕ) × (rest ≡ ok xs) × (x ∷ xs ≡ inputs)
chunk-eq-ok false rest x inputs h = cc
chunk-eq-ok true (ok xs) x inputs h = (refl, xs, refl, cc)
chunk-eq-ok true (err e) x inputs h = cc

module _ (ext : External) (law : IsLawful ext) where
  parse_chunks-encode :
      (n : ℕ) (bytes : Bytes) (inputs : List ℕ)
      → length bytes ≡ n * 32
      → IsBytes bytes
      → parse_chunks ext n bytes ≡ ok inputs
      → (encode_inputs inputs ≡ bytes) × All (λ x. x < ext.modulus) inputs
  unfolding parse_chunks encode_inputs canonical_field_bytes
  parse_chunks-encode zero bytes inputs len are h =
      subst (λ (xs : List ℕ). (encode_inputs xs ≡ bytes) × All (λ x. x < ext.modulus) xs)
        (ok_injective [] inputs h) (length-eq-zero bytes (omega (arith, len)), tt)
  parse_chunks-encode (suc n) bytes inputs len are h =
      let front = take 32 bytes in
      let (canonical, xs, rest, same) =
        chunk-eq-ok (is_canonical ext front) (parse_chunks ext n (drop 32 bytes))
          (set_bytes ext front) inputs h in
      let (encoded, below) =
        parse_chunks-encode n (drop 32 bytes) xs (omega (arith, len, length-drop 32 bytes))
          (drop-IsBytes 32 bytes are) rest in
      subst (λ (zs : List ℕ). (encode_inputs zs ≡ bytes) × All (λ x. x < ext.modulus) zs) same
        (
          ap₂ (λ (a b : Bytes). a ++ b)
                (canonical_field_bytes-of_canonical ext law front (take-IsBytes 32 bytes are)
                  (omega (arith, len, length-take 32 bytes)) canonical)
                encoded
              ∙ take-append-drop 32 bytes,
          (set_bytes-lt ext law front, below),
        )

  length-encode_inputs : (inputs : List ℕ) → length (encode_inputs inputs) ≡ length inputs * 32
  unfolding encode_inputs
  length-encode_inputs [] = refl
  length-encode_inputs (x ∷ xs) = omega (
    arith,
    length-append (to_bytes x) (encode_inputs xs),
    length-to_bytes x,
    length-encode_inputs xs,
  )

  take-encode : (x : ℕ) (rest : Bytes) → take 32 (to_bytes x ++ rest) ≡ to_bytes x
  take-encode x rest =
      subst (λ k. take k (to_bytes x ++ rest) ≡ to_bytes x) (length-to_bytes x)
        (take-append (to_bytes x) rest)

  drop-encode : (x : ℕ) (rest : Bytes) → drop 32 (to_bytes x ++ rest) ≡ rest
  drop-encode x rest =
      subst (λ k. drop k (to_bytes x ++ rest) ≡ rest) (length-to_bytes x)
        (drop-append (to_bytes x) rest)

  is_canonical-to_bytes : (x : ℕ) → x < ext.modulus → is_canonical ext (to_bytes x) ≡ true
  unfolding is_canonical
  is_canonical-to_bytes x hx = rw (be_value-to_bytes ext law x hx) (lt→ltb x ext.modulus hx)

  parse_chunk :
      (n x : ℕ) (rest : Bytes) (xs : List ℕ)
      → x < ext.modulus
      → parse_chunks ext n rest ≡ ok xs
      → parse_chunks ext (suc n) (to_bytes x ++ rest) ≡ ok (x ∷ xs)
  unfolding parse_chunks
  parse_chunk n x rest xs hx h =
      rw
        (
          take-encode x rest,
          drop-encode x rest,
          h,
          is_canonical-to_bytes x hx,
          set_bytes-to_bytes ext law x hx,
        )
        refl

  encode-parse_chunks :
      (inputs : List ℕ)
      → All (λ x. x < ext.modulus) inputs
      → parse_chunks ext (length inputs) (encode_inputs inputs) ≡ ok inputs
  unfolding parse_chunks encode_inputs
  encode-parse_chunks [] h = refl
  encode-parse_chunks (x ∷ xs) (hx, h) =
      parse_chunk (length xs) x (encode_inputs xs) xs hx (encode-parse_chunks xs h)

  encode-parse :
      (inputs : List ℕ)
      → All (λ x. x < ext.modulus) inputs
      → parse_public_inputs ext (encode_inputs inputs) ≡ ok inputs
  unfolding parse_public_inputs
  encode-parse inputs below =
      let count : length (encode_inputs inputs) / 32 ≡ length inputs =
        omega (arith, length-encode_inputs inputs) in
      let whole : length (encode_inputs inputs) % 32 ≡ 0 =
        omega (arith, length-encode_inputs inputs) in
      rw (whole, count) (encode-parse_chunks inputs below)

  -- A byte string is accepted as a list of field elements exactly when it is the list's canonical
  -- encoding, 32 big-endian bytes for each element, and the elements are below the modulus.
  pub parse_public_inputs_iff :
      (bytes : Bytes) (inputs : List ℕ)
      → IsBytes bytes
      → (parse_public_inputs ext bytes ≡ ok inputs)
        ↔ ((encode_inputs inputs ≡ bytes) × All (λ x. x < ext.modulus) inputs)
  unfolding parse_public_inputs
  parse_public_inputs_iff bytes inputs are = (
    λ h.
        let (whole, parsed) =
          test-eq-ok (length bytes % 32 == 0) (parse_chunks ext (length bytes / 32) bytes) inputs
            h in
        parse_chunks-encode (length bytes / 32) bytes inputs (ground (arith, whole)) are parsed,
    λ h.
        subst (λ (bs : Bytes). parse_public_inputs ext bs ≡ ok inputs) h.0
          (encode-parse inputs h.1),
  )
