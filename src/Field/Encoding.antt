-- ===== src/Field/Encoding.antt =====
-- Round trips of the big-endian encodings.
use native.Mathlib.Nat.{
  div-add-mod', mul-add-div_right, div-eq_of_lt, mod-lt, one-le-pow, pow-suc, mod-eq_of_lt,
  add-mul-mod_self_right, mul-le-mul_right,
}
use cosmos_nixpool.Prelude.{
  ℕ, zero, suc, ◌+◌, ◌*◌, ◌/◌, ◌%◌, ◌^◌, ◌≤◌, ◌<◌, ◌≡◌, refl, sym, ap, ap₂, ◌∙◌, [], ◌∷◌, arith,
  Bytes, length, take, drop, All,
}
use cosmos_nixpool.Field.{be_value, be_bytes, put_uint64, put_uint32, uint64_of}

-- Every entry is a byte.
abbrev pub IsBytes : Bytes → Type 0
IsBytes = All (λ b. b < 256)

pub take-IsBytes : (n : ℕ) (bs : Bytes) → IsBytes bs → IsBytes (take n bs)
take-IsBytes zero bs h = tt
take-IsBytes (suc n) [] h = tt
take-IsBytes (suc n) (b ∷ bs) (hb, h) = (hb, take-IsBytes n bs h)

pub drop-IsBytes : (n : ℕ) (bs : Bytes) → IsBytes bs → IsBytes (drop n bs)
drop-IsBytes zero bs h = h
drop-IsBytes (suc n) [] h = tt
drop-IsBytes (suc n) (b ∷ bs) (hb, h) = drop-IsBytes n bs h

pow-pos : (w : ℕ) → 0 < 256 ^ w
pow-pos w = one-le-pow w 256 (omega arith)

pub length-be_bytes : (w n : ℕ) → length (be_bytes w n) ≡ w
unfolding be_bytes
length-be_bytes zero n = refl
length-be_bytes (suc w) n = ap suc (length-be_bytes w n)

pub be_bytes-IsBytes : (w n : ℕ) → IsBytes (be_bytes w n)
unfolding be_bytes
be_bytes-IsBytes zero n = tt
be_bytes-IsBytes (suc w) n = (omega arith, be_bytes-IsBytes w n)

-- A byte string of length `w` is below 256 ^ w.
pub be_value-lt : (bs : Bytes) → IsBytes bs → be_value bs < 256 ^ length bs
unfolding be_value
be_value-lt [] h = omega arith
be_value-lt (b ∷ bs) (hb, h) =
    let ih = be_value-lt bs h in
    let bound = mul-le-mul_right (256 ^ length bs) hb in
    rw (pow-suc 256 (length bs)) (grind (arith, ih, bound))

regroup : (n k : ℕ) → n / k % 256 * k + n % k + n / k / 256 * (k * 256) ≡ n
regroup n k =
    let q = n / k in
    let top = ap (λ (t : ℕ). t * k) (div-add-mod' q 256) in grind (arith, top, div-add-mod' n k)

-- With n = (q / 256) * (k * 256) + r, the remainder r is the digit over the rest.
digit_split : (n k : ℕ) → 0 < k → (n / k % 256) * k + n % k ≡ n % (k * 256)
digit_split n k h =
    let q = n / k in
    let r = (q % 256) * k + n % k in
    let low : n % k < k = mod-lt n h in
    let digit : q % 256 ≤ 255 = omega arith in
    let fits : r < k * 256 = grind (arith, low, mul-le-mul_right k digit) in
    let whole : r + (q / 256) * (k * 256) ≡ n = regroup n k in
    let folded : (r + (q / 256) * (k * 256)) % (k * 256) ≡ r % (k * 256) =
      add-mul-mod_self_right r (q / 256) (k * 256) in
    sym (mod-eq_of_lt fits) ∙ sym folded ∙ ap (λ m. m % (k * 256)) whole

-- Reading back what was written gives the number modulo 256 ^ w.
pub be_value-be_bytes : (w n : ℕ) → be_value (be_bytes w n) ≡ n % 256 ^ w
unfolding be_value be_bytes
be_value-be_bytes zero n = omega arith
be_value-be_bytes (suc w) n =
    rw (length-be_bytes w n, be_value-be_bytes w n, pow-suc 256 w)
      (digit_split n (256 ^ w) (pow-pos w))

-- The bytes of a number depend on it only modulo 256 ^ w.
be_bytes-add_mul : (w x v : ℕ) → be_bytes w (x * 256 ^ w + v) ≡ be_bytes w v
unfolding be_bytes
be_bytes-add_mul zero x v = refl
be_bytes-add_mul (suc w) x v =
    let k = 256 ^ w in
    let shape : x * 256 ^ suc w + v ≡ (x * 256) * k + v = rw (pow-suc 256 w) (grind arith) in
    let digit : ((x * 256) * k + v) / k % 256 ≡ v / k % 256 =
      rw (mul-add-div_right (pow-pos w) (x * 256) v) (omega arith) in
    rw (shape, digit, be_bytes-add_mul w (x * 256) v)

-- Writing what was read gives the byte string back.
pub be_bytes-be_value : (bs : Bytes) → IsBytes bs → be_bytes (length bs) (be_value bs) ≡ bs
unfolding be_value be_bytes
be_bytes-be_value [] h = refl
be_bytes-be_value (b ∷ bs) (hb, h) =
    let k = 256 ^ length bs in
    let v = be_value bs in
    let digit : (b * k + v) / k % 256 ≡ b =
      rw (mul-add-div_right (pow-pos (length bs)) b v, div-eq_of_lt (be_value-lt bs h))
        (omega arith) in
    rw (digit, be_bytes-add_mul (length bs) b v, be_bytes-be_value bs h)

-- Two byte strings of one length with the same value are the same.
pub be_value_injective :
    (xs ys : Bytes)
    → IsBytes xs
    → IsBytes ys
    → length xs ≡ length ys
    → be_value xs ≡ be_value ys
    → xs ≡ ys
be_value_injective xs ys hx hy len same =
    sym (be_bytes-be_value xs hx) ∙ ap₂ be_bytes len same ∙ be_bytes-be_value ys hy

take-be_bytes : (w n : ℕ) → take w (be_bytes w n) ≡ be_bytes w n
unfolding be_bytes
take-be_bytes zero n = refl
take-be_bytes (suc w) n = ap (λ r. (n / 256 ^ w % 256) ∷ r) (take-be_bytes w n)

-- `Uint64` after `PutUint64`.
pub uint64_of-put_uint64 : (n : ℕ) → uint64_of (put_uint64 n) ≡ n % 2 ^ 64
unfolding uint64_of put_uint64
uint64_of-put_uint64 n = ap be_value (take-be_bytes 8 n) ∙ be_value-be_bytes 8 n

pub uint64_of-put_uint64_lt : (n : ℕ) → n < 2 ^ 64 → uint64_of (put_uint64 n) ≡ n
uint64_of-put_uint64_lt n h = rw (uint64_of-put_uint64 n) (omega arith)

-- Four bytes read as a big-endian number, after `PutUint32`.
pub uint32_of-put_uint32_lt : (n : ℕ) → n < 2 ^ 32 → be_value (put_uint32 n) ≡ n
unfolding put_uint32
uint32_of-put_uint32_lt n h = be_value-be_bytes 4 n ∙ mod-eq_of_lt h
