-- ===== src/Crypto/Hex/Digits.antt =====
-- Hex digits read back as the bytes that they were printed from.
use native.Mathlib.Nat.{div-add-mod'}
use cosmos_nixpool.Prelude.{
  ℕ, ◌+◌, ◌-◌, ◌*◌, ◌/◌, ◌%◌, ◌<◌, ◌≡◌, refl, ap, subst, ◌==◌, not, false, ◌⊎◌, inl, inr, [], ◌∷◌,
  Bytes, length, All, arith,
}
use cosmos_nixpool.Field.Encoding.{IsBytes}
use cosmos_nixpool.Types.Errors.{ok, fail_if, bad_hex, bind-eq-ok, last-eq-ok}
use cosmos_nixpool.Strings.{HasNo}
use cosmos_nixpool.Strings.Trim.{IsPrintable}
use cosmos_nixpool.Crypto.Hex.{
  hex_digit, hex_of, sprintf_064x, hex_nibble, hex_byte, hex_bytes, trim_0x, pad_64, hex_to_bytes32,
}

hex_nibble-hex_digit : (n : ℕ) → n < 16 → hex_nibble (hex_digit n) ≡ ok n
unfolding hex_nibble
hex_nibble-hex_digit n h = ground arith

hex_byte-hex_digit : (b : ℕ) → b < 256 → hex_byte (hex_digit (b / 16)) (hex_digit (b % 16)) ≡ ok b
unfolding hex_byte
hex_byte-hex_digit b h =
    rw (hex_nibble-hex_digit (b / 16) (omega arith), hex_nibble-hex_digit (b % 16) (omega arith))
      (ap (λ (n : ℕ). ok n) (div-add-mod' b 16))

pub hex_bytes-hex_of : (bs : Bytes) → IsBytes bs → hex_bytes (hex_of bs) ≡ ok bs
unfolding hex_bytes hex_of
hex_bytes-hex_of [] h = refl
hex_bytes-hex_of (b ∷ bs) (hb, h) = rw (hex_byte-hex_digit b hb, hex_bytes-hex_of bs h) refl

length-hex_of : (bs : Bytes) → length (hex_of bs) ≡ length bs * 2
unfolding hex_of
length-hex_of [] = refl
length-hex_of (b ∷ bs) = omega (arith, length-hex_of bs)

trim_0x-hex_of : (bs : Bytes) → IsBytes bs → trim_0x (hex_of bs) ≡ hex_of bs
unfolding hex_of
trim_0x-hex_of [] h = refl
trim_0x-hex_of (b ∷ bs) (hb, h) =
    let second : (hex_digit (b % 16) == 120) ≡ false = ground arith in ground (arith, second)

pub sprintf_064x-full : (bs : Bytes) → length bs ≡ 32 → sprintf_064x bs ≡ hex_of bs
unfolding sprintf_064x
sprintf_064x-full bs len =
    let none_missing : 64 - length (hex_of bs) ≡ 0 = omega (arith, length-hex_of bs) in
    rw none_missing refl

-- 32 bytes survive printing and reading.
pub hex_to_bytes32-sprintf_064x :
    (bs : Bytes) → IsBytes bs → length bs ≡ 32 → hex_to_bytes32 (sprintf_064x bs) ≡ ok bs
unfolding hex_to_bytes32
hex_to_bytes32-sprintf_064x bs h len =
    let none_missing : 64 - length (hex_of bs) ≡ 0 = omega (arith, length-hex_of bs) in
    let whole : length (hex_of bs) ≡ 64 = omega (arith, length-hex_of bs) in
    rw (sprintf_064x-full bs len, trim_0x-hex_of bs h, none_missing, whole) (hex_bytes-hex_of bs h)

-- What was read is bytes, half as many as the digits.
hex_nibble-lt : (c n : ℕ) → hex_nibble c ≡ ok n → n < 16
unfolding hex_nibble
hex_nibble-lt c n h = ground arith

hex_byte-lt : (hi lo b : ℕ) → hex_byte hi lo ≡ ok b → b < 256
unfolding hex_byte
hex_byte-lt hi lo b h =
    let (x, first, rest) = bind-eq-ok (hex_nibble hi) _ b h in
    let (y, second, last) = bind-eq-ok (hex_nibble lo) _ b rest in
    let value : x * 16 + y ≡ b = ground (arith, last) in
    omega (arith, hex_nibble-lt hi x first, hex_nibble-lt lo y second, value)

hex_bytes-IsBytes : (s bs : Bytes) → hex_bytes s ≡ ok bs → IsBytes bs × (length bs * 2 ≡ length s)
unfolding hex_bytes
hex_bytes-IsBytes [] bs h =
    let nothing : [] ≡ bs = cc in
    subst (λ (r : Bytes). IsBytes r × (length r * 2 ≡ 0)) nothing (tt, refl)
hex_bytes-IsBytes (hi ∷ []) bs h = cc
hex_bytes-IsBytes (hi ∷ lo ∷ rest) bs h =
    let (b, first, more) = bind-eq-ok (hex_byte hi lo) _ bs h in
    let (tail, second, last) = bind-eq-ok (hex_bytes rest) _ bs more in
    let (bytes, len) = hex_bytes-IsBytes rest tail second in
    let whole : b ∷ tail ≡ bs = cc in
    subst (λ (r : Bytes). IsBytes r × (length r * 2 ≡ length (hi ∷ lo ∷ rest))) whole
      ((hex_byte-lt hi lo b first, bytes), omega (arith, len))

-- What hexToBytes32 reads are 32 bytes.
pub hex_to_bytes32-IsBytes :
    (s bs : Bytes) → hex_to_bytes32 s ≡ ok bs → IsBytes bs × (length bs ≡ 32)
unfolding hex_to_bytes32
hex_to_bytes32-IsBytes s bs h =
    let digits = pad_64 (trim_0x s) in
    let (u, checked, read) = bind-eq-ok (fail_if (not (length digits == 64)) bad_hex) _ bs h in
    let (bytes, len) = hex_bytes-IsBytes digits bs read in
    let right : not (length digits == 64) ≡ false =
      last-eq-ok (not (length digits == 64)) bad_hex u checked in
    (bytes, ground (arith, len, right))

-- What a byte prints as: a digit or a letter.
abbrev pub IsDigit : ℕ → Type 0
IsDigit c = (47 < c) × (c < 103) × ((c == 58) ≡ false)

pub hex_of-IsDigit : (bs : Bytes) → IsBytes bs → All IsDigit (hex_of bs)
unfolding hex_of
hex_of-IsDigit [] h = tt
hex_of-IsDigit (b ∷ bs) (hb, h) = (
  (ground arith, ground arith, ground arith),
  ((ground arith, ground arith, ground arith), hex_of-IsDigit bs h),
)

pub IsDigit-HasNo : (sep : ℕ) (s : Bytes) → (sep < 48) ⊎ (sep ≡ 58) → All IsDigit s → HasNo sep s
IsDigit-HasNo sep [] low h = tt
IsDigit-HasNo sep (c ∷ cs) low ((above, below, other), h) =
    let rest = IsDigit-HasNo sep cs low h in
    elim low [ inl l ↦ (ground arith, rest) | inr e ↦ (rw e other, rest) ]

pub IsDigit-IsPrintable : (s : Bytes) → All IsDigit s → All IsPrintable s
IsDigit-IsPrintable [] h = tt
IsDigit-IsPrintable (c ∷ cs) ((above, below, other), h) =
    ((omega (arith, above), omega (arith, below)), IsDigit-IsPrintable cs h)
