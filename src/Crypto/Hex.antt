-- ===== src/Crypto/Hex.antt =====
-- The hex digits of crypto/nixaddress.go, and `fmt.Sprintf("%064x", b)`.
pub mod Digits
use cosmos_nixpool.Prelude.{
  ℕ, zero, suc, ◌+◌, ◌-◌, ◌*◌, ◌/◌, ◌%◌, ◌==◌, ◌&&◌, not, leb, ltb, List, [], ◌∷◌, Bytes, codes,
  ◌++◌, length, replicate, if◌then◌else◌, Option, some, none,
}
use cosmos_nixpool.Types.Errors.{Result, ok, err, ◌>>=◌, ◌>>◌, fail_if, bad_hex}

-- A nibble in lower case, and two for a byte.
abbrev pub hex_digit : ℕ → ℕ
hex_digit n = if ltb n 10 then 48 + n else 87 + n

unfoldable pub hex_of : Bytes → Bytes
hex_of [] = []
hex_of (b ∷ bs) = hex_digit (b / 16) ∷ hex_digit (b % 16) ∷ hex_of bs

-- `%064x`: padded with zeros to 64 digits
unfoldable pub sprintf_064x : Bytes → Bytes
sprintf_064x b = replicate (64 - length (hex_of b)) 48 ++ hex_of b

-- hexNibble
unfoldable pub hex_nibble : ℕ → Result ℕ
hex_nibble c =
    if leb 48 c && leb c 57
    then ok (c - 48)
    else if leb 97 c && leb c 102
    then ok (c - 97 + 10)
    else if leb 65 c && leb c 70
    then ok (c - 65 + 10)
    else err bad_hex

-- hexByte; `h<<4 | l` of two nibbles
unfoldable pub hex_byte : ℕ → ℕ → Result ℕ
hex_byte hi lo = do h ← hex_nibble hi; l ← hex_nibble lo; ok (h * 16 + l)

-- the loop of hexToBytes32, over the pairs of digits
unfoldable pub hex_bytes : Bytes → Result Bytes
hex_bytes [] = ok []
hex_bytes (hi ∷ []) = err bad_hex
hex_bytes (hi ∷ lo ∷ rest) = do b ← hex_byte hi lo; bs ← hex_bytes rest; ok (b ∷ bs)

-- `strings.TrimPrefix(s, "0x")`
abbrev pub trim_0x : Bytes → Bytes
trim_0x [] = []
trim_0x (a ∷ []) = a ∷ []
trim_0x (a ∷ b ∷ rest) = if a == 48 && b == 120 then rest else a ∷ b ∷ rest

-- the loop that pads with zeros in front
abbrev pub pad_64 : Bytes → Bytes
pad_64 s = replicate (64 - length s) 48 ++ s

-- hexToBytes32
unfoldable pub hex_to_bytes32 : Bytes → Result Bytes
hex_to_bytes32 s = do
  fail_if (not (length (pad_64 (trim_0x s)) == 64)) bad_hex
  hex_bytes (pad_64 (trim_0x s))
