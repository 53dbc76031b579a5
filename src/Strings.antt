-- ===== src/Strings.antt =====
-- The functions of Go's package strings that the clients use, on the bytes of a string.
pub mod Trim
use cosmos_nixpool.Prelude.{
  ℕ, zero, suc, ◌≡◌, refl, ◌==◌, true, false, List, [], ◌∷◌, Bytes, ◌++◌, length, take, All,
  bytes_equal, if◌then◌else◌,
}

abbrev cons_first : ℕ → List Bytes → List Bytes
cons_first c [] = (c ∷ []) ∷ []
cons_first c (part ∷ parts) = (c ∷ part) ∷ parts

-- `strings.Split(s, sep)`, of a separator of one byte
unfoldable pub split : ℕ → Bytes → List Bytes
split sep [] = [] ∷ []
split sep (c ∷ cs) = let rest = split sep cs in if c == sep then [] ∷ rest else cons_first c rest

-- The bytes of a string without the separator.
abbrev pub HasNo : ℕ → Bytes → Type 0
HasNo sep = All (λ c. (c == sep) ≡ false)

-- Splitting takes off a part up to the first separator.
pub split-append :
    (sep : ℕ) (a b : Bytes)
    → (sep == sep) ≡ true
    → HasNo sep a
    → split sep (a ++ (sep ∷ b)) ≡ a ∷ split sep b
unfolding split
split-append sep [] b self h = rw self refl
split-append sep (c ∷ cs) b self (hc, h) = rw (split-append sep cs b self h, hc) refl

pub split-last : (sep : ℕ) (a : Bytes) → HasNo sep a → split sep a ≡ a ∷ []
unfolding split
split-last sep [] h = refl
split-last sep (c ∷ cs) (hc, h) = rw (split-last sep cs h, hc) refl

-- The UTF-8 encodings of what `unicode.IsSpace` takes for white space.
abbrev pub spaces : List Bytes
spaces =
    (9 ∷ [])
    ∷ (10 ∷ [])
    ∷ (11 ∷ [])
    ∷ (12 ∷ [])
    ∷ (13 ∷ [])
    ∷ (32 ∷ [])
    ∷ (194 ∷ 133 ∷ [])
    ∷ (194 ∷ 160 ∷ [])
    ∷ (225 ∷ 154 ∷ 128 ∷ [])
    ∷ (226 ∷ 128 ∷ 128 ∷ [])
    ∷ (226 ∷ 128 ∷ 129 ∷ [])
    ∷ (226 ∷ 128 ∷ 130 ∷ [])
    ∷ (226 ∷ 128 ∷ 131 ∷ [])
    ∷ (226 ∷ 128 ∷ 132 ∷ [])
    ∷ (226 ∷ 128 ∷ 133 ∷ [])
    ∷ (226 ∷ 128 ∷ 134 ∷ [])
    ∷ (226 ∷ 128 ∷ 135 ∷ [])
    ∷ (226 ∷ 128 ∷ 136 ∷ [])
    ∷ (226 ∷ 128 ∷ 137 ∷ [])
    ∷ (226 ∷ 128 ∷ 138 ∷ [])
    ∷ (226 ∷ 128 ∷ 168 ∷ [])
    ∷ (226 ∷ 128 ∷ 169 ∷ [])
    ∷ (226 ∷ 128 ∷ 175 ∷ [])
    ∷ (226 ∷ 129 ∷ 159 ∷ [])
    ∷ (227 ∷ 128 ∷ 128 ∷ [])
    ∷ []

abbrev pub reverse : Bytes → Bytes
reverse [] = []
reverse (c ∷ cs) = reverse cs ++ (c ∷ [])

abbrev pub reverse_each : List Bytes → List Bytes
reverse_each [] = []
reverse_each (e ∷ es) = reverse e ∷ reverse_each es

-- The length of the first of the encodings that the string begins with, 0 where it begins with none.
unfoldable pub leading : List Bytes → Bytes → ℕ
leading [] s = 0
leading (e ∷ es) s =
    let rest = leading es s in if bytes_equal (take (length e) s) e then length e else rest

-- What is left past `skip` bytes and the encodings that follow them.
unfoldable pub trim_left : List Bytes → ℕ → Bytes → Bytes
unfolding leading
trim_left table skip [] = []
trim_left table (suc skip) (c ∷ cs) = trim_left table skip cs
trim_left table zero (c ∷ cs) = elim (leading table (c ∷ cs)) [
  | zero ↦ c ∷ cs
  | suc more ↦ trim_left table more cs
]

-- `strings.TrimSpace(s)`
unfoldable pub trim_space : Bytes → Bytes
unfolding trim_left
trim_space s =
    let left = trim_left spaces 0 s in reverse (trim_left (reverse_each spaces) 0 (reverse left))
