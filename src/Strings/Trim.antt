-- ===== src/Strings/Trim.antt =====
-- TrimSpace leaves a string of printable ASCII characters as it is.
use cosmos_nixpool.Prelude.{
  ℕ, ◌<◌, ◌≡◌, refl, Bool, true, false, ◌&&◌, ◌||◌, leb, List, [], ◌∷◌, Bytes, ◌++◌, All, arith,
  ◌==◌,
}
use cosmos_nixpool.Strings.{spaces, reverse, reverse_each, leading, trim_left, trim_space}

abbrev pub IsPrintable : ℕ → Type 0
IsPrintable c = (32 < c) × (c < 127)

-- Whether no encoding begins with a printable character.
abbrev no_printable : List Bytes → Bool
no_printable [] = true
no_printable ([] ∷ es) = false
no_printable ((b ∷ bs) ∷ es) = (leb b 32 || leb 127 b) && no_printable es

leading-zero :
    (table : List Bytes) (c : ℕ) (cs : Bytes)
    → no_printable table ≡ true
    → IsPrintable c
    → leading table (c ∷ cs) ≡ 0
unfolding leading
leading-zero [] c cs h p = refl
leading-zero ([] ∷ es) c cs h p = cc
leading-zero ((b ∷ bs) ∷ es) c cs h p =
    let differs : (c == b) ≡ false = ground arith in
    let others : no_printable es ≡ true = ground arith in
    rw (differs, leading-zero es c cs others p) refl

trim_left-printable :
    (table : List Bytes) (s : Bytes)
    → no_printable table ≡ true
    → All IsPrintable s
    → trim_left table 0 s ≡ s
unfolding trim_left
trim_left-printable table [] h p = refl
trim_left-printable table (c ∷ cs) h (pc, p) = rw (trim_left, leading-zero table c cs h pc) refl

append-All : (P : ℕ → Type 0) (a b : Bytes) → All P a → All P b → All P (a ++ b)
append-All P [] b ha hb = hb
append-All P (x ∷ xs) b (hx, ha) hb = (hx, append-All P xs b ha hb)

reverse-All : (P : ℕ → Type 0) (s : Bytes) → All P s → All P (reverse s)
reverse-All P [] h = tt
reverse-All P (c ∷ cs) (hc, h) = append-All P (reverse cs) (c ∷ []) (reverse-All P cs h) (hc, tt)

reverse-append : (a : Bytes) (c : ℕ) → reverse (a ++ (c ∷ [])) ≡ c ∷ reverse a
reverse-append [] c = refl
reverse-append (x ∷ xs) c = rw (reverse-append xs c) refl

reverse-reverse : (s : Bytes) → reverse (reverse s) ≡ s
reverse-reverse [] = refl
reverse-reverse (c ∷ cs) = rw (reverse-append (reverse cs) c, reverse-reverse cs) refl

pub trim_space-printable : (s : Bytes) → All IsPrintable s → trim_space s ≡ s
unfolding trim_space
trim_space-printable s p =
    rw
      (
        trim_left-printable spaces s refl p,
        trim_left-printable (reverse_each spaces) (reverse s) refl (reverse-All IsPrintable s p),
      )
      (reverse-reverse s)
