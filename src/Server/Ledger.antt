-- ===== src/Server/Ledger.antt =====
-- The abstract view of the module's spending: a ledger that says which field elements are spent. Each
-- step of the chain is a step of the ledger, so what the store holds beside it, and the encodings of
-- the nullifiers, do not matter to it.
pub mod Refines
use cosmos_nixpool.Prelude.{ℕ, ◌<◌, ◌≡◌, Bool, true, false, ◌||◌, ◌==◌, List, [], ◌∷◌, ◌++◌}

abbrev pub Ledger : Type 0
Ledger = ℕ → Bool

abbrev pub member : ℕ → List ℕ → Bool
member e [] = false
member e (x ∷ xs) = x == e || member e xs

-- None of the elements is spent, and none is listed twice.
abbrev pub IsFresh : Ledger → List ℕ → Type 0
IsFresh ledger [] = Unit
IsFresh ledger (x ∷ xs) = (ledger x ≡ false) × (member x xs ≡ false) × IsFresh ledger xs

-- A step of the ledger of a field with `m` elements: fresh elements become spent, and no others.
pub record LedgerStep (m : ℕ) (elements : List ℕ) (earlier later : Ledger) : Type 0 where
  pub fresh : IsFresh earlier elements
  pub becomes : (e : ℕ) → e < m → later e ≡ (member e elements || earlier e)

-- Steps in a row, and the elements that they spend, the last step's first.
pub data LedgerRun (m : ℕ) (first : Ledger) : List ℕ → Ledger → Type 0 where
  done : LedgerRun m first [] first
  more :
      {spent elements : List ℕ} {l l' : Ledger}
      → LedgerRun m first spent l
      → LedgerStep m elements l l'
      → LedgerRun m first (elements ++ spent) l'
