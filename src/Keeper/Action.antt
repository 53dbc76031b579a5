-- ===== src/Keeper/Action.antt =====
-- A keeper method: it reads and writes a state, and returns a value or an error. What was written
-- before an error stays written (the transaction's rollback is the SDK's), so the state comes back
-- beside the error too.
pub mod Preserves
use cosmos_nixpool.Prelude.{◌≡◌, refl, ap, Bool, true, false}
use cosmos_nixpool.Types.Errors.{Error, Result, ok, err}

abbrev pub Action : Type 0 → Type 0 → Type 0
Action S A = S → Result A × S

module _ {S A : Type 0} where
  unfoldable pub pure : A → Action S A
  pure a s = (ok a, s)

  unfoldable pub lift : Result A → Action S A
  lift r s = (r, s)

  unfoldable pub gets : (S → A) → Action S A
  gets f s = (ok (f s), s)

  -- A read that can fail.
  unfoldable pub reads : (S → Result A) → Action S A
  reads f s = (f s, s)

  -- A write with a value.
  unfoldable pub update : (S → A × S) → Action S A
  update f s = let (a, s') = f s in (ok a, s')

module _ {S : Type 0} where
  unfoldable pub modify : (S → S) → Action S (Unit {0})
  modify f s = (ok tt, f s)

  -- `if c { return err }`
  unfoldable pub raise_if : Bool → Error → Action S (Unit {0})
  raise_if true e s = (err e, s)
  raise_if false e s = (ok tt, s)

module _ {S A B : Type 0} where
  abbrev continue : Result A → (A → Action S B) → Action S B
  continue (ok a) f s = f a s
  continue (err e) f s = (err e, s)

  infixl 5 ◌>>=◌ ◌>>◌
  -- Opening this opens the actions above too.
  unfoldable pub ◌>>=◌ : Action S A → (A → Action S B) → Action S B
  unfolding pure lift gets reads update modify raise_if
  ◌>>=◌ m f s = let (r, s') = m s in continue r f s'

  abbrev pub ◌>>◌ : Action S A → Action S B → Action S B
  m >> k = m >>= λ _. k

  continue-eq-ok :
      (r : Result A) (f : A → Action S B) {s s' : S} {b : B}
      → continue r f s ≡ (ok b, s')
      → (a : A) × (r ≡ ok a) × (f a s ≡ (ok b, s'))
  continue-eq-ok (ok a) f h = (a, refl, h)
  continue-eq-ok (err e) f h = cc

  -- A block that succeeds: its first action succeeds, and so does the rest from what it left.
  pub bind-eq-ok :
      (m : Action S A) (f : A → Action S B) {s s' : S} {b : B}
      → (m >>= f) s ≡ (ok b, s')
      → (a : A) × ((m s).0 ≡ ok a) × (f a (m s).1 ≡ (ok b, s'))
  unfolding ◌>>=◌
  bind-eq-ok m f h = continue-eq-ok (m _).0 f h

-- A block behind a guard succeeds only past it.
module _ {S A : Type 0} where
  pub guard-eq-ok :
      (b : Bool) (e : Error) (k : Action S A) (s s' : S) (a : A)
      → (raise_if b e >> k) s ≡ (ok a, s')
      → (b ≡ false) × (k s ≡ (ok a, s'))
  unfolding raise_if ◌>>=◌
  guard-eq-ok true e k s s' a h = cc
  guard-eq-ok false e k s s' a h = (refl, h)

module _ {S A : Type 0} where
  -- A block behind a computed result succeeds only with the result.
  pub lift-eq-ok :
      {B : Type 0} (r : Result B) (f : B → Action S A) (s s' : S) (a : A)
      → (lift r >>= f) s ≡ (ok a, s')
      → (b : B) × (r ≡ ok b) × (f b s ≡ (ok a, s'))
  unfolding lift ◌>>=◌
  lift-eq-ok (ok b) f s s' a h = (b, refl, h)
  lift-eq-ok (err e) f s s' a h = cc

pub raise_if-eq-ok :
    {S : Type 0} (b : Bool) (e : Error) (s s' : S) (u : Unit {0})
    → raise_if b e s ≡ (ok u, s')
    → (b ≡ false) × (s ≡ s')
unfolding raise_if
raise_if-eq-ok true e s s' u h = cc
raise_if-eq-ok false e s s' u h = (refl, ap (λ (x : Result (Unit {0}) × _). x.1) h)

module _ {S A B : Type 0} where
  -- The same, with the state in between.
  pub bind-run :
      (m : Action S A) (f : A → Action S B) (s s' : S) (b : B)
      → (m >>= f) s ≡ (ok b, s')
      → (a : A) × (t : S) × (m s ≡ (ok a, t)) × (f a t ≡ (ok b, s'))
  bind-run m f s s' b h =
      let (a, first, rest) = bind-eq-ok m f h in
      (a, (m s).1, ap (λ (r : Result A). (r, (m s).1)) first, rest)
