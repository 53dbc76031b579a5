-- ===== src/Keeper/Action/Preserves.antt =====
-- What an action leaves true of the state, by the way it is built.
use cosmos_nixpool.Prelude.{◌≡◌, refl, subst, Bool, true, false, if◌then◌else◌}
use cosmos_nixpool.Types.Errors.{Error, Result, ok, err}
use cosmos_nixpool.Keeper.Action.{Action, pure, lift, gets, reads, update, modify, raise_if, ◌>>=◌}

-- From a state with `P` the action goes to a state with `P`, its result an error or not.
pub record Preserves {S A : Type 0} (P : S → Type 0) (action : Action S A) : Type 0 where
  pub through : (s : S) → P s → P (action s).1

module _ {S : Type 0} {P : S → Type 0} where
  -- An action that never writes.
  unmoved : {A : Type 0} (action : Action S A) → ((s : S) → s ≡ (action s).1) → Preserves P action
  unmoved action still = record { through = λ s holds. subst P (still s) holds }

  -- The state behind a run.
  pub Preserves-after :
      {A : Type 0} (action : Action S A) (s s' : S) (r : Result A)
      → Preserves P action
      → action s ≡ (r, s')
      → P s
      → P s'
  Preserves-after action s s' r kept run holds =
      subst (λ (x : Result _ × S). P x.1) run (kept.through s holds)

  -- Reads and results.
  pub Preserves-raise_if : (b : Bool) (e : Error) → Preserves P (raise_if b e)
  unfolding raise_if
  Preserves-raise_if b e = unmoved (raise_if b e) (go b)
    where
      go : (b : Bool) (s : S) → s ≡ (raise_if b e s).1
      go true s = refl
      go false s = refl

  pub Preserves-reads : {A : Type 0} (f : S → Result A) → Preserves P (reads f)
  unfolding reads
  Preserves-reads f = unmoved (reads f) (λ s. refl)

  pub Preserves-gets : {A : Type 0} (f : S → A) → Preserves P (gets f)
  unfolding gets
  Preserves-gets f = unmoved (gets f) (λ s. refl)

  pub Preserves-lift : {A : Type 0} (r : Result A) → Preserves P (lift r)
  unfolding lift
  Preserves-lift r = unmoved (lift r) (λ s. refl)

  pub Preserves-pure : {A : Type 0} (a : A) → Preserves P (pure a)
  unfolding pure
  Preserves-pure a = unmoved (pure a) (λ s. refl)

  -- Writes.
  pub Preserves-modify : (f : S → S) → ((s : S) → P s → P (f s)) → Preserves P (modify f)
  unfolding modify
  Preserves-modify f writes = record { through = writes }

  pub Preserves-update :
      {A : Type 0} (f : S → A × S) → ((s : S) → P s → P (f s).1) → Preserves P (update f)
  unfolding update
  Preserves-update f writes = record { through = writes }

  -- A block: its second half starts where the first one ends.
  second_half :
      {A B : Type 0} (r : Result A) (f : A → Action S B) (s : S)
      → ((a : A) → Preserves P (f a))
      → P s
      → P ((lift r >>= f) s).1
  unfolding ◌>>=◌
  second_half (err e) f s rest holds = holds
  second_half (ok a) f s rest holds = (rest a).through s holds

  pub Preserves-bind :
      {A B : Type 0} (action : Action S A) (f : A → Action S B)
      → Preserves P action
      → ((a : A) → Preserves P (f a))
      → Preserves P (action >>= f)
  unfolding ◌>>=◌
  Preserves-bind action f first rest = record {
    through = λ s holds. let (r, t) = action s in second_half r f t rest (first.through s holds);
  }

  pub Preserves-if :
      {A : Type 0} (b : Bool) (one other : Action S A)
      → Preserves P one
      → Preserves P other
      → Preserves P (if b then one else other)
  Preserves-if false one other kept kept_other = kept_other
  Preserves-if true one other kept kept_other = kept

  -- The same where the test, or the result that is passed on, matters.
  pub Preserves-if_eq :
      {A : Type 0} (b : Bool) (one other : Action S A)
      → (b ≡ true → Preserves P one)
      → (b ≡ false → Preserves P other)
      → Preserves P (if b then one else other)
  Preserves-if_eq false one other kept kept_other = kept_other refl
  Preserves-if_eq true one other kept kept_other = kept refl

  pub Preserves-lift_eq :
      {A B : Type 0} (r : Result A) (f : A → Action S B)
      → ((a : A) → r ≡ ok a → Preserves P (f a))
      → Preserves P (lift r >>= f)
  unfolding ◌>>=◌
  Preserves-lift_eq (ok a) f rest = record { through = λ s holds. (rest a refl).through s holds }
  Preserves-lift_eq (err e) f rest = record { through = λ s holds. holds }

pub ruleset preserving = (
  Preserves-if, Preserves-bind, Preserves-raise_if, Preserves-reads, Preserves-gets, Preserves-lift,
  Preserves-pure,
)
