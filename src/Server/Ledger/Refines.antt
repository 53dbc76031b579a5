-- ===== src/Server/Ledger/Refines.antt =====
-- The chain of messages implements the ledger.
use cosmos_nixpool.Prelude.{
  ℕ, ◌<◌, ◌≡◌, refl, sym, ap, subst, ◌∙◌, Bool, true, false, ◌||◌, ◌==◌, ◌⊎◌, inl, inr, List, [],
  ◌∷◌, ◌++◌, Bytes, arith, bytes_equal→eq, if◌then◌else◌, Bool-cases, eqb_refl, ==_iff,
}
use cosmos_nixpool.External.{External, IsLawful}
use cosmos_nixpool.Field.{set_bytes, to_bytes}
use cosmos_nixpool.Field.Canonical.{set_bytes-lt, set_bytes-to_bytes, canonical_field_bytes_iff}
use cosmos_nixpool.Types.Errors.{Result, ok, err}
use cosmos_nixpool.Types.Msgs.{MsgTransact}
use cosmos_nixpool.Keeper.Action.{Action}
use cosmos_nixpool.Keeper.Action.Preserves.{Preserves, Preserves-after}
use cosmos_nixpool.Keeper.Nullifiers.{is_nullifier_spent}
use cosmos_nixpool.Keeper.Verify.{at}
use cosmos_nixpool.Server.State.{State, is_zero_bytes}
use cosmos_nixpool.Server.Handlers.{
  TransactResponse, transact, register, deposit, update_params, set_verification_key_msg,
}
use cosmos_nixpool.Server.Spent.{HasStatus}
use cosmos_nixpool.Server.Spent.Handlers.{
  register-HasStatus, deposit-HasStatus, transact-HasStatus, update_params-HasStatus,
  set_verification_key_msg-HasStatus, IsApartAt,
}
use cosmos_nixpool.Server.DoubleSpend.{Uses, Spends, transact-Spends, transact-distinct}
use cosmos_nixpool.Server.Chain.{Step, Reach}
use cosmos_nixpool.Server.Ledger.{Ledger, member, IsFresh, LedgerStep, LedgerRun, done, more}

-- The element of an input, none where it is skipped.
abbrev pub element_in : External → Result Bytes → List ℕ
element_in ext (err e) = []
element_in ext (ok a) = if is_zero_bytes a then [] else set_bytes ext a ∷ []

module _ (ext : External) (law : IsLawful ext) where
  -- The ledger of a state.
  abbrev pub ledger_of : State → Ledger
  ledger_of s e = is_nullifier_spent ext s.kv (to_bytes e)

  abbrev pub element_of : MsgTransact → ℕ → List ℕ
  element_of msg i = element_in ext (at msg.nullifiers i)

  element_in-cases :
      (r : Result Bytes)
      → (element_in ext r ≡ [])
        ⊎ ((a : Bytes) × (r ≡ ok a)
            × (is_zero_bytes a ≡ false)
            × (element_in ext r ≡ set_bytes ext a ∷ []))
  element_in-cases (err e) = inl refl
  element_in-cases (ok a) = elim (Bool-cases (is_zero_bytes a)) [
    | inl zero ↦ inl (rw zero refl)
    | inr nonzero ↦ inr (a, refl, nonzero, rw nonzero refl)
  ]

  -- No input, or one that the message uses.
  element_of-cases :
      (msg : MsgTransact) (i : ℕ)
      → (element_of msg i ≡ [])
        ⊎ ((x : ℕ) × (element_of msg i ≡ x ∷ []) × Uses ext msg i (to_bytes x))
  element_of-cases msg i = elim (element_in-cases (at msg.nullifiers i)) [
    | inl skipped ↦ inl skipped
    | inr (a, here, nonzero, one) ↦ inr (
      set_bytes ext a,
      one,
      (
        a,
        here,
        nonzero,
        sym (set_bytes-to_bytes ext law (set_bytes ext a) (set_bytes-lt ext law a)),
      ),
    )
  ]

  member-append : (e : ℕ) (xs ys : List ℕ) → member e (xs ++ ys) ≡ (member e xs || member e ys)
  member-append e [] ys = refl
  member-append e (x ∷ xs) ys = ground (arith, member-append e xs ys)

  member-one : (e x : ℕ) → member e (x ∷ []) ≡ (x == e)
  member-one e x = ground arith

  -- An element of an input is used by the message.
  member-Uses :
      (msg : MsgTransact) (i e : ℕ)
      → member e (element_of msg i) ≡ true
      → Uses ext msg i (to_bytes e)
  member-Uses msg i e h = elim (element_of-cases msg i) [
    | inl skipped ↦
        let never : member e [] ≡ true = subst (λ (xs : List ℕ). member e xs ≡ true) skipped h in cc
    | inr (x, one, uses) ↦
        let found : (x == e) ≡ true =
          sym (member-one e x) ∙ subst (λ (xs : List ℕ). member e xs ≡ true) one h in
        subst (λ (y : ℕ). Uses ext msg i (to_bytes y)) ((==_iff x e).0 found) uses
  ]

  -- A round whose element is another one marks nothing of this one.
  apart_of :
      (msg : MsgTransact) (i e : ℕ) (v : Bool)
      → e < ext.modulus
      → member e (element_of msg i) ≡ false
      → IsApartAt ext (to_bytes e) v msg i
  apart_of msg i e v below absent a here nonzero same =
      let equal : set_bytes ext a ≡ e =
        (canonical_field_bytes_iff ext law a (to_bytes e)).0 (bytes_equal→eq _ _ same)
        ∙ set_bytes-to_bytes ext law e below in
      let found : member e (element_of msg i) ≡ true =
        rw (here, nonzero, equal) (member-one e e ∙ eqb_refl e) in
      cc

  module _ (msg : MsgTransact) (s s' : State) (r : TransactResponse)
      (run : transact ext msg s ≡ (ok r, s')) where
    -- The elements that a Transact spends.
    abbrev elements : List ℕ
    elements = element_of msg 0 ++ element_of msg 1

    used_elements-IsFresh : IsFresh (ledger_of s) elements
    used_elements-IsFresh = elim (element_of-cases msg 0) [
      | inl none_first ↦ elim (element_of-cases msg 1) [
        | inl none_second ↦ rw (none_first, none_second) tt
        | inr (y, one, uses) ↦
            rw (none_first, one)
              ((transact-Spends ext msg (to_bytes y) s s' r (Spends.second uses) run).0, refl, tt)
      ]
      | inr (x, first, uses0) ↦ elim (element_of-cases msg 1) [
        | inl none_second ↦
            rw (first, none_second)
              ((transact-Spends ext msg (to_bytes x) s s' r (Spends.first uses0) run).0, refl, tt)
        | inr (y, second, uses1) ↦
            let differs : member x (y ∷ []) ≡ false = elim (Bool-cases (y == x)) [
              | inr apart ↦ member-one x y ∙ apart
              | inl same ↦ absurd (
                  transact-distinct ext msg (to_bytes x) s s' r uses0
                    (subst (λ (z : ℕ). Uses ext msg 1 (to_bytes z)) ((==_iff y x).0 same) uses1)
                    run)
            ] in
            rw (first, second)
              (
                (transact-Spends ext msg (to_bytes x) s s' r (Spends.first uses0) run).0,
                differs,
                (
                  (transact-Spends ext msg (to_bytes y) s s' r (Spends.second uses1) run).0,
                  refl,
                  tt,
                ),
              )
      ]
    ]

    ledger_after : (e : ℕ) → e < ext.modulus → ledger_of s' e ≡ (member e elements || ledger_of s e)
    ledger_after e below = elim (Bool-cases (member e (element_of msg 0))) [
      | inl in_first ↦
          (transact-Spends ext msg (to_bytes e) s s' r (Spends.first (member-Uses msg 0 e in_first))
            run).1
          ∙ sym (rw (member-append e (element_of msg 0) (element_of msg 1), in_first) refl)
      | inr not_first ↦ elim (Bool-cases (member e (element_of msg 1))) [
        | inl in_second ↦
            (transact-Spends ext msg (to_bytes e) s s' r
              (Spends.second (member-Uses msg 1 e in_second)) run).1
            ∙ sym (
                rw (member-append e (element_of msg 0) (element_of msg 1), not_first, in_second)
                  refl)
        | inr not_second ↦
            Preserves-after (transact ext msg) s s' (ok r)
              (transact-HasStatus ext (to_bytes e) (ledger_of s e) msg
                (apart_of msg 0 e (ledger_of s e) below not_first)
                (apart_of msg 1 e (ledger_of s e) below not_second))
              run refl
            ∙ sym (
                rw (member-append e (element_of msg 0) (element_of msg 1), not_first, not_second)
                  refl)
      ]
    ]

    transact-LedgerStep : LedgerStep ext.modulus elements (ledger_of s) (ledger_of s')
    transact-LedgerStep = record { fresh = used_elements-IsFresh; becomes = ledger_after }

  -- A message that keeps every status is no step of the ledger.
  idle_of :
      {A : Type 0} (action : Action State A) (s s' : State) (result : Result A)
      → ((e : ℕ) → Preserves (HasStatus ext (to_bytes e) (ledger_of s e)) action)
      → action s ≡ (result, s')
      → LedgerStep ext.modulus [] (ledger_of s) (ledger_of s')
  idle_of action s s' result kept run = record {
    fresh = tt;
    becomes = λ e below. Preserves-after action s s' result (kept e) run refl;
  }

  module _ (keeper_authority : Bytes) where
    -- The elements that a step spends, and a run.
    abbrev spent_by : {s s' : State} → Step ext keeper_authority s s' → List ℕ
    spent_by (Step.begin_tx bytes limit h) = []
    spent_by (Step.registers msg r h) = []
    spent_by (Step.deposits msg r h) = []
    spent_by (Step.transacts msg r h) = element_of msg 0 ++ element_of msg 1
    spent_by (Step.updates_params msg u h) = []
    spent_by (Step.sets_verification_key msg u h) = []

    abbrev pub spent_in : {s s' : State} → Reach ext keeper_authority s s' → List ℕ
    spent_in Reach.here = []
    spent_in (Reach.next run step) = spent_by step ++ spent_in run

    Step-LedgerStep :
        (s s' : State) (step : Step ext keeper_authority s s')
        → LedgerStep ext.modulus (spent_by step) (ledger_of s) (ledger_of s')
    Step-LedgerStep s s' (Step.begin_tx bytes limit h) = record {
      fresh = tt;
      becomes = λ e below. ap (λ (t : State). ledger_of t e) (sym h);
    }
    Step-LedgerStep s s' (Step.registers msg r h) =
        idle_of (register ext msg) s s' (ok r) (λ e. register-HasStatus ext _ _ msg) h
    Step-LedgerStep s s' (Step.deposits msg r h) =
        idle_of (deposit ext msg) s s' (ok r) (λ e. deposit-HasStatus ext _ _ msg) h
    Step-LedgerStep s s' (Step.transacts msg r h) = transact-LedgerStep msg s s' r h
    Step-LedgerStep s s' (Step.updates_params msg u h) =
        idle_of (update_params ext keeper_authority msg) s s' (ok u)
          (λ e. update_params-HasStatus ext _ _ keeper_authority msg) h
    Step-LedgerStep s s' (Step.sets_verification_key msg u h) =
        idle_of (set_verification_key_msg ext keeper_authority msg) s s' (ok u)
          (λ e. set_verification_key_msg-HasStatus ext _ _ keeper_authority msg) h

    -- The states that the chain goes through are a run of the ledger: a Transact that succeeds spends
    -- the field elements of its nonzero nullifiers, which were not spent and are two different ones
    -- where there are two, and no others; every other message that succeeds spends none.
    pub Reach-refines :
        {s s' : State} (run : Reach ext keeper_authority s s')
        → LedgerRun ext.modulus (ledger_of s) (spent_in run) (ledger_of s')
    Reach-refines Reach.here = done
    Reach-refines (Reach.next {t} {u} run step) =
        more (Reach-refines run) (Step-LedgerStep t u step)
