-- ===== src/Server/DoubleSpend.antt =====
-- keeper/msg_server.go: Transact spends each of its nullifiers once.
use cosmos_nixpool.Prelude.{
  ℕ, Bool, ◌≡◌, refl, sym, ap, ◌∙◌, true, false, not, subst, inl, inr, Bool-cases, bytes_equal_self,
  Bytes, [],
}
use cosmos_nixpool.External.{External}
use cosmos_nixpool.Field.{set_bytes, canonical_field_bytes}
use cosmos_nixpool.Types.Errors.{Result, ok, invalid_merkle_root}
use cosmos_nixpool.Types.Msgs.{MsgTransact}
use cosmos_nixpool.Keeper.Action.{pure, lift, ◌>>=◌, ◌>>◌, bind-eq-ok, guard-eq-ok}
use cosmos_nixpool.Keeper.Action.Preserves.{Preserves, Preserves-after, preserving}
use cosmos_nixpool.Keeper.RootIndex.{is_valid_root_any_tree}
use cosmos_nixpool.Keeper.Nullifiers.{
  is_nullifier_spent, mark_nullifier_spent, is_nullifier_spent-mark, is_nullifier_spent-congruent,
}
use cosmos_nixpool.Keeper.Registration.{is_valid_reg_root}
use cosmos_nixpool.Keeper.Verify.{at}
use cosmos_nixpool.Server.State.{State, Handler, is_zero_bytes, on_store, emit}
use cosmos_nixpool.Store.{Store}
use cosmos_nixpool.Server.Handlers.{
  TransactResponse, spend_nullifier, spend_input, check_transact_proof, insert_output,
  pay_withdrawal, pay_relayer, transact,
}
use cosmos_nixpool.Server.Spent.{Spent, HasStatus}
use cosmos_nixpool.Server.Spent.Handlers.{
  spend_input-HasStatus, check_transact_proof-HasStatus, insert_output-HasStatus,
  pay_withdrawal-HasStatus, pay_relayer-HasStatus, always_apart,
}

module _ (ext : External) where
  -- Input i of the message is a nonzero encoding of the field element that n encodes.
  abbrev pub Uses : MsgTransact → ℕ → Bytes → Type 0
  Uses msg i n =
      (a : Bytes) × (at msg.nullifiers i ≡ ok a)
      × (is_zero_bytes a ≡ false)
      × (set_bytes ext a ≡ set_bytes ext n)

  pub spend_nullifier-eq-ok :
      (a root : Bytes) (s s' : State) (u : Unit {0})
      → spend_nullifier ext a root s ≡ (ok u, s')
      → (is_nullifier_spent ext s.kv a ≡ false)
        × (not (is_valid_root_any_tree ext s.kv root) ≡ false)
        × (mark_nullifier_spent ext a s.kv ≡ s'.kv)
  unfolding spend_nullifier ◌>>=◌ on_store emit
  spend_nullifier-eq-ok a root s s' u h =
      let (unspent, h1) = guard-eq-ok _ _ _ s s' u h in
      let (valid, h2) = guard-eq-ok _ _ _ s s' u h1 in
      (unspent, valid, ap (λ (r : Result (Unit {0}) × State). r.1.kv) h2)

  -- The round of a nonzero nullifier reads its root and spends it.
  pub spend_input-nonzero :
      (msg : MsgTransact) (i : ℕ) (a : Bytes) (s : State)
      → at msg.nullifiers i ≡ ok a
      → is_zero_bytes a ≡ false
      → spend_input ext msg i s
        ≡ (lift (at msg.merkle_roots i) >>= λ (root : Bytes). spend_nullifier ext a root) s
  unfolding spend_input ◌>>=◌ lift
  spend_input-nonzero msg i a s at_i nonzero = rw at_i (rw nonzero refl)

  marked-Spent :
      (a n : Bytes) (s : Store)
      → set_bytes ext a ≡ set_bytes ext n
      → is_nullifier_spent ext (mark_nullifier_spent ext a s) n ≡ true
  marked-Spent a n s same =
      sym (is_nullifier_spent-congruent ext a n (mark_nullifier_spent ext a s) same)
      ∙ (rw (is_nullifier_spent-mark ext a a s, bytes_equal_self (canonical_field_bytes ext a))
          refl)

  -- A nullifier that is used is unspent before its round and spent after it.
  spend_input-Uses :
      (msg : MsgTransact) (i : ℕ) (n : Bytes) (s s' : State) (u : Unit {0})
      → Uses msg i n
      → spend_input ext msg i s ≡ (ok u, s')
      → (is_nullifier_spent ext s.kv n ≡ false) × Spent ext n s'
  unfolding lift
  spend_input-Uses msg i n s s' u (a, at_i, nonzero, same) h =
      let (root, _, h1) =
        bind-eq-ok (lift (at msg.merkle_roots i)) (λ root. spend_nullifier ext a root)
          (sym (spend_input-nonzero msg i a s at_i nonzero) ∙ h) in
      let (unspent, _, marked) = spend_nullifier-eq-ok a root s s' u h1 in
      (
        sym (is_nullifier_spent-congruent ext a n s.kv same) ∙ unspent,
        subst (λ kv. is_nullifier_spent ext kv n ≡ true) marked (marked-Spent a n s.kv same),
      )

  -- Transact past its two rounds.
  abbrev pub settle : MsgTransact → Handler TransactResponse
  settle msg = do
    check_transact_proof ext msg
    first ← insert_output ext msg 0 (record { leaf_indices = []; merkle_root = [] })
    second ← insert_output ext msg 1 first
    pay_withdrawal ext msg
    pay_relayer ext msg
    pure second

  pub settle-HasStatus :
      (n : Bytes) (v : Bool) (msg : MsgTransact) → Preserves (HasStatus ext n v) (settle msg)
  settle-HasStatus n v msg =
      search
        (
          preserving,
          check_transact_proof-HasStatus ext n v,
          insert_output-HasStatus ext n v,
          pay_withdrawal-HasStatus ext n v,
          pay_relayer-HasStatus ext n v,
        )
        depth 12

  -- A Transact that succeeds is its two rounds, then the rest.
  pub transact-rounds :
      (msg : MsgTransact) (s s' : State) (r : TransactResponse)
      → transact ext msg s ≡ (ok r, s')
      → (s1 : State) × (s2 : State) × (u : Unit {0}) × (spend_input ext msg 0 s ≡ (ok u, s1))
        × (spend_input ext msg 1 s1 ≡ (ok u, s2))
        × (settle msg s2 ≡ (ok r, s'))
  unfolding transact ◌>>=◌
  transact-rounds msg s s' r h =
      let (_, h0) =
        guard-eq-ok (not (is_valid_reg_root ext s.kv msg.registration_root)) invalid_merkle_root
          (spend_input ext msg 0 >> (spend_input ext msg 1 >> settle msg)) s s' r h in
      let (_, first, h1) =
        bind-eq-ok (spend_input ext msg 0) (λ _. spend_input ext msg 1 >> settle msg) h0 in
      let (_, second, h2) = bind-eq-ok (spend_input ext msg 1) (λ _. settle msg) h1 in
      (
        (spend_input ext msg 0 s).1,
        (spend_input ext msg 1 (spend_input ext msg 0 s).1).1,
        tt,
        ap (λ (x : Result (Unit {0})). (x, (spend_input ext msg 0 s).1)) first,
        ap (λ (x : Result (Unit {0})). (x, (spend_input ext msg 1 (spend_input ext msg 0 s).1).1))
            second,
        h2,
      )

  -- n is a nonzero input of the message, in some encoding.
  pub data Spends (msg : MsgTransact) (n : Bytes) : Type 0 where
    first : Uses msg 0 n → Spends msg n
    second : Uses msg 1 n → Spends msg n

  -- What an action that keeps n spent leaves unspent was unspent before.
  before :
      (n : Bytes) {A : Type 0} (m : Handler A) (s s' : State) (a : A)
      → Preserves (Spent ext n) m
      → m s ≡ (ok a, s')
      → is_nullifier_spent ext s'.kv n ≡ false
      → is_nullifier_spent ext s.kv n ≡ false
  before n m s s' a km h unspent = elim (Bool-cases (is_nullifier_spent ext s.kv n)) [
    | inl was_spent ↦ let spent = Preserves-after m s s' (ok a) km h was_spent in cc
    | inr was_unspent ↦ was_unspent
  ]

  -- A Transact that succeeds spends each of its nonzero nullifiers: the field element was not spent
  -- before, in any encoding, and is spent after in every encoding.
  pub transact-Spends :
      (msg : MsgTransact) (n : Bytes) (s s' : State) (r : TransactResponse)
      → Spends msg n
      → transact ext msg s ≡ (ok r, s')
      → (is_nullifier_spent ext s.kv n ≡ false) × (is_nullifier_spent ext s'.kv n ≡ true)
  transact-Spends msg n s s' r (Spends.first uses) h =
      let (s1, s2, u, one, two, rest) = transact-rounds msg s s' r h in
      let (unspent, spent) = spend_input-Uses msg 0 n s s1 u uses one in
      (
        unspent,
        Preserves-after (settle msg) s2 s' (ok r) (settle-HasStatus n true msg) rest (
            Preserves-after (spend_input ext msg 1) s1 s2 (ok u)
              (spend_input-HasStatus ext n true msg 1 (always_apart ext n true msg 1 refl)) two
              spent),
      )
  transact-Spends msg n s s' r (Spends.second uses) h =
      let (s1, s2, u, one, two, rest) = transact-rounds msg s s' r h in
      let (unspent, spent) = spend_input-Uses msg 1 n s1 s2 u uses two in
      (
        before n (spend_input ext msg 0) s s1 u
            (spend_input-HasStatus ext n true msg 0 (always_apart ext n true msg 0 refl)) one
            unspent,
        Preserves-after (settle msg) s2 s' (ok r) (settle-HasStatus n true msg) rest spent,
      )

  -- A Transact whose two inputs encode one nonzero field element does not succeed.
  pub transact-distinct :
      (msg : MsgTransact) (n : Bytes) (s s' : State) (r : TransactResponse)
      → Uses msg 0 n
      → Uses msg 1 n
      → ¬ (transact ext msg s ≡ (ok r, s'))
  transact-distinct msg n s s' r uses0 uses1 h =
      let (s1, s2, u, one, two, rest) = transact-rounds msg s s' r h in
      let (_, spent) = spend_input-Uses msg 0 n s s1 u uses0 one in
      let (unspent, _) = spend_input-Uses msg 1 n s1 s2 u uses1 two in cc
