-- ===== src/Server/State/Success.antt =====
-- keeper/msg_server.go and keeper/verify.go: what the success of each shared part of a handler tells,
-- and the state that it leaves.
use cosmos_nixpool.Prelude.{
  ℕ, ◌+◌, ◌≤◌, ◌≡◌, refl, ap, ◌∙◌, Bool, true, false, ◌&&◌, ◌||◌, not, Option, some, none, ◌∷◌,
  Bytes, List, ltb, is_empty, if◌then◌else◌, ℤ, is_negative, arith,
}
use cosmos_nixpool.External.{External, Coin, Transfer}
use cosmos_nixpool.Types.Errors.{
  Error, Result, ok, err, auditor_data_missing, invalid_denom, invalid_coin, out_of_gas,
}
use cosmos_nixpool.Types.Params.{Params}
use cosmos_nixpool.Types.Keys.{Key}
use cosmos_nixpool.Types.Keys.Equality.{key_equal}
use cosmos_nixpool.Store.{Store, get, set, get-set_ne}
use cosmos_nixpool.Keeper.Action.{
  Action, pure, modify, lift, reads, ◌>>=◌, bind-run, lift-eq-ok, raise_if-eq-ok,
}
use cosmos_nixpool.Keeper.Params.{get_params, get_verification_key_from_state}
use cosmos_nixpool.Keeper.Nullifiers.{store_auditor_data}
use cosmos_nixpool.Keeper.Verify.{gas_ultrahonk_verify}
use cosmos_nixpool.Server.State.{
  State, Handler, on_store, consume_gas, is_listed, bank_send, new_coin, enforce_auditor,
  check_denom, stored_key, verdict, get_verification_key, verify_proof, keep_auditor_data,
}

-- A test that fails in one branch has gone the other way.
unless-eq-ok :
    {A : Type 0} (b : Bool) (e : Error) (r : Result A) (a : A)
    → (if b then err e else r) ≡ ok a
    → (b ≡ false) × (r ≡ ok a)
unless-eq-ok true e r a h = cc
unless-eq-ok false e r a h = (refl, h)

when-eq-ok :
    {A : Type 0} (b : Bool) (x y : Result A × State) (e : Error) (a : A) (s' : State)
    → y.0 ≡ err e
    → (if b then x else y) ≡ (ok a, s')
    → (b ≡ true) × (x ≡ (ok a, s'))
when-eq-ok true x y e a s' fails h = (refl, h)
when-eq-ok false x y e a s' fails h = cc

reads-eq-ok :
    {A B : Type 0} (g : State → Result A) (f : A → Handler B) (s s' : State) (b : B)
    → (reads g >>= f) s ≡ (ok b, s')
    → (a : A) × (g s ≡ ok a) × (f a s ≡ (ok b, s'))
unfolding reads ◌>>=◌
reads-eq-ok g f s s' b h = lift-eq-ok (g s) f s s' b h

pub on_store-eq-ok :
    {A : Type 0} (m : Action Store A) (s s' : State) (a : A)
    → on_store m s ≡ (ok a, s')
    → (m s.kv ≡ (ok a, s'.kv)) × (s.transfers ≡ s'.transfers) × (s.tx_bytes ≡ s'.tx_bytes)
unfolding on_store
on_store-eq-ok m s s' a h = (
  ap (λ (x : Result _ × State). (x.0, x.1.kv)) h,
  ap (λ (x : Result _ × State). x.1.transfers) h,
  ap (λ (x : Result _ × State). x.1.tx_bytes) h,
)

module _ (ext : External) where
  pub params-eq-ok :
      {B : Type 0} (f : Params → Handler B) (s s' : State) (b : B)
      → (reads (λ (t : State). get_params ext t.kv) >>= f) s ≡ (ok b, s')
      → (p : Params) × (get_params ext s.kv ≡ ok p) × (f p s ≡ (ok b, s'))
  params-eq-ok f s s' b h = reads-eq-ok (λ t. get_params ext t.kv) f s s' b h

  pub enforce_auditor-eq-ok :
      (given : Bool) (s s' : State) (u : Unit {0})
      → enforce_auditor ext given s ≡ (ok u, s')
      → (p : Params) × (get_params ext s.kv ≡ ok p)
        × ((not (is_empty p.auditor_pub_key) && not given) ≡ false)
        × (s ≡ s')
  unfolding enforce_auditor
  enforce_auditor-eq-ok given s s' u h =
      let (p, at_p, h1) = params-eq-ok _ s s' u h in
      let (present, kept) =
        raise_if-eq-ok (not (is_empty p.auditor_pub_key) && not given) auditor_data_missing s s' u
          h1 in
      (p, at_p, present, kept)

  pub check_denom-eq-ok :
      (denom : Bytes) (s s' : State) (u : Unit {0})
      → check_denom ext denom s ≡ (ok u, s')
      → (p : Params) × (get_params ext s.kv ≡ ok p)
        × (is_listed denom p.supported_denoms ≡ true)
        × (s ≡ s')
  unfolding check_denom
  check_denom-eq-ok denom s s' u h =
      let (p, at_p, h1) = params-eq-ok _ s s' u h in
      let (listed, kept) =
        raise_if-eq-ok (not (is_listed denom p.supported_denoms)) invalid_denom s s' u h1 in
      (p, at_p, ground arith, kept)

  verdict-eq-ok : (v : Option Bool) (u : Unit {0}) → verdict ext v ≡ ok u → v ≡ some true
  verdict-eq-ok none u h = cc
  verdict-eq-ok (some false) u h = cc
  verdict-eq-ok (some true) u h = refl

  consume_gas-eq-ok :
      (amount : ℕ) (s s' : State) (u : Unit {0})
      → consume_gas amount s ≡ (ok u, s')
      → (s.gas_used + amount ≤ s.gas_limit) × (record s { gas_used = s.gas_used + amount } ≡ s')
  unfolding consume_gas
  consume_gas-eq-ok amount s s' u h =
      let (room, _) =
        unless-eq-ok (ltb s.gas_limit (s.gas_used + amount)) out_of_gas (ok tt) u
          (ap (λ (x : Result (Unit {0}) × State). x.0) h) in
      (ground arith, ap (λ (x : Result (Unit {0}) × State). x.1) h)

  -- A proof that passes was accepted by the verifier, under the key that the store has for the
  -- circuit, and was paid for.
  pub verify_proof-eq-ok :
      (name proof : Bytes) (inputs : List ℕ) (s s' : State) (u : Unit {0})
      → verify_proof ext name proof inputs s ≡ (ok u, s')
      → (vk : Bytes) × (stored_key ext (get_verification_key_from_state s.kv name) ≡ ok vk)
        × (ext.honk_verify vk proof inputs ≡ some true)
        × (s.gas_used + gas_ultrahonk_verify ≤ s.gas_limit)
        × (record s { gas_used = s.gas_used + gas_ultrahonk_verify } ≡ s')
  unfolding verify_proof get_verification_key lift
  verify_proof-eq-ok name proof inputs s s' u h =
      let (vk, stored, h1) = reads-eq-ok _ _ s s' u h in
      let (_, t, paid, h2) = bind-run (consume_gas gas_ultrahonk_verify) _ s s' u h1 in
      let (room, after_gas) = consume_gas-eq-ok gas_ultrahonk_verify s t _ paid in
      (
        vk,
        stored,
        verdict-eq-ok _ u (ap (λ (x : Result (Unit {0}) × State). x.0) h2),
        room,
        after_gas ∙ ap (λ (x : Result (Unit {0}) × State). x.1) h2,
      )

  pub bank_send-eq-ok :
      (e : Error) (transfer : Transfer) (s s' : State) (u : Unit {0})
      → bank_send ext e transfer s ≡ (ok u, s')
      → (ext.bank_accepts s.transfers transfer ≡ true)
        × (record s { transfers = transfer ∷ s.transfers } ≡ s')
  unfolding bank_send
  bank_send-eq-ok e transfer s s' u h =
      let (accepted, sent) =
        when-eq-ok (ext.bank_accepts s.transfers transfer) _ (err e, s) e u s' refl h in
      (accepted, ap (λ (x : Result (Unit {0}) × State). x.1) sent)

  pub new_coin-eq-ok :
      (denom : Bytes) (amount : ℤ) (coin : Coin)
      → new_coin ext denom amount ≡ ok coin
      → (is_negative amount ≡ false)
        × (ext.is_valid_denom denom ≡ true)
        × (record { denom = denom; amount = amount } ≡ coin)
  unfolding new_coin
  new_coin-eq-ok denom amount coin h =
      let (fine, made) =
        unless-eq-ok (is_negative amount || not (ext.is_valid_denom denom)) invalid_coin _ coin h in
      (ground arith, ground arith, cc)

  -- The store with the auditor's data in it, if there is any.
  abbrev pub with_auditor_data : Bytes → Bytes → Store → Store
  with_auditor_data tx_bytes payload kv =
      if is_empty payload then kv else store_auditor_data (ext.sha256 tx_bytes) payload kv

  pub keep_auditor_data-eq-ok :
      (payload : Bytes) (s s' : State) (u : Unit {0})
      → keep_auditor_data ext payload s ≡ (ok u, s')
      → (record s { kv = with_auditor_data s.tx_bytes payload s.kv }) ≡ s'
  unfolding keep_auditor_data pure modify
  keep_auditor_data-eq-ok payload s s' u h = go (is_empty payload) h
    where
      go :
          (b : Bool)
          → (if b
                then pure tt
                else modify (λ (t : State). record t {
                  kv = store_auditor_data (ext.sha256 t.tx_bytes) payload t.kv;
                }))
              s
            ≡ (ok u, s')
          → (record s {
            kv = if b then s.kv else store_auditor_data (ext.sha256 s.tx_bytes) payload s.kv;
          })
            ≡ s'
      go true h = ap (λ (x : Result (Unit {0}) × State). x.1) h
      go false h = ap (λ (x : Result (Unit {0}) × State). x.1) h

  -- No other key is written.
  pub with_auditor_data-get :
      (tx_bytes payload : Bytes) (kv : Store) (k : Key)
      → key_equal (Key.auditor_data (ext.sha256 tx_bytes)) k ≡ false
      → get (with_auditor_data tx_bytes payload kv) k ≡ get kv k
  unfolding store_auditor_data
  with_auditor_data-get tx_bytes payload kv k ne = go (is_empty payload)
    where
      go :
          (b : Bool)
          → get (if b then kv else set (Key.auditor_data (ext.sha256 tx_bytes)) payload kv) k
            ≡ get kv k
      go true = refl
      go false = get-set_ne kv (Key.auditor_data (ext.sha256 tx_bytes)) k payload ne
