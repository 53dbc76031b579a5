-- ===== src/Lib.antt =====
-- The nixpool module: a privacy pool for a Cosmos SDK chain. Coins are deposited into a forest of note
-- Merkle trees, spent and re-noted by zero-knowledge proofs that publish nullifiers, and withdrawn;
-- identities stand in a registration tree of their own.
--
-- Parts and files:
-- - Prelude: the shared names, Boolean tests and list functions on native numbers.
-- - External: what the program takes from third parties, a parameter of the model: the BN254 scalar
--   field's modulus, Poseidon2, the Merkle zero hashes, the UltraHonk verifier, math.Int, bech32, SHA-256,
--   the JSON codec and the bank. IsLawful is what the code relies on in them.
-- - Types: types/errors.go, types/params.go, types/keys.go (Keys; its bytes and their injectivity in
--   Keys/Injective), types/msgs.go and the message structs of types/tx.pb.go (Msgs).
-- - Field: field elements as numbers below the modulus, their bytes, CanonicalFieldBytes of types/keys.go.
-- - Store: the module's key-value store. Tree: the perfect Merkle tree that the code never builds.
--   Strings: the functions of Go's package strings that the clients use.
-- - Keeper/Forest, Keeper/Frontier, Keeper/Registration, Keeper/RootIndex, Keeper/Rebuild and
--   Keeper/Nullifiers: keeper/merkle.go. Keeper/Params: keeper/keeper.go. Keeper/Verify: keeper/verify.go.
-- - Types/Genesis: types/genesis.go. Keeper/Genesis and Keeper/Export: InitGenesis and ExportGenesis of
--   keeper/genesis.go.
-- - Server/Handlers, over the shared parts of Server/State: keeper/msg_server.go. Server/Queries:
--   keeper/query_server.go. Server/Chain: the successful messages and the new transactions as a step
--   relation. Server/Ledger: the set of spent field elements as an abstract ledger, which the chain
--   refines.
-- - The other files of Server are proofs about the handlers: Spent, DoubleSpend and Proved, Payments, Stages
--   with Deposits and Registers, and Authority.
-- - Crypto: the clients' keys, nix addresses and ECIES of crypto/, over gnark's Grumpkin group, which is
--   the parameter Crypto/Curve; IsGroup is what the code relies on in it.
-- - Client: the commands of client/cli/tx.go that build messages; Client/Keys: nix-address of
--   client/cli/keys.go. The files, the sender's address and the JSON decoder are the record Environment.
-- - Examples: small functions for the parameters, and concrete runs.
--
-- How the code is read:
-- - A function of the keeper or a handler is an Action: it takes the state and gives a result and the
--   state. What was written before an error stays in that state, since the rollback of a failed message
--   is the SDK's; the chain of Server/Chain has steps for the messages that succeed only.
-- - A message server's state is the store, the bank's transfers for the module (last first), the gas
--   meter, the events and the transaction's bytes. The bank refuses or makes a transfer by a parameter.
--   The gas meter counts the charge of VerifyProof only, not what the SDK's store charges for access.
-- - A store key is a value of the data type Key, with the bytes that the Go code builds as key_bytes.
--   A store is an association list from keys to bytes. The errors that the SDK's interface lets the store
--   return are not modelled; the SDK's stores return none. A missing entry and an empty one are told
--   apart where the Go code tests for nil.
-- - uint64 values keep their wrap-around where the code can reach it: the shift of maxLeaves is taken
--   mod 2^64, counters are written as eight bytes. Panics are errors of the model: gas exhaustion
--   (out_of_gas), sdk.NewCoin on a bad coin (invalid_coin), an index out of range (index_out_of_range).
-- - A verification key is named by the bytes that it serialises to. The parameter recordRootHistory of
--   insertLeafSingleTree is read by nothing, so the model has no argument for it.
-- - Loops over levels, chunks and slots are structural recursion on the number of rounds left; the limb
--   loop of stringToFieldElement has the length of the string as fuel, which is at least the number of
--   its 31-byte limbs.
-- - IsLawful asks that parameters survive json.Marshal and json.Unmarshal. encoding/json replaces bytes
--   that are not UTF-8, so the law speaks for parameters whose denominations are text.
-- - A nil commitment, on which `store.Set` would panic, is not told apart from an empty one in InsertNote
--   and InsertRegCommitment; ValidateBasic asks for 32 bytes.
-- - In genesis states a nil slice is the empty one where the code only measures it, and an Option where
--   nil is told apart. `store.Set` of a nil value panics (nil_value). ExportGenesis iterates a prefix in
--   the order of the association list, and nothing depends on that order. RebuildRootIndex counts in a
--   Go map; the model's is an association list. Public keys shorter than 32 bytes, on which the slices
--   of EncodeNixAddress would panic, are not modelled: NewGrumpkinPubKey makes none.
-- - A command gives the message that it hands to the SDK, or the reason why it makes none. The flags'
--   defaults are the caller's. TrimSpace works on the UTF-8 bytes of all of Unicode's white space.
--
-- Not modelled: the query commands of client/cli/query.go, which forward to the query server, gen-nix-key
-- and GenerateKey, which read the system's randomness, the printing of results, the module wiring and
-- the generated encoders. The verifier, the hash and the curve are parameters, so nothing here says that
-- a proof is sound, a hash free of collisions or a logarithm hard.
pub mod Prelude
pub mod External
pub mod Types
pub mod Field
pub mod Store
pub mod Strings
pub mod Tree
pub mod Keeper
pub mod Crypto
pub mod Client
pub mod Server
pub mod Examples
