-- ===== src/Client.antt =====
-- client/cli/tx.go: the commands that build the messages Deposit, Transact and Register from the
-- arguments and flags of a command line. The flags of the transaction and its broadcast are the SDK's.
pub mod Printed
pub mod Keys
use cosmos_nixpool.Prelude.{
  ℕ, ◌==◌, not, List, [], ◌∷◌, Bytes, length, get_or, is_empty, if◌then◌else◌, Option, none, some,
}
use cosmos_nixpool.Strings.{split, trim_space}
use cosmos_nixpool.Types.Errors.{
  Error, Result, ok, err, ◌>>=◌, ◌>>◌, fail_if, wrong_arguments, unreadable_file, bad_outputs,
  wrong_number,
}
use cosmos_nixpool.Types.Msgs.{MsgDeposit, MsgRegister, MsgTransact, OutputNote}
use cosmos_nixpool.Crypto.Hex.{hex_bytes}

-- outputNoteHex
pub record OutputNoteHex : Type 0 where
  pub note_hash : Bytes
  pub ephemeral_x : Bytes
  pub ephemeral_y : Bytes
  pub enc_amount : Bytes
  pub enc_salt : Bytes
  pub auditor_enc : Bytes
  pub auditor_auth_key_x : Bytes
  pub auditor_auth_key_y : Bytes
  pub auditor_enc_recipient : Bytes

-- What a command takes from its surroundings: the sender's address, the files, and `json.Unmarshal`
-- at a list of notes.
pub record Environment : Type 0 where
  pub from_address : Bytes
  pub read_file : Bytes → Option Bytes
  pub unmarshal_notes : Bytes → Option (List OutputNoteHex)

-- The flags of `transact`, with their defaults where they are not set.
pub record TransactFlags : Type 0 where
  pub withdraw_amount : Bytes
  pub withdraw_address : Bytes
  pub relayer_fee : Bytes

abbrev pub or_error : {A : Type 0} → Error → Option A → Result A
or_error e none = err e
or_error e (some a) = ok a

-- `args[i]`, where cobra has checked their number
abbrev pub arg : List Bytes → ℕ → Bytes
arg args i = get_or args i []

-- The character ",".
abbrev pub comma : ℕ
comma = 44

-- `hex.DecodeString`, whose digits may be of either case
abbrev pub decode_string : Bytes → Result Bytes
decode_string s = hex_bytes s

-- the loops of `transact` over its comma-separated values
unfoldable pub decode_each : List Bytes → Result (List Bytes)
decode_each [] = ok []
decode_each (h ∷ hs) = do b ← decode_string (trim_space h); bs ← decode_each hs; ok (b ∷ bs)

-- two values separated by a comma
unfoldable pub decode_pair : Bytes → Result (List Bytes)
decode_pair csv = do
  fail_if (not (length (split comma csv) == 2)) wrong_number
  decode_each (split comma csv)

-- the body of the loop of parseOutputNotesJSON
unfoldable pub decode_note : OutputNoteHex → Result OutputNote
decode_note hn = do
  note_hash ← decode_string hn.note_hash
  ephemeral_x ← decode_string hn.ephemeral_x
  ephemeral_y ← decode_string hn.ephemeral_y
  enc_amount ← decode_string hn.enc_amount
  enc_salt ← decode_string hn.enc_salt
  auditor_enc ← decode_string hn.auditor_enc
  auditor_auth_key_x ← decode_string hn.auditor_auth_key_x
  auditor_auth_key_y ← decode_string hn.auditor_auth_key_y
  auditor_enc_recipient ← decode_string hn.auditor_enc_recipient
  ok (record {
    note_hash = note_hash;
    ephemeral_x = ephemeral_x;
    ephemeral_y = ephemeral_y;
    enc_amount = enc_amount;
    enc_salt = enc_salt;
    auditor_enc = auditor_enc;
    auditor_auth_key_x = auditor_auth_key_x;
    auditor_auth_key_y = auditor_auth_key_y;
    auditor_enc_recipient = auditor_enc_recipient;
  })

unfoldable pub decode_notes : List OutputNoteHex → Result (List OutputNote)
decode_notes [] = ok []
decode_notes (hn ∷ hns) = do note ← decode_note hn; notes ← decode_notes hns; ok (note ∷ notes)

module _ (env : Environment) where
  -- `os.ReadFile`
  unfoldable pub read : Bytes → Result Bytes
  read path = or_error unreadable_file (env.read_file path)

  -- readAuditorDataFlag
  unfoldable pub read_auditor_data_flag : Bytes → Result Bytes
  read_auditor_data_flag path = if is_empty path then ok [] else read path

  -- parseOutputNotesJSON
  unfoldable pub parse_output_notes_json : Bytes → Result (List OutputNote)
  parse_output_notes_json content = do
    hex_notes ← or_error bad_outputs (env.unmarshal_notes content)
    fail_if (not (length hex_notes == 2)) wrong_number
    decode_notes hex_notes

  -- CmdDeposit, up to the message that it hands to the SDK
  unfoldable pub cmd_deposit : List Bytes → Bytes → Result MsgDeposit
  cmd_deposit args auditor_data_flag = do
    fail_if (not (length args == 5)) wrong_arguments
    note_commitment ← decode_string (arg args 2)
    proof ← read (arg args 3)
    public_inputs ← read (arg args 4)
    auditor_data ← read_auditor_data_flag auditor_data_flag
    ok (record {
      sender = env.from_address;
      denom = arg args 0;
      amount = arg args 1;
      note_commitment = note_commitment;
      proof = proof;
      public_inputs = public_inputs;
      auditor_encrypted_data = auditor_data;
    })

  -- CmdTransact, up to the message
  unfoldable pub cmd_transact : List Bytes → TransactFlags → Result MsgTransact
  cmd_transact args flags = do
    fail_if (not (length args == 6)) wrong_arguments
    proof ← read (arg args 0)
    nullifiers ← decode_pair (arg args 1)
    merkle_roots ← decode_pair (arg args 2)
    outputs_data ← read (arg args 3)
    outputs ← parse_output_notes_json outputs_data
    reg_root ← decode_string (arg args 5)
    ok (record {
      sender = env.from_address;
      nullifiers = nullifiers;
      merkle_roots = merkle_roots;
      outputs = outputs;
      withdraw_amount = flags.withdraw_amount;
      withdraw_address = flags.withdraw_address;
      denom = arg args 4;
      registration_root = reg_root;
      relayer_fee = flags.relayer_fee;
      proof = proof;
    })

  -- CmdRegister, up to the message
  unfoldable pub cmd_register : List Bytes → Bytes → Result MsgRegister
  cmd_register args auditor_data_flag = do
    fail_if (not (length args == 3)) wrong_arguments
    identity_commitment ← decode_string (arg args 0)
    proof ← read (arg args 1)
    public_inputs ← read (arg args 2)
    auditor_data ← read_auditor_data_flag auditor_data_flag
    ok (record {
      sender = env.from_address;
      identity_commitment = identity_commitment;
      proof = proof;
      public_inputs = public_inputs;
      auditor_encrypted_data = auditor_data;
    })
