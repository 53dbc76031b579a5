-- ===== src/Client/Printed.antt =====
-- The commands on arguments that are printed from a message: they build the message again.
use cosmos_nixpool.Prelude.{◌≡◌, refl, sym, ap, ◌∙◌, List, [], ◌∷◌, ◌++◌, Bytes, arith, inl, some}
use cosmos_nixpool.Field.Encoding.{IsBytes}
use cosmos_nixpool.Strings.{split, HasNo, split-append, split-last, trim_space}
use cosmos_nixpool.Strings.Trim.{trim_space-printable}
use cosmos_nixpool.Types.Errors.{ok}
use cosmos_nixpool.Types.Msgs.{MsgTransact, OutputNote}
use cosmos_nixpool.Crypto.Hex.{hex_of, hex_bytes}
use cosmos_nixpool.Crypto.Hex.Digits.{
  hex_bytes-hex_of, hex_of-IsDigit, IsDigit-HasNo, IsDigit-IsPrintable,
}
use cosmos_nixpool.Client.{
  OutputNoteHex, Environment, TransactFlags, comma, decode_each, decode_pair, decode_note,
  decode_notes, read, parse_output_notes_json, cmd_transact,
}

-- Two byte strings as the command line gives them.
abbrev pub csv : Bytes → Bytes → Bytes
csv a b = hex_of a ++ (comma ∷ hex_of b)

decode_one : (b : Bytes) → IsBytes b → hex_bytes (trim_space (hex_of b)) ≡ ok b
decode_one b h =
    rw (trim_space-printable (hex_of b) (IsDigit-IsPrintable (hex_of b) (hex_of-IsDigit b h)))
      (hex_bytes-hex_of b h)

hex-HasNo : (b : Bytes) → IsBytes b → HasNo comma (hex_of b)
hex-HasNo b h = IsDigit-HasNo comma (hex_of b) (inl (omega arith)) (hex_of-IsDigit b h)

split-csv : (a b : Bytes) → IsBytes a → IsBytes b → split comma (csv a b) ≡ hex_of a ∷ hex_of b ∷ []
split-csv a b ha hb =
    split-append comma (hex_of a) (hex_of b) refl (hex-HasNo a ha)
    ∙ ap (λ (r : List Bytes). hex_of a ∷ r) (split-last comma (hex_of b) (hex-HasNo b hb))

pub decode_pair-csv :
    (a b : Bytes) → IsBytes a → IsBytes b → decode_pair (csv a b) ≡ ok (a ∷ b ∷ [])
unfolding decode_pair decode_each
decode_pair-csv a b ha hb = rw (split-csv a b ha hb, decode_one a ha, decode_one b hb) refl

-- A note in hex digits, as the outputs file has it.
abbrev pub hex_note : OutputNote → OutputNoteHex
hex_note o = record {
  note_hash = hex_of o.note_hash;
  ephemeral_x = hex_of o.ephemeral_x;
  ephemeral_y = hex_of o.ephemeral_y;
  enc_amount = hex_of o.enc_amount;
  enc_salt = hex_of o.enc_salt;
  auditor_enc = hex_of o.auditor_enc;
  auditor_auth_key_x = hex_of o.auditor_auth_key_x;
  auditor_auth_key_y = hex_of o.auditor_auth_key_y;
  auditor_enc_recipient = hex_of o.auditor_enc_recipient;
}

-- A note whose fields are bytes.
pub record IsByteNote (o : OutputNote) : Type 0 where
  pub note_hash : IsBytes o.note_hash
  pub ephemeral_x : IsBytes o.ephemeral_x
  pub ephemeral_y : IsBytes o.ephemeral_y
  pub enc_amount : IsBytes o.enc_amount
  pub enc_salt : IsBytes o.enc_salt
  pub auditor_enc : IsBytes o.auditor_enc
  pub auditor_auth_key_x : IsBytes o.auditor_auth_key_x
  pub auditor_auth_key_y : IsBytes o.auditor_auth_key_y
  pub auditor_enc_recipient : IsBytes o.auditor_enc_recipient

decode_note-hex_note : (o : OutputNote) → IsByteNote o → decode_note (hex_note o) ≡ ok o
unfolding decode_note
decode_note-hex_note o h =
    rw
      (
        hex_bytes-hex_of o.note_hash h.note_hash,
        hex_bytes-hex_of o.ephemeral_x h.ephemeral_x,
        hex_bytes-hex_of o.ephemeral_y h.ephemeral_y,
        hex_bytes-hex_of o.enc_amount h.enc_amount,
        hex_bytes-hex_of o.enc_salt h.enc_salt,
        hex_bytes-hex_of o.auditor_enc h.auditor_enc,
        hex_bytes-hex_of o.auditor_auth_key_x h.auditor_auth_key_x,
        hex_bytes-hex_of o.auditor_auth_key_y h.auditor_auth_key_y,
        hex_bytes-hex_of o.auditor_enc_recipient h.auditor_enc_recipient,
      )
      refl

-- The parts of a transaction that the command line tells, and the files that it names.
pub record Printed (env : Environment) (proof_path outputs_path json : Bytes) (n1 n2 r1 r2 : Bytes)
    (o1 o2 : OutputNote) (msg : MsgTransact) : Type 0 where
  pub sender : msg.sender ≡ env.from_address
  pub nullifiers : (msg.nullifiers ≡ n1 ∷ n2 ∷ []) × (IsBytes n1 × IsBytes n2)
  pub merkle_roots : (msg.merkle_roots ≡ r1 ∷ r2 ∷ []) × (IsBytes r1 × IsBytes r2)
  pub outputs : (msg.outputs ≡ o1 ∷ o2 ∷ []) × (IsByteNote o1 × IsByteNote o2)
  pub registration_root : IsBytes msg.registration_root
  pub proof_file : env.read_file proof_path ≡ some msg.proof
  pub outputs_file : env.read_file outputs_path ≡ some json
  pub outputs_json : env.unmarshal_notes json ≡ some (hex_note o1 ∷ hex_note o2 ∷ [])

-- The arguments of `transact` that print a message.
abbrev pub transact_args : Bytes → Bytes → Bytes → Bytes → Bytes → Bytes → MsgTransact → List Bytes
transact_args proof_path outputs_path n1 n2 r1 r2 msg =
    proof_path
    ∷ csv n1 n2
    ∷ csv r1 r2
    ∷ outputs_path
    ∷ msg.denom
    ∷ hex_of msg.registration_root
    ∷ []

abbrev pub transact_flags : MsgTransact → TransactFlags
transact_flags msg = record {
  withdraw_amount = msg.withdraw_amount;
  withdraw_address = msg.withdraw_address;
  relayer_fee = msg.relayer_fee;
}

parse_printed :
    (env : Environment) (json : Bytes) (o1 o2 : OutputNote)
    → IsByteNote o1
    → IsByteNote o2
    → env.unmarshal_notes json ≡ some (hex_note o1 ∷ hex_note o2 ∷ [])
    → parse_output_notes_json env json ≡ ok (o1 ∷ o2 ∷ [])
unfolding parse_output_notes_json decode_notes
parse_printed env json o1 o2 h1 h2 e =
    rw (e, decode_note-hex_note o1 h1, decode_note-hex_note o2 h2) refl

-- A Transact from the client's own address with two nullifiers, two roots and two outputs, all of
-- them bytes, whose fields are printed in hex on the command line and in the outputs file, and whose
-- proof is in the proof file, is the message that CmdTransact builds.
pub cmd_transact-Printed :
    (env : Environment) (proof_path outputs_path json n1 n2 r1 r2 : Bytes) (o1 o2 : OutputNote)
    (msg : MsgTransact)
    → Printed env proof_path outputs_path json n1 n2 r1 r2 o1 o2 msg
    → cmd_transact env (transact_args proof_path outputs_path n1 n2 r1 r2 msg) (transact_flags msg)
      ≡ ok msg
unfolding cmd_transact read
cmd_transact-Printed env proof_path outputs_path json n1 n2 r1 r2 o1 o2 msg h =
    let (nullifiers, (bn1, bn2)) = h.nullifiers in
    let (roots, (br1, br2)) = h.merkle_roots in
    let (outputs, (bo1, bo2)) = h.outputs in
    rw
      (
        h.proof_file,
        decode_pair-csv n1 n2 bn1 bn2,
        decode_pair-csv r1 r2 br1 br2,
        h.outputs_file,
        parse_printed env json o1 o2 bo1 bo2 h.outputs_json,
        hex_bytes-hex_of msg.registration_root h.registration_root,
      )
      (λ j. ok (record msg {
        sender = sym h.sender j;
        nullifiers = sym nullifiers j;
        merkle_roots = sym roots j;
        outputs = sym outputs j;
      }))
