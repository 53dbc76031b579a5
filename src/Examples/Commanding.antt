-- ===== src/Examples/Commanding.antt =====
-- One transact command, and the limbs of one denomination.
use cosmos_nixpool.Prelude.{
  ◌≡◌, refl, ◌^◌, [], ◌∷◌, codes, arith, bytes_equal, if◌then◌else◌, none, some,
}
use cosmos_nixpool.External.{External}
use cosmos_nixpool.Types.Errors.{ok}
use cosmos_nixpool.Types.Msgs.{MsgTransact, OutputNote}
use cosmos_nixpool.Keeper.Verify.Limbs.{string_limbs_injective}
use cosmos_nixpool.Client.{Environment, cmd_transact}
use cosmos_nixpool.Client.Printed.{
  hex_note, IsByteNote, transact_args, transact_flags, cmd_transact-Printed,
}
use cosmos_nixpool.Examples.Toy.{toy}

abbrev note : OutputNote
note = record {
  note_hash = 5 ∷ [];
  ephemeral_x = 171 ∷ 255 ∷ [];
  ephemeral_y = [];
  enc_amount = [];
  enc_salt = [];
  auditor_enc = [];
  auditor_auth_key_x = [];
  auditor_auth_key_y = [];
  auditor_enc_recipient = 1 ∷ 2 ∷ [];
}

note-IsByteNote : IsByteNote note
note-IsByteNote = record {
  note_hash = (omega arith, tt);
  ephemeral_x = (omega arith, (omega arith, tt));
  ephemeral_y = tt;
  enc_amount = tt;
  enc_salt = tt;
  auditor_enc = tt;
  auditor_auth_key_x = tt;
  auditor_auth_key_y = tt;
  auditor_enc_recipient = (omega arith, (omega arith, tt));
}

abbrev transfer : MsgTransact
transfer = record {
  sender = codes "alice";
  nullifiers = (1 ∷ []) ∷ (202 ∷ 254 ∷ []) ∷ [];
  merkle_roots = (3 ∷ []) ∷ (4 ∷ []) ∷ [];
  outputs = note ∷ note ∷ [];
  withdraw_amount = codes "0";
  withdraw_address = [];
  denom = codes "anix";
  registration_root = 9 ∷ [];
  relayer_fee = codes "0";
  proof = 7 ∷ 7 ∷ [];
}

-- Two files, the second of which holds the outputs.
abbrev laptop : Environment
laptop = record {
  from_address = codes "alice";
  read_file = λ path.
      if bytes_equal path (codes "proof")
      then some (7 ∷ 7 ∷ [])
      else if bytes_equal path (codes "outputs")
      then some (codes "[]")
      else none;
  unmarshal_notes = λ content. some (hex_note note ∷ hex_note note ∷ []);
}

cmd_transact-Printed_example :
    cmd_transact laptop
      (transact_args
        (codes "proof")
        (codes "outputs")
        (1 ∷ [])
        (202 ∷ 254 ∷ [])
        (3 ∷ [])
        (4 ∷ [])
        transfer)
      (transact_flags transfer)
    ≡ ok transfer
cmd_transact-Printed_example =
    cmd_transact-Printed laptop (codes "proof") (codes "outputs") (codes "[]") (1 ∷ [])
      (202 ∷ 254 ∷ []) (3 ∷ []) (4 ∷ []) note note transfer
      (record {
        sender = refl;
        nullifiers = (refl, ((omega arith, tt), (omega arith, (omega arith, tt))));
        merkle_roots = (refl, ((omega arith, tt), (omega arith, tt)));
        outputs = (refl, (note-IsByteNote, note-IsByteNote));
        registration_root = (omega arith, tt);
        proof_file = refl;
        outputs_file = refl;
        outputs_json = refl;
      })

-- The toy parameters over a field as wide as the code's.
abbrev wide : External
wide = record toy { modulus = 2 ^ 253 }

string_limbs_injective_example : codes "anix" ≡ codes "anix"
string_limbs_injective_example =
    string_limbs_injective wide (omega arith) (codes "anix") (codes "anix")
      (omega arith, (omega arith, (omega arith, (omega arith, tt))))
      (omega arith, (omega arith, (omega arith, (omega arith, tt)))) (omega arith) (omega arith)
      refl
