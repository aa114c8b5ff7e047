-- ===== src/KeyOutput/Tests.antt =====
-- A served output at a concrete input.
use ika_pre_alpha.Prelude.{
  zero, suc, ◌+◌, ◌*◌, ◌≡◌, refl, true, none, some, [], ◌∷◌, Result, ok, arith,
}
use ika_pre_alpha.Prelude.Bytes.{Bytes}
use ika_pre_alpha.Prelude.Int.{pos}
use ika_pre_alpha.Attested.Kinds.{v1, AttestationProof, AttestationCrypto}
use ika_pre_alpha.Attested.Sample.{marked, repeated}
use ika_pre_alpha.KeyOutput.{
  OutputFailure, ReshareRecordWait, require_length, u64_little_endian,
  network_key_reconfiguration_record_message, network_key_dkg_record_message, within_time_left,
  OutputRun, read_step, record_once_signed,
}
use ika_pre_alpha.KeyOutput.Proof.{verify_decoded_proof, verify_network_key_record_proof}
use ika_pre_alpha.KeyOutput.Output.{
  NetworkKeyOutput, network_output_digest, verify_record_proof, verify_against_record,
  verify_one_output, verify_reshare, verify_network_key_output,
}
use ika_pre_alpha.KeyOutput.Output.Ends.{IsServed, verify_network_key_output_ends}

abbrev a_key : Bytes
a_key = repeated 32 []

abbrev a_proof : AttestationProof
a_proof = record {
  attestation_version = 0;
  signer_noa_public_key = 8 ∷ [];
  network_signature = 7 ∷ [];
}

abbrev proof_crypto : AttestationCrypto
proof_crypto = record {
  keccak_256 = marked;
  ed25519_verify = λ signature message signer. some true;
  parse = λ kind bytes. none;
  serialize = λ kind a. none;
  parse_proof = λ bytes. some (v1 a_proof);
  serialize_proof = λ proof. some (9 ∷ []);
}

abbrev hashed : Bytes → Bytes
hashed bytes = repeated 32 []

abbrev short_wait : ReshareRecordWait
short_wait = record { pause_ms = 2; budget_ms = 5 }

-- Every record is there, and unsigned in the first round.
abbrev signed_later : OutputRun
signed_later = record {
  started = 100;
  record_read = λ kind k. record {
    answer =
        ok (
          some (record { digest = repeated 32 []; proof = elim k [ zero ↦ [] | suc n ↦ 9 ∷ [] ] }));
    settles_at = some (101 + 2 * k);
  };
  asked_at = λ kind k. 100 + 2 * k;
  checked_at = λ kind k. 101 + 2 * k;
  registered_read = λ kind signer. record { answer = ok true; settles_at = some 104 };
  registered_asked_at = λ kind. 104;
}

abbrev an_output : NetworkKeyOutput
an_output = record {
  network_key_id = a_key;
  epoch = pos 4;
  network_dkg_output = 1 ∷ [];
  latest_reconfiguration_output = some (2 ∷ []);
}

is_accepted :
    verify_network_key_output proof_crypto hashed 6 an_output a_key signed_later short_wait
    ≡ some (ok an_output)
unfolding verify_network_key_output verify_reshare verify_one_output verify_against_record
    verify_record_proof verify_network_key_record_proof verify_decoded_proof network_output_digest
    record_once_signed read_step within_time_left network_key_dkg_record_message
    network_key_reconfiguration_record_message require_length u64_little_endian
is_accepted = refl

verify_network_key_output_ends_example :
    (result : Result OutputFailure NetworkKeyOutput) × (verify_network_key_output proof_crypto
        hashed
        (short_wait.budget_ms + 1)
        an_output
        a_key
        signed_later
        short_wait
      ≡ some result)
    × ((accepted : NetworkKeyOutput)
        → result ≡ ok accepted
        → (accepted ≡ an_output) × IsServed proof_crypto hashed signed_later an_output a_key)
verify_network_key_output_ends_example =
    verify_network_key_output_ends proof_crypto hashed signed_later short_wait
      (record { pauses = omega arith; starts = λ kind. omega arith; ticks = λ kind k. omega arith })
      an_output a_key
