-- ===== src/Answers/Tests.antt =====
-- The answer to a re-encryption at a concrete input.
use ika_pre_alpha.Prelude.{◌≡◌, ◌↔◌, [], ◌∷◌, ok}
use ika_pre_alpha.Signing.{HeldAttestation, attestation_response}
use ika_pre_alpha.Attested.Kinds.{encrypted_share_kind}
use ika_pre_alpha.Attested.Record.{attestation_signing_message}
use ika_pre_alpha.Attested.Sample.{
  spelled, bytes_of, an_encrypted_share, sample_crypto, network_key, sample_trusted,
  verified_dwallet,
}
use ika_pre_alpha.Answers.Sent.{SentReEncryptShare}
use ika_pre_alpha.Answers.Checks.{verify_re_encrypt_share_answer}
use ika_pre_alpha.Answers.Checks.ReEncrypted.{IsReEncryptAnswer, verify_re_encrypt_share_answer_iff}

abbrev held : HeldAttestation
held = record {
  attestation_data = bytes_of encrypted_share_kind;
  network_signature =
      spelled network_key
        (attestation_signing_message encrypted_share_kind (bytes_of encrypted_share_kind));
  network_pubkey = 42 ∷ [];
  signer_noa_public_key = network_key;
}

abbrev sent_request : SentReEncryptShare
sent_request = record {
  session_identifier = 11 ∷ [];
  network_key_id = 42 ∷ [];
  encrypted_share_and_proof = 12 ∷ [];
  encryption_key = 13 ∷ [];
  holder_signer_public_key = 14 ∷ [];
}

verify_re_encrypt_share_answer_iff_example :
    (verify_re_encrypt_share_answer sample_crypto
        (attestation_response held)
        sample_trusted
        verified_dwallet
        sent_request
      ≡ ok an_encrypted_share)
    ↔ IsReEncryptAnswer sample_crypto
        (attestation_response held)
        sample_trusted
        verified_dwallet
        sent_request
        an_encrypted_share
verify_re_encrypt_share_answer_iff_example =
    verify_re_encrypt_share_answer_iff sample_crypto (attestation_response held) sample_trusted
      verified_dwallet sent_request an_encrypted_share
