-- ===== src/Answers/PublicDkg.antt =====
-- answer-checks.ts: the check of the answer to a DKG whose share is public.

use ika_pre_alpha.Prelude.{
  Bool, not, ◌&&◌, Option, none, some, ◌==◌, Result, ok, map_err, ◌>>=◌, ◌>>◌,
}
use ika_pre_alpha.Prelude.Bytes.{Bytes, same_bytes}
use ika_pre_alpha.Schemes.{Curve, from_curve_to_number}
use ika_pre_alpha.Networks.{TrustedNetworkKeys}
use ika_pre_alpha.Signing.{
  TransactionResponse, UserCryptography, MetadataCodec, verify_signature_with_scheme,
}
use ika_pre_alpha.Attested.Kinds.{dwallet_kind, curve_index, DWalletAttestation, AttestationCrypto}
use ika_pre_alpha.Attested.Record.{verify_attestation_record}
use ika_pre_alpha.Attested.DWallet.{same_bool, is_some}
use ika_pre_alpha.Attested.Stored.{verify_attestation_network_key}
use ika_pre_alpha.Answers.Sent.{
  AnswerFailure, attestation_refused, curve_threw, cryptography_failed, signature_refused,
  SentSignDuringDkg, SentPublicShareDkg, PublicShareDkgAnswer,
}
use ika_pre_alpha.Answers.Checks.{require_sent, attestation_of_answer, record_of_answer, decode_v1}

abbrev pub names_no_share : DWalletAttestation → Bool
names_no_share a =
    not (is_some a.holder)
    && (not (is_some a.encryption_key_hash) && not (is_some a.encrypted_share_hash))

module _ (crypto : AttestationCrypto) (codec : MetadataCodec)
    (cryptography : UserCryptography) where
  open cryptography use {user_and_network_dkg_output_match, public_key_from_dwallet_output}

  -- The signature is checked where a sign during DKG was sent and a signature is there.
  pub require_sign_during_dkg :
      (curve : Curve) (public_output : Bytes)
      → Option SentSignDuringDkg
      → Option Bytes
      → Result AnswerFailure (Unit {0})
  require_sign_during_dkg curve public_output none signature = ok tt
  require_sign_during_dkg curve public_output (some sent) none = ok tt
  require_sign_during_dkg curve public_output (some sent) (some signature) = do
    number ← map_err curve_threw (from_curve_to_number curve)
    map_err signature_refused (
        verify_signature_with_scheme codec cryptography (record {
          curve = number;
          signature_scheme = sent.signature_scheme;
          message = sent.message;
          message_metadata = sent.message_metadata;
          dwallet_public_output = public_output;
          signature = signature;
        }))

  pub require_public_share_dkg :
      DWalletAttestation → SentPublicShareDkg → Result AnswerFailure (Unit {0})
  require_public_share_dkg a sent = do
    require_sent "session_identifier" (same_bytes a.session_identifier sent.session_identifier)
    require_sent "intended_chain_sender"
        (same_bytes a.intended_chain_sender sent.intended_chain_sender)
    number ← map_err curve_threw (from_curve_to_number sent.curve)
    require_sent "curve" (curve_index a.curve == number)
    require_sent "is_imported_key" (not a.is_imported_key)
    require_sent "holder" (names_no_share a)
    matches ←
        map_err cryptography_failed
          (user_and_network_dkg_output_match sent.curve sent.user_public_output a.public_output)
    require_sent "public_output" matches
    key ← map_err cryptography_failed (public_key_from_dwallet_output sent.curve a.public_output)
    require_sent "public_key" (same_bytes a.public_key key)
    require_sent "sign_during_dkg_signature"
        (same_bool (not (is_some a.sign_during_dkg_signature)) (not (is_some sent.sign_during_dkg)))
    require_sign_during_dkg sent.curve a.public_output sent.sign_during_dkg
        a.sign_during_dkg_signature

  pub verify_public_share_dkg_answer :
      TransactionResponse
      → TrustedNetworkKeys
      → SentPublicShareDkg
      → Result AnswerFailure PublicShareDkgAnswer
  verify_public_share_dkg_answer response trusted sent = do
    answer ← attestation_of_answer response trusted.network sent.network_key_id
    map_err attestation_refused
        (verify_attestation_record crypto (record_of_answer answer) trusted dwallet_kind none)
    map_err attestation_refused (
        verify_attestation_network_key answer.network_pubkey sent.network_key_id trusted.network
          (some trusted))
    a ← decode_v1 crypto dwallet_kind answer.attestation_data
    require_public_share_dkg a sent
    ok (record {
      attestation = answer;
      public_key = a.public_key;
      public_output = a.public_output;
      signature = a.sign_during_dkg_signature;
    })
