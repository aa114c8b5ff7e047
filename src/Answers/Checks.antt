-- ===== src/Answers/Checks.antt =====
-- answer-checks.ts: the checks of the answers about shares, presigns and future signs.
pub mod Named
pub mod ReEncrypted
use Prim.Native.String.{String}
use ika_pre_alpha.Prelude.{
  ℕ, zero, suc, List, [], ◌∷◌, Bool, true, false, not, ◌&&◌, Option, none, some, ◌==◌,
  if◌then◌else◌, length, Result, ok, err, guard, map_err, ◌>>=◌, ◌>>◌,
}
use ika_pre_alpha.Prelude.Bytes.{Bytes, same_bytes}
use ika_pre_alpha.Prelude.Int.{ℤ, pos, eqb_ℤ}
use ika_pre_alpha.Schemes.{Curve, SchemeError, from_curve_to_number}
use ika_pre_alpha.Networks.{IkaNetwork, TrustedNetworkKeys}
use ika_pre_alpha.Signing.{
  HeldAttestation, TransactionResponse, signature_response, attestation_response, error_response,
  UserCryptography, MetadataCodec, SigningError, verify_signature_with_scheme,
}
use ika_pre_alpha.Answers.Sent.{
  AnswerFailure, attestation_refused, network_refused_request, answered_with_signature,
  SentMakeSharePublic, SentReEncryptShare, SentFutureSign, SentPresign,
}
use ika_pre_alpha.Attested.Kinds.{
  AttestationKind, dwallet_kind, presign_kind, partial_user_signature_kind, Decoded, DWalletCurve,
  curve_index, DWalletSignatureAlgorithm, algorithm_index, DWalletSignatureScheme,
  dwallet_scheme_index, DWalletAttestation, EncryptedShareAttestation, PublicShareAttestation,
  PresignDataAttestation, PartialSignatureAttestation, Versioned, v1, another_variant,
  AttestationRecord, AttestationCrypto, AttestationFailure, failed, binding_check, decode_check,
}
use ika_pre_alpha.Attested.Record.{verify_attestation_record}
use ika_pre_alpha.Attested.Proof.{record_of_attestation}
use ika_pre_alpha.Attested.DWallet.{same_bool, is_some, VerifiedDWalletAttestation}
use ika_pre_alpha.Attested.Shares.{
  dwallet_attestation_digest, verify_encrypted_share_attestation_record,
  verify_public_share_attestation_record,
}
use ika_pre_alpha.Attested.Stored.{verify_attestation_network_key}

pub require_sent : String → Bool → Result AnswerFailure (Unit {0})
require_sent field holds = guard holds (attestation_refused (failed binding_check (some field)))

pub attestation_of_answer :
    TransactionResponse → IkaNetwork → Bytes → Result AnswerFailure HeldAttestation
attestation_of_answer (error_response message) network expected =
    err (network_refused_request message)
attestation_of_answer (signature_response signature) network expected = err answered_with_signature
attestation_of_answer (attestation_response answer) network expected =
    map_err attestation_refused
      (verify_attestation_network_key answer.network_pubkey expected network none)
    >> ok answer

-- `recordOfAttestation` of the whole answer
abbrev pub record_of_answer : HeldAttestation → AttestationRecord
record_of_answer answer =
    record_of_attestation answer.attestation_data answer.network_signature
      answer.signer_noa_public_key

-- The dWallet that the presign is bound to is the one that was sent, or none is.
abbrev pub is_bound_to : Option Bytes → Option Bytes → Bool
is_bound_to bound none = not (is_some bound)
is_bound_to none (some sent) = false
is_bound_to (some bound) (some sent) = same_bytes bound sent

-- `new Uint8Array(n)`
abbrev pub zeros : ℕ → Bytes
zeros zero = []
zeros (suc n) = 0 ∷ zeros n

pub require_presign : PresignDataAttestation → SentPresign → Result AnswerFailure (Unit {0})
require_presign a sent =
    require_sent "session_identifier" (same_bytes a.session_identifier sent.session_identifier)
    >> require_sent "epoch" (eqb_ℤ (pos a.epoch) sent.epoch)
    >> require_sent "curve" (curve_index a.curve == curve_index sent.curve)
    >> require_sent "signature_algorithm"
        (algorithm_index a.signature_algorithm == algorithm_index sent.signature_algorithm)
    >> require_sent "dwallet_public_key" (is_bound_to a.dwallet_public_key sent.dwallet_public_key)

module _ (crypto : AttestationCrypto) where
  open crypto use {keccak_256, parse}

  pub decode_v1 : (kind : AttestationKind) → Bytes → Result AnswerFailure (Decoded kind)
  decode_v1 kind bytes = elim (parse kind bytes) [
    | none ↦ err (attestation_refused (failed decode_check none))
    | some (another_variant name) ↦ err (attestation_refused (failed decode_check none))
    | some (v1 attestation) ↦ ok attestation
  ]

  pub require_made_public :
      PublicShareAttestation → SentMakeSharePublic → Result AnswerFailure (Unit {0})
  require_made_public a sent =
      require_sent "session_identifier" (same_bytes a.session_identifier sent.session_identifier)
      >> require_sent "public_user_secret_key_share"
          (same_bytes a.public_user_secret_key_share sent.public_user_secret_key_share)

  pub verify_make_share_public_answer :
      TransactionResponse
      → TrustedNetworkKeys
      → VerifiedDWalletAttestation
      → SentMakeSharePublic
      → Result AnswerFailure PublicShareAttestation
  verify_make_share_public_answer response trusted dwallet sent = do
    answer ← attestation_of_answer response trusted.network sent.network_key_id
    a ←
        map_err attestation_refused
          (verify_public_share_attestation_record crypto (record_of_answer answer) trusted dwallet)
    require_made_public a sent
    ok a

  pub require_re_encryption :
      EncryptedShareAttestation → SentReEncryptShare → Result AnswerFailure (Unit {0})
  require_re_encryption a sent =
      require_sent "session_identifier" (same_bytes a.session_identifier sent.session_identifier)
      >> require_sent "encrypted_share_hash"
          (same_bytes a.encrypted_share_hash (keccak_256 sent.encrypted_share_and_proof))
      >> require_sent "encryption_key_hash"
          (same_bytes a.encryption_key_hash (keccak_256 sent.encryption_key))

  pub verify_re_encrypt_share_answer :
      TransactionResponse
      → TrustedNetworkKeys
      → VerifiedDWalletAttestation
      → SentReEncryptShare
      → Result AnswerFailure EncryptedShareAttestation
  verify_re_encrypt_share_answer response trusted dwallet sent = do
    answer ← attestation_of_answer response trusted.network sent.network_key_id
    a ← map_err attestation_refused (
        verify_encrypted_share_attestation_record crypto (record_of_answer answer) trusted dwallet
          (record {
            holder_signer_public_key = sent.holder_signer_public_key;
            holder_signature_scheme = none;
          }))
    require_re_encryption a sent
    ok a

  -- The metadata's digest is zero where there is none.
  pub future_sign_message_digests : (message metadata : Bytes) → Bytes × Bytes
  future_sign_message_digests message metadata =
      (keccak_256 message, if length metadata == 0 then zeros 32 else keccak_256 metadata)

  pub require_future_sign :
      PartialSignatureAttestation → SentFutureSign → Result AnswerFailure (Unit {0})
  require_future_sign a sent = do
    let (message_digest, message_metadata_digest) =
        future_sign_message_digests sent.message sent.message_metadata
    require_sent "session_identifier" (same_bytes a.session_identifier sent.session_identifier)
    require_sent "intended_chain_sender"
        (same_bytes a.intended_chain_sender sent.intended_chain_sender)
    dwallet ← decode_v1 dwallet_kind sent.dwallet_attestation.attestation_data
    require_sent "dwallet_public_key" (same_bytes a.dwallet_public_key dwallet.public_key)
    require_sent "dwallet_attestation_hash" (
        same_bytes a.dwallet_attestation_hash
          (dwallet_attestation_digest crypto sent.dwallet_attestation.attestation_data))
    require_sent "future_signature_voucher"
        (same_bytes a.future_signature_voucher sent.future_signature_voucher)
    presign ← decode_v1 presign_kind sent.presign_attestation.attestation_data
    require_sent "presign_session_identifier"
        (same_bytes a.presign_session_identifier presign.presign_session_identifier)
    require_sent "presign_attestation_hash" (
        same_bytes a.presign_attestation_hash
          (keccak_256 sent.presign_attestation.attestation_data))
    require_sent "message_digest" (
        same_bytes a.message_digest message_digest
        && same_bytes a.message_metadata_digest message_metadata_digest)
    require_sent "signature_scheme"
        (dwallet_scheme_index a.signature_scheme == dwallet_scheme_index sent.signature_scheme)

  pub verify_future_sign_answer :
      TransactionResponse
      → TrustedNetworkKeys
      → SentFutureSign
      → Result AnswerFailure PartialSignatureAttestation
  verify_future_sign_answer response trusted sent = do
    answer ← attestation_of_answer response trusted.network sent.dwallet_attestation.network_pubkey
    map_err attestation_refused (
        verify_attestation_record crypto (record_of_answer answer) trusted
          partial_user_signature_kind none)
    a ← decode_v1 partial_user_signature_kind answer.attestation_data
    require_future_sign a sent
    ok a

  pub verify_presign_answer :
      TransactionResponse
      → TrustedNetworkKeys
      → SentPresign
      → Result AnswerFailure PresignDataAttestation
  verify_presign_answer response trusted sent = do
    answer ← attestation_of_answer response trusted.network sent.network_key_id
    map_err attestation_refused
        (verify_attestation_record crypto (record_of_answer answer) trusted presign_kind none)
    a ← decode_v1 presign_kind answer.attestation_data
    require_presign a sent
    ok a
