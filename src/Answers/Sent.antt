-- ===== src/Answers/Sent.antt =====
-- answer-checks.ts: what a request sent, and how the check of its answer fails.
use Prim.Native.String.{String}
use ika_pre_alpha.Prelude.{ℕ, Option}
use ika_pre_alpha.Prelude.Bytes.{Bytes}
use ika_pre_alpha.Prelude.Int.{ℤ}
use ika_pre_alpha.Schemes.{Curve, SchemeError}
use ika_pre_alpha.Signing.{HeldAttestation, SigningError}
use ika_pre_alpha.Attested.Kinds.{
  DWalletCurve, DWalletSignatureAlgorithm, DWalletSignatureScheme, AttestationFailure,
}

-- An `AttestationRecordError`, or an error that the check or the client's cryptography throws.
pub data AnswerFailure : Type 0 where
  attestation_refused : AttestationFailure → AnswerFailure
  network_refused_request : String → AnswerFailure
  answered_with_signature : AnswerFailure
  curve_threw : SchemeError → AnswerFailure
  cryptography_failed : String → AnswerFailure
  signature_refused : SigningError → AnswerFailure

pub record SentMakeSharePublic : Type 0 where
  pub session_identifier : Bytes
  pub network_key_id : Bytes
  pub public_user_secret_key_share : Bytes

pub record SentReEncryptShare : Type 0 where
  pub session_identifier : Bytes
  pub network_key_id : Bytes
  pub encrypted_share_and_proof : Bytes
  pub encryption_key : Bytes
  pub holder_signer_public_key : Bytes

pub record SentFutureSign : Type 0 where
  pub session_identifier : Bytes
  pub intended_chain_sender : Bytes
  pub dwallet_attestation : HeldAttestation
  pub presign_attestation : HeldAttestation
  pub message : Bytes
  pub message_metadata : Bytes
  pub signature_scheme : DWalletSignatureScheme
  pub future_signature_voucher : Bytes

pub record SentPresign : Type 0 where
  pub session_identifier : Bytes
  pub epoch : ℤ
  pub curve : DWalletCurve
  pub signature_algorithm : DWalletSignatureAlgorithm
  pub dwallet_public_key : Option Bytes
  pub network_key_id : Bytes

pub record SentSignDuringDkg : Type 0 where
  pub message : Bytes
  pub message_metadata : Bytes
  pub signature_scheme : ℕ

pub record SentPublicShareDkg : Type 0 where
  pub session_identifier : Bytes
  pub intended_chain_sender : Bytes
  pub curve : Curve
  pub network_key_id : Bytes
  pub user_public_output : Bytes
  pub sign_during_dkg : Option SentSignDuringDkg

pub record PublicShareDkgAnswer : Type 0 where
  pub attestation : HeldAttestation
  pub public_key : Bytes
  pub public_output : Bytes
  pub signature : Option Bytes
