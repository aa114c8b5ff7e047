-- ===== src/Attested/Voucher.antt =====
-- attestation-record.ts: the attestation that a future signature voucher stores as its fields.
pub mod Rebuilt
mod Tests
use ika_pre_alpha.Prelude.{ℕ, Option, none, some, ◌==◌, Result, ok, err, guard, ◌>>=◌, ◌>>◌}
use ika_pre_alpha.Prelude.Bytes.{Bytes, same_bytes}
use ika_pre_alpha.Networks.{TrustedNetworkKeys}
use ika_pre_alpha.Attested.Kinds.{
  presign_kind, partial_user_signature_kind, dwallet_scheme_index, PresignDataAttestation,
  PartialSignatureAttestation, AttestationRecord, AttestationProof, AttestationCrypto,
  AttestationFailure,
}
use ika_pre_alpha.Attested.Record.{verify_and_decode}
use ika_pre_alpha.Attested.Proof.{attestation_record_of, rebuild_partial_signature_attestation}
use ika_pre_alpha.Attested.DWallet.{require_field}

pub record StoredVoucher : Type 0 where
  pub address : Bytes
  pub message_digest : Bytes
  pub message_metadata_digest : Bytes
  pub signature_scheme : ℕ

pub require_voucher :
    PartialSignatureAttestation → StoredVoucher → Result AttestationFailure (Unit {0})
require_voucher a voucher =
    require_field "future_signature_voucher" (same_bytes a.future_signature_voucher voucher.address)
    >> require_field "message_digest" (same_bytes a.message_digest voucher.message_digest)
    >> require_field "message_metadata_digest"
        (same_bytes a.message_metadata_digest voucher.message_metadata_digest)
    >> require_field "signature_scheme"
        (dwallet_scheme_index a.signature_scheme == voucher.signature_scheme)

module _ (crypto : AttestationCrypto) where
  pub verify_presign_attestation_record :
      AttestationRecord → TrustedNetworkKeys → Result AttestationFailure PresignDataAttestation
  verify_presign_attestation_record stored trusted =
      verify_and_decode crypto stored trusted presign_kind none

  pub verify_partial_signature_attestation_record :
      AttestationRecord → TrustedNetworkKeys → Result AttestationFailure PartialSignatureAttestation
  verify_partial_signature_attestation_record stored trusted =
      verify_and_decode crypto stored trusted partial_user_signature_kind none

  pub verify_partial_signature_voucher_record :
      AttestationProof
      → PartialSignatureAttestation
      → TrustedNetworkKeys
      → StoredVoucher
      → Result AttestationFailure PartialSignatureAttestation
  verify_partial_signature_voucher_record proof fields trusted voucher = do
    rebuilt ← rebuild_partial_signature_attestation crypto proof.attestation_version fields
    a ← verify_partial_signature_attestation_record (attestation_record_of proof rebuilt) trusted
    require_voucher a voucher
    ok a
