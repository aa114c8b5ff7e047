-- ===== src/Attested/Proof.antt =====
-- attestation-record.ts: the proof envelope of a chain record, and the bytes rebuilt from its fields.
pub mod Rebuilds
use Prim.Native.String.{String}
use ika_pre_alpha.Prelude.{ℕ, Option, none, some, [], ◌∷◌, Result, ok, err, guard, ◌>>=◌, ◌>>◌}
use ika_pre_alpha.Prelude.Bytes.{Bytes, same_bytes}
use ika_pre_alpha.Attested.Kinds.{
  AttestationKind, dwallet_kind, partial_user_signature_kind, encrypted_share_kind,
  public_share_kind, Decoded, DWalletAttestation, EncryptedShareAttestation, PublicShareAttestation,
  PartialSignatureAttestation, Versioned, v1, another_variant, AttestationRecord, AttestationProof,
  AttestationCrypto, AttestationFailure, failed, bcs_threw, version_check, record_check,
}
use ika_pre_alpha.Attested.Record.{require_known_version}

-- The version is the first byte, and 255 where there is none. The arguments are the answer's
-- `attestation_data`, `network_signature` and `signer_noa_public_key`.
unfoldable pub record_of_attestation : Bytes → Bytes → Bytes → AttestationRecord
record_of_attestation bytes signature signer = record {
  attestation_data = bytes;
  attestation_version = elim bytes [ [] ↦ 255 | first ∷ rest ↦ first ];
  network_signature = signature;
  signer_noa_public_key = signer;
}

unfoldable pub attestation_record_of : AttestationProof → Bytes → AttestationRecord
attestation_record_of proof attestation_data = record {
  attestation_data = attestation_data;
  attestation_version = proof.attestation_version;
  network_signature = proof.network_signature;
  signer_noa_public_key = proof.signer_noa_public_key;
}

abbrev pub not_a_proof : AttestationFailure
not_a_proof = failed record_check (some "attestation_proof")

pub require_known_proof : Versioned AttestationProof → Result AttestationFailure AttestationProof
require_known_proof (another_variant name) = err not_a_proof
require_known_proof (v1 proof) = require_known_version proof.attestation_version >> ok proof

module _ (crypto : AttestationCrypto) where
  open crypto use {serialize, parse_proof, serialize_proof}

  pub decode_attestation_proof : Bytes → Result AttestationFailure AttestationProof
  decode_attestation_proof bytes = elim (parse_proof bytes) [
    | none ↦ err not_a_proof
    | some decoded ↦ elim (serialize_proof decoded) [
      | none ↦ err bcs_threw
      | some reserialized ↦
          guard (same_bytes reserialized bytes) not_a_proof >> require_known_proof decoded
    ]
  ]

  -- `requireKnownVersion`, then `writeAttestation` around the serialization of `{ V1: fields }`.
  pub rebuild_attestation :
      (kind : AttestationKind) → ℕ → Decoded kind → Result AttestationFailure Bytes
  rebuild_attestation kind version fields =
      require_known_version version >> elim (serialize kind (v1 fields)) [
        | none ↦ err (failed record_check none)
        | some bytes ↦ ok bytes
      ]

  pub rebuild_dwallet_attestation : ℕ → DWalletAttestation → Result AttestationFailure Bytes
  rebuild_dwallet_attestation version fields = rebuild_attestation dwallet_kind version fields

  pub rebuild_encrypted_share_attestation :
      ℕ → EncryptedShareAttestation → Result AttestationFailure Bytes
  rebuild_encrypted_share_attestation version fields =
      rebuild_attestation encrypted_share_kind version fields

  pub rebuild_public_share_attestation :
      ℕ → PublicShareAttestation → Result AttestationFailure Bytes
  rebuild_public_share_attestation version fields =
      rebuild_attestation public_share_kind version fields

  pub rebuild_partial_signature_attestation :
      ℕ → PartialSignatureAttestation → Result AttestationFailure Bytes
  rebuild_partial_signature_attestation version fields =
      rebuild_attestation partial_user_signature_kind version fields
