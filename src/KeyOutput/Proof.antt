-- ===== src/KeyOutput/Proof.antt =====
-- network-key-output.ts: the proof that a record of a network key stores.
pub mod Genuine
use ika_pre_alpha.Prelude.{
  ℕ, Bool, true, false, not, ◌&&◌, Option, none, some, List, [], ◌∷◌, ◌==◌, length, all, Result, ok,
  err, guard, map_err, ◌>>=◌, ◌>>◌,
}
use ika_pre_alpha.Prelude.Bytes.{Bytes, same_bytes, among}
use ika_pre_alpha.Prelude.Int.{ℤ}
use ika_pre_alpha.Networks.{TrustedNetworkKeys}
use ika_pre_alpha.Attested.Kinds.{
  Versioned, v1, another_variant, AttestationProof, AttestationCrypto, AttestationFailure, failed,
  bcs_threw, version_check, signer_check, signature_check, decode_check,
}
use ika_pre_alpha.Attested.Record.{is_verified}
use ika_pre_alpha.KeyOutput.{
  OutputFailure, attestation_failed, network_key_reconfiguration_record_message,
  network_key_dkg_record_message,
}

abbrev pub is_all_zero : Bytes → Bool
is_all_zero bytes = not (length bytes == 0) && all (λ byte. byte == 0) bytes

abbrev pub not_decoded : AttestationFailure
not_decoded = failed decode_check none

module _ (crypto : AttestationCrypto) where
  open crypto use {ed25519_verify, parse_proof, serialize_proof}

  -- `decoded.V1` of another variant is `undefined`, whose field throws.
  unfoldable pub verify_decoded_proof :
      (message : Bytes) → Versioned AttestationProof → Result AttestationFailure Bytes
  verify_decoded_proof message (another_variant name) = err bcs_threw
  verify_decoded_proof message (v1 proof) = do
    guard (proof.attestation_version == 0) (failed version_check none)
    guard (is_verified (ed25519_verify proof.network_signature message proof.signer_noa_public_key))
        (failed signature_check none)
    ok proof.signer_noa_public_key

  unfoldable pub verify_network_key_record_proof :
      (message proof : Bytes) → Result AttestationFailure Bytes
  verify_network_key_record_proof message proof =
      guard (not (is_all_zero proof)) not_decoded >> elim (parse_proof proof) [
        | none ↦ err not_decoded
        | some decoded ↦ elim (serialize_proof decoded) [
          | none ↦ err not_decoded
          | some written ↦
              guard (same_bytes written proof) not_decoded >> verify_decoded_proof message decoded
        ]
      ]

  pub verify_trusted_record_proof :
      (message proof : Bytes) → TrustedNetworkKeys → Result OutputFailure (Unit {0})
  verify_trusted_record_proof message proof trusted = do
    signer ← map_err attestation_failed (verify_network_key_record_proof message proof)
    guard (among signer trusted.public_keys) (attestation_failed (failed signer_check none))

  pub verify_network_key_dkg_record :
      (key digest proof : Bytes) → TrustedNetworkKeys → Result OutputFailure (Unit {0})
  verify_network_key_dkg_record key digest proof trusted = do
    message ← network_key_dkg_record_message key digest
    verify_trusted_record_proof message proof trusted

  pub verify_network_key_reconfiguration_record :
      (key : Bytes) (epoch : ℤ) (digest proof : Bytes)
      → TrustedNetworkKeys
      → Result OutputFailure (Unit {0})
  verify_network_key_reconfiguration_record key epoch digest proof trusted = do
    message ← network_key_reconfiguration_record_message key epoch digest
    verify_trusted_record_proof message proof trusted
