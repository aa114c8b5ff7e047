-- ===== src/Attested/Voucher/Rebuilt.antt =====
-- A voucher's attestation is the one whose fields it stores.
use ika_pre_alpha.Prelude.{
  ◌≡◌, sym, ap, ◌∙◌, ◌↔◌, inl, inr, true, ==_iff, Option, none, some, ok, Result-cases, arith,
}
use mathlib.Core.List.{Memᴰ}
use ika_pre_alpha.Prelude.Bytes.{Bytes, same_bytes_iff}
use ika_pre_alpha.Networks.{TrustedNetworkKeys}
use ika_pre_alpha.Attested.Kinds.{
  AttestationKind, partial_user_signature_kind, dwallet_scheme_index, Decoded, Versioned, v1,
  PartialSignatureAttestation, AttestationProof, AttestationCrypto,
}
use ika_pre_alpha.Attested.Record.{attestation_signing_message, reserialized, verify_and_decode}
use ika_pre_alpha.Attested.Record.Accepted.{IsAttested, verify_and_decode_iff}
use ika_pre_alpha.Attested.Proof.{attestation_record_of, rebuild_partial_signature_attestation}
use ika_pre_alpha.Attested.Proof.Rebuilds.{rebuild_partial_signature_attestation_iff}
use ika_pre_alpha.Attested.DWallet.{require_field}
use ika_pre_alpha.Attested.Voucher.{
  StoredVoucher, require_voucher, verify_partial_signature_attestation_record,
  verify_partial_signature_voucher_record,
}

-- Parsing gives back what was serialized, as BCS does.
abbrev pub ParsesBack : AttestationCrypto → Type 0
ParsesBack crypto =
    (kind : AttestationKind) (a : Decoded kind) (bytes : Bytes)
    → crypto.serialize kind (v1 a) ≡ some bytes
    → crypto.parse kind bytes ≡ some (v1 a)

-- The attestation is of the voucher it was read from.
pub record IsOfVoucher (a : PartialSignatureAttestation) (voucher : StoredVoucher) : Type 0 where
  pub address : a.future_signature_voucher ≡ voucher.address
  pub message : a.message_digest ≡ voucher.message_digest
  pub metadata : a.message_metadata_digest ≡ voucher.message_metadata_digest
  pub scheme : dwallet_scheme_index a.signature_scheme ≡ voucher.signature_scheme

same_v1 :
    (a b : PartialSignatureAttestation)
    → ◌≡◌ {A = Option (Versioned PartialSignatureAttestation)} (some (v1 a)) (some (v1 b))
    → a ≡ b
same_v1 a b h = ground arith

require_voucher_iff :
    (a : PartialSignatureAttestation) (voucher : StoredVoucher)
    → (require_voucher a voucher ≡ ok tt) ↔ IsOfVoucher a voucher
unfolding require_voucher require_field
require_voucher_iff a voucher = (
  λ h. record {
    address = (same_bytes_iff a.future_signature_voucher voucher.address).0 (ground arith);
    message = (same_bytes_iff a.message_digest voucher.message_digest).0 (ground arith);
    metadata =
        (same_bytes_iff a.message_metadata_digest voucher.message_metadata_digest).0 (ground arith);
    scheme =
        (==_iff (dwallet_scheme_index a.signature_scheme) voucher.signature_scheme).0
          (ground arith);
  },
  λ h.
      let address = (same_bytes_iff a.future_signature_voucher voucher.address).1 h.address in
      let message = (same_bytes_iff a.message_digest voucher.message_digest).1 h.message in
      let metadata =
        (same_bytes_iff a.message_metadata_digest voucher.message_metadata_digest).1 h.metadata in
      ground arith,
)

module _ (crypto : AttestationCrypto) where
  open crypto use {ed25519_verify, serialize}

  -- The network signed the bytes of exactly these fields.
  pub record IsSigned (proof : AttestationProof) (trusted : TrustedNetworkKeys)
      (fields : PartialSignatureAttestation) : Type 0 where
    pub version : proof.attestation_version ≡ 0
    pub signer : Memᴰ proof.signer_noa_public_key trusted.public_keys
    pub bytes : Bytes
    pub written : serialize partial_user_signature_kind (v1 fields) ≡ some bytes
    pub verified :
        ed25519_verify proof.network_signature
          (attestation_signing_message partial_user_signature_kind bytes)
          proof.signer_noa_public_key
        ≡ some true

  attested_iff :
      (proof : AttestationProof) (trusted : TrustedNetworkKeys) (bytes : Bytes)
      (a : PartialSignatureAttestation)
      → (verify_and_decode crypto
            (attestation_record_of proof bytes)
            trusted
            partial_user_signature_kind
            none
          ≡ ok a)
        ↔ IsAttested crypto
            (attestation_record_of proof bytes)
            trusted
            partial_user_signature_kind
            none
            a
  attested_iff proof trusted bytes a =
      verify_and_decode_iff crypto (attestation_record_of proof bytes) trusted
        partial_user_signature_kind none a

  -- With a BCS that parses back what it wrote, a voucher's record is accepted exactly when the
  -- proof states version 0, its signer is trusted, its signature verifies over the bytes of the
  -- stored fields, and these name the voucher; and then the answer is the stored fields.
  pub verify_partial_signature_voucher_record_iff :
      ParsesBack crypto
      → (proof : AttestationProof) (fields : PartialSignatureAttestation)
        (trusted : TrustedNetworkKeys) (voucher : StoredVoucher) (a : PartialSignatureAttestation)
      → (verify_partial_signature_voucher_record crypto proof fields trusted voucher ≡ ok a)
        ↔ ((a ≡ fields) × IsSigned proof trusted fields × IsOfVoucher fields voucher)
  unfolding verify_partial_signature_voucher_record verify_partial_signature_attestation_record
      attestation_record_of
  verify_partial_signature_voucher_record_iff parses_back proof fields trusted voucher a = (
    λ h.
        elim (Result-cases
          (rebuild_partial_signature_attestation crypto proof.attestation_version fields)) [
            | inr (error, e) ↦ absurd (ground arith)
            | inl (bytes, e) ↦
                let (version, written) =
                  (rebuild_partial_signature_attestation_iff crypto proof.attestation_version fields
                      bytes).0
                    e in
                elim (Result-cases (
                  verify_and_decode crypto (attestation_record_of proof bytes) trusted
                    partial_user_signature_kind none)) [
                      | inr (error, f) ↦ absurd (ground arith)
                      | inl (decoded, f) ↦
                          let attested = (attested_iff proof trusted bytes decoded).0 f in
                          let same : decoded ≡ fields = same_v1 decoded fields (
                            sym attested.parsed
                            ∙ parses_back partial_user_signature_kind fields bytes written) in
                          elim (Result-cases (require_voucher decoded voucher)) [
                            | inr (error, g) ↦ absurd (ground arith)
                            | inl (u, g) ↦ (
                              ground arith,
                              record {
                                version = version;
                                signer = attested.signer;
                                bytes = bytes;
                                written = written;
                                verified = attested.verified;
                              },
                              (require_voucher_iff fields voucher).0
                                  (ap (λ x. require_voucher x voucher) (sym same) ∙ g),
                            )
                          ]
                    ]
          ],
    λ (same, signed, names).
        let e =
          (rebuild_partial_signature_attestation_iff crypto proof.attestation_version fields
              signed.bytes).1
            (signed.version, signed.written) in
        let f = (attested_iff proof trusted signed.bytes fields).1 (record {
          version = signed.version;
          signer = signed.signer;
          verified = signed.verified;
          parsed = parses_back partial_user_signature_kind fields signed.bytes signed.written;
          exact = ap reserialized signed.written;
          fits = tt;
        }) in
        let g = (require_voucher_iff fields voucher).1 names in ground arith,
  )
