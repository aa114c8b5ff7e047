-- ===== src/Attested/Proof/Rebuilds.antt =====
-- When an attestation's bytes can be rebuilt.
use ika_pre_alpha.Prelude.{ℕ, ◌≡◌, ◌↔◌, inl, inr, some, ok, Option-cases, arith}
use ika_pre_alpha.Prelude.Bytes.{Bytes}
use ika_pre_alpha.Attested.Kinds.{
  AttestationKind, partial_user_signature_kind, Decoded, v1, PartialSignatureAttestation,
  AttestationCrypto,
}
use ika_pre_alpha.Attested.Record.{require_known_version}
use ika_pre_alpha.Attested.Proof.{rebuild_attestation, rebuild_partial_signature_attestation}

module _ (crypto : AttestationCrypto) where
  open crypto use {serialize}

  rebuild_attestation_iff :
      (kind : AttestationKind) (version : ℕ) (fields : Decoded kind) (bytes : Bytes)
      → (rebuild_attestation crypto kind version fields ≡ ok bytes)
        ↔ ((version ≡ 0) × (serialize kind (v1 fields) ≡ some bytes))
  unfolding rebuild_attestation require_known_version
  rebuild_attestation_iff kind version fields bytes = (
    λ h. elim (Option-cases (serialize kind (v1 fields))) [
      | inl e ↦ absurd (ground arith)
      | inr (written, e) ↦ (ground arith, ground arith)
    ],
    λ (is, e). ground arith,
  )

  pub rebuild_partial_signature_attestation_iff :
      (version : ℕ) (fields : PartialSignatureAttestation) (bytes : Bytes)
      → (rebuild_partial_signature_attestation crypto version fields ≡ ok bytes)
        ↔ ((version ≡ 0) × (serialize partial_user_signature_kind (v1 fields) ≡ some bytes))
  unfolding rebuild_partial_signature_attestation
  rebuild_partial_signature_attestation_iff version fields bytes =
      rebuild_attestation_iff partial_user_signature_kind version fields bytes
