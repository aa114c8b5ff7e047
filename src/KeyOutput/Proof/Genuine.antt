-- ===== src/KeyOutput/Proof/Genuine.antt =====
-- The proofs that are accepted.
use ika_pre_alpha.Prelude.{
  ◌≡◌, ap, ◌∙◌, inl, inr, true, false, some, ==_iff, ok, Option-cases, arith,
}
use ika_pre_alpha.Prelude.Bytes.{Bytes, same_bytes_iff}
use ika_pre_alpha.Attested.Kinds.{v1, another_variant, AttestationProof, AttestationCrypto}
use ika_pre_alpha.KeyOutput.Proof.{
  is_all_zero, verify_decoded_proof, verify_network_key_record_proof,
}

module _ (crypto : AttestationCrypto) where
  open crypto use {ed25519_verify, parse_proof, serialize_proof}

  -- Exactly one proof of version 0, not all zeros, whose signature verifies under its signer.
  pub record IsProof (message bytes signer : Bytes) : Type 0 where
    pub proof : AttestationProof
    pub not_zero : is_all_zero bytes ≡ false
    pub parsed : parse_proof bytes ≡ some (v1 proof)
    pub exact : serialize_proof (v1 proof) ≡ some bytes
    pub version : proof.attestation_version ≡ 0
    pub verified :
        ed25519_verify proof.network_signature message proof.signer_noa_public_key ≡ some true
    pub named : proof.signer_noa_public_key ≡ signer

  pub IsProof-of_verify :
      (message bytes signer : Bytes)
      → verify_network_key_record_proof crypto message bytes ≡ ok signer
      → IsProof message bytes signer
  unfolding verify_network_key_record_proof verify_decoded_proof
  IsProof-of_verify message bytes signer h = elim (Option-cases (parse_proof bytes)) [
    | inl e ↦ absurd (ground arith)
    | inr (another_variant name, e) ↦
        absurd (elim (Option-cases (serialize_proof (another_variant name))) [
          | inl f ↦ ground arith
          | inr (written, f) ↦ ground arith
        ])
    | inr (v1 proof, e) ↦ elim (Option-cases (serialize_proof (v1 proof))) [
      | inl f ↦ absurd (ground arith)
      | inr (written, f) ↦ record {
        proof = proof;
        not_zero = ground arith;
        parsed = e;
        exact = f ∙ ap some ((same_bytes_iff written bytes).0 (ground arith));
        version = (==_iff proof.attestation_version 0).0 (ground arith);
        verified =
            elim (Option-cases
              (ed25519_verify proof.network_signature message proof.signer_noa_public_key)) [
                | inl g ↦ absurd (ground arith)
                | inr (answer, g) ↦ ground arith
              ];
        named = ground arith;
      }
    ]
  ]
