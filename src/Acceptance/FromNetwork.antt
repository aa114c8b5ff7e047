-- ===== src/Acceptance/FromNetwork.antt =====
-- The attestation of an acceptance as the network's.

use ika_pre_alpha.Prelude.{
  ◌≡◌, sym, ap, ◌∙◌, inl, inr, true, some, ok, Option-cases, Result-cases, arith,
}
use mathlib.Core.List.{Memᴰ}
use ika_pre_alpha.Prelude.Bytes.{Bytes, same_bytes_iff, among_iff}
use ika_pre_alpha.Networks.{TrustedNetworkKeys, ika_deployed_networks}
use ika_pre_alpha.Networks.Refusal.{IsNamedKey}
use ika_pre_alpha.Signing.{HeldAttestation}
use ika_pre_alpha.Attested.Kinds.{
  dwallet_kind, DWalletAttestation, v1, another_variant, AttestationCrypto,
}
use ika_pre_alpha.Attested.Record.{attestation_signing_message}
use ika_pre_alpha.Attested.Stored.{verify_attestation_network_key}
use ika_pre_alpha.Attested.Stored.NamedKey.{verify_attestation_network_key_iff}
use ika_pre_alpha.Acceptance.{
  refuse_unless, decode_dwallet_attestation, network_signature_verifies, accept_from_network,
}

module _ (crypto : AttestationCrypto) where
  open crypto use {keccak_256, ed25519_verify, parse, serialize}

  -- The attestation's exact bytes, signed by a trusted key as a dWallet's, under the request's key.
  pub record IsFromNetwork (held : HeldAttestation) (trusted : TrustedNetworkKeys)
      (network_key_id : Bytes) (a : DWalletAttestation) : Type 0 where
    pub parsed : parse dwallet_kind held.attestation_data ≡ some (v1 a)
    pub exact : serialize dwallet_kind (v1 a) ≡ some held.attestation_data
    pub signer : Memᴰ held.signer_noa_public_key trusted.public_keys
    pub verified :
        ed25519_verify held.network_signature
          (attestation_signing_message dwallet_kind held.attestation_data)
          held.signer_noa_public_key
        ≡ some true
    pub named_key :
        IsNamedKey ika_deployed_networks held.network_pubkey network_key_id trusted.network
          (some trusted)

  decode_dwallet_attestation_ok :
      (bytes : Bytes) (a : DWalletAttestation)
      → decode_dwallet_attestation crypto bytes ≡ ok a
      → (parse dwallet_kind bytes ≡ some (v1 a)) × (serialize dwallet_kind (v1 a) ≡ some bytes)
  unfolding decode_dwallet_attestation
  decode_dwallet_attestation_ok bytes a h = elim (Option-cases (parse dwallet_kind bytes)) [
    | inl e ↦ absurd (ground arith)
    | inr (another_variant name, e) ↦ absurd (ground arith)
    | inr (v1 b, e) ↦ elim (Option-cases (serialize dwallet_kind (v1 b))) [
      | inl f ↦ absurd (ground arith)
      | inr (encoded, f) ↦
          let exact = (same_bytes_iff encoded bytes).0 (ground arith) in
          let same : b ≡ a = ground arith in
          (
            e ∙ ap (λ x. some (v1 x)) same,
            ap (λ x. serialize dwallet_kind (v1 x)) (sym same) ∙ f ∙ ap some exact,
          )
    ]
  ]

  pub IsFromNetwork-of_accept :
      (held : HeldAttestation) (trusted : TrustedNetworkKeys) (network_key_id : Bytes)
      (a : DWalletAttestation)
      → accept_from_network crypto held trusted network_key_id ≡ ok a
      → IsFromNetwork held trusted network_key_id a
  unfolding accept_from_network refuse_unless network_signature_verifies
  IsFromNetwork-of_accept held trusted network_key_id a h =
      elim (Result-cases (decode_dwallet_attestation crypto held.attestation_data)) [
        | inr (error, e) ↦ absurd (ground arith)
        | inl (b, e) ↦
            elim (Result-cases (
              verify_attestation_network_key held.network_pubkey network_key_id trusted.network
                (some trusted))) [
                  | inr (error, f) ↦ absurd (ground arith)
                  | inl (u, f) ↦
                      let same : b ≡ a = ground arith in
                      let (parsed, exact) =
                        decode_dwallet_attestation_ok held.attestation_data a (e ∙ ap ok same) in
                      record {
                        parsed = parsed;
                        exact = exact;
                        signer =
                            (among_iff held.signer_noa_public_key trusted.public_keys).0
                              (ground arith);
                        verified =
                            elim (Option-cases (
                              ed25519_verify held.network_signature
                                (attestation_signing_message dwallet_kind held.attestation_data)
                                held.signer_noa_public_key)) [
                                  | inl g ↦ absurd (ground arith)
                                  | inr (answer, g) ↦ ground arith
                                ];
                        named_key =
                            (verify_attestation_network_key_iff held.network_pubkey network_key_id
                                trusted.network (some trusted)).0
                              f;
                      }
                ]
      ]
