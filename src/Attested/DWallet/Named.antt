-- ===== src/Attested/DWallet/Named.antt =====
-- What a dWallet's attestation must name, and the first field that a refusal names.
use Prim.Native.String.{String}
use ika_pre_alpha.Prelude.{
  ◌≡◌, ◌≢◌, refl, ◌∙◌, ◌↔◌, ◌⊎◌, inl, inr, Bool, true, false, ◌==◌, ==_iff, none, some, ok, err,
  Option-cases, Bool-cases, arith,
}
use ika_pre_alpha.Prelude.Bytes.{Bytes, same_bytes, same_bytes_iff}
use ika_pre_alpha.Networks.{TrustedNetworkKeys}
use ika_pre_alpha.Attested.Kinds.{
  dwallet_kind, curve_index, DWalletAttestation, AttestationRecord, AttestationCrypto, failed,
  binding_check,
}
use ika_pre_alpha.Attested.Record.Accepted.{IsAttested, verify_and_decode_iff}
use ika_pre_alpha.Attested.DWallet.{
  same_bool, is_some, require_field, require_imported_session, VerifiedDWalletAttestation,
  ExpectedDWallet, verify_dwallet_attestation_record,
}

module _ (a : DWalletAttestation) (expected : ExpectedDWallet) where
  -- The attestation names the asked curve, key and origin, and an import's session.
  pub record IsNamedDWallet : Type 0 where
    pub curve : curve_index a.curve ≡ expected.curve
    pub key : a.public_key ≡ expected.public_key
    pub origin : a.is_imported_key ≡ is_some expected.imported_session_identifier
    pub session :
        (imported : Bytes)
        → expected.imported_session_identifier ≡ some imported
        → a.session_identifier ≡ imported

  -- The field differs, and those that are compared before it agree.
  pub data FirstDifference : String → Type 0 where
    in_curve : curve_index a.curve ≢ expected.curve → FirstDifference "curve"
    in_key :
        curve_index a.curve ≡ expected.curve
        → a.public_key ≢ expected.public_key
        → FirstDifference "public_key"
    in_origin :
        curve_index a.curve ≡ expected.curve
        → a.public_key ≡ expected.public_key
        → a.is_imported_key ≢ is_some expected.imported_session_identifier
        → FirstDifference "is_imported_key"
    in_session :
        curve_index a.curve ≡ expected.curve
        → a.public_key ≡ expected.public_key
        → a.is_imported_key ≡ is_some expected.imported_session_identifier
        → (imported : Bytes) → expected.imported_session_identifier ≡ some imported
        → a.session_identifier ≢ imported
        → FirstDifference "session_identifier"

same_bool_iff : (a b : Bool) → (same_bool a b ≡ true) ↔ (a ≡ b)
same_bool_iff true true = (λ h. refl, λ h. refl)
same_bool_iff false false = (λ h. refl, λ h. refl)
same_bool_iff true false = (λ h. absurd (ground arith), λ h. absurd (ground arith))
same_bool_iff false true = (λ h. absurd (ground arith), λ h. absurd (ground arith))

differs {ℓ} : {P : Type ℓ} (test : Bool) → ((test ≡ true) ↔ P) → test ≡ false → ¬ P
differs test h e p = let t = h.1 p in ground arith

-- The dWallet as the accepted record hands it on.
abbrev pub verified_of : AttestationRecord → DWalletAttestation → VerifiedDWalletAttestation
verified_of stored a = record {
  attestation_data = stored.attestation_data;
  attestation = a;
  network_signature = stored.network_signature;
  signer_noa_public_key = stored.signer_noa_public_key;
}

module _ (crypto : AttestationCrypto) where
  -- The record of an attestation that a trusted key signed as a dWallet's is either accepted, with
  -- the record's own bytes, signature and signer, and then names the asked dWallet, or refused as
  -- `binding` on the first field that differs from what was asked.
  pub verify_dwallet_attestation_record_explained :
      (stored : AttestationRecord) (trusted : TrustedNetworkKeys) (expected : ExpectedDWallet)
      (a : DWalletAttestation)
      → IsAttested crypto stored trusted dwallet_kind none a
      → ((verify_dwallet_attestation_record crypto stored trusted expected
            ≡ ok (verified_of stored a))
          × IsNamedDWallet a expected)
        ⊎ ((field : String) × (verify_dwallet_attestation_record crypto stored trusted expected
              ≡ err (failed binding_check (some field)))
            × FirstDifference a expected field)
  unfolding verify_dwallet_attestation_record require_field require_imported_session
  verify_dwallet_attestation_record_explained stored trusted expected a attested =
      let decoded = (verify_and_decode_iff crypto stored trusted dwallet_kind none a).1 attested in
      let of_curve = ==_iff (curve_index a.curve) expected.curve in
      let of_key = same_bytes_iff a.public_key expected.public_key in
      let of_origin =
        same_bool_iff a.is_imported_key (is_some expected.imported_session_identifier) in
      elim (Bool-cases (curve_index a.curve == expected.curve)) [
        | inr no_curve ↦ inr ("curve", ground arith, in_curve (differs _ of_curve no_curve))
        | inl curve ↦ elim (Bool-cases (same_bytes a.public_key expected.public_key)) [
          | inr no_key ↦
              inr ("public_key", ground arith, in_key (of_curve.0 curve) (differs _ of_key no_key))
          | inl key ↦
              elim (Bool-cases
                (same_bool a.is_imported_key (is_some expected.imported_session_identifier))) [
                  | inr no_origin ↦ inr (
                    "is_imported_key",
                    ground arith,
                    in_origin (of_curve.0 curve) (of_key.0 key) (differs _ of_origin no_origin),
                  )
                  | inl origin ↦ elim (Option-cases expected.imported_session_identifier) [
                    | inl created ↦ inl (
                      ground arith,
                      record {
                        curve = of_curve.0 curve;
                        key = of_key.0 key;
                        origin = of_origin.0 origin;
                        session = λ imported e. absurd (ground arith);
                      },
                    )
                    | inr (imported, is) ↦
                        elim (Bool-cases (same_bytes a.session_identifier imported)) [
                          | inr no_session ↦ inr (
                            "session_identifier",
                            ground arith,
                            in_session (of_curve.0 curve) (of_key.0 key) (of_origin.0 origin)
                                imported is
                                (differs _ (same_bytes_iff a.session_identifier imported)
                                  no_session),
                          )
                          | inl session ↦ inl (
                            ground arith,
                            record {
                              curve = of_curve.0 curve;
                              key = of_key.0 key;
                              origin = of_origin.0 origin;
                              session = λ other e.
                                  (same_bytes_iff a.session_identifier imported).0 session
                                  ∙ ground arith;
                            },
                          )
                        ]
                  ]
                ]
        ]
      ]
