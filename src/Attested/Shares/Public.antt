-- ===== src/Attested/Shares/Public.antt =====
-- The public shares that are accepted for a dWallet, and their length.
use ika_pre_alpha.Prelude.{
  ℕ, ◌+◌, ◌≡◌, sym, ap, ◌∙◌, ◌↔◌, inl, inr, Bool, none, some, length, get_elem?, ok, Result-cases,
  Option-cases, Bool-cases, arith,
}
use ika_pre_alpha.Prelude.Bytes.{same_bytes, same_bytes_iff}
use ika_pre_alpha.Networks.{TrustedNetworkKeys}
use ika_pre_alpha.Attested.Kinds.{
  public_share_kind, DWalletCurve, secp256k1, secp256r1, curve25519, ristretto, curve_index,
  PublicShareAttestation, AttestationRecord, AttestationCrypto,
}
use ika_pre_alpha.Attested.Record.{public_share_lengths, verify_and_decode}
use ika_pre_alpha.Attested.Record.Accepted.{IsAttested, verify_and_decode_iff}
use ika_pre_alpha.Attested.DWallet.{require_field, VerifiedDWalletAttestation}
use ika_pre_alpha.Attested.Shares.{
  names_of_public, is_share_of_the_creating_request, require_same_sender_and_key,
  require_same_request, require_same_dwallet, require_public_share_of,
  verify_public_share_attestation_record,
}
use ika_pre_alpha.Attested.Shares.Parts.{IsOfDWallet, IsOfDWallet-iff}

-- The bytes of a curve's scalar: of secp256k1 and secp256r1 with the length before its 32 bytes.
abbrev pub scalar_bytes : DWalletCurve → ℕ
scalar_bytes secp256k1 = 1 + 32
scalar_bytes secp256r1 = 1 + 32
scalar_bytes curve25519 = 32
scalar_bytes ristretto = 32

length-of_curve :
    (curve : DWalletCurve) (n : ℕ)
    → get_elem? public_share_lengths (curve_index curve) ≡ some n
    → n ≡ 2 + scalar_bytes curve
length-of_curve secp256k1 n h = ground arith
length-of_curve secp256r1 n h = ground arith
length-of_curve curve25519 n h = ground arith
length-of_curve ristretto n h = ground arith

module _ (crypto : AttestationCrypto) (dwallet : VerifiedDWalletAttestation) where
  -- Of the dWallet, of the length of its curve's share, and of a dWallet without a holder where it
  -- names the dWallet's session.
  pub record IsPublicShareOf (share : PublicShareAttestation) : Type 0 where
    pub of_dwallet : IsOfDWallet crypto (names_of_public share) dwallet
    pub share_length :
        length share.public_user_secret_key_share ≡ 2 + scalar_bytes dwallet.attestation.curve
    pub without_holder :
        share.session_identifier ≡ dwallet.attestation.session_identifier
        → dwallet.attestation.holder ≡ none

  abbrev same_session : PublicShareAttestation → Bool
  same_session share = same_bytes share.session_identifier dwallet.attestation.session_identifier

  share_iff :
      (share : PublicShareAttestation)
      → (require_public_share_of crypto share dwallet ≡ ok tt) ↔ (
          IsOfDWallet crypto (names_of_public share) dwallet
          × (share.session_identifier ≡ dwallet.attestation.session_identifier
              → dwallet.attestation.holder ≡ none))
  unfolding require_public_share_of is_share_of_the_creating_request require_same_request
      require_same_dwallet require_field
  share_iff share =
      elim (Result-cases (require_same_sender_and_key (names_of_public share) dwallet)) [
        | inr (error, e) ↦ (
          λ h. elim (Bool-cases (same_session share)) [
            | inl same ↦ absurd (ground arith)
            | inr other ↦ absurd (ground arith)
          ],
          λ (names, holder).
              absurd
                (ground (arith, (IsOfDWallet-iff crypto dwallet (names_of_public share)).1 names)),
        )
        | inl (u, e) ↦ elim (Option-cases dwallet.attestation.holder) [
          | inl no_holder ↦ elim (Bool-cases (same_session share)) [
            | inl same ↦ (
              λ h. (
                (IsOfDWallet-iff crypto dwallet (names_of_public share)).0 (ground arith),
                λ s. no_holder,
              ),
              λ (names, holder).
                  ground (arith, (IsOfDWallet-iff crypto dwallet (names_of_public share)).1 names),
            )
            | inr other ↦ (
              λ h. (
                (IsOfDWallet-iff crypto dwallet (names_of_public share)).0 (ground arith),
                λ s. no_holder,
              ),
              λ (names, holder).
                  ground (arith, (IsOfDWallet-iff crypto dwallet (names_of_public share)).1 names),
            )
          ]
          | inr (of_dwallet, has_holder) ↦ elim (Bool-cases (same_session share)) [
            | inl same ↦ (
              λ h. absurd (ground arith),
              λ (names, holder). absurd (
                  ground (
                    arith,
                    holder (
                        (same_bytes_iff share.session_identifier
                            dwallet.attestation.session_identifier).0
                          same),
                  )),
            )
            | inr other ↦ (
              λ h. (
                (IsOfDWallet-iff crypto dwallet (names_of_public share)).0 (ground arith),
                λ s. absurd (
                    ground (
                      arith,
                      (same_bytes_iff share.session_identifier
                            dwallet.attestation.session_identifier).1
                          s,
                    )),
              ),
              λ (names, holder).
                  ground (arith, (IsOfDWallet-iff crypto dwallet (names_of_public share)).1 names),
            )
          ]
        ]
      ]

  -- A public share's record is accepted for a dWallet, and answers the share's attestation, exactly
  -- when that attestation is attested by a trusted key as a public share, names the dWallet's
  -- sender, key and attestation digest, holds a share of exactly two bytes more than the bytes of
  -- the curve's scalar (33, or 32), and does not name the session of a dWallet that has a holder.
  pub verify_public_share_attestation_record_iff :
      (stored : AttestationRecord) (trusted : TrustedNetworkKeys) (share : PublicShareAttestation)
      → (verify_public_share_attestation_record crypto stored trusted dwallet ≡ ok share) ↔ (
          IsAttested crypto stored trusted public_share_kind
            (some (curve_index dwallet.attestation.curve))
            share
          × IsPublicShareOf share)
  unfolding verify_public_share_attestation_record
  verify_public_share_attestation_record_iff stored trusted share =
      let curve = some (curve_index dwallet.attestation.curve) in
      (
        λ h. elim (Result-cases (verify_and_decode crypto stored trusted public_share_kind curve)) [
          | inr (error, e) ↦ absurd (ground arith)
          | inl (decoded, e) ↦
              elim (Result-cases (require_public_share_of crypto decoded dwallet)) [
                | inr (error, f) ↦ absurd (ground arith)
                | inl (u, f) ↦
                    let same : decoded ≡ share = ground arith in
                    let attested =
                      (verify_and_decode_iff crypto stored trusted public_share_kind curve share).0
                        (e ∙ ap ok same) in
                    let (names, holder) =
                      (share_iff share).0
                        (ap (λ s. require_public_share_of crypto s dwallet) (sym same) ∙ f) in
                    let (index, is, lengths) = attested.fits in
                    let of_index : index ≡ curve_index dwallet.attestation.curve = ground arith in
                    (
                      attested,
                      record {
                        of_dwallet = names;
                        share_length =
                            length-of_curve dwallet.attestation.curve _
                              (ap (get_elem? public_share_lengths) (sym of_index) ∙ lengths);
                        without_holder = holder;
                      },
                    )
              ]
        ],
        λ (attested, of_dwallet).
            let decoded =
              (verify_and_decode_iff crypto stored trusted public_share_kind curve share).1
                attested in
            let accepted = (share_iff share).1 (of_dwallet.of_dwallet, of_dwallet.without_holder) in
            ground arith,
      )
