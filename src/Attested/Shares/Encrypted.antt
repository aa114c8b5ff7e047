-- ===== src/Attested/Shares/Encrypted.antt =====
-- The encrypted shares that are accepted for a dWallet and a holder.
use ika_pre_alpha.Prelude.{
  ◌≡◌, sym, ap, ◌∙◌, ◌↔◌, inl, inr, none, ok, Result-cases, Bool-cases, arith,
}
use ika_pre_alpha.Prelude.Bytes.{same_bytes, same_bytes_iff}
use ika_pre_alpha.Networks.{TrustedNetworkKeys}
use ika_pre_alpha.Attested.Kinds.{
  encrypted_share_kind, EncryptedShareAttestation, AttestationRecord, AttestationCrypto,
}
use ika_pre_alpha.Attested.Record.{verify_and_decode}
use ika_pre_alpha.Attested.Record.Accepted.{IsAttested, verify_and_decode_iff}
use ika_pre_alpha.Attested.DWallet.{require_field, VerifiedDWalletAttestation}
use ika_pre_alpha.Attested.Shares.{
  ShareNames, names_of_encrypted, AskedHolder, is_share_of_the_creating_request,
  require_same_sender_and_key, require_same_request, require_same_dwallet, require_re_encrypted,
  require_first_share, require_encrypted_share_of, verify_encrypted_share_attestation_record,
}
use ika_pre_alpha.Attested.Shares.Parts.{
  IsAsked, IsFirstShare, is_asked_holder_iff, is_named_hash_iff, is_first_holder_iff, IsOfDWallet,
  IsOfDWallet-iff,
}

module _ (crypto : AttestationCrypto) (dwallet : VerifiedDWalletAttestation) where
  -- Of the dWallet, for the asked holder, and the first share where it names the dWallet's session.
  pub record IsShareOf (share : EncryptedShareAttestation) (asked : AskedHolder) : Type 0 where
    pub of_dwallet : IsOfDWallet crypto (names_of_encrypted share) dwallet
    pub for_holder : IsAsked share.holder asked
    pub first :
        share.session_identifier ≡ dwallet.attestation.session_identifier
        → IsFirstShare share dwallet.attestation

  re_encrypted_iff :
      (share : EncryptedShareAttestation) (asked : AskedHolder)
      → (require_re_encrypted crypto share dwallet asked ≡ ok tt)
        ↔ (IsOfDWallet crypto (names_of_encrypted share) dwallet × IsAsked share.holder asked)
  unfolding require_re_encrypted require_field
  re_encrypted_iff share asked = (
    λ h. elim (Result-cases (require_same_dwallet crypto share_names dwallet)) [
      | inr (error, e) ↦ absurd (ground arith)
      | inl (u, e) ↦ (
        (IsOfDWallet-iff crypto dwallet share_names).0 e,
        (is_asked_holder_iff share.holder asked).0 (ground arith),
      )
    ],
    λ (names, asks).
        let dwallet_ok = (IsOfDWallet-iff crypto dwallet share_names).1 names in
        let holder_ok = (is_asked_holder_iff share.holder asked).1 asks in ground arith,
  )
    where
      share_names : ShareNames
      share_names = names_of_encrypted share

  first_iff :
      (share : EncryptedShareAttestation) (asked : AskedHolder)
      → (require_first_share crypto share dwallet asked ≡ ok tt) ↔ (
          (share.session_identifier ≡ dwallet.attestation.session_identifier)
          × IsOfDWallet crypto (names_of_encrypted share) dwallet
          × IsFirstShare share dwallet.attestation
          × IsAsked share.holder asked)
  unfolding require_first_share require_same_request require_same_dwallet require_field
  first_iff share asked = (
    λ h. elim (Result-cases (require_same_sender_and_key (names_of_encrypted share) dwallet)) [
      | inr (error, e) ↦ absurd (ground arith)
      | inl (u, e) ↦
          let holders =
            (is_first_holder_iff share.holder dwallet.attestation.holder asked).0 (ground arith) in
          (
            (same_bytes_iff share.session_identifier dwallet.attestation.session_identifier).0
                (ground arith),
            (IsOfDWallet-iff crypto dwallet (names_of_encrypted share)).0 (ground arith),
            record {
              share_hash =
                  (is_named_hash_iff share.encrypted_share_hash
                      dwallet.attestation.encrypted_share_hash).0
                    (ground arith);
              key_hash =
                  (is_named_hash_iff share.encryption_key_hash
                      dwallet.attestation.encryption_key_hash).0
                    (ground arith);
              holder = holders.0;
            },
            holders.1,
          )
    ],
    λ (session, names, first, asks).
        let session_ok =
          (same_bytes_iff share.session_identifier dwallet.attestation.session_identifier).1
            session in
        let dwallet_ok = (IsOfDWallet-iff crypto dwallet (names_of_encrypted share)).1 names in
        let share_ok =
          (is_named_hash_iff share.encrypted_share_hash dwallet.attestation.encrypted_share_hash).1
            first.share_hash in
        let key_ok =
          (is_named_hash_iff share.encryption_key_hash dwallet.attestation.encryption_key_hash).1
            first.key_hash in
        let holder_ok =
          (is_first_holder_iff share.holder dwallet.attestation.holder asked).1
            (first.holder, asks) in
        elim (Result-cases (require_same_sender_and_key (names_of_encrypted share) dwallet)) [
          | inr (error, e) ↦ absurd (ground arith)
          | inl (u, e) ↦ ground arith
        ],
  )

  share_iff :
      (share : EncryptedShareAttestation) (asked : AskedHolder)
      → (require_encrypted_share_of crypto share dwallet asked ≡ ok tt) ↔ IsShareOf share asked
  unfolding require_encrypted_share_of is_share_of_the_creating_request
  share_iff share asked =
      elim (Bool-cases
        (same_bytes share.session_identifier dwallet.attestation.session_identifier)) [
          | inl same ↦ (
            λ h.
                let (session, names, first, asks) = (first_iff share asked).0 (ground arith) in
                record { of_dwallet = names; for_holder = asks; first = λ e. first },
            λ h.
                let session =
                  (same_bytes_iff share.session_identifier dwallet.attestation.session_identifier).0
                    same in
                let accepted =
                  (first_iff share asked).1
                    (session, h.of_dwallet, h.first session, h.for_holder) in
                ground arith,
          )
          | inr other ↦ (
            λ h.
                let (names, asks) = (re_encrypted_iff share asked).0 (ground arith) in
                record {
                  of_dwallet = names;
                  for_holder = asks;
                  first = λ e. absurd (
                      ground (
                        arith,
                        (same_bytes_iff share.session_identifier
                              dwallet.attestation.session_identifier).1
                            e,
                      ));
                },
            λ h.
                let accepted = (re_encrypted_iff share asked).1 (h.of_dwallet, h.for_holder) in
                ground arith,
          )
        ]

  -- An encrypted share's record is accepted for a dWallet and a holder, and answers the share's
  -- attestation, exactly when that attestation is attested by a trusted key as an encrypted share,
  -- names the dWallet's sender, key and attestation digest, is for the asked holder, and, where it
  -- names the dWallet's own session, is the share, encryption key and holder that the dWallet's
  -- attestation names.
  pub verify_encrypted_share_attestation_record_iff :
      (stored : AttestationRecord) (trusted : TrustedNetworkKeys) (asked : AskedHolder)
      (share : EncryptedShareAttestation)
      → (verify_encrypted_share_attestation_record crypto stored trusted dwallet asked ≡ ok share)
        ↔ (IsAttested crypto stored trusted encrypted_share_kind none share × IsShareOf share asked)
  unfolding verify_encrypted_share_attestation_record
  verify_encrypted_share_attestation_record_iff stored trusted asked share = (
    λ h. elim (Result-cases (verify_and_decode crypto stored trusted encrypted_share_kind none)) [
      | inr (error, e) ↦ absurd (ground arith)
      | inl (decoded, e) ↦
          elim (Result-cases (require_encrypted_share_of crypto decoded dwallet asked)) [
            | inr (error, f) ↦ absurd (ground arith)
            | inl (u, f) ↦
                let same : decoded ≡ share = ground arith in
                (
                  (verify_and_decode_iff crypto stored trusted encrypted_share_kind none share).0
                      (e ∙ ap ok same),
                  (share_iff share asked).0
                      (ap (λ s. require_encrypted_share_of crypto s dwallet asked) (sym same) ∙ f),
                )
          ]
    ],
    λ (attested, of_dwallet).
        let decoded =
          (verify_and_decode_iff crypto stored trusted encrypted_share_kind none share).1
            attested in
        let accepted = (share_iff share asked).1 of_dwallet in ground arith,
  )
