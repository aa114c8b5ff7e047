-- ===== src/Answers/Checks/ReEncrypted.antt =====
-- The answers to a re-encryption that are accepted.
use ika_pre_alpha.Prelude.{◌≡◌, sym, ap, ◌∙◌, ◌↔◌, inl, inr, none, ok, Result-cases, arith}
use ika_pre_alpha.Prelude.Bytes.{same_bytes_iff}
use ika_pre_alpha.Networks.{TrustedNetworkKeys}
use ika_pre_alpha.Signing.{HeldAttestation, TransactionResponse}
use ika_pre_alpha.Attested.Kinds.{
  encrypted_share_kind, EncryptedShareAttestation, AttestationCrypto,
}
use ika_pre_alpha.Attested.Record.Accepted.{IsAttested}
use ika_pre_alpha.Attested.DWallet.{VerifiedDWalletAttestation}
use ika_pre_alpha.Attested.Shares.{AskedHolder, verify_encrypted_share_attestation_record}
use ika_pre_alpha.Attested.Shares.Encrypted.{
  IsShareOf, verify_encrypted_share_attestation_record_iff,
}
use ika_pre_alpha.Answers.Sent.{SentReEncryptShare}
use ika_pre_alpha.Answers.Checks.{
  require_sent, attestation_of_answer, record_of_answer, require_re_encryption,
  verify_re_encrypt_share_answer,
}
use ika_pre_alpha.Answers.Checks.Named.{IsAnswer, attestation_of_answer_iff}

-- The holder that the request re-encrypted to, under Ed25519.
abbrev pub new_holder : SentReEncryptShare → AskedHolder
new_holder sent = record {
  holder_signer_public_key = sent.holder_signer_public_key;
  holder_signature_scheme = none;
}

module _ (crypto : AttestationCrypto) where
  open crypto use {keccak_256}

  -- The attestation names the request's session, and the hashes of what the request carried.
  pub record IsReEncryption (a : EncryptedShareAttestation) (sent : SentReEncryptShare)
      : Type 0 where
    pub session : a.session_identifier ≡ sent.session_identifier
    pub share : a.encrypted_share_hash ≡ keccak_256 sent.encrypted_share_and_proof
    pub key : a.encryption_key_hash ≡ keccak_256 sent.encryption_key

  require_re_encryption_iff :
      (a : EncryptedShareAttestation) (sent : SentReEncryptShare)
      → (require_re_encryption crypto a sent ≡ ok tt) ↔ IsReEncryption a sent
  unfolding require_re_encryption require_sent
  require_re_encryption_iff a sent = (
    λ h. record {
      session = (same_bytes_iff a.session_identifier sent.session_identifier).0 (ground arith);
      share =
          (same_bytes_iff a.encrypted_share_hash (keccak_256 sent.encrypted_share_and_proof)).0
            (ground arith);
      key =
          (same_bytes_iff a.encryption_key_hash (keccak_256 sent.encryption_key)).0 (ground arith);
    },
    λ h.
        let session = (same_bytes_iff a.session_identifier sent.session_identifier).1 h.session in
        let share =
          (same_bytes_iff a.encrypted_share_hash (keccak_256 sent.encrypted_share_and_proof)).1
            h.share in
        let key = (same_bytes_iff a.encryption_key_hash (keccak_256 sent.encryption_key)).1 h.key in
        ground arith,
  )

  -- An attestation in the response that names the key of the request, is attested as an encrypted
  -- share, is the dWallet's share for the new holder, and names what the request sent.
  pub record IsReEncryptAnswer (response : TransactionResponse) (trusted : TrustedNetworkKeys)
      (dwallet : VerifiedDWalletAttestation) (sent : SentReEncryptShare)
      (a : EncryptedShareAttestation) : Type 0 where
    pub answer : HeldAttestation
    pub is_answer : IsAnswer response trusted.network sent.network_key_id answer
    pub attested : IsAttested crypto (record_of_answer answer) trusted encrypted_share_kind none a
    pub share_of : IsShareOf crypto dwallet a (new_holder sent)
    pub re_encryption : IsReEncryption a sent

  -- The answer to a re-encryption is accepted, and its share's attestation returned, exactly when
  -- the response is an attestation that names the request's network key as its own (a listed one on
  -- a deployed network), is attested by a trusted key as an encrypted share, is of the dWallet and
  -- for the new holder, and names the request's session and the hashes of the share and of the
  -- encryption key that were sent.
  pub verify_re_encrypt_share_answer_iff :
      (response : TransactionResponse) (trusted : TrustedNetworkKeys)
      (dwallet : VerifiedDWalletAttestation) (sent : SentReEncryptShare)
      (a : EncryptedShareAttestation)
      → (verify_re_encrypt_share_answer crypto response trusted dwallet sent ≡ ok a)
        ↔ IsReEncryptAnswer response trusted dwallet sent a
  unfolding verify_re_encrypt_share_answer
  verify_re_encrypt_share_answer_iff response trusted dwallet sent a = (
    λ h. elim (Result-cases (attestation_of_answer response trusted.network sent.network_key_id)) [
      | inr (error, e) ↦ absurd (ground arith)
      | inl (answer, e) ↦
          let checked =
            verify_encrypted_share_attestation_record crypto (record_of_answer answer) trusted
              dwallet (new_holder sent) in
          elim (Result-cases checked) [
            | inr (error, f) ↦ absurd (ground arith)
            | inl (b, f) ↦ elim (Result-cases (require_re_encryption crypto b sent)) [
              | inr (error, g) ↦ absurd (ground arith)
              | inl (u, g) ↦
                  let same : b ≡ a = ground arith in
                  let (attested, share_of) =
                    (verify_encrypted_share_attestation_record_iff crypto dwallet
                        (record_of_answer answer) trusted (new_holder sent) a).0
                      (f ∙ ap ok same) in
                  record {
                    answer = answer;
                    is_answer =
                        (attestation_of_answer_iff response trusted.network sent.network_key_id
                            answer).0
                          e;
                    attested = attested;
                    share_of = share_of;
                    re_encryption =
                        (require_re_encryption_iff a sent).0
                          (ap (λ x. require_re_encryption crypto x sent) (sym same) ∙ g);
                  }
            ]
          ]
    ],
    λ h.
        let e =
          (attestation_of_answer_iff response trusted.network sent.network_key_id h.answer).1
            h.is_answer in
        let f =
          (verify_encrypted_share_attestation_record_iff crypto dwallet (record_of_answer h.answer)
              trusted (new_holder sent) a).1
            (h.attested, h.share_of) in
        let g = (require_re_encryption_iff a sent).1 h.re_encryption in ground arith,
  )
