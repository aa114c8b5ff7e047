-- ===== src/StoredShare/Accepted.antt =====
-- The accounts of encrypted shares that are accepted.
use ika_pre_alpha.Prelude.{
  ◌⊎◌, all, Option-cases, Bool-cases, ◌==◌, false, ◌≡◌, sym, ap, ◌∙◌, ◌↔◌, inl, inr, Bool, true,
  not, ◌||◌, Option, none, some, length, ok, Result-cases, arith, if◌then◌else◌,
}
use ika_pre_alpha.Prelude.Bytes.{Bytes, same_bytes_iff}
use ika_pre_alpha.Networks.{TrustedNetworkKeys}
use ika_pre_alpha.Attested.Kinds.{
  encrypted_share_kind, EncryptedShareAttestation, AttestationRecord, AttestationCrypto,
}
use ika_pre_alpha.Attested.Record.Accepted.{IsAttested}
use ika_pre_alpha.Attested.DWallet.{same_bool, VerifiedDWalletAttestation}
use ika_pre_alpha.Attested.Shares.{
  AskedHolder, names_of_encrypted, is_share_of_the_creating_request,
  verify_encrypted_share_attestation_record,
}
use ika_pre_alpha.Attested.Shares.Encrypted.{
  IsShareOf, verify_encrypted_share_attestation_record_iff,
}
use ika_pre_alpha.Attested.Stored.{
  require_stored_field, verify_registered_encryption_key, verify_stored_encrypted_share,
}
use ika_pre_alpha.Accounts.Variable.{EncryptedUserSecretKeyShareAccount}
use ika_pre_alpha.StoredShare.{
  is_given, signature_verifies, no_source_share, signature_of, solana_accepted_digest,
  require_stored_share, verified_share, verify_solana_encrypted_share_record,
}

module _ (crypto : AttestationCrypto) (account : EncryptedUserSecretKeyShareAccount)
    (stored : AttestationRecord) (dwallet : VerifiedDWalletAttestation) (registered : Bytes)
    (given : Option Bytes) where
  open crypto use {keccak_256, ed25519_verify}

  abbrev is_first : EncryptedShareAttestation → Bool
  is_first share = is_share_of_the_creating_request (names_of_encrypted share) dwallet.attestation

  -- What the holder signs.
  abbrev digest : EncryptedShareAttestation → Bytes
  digest share =
      if is_first share
      then keccak_256 dwallet.attestation_data
      else keccak_256 stored.attestation_data

  -- The account's values are the share's: its holder, its origin, the bytes and the key behind its
  -- hashes, and the holder's signature of the digest, stored or, where none was accepted yet, given.
  pub record IsStoredShare (share : EncryptedShareAttestation) : Type 0 where
    pub owner : share.holder.signer_public_key ≡ account.encryption_key_owner
    pub source_size : length account.source_share ≡ 32
    pub source : is_first share ≡ all (λ byte. byte == 0) account.source_share
    pub re_encrypted : account.is_re_encrypted ≡ not (is_first share)
    pub share_bytes : keccak_256 account.encrypted_share ≡ share.encrypted_share_hash
    pub key_bytes : keccak_256 registered ≡ share.encryption_key_hash
    pub acceptance : Bytes
    pub accepted :
        ((account.accepted ≡ true) × (acceptance ≡ account.acceptance_signature))
        ⊎ ((account.accepted ≡ false) × (given ≡ some acceptance))
    pub digest_stored : account.acceptance_digest ≡ digest share
    pub signed : ed25519_verify acceptance (digest share) share.holder.signer_public_key ≡ some true

  signature_verifies_iff :
      (answer : Option Bool) → (signature_verifies answer ≡ true) ↔ (answer ≡ some true)
  signature_verifies_iff answer = (λ h. ground arith, λ h. ground arith)

  same_bool_iff : (a b : Bool) → (same_bool a b ≡ true) ↔ (a ≡ b)
  same_bool_iff a b = (λ h. ground arith, λ h. ground arith)

  source_of :
      (first : Bool)
      → length account.source_share ≡ 32
      → same_bool first (no_source_share account.source_share) ≡ true
      → first ≡ all (λ byte. byte == 0) account.source_share
  source_of first size h = ground arith

  no_source_of :
      (first : Bool)
      → length account.source_share ≡ 32
      → first ≡ all (λ byte. byte == 0) account.source_share
      → first ≡ no_source_share account.source_share
  no_source_of first size h = ground arith

  abbrev IsAcceptance : Bytes → Type 0
  IsAcceptance acceptance =
      ((account.accepted ≡ true) × (acceptance ≡ account.acceptance_signature))
      ⊎ ((account.accepted ≡ false) × (given ≡ some acceptance))

  accepted_of :
      (account.accepted || is_given account given) ≡ true
      → IsAcceptance (signature_of account given)
  accepted_of h = elim (Bool-cases account.accepted) [
    | inl stored_one ↦ inl (stored_one, ground arith)
    | inr none_stored ↦ elim (Option-cases given) [
      | inl nothing ↦ absurd (ground arith)
      | inr (signature, something) ↦ inr (none_stored, ground arith)
    ]
  ]

  is_accepted :
      (acceptance : Bytes)
      → IsAcceptance acceptance
      → (account.accepted || is_given account given) ≡ true
  is_accepted acceptance (inl (stored_one, same)) = ground arith
  is_accepted acceptance (inr (none_stored, something)) = ground arith

  signature_of_lem :
      (acceptance : Bytes) → IsAcceptance acceptance → signature_of account given ≡ acceptance
  signature_of_lem acceptance (inl (stored_one, same)) = ground arith
  signature_of_lem acceptance (inr (none_stored, something)) = ground arith

  require_stored_share_iff :
      (share : EncryptedShareAttestation)
      → (require_stored_share crypto account share stored dwallet registered given ≡ ok tt)
        ↔ IsStoredShare share
  unfolding require_stored_share solana_accepted_digest require_stored_field
      verify_registered_encryption_key verify_stored_encrypted_share
  require_stored_share_iff share = (
    λ h. record {
      owner =
          (same_bytes_iff share.holder.signer_public_key account.encryption_key_owner).0
            (ground arith);
      source_size = ground arith;
      source = source_of (is_first share) (ground arith) (ground arith);
      re_encrypted =
          (same_bool_iff account.is_re_encrypted (not (is_first share))).0 (ground arith);
      share_bytes =
          (same_bytes_iff (keccak_256 account.encrypted_share) share.encrypted_share_hash).0
            (ground arith);
      key_bytes =
          (same_bytes_iff (keccak_256 registered) share.encryption_key_hash).0 (ground arith);
      acceptance = signature_of account given;
      accepted = accepted_of (ground arith);
      digest_stored = (same_bytes_iff account.acceptance_digest (digest share)).0 (ground arith);
      signed =
          (signature_verifies_iff (
              ed25519_verify (signature_of account given) (digest share)
                share.holder.signer_public_key)).0
            (ground arith);
    },
    λ h.
        let a =
          (same_bytes_iff share.holder.signer_public_key account.encryption_key_owner).1 h.owner in
        let b =
          (same_bool_iff (is_first share) (no_source_share account.source_share)).1
            (no_source_of (is_first share) h.source_size h.source) in
        let c = (same_bool_iff account.is_re_encrypted (not (is_first share))).1 h.re_encrypted in
        let d =
          (same_bytes_iff (keccak_256 account.encrypted_share) share.encrypted_share_hash).1
            h.share_bytes in
        let e = (same_bytes_iff (keccak_256 registered) share.encryption_key_hash).1 h.key_bytes in
        let f = (same_bytes_iff account.acceptance_digest (digest share)).1 h.digest_stored in
        let g =
          (signature_verifies_iff (
              ed25519_verify (signature_of account given) (digest share)
                share.holder.signer_public_key)).1
            (ap
                (λ signature.
                  ed25519_verify signature (digest share) share.holder.signer_public_key)
                (signature_of_lem h.acceptance h.accepted)
              ∙ h.signed) in
        let s = h.source_size in let acc = is_accepted h.acceptance h.accepted in ground arith,
  )

  -- An encrypted share's account and record are accepted for a dWallet's address and a holder, and answer
  -- the share's attestation with the account's values, exactly when the account names that address, the
  -- record is attested by a trusted key, of the dWallet and for the asked holder, and the account stores
  -- that share: its holder, whether it was re-encrypted and its source, the bytes and the registered key
  -- of its hashes, the digest of the dWallet's attestation for a first share and of the share's own
  -- otherwise, and the holder's signature of that digest, in whose place the given one stands where the
  -- account holds none.
  pub verify_solana_encrypted_share_record_iff :
      (trusted : TrustedNetworkKeys) (address : Bytes) (asked : AskedHolder)
      (share : EncryptedShareAttestation)
      → (verify_solana_encrypted_share_record crypto account stored trusted dwallet address asked
            registered given
          ≡ ok (verified_share crypto account share registered given))
        ↔ ((account.dwallet ≡ address)
            × IsAttested crypto stored trusted encrypted_share_kind none share
            × IsShareOf crypto dwallet share asked
            × IsStoredShare share)
  unfolding verify_solana_encrypted_share_record require_stored_field
  verify_solana_encrypted_share_record_iff trusted address asked share = (
    λ h.
        elim (Result-cases
          (verify_encrypted_share_attestation_record crypto stored trusted dwallet asked)) [
            | inr (error, e) ↦ absurd (ground arith)
            | inl (decoded, e) ↦
                elim (Result-cases
                  (require_stored_share crypto account decoded stored dwallet registered given)) [
                    | inr (error, f) ↦ absurd (ground arith)
                    | inl (u, f) ↦
                        let same : decoded ≡ share = ground arith in
                        let (attested, of_dwallet) =
                          (verify_encrypted_share_attestation_record_iff crypto dwallet stored
                              trusted asked share).0
                            (e ∙ ap ok same) in
                        (
                          (same_bytes_iff account.dwallet address).0 (ground arith),
                          attested,
                          of_dwallet,
                          (require_stored_share_iff share).0 (
                              ap
                                (λ s.
                                  require_stored_share crypto account s stored dwallet registered
                                    given)
                                (sym same)
                              ∙ f),
                        )
                  ]
          ],
    λ (named, attested, of_dwallet, stores).
        let address_ok = (same_bytes_iff account.dwallet address).1 named in
        let decoded =
          (verify_encrypted_share_attestation_record_iff crypto dwallet stored trusted asked
              share).1
            (attested, of_dwallet) in
        let stored_ok = (require_stored_share_iff share).1 stores in ground arith,
  )
