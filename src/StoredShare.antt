-- ===== src/StoredShare.antt =====
-- sdk/solana/src/record-checks.ts: an encrypted share's account, checked against its attestation. An
-- Ed25519 check that throws is `none`, and the holder's acceptance is then refused.
pub mod Accepted
mod Tests
use ika_pre_alpha.Prelude.{
  ℕ, Bool, true, false, not, ◌&&◌, ◌||◌, Option, none, some, ◌==◌, if◌then◌else◌, length, all,
  Result, ok, err, guard, ◌>>=◌, ◌>>◌,
}
use ika_pre_alpha.Prelude.Bytes.{Bytes, same_bytes}
use ika_pre_alpha.Networks.{TrustedNetworkKeys}
use ika_pre_alpha.Attested.Kinds.{
  EncryptedShareAttestation, AttestationRecord, AttestationCrypto, AttestationFailure,
}
use ika_pre_alpha.Attested.DWallet.{same_bool, is_some, VerifiedDWalletAttestation}
use ika_pre_alpha.Attested.Shares.{
  AskedHolder, names_of_encrypted, is_share_of_the_creating_request,
  verify_encrypted_share_attestation_record,
}
use ika_pre_alpha.Attested.Stored.{
  require_stored_field, verify_registered_encryption_key, verify_stored_encrypted_share,
}
use ika_pre_alpha.Accounts.Variable.{EncryptedUserSecretKeyShareAccount}

-- The values that the network's signature does not cover are the last three.
pub record VerifiedSolanaEncryptedShare : Type 0 where
  pub attestation : EncryptedShareAttestation
  pub encrypted_share : Bytes
  pub registered_encryption_key : Bytes
  pub acceptance_signature : Bytes
  pub acceptance_given : Bool
  pub created_epoch : ℕ
  pub bump : ℕ
  pub reserved : Bytes

-- `ed25519.verify` in its try block
abbrev pub signature_verifies : Option Bool → Bool
signature_verifies none = false
signature_verifies (some verified) = verified

abbrev pub no_source_share : Bytes → Bool
no_source_share source = length source == 32 && all (λ byte. byte == 0) source

abbrev pub is_given : EncryptedUserSecretKeyShareAccount → Option Bytes → Bool
is_given account given = not account.accepted && is_some given

abbrev pub signature_of : EncryptedUserSecretKeyShareAccount → Option Bytes → Bytes
signature_of account none = account.acceptance_signature
signature_of account (some given) = if account.accepted then account.acceptance_signature else given

module _ (crypto : AttestationCrypto) where
  open crypto use {keccak_256, ed25519_verify}

  -- The digest that the holder signs: of the dWallet's attestation for its first share, of the share's
  -- own attestation otherwise.
  pub solana_accepted_digest : Bool → VerifiedDWalletAttestation → AttestationRecord → Bytes
  solana_accepted_digest first_share dwallet stored =
      if first_share
      then keccak_256 dwallet.attestation_data
      else keccak_256 stored.attestation_data

  -- The checks after the attestation's own.
  pub require_stored_share :
      EncryptedUserSecretKeyShareAccount
      → EncryptedShareAttestation
      → AttestationRecord
      → VerifiedDWalletAttestation
      → (registered_encryption_key : Bytes) → (given_acceptance_signature : Option Bytes)
      → Result AttestationFailure (Unit {0})
  require_stored_share account share stored dwallet registered given =
      let first_share =
        is_share_of_the_creating_request (names_of_encrypted share) dwallet.attestation in
      let accepted_digest = solana_accepted_digest first_share dwallet stored in
      require_stored_field "encryption_key_owner"
        (same_bytes share.holder.signer_public_key account.encryption_key_owner)
      >> require_stored_field "source_share" (
          length account.source_share == 32
          && same_bool first_share (no_source_share account.source_share))
      >> require_stored_field "is_re_encrypted"
          (same_bool account.is_re_encrypted (not first_share))
      >> verify_stored_encrypted_share crypto share account.encrypted_share
      >> verify_registered_encryption_key crypto share registered
      >> require_stored_field "accepted" (account.accepted || is_given account given)
      >> require_stored_field "acceptance_digest"
          (same_bytes account.acceptance_digest accepted_digest)
      >> require_stored_field "acceptance_signature" (
          signature_verifies (
            ed25519_verify (signature_of account given) accepted_digest
              share.holder.signer_public_key))

  abbrev pub verified_share :
      EncryptedUserSecretKeyShareAccount
      → EncryptedShareAttestation
      → (registered_encryption_key : Bytes) → (given_acceptance_signature : Option Bytes)
      → VerifiedSolanaEncryptedShare
  verified_share account share registered given = record {
    attestation = share;
    encrypted_share = account.encrypted_share;
    registered_encryption_key = registered;
    acceptance_signature = signature_of account given;
    acceptance_given = is_given account given;
    created_epoch = account.created_epoch;
    bump = account.bump;
    reserved = account.reserved;
  }

  pub verify_solana_encrypted_share_record :
      EncryptedUserSecretKeyShareAccount
      → AttestationRecord
      → TrustedNetworkKeys
      → VerifiedDWalletAttestation
      → (dwallet_address : Bytes) → AskedHolder
      → (registered_encryption_key : Bytes) → (given_acceptance_signature : Option Bytes)
      → Result AttestationFailure VerifiedSolanaEncryptedShare
  verify_solana_encrypted_share_record account stored trusted dwallet address holder registered
        given =
      do
        require_stored_field "dwallet" (same_bytes account.dwallet address)
        share ← verify_encrypted_share_attestation_record crypto stored trusted dwallet holder
        require_stored_share account share stored dwallet registered given
        ok (verified_share account share registered given)
