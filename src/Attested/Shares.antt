-- ===== src/Attested/Shares.antt =====
-- attestation-record.ts: the attestations of a dWallet's shares, and what they must name.
pub mod Parts
pub mod Encrypted
pub mod Public
use ika_pre_alpha.Prelude.{
  ℕ, Bool, true, false, not, ◌&&◌, Option, none, some, ◌==◌, if◌then◌else◌, Result, ok, err, guard,
  ◌>>=◌, ◌>>◌,
}
use ika_pre_alpha.Prelude.Bytes.{Bytes, same_bytes}
use ika_pre_alpha.Networks.{TrustedNetworkKeys}
use ika_pre_alpha.Attested.Kinds.{
  encrypted_share_kind, public_share_kind, curve_index, scheme_index, ShareHolder,
  DWalletAttestation, EncryptedShareAttestation, PublicShareAttestation, AttestationRecord,
  AttestationCrypto, AttestationFailure,
}
use ika_pre_alpha.Attested.Record.{verify_and_decode}
use ika_pre_alpha.Attested.DWallet.{is_some, require_field, VerifiedDWalletAttestation}

-- What both share attestations name of their dWallet.
pub record ShareNames : Type 0 where
  pub session_identifier : Bytes
  pub intended_chain_sender : Bytes
  pub dwallet_public_key : Bytes
  pub dwallet_attestation_digest : Bytes

abbrev pub names_of_encrypted : EncryptedShareAttestation → ShareNames
names_of_encrypted share = record {
  session_identifier = share.session_identifier;
  intended_chain_sender = share.intended_chain_sender;
  dwallet_public_key = share.dwallet_public_key;
  dwallet_attestation_digest = share.dwallet_attestation_digest;
}

abbrev pub names_of_public : PublicShareAttestation → ShareNames
names_of_public share = record {
  session_identifier = share.session_identifier;
  intended_chain_sender = share.intended_chain_sender;
  dwallet_public_key = share.dwallet_public_key;
  dwallet_attestation_digest = share.dwallet_attestation_digest;
}

pub record AskedHolder : Type 0 where
  pub holder_signer_public_key : Bytes
  pub holder_signature_scheme : Option ℕ

pub is_share_of_the_creating_request : ShareNames → DWalletAttestation → Bool
is_share_of_the_creating_request share dwallet =
    same_bytes share.session_identifier dwallet.session_identifier

pub require_same_sender_and_key :
    ShareNames → VerifiedDWalletAttestation → Result AttestationFailure (Unit {0})
require_same_sender_and_key share dwallet =
    require_field "intended_chain_sender"
      (same_bytes share.intended_chain_sender dwallet.attestation.intended_chain_sender)
    >> require_field "dwallet_public_key"
        (same_bytes share.dwallet_public_key dwallet.attestation.public_key)

pub require_same_request :
    ShareNames → VerifiedDWalletAttestation → Result AttestationFailure (Unit {0})
require_same_request share dwallet =
    require_field "session_identifier"
      (same_bytes share.session_identifier dwallet.attestation.session_identifier)
    >> require_same_sender_and_key share dwallet

abbrev pub default_scheme : Option ℕ → ℕ
default_scheme none = 0
default_scheme (some scheme) = scheme

abbrev pub is_asked_holder : ShareHolder → AskedHolder → Bool
is_asked_holder holder asked =
    scheme_index holder.signature_scheme == default_scheme asked.holder_signature_scheme
    && same_bytes holder.signer_public_key asked.holder_signer_public_key

-- The hash is there, and is the one that the share names.
abbrev pub is_named_hash : Bytes → Option Bytes → Bool
is_named_hash hash none = false
is_named_hash hash (some named) = same_bytes hash named

abbrev pub is_first_holder : ShareHolder → Option ShareHolder → AskedHolder → Bool
is_first_holder holder none asked = false
is_first_holder holder (some of_dwallet) asked =
    scheme_index holder.signature_scheme == scheme_index of_dwallet.signature_scheme
    && (same_bytes holder.signer_public_key of_dwallet.signer_public_key
        && is_asked_holder holder asked)

module _ (crypto : AttestationCrypto) where
  open crypto use {keccak_256}

  unfoldable pub dwallet_attestation_digest : Bytes → Bytes
  dwallet_attestation_digest attestation_data = keccak_256 attestation_data

  pub share_attestation_digest : Bytes → Bytes
  share_attestation_digest share_attestation_data = keccak_256 share_attestation_data

  pub require_dwallet_attestation_digest :
      ShareNames → VerifiedDWalletAttestation → Result AttestationFailure (Unit {0})
  require_dwallet_attestation_digest share dwallet = require_field "dwallet_attestation_digest" (
      same_bytes share.dwallet_attestation_digest
        (dwallet_attestation_digest dwallet.attestation_data))

  pub require_same_dwallet :
      ShareNames → VerifiedDWalletAttestation → Result AttestationFailure (Unit {0})
  require_same_dwallet share dwallet =
      require_same_sender_and_key share dwallet >> require_dwallet_attestation_digest share dwallet

  -- A share that was re-encrypted to the holder, in a session of its own.
  pub require_re_encrypted :
      EncryptedShareAttestation
      → VerifiedDWalletAttestation
      → AskedHolder
      → Result AttestationFailure (Unit {0})
  require_re_encrypted share dwallet asked =
      require_same_dwallet (names_of_encrypted share) dwallet
      >> require_field "holder" (is_asked_holder share.holder asked)

  -- The share that was made with the dWallet.
  pub require_first_share :
      EncryptedShareAttestation
      → VerifiedDWalletAttestation
      → AskedHolder
      → Result AttestationFailure (Unit {0})
  require_first_share share dwallet asked =
      require_same_request (names_of_encrypted share) dwallet
      >> require_field "encrypted_share_hash"
          (is_named_hash share.encrypted_share_hash dwallet.attestation.encrypted_share_hash)
      >> require_field "encryption_key_hash"
          (is_named_hash share.encryption_key_hash dwallet.attestation.encryption_key_hash)
      >> require_field "holder" (is_first_holder share.holder dwallet.attestation.holder asked)
      >> require_dwallet_attestation_digest (names_of_encrypted share) dwallet

  pub require_encrypted_share_of :
      EncryptedShareAttestation
      → VerifiedDWalletAttestation
      → AskedHolder
      → Result AttestationFailure (Unit {0})
  require_encrypted_share_of share dwallet asked =
      if not (is_share_of_the_creating_request (names_of_encrypted share) dwallet.attestation)
      then require_re_encrypted share dwallet asked
      else require_first_share share dwallet asked

  pub verify_encrypted_share_attestation_record :
      AttestationRecord
      → TrustedNetworkKeys
      → VerifiedDWalletAttestation
      → AskedHolder
      → Result AttestationFailure EncryptedShareAttestation
  verify_encrypted_share_attestation_record stored trusted dwallet asked = do
    share ← verify_and_decode crypto stored trusted encrypted_share_kind none
    require_encrypted_share_of share dwallet asked
    ok share

  pub require_public_share_of :
      PublicShareAttestation → VerifiedDWalletAttestation → Result AttestationFailure (Unit {0})
  require_public_share_of share dwallet =
      if not (is_share_of_the_creating_request (names_of_public share) dwallet.attestation)
      then require_same_dwallet (names_of_public share) dwallet
      else require_same_request (names_of_public share) dwallet
        >> require_field "holder" (not (is_some dwallet.attestation.holder))
        >> require_dwallet_attestation_digest (names_of_public share) dwallet

  pub verify_public_share_attestation_record :
      AttestationRecord
      → TrustedNetworkKeys
      → VerifiedDWalletAttestation
      → Result AttestationFailure PublicShareAttestation
  verify_public_share_attestation_record stored trusted dwallet = do
    let curve = curve_index dwallet.attestation.curve
    share ← verify_and_decode crypto stored trusted public_share_kind (some curve)
    require_public_share_of share dwallet
    ok share
