-- ===== src/CheckedReader.antt =====
-- sdk/solana/src/usability.ts: the reader that checks every account of a dWallet, over the reads of the
-- accounts as parameters. The reads of one call are functions, which answer or throw a text; the copies
-- that the code makes of byte arrays are the arrays.
use Prim.Native.String.{String}
use ika_pre_alpha.Prelude.{Bool, Option, none, some, Result, ok, err, guard, map_err, ◌>>=◌, ◌>>◌}
use ika_pre_alpha.Prelude.Bytes.{Bytes, same_bytes, among}
use ika_pre_alpha.Networks.{TrustedNetworkKeys}
use ika_pre_alpha.Attested.Kinds.{
  AttestationRecord, AttestationCrypto, AttestationFailure, failed, record_check,
}
use ika_pre_alpha.Attested.DWallet.{
  ExpectedDWallet, VerifiedDWalletAttestation, verify_dwallet_attestation_record,
}
use ika_pre_alpha.Attested.Shares.{AskedHolder}
use ika_pre_alpha.Attested.Stored.{verify_stored_dwallet}
use ika_pre_alpha.Accounts.{DWalletAccount}
use ika_pre_alpha.Accounts.Variable.{EncryptedUserSecretKeyShareAccount}
use ika_pre_alpha.StoredShare.{verify_solana_encrypted_share_record}

pub record StoredEncryptedShare : Type 0 where
  pub account : EncryptedUserSecretKeyShareAccount
  pub attestation : AttestationRecord
  pub registered_encryption_key : Bytes

-- The reads of a dWallet by its curve, public key and import session.
pub record SolanaDWalletAccountReadsUnverified : Type 0 where
  pub trusted_network_keys : TrustedNetworkKeys
  pub dwallet_address : ExpectedDWallet → Result String Bytes
  pub read_dwallet_attestation : ExpectedDWallet → Result String (Option AttestationRecord)
  pub read_dwallet_account : ExpectedDWallet → Result String (Option DWalletAccount)
  pub read_encrypted_share : ExpectedDWallet → Bytes → Result String (Option StoredEncryptedShare)
  pub read_public_share_attestation : ExpectedDWallet → Result String (Option AttestationRecord)
  pub read_dwallet_at : Bytes → Result String (Option DWalletAccount)

pub data ReaderError : Type 0 where
  refused_record : AttestationFailure → ReaderError
  read_threw : String → ReaderError

-- A share's record, and whether the given acceptance stood in for the stored one.
pub record CheckedEncryptedShareRecord : Type 0 where
  pub attestation : AttestationRecord
  pub acceptance_given : Bool

pub record CheckedDWallet : Type 0 where
  pub address : Bytes
  pub network_public_key : Bytes
  pub attestation : AttestationRecord
  pub read_encrypted_share :
      Bytes → Option Bytes → Result ReaderError (Option CheckedEncryptedShareRecord)
  pub read_public_share : Result ReaderError (Option AttestationRecord)

pub lookup_of : DWalletAccount → ExpectedDWallet
lookup_of account = record {
  curve = account.curve;
  public_key = account.public_key;
  imported_session_identifier = account.imported_session_identifier;
}

pub refuse_record_unless : String → Bool → Result ReaderError (Unit {0})
refuse_record_unless field holds = guard holds (refused_record (failed record_check (some field)))

module _ (crypto : AttestationCrypto) (reads : SolanaDWalletAccountReadsUnverified) where
  pub checked_read_encrypted_share :
      ExpectedDWallet
      → VerifiedDWalletAttestation
      → (address holder_signer_public_key : Bytes) → Option Bytes
      → Result ReaderError (Option CheckedEncryptedShareRecord)
  checked_read_encrypted_share lookup dwallet address holder given = do
    found ← map_err read_threw (reads.read_encrypted_share lookup holder)
    elim found [
      | none ↦ ok none
      | some share ↦ do
        let asked : AskedHolder = record {
          holder_signer_public_key = holder;
          holder_signature_scheme = none;
        }
        verified ← map_err refused_record (
            verify_solana_encrypted_share_record crypto share.account share.attestation
              reads.trusted_network_keys dwallet address asked share.registered_encryption_key
              given)
        ok (
            some (record {
              attestation = share.attestation;
              acceptance_given = verified.acceptance_given;
            }))
    ]

  -- The dWallet's own account, whose network key is trusted and whose values are the attestation's.
  pub checked_account :
      ExpectedDWallet → VerifiedDWalletAttestation → Result ReaderError DWalletAccount
  checked_account lookup dwallet = do
    found ← map_err read_threw (reads.read_dwallet_account lookup)
    elim found [
      | none ↦ err (refused_record (failed record_check (some "noa_public_key")))
      | some account ↦ do
        refuse_record_unless "noa_public_key"
            (among account.noa_public_key reads.trusted_network_keys.public_keys)
        map_err refused_record (
            verify_stored_dwallet
              (record {
                curve = account.curve;
                public_key = account.public_key;
                is_imported_key = account.is_imported;
                imported_session_identifier = account.imported_session_identifier;
              })
              dwallet)
        ok account
    ]

  pub checked_read_dwallet : ExpectedDWallet → Result ReaderError (Option CheckedDWallet)
  checked_read_dwallet lookup = do
    address ← map_err read_threw (reads.dwallet_address lookup)
    found ← map_err read_threw (reads.read_dwallet_attestation lookup)
    elim found [
      | none ↦ ok none
      | some attestation ↦ do
        dwallet ←
            map_err refused_record (
              verify_dwallet_attestation_record crypto attestation reads.trusted_network_keys
                lookup)
        account ← checked_account lookup dwallet
        ok (
            some (record {
              address = address;
              network_public_key = account.noa_public_key;
              attestation = attestation;
              read_encrypted_share = checked_read_encrypted_share lookup dwallet address;
              read_public_share = map_err read_threw (reads.read_public_share_attestation lookup);
            }))
    ]

  -- The dWallet that the account at an address names, read again at the address that it derives.
  pub checked_read_dwallet_at : Bytes → Result ReaderError (Option CheckedDWallet)
  checked_read_dwallet_at asked = do
    found ← map_err read_threw (reads.read_dwallet_at asked)
    elim found [
      | none ↦ ok none
      | some account ↦ do
        read ← checked_read_dwallet (lookup_of account)
        elim read [
          | none ↦ ok none
          | some checked ↦
              refuse_record_unless "address" (same_bytes checked.address asked) >> ok (some checked)
        ]
    ]
