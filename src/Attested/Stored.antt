-- ===== src/Attested/Stored.antt =====
-- attestation-record.ts: what a chain record stores beside its attestation, and the network key an
-- attestation names. The reader of the chain's network keys answers the key of the record, or none.
pub mod NamedKey
use Prim.Native.String.{String}
use ika_pre_alpha.Prelude.{
  ℕ, Bool, true, false, not, ◌&&◌, Option, none, some, ◌==◌, if◌then◌else◌, Result, ok, err, guard,
  ◌>>=◌, ◌>>◌,
}
use ika_pre_alpha.Prelude.Bytes.{Bytes, same_bytes}
use ika_pre_alpha.Networks.{
  IkaNetwork, TrustedNetworkKeys, NetworkError, attestation_network_key_refusal_in,
  ika_deployed_networks, listed_network_key,
}
use ika_pre_alpha.Attested.Kinds.{
  AttestationKind, Decoded, curve_index, DWalletAttestation, EncryptedShareAttestation,
  AttestationRecord, AttestationCrypto, AttestationFailure, failed, binding_check, record_check,
}
use ika_pre_alpha.Attested.Record.{verify_and_decode}
use ika_pre_alpha.Attested.Proof.{record_of_attestation}
use ika_pre_alpha.Attested.DWallet.{same_bool, is_some, VerifiedDWalletAttestation}

unfoldable pub require_stored_field : String → Bool → Result AttestationFailure (Unit {0})
require_stored_field field holds = guard holds (failed record_check (some field))

pub record StoredDWallet : Type 0 where
  pub curve : ℕ
  pub public_key : Bytes
  pub is_imported_key : Bool
  pub imported_session_identifier : Option Bytes

abbrev pub is_stored_session : DWalletAttestation → Option Bytes → Bool
is_stored_session a none = not a.is_imported_key
is_stored_session a (some imported) = a.is_imported_key && same_bytes imported a.session_identifier

pub verify_stored_dwallet :
    StoredDWallet → VerifiedDWalletAttestation → Result AttestationFailure (Unit {0})
verify_stored_dwallet stored dwallet =
    let a = dwallet.attestation in
    require_stored_field "curve" (curve_index a.curve == stored.curve)
    >> require_stored_field "public_key" (same_bytes stored.public_key a.public_key)
    >> require_stored_field "is_imported_key" (same_bool stored.is_imported_key a.is_imported_key)
    >> require_stored_field "session_identifier"
        (is_stored_session a stored.imported_session_identifier)

-- A validator's answer, or a chain's record with the network key stored beside it.
pub data AttestationToVerify : Type 0 where
  answer_of : (bytes signature network_pubkey signer : Bytes) → AttestationToVerify
  record_of : AttestationRecord → Bytes → AttestationToVerify

unfoldable pub verify_attestation_network_key :
    Bytes → Bytes → IkaNetwork → Option TrustedNetworkKeys → Result AttestationFailure (Unit {0})
verify_attestation_network_key named expected network trusted =
    elim (attestation_network_key_refusal_in ika_deployed_networks named expected network trusted) [
      | none ↦ ok tt
      | some refusal ↦ err (failed binding_check (some "network_pubkey"))
    ]

-- A failed read throws the reader's own error.
pub data NetworkKeyReadError : Type 0 where
  refused_key : AttestationFailure → NetworkKeyReadError
  reader_threw : String → NetworkKeyReadError

abbrev pub not_the_network_key : NetworkKeyReadError
not_the_network_key = refused_key (failed binding_check (some "network_pubkey"))

pub read_and_verify_network_key :
    (Bytes → Result String (Option Bytes)) → Bytes → IkaNetwork → Result NetworkKeyReadError Bytes
read_and_verify_network_key fetch_network_encryption_key key network =
    elim (listed_network_key network key) [
      | err error ↦ err not_the_network_key
      | ok entry ↦ elim (fetch_network_encryption_key key) [
        | err error ↦ err (reader_threw error)
        | ok none ↦ err not_the_network_key
        | ok (some noa_public_key) ↦
            guard (same_bytes noa_public_key key) not_the_network_key >> ok noa_public_key
      ]
    ]

module _ (crypto : AttestationCrypto) where
  open crypto use {keccak_256}

  unfoldable pub verify_registered_encryption_key :
      EncryptedShareAttestation → Bytes → Result AttestationFailure (Unit {0})
  verify_registered_encryption_key share registered =
      require_stored_field "encryption_key_hash"
        (same_bytes (keccak_256 registered) share.encryption_key_hash)

  unfoldable pub verify_stored_encrypted_share :
      EncryptedShareAttestation → Bytes → Result AttestationFailure (Unit {0})
  verify_stored_encrypted_share share encrypted_share =
      require_stored_field "encrypted_share"
        (same_bytes (keccak_256 encrypted_share) share.encrypted_share_hash)

  pub verify_attestation_of :
      AttestationRecord
      → Bytes
      → (kind : AttestationKind) → Bytes
      → TrustedNetworkKeys
      → Option ℕ
      → Result AttestationFailure (Decoded kind)
  verify_attestation_of stored network_pubkey kind expected trusted public_share_curve =
      verify_attestation_network_key network_pubkey expected trusted.network none
      >> verify_and_decode crypto stored trusted kind public_share_curve

  pub verify_attestation :
      AttestationToVerify
      → (kind : AttestationKind) → Bytes
      → TrustedNetworkKeys
      → Option ℕ
      → Result AttestationFailure (Decoded kind)
  verify_attestation (answer_of bytes signature network_pubkey signer) kind =
      verify_attestation_of (record_of_attestation bytes signature signer) network_pubkey kind
  verify_attestation (record_of stored network_pubkey) kind =
      verify_attestation_of stored network_pubkey kind
