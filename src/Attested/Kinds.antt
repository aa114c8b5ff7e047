-- ===== src/Attested/Kinds.antt =====
-- The kinds of attestation, their contents as bcs.ts lays them out, and the errors of the checks.
use Prim.Native.String.{String}
use ika_pre_alpha.Prelude.{ℕ, Bool, Option}
use ika_pre_alpha.Prelude.Bytes.{Bytes}

pub data AttestationKind : Type 0 where
  dwallet_kind presign_kind partial_user_signature_kind encrypted_share_kind public_share_kind :
      AttestationKind

abbrev pub attestation_kind_tags : AttestationKind → ℕ
attestation_kind_tags dwallet_kind = 0
attestation_kind_tags presign_kind = 1
attestation_kind_tags partial_user_signature_kind = 2
attestation_kind_tags encrypted_share_kind = 3
attestation_kind_tags public_share_kind = 4

pub data DWalletCurve : Type 0 where
  secp256k1 secp256r1 curve25519 ristretto : DWalletCurve

-- `CURVES.indexOf(curve.$kind)`
abbrev pub curve_index : DWalletCurve → ℕ
curve_index secp256k1 = 0
curve_index secp256r1 = 1
curve_index curve25519 = 2
curve_index ristretto = 3

pub data SignatureScheme : Type 0 where
  ed25519 secp256k1_scheme secp256r1_scheme : SignatureScheme

-- `SIGNATURE_SCHEMES.indexOf(signature_scheme.$kind)`
abbrev pub scheme_index : SignatureScheme → ℕ
scheme_index ed25519 = 0
scheme_index secp256k1_scheme = 1
scheme_index secp256r1_scheme = 2

pub data DWalletSignatureScheme : Type 0 where
  ecdsa_keccak256 ecdsa_sha256 ecdsa_double_sha256 taproot_sha256 ecdsa_blake2b256 eddsa_sha512
        schnorrkel_merlin :
      DWalletSignatureScheme

-- `ATTESTATION_DWALLET_SIGNATURE_SCHEMES.indexOf(signature_scheme.$kind)`
abbrev pub dwallet_scheme_index : DWalletSignatureScheme → ℕ
dwallet_scheme_index ecdsa_keccak256 = 0
dwallet_scheme_index ecdsa_sha256 = 1
dwallet_scheme_index ecdsa_double_sha256 = 2
dwallet_scheme_index taproot_sha256 = 3
dwallet_scheme_index ecdsa_blake2b256 = 4
dwallet_scheme_index eddsa_sha512 = 5
dwallet_scheme_index schnorrkel_merlin = 6

pub data DWalletSignatureAlgorithm : Type 0 where
  ecdsa_secp256k1 ecdsa_secp256r1 taproot eddsa schnorrkel taproot_vss eddsa_vss schnorrkel_vss :
      DWalletSignatureAlgorithm

-- The variant's place, by which two variants are compared.
abbrev pub algorithm_index : DWalletSignatureAlgorithm → ℕ
algorithm_index ecdsa_secp256k1 = 0
algorithm_index ecdsa_secp256r1 = 1
algorithm_index taproot = 2
algorithm_index eddsa = 3
algorithm_index schnorrkel = 4
algorithm_index taproot_vss = 5
algorithm_index eddsa_vss = 6
algorithm_index schnorrkel_vss = 7

pub record ShareHolder : Type 0 where
  pub signature_scheme : SignatureScheme
  pub signer_public_key : Bytes

pub record DWalletAttestation : Type 0 where
  pub session_identifier : Bytes
  pub intended_chain_sender : Bytes
  pub curve : DWalletCurve
  pub public_key : Bytes
  pub public_output : Bytes
  pub is_imported_key : Bool
  pub sign_during_dkg_signature : Option Bytes
  pub holder : Option ShareHolder
  pub encryption_key_hash : Option Bytes
  pub encrypted_share_hash : Option Bytes
  pub epoch : ℕ

pub record EncryptedShareAttestation : Type 0 where
  pub session_identifier : Bytes
  pub intended_chain_sender : Bytes
  pub dwallet_public_key : Bytes
  pub encrypted_share_hash : Bytes
  pub encryption_key_hash : Bytes
  pub holder : ShareHolder
  pub dwallet_attestation_digest : Bytes

pub record PublicShareAttestation : Type 0 where
  pub session_identifier : Bytes
  pub intended_chain_sender : Bytes
  pub dwallet_public_key : Bytes
  pub public_user_secret_key_share : Bytes
  pub dwallet_attestation_digest : Bytes

pub record PresignDataAttestation : Type 0 where
  pub session_identifier : Bytes
  pub epoch : ℕ
  pub presign_session_identifier : Bytes
  pub presign_data : Bytes
  pub curve : DWalletCurve
  pub signature_algorithm : DWalletSignatureAlgorithm
  pub dwallet_public_key : Option Bytes
  pub user_pubkey : Bytes

pub record PartialSignatureAttestation : Type 0 where
  pub session_identifier : Bytes
  pub intended_chain_sender : Bytes
  pub dwallet_public_key : Bytes
  pub dwallet_attestation_hash : Bytes
  pub future_signature_voucher : Bytes
  pub presign_session_identifier : Bytes
  pub presign_attestation_hash : Bytes
  pub message_digest : Bytes
  pub message_metadata_digest : Bytes
  pub signature_scheme : DWalletSignatureScheme
  pub verified_sign_data : Bytes

abbrev pub Decoded : AttestationKind → Type 0
Decoded dwallet_kind = DWalletAttestation
Decoded presign_kind = PresignDataAttestation
Decoded partial_user_signature_kind = PartialSignatureAttestation
Decoded encrypted_share_kind = EncryptedShareAttestation
Decoded public_share_kind = PublicShareAttestation

-- A BCS enum whose only variant is `V1` today, or another variant by its name.
pub data Versioned {ℓ} (A : Type ℓ) : Type ℓ where
  v1 : A → Versioned A
  another_variant : String → Versioned A

pub record AttestationRecord : Type 0 where
  pub attestation_data : Bytes
  pub attestation_version : ℕ
  pub network_signature : Bytes
  pub signer_noa_public_key : Bytes

pub record AttestationProof : Type 0 where
  pub attestation_version : ℕ
  pub signer_noa_public_key : Bytes
  pub network_signature : Bytes

-- `ed25519.verify` throws where it answers `none`, and so do `parse` and `serialize` of BCS.
pub record AttestationCrypto : Type 0 where
  pub keccak_256 : Bytes → Bytes
  pub ed25519_verify : Bytes → Bytes → Bytes → Option Bool
  pub parse : (kind : AttestationKind) → Bytes → Option (Versioned (Decoded kind))
  pub serialize : (kind : AttestationKind) → Versioned (Decoded kind) → Option Bytes
  pub parse_proof : Bytes → Option (Versioned AttestationProof)
  pub serialize_proof : Versioned AttestationProof → Option Bytes

pub data AttestationRecordCheck : Type 0 where
  version_check signer_check signature_check decode_check length_check binding_check record_check :
      AttestationRecordCheck

-- An `AttestationRecordError` with its check and its field, the `TypeError` of a call without the
-- curve, and an error that BCS throws out of the check.
pub data AttestationFailure : Type 0 where
  failed : AttestationRecordCheck → Option String → AttestationFailure
  curve_required : AttestationFailure
  bcs_threw : AttestationFailure
