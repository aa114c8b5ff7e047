-- ===== src/Signing/Types.antt =====
-- The inputs of signing, the client's cryptography, and the responses and errors.
use Prim.Native.String.{String}
use ika_pre_alpha.Prelude.{ℕ, Bool, Option, Result}
use ika_pre_alpha.Prelude.Bytes.{Bytes}
use ika_pre_alpha.Schemes.{Hash, Curve, SignatureAlgorithm}

pub record Blake2bMessageMetadata : Type 0 where
  pub personal : Bytes
  pub salt : Bytes

-- `SignatureHashContext`: the signing context of Schnorrkel.
pub record SignatureHashContext : Type 0 where
  pub signing_context : Bytes

pub record MetadataCodec : Type 0 where
  pub parse_blake2b : Bytes → Option Blake2bMessageMetadata
  pub serialize_blake2b : Blake2bMessageMetadata → Option Bytes
  pub parse_schnorrkel : Bytes → Option Bytes
  pub serialize_schnorrkel : Bytes → Option Bytes

-- What a sign message is made from, apart from the scheme: the parameters, the output, the share,
-- the presign and the message.
pub record SignInputs : Type 0 where
  pub protocol_public_parameters : Bytes
  pub public_output : Bytes
  pub user_secret_key_share : Bytes
  pub presign : Bytes
  pub message : Bytes

pub record UserCryptography : Type 0 where
  pub verify_signature :
      Curve
      → SignatureAlgorithm
      → Hash
      → (output message signature : Bytes) → Option SignatureHashContext
      → Result String (Unit {0})
  pub verify_ecdsa_blake2b256_signature :
      (output message signature personal salt : Bytes) → Result String (Unit {0})
  pub create_user_sign_message_with_public_output :
      SignInputs
      → Hash
      → SignatureAlgorithm
      → Curve
      → Option SignatureHashContext
      → Result String Bytes
  pub create_user_sign_message_with_user_public_output :
      SignInputs
      → Hash
      → SignatureAlgorithm
      → Curve
      → Option SignatureHashContext
      → Result String Bytes
  pub create_user_sign_message_ecdsa_blake2b256 :
      SignInputs → (personal salt : Bytes) → Result String Bytes
  pub user_and_network_dkg_output_match : Curve → Bytes → Bytes → Result String Bool
  pub public_key_from_dwallet_output : Curve → Bytes → Result String Bytes

pub data SigningError : Type 0 where
  cryptography_threw : String → SigningError
  metadata_not_parsed bytes_remain metadata_not_empty : SigningError
  does_not_sign_on : (scheme curve : ℕ) → SigningError
  needs_network_output : SigningError
  network_refused : String → SigningError
  answered_with_attestation : SigningError

pub record HeldAttestation : Type 0 where
  pub attestation_data : Bytes
  pub network_signature : Bytes
  pub network_pubkey : Bytes
  pub signer_noa_public_key : Bytes

-- `TransactionResponseData`
pub data TransactionResponse : Type 0 where
  signature_response : Bytes → TransactionResponse
  attestation_response : HeldAttestation → TransactionResponse
  error_response : String → TransactionResponse

pub record SignatureWithScheme : Type 0 where
  pub curve : ℕ
  pub signature_scheme : ℕ
  pub message : Bytes
  pub message_metadata : Bytes
  pub dwallet_public_output : Bytes
  pub signature : Bytes
