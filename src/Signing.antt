-- ===== src/Signing.antt =====
-- sdk/core/src/grpc/signature-verification.ts: the scheme that a request names, as the verifier and the
-- signer read it, and the signature of an answer. The cryptography of the client is the interface
-- `UserCryptography` (sdk/core/src/client/user-cryptography.ts), whose calls answer or throw a text,
-- and the BCS structs of the metadata are a third-party package's. A curve and a scheme are numbers
-- where the source takes numbers.
mod Types
pub mod Plan
pub mod Sample
mod Tests
pub use Types.*
use Prim.Native.String.{String}
use ika_pre_alpha.Prelude.{
  ℕ, Bool, true, false, not, ◌&&◌, ◌||◌, Option, none, some, List, [], ◌∷◌, ◌==◌, if◌then◌else◌,
  length, Result, ok, err, guard, map_err, ◌>>=◌, ◌>>◌,
}
use ika_pre_alpha.Prelude.Bytes.{Bytes}
use ika_pre_alpha.Schemes.{
  Hash, keccak256, sha256, double_sha256, sha512, merlin, Curve, secp256k1, secp256r1, ed25519,
  ristretto, SignatureAlgorithm, ecdsa_secp256k1, taproot, ecdsa_secp256r1, ed_dsa, schnorrkel,
}

-- The text `substrate`.
abbrev pub default_schnorrkel_context : Bytes
default_schnorrkel_context = b's' ∷ b'u' ∷ b'b' ∷ b's' ∷ b't' ∷ b'r' ∷ b'a' ∷ b't' ∷ b'e' ∷ []

abbrev pub context_of : Bytes → SignatureHashContext
context_of context = record {
  signing_context = if length context == 0 then default_schnorrkel_context else context;
}

-- Whether the scheme and the curve are these.
abbrev pub signs_on : (scheme curve at_scheme at_curve : ℕ) → Bool
signs_on scheme curve at_scheme at_curve = scheme == at_scheme && curve == at_curve

-- `SCHNORRKEL_MERLIN` is 6 and `ECDSA_BLAKE2B256` is 4.
abbrev pub takes_metadata : ℕ → Bool
takes_metadata scheme = scheme == 6 || scheme == 4

module _ (codec : MetadataCodec) where
  open codec use {parse_blake2b, serialize_blake2b, parse_schnorrkel, serialize_schnorrkel}

  -- The metadata whose serialization has the length of the bytes.
  pub whole {ℓ} : {A : Type ℓ} → Bytes → A → Option Bytes → Result SigningError A
  whole bytes metadata none = err metadata_not_parsed
  whole bytes metadata (some written) =
      guard (length written == length bytes) bytes_remain >> ok metadata

  pub parse_blake2b_message_metadata : Bytes → Result SigningError Blake2bMessageMetadata
  parse_blake2b_message_metadata bytes = elim (parse_blake2b bytes) [
    | none ↦ err metadata_not_parsed
    | some metadata ↦ whole bytes metadata (serialize_blake2b metadata)
  ]

  pub parse_schnorrkel_message_metadata : Bytes → Result SigningError Bytes
  parse_schnorrkel_message_metadata bytes = elim (parse_schnorrkel bytes) [
    | none ↦ err metadata_not_parsed
    | some context ↦ whole bytes context (serialize_schnorrkel context)
  ]

  -- The scheme by its number; `requireMessageMetadataOfScheme` takes its name.
  pub require_message_metadata_of_scheme : ℕ → Bytes → Result SigningError (Unit {0})
  require_message_metadata_of_scheme scheme metadata =
      if scheme == 4
      then parse_blake2b_message_metadata metadata >>= (λ parsed. ok tt)
      else if scheme == 6
      then parse_schnorrkel_message_metadata metadata >>= (λ context. ok tt)
      else guard (length metadata == 0) metadata_not_empty

  module _ (cryptography : UserCryptography) where
    open cryptography use {
      verify_signature, verify_ecdsa_blake2b256_signature,
      create_user_sign_message_with_public_output, create_user_sign_message_with_user_public_output,
      create_user_sign_message_ecdsa_blake2b256,
    }

    pub verify_signature_with_scheme : SignatureWithScheme → Result SigningError (Unit {0})
    verify_signature_with_scheme s =
        let signs : ℕ → ℕ → Bool = signs_on s.signature_scheme s.curve in
        let verify : Curve
            → SignatureAlgorithm
            → Hash
            → Option SignatureHashContext
            → Result SigningError (Unit {0}) =
          λ curve algorithm hash context. map_err cryptography_threw (
            verify_signature curve algorithm hash s.dwallet_public_output s.message s.signature
              context) in
        if signs 4 0
        then parse_blake2b_message_metadata s.message_metadata >>= (λ metadata.
          map_err cryptography_threw (
            verify_ecdsa_blake2b256_signature s.dwallet_public_output s.message s.signature
              metadata.personal metadata.salt))
        else if signs 6 3
        then parse_schnorrkel_message_metadata s.message_metadata
          >>= (λ context. verify ristretto schnorrkel merlin (some (context_of context)))
        else if not (takes_metadata s.signature_scheme) && not (length s.message_metadata == 0)
        then err metadata_not_empty
        else if signs 0 0
        then verify secp256k1 ecdsa_secp256k1 keccak256 none
        else if signs 1 0
        then verify secp256k1 ecdsa_secp256k1 sha256 none
        else if signs 2 0
        then verify secp256k1 ecdsa_secp256k1 double_sha256 none
        else if signs 3 0
        then verify secp256k1 taproot sha256 none
        else if signs 1 1
        then verify secp256r1 ecdsa_secp256r1 sha256 none
        else if signs 5 2
        then verify ed25519 ed_dsa sha512 none
        else err (does_not_sign_on s.signature_scheme s.curve)

    -- `of_user` where `output` is `'user'`.
    pub user_sign_message_with_scheme :
        (of_user : Bool) (curve scheme : ℕ) (message_metadata : Bytes)
        → SignInputs
        → Result SigningError Bytes
    user_sign_message_with_scheme of_user curve scheme message_metadata inputs =
        let signs : ℕ → ℕ → Bool = signs_on scheme curve in
        let sign : Curve
            → SignatureAlgorithm
            → Hash
            → Option SignatureHashContext
            → Result SigningError Bytes =
          λ signer algorithm hash context. map_err cryptography_threw (
            if of_user
            then create_user_sign_message_with_user_public_output inputs hash algorithm signer
                context
            else create_user_sign_message_with_public_output inputs hash algorithm signer
                context) in
        if signs 4 0
        then parse_blake2b_message_metadata message_metadata >>= (λ metadata.
          if of_user
          then err needs_network_output
          else map_err cryptography_threw
              (create_user_sign_message_ecdsa_blake2b256 inputs metadata.personal metadata.salt))
        else if signs 6 3
        then parse_schnorrkel_message_metadata message_metadata
          >>= (λ context. sign ristretto schnorrkel merlin (some (context_of context)))
        else if not (takes_metadata scheme) && not (length message_metadata == 0)
        then err metadata_not_empty
        else if signs 0 0
        then sign secp256k1 ecdsa_secp256k1 keccak256 none
        else if signs 1 0
        then sign secp256k1 ecdsa_secp256k1 sha256 none
        else if signs 2 0
        then sign secp256k1 ecdsa_secp256k1 double_sha256 none
        else if signs 3 0
        then sign secp256k1 taproot sha256 none
        else if signs 1 1
        then sign secp256r1 ecdsa_secp256r1 sha256 none
        else if signs 5 2
        then sign ed25519 ed_dsa sha512 none
        else err (does_not_sign_on scheme curve)

    pub create_user_sign_message_with_scheme :
        (curve scheme : ℕ) (message_metadata : Bytes) → SignInputs → Result SigningError Bytes
    create_user_sign_message_with_scheme = user_sign_message_with_scheme false

    pub create_user_sign_message_for_sign_during_dkg :
        (curve scheme : ℕ) (message_metadata : Bytes) → SignInputs → Result SigningError Bytes
    create_user_sign_message_for_sign_during_dkg = user_sign_message_with_scheme true

    -- The expected signature's own `signature` is replaced by the answer's.
    pub signature_from_response_verified :
        TransactionResponse → SignatureWithScheme → Result SigningError Bytes
    signature_from_response_verified (error_response message) expected =
        err (network_refused message)
    signature_from_response_verified (attestation_response a) expected =
        err answered_with_attestation
    signature_from_response_verified (signature_response signature) expected =
        verify_signature_with_scheme (record {
          curve = expected.curve;
          signature_scheme = expected.signature_scheme;
          message = expected.message;
          message_metadata = expected.message_metadata;
          dwallet_public_output = expected.dwallet_public_output;
          signature = signature;
        })
        >> ok signature
