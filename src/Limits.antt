-- ===== src/Limits.antt =====
-- sdk/core/src/grpc/request-size-limits.ts: the size limits of a gRPC request. The request comes as
-- the object that sdk/core/src/grpc/bcs.ts serializes, with the byte fields of its kind whose lengths
-- are not fixed. The variants of that file without any are `other_request`. A field's dotted name is
-- the list of its parts.
pub mod Within
pub mod Refusal
mod Tests
use Prim.Native.String.{String}
use ika_pre_alpha.Prelude.{
  ℕ, Bool, Option, none, some, List, [], ◌∷◌, ◌++◌, ltb, if◌then◌else◌, length, find?, Result, ok,
  err,
}
use ika_pre_alpha.Prelude.Bytes.{Bytes}

pub data ByteFieldLimit : Type 0 where
  field message message_metadata : ByteFieldLimit

pub record GrpcRequestSizeLimits : Type 0 where
  pub field_bytes : ℕ
  pub message_bytes : ℕ
  pub message_metadata_bytes : ℕ
  pub signed_request_data_bytes : ℕ

abbrev pub grpc_request_size_limits : GrpcRequestSizeLimits
grpc_request_size_limits = record {
  field_bytes = 16_384;
  message_bytes = 16_384;
  message_metadata_bytes = 256;
  signed_request_data_bytes = 65_536;
}

abbrev pub limit_bytes : ByteFieldLimit → ℕ
limit_bytes field = grpc_request_size_limits.field_bytes
limit_bytes message = grpc_request_size_limits.message_bytes
limit_bytes message_metadata = grpc_request_size_limits.message_metadata_bytes

abbrev pub FieldName : Type 0
FieldName = List String

-- The name, the limit, and the length.
abbrev pub ByteField : Type 0
ByteField = FieldName × ByteFieldLimit × ℕ

pub record Attestation : Type 0 where
  pub attestation_data : Bytes
  pub network_signature : Bytes
  pub network_pubkey : Bytes

pub record SignDuringDkg : Type 0 where
  pub presign_session_identifier : Bytes
  pub presign : Bytes
  pub message : Bytes
  pub message_metadata : Bytes
  pub message_centralized_signature : Bytes

pub record EncryptedShare : Type 0 where
  pub encrypted_centralized_secret_share_and_proof : Bytes
  pub encryption_key : Bytes
  pub signer_public_key : Bytes

pub data UserSecretKeyShare : Type 0 where
  encrypted : EncryptedShare → UserSecretKeyShare
  public_user_secret_key_share : Bytes → UserSecretKeyShare

pub record Dkg : Type 0 where
  pub centralized_public_key_share_and_proof : Bytes
  pub user_secret_key_share : UserSecretKeyShare
  pub user_public_output : Bytes
  pub sign_during_dkg_request : Option SignDuringDkg

pub record Sign : Type 0 where
  pub message : Bytes
  pub message_metadata : Bytes
  pub presign_session_identifier : Bytes
  pub message_centralized_signature : Bytes
  pub dwallet_attestation : Attestation

pub record PresignForDWallet : Type 0 where
  pub dwallet_public_key : Bytes
  pub dwallet_attestation : Attestation

pub record ReEncryptShare : Type 0 where
  pub dwallet_public_key : Bytes
  pub dwallet_attestation : Attestation
  pub encrypted_centralized_secret_share_and_proof : Bytes
  pub encryption_key : Bytes

pub record MakeSharePublic : Type 0 where
  pub dwallet_public_key : Bytes
  pub dwallet_attestation : Attestation
  pub public_user_secret_key_share : Bytes

pub record ImportedKeyVerification : Type 0 where
  pub centralized_party_message : Bytes
  pub user_secret_key_share : UserSecretKeyShare
  pub user_public_output : Bytes

pub record FutureSign : Type 0 where
  pub dwallet_public_key : Bytes
  pub dwallet_attestation : Attestation
  pub presign_attestation : Attestation
  pub message : Bytes
  pub message_metadata : Bytes
  pub message_centralized_signature : Bytes

-- The fields that both completions of a future sign carry.
pub record FutureSignCompletion : Type 0 where
  pub partial_user_signature_attestation : Attestation
  pub dwallet_attestation : Attestation
  pub message : Bytes
  pub message_metadata : Bytes

-- `AttachEncryptedShare` has the byte fields of `ReEncryptShare`.
pub data Request : Type 0 where
  dkg : Dkg → Request
  sign : Sign → Request
  imported_key_sign : Sign → Request
  presign_for_dwallet : PresignForDWallet → Request
  re_encrypt_share : ReEncryptShare → Request
  make_share_public : MakeSharePublic → Request
  imported_key_verification : ImportedKeyVerification → Request
  future_sign : FutureSign → Request
  sign_with_partial_user_sig : FutureSignCompletion → Request
  imported_key_sign_with_partial_user_sig : FutureSignCompletion → Request
  attach_encrypted_share : ReEncryptShare → Request
  other_request : Request

pub record SignedData : Type 0 where
  pub intended_chain_sender : Bytes
  pub request : Request

pub data LimitError : Type 0 where
  field_over_limit : FieldName → ℕ → ℕ → LimitError
  signed_request_over_limit : ℕ → ℕ → LimitError

pub attestation_fields : String → Attestation → List ByteField
attestation_fields prefix attestation =
    (prefix ∷ "attestation_data" ∷ [], field, length attestation.attestation_data)
    ∷ (prefix ∷ "network_signature" ∷ [], field, length attestation.network_signature)
    ∷ (prefix ∷ "network_pubkey" ∷ [], field, length attestation.network_pubkey)
    ∷ []

abbrev in_dkg : String → FieldName
in_dkg name = "sign_during_dkg_request" ∷ name ∷ []

pub sign_during_dkg_fields : Option SignDuringDkg → List ByteField
sign_during_dkg_fields none = []
sign_during_dkg_fields (some fields) =
    (in_dkg "presign_session_identifier", field, length fields.presign_session_identifier)
    ∷ (in_dkg "presign", field, length fields.presign)
    ∷ (in_dkg "message", message, length fields.message)
    ∷ (in_dkg "message_metadata", message_metadata, length fields.message_metadata)
    ∷ (in_dkg "message_centralized_signature", field, length fields.message_centralized_signature)
    ∷ []

abbrev in_share : String → FieldName
in_share name = "user_secret_key_share" ∷ name ∷ []

pub user_secret_key_share_fields : UserSecretKeyShare → List ByteField
user_secret_key_share_fields (encrypted share) =
    (
      in_share "encrypted_centralized_secret_share_and_proof",
      field,
      length share.encrypted_centralized_secret_share_and_proof,
    )
    ∷ (in_share "encryption_key", field, length share.encryption_key)
    ∷ (in_share "signer_public_key", field, length share.signer_public_key)
    ∷ []
user_secret_key_share_fields (public_user_secret_key_share share) =
    (in_share "public_user_secret_key_share", field, length share) ∷ []

pub sign_fields : Sign → List ByteField
unfolding attestation_fields
sign_fields fields =
    ("message" ∷ [], message, length fields.message)
    ∷ ("message_metadata" ∷ [], message_metadata, length fields.message_metadata)
    ∷ ("presign_session_identifier" ∷ [], field, length fields.presign_session_identifier)
    ∷ ("message_centralized_signature" ∷ [], field, length fields.message_centralized_signature)
    ∷ attestation_fields "dwallet_attestation" fields.dwallet_attestation

pub request_byte_fields : Request → List ByteField
unfolding sign_fields attestation_fields user_secret_key_share_fields sign_during_dkg_fields
request_byte_fields (dkg fields) =
    (
      "centralized_public_key_share_and_proof" ∷ [],
      field,
      length fields.centralized_public_key_share_and_proof,
    )
    ∷ (user_secret_key_share_fields fields.user_secret_key_share
        ++ (("user_public_output" ∷ [], field, length fields.user_public_output)
            ∷ sign_during_dkg_fields fields.sign_during_dkg_request))
request_byte_fields (sign fields) = sign_fields fields
request_byte_fields (imported_key_sign fields) = sign_fields fields
request_byte_fields (presign_for_dwallet fields) =
    ("dwallet_public_key" ∷ [], field, length fields.dwallet_public_key)
    ∷ attestation_fields "dwallet_attestation" fields.dwallet_attestation
request_byte_fields (re_encrypt_share fields) =
    ("dwallet_public_key" ∷ [], field, length fields.dwallet_public_key)
    ∷ (attestation_fields "dwallet_attestation" fields.dwallet_attestation
        ++ ((
          "encrypted_centralized_secret_share_and_proof" ∷ [],
          field,
          length fields.encrypted_centralized_secret_share_and_proof,
        )
            ∷ ("encryption_key" ∷ [], field, length fields.encryption_key)
            ∷ []))
request_byte_fields (make_share_public fields) =
    ("dwallet_public_key" ∷ [], field, length fields.dwallet_public_key)
    ∷ (attestation_fields "dwallet_attestation" fields.dwallet_attestation
        ++ (("public_user_secret_key_share" ∷ [], field, length fields.public_user_secret_key_share)
            ∷ []))
request_byte_fields (imported_key_verification fields) = []
request_byte_fields (future_sign fields) = []
request_byte_fields (sign_with_partial_user_sig fields) = []
request_byte_fields (imported_key_sign_with_partial_user_sig fields) = []
request_byte_fields (attach_encrypted_share fields) = []
request_byte_fields other_request = []

abbrev pub is_over : ByteField → Bool
is_over (name, limit, size) = ltb (limit_bytes limit) size

pub fields_of : SignedData → List ByteField
unfolding request_byte_fields
fields_of signed_data =
    ("intended_chain_sender" ∷ [], field, length signed_data.intended_chain_sender)
    ∷ request_byte_fields signed_data.request

pub assert_request_fields_within_limits : SignedData → Result LimitError (Unit {0})
unfolding fields_of
assert_request_fields_within_limits signed_data = elim (find? is_over (fields_of signed_data)) [
  | none ↦ ok tt
  | some (name, limit, size) ↦ err (field_over_limit name size (limit_bytes limit))
]

pub assert_signed_request_data_within_limit : Bytes → Result LimitError (Unit {0})
assert_signed_request_data_within_limit signed_request_data =
    let limit = grpc_request_size_limits.signed_request_data_bytes in
    if ltb limit (length signed_request_data)
    then err (signed_request_over_limit (length signed_request_data) limit)
    else ok tt
