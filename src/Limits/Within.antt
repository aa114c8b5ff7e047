-- ===== src/Limits/Within.antt =====
-- Which requests are within the limits.

use ika_pre_alpha.Prelude.{
  ◌≤◌, ◌≡◌, ◌↔◌, refl, Option, none, some, List, [], ◌∷◌, ◌++◌, length, find?, All, ok, arith,
  Option-cases, inl, inr,
}
use ika_pre_alpha.Prelude.Bytes.{Bytes}
use ika_pre_alpha.Limits.{
  ByteField, Attestation, SignDuringDkg, UserSecretKeyShare, encrypted,
  public_user_secret_key_share, Sign, Request, dkg, sign, imported_key_sign, presign_for_dwallet,
  re_encrypt_share, make_share_public, imported_key_verification, future_sign,
  sign_with_partial_user_sig, imported_key_sign_with_partial_user_sig, attach_encrypted_share,
  other_request, SignedData, limit_bytes, attestation_fields, sign_during_dkg_fields,
  user_secret_key_share_fields, sign_fields, request_byte_fields, is_over, fields_of,
  assert_request_fields_within_limits,
}

abbrev pub IsShort : Bytes → Type 0
IsShort bytes = length bytes ≤ 16_384

abbrev pub IsShortMetadata : Bytes → Type 0
IsShortMetadata bytes = length bytes ≤ 256

abbrev pub HasShortAttestation : Attestation → Type 0
HasShortAttestation attestation =
    IsShort attestation.attestation_data
    × IsShort attestation.network_signature
    × IsShort attestation.network_pubkey

abbrev pub HasShortShare : UserSecretKeyShare → Type 0
HasShortShare (encrypted share) =
    IsShort share.encrypted_centralized_secret_share_and_proof
    × IsShort share.encryption_key
    × IsShort share.signer_public_key
HasShortShare (public_user_secret_key_share share) = IsShort share

abbrev pub HasShortSign : Option SignDuringDkg → Type 0
HasShortSign none = Unit
HasShortSign (some fields) =
    IsShort fields.presign_session_identifier
    × IsShort fields.presign
    × IsShort fields.message
    × IsShortMetadata fields.message_metadata
    × IsShort fields.message_centralized_signature

abbrev pub HasShortSignFields : Sign → Type 0
HasShortSignFields fields =
    IsShort fields.message
    × IsShortMetadata fields.message_metadata
    × IsShort fields.presign_session_identifier
    × IsShort fields.message_centralized_signature
    × HasShortAttestation fields.dwallet_attestation

-- Every byte field that is checked is within its own limit: all of a DKG, a sign, a presign for a
-- dWallet, a re-encryption and a make-public, and none of an imported-key verification, a future sign,
-- its completions and an attached share.
abbrev pub IsWithin : Request → Type 0
IsWithin (dkg fields) =
    IsShort fields.centralized_public_key_share_and_proof
    × HasShortShare fields.user_secret_key_share
    × IsShort fields.user_public_output
    × HasShortSign fields.sign_during_dkg_request
IsWithin (sign fields) = HasShortSignFields fields
IsWithin (imported_key_sign fields) = HasShortSignFields fields
IsWithin (presign_for_dwallet fields) =
    IsShort fields.dwallet_public_key × HasShortAttestation fields.dwallet_attestation
IsWithin (re_encrypt_share fields) =
    IsShort fields.dwallet_public_key
    × HasShortAttestation fields.dwallet_attestation
    × IsShort fields.encrypted_centralized_secret_share_and_proof
    × IsShort fields.encryption_key
IsWithin (make_share_public fields) =
    IsShort fields.dwallet_public_key
    × HasShortAttestation fields.dwallet_attestation
    × IsShort fields.public_user_secret_key_share
IsWithin (imported_key_verification fields) = Unit
IsWithin (future_sign fields) = Unit
IsWithin (sign_with_partial_user_sig fields) = Unit
IsWithin (imported_key_sign_with_partial_user_sig fields) = Unit
IsWithin (attach_encrypted_share fields) = Unit
IsWithin other_request = Unit

abbrev pub IsWithinLimit : ByteField → Type 0
IsWithinLimit (name, limit, size) = size ≤ limit_bytes limit

none_over : (fields : List ByteField) → find? is_over fields ≡ none → All IsWithinLimit fields
none_over [] h = tt
none_over ((name, limit, size) ∷ fields) h = (ground arith, none_over fields (ground arith))

find_none : (fields : List ByteField) → All IsWithinLimit fields → find? is_over fields ≡ none
find_none [] a = refl
find_none ((name, limit, size) ∷ fields) (p, a) = ground (arith, find_none fields a)

All-split :
    (xs ys : List ByteField)
    → All IsWithinLimit (xs ++ ys) ↔ (All IsWithinLimit xs × All IsWithinLimit ys)
All-split [] ys = (λ a. (tt, a), λ h. h.1)
All-split (x ∷ xs) ys = (
  λ (p, a). let (b, c) = (All-split xs ys).0 a in ((p, b), c),
  λ ((p, b), c). (p, (All-split xs ys).1 (b, c)),
)

share_iff :
    (share : UserSecretKeyShare)
    → All IsWithinLimit (user_secret_key_share_fields share) ↔ HasShortShare share
unfolding user_secret_key_share_fields
share_iff (encrypted share) = ground arith
share_iff (public_user_secret_key_share share) = ground arith

dkg_sign_iff :
    (fields : Option SignDuringDkg)
    → All IsWithinLimit (sign_during_dkg_fields fields) ↔ HasShortSign fields
unfolding sign_during_dkg_fields
dkg_sign_iff none = ground arith
dkg_sign_iff (some fields) = ground arith

fields_iff :
    (request : Request) → All IsWithinLimit (request_byte_fields request) ↔ IsWithin request
unfolding request_byte_fields sign_fields attestation_fields
fields_iff (dkg fields) = (
  λ (share, a).
      let (b, (output, c)) =
        (All-split (user_secret_key_share_fields fields.user_secret_key_share) _).0 a in
      (share, (share_iff _).0 b, output, (dkg_sign_iff _).0 c),
  λ (share, b, output, c). (
    share,
    (All-split (user_secret_key_share_fields fields.user_secret_key_share) _).1
        ((share_iff _).1 b, (output, (dkg_sign_iff _).1 c)),
  ),
)
fields_iff (sign fields) = ground arith
fields_iff (imported_key_sign fields) = ground arith
fields_iff (presign_for_dwallet fields) = ground arith
fields_iff (re_encrypt_share fields) = ground arith
fields_iff (make_share_public fields) = ground arith
fields_iff (imported_key_verification fields) = ground arith
fields_iff (future_sign fields) = ground arith
fields_iff (sign_with_partial_user_sig fields) = ground arith
fields_iff (imported_key_sign_with_partial_user_sig fields) = ground arith
fields_iff (attach_encrypted_share fields) = ground arith
fields_iff other_request = ground arith

-- A request passes the check of its fields exactly when the intended chain sender is within 16384 bytes
-- and, in a DKG, a sign, an imported-key sign, a presign for a dWallet, a re-encryption or a make-public,
-- every byte field is, every message metadata within 256. An imported-key verification, a future sign,
-- its completions and an attached share pass with byte fields of any length.
pub assert_request_fields_within_limits_iff :
    (signed_data : SignedData)
    → (assert_request_fields_within_limits signed_data ≡ ok tt)
      ↔ (IsShort signed_data.intended_chain_sender × IsWithin signed_data.request)
unfolding assert_request_fields_within_limits fields_of
assert_request_fields_within_limits_iff signed_data =
    let fields = fields_of signed_data in
    (
      λ h. elim (Option-cases (find? is_over fields)) [
        | inl nothing ↦
            let (sender, a) = none_over fields nothing in
            (sender, (fields_iff signed_data.request).0 a)
        | inr (over, found) ↦ absurd (ground arith)
      ],
      λ (sender, a).
          rw
            (
              find_none fields (sender, (fields_iff signed_data.request).1 a),
              assert_request_fields_within_limits,
            )
            refl,
    )
