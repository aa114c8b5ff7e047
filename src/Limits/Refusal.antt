-- ===== src/Limits/Refusal.antt =====
-- Which field a refusal names.
use Prim.Native.String.{String}
use ika_pre_alpha.Prelude.{map, Option, none, some, List, [], ◌∷◌, ◌++◌}
use ika_pre_alpha.Limits.{
  ByteField, SignDuringDkg, UserSecretKeyShare, encrypted, public_user_secret_key_share, Request,
  dkg, sign, imported_key_sign, presign_for_dwallet, re_encrypt_share, make_share_public,
  imported_key_verification, future_sign, sign_with_partial_user_sig,
  imported_key_sign_with_partial_user_sig, attach_encrypted_share, other_request, FieldName,
}

abbrev pub names_in_attestation : String → List FieldName
names_in_attestation prefix =
    (prefix ∷ "attestation_data" ∷ [])
    ∷ (prefix ∷ "network_signature" ∷ [])
    ∷ (prefix ∷ "network_pubkey" ∷ [])
    ∷ []

abbrev pub names_in_share : UserSecretKeyShare → List FieldName
names_in_share (encrypted share) =
    ("user_secret_key_share" ∷ "encrypted_centralized_secret_share_and_proof" ∷ [])
    ∷ ("user_secret_key_share" ∷ "encryption_key" ∷ [])
    ∷ ("user_secret_key_share" ∷ "signer_public_key" ∷ [])
    ∷ []
names_in_share (public_user_secret_key_share share) =
    ("user_secret_key_share" ∷ "public_user_secret_key_share" ∷ []) ∷ []

abbrev pub names_in_dkg_sign : Option SignDuringDkg → List FieldName
names_in_dkg_sign none = []
names_in_dkg_sign (some fields) =
    map (λ (name : String). "sign_during_dkg_request" ∷ name ∷ [])
      ("presign_session_identifier" ∷ "presign" ∷ "message" ∷ "message_metadata"
        ∷ "message_centralized_signature" ∷ [])

abbrev pub names_in_sign : List FieldName
names_in_sign =
    ("message" ∷ [])
    ∷ ("message_metadata" ∷ [])
    ∷ ("presign_session_identifier" ∷ [])
    ∷ ("message_centralized_signature" ∷ [])
    ∷ names_in_attestation "dwallet_attestation"

-- The names of the byte fields of the checked kinds, in the order in which bcs.ts writes a kind's
-- fields.
abbrev pub names_in_order : Request → List FieldName
names_in_order (dkg fields) =
    ("centralized_public_key_share_and_proof" ∷ [])
    ∷ (names_in_share fields.user_secret_key_share
        ++ (("user_public_output" ∷ []) ∷ names_in_dkg_sign fields.sign_during_dkg_request))
names_in_order (sign fields) = names_in_sign
names_in_order (imported_key_sign fields) = names_in_sign
names_in_order (presign_for_dwallet fields) =
    ("dwallet_public_key" ∷ []) ∷ names_in_attestation "dwallet_attestation"
names_in_order (re_encrypt_share fields) =
    ("dwallet_public_key" ∷ [])
    ∷ (names_in_attestation "dwallet_attestation"
        ++ (("encrypted_centralized_secret_share_and_proof" ∷ []) ∷ ("encryption_key" ∷ []) ∷ []))
names_in_order (make_share_public fields) =
    ("dwallet_public_key" ∷ [])
    ∷ (names_in_attestation "dwallet_attestation" ++ (("public_user_secret_key_share" ∷ []) ∷ []))
names_in_order (imported_key_verification fields) = []
names_in_order (future_sign fields) = []
names_in_order (sign_with_partial_user_sig fields) = []
names_in_order (imported_key_sign_with_partial_user_sig fields) = []
names_in_order (attach_encrypted_share fields) = []
names_in_order other_request = []

abbrev names_of : List ByteField → List FieldName
names_of = map (λ (f : ByteField). f.0)
