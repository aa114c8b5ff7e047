-- ===== src/Signing/Sample.antt =====
-- A codec of metadata and a client's cryptography for the tests, which accept what they are given.
use ika_pre_alpha.Prelude.{ℕ, true, some, [], ◌∷◌, ok}
use ika_pre_alpha.Prelude.Bytes.{Bytes}
use ika_pre_alpha.Signing.{MetadataCodec, UserCryptography, SignatureWithScheme}

abbrev pub sample_codec : MetadataCodec
sample_codec = record {
  parse_blake2b = λ bytes. some (record { personal = bytes; salt = [] });
  serialize_blake2b = λ metadata. some metadata.personal;
  parse_schnorrkel = λ bytes. some bytes;
  serialize_schnorrkel = λ context. some context;
}

-- The key inside every output is one byte, 3.
abbrev pub sample_cryptography : UserCryptography
sample_cryptography = record {
  verify_signature = λ curve algorithm hash output message signature context. ok tt;
  verify_ecdsa_blake2b256_signature = λ output message signature personal salt. ok tt;
  create_user_sign_message_with_public_output = λ inputs hash algorithm curve context. ok (1 ∷ []);
  create_user_sign_message_with_user_public_output =
      λ inputs hash algorithm curve context. ok (2 ∷ []);
  create_user_sign_message_ecdsa_blake2b256 = λ inputs personal salt. ok (3 ∷ []);
  user_and_network_dkg_output_match = λ curve user network. ok true;
  public_key_from_dwallet_output = λ curve output. ok (3 ∷ []);
}

abbrev pub signed_with : (scheme curve : ℕ) → Bytes → SignatureWithScheme
signed_with scheme curve metadata = record {
  curve = curve;
  signature_scheme = scheme;
  message = 8 ∷ [];
  message_metadata = metadata;
  dwallet_public_output = 4 ∷ [];
  signature = 9 ∷ [];
}
