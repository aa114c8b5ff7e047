-- ===== src/Signing/Plan.antt =====
-- What a scheme, a curve and metadata select, and that the verifier and the signer both follow it.
use ika_pre_alpha.Prelude.{
  ℕ, ◌≡◌, refl, inl, inr, Bool, true, false, not, ◌&&◌, Option, none, some, ◌==◌, if◌then◌else◌,
  length, Result, ok, err, map_err, ◌>>=◌, Result-cases, arith,
}
use ika_pre_alpha.Prelude.Bytes.{Bytes}
use ika_pre_alpha.Schemes.{
  Hash, keccak256, sha256, double_sha256, sha512, merlin, Curve, secp256k1, secp256r1, ed25519,
  ristretto, SignatureAlgorithm, ecdsa_secp256k1, taproot, ecdsa_secp256r1, ed_dsa, schnorrkel,
}
use ika_pre_alpha.Signing.{
  Blake2bMessageMetadata, SignatureHashContext, MetadataCodec, SignInputs, UserCryptography,
  SigningError, cryptography_threw, metadata_not_empty, does_not_sign_on, needs_network_output,
  SignatureWithScheme, context_of, signs_on, takes_metadata, parse_blake2b_message_metadata,
  parse_schnorrkel_message_metadata, require_message_metadata_of_scheme,
  verify_signature_with_scheme, user_sign_message_with_scheme,
}

pub data SigningPlan : Type 0 where
  blake2b_plan : Blake2bMessageMetadata → SigningPlan
  hash_plan : Curve → SignatureAlgorithm → Hash → Option SignatureHashContext → SigningPlan

module _ {ℓ κ} {E : Type ℓ} {A B : Type κ} (f : A → Result E B) where
  if-bind :
      (b : Bool) (x y : Result E A)
      → ((if b then x else y) >>= f) ≡ (if b then x >>= f else y >>= f)
  if-bind true x y = refl
  if-bind false x y = refl

module _ (codec : MetadataCodec) where
  -- The algorithms without metadata, each on its one curve.
  plain_plan : (scheme curve : ℕ) → Result SigningError SigningPlan
  plain_plan scheme curve =
      let signs : ℕ → ℕ → Bool = signs_on scheme curve in
      if signs 0 0
      then ok (hash_plan secp256k1 ecdsa_secp256k1 keccak256 none)
      else if signs 1 0
      then ok (hash_plan secp256k1 ecdsa_secp256k1 sha256 none)
      else if signs 2 0
      then ok (hash_plan secp256k1 ecdsa_secp256k1 double_sha256 none)
      else if signs 3 0
      then ok (hash_plan secp256k1 taproot sha256 none)
      else if signs 1 1
      then ok (hash_plan secp256r1 ecdsa_secp256r1 sha256 none)
      else if signs 5 2
      then ok (hash_plan ed25519 ed_dsa sha512 none)
      else err (does_not_sign_on scheme curve)

  -- How the message is hashed and under which algorithm it is signed.
  pub signing_plan : (scheme curve : ℕ) → Bytes → Result SigningError SigningPlan
  signing_plan scheme curve metadata =
      if signs_on scheme curve 4 0
      then parse_blake2b_message_metadata codec metadata >>= (λ m. ok (blake2b_plan m))
      else if signs_on scheme curve 6 3
      then parse_schnorrkel_message_metadata codec metadata
        >>= (λ context. ok (hash_plan ristretto schnorrkel merlin (some (context_of context))))
      else if not (takes_metadata scheme) && not (length metadata == 0)
      then err metadata_not_empty
      else plain_plan scheme curve

  module _ (cryptography : UserCryptography) where
    open cryptography use {
      verify_signature, verify_ecdsa_blake2b256_signature,
      create_user_sign_message_with_public_output, create_user_sign_message_with_user_public_output,
      create_user_sign_message_ecdsa_blake2b256,
    }

    pub verify_by : SignatureWithScheme → SigningPlan → Result SigningError (Unit {0})
    verify_by s (blake2b_plan m) = map_err cryptography_threw (
        verify_ecdsa_blake2b256_signature s.dwallet_public_output s.message s.signature m.personal
          m.salt)
    verify_by s (hash_plan curve algorithm hash context) = map_err cryptography_threw (
        verify_signature curve algorithm hash s.dwallet_public_output s.message s.signature context)

    pub sign_by : Bool → SignInputs → SigningPlan → Result SigningError Bytes
    sign_by true inputs (blake2b_plan m) = err needs_network_output
    sign_by false inputs (blake2b_plan m) =
        map_err cryptography_threw
          (create_user_sign_message_ecdsa_blake2b256 inputs m.personal m.salt)
    sign_by true inputs (hash_plan curve algorithm hash context) =
        map_err cryptography_threw
          (create_user_sign_message_with_user_public_output inputs hash algorithm curve context)
    sign_by false inputs (hash_plan curve algorithm hash context) =
        map_err cryptography_threw
          (create_user_sign_message_with_public_output inputs hash algorithm curve context)

    verify_plan :
        (s : SignatureWithScheme)
        → verify_signature_with_scheme codec cryptography s
          ≡ (signing_plan s.signature_scheme s.curve s.message_metadata >>= verify_by s)
    unfolding verify_signature_with_scheme signing_plan plain_plan verify_by
    verify_plan s = ground arith

    sign_plan :
        (of_user : Bool) (curve scheme : ℕ) (metadata : Bytes) (inputs : SignInputs)
        → user_sign_message_with_scheme codec cryptography of_user curve scheme metadata inputs
          ≡ (signing_plan scheme curve metadata >>= sign_by of_user inputs)
    unfolding user_sign_message_with_scheme signing_plan plain_plan sign_by
    sign_plan true curve scheme metadata inputs = ground arith
    sign_plan false curve scheme metadata inputs = ground arith

  planned_metadata :
      (scheme curve : ℕ) (metadata : Bytes) (p : SigningPlan)
      → signing_plan scheme curve metadata ≡ ok p
      → require_message_metadata_of_scheme codec scheme metadata ≡ ok tt
  unfolding signing_plan plain_plan require_message_metadata_of_scheme
  planned_metadata scheme curve metadata p h =
      elim (Result-cases (parse_blake2b_message_metadata codec metadata)) [
        | inl (m, e) ↦ elim (Result-cases (parse_schnorrkel_message_metadata codec metadata)) [
          | inl (c, f) ↦ ground arith
          | inr (error, f) ↦ ground arith
        ]
        | inr (error, e) ↦ elim (Result-cases (parse_schnorrkel_message_metadata codec metadata)) [
          | inl (c, f) ↦ ground arith
          | inr (error, f) ↦ ground arith
        ]
      ]

  -- One plan, which the scheme, the curve and the metadata fix, is what a signature is verified by,
  -- what both kinds of the user's sign message are made by, and, where it exists, it is of metadata
  -- that the check of the request's metadata lets pass.
  pub user_sign_message_with_scheme-verified_alike :
      (cryptography : UserCryptography)
      → ((s : SignatureWithScheme)
          → verify_signature_with_scheme codec cryptography s ≡ (
              signing_plan s.signature_scheme s.curve s.message_metadata
              >>= verify_by cryptography s))
        × ((of_user : Bool) (curve scheme : ℕ) (metadata : Bytes) (inputs : SignInputs)
            → user_sign_message_with_scheme codec cryptography of_user curve scheme metadata inputs
              ≡ (signing_plan scheme curve metadata >>= sign_by cryptography of_user inputs))
        × ((scheme curve : ℕ) (metadata : Bytes) (p : SigningPlan)
            → signing_plan scheme curve metadata ≡ ok p
            → require_message_metadata_of_scheme codec scheme metadata ≡ ok tt)
  user_sign_message_with_scheme-verified_alike cryptography =
      (verify_plan cryptography, sign_plan cryptography, planned_metadata)
