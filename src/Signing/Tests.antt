-- ===== src/Signing/Tests.antt =====
-- Schemes at concrete inputs.

use ika_pre_alpha.Prelude.{ℕ, ◌≡◌, refl, Bool, [], ◌∷◌, ok, err, ◌>>=◌}
use ika_pre_alpha.Prelude.Bytes.{Bytes}
use ika_pre_alpha.Signing.{
  SignInputs, SignatureWithScheme, metadata_not_empty, require_message_metadata_of_scheme,
  verify_signature_with_scheme, user_sign_message_with_scheme, signature_response,
  signature_from_response_verified,
}
use ika_pre_alpha.Signing.Plan.{
  SigningPlan, signing_plan, verify_by, sign_by, user_sign_message_with_scheme-verified_alike,
}
use ika_pre_alpha.Signing.Sample.{sample_codec, sample_cryptography, signed_with}

metadata_is_refused :
    verify_signature_with_scheme sample_codec sample_cryptography (signed_with 1 0 (9 ∷ []))
    ≡ err metadata_not_empty
unfolding verify_signature_with_scheme
metadata_is_refused = refl

a_signature_is_answered :
    signature_from_response_verified sample_codec sample_cryptography
      (signature_response (5 ∷ []))
      (signed_with 5 2 [])
    ≡ ok (5 ∷ [])
unfolding signature_from_response_verified verify_signature_with_scheme
a_signature_is_answered = refl

user_sign_message_with_scheme-verified_alike_example :
    ((s : SignatureWithScheme)
      → verify_signature_with_scheme sample_codec sample_cryptography s ≡ (
          signing_plan sample_codec s.signature_scheme s.curve s.message_metadata
          >>= verify_by sample_codec sample_cryptography s))
    × ((of_user : Bool) (curve scheme : ℕ) (metadata : Bytes) (inputs : SignInputs)
        → user_sign_message_with_scheme sample_codec sample_cryptography of_user curve scheme
            metadata inputs
          ≡ (signing_plan sample_codec scheme curve metadata
              >>= sign_by sample_codec sample_cryptography of_user inputs))
    × ((scheme curve : ℕ) (metadata : Bytes) (p : SigningPlan)
        → signing_plan sample_codec scheme curve metadata ≡ ok p
        → require_message_metadata_of_scheme sample_codec scheme metadata ≡ ok tt)
user_sign_message_with_scheme-verified_alike_example =
    user_sign_message_with_scheme-verified_alike sample_codec sample_cryptography
