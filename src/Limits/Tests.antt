-- ===== src/Limits/Tests.antt =====
-- Requests at and over the limits, and the theorems about them at concrete inputs.
use ika_pre_alpha.Prelude.{◌≡◌, ◌↔◌, refl, [], ◌∷◌, ok, ℕ, zero, suc}
use ika_pre_alpha.Prelude.Bytes.{Bytes}
use ika_pre_alpha.Limits.{
  Attestation, SignedData, sign, future_sign, fields_of, request_byte_fields, sign_fields,
  attestation_fields, assert_request_fields_within_limits, assert_signed_request_data_within_limit,
}
use ika_pre_alpha.Limits.Within.{IsShort, IsWithin, assert_request_fields_within_limits_iff}

unfoldable zeros : ℕ → Bytes
zeros zero = []
zeros (suc n) = 0 ∷ zeros n

abbrev attestation : Attestation
attestation = record { attestation_data = []; network_signature = []; network_pubkey = [] }

abbrev signing : Bytes → SignedData
signing metadata = record {
  intended_chain_sender = 1 ∷ [];
  request = sign (record {
    message = 2 ∷ [];
    message_metadata = metadata;
    presign_session_identifier = [];
    message_centralized_signature = [];
    dwallet_attestation = attestation;
  });
}

at_the_limit : assert_request_fields_within_limits (signing (zeros 256)) ≡ ok tt
unfolding assert_request_fields_within_limits fields_of request_byte_fields sign_fields
    attestation_fields zeros
at_the_limit = refl

-- A future sign with the same metadata passes.
future_sign_unchecked :
    assert_request_fields_within_limits (record {
      intended_chain_sender = 1 ∷ [];
      request = future_sign (record {
        dwallet_public_key = [];
        dwallet_attestation = attestation;
        presign_attestation = attestation;
        message = 2 ∷ [];
        message_metadata = zeros 257;
        message_centralized_signature = [];
      });
    })
    ≡ ok tt
unfolding assert_request_fields_within_limits fields_of request_byte_fields
future_sign_unchecked = refl

short_request : assert_signed_request_data_within_limit (zeros 3) ≡ ok tt
unfolding assert_signed_request_data_within_limit zeros
short_request = refl

assert_request_fields_within_limits_iff_example :
    (assert_request_fields_within_limits (signing (zeros 3)) ≡ ok tt)
    ↔ (IsShort (1 ∷ []) × IsWithin (signing (zeros 3)).request)
assert_request_fields_within_limits_iff_example =
    assert_request_fields_within_limits_iff (signing (zeros 3))
