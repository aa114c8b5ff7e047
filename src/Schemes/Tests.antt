-- ===== src/Schemes/Tests.antt =====
-- Runs of the conversions, and the theorems about them at concrete inputs.

use text.Mathlib.Text.{◌==◌ as str_eq}
use ika_pre_alpha.Prelude.{◌≡◌, refl, ◌↔◌, true, ok, err, some, any, [], ◌∷◌}
use ika_pre_alpha.Schemes.{
  signature_algorithm_to_curve, sha256, double_sha256, secp256k1, secp256r1, ecdsa_secp256k1,
  taproot, ecdsa_secp256r1, invalid_hash, from_hash_to_number,
  is_valid_hash_for_curve_and_signature, validate_curve_signature_algorithm,
  validate_hash_signature_combination, from_curve_and_signature_algorithm_and_hash_to_numbers,
  from_numbers_to_curve_and_signature_algorithm_and_hash, get_valid_hashes_for_curve_and_signature,
  get_valid_signature_algorithms_for_curve, from_signature_algorithm_to_number,
}
use ika_pre_alpha.Schemes.Names.{
  get_hash_name, get_valid_hashes_for_signature_algorithm, valid_hash_names_iff,
}
use ika_pre_alpha.Schemes.Validity.{is_valid_iff_validate}
use ika_pre_alpha.Schemes.Numbers.{to_numbers_iff_from_numbers, valid_lists_by_number, get_elem?}

-- The tables hold one hash for the P-256 algorithm.
double_sha256_on_p256 :
    from_hash_to_number secp256r1 ecdsa_secp256r1 double_sha256
    ≡ err (invalid_hash double_sha256 ecdsa_secp256r1 secp256r1 (sha256 ∷ []))
unfolding from_hash_to_number
double_sha256_on_p256 = refl

to_numbers_iff_from_numbers_example :
    (from_curve_and_signature_algorithm_and_hash_to_numbers secp256k1 ecdsa_secp256k1 double_sha256
      ≡ ok (0, 0, 2))
    ↔ (from_numbers_to_curve_and_signature_algorithm_and_hash 0 0 2
        ≡ ok (secp256k1, ecdsa_secp256k1, double_sha256))
to_numbers_iff_from_numbers_example =
    to_numbers_iff_from_numbers secp256k1 ecdsa_secp256k1 double_sha256 0 0 2

is_valid_iff_validate_example :
    (is_valid_hash_for_curve_and_signature secp256k1 taproot sha256 ≡ true) ↔ (
      (validate_curve_signature_algorithm secp256k1 taproot ≡ ok tt)
      × (validate_hash_signature_combination sha256 taproot ≡ ok tt))
is_valid_iff_validate_example = is_valid_iff_validate secp256k1 taproot sha256

valid_lists_by_number_example :
    ((from_hash_to_number secp256k1 taproot sha256 ≡ ok 0)
      ↔ (get_elem? (get_valid_hashes_for_curve_and_signature secp256k1 taproot) 0 ≡ some sha256))
    × ((from_signature_algorithm_to_number secp256k1 taproot ≡ ok 0)
        ↔ (get_elem? (get_valid_signature_algorithms_for_curve secp256k1) 0 ≡ some taproot))
valid_lists_by_number_example = valid_lists_by_number secp256k1 taproot sha256 0

valid_hash_names_iff_example :
    (any (str_eq (get_hash_name sha256)) (get_valid_hashes_for_signature_algorithm taproot) ≡ true)
    ↔ (is_valid_hash_for_curve_and_signature (signature_algorithm_to_curve taproot) taproot sha256
        ≡ true)
valid_hash_names_iff_example = valid_hash_names_iff sha256 taproot
