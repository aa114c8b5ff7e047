-- ===== src/Schemes/Validity.antt =====
-- The tables of hash-signature-validation.ts agree with one another.
use ika_pre_alpha.Prelude.{◌≡◌, ◌↔◌, true, arith, ok}
use ika_pre_alpha.Schemes.{
  Hash, keccak256, Curve, secp256k1, SignatureAlgorithm, ecdsa_secp256k1,
  is_valid_hash_for_curve_and_signature, validate_curve_signature_algorithm,
  validate_hash_signature_combination,
}

-- `isValidHashForCurveAndSignature` accepts exactly the triples that pass both
-- `validateCurveSignatureAlgorithm` and `validateHashSignatureCombination`: the per-curve table
-- and the two per-algorithm tables hold the same combinations.
pub is_valid_iff_validate :
    (curve : Curve) (algorithm : SignatureAlgorithm) (hash : Hash)
    → (is_valid_hash_for_curve_and_signature curve algorithm hash ≡ true) ↔ (
        (validate_curve_signature_algorithm curve algorithm ≡ ok tt)
        × (validate_hash_signature_combination hash algorithm ≡ ok tt))
unfolding is_valid_hash_for_curve_and_signature validate_curve_signature_algorithm
    validate_hash_signature_combination
is_valid_iff_validate secp256k1 ecdsa_secp256k1 keccak256 = ground arith
is_valid_iff_validate curve algorithm hash = ground arith
