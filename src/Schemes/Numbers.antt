-- ===== src/Schemes/Numbers.antt =====
-- The numbers of hash-signature-validation.ts are a numbering: every conversion to numbers is undone
-- by its inverse, and no other number is accepted.
use ika_pre_alpha.Prelude.{ℕ, ◌≡◌, ◌↔◌, arith, ok, none, some, Option, List, [], ◌∷◌, zero, suc}
use ika_pre_alpha.Schemes.{
  Hash, Curve, secp256k1, ecdsa_secp256k1, SignatureAlgorithm,
  from_curve_and_signature_algorithm_and_hash_to_numbers,
  from_numbers_to_curve_and_signature_algorithm_and_hash,
  from_absolute_number_to_signature_algorithm, from_signature_algorithm_to_absolute_number,
  from_absolute_number_to_hash, from_hash_to_absolute_number, from_hash_to_number,
  get_valid_hashes_for_curve_and_signature, get_valid_signature_algorithms_for_curve,
  from_signature_algorithm_to_number,
}

abbrev pub get_elem? {ℓ} : {A : Type ℓ} → List A → ℕ → Option A
get_elem? [] i = none
get_elem? (x ∷ xs) zero = some x
get_elem? (x ∷ xs) (suc i) = get_elem? xs i

-- A curve, a signature algorithm and a hash convert to three numbers exactly when those numbers
-- convert back to them.
pub to_numbers_iff_from_numbers :
    (curve : Curve) (algorithm : SignatureAlgorithm) (hash : Hash) (a b d : ℕ)
    → (from_curve_and_signature_algorithm_and_hash_to_numbers curve algorithm hash ≡ ok (a, b, d))
      ↔ (from_numbers_to_curve_and_signature_algorithm_and_hash a b d ≡ ok (curve, algorithm, hash))
unfolding from_curve_and_signature_algorithm_and_hash_to_numbers
    from_numbers_to_curve_and_signature_algorithm_and_hash
to_numbers_iff_from_numbers curve algorithm hash a b d = ground arith

-- The absolute numbers of the signature algorithms and of the hashes are numberings.
absolute_numbers_iff :
    (algorithm : SignatureAlgorithm) (hash : Hash) (n : ℕ)
    → ((from_signature_algorithm_to_absolute_number algorithm ≡ ok n)
        ↔ (from_absolute_number_to_signature_algorithm n ≡ ok algorithm))
      × ((from_hash_to_absolute_number hash ≡ ok n) ↔ (from_absolute_number_to_hash n ≡ ok hash))
unfolding from_signature_algorithm_to_absolute_number from_absolute_number_to_signature_algorithm
    from_hash_to_absolute_number from_absolute_number_to_hash
absolute_numbers_iff algorithm hash n = ground arith

-- The lists of valid hashes and of valid signature algorithms are in the order of their numbers.
pub valid_lists_by_number :
    (curve : Curve) (algorithm : SignatureAlgorithm) (hash : Hash) (n : ℕ)
    → ((from_hash_to_number curve algorithm hash ≡ ok n)
        ↔ (get_elem? (get_valid_hashes_for_curve_and_signature curve algorithm) n ≡ some hash))
      × ((from_signature_algorithm_to_number curve algorithm ≡ ok n)
          ↔ (get_elem? (get_valid_signature_algorithms_for_curve curve) n ≡ some algorithm))
unfolding from_hash_to_number get_valid_hashes_for_curve_and_signature
    from_signature_algorithm_to_number get_valid_signature_algorithms_for_curve
valid_lists_by_number secp256k1 ecdsa_secp256k1 hash (suc (suc (suc n))) = ground arith
valid_lists_by_number curve algorithm hash n = ground arith
