-- ===== src/Schemes/Names.antt =====
-- The names that hash-signature-validation.ts prints for a hash, a signature algorithm and a curve.
-- The enumerations here have no value outside their constants, so the `Unknown …` defaults of the
-- source's switches have no case.
use Prim.Native.String.{String}
use text.Mathlib.Text.{◌==◌ as str_eq}
use ika_pre_alpha.Prelude.{◌≡◌, ◌↔◌, true, List, map, any}
use ika_pre_alpha.Schemes.{
  Hash, keccak256, sha256, double_sha256, sha512, merlin, Curve, secp256k1, ristretto, ed25519,
  secp256r1, SignatureAlgorithm, ecdsa_secp256k1, taproot, ecdsa_secp256r1, ed_dsa, schnorrkel,
  valid_hash_signature_combinations, is_valid_hash_for_curve_and_signature,
  signature_algorithm_to_curve,
}

pub get_hash_name : Hash → String
get_hash_name keccak256 = "KECCAK256 (SHA3)"
get_hash_name sha256 = "SHA256"
get_hash_name double_sha256 = "DoubleSHA256"
get_hash_name sha512 = "SHA512"
get_hash_name merlin = "Merlin"

pub get_signature_algorithm_name : SignatureAlgorithm → String
get_signature_algorithm_name ecdsa_secp256k1 = "ECDSASecp256k1"
get_signature_algorithm_name taproot = "Taproot"
get_signature_algorithm_name ecdsa_secp256r1 = "ECDSASecp256r1"
get_signature_algorithm_name ed_dsa = "EdDSA"
get_signature_algorithm_name schnorrkel = "Schnorrkel (Ristretto)"

pub get_curve_name : Curve → String
get_curve_name secp256k1 = "secp256k1"
get_curve_name secp256r1 = "secp256r1"
get_curve_name ed25519 = "Ed25519"
get_curve_name ristretto = "Ristretto"

pub get_valid_hashes_for_signature_algorithm : SignatureAlgorithm → List String
get_valid_hashes_for_signature_algorithm algorithm =
    map get_hash_name (valid_hash_signature_combinations algorithm)

-- The printed list of an algorithm's valid hashes holds a hash's name exactly when the table per curve
-- lists the hash for the algorithm at the algorithm's own curve.
pub valid_hash_names_iff :
    (hash : Hash) (algorithm : SignatureAlgorithm)
    → (any (str_eq (get_hash_name hash)) (get_valid_hashes_for_signature_algorithm algorithm)
        ≡ true)
      ↔ (is_valid_hash_for_curve_and_signature
            (signature_algorithm_to_curve algorithm)
            algorithm
            hash
          ≡ true)
unfolding get_hash_name get_valid_hashes_for_signature_algorithm signature_algorithm_to_curve
    is_valid_hash_for_curve_and_signature valid_hash_signature_combinations
valid_hash_names_iff keccak256 ecdsa_secp256k1 = (λ e. e, λ e. e)
valid_hash_names_iff sha256 ecdsa_secp256k1 = (λ e. e, λ e. e)
valid_hash_names_iff double_sha256 ecdsa_secp256k1 = (λ e. e, λ e. e)
valid_hash_names_iff sha512 ecdsa_secp256k1 = (λ e. e, λ e. e)
valid_hash_names_iff merlin ecdsa_secp256k1 = (λ e. e, λ e. e)
valid_hash_names_iff keccak256 taproot = (λ e. e, λ e. e)
valid_hash_names_iff sha256 taproot = (λ e. e, λ e. e)
valid_hash_names_iff double_sha256 taproot = (λ e. e, λ e. e)
valid_hash_names_iff sha512 taproot = (λ e. e, λ e. e)
valid_hash_names_iff merlin taproot = (λ e. e, λ e. e)
valid_hash_names_iff keccak256 ecdsa_secp256r1 = (λ e. e, λ e. e)
valid_hash_names_iff sha256 ecdsa_secp256r1 = (λ e. e, λ e. e)
valid_hash_names_iff double_sha256 ecdsa_secp256r1 = (λ e. e, λ e. e)
valid_hash_names_iff sha512 ecdsa_secp256r1 = (λ e. e, λ e. e)
valid_hash_names_iff merlin ecdsa_secp256r1 = (λ e. e, λ e. e)
valid_hash_names_iff keccak256 ed_dsa = (λ e. e, λ e. e)
valid_hash_names_iff sha256 ed_dsa = (λ e. e, λ e. e)
valid_hash_names_iff double_sha256 ed_dsa = (λ e. e, λ e. e)
valid_hash_names_iff sha512 ed_dsa = (λ e. e, λ e. e)
valid_hash_names_iff merlin ed_dsa = (λ e. e, λ e. e)
valid_hash_names_iff keccak256 schnorrkel = (λ e. e, λ e. e)
valid_hash_names_iff sha256 schnorrkel = (λ e. e, λ e. e)
valid_hash_names_iff double_sha256 schnorrkel = (λ e. e, λ e. e)
valid_hash_names_iff sha512 schnorrkel = (λ e. e, λ e. e)
valid_hash_names_iff merlin schnorrkel = (λ e. e, λ e. e)
