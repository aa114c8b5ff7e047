-- ===== src/Schemes.antt =====
-- sdk/core/src/client/types.ts (the enumerations) and
-- sdk/core/src/client/hash-signature-validation.ts: which hashes and signature algorithms a curve
-- has, and their numbers. A thrown error is a constructor of `SchemeError` with the values that its
-- message names.
pub mod Names
pub mod Validity
pub mod Numbers
mod Tests
use ika_pre_alpha.Prelude.{
  ℕ, ◌≡◌, Bool, true, false, Option, none, some, List, [], ◌∷◌, ◌==◌, if◌then◌else◌, map, any,
  find?, Result, ok, err, ◌>>=◌,
}
use mathlib.Core.Option

pub data Hash : Type 0 where
  keccak256 sha256 double_sha256 sha512 merlin : Hash

pub data Curve : Type 0 where
  secp256k1 ristretto ed25519 secp256r1 : Curve

pub data SignatureAlgorithm : Type 0 where
  ecdsa_secp256k1 taproot ecdsa_secp256r1 ed_dsa schnorrkel : SignatureAlgorithm

-- `===` on the string constants, by their place in the source's objects.
abbrev hash_place : Hash → ℕ
hash_place keccak256 = 0
hash_place sha256 = 1
hash_place double_sha256 = 2
hash_place sha512 = 3
hash_place merlin = 4

abbrev pub curve_place : Curve → ℕ
curve_place secp256k1 = 0
curve_place ristretto = 1
curve_place ed25519 = 2
curve_place secp256r1 = 3

abbrev algorithm_place : SignatureAlgorithm → ℕ
algorithm_place ecdsa_secp256k1 = 0
algorithm_place taproot = 1
algorithm_place ecdsa_secp256r1 = 2
algorithm_place ed_dsa = 3
algorithm_place schnorrkel = 4

abbrev pub hash_eq : Hash → Hash → Bool
hash_eq g h = hash_place g == hash_place h

abbrev pub curve_eq : Curve → Curve → Bool
curve_eq c d = curve_place c == curve_place d

abbrev pub algorithm_eq : SignatureAlgorithm → SignatureAlgorithm → Bool
algorithm_eq a b = algorithm_place a == algorithm_place b

-- A property of an object, read by its key, and `Object.keys`.
abbrev property {ℓ κ} : {K : Type ℓ} {V : Type κ} → (K → Bool) → List (K × V) → Option V
property is_key [] = none
property is_key ((k, v) ∷ rest) = if is_key k then some v else property is_key rest

abbrev keys {ℓ κ} : {K : Type ℓ} {V : Type κ} → List (K × V) → List K
keys [] = []
keys ((k, v) ∷ rest) = k ∷ keys rest

-- The first key of `Object.entries` whose value passes the test.
abbrev first_key {ℓ κ} : {K : Type ℓ} {V : Type κ} → (V → Bool) → List (K × V) → Option K
first_key test [] = none
first_key test ((k, v) ∷ rest) = if test v then some k else first_key test rest

pub valid_hash_signature_combinations : SignatureAlgorithm → List Hash
valid_hash_signature_combinations ecdsa_secp256k1 = keccak256 ∷ sha256 ∷ double_sha256 ∷ []
valid_hash_signature_combinations taproot = sha256 ∷ []
valid_hash_signature_combinations ecdsa_secp256r1 = sha256 ∷ []
valid_hash_signature_combinations ed_dsa = sha512 ∷ []
valid_hash_signature_combinations schnorrkel = merlin ∷ []

pub signature_algorithm_to_curve : SignatureAlgorithm → Curve
signature_algorithm_to_curve ecdsa_secp256k1 = secp256k1
signature_algorithm_to_curve taproot = secp256k1
signature_algorithm_to_curve ecdsa_secp256r1 = secp256r1
signature_algorithm_to_curve ed_dsa = ed25519
signature_algorithm_to_curve schnorrkel = ristretto

abbrev signature_algorithm_absolute_numbers : List (SignatureAlgorithm × ℕ)
signature_algorithm_absolute_numbers =
    (ecdsa_secp256k1, 0) ∷ (taproot, 1) ∷ (ecdsa_secp256r1, 2) ∷ (ed_dsa, 3) ∷ (schnorrkel, 4) ∷ []

abbrev hash_absolute_numbers : List (Hash × ℕ)
hash_absolute_numbers =
    (keccak256, 0) ∷ (sha256, 1) ∷ (double_sha256, 2) ∷ (sha512, 3) ∷ (merlin, 4) ∷ []

pub record SignatureAlgorithmConfig : Type 0 where
  pub signature_algorithm_number : ℕ
  pub hashes : List (Hash × ℕ)

pub record CurveConfig : Type 0 where
  pub curve_number : ℕ
  pub signature_algorithms : List (SignatureAlgorithm × SignatureAlgorithmConfig)

abbrev pub curve_signature_hash_config : List (Curve × CurveConfig)
curve_signature_hash_config =
    (
      secp256k1,
      record {
        curve_number = 0;
        signature_algorithms =
            (
              ecdsa_secp256k1,
              record {
                signature_algorithm_number = 0;
                hashes = (keccak256, 0) ∷ (sha256, 1) ∷ (double_sha256, 2) ∷ [];
              },
            )
            ∷ (taproot, record { signature_algorithm_number = 1; hashes = (sha256, 0) ∷ [] })
            ∷ [];
      },
    )
    ∷ (
      secp256r1,
      record {
        curve_number = 1;
        signature_algorithms =
            (ecdsa_secp256r1, record { signature_algorithm_number = 0; hashes = (sha256, 0) ∷ [] })
            ∷ [];
      },
    )
    ∷ (
      ed25519,
      record {
        curve_number = 2;
        signature_algorithms =
            (ed_dsa, record { signature_algorithm_number = 0; hashes = (sha512, 0) ∷ [] }) ∷ [];
      },
    )
    ∷ (
      ristretto,
      record {
        curve_number = 3;
        signature_algorithms =
            (schnorrkel, record { signature_algorithm_number = 0; hashes = (merlin, 0) ∷ [] }) ∷ [];
      },
    )
    ∷ []

pub data SchemeError : Type 0 where
  invalid_hash_for_algorithm : Hash → SignatureAlgorithm → List Hash → SchemeError
  invalid_curve_for_algorithm : Curve → SignatureAlgorithm → Curve → SchemeError
  unknown_curve : Curve → SchemeError
  unknown_hash : Hash → SchemeError
  unknown_algorithm : SignatureAlgorithm → SchemeError
  invalid_algorithm : SignatureAlgorithm → Curve → List SignatureAlgorithm → SchemeError
  invalid_hash : Hash → SignatureAlgorithm → Curve → List Hash → SchemeError
  algorithm_not_on_curve : SignatureAlgorithm → Curve → SchemeError
  unknown_curve_number : ℕ → SchemeError
  unknown_absolute_algorithm_number : ℕ → SchemeError
  unknown_absolute_hash_number : ℕ → SchemeError
  unknown_algorithm_number : ℕ → Curve → SchemeError
  unknown_hash_number : ℕ → SignatureAlgorithm → Curve → SchemeError

-- `value ?? throw`
abbrev or_throw {ℓ} : {A : Type ℓ} → Option A → SchemeError → Result SchemeError A
or_throw (some a) e = ok a
or_throw none e = err e

abbrev curve_config : Curve → Option CurveConfig
curve_config curve = property (curve_eq curve) curve_signature_hash_config

abbrev signature_config : CurveConfig → SignatureAlgorithm → Option SignatureAlgorithmConfig
signature_config config algorithm = property (algorithm_eq algorithm) config.signature_algorithms

pub validate_hash_signature_combination : Hash → SignatureAlgorithm → Result SchemeError (Unit {0})
unfolding valid_hash_signature_combinations
validate_hash_signature_combination hash algorithm =
    let valid_hashes = valid_hash_signature_combinations algorithm in
    if any (hash_eq hash) valid_hashes
    then ok tt
    else err (invalid_hash_for_algorithm hash algorithm valid_hashes)

pub validate_curve_signature_algorithm : Curve → SignatureAlgorithm → Result SchemeError (Unit {0})
unfolding signature_algorithm_to_curve
validate_curve_signature_algorithm curve algorithm =
    let expected_curve = signature_algorithm_to_curve algorithm in
    if curve_eq curve expected_curve
    then ok tt
    else err (invalid_curve_for_algorithm curve algorithm expected_curve)

pub is_valid_hash_for_signature : Hash → SignatureAlgorithm → Bool
unfolding valid_hash_signature_combinations
is_valid_hash_for_signature hash algorithm =
    any (hash_eq hash) (valid_hash_signature_combinations algorithm)

pub record ValidatedSigningParams : Type 0 where
  pub hash_scheme : Hash
  pub signature_algorithm : SignatureAlgorithm

pub create_validated_signing_params :
    Hash → SignatureAlgorithm → Result SchemeError ValidatedSigningParams
unfolding validate_hash_signature_combination
create_validated_signing_params hash_scheme signature_algorithm = do
  _ ← validate_hash_signature_combination hash_scheme signature_algorithm
  ok (record { hash_scheme = hash_scheme; signature_algorithm = signature_algorithm })

pub from_curve_to_number : Curve → Result SchemeError ℕ
from_curve_to_number curve = do
  config ← or_throw (curve_config curve) (unknown_curve curve)
  ok config.curve_number

pub from_signature_algorithm_to_number : Curve → SignatureAlgorithm → Result SchemeError ℕ
from_signature_algorithm_to_number curve algorithm = do
  config ← or_throw (curve_config curve) (unknown_curve curve)
  signature ←
      or_throw (signature_config config algorithm)
        (invalid_algorithm algorithm curve (keys config.signature_algorithms))
  ok signature.signature_algorithm_number

pub from_hash_to_number : Curve → SignatureAlgorithm → Hash → Result SchemeError ℕ
from_hash_to_number curve algorithm hash = do
  config ← or_throw (curve_config curve) (unknown_curve curve)
  signature ←
      or_throw (signature_config config algorithm)
        (invalid_algorithm algorithm curve (keys config.signature_algorithms))
  or_throw (property (hash_eq hash) signature.hashes)
      (invalid_hash hash algorithm curve (keys signature.hashes))

pub from_curve_and_signature_algorithm_to_numbers :
    Curve → SignatureAlgorithm → Result SchemeError (ℕ × ℕ)
unfolding from_curve_to_number from_signature_algorithm_to_number
from_curve_and_signature_algorithm_to_numbers curve algorithm = do
  curve_number ← from_curve_to_number curve
  signature_algorithm_number ← from_signature_algorithm_to_number curve algorithm
  ok (curve_number, signature_algorithm_number)

pub from_curve_and_signature_algorithm_and_hash_to_numbers :
    Curve → SignatureAlgorithm → Hash → Result SchemeError (ℕ × ℕ × ℕ)
unfolding from_curve_to_number from_signature_algorithm_to_number from_hash_to_number
from_curve_and_signature_algorithm_and_hash_to_numbers curve algorithm hash = do
  curve_number ← from_curve_to_number curve
  signature_algorithm_number ← from_signature_algorithm_to_number curve algorithm
  hash_number ← from_hash_to_number curve algorithm hash
  ok (curve_number, signature_algorithm_number, hash_number)

pub is_valid_signature_algorithm_for_curve : Curve → SignatureAlgorithm → Bool
is_valid_signature_algorithm_for_curve curve algorithm = elim (curve_config curve) [
  | none ↦ false
  | some config ↦ any (algorithm_eq algorithm) (keys config.signature_algorithms)
]

pub is_valid_hash_for_curve_and_signature : Curve → SignatureAlgorithm → Hash → Bool
is_valid_hash_for_curve_and_signature curve algorithm hash = elim (curve_config curve) [
  | none ↦ false
  | some config ↦ elim (signature_config config algorithm) [
    | none ↦ false
    | some signature ↦ any (hash_eq hash) (keys signature.hashes)
  ]
]

pub get_valid_signature_algorithms_for_curve : Curve → List SignatureAlgorithm
get_valid_signature_algorithms_for_curve curve = elim (curve_config curve) [
  | none ↦ []
  | some config ↦ keys config.signature_algorithms
]

pub get_valid_hashes_for_curve_and_signature : Curve → SignatureAlgorithm → List Hash
get_valid_hashes_for_curve_and_signature curve algorithm = elim (curve_config curve) [
  | none ↦ []
  | some config ↦ elim (signature_config config algorithm) [
    | none ↦ []
    | some signature ↦ keys signature.hashes
  ]
]

unfoldable pub from_number_to_curve : ℕ → Result SchemeError Curve
from_number_to_curve curve_number =
    or_throw
      (first_key (λ (c : CurveConfig). c.curve_number == curve_number) curve_signature_hash_config)
      (unknown_curve_number curve_number)

pub from_absolute_number_to_signature_algorithm : ℕ → Result SchemeError SignatureAlgorithm
from_absolute_number_to_signature_algorithm absolute_number =
    or_throw (first_key (λ (n : ℕ). n == absolute_number) signature_algorithm_absolute_numbers)
      (unknown_absolute_algorithm_number absolute_number)

pub from_signature_algorithm_to_absolute_number : SignatureAlgorithm → Result SchemeError ℕ
from_signature_algorithm_to_absolute_number algorithm =
    or_throw (property (algorithm_eq algorithm) signature_algorithm_absolute_numbers)
      (unknown_algorithm algorithm)

pub from_absolute_number_to_hash : ℕ → Result SchemeError Hash
from_absolute_number_to_hash absolute_number =
    or_throw (first_key (λ (n : ℕ). n == absolute_number) hash_absolute_numbers)
      (unknown_absolute_hash_number absolute_number)

pub from_hash_to_absolute_number : Hash → Result SchemeError ℕ
from_hash_to_absolute_number hash =
    or_throw (property (hash_eq hash) hash_absolute_numbers) (unknown_hash hash)

pub from_number_to_signature_algorithm : Curve → ℕ → Result SchemeError SignatureAlgorithm
from_number_to_signature_algorithm curve number = do
  config ← or_throw (curve_config curve) (unknown_curve curve)
  or_throw
      (first_key (λ (s : SignatureAlgorithmConfig). s.signature_algorithm_number == number)
        config.signature_algorithms)
      (unknown_algorithm_number number curve)

pub from_number_to_hash : Curve → SignatureAlgorithm → ℕ → Result SchemeError Hash
from_number_to_hash curve algorithm hash_number = do
  config ← or_throw (curve_config curve) (unknown_curve curve)
  signature ← or_throw (signature_config config algorithm) (algorithm_not_on_curve algorithm curve)
  or_throw (first_key (λ (n : ℕ). n == hash_number) signature.hashes)
      (unknown_hash_number hash_number algorithm curve)

pub from_numbers_to_curve_and_signature_algorithm :
    ℕ → ℕ → Result SchemeError (Curve × SignatureAlgorithm)
unfolding from_number_to_curve from_number_to_signature_algorithm
from_numbers_to_curve_and_signature_algorithm curve_number algorithm_number = do
  curve ← from_number_to_curve curve_number
  algorithm ← from_number_to_signature_algorithm curve algorithm_number
  ok (curve, algorithm)

pub from_numbers_to_curve_and_signature_algorithm_and_hash :
    ℕ → ℕ → ℕ → Result SchemeError (Curve × SignatureAlgorithm × Hash)
unfolding from_number_to_curve from_number_to_signature_algorithm from_number_to_hash
from_numbers_to_curve_and_signature_algorithm_and_hash curve_number algorithm_number hash_number =
    do
      curve ← from_number_to_curve curve_number
      algorithm ← from_number_to_signature_algorithm curve algorithm_number
      hash ← from_number_to_hash curve algorithm hash_number
      ok (curve, algorithm, hash)
