-- ===== src/Attested/Record.antt =====
-- attestation-record.ts: the check of one record of a kind under the trusted keys.
pub mod Accepted
pub mod Messages
use Prim.Native.String.{String}
use ika_pre_alpha.Prelude.{
  ℕ, Bool, true, false, not, ◌&&◌, ◌||◌, Option, none, some, List, [], ◌∷◌, ◌++◌, ◌==◌, length, any,
  get_elem?, Result, ok, err, guard, ◌>>=◌, ◌>>◌,
}
use ika_pre_alpha.Prelude.Bytes.{Bytes, same_bytes, among}
use ika_pre_alpha.Committee.{attestation_signing_prefix}
use ika_pre_alpha.Networks.{TrustedNetworkKeys}
use ika_pre_alpha.Attested.Kinds.{
  AttestationKind, dwallet_kind, presign_kind, partial_user_signature_kind, encrypted_share_kind,
  public_share_kind, attestation_kind_tags, Decoded, Versioned, v1, another_variant,
  AttestationRecord, AttestationCrypto, PublicShareAttestation, AttestationFailure, failed,
  curve_required, version_check, signer_check, signature_check, decode_check, length_check,
}

abbrev pub known_attestation_versions : List ℕ
known_attestation_versions = 0 ∷ []

unfoldable pub attestation_signing_message : AttestationKind → Bytes → Bytes
attestation_signing_message kind data_bytes =
    attestation_signing_prefix ++ (attestation_kind_tags kind ∷ data_bytes)

abbrev pub public_share_lengths : List ℕ
public_share_lengths = 35 ∷ 35 ∷ 34 ∷ 34 ∷ []

unfoldable pub require_public_share_length : Bytes → ℕ → Result AttestationFailure (Unit {0})
require_public_share_length share curve = elim (get_elem? public_share_lengths curve) [
  | none ↦ err (failed length_check (some "public_user_secret_key_share"))
  | some expected ↦
      guard (length share == expected) (failed length_check (some "public_user_secret_key_share"))
]

unfoldable pub require_known_version : ℕ → Result AttestationFailure (Unit {0})
require_known_version version =
    guard (any (λ known. known == version) known_attestation_versions) (failed version_check none)

-- The curve is given, and has a public share length.
unfoldable pub has_share_length : Option ℕ → Bool
has_share_length none = false
has_share_length (some curve) = elim (get_elem? public_share_lengths curve) [
  | none ↦ false
  | some n ↦ true
]

unfoldable pub require_curve : AttestationKind → Option ℕ → Result AttestationFailure (Unit {0})
require_curve public_share_kind curve = guard (has_share_length curve) curve_required
require_curve dwallet_kind curve = ok tt
require_curve presign_kind curve = ok tt
require_curve partial_user_signature_kind curve = ok tt
require_curve encrypted_share_kind curve = ok tt

unfoldable pub require_share_length :
    (kind : AttestationKind) → Decoded kind → Option ℕ → Result AttestationFailure (Unit {0})
require_share_length public_share_kind decoded none = ok tt
require_share_length public_share_kind decoded (some curve) =
    require_public_share_length decoded.public_user_secret_key_share curve
require_share_length dwallet_kind decoded curve = ok tt
require_share_length presign_kind decoded curve = ok tt
require_share_length partial_user_signature_kind decoded curve = ok tt
require_share_length encrypted_share_kind decoded curve = ok tt

abbrev pub reserialized : Option Bytes → Bytes
reserialized none = []
reserialized (some bytes) = bytes

abbrev pub is_verified : Option Bool → Bool
is_verified none = false
is_verified (some verified) = verified

unfoldable pub require_v1 {ℓ} : {A : Type ℓ} → Versioned A → Result AttestationFailure A
require_v1 (v1 attestation) = ok attestation
require_v1 (another_variant name) = err (failed decode_check none)

module _ (crypto : AttestationCrypto) where
  open crypto use {ed25519_verify, parse, serialize}

  unfoldable pub decode_exactly :
      (kind : AttestationKind) → Bytes → Result AttestationFailure (Decoded kind)
  decode_exactly kind bytes = elim (parse kind bytes) [
    | none ↦ err (failed decode_check none)
    | some decoded ↦
        guard (same_bytes (reserialized (serialize kind decoded)) bytes) (failed decode_check none)
        >> require_v1 decoded
  ]

  unfoldable pub verify_and_decode :
      AttestationRecord
      → TrustedNetworkKeys
      → (kind : AttestationKind) → Option ℕ
      → Result AttestationFailure (Decoded kind)
  verify_and_decode stored trusted kind public_share_curve = do
    require_curve kind public_share_curve
    require_known_version stored.attestation_version
    guard (among stored.signer_noa_public_key trusted.public_keys) (failed signer_check none)
    let message = attestation_signing_message kind stored.attestation_data
    guard
        (is_verified (ed25519_verify stored.network_signature message stored.signer_noa_public_key))
        (failed signature_check none)
    decoded ← decode_exactly kind stored.attestation_data
    require_share_length kind decoded public_share_curve
    ok decoded

  pub verify_attestation_record :
      AttestationRecord
      → TrustedNetworkKeys
      → AttestationKind
      → Option ℕ
      → Result AttestationFailure (Unit {0})
  verify_attestation_record stored trusted kind curve =
      verify_and_decode stored trusted kind curve >>= λ decoded. ok tt
