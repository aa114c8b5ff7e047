-- ===== src/Attested/DWallet.antt =====
-- attestation-record.ts: a dWallet's attestation and what it must name.
pub mod Named
use Prim.Native.String.{String}
use ika_pre_alpha.Prelude.{
  ℕ, Bool, true, false, Option, none, some, List, [], ◌∷◌, ◌==◌, Result, ok, err, guard, ◌>>=◌,
  ◌>>◌,
}
use ika_pre_alpha.Prelude.Bytes.{Bytes, same_bytes}
use ika_pre_alpha.Networks.{TrustedNetworkKeys}
use ika_pre_alpha.Attested.Kinds.{
  dwallet_kind, curve_index, DWalletAttestation, AttestationRecord, AttestationCrypto,
  AttestationFailure, failed, binding_check,
}
use ika_pre_alpha.Attested.Record.{verify_and_decode}

-- `===` on Booleans
abbrev pub same_bool : Bool → Bool → Bool
same_bool true true = true
same_bool false false = true
same_bool true false = false
same_bool false true = false

abbrev pub is_some {ℓ} : {A : Type ℓ} → Option A → Bool
is_some none = false
is_some (some a) = true

unfoldable pub require_field : String → Bool → Result AttestationFailure (Unit {0})
require_field field holds = guard holds (failed binding_check (some field))

pub record VerifiedDWalletAttestation : Type 0 where
  pub attestation_data : Bytes
  pub attestation : DWalletAttestation
  pub network_signature : Bytes
  pub signer_noa_public_key : Bytes

pub record ExpectedDWallet : Type 0 where
  pub curve : ℕ
  pub public_key : Bytes
  pub imported_session_identifier : Option Bytes

pub require_imported_session :
    DWalletAttestation → Option Bytes → Result AttestationFailure (Unit {0})
require_imported_session a none = ok tt
require_imported_session a (some imported) =
    require_field "session_identifier" (same_bytes a.session_identifier imported)

module _ (crypto : AttestationCrypto) where
  pub verify_dwallet_attestation_record :
      AttestationRecord
      → TrustedNetworkKeys
      → ExpectedDWallet
      → Result AttestationFailure VerifiedDWalletAttestation
  verify_dwallet_attestation_record stored trusted expected = do
    a ← verify_and_decode crypto stored trusted dwallet_kind none
    require_field "curve" (curve_index a.curve == expected.curve)
    require_field "public_key" (same_bytes a.public_key expected.public_key)
    require_field "is_imported_key"
        (same_bool a.is_imported_key (is_some expected.imported_session_identifier))
    require_imported_session a expected.imported_session_identifier
    ok (record {
      attestation_data = stored.attestation_data;
      attestation = a;
      network_signature = stored.network_signature;
      signer_noa_public_key = stored.signer_noa_public_key;
    })
