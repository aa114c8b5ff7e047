-- ===== src/Acceptance.antt =====
-- sdk/core/src/grpc/dwallet-share-acceptance.ts and share-acceptance-signing.ts: the holder's signature
-- that accepts a new dWallet, made only after the attestation is compared with what the user sent.
-- Ed25519's key derivation and signing are `HolderSigner`, whose calls answer or throw a text.
pub mod FromNetwork
pub mod OfRequest
pub mod Signed
mod Tests
use Prim.Native.String.{String}
use ika_pre_alpha.Prelude.{
  ℕ, Bool, true, false, not, ◌&&◌, Option, none, some, ◌==◌, Result, ok, err, guard, map_err, ◌>>=◌,
  ◌>>◌,
}
use ika_pre_alpha.Prelude.Bytes.{Bytes, same_bytes, among}
use ika_pre_alpha.Schemes.{Curve, SchemeError, curve_eq, from_number_to_curve}
use ika_pre_alpha.Networks.{TrustedNetworkKeys}
use ika_pre_alpha.Signing.{
  HeldAttestation, UserCryptography, MetadataCodec, verify_signature_with_scheme,
}
use ika_pre_alpha.Attested.Kinds.{
  dwallet_kind, curve_index, scheme_index, ShareHolder, DWalletAttestation, Versioned, v1,
  another_variant, AttestationCrypto, AttestationRecordCheck, AttestationFailure, failed, bcs_threw,
  signer_check, signature_check, decode_check, binding_check,
}
use ika_pre_alpha.Attested.Record.{attestation_signing_message, is_verified}
use ika_pre_alpha.Attested.DWallet.{same_bool, is_some}
use ika_pre_alpha.Attested.Shares.{is_named_hash, dwallet_attestation_digest}
use ika_pre_alpha.Attested.Stored.{verify_attestation_network_key}
use ika_pre_alpha.Answers.Sent.{
  AnswerFailure, attestation_refused, curve_threw, cryptography_failed, SentSignDuringDkg,
}

pub data CreatingRequestKind : Type 0 where
  dkg imported_key_verification : CreatingRequestKind

pub record SentDWalletRequest : Type 0 where
  pub kind : CreatingRequestKind
  pub session_identifier : Bytes
  pub intended_chain_sender : Bytes
  pub curve : Curve
  pub network_key_id : Bytes
  pub user_public_output : Bytes
  pub encryption_key : Bytes
  pub encrypted_share_and_proof : Bytes
  pub sign_during_dkg : Option SentSignDuringDkg

pub record ShareAcceptanceSignature : Type 0 where
  pub holder_public_key : Bytes
  pub acceptance_digest : Bytes
  pub signature : Bytes

pub record HolderSigner : Type 0 where
  pub get_public_key : Bytes → Result String Bytes
  pub sign : (message secret_key : Bytes) → Result String Bytes

pub refuse_unless : String → Bool → AttestationRecordCheck → Result AnswerFailure (Unit {0})
refuse_unless field holds check = guard holds (attestation_refused (failed check (some field)))

abbrev pub is_import : CreatingRequestKind → Bool
is_import dkg = false
is_import imported_key_verification = true

module _ (signer : HolderSigner) where
  open signer use {get_public_key, sign}

  pub sign_share_acceptance :
      (holder_secret_key acceptance_digest : Bytes) → Result AnswerFailure ShareAcceptanceSignature
  sign_share_acceptance holder_secret_key acceptance_digest = do
    holder_public_key ← map_err cryptography_failed (get_public_key holder_secret_key)
    signature ← map_err cryptography_failed (sign acceptance_digest holder_secret_key)
    ok (record {
      holder_public_key = holder_public_key;
      acceptance_digest = acceptance_digest;
      signature = signature;
    })

  -- The key of the holder's secret key is derived only where there is an Ed25519 holder.
  pub holder_is_own : Option ShareHolder → Bytes → Result AnswerFailure Bool
  holder_is_own none secret_key = ok false
  holder_is_own (some holder) secret_key = elim (scheme_index holder.signature_scheme == 0) [
    | false ↦ ok false
    | true ↦ do
      key ← map_err cryptography_failed (get_public_key secret_key)
      ok (same_bytes holder.signer_public_key key)
  ]

module _ (crypto : AttestationCrypto) where
  open crypto use {ed25519_verify, parse, serialize}

  pub decode_dwallet_attestation : Bytes → Result AnswerFailure DWalletAttestation
  decode_dwallet_attestation bytes = elim (parse dwallet_kind bytes) [
    | none ↦ err (attestation_refused (failed decode_check none))
    | some (another_variant name) ↦ err (attestation_refused (failed decode_check none))
    | some (v1 a) ↦ elim (serialize dwallet_kind (v1 a)) [
      | none ↦ err (attestation_refused bcs_threw)
      | some encoded ↦
          guard (same_bytes encoded bytes) (attestation_refused (failed decode_check none)) >> ok a
    ]
  ]

  pub network_signature_verifies : (bytes signature key : Bytes) → Bool
  network_signature_verifies bytes signature key =
      is_verified (ed25519_verify signature (attestation_signing_message dwallet_kind bytes) key)

  -- The checks of the attestation as the network's: its bytes, its signer and its network key.
  pub accept_from_network :
      HeldAttestation → TrustedNetworkKeys → Bytes → Result AnswerFailure DWalletAttestation
  accept_from_network held trusted network_key_id = do
    a ← decode_dwallet_attestation held.attestation_data
    refuse_unless "signer_noa_public_key" (among held.signer_noa_public_key trusted.public_keys)
        signer_check
    refuse_unless "network_signature"
        (network_signature_verifies held.attestation_data held.network_signature
          held.signer_noa_public_key)
        signature_check
    map_err attestation_refused (
        verify_attestation_network_key held.network_pubkey network_key_id trusted.network
          (some trusted))
    ok a

  module _ (codec : MetadataCodec) (cryptography : UserCryptography) where
    open cryptography use {user_and_network_dkg_output_match, public_key_from_dwallet_output}
    open crypto use {keccak_256}

    -- A signature that is refused or throws does not verify.
    pub sign_during_dkg_signature_verifies :
        ℕ → SentSignDuringDkg → (output signature : Bytes) → Bool
    sign_during_dkg_signature_verifies curve sent output signature =
        elim (verify_signature_with_scheme codec cryptography (record {
          curve = curve;
          signature_scheme = sent.signature_scheme;
          message = sent.message;
          message_metadata = sent.message_metadata;
          dwallet_public_output = output;
          signature = signature;
        })) [ ok verified ↦ true | err error ↦ false ]

    pub require_sign_asked :
        DWalletAttestation → Option SentSignDuringDkg → Result AnswerFailure (Unit {0})
    require_sign_asked a none =
        refuse_unless "sign_during_dkg_signature_unasked"
          (not (is_some a.sign_during_dkg_signature)) binding_check
    require_sign_asked a (some sent) =
        refuse_unless "sign_during_dkg_signature"
          (elim a.sign_during_dkg_signature [
            | none ↦ false
            | some signature ↦
                sign_during_dkg_signature_verifies (curve_index a.curve) sent a.public_output
                  signature
          ])
          binding_check

    pub require_request : DWalletAttestation → SentDWalletRequest → Result AnswerFailure (Unit {0})
    require_request a sent = do
      refuse_unless "session_identifier" (same_bytes a.session_identifier sent.session_identifier)
          binding_check
      refuse_unless "intended_chain_sender"
          (same_bytes a.intended_chain_sender sent.intended_chain_sender) binding_check
      attested_curve ← map_err curve_threw (from_number_to_curve (curve_index a.curve))
      refuse_unless "curve" (curve_eq attested_curve sent.curve) binding_check
      refuse_unless "is_imported_key" (same_bool a.is_imported_key (is_import sent.kind))
          binding_check
      outputs_match ←
          map_err cryptography_failed
            (user_and_network_dkg_output_match sent.curve sent.user_public_output a.public_output)
      refuse_unless "public_output" outputs_match binding_check
      key_of_output ←
          map_err cryptography_failed (public_key_from_dwallet_output sent.curve a.public_output)
      refuse_unless "public_key" (same_bytes a.public_key key_of_output) binding_check
      refuse_unless "encryption_key_hash"
          (is_named_hash (keccak_256 sent.encryption_key) a.encryption_key_hash) binding_check
      refuse_unless "encrypted_share_hash"
          (is_named_hash (keccak_256 sent.encrypted_share_and_proof) a.encrypted_share_hash)
          binding_check
      require_sign_asked a sent.sign_during_dkg

    pub sign_dwallet_share_acceptance :
        HolderSigner
        → (holder_secret_key : Bytes) → HeldAttestation
        → TrustedNetworkKeys
        → SentDWalletRequest
        → Result AnswerFailure ShareAcceptanceSignature
    sign_dwallet_share_acceptance signer holder_secret_key held trusted sent = do
      a ← accept_from_network held trusted sent.network_key_id
      own ← holder_is_own signer a.holder holder_secret_key
      refuse_unless "holder" own binding_check
      require_request a sent
      sign_share_acceptance signer holder_secret_key
          (dwallet_attestation_digest crypto held.attestation_data)
