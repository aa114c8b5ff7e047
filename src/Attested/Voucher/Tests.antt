-- ===== src/Attested/Voucher/Tests.antt =====
-- A voucher's record at a concrete input, under a codec that parses back what it writes.
use ika_pre_alpha.Prelude.{
  ℕ, zero, suc, ◌≡◌, ◌↔◌, refl, ap, ◌∙◌, sym, Option, none, some, List, [], ◌∷◌, ◌++◌, length, take,
  drop, take-length_append, drop-length_append, ok, arith,
}
use mathlib.Core.Option
use mathlib.Core.Path.{ap₂}
use ika_pre_alpha.Prelude.Bytes.{Bytes, same_bytes}
use ika_pre_alpha.Attested.Kinds.{
  AttestationKind, dwallet_kind, presign_kind, partial_user_signature_kind, encrypted_share_kind,
  public_share_kind, Decoded, DWalletSignatureScheme, ecdsa_keccak256, ecdsa_sha256,
  ecdsa_double_sha256, taproot_sha256, ecdsa_blake2b256, eddsa_sha512, schnorrkel_merlin,
  dwallet_scheme_index, PartialSignatureAttestation, Versioned, v1, another_variant,
  AttestationProof, AttestationCrypto,
}
use ika_pre_alpha.Attested.Record.{attestation_signing_message}
use ika_pre_alpha.Attested.Sample.{
  marked, spelled, network_key, sample_trusted, a_partial_signature,
}
use ika_pre_alpha.Attested.Voucher.{StoredVoucher, verify_partial_signature_voucher_record}
use ika_pre_alpha.Attested.Voucher.Rebuilt.{
  ParsesBack, IsOfVoucher, IsSigned, verify_partial_signature_voucher_record_iff,
}

-- Each field behind its length.
abbrev write_all : List Bytes → Bytes
write_all [] = []
write_all (field ∷ fields) = length field ∷ (field ++ write_all fields)

read_all : ℕ → Bytes → Option (List Bytes)
read_all zero [] = some []
read_all zero (b ∷ bs) = none
read_all (suc n) [] = none
read_all (suc n) (size ∷ bytes) =
    Option.map (λ fields. take size bytes ∷ fields) (read_all n (drop size bytes))

read_all-write_all :
    (fields : List Bytes) → read_all (length fields) (write_all fields) ≡ some fields
unfolding read_all
read_all-write_all [] = refl
read_all-write_all (field ∷ fields) =
    let rest = write_all fields in
    ap₂ (λ first others. Option.map (λ xs. first ∷ xs) (read_all (length fields) others))
      (take-length_append field rest) (drop-length_append field rest)
    ∙ ap (Option.map (λ xs. field ∷ xs)) (read_all-write_all fields)

abbrev scheme_at : ℕ → DWalletSignatureScheme
scheme_at zero = ecdsa_keccak256
scheme_at (suc zero) = ecdsa_sha256
scheme_at (suc (suc zero)) = ecdsa_double_sha256
scheme_at (suc (suc (suc zero))) = taproot_sha256
scheme_at (suc (suc (suc (suc zero)))) = ecdsa_blake2b256
scheme_at (suc (suc (suc (suc (suc zero))))) = eddsa_sha512
scheme_at (suc (suc (suc (suc (suc (suc n)))))) = schnorrkel_merlin

scheme_at-index : (s : DWalletSignatureScheme) → scheme_at (dwallet_scheme_index s) ≡ s
scheme_at-index ecdsa_keccak256 = refl
scheme_at-index ecdsa_sha256 = refl
scheme_at-index ecdsa_double_sha256 = refl
scheme_at-index taproot_sha256 = refl
scheme_at-index ecdsa_blake2b256 = refl
scheme_at-index eddsa_sha512 = refl
scheme_at-index schnorrkel_merlin = refl

abbrev fields_in : PartialSignatureAttestation → List Bytes
fields_in a =
    a.session_identifier ∷ a.intended_chain_sender ∷ a.dwallet_public_key
    ∷ a.dwallet_attestation_hash ∷ a.future_signature_voucher ∷ a.presign_session_identifier
    ∷ a.presign_attestation_hash ∷ a.message_digest ∷ a.message_metadata_digest
    ∷ a.verified_sign_data ∷ []

abbrev from_fields :
    DWalletSignatureScheme → Option (List Bytes) → Option (Versioned PartialSignatureAttestation)
from_fields scheme (some (f0 ∷ f1 ∷ f2 ∷ f3 ∷ f4 ∷ f5 ∷ f6 ∷ f7 ∷ f8 ∷ f9 ∷ fs)) = some (
    v1 (record {
      session_identifier = f0;
      intended_chain_sender = f1;
      dwallet_public_key = f2;
      dwallet_attestation_hash = f3;
      future_signature_voucher = f4;
      presign_session_identifier = f5;
      presign_attestation_hash = f6;
      message_digest = f7;
      message_metadata_digest = f8;
      signature_scheme = scheme;
      verified_sign_data = f9;
    }))
from_fields scheme other = none

abbrev write_versioned : Versioned PartialSignatureAttestation → Option Bytes
write_versioned (another_variant name) = none
write_versioned (v1 a) = some (dwallet_scheme_index a.signature_scheme ∷ write_all (fields_in a))

read_versioned : Bytes → Option (Versioned PartialSignatureAttestation)
read_versioned [] = none
read_versioned (scheme ∷ bytes) = from_fields (scheme_at scheme) (read_all 10 bytes)

abbrev parse_as : (kind : AttestationKind) → Bytes → Option (Versioned (Decoded kind))
parse_as partial_user_signature_kind bytes = read_versioned bytes
parse_as dwallet_kind bytes = none
parse_as presign_kind bytes = none
parse_as encrypted_share_kind bytes = none
parse_as public_share_kind bytes = none

abbrev serialize_as : (kind : AttestationKind) → Versioned (Decoded kind) → Option Bytes
serialize_as partial_user_signature_kind a = write_versioned a
serialize_as dwallet_kind a = none
serialize_as presign_kind a = none
serialize_as encrypted_share_kind a = none
serialize_as public_share_kind a = none

abbrev voucher_crypto : AttestationCrypto
voucher_crypto = record {
  keccak_256 = marked;
  ed25519_verify = λ signature message signer. some (same_bytes signature (spelled signer message));
  parse = parse_as;
  serialize = serialize_as;
  parse_proof = λ bytes. none;
  serialize_proof = λ proof. none;
}

reads_back :
    (a : PartialSignatureAttestation)
    → read_versioned (dwallet_scheme_index a.signature_scheme ∷ write_all (fields_in a))
      ≡ some (v1 a)
unfolding read_versioned
reads_back a =
    ap₂ from_fields (scheme_at-index a.signature_scheme) (read_all-write_all (fields_in a))

voucher_crypto-ParsesBack : ParsesBack voucher_crypto
voucher_crypto-ParsesBack partial_user_signature_kind a bytes h =
    let written : dwallet_scheme_index a.signature_scheme ∷ write_all (fields_in a) ≡ bytes =
      ground arith in
    ap read_versioned (sym written) ∙ reads_back a
voucher_crypto-ParsesBack dwallet_kind a bytes h = absurd (ground arith)
voucher_crypto-ParsesBack presign_kind a bytes h = absurd (ground arith)
voucher_crypto-ParsesBack encrypted_share_kind a bytes h = absurd (ground arith)
voucher_crypto-ParsesBack public_share_kind a bytes h = absurd (ground arith)

abbrev its_bytes : Bytes
its_bytes = 5 ∷ write_all (fields_in a_partial_signature)

abbrev its_proof : Bytes → AttestationProof
its_proof message = record {
  attestation_version = 0;
  signer_noa_public_key = network_key;
  network_signature = spelled network_key message;
}

abbrev its_voucher : StoredVoucher
its_voucher = record {
  address = 21 ∷ [];
  message_digest = marked (22 ∷ []);
  message_metadata_digest = marked (23 ∷ []);
  signature_scheme = 5;
}

abbrev signed_proof : AttestationProof
signed_proof = its_proof (attestation_signing_message partial_user_signature_kind its_bytes)

verify_partial_signature_voucher_record_iff_example :
    (verify_partial_signature_voucher_record voucher_crypto signed_proof a_partial_signature
        sample_trusted its_voucher
      ≡ ok a_partial_signature)
    ↔ ((a_partial_signature ≡ a_partial_signature)
        × IsSigned voucher_crypto signed_proof sample_trusted a_partial_signature
        × IsOfVoucher a_partial_signature its_voucher)
verify_partial_signature_voucher_record_iff_example =
    verify_partial_signature_voucher_record_iff voucher_crypto voucher_crypto-ParsesBack
      signed_proof a_partial_signature sample_trusted its_voucher a_partial_signature
