-- ===== src/Attested/Sample.antt =====
-- Concrete cryptography and attestations for the tests: a hash that marks its input, signatures that
-- spell the signer and the message, and one attestation of each kind by its bytes.
use ika_pre_alpha.Prelude.{ℕ, zero, suc, false, none, some, [], ◌∷◌, ◌++◌, if◌then◌else◌}
use ika_pre_alpha.Prelude.Bytes.{Bytes, same_bytes}
use ika_pre_alpha.Networks.{TrustedNetworkKeys, custom}
use ika_pre_alpha.Attested.Kinds.{
  AttestationKind, dwallet_kind, presign_kind, partial_user_signature_kind, encrypted_share_kind,
  public_share_kind, Decoded, secp256k1, ed25519, eddsa, eddsa_sha512, DWalletAttestation,
  EncryptedShareAttestation, PublicShareAttestation, PresignDataAttestation,
  PartialSignatureAttestation, v1, AttestationRecord, AttestationCrypto,
}
use ika_pre_alpha.Attested.DWallet.{VerifiedDWalletAttestation}

abbrev pub marked : Bytes → Bytes
marked bytes = 77 ∷ bytes

abbrev pub spelled : Bytes → Bytes → Bytes
spelled signer message = signer ++ message

abbrev pub bytes_of : AttestationKind → Bytes
bytes_of dwallet_kind = 0 ∷ 1 ∷ []
bytes_of presign_kind = 0 ∷ 2 ∷ []
bytes_of partial_user_signature_kind = 0 ∷ 3 ∷ []
bytes_of encrypted_share_kind = 0 ∷ 4 ∷ []
bytes_of public_share_kind = 0 ∷ 5 ∷ []

abbrev pub a_dwallet : DWalletAttestation
a_dwallet = record {
  session_identifier = 1 ∷ [];
  intended_chain_sender = 2 ∷ [];
  curve = secp256k1;
  public_key = 3 ∷ [];
  public_output = 4 ∷ [];
  is_imported_key = false;
  sign_during_dkg_signature = none;
  holder = some (record { signature_scheme = ed25519; signer_public_key = 5 ∷ [] });
  encryption_key_hash = some (marked (6 ∷ []));
  encrypted_share_hash = some (marked (8 ∷ []));
  epoch = 3;
}

-- Re-encrypted in a session of its own.
abbrev pub an_encrypted_share : EncryptedShareAttestation
an_encrypted_share = record {
  session_identifier = 11 ∷ [];
  intended_chain_sender = 2 ∷ [];
  dwallet_public_key = 3 ∷ [];
  encrypted_share_hash = marked (12 ∷ []);
  encryption_key_hash = marked (13 ∷ []);
  holder = record { signature_scheme = ed25519; signer_public_key = 14 ∷ [] };
  dwallet_attestation_digest = marked (bytes_of dwallet_kind);
}

abbrev pub repeated : ℕ → Bytes → Bytes
repeated zero bytes = bytes
repeated (suc n) bytes = 0 ∷ repeated n bytes

abbrev pub a_public_share : PublicShareAttestation
a_public_share = record {
  session_identifier = 15 ∷ [];
  intended_chain_sender = 2 ∷ [];
  dwallet_public_key = 3 ∷ [];
  public_user_secret_key_share = repeated 35 [];
  dwallet_attestation_digest = marked (bytes_of dwallet_kind);
}

abbrev pub a_presign : PresignDataAttestation
a_presign = record {
  session_identifier = 16 ∷ [];
  epoch = 3;
  presign_session_identifier = 17 ∷ [];
  presign_data = 18 ∷ [];
  curve = secp256k1;
  signature_algorithm = eddsa;
  dwallet_public_key = none;
  user_pubkey = 19 ∷ [];
}

abbrev pub a_partial_signature : PartialSignatureAttestation
a_partial_signature = record {
  session_identifier = 20 ∷ [];
  intended_chain_sender = 2 ∷ [];
  dwallet_public_key = 3 ∷ [];
  dwallet_attestation_hash = marked (bytes_of dwallet_kind);
  future_signature_voucher = 21 ∷ [];
  presign_session_identifier = 17 ∷ [];
  presign_attestation_hash = marked (bytes_of presign_kind);
  message_digest = marked (22 ∷ []);
  message_metadata_digest = marked (23 ∷ []);
  signature_scheme = eddsa_sha512;
  verified_sign_data = 24 ∷ [];
}

abbrev pub sample_of : (kind : AttestationKind) → Decoded kind
sample_of dwallet_kind = a_dwallet
sample_of presign_kind = a_presign
sample_of partial_user_signature_kind = a_partial_signature
sample_of encrypted_share_kind = an_encrypted_share
sample_of public_share_kind = a_public_share

abbrev pub sample_crypto : AttestationCrypto
sample_crypto = record {
  keccak_256 = marked;
  ed25519_verify = λ signature message signer. some (same_bytes signature (spelled signer message));
  parse =
      λ kind bytes. if same_bytes bytes (bytes_of kind) then some (v1 (sample_of kind)) else none;
  serialize = λ kind a. some (bytes_of kind);
  parse_proof = λ bytes. none;
  serialize_proof = λ proof. none;
}

abbrev pub network_key : Bytes
network_key = 99 ∷ []

abbrev pub sample_trusted : TrustedNetworkKeys
sample_trusted = record { network = custom (network_key ∷ []); public_keys = network_key ∷ [] }

-- `message` is the signing message of the kind's bytes.
abbrev pub record_signed : AttestationKind → Bytes → AttestationRecord
record_signed kind message = record {
  attestation_data = bytes_of kind;
  attestation_version = 0;
  network_signature = spelled network_key message;
  signer_noa_public_key = network_key;
}

abbrev pub verified_dwallet : VerifiedDWalletAttestation
verified_dwallet = record {
  attestation_data = bytes_of dwallet_kind;
  attestation = a_dwallet;
  network_signature = 25 ∷ [];
  signer_noa_public_key = network_key;
}
