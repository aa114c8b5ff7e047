-- ===== src/StoredShare/Tests.antt =====
-- The check of a share's account at a share that was re-encrypted and not accepted yet.
use ika_pre_alpha.Prelude.{◌≡◌, ◌↔◌, true, false, Option, none, some, [], ◌∷◌, ok}
use ika_pre_alpha.Prelude.Bytes.{Bytes}
use ika_pre_alpha.Attested.Kinds.{encrypted_share_kind, AttestationRecord}
use ika_pre_alpha.Attested.Record.{attestation_signing_message}
use ika_pre_alpha.Attested.Record.Accepted.{IsAttested}
use ika_pre_alpha.Attested.Shares.{AskedHolder}
use ika_pre_alpha.Attested.Shares.Encrypted.{IsShareOf}
use ika_pre_alpha.Attested.Sample.{
  sample_crypto, sample_trusted, record_signed, bytes_of, marked, spelled, repeated,
  an_encrypted_share, verified_dwallet,
}
use ika_pre_alpha.Accounts.Variable.{EncryptedUserSecretKeyShareAccount}
use ika_pre_alpha.StoredShare.{verified_share, verify_solana_encrypted_share_record}
use ika_pre_alpha.StoredShare.Accepted.{IsStoredShare, verify_solana_encrypted_share_record_iff}

abbrev share_record : AttestationRecord
share_record =
    record_signed encrypted_share_kind
      (attestation_signing_message encrypted_share_kind (bytes_of encrypted_share_kind))

abbrev share_digest : Bytes
share_digest = marked (bytes_of encrypted_share_kind)

abbrev address : Bytes
address = 60 ∷ []

abbrev unaccepted : EncryptedUserSecretKeyShareAccount
unaccepted = record {
  dwallet = address;
  encryption_key_owner = 14 ∷ [];
  source_share = repeated 31 (9 ∷ []);
  is_re_encrypted = true;
  created_epoch = 3;
  bump = 255;
  accepted = false;
  reserved = repeated 7 [];
  acceptance_signature = [];
  acceptance_digest = share_digest;
  encrypted_share = 12 ∷ [];
}

abbrev the_holder : AskedHolder
the_holder = record { holder_signer_public_key = 14 ∷ []; holder_signature_scheme = none }

abbrev given_signature : Option Bytes
given_signature = some (spelled (14 ∷ []) share_digest)

verify_solana_encrypted_share_record_iff_example :
    (verify_solana_encrypted_share_record sample_crypto unaccepted share_record sample_trusted
        verified_dwallet address the_holder
        (13 ∷ [])
        given_signature
      ≡ ok (verified_share sample_crypto unaccepted an_encrypted_share (13 ∷ []) given_signature))
    ↔ ((unaccepted.dwallet ≡ address)
        × IsAttested sample_crypto share_record sample_trusted encrypted_share_kind none
            an_encrypted_share
        × IsShareOf sample_crypto verified_dwallet an_encrypted_share the_holder
        × IsStoredShare sample_crypto unaccepted share_record verified_dwallet
            (13 ∷ [])
            given_signature
            an_encrypted_share)
verify_solana_encrypted_share_record_iff_example =
    verify_solana_encrypted_share_record_iff sample_crypto unaccepted share_record verified_dwallet
      (13 ∷ []) given_signature sample_trusted address the_holder an_encrypted_share
