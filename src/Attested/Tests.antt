-- ===== src/Attested/Tests.antt =====
-- The checks of attestation records at concrete inputs.
use ika_pre_alpha.Prelude.{◌≡◌, ◌≢◌, ◌↔◌, ◌⊎◌, refl, none, some, [], ◌∷◌, ok, err}
use Prim.Native.String.{String}
use mathlib.Core.List.{Memᴰ}
use ika_pre_alpha.Prelude.Bytes.{Bytes}
use ika_pre_alpha.Committee.{committee_signing_message}
use ika_pre_alpha.Attested.Kinds.{
  AttestationKind, dwallet_kind, presign_kind, encrypted_share_kind, public_share_kind,
  AttestationRecord, failed, binding_check, signature_check, secp256k1, curve_index,
}
use ika_pre_alpha.Attested.Record.{
  attestation_signing_message, require_known_version, require_curve, decode_exactly,
  verify_and_decode,
}
use ika_pre_alpha.Attested.Record.Accepted.{IsAttested, verify_and_decode_iff}
use ika_pre_alpha.Attested.Record.Messages.{attestation_signing_message-injective}
use ika_pre_alpha.Attested.DWallet.{ExpectedDWallet, verify_dwallet_attestation_record}
use ika_pre_alpha.Attested.DWallet.Named.{
  IsNamedDWallet, FirstDifference, verified_of, verify_dwallet_attestation_record_explained,
}
use ika_pre_alpha.Attested.Shares.{
  AskedHolder, verify_encrypted_share_attestation_record, verify_public_share_attestation_record,
}
use ika_pre_alpha.Attested.Shares.Encrypted.{
  IsShareOf, verify_encrypted_share_attestation_record_iff,
}
use ika_pre_alpha.Attested.Shares.Public.{
  IsPublicShareOf, verify_public_share_attestation_record_iff,
}
use ika_pre_alpha.Attested.Sample.{
  sample_crypto, sample_trusted, record_signed, bytes_of, a_dwallet, an_encrypted_share,
  a_public_share, verified_dwallet,
}

-- The record of a kind's sample, signed as the kind.
abbrev stored : AttestationKind → AttestationRecord
stored kind = record_signed kind (attestation_signing_message kind (bytes_of kind))

-- A dWallet's bytes, signed as a presign.
abbrev mislabelled : AttestationRecord
mislabelled =
    record_signed dwallet_kind (attestation_signing_message presign_kind (bytes_of dwallet_kind))

another_kind_is_refused :
    verify_and_decode sample_crypto mislabelled sample_trusted dwallet_kind none
    ≡ err (failed signature_check none)
unfolding verify_and_decode attestation_signing_message require_known_version require_curve
    decode_exactly
another_kind_is_refused = refl

verify_and_decode_iff_example :
    (verify_and_decode sample_crypto (stored dwallet_kind) sample_trusted dwallet_kind none
      ≡ ok a_dwallet)
    ↔ IsAttested sample_crypto (stored dwallet_kind) sample_trusted dwallet_kind none a_dwallet
verify_and_decode_iff_example =
    verify_and_decode_iff sample_crypto (stored dwallet_kind) sample_trusted dwallet_kind none
      a_dwallet

abbrev one_byte : Bytes
one_byte = 1 ∷ []

abbrev two_bytes : Bytes
two_bytes = 2 ∷ 3 ∷ []

attestation_signing_message-injective_example :
    ((attestation_signing_message dwallet_kind one_byte
        ≡ attestation_signing_message presign_kind two_bytes)
      → (dwallet_kind ≡ presign_kind) × (one_byte ≡ two_bytes))
    × (attestation_signing_message dwallet_kind one_byte ≢ committee_signing_message two_bytes)
attestation_signing_message-injective_example =
    attestation_signing_message-injective dwallet_kind presign_kind one_byte two_bytes

abbrev another_key : ExpectedDWallet
another_key = record { curve = 0; public_key = 33 ∷ []; imported_session_identifier = none }

verify_dwallet_attestation_record_explained_example :
    ((verify_dwallet_attestation_record sample_crypto
          (stored dwallet_kind)
          sample_trusted
          another_key
        ≡ ok (verified_of (stored dwallet_kind) a_dwallet))
      × IsNamedDWallet a_dwallet another_key)
    ⊎ ((field : String) × (verify_dwallet_attestation_record sample_crypto
            (stored dwallet_kind)
            sample_trusted
            another_key
          ≡ err (failed binding_check (some field)))
        × FirstDifference a_dwallet another_key field)
unfolding attestation_signing_message
verify_dwallet_attestation_record_explained_example =
    verify_dwallet_attestation_record_explained sample_crypto (stored dwallet_kind) sample_trusted
      another_key a_dwallet
      (record {
        version = refl;
        signer = Memᴰ.head refl;
        verified = refl;
        parsed = refl;
        exact = refl;
        fits = tt;
      })

abbrev new_holder : AskedHolder
new_holder = record { holder_signer_public_key = 14 ∷ []; holder_signature_scheme = none }

verify_encrypted_share_attestation_record_iff_example :
    (verify_encrypted_share_attestation_record sample_crypto
        (stored encrypted_share_kind)
        sample_trusted
        verified_dwallet
        new_holder
      ≡ ok an_encrypted_share)
    ↔ (IsAttested sample_crypto
          (stored encrypted_share_kind)
          sample_trusted
          encrypted_share_kind
          none
          an_encrypted_share
        × IsShareOf sample_crypto verified_dwallet an_encrypted_share new_holder)
verify_encrypted_share_attestation_record_iff_example =
    verify_encrypted_share_attestation_record_iff sample_crypto verified_dwallet
      (stored encrypted_share_kind) sample_trusted new_holder an_encrypted_share

verify_public_share_attestation_record_iff_example :
    (verify_public_share_attestation_record sample_crypto
        (stored public_share_kind)
        sample_trusted
        verified_dwallet
      ≡ ok a_public_share)
    ↔ (IsAttested sample_crypto
          (stored public_share_kind)
          sample_trusted
          public_share_kind
          (some (curve_index secp256k1))
          a_public_share
        × IsPublicShareOf sample_crypto verified_dwallet a_public_share)
verify_public_share_attestation_record_iff_example =
    verify_public_share_attestation_record_iff sample_crypto verified_dwallet
      (stored public_share_kind) sample_trusted a_public_share
