-- ===== src/Acceptance/OfRequest.antt =====
-- The attestation of an acceptance as the answer to the request that was sent.

use ika_pre_alpha.Prelude.{
  ℕ, zero, suc, ◌≡◌, refl, sym, ap, ◌∙◌, inl, inr, Bool, true, false, ==_iff, Option, none, some,
  ok, Option-cases, Result-cases, arith,
}
use ika_pre_alpha.Prelude.Bytes.{Bytes, same_bytes_iff}
use ika_pre_alpha.Schemes.{
  Curve, secp256k1, secp256r1, ed25519, ristretto, curve_place, curve_eq, from_number_to_curve,
}
use ika_pre_alpha.Signing.{
  SignatureWithScheme, UserCryptography, MetadataCodec, verify_signature_with_scheme,
}
use ika_pre_alpha.Attested.Kinds.{curve_index, DWalletAttestation, AttestationCrypto}
use ika_pre_alpha.Attested.DWallet.{same_bool}
use ika_pre_alpha.Attested.Shares.{is_named_hash}
use ika_pre_alpha.Answers.Sent.{SentSignDuringDkg}
use ika_pre_alpha.Acceptance.{
  SentDWalletRequest, refuse_unless, is_import, sign_during_dkg_signature_verifies,
  require_sign_asked, require_request,
}

curve_at : ℕ → Curve
curve_at zero = secp256k1
curve_at (suc zero) = ristretto
curve_at (suc (suc zero)) = ed25519
curve_at (suc (suc (suc n))) = secp256r1

curve_at-place : (c : Curve) → curve_at (curve_place c) ≡ c
unfolding curve_at
curve_at-place secp256k1 = refl
curve_at-place ristretto = refl
curve_at-place ed25519 = refl
curve_at-place secp256r1 = refl

curve_eq→eq : (c d : Curve) → curve_eq c d ≡ true → c ≡ d
curve_eq→eq c d h =
    sym (curve_at-place c)
    ∙ ap curve_at ((==_iff (curve_place c) (curve_place d)).0 h)
    ∙ curve_at-place d

same_bool→eq : (a b : Bool) → same_bool a b ≡ true → a ≡ b
same_bool→eq true true h = refl
same_bool→eq false false h = refl
same_bool→eq true false h = absurd (ground arith)
same_bool→eq false true h = absurd (ground arith)

is_named_hash→eq :
    (hash : Bytes) (named : Option Bytes) → is_named_hash hash named ≡ true → named ≡ some hash
is_named_hash→eq hash none h = absurd (ground arith)
is_named_hash→eq hash (some named) h = ap some (sym ((same_bytes_iff hash named).0 h))

module _ (crypto : AttestationCrypto) (codec : MetadataCodec)
    (cryptography : UserCryptography) where
  open crypto use {keccak_256}
  open cryptography use {user_and_network_dkg_output_match, public_key_from_dwallet_output}

  abbrev asked_signature : DWalletAttestation → SentSignDuringDkg → Bytes → SignatureWithScheme
  asked_signature a sent signature = record {
    curve = curve_index a.curve;
    signature_scheme = sent.signature_scheme;
    message = sent.message;
    message_metadata = sent.message_metadata;
    dwallet_public_output = a.public_output;
    signature = signature;
  }

  -- A signature is there exactly where a sign during DKG was sent, and it verifies.
  abbrev pub SignIsAsked : DWalletAttestation → Option SentSignDuringDkg → Type 0
  SignIsAsked a none = a.sign_during_dkg_signature ≡ none
  SignIsAsked a (some sent) =
      (signature : Bytes) × (a.sign_during_dkg_signature ≡ some signature)
      × (verify_signature_with_scheme codec cryptography (asked_signature a sent signature) ≡ ok tt)

  -- The attestation is of what the request sent and of what the user computed.
  pub record IsOfRequest (a : DWalletAttestation) (sent : SentDWalletRequest) : Type 0 where
    pub session : a.session_identifier ≡ sent.session_identifier
    pub sender : a.intended_chain_sender ≡ sent.intended_chain_sender
    pub curve : from_number_to_curve (curve_index a.curve) ≡ ok sent.curve
    pub origin : a.is_imported_key ≡ is_import sent.kind
    pub output :
        user_and_network_dkg_output_match sent.curve sent.user_public_output a.public_output
        ≡ ok true
    pub key : public_key_from_dwallet_output sent.curve a.public_output ≡ ok a.public_key
    pub key_hash : a.encryption_key_hash ≡ some (keccak_256 sent.encryption_key)
    pub share_hash : a.encrypted_share_hash ≡ some (keccak_256 sent.encrypted_share_and_proof)
    pub sign_asked : SignIsAsked a sent.sign_during_dkg

  SignIsAsked-of_require :
      (a : DWalletAttestation) (sent : Option SentSignDuringDkg)
      → require_sign_asked crypto codec cryptography a sent ≡ ok tt
      → SignIsAsked a sent
  unfolding require_sign_asked refuse_unless sign_during_dkg_signature_verifies
  SignIsAsked-of_require a none h = elim (Option-cases a.sign_during_dkg_signature) [
    | inl e ↦ e
    | inr (signature, e) ↦ absurd (ground arith)
  ]
  SignIsAsked-of_require a (some sent) h = elim (Option-cases a.sign_during_dkg_signature) [
    | inl e ↦ absurd (ground arith)
    | inr (signature, e) ↦
        elim (Result-cases
          (verify_signature_with_scheme codec cryptography (asked_signature a sent signature))) [
            | inl (u, f) ↦ (signature, e, f)
            | inr (error, f) ↦ absurd (ground arith)
          ]
  ]

  pub IsOfRequest-of_require :
      (a : DWalletAttestation) (sent : SentDWalletRequest)
      → require_request crypto codec cryptography a sent ≡ ok tt
      → IsOfRequest a sent
  unfolding require_request refuse_unless
  IsOfRequest-of_require a sent h =
      elim (Result-cases (from_number_to_curve (curve_index a.curve))) [
        | inr (error, e) ↦ absurd (ground arith)
        | inl (c, e) ↦
            elim (Result-cases (
              user_and_network_dkg_output_match sent.curve sent.user_public_output
                a.public_output)) [
                  | inr (error, f) ↦ absurd (ground arith)
                  | inl (matches, f) ↦
                      elim (Result-cases
                        (public_key_from_dwallet_output sent.curve a.public_output)) [
                          | inr (error, g) ↦ absurd (ground arith)
                          | inl (key, g) ↦ record {
                            session =
                                (same_bytes_iff a.session_identifier sent.session_identifier).0
                                  (ground arith);
                            sender =
                                (same_bytes_iff a.intended_chain_sender
                                    sent.intended_chain_sender).0
                                  (ground arith);
                            curve = e ∙ ap ok (curve_eq→eq c sent.curve (ground arith));
                            origin =
                                same_bool→eq a.is_imported_key (is_import sent.kind) (ground arith);
                            output = ground arith;
                            key =
                                g
                                ∙ ap ok (sym ((same_bytes_iff a.public_key key).0 (ground arith)));
                            key_hash =
                                is_named_hash→eq (keccak_256 sent.encryption_key)
                                  a.encryption_key_hash (ground arith);
                            share_hash =
                                is_named_hash→eq (keccak_256 sent.encrypted_share_and_proof)
                                  a.encrypted_share_hash (ground arith);
                            sign_asked =
                                SignIsAsked-of_require a sent.sign_during_dkg (ground arith);
                          }
                        ]
                ]
      ]
