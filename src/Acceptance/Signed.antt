-- ===== src/Acceptance/Signed.antt =====
-- What holds where an acceptance is signed.

use ika_pre_alpha.Prelude.{
  ◌≡◌, refl, sym, ap, ◌∙◌, inl, inr, true, false, ◌==◌, ==_iff, Option, none, some, ok, Bool-cases,
  Result-cases, arith,
}
use ika_pre_alpha.Prelude.Bytes.{Bytes, same_bytes_iff}
use ika_pre_alpha.Networks.{TrustedNetworkKeys}
use ika_pre_alpha.Signing.{HeldAttestation, UserCryptography, MetadataCodec}
use ika_pre_alpha.Attested.Kinds.{scheme_index, ShareHolder, DWalletAttestation, AttestationCrypto}
use ika_pre_alpha.Attested.Shares.{dwallet_attestation_digest}
use ika_pre_alpha.Acceptance.{
  SentDWalletRequest, ShareAcceptanceSignature, HolderSigner, refuse_unless, sign_share_acceptance,
  holder_is_own, accept_from_network, require_request, sign_dwallet_share_acceptance,
}
use ika_pre_alpha.Acceptance.FromNetwork.{IsFromNetwork, IsFromNetwork-of_accept}
use ika_pre_alpha.Acceptance.OfRequest.{IsOfRequest, IsOfRequest-of_require}

module _ (signer : HolderSigner) where
  open signer use {get_public_key, sign}

  -- The attestation's holder is the Ed25519 key of the secret key.
  pub record IsOwnHolder (holder : Option ShareHolder) (secret_key : Bytes) : Type 0 where
    pub held : ShareHolder
    pub is_held : holder ≡ some held
    pub scheme : scheme_index held.signature_scheme ≡ 0
    pub key : get_public_key secret_key ≡ ok held.signer_public_key

  IsOwnHolder-of_test :
      (holder : Option ShareHolder) (secret_key : Bytes)
      → holder_is_own signer holder secret_key ≡ ok true
      → IsOwnHolder holder secret_key
  unfolding holder_is_own
  IsOwnHolder-of_test none secret_key h = absurd (ground arith)
  IsOwnHolder-of_test (some holder) secret_key h =
      elim (Bool-cases (scheme_index holder.signature_scheme == 0)) [
        | inr other ↦ absurd (ground arith)
        | inl scheme ↦ elim (Result-cases (get_public_key secret_key)) [
          | inr (error, e) ↦ absurd (ground arith)
          | inl (key, e) ↦ record {
            held = holder;
            is_held = refl;
            scheme = (==_iff (scheme_index holder.signature_scheme) 0).0 scheme;
            key = e ∙ ap ok (sym ((same_bytes_iff holder.signer_public_key key).0 (ground arith)));
          }
        ]
      ]

  -- The signature is of the digest, under the secret key, with its public key.
  pub record IsSignatureOf (secret_key digest : Bytes) (accepted : ShareAcceptanceSignature)
      : Type 0 where
    pub key : get_public_key secret_key ≡ ok accepted.holder_public_key
    pub digest_signed : accepted.acceptance_digest ≡ digest
    pub signed : sign digest secret_key ≡ ok accepted.signature

  IsSignatureOf-of_sign :
      (secret_key digest : Bytes) (accepted : ShareAcceptanceSignature)
      → sign_share_acceptance signer secret_key digest ≡ ok accepted
      → IsSignatureOf secret_key digest accepted
  unfolding sign_share_acceptance
  IsSignatureOf-of_sign secret_key digest accepted h =
      elim (Result-cases (get_public_key secret_key)) [
        | inr (error, e) ↦ absurd (ground arith)
        | inl (key, e) ↦ elim (Result-cases (sign digest secret_key)) [
          | inr (error, f) ↦ absurd (ground arith)
          | inl (signature, f) ↦
              let same : ◌≡◌ {A = ShareAcceptanceSignature}
                  (record {
                    holder_public_key = key;
                    acceptance_digest = digest;
                    signature = signature;
                  })
                  accepted =
                ground arith in
              record {
                key = e ∙ ap (λ (x : ShareAcceptanceSignature). ok x.holder_public_key) same;
                digest_signed =
                    ap (λ (x : ShareAcceptanceSignature). x.acceptance_digest) (sym same);
                signed = f ∙ ap (λ (x : ShareAcceptanceSignature). ok x.signature) same;
              }
        ]
      ]

  module _ (crypto : AttestationCrypto) (codec : MetadataCodec)
      (cryptography : UserCryptography) where
    open crypto use {keccak_256}

    -- A holder's acceptance is signed only of an attestation whose exact bytes a trusted key signed
    -- as a dWallet's, whose network key is trusted and is the request's, whose holder is the
    -- Ed25519 key of the secret key, and that names all that the request sent: its session, sender,
    -- curve and origin, an output that matches the user's with the attested key inside it, the
    -- hashes of the encryption key and of the share, and a sign during DKG exactly where one was
    -- asked, with a signature that verifies. What is signed is the keccak256 of those bytes.
    pub sign_dwallet_share_acceptance_safe :
        (secret_key : Bytes) (held : HeldAttestation) (trusted : TrustedNetworkKeys)
        (sent : SentDWalletRequest) (accepted : ShareAcceptanceSignature)
        → sign_dwallet_share_acceptance crypto codec cryptography signer secret_key held trusted
            sent
          ≡ ok accepted
        → (a : DWalletAttestation) × IsFromNetwork crypto held trusted sent.network_key_id a
          × IsOwnHolder a.holder secret_key
          × IsOfRequest crypto codec cryptography a sent
          × IsSignatureOf secret_key (keccak_256 held.attestation_data) accepted
    unfolding sign_dwallet_share_acceptance refuse_unless dwallet_attestation_digest
    sign_dwallet_share_acceptance_safe secret_key held trusted sent accepted h =
        elim (Result-cases (accept_from_network crypto held trusted sent.network_key_id)) [
          | inr (error, e) ↦ absurd (ground arith)
          | inl (a, e) ↦ elim (Result-cases (holder_is_own signer a.holder secret_key)) [
            | inr (error, f) ↦ absurd (ground arith)
            | inl (false, f) ↦ absurd (ground arith)
            | inl (true, f) ↦
                elim (Result-cases (require_request crypto codec cryptography a sent)) [
                  | inr (error, g) ↦ absurd (ground arith)
                  | inl (u, g) ↦ (
                    a,
                    IsFromNetwork-of_accept crypto held trusted sent.network_key_id a e,
                    IsOwnHolder-of_test a.holder secret_key f,
                    IsOfRequest-of_require crypto codec cryptography a sent g,
                    IsSignatureOf-of_sign secret_key (keccak_256 held.attestation_data) accepted
                        (ground arith),
                  )
                ]
          ]
        ]
