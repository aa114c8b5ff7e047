-- ===== src/Attested/Shares/Parts.antt =====
-- What a share's attestation names of its dWallet and holder, and the tests of it.
use ika_pre_alpha.Prelude.{
  ℕ, zero, suc, ◌≡◌, refl, sym, ap, ◌∙◌, ◌↔◌, true, ==_iff, Option, none, some, ok, arith,
}
use mathlib.Core.Path.{ap₂}
use ika_pre_alpha.Prelude.Bytes.{Bytes, same_bytes_iff, same_bytes_refl}
use ika_pre_alpha.Attested.Kinds.{
  SignatureScheme, ed25519, secp256k1_scheme, secp256r1_scheme, scheme_index, ShareHolder,
  DWalletAttestation, EncryptedShareAttestation, AttestationCrypto,
}
use ika_pre_alpha.Attested.DWallet.{require_field, VerifiedDWalletAttestation}
use ika_pre_alpha.Attested.Shares.{
  ShareNames, AskedHolder, require_same_sender_and_key, default_scheme, is_asked_holder,
  is_named_hash, is_first_holder, dwallet_attestation_digest, require_dwallet_attestation_digest,
  require_same_dwallet,
}

-- The holder has the asked key and scheme, Ed25519 where none is asked.
pub record IsAsked (holder : ShareHolder) (asked : AskedHolder) : Type 0 where
  pub scheme : scheme_index holder.signature_scheme ≡ default_scheme asked.holder_signature_scheme
  pub key : holder.signer_public_key ≡ asked.holder_signer_public_key

-- The dWallet's attestation names this very share and its holder.
pub record IsFirstShare (share : EncryptedShareAttestation) (dwallet : DWalletAttestation)
    : Type 0 where
  pub share_hash : dwallet.encrypted_share_hash ≡ some share.encrypted_share_hash
  pub key_hash : dwallet.encryption_key_hash ≡ some share.encryption_key_hash
  pub holder : dwallet.holder ≡ some share.holder

scheme_of : ℕ → SignatureScheme
scheme_of zero = ed25519
scheme_of (suc zero) = secp256k1_scheme
scheme_of (suc (suc n)) = secp256r1_scheme

scheme_of-index : (s : SignatureScheme) → scheme_of (scheme_index s) ≡ s
unfolding scheme_of
scheme_of-index ed25519 = refl
scheme_of-index secp256k1_scheme = refl
scheme_of-index secp256r1_scheme = refl

pub is_asked_holder_iff :
    (holder : ShareHolder) (asked : AskedHolder)
    → (is_asked_holder holder asked ≡ true) ↔ IsAsked holder asked
is_asked_holder_iff holder asked = (
  λ h. record {
    scheme = ground arith;
    key = (same_bytes_iff holder.signer_public_key asked.holder_signer_public_key).0 (ground arith);
  },
  λ h.
      ground
        (arith, (same_bytes_iff holder.signer_public_key asked.holder_signer_public_key).1 h.key),
)

pub is_named_hash_iff :
    (hash : Bytes) (named : Option Bytes) → (is_named_hash hash named ≡ true) ↔ (named ≡ some hash)
is_named_hash_iff hash none = (λ h. absurd (ground arith), λ h. absurd (ground arith))
is_named_hash_iff hash (some named) = (
  λ h. ap some (sym ((same_bytes_iff hash named).0 h)),
  λ h. (same_bytes_iff hash named).1 (ground arith),
)

pub is_first_holder_iff :
    (holder : ShareHolder) (named : Option ShareHolder) (asked : AskedHolder)
    → (is_first_holder holder named asked ≡ true) ↔ ((named ≡ some holder) × IsAsked holder asked)
is_first_holder_iff holder none asked = (λ h. absurd (ground arith), λ h. absurd (ground arith))
is_first_holder_iff holder (some named) asked = (
  λ h.
      let scheme =
        sym (scheme_of-index holder.signature_scheme)
        ∙ ap scheme_of (
            (==_iff (scheme_index holder.signature_scheme) (scheme_index named.signature_scheme)).0
              (ground arith))
        ∙ scheme_of-index named.signature_scheme in
      let key =
        (same_bytes_iff holder.signer_public_key named.signer_public_key).0 (ground arith) in
      let holders : holder ≡ named =
        ap₂ (λ s k. record { signature_scheme = s; signer_public_key = k }) scheme key in
      (ap some (sym holders), (is_asked_holder_iff holder asked).0 (ground arith)),
  λ (e, h).
      let holders : named ≡ holder = ground arith in
      let asks = (is_asked_holder_iff holder asked).1 h in
      rw holders (ground (arith, same_bytes_refl holder.signer_public_key)),
)

-- The share's attestation names the dWallet's sender, its key and the digest of its attestation.
pub record IsOfDWallet (crypto : AttestationCrypto) (share : ShareNames)
    (dwallet : VerifiedDWalletAttestation) : Type 0 where
  pub sender : share.intended_chain_sender ≡ dwallet.attestation.intended_chain_sender
  pub key : share.dwallet_public_key ≡ dwallet.attestation.public_key
  pub digest : share.dwallet_attestation_digest ≡ crypto.keccak_256 dwallet.attestation_data

module _ (crypto : AttestationCrypto) (dwallet : VerifiedDWalletAttestation) where
  open crypto use {keccak_256}

  pub IsOfDWallet-iff :
      (share : ShareNames)
      → (require_same_dwallet crypto share dwallet ≡ ok tt) ↔ IsOfDWallet crypto share dwallet
  unfolding require_same_dwallet require_same_sender_and_key require_dwallet_attestation_digest
      require_field dwallet_attestation_digest
  IsOfDWallet-iff share = (
    λ h. record {
      sender =
          (same_bytes_iff share.intended_chain_sender dwallet.attestation.intended_chain_sender).0
            (ground arith);
      key =
          (same_bytes_iff share.dwallet_public_key dwallet.attestation.public_key).0 (ground arith);
      digest =
          (same_bytes_iff share.dwallet_attestation_digest (keccak_256 dwallet.attestation_data)).0
            (ground arith);
    },
    λ h.
        let sender =
          (same_bytes_iff share.intended_chain_sender dwallet.attestation.intended_chain_sender).1
            h.sender in
        let key =
          (same_bytes_iff share.dwallet_public_key dwallet.attestation.public_key).1 h.key in
        let digest =
          (same_bytes_iff share.dwallet_attestation_digest (keccak_256 dwallet.attestation_data)).1
            h.digest in
        ground arith,
  )
