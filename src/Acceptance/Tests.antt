-- ===== src/Acceptance/Tests.antt =====
-- The acceptance of a new dWallet at a concrete input.
use ika_pre_alpha.Prelude.{◌≡◌, refl, none, [], ◌∷◌, ok}
use ika_pre_alpha.Prelude.Bytes.{Bytes}
use ika_pre_alpha.Schemes.{secp256k1, from_number_to_curve}
use ika_pre_alpha.Networks.{attestation_network_key_refusal_in}
use ika_pre_alpha.Signing.{HeldAttestation}
use ika_pre_alpha.Signing.Sample.{sample_codec, sample_cryptography}
use ika_pre_alpha.Attested.Kinds.{dwallet_kind, DWalletAttestation}
use ika_pre_alpha.Attested.Record.{attestation_signing_message}
use ika_pre_alpha.Attested.Shares.{dwallet_attestation_digest}
use ika_pre_alpha.Attested.Stored.{verify_attestation_network_key}
use ika_pre_alpha.Attested.Sample.{
  marked, spelled, bytes_of, sample_crypto, network_key, sample_trusted,
}
use ika_pre_alpha.Acceptance.{
  dkg, SentDWalletRequest, ShareAcceptanceSignature, HolderSigner, refuse_unless,
  sign_share_acceptance, holder_is_own, decode_dwallet_attestation, network_signature_verifies,
  accept_from_network, require_sign_asked, require_request, sign_dwallet_share_acceptance,
}
use ika_pre_alpha.Acceptance.FromNetwork.{IsFromNetwork}
use ika_pre_alpha.Acceptance.OfRequest.{IsOfRequest}
use ika_pre_alpha.Acceptance.Signed.{IsOwnHolder, IsSignatureOf, sign_dwallet_share_acceptance_safe}

abbrev holder_key : Bytes
holder_key = 5 ∷ []

-- A key pair whose halves are the same bytes.
abbrev signer : HolderSigner
signer = record {
  get_public_key = λ secret_key. ok secret_key;
  sign = λ message secret_key. ok (spelled secret_key message);
}

abbrev held : HeldAttestation
held = record {
  attestation_data = bytes_of dwallet_kind;
  network_signature =
      spelled network_key (attestation_signing_message dwallet_kind (bytes_of dwallet_kind));
  network_pubkey = network_key;
  signer_noa_public_key = network_key;
}

abbrev sent_request : SentDWalletRequest
sent_request = record {
  kind = dkg;
  session_identifier = 1 ∷ [];
  intended_chain_sender = 2 ∷ [];
  curve = secp256k1;
  network_key_id = network_key;
  user_public_output = 44 ∷ [];
  encryption_key = 6 ∷ [];
  encrypted_share_and_proof = 8 ∷ [];
  sign_during_dkg = none;
}

abbrev acceptance : ShareAcceptanceSignature
acceptance = record {
  holder_public_key = holder_key;
  acceptance_digest = marked (bytes_of dwallet_kind);
  signature = spelled holder_key (marked (bytes_of dwallet_kind));
}

is_accepted :
    sign_dwallet_share_acceptance sample_crypto sample_codec sample_cryptography signer holder_key
      held sample_trusted sent_request
    ≡ ok acceptance
unfolding sign_dwallet_share_acceptance accept_from_network decode_dwallet_attestation refuse_unless
    network_signature_verifies attestation_signing_message verify_attestation_network_key
    attestation_network_key_refusal_in holder_is_own require_request from_number_to_curve
    require_sign_asked sign_share_acceptance dwallet_attestation_digest
is_accepted = refl

sign_dwallet_share_acceptance_safe_example :
    (a : DWalletAttestation) × IsFromNetwork sample_crypto held sample_trusted
      sent_request.network_key_id a
    × IsOwnHolder signer a.holder holder_key
    × IsOfRequest sample_crypto sample_codec sample_cryptography a sent_request
    × IsSignatureOf signer holder_key (marked held.attestation_data) acceptance
sign_dwallet_share_acceptance_safe_example =
    sign_dwallet_share_acceptance_safe signer sample_crypto sample_codec sample_cryptography
      holder_key held sample_trusted sent_request acceptance is_accepted
