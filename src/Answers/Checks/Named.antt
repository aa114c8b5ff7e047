-- ===== src/Answers/Checks/Named.antt =====
-- The attestation of an answer, and the fields it must name.

use ika_pre_alpha.Prelude.{
  ◌≡◌, ap, ◌∙◌, ◌↔◌, inl, inr, none, Result, ok, err, map_err, Result-cases, arith,
}
use mathlib.Core.Path.{subst}
use ika_pre_alpha.Prelude.Bytes.{Bytes}
use ika_pre_alpha.Networks.{IkaNetwork, ika_deployed_networks}
use ika_pre_alpha.Networks.Refusal.{IsNamedKey}
use ika_pre_alpha.Signing.{
  HeldAttestation, TransactionResponse, signature_response, attestation_response, error_response,
}
use ika_pre_alpha.Attested.Kinds.{AttestationFailure}
use ika_pre_alpha.Attested.Stored.{verify_attestation_network_key}
use ika_pre_alpha.Attested.Stored.NamedKey.{verify_attestation_network_key_iff}
use ika_pre_alpha.Answers.Sent.{attestation_refused}
use ika_pre_alpha.Answers.Checks.{attestation_of_answer}

pub map_err_iff :
    {A : Type 0} (r : Result AttestationFailure A) (a : A)
    → (map_err attestation_refused r ≡ ok a) ↔ (r ≡ ok a)
map_err_iff (ok b) a = (λ h. ground arith, λ h. ground arith)
map_err_iff (err e) a = (λ h. absurd (ground arith), λ h. absurd (ground arith))

-- The response is this attestation, and it names the key of the request.
pub record IsAnswer (response : TransactionResponse) (network : IkaNetwork) (expected : Bytes)
    (answer : HeldAttestation) : Type 0 where
  pub is_attestation : response ≡ attestation_response answer
  pub named_key : IsNamedKey ika_deployed_networks answer.network_pubkey expected network none

pub attestation_of_answer_iff :
    (response : TransactionResponse) (network : IkaNetwork) (expected : Bytes)
    (answer : HeldAttestation)
    → (attestation_of_answer response network expected ≡ ok answer)
      ↔ IsAnswer response network expected answer
unfolding attestation_of_answer
attestation_of_answer_iff (signature_response s) network expected answer =
    (λ h. absurd (ground arith), λ h. absurd (let e = h.is_attestation in ground arith))
attestation_of_answer_iff (error_response m) network expected answer =
    (λ h. absurd (ground arith), λ h. absurd (let e = h.is_attestation in ground arith))
attestation_of_answer_iff (attestation_response held) network expected answer = (
  λ h.
      elim (Result-cases
        (verify_attestation_network_key held.network_pubkey expected network none)) [
          | inr (error, e) ↦ absurd (ground arith)
          | inl (u, e) ↦
              let same : held ≡ answer = ground arith in
              let named =
                (verify_attestation_network_key_iff held.network_pubkey expected network none).0
                  e in
              record {
                is_attestation = ap attestation_response same;
                named_key =
                    subst
                      (λ x. IsNamedKey ika_deployed_networks x.network_pubkey expected network none)
                      same named;
              }
        ],
  λ h.
      let same : held ≡ answer = (let e = h.is_attestation in ground arith) in
      let key =
        (verify_attestation_network_key_iff answer.network_pubkey expected network none).1
          h.named_key in
      let accepted =
        ap (λ x. verify_attestation_network_key x.network_pubkey expected network none) same
        ∙ key in
      ground arith,
)
