-- ===== src/Attested/Stored/NamedKey.antt =====
-- The network key that an attestation may name, on the networks the SDK lists.
use ika_pre_alpha.Prelude.{◌≡◌, ◌↔◌, inl, inr, Option, none, ok, Option-cases, arith}
use ika_pre_alpha.Prelude.Bytes.{Bytes}
use ika_pre_alpha.Networks.{
  IkaNetwork, TrustedNetworkKeys, attestation_network_key_refusal_in, ika_deployed_networks,
}
use ika_pre_alpha.Networks.Refusal.{IsNamedKey, attestation_network_key_refusal_in-none_iff}
use ika_pre_alpha.Attested.Stored.{verify_attestation_network_key}

pub verify_attestation_network_key_iff :
    (named expected : Bytes) (network : IkaNetwork) (trusted : Option TrustedNetworkKeys)
    → (verify_attestation_network_key named expected network trusted ≡ ok tt)
      ↔ IsNamedKey ika_deployed_networks named expected network trusted
unfolding verify_attestation_network_key
verify_attestation_network_key_iff named expected network trusted = (
  λ h.
      elim (Option-cases
        (attestation_network_key_refusal_in ika_deployed_networks named expected network trusted)) [
          | inl e ↦ accepts.0 e
          | inr (refusal, e) ↦ absurd (ground arith)
        ],
  λ h. let e = accepts.1 h in ground arith,
)
  where
    accepts :
        (attestation_network_key_refusal_in ika_deployed_networks named expected network trusted
          ≡ none)
        ↔ IsNamedKey ika_deployed_networks named expected network trusted
    accepts =
        attestation_network_key_refusal_in-none_iff ika_deployed_networks named expected network
          trusted
