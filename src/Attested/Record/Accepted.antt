-- ===== src/Attested/Record/Accepted.antt =====
-- What the check of a record accepts.
use ika_pre_alpha.Prelude.{
  ℕ, ◌≡◌, refl, sym, ap, ◌∙◌, ◌↔◌, inl, inr, true, Option, none, some, length, get_elem?, ok,
  Result-cases, Option-cases, arith,
}
use mathlib.Core.List.{Memᴰ}
use ika_pre_alpha.Prelude.Bytes.{Bytes, same_bytes, same_bytes_iff, among_iff}
use ika_pre_alpha.Networks.{TrustedNetworkKeys}
use ika_pre_alpha.Attested.Kinds.{
  AttestationKind, dwallet_kind, presign_kind, partial_user_signature_kind, encrypted_share_kind,
  public_share_kind, Decoded, v1, another_variant, AttestationRecord, AttestationCrypto,
}
use ika_pre_alpha.Attested.Record.{
  attestation_signing_message, public_share_lengths, require_public_share_length,
  require_known_version, has_share_length, require_curve, require_share_length, reserialized,
  require_v1, decode_exactly, verify_and_decode,
}

-- A public share has the length of its dWallet's curve; the other kinds need no curve.
abbrev pub FitsCurve : (kind : AttestationKind) → Decoded kind → Option ℕ → Type 0
FitsCurve public_share_kind a curve =
    (c : ℕ) × (curve ≡ some c)
    × (get_elem? public_share_lengths c ≡ some (length a.public_user_secret_key_share))
FitsCurve dwallet_kind a curve = Unit
FitsCurve presign_kind a curve = Unit
FitsCurve partial_user_signature_kind a curve = Unit
FitsCurve encrypted_share_kind a curve = Unit

module _ (crypto : AttestationCrypto) where
  open crypto use {ed25519_verify, parse, serialize}

  -- Signed by a trusted key as this kind, and exactly the bytes of the attestation.
  pub record IsAttested (stored : AttestationRecord) (trusted : TrustedNetworkKeys)
      (kind : AttestationKind) (curve : Option ℕ) (a : Decoded kind) : Type 0 where
    pub version : stored.attestation_version ≡ 0
    pub signer : Memᴰ stored.signer_noa_public_key trusted.public_keys
    pub verified :
        ed25519_verify stored.network_signature
          (attestation_signing_message kind stored.attestation_data)
          stored.signer_noa_public_key
        ≡ some true
    pub parsed : parse kind stored.attestation_data ≡ some (v1 a)
    pub exact : reserialized (serialize kind (v1 a)) ≡ stored.attestation_data
    pub fits : FitsCurve kind a curve

  decode_exactly_ok :
      (kind : AttestationKind) (bytes : Bytes) (a : Decoded kind)
      → decode_exactly crypto kind bytes ≡ ok a
      → (parse kind bytes ≡ some (v1 a)) × (reserialized (serialize kind (v1 a)) ≡ bytes)
  unfolding decode_exactly require_v1
  decode_exactly_ok kind bytes a h = elim (Option-cases (parse kind bytes)) [
    | inl e ↦ absurd (ground arith)
    | inr (another_variant name, e) ↦ absurd (ground arith)
    | inr (v1 b, e) ↦
        let exact : same_bytes (reserialized (serialize kind (v1 b))) bytes ≡ true = ground arith in
        let same : b ≡ a = ground arith in
        (
          e ∙ ap (λ x. some (v1 x)) same,
          ap (λ x. reserialized (serialize kind (v1 x))) (sym same)
              ∙ (same_bytes_iff (reserialized (serialize kind (v1 b))) bytes).0 exact,
        )
  ]

  decode_exactly_found :
      (kind : AttestationKind) (bytes : Bytes) (a : Decoded kind)
      → parse kind bytes ≡ some (v1 a)
      → reserialized (serialize kind (v1 a)) ≡ bytes
      → decode_exactly crypto kind bytes ≡ ok a
  unfolding decode_exactly require_v1
  decode_exactly_found kind bytes a e h =
      ground (arith, (same_bytes_iff (reserialized (serialize kind (v1 a))) bytes).1 h)

  fits-of_lengths :
      (kind : AttestationKind) (a : Decoded kind) (curve : Option ℕ)
      → require_curve kind curve ≡ ok tt
      → require_share_length kind a curve ≡ ok tt
      → FitsCurve kind a curve
  unfolding require_curve require_share_length has_share_length require_public_share_length
  fits-of_lengths public_share_kind a none h k = absurd (ground arith)
  fits-of_lengths public_share_kind a (some c) h k =
      elim (Option-cases (get_elem? public_share_lengths c)) [
        | inl e ↦ absurd (ground arith)
        | inr (expected, e) ↦ (c, refl, ground arith)
      ]
  fits-of_lengths dwallet_kind a curve h k = tt
  fits-of_lengths presign_kind a curve h k = tt
  fits-of_lengths partial_user_signature_kind a curve h k = tt
  fits-of_lengths encrypted_share_kind a curve h k = tt

  lengths-of_FitsCurve :
      (kind : AttestationKind) (a : Decoded kind) (curve : Option ℕ)
      → FitsCurve kind a curve
      → (require_curve kind curve ≡ ok tt) × (require_share_length kind a curve ≡ ok tt)
  unfolding require_curve require_share_length has_share_length require_public_share_length
  lengths-of_FitsCurve public_share_kind a none (c, e, h) = absurd (ground arith)
  lengths-of_FitsCurve public_share_kind a (some d) (c, e, h) =
      let same : d ≡ c = ground arith in
      let of_d = ap (get_elem? public_share_lengths) same ∙ h in (ground arith, ground arith)
  lengths-of_FitsCurve dwallet_kind a curve h = (refl, refl)
  lengths-of_FitsCurve presign_kind a curve h = (refl, refl)
  lengths-of_FitsCurve partial_user_signature_kind a curve h = (refl, refl)
  lengths-of_FitsCurve encrypted_share_kind a curve h = (refl, refl)

  module _ (stored : AttestationRecord) (trusted : TrustedNetworkKeys) (kind : AttestationKind)
      (curve : Option ℕ) (a : Decoded kind) where
    IsAttested-of_verify :
        verify_and_decode crypto stored trusted kind curve ≡ ok a
        → IsAttested stored trusted kind curve a
    unfolding verify_and_decode require_known_version
    IsAttested-of_verify h =
        elim (Result-cases (decode_exactly crypto kind stored.attestation_data)) [
          | inr (error, e) ↦ absurd (ground arith)
          | inl (b, e) ↦ elim (Result-cases (require_curve kind curve)) [
            | inr (error, f) ↦ absurd (ground arith)
            | inl (u, f) ↦ elim (Result-cases (require_share_length kind b curve)) [
              | inr (error, g) ↦ absurd (ground arith)
              | inl (w, g) ↦
                  let same : b ≡ a = ground arith in
                  let decoded = decode_exactly_ok kind stored.attestation_data a (e ∙ ap ok same) in
                  record {
                    version = ground arith;
                    signer =
                        (among_iff stored.signer_noa_public_key trusted.public_keys).0
                          (ground arith);
                    verified =
                        elim (Option-cases (
                          ed25519_verify stored.network_signature
                            (attestation_signing_message kind stored.attestation_data)
                            stored.signer_noa_public_key)) [
                              | inl e ↦ absurd (ground arith)
                              | inr (answer, e) ↦ ground arith
                            ];
                    parsed = decoded.0;
                    exact = decoded.1;
                    fits =
                        fits-of_lengths kind a curve f
                          (ap (λ x. require_share_length kind x curve) (sym same) ∙ g);
                  }
            ]
          ]
        ]

    verify-of_IsAttested :
        IsAttested stored trusted kind curve a
        → verify_and_decode crypto stored trusted kind curve ≡ ok a
    unfolding verify_and_decode require_known_version
    verify-of_IsAttested h =
        let (curve_ok, length_ok) = lengths-of_FitsCurve kind a curve h.fits in
        let decoded = decode_exactly_found kind stored.attestation_data a h.parsed h.exact in
        let trusts = (among_iff stored.signer_noa_public_key trusted.public_keys).1 h.signer in
        ground arith

    -- The check of a record as one kind returns an attestation exactly when the record states
    -- version 0, its signer is among the trusted keys, the signature verifies under the signer over
    -- the kind's signing message of the record's bytes, the bytes parse as V1 of the attestation and
    -- are what it serializes to, and, for a public share, the given curve has exactly the share's
    -- length.
    pub verify_and_decode_iff :
        (verify_and_decode crypto stored trusted kind curve ≡ ok a)
        ↔ IsAttested stored trusted kind curve a
    verify_and_decode_iff = (IsAttested-of_verify, verify-of_IsAttested)
