-- ===== src/Attested/Record/Messages.antt =====
-- A message that the network signs fixes the kind and the bytes.
use ika_pre_alpha.Prelude.{
  ℕ, ◌<◌, ◌==◌, if◌then◌else◌, ◌≡◌, ◌≢◌, refl, ap, ◌∙◌, sym, ◌∷◌, ◌++◌, drop, length,
  drop-length_append, arith,
}
use ika_pre_alpha.Prelude.Bytes.{Bytes}
use ika_pre_alpha.Committee.{
  attestation_signing_prefix, committee_signing_message, committee_attestation_tag,
}
use ika_pre_alpha.Attested.Kinds.{
  AttestationKind, dwallet_kind, presign_kind, partial_user_signature_kind, encrypted_share_kind,
  public_share_kind, attestation_kind_tags,
}
use ika_pre_alpha.Attested.Record.{attestation_signing_message}

abbrev kind_of_tag : ℕ → AttestationKind
kind_of_tag tag =
    if tag == 0
    then dwallet_kind
    else if tag == 1
    then presign_kind
    else if tag == 2
    then partial_user_signature_kind
    else if tag == 3
    then encrypted_share_kind
    else public_share_kind

kind_of_tag-tags : (kind : AttestationKind) → kind_of_tag (attestation_kind_tags kind) ≡ kind
kind_of_tag-tags dwallet_kind = refl
kind_of_tag-tags presign_kind = refl
kind_of_tag-tags partial_user_signature_kind = refl
kind_of_tag-tags encrypted_share_kind = refl
kind_of_tag-tags public_share_kind = refl

attestation_kind_tags-injective :
    (a b : AttestationKind) → attestation_kind_tags a ≡ attestation_kind_tags b → a ≡ b
attestation_kind_tags-injective a b h =
    sym (kind_of_tag-tags a) ∙ ap kind_of_tag h ∙ kind_of_tag-tags b

attestation_kind_tags-lt :
    (kind : AttestationKind) → attestation_kind_tags kind < committee_attestation_tag
attestation_kind_tags-lt dwallet_kind = omega arith
attestation_kind_tags-lt presign_kind = omega arith
attestation_kind_tags-lt partial_user_signature_kind = omega arith
attestation_kind_tags-lt encrypted_share_kind = omega arith
attestation_kind_tags-lt public_share_kind = omega arith

after_prefix :
    (xs ys : Bytes) → attestation_signing_prefix ++ xs ≡ attestation_signing_prefix ++ ys → xs ≡ ys
after_prefix xs ys e =
    sym (drop-length_append attestation_signing_prefix xs)
    ∙ ap (drop (length attestation_signing_prefix)) e
    ∙ drop-length_append attestation_signing_prefix ys

-- Two attestations are signed as one message only if they are of one kind and have the same bytes, and
-- no attestation of a kind is signed as the message of a committee attestation.
pub attestation_signing_message-injective :
    (kind other : AttestationKind) (bytes others : Bytes)
    → ((attestation_signing_message kind bytes ≡ attestation_signing_message other others)
        → (kind ≡ other) × (bytes ≡ others))
      × (attestation_signing_message kind bytes ≢ committee_signing_message others)
unfolding attestation_signing_message committee_signing_message
attestation_signing_message-injective kind other bytes others = (
  λ e.
      let rest =
        after_prefix (attestation_kind_tags kind ∷ bytes) (attestation_kind_tags other ∷ others)
          e in
      (attestation_kind_tags-injective kind other (ground arith), ground arith),
  λ e.
      let rest =
        after_prefix (attestation_kind_tags kind ∷ bytes) (committee_attestation_tag ∷ others) e in
      let same : attestation_kind_tags kind ≡ committee_attestation_tag = ground arith in
      omega (arith, attestation_kind_tags-lt kind),
)
