-- ===== src/Committee/Signed.antt =====
-- What `verifySignedCommittee` accepts.
use Prim.Native.String.{String}
use ika_pre_alpha.Prelude.{
  ◌∷◌, ap, sym, ◌∙◌, ◌≡◌, ◌≢◌, ◌↔◌, true, some, List, [], arith, ok, length, inl, inr, Option-cases,
  Result-cases,
}
use ika_pre_alpha.Prelude.Bytes.{Bytes, same_bytes_iff, same_bytes_refl}
use ika_pre_alpha.Committee.Order.{IsBefore, sorts_before_iff}
use ika_pre_alpha.Committee.{
  CommitteeMember, SignedCommittee, VerifiedCommittee, CommitteeCrypto, committee_signing_message,
  decode_committee_attestation, strictly_ascending, decode_committee_members,
  verify_signed_committee,
}

-- Each member's consensus key is before the next one's in the dictionary order.
abbrev pub AreAscending : List CommitteeMember → Type 0
AreAscending [] = Unit
AreAscending (a ∷ []) = Unit
AreAscending (a ∷ b ∷ rest) =
    IsBefore a.consensus_pubkey b.consensus_pubkey × AreAscending (b ∷ rest)

pub strictly_ascending_iff :
    (members : List CommitteeMember) → (strictly_ascending members ≡ true) ↔ AreAscending members
unfolding strictly_ascending
strictly_ascending_iff [] = ground arith
strictly_ascending_iff (a ∷ []) = ground arith
strictly_ascending_iff (a ∷ b ∷ rest) = (
  λ h. (
    (sorts_before_iff a.consensus_pubkey b.consensus_pubkey).0 (ground arith),
    (strictly_ascending_iff (b ∷ rest)).0 (ground arith),
  ),
  λ (now, later).
      let first = (sorts_before_iff a.consensus_pubkey b.consensus_pubkey).1 now in
      let others = (strictly_ascending_iff (b ∷ rest)).1 later in ground arith,
)

module _ (crypto : CommitteeCrypto) where
  open crypto use {blake2b, ed25519_verify, parse_members, serialize_members}

  -- The member list's bytes hash to the digest and are the only bytes of a list that is not empty
  -- and strictly ascending.
  pub record AreMembers (bytes digest : Bytes) (members : List CommitteeMember) : Type 0 where
    pub hashed : blake2b bytes ≡ digest
    pub parsed : parse_members bytes ≡ some members
    pub canonical : serialize_members members ≡ some bytes
    pub not_empty : members ≢ []
    pub ascending : AreAscending members

  AreMembers-of_decode :
      (bytes digest : Bytes) (members : List CommitteeMember)
      → decode_committee_members crypto bytes digest ≡ ok members
      → AreMembers bytes digest members
  unfolding decode_committee_members
  AreMembers-of_decode bytes digest members e = elim (Option-cases (parse_members bytes)) [
    | inl failed ↦ absurd (ground arith)
    | inr (decoded, parsed) ↦ elim (Option-cases (serialize_members decoded)) [
      | inl failed ↦ absurd (ground arith)
      | inr (serialized, bytes_of) ↦
          let same : decoded ≡ members = ground arith in
          record {
            hashed = (same_bytes_iff (blake2b bytes) digest).0 (ground arith);
            parsed = parsed ∙ ap some same;
            canonical =
                ap serialize_members (sym same)
                ∙ bytes_of
                ∙ ap some ((same_bytes_iff serialized bytes).0 (ground arith));
            not_empty = ground arith;
            ascending = (strictly_ascending_iff members).0 (ground arith);
          }
    ]
  ]

  decode-of_AreMembers :
      (bytes digest : Bytes) (members : List CommitteeMember)
      → AreMembers bytes digest members
      → decode_committee_members crypto bytes digest ≡ ok members
  unfolding decode_committee_members
  decode-of_AreMembers bytes digest members h =
      let ascending = (strictly_ascending_iff members).1 h.ascending in
      ground (arith, same_bytes_refl digest, same_bytes_refl bytes)

  -- Signed by the named signer, over exactly this attestation, with these members.
  pub record IsGenuine (signed : SignedCommittee) (committee : VerifiedCommittee) : Type 0 where
    pub signer : length signed.signer_noa_public_key ≡ 32
    pub signature : length signed.signature ≡ 64
    pub digest : Bytes
    pub attested :
        decode_committee_attestation signed.attestation
        ≡ ok (record { epoch = committee.epoch; members_digest = digest })
    pub verified :
        ed25519_verify signed.signature
          (committee_signing_message signed.attestation)
          signed.signer_noa_public_key
        ≡ some true
    pub members : AreMembers signed.members digest committee.members

  IsGenuine-of_verify :
      (signed : SignedCommittee) (which : String) (committee : VerifiedCommittee)
      → verify_signed_committee crypto signed which ≡ ok committee
      → IsGenuine signed committee
  unfolding verify_signed_committee
  IsGenuine-of_verify signed which committee e =
      elim (Result-cases (decode_committee_attestation signed.attestation)) [
        | inr (error, failed) ↦ absurd (ground arith)
        | inl (a, attested) ↦ record {
          signer = ground arith;
          signature = ground arith;
          digest = a.members_digest;
          attested = ground arith;
          verified = ground arith;
          members = AreMembers-of_decode _ _ _ (ground arith);
        }
      ]

  verify-of_IsGenuine :
      (signed : SignedCommittee) (which : String) (committee : VerifiedCommittee)
      → IsGenuine signed committee
      → verify_signed_committee crypto signed which ≡ ok committee
  unfolding verify_signed_committee
  verify-of_IsGenuine signed which committee h =
      ground (arith, decode-of_AreMembers signed.members h.digest committee.members h.members)

  -- `verifySignedCommittee` returns a committee exactly when the signer has 32 bytes and the
  -- signature 64, the attestation decodes strictly to the committee's epoch and some digest, the
  -- signature verifies under the signer over the attestation's signing message, and the served bytes
  -- hash to that digest and are the one encoding of the committee's members, which are not empty
  -- and strictly ascending by consensus key, in the dictionary order.
  pub verify_signed_committee_iff :
      (signed : SignedCommittee) (which : String) (committee : VerifiedCommittee)
      → (verify_signed_committee crypto signed which ≡ ok committee) ↔ IsGenuine signed committee
  verify_signed_committee_iff signed which committee =
      (IsGenuine-of_verify signed which committee, verify-of_IsGenuine signed which committee)
