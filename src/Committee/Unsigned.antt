-- ===== src/Committee/Unsigned.antt =====
-- `unsignedCommittee`: the committee before the network signs it, and its way back through the
-- client's check.
use Prim.Native.String.{String}
use mathlib.Core.List.{Perm, Pairwise}
use ika_pre_alpha.Prelude.{
  ◌≡◌, refl, ◌≢◌, true, some, none, List, [], arith, ok, length, inl, inr, Option-cases,
  Result-cases,
}
use ika_pre_alpha.Prelude.Bytes.{Bytes}
use ika_pre_alpha.Prelude.Int.{ℤ}
use ika_pre_alpha.Committee.{
  CommitteeMember, CommitteeCrypto, committee_signing_message, encode_committee_attestation,
  first_repeated, sort_members, unsigned_committee, verify_signed_committee,
}
use ika_pre_alpha.Committee.Codec.{decode-encode}
use ika_pre_alpha.Committee.Sorting.{DifferentKeys, sort_members-strict, sort_members-eq_of_perm}
use ika_pre_alpha.Committee.Signed.{strictly_ascending_iff, verify_signed_committee_iff}

module _ (crypto : CommitteeCrypto) where
  open crypto use {blake2b, ed25519_verify, parse_members, serialize_members}

  -- `unsignedCommittee` returns the same bytes, or fails in the same way, in whichever order it is
  -- given members with different consensus keys.
  pub unsigned_committee_perm :
      (epoch : ℤ) (l r : List CommitteeMember)
      → Perm l r
      → Pairwise DifferentKeys l
      → unsigned_committee crypto epoch l ≡ unsigned_committee crypto epoch r
  unfolding unsigned_committee
  unsigned_committee_perm epoch l r p h = rw (sort_members-eq_of_perm l r p h)

  -- What a successful `unsignedCommittee` computed.
  record IsPrepared (epoch : ℤ) (sorted : List CommitteeMember) (bytes attestation : Bytes)
      : Type 0 where
    unrepeated : first_repeated sorted ≡ none
    not_empty : sorted ≢ []
    serialized : serialize_members sorted ≡ some bytes
    encoded :
        encode_committee_attestation (record { epoch = epoch; members_digest = blake2b bytes })
        ≡ ok attestation

  IsPrepared-of_unsigned :
      (epoch : ℤ) (members : List CommitteeMember) (bytes attestation : Bytes)
      → unsigned_committee crypto epoch members ≡ ok (bytes, attestation)
      → IsPrepared epoch (sort_members members) bytes attestation
  unfolding unsigned_committee
  IsPrepared-of_unsigned epoch members bytes attestation e =
      elim (Option-cases (serialize_members (sort_members members))) [
        | inl failed ↦ absurd (ground arith)
        | inr (found, serialized) ↦
            elim (Result-cases (
              encode_committee_attestation
                (record { epoch = epoch; members_digest = blake2b found }))) [
                  | inr (error, failed) ↦ absurd (ground arith)
                  | inl (a, encoded) ↦ ground arith
                ]
      ]

  -- Where BCS parses back what it serialized, a committee that `unsignedCommittee` built passes
  -- `verifySignedCommittee` under any signature that verifies over its attestation, and comes back
  -- with its epoch and its members sorted.
  pub verify-unsigned_committee :
      ((members : List CommitteeMember) (bytes : Bytes)
        → serialize_members members ≡ some bytes
        → parse_members bytes ≡ some members)
      → (epoch : ℤ) (members : List CommitteeMember) (bytes attestation signer signature : Bytes)
        (which : String)
      → unsigned_committee crypto epoch members ≡ ok (bytes, attestation)
      → length signer ≡ 32
      → length signature ≡ 64
      → ed25519_verify signature (committee_signing_message attestation) signer ≡ some true
      → verify_signed_committee crypto
          (record {
            members = bytes;
            attestation = attestation;
            signer_noa_public_key = signer;
            signature = signature;
          })
          which
        ≡ ok (record { epoch = epoch; members = sort_members members })
  verify-unsigned_committee parse-serialize epoch members bytes attestation signer signature which
        built n k verified =
      let prepared = IsPrepared-of_unsigned epoch members bytes attestation built in
      (verify_signed_committee_iff crypto _ which _).1 (record {
        signer = n;
        signature = k;
        digest = blake2b bytes;
        attested = decode-encode _ attestation prepared.encoded;
        verified = verified;
        members = record {
          hashed = refl;
          parsed = parse-serialize _ bytes prepared.serialized;
          canonical = prepared.serialized;
          not_empty = prepared.not_empty;
          ascending =
              (strictly_ascending_iff _).0 (sort_members-strict members prepared.unrepeated);
        };
      })
