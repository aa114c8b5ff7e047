-- ===== src/Committee.antt =====
-- sdk/core/src/grpc/committee.ts: the committee attestation and its members, as they are encoded,
-- signed and checked. The hash, the signature check and the BCS codec of the member list are the
-- third-party packages' and come in as `CommitteeCrypto`. An error is a constructor with the values
-- that its message names; an error of a read of the chain carries its text.
pub mod Codec
pub mod Order
pub mod Sorting
pub mod Signed
pub mod Unsigned
pub mod Answer
pub mod Held
pub mod Sample
mod Tests
use Prim.Native.String.{String}
use ika_pre_alpha.Prelude.{
  ℕ, ◌+◌, ◌^◌, Bool, true, false, not, ◌&&◌, ◌||◌, Option, none, some, List, [], ◌∷◌, ◌++◌, ◌==◌,
  if◌then◌else◌, length, take, drop, Result, ok, err, guard, map_err, ◌>>=◌, ◌>>◌,
}
use ika_pre_alpha.Prelude.Bytes.{Bytes, same_bytes, to_le, from_le}
use ika_pre_alpha.Prelude.Int.{ℤ, pos, negsuc, sub_ℕ, pos_part, ltb_ℤ, leb_ℤ}

pub record CommitteeMember : Type 0 where
  pub consensus_pubkey : Bytes
  pub network_pubkey : Bytes

pub record CommitteeAttestation : Type 0 where
  pub epoch : ℤ
  pub members_digest : Bytes

pub record SignedCommittee : Type 0 where
  pub members : Bytes
  pub attestation : Bytes
  pub signer_noa_public_key : Bytes
  pub signature : Bytes

pub record VerifiedCommittee : Type 0 where
  pub epoch : ℤ
  pub members : List CommitteeMember

-- What the packages give: `blake2b(…, { dkLen: 32 })`; `ed25519.verify`, `none` where it throws;
-- `CommitteeMembersBcs.parse` and `.serialize`, `none` where they throw.
pub record CommitteeCrypto : Type 0 where
  pub blake2b : Bytes → Bytes
  pub ed25519_verify : Bytes → Bytes → Bytes → Option Bool
  pub parse_members : Bytes → Option (List CommitteeMember)
  pub serialize_members : List CommitteeMember → Option Bytes

pub data CommitteeError : Type 0 where
  empty_attestation : CommitteeError
  unknown_variant : ℕ → CommitteeError
  attestation_length : ℕ → CommitteeError
  digest_length : ℕ → CommitteeError
  epoch_not_u64 : ℤ → CommitteeError
  digest_mismatch : CommitteeError
  members_do_not_decode : CommitteeError
  members_do_not_serialize : CommitteeError
  members_have_trailing_bytes : CommitteeError
  no_members : CommitteeError
  not_ascending : CommitteeError
  listed_twice : Bytes → CommitteeError
  signer_length : String → ℕ → CommitteeError
  signature_length : String → ℕ → CommitteeError
  signature_does_not_verify : Bytes → CommitteeError
  refused : String → CommitteeError → CommitteeError
  signer_not_registered : String → Bytes → CommitteeError
  no_committee : CommitteeError
  old_committee : ℤ → ℤ → CommitteeError
  chain_did_not_catch_up : ℤ → ℤ → ℕ → CommitteeError
  read_failed : String → CommitteeError

abbrev pub committee_attestation_tag : ℕ
committee_attestation_tag = 7

abbrev pub committee_attestation_length : ℕ
committee_attestation_length = 41

-- 0xFE, then the text `ika-attestation` (sdk/core/src/grpc/attestation-record.ts).
abbrev pub attestation_signing_prefix : Bytes
attestation_signing_prefix =
    0xfe ∷ b'i' ∷ b'k' ∷ b'a' ∷ b'-' ∷ b'a' ∷ b't' ∷ b't' ∷ b'e' ∷ b's' ∷ b't' ∷ b'a' ∷ b't' ∷ b'i'
    ∷ b'o' ∷ b'n' ∷ []

-- The first index where the arrays differ decides; where `left` is a prefix of `right`, the lengths.
-- A byte of `left` beyond the end of `right` differs from it, and is not below it.
pub compare_bytes : Bytes → Bytes → ℤ
compare_bytes [] right = sub_ℕ 0 (length right)
compare_bytes (x ∷ left) [] = pos 1
compare_bytes (x ∷ left) (y ∷ right) =
    if x == y then compare_bytes left right else if ltb_ℤ (pos x) (pos y) then negsuc 0 else pos 1

unfoldable pub committee_signing_message : Bytes → Bytes
committee_signing_message attestation =
    attestation_signing_prefix ++ (committee_attestation_tag ∷ attestation)

pub decode_committee_attestation : Bytes → Result CommitteeError CommitteeAttestation
decode_committee_attestation [] = err empty_attestation
decode_committee_attestation (variant ∷ rest) = do
  guard (variant == 0) (unknown_variant variant)
  let bytes = variant ∷ rest
  guard (length bytes == committee_attestation_length) (attestation_length (length bytes))
  ok (record {
    epoch = pos (from_le (take 8 (drop 1 bytes)));
    members_digest = take 32 (drop 9 bytes);
  })

pub encode_committee_attestation : CommitteeAttestation → Result CommitteeError Bytes
encode_committee_attestation attestation = do
  guard (length attestation.members_digest == 32)
      (digest_length (length attestation.members_digest))
  guard
      (not (ltb_ℤ attestation.epoch (pos 0) || ltb_ℤ (pos 0xffff_ffff_ffff_ffff) attestation.epoch))
      (epoch_not_u64 attestation.epoch)
  ok (0 ∷ (to_le 8 (pos_part attestation.epoch) ++ attestation.members_digest))

-- `every` member after the first sorts strictly after the one before it.
pub strictly_ascending : List CommitteeMember → Bool
strictly_ascending [] = true
strictly_ascending (a ∷ []) = true
strictly_ascending (a ∷ b ∷ rest) =
    ltb_ℤ (compare_bytes a.consensus_pubkey b.consensus_pubkey) (pos 0)
    && strictly_ascending (b ∷ rest)

-- The first member whose consensus key is that of the member before it.
pub first_repeated : List CommitteeMember → Option CommitteeMember
first_repeated [] = none
first_repeated (a ∷ []) = none
first_repeated (a ∷ b ∷ rest) =
    if same_bytes a.consensus_pubkey b.consensus_pubkey then some b else first_repeated (b ∷ rest)

-- `Array.prototype.sort`, which is stable, with the comparator of `unsignedCommittee`.
pub insert_member : CommitteeMember → List CommitteeMember → List CommitteeMember
insert_member m [] = m ∷ []
insert_member m (n ∷ rest) =
    if leb_ℤ (compare_bytes m.consensus_pubkey n.consensus_pubkey) (pos 0)
    then m ∷ n ∷ rest
    else n ∷ insert_member m rest

pub sort_members : List CommitteeMember → List CommitteeMember
sort_members [] = []
sort_members (m ∷ rest) = insert_member m (sort_members rest)

abbrev pub is_empty {ℓ} : {A : Type ℓ} → List A → Bool
is_empty [] = true
is_empty (x ∷ xs) = false

-- A call of a package that may throw.
abbrev pub or_throw {ℓ} : {A : Type ℓ} → Option A → CommitteeError → Result CommitteeError A
or_throw (some a) e = ok a
or_throw none e = err e

-- `verified = false` where the call throws.
abbrev pub or_false : Option Bool → Bool
or_false none = false
or_false (some b) = b

module _ (crypto : CommitteeCrypto) where
  open crypto use {blake2b, ed25519_verify, parse_members, serialize_members}

  pub committee_members_digest : Bytes → Bytes
  committee_members_digest members = blake2b members

  pub decode_committee_members : Bytes → Bytes → Result CommitteeError (List CommitteeMember)
  unfolding committee_members_digest
  decode_committee_members members members_digest = do
    guard (same_bytes (committee_members_digest members) members_digest) digest_mismatch
    decoded ← or_throw (parse_members members) members_do_not_decode
    serialized ← or_throw (serialize_members decoded) members_do_not_serialize
    guard (same_bytes serialized members) members_have_trailing_bytes
    guard (not (is_empty decoded)) no_members
    guard (strictly_ascending decoded) not_ascending
    ok decoded

  pub unsigned_committee : ℤ → List CommitteeMember → Result CommitteeError (Bytes × Bytes)
  unfolding committee_members_digest
  unsigned_committee epoch members = do
    let sorted = sort_members members
    elim (first_repeated sorted) [
      | some repeated ↦ err (listed_twice repeated.consensus_pubkey)
      | none ↦ ok tt
    ]
    guard (not (is_empty sorted)) no_members
    member_bytes ← or_throw (serialize_members sorted) members_do_not_serialize
    attestation ←
        encode_committee_attestation
          (record { epoch = epoch; members_digest = committee_members_digest member_bytes })
    ok (member_bytes, attestation)

  pub verify_signed_committee : SignedCommittee → String → Result CommitteeError VerifiedCommittee
  verify_signed_committee signed which = do
    guard (length signed.signer_noa_public_key == 32)
        (signer_length which (length signed.signer_noa_public_key))
    guard (length signed.signature == 64) (signature_length which (length signed.signature))
    attestation ← map_err (refused which) (decode_committee_attestation signed.attestation)
    let verified = or_false (
        ed25519_verify signed.signature (committee_signing_message signed.attestation)
          signed.signer_noa_public_key)
    guard verified (refused which (signature_does_not_verify signed.signer_noa_public_key))
    members ←
        map_err (refused which) (decode_committee_members signed.members attestation.members_digest)
    ok (record { epoch = attestation.epoch; members = members })
