-- ===== src/Committee/Sample.antt =====
-- Stand-ins for the packages, for tests: a checksum of 32 bytes, a signature check on the first byte,
-- and BCS's encoding of a list of fewer than 128 members; and a committee signed with them.

use mathlib.Core.Option
use ika_pre_alpha.Prelude.{
  ℕ, zero, suc, ◌+◌, ◌≡◌, refl, Bool, true, ◌&&◌, Option, none, some, List, [], ◌∷◌, ◌++◌, arith,
  ltb, ◌==◌, if◌then◌else◌, length, take, drop, take-length_append, drop-length_append,
  Option-cases, inl, inr,
}
use ika_pre_alpha.Prelude.Bytes.{Bytes, to_le, from_le}
use ika_pre_alpha.Prelude.Int.{pos}
use ika_pre_alpha.Committee.{CommitteeMember, CommitteeCrypto, SignedCommittee, VerifiedCommittee}

abbrev pub key : ℕ → Bytes
key n = to_le 32 n

abbrev pub member : ℕ → CommitteeMember
member n = record { consensus_pubkey = key n; network_pubkey = key (n + 100) }

abbrev pub is_whole : CommitteeMember → Bool
is_whole m = length m.consensus_pubkey == 32 && length m.network_pubkey == 32

-- The members' bytes, where every key has 32.
bodies : List CommitteeMember → Option Bytes
bodies [] = some []
bodies (m ∷ members) =
    if is_whole m
    then Option.map (λ rest. m.consensus_pubkey ++ (m.network_pubkey ++ rest)) (bodies members)
    else none

unfoldable pub serialize : List CommitteeMember → Option Bytes
unfolding bodies
serialize members =
    if ltb (length members) 128
    then Option.map (λ rest. length members ∷ rest) (bodies members)
    else none

take_members : ℕ → Bytes → Option (List CommitteeMember)
take_members zero [] = some []
take_members zero (b ∷ bytes) = none
take_members (suc n) bytes =
    Option.map
      (λ rest.
        record { consensus_pubkey = take 32 bytes; network_pubkey = take 32 (drop 32 bytes) }
        ∷ rest)
      (take_members n (drop 32 (drop 32 bytes)))

unfoldable pub parse : Bytes → Option (List CommitteeMember)
unfolding take_members
parse [] = none
parse (n ∷ bytes) = take_members n bytes

split_at :
    (n : ℕ) (k rest : Bytes) → length k ≡ n → (take n (k ++ rest) ≡ k) × (drop n (k ++ rest) ≡ rest)
split_at n k rest h = (rw h at (take-length_append k rest), rw h at (drop-length_append k rest))

take_members_step :
    (n : ℕ) (m : CommitteeMember) (rest : Bytes) (members : List CommitteeMember)
    → is_whole m ≡ true
    → take_members n rest ≡ some members
    → take_members (suc n) (m.consensus_pubkey ++ (m.network_pubkey ++ rest)) ≡ some (m ∷ members)
unfolding take_members
take_members_step n m rest members whole e =
    let (c, after) = split_at 32 m.consensus_pubkey (m.network_pubkey ++ rest) (ground arith) in
    let (k, last) = split_at 32 m.network_pubkey rest (ground arith) in rw (c, after, k, last, e)

take_members-bodies :
    (members : List CommitteeMember) (bytes : Bytes)
    → bodies members ≡ some bytes
    → take_members (length members) bytes ≡ some members
unfolding bodies
take_members-bodies [] bytes e =
    let split : bytes ≡ [] = ground arith in rw split (unfold take_members in refl)
take_members-bodies (m ∷ members) bytes e = elim (Option-cases (bodies members)) [
  | inl failed ↦ absurd (ground arith)
  | inr (rest, found) ↦
      let split : bytes ≡ m.consensus_pubkey ++ (m.network_pubkey ++ rest) = ground arith in
      rw split (
        take_members_step (length members) m rest members (ground arith)
          (take_members-bodies members rest found))
]

pub parse-serialize :
    (members : List CommitteeMember) (bytes : Bytes)
    → serialize members ≡ some bytes
    → parse bytes ≡ some members
unfolding serialize parse
parse-serialize members bytes e = elim (Option-cases (bodies members)) [
  | inl failed ↦ absurd (ground arith)
  | inr (rest, found) ↦
      let split : bytes ≡ length members ∷ rest = ground arith in
      rw split (take_members-bodies members rest found)
]

abbrev pub verify : Bytes → Bytes → Bytes → Option Bool
verify [] message signer = none
verify (b ∷ signature) message signer = some (b == 1)

abbrev pub crypto : CommitteeCrypto
crypto = record {
  blake2b = λ bytes. to_le 32 (from_le bytes);
  ed25519_verify = verify;
  parse_members = parse;
  serialize_members = serialize;
}

abbrev pub two : List CommitteeMember
two = member 2 ∷ member 1 ∷ []

abbrev pub one_two : List CommitteeMember
one_two = member 1 ∷ member 2 ∷ []

abbrev pub body : CommitteeMember → Bytes
body m = m.consensus_pubkey ++ m.network_pubkey

abbrev pub member_bytes : Bytes
member_bytes = 2 ∷ (body (member 1) ++ body (member 2))

abbrev pub attested : Bytes
attested = 0 ∷ (to_le 8 5 ++ to_le 32 (from_le member_bytes))

abbrev pub good_signature : Bytes
good_signature = 1 ∷ to_le 63 0

abbrev pub signed : SignedCommittee
signed = record {
  members = member_bytes;
  attestation = attested;
  signer_noa_public_key = key 9;
  signature = good_signature;
}

abbrev pub committee : VerifiedCommittee
committee = record { epoch = pos 5; members = one_two }
