-- ===== src/Committee/Tests.antt =====
-- Runs of the committee's checks, and the theorems about them at concrete inputs.

use mathlib.Core.List.{Mem, Pairwise, mem-singleton, not-mem-nil}
use mathlib.Core.List.Perm
use ika_pre_alpha.Prelude.{◌≡◌, refl, ◌≢◌, ◌↔◌, ◌⊎◌, true, [], ◌∷◌, arith, ok, err}
use ika_pre_alpha.Prelude.Bytes.{Bytes, to_le, from_le}
use ika_pre_alpha.Prelude.Int.{pos}
use ika_pre_alpha.Committee.Order.{sorts_at_most, sorts_before, compare_bytes_order}
use ika_pre_alpha.Committee.Codec.{decode_iff_encode}
use ika_pre_alpha.Committee.Sorting.{DifferentKeys}
use ika_pre_alpha.Committee.Unsigned.{unsigned_committee_perm, verify-unsigned_committee}
use ika_pre_alpha.Committee.Signed.{IsGenuine, verify_signed_committee_iff}
use ika_pre_alpha.Committee.{
  CommitteeMember, listed_twice, compare_bytes, decode_committee_attestation,
  encode_committee_attestation, committee_signing_message, unsigned_committee,
  verify_signed_committee, sort_members, first_repeated, insert_member, strictly_ascending,
  decode_committee_members,
}
use ika_pre_alpha.Committee.Sample.{
  key, member, serialize, parse, parse-serialize, crypto, two, one_two, member_bytes, attested,
  good_signature, signed, committee,
}

abbrev short : Bytes
short = 1 ∷ []

abbrev long : Bytes
long = 1 ∷ 2 ∷ []

abbrev late : Bytes
late = 3 ∷ []

built : unsigned_committee crypto (pos 5) two ≡ ok (member_bytes, attested)
unfolding unsigned_committee encode_committee_attestation first_repeated sort_members insert_member
    compare_bytes serialize
built = refl

repeated_member :
    unsigned_committee crypto (pos 5) (member 1 ∷ member 1 ∷ []) ≡ err (listed_twice (key 1))
unfolding unsigned_committee encode_committee_attestation first_repeated sort_members insert_member
    compare_bytes serialize
repeated_member = refl

verified : verify_signed_committee crypto signed "committee" ≡ ok committee
unfolding verify_signed_committee decode_committee_attestation decode_committee_members
    strictly_ascending compare_bytes parse serialize committee_signing_message
verified = refl

compare_bytes_order_example :
    ((sorts_at_most short long ≡ true) ⊎ (sorts_at_most long short ≡ true))
    × (sorts_at_most short long ≡ true → sorts_at_most long short ≡ true → short ≡ long)
    × (sorts_at_most short long ≡ true
        → sorts_at_most long late ≡ true
        → sorts_at_most short late ≡ true)
    × ((sorts_before short long ≡ true) ↔ ((sorts_at_most short long ≡ true) × (short ≢ long)))
compare_bytes_order_example = compare_bytes_order short long late

decode_iff_encode_example :
    (decode_committee_attestation attested
      ≡ ok (record { epoch = pos 5; members_digest = to_le 32 (from_le member_bytes) }))
    ↔ (encode_committee_attestation
          (record { epoch = pos 5; members_digest = to_le 32 (from_le member_bytes) })
        ≡ ok attested)
decode_iff_encode_example =
    decode_iff_encode (record { epoch = pos 5; members_digest = to_le 32 (from_le member_bytes) })
      attested (omega arith)

keys_differ : key 2 ≢ key 1
keys_differ e = ground arith

member_set : IsSet CommitteeMember
member_set = hlevel

only_one : (m : CommitteeMember) → Mem m (member 1 ∷ []) → DifferentKeys (member 2) m
only_one m h = rw ((mem-singleton member_set).0 h) keys_differ

two_differ : Pairwise DifferentKeys two
two_differ = Pairwise.cons only_one (Pairwise.cons (λ m h. absurd (not-mem-nil h)) Pairwise.nil)

unsigned_committee_perm_example :
    unsigned_committee crypto (pos 5) two ≡ unsigned_committee crypto (pos 5) one_two
unsigned_committee_perm_example =
    unsigned_committee_perm crypto (pos 5) two one_two (Perm.swap (member 1) (member 2) [])
      two_differ

verify-unsigned_committee_example :
    verify_signed_committee crypto signed "committee"
    ≡ ok (record { epoch = pos 5; members = sort_members two })
verify-unsigned_committee_example =
    verify-unsigned_committee crypto parse-serialize (pos 5) two member_bytes attested (key 9)
      good_signature "committee" built refl refl refl

verify_signed_committee_iff_example :
    (verify_signed_committee crypto signed "committee" ≡ ok committee)
    ↔ IsGenuine crypto signed committee
verify_signed_committee_iff_example =
    verify_signed_committee_iff crypto signed "committee" committee
