-- ===== src/Committee/Held.antt =====
-- sdk/core/src/grpc/committee.ts, `VerifiedMembers`: the network keys of the members of the
-- committees that a client holds, a `Map` from epochs to lists of keys in its order of insertion.
pub mod Lookup
pub mod Contains
mod Tests
use ika_pre_alpha.Prelude.{
  Bool, false, ◌||◌, Option, none, some, List, [], ◌∷◌, if◌then◌else◌, any, keep,
}
use ika_pre_alpha.Prelude.Bytes.{Bytes, same_bytes}
use ika_pre_alpha.Prelude.Int.{ℤ, ltb_ℤ, eqb_ℤ}
use ika_pre_alpha.Committee.{CommitteeMember, VerifiedCommittee}
use ika_pre_alpha.Committee.Answer.{VerifiedCommittees}

abbrev pub VerifiedMembers : Type 0
VerifiedMembers = List (ℤ × List Bytes)

-- `Map.set`: a new value in the place of an old one, or a new entry at the end.
pub set_epoch : ℤ → List Bytes → VerifiedMembers → VerifiedMembers
set_epoch epoch network_keys [] = (epoch, network_keys) ∷ []
set_epoch epoch network_keys ((e, k) ∷ held) =
    if eqb_ℤ e epoch then (e, network_keys) ∷ held else (e, k) ∷ set_epoch epoch network_keys held

-- `Map.delete`, which leaves no entry of that key.
pub delete_epoch : ℤ → VerifiedMembers → VerifiedMembers
delete_epoch epoch [] = []
delete_epoch epoch ((e, k) ∷ held) =
    if eqb_ℤ e epoch then delete_epoch epoch held else (e, k) ∷ delete_epoch epoch held

abbrev pub epochs : VerifiedMembers → List ℤ
epochs [] = []
epochs ((e, k) ∷ held) = e ∷ epochs held

pub delete_epochs : List ℤ → VerifiedMembers → VerifiedMembers
delete_epochs [] held = held
delete_epochs (e ∷ es) held = delete_epochs es (delete_epoch e held)

abbrev pub is_old : ℤ → ℤ → Bool
is_old chain_epoch epoch = ltb_ℤ epoch chain_epoch

pub drop_older_than : ℤ → VerifiedMembers → VerifiedMembers
unfolding delete_epochs delete_epoch
drop_older_than chain_epoch held = delete_epochs (keep (is_old chain_epoch) (epochs held)) held

abbrev pub network_keys_of : List CommitteeMember → List Bytes
network_keys_of [] = []
network_keys_of (m ∷ members) = m.network_pubkey ∷ network_keys_of members

pub set_committee : VerifiedCommittee → VerifiedMembers → VerifiedMembers
unfolding set_epoch
set_committee committee held = set_epoch committee.epoch (network_keys_of committee.members) held

pub set_next : Option VerifiedCommittee → VerifiedMembers → VerifiedMembers
set_next none held = held
set_next (some committee) held = set_committee committee held

pub add : VerifiedCommittees → VerifiedMembers → VerifiedMembers
unfolding set_committee set_next drop_older_than
add verified held =
    drop_older_than verified.chain_epoch
      (set_next verified.next_committee (set_committee verified.committee held))

pub contains : Bytes → VerifiedMembers → Bool
contains network_key [] = false
contains network_key ((e, keys) ∷ held) =
    any (λ (key : Bytes). same_bytes key network_key) keys || contains network_key held
