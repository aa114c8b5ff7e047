-- ===== src/Committee/Held/Contains.antt =====
-- Which keys `contains` accepts.
use ika_pre_alpha.Prelude.{
  ◌≡◌, refl, sym, ◌∙◌, ◌↔◌, Bool, true, false, Option, none, some, List, [], ◌∷◌, arith, any,
  Bool-cases, inl, inr, keep,
}
use ika_pre_alpha.Prelude.Bytes.{Bytes, same_bytes}
use ika_pre_alpha.Prelude.Int.{ℤ, eqb_ℤ, eqb_ℤ_iff, ◌≤ℤ◌}
use ika_pre_alpha.Committee.{VerifiedCommittee}
use ika_pre_alpha.Committee.Answer.{VerifiedCommittees}
use ika_pre_alpha.Committee.Held.{
  VerifiedMembers, set_epoch, delete_epoch, delete_epochs, epochs, is_old, drop_older_than,
  set_committee, set_next, add, contains,
}
use ika_pre_alpha.Committee.Held.Lookup.{
  keys_at, keys_at-set_epoch, keys_at-delete_epoch, keys_if_at, keys_at-add,
}

abbrev pub holds : Bytes → List Bytes → Bool
holds network_key keys = any (λ (key : Bytes). same_bytes key network_key) keys

-- One entry for each epoch, as a `Map` has.
abbrev pub IsMap : VerifiedMembers → Type 0
IsMap [] = Unit
IsMap ((e, keys) ∷ held) = (keys_at e held ≡ none) × IsMap held

set_epoch-IsMap :
    (epoch : ℤ) (keys : List Bytes) (held : VerifiedMembers)
    → IsMap held
    → IsMap (set_epoch epoch keys held)
unfolding set_epoch keys_at
set_epoch-IsMap epoch keys [] m = (refl, tt)
set_epoch-IsMap epoch keys ((e, k) ∷ held) (new, m) = ground (
  arith,
  eqb_ℤ_iff epoch e,
  eqb_ℤ_iff e epoch,
  keys_at-set_epoch e epoch keys held,
  set_epoch-IsMap epoch keys held m,
)

delete_epoch-IsMap :
    (epoch : ℤ) (held : VerifiedMembers) → IsMap held → IsMap (delete_epoch epoch held)
unfolding delete_epoch
delete_epoch-IsMap epoch [] m = tt
delete_epoch-IsMap epoch ((e, k) ∷ held) (new, m) =
    ground (arith, keys_at-delete_epoch e epoch held, delete_epoch-IsMap epoch held m)

delete_epochs-IsMap :
    (es : List ℤ) (held : VerifiedMembers) → IsMap held → IsMap (delete_epochs es held)
unfolding delete_epochs
delete_epochs-IsMap [] held m = m
delete_epochs-IsMap (e ∷ es) held m =
    delete_epochs-IsMap es (delete_epoch e held) (delete_epoch-IsMap e held m)

set_next-IsMap :
    (next : Option VerifiedCommittee) (held : VerifiedMembers)
    → IsMap held
    → IsMap (set_next next held)
unfolding set_next set_committee
set_next-IsMap none held m = m
set_next-IsMap (some committee) held m = set_epoch-IsMap committee.epoch _ held m

pub add-IsMap :
    (verified : VerifiedCommittees) (held : VerifiedMembers)
    → IsMap held
    → IsMap (add verified held)
unfolding add drop_older_than
add-IsMap verified held m =
    let first = set_committee verified.committee held in
    let both = set_next verified.next_committee first in
    delete_epochs-IsMap (keep (is_old verified.chain_epoch) (epochs both)) both (
      set_next-IsMap verified.next_committee first
        (set_next-IsMap (some verified.committee) held m))

-- A list of keys at some epoch of a map holds the key.
abbrev Held : Bytes → (ℤ → Option (List Bytes)) → Type 0
Held network_key at =
    (d : ℤ) × (keys : List Bytes) × (at d ≡ some keys) × (holds network_key keys ≡ true)

-- A later entry is found behind an entry of another epoch.
keys_at-skip :
    (d e : ℤ) (k keys : List Bytes) (held : VerifiedMembers)
    → keys_at e held ≡ none
    → keys_at d held ≡ some keys
    → keys_at d ((e, k) ∷ held) ≡ some keys
unfolding keys_at
keys_at-skip d e k keys held new found = elim (Bool-cases (eqb_ℤ e d)) [
  | inl same ↦ absurd (ground (arith, (eqb_ℤ_iff e d).0 same))
  | inr other ↦ rw (other, keys_at) found
]

keys_at-head :
    (e : ℤ) (k : List Bytes) (held : VerifiedMembers) → keys_at e ((e, k) ∷ held) ≡ some k
unfolding keys_at
keys_at-head e k held = rw ((eqb_ℤ_iff e e).1 refl, keys_at)

Held-of_contains :
    (network_key : Bytes) (held : VerifiedMembers)
    → IsMap held
    → contains network_key held ≡ true
    → Held network_key (λ d. keys_at d held)
unfolding contains
Held-of_contains network_key [] m h = absurd (ground arith)
Held-of_contains network_key ((e, k) ∷ held) (new, m) h = elim (Bool-cases (holds network_key k)) [
  | inl found ↦ (e, k, keys_at-head e k held, found)
  | inr other ↦
      let later : contains network_key held ≡ true = ground arith in
      let (d, keys, at, found) = Held-of_contains network_key held m later in
      (d, keys, keys_at-skip d e k keys held new at, found)
]

contains_of_keys_at :
    (network_key : Bytes) (held : VerifiedMembers) (d : ℤ) (keys : List Bytes)
    → keys_at d held ≡ some keys
    → holds network_key keys ≡ true
    → contains network_key held ≡ true
unfolding contains keys_at
contains_of_keys_at network_key [] d keys e h = cc
contains_of_keys_at network_key ((c, k) ∷ held) d keys e h =
    ground (arith, contains_of_keys_at network_key held d keys)

-- What `add` leaves at an epoch that is not below the chain's.
abbrev pub added_at : VerifiedCommittees → VerifiedMembers → ℤ → Option (List Bytes)
added_at verified held d =
    keys_if_at d verified.next_committee (keys_if_at d (some verified.committee) (keys_at d held))

keys_at-add_young :
    (d : ℤ) (verified : VerifiedCommittees) (held : VerifiedMembers)
    → verified.chain_epoch ≤ℤ d
    → keys_at d (add verified held) ≡ added_at verified held d
keys_at-add_young d verified held h =
    let young : is_old verified.chain_epoch d ≡ false = ground arith in
    keys_at-add d verified held ∙ rw young

keys_at-add_inversion :
    (d : ℤ) (verified : VerifiedCommittees) (held : VerifiedMembers) (keys : List Bytes)
    → keys_at d (add verified held) ≡ some keys
    → (verified.chain_epoch ≤ℤ d) × (added_at verified held d ≡ some keys)
keys_at-add_inversion d verified held keys h = elim (Bool-cases (is_old verified.chain_epoch d)) [
  | inl old ↦ absurd (ground (arith, rw old at (keys_at-add d verified held)))
  | inr young ↦ (ground arith, sym (rw young at (keys_at-add d verified held)) ∙ h)
]

-- After `add`, `contains` accepts a key exactly when some epoch that is not below the chain's holds
-- it, where an epoch holds the keys of the added next committee or of the added committee, if one of
-- them serves it, and otherwise what it held before. So no key of an older epoch is left.
pub contains-add_iff :
    (network_key : Bytes) (verified : VerifiedCommittees) (held : VerifiedMembers)
    → IsMap held
    → (contains network_key (add verified held) ≡ true) ↔ (
        (d : ℤ) × (keys : List Bytes) × (verified.chain_epoch ≤ℤ d)
        × (added_at verified held d ≡ some keys)
        × (holds network_key keys ≡ true))
contains-add_iff network_key verified held m = (
  λ h.
      let (d, keys, at, found) =
        Held-of_contains network_key (add verified held) (add-IsMap verified held m) h in
      let (young, added) = keys_at-add_inversion d verified held keys at in
      (d, keys, young, added, found),
  λ (d, keys, young, added, found).
      contains_of_keys_at network_key (add verified held) d keys
        (keys_at-add_young d verified held young ∙ added) found,
)
