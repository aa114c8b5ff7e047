-- ===== src/Committee/Held/Lookup.antt =====
-- What the map holds at each epoch after every operation.
use ika_pre_alpha.Prelude.{
  ◌≡◌, refl, ap, ◌∙◌, ◌&&◌, Bool, false, Option, none, some, List, [], ◌∷◌, arith, if◌then◌else◌,
  any, keep, Bool-cases, inl, inr,
}
use ika_pre_alpha.Prelude.Bytes.{Bytes}
use ika_pre_alpha.Prelude.Int.{ℤ, eqb_ℤ, eqb_ℤ_iff}
use ika_pre_alpha.Committee.{VerifiedCommittee}
use ika_pre_alpha.Committee.Answer.{VerifiedCommittees}
use ika_pre_alpha.Committee.Held.{
  VerifiedMembers, set_epoch, delete_epoch, delete_epochs, epochs, is_old, drop_older_than,
  network_keys_of, set_committee, set_next, add,
}

-- `Map.get`.
unfoldable pub keys_at : ℤ → VerifiedMembers → Option (List Bytes)
keys_at epoch [] = none
keys_at epoch ((e, keys) ∷ held) = if eqb_ℤ e epoch then some keys else keys_at epoch held

pub keys_at-set_epoch :
    (d epoch : ℤ) (keys : List Bytes) (held : VerifiedMembers)
    → keys_at d (set_epoch epoch keys held) ≡ (if eqb_ℤ epoch d then some keys else keys_at d held)
unfolding keys_at set_epoch
keys_at-set_epoch d epoch keys [] = refl
keys_at-set_epoch d epoch keys ((e, k) ∷ held) = ground (
  arith,
  eqb_ℤ_iff e epoch,
  eqb_ℤ_iff e d,
  eqb_ℤ_iff epoch d,
  keys_at-set_epoch d epoch keys held,
)

pub keys_at-delete_epoch :
    (d epoch : ℤ) (held : VerifiedMembers)
    → keys_at d (delete_epoch epoch held) ≡ (if eqb_ℤ epoch d then none else keys_at d held)
unfolding keys_at delete_epoch
keys_at-delete_epoch d epoch [] = ground arith
keys_at-delete_epoch d epoch ((e, k) ∷ held) =
    ground (
      arith,
      eqb_ℤ_iff e epoch,
      eqb_ℤ_iff e d,
      eqb_ℤ_iff epoch d,
      keys_at-delete_epoch d epoch held,
    )

abbrev listed : ℤ → List ℤ → Bool
listed d es = any (λ (e : ℤ). eqb_ℤ e d) es

keys_at-delete_epochs :
    (d : ℤ) (es : List ℤ) (held : VerifiedMembers)
    → keys_at d (delete_epochs es held) ≡ (if listed d es then none else keys_at d held)
unfolding delete_epochs
keys_at-delete_epochs d [] held = refl
keys_at-delete_epochs d (e ∷ es) held =
    ground (arith, keys_at-delete_epochs d es (delete_epoch e held), keys_at-delete_epoch d e held)

listed-keep_old :
    (d chain : ℤ) (es : List ℤ)
    → listed d (keep (is_old chain) es) ≡ (is_old chain d && listed d es)
listed-keep_old d chain [] = ground arith
listed-keep_old d chain (e ∷ es) = elim (Bool-cases (is_old chain e)) [
  | inl old ↦ rw old (ground (arith, eqb_ℤ_iff e d, listed-keep_old d chain es))
  | inr young ↦ rw young (ground (arith, eqb_ℤ_iff e d, listed-keep_old d chain es))
]

keys_at_of_not_listed :
    (d : ℤ) (held : VerifiedMembers) → listed d (epochs held) ≡ false → keys_at d held ≡ none
unfolding keys_at
keys_at_of_not_listed d [] h = refl
keys_at_of_not_listed d ((e, k) ∷ held) h = ground (arith, keys_at_of_not_listed d held)

pub keys_at-drop_older_than :
    (d chain : ℤ) (held : VerifiedMembers)
    → keys_at d (drop_older_than chain held) ≡ (if is_old chain d then none else keys_at d held)
unfolding drop_older_than
keys_at-drop_older_than d chain held = ground (
  arith,
  keys_at-delete_epochs d (keep (is_old chain) (epochs held)) held,
  listed-keep_old d chain (epochs held),
  keys_at_of_not_listed d held,
)

-- The keys of a committee that serves the epoch.
abbrev pub keys_if_at : ℤ → Option VerifiedCommittee → Option (List Bytes) → Option (List Bytes)
keys_if_at d none otherwise = otherwise
keys_if_at d (some committee) otherwise =
    if eqb_ℤ committee.epoch d then some (network_keys_of committee.members) else otherwise

keys_at-set_committee :
    (d : ℤ) (committee : VerifiedCommittee) (held : VerifiedMembers)
    → keys_at d (set_committee committee held) ≡ keys_if_at d (some committee) (keys_at d held)
unfolding set_committee
keys_at-set_committee d committee held =
    keys_at-set_epoch d committee.epoch (network_keys_of committee.members) held

keys_at-set_next :
    (d : ℤ) (next : Option VerifiedCommittee) (held : VerifiedMembers)
    → keys_at d (set_next next held) ≡ keys_if_at d next (keys_at d held)
unfolding set_next
keys_at-set_next d none held = refl
keys_at-set_next d (some committee) held = keys_at-set_committee d committee held

-- After `add`, the map holds at an epoch: nothing, if the epoch is below the chain's; else the keys of
-- the added next committee, or of the added committee, if it serves that epoch; else what it held.
pub keys_at-add :
    (d : ℤ) (verified : VerifiedCommittees) (held : VerifiedMembers)
    → keys_at d (add verified held) ≡ (
        if is_old verified.chain_epoch d
        then none
        else keys_if_at d verified.next_committee
            (keys_if_at d (some verified.committee) (keys_at d held)))
unfolding add
keys_at-add d verified held =
    let first = set_committee verified.committee held in
    keys_at-drop_older_than d verified.chain_epoch (set_next verified.next_committee first)
    ∙ ap (λ k. if is_old verified.chain_epoch d then none else k)
        (keys_at-set_next d verified.next_committee first
          ∙ ap (keys_if_at d verified.next_committee)
              (keys_at-set_committee d verified.committee held))
