-- ===== src/Committee/Sorting.antt =====
-- The sort of `unsignedCommittee`: what it returns, and that it does not depend on the given order.
use mathlib.Core.List.{Perm, Permᴰ, Pairwise, mem-cons_self}
use mathlib.Core.List.Perm
use mathlib.Core.Path.{ap₂}
use mathlib.Core.List.Permᴰ
use mathlib.Core.Logic.{∥∥₁_elim}
use ika_pre_alpha.Prelude.{
  ◌≡◌, refl, sym, ◌∙◌, ◌≢◌, Bool, true, ◌&&◌, none, List, [], ◌∷◌, arith, Bool-cases, inl, inr,
}
use ika_pre_alpha.Committee.{
  CommitteeMember, strictly_ascending, first_repeated, insert_member, sort_members,
}
use ika_pre_alpha.Committee.Order.{
  sorts_at_most, sorts_at_most_total, sorts_at_most_antisymm, sorts_at_most_trans,
  sorts_before_of_ne,
}

insert_member-perm :
    (m : CommitteeMember) (l : List CommitteeMember) → Perm (insert_member m l) (m ∷ l)
unfolding insert_member
insert_member-perm m [] = Perm.rfl
insert_member-perm m (n ∷ l) =
    elim (Bool-cases (sorts_at_most m.consensus_pubkey n.consensus_pubkey)) [
      | inl le ↦ rw (le, insert_member) Perm.rfl
      | inr gt ↦
          rw (gt, insert_member)
            (Perm.trans (Perm.cons n (insert_member-perm m l)) (Perm.swap m n l))
    ]

pub sort_members-perm : (l : List CommitteeMember) → Perm (sort_members l) l
unfolding sort_members
sort_members-perm [] = Perm.rfl
sort_members-perm (m ∷ l) =
    Perm.trans (insert_member-perm m (sort_members l)) (Perm.cons m (sort_members-perm l))

-- Neighbours sort at most at one another.
abbrev ascending : List CommitteeMember → Bool
ascending [] = true
ascending (a ∷ []) = true
ascending (a ∷ b ∷ rest) =
    sorts_at_most a.consensus_pubkey b.consensus_pubkey && ascending (b ∷ rest)

insert_member-ascending :
    (m : CommitteeMember) (l : List CommitteeMember)
    → ascending l ≡ true
    → ascending (insert_member m l) ≡ true
unfolding insert_member
insert_member-ascending m [] h = refl
insert_member-ascending m (a ∷ []) h =
    ground (arith, sorts_at_most_total m.consensus_pubkey a.consensus_pubkey)
insert_member-ascending m (a ∷ b ∷ l) h = ground (
  arith,
  sorts_at_most_total m.consensus_pubkey a.consensus_pubkey,
  insert_member-ascending m (b ∷ l),
)

sort_members-ascending : (l : List CommitteeMember) → ascending (sort_members l) ≡ true
unfolding sort_members
sort_members-ascending [] = refl
sort_members-ascending (m ∷ l) =
    insert_member-ascending m (sort_members l) (sort_members-ascending l)

-- With no member repeated beside itself, ascending is strictly ascending.
strict_of_ascending :
    (l : List CommitteeMember)
    → ascending l ≡ true
    → first_repeated l ≡ none
    → strictly_ascending l ≡ true
unfolding first_repeated strictly_ascending
strict_of_ascending [] h k = refl
strict_of_ascending (a ∷ []) h k = refl
strict_of_ascending (a ∷ b ∷ l) h k =
    ground
      (arith, sorts_before_of_ne a.consensus_pubkey b.consensus_pubkey, strict_of_ascending (b ∷ l))

pub sort_members-strict :
    (l : List CommitteeMember)
    → first_repeated (sort_members l) ≡ none
    → strictly_ascending (sort_members l) ≡ true
sort_members-strict l h = strict_of_ascending (sort_members l) (sort_members-ascending l) h

-- Two insertions of members with different keys can be made in either order.
insert_member_comm :
    (a b : CommitteeMember) (l : List CommitteeMember)
    → a.consensus_pubkey ≢ b.consensus_pubkey
    → insert_member a (insert_member b l) ≡ insert_member b (insert_member a l)
unfolding insert_member
insert_member_comm a b [] h = ground (
  arith,
  sorts_at_most_total a.consensus_pubkey b.consensus_pubkey,
  sorts_at_most_antisymm a.consensus_pubkey b.consensus_pubkey,
)
insert_member_comm a b (c ∷ l) h = ground (
  arith,
  sorts_at_most_total a.consensus_pubkey b.consensus_pubkey,
  sorts_at_most_antisymm a.consensus_pubkey b.consensus_pubkey,
  sorts_at_most_trans a.consensus_pubkey b.consensus_pubkey c.consensus_pubkey,
  sorts_at_most_trans b.consensus_pubkey a.consensus_pubkey c.consensus_pubkey,
  insert_member_comm a b l h,
)

-- No two members have the same consensus key.
abbrev pub DifferentKeys : CommitteeMember → CommitteeMember → Type 0
DifferentKeys a b = a.consensus_pubkey ≢ b.consensus_pubkey

DifferentKeys-prop : (a b : CommitteeMember) → IsProp (DifferentKeys a b)
DifferentKeys-prop a b = hlevel

DifferentKeys-symm : (a b : CommitteeMember) → DifferentKeys a b → DifferentKeys b a
DifferentKeys-symm a b h e = h (sym e)

sort_members_of_Permᴰ :
    {l r : List CommitteeMember}
    → Permᴰ l r
    → Pairwise DifferentKeys l
    → sort_members l ≡ sort_members r
unfolding sort_members
sort_members_of_Permᴰ Permᴰ.nil h = refl
sort_members_of_Permᴰ (Permᴰ.cons e p) (Pairwise.cons _ h) =
    ap₂ insert_member e (sort_members_of_Permᴰ p h)
sort_members_of_Permᴰ (Permᴰ.swap {a} {b} {l = l} e f) (Pairwise.cons h _) =
    insert_member_comm a b (sort_members l) (h b mem-cons_self)
    ∙ ap₂ (λ x y. insert_member x (insert_member y (sort_members l))) f e
sort_members_of_Permᴰ (Permᴰ.trans p q) h =
    sort_members_of_Permᴰ p h
    ∙ sort_members_of_Permᴰ q (Permᴰ.pairwise DifferentKeys-prop DifferentKeys-symm p h)

members_set : IsSet (List CommitteeMember)
members_set = hlevel

-- Members with different keys are sorted to one list, in whichever order they are given.
pub sort_members-eq_of_perm :
    (l r : List CommitteeMember)
    → Perm l r
    → Pairwise DifferentKeys l
    → sort_members l ≡ sort_members r
sort_members-eq_of_perm l r p h =
    ∥∥₁_elim p (members_set (sort_members l) (sort_members r)) (λ q. sort_members_of_Permᴰ q h)
