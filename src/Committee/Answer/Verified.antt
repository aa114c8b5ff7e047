-- ===== src/Committee/Answer/Verified.antt =====
-- What `verifyCommitteeAnswer` accepts, and which next committee it keeps.
use Prim.Native.String.{String}
use ika_pre_alpha.Prelude.{
  ℕ, suc, ◌≡◌, ◌⊎◌, ◌↔◌, refl, ◌∙◌, true, Option, none, some, arith, Result, ok, err, ok-injective,
  inl, inr, Option-cases, Result-cases, Bool-cases,
}
use mathlib.Core.Path.{subst}
use ika_pre_alpha.Prelude.Int.{ℤ, pos, ◌+ℤ◌, ◌≤ℤ◌, eqb_ℤ, eqb_ℤ_iff}
use ika_pre_alpha.Committee.{SignedCommittee, VerifiedCommittee, CommitteeCrypto, CommitteeError}
use ika_pre_alpha.Committee.Signed.{IsGenuine, verify_signed_committee_iff}
use ika_pre_alpha.Committee.Answer.{
  CommitteeAnswer, ChainRun, ChainEpochRetry, VerifiedCommittees, epoch_standing, fresh_chain_epoch,
  verify_committee_signer, verify_next, verify_signers, is_fresh, keep_next,
  verify_committee_answer,
}
use ika_pre_alpha.Committee.Answer.Epoch.{IsClock, Waited, EndsWith, fresh_chain_epoch_ends}

-- One epoch after the kept committee, and at most one after the chain's.
abbrev pub FollowsFresh : VerifiedCommittees → VerifiedCommittee → Type 0
FollowsFresh v n = (n.epoch ≡ v.committee.epoch +ℤ pos 1) × (n.epoch ≤ℤ v.chain_epoch +ℤ pos 1)

is_fresh_iff :
    (epoch chain : ℤ)
    → (is_fresh (epoch_standing epoch chain) ≡ true)
      ↔ ((chain ≤ℤ epoch) × (epoch ≤ℤ chain +ℤ pos 1))
unfolding epoch_standing
is_fresh_iff epoch chain = ground arith

succ_not_below : (c chain n : ℤ) → chain ≤ℤ c → n ≡ c +ℤ pos 1 → chain ≤ℤ n
succ_not_below c chain n h e = ground arith

keep_next_cases :
    (v : VerifiedCommittees) (n : VerifiedCommittee)
    → v.chain_epoch ≤ℤ v.committee.epoch
    → v.next_committee ≡ keep_next v.committee v.chain_epoch (some n)
    → ((v.next_committee ≡ some n) × FollowsFresh v n)
      ⊎ ((v.next_committee ≡ none) × ¬ FollowsFresh v n)
unfolding keep_next
keep_next_cases v n h k = elim (Bool-cases (eqb_ℤ n.epoch (v.committee.epoch +ℤ pos 1))) [
  | inl follows ↦ elim (Bool-cases (is_fresh (epoch_standing n.epoch v.chain_epoch))) [
    | inl f ↦ inl (
      k ∙ rw (follows, f),
      ((eqb_ℤ_iff _ _).0 follows, ((is_fresh_iff n.epoch v.chain_epoch).0 f).1),
    )
    | inr f ↦ inr (
      k ∙ rw (follows, f),
      λ q. absurd (
          ground (
            arith,
            (is_fresh_iff n.epoch v.chain_epoch).1
                (succ_not_below v.committee.epoch v.chain_epoch n.epoch h q.0, q.1),
          )),
    )
  ]
  | inr other ↦ inr (
    k ∙ rw other,
    λ q. absurd (ground (arith, (eqb_ℤ_iff n.epoch (v.committee.epoch +ℤ pos 1)).1 q.0)),
  )
]

module _ (crypto : CommitteeCrypto) where
  -- A served committee that is genuine, and whose signer the chain registers.
  pub record IsServed (run : ChainRun) (call : ℕ) (signed : SignedCommittee)
      (committee : VerifiedCommittee) : Type 0 where
    pub genuine : IsGenuine crypto signed committee
    pub registered : run.is_registered_network_key call signed.signer_noa_public_key ≡ ok true

  IsServed-of_verify :
      (signed : SignedCommittee) (which : String) (run : ChainRun) (call : ℕ)
      (committee : VerifiedCommittee)
      → verify_committee_signer crypto signed which run call ≡ ok committee
      → IsServed run call signed committee
  unfolding verify_committee_signer
  IsServed-of_verify signed which run call committee e = record {
    genuine = (verify_signed_committee_iff crypto signed which committee).0 (ground arith);
    registered = ground arith;
  }

  -- The next committee of the result: none where none was served; otherwise the served one passes
  -- the checks, and is kept or left out.
  abbrev pub NextIs : ChainRun → VerifiedCommittees → Option SignedCommittee → Type 0
  NextIs run v none = v.next_committee ≡ none
  NextIs run v (some signed) =
      (n : VerifiedCommittee) × IsServed run 1 signed n
      × (((v.next_committee ≡ some n) × FollowsFresh v n)
          ⊎ ((v.next_committee ≡ none) × ¬ FollowsFresh v n))

  pub record IsChecked (answer : CommitteeAnswer) (run : ChainRun) (v : VerifiedCommittees)
      : Type 0 where
    pub served : SignedCommittee
    pub answered : answer.committee ≡ some served
    pub committee : IsServed run 0 served v.committee
    pub read : (j : ℕ) × (run.current_epoch j ≡ ok v.chain_epoch)
    pub not_old : v.chain_epoch ≤ℤ v.committee.epoch
    pub not_ahead : v.committee.epoch ≤ℤ v.chain_epoch +ℤ pos 1
    pub next : NextIs run v answer.next_committee

  signers_inversion :
      (answer : CommitteeAnswer) (run : ChainRun) (c : VerifiedCommittee)
      (n : Option VerifiedCommittee)
      → verify_signers crypto answer run ≡ ok (c, n)
      → (s : SignedCommittee) × (answer.committee ≡ some s)
        × IsServed run 0 s c
        × (verify_next crypto answer.next_committee run ≡ ok n)
  unfolding verify_signers
  signers_inversion answer run c n e = elim (Option-cases answer.committee) [
    | inl missing ↦ absurd (ground arith)
    | inr (s, served) ↦
        (s, served, IsServed-of_verify s "committee" run 0 c (ground arith), ground arith)
  ]

  NextIs-of_verify :
      (run : ChainRun) (v : VerifiedCommittees) (signed : Option SignedCommittee)
      (n : Option VerifiedCommittee)
      → verify_next crypto signed run ≡ ok n
      → v.chain_epoch ≤ℤ v.committee.epoch
      → v.next_committee ≡ keep_next v.committee v.chain_epoch n
      → NextIs run v signed
  unfolding verify_next keep_next
  NextIs-of_verify run v none n e h k = ground arith
  NextIs-of_verify run v (some signed) none e h k = absurd (ground arith)
  NextIs-of_verify run v (some signed) (some n) e h k = (
    n,
    IsServed-of_verify signed "next committee" run 1 n (ground arith),
    keep_next_cases v n h k,
  )

  IsChecked-of_run :
      (answer : CommitteeAnswer) (run : ChainRun) (c : VerifiedCommittee)
      (n : Option VerifiedCommittee) (chain : ℤ) (j : ℕ)
      → verify_signers crypto answer run ≡ ok (c, n)
      → run.current_epoch j ≡ ok chain
      → chain ≤ℤ c.epoch
      → c.epoch ≤ℤ chain +ℤ pos 1
      → IsChecked answer run
          (record { chain_epoch = chain; committee = c; next_committee = keep_next c chain n })
  IsChecked-of_run answer run c n chain j checked read low high =
      let (s, answered, served, next) = signers_inversion answer run c n checked in
      record {
        served = s;
        answered = answered;
        committee = served;
        read = (j, read);
        not_old = low;
        not_ahead = high;
        next = NextIs-of_verify run _ answer.next_committee n next low refl;
      }

  -- With a clock that runs, `verifyCommitteeAnswer` ends with a result on every answer. A result that
  -- is no error holds a committee that was served, is genuine and is signed by a key that the chain
  -- registers, whose epoch is the chain's epoch, as a read showed it, or the one after. A served next
  -- committee is genuine and signed by a registered key too, and it is in the result exactly when its
  -- epoch is the committee's plus one and at most one after the chain's.
  pub verify_committee_answer_ends :
      (answer : CommitteeAnswer) (run : ChainRun) (retry : ChainEpochRetry)
      → IsClock run retry
      → (r : Result CommitteeError VerifiedCommittees) × (verify_committee_answer crypto answer run
            retry
          ≡ some r)
        × ((v : VerifiedCommittees) → r ≡ ok v → IsChecked answer run v)
  unfolding verify_committee_answer
  verify_committee_answer_ends answer run retry clock =
      elim (Result-cases (verify_signers crypto answer run)) [
        | inr (e, failed) ↦ (err e, rw (failed, verify_committee_answer), λ v p. cc)
        | inl ((c, n), checked) ↦
            finish c n checked (fresh_chain_epoch_ends c.epoch run retry clock)
      ]
    where
      finish :
          (c : VerifiedCommittee) (n : Option VerifiedCommittee)
          → verify_signers crypto answer run ≡ ok (c, n)
          → (x : Result CommitteeError ℤ) × (j : ℕ) × (fresh_chain_epoch c.epoch run retry
                (suc retry.budget_ms)
                0
              ≡ some x)
            × Waited c.epoch run retry 0 j
            × EndsWith c.epoch run retry j x
          → (r : Result CommitteeError VerifiedCommittees) × (verify_committee_answer crypto answer
                run retry
              ≡ some r)
            × ((v : VerifiedCommittees) → r ≡ ok v → IsChecked answer run v)
      finish c n checked (err e, j, ends, _, _) =
          (err e, rw (checked, ends, verify_committee_answer), λ v p. cc)
      finish c n checked (ok chain, j, ends, _, (read, low, high)) = (
        ok (record { chain_epoch = chain; committee = c; next_committee = keep_next c chain n }),
        rw (checked, ends, verify_committee_answer),
        λ v p.
            subst (IsChecked answer run) (ok-injective p)
              (IsChecked-of_run answer run c n chain j checked read low high),
      )
