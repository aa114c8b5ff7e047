-- ===== src/Committee/Answer.antt =====
-- sdk/core/src/grpc/committee.ts, `verifyCommitteeAnswer`: a validator's answer checked against the
-- client's own chain. What the chain reader and the clock answer during the call is a `ChainRun`.
-- `none` means that the fuel of the loop ran out, which never happens with the fuel given here.
pub mod Epoch
pub mod Verified
mod Tests
use Prim.Native.String.{String}
use ika_pre_alpha.Prelude.{
  ℕ, zero, suc, ◌+◌, ◌≤◌, ◌≡◌, ◌≢◌, ◌↔◌, refl, Bool, true, false, ◌&&◌, Option, none, some, arith,
  ltb, if◌then◌else◌, Result, ok, err, guard, map_err, ◌>>=◌, ◌>>◌, inl, inr, Option-cases,
  Result-cases,
}
use ika_pre_alpha.Prelude.Bytes.{Bytes}
use ika_pre_alpha.Prelude.Int.{ℤ, pos, ◌+ℤ◌, ◌-ℤ◌, ◌≤ℤ◌, ltb_ℤ, leb_ℤ, eqb_ℤ, eqb_ℤ_iff}
use ika_pre_alpha.Committee.{
  SignedCommittee, VerifiedCommittee, CommitteeCrypto, CommitteeError, signer_not_registered,
  no_committee, old_committee, chain_did_not_catch_up, read_failed, verify_signed_committee,
}

pub record CommitteeAnswer : Type 0 where
  pub committee : Option SignedCommittee
  pub next_committee : Option SignedCommittee

-- The answers of `isRegisteredNetworkKey`, by the number of the call, and of the reads of the epoch,
-- by their number; `Date.now()` at the start of the loop and after each read, in milliseconds.
pub record ChainRun : Type 0 where
  pub is_registered_network_key : ℕ → Bytes → Result String Bool
  pub current_epoch : ℕ → Result String ℤ
  pub started : ℕ
  pub now : ℕ → ℕ

pub record ChainEpochRetry : Type 0 where
  pub pause_ms : ℕ
  pub budget_ms : ℕ

abbrev pub chain_epoch_retry : ChainEpochRetry
chain_epoch_retry = record { pause_ms = 5_000; budget_ms = 60_000 }

pub data EpochStanding : Type 0 where
  old fresh ahead : EpochStanding

pub epoch_standing : ℤ → ℤ → EpochStanding
epoch_standing epoch chain_epoch =
    if ltb_ℤ epoch chain_epoch
    then old
    else if leb_ℤ (epoch -ℤ chain_epoch) (pos 1)
    then fresh
    else ahead

pub record VerifiedCommittees : Type 0 where
  pub chain_epoch : ℤ
  pub committee : VerifiedCommittee
  pub next_committee : Option VerifiedCommittee

abbrev reading {ℓ} : {A : Type ℓ} → Result String A → Result CommitteeError A
reading = map_err read_failed

-- The `k`-th round of the loop of `freshChainEpoch`.
pub fresh_chain_epoch : ℤ → ChainRun → ChainEpochRetry → ℕ → ℕ → Option (Result CommitteeError ℤ)
unfolding epoch_standing
fresh_chain_epoch epoch run retry zero k = none
fresh_chain_epoch epoch run retry (suc fuel) k = elim (run.current_epoch k) [
  | err e ↦ some (err (read_failed e))
  | ok chain_epoch ↦ elim (epoch_standing epoch chain_epoch) [
    | fresh ↦ some (ok chain_epoch)
    | old ↦ some (err (old_committee epoch chain_epoch))
    | ahead ↦
        let again = fresh_chain_epoch epoch run retry fuel (suc k) in
        if ltb (run.started + retry.budget_ms) (run.now k + retry.pause_ms)
        then some (err (chain_did_not_catch_up epoch chain_epoch retry.budget_ms))
        else again
  ]
]

abbrev pub is_fresh : EpochStanding → Bool
is_fresh fresh = true
is_fresh _ = false

pub keep_next : VerifiedCommittee → ℤ → Option VerifiedCommittee → Option VerifiedCommittee
unfolding epoch_standing
keep_next committee chain_epoch none = none
keep_next committee chain_epoch (some next) =
    if eqb_ℤ next.epoch (committee.epoch +ℤ pos 1)
      && is_fresh (epoch_standing next.epoch chain_epoch)
    then some next
    else none

module _ (crypto : CommitteeCrypto) where
  -- `call` is the number of the registration read.
  pub verify_committee_signer :
      SignedCommittee → String → ChainRun → ℕ → Result CommitteeError VerifiedCommittee
  verify_committee_signer signed which run call = do
    verified ← verify_signed_committee crypto signed which
    registered ← reading (run.is_registered_network_key call signed.signer_noa_public_key)
    guard registered (signer_not_registered which signed.signer_noa_public_key)
    ok verified

  -- The next committee, if one is served.
  pub verify_next :
      Option SignedCommittee → ChainRun → Result CommitteeError (Option VerifiedCommittee)
  verify_next none run = ok none
  verify_next (some signed) run = do
    verified ← verify_committee_signer signed "next committee" run 1
    ok (some verified)

  -- Everything before the chain's epoch is read.
  pub verify_signers :
      CommitteeAnswer
      → ChainRun
      → Result CommitteeError (VerifiedCommittee × Option VerifiedCommittee)
  unfolding verify_committee_signer verify_next
  verify_signers answer run = elim answer.committee [
    | none ↦ err no_committee
    | some signed ↦ do
      committee ← verify_committee_signer signed "committee" run 0
      next_committee ← verify_next answer.next_committee run
      ok (committee, next_committee)
  ]

  -- A round of the loop takes a millisecond at least, so a round more than the budget is enough.
  pub verify_committee_answer :
      CommitteeAnswer
      → ChainRun
      → ChainEpochRetry
      → Option (Result CommitteeError VerifiedCommittees)
  unfolding verify_signers keep_next
  verify_committee_answer answer run retry = elim (verify_signers answer run) [
    | err e ↦ some (err e)
    | ok (committee, next_committee) ↦
        elim (fresh_chain_epoch committee.epoch run retry (suc retry.budget_ms) 0) [
          | none ↦ none
          | some (err e) ↦ some (err e)
          | some (ok chain_epoch) ↦ some (
              ok (record {
                chain_epoch = chain_epoch;
                committee = committee;
                next_committee = keep_next committee chain_epoch next_committee;
              }))
        ]
  ]
