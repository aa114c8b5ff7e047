-- ===== src/Committee/Answer/Tests.antt =====
-- Runs of `verifyCommitteeAnswer`: the chain lags for one read, then catches up.
use Prim.Native.String.{String}
use ika_pre_alpha.Prelude.{ℕ, zero, suc, ◌+◌, ◌*◌, ◌≡◌, refl, true, none, some, arith, Result, ok}
use ika_pre_alpha.Prelude.Int.{ℤ, pos}
use ika_pre_alpha.Committee.{
  CommitteeError, verify_signed_committee, compare_bytes, decode_committee_attestation,
  decode_committee_members, strictly_ascending, committee_signing_message,
}
use ika_pre_alpha.Committee.Sample.{crypto, signed, committee, parse, serialize}
use ika_pre_alpha.Committee.Answer.{
  ChainRun, ChainEpochRetry, CommitteeAnswer, VerifiedCommittees, fresh_chain_epoch,
  verify_committee_answer,
}
use ika_pre_alpha.Committee.Answer.Epoch.{IsClock, Waited, EndsWith, fresh_chain_epoch_ends}
use ika_pre_alpha.Committee.Answer.Verified.{IsChecked, verify_committee_answer_ends}

abbrev epoch_at : ℕ → Result String ℤ
epoch_at zero = ok (pos 3)
epoch_at (suc k) = ok (pos 4)

abbrev run : ChainRun
run = record {
  is_registered_network_key = λ call key. ok true;
  current_epoch = epoch_at;
  started = 1000;
  now = λ k. 1001 + k * 50;
}

abbrev retry : ChainEpochRetry
retry = record { pause_ms = 50; budget_ms = 60 }

abbrev answer : CommitteeAnswer
answer = record { committee = some signed; next_committee = some signed }

run-IsClock : IsClock run retry
run-IsClock = record { runs = omega arith; ticks = λ k. omega arith; pauses = omega arith }

-- The next committee serves the same epoch, so it is left out.
answered :
    verify_committee_answer crypto answer run retry
    ≡ some (ok (record { chain_epoch = pos 4; committee = committee; next_committee = none }))
unfolding verify_committee_answer fresh_chain_epoch verify_signed_committee
    decode_committee_attestation decode_committee_members strictly_ascending compare_bytes parse
    serialize committee_signing_message
answered = refl

fresh_chain_epoch_ends_example :
    (r : Result CommitteeError ℤ) × (j : ℕ) × (fresh_chain_epoch (pos 5) run retry 61 0 ≡ some r)
    × Waited (pos 5) run retry 0 j
    × EndsWith (pos 5) run retry j r
fresh_chain_epoch_ends_example = fresh_chain_epoch_ends (pos 5) run retry run-IsClock

verify_committee_answer_ends_example :
    (r : Result CommitteeError VerifiedCommittees) × (verify_committee_answer crypto answer run
        retry
      ≡ some r)
    × ((v : VerifiedCommittees) → r ≡ ok v → IsChecked crypto answer run v)
verify_committee_answer_ends_example =
    verify_committee_answer_ends crypto answer run retry run-IsClock
