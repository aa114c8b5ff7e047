-- ===== src/Client/Submit/Across.antt =====
-- sdk/core/src/grpc/dwallet-client.ts, `submitTransactionAcrossEpochClose` and `waitForEpochAfter`,
-- and `beforeDeadline` of sdk/core/src/grpc/transport.ts. A round is one reading of the epoch or one
-- sending of the request; what the clock shows and the caller's functions answer in the round of a
-- number is an `AcrossRun`. `none` means that the fuel ran out.
pub mod Ordered
pub mod Ends
mod Tests
use Prim.Native.Nat.{min}
use ika_pre_alpha.Prelude.{
  ℕ, zero, suc, ◌+◌, ◌-◌, Bool, true, false, not, ◌&&◌, Option, none, some, List, [], ◌∷◌, ltb, leb,
  ◌==◌, if◌then◌else◌, Result, ok, err,
}
use ika_pre_alpha.Prelude.Int.{ℤ, ltb_ℤ}
use ika_pre_alpha.Client.{
  SignedGrpcRequest, GrpcError, unavailable, deadline_exceeded, has_code, is_epoch_closing_refusal,
  ThrownError, as_grpc_error, Refused,
}
use ika_pre_alpha.Client.Submit.{CallRun, submit_transaction}

-- What a race between the caller's function and the time left answers.
pub data Raced (Failure A : Type 0) : Type 0 where
  answered : A → Raced Failure A
  rejected : Failure → Raced Failure A
  timed_out : Raced Failure A

-- The errors of the method: the caller's, a submission's, its own when the time is over, with the last
-- epoch that refused the request, and `positiveMilliseconds`'s.
pub data AcrossError (Failure : Type 0) : Type 0 where
  caller_failed : Failure → AcrossError Failure
  submission_failed : ThrownError → AcrossError Failure
  out_of_time : ℤ → ℕ → AcrossError Failure
  not_positive : AcrossError Failure

-- The first reading of the epoch, `build` and submission; `Date.now()` after them; then in each round:
-- `Date.now()` at its start, after its epoch is read, before `build` is waited for, and after its
-- sending failed; the answers of `currentEpoch` and `build`; and the run of the submission of a
-- request with its time-out.
pub record AcrossRun (Failure A : Type 0) : Type 0 where
  pub first_epoch : Result Failure ℤ
  pub first_build : ℤ → Result Failure SignedGrpcRequest
  pub first_call : SignedGrpcRequest → ℕ → CallRun A
  pub started : ℕ
  pub now : ℕ → ℕ
  pub now_read : ℕ → ℕ
  pub now_built : ℕ → ℕ
  pub now_failed : ℕ → ℕ
  pub current_epoch : ℕ → Raced Failure ℤ
  pub build : ℕ → ℤ → Raced Failure SignedGrpcRequest
  pub call : ℕ → SignedGrpcRequest → ℕ → CallRun A

pub record AcrossTimes : Type 0 where
  pub epoch_wait_ms : ℕ
  pub poll_interval_ms : ℕ
  pub timeout_ms : ℕ

abbrev pub default_times : AcrossTimes
default_times = record { epoch_wait_ms = 1_800_000; poll_interval_ms = 5_000; timeout_ms = 600_000 }

-- What the client keeps that submissions read.
pub record ClientSettings : Type 0 where
  pub further_validator_count : ℕ
  pub refusal_max_age_ms : ℕ

-- What happens, in order: a request that names an epoch is sent, or `recordClosingRefusal` is called.
pub data Event : Type 0 where
  request_sent closing_refusal : ℤ → Event

-- Waiting for an epoch after the one that refused, or sending the request built for the second epoch,
-- the first being the last that refused.
pub data Phase : Type 0 where
  waiting : ℤ → Phase
  sending : ℤ → ℤ → SignedGrpcRequest → Phase

-- The events, the last one first, and the record of refused validators.
pub record Progress : Type 0 where
  pub log : List Event
  pub refused : Refused

abbrev pub after_sending : ℤ → Refused → Progress → Progress
after_sending epoch refused progress = record {
  log = request_sent epoch ∷ progress.log;
  refused = refused;
}

abbrev pub after_refusal : ℤ → Progress → Progress
after_refusal epoch progress = record progress { log = closing_refusal epoch ∷ progress.log }

-- What a round leads to.
pub data Step (Failure A : Type 0) : Type 0 where
  go_on : Phase → Progress → Step Failure A
  end_with : Result (AcrossError Failure) A → Progress → Step Failure A

abbrev pub is_positive : AcrossTimes → Bool
is_positive times =
    ltb 0 times.epoch_wait_ms && ltb 0 times.poll_interval_ms && ltb 0 times.timeout_ms

module _ {Failure A : Type 0} (settings : ClientSettings) (times : AcrossTimes)
    (run : AcrossRun Failure A) where
  abbrev pub deadline : ℕ
  deadline = run.started + times.epoch_wait_ms

  abbrev no_time : ℤ → Progress → Step Failure A
  no_time refused_epoch progress =
      end_with (err (out_of_time refused_epoch times.epoch_wait_ms)) progress

  -- `beforeDeadline(params.build(epoch), …)`
  pub build_round : ℕ → ℤ → ℤ → Progress → Step Failure A
  build_round k refused_epoch epoch progress =
      if leb deadline (run.now_built k)
      then no_time refused_epoch progress
      else elim (run.build k epoch) [
        | answered request ↦ go_on (sending refused_epoch epoch request) progress
        | rejected failure ↦ end_with (err (caller_failed failure)) progress
        | timed_out ↦ no_time refused_epoch progress
      ]

  -- A round of the loop of `waitForEpochAfter`, and `build` once it ends.
  pub wait_round : ℕ → ℤ → Progress → Step Failure A
  unfolding build_round
  wait_round k refused_epoch progress =
      if leb deadline (run.now k)
      then no_time refused_epoch progress
      else elim (run.current_epoch k) [
        | rejected failure ↦ end_with (err (caller_failed failure)) progress
        | timed_out ↦ no_time refused_epoch progress
        | answered epoch ↦
            if ltb deadline (run.now_read k)
            then no_time refused_epoch progress
            else if ltb_ℤ refused_epoch epoch
            then build_round k refused_epoch epoch progress
            else go_on (waiting refused_epoch) progress
      ]

  -- What a submission's error does, after its sending.
  pub failed_round : ℕ → ℤ → ℤ → SignedGrpcRequest → ThrownError → Progress → Step Failure A
  failed_round k refused_epoch epoch request error progress =
      let read = as_grpc_error error in
      if is_epoch_closing_refusal read
      then go_on (waiting epoch) (after_refusal epoch progress)
      else if has_code deadline_exceeded read.code && leb deadline (run.now_failed k)
      then no_time refused_epoch progress
      else if not (has_code unavailable read.code)
      then end_with (err (submission_failed error)) progress
      else go_on (sending refused_epoch epoch request) progress

  -- A round of the inner loop.
  pub send_round : ℕ → ℤ → ℤ → SignedGrpcRequest → Progress → Step Failure A
  unfolding failed_round
  send_round k refused_epoch epoch request progress =
      if leb deadline (run.now k)
      then no_time refused_epoch progress
      else let (result, refused) =
          submit_transaction settings.refusal_max_age_ms
            (run.call k request (min times.timeout_ms (deadline - run.now k)))
            settings.further_validator_count progress.refused in
        elim result [
          | ok answer ↦ end_with (ok answer) (after_sending epoch refused progress)
          | err error ↦
              failed_round k refused_epoch epoch request error
                (after_sending epoch refused progress)
        ]

  pub round : ℕ → Phase → Progress → Step Failure A
  unfolding wait_round send_round
  round k (waiting refused_epoch) progress = wait_round k refused_epoch progress
  round k (sending refused_epoch epoch request) progress =
      send_round k refused_epoch epoch request progress

  -- Both loops, from the `k`-th round on.
  pub rounds : ℕ → ℕ → Phase → Progress → Option (Result (AcrossError Failure) A × Progress)
  unfolding round
  rounds zero k phase progress = none
  rounds (suc fuel) k phase progress = elim (round k phase progress) [
    | end_with result final ↦ some (result, final)
    | go_on next after ↦ rounds fuel (suc k) next after
  ]

  -- The first submission, and what follows its epoch-closing refusal. A round takes a millisecond at
  -- least, so a round more than the wait's milliseconds is enough.
  pub first_round :
      ℤ → SignedGrpcRequest → Refused → Option (Result (AcrossError Failure) A × Progress)
  unfolding rounds
  first_round epoch request held =
      let (result, refused) =
        submit_transaction settings.refusal_max_age_ms (run.first_call request times.timeout_ms)
          settings.further_validator_count held in
      let sent = after_sending epoch refused (record { log = []; refused = held }) in
      elim result [
        | ok answer ↦ some (ok answer, sent)
        | err error ↦
            let carried =
              rounds (suc times.epoch_wait_ms) 0 (waiting epoch) (after_refusal epoch sent) in
            if is_epoch_closing_refusal (as_grpc_error error)
            then carried
            else some (err (submission_failed error), sent)
      ]

  pub submit_transaction_across_epoch_close :
      Refused → Option (Result (AcrossError Failure) A × Progress)
  unfolding first_round
  submit_transaction_across_epoch_close held =
      let nothing_sent : Progress = record { log = []; refused = held } in
      if not (is_positive times)
      then some (err not_positive, nothing_sent)
      else elim run.first_epoch [
        | err failure ↦ some (err (caller_failed failure), nothing_sent)
        | ok epoch ↦ elim (run.first_build epoch) [
          | err failure ↦ some (err (caller_failed failure), nothing_sent)
          | ok request ↦ first_round epoch request held
        ]
      ]
