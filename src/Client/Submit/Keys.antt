-- ===== src/Client/Submit/Keys.antt =====
-- sdk/core/src/grpc/dwallet-client.ts, `networkKeysByAgeResponse`: the repeated read of the epoch's
-- network keys, and `close` while it runs. What happens in the attempt of a number is a `KeysRun`.
-- `none` means that the fuel ran out.
pub mod Ends
mod Tests
use Prim.Native.Nat.{min}
use ika_pre_alpha.Prelude.{
  ℕ, zero, suc, ◌+◌, Bool, true, false, not, ◌||◌, Option, none, some, leb, if◌then◌else◌, Result,
  ok, err,
}
use ika_pre_alpha.Client.{ThrownError, as_grpc_error, is_transport_failure, Refused}
use ika_pre_alpha.Client.Submit.{CallRun, read}
use ika_pre_alpha.Client.Submit.Across.{ClientSettings}

pub record NetworkKeysReadRetry : Type 0 where
  pub attempt_timeout_ms : ℕ
  pub pause_ms : ℕ
  pub budget_ms : ℕ

abbrev pub network_keys_read_retry : NetworkKeysReadRetry
network_keys_read_retry = record {
  attempt_timeout_ms = 15_000;
  pause_ms = 5_000;
  budget_ms = 60_000;
}

-- `Date.now()` at the start, before each attempt and after its failure; whether the client is closed
-- after the failure and after the pause; and the run of the attempt's read with its deadline.
pub record KeysRun (A : Type 0) : Type 0 where
  pub started : ℕ
  pub now : ℕ → ℕ
  pub now_failed : ℕ → ℕ
  pub closed_at_failure : ℕ → Bool
  pub closed_after_pause : ℕ → Bool
  pub call : ℕ → ℕ → CallRun A

pub data KeysError : Type 0 where
  attempt_failed : ThrownError → KeysError
  stayed_unreachable : ThrownError → ℕ → KeysError
  client_closed : KeysError

module _ {A : Type 0} (settings : ClientSettings) (retry : NetworkKeysReadRetry)
    (run : KeysRun A) where
  abbrev pub budget_end : ℕ
  budget_end = run.started + retry.budget_ms

  -- `networkKeysByAgeAttempt` of the attempt `k`.
  pub attempt : ℕ → Refused → Result ThrownError A × Refused
  attempt k refused =
      read settings.refusal_max_age_ms
        (run.call k (min (run.now k + retry.attempt_timeout_ms) budget_end))
        settings.further_validator_count 0 refused

  abbrev pub is_thrown : ℕ → ThrownError → Bool
  is_thrown k error = not (is_transport_failure (as_grpc_error error)) || run.closed_at_failure k

  pub attempts : ℕ → ℕ → Refused → Option (Result KeysError A × Refused)
  unfolding attempt
  attempts zero k refused = none
  attempts (suc fuel) k refused =
      let (result, held) = attempt k refused in
      elim result [
        | ok answer ↦ some (ok answer, held)
        | err error ↦ elim (is_thrown k error) [
          | true ↦ some (err (attempt_failed error), held)
          | false ↦ elim (leb budget_end (run.now_failed k + retry.pause_ms)) [
            | true ↦ some (err (stayed_unreachable error retry.budget_ms), held)
            | false ↦ elim (run.closed_after_pause k) [
              | true ↦ some (err client_closed, held)
              | false ↦ attempts fuel (suc k) held
            ]
          ]
        ]
      ]

  -- Each attempt but the last is followed by a pause of a millisecond at least, within the budget.
  pub network_keys_by_age_response : Refused → Option (Result KeysError A × Refused)
  unfolding attempts
  network_keys_by_age_response refused = attempts (suc retry.budget_ms) 0 refused
