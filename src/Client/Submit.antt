-- ===== src/Client/Submit.antt =====
-- sdk/core/src/grpc/dwallet-client.ts, `submitTransaction` and `read`, with no other call of the
-- client running at the same time. What the transport answers and the clock shows during a call is a
-- `CallRun`: encoding, sending and decoding one call of one validator is `answer`.
pub mod Indexes
pub mod Trials
pub mod Across
pub mod Keys
mod Tests
use ika_pre_alpha.Prelude.{
  ℕ, Bool, true, false, not, ◌&&◌, ◌||◌, Option, none, some, List, [], ◌∷◌, ◌++◌, take, drop,
  if◌then◌else◌, Result, ok, err,
}
use ika_pre_alpha.Client.{
  GrpcError, unavailable, has_code, is_epoch_closing_refusal, is_not_a_committee_member,
  ThrownError, thrown, every_validator_refused, undefined_thrown, Refused, set_refused, is_refused,
  validator_indexes,
}

-- The answer of the validator of an index; `monotonicNow` when its refusal is looked up, and when a
-- refusal is recorded.
pub record CallRun (A : Type 0) : Type 0 where
  pub answer : ℕ → Result GrpcError A
  pub checked_at : ℕ → ℕ
  pub recorded_at : ℕ → ℕ

-- Whether `submitTransaction` throws a validator's error at once.
pub ends_submission : GrpcError → Bool
ends_submission error = not (has_code unavailable error.code) || is_epoch_closing_refusal error

-- `throw everyOneRefused ? everyValidatorRefused(lastError) : lastError`
pub last_throw : Bool → Option GrpcError → ThrownError
last_throw true last_error = every_validator_refused last_error
last_throw false (some error) = thrown error
last_throw false none = undefined_thrown

module _ {A : Type 0} (refusal_max_age_ms : ℕ) (run : CallRun A) where
  -- The loop of `submitTransaction` over the indexes that are left, with `everyOneRefused` and
  -- `lastError`: what it returns or throws, and the record of refused validators it leaves.
  pub submit_to_each : Bool → Option GrpcError → List ℕ → Refused → Result ThrownError A × Refused
  submit_to_each every_one_refused last_error [] refused =
      (err (last_throw every_one_refused last_error), refused)
  submit_to_each every_one_refused last_error (index ∷ rest) refused =
      elim (is_refused refusal_max_age_ms refused (run.checked_at index) index) [
        | true ↦ submit_to_each every_one_refused last_error rest refused
        | false ↦ elim (run.answer index) [
          | ok result ↦ (ok result, refused)
          | err error ↦ elim (ends_submission error) [
            | true ↦ (err (thrown error), refused)
            | false ↦ elim (is_not_a_committee_member error) [
              | true ↦
                  submit_to_each every_one_refused (some error) rest
                    (set_refused index (run.recorded_at index) refused)
              | false ↦ submit_to_each false (some error) rest refused
            ]
          ]
        ]
      ]

  pub submit_transaction : ℕ → Refused → Result ThrownError A × Refused
  submit_transaction further refused = submit_to_each true none (validator_indexes further) refused

  -- The loop of `read`.
  pub read_from_each : Option GrpcError → List ℕ → Refused → Result ThrownError A × Refused
  read_from_each last_error [] refused = (err (every_validator_refused last_error), refused)
  read_from_each last_error (index ∷ rest) refused =
      elim (is_refused refusal_max_age_ms refused (run.checked_at index) index) [
        | true ↦ read_from_each last_error rest refused
        | false ↦ elim (run.answer index) [
          | ok result ↦ (ok result, refused)
          | err error ↦ elim (is_not_a_committee_member error) [
            | false ↦ (err (thrown error), refused)
            | true ↦
                read_from_each (some error) rest (set_refused index (run.recorded_at index) refused)
          ]
        ]
      ]

  pub read : ℕ → ℕ → Refused → Result ThrownError A × Refused
  read further from refused =
      let indexes = validator_indexes further in
      read_from_each none (drop from indexes ++ take from indexes) refused
