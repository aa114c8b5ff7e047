-- ===== src/Client/Submit/Tests.antt =====
-- Submissions and reads to two validators, and the theorems about them at concrete inputs.
use ika_pre_alpha.Prelude.{
  ℕ, ◌≡◌, refl, true, none, some, [], ◌∷◌, ◌++◌, take, drop, ◌==◌, if◌then◌else◌, ok, err,
}
use ika_pre_alpha.Client.{
  GrpcError, unavailable, every_validator_refused, refused_at, set_refused, is_refused,
  is_epoch_closing_refusal, validator_indexes, pin_refusal_max_age_ms,
}
use ika_pre_alpha.Client.Submit.{
  CallRun, submit_transaction, submit_to_each, read, ends_submission, last_throw,
}
use ika_pre_alpha.Client.Submit.Trials.{
  submit_transaction_outcome, submit_transaction_record, read_lem, outcome_of, read_outcome_of,
  asked, newly_refused, decides, ends_read,
}

abbrev key_refused : GrpcError
key_refused = record {
  code = some unavailable;
  details = none;
  refused_pinned_setup = true;
  not_a_committee_member = true;
}

-- The first validator's key is refused, and the second answers 5.
abbrev run : CallRun ℕ
run = record {
  answer = λ index. if index == 0 then err key_refused else ok 5;
  checked_at = λ index. 70_000;
  recorded_at = λ index. 70_001;
}

moves_on : submit_transaction pin_refusal_max_age_ms run 1 [] ≡ (ok 5, (0, 70_001) ∷ [])
unfolding submit_transaction submit_to_each is_refused refused_at set_refused ends_submission
    is_epoch_closing_refusal validator_indexes
moves_on = refl

none_left :
    submit_transaction pin_refusal_max_age_ms run 0 []
    ≡ (err (every_validator_refused (some key_refused)), (0, 70_001) ∷ [])
unfolding submit_transaction submit_to_each is_refused refused_at set_refused ends_submission
    is_epoch_closing_refusal validator_indexes last_throw
none_left = refl

-- A refusal less than a minute old passes the validator over.
passed_over :
    (submit_transaction pin_refusal_max_age_ms run 0 ((0, 10_001) ∷ [])).0
    ≡ err (every_validator_refused none)
unfolding submit_transaction submit_to_each is_refused refused_at set_refused ends_submission
    is_epoch_closing_refusal validator_indexes last_throw
passed_over = refl

submit_transaction_outcome_example :
    (submit_transaction pin_refusal_max_age_ms run 1 []).0
    ≡ outcome_of pin_refusal_max_age_ms run true none
        (asked pin_refusal_max_age_ms run [] (validator_indexes 1))
submit_transaction_outcome_example = submit_transaction_outcome pin_refusal_max_age_ms run 1 []

submit_transaction_record_example :
    refused_at 0 (submit_transaction pin_refusal_max_age_ms run 1 []).1 ≡ (
      if newly_refused pin_refusal_max_age_ms run
        (decides pin_refusal_max_age_ms run)
        0
        (asked pin_refusal_max_age_ms run [] (validator_indexes 1))
      then some 70_001
      else refused_at 0 [])
submit_transaction_record_example = submit_transaction_record pin_refusal_max_age_ms run 1 [] 0

read_example :
    ((read pin_refusal_max_age_ms run 1 1 []).0
      ≡ read_outcome_of pin_refusal_max_age_ms run none (
          asked pin_refusal_max_age_ms run []
            (drop 1 (validator_indexes 1) ++ take 1 (validator_indexes 1))))
    × (refused_at 0 (read pin_refusal_max_age_ms run 1 1 []).1 ≡ (
        if newly_refused pin_refusal_max_age_ms run (ends_read pin_refusal_max_age_ms run) 0 (
          asked pin_refusal_max_age_ms run []
            (drop 1 (validator_indexes 1) ++ take 1 (validator_indexes 1)))
        then some 70_001
        else refused_at 0 []))
read_example = read_lem pin_refusal_max_age_ms run 1 1 [] 0
