-- ===== src/Client/Submit/Across/Tests.antt =====
-- A request carried across an epoch's close, and the theorem about it at a concrete input.
use Prim.Native.String.{String}
use ika_pre_alpha.Prelude.{
  ℕ, ◌+◌, ◌≡◌, refl, false, some, List, [], ◌∷◌, ◌==◌, if◌then◌else◌, Result, ok, err,
}
use ika_pre_alpha.Prelude.Int.{pos}
use ika_pre_alpha.Client.{
  SignedGrpcRequest, GrpcError, unavailable, epoch_closing_refusal, other_details,
  is_epoch_closing_refusal, as_grpc_error, refused_at, is_refused, validator_indexes,
}
use ika_pre_alpha.Client.Submit.{
  CallRun, submit_transaction, submit_to_each, ends_submission, last_throw,
}
use ika_pre_alpha.Client.Submit.Across.{
  answered, AcrossRun, AcrossTimes, ClientSettings, Event, request_sent, closing_refusal,
  submit_transaction_across_epoch_close, first_round, rounds, round, wait_round, build_round,
  send_round, failed_round,
}

abbrev closing_error : GrpcError
closing_error = record {
  code = some unavailable;
  details = some epoch_closing_refusal;
  refused_pinned_setup = false;
  not_a_committee_member = false;
}

abbrev down_error : GrpcError
down_error = record closing_error { details = some (other_details "connection refused") }

abbrev request : SignedGrpcRequest
request = record { user_signature = 1 ∷ []; signed_request_data = 2 ∷ [] }

abbrev call_of : Result GrpcError ℕ → CallRun ℕ
call_of answer = record {
  answer = λ index. answer;
  checked_at = λ index. 0;
  recorded_at = λ index. 0;
}

-- The epoch is read as 7, then as 8; the validator is down once, and then answers 42.
abbrev run : AcrossRun String ℕ
run = record {
  first_epoch = ok (pos 7);
  first_build = λ epoch. ok request;
  first_call = λ sent timeout. call_of (err closing_error);
  started = 100;
  now = λ k. 100 + k;
  now_read = λ k. 100 + k;
  now_built = λ k. 100 + k;
  now_failed = λ k. 100 + k;
  current_epoch = λ k. answered (if k == 0 then pos 7 else pos 8);
  build = λ k epoch. answered request;
  call = λ k sent timeout. call_of (if k == 2 then err down_error else ok 42);
}

abbrev settings : ClientSettings
settings = record { further_validator_count = 1; refusal_max_age_ms = 60_000 }

abbrev times : AcrossTimes
times = record { epoch_wait_ms = 10; poll_interval_ms = 1; timeout_ms = 5 }

abbrev log : List Event
log =
    request_sent (pos 8)
    ∷ request_sent (pos 8)
    ∷ closing_refusal (pos 7)
    ∷ request_sent (pos 7)
    ∷ []

carried :
    submit_transaction_across_epoch_close settings times run []
    ≡ some (ok 42, record { log = log; refused = [] })
unfolding submit_transaction_across_epoch_close first_round rounds round wait_round build_round
    send_round failed_round submit_transaction submit_to_each ends_submission last_throw
    is_epoch_closing_refusal as_grpc_error refused_at is_refused validator_indexes
carried = refl
