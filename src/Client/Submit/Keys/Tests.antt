-- ===== src/Client/Submit/Keys/Tests.antt =====
-- Repeated reads of the network keys, and the theorem about them at a concrete input.
use ika_pre_alpha.Prelude.{
  ℕ, ◌+◌, ◌*◌, ◌<◌, ◌≤◌, ◌≡◌, refl, false, none, some, [], ltb, ◌==◌, if◌then◌else◌, Result, ok,
  err, arith,
}
use ika_pre_alpha.Client.{
  GrpcError, unavailable, thrown, as_grpc_error, is_transport_failure, Refused, refused_at,
  is_refused, validator_indexes,
}
use ika_pre_alpha.Client.Submit.{CallRun, read, read_from_each}
use ika_pre_alpha.Client.Submit.Across.{ClientSettings}
use ika_pre_alpha.Client.Submit.Keys.{
  NetworkKeysReadRetry, KeysRun, KeysError, stayed_unreachable, client_closed, attempt, attempts,
  network_keys_by_age_response,
}
use ika_pre_alpha.Client.Submit.Keys.Ends.{IsRepeated, ShownBy, network_keys_by_age_response_ends}

abbrev down : GrpcError
down = record {
  code = some unavailable;
  details = none;
  refused_pinned_setup = false;
  not_a_committee_member = false;
}

abbrev call_of : Result GrpcError ℕ → CallRun ℕ
call_of answer = record {
  answer = λ index. answer;
  checked_at = λ index. 0;
  recorded_at = λ index. 0;
}

abbrev settings : ClientSettings
settings = record { further_validator_count = 0; refusal_max_age_ms = 60_000 }

abbrev retry : NetworkKeysReadRetry
retry = record { attempt_timeout_ms = 5; pause_ms = 2; budget_ms = 9 }

-- The server is down for the first attempts.
abbrev down_for : ℕ → KeysRun ℕ
down_for count = record {
  started = 10;
  now = λ k. 10 + 2 * k;
  now_failed = λ k. 10 + 2 * k;
  closed_at_failure = λ k. false;
  closed_after_pause = λ k. false;
  call = λ k deadline. call_of (if ltb k count then err down else ok 3);
}

back_in_time : network_keys_by_age_response settings retry (down_for 2) [] ≡ some (ok 3, [])
unfolding network_keys_by_age_response attempts attempt read read_from_each is_refused refused_at
    validator_indexes is_transport_failure as_grpc_error
back_in_time = refl

never_back :
    network_keys_by_age_response settings retry (down_for 50) []
    ≡ some (err (stayed_unreachable (thrown down) 9), [])
unfolding network_keys_by_age_response attempts attempt read read_from_each is_refused refused_at
    validator_indexes is_transport_failure as_grpc_error
never_back = refl

closed_in_a_pause :
    network_keys_by_age_response settings retry
      (record (down_for 50) { closed_after_pause = λ k. k == 1 })
      []
    ≡ some (err client_closed, [])
unfolding network_keys_by_age_response attempts attempt read read_from_each is_refused refused_at
    validator_indexes is_transport_failure as_grpc_error
closed_in_a_pause = refl

network_keys_by_age_response_ends_example :
    (result : Result KeysError ℕ) × (final : Refused) × (j : ℕ) × (held : Refused)
    × (network_keys_by_age_response settings retry (down_for 2) [] ≡ some (result, final))
    × ((i : ℕ) → 0 ≤ i → i < j → IsRepeated settings retry (down_for 2) i)
    × ShownBy settings retry (down_for 2) j held result
network_keys_by_age_response_ends_example =
    network_keys_by_age_response_ends settings retry (down_for 2)
      (record { runs = omega arith; pauses = omega arith; ticks = λ k. omega arith }) []
