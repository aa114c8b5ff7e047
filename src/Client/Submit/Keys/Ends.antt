-- ===== src/Client/Submit/Keys/Ends.antt =====
-- The repeated read of the network keys ends, and how.
use mathlib.Core.Path.{subst}
use ika_pre_alpha.Prelude.{
  ◌↔◌, ℕ, zero, suc, ◌+◌, ◌≤◌, ◌<◌, ◌≡◌, ◌⊎◌, refl, true, false, Option, some, leb, ◌==◌, ==_iff,
  Result, ok, err, arith, Bool-cases, Result-cases, inl, inr,
}
use ika_pre_alpha.Client.{
  ThrownError, as_grpc_error, is_transport_failure, Refused, has_code, unavailable,
  deadline_exceeded, is_refused_pinned_setup,
}
use ika_pre_alpha.Client.Submit.{read}
use Prim.Native.Nat.{min}
use ika_pre_alpha.Client.Submit.Across.{ClientSettings}
use ika_pre_alpha.Client.Submit.Keys.{
  NetworkKeysReadRetry, KeysRun, KeysError, attempt_failed, stayed_unreachable, client_closed,
  budget_end, attempt, is_thrown, attempts, network_keys_by_age_response,
}

-- No validator was reached, or none answered in time, and the error refuses no pinned setup.
abbrev pub IsTransport : ThrownError → Type 0
IsTransport error =
    (is_refused_pinned_setup (as_grpc_error error) ≡ false)
    × ((has_code unavailable (as_grpc_error error).code ≡ true)
        ⊎ (has_code deadline_exceeded (as_grpc_error error).code ≡ true))

is_transport_failure_iff :
    (error : ThrownError) → (is_transport_failure (as_grpc_error error) ≡ true) ↔ IsTransport error
unfolding is_transport_failure
is_transport_failure_iff error = (λ h. ground arith, λ h. ground arith)

module _ {A : Type 0} (settings : ClientSettings) (retry : NetworkKeysReadRetry)
    (run : KeysRun A) where
  -- Every attempt fails after the start, and a pause after the failure before it.
  pub record IsClock : Type 0 where
    pub runs : run.started ≤ run.now_failed 0
    pub pauses : 0 < retry.pause_ms
    pub ticks : (k : ℕ) → run.now_failed k + retry.pause_ms ≤ run.now_failed (suc k)

  -- The client was open after the attempt and its pause, and the pause was within the budget.
  abbrev pub IsRepeated : ℕ → Type 0
  IsRepeated i =
      (run.closed_at_failure i ≡ false)
      × (run.closed_after_pause i ≡ false)
      × (run.now_failed i + retry.pause_ms < budget_end settings retry run)

  -- What the read of an attempt answered, with the record `held` at its start. Its deadline is the
  -- attempt's own or the budget's end, whichever is earlier.
  abbrev pub IsRead : ℕ → Refused → Result ThrownError A → Type 0
  IsRead j held result =
      (until : ℕ) × (until ≤ run.now j + retry.attempt_timeout_ms)
      × (until ≤ budget_end settings retry run)
      × ((until ≡ run.now j + retry.attempt_timeout_ms) ⊎ (until ≡ budget_end settings retry run))
      × ((read settings.refusal_max_age_ms (run.call j until) settings.further_validator_count 0
            held).0
          ≡ result)

  -- What the last attempt shows.
  abbrev pub ShownBy : ℕ → Refused → Result KeysError A → Type 0
  ShownBy j held (ok answer) = IsRead j held (ok answer)
  ShownBy j held (err (attempt_failed error)) =
      IsRead j held (err error) × (¬ IsTransport error ⊎ (run.closed_at_failure j ≡ true))
  ShownBy j held (err (stayed_unreachable error budget)) =
      IsRead j held (err error)
      × IsTransport error
      × (run.closed_at_failure j ≡ false)
      × (budget ≡ retry.budget_ms)
      × (budget_end settings retry run ≤ run.now_failed j + retry.pause_ms)
  ShownBy j held (err client_closed) =
      ((error : ThrownError) × IsRead j held (err error) × IsTransport error)
      × (run.closed_at_failure j ≡ false)
      × (run.now_failed j + retry.pause_ms < budget_end settings retry run)
      × (run.closed_after_pause j ≡ true)

  IsRead-of_attempt :
      (j : ℕ) (held : Refused) (result : Result ThrownError A)
      → (attempt settings retry run j held).0 ≡ result
      → IsRead j held result
  unfolding attempt
  IsRead-of_attempt j held result answers = (
    min (run.now j + retry.attempt_timeout_ms) (budget_end settings retry run),
    omega arith,
    omega arith,
    ground arith,
    answers,
  )

  abbrev EndsFrom : ℕ → Option (Result KeysError A × Refused) → Type 0
  EndsFrom k outcome =
      (result : Result KeysError A) × (final : Refused) × (j : ℕ) × (held : Refused) × (outcome
        ≡ some (result, final))
      × ((i : ℕ) → k ≤ i → i < j → IsRepeated i)
      × ShownBy j held result

  none_before : (k i : ℕ) → k ≤ i → i < k → IsRepeated i
  none_before k i h l = absurd (omega arith)

  thrown_why :
      (error : ThrownError) (k : ℕ)
      → is_thrown settings retry run k error ≡ true
      → ¬ IsTransport error ⊎ (run.closed_at_failure k ≡ true)
  thrown_why error k h = elim (Bool-cases (is_transport_failure (as_grpc_error error))) [
    | inl transport ↦ inr (ground arith)
    | inr other ↦ inl (λ t. let transport = (is_transport_failure_iff error).1 t in ground arith)
  ]

  repeats_why :
      (error : ThrownError) (k : ℕ)
      → is_thrown settings retry run k error ≡ false
      → IsTransport error × (run.closed_at_failure k ≡ false)
  repeats_why error k h = ((is_transport_failure_iff error).0 (ground arith), ground arith)

  IsRepeated-from :
      (k j : ℕ)
      → IsRepeated k
      → ((i : ℕ) → suc k ≤ i → i < j → IsRepeated i)
      → (i : ℕ) → k ≤ i
      → i < j
      → IsRepeated i
  IsRepeated-from k j now later i h l = elim (Bool-cases (k == i)) [
    | inl same ↦ subst IsRepeated ((==_iff k i).0 same) now
    | inr after ↦ later i (ground arith) l
  ]

  attempts_end :
      IsClock
      → (fuel k : ℕ) (held : Refused) → retry.budget_ms < k + fuel
      → run.started + k ≤ run.now_failed k
      → k ≤ retry.budget_ms
      → EndsFrom k (attempts settings retry run fuel k held)
  unfolding attempts
  attempts_end clock zero k held enough t few = absurd (omega arith)
  attempts_end clock (suc fuel) k held enough t few =
      let (result, after) = attempt settings retry run k held in
      elim (Result-cases result) [
        | inl (answer, answers) ↦ (
          ok answer,
          after,
          k,
          held,
          rw (answers, attempts) refl,
          none_before k,
          IsRead-of_attempt k held (ok answer) answers,
        )
        | inr (error, fails) ↦ elim (Bool-cases (is_thrown settings retry run k error)) [
          | inl thrown_now ↦ (
            err (attempt_failed error),
            after,
            k,
            held,
            rw (fails, thrown_now, attempts) refl,
            none_before k,
            (IsRead-of_attempt k held (err error) fails, thrown_why error k thrown_now),
          )
          | inr repeats ↦
              let (transport, is_open) = repeats_why error k repeats in
              elim (Bool-cases
                (leb (budget_end settings retry run) (run.now_failed k + retry.pause_ms))) [
                  | inl over ↦ (
                    err (stayed_unreachable error retry.budget_ms),
                    after,
                    k,
                    held,
                    rw (fails, repeats, over, attempts) refl,
                    none_before k,
                    (
                      IsRead-of_attempt k held (err error) fails,
                      transport,
                      is_open,
                      refl,
                      ground arith,
                    ),
                  )
                  | inr early ↦
                      let time : run.now_failed k + retry.pause_ms < budget_end settings retry run =
                        ground arith in
                      elim (Bool-cases (run.closed_after_pause k)) [
                        | inl closed ↦ (
                          err client_closed,
                          after,
                          k,
                          held,
                          rw (fails, repeats, early, closed, attempts) refl,
                          none_before k,
                          (
                            (error, IsRead-of_attempt k held (err error) fails, transport),
                            is_open,
                            time,
                            closed,
                          ),
                        )
                        | inr stays ↦
                            let (result, final, j, last_held, ends, repeated, shown) =
                              attempts_end clock fuel (suc k) after (omega arith)
                                (omega (arith, clock.ticks k, clock.pauses))
                                (omega (arith, clock.pauses)) in
                            (
                              result,
                              final,
                              j,
                              last_held,
                              rw (fails, repeats, early, stays, attempts) ends,
                              IsRepeated-from k j (is_open, stays, time) repeated,
                              shown,
                            )
                      ]
                ]
        ]
      ]

  -- With a clock that runs, the repeated read of the network keys ends. Every attempt but the last was
  -- followed by a pause that the budget left time for, and the client stayed open. The last attempt's
  -- read has the attempt's time-out, or the time left of the budget where that is shorter, and its
  -- answer is returned. Its error is thrown when it is no transport failure, which is an `UNAVAILABLE`
  -- or a `DEADLINE_EXCEEDED` that refuses no pinned setup, or when the client was closed. The error of a
  -- validator that stayed unreachable is thrown when it is one and the budget has no time for another
  -- pause, and the error of a closed client when the client was closed during the pause after one.
  pub network_keys_by_age_response_ends :
      IsClock → (held : Refused) → EndsFrom 0 (network_keys_by_age_response settings retry run held)
  unfolding network_keys_by_age_response
  network_keys_by_age_response_ends clock held =
      attempts_end clock (suc retry.budget_ms) 0 held (omega arith) (omega (arith, clock.runs))
        (omega arith)
