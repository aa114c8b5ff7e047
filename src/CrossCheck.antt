-- ===== src/CrossCheck.antt =====
-- sdk/core/src/grpc/read-cross-check.ts: a read that two endpoints must agree on. What the endpoints
-- answer and the clock shows is an `EndpointRun`; a read that fails, or that the window ends before,
-- carries its text. `none` means that the fuel ran out.
pub mod Rounds
pub mod Agree
mod Tests
use Prim.Native.String.{String}
use ika_pre_alpha.Prelude.{
  ℕ, zero, suc, ◌+◌, Bool, true, false, not, Option, none, some, ltb, if◌then◌else◌, Result, ok,
  err,
}
use ika_pre_alpha.Prelude.Int.{ℤ, ltb_ℤ, leb_ℤ}

pub record AnswerAt (T : Type 0) : Type 0 where
  pub position : ℤ
  pub value : Option T

pub data EndpointAnswer (T : Type 0) : Type 0 where
  answer_at : AnswerAt T → EndpointAnswer T
  behind : EndpointAnswer T

pub data CrossCheckEndpoint : Type 0 where
  first_endpoint second_endpoint : CrossCheckEndpoint

abbrev pub cross_check_window_ms : ℕ
cross_check_window_ms = 10_000

abbrev pub cross_check_retry_interval_ms : ℕ
cross_check_retry_interval_ms = 1_000

pub data CrossCheckError : Type 0 where
  read_failed : CrossCheckEndpoint → String → CrossCheckError
  refused_position : CrossCheckEndpoint → CrossCheckError
  disagree_at_position : CrossCheckError
  still_disagree : ℕ → CrossCheckError

-- The first reads, the re-reads by their round, and `Date.now()` at the start and in each round.
pub record EndpointRun (T : Type 0) : Type 0 where
  pub first_read : CrossCheckEndpoint → Result String (EndpointAnswer T)
  pub read_again : ℕ → CrossCheckEndpoint → ℤ → Result String (EndpointAnswer T)
  pub started : ℕ
  pub now : ℕ → ℕ

pub data Lagging : Type 0 where
  lags : CrossCheckEndpoint → Lagging
  one_lies : Lagging

module _ {T : Type 0} where
  pub same : (T → T → Bool) → Option T → Option T → Bool
  same equal none none = true
  same equal none (some second) = false
  same equal (some first) none = false
  same equal (some first) (some second) = equal first second

  pub lagging_of : AnswerAt T → AnswerAt T → Lagging
  lagging_of first second = elim first.value [
    | none ↦ lags first_endpoint
    | some f ↦ elim second.value [
      | none ↦ lags second_endpoint
      | some s ↦
          if ltb_ℤ first.position second.position
          then lags first_endpoint
          else if ltb_ℤ second.position first.position
          then lags second_endpoint
          else one_lies
    ]
  ]

  -- `answers[lagging] = answer`, for an answer at or past the target.
  pub replaced : AnswerAt T → ℤ → EndpointAnswer T → AnswerAt T
  replaced old target behind = old
  replaced old target (answer_at answer) = if leb_ℤ target answer.position then answer else old

  pub target_of : AnswerAt T → AnswerAt T → ℤ
  target_of first second =
      if ltb_ℤ second.position first.position then first.position else second.position

  -- The answer of a first read.
  pub answered : CrossCheckEndpoint → EndpointAnswer T → Result CrossCheckError (AnswerAt T)
  answered endpoint behind = err (refused_position endpoint)
  answered endpoint (answer_at answer) = ok answer

module _ {T : Type 0} (equal : T → T → Bool) (window_ms retry_interval_ms : ℕ)
    (run : EndpointRun T) where
  pub agree : ℕ → ℕ → AnswerAt T → AnswerAt T → Option (Result CrossCheckError (Option T))
  unfolding same lagging_of replaced target_of
  agree zero k first second = none
  agree (suc fuel) k first second =
      let target = target_of first second in
      elim (same equal first.value second.value) [
        | true ↦ some (ok first.value)
        | false ↦ elim (lagging_of first second) [
          | one_lies ↦ some (err disagree_at_position)
          | lags endpoint ↦ elim (ltb (run.started + window_ms) (run.now k + retry_interval_ms)) [
            | true ↦ some (err (still_disagree window_ms))
            | false ↦ elim (run.read_again k endpoint target) [
              | err failure ↦ some (err (read_failed endpoint failure))
              | ok answer ↦ elim endpoint [
                | first_endpoint ↦ agree fuel (suc k) (replaced first target answer) second
                | second_endpoint ↦ agree fuel (suc k) first (replaced second target answer)
              ]
            ]
          ]
        ]
      ]

  -- A failed read comes before a refused position. A round waits for the interval, a millisecond at
  -- least, so a round more than the window's milliseconds is enough.
  pub cross_checked_read : Option (Result CrossCheckError (Option T))
  unfolding answered agree
  cross_checked_read = elim (run.first_read first_endpoint) [
    | err failure ↦ some (err (read_failed first_endpoint failure))
    | ok first_answer ↦ elim (run.first_read second_endpoint) [
      | err failure ↦ some (err (read_failed second_endpoint failure))
      | ok second_answer ↦ elim (answered first_endpoint first_answer) [
        | err e ↦ some (err e)
        | ok first ↦ elim (answered second_endpoint second_answer) [
          | err e ↦ some (err e)
          | ok second ↦ agree (suc window_ms) 0 first second
        ]
      ]
    ]
  ]
