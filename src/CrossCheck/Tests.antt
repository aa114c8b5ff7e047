-- ===== src/CrossCheck/Tests.antt =====
-- Cross-checked reads, and the theorem about them at a concrete input.

use ika_pre_alpha.Prelude.{
  ℕ, ◌+◌, ◌*◌, ◌≡◌, refl, Bool, Option, none, some, ◌==◌, Result, ok, err, arith,
}
use ika_pre_alpha.Prelude.Int.{pos}
use ika_pre_alpha.CrossCheck.{
  EndpointAnswer, answer_at, behind, first_endpoint, second_endpoint, CrossCheckError,
  disagree_at_position, still_disagree, EndpointRun, same, lagging_of, replaced, target_of,
  answered, agree, cross_checked_read,
}
use ika_pre_alpha.CrossCheck.Rounds.{IsShown}
use ika_pre_alpha.CrossCheck.Agree.{cross_checked_read_ends}

abbrev at : ℕ → Option ℕ → EndpointAnswer ℕ
at position value = answer_at (record { position = pos position; value = value })

abbrev run_of : EndpointAnswer ℕ → EndpointAnswer ℕ → EndpointAnswer ℕ → EndpointRun ℕ
run_of first second again = record {
  first_read =
      λ endpoint. elim endpoint [ first_endpoint ↦ ok first | second_endpoint ↦ ok second ];
  read_again = λ k endpoint target. ok again;
  started = 5;
  now = λ k. 5 + 2 * k;
}

abbrev equal : ℕ → ℕ → Bool
equal a b = a == b

catches_up :
    cross_checked_read equal 9 2 (run_of (at 3 none) (at 4 (some 8)) (at 4 (some 8)))
    ≡ some (ok (some 8))
unfolding cross_checked_read answered agree same lagging_of replaced target_of
catches_up = refl

one_lies_at_once :
    cross_checked_read equal 9 2 (run_of (at 3 (some 7)) (at 3 (some 8)) behind)
    ≡ some (err disagree_at_position)
unfolding cross_checked_read answered agree same lagging_of replaced target_of
one_lies_at_once = refl

never_agrees :
    cross_checked_read equal 9 2 (run_of (at 3 none) (at 4 (some 8)) behind)
    ≡ some (err (still_disagree 9))
unfolding cross_checked_read answered agree same lagging_of replaced target_of
never_agrees = refl

cross_checked_read_ends_example :
    (result : Result CrossCheckError (Option ℕ)) × (cross_checked_read equal 9 2
        (run_of (at 3 none) (at 4 (some 8)) (at 4 (some 8)))
      ≡ some result)
    × IsShown equal 9 2 (run_of (at 3 none) (at 4 (some 8)) (at 4 (some 8))) result
cross_checked_read_ends_example =
    cross_checked_read_ends equal 9 2 (run_of (at 3 none) (at 4 (some 8)) (at 4 (some 8)))
      (record { runs = omega arith; waits = omega arith; ticks = λ k. omega arith })
