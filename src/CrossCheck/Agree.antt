-- ===== src/CrossCheck/Agree.antt =====
-- A cross-checked read ends, and it answers only what both endpoints answered.
use ika_pre_alpha.Prelude.{
  none, Option-cases, ℕ, zero, suc, ◌+◌, ◌≤◌, ◌<◌, ◌≡◌, ◌⊎◌, refl, sym, ap, ◌∙◌, Bool, true, false,
  Option, some, ltb, Result, ok, err, arith, Bool-cases, Result-cases, inl, inr,
}
use ika_pre_alpha.Prelude.Int.{eqb_ℤ_iff}
use ika_pre_alpha.CrossCheck.Rounds.{
  target_of-IsNewer, replaced-IsTaken, AreFound, lags_lem, Held, first_reads, first_again,
  second_again, Held-AreGiven, IsShown,
}
use ika_pre_alpha.CrossCheck.{
  AnswerAt, EndpointAnswer, answer_at, behind, CrossCheckEndpoint, first_endpoint, second_endpoint,
  CrossCheckError, read_failed, refused_position, disagree_at_position, still_disagree, EndpointRun,
  Lagging, lags, one_lies, same, lagging_of, replaced, target_of, answered, agree,
  cross_checked_read,
}

module _ {T : Type 0} (equal : T → T → Bool) (window_ms retry_interval_ms : ℕ)
    (run : EndpointRun T) where
  pub record IsClock : Type 0 where
    pub runs : run.started ≤ run.now 0
    pub waits : 0 < retry_interval_ms
    pub ticks : (k : ℕ) → run.now k + retry_interval_ms ≤ run.now (suc k)

  same_values :
      (first second : Option T)
      → same equal first second ≡ true
      → ((first ≡ none) × (second ≡ none)) ⊎ AreFound equal true first second
  unfolding same
  same_values none none h = inl (refl, refl)
  same_values none (some b) h = cc
  same_values (some a) none h = cc
  same_values (some a) (some b) h = inr (a, b, refl, refl, h)

  positions_equal :
      (first second : AnswerAt T)
      → same equal first.value second.value ≡ false
      → lagging_of first second ≡ one_lies
      → AreFound equal false first.value second.value × (first.position ≡ second.position)
  unfolding same lagging_of
  positions_equal first second differs lies = elim (Option-cases first.value) [
    | inl nothing ↦ absurd (ground arith)
    | inr (a, at_first) ↦ elim (Option-cases second.value) [
      | inl nothing ↦ absurd (ground arith)
      | inr (b, at_second) ↦ (
        (a, b, at_first, at_second, ground arith),
        (eqb_ℤ_iff first.position second.position).0 (ground arith),
      )
    ]
  ]

  abbrev Settles : Option (Result CrossCheckError (Option T)) → Type 0
  Settles outcome =
      (result : Result CrossCheckError (Option T)) × (outcome ≡ some result)
      × IsShown equal window_ms retry_interval_ms run result

  Lagging-cases :
      (l : Lagging) → ((endpoint : CrossCheckEndpoint) × (l ≡ lags endpoint)) ⊎ (l ≡ one_lies)
  Lagging-cases (lags endpoint) = inl (endpoint, refl)
  Lagging-cases one_lies = inr refl

  CrossCheckEndpoint-cases : (e : CrossCheckEndpoint) → (e ≡ first_endpoint) ⊎ (e ≡ second_endpoint)
  CrossCheckEndpoint-cases first_endpoint = inl refl
  CrossCheckEndpoint-cases second_endpoint = inr refl

  agree_ends :
      IsClock
      → (fuel k : ℕ) (first second : AnswerAt T) → window_ms < k + fuel
      → k ≤ window_ms
      → run.started + k ≤ run.now k
      → Held equal window_ms retry_interval_ms run k first second
      → Settles (agree equal window_ms retry_interval_ms run fuel k first second)
  unfolding agree
  agree_ends clock zero k first second enough few t held = absurd (omega arith)
  agree_ends clock (suc fuel) k first second enough few t held =
      let target = target_of first second in
      let given = Held-AreGiven equal window_ms retry_interval_ms run held in
      elim (Bool-cases (same equal first.value second.value)) [
        | inl agrees ↦ (
          ok first.value,
          rw (agrees, agree) refl,
          (k, first, second, held, given, refl, same_values first.value second.value agrees),
        )
        | inr differs ↦ elim (Lagging-cases (lagging_of first second)) [
          | inr lies ↦
              let (found, at_one) = positions_equal first second differs lies in
              (
                err disagree_at_position,
                rw (differs, lies, agree) refl,
                (k, first, second, held, given, found, at_one),
              )
          | inl (endpoint, lagging) ↦
              let lag = lags_lem equal endpoint first second differs lagging in
              elim (Bool-cases (ltb (run.started + window_ms) (run.now k + retry_interval_ms))) [
                | inl late ↦ (
                  err (still_disagree window_ms),
                  rw (differs, lagging, late, agree) refl,
                  (refl, (k, endpoint, first, second, held, lag, λ time. ground arith)),
                )
                | inr early ↦
                    let time : run.now k + retry_interval_ms ≤ run.started + window_ms =
                      ground arith in
                    let later : run.started + suc k ≤ run.now (suc k) =
                      omega (arith, clock.ticks k, clock.waits) in
                    elim (Result-cases (run.read_again k endpoint target)) [
                      | inr (failure, failed) ↦ (
                        err (read_failed endpoint failure),
                        rw (differs, lagging, early, failed, agree) refl,
                        inr (
                          k,
                          first,
                          second,
                          target,
                          held,
                          lag,
                          time,
                          target_of-IsNewer first second,
                          failed,
                        ),
                      )
                      | inl (answer, again) ↦ elim (CrossCheckEndpoint-cases endpoint) [
                        | inl is_first ↦
                            let lags_first : lagging_of first second ≡ lags first_endpoint =
                              lagging ∙ ap lags is_first in
                            let read : run.read_again k first_endpoint target ≡ ok answer =
                              ap (λ e. run.read_again k e target) (sym is_first) ∙ again in
                            rw (differs, lags_first, early, read, agree)
                              (agree_ends clock fuel (suc k) (replaced first target answer) second
                                (omega arith) (omega (arith, clock.waits)) later
                                (first_again held
                                  (lags_lem equal first_endpoint first second differs lags_first)
                                  time (target_of-IsNewer first second) read
                                  (replaced-IsTaken first target answer)))
                        | inr is_second ↦
                            let lags_second : lagging_of first second ≡ lags second_endpoint =
                              lagging ∙ ap lags is_second in
                            let read : run.read_again k second_endpoint target ≡ ok answer =
                              ap (λ e. run.read_again k e target) (sym is_second) ∙ again in
                            rw (differs, lags_second, early, read, agree)
                              (agree_ends clock fuel (suc k) first (replaced second target answer)
                                (omega arith) (omega (arith, clock.waits)) later
                                (second_again held
                                  (lags_lem equal second_endpoint first second differs lags_second)
                                  time (target_of-IsNewer first second) read
                                  (replaced-IsTaken second target answer)))
                      ]
                    ]
              ]
        ]
      ]

  EndpointAnswer-cases :
      (a : EndpointAnswer T) → ((answer : AnswerAt T) × (a ≡ answer_at answer)) ⊎ (a ≡ behind)
  EndpointAnswer-cases (answer_at answer) = inl (answer, refl)
  EndpointAnswer-cases behind = inr refl

  -- With a clock that runs, a cross-checked read ends. The endpoint that lags, which found nothing
  -- where the other found a value or whose different value is at the older position, is read again at
  -- the newer position, each time within the window, and a re-read's answer counts only at that position
  -- or past it. A value returned is one that both endpoints answered, the first endpoint's, and equal to
  -- the second's under the caller's test, or both found nothing. It fails only where a read failed,
  -- where an endpoint refused a position in its first read, where the endpoints answered different
  -- values at one position, or where an endpoint still lags and the window has no time for another
  -- read.
  pub cross_checked_read_ends :
      IsClock → Settles (cross_checked_read equal window_ms retry_interval_ms run)
  unfolding cross_checked_read answered
  cross_checked_read_ends clock = elim (Result-cases (run.first_read first_endpoint)) [
    | inr (failure, failed) ↦
        (err (read_failed first_endpoint failure), rw (failed, cross_checked_read) refl, inl failed)
    | inl (first, f) ↦ elim (Result-cases (run.first_read second_endpoint)) [
      | inr (failure, failed) ↦ (
        err (read_failed second_endpoint failure),
        rw (f, failed, cross_checked_read) refl,
        inl failed,
      )
      | inl (second, s) ↦ elim (EndpointAnswer-cases first) [
        | inr is_behind ↦
            let g : run.first_read first_endpoint ≡ ok behind = f ∙ ap ok is_behind in
            (err (refused_position first_endpoint), rw (g, s, cross_checked_read) refl, g)
        | inl (a, at_first) ↦
            let g : run.first_read first_endpoint ≡ ok (answer_at a) = f ∙ ap ok at_first in
            elim (EndpointAnswer-cases second) [
              | inr is_behind ↦
                  let h : run.first_read second_endpoint ≡ ok behind = s ∙ ap ok is_behind in
                  (err (refused_position second_endpoint), rw (g, h, cross_checked_read) refl, h)
              | inl (b, at_second) ↦
                  let h : run.first_read second_endpoint ≡ ok (answer_at b) = s ∙ ap ok at_second in
                  rw (g, h, cross_checked_read)
                    (agree_ends clock (suc window_ms) 0 a b (omega arith) (omega arith)
                      (omega (arith, clock.runs)) (first_reads g h))
            ]
      ]
    ]
  ]
