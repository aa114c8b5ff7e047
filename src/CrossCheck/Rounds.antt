-- ===== src/CrossCheck/Rounds.antt =====
-- The rounds of a cross-checked read, described by what the endpoints answered and the clock showed.
use mathlib.Core.Path.{subst}
use ika_pre_alpha.Prelude.{
  Option-cases, ℕ, suc, ◌+◌, ◌≤◌, ◌≡◌, ◌⊎◌, refl, sym, ap, ◌∙◌, Bool, true, false, Option, none,
  some, Result, ok, err, arith, Bool-cases, inl, inr,
}
use ika_pre_alpha.Prelude.Int.{ℤ, ltb_ℤ, leb_ℤ, ◌≤ℤ◌, ◌<ℤ◌}
use ika_pre_alpha.CrossCheck.{
  AnswerAt, EndpointAnswer, answer_at, behind, CrossCheckEndpoint, first_endpoint, second_endpoint,
  CrossCheckError, read_failed, refused_position, disagree_at_position, still_disagree, EndpointRun,
  lags, same, lagging_of, replaced, target_of,
}

module _ {T : Type 0} where
  -- The newer of the two positions.
  abbrev pub IsNewer : AnswerAt T → AnswerAt T → ℤ → Type 0
  IsNewer first second target =
      (first.position ≤ℤ target)
      × (second.position ≤ℤ target)
      × ((target ≡ first.position) ⊎ (target ≡ second.position))

  -- A re-read's answer takes the old one's place when it is at or past the target, and only then.
  abbrev pub IsTaken : AnswerAt T → ℤ → EndpointAnswer T → AnswerAt T → Type 0
  IsTaken old target behind taken = taken ≡ old
  IsTaken old target (answer_at answer) taken =
      ((target ≤ℤ answer.position) × (taken ≡ answer))
      ⊎ ((answer.position <ℤ target) × (taken ≡ old))

  pub target_of-IsNewer :
      (first second : AnswerAt T) → IsNewer first second (target_of first second)
  unfolding target_of
  target_of-IsNewer first second = elim (Bool-cases (ltb_ℤ second.position first.position)) [
    | inl below ↦ rw (below, target_of) (omega arith, ground arith, inl refl)
    | inr above ↦ rw (above, target_of) (ground arith, omega arith, inr refl)
  ]

  pub replaced-IsTaken :
      (old : AnswerAt T) (target : ℤ) (answer : EndpointAnswer T)
      → IsTaken old target answer (replaced old target answer)
  unfolding replaced
  replaced-IsTaken old target behind = refl
  replaced-IsTaken old target (answer_at answer) =
      elim (Bool-cases (leb_ℤ target answer.position)) [
        | inl reached ↦ rw (reached, replaced) (inl (ground arith, refl))
        | inr short ↦ rw (short, replaced) (inr (ground arith, refl))
      ]

  module _ (equal : T → T → Bool) where
    -- Two values that were found, and whether they are equal under the caller's test.
    abbrev pub AreFound : Bool → Option T → Option T → Type 0
    AreFound equals first second =
        (a : T) × (b : T) × (first ≡ some a) × (second ≡ some b) × (equal a b ≡ equals)

    -- The endpoint to read again: the one that found nothing where the other found a value, and of two
    -- different values the one at the older position.
    abbrev pub Lags : CrossCheckEndpoint → AnswerAt T → AnswerAt T → Type 0
    Lags first_endpoint first second =
        ((first.value ≡ none) × ((b : T) × (second.value ≡ some b)))
        ⊎ (AreFound false first.value second.value × (first.position <ℤ second.position))
    Lags second_endpoint first second =
        (((a : T) × (first.value ≡ some a)) × (second.value ≡ none))
        ⊎ (AreFound false first.value second.value × (second.position <ℤ first.position))

    pub lags_lem :
        (endpoint : CrossCheckEndpoint) (first second : AnswerAt T)
        → same equal first.value second.value ≡ false
        → lagging_of first second ≡ lags endpoint
        → Lags endpoint first second
    unfolding same lagging_of
    lags_lem first_endpoint first second differs lagging = elim (Option-cases first.value) [
      | inl nothing ↦ elim (Option-cases second.value) [
        | inl neither ↦ absurd (ground arith)
        | inr (b, at_second) ↦ inl (nothing, (b, at_second))
      ]
      | inr (a, at_first) ↦ elim (Option-cases second.value) [
        | inl nothing ↦ absurd (ground arith)
        | inr (b, at_second) ↦ inr ((a, b, at_first, at_second, ground arith), ground arith)
      ]
    ]
    lags_lem second_endpoint first second differs lagging = elim (Option-cases first.value) [
      | inl nothing ↦ absurd (ground arith)
      | inr (a, at_first) ↦ elim (Option-cases second.value) [
        | inl nothing ↦ inl ((a, at_first), nothing)
        | inr (b, at_second) ↦ inr ((a, b, at_first, at_second, ground arith), ground arith)
      ]
    ]

    module _ (window_ms retry_interval_ms : ℕ) (run : EndpointRun T) where
      -- The window has time for another read in the round.
      abbrev pub HasTime : ℕ → Type 0
      HasTime k = run.now k + retry_interval_ms ≤ run.started + window_ms

      -- The answers held when a round starts: at first both endpoints' first answers, and then, while
      -- there is time, the endpoint that lags is read again at the newer position, and its answer is
      -- taken or not.
      pub data Held : ℕ → AnswerAt T → AnswerAt T → Type 0 where
        first_reads :
            {first second : AnswerAt T}
            → run.first_read first_endpoint ≡ ok (answer_at first)
            → run.first_read second_endpoint ≡ ok (answer_at second)
            → Held 0 first second
        first_again :
            {k : ℕ} {first second taken : AnswerAt T} {target : ℤ} {answer : EndpointAnswer T}
            → Held k first second
            → Lags first_endpoint first second
            → HasTime k
            → IsNewer first second target
            → run.read_again k first_endpoint target ≡ ok answer
            → IsTaken first target answer taken
            → Held (suc k) taken second
        second_again :
            {k : ℕ} {first second taken : AnswerAt T} {target : ℤ} {answer : EndpointAnswer T}
            → Held k first second
            → Lags second_endpoint first second
            → HasTime k
            → IsNewer first second target
            → run.read_again k second_endpoint target ≡ ok answer
            → IsTaken second target answer taken
            → Held (suc k) first taken

      -- The endpoint gave the answer, in its first read or in a later one.
      abbrev pub IsGivenBy : CrossCheckEndpoint → AnswerAt T → Type 0
      IsGivenBy endpoint answer =
          (run.first_read endpoint ≡ ok (answer_at answer))
          ⊎ ((k : ℕ) × (target : ℤ) × (run.read_again k endpoint target ≡ ok (answer_at answer)))

      -- An answer of each endpoint.
      abbrev pub AreGiven : AnswerAt T → AnswerAt T → Type 0
      AreGiven first second = IsGivenBy first_endpoint first × IsGivenBy second_endpoint second

      IsGivenBy-taken :
          (endpoint : CrossCheckEndpoint) (old taken : AnswerAt T) (k : ℕ) (target : ℤ)
          (answer : EndpointAnswer T)
          → IsGivenBy endpoint old
          → run.read_again k endpoint target ≡ ok answer
          → IsTaken old target answer taken
          → IsGivenBy endpoint taken
      IsGivenBy-taken endpoint old taken k target behind given again same_answer =
          subst (IsGivenBy endpoint) (sym same_answer) given
      IsGivenBy-taken endpoint old taken k target (answer_at answer) given again
            (inl (reached, new)) =
          inr (k, target, again ∙ ap (λ a. ok (answer_at a)) (sym new))
      IsGivenBy-taken endpoint old taken k target (answer_at answer) given again
            (inr (short, stays)) =
          subst (IsGivenBy endpoint) (sym stays) given

      pub Held-AreGiven :
          {k : ℕ} {first second : AnswerAt T} → Held k first second → AreGiven first second
      Held-AreGiven (first_reads f s) = (inl f, inl s)
      Held-AreGiven
            (first_again {k = k} {first = first} {taken = taken} {target = target} {answer = answer}
              h l t n again taking) =
          let (f, s) = Held-AreGiven h in
          (IsGivenBy-taken first_endpoint first taken k target answer f again taking, s)
      Held-AreGiven
            (second_again {k = k} {second = second} {taken = taken} {target = target}
              {answer = answer} h l t n again taking) =
          let (f, s) = Held-AreGiven h in
          (f, IsGivenBy-taken second_endpoint second taken k target answer s again taking)

      -- How a read ends: what was held or read in its last round.
      abbrev pub IsShown : Result CrossCheckError (Option T) → Type 0
      IsShown (ok value) =
          (k : ℕ) × (first : AnswerAt T) × (second : AnswerAt T) × Held k first second
          × AreGiven first second
          × (value ≡ first.value)
          × (((first.value ≡ none) × (second.value ≡ none))
              ⊎ AreFound true first.value second.value)
      IsShown (err (read_failed endpoint failure)) =
          (run.first_read endpoint ≡ err failure)
          ⊎ ((k : ℕ) × (first : AnswerAt T) × (second : AnswerAt T) × (target : ℤ) × Held k first
                second
              × Lags endpoint first second
              × HasTime k
              × IsNewer first second target
              × (run.read_again k endpoint target ≡ err failure))
      IsShown (err (refused_position endpoint)) = run.first_read endpoint ≡ ok behind
      IsShown (err disagree_at_position) =
          (k : ℕ) × (first : AnswerAt T) × (second : AnswerAt T) × Held k first second
          × AreGiven first second
          × AreFound false first.value second.value
          × (first.position ≡ second.position)
      IsShown (err (still_disagree window)) =
          (window ≡ window_ms)
          × ((k : ℕ) × (endpoint : CrossCheckEndpoint) × (first : AnswerAt T) × (second : AnswerAt
                T)
              × Held k first second
              × Lags endpoint first second
              × ¬ HasTime k)
