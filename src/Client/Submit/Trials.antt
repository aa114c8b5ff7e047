-- ===== src/Client/Submit/Trials.antt =====
-- What a submission and a read answer, and what they record, from the validators that they try.
use ika_pre_alpha.Prelude.{
  ℕ, ◌≡◌, refl, Bool, true, false, not, ◌&&◌, ◌||◌, Option, none, some, List, [], ◌∷◌, ◌==◌,
  if◌then◌else◌, Result, ok, err, map_err, arith, take, drop, ◌++◌, keep, all, find?, Bool-cases,
  Result-cases, inl, inr,
}
use ika_pre_alpha.Client.{
  has_code, unavailable, is_epoch_closing_refusal, undefined_thrown, GrpcError,
  is_not_a_committee_member, ThrownError, thrown, every_validator_refused, Refused, refused_at,
  set_refused, is_refused, validator_indexes,
}
use ika_pre_alpha.Client.Submit.{
  CallRun, ends_submission, last_throw, submit_to_each, submit_transaction, read_from_each, read,
}
use ika_pre_alpha.Client.Submit.Indexes.{
  refused_at-set_refused, Distinct, AgreeOn, AgreeOn-refl, AgreeOn-set_refused,
  validator_indexes-Distinct, rotated-Distinct,
}

module _ {A : Type 0} (refusal_max_age_ms : ℕ) (run : CallRun A) where
  -- The record that the call starts with does not pass the validator over.
  abbrev pub is_asked : Refused → ℕ → Bool
  is_asked refused index = not (is_refused refusal_max_age_ms refused (run.checked_at index) index)

  abbrev pub asked : Refused → List ℕ → List ℕ
  asked refused indexes = keep (is_asked refused) indexes

  -- An answer that ends a submission: a result, or an error that is thrown at once, of another status
  -- than `UNAVAILABLE` or an epoch-closing refusal.
  abbrev pub decides : Result GrpcError A → Bool
  decides (ok result) = true
  decides (err error) =
      if has_code unavailable error.code then is_epoch_closing_refusal error else true

  ends_submission_lem :
      (error : GrpcError)
      → (if has_code unavailable error.code then is_epoch_closing_refusal error else true)
        ≡ ends_submission error
  unfolding ends_submission
  ends_submission_lem error = ground arith

  -- What is thrown when no answer decided: that every validator was refused, or the last error.
  abbrev pub thrown_last : Bool → Option GrpcError → ThrownError
  thrown_last every_one last =
      if every_one
      then every_validator_refused last
      else elim last as (λ x. ThrownError) [ none ↦ undefined_thrown | some error ↦ thrown error ]

  last_throw_lem :
      (every_one : Bool) (last : Option GrpcError)
      → thrown_last every_one last ≡ last_throw every_one last
  unfolding last_throw
  last_throw_lem true last = refl
  last_throw_lem false none = refl
  last_throw_lem false (some error) = refl

  abbrev pub refuses_key : Result GrpcError A → Bool
  refuses_key (ok result) = false
  refuses_key (err error) = is_not_a_committee_member error

  abbrev error_of : Result GrpcError A → Option GrpcError
  error_of (ok result) = none
  error_of (err error) = some error

  abbrev last_error_of : Option GrpcError → List ℕ → Option GrpcError
  last_error_of last [] = last
  last_error_of last (i ∷ rest) = last_error_of (error_of (run.answer i)) rest

  abbrev pub outcome_of : Bool → Option GrpcError → List ℕ → Result ThrownError A
  outcome_of every_one last indexes = elim (find? (λ (i : ℕ). decides (run.answer i)) indexes) [
    | some i ↦ map_err thrown (run.answer i)
    | none ↦ err (
        thrown_last (every_one && all (λ (i : ℕ). refuses_key (run.answer i)) indexes)
          (last_error_of last indexes))
  ]

  is_refused_agree :
      (first refused : Refused) (now i : ℕ)
      → refused_at i refused ≡ refused_at i first
      → is_refused refusal_max_age_ms refused now i ≡ is_refused refusal_max_age_ms first now i
  unfolding is_refused
  is_refused_agree first refused now i e = rw (e, is_refused) refl

  submit_to_each_lem :
      (first : Refused) (every_one : Bool) (last : Option GrpcError) (rest : List ℕ)
      (refused : Refused)
      → Distinct rest
      → AgreeOn refused first rest
      → (submit_to_each refusal_max_age_ms run every_one last rest refused).0
        ≡ outcome_of every_one last (asked first rest)
  unfolding submit_to_each
  submit_to_each_lem first every_one last [] refused d a =
      ground (arith, last_throw_lem (every_one && true) last)
  submit_to_each_lem first every_one last (i ∷ rest) refused (n, d) (e, a) =
      let same = is_refused_agree first refused (run.checked_at i) i e in
      let passed = submit_to_each_lem first every_one last rest refused d a in
      elim (Bool-cases (is_refused refusal_max_age_ms first (run.checked_at i) i)) [
        | inl over ↦ ground arith
        | inr asked_now ↦ elim (Result-cases (run.answer i)) [
          | inl (result, answered) ↦ ground arith
          | inr (error, failed) ↦
              let decision = ends_submission_lem error in
              elim (Bool-cases (ends_submission error)) [
                | inl ends ↦ ground arith
                | inr goes_on ↦ elim (Bool-cases (is_not_a_committee_member error)) [
                  | inl key_refused ↦ ground (
                    arith,
                    submit_to_each_lem first every_one (some error) rest
                        (set_refused i (run.recorded_at i) refused) d
                        (AgreeOn-set_refused i (run.recorded_at i) refused first rest n a),
                  )
                  | inr other ↦
                      ground (arith, submit_to_each_lem first false (some error) rest refused d a)
                ]
              ]
        ]
      ]

  -- A submission answers what the first validator whose answer decides gave, its result or its error
  -- as it is, of the validators in their order that the record of refused keys does not pass over at
  -- its start. An answer decides when it is a result, an error with another status than `UNAVAILABLE`,
  -- or an epoch-closing refusal. When no answer decides, the submission throws the last validator's
  -- error, or the error of every validator refused when each validator asked had its key refused.
  pub submit_transaction_outcome :
      (further : ℕ) (refused : Refused)
      → (submit_transaction refusal_max_age_ms run further refused).0
        ≡ outcome_of true none (asked refused (validator_indexes further))
  unfolding submit_transaction
  submit_transaction_outcome further refused =
      submit_to_each_lem refused true none (validator_indexes further) refused
        (validator_indexes-Distinct further) (AgreeOn-refl refused (validator_indexes further))

  -- The validator was tried before an answer decided, and its key was refused.
  abbrev pub newly_refused : (Result GrpcError A → Bool) → ℕ → List ℕ → Bool
  newly_refused decides_call j [] = false
  newly_refused decides_call j (i ∷ rest) =
      not (decides_call (run.answer i))
      && ((i == j && refuses_key (run.answer i)) || newly_refused decides_call j rest)

  submit_to_each_record :
      (first : Refused) (every_one : Bool) (last : Option GrpcError) (rest : List ℕ)
      (refused : Refused) (j : ℕ)
      → Distinct rest
      → AgreeOn refused first rest
      → refused_at j (submit_to_each refusal_max_age_ms run every_one last rest refused).1 ≡ (
          if newly_refused decides j (asked first rest)
          then some (run.recorded_at j)
          else refused_at j refused)
  unfolding submit_to_each
  submit_to_each_record first every_one last [] refused j d a = ground arith
  submit_to_each_record first every_one last (i ∷ rest) refused j (n, d) (e, a) =
      let same = is_refused_agree first refused (run.checked_at i) i e in
      let passed = submit_to_each_record first every_one last rest refused j d a in
      let recorded = refused_at-set_refused j i (run.recorded_at i) refused in
      elim (Bool-cases (is_refused refusal_max_age_ms first (run.checked_at i) i)) [
        | inl over ↦ ground arith
        | inr asked_now ↦ elim (Result-cases (run.answer i)) [
          | inl (result, answered) ↦ ground arith
          | inr (error, failed) ↦
              let decision = ends_submission_lem error in
              elim (Bool-cases (ends_submission error)) [
                | inl ends ↦ ground arith
                | inr goes_on ↦ elim (Bool-cases (is_not_a_committee_member error)) [
                  | inl key_refused ↦ ground (
                    arith,
                    submit_to_each_record first every_one (some error) rest
                        (set_refused i (run.recorded_at i) refused) j d
                        (AgreeOn-set_refused i (run.recorded_at i) refused first rest n a),
                  )
                  | inr other ↦
                      ground
                        (arith, submit_to_each_record first false (some error) rest refused j d a)
                ]
              ]
        ]
      ]

  -- After a submission, the record says of each validator what it said before, except that a validator
  -- that was asked before an answer decided, and whose key was refused, is recorded with the time of
  -- that refusal. No other failure is recorded.
  pub submit_transaction_record :
      (further : ℕ) (refused : Refused) (j : ℕ)
      → refused_at j (submit_transaction refusal_max_age_ms run further refused).1 ≡ (
          if newly_refused decides j (asked refused (validator_indexes further))
          then some (run.recorded_at j)
          else refused_at j refused)
  unfolding submit_transaction
  submit_transaction_record further refused j =
      submit_to_each_record refused true none (validator_indexes further) refused j
        (validator_indexes-Distinct further) (AgreeOn-refl refused (validator_indexes further))

  -- An answer that ends a read: a result, or an error other than a refused key.
  abbrev pub ends_read : Result GrpcError A → Bool
  ends_read answer = not (refuses_key answer)

  abbrev pub read_outcome_of : Option GrpcError → List ℕ → Result ThrownError A
  read_outcome_of last indexes = elim (find? (λ (i : ℕ). ends_read (run.answer i)) indexes) [
    | some i ↦ map_err thrown (run.answer i)
    | none ↦ err (every_validator_refused (last_error_of last indexes))
  ]

  read_from_each_lem :
      (first : Refused) (last : Option GrpcError) (rest : List ℕ) (refused : Refused) (j : ℕ)
      → Distinct rest
      → AgreeOn refused first rest
      → ((read_from_each refusal_max_age_ms run last rest refused).0
          ≡ read_outcome_of last (asked first rest))
        × (refused_at j (read_from_each refusal_max_age_ms run last rest refused).1 ≡ (
            if newly_refused ends_read j (asked first rest)
            then some (run.recorded_at j)
            else refused_at j refused))
  unfolding read_from_each
  read_from_each_lem first last [] refused j d a = (ground arith, ground arith)
  read_from_each_lem first last (i ∷ rest) refused j (n, d) (e, a) =
      let same = is_refused_agree first refused (run.checked_at i) i e in
      let passed = read_from_each_lem first last rest refused j d a in
      let recorded = refused_at-set_refused j i (run.recorded_at i) refused in
      elim (Bool-cases (is_refused refusal_max_age_ms first (run.checked_at i) i)) [
        | inl over ↦ (ground (arith, passed.0), ground (arith, passed.1))
        | inr asked_now ↦ elim (Result-cases (run.answer i)) [
          | inl (result, answered) ↦ (ground arith, ground arith)
          | inr (error, failed) ↦ elim (Bool-cases (is_not_a_committee_member error)) [
            | inr other ↦ (ground arith, ground arith)
            | inl key_refused ↦
                let next =
                  read_from_each_lem first (some error) rest
                    (set_refused i (run.recorded_at i) refused) j d
                    (AgreeOn-set_refused i (run.recorded_at i) refused first rest n a) in
                (ground (arith, next.0), ground (arith, next.1))
          ]
        ]
      ]

  -- A read from the validator `from` on, wrapping around, answers what the first validator gave that
  -- the record does not pass over and whose key is not refused, its result or its error. When there is
  -- none, it throws the error of every validator refused. The record then says of each validator what
  -- it said before, except for those asked until then whose keys were refused.
  pub read_lem :
      (further from : ℕ) (refused : Refused) (j : ℕ)
      → let indexes =
          drop from (validator_indexes further) ++ take from (validator_indexes further) in
        ((read refusal_max_age_ms run further from refused).0
          ≡ read_outcome_of none (asked refused indexes))
        × (refused_at j (read refusal_max_age_ms run further from refused).1 ≡ (
            if newly_refused ends_read j (asked refused indexes)
            then some (run.recorded_at j)
            else refused_at j refused))
  unfolding read
  read_lem further from refused j =
      read_from_each_lem refused none _ refused j
        (rotated-Distinct from (validator_indexes further) (validator_indexes-Distinct further))
        (AgreeOn-refl refused _)
