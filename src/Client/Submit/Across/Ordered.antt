-- ===== src/Client/Submit/Across/Ordered.antt =====
-- What every round keeps: the epochs that requests name only grow.
use Prim.Native.Nat.{min}
use ika_pre_alpha.Prelude.{
  ◌+◌, ◌<◌, ◌≤◌, ap, ℕ, ◌-◌, ◌≡◌, ◌⊎◌, refl, false, ◌&&◌, List, [], ◌∷◌, ltb, leb, Result, ok, err,
  arith, All, Bool-cases, Result-cases, inl, inr,
}
use ika_pre_alpha.Prelude.Int.{ℤ, ltb_ℤ, ◌≤ℤ◌, ◌<ℤ◌}
use ika_pre_alpha.Client.{
  SignedGrpcRequest, unavailable, deadline_exceeded, has_code, is_epoch_closing_refusal,
  ThrownError, as_grpc_error, Refused,
}
use ika_pre_alpha.Client.Submit.{submit_transaction}
use ika_pre_alpha.Client.Submit.Across.{
  Raced, answered, rejected, timed_out, AcrossError, caller_failed, submission_failed, out_of_time,
  not_positive, AcrossRun, AcrossTimes, ClientSettings, Event, request_sent, closing_refusal, Phase,
  waiting, sending, Progress, Step, go_on, end_with, is_positive, deadline, build_round, wait_round,
  failed_round, send_round, round,
}

-- The epochs that refused, the last one first.
abbrev pub closings : List Event → List ℤ
closings [] = []
closings (request_sent e ∷ log) = closings log
closings (closing_refusal e ∷ log) = e ∷ closings log

-- Of a log, the last event first: every request sent names a later epoch than every epoch that refused
-- before, and a refusal is that of the request sent last.
abbrev pub IsOrdered : List Event → Type 0
IsOrdered [] = Unit
IsOrdered (request_sent e ∷ log) = All (λ (c : ℤ). c <ℤ e) (closings log) × IsOrdered log
IsOrdered (closing_refusal e ∷ log) =
    ((before : List Event) × (log ≡ request_sent e ∷ before)) × IsOrdered log

-- The last refusal, if any, is that of `epoch`, and no epoch that refused is later.
abbrev pub LastRefused : ℤ → List Event → Type 0
LastRefused epoch log =
    ((before : List ℤ) × (closings log ≡ epoch ∷ before))
    × All (λ (c : ℤ). c ≤ℤ epoch) (closings log)

abbrev pub IsPhaseOf : Phase → Progress → Type 0
IsPhaseOf (waiting refused_epoch) progress =
    LastRefused refused_epoch progress.log × IsOrdered progress.log
IsPhaseOf (sending refused_epoch epoch request) progress =
    LastRefused refused_epoch progress.log × (refused_epoch <ℤ epoch) × IsOrdered progress.log

All-weaken {ℓ κ μ} :
    {A : Type ℓ} (P : A → Type κ) (Q : A → Type μ)
    → ((a : A) → P a → Q a)
    → (xs : List A) → All P xs
    → All Q xs
All-weaken P Q f [] h = tt
All-weaken P Q f (x ∷ xs) (p, h) = (f x p, All-weaken P Q f xs h)

Raced-cases :
    {Failure A : Type 0} (r : Raced Failure A)
    → ((a : A) × (r ≡ answered a)) ⊎ (((e : Failure) × (r ≡ rejected e)) ⊎ (r ≡ timed_out))
Raced-cases (answered a) = inl (a, refl)
Raced-cases (rejected e) = inr (inl (e, refl))
Raced-cases timed_out = inr (inr refl)

module _ {Failure A : Type 0} (settings : ClientSettings) (times : AcrossTimes)
    (run : AcrossRun Failure A) where
  -- What the first submission answered, and the record that it left.
  abbrev pub IsSentFirst : Result ThrownError A → Refused → Type 0
  IsSentFirst result final =
      (epoch : ℤ) × (request : SignedGrpcRequest) × (held : Refused) × (run.first_build epoch
        ≡ ok request)
      × (submit_transaction settings.refusal_max_age_ms (run.first_call request times.timeout_ms)
            settings.further_validator_count held
          ≡ (result, final))

  -- What the submission of a round answered. The round starts before the deadline, and its time-out is
  -- the submission's own or the time left, whichever is shorter.
  abbrev pub IsSentIn : ℕ → Result ThrownError A → Refused → Type 0
  IsSentIn k result final =
      (request : SignedGrpcRequest) × (timeout : ℕ) × (held : Refused) × (run.now k
        < deadline settings times run)
      × (timeout ≤ times.timeout_ms)
      × (run.now k + timeout ≤ deadline settings times run)
      × ((timeout ≡ times.timeout_ms) ⊎ (run.now k + timeout ≡ deadline settings times run))
      × (submit_transaction settings.refusal_max_age_ms (run.call k request timeout)
            settings.further_validator_count held
          ≡ (result, final))

  -- The wait was over at the start of the round, before its epoch was read or just after, before its
  -- request was built or by then, or when its submission had failed.
  abbrev pub IsOver : ℕ → Type 0
  IsOver k =
      (deadline settings times run ≤ run.now k)
      ⊎ ((run.current_epoch k ≡ timed_out)
          ⊎ ((deadline settings times run < run.now_read k)
              ⊎ ((deadline settings times run ≤ run.now_built k)
                  ⊎ (((epoch : ℤ) × (run.build k epoch ≡ timed_out))
                      ⊎ (deadline settings times run ≤ run.now_failed k)))))

  -- The caller's function that failed: one of the first readings, or one of the round's.
  abbrev pub IsCallers : ℕ → Failure → Type 0
  IsCallers k failure =
      (run.first_epoch ≡ err failure)
      ⊎ (((epoch : ℤ) × (run.first_build epoch ≡ err failure))
          ⊎ ((run.now k < deadline settings times run)
              × ((run.current_epoch k ≡ rejected failure)
                  ⊎ ((epoch : ℤ) × (run.build k epoch ≡ rejected failure)))))

  -- What the end of the method in a round, or before the first, says. The error of the time being over
  -- names the epoch that refused last. A submission's error that is thrown is no epoch-closing refusal,
  -- and is `UNAVAILABLE` from the first submission only.
  abbrev pub Explains : ℕ → Result (AcrossError Failure) A → Progress → Type 0
  Explains k (ok answer) final =
      ((epoch : ℤ) × (before : List Event) × (final.log ≡ request_sent epoch ∷ before))
      × (IsSentFirst (ok answer) final.refused ⊎ IsSentIn k (ok answer) final.refused)
  Explains k (err (caller_failed failure)) final = IsCallers k failure
  Explains k (err (submission_failed error)) final =
      (is_epoch_closing_refusal (as_grpc_error error) ≡ false)
      × (IsSentFirst (err error) final.refused
          ⊎ ((has_code unavailable (as_grpc_error error).code ≡ false)
              × IsSentIn k (err error) final.refused))
  Explains k (err (out_of_time epoch wait)) final =
      (wait ≡ times.epoch_wait_ms)
      × ((before : List ℤ) × (closings final.log ≡ epoch ∷ before))
      × IsOver k
  Explains k (err not_positive) final = is_positive times ≡ false

  abbrev pub Follows : ℕ → Step Failure A → Type 0
  Follows k (go_on next after) = IsPhaseOf next after
  Follows k (end_with result final) = IsOrdered final.log × Explains k result final

  build_round-Follows :
      (k : ℕ) (refused_epoch epoch : ℤ) (progress : Progress)
      → LastRefused refused_epoch progress.log
      → refused_epoch <ℤ epoch
      → IsOrdered progress.log
      → run.now k < deadline settings times run
      → Follows k (build_round settings times run k refused_epoch epoch progress)
  unfolding build_round
  build_round-Follows k refused_epoch epoch progress last later ordered before_end =
      elim (Bool-cases (leb (deadline settings times run) (run.now_built k))) [
        | inl over ↦
            rw (over, build_round) (ordered, (refl, last.0, inr (inr (inr (inl (ground arith))))))
        | inr early ↦ elim (Raced-cases (run.build k epoch)) [
          | inl (request, built) ↦ rw (early, built, build_round) (last, later, ordered)
          | inr (inl (e, failed)) ↦
              rw (early, failed, build_round) (ordered, inr (inr (before_end, inr (epoch, failed))))
          | inr (inr late) ↦
              rw (early, late, build_round)
                (ordered, (refl, last.0, inr (inr (inr (inr (inl (epoch, late)))))))
        ]
      ]

  wait_round-Follows :
      (k : ℕ) (refused_epoch : ℤ) (progress : Progress)
      → IsPhaseOf (waiting refused_epoch) progress
      → Follows k (wait_round settings times run k refused_epoch progress)
  unfolding wait_round
  wait_round-Follows k refused_epoch progress (last, ordered) =
      elim (Bool-cases (leb (deadline settings times run) (run.now k))) [
        | inl over ↦ rw (over, wait_round) (ordered, (refl, last.0, inl (ground arith)))
        | inr early ↦ elim (Raced-cases (run.current_epoch k)) [
          | inr (inl (e, failed)) ↦
              rw (early, failed, wait_round) (ordered, inr (inr (ground arith, inl failed)))
          | inr (inr late) ↦ rw (early, late, wait_round) (ordered, (refl, last.0, inr (inl late)))
          | inl (epoch, shown) ↦
              elim (Bool-cases (ltb (deadline settings times run) (run.now_read k))) [
                | inl after ↦
                    rw (early, shown, after, wait_round)
                      (ordered, (refl, last.0, inr (inr (inl (ground arith)))))
                | inr before ↦ elim (Bool-cases (ltb_ℤ refused_epoch epoch)) [
                  | inl later ↦
                      rw (early, shown, before, later, wait_round)
                        (build_round-Follows k refused_epoch epoch progress last (ground arith)
                          ordered (ground arith))
                  | inr same ↦ rw (early, shown, before, same, wait_round) (last, ordered)
                ]
              ]
        ]
      ]

  request_sent-IsOrdered :
      (refused_epoch epoch : ℤ) (refused : Refused) (progress : Progress)
      → LastRefused refused_epoch progress.log
      → refused_epoch <ℤ epoch
      → IsOrdered progress.log
      → IsOrdered (request_sent epoch ∷ progress.log)
  request_sent-IsOrdered refused_epoch epoch refused progress (last, at_most) later ordered = (
    All-weaken (λ (c : ℤ). c ≤ℤ refused_epoch) (λ (c : ℤ). c <ℤ epoch) (λ c h. omega arith)
        (closings progress.log) at_most,
    ordered,
  )

  failed_round-Follows :
      (k : ℕ) (refused_epoch epoch : ℤ) (request : SignedGrpcRequest) (error : ThrownError)
      (log : List Event) (refused : Refused)
      → LastRefused refused_epoch log
      → refused_epoch <ℤ epoch
      → IsOrdered (request_sent epoch ∷ log)
      → IsSentIn k (err error) refused
      → Follows k (
          failed_round settings times run k refused_epoch epoch request error
            (record { log = request_sent epoch ∷ log; refused = refused }))
  unfolding failed_round
  failed_round-Follows k refused_epoch epoch request error log refused last later ordered sent =
      let read = as_grpc_error error in
      elim (Bool-cases (is_epoch_closing_refusal read)) [
        | inl closing ↦
            rw (closing, failed_round)
              (
                (
                  (closings log, refl),
                  (
                    omega arith,
                    All-weaken (λ (c : ℤ). c ≤ℤ refused_epoch) (λ (c : ℤ). c ≤ℤ epoch)
                        (λ c h. omega arith) (closings log) last.1,
                  ),
                ),
                ((log, refl), ordered),
              )
        | inr open_epoch ↦
            elim (Bool-cases (
              has_code deadline_exceeded read.code
              && leb (deadline settings times run) (run.now_failed k))) [
                | inl over ↦
                    rw (open_epoch, over, failed_round)
                      (ordered, (refl, last.0, inr (inr (inr (inr (inr (ground arith)))))))
                | inr early ↦ elim (Bool-cases (has_code unavailable read.code)) [
                  | inl down ↦ rw (open_epoch, early, down, failed_round) (last, later, ordered)
                  | inr other ↦
                      rw (open_epoch, early, other, failed_round)
                        (ordered, (open_epoch, inr (other, sent)))
                ]
              ]
      ]

  IsSentIn-of_submit :
      (k : ℕ) (request : SignedGrpcRequest) (held : Refused) (result : Result ThrownError A)
      → run.now k < deadline settings times run
      → (submit_transaction settings.refusal_max_age_ms
          (run.call k request (min times.timeout_ms (deadline settings times run - run.now k)))
          settings.further_validator_count
          held).0
        ≡ result
      → IsSentIn k result
          (submit_transaction settings.refusal_max_age_ms
            (run.call k request (min times.timeout_ms (deadline settings times run - run.now k)))
            settings.further_validator_count
            held).1
  IsSentIn-of_submit k request held result early answers =
      let timeout = min times.timeout_ms (deadline settings times run - run.now k) in
      let submitted =
        submit_transaction settings.refusal_max_age_ms (run.call k request timeout)
          settings.further_validator_count held in
      (
        request,
        timeout,
        held,
        early,
        omega arith,
        omega arith,
        ground arith,
        ap (λ (r : Result ThrownError A). (r, submitted.1)) answers,
      )

  send_round-Follows :
      (k : ℕ) (refused_epoch epoch : ℤ) (request : SignedGrpcRequest) (progress : Progress)
      → IsPhaseOf (sending refused_epoch epoch request) progress
      → Follows k (send_round settings times run k refused_epoch epoch request progress)
  unfolding send_round
  send_round-Follows k refused_epoch epoch request progress (last, later, ordered) =
      let (result, refused) =
        submit_transaction settings.refusal_max_age_ms
          (run.call k request (min times.timeout_ms (deadline settings times run - run.now k)))
          settings.further_validator_count progress.refused in
      let sent = request_sent-IsOrdered refused_epoch epoch refused progress last later ordered in
      elim (Bool-cases (leb (deadline settings times run) (run.now k))) [
        | inl over ↦ rw (over, send_round) (ordered, (refl, last.0, inl (ground arith)))
        | inr early ↦ elim (Result-cases result) [
          | inl (answer, answers) ↦
              rw (early, answers, send_round)
                (
                  sent,
                  (
                    (epoch, progress.log, refl),
                    inr (
                        IsSentIn-of_submit k request progress.refused (ok answer) (ground arith)
                          answers),
                  ),
                )
          | inr (error, fails) ↦
              rw (early, fails, send_round)
                (failed_round-Follows k refused_epoch epoch request error progress.log refused last
                  later sent
                  (IsSentIn-of_submit k request progress.refused (err error) (ground arith) fails))
        ]
      ]

  pub round-Follows :
      (k : ℕ) (phase : Phase) (progress : Progress)
      → IsPhaseOf phase progress
      → Follows k (round settings times run k phase progress)
  unfolding round
  round-Follows k (waiting refused_epoch) progress h = wait_round-Follows k refused_epoch progress h
  round-Follows k (sending refused_epoch epoch request) progress h =
      send_round-Follows k refused_epoch epoch request progress h
