-- ===== src/KeyOutput/Output/Waits.antt =====
-- The wait for a record ends.
use ika_pre_alpha.Prelude.{
  ℕ, zero, suc, ◌+◌, ◌≤◌, ◌≡◌, refl, sym, ap, ◌∙◌, ◌⊎◌, inl, inr, Option, none, some, ltb, Result,
  ok, err, Bool-cases, Option-cases, Result-cases, arith,
}
use ika_pre_alpha.Prelude.Bytes.{Bytes}
use ika_pre_alpha.Networks.{NetworkKeyOutputRecord}
use ika_pre_alpha.KeyOutput.{
  OutputFailure, output_failed, record_missing, ReshareRecordWait, TimedRead, within_time_left,
  RecordKind, dkg_record_kind, reshare_record_kind, OutputRun, ReadStep, handed_on, not_registered,
  again, read_step, record_once_signed,
}

-- The pause is a millisecond at least, and so is what lies between the rounds' looks at the clock.
pub record IsTimed (run : OutputRun) (wait : ReshareRecordWait) : Type 0 where
  pub pauses : 1 ≤ wait.pause_ms
  pub starts : (kind : RecordKind) → run.started ≤ run.checked_at kind 0
  pub ticks : (kind : RecordKind) (k : ℕ) → run.checked_at kind k + 1 ≤ run.checked_at kind (suc k)

pub read-of_within :
    {A : Type 0} (read : TimedRead A) (now deadline : ℕ) (a : A)
    → within_time_left read now deadline ≡ ok a
    → read.answer ≡ ok a
unfolding within_time_left
read-of_within read now deadline a h = elim (Option-cases read.settles_at) [
  | inl e ↦ absurd (ground arith)
  | inr (settled, e) ↦ elim (Result-cases read.answer) [
    | inl (b, f) ↦ ground arith
    | inr (error, f) ↦ absurd (ground arith)
  ]
]

read_step-handed :
    (kind : RecordKind) (served : Bytes) (found : Option NetworkKeyOutputRecord)
    (stored : NetworkKeyOutputRecord)
    → read_step kind served found ≡ handed_on stored
    → found ≡ some stored
unfolding read_step
read_step-handed dkg_record_kind served none stored h = absurd (ground arith)
read_step-handed (reshare_record_kind epoch) served none stored h = absurd (ground arith)
read_step-handed dkg_record_kind served (some x) stored h = ground arith
read_step-handed (reshare_record_kind epoch) served (some x) stored h = ground arith

ReadStep-cases :
    (s : ReadStep)
    → ((stored : NetworkKeyOutputRecord) × (s ≡ handed_on stored))
      ⊎ ((s ≡ not_registered) ⊎ (s ≡ again))
ReadStep-cases (handed_on stored) = inl (stored, refl)
ReadStep-cases not_registered = inr (inl refl)
ReadStep-cases again = inr (inr refl)

-- A record that the wait hands on was read from the chain in some round.
abbrev pub WasRead : OutputRun → RecordKind → NetworkKeyOutputRecord → Type 0
WasRead run kind stored = (round : ℕ) × ((run.record_read kind round).answer ≡ ok (some stored))

module _ (run : OutputRun) (wait : ReshareRecordWait) (timed : IsTimed run wait) where
  checked_after : (kind : RecordKind) (k : ℕ) → run.started + k ≤ run.checked_at kind k
  checked_after kind zero = omega (arith, timed.starts kind)
  checked_after kind (suc k) = omega (arith, checked_after kind k, timed.ticks kind k)

  pub record_once_signed_ends :
      (fuel k : ℕ) (kind : RecordKind) (served : Bytes)
      → k ≤ wait.budget_ms
      → wait.budget_ms + 1 ≤ fuel + k
      → (result : Result OutputFailure NetworkKeyOutputRecord) × (record_once_signed fuel k run kind
            served
            (run.started + wait.budget_ms)
            wait
          ≡ some result)
        × ((stored : NetworkKeyOutputRecord) → result ≡ ok stored → WasRead run kind stored)
  unfolding record_once_signed
  record_once_signed_ends zero k kind served low enough = absurd (omega arith)
  record_once_signed_ends (suc fuel) k kind served low enough =
      let deadline = run.started + wait.budget_ms in
      elim (Result-cases
        (within_time_left (run.record_read kind k) (run.asked_at kind k) deadline)) [
          | inr (failure, e) ↦ (err failure, ground arith, λ stored is. absurd (ground arith))
          | inl (found, e) ↦ elim (ReadStep-cases (read_step kind served found)) [
            | inl (stored, f) ↦ (
              ok stored,
              ground arith,
              λ other is.
                  let same : other ≡ stored = ground arith in
                  (
                    k,
                    read-of_within (run.record_read kind k) (run.asked_at kind k) deadline
                        (some other)
                        (e
                          ∙ ap ok
                              (read_step-handed kind served found stored f ∙ ap some (sym same))),
                  ),
            )
            | inr (inl f) ↦ (
              err (output_failed record_missing),
              ground arith,
              λ stored is. absurd (ground arith),
            )
            | inr (inr f) ↦
                elim (Bool-cases (ltb deadline (run.checked_at kind k + wait.pause_ms))) [
                  | inl late ↦ (
                    err (output_failed record_missing),
                    ground arith,
                    λ stored is. absurd (ground arith),
                  )
                  | inr early ↦
                      let after = checked_after kind k in
                      let within : suc k ≤ wait.budget_ms = ground (arith, timed.pauses) in
                      let (result, ends, read) =
                        record_once_signed_ends fuel (suc k) kind served within (omega arith) in
                      (result, ground arith, read)
                ]
          ]
        ]
