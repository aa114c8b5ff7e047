-- ===== src/Committee/Answer/Epoch.antt =====
-- The loop of `freshChainEpoch`: it ends, and how.
use Prim.Native.String.{String}
use ika_pre_alpha.Prelude.{
  ℕ, zero, suc, ◌+◌, ◌≤◌, ◌<◌, ◌≡◌, refl, ◌⊎◌, inl, inr, some, arith, Result, ok, err, ltb,
  Bool-cases, Result-cases,
}
use ika_pre_alpha.Prelude.Int.{ℤ, pos, ◌+ℤ◌, ◌≤ℤ◌, ◌<ℤ◌}
use ika_pre_alpha.Committee.{CommitteeError, old_committee, chain_did_not_catch_up, read_failed}
use ika_pre_alpha.Committee.Answer.{
  ChainRun, ChainEpochRetry, EpochStanding, old, fresh, ahead, epoch_standing, fresh_chain_epoch,
}

old_inversion : (epoch chain : ℤ) → epoch_standing epoch chain ≡ old → epoch <ℤ chain
unfolding epoch_standing
old_inversion epoch chain e = ground arith

fresh_inversion :
    (epoch chain : ℤ)
    → epoch_standing epoch chain ≡ fresh
    → (chain ≤ℤ epoch) × (epoch ≤ℤ chain +ℤ pos 1)
unfolding epoch_standing
fresh_inversion epoch chain e = ground arith

ahead_inversion : (epoch chain : ℤ) → epoch_standing epoch chain ≡ ahead → chain +ℤ pos 1 <ℤ epoch
unfolding epoch_standing
ahead_inversion epoch chain e = ground arith

EpochStanding-cases : (s : EpochStanding) → (s ≡ old) ⊎ (s ≡ fresh) ⊎ (s ≡ ahead)
EpochStanding-cases old = inl refl
EpochStanding-cases fresh = inr (inl refl)
EpochStanding-cases ahead = inr (inr refl)

-- The clock: the loop starts before its first read ends, and a pause lasts as long as it should.
pub record IsClock (run : ChainRun) (retry : ChainEpochRetry) : Type 0 where
  pub runs : run.started ≤ run.now 0
  pub ticks : (k : ℕ) → run.now k + retry.pause_ms ≤ run.now (suc k)
  pub pauses : 0 < retry.pause_ms

module _ (epoch : ℤ) (run : ChainRun) (retry : ChainEpochRetry) where
  -- The reads from the `k`-th up to the `j`-th all showed a chain more than one epoch behind, with
  -- time left for another pause.
  pub data Waited : ℕ → ℕ → Type 0 where
    here : {k : ℕ} → Waited k k
    again :
        {k j : ℕ} {chain : ℤ}
        → run.current_epoch k ≡ ok chain
        → chain +ℤ pos 1 <ℤ epoch
        → run.now k + retry.pause_ms ≤ run.started + retry.budget_ms
        → Waited (suc k) j
        → Waited k j

  -- What the `j`-th read showed when the loop ended with a result.
  abbrev pub EndsWith : ℕ → Result CommitteeError ℤ → Type 0
  EndsWith j (ok chain) =
      (run.current_epoch j ≡ ok chain) × (chain ≤ℤ epoch) × (epoch ≤ℤ chain +ℤ pos 1)
  EndsWith j (err e) =
      ((m : String) × (e ≡ read_failed m) × (run.current_epoch j ≡ err m))
      ⊎ ((chain : ℤ) × (e ≡ old_committee epoch chain)
          × (run.current_epoch j ≡ ok chain)
          × (epoch <ℤ chain))
      ⊎ ((chain : ℤ) × (e ≡ chain_did_not_catch_up epoch chain retry.budget_ms)
          × (run.current_epoch j ≡ ok chain)
          × (chain +ℤ pos 1 <ℤ epoch)
          × (run.started + retry.budget_ms < run.now j + retry.pause_ms))

  abbrev Outcome : ℕ → ℕ → Type 0
  Outcome fuel k =
      (r : Result CommitteeError ℤ) × (j : ℕ) × (fresh_chain_epoch epoch run retry fuel k ≡ some r)
      × Waited k j
      × EndsWith j r

  loop_ends :
      IsClock run retry
      → (fuel k : ℕ) → k ≤ retry.budget_ms
      → retry.budget_ms < k + fuel
      → run.started + k ≤ run.now k
      → Outcome fuel k
  unfolding fresh_chain_epoch
  loop_ends clock zero k h enough t = absurd (omega arith)
  loop_ends clock (suc fuel) k h enough t = elim (Result-cases (run.current_epoch k)) [
    | inr (m, failed) ↦
        (err (read_failed m), k, rw (failed, fresh_chain_epoch), here, inl (m, refl, failed))
    | inl (chain, read) ↦ elim (EpochStanding-cases (epoch_standing epoch chain)) [
      | inl is_old ↦ (
        err (old_committee epoch chain),
        k,
        rw (read, is_old, fresh_chain_epoch),
        here,
        inr (inl (chain, refl, read, old_inversion epoch chain is_old)),
      )
      | inr (inl is_fresh) ↦
          let (low, high) = fresh_inversion epoch chain is_fresh in
          (ok chain, k, rw (read, is_fresh, fresh_chain_epoch), here, (read, low, high))
      | inr (inr is_ahead) ↦
          elim (Bool-cases (ltb (run.started + retry.budget_ms) (run.now k + retry.pause_ms))) [
            | inl late ↦ (
              err (chain_did_not_catch_up epoch chain retry.budget_ms),
              k,
              rw (read, is_ahead, late, fresh_chain_epoch),
              here,
              inr (inr (chain, refl, read, ahead_inversion epoch chain is_ahead, ground arith)),
            )
            | inr early ↦
                let next : run.started + suc k ≤ run.now (suc k) =
                  omega (arith, clock.ticks k, clock.pauses) in
                let more : run.now k + retry.pause_ms ≤ run.started + retry.budget_ms =
                  ground arith in
                let (r, j, ends, waited, shown) =
                  loop_ends clock fuel (suc k) (omega (arith, clock.pauses)) (omega arith) next in
                (
                  r,
                  j,
                  rw (read, is_ahead, early, fresh_chain_epoch) ends,
                  again read (ahead_inversion epoch chain is_ahead) more waited,
                  shown,
                )
          ]
    ]
  ]

  -- With a clock that runs, `freshChainEpoch` ends within one round more than its budget's
  -- milliseconds. It answers the chain's epoch of the last read only if the committee's epoch is that
  -- epoch or the one after. It fails only where the last read failed, showed a later epoch than the
  -- committee's, or still showed one more than one epoch behind with no time left for another pause.
  -- Every read before the last showed a chain more than one epoch behind, with time left.
  pub fresh_chain_epoch_ends :
      IsClock run retry
      → (r : Result CommitteeError ℤ) × (j : ℕ) × (fresh_chain_epoch epoch run retry
            (suc retry.budget_ms)
            0
          ≡ some r)
        × Waited 0 j
        × EndsWith j r
  fresh_chain_epoch_ends clock =
      loop_ends clock (suc retry.budget_ms) 0 (omega arith) (omega arith)
        (omega (arith, clock.runs))
