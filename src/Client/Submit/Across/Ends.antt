-- ===== src/Client/Submit/Across/Ends.antt =====
-- Carrying a request across epoch closes ends, and how.

use ika_pre_alpha.Prelude.{ℕ, suc, ◌≤◌, ◌<◌, ◌≡◌, Option, some, Result}
use ika_pre_alpha.Client.Submit.Across.{
  AcrossError, AcrossRun, AcrossTimes, ClientSettings, Progress, deadline,
}
use ika_pre_alpha.Client.Submit.Across.Ordered.{IsOrdered, Explains}

module _ {Failure A : Type 0} (settings : ClientSettings) (times : AcrossTimes)
    (run : AcrossRun Failure A) where
  -- The clock runs: every round starts a millisecond at least after the one before it.
  pub record IsClock : Type 0 where
    pub runs : run.started ≤ run.now 0
    pub ticks : (k : ℕ) → run.now k < run.now (suc k)

  -- The rounds before it started before the deadline.
  abbrev pub IsWithinWait : ℕ → Type 0
  IsWithinWait last = (i : ℕ) → i < last → run.now i < deadline settings times run

  abbrev Ended : Option (Result (AcrossError Failure) A × Progress) → Type 0
  Ended outcome =
      (result : Result (AcrossError Failure) A) × (final : Progress) × (last : ℕ) × (outcome
        ≡ some (result, final))
      × (last ≤ times.epoch_wait_ms)
      × IsWithinWait last
      × IsOrdered final.log
      × Explains settings times run last result final
