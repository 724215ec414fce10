-- ===== src/Write/Retry/Interleaved/Sequential.antt =====
-- retry.go: an execution with no other call in between is one of the runs.
use staravail.Common.{ℕ, ◌≡◌, Text, Bool, true, false}
use staravail.Common.{Option, none, some}
use staravail.Write.Retry.{RetryManager, Services}
use staravail.Write.Retry.Backoff.{Arithmetic}
use staravail.Write.Retry.Execute.{Timing}
use staravail.Write.Retry.Outcomes.{started}
use staravail.Write.Retry.Interleaved.{Phase, idle, settled, returned, panicked, System, Run}

abbrev over : Phase → Bool
over (settled attempt) = true
over returned = true
over _ = false

-- A run's last system, for what the execution in a row gives.
abbrev pub EndsAs : Option RetryManager → System → Type 0
EndsAs none y = y.phase ≡ panicked
EndsAs (some m) y = (over y.phase ≡ true) × (y.manager ≡ m)

abbrev pub before : ℕ → RetryManager → System
before clock m = record { clock = clock; phase = idle; manager = m }

module _ (s : Services) (a : Arithmetic) (t : Timing) (text id : Text) (m : RetryManager) where
  -- The goal, for a result that is computed apart.
  abbrev Runs : Option RetryManager → Type 0
  Runs result = (y : System) × Run s a id (before t.started m) y × EndsAs result y
