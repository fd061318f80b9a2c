-- ===== src/Lifecycle/Collect/Unreadable.antt =====
-- A garbage collection over a state root with a record that cannot be read.
use portable_batch_execution.Base.{true, List, ◌≡◌}
use portable_batch_execution.Contracts.Datetime.{Datetime}
use portable_batch_execution.Lifecycle.Plan.{GcCandidate, GcReport}
use portable_batch_execution.Lifecycle.Root.{StateRoot}

-- The report says that the run is blocked and lists just these deletions, and the state is as it was.
abbrev pub IsBlocked : StateRoot → List GcCandidate → GcReport → StateRoot → Type 0
IsBlocked root deleted out after = (out.blocked ≡ true) × (out.deleted ≡ deleted) × (after ≡ root)
