-- ===== src/Broker/Attempts.antt =====
-- The attempts of a request's shard, as broker/service.py counts and marks them.
use portable_batch_execution.A1Controller.Python.{text_digest, Runtime}
use portable_batch_execution.Base.{
  map, [], if◌then◌else◌, ◌&&◌, ◌==◌, true, false, ◌∷◌, select, String, Bool, List,
}
use portable_batch_execution.Base.Order.{text_le}
use portable_batch_execution.Base.Sorting.{sorted}
use portable_batch_execution.Contracts.Attempt.{AttemptStatus, ShardAttemptRecord}
use portable_batch_execution.Contracts.Job.{text, item, array, no_more, Params}
use portable_batch_execution.Contracts.Shard.{ShardSpec}

-- The attempt is of the shard, on its inputs and code.
abbrev pub is_matching : ShardSpec → ShardAttemptRecord → Bool
is_matching shard a =
    (a.shard_id == shard.shard_id)
    && (a.input_digest == shard.input_digest)
    && (a.execution_fingerprint == shard.execution_fingerprint)

-- `_matching_attempts`
pub matching_attempts : ShardSpec → List ShardAttemptRecord → List ShardAttemptRecord
matching_attempts shard attempts = select (is_matching shard) attempts

-- `item.status in _TERMINAL_FAILURE_STATUSES`
abbrev pub is_terminal_failure : ShardAttemptRecord → Bool
is_terminal_failure a = elim a.status [ AttemptStatus.succeeded ↦ false | _ ↦ true ]

-- `_matching_terminal_attempts`
unfoldable pub matching_terminal_attempts :
    ShardSpec → List ShardAttemptRecord → List ShardAttemptRecord
matching_terminal_attempts shard attempts =
    select (λ a. is_matching shard a && is_terminal_failure a) attempts

status_name : AttemptStatus → String
status_name AttemptStatus.succeeded = "succeeded"
status_name AttemptStatus.failed = "failed"
status_name AttemptStatus.cancelled = "cancelled"

-- The tuple of an attempt in the marker.
marker_row : ShardAttemptRecord → List String
unfolding status_name
marker_row a =
    a.attempt_id ∷ status_name a.status ∷ a.input_digest ∷ a.execution_fingerprint ∷ a.shard_id ∷ []

-- `a <= b` of tuples of texts
pub row_le : List String → List String → Bool
row_le [] ys = true
row_le (x ∷ xs) [] = false
row_le (x ∷ xs) (y ∷ ys) = let rest = row_le xs ys in if x == y then rest else text_le x y

row_json : List String → Params
row_json [] = no_more
row_json (x ∷ xs) = item (text x) (row_json xs)

rows_json : List (List String) → Params
unfolding row_json
rows_json [] = no_more
rows_json (row ∷ rows) = item (array (row_json row)) (rows_json rows)

-- `_attempt_marker`
unfoldable pub attempt_marker : Runtime → ShardSpec → List ShardAttemptRecord → String
unfolding marker_row rows_json
attempt_marker r shard attempts = text_digest r (
    r.dumps_spaced
      (array (rows_json (sorted row_le (map marker_row (matching_attempts shard attempts))))))
