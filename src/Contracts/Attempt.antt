-- ===== src/Contracts/Attempt.antt =====
-- `ShardAttemptRecord` of contracts/models.py.
use portable_batch_execution.Base.{
  String, Bool, true, false, not, ◌&&◌, ◌||◌, Option, List, [], ◌∷◌, any, Outcome, ok, value_error,
  raise_if, traverse, ◌>>=◌, ◌>>◌,
}
use portable_batch_execution.Base.Dict.{Dict}
use portable_batch_execution.Base.Int.{ℤ, pos, negsuc}
use portable_batch_execution.Contracts.Artifact.{ArtifactRef, validate_artifact}
use portable_batch_execution.Contracts.Datetime.{Datetime, datetime_lt}
use portable_batch_execution.Contracts.Shard.{is_missing}

pub data AttemptStatus : Type 0 where
  succeeded failed cancelled : AttemptStatus

pub record ShardAttemptRecord : Type 0 where
  pub logical_run_id : String
  pub shard_id : String
  pub attempt_id : String
  pub status : AttemptStatus
  pub input_digest : String
  pub execution_fingerprint : String
  pub started_at : Datetime
  pub finished_at : Datetime
  pub wave_id : Option String
  pub output_refs : List ArtifactRef
  pub output_digest : Option String
  pub counts : Dict ℤ
  pub failure : Option String
  pub backend_execution_id : Option String
  pub backend_job_id : Option String

abbrev pub is_succeeded : ShardAttemptRecord → Bool
is_succeeded a = elim a.status [ succeeded ↦ true | _ ↦ false ]

abbrev pub is_failed : ShardAttemptRecord → Bool
is_failed a = elim a.status [ failed ↦ true | _ ↦ false ]

abbrev pub is_empty {ℓ} : {A : Type ℓ} → List A → Bool
is_empty [] = true
is_empty (x ∷ xs) = false

abbrev is_negative : String × ℤ → Bool
is_negative (k, v) = elim v [ pos _ ↦ false | negsuc _ ↦ true ]

-- `invariants`
pub attempt_invariants : ShardAttemptRecord → Outcome (Unit {0})
unfolding datetime_lt
attempt_invariants a = do
  early ← datetime_lt a.finished_at a.started_at
  raise_if (early || any is_negative a.counts) (value_error "invalid attempt")
  raise_if (is_succeeded a && not (is_missing a.failure) || is_failed a && is_missing a.failure)
      (value_error "failure invariant")
  raise_if
      (not (is_succeeded a) && (not (is_empty a.output_refs) || not (is_missing a.output_digest)))
      (value_error "non-successful attempt cannot publish output")

unfoldable pub validate_attempt : ShardAttemptRecord → Outcome ShardAttemptRecord
unfolding attempt_invariants validate_artifact
validate_attempt a = do _ ← traverse validate_artifact a.output_refs; attempt_invariants a; ok a
