-- ===== src/DataPlane/Attempts.antt =====
-- The run directories of `LocalFilesystemDataPlane`, and its attempt records. A record file holds
-- what was written to it: reading it back validates what was valid when it was written.
pub mod Records
use portable_batch_execution.Base.{
  raise_if, not, any, ◌||◌, type_error, ℕ, String, Bool, true, false, ◌&&◌, ◌==◌, Option, none,
  some, List, [], ◌∷◌, all, eqb, if◌then◌else◌, Outcome, ok, raise, value_error, ◌>>=◌, ◌>>◌,
}
use portable_batch_execution.Base.Dict.{Dict, get, put, values}
use portable_batch_execution.Base.Int.{ℤ, eq_ℤ}
use portable_batch_execution.Base.Order.{text_le}
use portable_batch_execution.Base.Sorting.{sorted}
use portable_batch_execution.Contracts.Artifact.{ArtifactRef}
use portable_batch_execution.Contracts.Attempt.{AttemptStatus, ShardAttemptRecord}
use portable_batch_execution.Contracts.Datetime.{Datetime, moment, datetime_lt, is_naive}
use portable_batch_execution.Contracts.Manifest.{RunManifest}
use portable_batch_execution.DataPlane.Artifacts.{Artifacts, validate_local_refs}
use portable_batch_execution.DataPlane.Host.{Host}
use portable_batch_execution.Names.{safe_file_component}

-- `attempts/*.json` by attempt identifier, `manifests/*.json` by revision, and `latest.json`. A
-- directory that is not there is an empty one: it is made on the first look at it.
pub record RunDirectory : Type 0 where
  pub attempts : Dict ShardAttemptRecord
  pub history : List (ℤ × RunManifest)
  pub latest : Option RunManifest

abbrev pub empty_run : RunDirectory
empty_run = record { attempts = []; history = []; latest = none }

pub record Plane : Type 0 where
  pub artifacts : Artifacts
  pub runs : Dict RunDirectory

unfoldable pub run_of : Plane → String → RunDirectory
run_of s run_id = elim (get s.runs run_id) [ none ↦ empty_run | some r ↦ r ]

unfoldable pub put_run : Plane → String → RunDirectory → Plane
unfolding put
put_run s run_id r = record s { runs = put s.runs run_id r }

-- `a == b` of datetimes: aware ones are equal at one moment, whatever their offsets.
pub datetime_eq : Datetime → Datetime → Bool
datetime_eq a b = elim a.offset [
  | none ↦ elim b.offset [ none ↦ eqb a.micros b.micros | some _ ↦ false ]
  | some oa ↦ elim b.offset [
    | none ↦ false
    | some ob ↦ eqb (moment a.micros oa ob) (moment b.micros ob oa)
  ]
]

unfoldable pub text_option_eq : Option String → Option String → Bool
text_option_eq none none = true
text_option_eq none (some t) = false
text_option_eq (some s) none = false
text_option_eq (some s) (some t) = s == t

unfoldable pub size_eq : Option ℕ → Option ℕ → Bool
size_eq none none = true
size_eq none (some n) = false
size_eq (some m) none = false
size_eq (some m) (some n) = eqb m n

unfoldable pub ref_eq : ArtifactRef → ArtifactRef → Bool
unfolding size_eq text_option_eq
ref_eq a b =
    (a.object_id == b.object_id)
    && (a.uri == b.uri)
    && (a.sha256 == b.sha256)
    && text_option_eq a.media_type b.media_type
    && size_eq a.size_bytes b.size_bytes

unfoldable pub refs_eq : List ArtifactRef → List ArtifactRef → Bool
unfolding ref_eq
refs_eq [] [] = true
refs_eq [] (b ∷ bs) = false
refs_eq (a ∷ rs) [] = false
refs_eq (a ∷ rs) (b ∷ bs) = ref_eq a b && refs_eq rs bs

has_count : Dict ℤ → String × ℤ → Bool
has_count d (k, v) = elim (get d k) [ none ↦ false | some w ↦ eq_ℤ v w ]

-- Dictionaries are equal if each has the other's entries.
counts_eq : Dict ℤ → Dict ℤ → Bool
unfolding has_count
counts_eq a b = all (has_count b) a && all (has_count a) b

status_eq : AttemptStatus → AttemptStatus → Bool
status_eq AttemptStatus.succeeded AttemptStatus.succeeded = true
status_eq AttemptStatus.failed AttemptStatus.failed = true
status_eq AttemptStatus.cancelled AttemptStatus.cancelled = true
status_eq a b = false

-- `existing == record`, field by field
pub attempt_eq : ShardAttemptRecord → ShardAttemptRecord → Bool
unfolding datetime_eq text_option_eq refs_eq counts_eq status_eq
attempt_eq a b =
    (a.logical_run_id == b.logical_run_id)
    && (a.shard_id == b.shard_id)
    && (a.attempt_id == b.attempt_id)
    && status_eq a.status b.status
    && (a.input_digest == b.input_digest)
    && (a.execution_fingerprint == b.execution_fingerprint)
    && datetime_eq a.started_at b.started_at
    && datetime_eq a.finished_at b.finished_at
    && text_option_eq a.wave_id b.wave_id
    && refs_eq a.output_refs b.output_refs
    && text_option_eq a.output_digest b.output_digest
    && counts_eq a.counts b.counts
    && text_option_eq a.failure b.failure
    && text_option_eq a.backend_execution_id b.backend_execution_id
    && text_option_eq a.backend_job_id b.backend_job_id

-- The end of `_append_attempt_unlocked`: the file is there, or it is written.
pub store_attempt :
    Plane → ShardAttemptRecord → Option ShardAttemptRecord → Outcome (Unit {0}) × Plane
unfolding attempt_eq
store_attempt s a (some existing) =
    if attempt_eq existing a
    then (ok tt, s)
    else (raise (value_error "attempt_id already belongs to a different record"), s)
store_attempt s a none =
    let r = run_of s a.logical_run_id in
    (ok tt, put_run s a.logical_run_id (record r { attempts = put r.attempts a.attempt_id a }))

-- The checks of `append_attempt` before it looks for the file.
pub append_checks : Host → Plane → ShardAttemptRecord → Outcome (Unit {0})
unfolding validate_local_refs safe_file_component
append_checks host s a = do
  validate_local_refs host s.artifacts a.output_refs
  _ ← safe_file_component a.logical_run_id
  _ ← safe_file_component a.attempt_id
  ok tt

pub append_attempt : Host → Plane → ShardAttemptRecord → Outcome (Unit {0}) × Plane
unfolding append_checks store_attempt run_of put_run
append_attempt host s a = elim (append_checks host s a) [
  | raise e ↦ (raise e, s)
  | ok _ ↦ store_attempt s a (get (run_of s a.logical_run_id).attempts a.attempt_id)
]

-- `a < b`, where the two are comparable
pub is_before : Datetime → Datetime → Bool
unfolding datetime_lt
is_before a b = elim (datetime_lt a b) [ ok lt ↦ lt | raise e ↦ false ]

differ : Bool → Bool → Bool
differ a b = a && not b || not a && b

-- The order of the records: by end, start and identifier.
pub attempt_le : ShardAttemptRecord → ShardAttemptRecord → Bool
unfolding datetime_eq is_before
attempt_le a b =
    is_before a.finished_at b.finished_at
    || datetime_eq a.finished_at b.finished_at
      && (is_before a.started_at b.started_at
          || datetime_eq a.started_at b.started_at && text_le a.attempt_id b.attempt_id)

-- Whether `a < b` raises, for the keys of two records: a naive time is not comparable with an aware
-- one, and the starts are compared where the ends are equal.
pub is_incomparable : ShardAttemptRecord → ShardAttemptRecord → Bool
unfolding datetime_eq differ
is_incomparable a b =
    differ (is_naive a.finished_at) (is_naive b.finished_at)
    || datetime_eq a.finished_at b.finished_at
      && differ (is_naive a.started_at) (is_naive b.started_at)

-- `read_attempts`. Records next to one another in the sorted order have been compared, so a pair
-- that is not comparable makes `sorted` raise.
unfoldable pub read_attempts : Plane → String → Outcome (List ShardAttemptRecord)
unfolding run_of safe_file_component is_incomparable attempt_le
read_attempts s run_id = do
  _ ← safe_file_component run_id
  let records = values (run_of s run_id).attempts
  raise_if (any (λ a. any (is_incomparable a) records) records) type_error
  ok (sorted attempt_le records)
