-- ===== src/Kernel/Completeness.antt =====
-- `completeness` and `can_finalize` of kernel/core.py.
pub mod Partition
pub mod Verdict
use portable_batch_execution.Base.{
  String, Bool, false, not, ◌&&◌, ◌==◌, Option, none, some, List, [], ◌∷◌, ◌++◌, select, contains,
  same_set, length, ltb, eqb, Outcome, ok, value_error, raise_if, ◌>>=◌, ◌>>◌,
}
use portable_batch_execution.Base.Dict.{Dict, get, put, keys, get_list, group_onto}
use portable_batch_execution.Base.Order.{text_le}
use portable_batch_execution.Base.Sorting.{sorted}
use portable_batch_execution.Contracts.Attempt.{ShardAttemptRecord, is_succeeded, is_empty}
use portable_batch_execution.Contracts.Shard.{ShardSpec}

-- `{shard.shard_id: shard for shard in shards}`
pub shards_onto : Dict ShardSpec → List ShardSpec → Dict ShardSpec
unfolding put
shards_onto d [] = d
shards_onto d (s ∷ ss) = shards_onto (put d s.shard_id s) ss

abbrev pub shard_map : List ShardSpec → Dict ShardSpec
shard_map = shards_onto []

-- The attempt ran on the shard's current inputs and code.
abbrev pub is_current : ShardSpec → ShardAttemptRecord → Bool
is_current s a =
    (a.input_digest == s.input_digest) && (a.execution_fingerprint == s.execution_fingerprint)

abbrev pub is_current_for : Option ShardSpec → ShardAttemptRecord → Bool
is_current_for none a = false
is_current_for (some s) a = is_current s a

-- The test of the loop in `completeness`. Expected identifiers are those of the map, so the shard
-- is there when its digests are read.
abbrev pub counts_for : List String → Dict ShardSpec → ShardAttemptRecord → Bool
counts_for expected d a =
    contains expected a.shard_id && (is_succeeded a && is_current_for (get d a.shard_id) a)

pub by_shard :
    List String → Dict ShardSpec → List ShardAttemptRecord → Dict (List ShardAttemptRecord)
unfolding group_onto
by_shard expected d attempts =
    group_onto [] (λ a. a.shard_id) (select (counts_for expected d) attempts)

pub record Completeness : Type 0 where
  pub canonical : List ShardAttemptRecord
  pub missing : List String
  pub duplicate : List String

-- The attempt of a shard that has one alone.
abbrev pub only : List ShardAttemptRecord → List ShardAttemptRecord
only (a ∷ []) = a ∷ []
only records = []

pub canonical_of : Dict (List ShardAttemptRecord) → List String → List ShardAttemptRecord
canonical_of d [] = []
canonical_of d (i ∷ is) = only (get_list d i) ++ canonical_of d is

-- `expected` is a set: a list without repetitions.
unfoldable pub completeness :
    List String → List ShardAttemptRecord → List ShardSpec → Outcome Completeness
unfolding shards_onto by_shard canonical_of
completeness expected attempts shards = do
  raise_if (not (same_set (keys (shard_map shards)) expected))
      (value_error "planned shards must exactly match expected shard IDs")
  let found = by_shard expected (shard_map shards) attempts
  ok (record {
    canonical = canonical_of found (sorted text_le expected);
    missing = sorted text_le (select (λ i. eqb (length (get_list found i)) 0) expected);
    duplicate = sorted text_le (select (λ i. ltb 1 (length (get_list found i))) expected);
  })

abbrev pub is_complete : Completeness → Bool
is_complete c = is_empty c.missing && is_empty c.duplicate

pub can_finalize : List String → List ShardAttemptRecord → List ShardSpec → Outcome Bool
unfolding completeness
can_finalize expected attempts shards = do
  c ← completeness expected attempts shards
  ok (is_complete c)
