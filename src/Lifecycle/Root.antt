-- ===== src/Lifecycle/Root.antt =====
-- The files under a state root, as far as the lifecycle reads and writes them.
use portable_batch_execution.Base.{
  any, ℕ, String, Bool, Option, none, some, List, [], ◌∷◌, Outcome, ok, raise, type_error,
  value_error, ◌>>=◌, ◌≡◌, refl, ◌⊎◌, inl, inr,
}
use portable_batch_execution.Base.Decimal.{after}
use portable_batch_execution.Base.Dict.{Dict}
use portable_batch_execution.Base.Order.{text_le}
use portable_batch_execution.Base.Sorting.{sorted, any-sorted}
use portable_batch_execution.Contracts.Artifact.{ArtifactRef}
use portable_batch_execution.Contracts.Attempt.{ShardAttemptRecord}
use portable_batch_execution.Contracts.Datetime.{Datetime}
use portable_batch_execution.Contracts.Manifest.{RunManifest}
use portable_batch_execution.Lifecycle.Records.{
  DeliveryRecord, DeletionReceipt, DeletionIntent, HoldRecord, BrokerRequestState,
}

-- What a JSON file has: a record, JSON that is no object, or something for which the reading of the
-- file or of its record raises OSError, ValueError or TypeError. There are no files here for which it
-- raises anything else (KeyError, for an object without one of the record's fields).
pub data Stored (A : Type 0) : Type 0 where
  holding : A → Stored A
  not_object unreadable : Stored A

-- A payload's file: its size, and the time of its last change.
pub record PayloadFile : Type 0 where
  pub size : ℕ
  pub mtime : Datetime

-- A broker's request file, with no state where the reading raises one of those. There is no file here
-- with JSON that is no object, for which `BrokerRequestState.from_json` raises AttributeError.
pub record RequestFile : Type 0 where
  pub content : Option BrokerRequestState
  pub mtime : Datetime

-- A run's directory as it is found: `latest.json`, and `attempts/*.json` by name.
pub record RunFiles : Type 0 where
  pub latest : Option (Stored RunManifest)
  pub attempts : Dict (Stored ShardAttemptRecord)

-- A bundle in a wave's file, as the parsers of reachability.py find it: `validated` is what
-- `_extract_validated_closed_wave_reachability` returns, `job` what
-- `_parse_closed_wave_job_reachability` does, and `shards` what `_parse_closed_wave_shard_reachability`
-- does for each shard; `none` stands for an exception.
pub record WaveBundle : Type 0 where
  pub validated : Option (Datetime × (ArtifactRef × List (List ArtifactRef)))
  pub job : Option (Datetime × ArtifactRef)
  pub shards : List (Option (List ArtifactRef))

pub record WaveFile : Type 0 where
  pub content : Stored WaveBundle
  pub mtime : Datetime

-- Directories by name; record files by their name without `.json`.
pub record StateRoot : Type 0 where
  pub artifacts : Dict PayloadFile
  pub deliveries : Dict (Stored DeliveryRecord)
  pub receipts : Dict (Stored DeletionReceipt)
  pub intents : Dict (Stored DeletionIntent)
  pub holds : Dict (Stored HoldRecord)
  pub requests : Dict RequestFile
  pub runs : Dict RunFiles
  pub closed_waves : Dict (Dict WaveFile)

-- `sorted(root.glob("*.json"))`
json_le : {V : Type 0} → String × V → String × V → Bool
json_le (i, v) (j, w) = text_le (after i ".json") (after j ".json")

unfoldable pub json_files : {V : Type 0} → Dict V → Dict V
unfolding json_le sorted
json_files = sorted json_le

pub any-json_files :
    {V : Type 0} (p : String × V → Bool) (files : Dict V) → any p (json_files files) ≡ any p files
unfolding json_files
any-json_files p files = any-sorted json_le p files

-- The rest of `list_all` for files in their order: JSON that is no object is left out.
unfoldable pub records_in : {A : Type 0} → Dict (Stored A) → Outcome (List A)
records_in [] = ok []
records_in ((name, holding a) ∷ files) = records_in files >>= λ rest. ok (a ∷ rest)
records_in ((name, not_object) ∷ files) = records_in files
records_in ((name, unreadable) ∷ files) = raise (value_error "unreadable record")

-- `list_all`
unfoldable pub list_all : {A : Type 0} → Dict (Stored A) → Outcome (List A)
unfolding json_files records_in
list_all files = records_in (json_files files)

-- The rest of `load`, for what is in the file.
unfoldable pub load_record : {A : Type 0} → Option (Stored A) → Outcome (Option A)
load_record none = ok none
load_record (some (holding a)) = ok (some a)
load_record (some not_object) = raise type_error
load_record (some unreadable) = raise (value_error "unreadable record")

-- `if store.load(...) is not None:` with what is returned there, and what comes after it
unfoldable pub unless_stored : {A B : Type 0} → Option (Stored A) → B → Outcome B → Outcome B
unless_stored stored there after_it =
    load_record stored >>= λ found. elim found [ some a ↦ ok there | none ↦ after_it ]

-- What such code returns, it returns for a record that is there, or else there is no file.
pub unless_stored-returns :
    {A B : Type 0} (stored : Option (Stored A)) (there : B) (after_it : Outcome B) (b : B)
    → unless_stored stored there after_it ≡ ok b
    → ((a : A) × (stored ≡ some (holding a)) × (there ≡ b)) ⊎ ((stored ≡ none) × (after_it ≡ ok b))
unfolding unless_stored load_record
unless_stored-returns none there after_it b h = inr (refl, h)
unless_stored-returns (some (holding a)) there after_it b h = inl (a, refl, cc)
unless_stored-returns (some not_object) there after_it b h = cc
unless_stored-returns (some unreadable) there after_it b h = cc
