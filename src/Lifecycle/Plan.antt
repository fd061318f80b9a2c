-- ===== src/Lifecycle/Plan.antt =====
-- `plan_gc` of lifecycle/gc.py and its report.
pub mod Payloads
pub mod Candidates
pub mod Totals
use portable_batch_execution.Base.{
  ℕ, ◌+◌, String, Bool, true, false, not, ◌&&◌, ◌||◌, ◌==◌, any, select, map, contains, Option,
  some, List, [], ◌∷◌, ◌++◌, eqb, length, if◌then◌else◌, Outcome, ok, traverse, ◌>>=◌,
}
use portable_batch_execution.Base.Decimal.{after}
use portable_batch_execution.Base.Dict.{Dict, get}
use portable_batch_execution.Base.Int.{ℤ, pos, pos_part}
use portable_batch_execution.Base.Order.{codes, text_le}
use portable_batch_execution.Base.Sorting.{sorted}
use portable_batch_execution.Contracts.Attempt.{is_empty}
use portable_batch_execution.Contracts.Datetime.{Datetime}
use portable_batch_execution.Lifecycle.Index.{
  ReachabilityIndex, is_protected, protection_reasons, coerce_utc,
}
use portable_batch_execution.Lifecycle.Reachability.{build_reachability_index}
use portable_batch_execution.Lifecycle.Reachability.Runs.{directories}
use portable_batch_execution.Lifecycle.Records.{DeliveryRecord, LifecyclePolicy, digest_hex}
use portable_batch_execution.Lifecycle.References.{Outside}
use portable_batch_execution.Lifecycle.Root.{StateRoot, PayloadFile, list_all, unless_stored}
use portable_batch_execution.Lifecycle.Sweep.{
  GcMode, normal, legacy, Sweep, by_request_onto, by_digest_onto, normal_eligible, legacy_eligible,
  legacy_effective_last_use, normal_protection_reasons, legacy_protection_reasons, age_between,
}

pub record GcProtection : Type 0 where
  pub digest : String
  pub size_bytes : ℕ
  pub reasons : List String

-- The age is counted in microseconds.
pub record GcCandidate : Type 0 where
  pub digest : String
  pub size_bytes : ℤ
  pub payload_mtime : Option Datetime
  pub effective_last_use : Option Datetime
  pub effective_age : Option ℤ

pub record GcReport : Type 0 where
  pub mode : GcMode
  pub artifact_count : ℕ
  pub artifact_bytes : ℕ
  pub candidate_count : ℕ
  pub candidate_bytes : ℕ
  pub protected : List GcProtection
  pub candidates : List GcCandidate
  pub deleted : List GcCandidate
  pub unknown_references : List String
  pub run_reference_pairs : List (String × String)
  pub blocked : Bool
  pub planned_at : Datetime

same_codes : List ℕ → List ℕ → Bool
same_codes [] [] = true
same_codes (c ∷ cs) (d ∷ ds) = eqb c d && same_codes cs ds
same_codes _ _ = false

ends_in : List ℕ → List ℕ → Bool
unfolding same_codes
ends_in [] suffix = false
ends_in (c ∷ cs) suffix = same_codes (c ∷ cs) suffix || ends_in cs suffix

-- `name.endswith(".tmp")`
unfoldable pub is_temporary : String → Bool
unfolding ends_in
is_temporary name = ends_in (codes name) (codes ".tmp")

-- `artifact_paths`, with the size and the time of each
unfoldable pub payload_files : StateRoot → Dict PayloadFile
payload_files root = select (λ (name, file). not (is_temporary name)) (directories root.artifacts)

unfoldable pub effective_last_use : GcMode → Sweep → String → PayloadFile → Outcome Datetime
effective_last_use legacy sweep digest file = legacy_effective_last_use sweep digest (some file)
effective_last_use normal sweep digest file = ok file.mtime

unfoldable pub candidate_detail : Sweep → String → PayloadFile → Outcome GcCandidate
candidate_detail sweep digest file = do
  last_use ← effective_last_use sweep.mode sweep digest file
  age ← age_between sweep.now last_use
  ok (record {
    digest = digest;
    size_bytes = pos file.size;
    payload_mtime = some file.mtime;
    effective_last_use = some (coerce_utc last_use);
    effective_age = some age;
  })

-- What the loop does with a payload.
pub data Verdict : Type 0 where
  keep : GcProtection → Verdict
  collect : GcCandidate → Verdict
  already_deleted : Verdict

abbrev keep_for : String → PayloadFile → List String → Verdict
keep_for digest file reasons =
    keep (record { digest = digest; size_bytes = file.size; reasons = reasons })

-- The test of the mode, and the reasons where it fails.
unfoldable pub eligible_in : GcMode → StateRoot → Sweep → String → Outcome Bool
eligible_in normal root sweep digest = normal_eligible root sweep digest
eligible_in legacy root sweep digest = legacy_eligible root sweep digest

unfoldable pub reasons_in : GcMode → StateRoot → Sweep → String → Outcome (List String)
reasons_in normal root sweep digest = normal_protection_reasons root sweep digest
reasons_in legacy root sweep digest = legacy_protection_reasons root sweep digest

unfoldable pub verdict_of : Bool → StateRoot → Sweep → String → PayloadFile → Outcome Verdict
verdict_of true root sweep digest file =
    candidate_detail sweep digest file >>= λ candidate. ok (collect candidate)
verdict_of false root sweep digest file =
    reasons_in sweep.mode root sweep digest >>= λ reasons. ok (keep_for digest file reasons)

unfoldable pub judge_unprotected : StateRoot → Sweep → String → PayloadFile → Outcome Verdict
judge_unprotected root sweep digest file = eligible_in sweep.mode root sweep digest >>= λ eligible.
    verdict_of eligible root sweep digest file

-- The body of the loop over the payloads.
unfoldable pub judge : StateRoot → Sweep → String × PayloadFile → Outcome Verdict
judge root sweep (name, file) =
    let digest = after "sha256:" name in
    if contains sweep.index.unknown_digests digest
    then ok (keep_for digest file ("unknown_authoritative_state" ∷ []))
    else if is_protected sweep.index digest
    then ok (keep_for digest file (sorted text_le (protection_reasons sweep.index digest)))
    else unless_stored (get root.receipts (digest_hex digest)) already_deleted
        (judge_unprotected root sweep digest file)

pub kept : List Verdict → List GcProtection
kept [] = []
kept (v ∷ vs) = let rest = kept vs in elim v [ keep p ↦ p ∷ rest | _ ↦ rest ]

unfoldable pub collected : List Verdict → List GcCandidate
collected [] = []
collected (v ∷ vs) = let rest = collected vs in elim v [ collect c ↦ c ∷ rest | _ ↦ rest ]

abbrev pub total_size : Dict PayloadFile → ℕ
total_size [] = 0
total_size ((name, file) ∷ files) = file.size + total_size files

-- `sum(item.size_bytes for item in candidates)`, of sizes of files
abbrev pub candidate_total : List GcCandidate → ℕ
candidate_total [] = 0
candidate_total (c ∷ cs) = pos_part c.size_bytes + candidate_total cs

abbrev pub run_pairs : Dict (List String) → List (String × String)
run_pairs [] = []
run_pairs ((digest, runs) ∷ rest) = map (λ run_id. (run_id, digest)) runs ++ run_pairs rest

pair_le : String × String → String × String → Bool
pair_le (a, b) (c, d) = if a == c then text_le b d else text_le a c

abbrev pub sweep_of :
    ReachabilityIndex → List DeliveryRecord → LifecyclePolicy → Datetime → GcMode → Sweep
sweep_of index deliveries policy now mode = record {
  index = index;
  delivery_by_request = by_request_onto [] deliveries;
  delivery_by_digest = by_digest_onto [] deliveries;
  policy = policy;
  now = now;
  mode = mode;
}

abbrev pub is_unknown : Sweep → String × PayloadFile → Bool
is_unknown sweep (name, file) = contains sweep.index.unknown_digests (after "sha256:" name)

unfoldable pub report_of : Sweep → Dict PayloadFile → List Verdict → GcReport
unfolding pair_le
report_of sweep files verdicts = record {
  mode = sweep.mode;
  artifact_count = length files;
  artifact_bytes = total_size files;
  candidate_count = length (collected verdicts);
  candidate_bytes = candidate_total (collected verdicts);
  protected = kept verdicts;
  candidates = collected verdicts;
  deleted = [];
  unknown_references = sweep.index.unknown_messages;
  run_reference_pairs = sorted pair_le (run_pairs sweep.index.run_ids_by_digest);
  blocked = not (is_empty sweep.index.unknown_messages) || any (is_unknown sweep) files;
  planned_at = sweep.now;
}

-- `plan_gc` after it has built the index and read the deliveries
unfoldable pub plan_sweep : StateRoot → Sweep → Outcome GcReport
plan_sweep root sweep = do
  verdicts ← traverse (judge root sweep) (payload_files root)
  ok (report_of sweep (payload_files root) verdicts)

module _ (outside : Outside) where
  unfoldable pub plan_gc : StateRoot → LifecyclePolicy → GcMode → Datetime → Outcome GcReport
  plan_gc root policy mode now = do
    let index = build_reachability_index outside root policy
    deliveries ← list_all root.deliveries
    plan_sweep root (sweep_of index deliveries policy now mode)
