-- ===== src/Lifecycle/Plan/Candidates.antt =====
-- What `plan_gc` proposes to delete.
use portable_batch_execution.Base.{
  some, ok-injective, All, Bool, true, false, String, List, [], ◌∷◌, none, contains, traverse,
  Bool-cases, ok, >>=-returns, ◌≡◌, refl, sym, ◌∙◌, ap, subst, inl, inr, arith,
}
use portable_batch_execution.Base.Decimal.{after}
use portable_batch_execution.Base.Dict.{Dict, get}
use portable_batch_execution.Base.Int.{pos}
use portable_batch_execution.Contracts.Datetime.{Datetime}
use portable_batch_execution.Lifecycle.Index.{ReachabilityIndex, is_protected}
use portable_batch_execution.Lifecycle.Plan.{
  GcCandidate, GcReport, Verdict, keep, collect, already_deleted, candidate_detail,
  effective_last_use, verdict_of, eligible_in, reasons_in, judge_unprotected, judge, collected,
  plan_sweep, plan_gc, payload_files, report_of, sweep_of,
}
use portable_batch_execution.Lifecycle.Plan.Payloads.{IsPayload, payload_files-IsPayload}
use portable_batch_execution.Lifecycle.Reachability.{build_reachability_index}
use portable_batch_execution.Lifecycle.Records.{LifecyclePolicy, digest_hex}
use portable_batch_execution.Lifecycle.References.{Outside}
use portable_batch_execution.Lifecycle.Root.{
  StateRoot, PayloadFile, list_all, unless_stored, unless_stored-returns,
}
use portable_batch_execution.Lifecycle.Sweep.{GcMode, Sweep, age_between}

pub digest_hex-in_full : (name : String) → digest_hex (after "sha256:" name) ≡ name
unfolding digest_hex
digest_hex-in_full name = refl

-- The candidate is a payload, with its size and time, that nothing protects, that has no receipt yet,
-- and that the mode lets go.
pub record Collectable (root : StateRoot) (sweep : Sweep) (c : GcCandidate) : Type 0 where
  pub name : String
  pub file : PayloadFile
  pub payload : IsPayload root name file
  pub in_full : c.digest ≡ after "sha256:" name
  pub of_size : c.size_bytes ≡ pos file.size
  pub of_time : c.payload_mtime ≡ some file.mtime
  pub certain : contains sweep.index.unknown_digests c.digest ≡ false
  pub unprotected : is_protected sweep.index c.digest ≡ false
  pub no_receipt : get root.receipts name ≡ none
  pub eligible : eligible_in sweep.mode root sweep c.digest ≡ ok true

unprotected-certain :
    (i : ReachabilityIndex) (digest : String)
    → is_protected i digest ≡ false
    → contains i.unknown_digests digest ≡ false
unfolding is_protected
unprotected-certain i digest h = ground (arith, h)

module _ (root : StateRoot) (sweep : Sweep) (name : String) (file : PayloadFile)
    (c : GcCandidate) where
  candidate_detail-digest :
      (digest : String)
      → candidate_detail sweep digest file ≡ ok c
      → (c.digest ≡ digest) × (c.size_bytes ≡ pos file.size) × (c.payload_mtime ≡ some file.mtime)
  unfolding candidate_detail
  candidate_detail-digest digest h =
      let (last_use, eq, rest) =
        >>=-returns (effective_last_use sweep.mode sweep digest file) _ h in
      let (age, eq_age, made) = >>=-returns (age_between sweep.now last_use) _ rest in (cc, cc, cc)

  verdict_of-collect :
      (eligible : Bool) (digest : String)
      → verdict_of eligible root sweep digest file ≡ ok (collect c)
      → (eligible ≡ true)
        × (c.digest ≡ digest)
        × (c.size_bytes ≡ pos file.size)
        × (c.payload_mtime ≡ some file.mtime)
  unfolding verdict_of
  verdict_of-collect true digest h =
      let (candidate, eq, made) = >>=-returns (candidate_detail sweep digest file) _ h in
      let (digest_so, size, time) = candidate_detail-digest digest (eq ∙ ap ok cc) in
      (refl, digest_so, size, time)
  verdict_of-collect false digest h =
      let (reasons, eq, made) = >>=-returns (reasons_in sweep.mode root sweep digest) _ h in cc

  judge_unprotected-collect :
      (digest : String)
      → judge_unprotected root sweep digest file ≡ ok (collect c)
      → (eligible_in sweep.mode root sweep digest ≡ ok true)
        × (c.digest ≡ digest)
        × (c.size_bytes ≡ pos file.size)
        × (c.payload_mtime ≡ some file.mtime)
  unfolding judge_unprotected
  judge_unprotected-collect digest h =
      let (eligible, eq, rest) = >>=-returns (eligible_in sweep.mode root sweep digest) _ h in
      let (passed, same, size, time) = verdict_of-collect eligible digest rest in
      (eq ∙ ap ok passed, same, size, time)

  judge-collect :
      IsPayload root name file
      → judge root sweep (name, file) ≡ ok (collect c)
      → Collectable root sweep c
  unfolding judge
  judge-collect payload h =
      elim (Bool-cases (contains sweep.index.unknown_digests (after "sha256:" name))) [
        | inl e ↦ ground (arith, e, h)
        | inr e ↦ elim (Bool-cases (is_protected sweep.index (after "sha256:" name))) [
          | inl f ↦ ground (arith, e, f, h)
          | inr f ↦
              let held : judge root sweep (name, file)
                  ≡ unless_stored (get root.receipts (digest_hex (after "sha256:" name)))
                      already_deleted (judge_unprotected root sweep (after "sha256:" name) file) =
                rw (e, f, judge) refl in
              elim (unless_stored-returns (get root.receipts (digest_hex (after "sha256:" name))) _
                _ _ (sym held ∙ h)) [
                  | inl (r, stored, wrong) ↦ cc
                  | inr (no_receipt, rest) ↦
                      let (eligible, same, size, time) =
                        judge_unprotected-collect (after "sha256:" name) rest in
                      record {
                        name = name;
                        file = file;
                        payload = payload;
                        in_full = same;
                        of_size = size;
                        of_time = time;
                        certain =
                            unprotected-certain sweep.index c.digest
                              (ap (is_protected sweep.index) same ∙ f);
                        unprotected = ap (is_protected sweep.index) same ∙ f;
                        no_receipt =
                            ap (get root.receipts) (sym (digest_hex-in_full name)) ∙ no_receipt;
                        eligible = ap (eligible_in sweep.mode root sweep) same ∙ eligible;
                      }
                ]
        ]
      ]

module _ (root : StateRoot) (sweep : Sweep) where
  collected_one :
      (name : String) (file : PayloadFile) (v : Verdict)
      → IsPayload root name file
      → judge root sweep (name, file) ≡ ok v
      → (rest : List Verdict) → All (Collectable root sweep) (collected rest)
      → All (Collectable root sweep) (collected (v ∷ rest))
  unfolding collected
  collected_one name file (keep p) payload h rest good = good
  collected_one name file (collect c) payload h rest good =
      (judge-collect root sweep name file c payload h, good)
  collected_one name file already_deleted payload h rest good = good

  collected-Collectable :
      (files : Dict PayloadFile) (verdicts : List Verdict)
      → All (λ p. IsPayload root p.0 p.1) files
      → traverse (judge root sweep) files ≡ ok verdicts
      → All (Collectable root sweep) (collected verdicts)
  unfolding collected
  collected-Collectable [] verdicts payloads h =
      subst (λ vs. All (Collectable root sweep) (collected vs)) (ok-injective [] verdicts h) tt
  collected-Collectable ((name, file) ∷ files) verdicts payloads h =
      let (v, eq, rest) = >>=-returns (judge root sweep (name, file)) _ h in
      let (vs, eqs, made) = >>=-returns (traverse (judge root sweep) files) _ rest in
      subst (λ ws. All (Collectable root sweep) (collected ws))
        (ok-injective (v ∷ vs) verdicts made)
        (collected_one name file v payloads.0 eq vs (collected-Collectable files vs payloads.1 eqs))

  -- Every candidate of a plan that returns is a payload of the artifact directory that is no
  -- temporary file, with its size and time, of a full digest that is neither protected nor uncertain,
  -- has no receipt, and is eligible in the mode of the sweep.
  pub plan_sweep-candidates :
      (report : GcReport)
      → plan_sweep root sweep ≡ ok report
      → All (Collectable root sweep) report.candidates
  unfolding plan_sweep report_of
  plan_sweep-candidates report h =
      let (verdicts, eq, made) =
        >>=-returns (traverse (judge root sweep) (payload_files root)) _ h in
      subst (λ (r : GcReport). All (Collectable root sweep) r.candidates)
        (ok-injective (report_of sweep (payload_files root) verdicts) report made)
        (collected-Collectable (payload_files root) verdicts (payload_files-IsPayload root) eq)

  All-in_full :
      (cs : List GcCandidate)
      → All (Collectable root sweep) cs
      → All (λ c. c.digest ≡ after "sha256:" (digest_hex c.digest)) cs
  All-in_full [] good = tt
  All-in_full (c ∷ cs) good =
      let first = good.0 in
      (
        first.in_full
            ∙ ap (after "sha256:")
                (sym (ap digest_hex first.in_full ∙ digest_hex-in_full first.name)),
        All-in_full cs good.1,
      )

pub plan_gc-in_full :
    (outside : Outside) (root : StateRoot) (policy : LifecyclePolicy) (mode : GcMode)
    (now : Datetime) (report : GcReport)
    → plan_gc outside root policy mode now ≡ ok report
    → All (λ c. c.digest ≡ after "sha256:" (digest_hex c.digest)) report.candidates
unfolding plan_gc
plan_gc-in_full outside root policy mode now report h =
    let index = build_reachability_index outside root policy in
    let (deliveries, eq, rest) = >>=-returns (list_all root.deliveries) _ h in
    let sweep = sweep_of index deliveries policy now mode in
    All-in_full root sweep report.candidates (plan_sweep-candidates root sweep report rest)
