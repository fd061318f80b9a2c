-- ===== src/Lifecycle/Plan/Totals.antt =====
-- The counts and sizes of a report of `plan_gc`.
use portable_batch_execution.Base.{
  ℕ, suc, ◌+◌, ◌≤◌, Bool, true, false, String, List, [], ◌∷◌, length, contains, traverse,
  Bool-cases, ok, >>=-returns, ok-injective, ◌≡◌, refl, sym, ◌∙◌, ap, subst, inl, inr, arith,
}
use portable_batch_execution.Base.Decimal.{after}
use portable_batch_execution.Base.Dict.{Dict, get}
use portable_batch_execution.Base.Order.{text_le}
use portable_batch_execution.Base.Sorting.{sorted}
use portable_batch_execution.Base.Int.{pos_part}
use portable_batch_execution.Lifecycle.Index.{is_protected, protection_reasons}
use portable_batch_execution.Lifecycle.Plan.{
  GcProtection, GcReport, Verdict, keep, collect, already_deleted, candidate_detail,
  effective_last_use, verdict_of, eligible_in, reasons_in, judge_unprotected, judge, collected,
  kept, total_size, candidate_total, plan_sweep, payload_files, report_of,
}
use portable_batch_execution.Lifecycle.Records.{digest_hex}
use portable_batch_execution.Lifecycle.Root.{
  StateRoot, PayloadFile, unless_stored, unless_stored-returns,
}
use portable_batch_execution.Lifecycle.Sweep.{Sweep, age_between}

-- The size that a verdict counts: none for a payload that has a receipt already.
abbrev pub counted : Verdict → ℕ
counted (keep p) = p.size_bytes
counted (collect c) = pos_part c.size_bytes
counted already_deleted = 0

-- `sum(item.size_bytes for item in protected)`
abbrev pub protected_total : List GcProtection → ℕ
protected_total [] = 0
protected_total (p ∷ ps) = p.size_bytes + protected_total ps

abbrev counted_total : List Verdict → ℕ
counted_total [] = 0
counted_total (v ∷ vs) = counted v + counted_total vs

counts_le : (vs : List Verdict) → length (collected vs) + length (kept vs) ≤ length vs
unfolding collected kept
counts_le [] = omega arith
counts_le (keep p ∷ vs) = omega (arith, counts_le vs)
counts_le (collect c ∷ vs) = omega (arith, counts_le vs)
counts_le (already_deleted ∷ vs) = omega (arith, counts_le vs)

sizes_eq :
    (vs : List Verdict)
    → candidate_total (collected vs) + protected_total (kept vs) ≡ counted_total vs
unfolding collected kept
sizes_eq [] = refl
sizes_eq (keep p ∷ vs) = omega (arith, sizes_eq vs)
sizes_eq (collect c ∷ vs) = omega (arith, sizes_eq vs)
sizes_eq (already_deleted ∷ vs) = omega (arith, sizes_eq vs)

module _ (root : StateRoot) (sweep : Sweep) (name : String) (file : PayloadFile) where
  verdict_of-counted :
      (eligible : Bool) (digest : String) (v : Verdict)
      → verdict_of eligible root sweep digest file ≡ ok v
      → counted v ≡ file.size
  unfolding verdict_of candidate_detail
  verdict_of-counted true digest v h =
      let (candidate, eq, made) = >>=-returns (candidate_detail sweep digest file) _ h in
      let (last_use, eq_use, rest) =
        >>=-returns (effective_last_use sweep.mode sweep digest file) _ eq in
      let (age, eq_age, built) = >>=-returns (age_between sweep.now last_use) _ rest in
      ap counted (sym (ok-injective _ v made))
      ∙ ap (λ c. pos_part c.size_bytes) (sym (ok-injective _ candidate built))
  verdict_of-counted false digest v h =
      let (reasons, eq, made) = >>=-returns (reasons_in sweep.mode root sweep digest) _ h in
      ap counted (sym (ok-injective _ v made))

  kept-counted :
      (v : Verdict) (reasons : List String)
      → judge root sweep (name, file)
        ≡ ok (
            keep
              (record { digest = after "sha256:" name; size_bytes = file.size; reasons = reasons }))
      → judge root sweep (name, file) ≡ ok v
      → counted v ≤ file.size
  kept-counted v reasons held h =
      let same : counted v ≡ file.size = ap counted (sym (ok-injective _ v (sym held ∙ h))) in
      omega (arith, same)

  judge-counted : (v : Verdict) → judge root sweep (name, file) ≡ ok v → counted v ≤ file.size
  unfolding judge judge_unprotected
  judge-counted v h =
      let digest = after "sha256:" name in
      elim (Bool-cases (contains sweep.index.unknown_digests digest)) [
        | inl e ↦ kept-counted v ("unknown_authoritative_state" ∷ []) (rw (e, judge) refl) h
        | inr e ↦ elim (Bool-cases (is_protected sweep.index digest)) [
          | inl f ↦
              kept-counted v (sorted text_le (protection_reasons sweep.index digest))
                (rw (e, f, judge) refl) h
          | inr f ↦
              let held : judge root sweep (name, file)
                  ≡ unless_stored (get root.receipts (digest_hex digest)) already_deleted
                      (judge_unprotected root sweep digest file) =
                rw (e, f, judge) refl in
              elim (unless_stored-returns (get root.receipts (digest_hex digest)) _ _ _
                (sym held ∙ h)) [
                  | inl (r, stored, same) ↦
                      let none_left : counted v ≡ 0 = ap counted (sym same) in
                      omega (arith, none_left)
                  | inr (no_receipt, rest) ↦
                      let (eligible, eq, made) =
                        >>=-returns (eligible_in sweep.mode root sweep digest) _ rest in
                      let all_of_it = verdict_of-counted eligible digest v made in
                      omega (arith, all_of_it)
                ]
        ]
      ]

module _ (root : StateRoot) (sweep : Sweep) where
  verdicts-counted :
      (files : Dict PayloadFile) (verdicts : List Verdict)
      → traverse (judge root sweep) files ≡ ok verdicts
      → (length verdicts ≡ length files) × (counted_total verdicts ≤ total_size files)
  verdicts-counted [] verdicts h =
      let same = sym (ok-injective [] verdicts h) in
      (ap length same, omega (arith, ap counted_total same))
  verdicts-counted ((name, file) ∷ files) verdicts h =
      let (v, eq, rest) = >>=-returns (judge root sweep (name, file)) _ h in
      let (vs, eqs, made) = >>=-returns (traverse (judge root sweep) files) _ rest in
      let same = sym (ok-injective (v ∷ vs) verdicts made) in
      let (lengths, sizes) = verdicts-counted files vs eqs in
      let one = judge-counted root sweep name file v eq in
      (ap length same ∙ ap suc lengths, omega (arith, ap counted_total same, sizes, one))

  -- In a plan that returns, the candidates and the protected payloads together are at most the
  -- payloads, in number and in bytes.
  plan_sweep-totals :
      (report : GcReport)
      → plan_sweep root sweep ≡ ok report
      → (report.candidate_count + length report.protected ≤ report.artifact_count)
        × (report.candidate_bytes + protected_total report.protected ≤ report.artifact_bytes)
  unfolding plan_sweep report_of
  plan_sweep-totals report h =
      let files = payload_files root in
      let (verdicts, eq, made) = >>=-returns (traverse (judge root sweep) files) _ h in
      let (lengths, sizes) = verdicts-counted files verdicts eq in
      subst
        (λ (r : GcReport).
          (r.candidate_count + length r.protected ≤ r.artifact_count)
          × (r.candidate_bytes + protected_total r.protected ≤ r.artifact_bytes))
        (ok-injective (report_of sweep files verdicts) report made)
        (omega (arith, counts_le verdicts, lengths), omega (arith, sizes_eq verdicts, sizes))
