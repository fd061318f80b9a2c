-- ===== src/Lifecycle/Collect/Protected.antt =====
-- What is protected survives `apply_gc`, and uncertainty stops it.
use portable_batch_execution.Base.{
  any, All, Bool, true, false, String, List, if◌then◌else◌, Outcome-cases, ok, ◌≡◌, refl, ◌∙◌, ap,
  subst, inl, inr,
}
use portable_batch_execution.Base.Decimal.{after}
use portable_batch_execution.Base.Dict.{get}
use portable_batch_execution.Base.Exec.{done, reading, and_then}
use portable_batch_execution.Contracts.Datetime.{Datetime}
use portable_batch_execution.Lifecycle.Collect.{
  apply_locked, apply_report, apply_gc, blocked_report,
}
use portable_batch_execution.Lifecycle.Collect.Safety.{apply_locked-accounts}
use portable_batch_execution.Lifecycle.Index.{ReachabilityIndex, is_uncertain, is_protected}
use portable_batch_execution.Lifecycle.Plan.{GcReport, plan_gc}
use portable_batch_execution.Lifecycle.Plan.Candidates.{plan_gc-in_full}
use portable_batch_execution.Lifecycle.Reachability.{build_reachability_index}
use portable_batch_execution.Lifecycle.Reachability.Held.{holds_digest, held-is_protected}
use portable_batch_execution.Lifecycle.Records.{DeletionIntent, LifecyclePolicy, digest_hex}
use portable_batch_execution.Lifecycle.References.{Outside}
use portable_batch_execution.Lifecycle.Root.{StateRoot, list_all}
use portable_batch_execution.Lifecycle.Sweep.{GcMode}

-- The digest is the file's name with `sha256:` before it.
abbrev pub InFull : String → Type 0
InFull digest = digest ≡ after "sha256:" (digest_hex digest)

abbrev pub IntentsInFull : StateRoot → Type 0
IntentsInFull root =
    (intents : List DeletionIntent)
    → list_all root.intents ≡ ok intents
    → All (λ i. InFull i.artifact_digest) intents

abbrev pub CandidatesInFull : GcReport → Type 0
CandidatesInFull report = All (λ c. InFull c.digest) report.candidates

module _ (index : ReachabilityIndex) (policy : LifecyclePolicy) (mode : GcMode) (now : Datetime)
    (crashes : List String) (report : GcReport) (root : StateRoot) where
  apply_locked-keeps :
      (name : String)
      → IntentsInFull root
      → CandidatesInFull report
      → is_protected index (after "sha256:" name) ≡ true
      → get (apply_locked index policy mode now crashes report root).1.artifacts name
        ≡ get root.artifacts name
  apply_locked-keeps name intents candidates h =
      elim (apply_locked-accounts index policy mode now InFull crashes report root intents
        candidates) [
          | inl unchanged ↦ ap (λ s. get s.artifacts name) unchanged
          | inr (deliveries, listed, account) ↦ elim (account.payloads name) [
            | inl same ↦ same
            | inr deleted ↦
                let r = deleted.released in
                let same : r.digest ≡ after "sha256:" name =
                  r.known ∙ ap (after "sha256:") r.named in
                let free : is_protected index (after "sha256:" name) ≡ false =
                  subst (λ d. is_protected index d ≡ false) same r.deletable.unprotected in
                cc
          ]
        ]

  -- Where the new index has an unknown message or digest, nothing is changed, and the report says
  -- that the run is blocked.
  pub apply_locked-uncertain :
      is_uncertain index ≡ true
      → apply_locked index policy mode now crashes report root
        ≡ (ok (blocked_report report index), root)
  unfolding apply_locked done
  apply_locked-uncertain h = rw (h, apply_locked) refl

module _ (outside : Outside) (policy : LifecyclePolicy) (mode : GcMode) (now : Datetime)
    (crashes : List String) (root : StateRoot) where
  -- Under the lock, for any report with digests in full, as stale as it may be, a payload whose
  -- full digest is protected in the state that is there then is as it was, whether the deletion
  -- returns or raises, if the pending intents have their digests in full.
  pub apply_report-keeps_protected :
      (report : GcReport) (name : String)
      → IntentsInFull root
      → CandidatesInFull report
      → is_protected (build_reachability_index outside root policy) (after "sha256:" name) ≡ true
      → get (apply_report outside policy mode now crashes report root).1.artifacts name
        ≡ get root.artifacts name
  unfolding apply_report
  apply_report-keeps_protected report name =
      apply_locked-keeps (build_reachability_index outside root policy) policy mode now crashes
        report root name

  unless_blocked :
      (blocked : Bool) (report : GcReport) (name : String)
      → get (apply_report outside policy mode now crashes report root).1.artifacts name
        ≡ get root.artifacts name
      → get
          ((if blocked then done report else apply_report outside policy mode now crashes report)
            root).1.artifacts
          name
        ≡ get root.artifacts name
  unfolding done
  unless_blocked true report name h = refl
  unless_blocked false report name h = h

  -- A payload whose full digest is protected in the state is as it was after apply_gc, with its
  -- own plan, whether that returns or raises, if the pending intents have their digests in full.
  pub apply_gc-keeps_protected :
      (name : String)
      → IntentsInFull root
      → is_protected (build_reachability_index outside root policy) (after "sha256:" name) ≡ true
      → get (apply_gc outside policy mode now crashes root).1.artifacts name
        ≡ get root.artifacts name
  unfolding apply_gc and_then reading done
  apply_gc-keeps_protected name intents h =
      elim (Outcome-cases (plan_gc outside root policy mode now)) [
        | inr (e, eq) ↦ rw (eq, apply_gc) refl
        | inl (report, eq) ↦
            rw (eq, apply_gc)
              (unless_blocked report.blocked report name (
                apply_report-keeps_protected report name intents
                  (plan_gc-in_full outside root policy mode now report eq) h))
      ]

  -- A payload whose full digest some readable hold names is as it was after apply_gc, whether
  -- that returns or raises, in either mode and for any simulated crash, if the pending intents
  -- have their digests in full.
  pub apply_gc-keeps_held :
      (name : String)
      → IntentsInFull root
      → any (holds_digest (after "sha256:" name)) root.holds ≡ true
      → get (apply_gc outside policy mode now crashes root).1.artifacts name
        ≡ get root.artifacts name
  apply_gc-keeps_held name intents h =
      apply_gc-keeps_protected name intents
        (held-is_protected outside root policy (after "sha256:" name) h)
