-- ===== src/Lifecycle/Reachability/Held.antt =====
-- Holds and undelivered outputs are protected in the index, and a file that cannot be read makes the
-- index uncertain.
use portable_batch_execution.Base.{
  Bool, true, false, String, List, [], ◌∷◌, any, contains, ◌==◌, Bool-cases, ◌≡◌, ◌∙◌, subst, inl,
  inr, arith, eq_iff,
}
use portable_batch_execution.Base.Decimal.{after}
use portable_batch_execution.Base.Dict.{Dict}
use portable_batch_execution.Contracts.Datetime.{Datetime}
use portable_batch_execution.Lifecycle.Index.{
  ReachabilityIndex, is_protected, is_uncertain, protect, touch, over,
}
use portable_batch_execution.Lifecycle.Reachability.{
  build_reachability_index, index_holds, note_hold, readable, report_unreadable,
}
use portable_batch_execution.Lifecycle.Reachability.Found.{note_hold-Grows, report_unreadable-Grows}
use portable_batch_execution.Lifecycle.Reachability.Grows.{
  over-Grows, protect-is_protected, touch-Grows, protect-Grows, then-Grows, unknown-is_uncertain,
}
use portable_batch_execution.Lifecycle.Reachability.Kept.{build-Below}
use portable_batch_execution.Lifecycle.Records.{HoldRecord, LifecyclePolicy}
use portable_batch_execution.Lifecycle.References.{Outside}
use portable_batch_execution.Lifecycle.Root.{
  StateRoot, Stored, holding, not_object, unreadable, json_files, any-json_files,
}

-- A hold's file that names the digest.
abbrev pub holds_digest : String → String × Stored HoldRecord → Bool
holds_digest digest (name, holding h) = contains h.artifact_digests digest
holds_digest digest (name, not_object) = false
holds_digest digest (name, unreadable) = false

abbrev pub is_refused : {A : Type 0} → String × Stored A → Bool
is_refused (name, holding a) = false
is_refused (name, not_object) = true
is_refused (name, unreadable) = true

module _ (digest : String) where
  over_digests-protects :
      (hold_id : String) (when : Datetime) (digests : List String) (i : ReachabilityIndex)
      → contains digests digest ≡ true
      → is_protected
          (over (λ d j. touch d when (protect d (after "hold:" hold_id) j)) digests i)
          digest
        ≡ true
  unfolding over
  over_digests-protects hold_id when [] i h = cc
  over_digests-protects hold_id when (d ∷ ds) i h = elim (Bool-cases (d == digest)) [
    | inl e ↦
        let grows =
          over-Grows (λ d j. touch d when (protect d (after "hold:" hold_id) j)) ds
            λ d.
              then-Grows (protect d (after "hold:" hold_id)) (touch d when)
                (protect-Grows d (after "hold:" hold_id)) (touch-Grows d when) in
        (grows.below _).protected digest (
          subst
            (λ sought.
              is_protected (touch d when (protect d (after "hold:" hold_id) i)) sought ≡ true)
            ((eq_iff d digest).0 e)
            (((touch-Grows d when).below _).protected d
              (protect-is_protected d (after "hold:" hold_id) i)))
    | inr e ↦ over_digests-protects hold_id when ds _ (ground (arith, e, h))
  ]

  note_hold-protects :
      (hold : HoldRecord) (i : ReachabilityIndex)
      → contains hold.artifact_digests digest ≡ true
      → is_protected (note_hold hold i) digest ≡ true
  unfolding note_hold
  note_hold-protects hold i h =
      over_digests-protects hold.hold_id hold.created_at hold.artifact_digests i h

  readable-protects :
      (files : Dict (Stored HoldRecord)) (i : ReachabilityIndex)
      → any (holds_digest digest) files ≡ true
      → is_protected (over note_hold (readable files) i) digest ≡ true
  unfolding over readable
  readable-protects [] i h = cc
  readable-protects ((name, holding hold) ∷ files) i h =
      elim (Bool-cases (contains hold.artifact_digests digest)) [
        | inl e ↦
            ((over-Grows note_hold (readable files) note_hold-Grows).below
                (note_hold hold i)).protected
              digest (note_hold-protects hold i e)
        | inr e ↦ readable-protects files (note_hold hold i) (ground (arith, e, h))
      ]
  readable-protects ((name, not_object) ∷ files) i h = readable-protects files i h
  readable-protects ((name, unreadable) ∷ files) i h = readable-protects files i h

pub report_unreadable-uncertain :
    {A : Type 0} (label : String) (files : Dict (Stored A)) (i : ReachabilityIndex)
    → any is_refused files ≡ true
    → is_uncertain (report_unreadable label files i) ≡ true
unfolding report_unreadable
report_unreadable-uncertain label [] i h = cc
report_unreadable-uncertain label ((name, holding a) ∷ files) i h =
    report_unreadable-uncertain label files i h
report_unreadable-uncertain label ((name, not_object) ∷ files) i h =
    ((report_unreadable-Grows label files).below _).uncertain (unknown-is_uncertain _ i)
report_unreadable-uncertain label ((name, unreadable) ∷ files) i h =
    ((report_unreadable-Grows label files).below _).uncertain (unknown-is_uncertain _ i)

module _ (outside : Outside) (root : StateRoot) (policy : LifecyclePolicy) where
  -- A digest that some readable hold names is protected in the index.
  pub held-is_protected :
      (digest : String)
      → any (holds_digest digest) root.holds ≡ true
      → is_protected (build_reachability_index outside root policy) digest ≡ true
  unfolding index_holds
  held-is_protected digest h = (build-Below outside root policy).protected digest (
      readable-protects digest (json_files root.holds) _
        (any-json_files (holds_digest digest) root.holds ∙ h))

  -- If some hold file cannot be read or is no JSON object, the index is uncertain.
  pub unreadable_hold-is_uncertain :
      any is_refused root.holds ≡ true
      → is_uncertain (build_reachability_index outside root policy) ≡ true
  unfolding index_holds
  unreadable_hold-is_uncertain h = (build-Below outside root policy).uncertain (
      ((over-Grows note_hold (readable (json_files root.holds)) note_hold-Grows).below _).uncertain
        (report_unreadable-uncertain _ (json_files root.holds) _
          (any-json_files is_refused root.holds ∙ h)))
