-- ===== src/A1Controller/Dispatches.antt =====
-- The dispatch files after a dispatch: the histories that are read back.
use portable_batch_execution.A1Controller.{
  record_dispatch, history_among, with_waves, wave_history, waves_of,
}
use portable_batch_execution.A1Controller.History.{
  serialize_entry, dispatch_record, BackendExecutionRef, dispatch_metadata_match, normalize_history,
  find_execution, entry_history, DispatchRecord, merged_history,
}
use portable_batch_execution.A1Controller.History.Codec.{
  normalize_history-serialize_entry, entry_history-AllNamed, AllNamed,
}
use portable_batch_execution.Base.{
  ◌∙◌, sym, ◌>>=◌, >>=-returns, refl, All-append, ok-injective, arith, inr, subst, inl, [],
  Bool-cases, ◌∷◌, ◌==◌, ◌++◌, Option-cases, ◌⊎◌, if◌then◌else◌, true, ok, some, ◌≡◌, truthy,
  String, List,
}
use portable_batch_execution.Contracts.Job.{text, dict, Fields, Param}
use portable_batch_execution.Contracts.Json.{truthy_param, lookup_field-set_field, set_field}
use portable_batch_execution.Lifecycle.References.{lookup_field}

merged_history-AllNamed :
    (history : List DispatchRecord) (r : DispatchRecord) (merged : List DispatchRecord)
    → AllNamed history
    → truthy r.execution_id ≡ true
    → merged_history history r ≡ ok merged
    → AllNamed merged
unfolding merged_history
merged_history-AllNamed history r merged named fresh h =
    elim (Option-cases (find_execution history r.execution_id)) [
      | inl e ↦
          let h' : ok (history ++ r ∷ []) ≡ ok merged = rw (e, merged_history) at h in
          subst AllNamed (ok-injective _ merged h')
            (All-append (λ r. truthy r.execution_id ≡ true) history (r ∷ []) (fresh, tt) named)
      | inr (existing, e) ↦ elim (Bool-cases (dispatch_metadata_match existing r)) [
        | inl same ↦ subst AllNamed (ground (arith, e, same, h)) named
        | inr other ↦ absurd (ground (arith, e, other, h))
      ]
    ]

-- A history only grows, and by one dispatch at most.
merged_history-grows :
    (history : List DispatchRecord) (r : DispatchRecord) (merged : List DispatchRecord)
    → merged_history history r ≡ ok merged
    → (merged ≡ history) ⊎ (merged ≡ history ++ r ∷ [])
unfolding merged_history
merged_history-grows history r merged h =
    elim (Option-cases (find_execution history r.execution_id)) [
      | inl e ↦ inr (ground (arith, e, h))
      | inr (existing, e) ↦ elim (Bool-cases (dispatch_metadata_match existing r)) [
        | inl same ↦ inl (ground (arith, e, same, h))
        | inr other ↦ absurd (ground (arith, e, other, h))
      ]
    ]

waves_of-with_waves :
    (state : Fields) (waves : Fields)
    → waves_of (set_field (with_waves state) "waves" (dict waves)) ≡ some waves
unfolding waves_of
waves_of-with_waves state waves =
    rw (lookup_field-set_field (with_waves state) "waves" "waves" (dict waves), waves_of) refl

module _ (str : Param → String) where
  -- A wave's history in the state that is written.
  written_history :
      (state waves entry : Fields) (wave_id sought : String)
      → waves_of state ≡ some waves
      → wave_history str sought
          (set_field (with_waves state) "waves" (dict (set_field waves wave_id (dict entry))))
        ≡ (if wave_id == sought then normalize_history str entry else wave_history str sought state)
  unfolding wave_history history_among entry_history
  written_history state waves entry wave_id sought e = elim (Bool-cases (wave_id == sought)) [
    | inl same ↦
        rw
          (
            waves_of-with_waves state (set_field waves wave_id (dict entry)),
            e,
            wave_history,
            lookup_field-set_field waves wave_id sought (dict entry),
            same,
          )
          refl
    | inr other ↦
        rw
          (
            waves_of-with_waves state (set_field waves wave_id (dict entry)),
            e,
            wave_history,
            lookup_field-set_field waves wave_id sought (dict entry),
            other,
          )
          refl
  ]

with_waves-written :
    (state : Fields) (waves : Param)
    → with_waves (set_field state "waves" waves) ≡ set_field state "waves" waves
unfolding with_waves
with_waves-written state waves =
    rw (lookup_field-set_field state "waves" "waves" waves, with_waves) refl

-- What is written of a dispatch, and the history that it adds to.
pub record Recorded (str : Param → String) (state next : Fields) (wave_id : String)
    (e : BackendExecutionRef) (before : List DispatchRecord) : Type 0 where
  pub merged : List DispatchRecord
  pub grows : (merged ≡ before) ⊎ (merged ≡ before ++ dispatch_record e ∷ [])
  pub reads :
      (sought : String)
      → wave_history str sought (with_waves next)
        ≡ (if wave_id == sought then ok merged else wave_history str sought state)

module _ (str : Param → String) (str-text : (s : String) → str (text s) ≡ s)
    (str-truthy : (p : Param) → truthy_param p ≡ true → truthy (str p) ≡ true) where
  merged-Recorded :
      (state waves next : Fields) (wave_id : String) (e : BackendExecutionRef)
      (before : List DispatchRecord)
      → truthy e.execution_id ≡ true
      → waves_of state ≡ some waves
      → entry_history str (lookup_field waves wave_id) ≡ ok before
      → (merged : List DispatchRecord) → merged_history before (dispatch_record e) ≡ ok merged
      → (entry : Fields) → serialize_entry merged ≡ ok entry
      → ok (set_field (with_waves state) "waves" (dict (set_field waves wave_id (dict entry))))
        ≡ ok next
      → Recorded str state next wave_id e before
  merged-Recorded state waves next wave_id e before named found old merged grown entry wrote last =
      let all_named : AllNamed merged =
        merged_history-AllNamed before (dispatch_record e) merged
          (entry_history-AllNamed str str-truthy _ before old) named grown in
      let back = normalize_history-serialize_entry str str-text merged entry all_named wrote in
      subst (λ s. Recorded str state s wave_id e before) (ok-injective _ next last)
        (record {
          merged = merged;
          grows = merged_history-grows before (dispatch_record e) merged grown;
          reads = λ sought.
              rw
                (
                  with_waves-written (with_waves state)
                      (dict (set_field waves wave_id (dict entry))),
                  written_history str state waves entry wave_id sought found,
                  back,
                )
                refl;
        })

  pub record_dispatch-Recorded :
      (state next : Fields) (wave_id : String) (e : BackendExecutionRef)
      (before : List DispatchRecord)
      → truthy e.execution_id ≡ true
      → wave_history str wave_id state ≡ ok before
      → record_dispatch str state wave_id e ≡ ok next
      → Recorded str state next wave_id e before
  unfolding record_dispatch wave_history history_among
  record_dispatch-Recorded state next wave_id e before named old h =
      elim (Option-cases (waves_of state)) [
        | inl missing ↦ absurd (ground (arith, missing, h))
        | inr (waves, found) ↦
            let old' : entry_history str (lookup_field waves wave_id) ≡ ok before =
              rw (found, wave_history) at old in
            let (known, reading, h1) =
              >>=-returns (entry_history str (lookup_field waves wave_id))
                (λ history. merged_history history (dispatch_record e) >>= λ dispatches.
                  serialize_entry dispatches >>= λ entry. ok (
                    set_field (with_waves state) "waves"
                      (dict (set_field waves wave_id (dict entry)))))
                (rw (found, record_dispatch) at h) in
            let (merged, grown, h2) = >>=-returns (merged_history known (dispatch_record e)) _ h1 in
            let (entry, wrote, last) = >>=-returns (serialize_entry merged) _ h2 in
            merged-Recorded state waves next wave_id e before named found old' merged
              (subst (λ k. merged_history k (dispatch_record e) ≡ ok merged)
                (ok-injective known before (sym reading ∙ old')) grown)
              entry wrote last
      ]
