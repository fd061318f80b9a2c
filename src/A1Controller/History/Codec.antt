-- ===== src/A1Controller/History/Codec.antt =====
-- The history of a wave, written and read back.
use portable_batch_execution.A1Controller.History.{latest}
use portable_batch_execution.A1Controller.History.{single_dispatch}
use portable_batch_execution.A1Controller.History.{entry_history}
use portable_batch_execution.A1Controller.History.{history_in}
use portable_batch_execution.A1Controller.History.{serialize_entry}
use portable_batch_execution.Base.{
  String, true, truthy, Bool-cases, Option, none, some, inl, inr, ok-injective, subst, arith,
  >>=-returns, List, [], ◌∷◌, ok, ◌≡◌, refl,
}
use portable_batch_execution.Base.Lists.{All}
use portable_batch_execution.Contracts.Job.{
  Param, Params, Fields, text, null, float, int, bool, array, dict, opaque, no_more, item,
}
use portable_batch_execution.Contracts.Json.{truthy_param, or_else}
use portable_batch_execution.Lifecycle.References.{lookup_field}
use portable_batch_execution.A1Controller.History.{
  DispatchRecord, record_json, history_json, entry_json, normalize_item, normalize_items,
  normalize_history,
}

-- Every dispatch of the history names its execution.
abbrev pub AllNamed : List DispatchRecord → Type 0
AllNamed = All (λ r. truthy r.execution_id ≡ true)

module _ (str : Param → String) (str-text : (s : String) → str (text s) ≡ s) where
  normalize_item-record_json :
      (r : DispatchRecord)
      → truthy r.execution_id ≡ true
      → normalize_item str (record_json r) ≡ ok r
  unfolding normalize_item lookup_field truthy_param
  normalize_item-record_json r named = rw (named, str-text r.execution_id) refl

  normalize_items-history_json :
      (rs : List DispatchRecord) → AllNamed rs → normalize_items str (history_json rs) ≡ ok rs
  unfolding normalize_items
  normalize_items-history_json [] named = refl
  normalize_items-history_json (r ∷ rs) (first, others) =
      rw (normalize_item-record_json r first, normalize_items-history_json rs others) refl

  normalize_history-entry_json :
      (rs : List DispatchRecord) (last : DispatchRecord)
      → AllNamed rs
      → normalize_history str (entry_json rs last) ≡ ok rs
  unfolding normalize_history history_in lookup_field
  normalize_history-entry_json rs last named = normalize_items-history_json rs named

  -- What is written of a history whose dispatches name their executions is read back as it was.
  pub normalize_history-serialize_entry :
      (rs : List DispatchRecord) (entry : Fields)
      → AllNamed rs
      → serialize_entry rs ≡ ok entry
      → normalize_history str entry ≡ ok rs
  unfolding serialize_entry
  normalize_history-serialize_entry [] entry named h = cc
  normalize_history-serialize_entry (r ∷ rs) entry named h =
      subst (λ e. normalize_history str e ≡ ok (r ∷ rs)) (ok-injective _ entry h)
        (normalize_history-entry_json (r ∷ rs) (latest r rs) named)

module _ (str : Param → String)
    (str-truthy : (p : Param) → truthy_param p ≡ true → truthy (str p) ≡ true) where
  fields-IsNamed :
      (fs : Fields) (r : DispatchRecord)
      → normalize_item str (dict fs) ≡ ok r
      → truthy r.execution_id ≡ true
  unfolding normalize_item
  fields-IsNamed fs r h =
      let p : Param = or_else (lookup_field fs "execution_id") null in
      elim (Bool-cases (truthy_param p)) [
        | inl there ↦ ground (arith, str-truthy p there)
        | inr missing ↦ ground (arith, missing)
      ]

  normalize_item-IsNamed :
      (p : Param) (r : DispatchRecord) → normalize_item str p ≡ ok r → truthy r.execution_id ≡ true
  unfolding normalize_item
  normalize_item-IsNamed (dict fs) r h = fields-IsNamed fs r h
  normalize_item-IsNamed null r h = cc
  normalize_item-IsNamed (text s) r h = cc
  normalize_item-IsNamed (float s) r h = cc
  normalize_item-IsNamed (int n) r h = cc
  normalize_item-IsNamed (bool b) r h = cc
  normalize_item-IsNamed (array ps) r h = cc
  normalize_item-IsNamed opaque r h = cc

  normalize_items-AllNamed :
      (ps : Params) (rs : List DispatchRecord) → normalize_items str ps ≡ ok rs → AllNamed rs
  unfolding normalize_items
  normalize_items-AllNamed no_more rs h = subst AllNamed (ok-injective [] rs h) tt
  normalize_items-AllNamed (item p ps) rs h =
      let (r, found, more) = >>=-returns (normalize_item str p) _ h in
      let (later, rest, whole) = >>=-returns (normalize_items str ps) _ more in
      subst AllNamed (ok-injective (r ∷ later) rs whole)
        (normalize_item-IsNamed p r found, normalize_items-AllNamed ps later rest)

  single_dispatch-AllNamed : (entry : Fields) → AllNamed (single_dispatch str entry)
  unfolding single_dispatch
  single_dispatch-AllNamed entry =
      let p : Param = or_else (lookup_field entry "execution_id") null in
      elim (Bool-cases (truthy_param p)) [
        | inl there ↦ rw there (str-truthy p there, tt)
        | inr missing ↦ rw missing tt
      ]

  of_single :
      (entry : Fields) (rs : List DispatchRecord)
      → ok (single_dispatch str entry) ≡ ok rs
      → AllNamed rs
  of_single entry rs h =
      subst AllNamed (ok-injective (single_dispatch str entry) rs h)
        (single_dispatch-AllNamed entry)

  of_none : (rs : List DispatchRecord) → ok [] ≡ ok rs → AllNamed rs
  of_none rs h = subst AllNamed (ok-injective [] rs h) tt

  history_in-AllNamed :
      (entry : Fields) (p : Param) (rs : List DispatchRecord)
      → history_in str entry p ≡ ok rs
      → AllNamed rs
  unfolding history_in
  history_in-AllNamed entry (array ps) rs h = normalize_items-AllNamed ps rs h
  history_in-AllNamed entry (dict fs) rs h = of_single entry rs h
  history_in-AllNamed entry null rs h = of_single entry rs h
  history_in-AllNamed entry (text s) rs h = of_single entry rs h
  history_in-AllNamed entry (float s) rs h = of_single entry rs h
  history_in-AllNamed entry (int n) rs h = of_single entry rs h
  history_in-AllNamed entry (bool b) rs h = of_single entry rs h
  history_in-AllNamed entry opaque rs h = of_single entry rs h

  normalize_history-AllNamed :
      (entry : Fields) (rs : List DispatchRecord)
      → normalize_history str entry ≡ ok rs
      → AllNamed rs
  unfolding normalize_history
  normalize_history-AllNamed entry rs h = history_in-AllNamed entry _ rs h

  -- Whatever an entry is, each dispatch of its history names its execution.
  pub entry_history-AllNamed :
      (entry : Option Param) (rs : List DispatchRecord)
      → entry_history str entry ≡ ok rs
      → AllNamed rs
  unfolding entry_history
  entry_history-AllNamed (some (dict fs)) rs h = normalize_history-AllNamed fs rs h
  entry_history-AllNamed none rs h = of_none rs h
  entry_history-AllNamed (some (array ps)) rs h = of_none rs h
  entry_history-AllNamed (some null) rs h = of_none rs h
  entry_history-AllNamed (some (text s)) rs h = of_none rs h
  entry_history-AllNamed (some (float s)) rs h = of_none rs h
  entry_history-AllNamed (some (int n)) rs h = of_none rs h
  entry_history-AllNamed (some (bool b)) rs h = of_none rs h
  entry_history-AllNamed (some opaque) rs h = of_none rs h
