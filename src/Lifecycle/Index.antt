-- ===== src/Lifecycle/Index.antt =====
-- `ReachabilityIndex` of lifecycle/reachability.py.
use portable_batch_execution.Base.{
  String, Bool, false, not, ◌||◌, none, some, List, [], ◌∷◌, ◌++◌, contains, if◌then◌else◌, ok,
  raise,
}
use portable_batch_execution.Base.Dict.{Dict, get, put, get_list}
use portable_batch_execution.Base.Int.{pos}
use portable_batch_execution.Contracts.Attempt.{is_empty}
use portable_batch_execution.Contracts.Datetime.{Datetime, datetime_lt}

pub record ReachabilityIndex : Type 0 where
  pub protected_by_digest : Dict (List String)
  pub unknown_digests : List String
  pub unknown_messages : List String
  pub broker_outputs : Dict String
  pub run_ids_by_digest : Dict (List String)
  pub digest_last_reference_at : Dict Datetime

abbrev pub empty_index : ReachabilityIndex
empty_index = record {
  protected_by_digest = [];
  unknown_digests = [];
  unknown_messages = [];
  broker_outputs = [];
  run_ids_by_digest = [];
  digest_last_reference_at = [];
}

-- `s.add(x)`
abbrev pub add_to : List String → String → List String
add_to xs x = if contains xs x then xs else xs ++ x ∷ []

-- `is_protected`
unfoldable pub is_protected : ReachabilityIndex → String → Bool
is_protected i digest =
    contains i.unknown_digests digest || not (is_empty (get_list i.protected_by_digest digest))

-- `protection_reasons`
unfoldable pub protection_reasons : ReachabilityIndex → String → List String
protection_reasons i digest = get_list i.protected_by_digest digest

-- `index.unknown_messages or index.unknown_digests`
unfoldable pub is_uncertain : ReachabilityIndex → Bool
is_uncertain i = not (is_empty i.unknown_messages) || not (is_empty i.unknown_digests)

-- `_coerce_utc`
unfoldable pub coerce_utc : Datetime → Datetime
coerce_utc d = elim d.offset [ none ↦ record d { offset = some (pos 0) } | some _ ↦ d ]

-- `a < b`, of aware times
unfoldable pub utc_before : Datetime → Datetime → Bool
utc_before a b = elim (datetime_lt a b) [ ok lt ↦ lt | raise e ↦ false ]

-- `max(a, b)`, of aware times
unfoldable pub later_of : Datetime → Datetime → Datetime
later_of a b = if utc_before a b then b else a

-- `index.protected_by_digest[digest].add(reason)`
unfoldable pub protect : String → String → ReachabilityIndex → ReachabilityIndex
protect digest reason i = record i {
  protected_by_digest =
      put i.protected_by_digest digest (add_to (get_list i.protected_by_digest digest) reason);
}

-- `index.run_ids_by_digest[digest].add(run_id)`
unfoldable pub belongs : String → String → ReachabilityIndex → ReachabilityIndex
belongs digest run_id i = record i {
  run_ids_by_digest =
      put i.run_ids_by_digest digest (add_to (get_list i.run_ids_by_digest digest) run_id);
}

-- `_touch`
unfoldable pub touch : String → Datetime → ReachabilityIndex → ReachabilityIndex
touch digest when i =
    let at = coerce_utc when in
    let touched = record i {
      digest_last_reference_at = put i.digest_last_reference_at digest at;
    } in
    elim (get i.digest_last_reference_at digest) [
      | none ↦ touched
      | some previous ↦ if utc_before previous at then touched else i
    ]

-- `index.unknown_messages.append(...)`; an exception's text at its end is left off, and a
-- path is written by its name.
unfoldable pub unknown : String → ReachabilityIndex → ReachabilityIndex
unknown message i = record i { unknown_messages = i.unknown_messages ++ message ∷ [] }

-- `index.unknown_digests.update(...)`
unfoldable pub unknown_all : List String → ReachabilityIndex → ReachabilityIndex
unknown_all [] i = i
unknown_all (d ∷ ds) i = unknown_all ds (record i { unknown_digests = add_to i.unknown_digests d })

-- `index.broker_outputs[request_id] = digest`
unfoldable pub broker_output : String → String → ReachabilityIndex → ReachabilityIndex
broker_output request_id digest i = record i {
  broker_outputs = put i.broker_outputs request_id digest;
}

-- `for x in xs: body(x)`, over the index
unfoldable pub over :
    {A : Type 0}
    → (A → ReachabilityIndex → ReachabilityIndex)
    → List A
    → ReachabilityIndex
    → ReachabilityIndex
over body [] i = i
over body (x ∷ xs) i = over body xs (body x i)
