-- ===== src/Contracts/Job/Closed.antt =====
-- Which jobs the validator of `JobSpec` accepts.
use portable_batch_execution.Base.{
  Bool, true, false, not, ◌&&◌, ◌||◌, ◌==◌, ◌≡◌, refl, List, [], ◌∷◌, ◌++◌, all, contains, arith,
  Outcome, ok, raise, raise_if, ◌>>◌, Error, value_error, ◌∙◌, ap,
}
use portable_batch_execution.Contracts.Job.{
  pack_ops, Param, Params, Fields, null, text, float, int, bool, array, dict, opaque, no_more, item,
  closed_brace, field, has_reserved, walk, walk_items, walk_values, JobSpec, is_ml, is_bounded,
  is_given, job_closed,
}

abbrev pub returns {ℓ} : {A : Type ℓ} → Outcome A → Bool
returns (ok a) = true
returns (raise e) = false

-- The value itself and every value inside it, at any depth.
unfoldable mutual
  pub values_within : Param → List Param
  values_within (array ps) = array ps ∷ items_within ps
  values_within (dict fs) = dict fs ∷ fields_within fs
  values_within p = p ∷ []

  pub items_within : Params → List Param
  items_within no_more = []
  items_within (item p ps) = values_within p ++ items_within ps

  pub fields_within : Fields → List Param
  fields_within closed_brace = []
  fields_within (field k p fs) = values_within p ++ fields_within fs

-- Plain data: no value of another type than JSON's, and no dictionary with a reserved key.
unfoldable pub is_plain : Param → Bool
is_plain (dict fs) = not (has_reserved fs)
is_plain opaque = false
is_plain p = true

all-append : (p : Param → Bool) (xs ys : List Param) → all p (xs ++ ys) ≡ (all p xs && all p ys)
all-append p [] ys = refl
all-append p (x ∷ xs) ys = ground (arith, all-append p xs ys)

returns->> : (m n : Outcome (Unit {0})) → returns (m >> n) ≡ (returns m && returns n)
returns->> (ok u) n = refl
returns->> (raise e) n = refl

returns-raise_if :
    (refused : Bool) (e : Error) (m : Outcome (Unit {0}))
    → returns (raise_if refused e >> m) ≡ (not refused && returns m)
returns-raise_if true e m = refl
returns-raise_if false e m = refl

mutual
  unfolding walk values_within is_plain

  returns-walk : (p : Param) → returns (walk p) ≡ all is_plain (values_within p)
  returns-walk null = refl
  returns-walk (text t) = refl
  returns-walk (float t) = refl
  returns-walk (int n) = refl
  returns-walk (bool b) = refl
  returns-walk (array ps) = ground (arith, returns-walk_items ps)
  returns-walk (dict fs) =
      returns-raise_if (has_reserved fs) _ (walk_values fs)
      ∙ ap (λ b. not (has_reserved fs) && b) (returns-walk_values fs)
  returns-walk opaque = refl

  returns-walk_items : (ps : Params) → returns (walk_items ps) ≡ all is_plain (items_within ps)
  returns-walk_items no_more = refl
  returns-walk_items (item p ps) = ground (
    arith,
    returns->> (walk p) (walk_items ps),
    returns-walk p,
    returns-walk_items ps,
    all-append is_plain (values_within p) (items_within ps),
  )

  returns-walk_values : (fs : Fields) → returns (walk_values fs) ≡ all is_plain (fields_within fs)
  returns-walk_values closed_brace = refl
  returns-walk_values (field k p fs) = ground (
    arith,
    returns->> (walk p) (walk_values fs),
    returns-walk p,
    returns-walk_values fs,
    all-append is_plain (values_within p) (fields_within fs),
  )

by_cases :
    (given ml distilbert bounded known reserved plain : Bool)
    → (not (given && (not ml || not distilbert || not bounded))
        && (not (not known || reserved) && (not reserved && plain)))
      ≡ (known && (not reserved && plain) && (not given || ml && distilbert && bounded))
by_cases given ml distilbert bounded known reserved plain = ground arith

-- The validator accepts a job exactly if its pack has the operation, every value among its
-- parameters, at any depth, is plain data without reserved keys, and a model delivery, where there
-- is one, goes with the bounded-network DistilBERT operation.
pub job_closed-returns :
    (j : JobSpec)
    → returns (job_closed j) ≡ (
        contains (pack_ops j.pack) j.operation
        && all is_plain (values_within (dict j.operation_params))
        && (not (is_given j.model_delivery)
            || is_ml j.pack
              && (j.operation == "ml.distilbert_pair_binary_scores")
              && is_bounded j.security_profile))
unfolding job_closed values_within is_plain
job_closed-returns j =
    let misplaced =
      is_given j.model_delivery
      && (not (is_ml j.pack)
          || not (j.operation == "ml.distilbert_pair_binary_scores")
          || not (is_bounded j.security_profile)) in
    let unknown = not (contains (pack_ops j.pack) j.operation) || has_reserved j.operation_params in
    let walked = walk (dict j.operation_params) in
    returns-raise_if misplaced _
      (raise_if unknown (value_error "closed operation parameters") >> walked)
    ∙ (ap (λ b. not misplaced && b) (returns-raise_if unknown _ walked)
        ∙ (ap (λ b. not misplaced && (not unknown && b)) (returns-walk (dict j.operation_params))
            ∙ by_cases (is_given j.model_delivery) (is_ml j.pack)
                (j.operation == "ml.distilbert_pair_binary_scores") (is_bounded j.security_profile)
                (contains (pack_ops j.pack) j.operation) (has_reserved j.operation_params)
                (all is_plain (fields_within j.operation_params))))
