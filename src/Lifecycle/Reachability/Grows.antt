-- ===== src/Lifecycle/Reachability/Grows.antt =====
-- What `build_reachability_index` has found to be protected or uncertain stays so to its end.
use portable_batch_execution.Base.{
  Option, none, some, String, Bool, true, false, contains, List, [], ◌∷◌, ◌++◌, if◌then◌else◌,
  Bool-cases, Option-cases, ◌≡◌, refl, inl, inr, arith, eq_iff,
}
use portable_batch_execution.Base.Dict.{Dict, get, get_list, get_list-put}
use portable_batch_execution.Base.Sets.{contains-append}
use portable_batch_execution.Contracts.Attempt.{is_empty}
use portable_batch_execution.Contracts.Datetime.{Datetime}
use portable_batch_execution.Lifecycle.Index.{
  ReachabilityIndex, is_protected, is_uncertain, add_to, coerce_utc, utc_before, protect, belongs,
  touch, unknown, unknown_all, broker_output, over,
}
use portable_batch_execution.Lifecycle.Root.{Stored, holding, not_object, unreadable}

-- The one index knows at least what the other does.
pub record Below (i j : ReachabilityIndex) : Type 0 where
  pub protected : (digest : String) → is_protected i digest ≡ true → is_protected j digest ≡ true
  pub uncertain : is_uncertain i ≡ true → is_uncertain j ≡ true

pub record Grows (f : ReachabilityIndex → ReachabilityIndex) : Type 0 where
  pub below : (i : ReachabilityIndex) → Below i (f i)

pub Below-refl : (i : ReachabilityIndex) → Below i i
Below-refl i = record { protected = λ digest h. h; uncertain = λ h. h }

pub Below-trans : (i j k : ReachabilityIndex) → Below i j → Below j k → Below i k
Below-trans i j k a b = record {
  protected = λ digest h. b.protected digest (a.protected digest h);
  uncertain = λ h. b.uncertain (a.uncertain h);
}

pub id-Grows : Grows (λ i. i)
id-Grows = record { below = Below-refl }

pub then-Grows :
    (f g : ReachabilityIndex → ReachabilityIndex) → Grows f → Grows g → Grows (λ i. g (f i))
then-Grows f g a b = record {
  below = λ i. Below-trans i (f i) (g (f i)) (a.below i) (b.below (f i));
}

pub if-Grows :
    (c : Bool) (f g : ReachabilityIndex → ReachabilityIndex)
    → Grows f
    → Grows g
    → Grows (λ i. if c then f i else g i)
if-Grows true f g a b = a
if-Grows false f g a b = b

pub option-Grows :
    {A : Type 0} (o : Option A) (f : ReachabilityIndex → ReachabilityIndex)
    (g : A → ReachabilityIndex → ReachabilityIndex)
    → Grows f
    → ((a : A) → Grows (g a))
    → Grows (λ i. elim o [ none ↦ f i | some a ↦ g a i ])
option-Grows none f g a b = a
option-Grows (some x) f g a b = b x

pub stored-Grows :
    {A : Type 0} (c : Stored A) (f g : ReachabilityIndex → ReachabilityIndex)
    (h : A → ReachabilityIndex → ReachabilityIndex)
    → Grows f
    → Grows g
    → ((a : A) → Grows (h a))
    → Grows (λ i. elim c [ unreadable ↦ f i | not_object ↦ g i | holding a ↦ h a i ])
stored-Grows unreadable f g h a b c = a
stored-Grows not_object f g h a b c = b
stored-Grows (holding x) f g h a b c = c x

pub over-Grows :
    {A : Type 0} (body : A → ReachabilityIndex → ReachabilityIndex) (xs : List A)
    → ((a : A) → Grows (body a))
    → Grows (over body xs)
unfolding over
over-Grows body [] h = id-Grows
over-Grows body (x ∷ xs) h = then-Grows (body x) (over body xs) (h x) (over-Grows body xs h)

is_empty-add_to : (xs : List String) (x : String) → is_empty (add_to xs x) ≡ false
is_empty-add_to [] x = refl
is_empty-add_to (y ∷ ys) x = ground arith

is_empty-append : (xs : List String) (x : String) → is_empty (xs ++ x ∷ []) ≡ false
is_empty-append [] x = refl
is_empty-append (y ∷ ys) x = refl

contains-add_to :
    (xs : List String) (x y : String) → contains xs y ≡ true → contains (add_to xs x) y ≡ true
contains-add_to xs x y h = elim (Bool-cases (contains xs x)) [
  | inl e ↦ rw e h
  | inr e ↦ rw (e, contains-append xs (x ∷ []) y, h) refl
]

pub protect-Grows : (digest reason : String) → Grows (protect digest reason)
unfolding protect is_protected is_uncertain
protect-Grows digest reason = record {
  below = λ i. record {
    protected = λ sought h. ground (
      arith,
      h,
      eq_iff digest sought,
      get_list-put i.protected_by_digest digest sought
          (add_to (get_list i.protected_by_digest digest) reason),
      is_empty-add_to (get_list i.protected_by_digest digest) reason,
    );
    uncertain = λ h. h;
  };
}

pub belongs-Grows : (digest run_id : String) → Grows (belongs digest run_id)
unfolding belongs is_protected is_uncertain
belongs-Grows digest run_id = record {
  below = λ i. record { protected = λ sought h. h; uncertain = λ h. h };
}

touched-Below :
    (i : ReachabilityIndex) (times : Dict Datetime)
    → Below i (record i { digest_last_reference_at = times })
unfolding is_protected is_uncertain
touched-Below i times = record { protected = λ sought h. h; uncertain = λ h. h }

pub touch-Grows : (digest : String) (when : Datetime) → Grows (touch digest when)
unfolding touch
touch-Grows digest when = record {
  below = λ i. elim (Option-cases (get i.digest_last_reference_at digest)) [
    | inl e ↦ rw (e, touch) (touched-Below i _)
    | inr (previous, e) ↦ elim (Bool-cases (utc_before previous (coerce_utc when))) [
      | inl f ↦ rw (e, touch, f) (touched-Below i _)
      | inr f ↦ rw (e, touch, f) (Below-refl i)
    ]
  ];
}

pub unknown-Grows : (message : String) → Grows (unknown message)
unfolding unknown is_protected is_uncertain
unknown-Grows message = record {
  below = λ i. record {
    protected = λ sought h. h;
    uncertain = λ h. rw (is_empty-append i.unknown_messages message) refl;
  };
}

unknown_one-Grows :
    (digest : String) → Grows (λ i. record i { unknown_digests = add_to i.unknown_digests digest })
unfolding is_protected is_uncertain
unknown_one-Grows digest = record {
  below = λ i. record {
    protected = λ sought h. ground (arith, h, contains-add_to i.unknown_digests digest sought);
    uncertain = λ h. rw (is_empty-add_to i.unknown_digests digest) (ground arith);
  };
}

pub unknown_all-Grows : (digests : List String) → Grows (unknown_all digests)
unfolding unknown_all
unknown_all-Grows [] = id-Grows
unknown_all-Grows (d ∷ ds) =
    then-Grows _ (unknown_all ds) (unknown_one-Grows d) (unknown_all-Grows ds)

pub broker_output-Grows : (request_id digest : String) → Grows (broker_output request_id digest)
unfolding broker_output is_protected is_uncertain
broker_output-Grows request_id digest = record {
  below = λ i. record { protected = λ sought h. h; uncertain = λ h. h };
}

-- The digest that is protected is so afterwards.
pub protect-is_protected :
    (digest reason : String) (i : ReachabilityIndex)
    → is_protected (protect digest reason i) digest ≡ true
unfolding protect is_protected
protect-is_protected digest reason i = ground (
  arith,
  eq_iff digest digest,
  get_list-put i.protected_by_digest digest digest
      (add_to (get_list i.protected_by_digest digest) reason),
  is_empty-add_to (get_list i.protected_by_digest digest) reason,
)

pub unknown-is_uncertain :
    (message : String) (i : ReachabilityIndex) → is_uncertain (unknown message i) ≡ true
unfolding unknown is_uncertain
unknown-is_uncertain message i = rw (is_empty-append i.unknown_messages message) refl
