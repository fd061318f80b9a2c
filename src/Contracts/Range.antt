-- ===== src/Contracts/Range.antt =====
-- `RangeSpec` of contracts/models.py.
use portable_batch_execution.Base.{
  ℕ, ◌*◌, ◌+◌, ◌^◌, Bool, true, false, not, ◌||◌, Option, none, some, ltb, if◌then◌else◌, Outcome,
  ok, raise, value_error, type_error, raise_if, ◌>>=◌, ◌>>◌,
}
use portable_batch_execution.Base.Int.{ℤ, pos, pos_part, neg_part}
use portable_batch_execution.Base.Order.{text_le}
use portable_batch_execution.Contracts.Datetime.{Datetime, Text, is_naive, datetime_lt}

pub data RangeKind : Type 0 where
  index time key : RangeKind

-- A finite float is exactly `m / 2 ^ k`.
pub data Float : Type 0 where
  finite : ℤ → ℕ → Float
  infinite nan : Float

pub data Scalar : Type 0 where
  text : Text → Scalar
  int : ℤ → Scalar
  float : Float → Scalar
  bool : Bool → Scalar

pub record RangeSpec : Type 0 where
  pub kind : RangeKind
  pub start : Option Scalar
  pub «end» : Option Scalar

-- `isinstance(value, bool) or isinstance(value, float) and not isfinite(value)`
pub is_unsafe : Option Scalar → Bool
is_unsafe none = false
is_unsafe (some (text t)) = false
is_unsafe (some (int n)) = false
is_unsafe (some (float (finite m k))) = false
is_unsafe (some (float infinite)) = true
is_unsafe (some (float nan)) = true
is_unsafe (some (bool b)) = true

pub safe_scalar : Option Scalar → Outcome (Unit {0})
unfolding is_unsafe
safe_scalar v = raise_if (is_unsafe v) (value_error "safe scalar required")

-- Not a non-negative integer, where it is there at all.
pub is_bad_index : Option Scalar → Bool
is_bad_index none = false
is_bad_index (some (int (pos n))) = false
is_bad_index (some s) = true

pub is_not_text : Option Scalar → Bool
is_not_text none = false
is_not_text (some (text t)) = false
is_not_text (some s) = true

-- `datetime.fromisoformat(value)`
pub fromisoformat : Scalar → Outcome Datetime
fromisoformat (text t) = elim t.reading [
  | none ↦ raise (value_error "time boundaries must be ISO 8601")
  | some d ↦ ok d
]
fromisoformat s = raise type_error

pub aware_boundary : Option Scalar → Outcome (Unit {0})
unfolding fromisoformat
aware_boundary none = ok tt
aware_boundary (some s) = do
  d ← fromisoformat s
  raise_if (is_naive d) (value_error "time boundaries must be timezone-aware")

-- `start.tzinfo is None or end.tzinfo is None or end < start`
pub bad_order : Datetime → Datetime → Outcome Bool
bad_order start end = if is_naive start || is_naive end then ok true else datetime_lt end start

unfoldable pub as_datetime_bounds : RangeSpec → Outcome (Datetime × Datetime)
unfolding fromisoformat bad_order datetime_lt
as_datetime_bounds r = elim r.kind [
  | time ↦ elim r.start [
    | none ↦ raise (value_error "time range requires start and end")
    | some s ↦ elim r.end [
      | none ↦ raise (value_error "time range requires start and end")
      | some e ↦ do
        start ← fromisoformat s
        end ← fromisoformat e
        bad ← bad_order start end
        raise_if bad (value_error "time boundaries must be ordered and timezone-aware")
        ok (start, end)
    ]
  ]
  | _ ↦ raise (value_error "time range requires start and end")
]

-- `a / 2 ^ k > b / 2 ^ l`
abbrev number_gt : ℤ → ℕ → ℤ → ℕ → Bool
number_gt a k b l =
    ltb (pos_part b * 2 ^ k + neg_part a * 2 ^ l) (pos_part a * 2 ^ l + neg_part b * 2 ^ k)

-- `a > b`, with TypeError for a text and a number. A bool and a float that is not finite do not get
-- here: `safe_scalar` refuses them first.
unfoldable pub scalar_gt : Scalar → Scalar → Outcome Bool
scalar_gt (text s) (text t) = ok (not (text_le s.spelling t.spelling))
scalar_gt (int a) (int b) = ok (number_gt a 0 b 0)
scalar_gt (int a) (float (finite b l)) = ok (number_gt a 0 b l)
scalar_gt (float (finite a k)) (int b) = ok (number_gt a k b 0)
scalar_gt (float (finite a k)) (float (finite b l)) = ok (number_gt a k b l)
scalar_gt a b = raise type_error

-- `except TypeError as exc: raise ValueError(...)`
unfoldable pub ordered_scalars : Scalar → Scalar → Outcome (Unit {0})
unfolding scalar_gt
ordered_scalars a b = elim (scalar_gt a b) [
  | ok gt ↦ raise_if gt (value_error "range end precedes start")
  | raise e ↦ raise (value_error "range boundaries must have matching types")
]

pub both_ordered : Option Scalar → Option Scalar → Outcome (Unit {0})
unfolding ordered_scalars
both_ordered (some a) (some b) = ordered_scalars a b
both_ordered a b = ok tt

unfoldable pub both_given : RangeSpec → Bool
both_given r = elim r.start [ none ↦ false | some _ ↦ elim r.end [ none ↦ false | some _ ↦ true ] ]

pub ordered_and_typed : RangeSpec → Outcome (Unit {0})
unfolding is_bad_index is_not_text aware_boundary as_datetime_bounds both_ordered both_given
ordered_and_typed r = elim r.kind [
  | index ↦ do
    raise_if (is_bad_index r.start || is_bad_index r.end)
        (value_error "index boundaries must be non-negative integers")
    both_ordered r.start r.end
  | time ↦ do
    raise_if (is_not_text r.start || is_not_text r.end)
        (value_error "time boundaries must be ISO strings")
    aware_boundary r.start
    aware_boundary r.end
    if both_given r then (do _ ← as_datetime_bounds r; ok tt) else ok tt
  | key ↦ both_ordered r.start r.end
]

-- The validators of `RangeSpec(kind=..., start=..., end=...)`
unfoldable pub validate_range : RangeSpec → Outcome RangeSpec
unfolding safe_scalar ordered_and_typed
validate_range r = do safe_scalar r.start; safe_scalar r.end; ordered_and_typed r; ok r
