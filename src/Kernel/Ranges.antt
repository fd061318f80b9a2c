-- ===== src/Kernel/Ranges.antt =====
-- `expanded_range` of kernel/core.py.
use portable_batch_execution.Base.{
  ℕ, ◌+◌, ◌-◌, ◌*◌, Option, none, some, ltb, if◌then◌else◌, Outcome, ok, raise, type_error,
  overflow_error, ◌>>=◌,
}
use portable_batch_execution.Base.Int.{pos}
use portable_batch_execution.Contracts.Datetime.{
  Datetime, second, day, add_micros, sub_micros, iso_text,
}
use portable_batch_execution.Contracts.Range.{
  index, time, key, RangeSpec, Scalar, int, text, as_datetime_bounds, validate_range,
}
use portable_batch_execution.Contracts.Shard.{
  Extent, records, seconds, minutes, hours, days, ShardSpec,
}

-- `int(primary.start)` of an index range: its validator leaves non-negative integers only.
unfoldable pub index_of : Option Scalar → Outcome ℕ
index_of (some (int (pos n))) = ok n
index_of b = raise type_error

-- `extent.value`, where there is an extent
abbrev pub extent_value : Option Extent → ℕ
extent_value none = 0
extent_value (some e) = e.value

-- A `timedelta` is at most 999999999 days and 23:59:59.999999.
abbrev pub timedelta_bound : ℕ
timedelta_bound = 1000000000 * day

abbrev pub timedelta : ℕ → Outcome ℕ
timedelta n = if ltb n timedelta_bound then ok n else raise overflow_error

-- `duration(extent)`, in microseconds; `timedelta` takes no `records`.
pub duration : Option Extent → Outcome ℕ
duration none = ok 0
duration (some e) = elim e.unit [
  | records ↦ raise type_error
  | seconds ↦ timedelta (e.value * second)
  | minutes ↦ timedelta (e.value * (60 * second))
  | hours ↦ timedelta (e.value * (3600 * second))
  | days ↦ timedelta (e.value * day)
]

abbrev pub index_range : ℕ → ℕ → RangeSpec
index_range a b = record { kind = index; start = some (int (pos a)); «end» = some (int (pos b)) }

abbrev pub time_range : Datetime → Datetime → RangeSpec
time_range a b = record {
  kind = time;
  start = some (text (iso_text a));
  «end» = some (text (iso_text b));
}

unfoldable pub expanded_range : ShardSpec → Outcome (Option RangeSpec)
unfolding index_of duration as_datetime_bounds validate_range sub_micros add_micros
expanded_range shard = elim shard.primary_range [
  | none ↦ ok none
  | some primary ↦
      let c = shard.correctness in
      let before = extent_value c.lookback + extent_value c.halo_before in
      let later = extent_value c.lookforward + extent_value c.halo_after in
      elim primary.kind [
        | index ↦ do
          start ← index_of primary.start
          end ← index_of primary.end
          r ← validate_range (index_range (start - before) (end + later))
          ok (some r)
        | time ↦ do
          (start, end) ← as_datetime_bounds primary
          lookback ← duration c.lookback
          s1 ← sub_micros start lookback
          halo_before ← duration c.halo_before
          s2 ← sub_micros s1 halo_before
          lookforward ← duration c.lookforward
          e1 ← add_micros end lookforward
          halo_after ← duration c.halo_after
          e2 ← add_micros e1 halo_after
          r ← validate_range (time_range s2 e2)
          ok (some r)
        | key ↦ ok (some primary)
      ]
]
