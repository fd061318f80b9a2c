-- ===== src/Contracts/Datetime.antt =====
-- Python's `datetime` and `timedelta`, as far as the contracts and the kernel use them.
use Prim.Native.String.{slice, ◌++◌}
use portable_batch_execution.Base.{
  ℕ, ◌+◌, ◌-◌, ◌*◌, ◌/◌, ◌%◌, String, Bool, true, false, Option, none, some, ltb, leb, eqb,
  if◌then◌else◌, Outcome, ok, raise, ◌≡◌, refl, type_error, overflow_error,
}
use portable_batch_execution.Base.Int.{ℤ, pos, negsuc, pos_part, neg_part}

-- Microseconds from 0001-01-01T00:00 on the value's own clock, and the offset of that clock east
-- of UTC in microseconds (`tzinfo`), which a naive value lacks.
pub record Datetime : Type 0 where
  pub micros : ℕ
  pub offset : Option ℤ

abbrev pub second : ℕ
second = 1000000

abbrev pub day : ℕ
day = 86400 * second

-- The first microsecond after 9999-12-31.
abbrev pub end_of_time : ℕ
end_of_time = 3652059 * day

abbrev pub is_naive : Datetime → Bool
is_naive d = elim d.offset [ none ↦ true | some _ ↦ false ]

-- The moment of an aware value, kept off zero by the other value's offset: `a < b` for two aware
-- values is `moment a b < moment b a`.
abbrev pub moment : ℕ → ℤ → ℤ → ℕ
moment micros own other = micros + neg_part own + pos_part other

-- `a < b`; a naive value is not comparable with an aware one.
unfoldable pub datetime_lt : Datetime → Datetime → Outcome Bool
datetime_lt a b = elim a.offset [
  | none ↦ elim b.offset [ none ↦ ok (ltb a.micros b.micros) | some _ ↦ raise type_error ]
  | some oa ↦ elim b.offset [
    | none ↦ raise type_error
    | some ob ↦ ok (ltb (moment a.micros oa ob) (moment b.micros ob oa))
  ]
]

-- `d + timedelta(microseconds=n)`
unfoldable pub add_micros : Datetime → ℕ → Outcome Datetime
add_micros d n =
    if ltb (d.micros + n) end_of_time
    then ok (record d { micros = d.micros + n })
    else raise overflow_error

-- `d - timedelta(microseconds=n)`
unfoldable pub sub_micros : Datetime → ℕ → Outcome Datetime
sub_micros d n =
    if leb n d.micros then ok (record d { micros = d.micros - n }) else raise overflow_error

digit : ℕ → String
digit n = slice "0123456789" (n % 10) (n % 10 + 1)

pad2 : ℕ → String
unfolding digit
pad2 n = digit (n / 10) ++ digit n

pad4 : ℕ → String
unfolding pad2
pad4 n = pad2 (n / 100) ++ pad2 (n % 100)

pad6 : ℕ → String
unfolding pad2 pad4
pad6 n = pad2 (n / 10000) ++ pad4 (n % 10000)

-- `YYYY-MM-DD` of a number of days from 0001-01-01, counted in years that begin in March.
iso_date : ℕ → String
unfolding pad4
iso_date days =
    let z = days + 306 in
    let era = z / 146097 in
    let doe = z % 146097 in
    let yoe = (doe + doe / 36524 - doe / 1460 - doe / 146096) / 365 in
    let doy = doe + yoe / 100 - (365 * yoe + yoe / 4) in
    let mp = (5 * doy + 2) / 153 in
    let month = if ltb mp 10 then mp + 3 else mp - 9 in
    let year = yoe + era * 400 + (if leb month 2 then 1 else 0) in
    pad4 year ++ "-" ++ pad2 month ++ "-" ++ pad2 (doy - (153 * mp + 2) / 5 + 1)

-- `HH:MM:SS`, with microseconds only if there are any
iso_time : ℕ → String
unfolding pad2 pad6
iso_time micros =
    let s = micros / second in
    pad2 (s / 3600)
    ++ ":"
    ++ pad2 (s / 60 % 60)
    ++ ":"
    ++ pad2 (s % 60)
    ++ (if eqb (micros % second) 0 then "" else "." ++ pad6 (micros % second))

-- `+HH:MM`, with seconds and microseconds only if there are any
iso_offset : ℤ → String
unfolding pad2 iso_time
iso_offset o =
    let m = pos_part o + neg_part o in
    (elim o [ pos _ ↦ "+" | negsuc _ ↦ "-" ])
    ++ (if eqb (m % (60 * second)) 0
        then pad2 (m / (3600 * second)) ++ ":" ++ pad2 (m / (60 * second) % 60)
        else iso_time m)

-- `d.isoformat()`
unfoldable pub isoformat : Datetime → String
unfolding iso_date iso_time iso_offset
isoformat d =
    iso_date (d.micros / day)
    ++ "T"
    ++ iso_time (d.micros % day)
    ++ elim d.offset [ none ↦ "" | some o ↦ iso_offset o ]

-- A text, with what `datetime.fromisoformat` reads from it (`none`: it raises ValueError).
pub record Text : Type 0 where
  pub spelling : String
  pub reading : Option Datetime

abbrev pub iso_text : Datetime → Text
iso_text d = record { spelling = isoformat d; reading = some d }

isoformat_epoch :
    isoformat (record { micros = 719162 * day + 5 * second; offset = some (pos 0) })
    ≡ "1970-01-01T00:00:05+00:00"
unfolding isoformat
isoformat_epoch = refl

isoformat_leap :
    isoformat (record { micros = 738579 * day - 1; offset = some (negsuc 19799999999) })
    ≡ "2023-02-28T23:59:59.999999-05:30"
unfolding isoformat
isoformat_leap = refl
