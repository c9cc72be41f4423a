-- ===== src/Koth/Clock.antt =====
-- UTC times as services/koth reads them (time.Time in UTC): a calendar date and the nanoseconds
-- since midnight; and domain/reset.go's PeriodStart.
use full.Base.{ℕ, ◌≤◌, ◌≡◌, Bool, false, not, arith, String, ltb, ◌==◌, nat_eq, if◌then◌else◌}
use full.Base.Text.{◌+++◌, format_int}

pub data HillType : Type 0 where
  daily monthly : HillType

pub record Time : Type 0 where
  pub year : ℕ
  pub month : ℕ
  pub day : ℕ
  pub nanos : ℕ

-- t.Before(u): the order of times is that of their fields.
unfoldable pub before : Time → Time → Bool
before t u =
    if not (t.year == u.year)
    then ltb t.year u.year
    else if not (t.month == u.month)
    then ltb t.month u.month
    else if not (t.day == u.day)
    then ltb t.day u.day
    else ltb t.nanos u.nanos

-- time.Date(u.Year(), u.Month(), 1 or u.Day(), 0, 0, 0, 0, time.UTC)
unfoldable pub period_start : HillType → Time → Time
period_start monthly u = record { year = u.year; month = u.month; day = 1; nanos = 0 }
period_start daily u = record { year = u.year; month = u.month; day = u.day; nanos = 0 }

-- A decimal of at least two digits.
abbrev pub pad2 : ℕ → String
pad2 n = if ltb n 10 then "0" +++ format_int n else format_int n

abbrev pub pad4 : ℕ → String
pad4 n =
    if ltb n 10
    then "000" +++ format_int n
    else if ltb n 100
    then "00" +++ format_int n
    else if ltb n 1000
    then "0" +++ format_int n
    else format_int n

-- t.Format("2006-01-02")
unfoldable pub format_day : Time → String
format_day t = pad4 t.year +++ "-" +++ pad2 t.month +++ "-" +++ pad2 t.day

-- Days of a month count from 1.
abbrev pub IsDate : Time → Type 0
IsDate t = 1 ≤ t.day

-- Where days count from 1, a period starts at or before the time it belongs to; a second call
-- changes nothing; and the month never starts after the day.
pub period_start_lem :
    (h : HillType) (t : Time)
    → IsDate t
    → (before t (period_start h t) ≡ false)
      × (period_start h (period_start h t) ≡ period_start h t)
      × (before (period_start daily t) (period_start monthly t) ≡ false)
unfolding before period_start
period_start_lem daily t d = ground arith
period_start_lem monthly t d = ground arith

-- Periods do not go back: a later time has no earlier period start.
pub period_start_mono :
    (h : HillType) (t u : Time)
    → before u t ≡ false
    → before (period_start h u) (period_start h t) ≡ false
unfolding before period_start
period_start_mono daily t u h = ground arith
period_start_mono monthly t u h = ground arith
