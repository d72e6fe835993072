-- ===== src/Petstore/Calendar.antt =====
-- BirthdayToTime of petstore/server/storage/storage.go, with what it uses of Go's `time`.
use gofordevopsclass.Prelude.{
  ℕ, ◌+◌, ◌-◌, ◌%◌, ◌≤◌, Bool, true, ◌&&◌, ◌||◌, not, if◌then◌else◌, ltb, leb, nat_beq, Eq, ◌≡◌,
  ◌↔◌, arith,
}
use gofordevopsclass.Prelude.Int.{ℤ, pos, pos_part, abs, ltb_ℤ, beq_ℤ}

-- google.type.Date: three int32 fields.
pub record Date : Type 0 where
  pub year : ℤ
  pub month : ℤ
  pub day : ℤ

-- time.Time at midnight UTC: all that BirthdayToTime makes.
pub record Time : Type 0 where
  pub year : ℤ
  pub month : ℕ
  pub day : ℕ

-- What BirthdayToTime refuses.
pub data DateError : Type 0 where
  bad_month bad_day no_such_day : DateError

pub data DateResult : Type 0 where
  time_of : Time → DateResult
  date_error : DateError → DateResult

unfoldable pub is_leap : ℤ → Bool
is_leap y = nat_beq (abs y % 4) 0 && (not (nat_beq (abs y % 100) 0) || nat_beq (abs y % 400) 0)

unfoldable pub days_in : ℕ → ℤ → ℕ
unfolding is_leap
days_in m y =
    if nat_beq m 2
    then (if is_leap y then 29 else 28)
    else if nat_beq m 4 || nat_beq m 6 || nat_beq m 9 || nat_beq m 11
    then 30
    else 31

-- time.Date(y, m, d, 0, 0, 0, 0, UTC) for 1 ≤ m ≤ 12 and 1 ≤ d ≤ 31: a day past the end of its
-- month is a day of the next one (never of the next year: December has 31 days).
unfoldable pub go_date : ℤ → ℕ → ℕ → Time
go_date y m d =
    if leb d (days_in m y)
    then record { year = y; month = m; day = d }
    else record { year = y; month = m + 1; day = d - days_in m y }

unfoldable pub birthday_to_time : Date → DateResult
birthday_to_time d =
    if ltb_ℤ d.month (pos 1) || ltb_ℤ (pos 12) d.month
    then date_error bad_month
    else if ltb_ℤ d.day (pos 1) || ltb_ℤ (pos 31) d.day
    then date_error bad_day
    else (let t = go_date d.year (pos_part d.month) (pos_part d.day) in
        if nat_beq t.month (pos_part d.month) then time_of t else date_error no_such_day)

-- time.Time{}, which BirthdayToTime returns beside an error.
abbrev pub zero_time : Time
zero_time = record { year = pos 1; month = 1; day = 1 }

-- t, _ := BirthdayToTime(nil, d)
unfoldable pub time_or_zero : Date → Time
time_or_zero d = elim (birthday_to_time d) [ time_of t ↦ t | date_error e ↦ zero_time ]

-- Time.Before and Time.Equal.
unfoldable pub before : Time → Time → Bool
before a b =
    if beq_ℤ a.year b.year
    then (if nat_beq a.month b.month then ltb a.day b.day else ltb a.month b.month)
    else ltb_ℤ a.year b.year

unfoldable pub equal : Time → Time → Bool
equal a b = beq_ℤ a.year b.year && nat_beq a.month b.month && nat_beq a.day b.day

pub equal_iff : (a b : Time) → (equal a b ≡ true) ↔ (a ≡ b)
unfolding equal
equal_iff a b = ground arith

instance abbrev pub time_eq : Eq Time
time_eq = record { beq = equal; beq_iff = equal_iff }

-- The calendar's own description of a date: its month and day exist.
pub record IsDate (d : Date) : Type 0 where
  pub month_range : (1 ≤ pos_part d.month) × (pos_part d.month ≤ 12)
  pub day_range : (1 ≤ pos_part d.day) × (pos_part d.day ≤ days_in (pos_part d.month) d.year)

-- A month has 28 to 31 days.
days_in_bounds : (m : ℕ) (y : ℤ) → (28 ≤ days_in m y) × (days_in m y ≤ 31)
unfolding days_in
days_in_bounds m y = ground arith

-- Midnight of a date, field by field.
abbrev pub midnight : Date → Time
midnight d = record { year = d.year; month = pos_part d.month; day = pos_part d.day }

-- BirthdayToTime succeeds exactly on the dates of the calendar, and then keeps the three fields.
pub birthday_to_time-IsDate :
    (d : Date) (t : Time) → (birthday_to_time d ≡ time_of t) ↔ (IsDate d × (t ≡ midnight d))
unfolding birthday_to_time go_date
birthday_to_time-IsDate d t = ground (arith, days_in_bounds (pos_part d.month) d.year)
