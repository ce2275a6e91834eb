-- ===== src/Calendar.antt =====
-- Calendar dates (`datetime.date`) and the two clock readings of an operation (clock.py).
pub mod Wall
use leetcode_coach_service.Base.{
  ℕ, ◌-◌, ◌*◌, ◌%◌, ◌≡◌, ◌↔◌, Bool, ◌&&◌, ◌||◌, not, true, ◌++◌, nat_beq, ltb, Eq, if◌then◌else◌,
  arith,
}
use leetcode_coach_service.Text.{Text, codes, pad}

pub record Date : Type 0 where
  pub year : ℕ
  pub month : ℕ
  pub day : ℕ

-- Dates are ordered by year, month and day.
abbrev pub date_ltb : Date → Date → Bool
date_ltb a b =
    ltb a.year b.year
    || (nat_beq a.year b.year
        && (ltb a.month b.month || (nat_beq a.month b.month && ltb a.day b.day)))

abbrev pub date_beq : Date → Date → Bool
date_beq a b = nat_beq a.year b.year && (nat_beq a.month b.month && nat_beq a.day b.day)

pub date_beq_iff : (a b : Date) → (date_beq a b ≡ true) ↔ (a ≡ b)
date_beq_iff a b = ground arith

instance abbrev pub date_eq : Eq Date
date_eq = record { beq = date_beq; beq_iff = date_beq_iff }

-- `max(a, b)`: the first of two equal dates.
unfoldable pub later : Date → Date → Date
later a b = if date_ltb a b then b else a

unfoldable pub is_leap : ℕ → Bool
is_leap y = nat_beq (y % 4) 0 && (not (nat_beq (y % 100) 0) || nat_beq (y % 400) 0)

unfoldable pub days_in : ℕ → ℕ → ℕ
unfolding is_leap
days_in y m =
    if nat_beq m 2
    then (if is_leap y then 29 else 28)
    else if nat_beq m 4 || (nat_beq m 6 || (nat_beq m 9 || nat_beq m 11))
    then 30
    else 31

-- `d - timedelta(days=1)`
unfoldable pub day_before : Date → Date
unfolding days_in
day_before d =
    if ltb 1 d.day
    then record d { day = d.day - 1 }
    else if ltb 1 d.month
    then record { year = d.year; month = d.month - 1; day = days_in d.year (d.month - 1) }
    else record { year = d.year - 1; month = 12; day = 31 }

-- `d.isoformat()`
unfoldable pub isoformat : Date → Text
unfolding pad
isoformat d = pad 4 d.year ++ codes "-" ++ pad 2 d.month ++ codes "-" ++ pad 2 d.day

-- What an operation reads from the clock: `utcnow()`, in microseconds, and `local_today()`.
pub record Clock : Type 0 where
  pub now : ℕ
  pub today : Date

abbrev pub hours : ℕ → ℕ
hours n = n * 3600000000

abbrev pub minutes : ℕ → ℕ
minutes n = n * 60000000
