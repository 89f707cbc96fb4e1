-- ===== src/Exercises/Calendar.antt =====
-- 5-1-26/5-8.c: the day of the year of a date, and back. The arguments are numbers from 0 on, since the
-- tests refuse a negative month, date or day; a negative year is left out.
pub mod Days
mod Tests
use intern_status_update.Base.{
  ℕ, zero, suc, ◌+◌, ◌-◌, ◌%◌, [], ◌∷◌, List, Bool, true, false, not, ◌&&◌, ◌||◌, Option, none,
  some, if◌then◌else◌, ltb, leb, ◌==◌, get_or,
}

unfoldable pub daytab : Bool → List ℕ
daytab false = 0 ∷ 31 ∷ 28 ∷ 31 ∷ 30 ∷ 31 ∷ 30 ∷ 31 ∷ 31 ∷ 30 ∷ 31 ∷ 30 ∷ 31 ∷ []
daytab true = 0 ∷ 31 ∷ 29 ∷ 31 ∷ 30 ∷ 31 ∷ 30 ∷ 31 ∷ 31 ∷ 30 ∷ 31 ∷ 30 ∷ 31 ∷ []

unfoldable pub leap : ℕ → Bool
leap year = (year % 4 == 0 && not (year % 100 == 0)) || year % 400 == 0

-- `daytab[leap][i]`
abbrev pub days_in : Bool → ℕ → ℕ
days_in l i = get_or (daytab l) i 0

-- The loop from i on, with so many rounds left.
unfoldable pub add_months : Bool → ℕ → ℕ → ℕ → ℕ
add_months l zero i day = day
add_months l (suc rounds) i day = add_months l rounds (i + 1) (day + days_in l i)

unfoldable pub is_date : Bool → ℕ → ℕ → Bool
is_date l month date = (leb 1 month && leb month 12) && (leb 1 date && leb date (days_in l month))

-- none is -1.
unfoldable pub day_of_year : ℕ → ℕ → ℕ → Option ℕ
day_of_year year month date =
    if is_date (leap year) month date
    then some (add_months (leap year) (month - 1) 1 date)
    else none

-- The loop of `month_day`: `i` and the days left. The rounds left are those with `i <= 12`.
unfoldable pub find_month : Bool → ℕ → ℕ → ℕ → ℕ × ℕ
find_month l zero i day = (i, day)
find_month l (suc rounds) i day =
    let next = find_month l rounds (i + 1) (day - days_in l i) in
    if ltb (days_in l i) day then next else (i, day)

unfoldable pub is_day : Bool → ℕ → Bool
is_day l day = (l && (leb 1 day && leb day 366)) || (not l && (leb 1 day && leb day 365))

-- The month and the date; none where they are not written.
unfoldable pub month_day : ℕ → ℕ → Option (ℕ × ℕ)
month_day year day = if is_day (leap year) day then some (find_month (leap year) 12 1 day) else none
