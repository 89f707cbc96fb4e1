-- ===== src/Exercises/Calendar/Tests.antt =====
-- Dates and their days.
use intern_status_update.Base.{◌≡◌, refl, none, some, ◌↔◌, get_or}
use intern_status_update.Exercises.Calendar.{
  daytab, leap, is_date, day_of_year, find_month, is_day, month_day,
}
use intern_status_update.Exercises.Calendar.Days.{day_of_year-month_day}

-- The 13th of November 2004, from `main`.
day_318 : month_day 2004 318 ≡ some (11, 13)
unfolding month_day leap is_day find_month daytab get_or
day_318 = refl

no_leap_day : day_of_year 1900 2 29 ≡ none
unfolding day_of_year leap is_date daytab get_or
no_leap_day = refl

day_of_year-month_day_example :
    (day_of_year 2004 11 13 ≡ some 318) ↔ (month_day 2004 318 ≡ some (11, 13))
day_of_year-month_day_example = day_of_year-month_day 2004 11 13 318
