-- ===== src/Exercises/Calendar/Days.antt =====
-- 5-1-26/5-8.c: the two conversions are inverse to each other.
use intern_status_update.Base.{
  ℕ, zero, suc, ◌+◌, ◌-◌, ◌≤◌, ◌<◌, ◌≡◌, refl, sym, ap, subst, ◌∙◌, inl, inr, Bool, true, false,
  none, some, ◌↔◌, if◌then◌else◌, leb, get_or, arith, Bool-cases, lt→ltb, le→ltb, some-injective,
}
use intern_status_update.Exercises.Calendar.{
  daytab, leap, days_in, add_months, is_date, day_of_year, find_month, is_day, month_day,
}

module _ (l : Bool) where
  -- The loop adds the same to every start.
  add_months-shift : (k i d x : ℕ) → add_months l k i (d + x) ≡ add_months l k i d + x
  unfolding add_months
  add_months-shift zero i d x = refl
  add_months-shift (suc k) i d x =
      let e : d + x + days_in l i ≡ d + days_in l i + x = omega arith in
      rw e (add_months-shift k (i + 1) (d + days_in l i) x)

  add_months-suc : (k i d : ℕ) → add_months l (suc k) i d ≡ add_months l k (i + 1) d + days_in l i
  unfolding add_months
  add_months-suc k i d = add_months-shift k (i + 1) d (days_in l i)

  le-add_months : (k i d : ℕ) → d ≤ add_months l k i d
  unfolding add_months
  le-add_months zero i d = omega arith
  le-add_months (suc k) i d = omega (arith, le-add_months k (i + 1) (d + days_in l i))

  find_month-here : (r i n : ℕ) → n ≤ days_in l i → find_month l (suc r) i n ≡ (i, n)
  unfolding find_month
  find_month-here r i n h = rw (le→ltb (days_in l i) n h) refl

  find_month-next :
      (r i n q : ℕ)
      → n ≡ q + days_in l i
      → 1 ≤ q
      → find_month l (suc r) i n ≡ find_month l r (i + 1) q
  unfolding find_month
  find_month-next r i n q e h =
      let past : n - days_in l i ≡ q = omega arith in
      rw (lt→ltb (days_in l i) n (omega arith), past) refl

  -- The days before a month are taken off again.
  find_month-add_months :
      (k r i m d : ℕ)
      → k < r
      → i + k ≡ m
      → 1 ≤ d
      → d ≤ days_in l m
      → find_month l r i (add_months l k i d) ≡ (m, d)
  unfolding add_months
  find_month-add_months k zero i m d less at positive small = absurd (omega arith)
  find_month-add_months zero (suc r) i m d less at positive small =
      let here : i ≡ m = omega arith in
      find_month-here r i d (rw here small) ∙ ap (λ j. (j, d)) here
  find_month-add_months (suc k) (suc r) i m d less at positive small =
      find_month-next r i _ (add_months l k (i + 1) d) (add_months-suc k i d)
        (omega (arith, le-add_months k (i + 1) d))
      ∙ find_month-add_months k r (i + 1) m d (omega arith) (omega arith) positive small

  -- A date in the months from i on, before i + r, whose day is n.
  Found : ℕ → ℕ → ℕ → Type 0
  Found r i n =
      (k d : ℕ) × (find_month l r i n ≡ (i + k, d))
      × (k < r)
      × (1 ≤ d)
      × (d ≤ days_in l (i + k))
      × (add_months l k i d ≡ n)

  Found-next : (r i n q : ℕ) → n ≡ q + days_in l i → 1 ≤ q → Found r (i + 1) q → Found (suc r) i n
  unfolding Found
  Found-next r i n q e h (k, d, it, less, positive, small, sum) =
      let at : i + 1 + k ≡ i + suc k = omega arith in
      (
        suc k,
        d,
        find_month-next r i n q e h ∙ it ∙ ap (λ j. (j, d)) at,
        omega arith,
        positive,
        (rw at at small),
        add_months-suc k i d ∙ ap (λ x. x + days_in l i) sum ∙ sym e,
      )

  -- What the loop finds is a date, whose day is the one that was looked for.
  find_month-Found : (r i n : ℕ) → 1 ≤ n → n ≤ add_months l r i 0 → Found r i n
  unfolding Found add_months
  find_month-Found zero i n positive small = absurd (omega arith)
  find_month-Found (suc r) i n positive small = elim (Bool-cases (leb n (days_in l i))) [
    | inl e ↦
        let at : i ≡ i + 0 = omega arith in
        let fits : n ≤ days_in l i = ground arith in
        (
          0,
          n,
          find_month-here r i n fits ∙ ap (λ j. (j, n)) at,
          omega arith,
          positive,
          subst (λ j. n ≤ days_in l j) at fits,
          refl,
        )
    | inr e ↦
        let past : days_in l i < n = ground arith in
        let left : n - days_in l i ≤ add_months l r (i + 1) 0 =
          omega (arith, add_months-suc r i 0) in
        Found-next r i n (n - days_in l i) (omega arith) (omega arith)
          (find_month-Found r (i + 1) (n - days_in l i) (omega arith) left)
  ]

  add_months-le :
      (k r i d : ℕ) → k < r → d ≤ days_in l (i + k) → add_months l k i d ≤ add_months l r i 0
  unfolding add_months
  add_months-le k zero i d less small = absurd (omega arith)
  add_months-le zero (suc r) i d less small =
      let at : i + 0 ≡ i = omega arith in
      let fits : d ≤ days_in l i = subst (λ j. d ≤ days_in l j) at small in
      omega (arith, le-add_months r (i + 1) (0 + days_in l i))
  add_months-le (suc k) (suc r) i d less small =
      let at : i + suc k ≡ i + 1 + k = omega arith in
      let fits : d ≤ days_in l (i + 1 + k) = subst (λ j. d ≤ days_in l j) at small in
      let rest = add_months-le k r (i + 1) d (omega arith) fits in
      omega (arith, add_months-suc k i d, add_months-suc r i 0)

is_day_iff : (l : Bool) (n : ℕ) → (is_day l n ≡ true) ↔ ((1 ≤ n) × (n ≤ add_months l 12 1 0))
unfolding is_day add_months daytab get_or
is_day_iff true n = ground arith
is_day_iff false n = ground arith

is_date_iff :
    (l : Bool) (m d : ℕ)
    → (is_date l m d ≡ true) ↔ ((1 ≤ m) × (m ≤ 12) × (1 ≤ d) × (d ≤ days_in l m))
unfolding is_date
is_date_iff l m d = ground arith

if_some :
    {A : Type 0} (b : Bool) (x a : A) → (if b then some x else none) ≡ some a → (b ≡ true) × (x ≡ a)
if_some true x a h = (refl, some-injective h)
if_some false x a h = cc

day_of_date : (year m d n : ℕ) → day_of_year year m d ≡ some n → month_day year n ≡ some (m, d)
unfolding day_of_year month_day
day_of_date year m d n h =
    let l = leap year in
    let (valid, sum) = if_some (is_date l m d) (add_months l (m - 1) 1 d) n h in
    let (first, last, positive, small) = (is_date_iff l m d).0 valid in
    let at : 1 + (m - 1) ≡ m = omega arith in
    let found = find_month-add_months l (m - 1) 12 1 m d (omega arith) at positive small in
    let fits : d ≤ days_in l (1 + (m - 1)) = subst (λ j. d ≤ days_in l j) (sym at) small in
    let low = le-add_months l (m - 1) 1 d in
    let high = add_months-le l (m - 1) 12 1 d (omega arith) fits in
    subst (λ x. (if is_day l x then some (find_month l 12 1 x) else none) ≡ some (m, d)) sum
      (rw ((is_day_iff l _).1 (omega arith, high), found) refl)

date_of_day : (year m d n : ℕ) → month_day year n ≡ some (m, d) → day_of_year year m d ≡ some n
unfolding day_of_year month_day Found
date_of_day year m d n h =
    let l = leap year in
    let (valid, it) = if_some (is_day l n) (find_month l 12 1 n) (m, d) h in
    let (positive, high) = (is_day_iff l n).0 valid in
    let (k, date, found, less, early, small, sum) = find_month-Found l 12 1 n positive high in
    let same = sym found ∙ it in
    let month : 1 + k ≡ m = ap (λ t. t.0) same in
    let dates : date ≡ d = ap (λ t. t.1) same in
    let before : k ≡ m - 1 = omega arith in
    let fits : d ≤ days_in l m = rw (month, dates) at small in
    let is : is_date l m d ≡ true =
      (is_date_iff l m d).1 (omega arith, omega arith, omega arith, fits) in
    let total : add_months l (m - 1) 1 d ≡ n = rw (before, dates) at sum in rw (is, total) refl

-- day_of_year gives the day n for a month and a date exactly when month_day gives this month and
-- this date for the day n, in every year and whatever the numbers are.
pub day_of_year-month_day :
    (year m d n : ℕ) → (day_of_year year m d ≡ some n) ↔ (month_day year n ≡ some (m, d))
day_of_year-month_day year m d n = (day_of_date year m d n, date_of_day year m d n)
