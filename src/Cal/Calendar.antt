-- ===== src/Cal/Calendar.antt =====
-- src/tc_cal.c: utc_epoch counts the days of the Gregorian calendar, and tc_cal_is_expired compares by
-- them.
use test_controller.Base.{
  ℕ, zero, suc, ◌+◌, ◌*◌, ◌/◌, ◌%◌, ◌≤◌, ◌<◌, ◌≡◌, ◌≢◌, refl, ap, ◌∙◌, Bool, true, not, ◌&&◌, ◌||◌,
  some, [], ◌∷◌, CString, get_elem?, get_or, ◌==◌, ltb, if◌then◌else◌, arith,
}
use test_controller.Base.Int.{pos, ◌+ℤ◌, ◌-ℤ◌, ◌*ℤ◌, tdiv, ltb_ℤ}
use test_controller.Cal.Clock.{
  Stamp, Clock, synchronised, mdays, is_leap, add_months, year_days, rounds, utc_epoch, is_older,
  is_expired, in_long, epoch_of,
}

-- The calendar: a year that 4 divides is leap, unless 100 does and 400 does not.
unfoldable pub leap : ℕ → Bool
leap y = (y % 4 == 0) && (not (y % 100 == 0) || (y % 400 == 0))

unfoldable pub year_length : ℕ → ℕ
unfolding leap
year_length y = if leap y then 366 else 365

unfoldable pub month_length : ℕ → ℕ → ℕ
unfolding leap
month_length y m = if (m == 1) && leap y then 29 else get_or mdays m 0

-- The days from 1970 to the year 1970 + n, and from the start of a year to a month counted from 0.
unfoldable pub days_to_year : ℕ → ℕ
unfolding year_length
days_to_year zero = 0
days_to_year (suc n) = days_to_year n + year_length (1970 + n)

unfoldable pub days_to_month : ℕ → ℕ → ℕ
unfolding month_length
days_to_month y zero = 0
days_to_month y (suc m) = days_to_month y m + month_length y m

days_to_year-closed :
    (n : ℕ)
    → days_to_year n + (1969 + n) / 100 + 496 ≡ n * 365 + (1969 + n) / 4 + (1969 + n) / 400 + 19
unfolding days_to_year
days_to_year-closed zero = omega arith
days_to_year-closed (suc n) = ground (arith, days_to_year-closed n)

year_days-days_to_year : (n : ℕ) → year_days (pos (1970 + n)) ≡ pos (days_to_year n)
unfolding year_days ◌+ℤ◌ ◌-ℤ◌ ◌*ℤ◌ tdiv
year_days-days_to_year n = ground (arith, days_to_year-closed n)

is_leap-leap : (y : ℕ) → is_leap (pos y) ≡ leap y
unfolding leap ◌-ℤ◌ ◌*ℤ◌ tdiv
is_leap-leap y = ground arith

month_in_table : (m : ℕ) → m < 12 → get_elem? mdays m ≡ some (get_or mdays m 0)
month_in_table m h = ground arith

one_month :
    (y m d : ℕ)
    → pos d +ℤ pos (get_or mdays m 0) +ℤ (if (m == 1) && is_leap (pos y) then pos 1 else pos 0)
      ≡ pos (d + month_length y m)
unfolding month_length ◌+ℤ◌
one_month y m d = rw (is_leap-leap y) (ground arith)

next_month : (y m b : ℕ) → b + days_to_month y m + month_length y m ≡ b + days_to_month y (suc m)
unfolding days_to_month
next_month y m b = omega arith

first_month : (y b : ℕ) → b ≡ b + days_to_month y 0
unfolding days_to_month
first_month y b = omega arith

add_months-days_to_month :
    (y n m b : ℕ)
    → m + n ≤ 12
    → add_months (pos y) n m (pos (b + days_to_month y m))
      ≡ some (pos (b + days_to_month y (m + n)))
unfolding add_months
add_months-days_to_month y zero m b h =
    ap (λ (k : ℕ). some (pos (b + days_to_month y k))) (omega arith)
add_months-days_to_month y (suc n) m b h =
    rw (month_in_table m (omega arith), add_months)
      (ap (add_months (pos y) n (suc m))
          (one_month y m (b + days_to_month y m) ∙ ap pos (next_month y m b))
        ∙ add_months-days_to_month y n (suc m) b (omega arith)
        ∙ ap (λ (k : ℕ). some (pos (b + days_to_month y k))) (omega arith))

-- The seconds from 1970 to a time of day, `d` days into the month `m` of the year 1970 + n.
unfoldable pub seconds_to : ℕ → ℕ → ℕ → ℕ → ℕ → ℕ → ℕ
unfolding days_to_year days_to_month
seconds_to n m d h mi s =
    (days_to_year n + days_to_month (1970 + n) m + d) * 86400 + h * 3600 + mi * 60 + s

abbrev pub stamp_at : ℕ → ℕ → ℕ → ℕ → ℕ → ℕ → Stamp
stamp_at n m d h mi s = record {
  year = pos (1970 + n);
  month = pos (m + 1);
  day = pos (d + 1);
  hour = pos h;
  minute = pos mi;
  second = pos s;
}

rounds_lem : (m : ℕ) → rounds (pos (m + 1) -ℤ pos 1) ≡ m
unfolding ◌-ℤ◌
rounds_lem m = ground arith

total_seconds :
    (a d h mi s : ℕ)
    → (pos a +ℤ (pos (d + 1) -ℤ pos 1)) *ℤ pos 86400
        +ℤ pos h *ℤ pos 3600
        +ℤ pos mi *ℤ pos 60
        +ℤ pos s
      ≡ pos ((a + d) * 86400 + h * 3600 + mi * 60 + s)
unfolding ◌+ℤ◌ ◌-ℤ◌ ◌*ℤ◌
total_seconds a d h mi s = ground arith

plain_years : (n : ℕ) → ((pos (1970 + n) -ℤ pos 1970) *ℤ pos 365) ≡ pos (n * 365)
unfolding ◌-ℤ◌ ◌*ℤ◌
plain_years n = ground arith

days_to_year-least : (n : ℕ) → n * 365 ≤ days_to_year n
unfolding days_to_year year_length
days_to_year-least zero = omega arith
days_to_year-least (suc n) = ground (arith, days_to_year-least n)

in_long-below : (n k : ℕ) → n ≤ k → k < 2147483648 → in_long (pos n) ≡ true
in_long-below n k h below = ground arith

epoch_of-seconds :
    (a n m d h mi s : ℕ)
    → (a + d) * 86400 + h * 3600 + mi * 60 + s < 2147483648
    → epoch_of (pos a) (stamp_at n m d h mi s)
      ≡ some (pos ((a + d) * 86400 + h * 3600 + mi * 60 + s))
unfolding epoch_of ◌+ℤ◌ ◌-ℤ◌ ◌*ℤ◌
epoch_of-seconds a n m d h mi s below = ground (arith, below)

-- From 1970 to 2038-01-19T03:14:07 utc_epoch counts the seconds of the Gregorian calendar, for each of the
-- twelve months.
pub utc_epoch-seconds_to :
    (n m d h mi s : ℕ)
    → m < 12
    → seconds_to n m d h mi s < 2147483648
    → utc_epoch (stamp_at n m d h mi s) ≡ some (pos (seconds_to n m d h mi s))
unfolding utc_epoch seconds_to
utc_epoch-seconds_to n m d h mi s below early =
    let months : add_months (pos (1970 + n)) m 0 (pos (days_to_year n))
        ≡ some (pos (days_to_year n + days_to_month (1970 + n) m)) =
      ap (λ (k : ℕ). add_months (pos (1970 + n)) m 0 (pos k))
        (first_month (1970 + n) (days_to_year n))
      ∙ add_months-days_to_month (1970 + n) m 0 (days_to_year n) (omega arith)
      ∙ ap (λ (k : ℕ). some (pos (days_to_year n + days_to_month (1970 + n) k))) (omega arith) in
    let years : ((pos (1970 + n) -ℤ pos 1970) *ℤ pos 365) ≡ pos (n * 365) = plain_years n in
    let some_years : in_long (pos (n * 365)) ≡ true =
      in_long-below (n * 365) (days_to_year n) (days_to_year-least n) (omega arith) in
    let whole_years : in_long (pos (days_to_year n)) ≡ true =
      in_long-below (days_to_year n) (days_to_year n) (omega arith) (omega arith) in
    rw (years, year_days-days_to_year n, some_years, whole_years, rounds_lem m, months, utc_epoch)
      (epoch_of-seconds (days_to_year n + days_to_month (1970 + n) m) n m d h mi s early)

is_older-exact :
    (w c a : ℕ)
    → is_older (pos w) (pos c) (pos a) ≡ (if ltb (c + a * 86400) w then pos 1 else pos 0)
unfolding is_older ◌-ℤ◌ ◌*ℤ◌
is_older-exact w c a = ground arith

-- With a synchronised clock a calibration is expired exactly when the calendar's time from its stamp is
-- more than the days that are allowed, for a stamp in one of the twelve months from 1970 to
-- 2038-01-19T03:14:07, the last that a long of the device counts to.
pub is_expired-exact :
    (k : Clock) (text : CString) (w n m d h mi s a : ℕ)
    → k.now ≡ pos w
    → 1577836800 < w
    → text ≢ []
    → k.scan_stamp text ≡ some (stamp_at n m d h mi s)
    → m < 12
    → seconds_to n m d h mi s < 2147483648
    → is_expired k text (pos a)
      ≡ some (if ltb (seconds_to n m d h mi s + a * 86400) w then pos 1 else pos 0)
unfolding is_expired
is_expired-exact k [] w n m d h mi s a now late some_text scan below early = absurd (some_text refl)
is_expired-exact k (c ∷ cs) w n m d h mi s a now late some_text scan below early =
    let awake : ltb_ℤ synchronised (pos w) ≡ true = ground arith in
    rw (now, awake, is_expired)
      (rw (scan, is_expired)
        (rw (utc_epoch-seconds_to n m d h mi s below early, is_expired)
          (rw now (ap some (is_older-exact w (seconds_to n m d h mi s) a)))))
