-- ===== src/Cal/Clock.antt =====
-- src/tc_cal.c: utc_epoch and tc_cal_is_expired.
use test_controller.Base.{
  ℕ, zero, suc, Bool, not, ◌&&◌, ◌||◌, Option, none, some, List, [], ◌∷◌, CString, get_elem?, ltb,
  ◌==◌, if◌then◌else◌,
}
use test_controller.Base.Int.{ℤ, pos, negsuc, ◌+ℤ◌, ◌-ℤ◌, ◌*ℤ◌, tdiv, ltb_ℤ}
use test_controller.Cal.{is_zero}

-- The six numbers of a timestamp.
pub record Stamp : Type 0 where
  pub year : ℤ
  pub month : ℤ
  pub day : ℤ
  pub hour : ℤ
  pub minute : ℤ
  pub second : ℤ

-- What the C library gives: time(NULL); gmtime_r and strftime in the two formats that are used;
-- sscanf, `none` if it does not give six numbers; mktime of a year, a month from 0 and a day.
pub record Clock : Type 0 where
  pub now : ℤ
  pub utc_stamp : ℤ → CString
  pub utc_date : ℤ → CString
  pub scan_stamp : CString → Option Stamp
  pub mktime : ℤ → ℤ → ℤ → ℤ

-- 2020-01-01 00:00:00 UTC
abbrev pub synchronised : ℤ
synchronised = pos 1577836800

abbrev pub mdays : List ℕ
mdays = 31 ∷ 28 ∷ 31 ∷ 30 ∷ 31 ∷ 30 ∷ 31 ∷ 31 ∷ 30 ∷ 31 ∷ 30 ∷ 31 ∷ []

-- year % n == 0, for the remainder of C.
abbrev pub divides : ℤ → ℤ → Bool
divides n year = is_zero (year -ℤ n *ℤ tdiv year n)

-- The test in the loop over the months.
abbrev pub is_leap : ℤ → Bool
is_leap year = divides (pos 4) year && (not (divides (pos 100) year) || divides (pos 400) year)

-- The loop over the months: `n` rounds are left, from the month `m` on. Past the array of twelve the
-- source reads what lies behind it; the result is `none`.
unfoldable pub add_months : ℤ → ℕ → ℕ → ℤ → Option ℤ
add_months year zero m days = some days
add_months year (suc n) m days = elim (get_elem? mdays m) [
  | none ↦ none
  | some d ↦
      add_months year n (suc m)
        (days +ℤ pos d +ℤ (if (m == 1) && is_leap year then pos 1 else pos 0))
]

-- The days of the years in front of `year`.
unfoldable pub year_days : ℤ → ℤ
year_days year =
    let y1 = year -ℤ pos 1 in
    (year -ℤ pos 1970) *ℤ pos 365
    +ℤ (tdiv y1 (pos 4) -ℤ pos 492 -ℤ (tdiv y1 (pos 100) -ℤ pos 19) +ℤ (tdiv y1 (pos 400) -ℤ pos 4))

-- A month that is not positive has no round.
abbrev pub rounds : ℤ → ℕ
rounds (pos n) = n
rounds (negsuc n) = 0

-- What a long of the device holds, which has 32 bits.
abbrev pub in_long : ℤ → Bool
in_long (pos n) = ltb n 2147483648
in_long (negsuc n) = ltb n 2147483648

-- The last sum of utc_epoch, `none` where a value on the way overflows, which C leaves undefined.
unfoldable pub epoch_of : ℤ → Stamp → Option ℤ
epoch_of days t =
    let through_day = days +ℤ (t.day -ℤ pos 1) in
    let day_s = through_day *ℤ pos 86400 in
    let hour_s = t.hour *ℤ pos 3600 in
    let minute_s = t.minute *ℤ pos 60 in
    let with_hour = day_s +ℤ hour_s in
    let with_minute = with_hour +ℤ minute_s in
    let total = with_minute +ℤ t.second in
    if in_long days
      && in_long through_day
      && in_long day_s
      && in_long hour_s
      && in_long minute_s
      && in_long with_hour
      && in_long with_minute
      && in_long total
    then some total
    else none

-- `mon` counts from 0.
unfoldable pub utc_epoch : Stamp → Option ℤ
unfolding epoch_of
utc_epoch t =
    if not (in_long ((t.year -ℤ pos 1970) *ℤ pos 365)) || not (in_long (year_days t.year))
    then none
    else elim (add_months t.year (rounds (t.month -ℤ pos 1)) 0 (year_days t.year)) [
      | none ↦ none
      | some days ↦ epoch_of days t
    ]

-- The quotient by 86400.0 exceeds a whole number exactly when the difference exceeds as many days.
unfoldable pub is_older : ℤ → ℤ → ℤ → ℤ
is_older now cal_time max_age_days =
    if ltb_ℤ cal_time (pos 0)
    then negsuc 0
    else if ltb_ℤ (max_age_days *ℤ pos 86400) (now -ℤ cal_time)
    then pos 1
    else pos 0

-- tc_cal_is_expired, for the stored text; `none` where utc_epoch reads past its array or overflows.
unfoldable pub is_expired : Clock → CString → ℤ → Option ℤ
is_expired k [] max_age_days = some (negsuc 0)
is_expired k (c ∷ cs) max_age_days =
    if not (ltb_ℤ synchronised k.now) then some (negsuc 1) else elim (k.scan_stamp (c ∷ cs)) [
      | none ↦ some (negsuc 0)
      | some t ↦ elim (utc_epoch t) [
        | none ↦ none
        | some cal_time ↦ some (is_older k.now cal_time max_age_days)
      ]
    ]
