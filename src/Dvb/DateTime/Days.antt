-- ===== src/Dvb/DateTime/Days.antt =====
-- Dates and their days.
use bitstream.Base.{
  ℕ, zero, suc, ◌-◌, ◌*◌, ◌/◌, ◌%◌, ◌^◌, ◌≤◌, ◌<◌, ◌≡◌, ◌⊎◌, ◌==◌, ◌||◌, if◌then◌else◌, arith,
}
use bitstream.Dvb.DateTime
use bitstream.Dvb.DateTime.{Date}

-- The days before the year that starts with March, and before its month.
abbrev year_days : ℕ → ℕ
year_days yp = yp * 1461 / 4

abbrev month_days : ℕ → ℕ
month_days mp = mp * 306001 / 10000

year_of :
    (mjd : ℕ)
    → 15079 ≤ mjd
    → (15079 ≤ mjd - year_days ((mjd * 20 - 301564) / 7305))
      × (mjd - year_days ((mjd * 20 - 301564) / 7305) ≤ 15444)
year_of mjd h = (omega (arith, h), omega (arith, h))

-- `dvb_mjd_set` gives back every day that `dvb_mjd_get` takes, from 1 March 1900 on.
pub mjd_set-mjd_get :
    (mjd : ℕ)
    → 15079 ≤ mjd
    → mjd < 2 ^ 16
    → DateTime.mjd_set
        ((DateTime.mjd_get mjd).year)
        ((DateTime.mjd_get mjd).month)
        ((DateTime.mjd_get mjd).day)
      ≡ mjd
unfolding DateTime.mjd_set DateTime.mjd_get
mjd_set-mjd_get mjd h k = ground (arith, h, k, year_of mjd h)

-- The days of a month, of the years 1901 to 2099 and of 1900 from March on.
abbrev pub days_in : ℕ → ℕ → ℕ
days_in y m =
    if m == 2
    then (if y % 4 == 0 then 29 else 28)
    else if m == 4 || (m == 6 || (m == 9 || m == 11))
    then 30
    else 31

-- A date from 1 March 1900 to 31 December 2037, whose day has 16 bits.
pub record IsDate (y m d : ℕ) : Type 0 where
  pub month : (1 ≤ m) × (m ≤ 12)
  pub day : (1 ≤ d) × (d ≤ days_in y m)
  pub since : (1 ≤ y) ⊎ (3 ≤ m)
  pub until : y < 138

-- The whole of a date in its day, month by month.
fields :
    (m y d : ℕ)
    → IsDate y m d
    → ((DateTime.mjd_get (DateTime.mjd_set y m d)).year ≡ y)
      × ((DateTime.mjd_get (DateTime.mjd_set y m d)).month ≡ m)
      × ((DateTime.mjd_get (DateTime.mjd_set y m d)).day ≡ d)
unfolding DateTime.mjd_set DateTime.mjd_get
fields zero y d h = absurd (omega (arith, h.month))
fields (suc zero) y d h = ground (arith, h.month, h.day, h.since, h.until)
fields (suc (suc zero)) y d h = ground (arith, h.month, h.day, h.since, h.until)
fields (suc (suc (suc zero))) y d h = ground (arith, h.month, h.day, h.since, h.until)
fields (suc (suc (suc (suc zero)))) y d h = ground (arith, h.month, h.day, h.since, h.until)
fields (suc (suc (suc (suc (suc zero))))) y d h = ground (arith, h.month, h.day, h.since, h.until)
fields (suc (suc (suc (suc (suc (suc zero)))))) y d h =
    ground (arith, h.month, h.day, h.since, h.until)
fields (suc (suc (suc (suc (suc (suc (suc zero))))))) y d h =
    ground (arith, h.month, h.day, h.since, h.until)
fields (suc (suc (suc (suc (suc (suc (suc (suc zero)))))))) y d h =
    ground (arith, h.month, h.day, h.since, h.until)
fields (suc (suc (suc (suc (suc (suc (suc (suc (suc zero))))))))) y d h =
    ground (arith, h.month, h.day, h.since, h.until)
fields (suc (suc (suc (suc (suc (suc (suc (suc (suc (suc zero)))))))))) y d h =
    ground (arith, h.month, h.day, h.since, h.until)
fields (suc (suc (suc (suc (suc (suc (suc (suc (suc (suc (suc zero))))))))))) y d h =
    ground (arith, h.month, h.day, h.since, h.until)
fields (suc (suc (suc (suc (suc (suc (suc (suc (suc (suc (suc (suc zero)))))))))))) y d h =
    ground (arith, h.month, h.day, h.since, h.until)
fields (suc (suc (suc (suc (suc (suc (suc (suc (suc (suc (suc (suc (suc m))))))))))))) y d h =
    absurd (omega (arith, h.month))

pub Date_ext : {a b : Date} → a.year ≡ b.year → a.month ≡ b.month → a.day ≡ b.day → a ≡ b
Date_ext e f g = λ i. record { year = e i; month = f i; day = g i }

-- `dvb_mjd_get` gives back every date from 1 March 1900 to 31 December 2037 of which `dvb_mjd_set` made
-- a day.
pub mjd_get-mjd_set :
    (y m d : ℕ)
    → IsDate y m d
    → DateTime.mjd_get (DateTime.mjd_set y m d) ≡ record { year = y; month = m; day = d }
mjd_get-mjd_set y m d h = let (year, month, day) = fields m y d h in Date_ext year month day
