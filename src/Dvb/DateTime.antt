-- ===== src/Dvb/DateTime.antt =====
-- dvb/si/datetime.h: dates as modified Julian days, times and durations in binary-coded decimal. The
-- dates are those from 1 March 1900 on, the day 15079, from where no difference of the formulas is
-- negative; years count from 1900. `timegm` and `gmtime_r` are parameters.
pub mod Days
pub mod Times
mod Tests
use bitstream.Base.{
  ℕ, ◌+◌, ◌-◌, ◌*◌, ◌/◌, ◌%◌, ◌^◌, ◌==◌, ◌||◌, bit_and, bit_or, u16, u32, u64, ◌<<◌, ◌>>◌,
  if◌then◌else◌,
}

unfoldable pub mjd_set : ℕ → ℕ → ℕ → ℕ
mjd_set y m d =
    let l = if m == 1 || m == 2 then 1 else 0 in
    u16 (14956 + d + (y - l) * 1461 / 4 + (m + 1 + l * 12) * 306001 / 10000)

-- `*y`, `*m` and `*d`
pub record Date : Type 0 where
  pub year : ℕ
  pub month : ℕ
  pub day : ℕ

unfoldable pub mjd_get : ℕ → Date
mjd_get mjd =
    let yp = (mjd * 20 - 301564) / 7305 in
    let mp = (mjd * 10000 - 149561000 - 10000 * (yp * 1461 / 4)) / 306001 in
    let k = if mp == 14 || mp == 15 then 1 else 0 in
    record {
      year = yp + k;
      month = mp - 1 - k * 12;
      day = mjd - 14956 - yp * 1461 / 4 - mp * 306001 / 10000;
    }

-- `bcd2dec` and `dec2bcd`
unfoldable pub bcd2dec : ℕ → ℕ
bcd2dec bcd = (bcd >> 4) * 10 + bcd % 16

unfoldable pub dec2bcd : ℕ → ℕ
dec2bcd dec = (dec / 10 << 4) + dec % 10

-- `*hour`, `*min`, `*sec` and `*seconds`
pub record Time : Type 0 where
  pub hour : ℕ
  pub min : ℕ
  pub sec : ℕ
  pub seconds : ℕ

unfoldable pub time_decode_bcd : ℕ → Time
unfolding bcd2dec
time_decode_bcd bcd =
    let hour = bcd2dec (bit_and (bcd >> 16) 0xff) in
    let min = bcd2dec (bit_and (bcd >> 8) 0xff) in
    let sec = bcd2dec (bit_and bcd 0xff) in
    record { hour = hour; min = min; sec = sec; seconds = hour * 3600 + min * 60 + sec }

-- Without seconds.
unfoldable pub time_decode_bcd16 : ℕ → Time
unfolding bcd2dec
time_decode_bcd16 bcd =
    let hour = bcd2dec (bit_and (bcd >> 8) 0xff) in
    let min = bcd2dec (bit_and bcd 0xff) in
    record { hour = hour; min = min; sec = 0; seconds = hour * 3600 + min * 60 }

-- The fields of `struct tm` that are used, named without `tm_`.
pub record Tm : Type 0 where
  pub year : ℕ
  pub mon : ℕ
  pub mday : ℕ
  pub hour : ℕ
  pub min : ℕ
  pub sec : ℕ

unfoldable pub time_decode_utc : (Tm → ℕ) → ℕ → ℕ
unfolding mjd_get time_decode_bcd
time_decode_utc timegm utc =
    let date = mjd_get (bit_and (utc >> 24) 0xffff) in
    let time = time_decode_bcd (bit_and utc 0xffffff) in
    timegm (record {
      year = date.year;
      mon = date.month - 1;
      mday = date.day;
      hour = time.hour;
      min = time.min;
      sec = time.sec;
    })

unfoldable pub time_encode_utc : (ℕ → Tm) → ℕ → ℕ
unfolding mjd_set dec2bcd
time_encode_utc gmtime ts =
    let tm = gmtime ts in
    let mjd = mjd_set tm.year (tm.mon + 1) tm.mday in
    let bcd =
      bit_or (bit_or (u32 (dec2bcd tm.hour << 16)) (u32 (dec2bcd tm.min << 8)))
        (u32 (dec2bcd tm.sec)) in
    bit_or (u64 (mjd << 24)) bcd

unfoldable pub time_encode_duration : ℕ → ℕ
unfolding dec2bcd
time_encode_duration duration_sec =
    let t_sec = duration_sec % 60 in
    let minutes = (duration_sec - t_sec) / 60 in
    let t_hour = (minutes - minutes % 60) / 60 in
    let t_min = minutes - t_hour * 60 in
    bit_or (bit_or (u32 (dec2bcd t_hour << 16)) (u32 (dec2bcd t_min << 8))) (u32 (dec2bcd t_sec))

unfoldable pub time_encode_duration16 : ℕ → ℕ
unfolding dec2bcd
time_encode_duration16 duration_min =
    let t_min = duration_min % 60 in
    let t_hour = duration_min / 60 in bit_or (u32 (dec2bcd t_hour << 8)) (u32 (dec2bcd t_min))
