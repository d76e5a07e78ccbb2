-- ===== src/Dvb/DateTime/Times.antt =====
-- Times and durations, and points in time.
use bitstream.Base.{
  ℕ, ◌+◌, ◌-◌, ◌*◌, ◌/◌, ◌%◌, ◌^◌, ◌<◌, ◌≡◌, ap, ap₂, ◌∙◌, bit_and, bit_or, u32, u64, ◌<<◌, ◌>>◌,
  arith,
}
use bitstream.Base.Bits.{masks, bit_or_disjoint, bit_and_mask}
use bitstream.Dvb.DateTime
use bitstream.Dvb.DateTime.{Date, Time, Tm}
use bitstream.Dvb.DateTime.Days.{IsDate, mjd_get-mjd_set}

-- Three numbers of two digits in three bytes.
abbrev bcd_of : ℕ → ℕ → ℕ → ℕ
bcd_of h m s =
    bit_or (bit_or (u32 (DateTime.dec2bcd h << 16)) (u32 (DateTime.dec2bcd m << 8)))
      (u32 (DateTime.dec2bcd s))

dec2bcd_lt : (x : ℕ) → x < 100 → DateTime.dec2bcd x < 256
unfolding DateTime.dec2bcd
dec2bcd_lt x h = omega (arith, h)

bcd2dec-dec2bcd : (x : ℕ) → x < 100 → DateTime.bcd2dec (DateTime.dec2bcd x) ≡ x
unfolding DateTime.bcd2dec DateTime.dec2bcd
bcd2dec-dec2bcd x h = omega (arith, h)

abbrev bytes : ℕ → ℕ → ℕ → ℕ
bytes h m s = bit_or (bit_or (u32 (h << 16)) (u32 (m << 8))) (u32 s)

bytes_lem : (h m s : ℕ) → h < 256 → m < 256 → s < 256 → bytes h m s ≡ h * 65536 + m * 256 + s
bytes_lem h m s a b c = omega (masks, bit_or_disjoint 16, bit_or_disjoint 8, a, b, c)

pub Time_ext :
    {a b : Time} → a.hour ≡ b.hour → a.min ≡ b.min → a.sec ≡ b.sec → a.seconds ≡ b.seconds → a ≡ b
Time_ext e f g k = λ i. record { hour = e i; min = f i; sec = g i; seconds = k i }

byte_of :
    (h m s : ℕ)
    → h < 256
    → m < 256
    → s < 256
    → (bit_and (bytes h m s >> 16) 0xff ≡ h)
      × (bit_and (bytes h m s >> 8) 0xff ≡ m)
      × (bit_and (bytes h m s) 0xff ≡ s)
byte_of h m s a b c =
    let whole = bytes_lem h m s a b c in
    (omega (masks, whole, a, b, c), omega (masks, whole, a, b, c), omega (masks, whole, a, b, c))

decode_lem :
    (h m s : ℕ)
    → h < 100
    → m < 100
    → s < 100
    → DateTime.time_decode_bcd (bcd_of h m s)
      ≡ record { hour = h; min = m; sec = s; seconds = h * 3600 + m * 60 + s }
unfolding DateTime.time_decode_bcd
decode_lem h m s a b c =
    let (hour, min, sec) =
      byte_of (DateTime.dec2bcd h) (DateTime.dec2bcd m) (DateTime.dec2bcd s) (dec2bcd_lt h a)
        (dec2bcd_lt m b) (dec2bcd_lt s c) in
    let x = ap (λ (t : ℕ). DateTime.bcd2dec t) hour ∙ bcd2dec-dec2bcd h a in
    let y = ap (λ (t : ℕ). DateTime.bcd2dec t) min ∙ bcd2dec-dec2bcd m b in
    let z = ap (λ (t : ℕ). DateTime.bcd2dec t) sec ∙ bcd2dec-dec2bcd s c in
    Time_ext x y z (omega (arith, x, y, z))

-- `dvb_time_decode_bcd` gives back the seconds of every duration below a hundred hours that
-- `dvb_time_encode_duration` has written, as hours, minutes and seconds and as one number.
pub time_decode_bcd-time_encode_duration :
    (duration_sec : ℕ)
    → duration_sec < 360000
    → DateTime.time_decode_bcd (DateTime.time_encode_duration duration_sec) ≡ record {
      hour = duration_sec / 3600;
      min = duration_sec / 60 % 60;
      sec = duration_sec % 60;
      seconds = duration_sec;
    }
unfolding DateTime.time_encode_duration
time_decode_bcd-time_encode_duration n h =
    decode_lem _ _ _ (omega (arith, h)) (omega (arith, h)) (omega (arith, h))
    ∙ Time_ext (omega arith) (omega arith) (omega arith) (omega arith)

-- The fields of a point in time that 16 bits of days can hold.
pub record IsTm (tm : Tm) : Type 0 where
  pub date : IsDate (tm.year) (tm.mon + 1) (tm.mday)
  pub hour : tm.hour < 24
  pub min : tm.min < 60
  pub sec : tm.sec < 60

and_0xffff : (x : ℕ) → bit_and x 0xffff ≡ x % 2 ^ 16
and_0xffff x = bit_and_mask 16 x

and_0xffffff : (x : ℕ) → bit_and x 0xffffff ≡ x % 2 ^ 24
and_0xffffff x = bit_and_mask 24 x

-- The day and the time of a number of forty bits.
parts_lem :
    (mjd bcd : ℕ)
    → mjd < 2 ^ 16
    → bcd < 2 ^ 24
    → (bit_and (bit_or (u64 (mjd << 24)) bcd >> 24) 0xffff ≡ mjd)
      × (bit_and (bit_or (u64 (mjd << 24)) bcd) 0xffffff ≡ bcd)
parts_lem mjd bcd h k =
    let whole : bit_or (u64 (mjd << 24)) bcd ≡ mjd * 2 ^ 24 + bcd =
      omega (arith, bit_or_disjoint 24 (u64 (mjd << 24)) bcd, h, k) in
    (
      omega (arith, and_0xffff (bit_or (u64 (mjd << 24)) bcd >> 24), whole, h, k),
      omega (arith, and_0xffffff (bit_or (u64 (mjd << 24)) bcd), whole, h, k),
    )

mjd_set_lt : (y m d : ℕ) → DateTime.mjd_set y m d < 2 ^ 16
unfolding DateTime.mjd_set
mjd_set_lt y m d = omega arith

bcd_of_lt : (h m s : ℕ) → h < 100 → m < 100 → s < 100 → bcd_of h m s < 2 ^ 24
bcd_of_lt h m s a b c = omega (
  arith,
  bytes_lem (DateTime.dec2bcd h) (DateTime.dec2bcd m) (DateTime.dec2bcd s) (dec2bcd_lt h a)
      (dec2bcd_lt m b) (dec2bcd_lt s c),
  dec2bcd_lt h a,
  dec2bcd_lt m b,
  dec2bcd_lt s c,
)

abbrev tm_of : Date → Time → Tm
tm_of date time = record {
  year = date.year;
  mon = date.month - 1;
  mday = date.day;
  hour = time.hour;
  min = time.min;
  sec = time.sec;
}

month_back : (m : ℕ) → m + 1 - 1 ≡ m
month_back m = omega arith

-- `dvb_time_decode_UTC` gives back every point in time that `dvb_time_encode_UTC` has written, where
-- `gmtime_r` makes of it a date from 1 March 1900 to 31 December 2037 and a time of the day, and
-- `timegm` takes these back.
pub time_decode_utc-time_encode_utc :
    (gmtime : ℕ → Tm) (timegm : Tm → ℕ) (ts : ℕ)
    → IsTm (gmtime ts)
    → timegm (gmtime ts) ≡ ts
    → DateTime.time_decode_utc timegm (DateTime.time_encode_utc gmtime ts) ≡ ts
unfolding DateTime.time_decode_utc DateTime.time_encode_utc
time_decode_utc-time_encode_utc gmtime timegm ts t inverse =
    let tm = gmtime ts in
    let mjd = DateTime.mjd_set (tm.year) (tm.mon + 1) (tm.mday) in
    let bcd : ℕ = bcd_of (tm.hour) (tm.min) (tm.sec) in
    let hour : tm.hour < 100 = omega (arith, t.hour) in
    let min : tm.min < 100 = omega (arith, t.min) in
    let sec : tm.sec < 100 = omega (arith, t.sec) in
    let (day_part, time_part) =
      parts_lem mjd bcd (mjd_set_lt (tm.year) (tm.mon + 1) (tm.mday))
        (bcd_of_lt (tm.hour) (tm.min) (tm.sec) hour min sec) in
    ap₂ (λ (x y : ℕ). timegm (tm_of (DateTime.mjd_get x) (DateTime.time_decode_bcd y))) day_part
      time_part
    ∙ ap₂ (λ (d : Date) (c : Time). timegm (tm_of d c))
        (mjd_get-mjd_set (tm.year) (tm.mon + 1) (tm.mday) (t.date))
        (decode_lem (tm.hour) (tm.min) (tm.sec) hour min sec)
    ∙ ap timegm (λ i. record {
      year = tm.year;
      mon = month_back (tm.mon) i;
      mday = tm.mday;
      hour = tm.hour;
      min = tm.min;
      sec = tm.sec;
    })
    ∙ inverse
