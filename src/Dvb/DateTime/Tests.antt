-- ===== src/Dvb/DateTime/Tests.antt =====
-- A leap day, a duration, and 1 January 1970 as the clock of a host.
use bitstream.Base.{ℕ, ◌+◌, ◌*◌, ◌/◌, ◌%◌, ◌≡◌, inl, refl, arith}
use bitstream.Dvb.DateTime
use bitstream.Dvb.DateTime.{Tm}
use bitstream.Dvb.DateTime.Days.{IsDate}
use bitstream.Dvb.DateTime.Times.{IsTm, time_decode_utc-time_encode_utc}

leap_day : IsDate 124 2 29
leap_day = record {
  month = (omega arith, omega arith);
  day = (omega arith, omega arith);
  since = inl (omega arith);
  until = omega arith;
}

-- The example of the standard.
october : DateTime.mjd_set 93 10 13 ≡ 49273
unfolding DateTime.mjd_set
october = refl

abbrev gmtime : ℕ → Tm
gmtime ts = record {
  year = 70;
  mon = 0;
  mday = 1;
  hour = ts / 3600;
  min = ts / 60 % 60;
  sec = ts % 60;
}

abbrev timegm : Tm → ℕ
timegm tm = tm.hour * 3600 + tm.min * 60 + tm.sec

first_day : IsTm (gmtime 3661)
first_day = record {
  date = record {
    month = (omega arith, omega arith);
    day = (omega arith, omega arith);
    since = inl (omega arith);
    until = omega arith;
  };
  hour = omega arith;
  min = omega arith;
  sec = omega arith;
}

time_decode_utc-time_encode_utc_example :
    DateTime.time_decode_utc timegm (DateTime.time_encode_utc gmtime 3661) ≡ 3661
time_decode_utc-time_encode_utc_example =
    time_decode_utc-time_encode_utc gmtime timegm 3661 first_day refl
