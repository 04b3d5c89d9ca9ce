-- ===== src/Payment/Tests/Tokens.antt =====
-- Runs of the token of a charge, with a calendar whose months have 28 days: the witnesses of its
-- theorems.
use e_commerce.Common.{ℕ, ◌+◌, ◌-◌, ◌*◌, ◌/◌, ◌%◌, ◌≡◌, refl, true, List, [], ◌∷◌, arith}
use e_commerce.Payment.Charge.Token.{Calendar, single, encode, token_of, to_string}
use e_commerce.Payment.Charge.Token.Extract.{EndsIn, token_of-EndsIn}
use e_commerce.Payment.Charge.Token.RoundTrip.{IsCalendar, RoundTrips, encode-RoundTrips}

-- seconds since the year 0
abbrev pub Seconds : Type 0
Seconds = ℕ

instance abbrev pub seconds_calendar : Calendar Seconds
seconds_calendar = record {
  year_ce = λ t. (true, t / 29_030_400);
  month = λ t. t / 2_419_200 % 12 + 1;
  day = λ t. t / 86400 % 28 + 1;
  hour = λ t. t / 3600 % 24;
  minute = λ t. t / 60 % 60;
  second = λ t. t % 60;
  nanosecond = λ t. 0;
  with_ymd_and_hms = λ y mo d h mi s.
      single (((((y * 12 + (mo - 1)) * 28 + (d - 1)) * 24 + h) * 60 + mi) * 60 + s);
}

Seconds-found :
    (t : ℕ)
    → ((((t / 29_030_400 * 12 + (t / 2_419_200 % 12 + 1 - 1)) * 28 + (t / 86400 % 28 + 1 - 1)) * 24
                + t / 3600 % 24)
              * 60
            + t / 60 % 60)
          * 60
        + t % 60
      ≡ t
Seconds-found t = omega arith

pub Seconds-IsCalendar : IsCalendar Seconds
Seconds-IsCalendar = record {
  month_le = λ t. omega arith;
  day_le = λ t. omega arith;
  hour_le = λ t. omega arith;
  minute_le = λ t. omega arith;
  second_le = λ t. omega arith;
  found_again = λ t ce whole i. single (Seconds-found t i);
}

abbrev one_day : Seconds
one_day = 58_760_000_123

encode-RoundTrips_example : RoundTrips 4_000_000_001 one_day (encode 4_000_000_001 one_day)
encode-RoundTrips_example =
    encode-RoundTrips Seconds-IsCalendar 4_000_000_001 one_day (omega arith) refl (omega arith) refl

abbrev received : List ℕ
received = 238 ∷ 107 ∷ 40 ∷ 1 ∷ 31 ∷ 165 ∷ 66 ∷ 61 ∷ 200 ∷ []

token_of-EndsIn_example : EndsIn Seconds received (token_of received)
token_of-EndsIn_example = token_of-EndsIn Seconds received

received_hex : to_string received ≡ "ee6b28011fa5423dc8"
unfolding to_string
received_hex = refl
