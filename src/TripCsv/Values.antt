-- ===== src/TripCsv/Values.antt =====
-- The fields of a row, read into a trip.
use cmpe275_enterprise_apps.Common.{
  ℕ, ◌+◌, ◌-◌, ◌*◌, not, ◌&&◌, ◌||◌, [], ◌∷◌, Option, none, some, ℤ, pos, negsuc, ltb, ◌==◌,
  if◌then◌else◌, length, take, Float32,
}
use cmpe275_enterprise_apps.Model.Trip.{TaxiTrip}
use cmpe275_enterprise_apps.Engine.{Bytes}
use cmpe275_enterprise_apps.Csv.Fields.{is_nil}
use cmpe275_enterprise_apps.Csv.Money.{is_digit}
use cmpe275_enterprise_apps.Csv.Dates.{char_at, ms_or_zero}
use cmpe275_enterprise_apps.Csv.Row.{Conversions}
use cmpe275_enterprise_apps.TripCsv.Money.{parse_money_cents}
use cmpe275_enterprise_apps.TripCsv.Columns.{
  Column, vendor_id, pickup_datetime, dropoff_datetime, passenger_count, trip_distance,
  rate_code_id, store_and_fwd_flag, pickup_location_id, drop_location_id, payment_type, fare_amount,
  extra, mta_tax, tip_amount, tolls_amount, improvement_surcharge, total_amount,
  congestion_surcharge, airport_fee,
}

-- Two digits at a position, or 0.
unfoldable pub to2 : Bytes → ℕ → ℕ
to2 s i =
    let a = char_at i s in
    let b = char_at (i + 1) s in
    if not (is_digit a) || not (is_digit b) then 0 else (a - b'0') * 10 + (b - b'0')

-- Four digits at a position, or 0.
unfoldable pub to4 : Bytes → ℕ → ℕ
to4 s i =
    let a = char_at i s in
    let b = char_at (i + 1) s in
    let c = char_at (i + 2) s in
    let d = char_at (i + 3) s in
    if not (is_digit a && is_digit b && is_digit c && is_digit d)
    then 0
    else (((a - b'0') * 10 + (b - b'0')) * 10 + (c - b'0')) * 10 + (d - b'0')

module _ (lib : Conversions) where
  unfoldable pub parse_epoch_ms : Bytes → ℤ
  parse_epoch_ms s =
      if ltb (length s) 19
      then pos 0
      else if not (
          char_at 4 s == b'-'
          && char_at 7 s == b'-'
          && char_at 10 s == b' '
          && char_at 13 s == b':'
          && char_at 16 s == b':')
      then pos 0
      else ms_or_zero (
          lib.timegm (record {
            year = to4 s 0;
            month = to2 s 5;
            day = to2 s 8;
            hour = to2 s 11;
            minute = to2 s 14;
            second = to2 s 17;
          }))

  -- `from_chars` has to read the whole field; the value is clamped.
  abbrev clamped : ℕ → Option (ℤ × Bytes) → ℕ
  clamped most none = 0
  clamped most (some (negsuc n, rest)) = 0
  clamped most (some (pos n, rest)) =
      if not (is_nil rest) then 0 else if ltb most n then most else n

  unfoldable pub parse_u8 : Bytes → ℕ
  parse_u8 s = if is_nil s then 0 else clamped 255 (lib.from_chars s)

  unfoldable pub parse_u16 : Bytes → ℕ
  parse_u16 s = if is_nil s then 0 else clamped 65535 (lib.from_chars s)

  abbrev number_or_zero : Option Float32 → Float32
  number_or_zero none = 0
  number_or_zero (some x) = x

  unfoldable pub parse_float : Bytes → Float32
  parse_float s = if is_nil s then 0 else number_or_zero (lib.strtof (take 63 s))

  unfoldable pub parse_store_and_fwd_flag : Bytes → ℕ
  parse_store_and_fwd_flag [] = 0
  parse_store_and_fwd_flag (c ∷ cs) =
      if c == b'Y' || c == b'y' then 1 else if c == b'N' || c == b'n' then 0 else parse_u8 (c ∷ cs)

  -- One field into the trip.
  unfoldable pub set_column : Option Column → Bytes → TaxiTrip → TaxiTrip
  set_column none s out = out
  set_column (some vendor_id) s out = record out { vendor_id = parse_u8 s }
  set_column (some pickup_datetime) s out = record out { pickup_epoch_ms = parse_epoch_ms s }
  set_column (some dropoff_datetime) s out = record out { dropoff_epoch_ms = parse_epoch_ms s }
  set_column (some passenger_count) s out = record out { passenger_count = parse_u8 s }
  set_column (some trip_distance) s out = record out { trip_distance = parse_float s }
  set_column (some rate_code_id) s out = record out { rate_code_id = parse_u8 s }
  set_column (some store_and_fwd_flag) s out = record out {
    store_and_fwd = parse_store_and_fwd_flag s;
  }
  set_column (some pickup_location_id) s out = record out { pickup_location_id = parse_u16 s }
  set_column (some drop_location_id) s out = record out { drop_location_id = parse_u16 s }
  set_column (some payment_type) s out = record out { payment_type = parse_u8 s }
  set_column (some fare_amount) s out = record out { fare_amount_cents = parse_money_cents s }
  set_column (some extra) s out = record out { extra_cents = parse_money_cents s }
  set_column (some mta_tax) s out = record out { mta_tax_cents = parse_money_cents s }
  set_column (some tip_amount) s out = record out { tip_amount_cents = parse_money_cents s }
  set_column (some tolls_amount) s out = record out { tolls_amount_cents = parse_money_cents s }
  set_column (some improvement_surcharge) s out = record out {
    improvement_surcharge_cents = parse_money_cents s;
  }
  set_column (some total_amount) s out = record out { total_amount_cents = parse_money_cents s }
  set_column (some congestion_surcharge) s out = record out {
    congestion_surcharge_cents = parse_money_cents s;
  }
  set_column (some airport_fee) s out = record out { airport_fee_cents = parse_money_cents s }
