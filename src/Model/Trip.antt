-- ===== src/Model/Trip.antt =====
-- One taxi trip (basic/src/model/TaxiTrip.hpp) and one parsed CSV row
-- (basic/src/dataset/PartitionCsvParser.hpp). Signed fields are integers, a float its 32 bits.
use cmpe275_enterprise_apps.Common.{ℕ, ◌%◌, ℤ, pos, negsuc, ◌-◌, Float32}

pub record TaxiTrip : Type 0 where
  pub pickup_epoch_ms : ℤ
  pub dropoff_epoch_ms : ℤ
  pub vendor_id : ℕ
  pub passenger_count : ℕ
  pub payment_type : ℕ
  pub store_and_fwd : ℕ
  pub rate_code_id : ℕ
  pub pickup_location_id : ℕ
  pub drop_location_id : ℕ
  pub trip_distance : Float32
  pub fare_amount_cents : ℤ
  pub extra_cents : ℤ
  pub mta_tax_cents : ℤ
  pub tip_amount_cents : ℤ
  pub tolls_amount_cents : ℤ
  pub improvement_surcharge_cents : ℤ
  pub total_amount_cents : ℤ
  pub congestion_surcharge_cents : ℤ
  pub airport_fee_cents : ℤ

abbrev pub empty_trip : TaxiTrip
empty_trip = record {
  pickup_epoch_ms = pos 0;
  dropoff_epoch_ms = pos 0;
  vendor_id = 0;
  passenger_count = 0;
  payment_type = 0;
  store_and_fwd = 0;
  rate_code_id = 0;
  pickup_location_id = 0;
  drop_location_id = 0;
  trip_distance = 0;
  fare_amount_cents = pos 0;
  extra_cents = pos 0;
  mta_tax_cents = pos 0;
  tip_amount_cents = pos 0;
  tolls_amount_cents = pos 0;
  improvement_surcharge_cents = pos 0;
  total_amount_cents = pos 0;
  congestion_surcharge_cents = pos 0;
  airport_fee_cents = pos 0;
}

pub record ParsedPartitionRow : Type 0 where
  pub pickup_datetime : ℤ
  pub dropoff_datetime : ℤ
  pub trip_distance : Float32
  pub payment_type : ℤ
  pub tip_amount_cents : ℤ
  pub total_amount_cents : ℤ

abbrev pub empty_row : ParsedPartitionRow
empty_row = record {
  pickup_datetime = pos 0;
  dropoff_datetime = pos 0;
  trip_distance = 0;
  payment_type = pos 0;
  tip_amount_cents = pos 0;
  total_amount_cents = pos 0;
}

-- `static_cast<uint8_t>`.
abbrev pub to_u8 : ℤ → ℕ
to_u8 (pos n) = n % 256
to_u8 (negsuc n) = 255 - n % 256

-- `static_cast<uint16_t>`.
abbrev pub to_u16 : ℤ → ℕ
to_u16 (pos n) = n % 65536
to_u16 (negsuc n) = 65535 - n % 65536

unfoldable pub to_taxi_trip : ParsedPartitionRow → TaxiTrip
to_taxi_trip row = record empty_trip {
  pickup_epoch_ms = row.pickup_datetime;
  dropoff_epoch_ms = row.dropoff_datetime;
  payment_type = to_u8 row.payment_type;
  trip_distance = row.trip_distance;
  tip_amount_cents = row.tip_amount_cents;
  total_amount_cents = row.total_amount_cents;
}
