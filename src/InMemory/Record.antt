-- ===== src/InMemory/Record.antt =====
-- taxiTripRecord.hpp, and taxiTripStore.hpp with taxiTripStore.cpp: a trip as a record and the store
-- of records, which is its vector. Getters and setters are the fields. A `char` is its byte.
use cmpe275_enterprise_apps.Common.{ℕ, List, [], ◌∷◌, ◌++◌, Option, ℤ, pos, Float32}

pub record TaxiTripRecord : Type 0 where
  pub vendor_id : ℤ
  pub pickup_datetime : ℤ
  pub dropoff_datetime : ℤ
  pub passenger_count : ℤ
  pub trip_distance : Float32
  pub rate_code_id : ℤ
  pub store_and_fwd_flag : ℕ
  pub pu_location_id : ℤ
  pub do_location_id : ℤ
  pub payment_type : ℤ
  pub fare_amount : ℤ
  pub extra : ℤ
  pub mta_tax : ℤ
  pub tip_amount : ℤ
  pub tolls_amount : ℤ
  pub improvement_surcharge : ℤ
  pub total_amount : ℤ
  pub congestion_surcharge : ℤ

abbrev pub zero_record : TaxiTripRecord
zero_record = record {
  vendor_id = pos 0;
  pickup_datetime = pos 0;
  dropoff_datetime = pos 0;
  passenger_count = pos 0;
  trip_distance = 0;
  rate_code_id = pos 0;
  store_and_fwd_flag = 0;
  pu_location_id = pos 0;
  do_location_id = pos 0;
  payment_type = pos 0;
  fare_amount = pos 0;
  extra = pos 0;
  mta_tax = pos 0;
  tip_amount = pos 0;
  tolls_amount = pos 0;
  improvement_surcharge = pos 0;
  total_amount = pos 0;
  congestion_surcharge = pos 0;
}

abbrev pub TaxiTripStore : Type 0
TaxiTripStore = List TaxiTripRecord

unfoldable pub add_record : TaxiTripRecord → TaxiTripStore → TaxiTripStore
add_record r store = store ++ r ∷ []

unfoldable pub append_all : List TaxiTripRecord → TaxiTripStore → TaxiTripStore
append_all batch store = store ++ batch

-- A pointer into the store is the place that it points to; `none` is the null pointer.
abbrev pub Pointer : Type 0
Pointer = Option ℕ
